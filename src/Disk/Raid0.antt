-- ===== src/Disk/Raid0.antt =====
-- src/block/raid0disk.c: blocks dealt out in turn over an array of stores.
pub mod Contents
use cs4411_p.Prelude.{
  ℕ, zero, suc, ◌/◌, ◌%◌, ℤ, pos, err, to_int, to_word, is_neg, add_word, not, some, List, [], ◌∷◌,
  ◌==◌, if◌then◌else◌, get_elem?, set, length, Run, ◌>>=◌,
}
use cs4411_p.Store.{Block, BlockStore}

-- `struct raid0disk_state`: `nbelow` is the length of the array. Its elements are distinct stores.
pub record Raid0Disk (S : Type 0) : Type 0 where
  pub below : List S

module _ {S : Type 0} (bs : BlockStore S) where
  unfoldable pub getninodes : Raid0Disk S → Run (ℤ × Raid0Disk S)
  getninodes s = some (pos 1, s)

  -- The loop of `getsize` with `n` rounds left: each asks store 0.
  unfoldable pub total_size : ℕ → List S → ℕ → ℕ → Run (ℤ × List S)
  total_size zero stores ino total = some (to_int total, stores)
  total_size (suc n) stores ino total = do
    t ← get_elem? stores 0
    (r, t') ← bs.getsize t ino
    if is_neg r
        then some (r, set stores 0 t')
        else total_size n (set stores 0 t') ino (add_word total (to_word r))

  unfoldable pub getsize : Raid0Disk S → ℕ → Run (ℤ × Raid0Disk S)
  unfolding total_size
  getsize s ino = if not (ino == 0) then some (err, s) else do
    (r, stores) ← total_size (length s.below) s.below ino 0
    some (r, record { below = stores })

  unfoldable pub setsize : Raid0Disk S → ℕ → ℕ → Run (ℤ × Raid0Disk S)
  setsize s ino nblocks = some (err, s)

  -- `offset % nbelow` of an empty array is a division by zero: the array access that follows stops.
  unfoldable pub read : Raid0Disk S → ℕ → ℕ → Block → Run (ℤ × Block × Raid0Disk S)
  read s ino offset block = if not (ino == 0) then some (err, block, s) else do
    let i = offset % length s.below
    t ← get_elem? s.below i
    (r, b, t') ← bs.read t ino (offset / length s.below) block
    some (r, b, record { below = set s.below i t' })

  unfoldable pub write : Raid0Disk S → ℕ → ℕ → Block → Run (ℤ × Raid0Disk S)
  write s ino offset block = if not (ino == 0) then some (err, s) else do
    let i = offset % length s.below
    t ← get_elem? s.below i
    (r, t') ← bs.write t ino (offset / length s.below) block
    some (r, record { below = set s.below i t' })

  -- The loop of `sync` over the stores that are left: the first that fails ends it.
  unfoldable pub sync_all : List S → ℕ → Run (ℤ × List S)
  sync_all [] ino = some (pos 0, [])
  sync_all (t ∷ stores) ino = do
    (r, t') ← bs.sync t ino
    if is_neg r
        then some (err, t' ∷ stores)
        else do (r', stores') ← sync_all stores ino; some (r', t' ∷ stores')

  unfoldable pub sync : Raid0Disk S → ℕ → Run (ℤ × Raid0Disk S)
  unfolding sync_all
  sync s ino = do (r, stores) ← sync_all s.below ino; some (r, record { below = stores })

  abbrev pub ops : BlockStore (Raid0Disk S)
  ops = record {
    getninodes = getninodes;
    getsize = getsize;
    setsize = setsize;
    read = read;
    write = write;
    sync = sync;
  }

unfoldable pub init : {S : Type 0} → List S → Raid0Disk S
init below = record { below = below }
