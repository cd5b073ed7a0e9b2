-- ===== src/Disk/Raid4.antt =====
-- src/block/raid4disk.c, as far as it is written: sizes, reads and writes are left open in the source.
use cs4411_p.Prelude.{
  ℕ, ℤ, pos, err, is_neg, not, Option, none, some, List, [], ◌∷◌, ◌==◌, leb, if◌then◌else◌, length,
  Run, ◌>>=◌,
}
use cs4411_p.Store.{Block, BlockStore}

-- `struct raid4disk_state`: `nbelow` is the length of the array. Its elements are distinct stores.
pub record Raid4Disk (S : Type 0) : Type 0 where
  pub below : List S

module _ {S : Type 0} (bs : BlockStore S) where
  unfoldable pub getninodes : Raid4Disk S → Run (ℤ × Raid4Disk S)
  getninodes s = some (pos 1, s)

  unfoldable pub getsize : Raid4Disk S → ℕ → Run (ℤ × Raid4Disk S)
  getsize s ino = some (err, s)

  unfoldable pub setsize_all : List S → ℕ → Run (List S)
  setsize_all [] nblocks = some []
  setsize_all (t ∷ stores) nblocks = do
    (_, t') ← bs.setsize t 0 nblocks
    stores' ← setsize_all stores nblocks
    some (t' ∷ stores')

  unfoldable pub setsize : Raid4Disk S → ℕ → ℕ → Run (ℤ × Raid4Disk S)
  unfolding setsize_all
  setsize s ino nblocks =
      if not (ino == 0)
      then some (err, s)
      else do stores ← setsize_all s.below nblocks; some (pos 0, record { below = stores })

  unfoldable pub read : Raid4Disk S → ℕ → ℕ → Block → Run (ℤ × Block × Raid4Disk S)
  read s ino offset block = if not (ino == 0) then some (err, block, s) else some (pos 0, block, s)

  unfoldable pub write : Raid4Disk S → ℕ → ℕ → Block → Run (ℤ × Raid4Disk S)
  write s ino offset block = some (err, s)

  unfoldable pub sync_all : List S → ℕ → Run (ℤ × List S)
  sync_all [] ino = some (pos 0, [])
  sync_all (t ∷ stores) ino = do
    (r, t') ← bs.sync t ino
    if is_neg r
        then some (err, t' ∷ stores)
        else do (r', stores') ← sync_all stores ino; some (r', t' ∷ stores')

  unfoldable pub sync : Raid4Disk S → ℕ → Run (ℤ × Raid4Disk S)
  unfolding sync_all
  sync s ino = do (r, stores) ← sync_all s.below ino; some (r, record { below = stores })

  abbrev pub ops : BlockStore (Raid4Disk S)
  ops = record {
    getninodes = getninodes;
    getsize = getsize;
    setsize = setsize;
    read = read;
    write = write;
    sync = sync;
  }

-- Fewer than two stores are refused, with a null pointer.
unfoldable pub init : {S : Type 0} → List S → Option (Raid4Disk S)
init below = if leb (length below) 1 then none else some (record { below = below })
