-- ===== src/Disk/Raid1.antt =====
-- src/block/raid1disk.c: every store of the array holds the same blocks.
pub mod Contents
pub mod Available
use cs4411_p.Prelude.{
  ℕ, ℤ, pos, err, is_neg, Bool, true, false, not, some, List, [], ◌∷◌, map, if◌then◌else◌, Run,
  ◌>>=◌,
}
use cs4411_p.Store.{Block, BlockStore}

-- A store of the array `below`, with its element of the array `broken`.
pub record Drive (S : Type 0) : Type 0 where
  pub store : S
  pub broken : Bool

-- `struct raid1disk_state`: `nbelow` is the length of the list. The stores are distinct.
pub record Raid1Disk (S : Type 0) : Type 0 where
  pub drives : List (Drive S)

module _ {S : Type 0} (bs : BlockStore S) where
  -- The loops over the drives that are left.
  unfoldable pub getninodes_any : List (Drive S) → Run (ℤ × List (Drive S))
  getninodes_any [] = some (err, [])
  getninodes_any (d ∷ ds) =
      let rest : Run (ℤ × List (Drive S)) = getninodes_any ds in
      if d.broken then (do (r, ds') ← rest; some (r, d ∷ ds')) else do
        (n, t) ← bs.getninodes d.store
        if is_neg n
            then (do (r, ds') ← rest; some (r, record { store = t; broken = true } ∷ ds'))
            else some (n, record d { store = t } ∷ ds)

  unfoldable pub getsize_any : List (Drive S) → ℕ → Run (ℤ × List (Drive S))
  getsize_any [] ino = some (err, [])
  getsize_any (d ∷ ds) ino =
      let rest : Run (ℤ × List (Drive S)) = getsize_any ds ino in
      if d.broken then (do (r, ds') ← rest; some (r, d ∷ ds')) else do
        (n, t) ← bs.getsize d.store ino
        if is_neg n
            then (do (r, ds') ← rest; some (r, record { store = t; broken = true } ∷ ds'))
            else some (n, record d { store = t } ∷ ds)

  -- Broken drives are resized too.
  unfoldable pub setsize_all : List (Drive S) → ℕ → ℕ → ℤ → Run (ℤ × List (Drive S))
  setsize_all [] ino nblocks oldsize = some (oldsize, [])
  setsize_all (d ∷ ds) ino nblocks oldsize = do
    (r, t) ← bs.setsize d.store ino nblocks
    (old, ds') ← setsize_all ds ino nblocks (if is_neg r then oldsize else r)
    some (old, record { store = t; broken = if is_neg r then true else d.broken } ∷ ds')

  unfoldable pub read_any : List (Drive S) → ℕ → ℕ → Block → Run (ℤ × Block × List (Drive S))
  read_any [] ino offset block = some (err, block, [])
  read_any (d ∷ ds) ino offset block =
      if d.broken then (do (r, b, ds') ← read_any ds ino offset block; some (r, b, d ∷ ds')) else do
        (r, b, t) ← bs.read d.store ino offset block
        if not (is_neg r) then some (pos 0, b, record d { store = t } ∷ ds) else do
          (r', b', ds') ← read_any ds ino offset b
          some (r', b', record d { store = t } ∷ ds')

  unfoldable pub write_all : List (Drive S) → ℕ → ℕ → Block → ℤ → Run (ℤ × List (Drive S))
  write_all [] ino offset block result = some (result, [])
  write_all (d ∷ ds) ino offset block result =
      if d.broken
      then (do (r, ds') ← write_all ds ino offset block result; some (r, d ∷ ds'))
      else do
        (w, t) ← bs.write d.store ino offset block
        (r, ds') ← write_all ds ino offset block (if is_neg w then result else pos 0)
        some (r, record { store = t; broken = is_neg w } ∷ ds')

  unfoldable pub sync_all : List (Drive S) → ℕ → ℤ → Run (ℤ × List (Drive S))
  sync_all [] ino result = some (result, [])
  sync_all (d ∷ ds) ino result =
      if d.broken then (do (r, ds') ← sync_all ds ino result; some (r, d ∷ ds')) else do
        (w, t) ← bs.sync d.store ino
        (r, ds') ← sync_all ds ino (if is_neg w then result else pos 0)
        some (r, record { store = t; broken = is_neg w } ∷ ds')

  unfoldable pub getninodes : Raid1Disk S → Run (ℤ × Raid1Disk S)
  unfolding getninodes_any
  getninodes s = do (r, ds) ← getninodes_any s.drives; some (r, record { drives = ds })

  unfoldable pub getsize : Raid1Disk S → ℕ → Run (ℤ × Raid1Disk S)
  unfolding getsize_any
  getsize s ino = do (r, ds) ← getsize_any s.drives ino; some (r, record { drives = ds })

  unfoldable pub setsize : Raid1Disk S → ℕ → ℕ → Run (ℤ × Raid1Disk S)
  unfolding setsize_all
  setsize s ino nblocks = do
    (r, ds) ← setsize_all s.drives ino nblocks err
    some (r, record { drives = ds })

  unfoldable pub read : Raid1Disk S → ℕ → ℕ → Block → Run (ℤ × Block × Raid1Disk S)
  read s ino offset block = do
    (r, b, ds) ← read_any s.drives ino offset block
    some (r, b, record { drives = ds })

  unfoldable pub write : Raid1Disk S → ℕ → ℕ → Block → Run (ℤ × Raid1Disk S)
  write s ino offset block = do
    (r, ds) ← write_all s.drives ino offset block err
    some (r, record { drives = ds })

  unfoldable pub sync : Raid1Disk S → ℕ → Run (ℤ × Raid1Disk S)
  unfolding sync_all
  sync s ino = do (r, ds) ← sync_all s.drives ino err; some (r, record { drives = ds })

  abbrev pub ops : BlockStore (Raid1Disk S)
  ops = record {
    getninodes = getninodes;
    getsize = getsize;
    setsize = setsize;
    read = read;
    write = write;
    sync = sync;
  }

-- `calloc` clears the array `broken`.
unfoldable pub init : {S : Type 0} → List S → Raid1Disk S
init below = record { drives = map (λ t. record { store = t; broken = false }) below }
