-- ===== src/Disk/Part.antt =====
-- src/block/partdisk.c: partitions of inode 0 of the store below, each an inode of its own.
pub mod Contents
use cs4411_p.Prelude.{
  ℕ, zero, suc, ℤ, err, to_int, to_word, add_word, none, some, List, [], ◌∷◌, take, leb,
  if◌then◌else◌, get_elem?, Run, ◌>>=◌,
}
use cs4411_p.Store.{Block, BlockStore}

-- `struct partdisk_state`; the list `partsizes` has `ninodes` elements.
pub record PartDisk (S : Type 0) : Type 0 where
  pub below : S
  pub ninodes : ℕ
  pub partsizes : List ℕ

-- The loop that adds the sizes of the partitions in front of `ino`: `i` counts up to `ino`.
unfoldable pub sum_before : List ℕ → ℕ → ℕ → Run ℕ
sum_before sizes zero noffset = some noffset
sum_before [] (suc n) noffset = none
sum_before (size ∷ sizes) (suc n) noffset = sum_before sizes n (add_word noffset size)

module _ {S : Type 0} (bs : BlockStore S) where
  unfoldable pub getninodes : PartDisk S → Run (ℤ × PartDisk S)
  getninodes s = some (to_int s.ninodes, s)

  -- There is no check of `ino`.
  unfoldable pub getsize : PartDisk S → ℕ → Run (ℤ × PartDisk S)
  getsize s ino = do size ← get_elem? s.partsizes ino; some (to_int size, s)

  unfoldable pub setsize : PartDisk S → ℕ → ℕ → Run (ℤ × PartDisk S)
  setsize s ino nblocks = some (err, s)

  unfoldable pub read : PartDisk S → ℕ → ℕ → Block → Run (ℤ × Block × PartDisk S)
  unfolding sum_before
  read s ino offset block =
      if leb (to_word (to_int s.ninodes)) ino then some (err, block, s) else do
        size ← get_elem? s.partsizes ino
        if leb size offset then some (err, block, s) else do
          noffset ← sum_before s.partsizes ino offset
          (r, b, t) ← bs.read s.below 0 noffset block
          some (r, b, record s { below = t })

  unfoldable pub write : PartDisk S → ℕ → ℕ → Block → Run (ℤ × PartDisk S)
  unfolding sum_before
  write s ino offset block = if leb (to_word (to_int s.ninodes)) ino then some (err, s) else do
    size ← get_elem? s.partsizes ino
    if leb size offset then some (err, s) else do
      noffset ← sum_before s.partsizes ino offset
      (r, t) ← bs.write s.below 0 noffset block
      some (r, record s { below = t })

  unfoldable pub sync : PartDisk S → ℕ → Run (ℤ × PartDisk S)
  sync s ino = do (r, t) ← bs.sync s.below 0; some (r, record s { below = t })

  abbrev pub ops : BlockStore (PartDisk S)
  ops = record {
    getninodes = getninodes;
    getsize = getsize;
    setsize = setsize;
    read = read;
    write = write;
    sync = sync;
  }

-- The first `ninodes` elements of the caller's array are copied.
unfoldable pub init : {S : Type 0} → S → ℕ → List ℕ → PartDisk S
init below ninodes partsizes = record {
  below = below;
  ninodes = ninodes;
  partsizes = take ninodes partsizes;
}
