-- ===== src/Disk/Check.antt =====
-- src/block/checkdisk.c: compares what is read with what was read or written before.
pub mod Contents
pub mod History
use cs4411_p.Prelude.{
  ℕ, ℤ, pos, err, is_neg, Bool, true, false, ◌&&◌, Option, none, some, List, [], ◌∷◌, ◌==◌, leb,
  if◌then◌else◌, Run, ◌>>=◌,
}
use cs4411_p.Store.{Block, BlockStore}

-- `struct block_list`: an element of the linked list.
pub record Entry : Type 0 where
  pub ino : ℕ
  pub offset : ℕ
  pub block : Block

-- `struct checkdisk_state`, without the text that is printed.
pub record CheckDisk (S : Type 0) : Type 0 where
  pub below : S
  pub bl : List Entry

-- `memcmp(a, b, BLOCK_SIZE) == 0`
unfoldable pub same_block : Block → Block → Bool
same_block [] [] = true
same_block [] (y ∷ ys) = false
same_block (x ∷ xs) [] = false
same_block (x ∷ xs) (y ∷ ys) = x == y && same_block xs ys

-- The search of `read` and `write`: the block of the first entry that fits.
unfoldable pub find : List Entry → ℕ → ℕ → Option Block
find [] ino offset = none
find (e ∷ bl) ino offset =
    if e.ino == ino && e.offset == offset then some e.block else find bl ino offset

-- The assignment `bl->block = *block` to the entry that the search has found.
unfoldable pub update : List Entry → ℕ → ℕ → Block → List Entry
update [] ino offset block = []
update (e ∷ bl) ino offset block =
    if e.ino == ino && e.offset == offset
    then record e { block = block } ∷ bl
    else e ∷ update bl ino offset block

-- The loop of `setsize`, which unlinks the entries beyond the new end.
unfoldable pub remove_beyond : List Entry → ℕ → ℕ → List Entry
remove_beyond [] ino nblocks = []
remove_beyond (e ∷ bl) ino nblocks =
    let rest = remove_beyond bl ino nblocks in
    if e.ino == ino && leb nblocks e.offset then rest else e ∷ rest

-- What `read` does with the block that the store below has returned. A difference ends the
-- program.
unfoldable pub check :
    {S : Type 0} → S → List Entry → ℕ → ℕ → Block → Option Block → Run (ℤ × Block × CheckDisk S)
check t bl ino offset b none =
    some
      (pos 0, b, record { below = t; bl = record { ino = ino; offset = offset; block = b } ∷ bl })
check t bl ino offset b (some known) =
    if same_block known b then some (pos 0, b, record { below = t; bl = bl }) else none

-- The list after a write.
unfoldable pub remember : List Entry → ℕ → ℕ → Block → Option Block → List Entry
remember bl ino offset block none = record { ino = ino; offset = offset; block = block } ∷ bl
remember bl ino offset block (some _) = update bl ino offset block

module _ {S : Type 0} (bs : BlockStore S) where
  unfoldable pub getninodes : CheckDisk S → Run (ℤ × CheckDisk S)
  getninodes s = do (r, t) ← bs.getninodes s.below; some (r, record s { below = t })

  unfoldable pub getsize : CheckDisk S → ℕ → Run (ℤ × CheckDisk S)
  getsize s ino = do (r, t) ← bs.getsize s.below ino; some (r, record s { below = t })

  unfoldable pub setsize : CheckDisk S → ℕ → ℕ → Run (ℤ × CheckDisk S)
  setsize s ino nblocks = do
    (r, t) ← bs.setsize s.below ino nblocks
    some (r, record { below = t; bl = remove_beyond s.bl ino nblocks })

  unfoldable pub read : CheckDisk S → ℕ → ℕ → Block → Run (ℤ × Block × CheckDisk S)
  unfolding check
  read s ino offset block = do
    (r, b, t) ← bs.read s.below ino offset block
    if is_neg r
        then some (err, b, record s { below = t })
        else check t s.bl ino offset b (find s.bl ino offset)

  unfoldable pub write : CheckDisk S → ℕ → ℕ → Block → Run (ℤ × CheckDisk S)
  unfolding remember
  write s ino offset block = do
    (r, t) ← bs.write s.below ino offset block
    if is_neg r
        then some (err, record s { below = t })
        else some
            (r, record { below = t; bl = remember s.bl ino offset block (find s.bl ino offset) })

  unfoldable pub sync : CheckDisk S → ℕ → Run (ℤ × CheckDisk S)
  sync s ino = do (r, t) ← bs.sync s.below ino; some (r, record s { below = t })

  abbrev pub ops : BlockStore (CheckDisk S)
  ops = record {
    getninodes = getninodes;
    getsize = getsize;
    setsize = setsize;
    read = read;
    write = write;
    sync = sync;
  }

unfoldable pub init : {S : Type 0} → S → CheckDisk S
init below = record { below = below; bl = [] }
