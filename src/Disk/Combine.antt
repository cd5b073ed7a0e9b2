-- ===== src/Disk/Combine.antt =====
-- src/block/combinedisk.c: the inodes of an array of stores, counted through.
pub mod Locating
pub mod Joined
pub mod Contents
use cs4411_p.Prelude.{
  ℕ, ◌+◌, ℤ, to_int, to_word, is_neg, add_word, sub_word, not, none, some, List, [], ◌∷◌,
  if◌then◌else◌, get_elem?, set, Run, ◌>>=◌,
}
use cs4411_p.Store.{Block, BlockStore}

-- `struct combinedisk_state`: `nbelow` is the length of the arrays. The stores are distinct.
pub record CombineDisk (S : Type 0) : Type 0 where
  pub below : List S
  pub belowninodes : List ℕ

-- The loop that the methods begin with: from store `i` on, the store that holds inode `nino`, and
-- the inode's number there. The loop has no bound: it stops the program at the array's end. Where
-- it ends within the array, the `assert` behind it holds.
unfoldable pub locate : List ℕ → ℕ → ℕ → Run (ℕ × ℕ)
locate [] nino i = none
locate (n ∷ ninodes) nino i =
    let next : Run (ℕ × ℕ) = locate ninodes (sub_word nino n) (i + 1) in
    if not (is_neg (to_int (sub_word nino n))) then next else some (i, nino)

-- The sum of the array, on `unsigned int`.
unfoldable pub sum_ninodes : List ℕ → ℕ → ℕ
sum_ninodes [] ninodes = ninodes
sum_ninodes (n ∷ ns) ninodes = sum_ninodes ns (add_word ninodes n)

module _ {S : Type 0} (bs : BlockStore S) where
  unfoldable pub getninodes : CombineDisk S → Run (ℤ × CombineDisk S)
  unfolding sum_ninodes
  getninodes s = some (to_int (sum_ninodes s.belowninodes 0), s)

  unfoldable pub getsize : CombineDisk S → ℕ → Run (ℤ × CombineDisk S)
  getsize s ino = do
    (i, nino) ← locate s.belowninodes ino 0
    t ← get_elem? s.below i
    (r, t') ← bs.getsize t nino
    some (r, record s { below = set s.below i t' })

  unfoldable pub setsize : CombineDisk S → ℕ → ℕ → Run (ℤ × CombineDisk S)
  setsize s ino nblocks = do
    (i, nino) ← locate s.belowninodes ino 0
    t ← get_elem? s.below i
    (r, t') ← bs.setsize t nino nblocks
    some (r, record s { below = set s.below i t' })

  unfoldable pub read : CombineDisk S → ℕ → ℕ → Block → Run (ℤ × Block × CombineDisk S)
  read s ino offset block = do
    (i, nino) ← locate s.belowninodes ino 0
    t ← get_elem? s.below i
    (r, b, t') ← bs.read t nino offset block
    some (r, b, record s { below = set s.below i t' })

  unfoldable pub write : CombineDisk S → ℕ → ℕ → Block → Run (ℤ × CombineDisk S)
  write s ino offset block = do
    (i, nino) ← locate s.belowninodes ino 0
    t ← get_elem? s.below i
    (r, t') ← bs.write t nino offset block
    some (r, record s { below = set s.below i t' })

  unfoldable pub sync : CombineDisk S → ℕ → Run (ℤ × CombineDisk S)
  sync s ino = do
    (i, nino) ← locate s.belowninodes ino 0
    t ← get_elem? s.below i
    (r, t') ← bs.sync t nino
    some (r, record s { below = set s.below i t' })

  abbrev pub ops : BlockStore (CombineDisk S)
  ops = record {
    getninodes = getninodes;
    getsize = getsize;
    setsize = setsize;
    read = read;
    write = write;
    sync = sync;
  }

  -- The loop of `init`: each store is asked once for its number of inodes.
  unfoldable pub ask_ninodes : List S → Run (List S × List ℕ)
  ask_ninodes [] = some ([], [])
  ask_ninodes (t ∷ stores) = do
    (r, t') ← bs.getninodes t
    (stores', ninodes) ← ask_ninodes stores
    some (t' ∷ stores', to_word r ∷ ninodes)

  unfoldable pub init : List S → Run (CombineDisk S)
  unfolding ask_ninodes
  init below = do
    (stores, ninodes) ← ask_ninodes below
    some (record { below = stores; belowninodes = ninodes })
