-- ===== src/Disk/Tree/Create.antt =====
-- A new file system of src/block/treedisk.c: `setup_freelist` and `treedisk_create`.
pub mod Filling
pub mod Clearing
pub mod Setup
pub mod Created
pub mod Files
use cs4411_p.Prelude.{
  true, false, ℕ, zero, suc, ◌+◌, ◌-◌, ◌/◌, add_word, ℤ, pos, err, to_word, is_neg, none, some,
  List, [], ◌∷◌, ◌==◌, ltb, leb, if◌then◌else◌, set, replicate, Run, ◌>>=◌,
}
use cs4411_p.Store.{BlockStore}
use cs4411_p.Disk.Tree.Layout.{
  refs_per_block, inodes_per_block, null_block, n_inodeblocks, set_free_list, put_block,
}

-- The two loops that fill a free list block, with `n` places left: references to the blocks from
-- `next_free` on, and 0 where there are no more.
unfoldable pub fill_refs : ℕ → ℕ → ℕ → List ℕ
fill_refs zero next_free nblocks = []
fill_refs (suc n) next_free nblocks =
    if ltb next_free nblocks
    then next_free ∷ fill_refs n (next_free + 1) nblocks
    else replicate (suc n) 0

-- What `next_free` is after them.
unfoldable pub next_after : ℕ → ℕ → ℕ → ℕ
next_after n next_free nblocks = if leb (next_free + n) nblocks then next_free + n else nblocks

module _ {S : Type 0} (bs : BlockStore S) (below_ino : ℕ) where
  -- `setup_freelist` from `next_free` on, with fuel: `head` is the free list block before.
  unfoldable pub setup_from : ℕ → S → ℕ → ℕ → ℕ → Run (ℕ × S)
  unfolding fill_refs next_after put_block
  setup_from zero t head next_free nblocks = none
  setup_from (suc fuel) t head next_free nblocks = elim (ltb next_free nblocks) [
    | false ↦ some (head, t)
    | true ↦ do
      let refs = fill_refs (refs_per_block - 1) (next_free + 1) nblocks
      t' ← put_block bs below_ino t next_free (head ∷ refs)
      setup_from fuel t' next_free (next_after (refs_per_block - 1) (next_free + 1) nblocks) nblocks
  ]

  -- Each round takes a block at least.
  unfoldable pub setup_freelist : S → ℕ → ℕ → Run (ℕ × S)
  unfolding setup_from
  setup_freelist t next_free nblocks = setup_from (suc nblocks) t 0 next_free nblocks

  -- The loop that clears the inodes, from block `i` on with `n` rounds left; -1 if a write fails.
  unfoldable pub clear_inodes : ℕ → S → ℕ → Run (ℤ × S)
  clear_inodes zero t i = some (pos 0, t)
  clear_inodes (suc n) t i = do
    (r, t') ← bs.write t below_ino i null_block
    elim (is_neg r) [ true ↦ some (err, t') | false ↦ clear_inodes n t' (i + 1) ]

  -- The branch for a store that holds no file system.
  unfoldable pub initialize : S → ℕ → ℕ → Run (ℤ × S)
  unfolding setup_freelist clear_inodes
  initialize t inodeblocks nblocks = do
    (head, t1) ← setup_freelist t (add_word inodeblocks 1) nblocks
    (r, t2) ← bs.write t1 below_ino 0 (set_free_list (set null_block 0 inodeblocks) head)
    if is_neg r then some (err, t2) else clear_inodes inodeblocks t2 1

  -- `create`; the size of a block is the right one.
  unfoldable pub create : S → ℕ → Run (ℤ × S)
  unfolding initialize
  create t ninodes = do
    let inodeblocks = (ninodes + inodes_per_block - 1) / inodes_per_block
    (size, t1) ← bs.getsize t below_ino
    let nblocks = to_word size
    if ltb nblocks (add_word inodeblocks 2) then some (err, t1) else do
      (r, superblock, t2) ← bs.read t1 below_ino 0 []
      if is_neg r then some (err, t2) else do
        n ← n_inodeblocks superblock
        if n == 0
            then initialize t2 inodeblocks nblocks
            else if ltb n inodeblocks
            then none
            else some (pos 0, t2)
