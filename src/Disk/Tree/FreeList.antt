-- ===== src/Disk/Tree/FreeList.antt =====
-- The free list of src/block/treedisk.c: `treedisk_alloc_block` and `treedisk_free_block`.
pub mod Counting
pub mod Chain
pub mod Alloc
pub mod Release
pub mod Free
pub mod Reuse
use cs4411_p.Prelude.{
  ℕ, zero, suc, ◌+◌, ◌-◌, true, false, none, some, ◌==◌, if◌then◌else◌, get_elem?, set, Run, ◌>>=◌,
}
use cs4411_p.Store.{Block, BlockStore}
use cs4411_p.Disk.Tree.Layout.{
  refs_per_block, null_block, free_list, set_free_list, fetch, put_block,
}

-- The scan of `treedisk_alloc_block`, from `i` down: the last place that holds a reference, or 0.
unfoldable pub last_ref : Block → ℕ → Run ℕ
last_ref refs zero = some 0
last_ref refs (suc i) = do
  x ← get_elem? refs (suc i)
  elim (x == 0) [ true ↦ last_ref refs i | false ↦ some (suc i) ]

-- The scan of `treedisk_free_block`, from `i` on with `n` rounds left: the first empty place.
unfoldable pub first_empty : Block → ℕ → ℕ → Run ℕ
first_empty refs i zero = some i
first_empty refs i (suc n) = do
  x ← get_elem? refs i
  elim (x == 0) [ true ↦ some i | false ↦ first_empty refs (i + 1) n ]

module _ {S : Type 0} (bs : BlockStore S) (below_ino : ℕ) where
  -- The free list block itself, where it holds no other.
  unfoldable pub take_head : S → Block → ℕ → Block → Run (ℕ × Block × S)
  unfolding put_block
  take_head t superblock b refs = do
    next ← get_elem? refs 0
    let superblock' = set_free_list superblock next
    t' ← put_block bs below_ino t 0 superblock'
    some (b, superblock', t')

  -- The block at place `i` of the free list block.
  unfoldable pub take_ref : S → Block → ℕ → Block → ℕ → Run (ℕ × Block × S)
  unfolding put_block
  take_ref t superblock b refs i = do
    n ← get_elem? refs i
    t' ← put_block bs below_ino t b (set refs i 0)
    some (n, superblock, t')

  -- The block, the superblock of the snapshot, and the store below.
  unfoldable pub alloc_block : S → Block → Run (ℕ × Block × S)
  unfolding fetch last_ref take_head take_ref
  alloc_block t superblock = do
    b ← free_list superblock
    if b == 0 then none else do
      (refs, t1) ← fetch bs below_ino t b
      i ← last_ref refs (refs_per_block - 1)
      if i == 0 then take_head t1 superblock b refs else take_ref t1 superblock b refs i

  -- The block becomes the head of the free list, in front of `b`.
  unfoldable pub push_head : S → Block → ℕ → ℕ → Run (Block × S)
  unfolding put_block
  push_head t superblock target b = do
    let superblock' = set_free_list superblock target
    t1 ← put_block bs below_ino t 0 superblock'
    t2 ← put_block bs below_ino t1 target (set null_block 0 b)
    some (superblock', t2)

  unfoldable pub free_block : S → Block → ℕ → Run (Block × S)
  unfolding fetch put_block first_empty push_head
  free_block t superblock target = do
    t1 ← put_block bs below_ino t target null_block
    b ← free_list superblock
    if b == 0
        then (do
          let superblock' = set_free_list superblock target
          t2 ← put_block bs below_ino t1 0 superblock'
          some (superblock', t2))
        else do
          (refs, t2) ← fetch bs below_ino t1 b
          i ← first_empty refs 1 (refs_per_block - 1)
          if i == refs_per_block
              then push_head t2 superblock target b
              else do t3 ← put_block bs below_ino t2 b (set refs i target); some (superblock, t3)
