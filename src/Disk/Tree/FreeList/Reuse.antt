-- ===== src/Disk/Tree/FreeList/Reuse.antt =====
-- `treedisk_alloc_block` and `treedisk_free_block` of src/block/treedisk.c, one after the other.
use cs4411_p.Prelude.{◌≢◌, ◌≡◌, ◌∷◌, ◌∙◌, ℕ, some, arith, ap, List}
use cs4411_p.Store.{Block, BlockStore}
use cs4411_p.Store.Contract.{View, Implements}
use cs4411_p.Disk.Tree.Access.{disk}
use cs4411_p.Disk.Tree.FreeList.{alloc_block, free_block}
use cs4411_p.Disk.Tree.FreeList.Counting.{is_at_self}
use cs4411_p.Disk.Tree.FreeList.Chain.{Node, times_free, HasFree}
use cs4411_p.Disk.Tree.FreeList.Alloc.{alloc_block_lem}
use cs4411_p.Disk.Tree.FreeList.Free.{free_block_lem}

module _ {S : Type 0} (bs : BlockStore S) (V : S → Type 0) (v : S → View) (below_ino : ℕ)
    (imp : Implements bs V v) where
  -- Where the free list is not empty, `alloc_block` and then `free_block` of the block that it
  -- returned both succeed. Afterwards the blocks that were free at first are free, no others, and
  -- the blocks that were not free are as they were, but for the superblock.
  pub free_block-alloc_block :
      (t : S) (sb : Block) (c : Node) (nodes : List Node)
      → V t
      → HasFree (disk bs V v below_ino t) sb (c ∷ nodes)
      → (n : ℕ) × (sb1 : Block) × (t1 : S) × (sb2 : Block) × (t2 : S) × (nodes' : List Node)
        × (alloc_block bs below_ino t sb ≡ some (n, sb1, t1))
        × (free_block bs below_ino t1 sb1 n ≡ some (sb2, t2))
        × HasFree (disk bs V v below_ino t2) sb2 nodes'
        × ((x : ℕ) → x ≢ 0 → times_free nodes' x ≡ times_free (c ∷ nodes) x)
        × ((k : ℕ)
            → k ≢ 0
            → times_free (c ∷ nodes) k ≡ 0
            → disk bs V v below_ino t2 k ≡ disk bs V v below_ino t k)
  free_block-alloc_block t sb c nodes w f =
      let (n, sb1, t1, run1, a) = alloc_block_lem bs V v below_ino imp t sb c nodes w f in
      let (b, there) = a.there in
      let used : times_free a.nodes' n ≡ 0 =
        omega (arith, f.once n a.is_block, a.taken n a.is_block, is_at_self n) in
      let (sb2, t2, run2, r) =
        free_block_lem bs V v below_ino imp t1 sb1 a.nodes' n a.valid a.free a.is_block used
          there in
      (
        n,
        sb1,
        t1,
        sb2,
        t2,
        r.nodes',
        run1,
        run2,
        r.free,
        λ x nz. omega (arith, r.given x nz, a.taken x nz),
        λ k nz none_free.
            r.kept k nz
              (λ e.
                absurd (
                  omega (arith, a.taken n a.is_block, is_at_self n, ap (times_free (c ∷ nodes)) e)))
              (omega (arith, a.taken k nz))
            ∙ a.kept k nz none_free,
      )
