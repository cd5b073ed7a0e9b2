-- ===== src/Disk/Tree/Create/Files.antt =====
-- The files of a file system that `treedisk_create` of src/block/treedisk.c made.
use cs4411_p.Prelude.{
  ◌≤◌, ◌≡◌, ◌∙◌, ◌<◌, ◌/◌, ◌-◌, ◌+◌, ◌*◌, ◌%◌, ℤ, ℕ, word_mod, to_word, some, pos, le→ltb,
  get_elem?, err, arith,
}
use cs4411_p.Store.{Block, BlockStore}
use cs4411_p.Store.Contract.{View, Implements}
use cs4411_p.Disk.Tree.Layout.{inodes_per_block, null_block, TreeDisk}
use cs4411_p.Disk.Tree.Access.{disk, null_word}
use cs4411_p.Disk.Tree.Methods.{init, getsize, read}
use cs4411_p.Disk.Tree.Methods.Reads.{HasFile, getsize_lem, read_lem}
use cs4411_p.Disk.Tree.Create.{create}
use cs4411_p.Disk.Tree.Create.Setup.{HasBlocks}
use cs4411_p.Disk.Tree.Create.Created.{IsEmptySystem, create_lem}

module _ {S : Type 0} (bs : BlockStore S) (V : S → Type 0) (v : S → View) (below_ino : ℕ)
    (imp : Implements bs V v) where
  -- Every inode of an empty file system is a file of no blocks.
  pub empty_file :
      (t : S) (inodeblocks nblocks ino : ℕ) (f : ℕ → Block)
      → IsEmptySystem bs V v below_ino imp inodeblocks nblocks t
      → ino < inodeblocks * inodes_per_block
      → HasFile (disk bs V v below_ino t) ino 0 f
  empty_file t inodeblocks nblocks ino f e lt = record {
    superblock = e.superblock;
    inodeblock = null_block;
    inodeblocks = inodeblocks;
    top = 0;
    super = e.free.super;
    counted = e.size;
    exists_ino = lt;
    at = e.empty_inodes (ino / inodes_per_block) (omega arith);
    at_top = null_word (2 * (ino % inodes_per_block)) (omega arith);
    at_size = null_word (2 * (ino % inodes_per_block) + 1) (omega arith);
    small = omega arith;
    holds = λ level lt run. absurd (omega arith);
  }

  -- After `create` on a store that behaves as an array of blocks, whose `getsize` tells its number of
  -- blocks, fewer than 2^32 and at least two more than the inodes need, and whose superblock has no
  -- inodes, `getsize` returns 0 and `read` -1 for each of the inodes asked for.
  pub create-getsize :
      (t t0 : S) (ninodes ino : ℕ) (size : ℤ) (sb : Block)
      → bs.getsize t below_ino ≡ some (size, t0)
      → V t0
      → HasBlocks (disk bs V v below_ino t0) (to_word size)
      → to_word size < word_mod
      → (ninodes + inodes_per_block - 1) / inodes_per_block + 2 ≤ to_word size
      → disk bs V v below_ino t0 0 ≡ some sb
      → get_elem? sb 0 ≡ some 0
      → ino < ninodes
      → (t' : S) × (create bs below_ino t ninodes ≡ some (pos 0, t'))
        × ((s : TreeDisk S) × (getsize bs (init t' below_ino) ino ≡ some (pos 0, s)))
        × ((offset : ℕ) (block : Block)
            → (s : TreeDisk S) × (read bs (init t' below_ino) ino offset block
                ≡ some (err, block, s)))
  unfolding init
  create-getsize t t0 ninodes ino size sb sized w has small fits super no_inodes lt =
      let (t', run, e) =
        create_lem bs V v below_ino imp t t0 ninodes size sb sized w has small fits super
          no_inodes in
      let none_there : ℕ → Block = λ k. null_block in
      let h = empty_file t' _ (to_word size) ino none_there e (omega arith) in
      let s = init t' below_ino in
      let (s1, called, kept) = getsize_lem bs V v imp s ino 0 none_there e.valid h in
      (
        t',
        run,
        (s1, called),
        λ offset block.
            let (s2, called2, kept2) =
              read_lem bs V v imp s ino 0 none_there e.valid h offset block in
            (s2, called2 ∙ rw (le→ltb offset 0 (omega arith))),
      )
