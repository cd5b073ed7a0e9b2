-- ===== src/Disk/Tree/Writing/Steps.antt =====
-- The steps of `treedisk_write` in src/block/treedisk.c with a snapshot.
use cs4411_p.Prelude.{◌≡◌, ◌>>=◌, ◌==◌, ◌-◌, ◌*◌, ℕ, true, some, pos, leb, false, arith, add_word}
use cs4411_p.Store.{Block, BlockStore}
use cs4411_p.Disk.Tree.Layout.{Snapshot, nblocks, set_nblocks, put_block}
use cs4411_p.Disk.Tree.Files.{nlevels, count_levels, grow, write_down}
use cs4411_p.Disk.Tree.Methods.{write_snapshot}

module _ {S : Type 0} (bs : BlockStore S) (below_ino : ℕ) (t : S) (sn : Snapshot) (offset : ℕ)
    (blk : Block) {size level : ℕ} (at_size : nblocks sn ≡ some size)
    (levels : nlevels size ≡ some level) where
  -- Within the file.
  pub inside_run :
      {d : ℕ} {t1 t2 : S}
      → leb size offset ≡ false
      → (size == 0) ≡ false
      → write_down bs below_ino level t sn.superblock sn.inodeblock
          (2 * sn.index)
          sn.inode_blockno
          offset
        ≡ some (d, t1)
      → put_block bs below_ino t1 d blk ≡ some t2
      → write_snapshot bs below_ino t sn offset blk ≡ some (pos 0, t2)
  unfolding write_snapshot
  inside_run stays full run1 run2 =
      let same : level - level ≡ 0 = omega arith in
      rw (at_size, levels, stays, ◌>>=◌, at_size, full, same, run1, run2)

  -- Beyond the file.
  pub beyond_run :
      {size' level' d : ℕ} {sn2 : Snapshot} {t2 t3 t4 t5 : S}
      → leb size offset ≡ true
      → count_levels 5 offset 0 ≡ some level'
      → nblocks (set_nblocks sn (add_word offset 1)) ≡ some size'
      → (size' == 0) ≡ false
      → grow bs below_ino (level' - level) t (set_nblocks sn (add_word offset 1)) ≡ some (sn2, t2)
      → put_block bs below_ino t2 sn2.inode_blockno sn2.inodeblock ≡ some t3
      → write_down bs below_ino level' t3 sn2.superblock sn2.inodeblock
          (2 * sn2.index)
          sn2.inode_blockno
          offset
        ≡ some (d, t4)
      → put_block bs below_ino t4 d blk ≡ some t5
      → write_snapshot bs below_ino t sn offset blk ≡ some (pos 0, t5)
  unfolding write_snapshot
  beyond_run grows levels' at_size' full run1 run2 run3 run4 =
      rw (at_size, levels, grows, ◌>>=◌, levels', at_size', full, run1, run2, run3, run4)
