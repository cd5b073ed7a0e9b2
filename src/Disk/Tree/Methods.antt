-- ===== src/Disk/Tree/Methods.antt =====
-- The methods of src/block/treedisk.c.
pub mod Reads
use cs4411_p.Prelude.{
  [], ℕ, ◌-◌, ◌*◌, ◌%◌, word_mod, add_word, ℤ, pos, err, to_int, is_neg, none, some, ◌==◌, ltb, leb,
  if◌then◌else◌, Run, ◌>>=◌,
}
use cs4411_p.Store.{Block, BlockStore}
use cs4411_p.Disk.Tree.Layout.{
  refs_per_block, inodes_per_block, TreeDisk, Snapshot, n_inodeblocks, root, nblocks, set_root,
  set_nblocks, put_block, get_snapshot,
}
use cs4411_p.Disk.Tree.FreeList.{free_block}
use cs4411_p.Disk.Tree.Files.{
  nlevels, count_levels, read_down, grow, write_down, free_tree, free_level,
}

module _ {S : Type 0} (bs : BlockStore S) where
  -- `treedisk_free_file`. The level of a file of up to 2^24 blocks is found in three rounds; for a
  -- larger one `max_capacity` becomes 0 and the loop does not end.
  unfoldable pub free_file : ℕ → S → Snapshot → Run (Block × S)
  unfolding free_level free_tree
  free_file below_ino t sn = do
    size ← nblocks sn
    top ← root sn
    if size == 0
        then some (sn.superblock, t)
        else if size == 1
        then free_block bs below_ino t sn.superblock top
        else do
          level ← free_level 4 refs_per_block size 1
          free_tree bs below_ino level t sn.superblock top

  unfoldable pub getninodes : TreeDisk S → Run (ℤ × TreeDisk S)
  getninodes s = do
    (r, superblock, t) ← bs.read s.below s.below_ino 0 []
    if is_neg r then some (err, record s { below = t }) else do
      n ← n_inodeblocks superblock
      some (to_int (n * inodes_per_block % word_mod), record s { below = t })

  unfoldable pub getsize : TreeDisk S → ℕ → Run (ℤ × TreeDisk S)
  unfolding get_snapshot
  getsize s ino = do
    (found, t) ← get_snapshot bs s.below_ino s.below ino
    elim found [
      | none ↦ some (err, record s { below = t })
      | some sn ↦ do size ← nblocks sn; some (to_int size, record s { below = t })
    ]

  -- A failure of `treedisk_get_snapshot` is ignored: the snapshot is then not initialised.
  unfoldable pub setsize : TreeDisk S → ℕ → ℕ → Run (ℤ × TreeDisk S)
  unfolding get_snapshot free_file put_block
  setsize s ino new_size = do
    (found, t) ← get_snapshot bs s.below_ino s.below ino
    sn ← found
    oldsize ← nblocks sn
    if new_size == oldsize
        then some (to_int new_size, record s { below = t })
        else if ltb 0 new_size
        then some (err, record s { below = t })
        else do
          (superblock, t1) ← free_file s.below_ino t sn
          t2 ←
              put_block bs s.below_ino t1 sn.inode_blockno
                (set_root (set_nblocks sn 0) 0).inodeblock
          some (to_int oldsize, record s { below = t2 })

  unfoldable pub read : TreeDisk S → ℕ → ℕ → Block → Run (ℤ × Block × TreeDisk S)
  unfolding get_snapshot nlevels read_down
  read s ino offset block = do
    (found, t) ← get_snapshot bs s.below_ino s.below ino
    elim found [
      | none ↦ some (err, block, record s { below = t })
      | some sn ↦ do
        size ← nblocks sn
        if leb size offset then some (err, block, record s { below = t }) else do
          levels ← nlevels size
          top ← root sn
          (r, block', t') ← read_down bs s.below_ino levels t top offset block
          some (r, block', record s { below = t' })
    ]

  -- What `treedisk_write` does with a snapshot.
  unfoldable pub write_snapshot : ℕ → S → Snapshot → ℕ → Block → Run (ℤ × S)
  unfolding nlevels count_levels grow write_down put_block
  write_snapshot below_ino t sn offset block = do
    size ← nblocks sn
    levels ← nlevels size
    let grows = leb size offset
    levels_after ← if grows then count_levels 5 offset 0 else some levels
    let sn1 = if grows then set_nblocks sn (add_word offset 1) else sn
    size1 ← nblocks sn1
    (sn2, t2) ←
        if size1 == 0 then some (sn1, t) else grow bs below_ino (levels_after - levels) t sn1
    t3 ← if grows then put_block bs below_ino t2 sn2.inode_blockno sn2.inodeblock else some t2
    (b, t4) ←
        write_down bs below_ino levels_after t3 sn2.superblock sn2.inodeblock (2 * sn2.index)
          sn2.inode_blockno offset
    t5 ← put_block bs below_ino t4 b block
    some (pos 0, t5)

  unfoldable pub write : TreeDisk S → ℕ → ℕ → Block → Run (ℤ × TreeDisk S)
  unfolding get_snapshot write_snapshot
  write s ino offset block = do
    (found, t) ← get_snapshot bs s.below_ino s.below ino
    elim found [
      | none ↦ some (err, record s { below = t })
      | some sn ↦ do
        (r, t') ← write_snapshot s.below_ino t sn offset block
        some (r, record s { below = t' })
    ]

  unfoldable pub sync : TreeDisk S → ℕ → Run (ℤ × TreeDisk S)
  sync s ino = do (r, t) ← bs.sync s.below s.below_ino; some (r, record s { below = t })

  abbrev pub ops : BlockStore (TreeDisk S)
  ops = record {
    getninodes = getninodes;
    getsize = getsize;
    setsize = setsize;
    read = read;
    write = write;
    sync = sync;
  }

unfoldable pub init : {S : Type 0} → S → ℕ → TreeDisk S
init below below_ino = record { below = below; below_ino = below_ino }
