-- ===== src/Disk/Tree/Writing/Methods.antt =====
-- `treedisk_write` and then `treedisk_read` of src/block/treedisk.c.
use cs4411_p.Prelude.{
  ◌≤◌, ◌≡◌, ◌∙◌, ◌>>=◌, ◌<◌, ◌/◌, ◌+◌, ◌*◌, ◌%◌, ℕ, word_mod, sym, subst, some-injective, some,
  refl, pos, ltb, if◌then◌else◌, get_elem?, err, arith, ap, List,
}
use cs4411_p.Store.{Block, BlockStore}
use cs4411_p.Store.Contract.{View, Implements}
use cs4411_p.Disk.Tree.Layout.{inodes_per_block, null_block, TreeDisk, Snapshot, n_inodeblocks}
use cs4411_p.Disk.Tree.Access.{Disk, disk}
use cs4411_p.Disk.Tree.Files.{nlevels}
use cs4411_p.Disk.Tree.Files.Reading.{Holds}
use cs4411_p.Disk.Tree.FreeList.Chain.{Node, n_free}
use cs4411_p.Disk.Tree.Methods.{read, write}
use cs4411_p.Disk.Tree.Methods.Reads.{HasFile, get_snapshot_lem, read_lem}
use cs4411_p.Disk.Tree.Writing.Positions.{Positions}
use cs4411_p.Disk.Tree.Writing.Down.{update}
use cs4411_p.Disk.Tree.Writing.Finish.{IsOpen}
use cs4411_p.Disk.Tree.Writing.Whole.{new_size, write_snapshot_lem}
use cs4411_p.Disk.Tree.Writing.Reread.{IsPlaced-Holds}

-- The snapshot that `treedisk_get_snapshot` takes of inode `ino`.
abbrev pub snapshot_of : ℕ → Block → Block → Snapshot
snapshot_of ino superblock inodeblock = record {
  superblock = superblock;
  inodeblock = inodeblock;
  inode_blockno = 1 + ino / inodes_per_block;
  index = ino % inodes_per_block;
}

module _ {S : Type 0} (bs : BlockStore S) (V : S → Type 0) (v : S → View) (below_ino : ℕ)
    (imp : Implements bs V v) where
  abbrev file_of :
      (ino size level n : ℕ) (file : ℕ → Block) (t : S) (sn : Snapshot) (nodes : List Node)
      (g : Positions)
      → IsOpen bs V v below_ino imp ino size level file t sn nodes g
      → sn.inode_blockno ≡ 1 + ino / inodes_per_block
      → sn.index ≡ ino % inodes_per_block
      → n_inodeblocks sn.superblock ≡ some n
      → ino < n * inodes_per_block
      → size < word_mod
      → nlevels size ≡ some level
      → HasFile (disk bs V v below_ino t) ino size file
  file_of ino size level n file t sn nodes g o is_no is_index counted lt small levels = record {
    superblock = sn.superblock;
    inodeblock = sn.inodeblock;
    inodeblocks = n;
    top = o.top;
    super = o.system.free.super;
    counted = counted;
    exists_ino = lt;
    at = ap (disk bs V v below_ino t) (sym is_no) ∙ o.on_disk;
    at_top = ap (λ i. get_elem? sn.inodeblock (2 * i)) (sym is_index) ∙ o.at_top;
    at_size = ap (λ i. get_elem? sn.inodeblock (2 * i + 1)) (sym is_index) ∙ o.at_size;
    small = small;
    holds = λ level' nonempty run.
        let same : level ≡ level' = some-injective level level' (sym levels ∙ run) in
        subst (λ l. Holds (disk bs V v below_ino t) l o.top file) same
          (IsPlaced-Holds (disk bs V v below_ino t) g ino level 0 o.top file o.placed file
            (λ k h. ap file (omega arith)));
  }

  abbrev open_after :
      (ino size level : ℕ) (file : ℕ → Block) (t t' : S) (sn : Snapshot) (nodes : List Node)
      (g : Positions)
      → IsOpen bs V v below_ino imp ino size level file t sn nodes g
      → V t'
      → disk bs V v below_ino t' ≡ disk bs V v below_ino t
      → IsOpen bs V v below_ino imp ino size level file t' sn nodes g
  open_after ino size level file t t' sn nodes g o w same = record {
    system = record { valid = w; free = rw same o.system.free; apart = o.system.apart };
    nonzero = o.nonzero;
    used = o.used;
    no_place = o.no_place;
    on_disk = ap (λ (d : Disk). d sn.inode_blockno) same ∙ o.on_disk;
    top = o.top;
    at_top = o.at_top;
    at_size = o.at_size;
    placed = rw same o.placed;
  }

module _ {S : Type 0} (bs : BlockStore S) (V : S → Type 0) (v : S → View)
    (imp : Implements bs V v) where
  -- For a file in a well formed file system with at least 9 free blocks, `write` at an offset below
  -- 2^32 - 1 returns 0. A `read` of the file afterwards returns the block written at that offset and
  -- the block from before at the others, up to the size that the offset asks for, and -1 beyond.
  pub read-write_file :
      (s : TreeDisk S) (ino size level n offset : ℕ) (blk superblock inodeblock : Block)
      (file : ℕ → Block) (nodes : List Node) (g : Positions)
      → IsOpen bs V v s.below_ino imp ino size level file s.below
          (snapshot_of ino superblock inodeblock)
          nodes
          g
      → n_inodeblocks superblock ≡ some n
      → ino < n * inodes_per_block
      → nlevels size ≡ some level
      → size < word_mod
      → ((k : ℕ) → size ≤ k → file k ≡ null_block)
      → offset + 1 < word_mod
      → 8 < n_free nodes
      → (s' : TreeDisk S) × (write bs s ino offset blk ≡ some (pos 0, s'))
        × ((k : ℕ) (block : Block)
            → (s'' : TreeDisk S) × (read bs s' ino k block ≡ (
                if ltb k (new_size size offset)
                then some (pos 0, update file offset blk k, s'')
                else some (err, block, s''))))
  unfolding write
  read-write_file s ino size level n offset blk superblock inodeblock file nodes g o counted lt
        levels small beyond small_offset enough =
      let sn = snapshot_of ino superblock inodeblock in
      let h =
        file_of bs V v s.below_ino imp ino size level n file s.below sn nodes g o refl refl counted
          lt small levels in
      let (t1, called, w1, same1) =
        get_snapshot_lem bs V v imp s.below s.below_ino ino size file o.system.valid h in
      let o1 =
        open_after bs V v s.below_ino imp ino size level file s.below t1 sn nodes g o w1 same1 in
      let (t2, level', run, levels', c) =
        write_snapshot_lem bs V v s.below_ino imp ino size level offset blk file t1 sn nodes g o1
          levels small beyond small_offset enough in
      let s' : TreeDisk S = record s { below = t2 } in
      let h' =
        file_of bs V v s.below_ino imp ino (new_size size offset) level' n (update file offset blk)
          t2 c.sn' c.nodes' c.g' c.opened c.same_blockno c.same_index (c.walked.same_size ∙ counted)
          lt (ground arith) levels' in
      (
        s',
        rw (called, ◌>>=◌, run),
        λ k block.
            let (s'', run', kept) =
              read_lem bs V v imp s' ino (new_size size offset) (update file offset blk)
                c.opened.system.valid h' k block in
            (s'', run'),
      )
