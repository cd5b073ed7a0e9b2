-- ===== src/Disk/Tree/Methods/Reads.antt =====
-- The methods of src/block/treedisk.c that read: `treedisk_getsize` and `treedisk_read`.
use native.Mathlib.Nat.{mod-eq_of_lt}
use cs4411_p.Prelude.{
  ◌≤◌, true, to_int, refl, pos, lt→leb, ltb→lt, ltb→le, ltb, le→leb, inr, inl, if◌then◌else◌, err,
  arith, Bool-cases, ◌≡◌, ◌∙◌, ◌>>=◌, ◌<◌, ◌/◌, ◌+◌, ◌*◌, ◌%◌, ℕ, word_mod, some, leb, get_elem?,
  false, ap, [],
}
use cs4411_p.Store.{Block, BlockStore}
use cs4411_p.Store.Contract.{View, Implements}
use cs4411_p.Disk.Tree.Layout.{inodes_per_block, TreeDisk, n_inodeblocks, get_snapshot}
use cs4411_p.Disk.Tree.Access.{Disk, disk}
use cs4411_p.Disk.Tree.Files.{nlevels}
use cs4411_p.Disk.Tree.Files.Levels.{capacity, nlevels_lem}
use cs4411_p.Disk.Tree.Files.Reading.{Holds, read_down_lem}
use cs4411_p.Disk.Tree.Methods.{getsize, read}

-- The disk holds a file of `size` blocks `f` as inode `ino`.
pub record HasFile (w : Disk) (ino size : ℕ) (f : ℕ → Block) : Type 0 where
  pub superblock : Block
  pub inodeblock : Block
  pub inodeblocks : ℕ
  pub top : ℕ
  pub super : w 0 ≡ some superblock
  pub counted : n_inodeblocks superblock ≡ some inodeblocks
  pub exists_ino : ino < inodeblocks * inodes_per_block
  pub at : w (1 + ino / inodes_per_block) ≡ some inodeblock
  pub at_top : get_elem? inodeblock (2 * (ino % inodes_per_block)) ≡ some top
  pub at_size : get_elem? inodeblock (2 * (ino % inodes_per_block) + 1) ≡ some size
  pub small : size < word_mod
  pub holds : (level : ℕ) → 0 < size → nlevels size ≡ some level → Holds w level top f

module _ {S : Type 0} (bs : BlockStore S) (V : S → Type 0) (v : S → View)
    (imp : Implements bs V v) where
  pub get_snapshot_lem :
      (t : S) (below_ino ino size : ℕ) (f : ℕ → Block)
      → V t
      → (h : HasFile (disk bs V v below_ino t) ino size f)
      → (t' : S) × (get_snapshot bs below_ino t ino
          ≡ some (
            some (record {
              superblock = h.superblock;
              inodeblock = h.inodeblock;
              inode_blockno = 1 + ino / inodes_per_block;
              index = ino % inodes_per_block;
            }),
            t',
          ))
        × V t'
        × (disk bs V v below_ino t' ≡ disk bs V v below_ino t)
  unfolding get_snapshot
  get_snapshot_lem t below_ino ino size f w h =
      let (t1, called1, w1, same1) = imp.read_some t below_ino 0 [] h.superblock w h.super in
      let same_disk : disk bs V v below_ino t1 ≡ disk bs V v below_ino t =
        ap (λ (u : View). u below_ino) same1 in
      let blockno = 1 + ino / inodes_per_block in
      let at1 : disk bs V v below_ino t1 blockno ≡ some h.inodeblock =
        ap (λ (u : Disk). u blockno) same_disk ∙ h.at in
      let (t2, called2, w2, same2) = imp.read_some t1 below_ino blockno [] h.inodeblock w1 at1 in
      let found : leb (h.inodeblocks * inodes_per_block) ino ≡ false =
        lt→leb (h.inodeblocks * inodes_per_block) ino h.exists_ino in
      (
        t2,
        rw (called1, h.counted, ◌>>=◌, found, called2),
        w2,
        ap (λ (u : View). u below_ino) same2 ∙ same_disk,
      )

  -- The disk is as it was.
  abbrev pub IsKept : TreeDisk S → TreeDisk S → Type 0
  IsKept s s' =
      V s'.below
      × (s'.below_ino ≡ s.below_ino)
      × (disk bs V v s'.below_ino s'.below ≡ disk bs V v s.below_ino s.below)

  module _ (s : TreeDisk S) (ino size : ℕ) (f : ℕ → Block) (w : V s.below)
      (h : HasFile (disk bs V v s.below_ino s.below) ino size f) where
    -- `getsize` returns the size of a file.
    pub getsize_lem : (s' : TreeDisk S) × (getsize bs s ino ≡ some (to_int size, s')) × IsKept s s'
    unfolding getsize
    getsize_lem =
        let (t, called, w', same) = get_snapshot_lem s.below s.below_ino ino size f w h in
        (record s { below = t }, rw (called, ◌>>=◌, h.at_size), (w', refl, same))

    read_within :
        (offset : ℕ) (block : Block)
        → offset < size
        → (s' : TreeDisk S) × (read bs s ino offset block ≡ some (pos 0, f offset, s'))
          × IsKept s s'
    unfolding read
    read_within offset block lt =
        let (t, called, w', same) = get_snapshot_lem s.below s.below_ino ino size f w h in
        let (level, levels, le, fits, least) = nlevels_lem size (omega arith) h.small in
        let held : Holds (disk bs V v s.below_ino t) level h.top f =
          rw same (h.holds level (omega arith) levels) in
        let (t', run, w2, same') =
          read_down_lem bs V v s.below_ino imp level t h.top offset block f le w' held in
        let whole : offset % capacity level ≡ offset = mod-eq_of_lt (omega arith) in
        let inside : leb size offset ≡ false = lt→leb size offset lt in
        (
          record s { below = t' },
          rw (called, ◌>>=◌, h.at_size, inside, levels, h.at_top, run, whole),
          (w2, refl, same' ∙ same),
        )

    read_beyond :
        (offset : ℕ) (block : Block)
        → size ≤ offset
        → (s' : TreeDisk S) × (read bs s ino offset block ≡ some (err, block, s')) × IsKept s s'
    unfolding read
    read_beyond offset block le =
        let (t, called, w', same) = get_snapshot_lem s.below s.below_ino ino size f w h in
        let beyond : leb size offset ≡ true = le→leb size offset le in
        (record s { below = t }, rw (called, ◌>>=◌, h.at_size, beyond), (w', refl, same))

    -- `read` returns the block of a file at an offset, and -1 beyond its end.
    pub read_lem :
        (offset : ℕ) (block : Block)
        → (s' : TreeDisk S) × (read bs s ino offset block
            ≡ (if ltb offset size then some (pos 0, f offset, s') else some (err, block, s')))
          × IsKept s s'
    read_lem offset block = elim (Bool-cases (ltb offset size)) [
      | inl e ↦ rw e (read_within offset block (ltb→lt offset size e))
      | inr e ↦ rw e (read_beyond offset block (ltb→le offset size e))
    ]
