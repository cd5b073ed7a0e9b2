-- ===== src/Disk/Tree/Writing/Whole.antt =====
-- `treedisk_write` in src/block/treedisk.c changes one block of one file.
use cs4411_p.Prelude.{
  ◌-◌, ltb→lt, ltb→le, ltb, le→leb, inr, inl, get_elem?, Bool-cases, ◌≤◌, ◌≢◌, ◌≡◌, ◌∙◌, ◌==◌, ◌<◌,
  ◌+◌, ◌*◌, ≢→==, ℕ, word_mod, sym, subst, some, refl, pos, none, lt→leb, lt_of_get_elem?, leb,
  if◌then◌else◌, get_elem?-set_self, get_elem?-set_ne, false, arith, ap, add_word, List,
}
use cs4411_p.Store.{Block, BlockStore}
use cs4411_p.Store.Contract.{View, Implements}
use cs4411_p.Disk.Tree.Layout.{null_block, Snapshot, root, nblocks, set_nblocks, put_block}
use cs4411_p.Disk.Tree.Access.{Disk, disk, write_at, write_at_self, write_at_ne}
use cs4411_p.Disk.Tree.Files.{nlevels, count_levels}
use cs4411_p.Disk.Tree.Files.Levels.{capacity, count_levels_lem, nlevels_bound}
use cs4411_p.Disk.Tree.FreeList.Chain.{Node, times_free, n_free}
use cs4411_p.Disk.Tree.Methods.{write_snapshot}
use cs4411_p.Disk.Tree.Writing.Positions.{Positions, IsPlaced-agree}
use cs4411_p.Disk.Tree.Writing.Child.{Walked}
use cs4411_p.Disk.Tree.Writing.Walking.{Walked-same, Walked-put}
use cs4411_p.Disk.Tree.Writing.Down.{update}
use cs4411_p.Disk.Tree.Writing.Growing.{IsOf}
use cs4411_p.Disk.Tree.Writing.Grown.{IsGrown, grow_lem}
use cs4411_p.Disk.Tree.Writing.Finish.{IsOpen, IsChanged, finish_lem, unplaced}
use cs4411_p.Disk.Tree.Writing.Steps.{inside_run, beyond_run}

-- The size of a file of `size` blocks after a write at `offset`.
abbrev pub new_size : ℕ → ℕ → ℕ
new_size size offset = if leb size offset then offset + 1 else size

nlevels_next :
    (offset : ℕ) {level : ℕ}
    → count_levels 5 offset 0 ≡ some level
    → nlevels (offset + 1) ≡ some level
unfolding nlevels
nlevels_next offset run =
    let full : (offset + 1 == 0) ≡ false = ≢→== (offset + 1) 0 (λ e. absurd (omega arith)) in
    let same : offset + 1 - 1 ≡ offset = omega arith in rw (full, same) run

module _ {S : Type 0} (bs : BlockStore S) (V : S → Type 0) (v : S → View) (below_ino : ℕ)
    (imp : Implements bs V v) (ino size level offset : ℕ) (blk : Block) (file : ℕ → Block) (t : S)
    (sn : Snapshot) (nodes : List Node) (g : Positions)
    (o : IsOpen bs V v below_ino imp ino size level file t sn nodes g)
    (levels : nlevels size ≡ some level) (small : size < word_mod)
    (beyond : (k : ℕ) → size ≤ k → file k ≡ null_block) (small_offset : offset + 1 < word_mod)
    (enough : 8 < n_free nodes) where
  -- What the write leaves.
  abbrev pub IsWritten : ℕ → Type 0
  IsWritten size' =
      (t' : S) × (level' : ℕ) × (write_snapshot bs below_ino t sn offset blk ≡ some (pos 0, t'))
      × (nlevels size' ≡ some level')
      × IsChanged bs V v below_ino imp ino size' level' (update file offset blk) t sn nodes g t'

  write_inside : offset < size → IsWritten size
  write_inside lt =
      let (le, fits, least) = nlevels_bound size level levels small in
      let (d, t1, t2, run1, run2, c) =
        finish_lem bs V v below_ino imp ino size level offset blk file t sn nodes g o le
          (omega arith) (omega arith) (omega arith) in
      let full : (size == 0) ≡ false = ≢→== size 0 (λ e. omega arith) in
      (
        t2,
        level,
        inside_run bs below_ino t sn offset blk o.at_size levels (lt→leb size offset lt) full run1
            run2,
        levels,
        c,
      )

  -- The snapshot with the new size.
  abbrev grown : Snapshot
  grown = set_nblocks sn (add_word offset 1)

  grown-root : root grown ≡ some o.top
  grown-root =
      get_elem?-set_ne sn.inodeblock {i = 2 * sn.index + 1} {j = 2 * sn.index} (add_word offset 1)
        (λ e. omega arith)
      ∙ o.at_top

  grown_size : nblocks grown ≡ some (offset + 1)
  grown_size =
      let whole : add_word offset 1 ≡ offset + 1 = omega arith in
      get_elem?-set_self sn.inodeblock (2 * sn.index + 1) (add_word offset 1)
        (lt_of_get_elem? sn.inodeblock (2 * sn.index + 1) o.at_size)
      ∙ ap some whole

  -- The state after the tree has grown and the inode block is written.
  grown-IsOpen :
      (count : ℕ) (sn2 : Snapshot) (t2 : S)
      → (b : IsGrown bs V v below_ino imp ino count level file t grown nodes g sn2 t2)
      → (t3 : S) × (put_block bs below_ino t2 sn2.inode_blockno sn2.inodeblock ≡ some t3)
        × IsOpen bs V v below_ino imp ino (offset + 1) (count + level) file t3 sn2 b.nodes' b.g'
        × Walked bs V v below_ino imp
            (IsOf ino)
            t
            sn.superblock
            nodes
            g
            sn2.inode_blockno
            t3
            sn2.superblock
            b.nodes'
            b.g'
  grown-IsOpen count sn2 t2 b =
      let no = sn2.inode_blockno in
      let is_no : no ≡ sn.inode_blockno = b.same_blockno in
      let nz : no ≢ 0 = λ e. o.nonzero (sym is_no ∙ e) in
      let walked =
        subst
          (λ n.
            Walked bs V v below_ino imp (IsOf ino) t sn.superblock nodes g n t2 sn2.superblock
              b.nodes' b.g')
          (sym is_no) b.walked in
      let used : times_free b.nodes' no ≡ 0 =
        walked.used no nz (ap (times_free nodes) is_no ∙ o.used) in
      let there : disk bs V v below_ino t2 no ≡ some sn.inodeblock =
        ap (disk bs V v below_ino t2) is_no ∙ b.inode_block ∙ o.on_disk in
      let no_place : b.g' no ≡ none =
        unplaced bs V v below_ino imp ino nodes g b.g' no (ap g is_no ∙ o.no_place)
          (ap (times_free nodes) is_no ∙ o.used) walked.places_new in
      let (t3, run, put, same) =
        Walked-put bs V v below_ino imp (IsOf ino) sn2.inodeblock walked.system nz used there in
      let w2 = disk bs V v below_ino t2 in
      let written : write_at w2 no sn2.inodeblock no ≡ some sn2.inodeblock =
        write_at_self w2 no sn2.inodeblock in
      (
        t3,
        run,
        record {
          system = put.system;
          nonzero = nz;
          used = used;
          no_place = no_place;
          on_disk = ap (λ (w : Disk). w no) same ∙ written;
          top = b.top';
          at_top = b.at_top;
          at_size =
              ap (λ i. get_elem? sn2.inodeblock (2 * i + 1)) b.same_index
              ∙ b.rest (2 * sn.index + 1) (λ e. absurd (omega arith))
              ∙ grown_size;
          placed =
              IsPlaced-agree w2 (disk bs V v below_ino t3) b.g' b.g' ino (count + level) 0 b.top'
                file file
                (λ x lv ix at in_q. (
                  ap (λ (w : Disk). w x) same
                      ∙ write_at_ne w2 no sn2.inodeblock x
                          (λ e. absurd (cc (ap b.g' e, no_place, at))),
                  refl,
                ))
                (λ k h. refl) b.placed;
        },
        Walked-same bs V v below_ino imp (IsOf ino) walked put,
      )

  write_beyond : size ≤ offset → IsWritten (offset + 1)
  write_beyond le_offset =
      let (le, fits, least) = nlevels_bound size level levels small in
      let (level', run0, (lo, le', fits', least')) =
        count_levels_lem 5 offset 0 (omega arith) refl (omega arith) in
      let count = level' - level in
      let more : level ≤ level' = not_fewer level' fits' least in
      let all : count + level ≡ level' = omega arith in
      let (sn2, t2, run1, b) =
        grow_lem bs V v below_ino imp ino count level file t grown nodes g o.top o.system o.nonzero
          o.used grown-root o.placed (λ k h. beyond k (omega arith)) (omega arith) in
      let (t3, run2, o3, walked) = grown-IsOpen count sn2 t2 b in
      let o3' : IsOpen bs V v below_ino imp ino (offset + 1) level' file t3 sn2 b.nodes' b.g' =
        subst (λ l. IsOpen bs V v below_ino imp ino (offset + 1) l file t3 sn2 b.nodes' b.g') all
          o3 in
      let (d, t4, t5, run3, run4, c) =
        finish_lem bs V v below_ino imp ino (offset + 1) level' offset blk file t3 sn2 b.nodes' b.g'
          o3' le' (omega arith) fits' (omega (arith, b.fewer)) in
      let full : (offset + 1 == 0) ≡ false = ≢→== (offset + 1) 0 (λ e. absurd (omega arith)) in
      (
        t5,
        level',
        beyond_run bs below_ino t sn offset blk o.at_size levels (le→leb size offset le_offset) run0
            grown_size full run1 run2 run3 run4,
        next_levels level' run0,
        changed count sn2 t2 b t3 walked t5 level' c,
      )
    where
      not_fewer :
          (level' : ℕ)
          → offset < capacity level'
          → ((k : ℕ) → k < level → capacity k < size)
          → level ≤ level'
      not_fewer level' fits' least = elim (Bool-cases (ltb level' level)) [
        | inl e ↦ absurd (omega (arith, least level' (ltb→lt level' level e)))
        | inr e ↦ ltb→le level' level e
      ]

      next_levels :
          (level' : ℕ) → count_levels 5 offset 0 ≡ some level' → nlevels (offset + 1) ≡ some level'
      next_levels level' run0 = nlevels_next offset run0

      changed :
          (count : ℕ) (sn2 : Snapshot) (t2 : S)
          → (b : IsGrown bs V v below_ino imp ino count level file t grown nodes g sn2 t2)
          → (t3 : S)
          → Walked bs V v below_ino imp
              (IsOf ino)
              t
              sn.superblock
              nodes
              g
              sn2.inode_blockno
              t3
              sn2.superblock
              b.nodes'
              b.g'
          → (t5 : S) (level' : ℕ)
          → IsChanged bs V v below_ino imp ino
              (offset + 1)
              level'
              (update file offset blk)
              t3
              sn2
              b.nodes'
              b.g'
              t5
          → IsChanged bs V v below_ino imp ino
              (offset + 1)
              level'
              (update file offset blk)
              t
              sn
              nodes
              g
              t5
      changed count sn2 t2 b t3 walked t5 level' c = record {
        sn' = c.sn';
        nodes' = c.nodes';
        g' = c.g';
        opened = c.opened;
        walked =
            subst
              (λ n.
                Walked bs V v below_ino imp (IsOf ino) t sn.superblock nodes g n t5 c.sn'.superblock
                  c.nodes' c.g')
              b.same_blockno (Walked-same bs V v below_ino imp (IsOf ino) walked c.walked);
        same_blockno = c.same_blockno ∙ b.same_blockno;
        same_index = c.same_index ∙ b.same_index;
        rest = λ k ne ne'.
            c.rest k (λ e. ne (e ∙ ap (λ i. 2 * i) b.same_index))
              (λ e. ne' (e ∙ ap (λ i. 2 * i + 1) b.same_index))
            ∙ b.rest k ne
            ∙ get_elem?-set_ne sn.inodeblock (add_word offset 1) (λ e. ne' (sym e));
      }

  -- For a file in a well formed file system with at least 9 free blocks, a write at an offset below
  -- 2^32 - 1 returns 0. Afterwards the file has the size that the offset asks for and the block at
  -- the offset, its other blocks are as they were, and the file system is well formed; of the blocks
  -- that were not free, those in the places of other files are as they were.
  pub write_snapshot_lem : IsWritten (new_size size offset)
  write_snapshot_lem = elim (Bool-cases (leb size offset)) [
    | inl e ↦ rw e (write_beyond (ground arith))
    | inr e ↦ rw e (write_inside (ground arith))
  ]
