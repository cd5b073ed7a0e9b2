-- ===== src/Disk/Tree/Writing/Finish.antt =====
-- `treedisk_write` in src/block/treedisk.c, from the walk down to the write of the data block.
use cs4411_p.Prelude.{
  ◌⊎◌, ◌≤◌, ◌≢◌, ◌≡◌, ◌∙◌, ◌<◌, ◌+◌, ◌*◌, ℕ, word_mod, sym, subst, some, set, refl, none,
  lt_of_get_elem?, inr, inl, get_elem?-set_self, get_elem?-set_ne, get_elem?, arith, ap,
  Option-cases, List,
}
use native.Mathlib.Nat.{div-eq_of_lt}
use cs4411_p.Store.{Block, BlockStore}
use cs4411_p.Store.Contract.{View, Implements}
use cs4411_p.Disk.Tree.Layout.{Snapshot, root, nblocks, put_block}
use cs4411_p.Disk.Tree.Access.{Disk, disk, write_at_ne}
use cs4411_p.Disk.Tree.Files.{write_down}
use cs4411_p.Disk.Tree.Files.Levels.{capacity}
use cs4411_p.Disk.Tree.FreeList.Chain.{Node, times_free, n_free}
use cs4411_p.Disk.Tree.Writing.Positions.{Position, Positions, IsPlaced}
use cs4411_p.Disk.Tree.Writing.System.{IsSystem}
use cs4411_p.Disk.Tree.Writing.Child.{Walked}
use cs4411_p.Disk.Tree.Writing.Walking.{Walked-weaken, Walked-trans, Walked-put}
use cs4411_p.Disk.Tree.Writing.Down.{update, IsIn, IsStart}
use cs4411_p.Disk.Tree.Writing.Data.{write_down_lem}
use cs4411_p.Disk.Tree.Writing.Growing.{IsOf}

module _ {S : Type 0} (bs : BlockStore S) (V : S → Type 0) (v : S → View) (below_ino : ℕ)
    (imp : Implements bs V v) where
  -- The snapshot `sn` is that of a file of `size` blocks in a well formed file system. It has a tree
  -- of `level` levels.
  pub record IsOpen (ino size level : ℕ) (file : ℕ → Block) (t : S) (sn : Snapshot)
      (nodes : List Node) (g : Positions) : Type 0 where
    pub system : IsSystem bs V v below_ino imp t sn.superblock nodes g
    pub nonzero : sn.inode_blockno ≢ 0
    pub used : times_free nodes sn.inode_blockno ≡ 0
    pub no_place : g sn.inode_blockno ≡ none
    pub on_disk : disk bs V v below_ino t sn.inode_blockno ≡ some sn.inodeblock
    pub top : ℕ
    pub at_top : root sn ≡ some top
    pub at_size : nblocks sn ≡ some size
    pub placed : IsPlaced (disk bs V v below_ino t) g ino level 0 top file

  -- The file changed from `t` to `t'`, and no other.
  pub record IsChanged (ino size level : ℕ) (file : ℕ → Block) (t : S) (sn : Snapshot)
      (nodes : List Node) (g : Positions) (t' : S) : Type 0 where
    pub sn' : Snapshot
    pub nodes' : List Node
    pub g' : Positions
    pub opened : IsOpen ino size level file t' sn' nodes' g'
    pub walked :
        Walked bs V v below_ino imp
          (IsOf ino)
          t
          sn.superblock
          nodes
          g
          sn.inode_blockno
          t'
          sn'.superblock
          nodes'
          g'
    pub same_blockno : sn'.inode_blockno ≡ sn.inode_blockno
    pub same_index : sn'.index ≡ sn.index
    pub rest :
        (k : ℕ)
        → k ≢ 2 * sn.index
        → k ≢ 2 * sn.index + 1
        → get_elem? sn'.inodeblock k ≡ get_elem? sn.inodeblock k

  -- The inode block gets no place.
  pub unplaced :
      (ino : ℕ) (nodes : List Node) (g g' : Positions) (x : ℕ)
      → g x ≡ none
      → times_free nodes x ≡ 0
      → ((y : ℕ) (q : Position)
          → g' y ≡ some q
          → (g y ≡ some q) ⊎ ((0 < times_free nodes y) × IsOf ino q))
      → g' x ≡ none
  unplaced ino nodes g g' x h u new = elim (Option-cases (g' x)) [
    | inl e ↦ e
    | inr (q, e) ↦ elim (new x q e) [
      | inl e' ↦ absurd (cc (h, e'))
      | inr (lt', i) ↦ absurd (omega arith)
    ]
  ]

  open-IsStart :
      (ino size level : ℕ) (file : ℕ → Block) (t : S) (sn : Snapshot) (nodes : List Node)
      (g : Positions)
      → (o : IsOpen ino size level file t sn nodes g)
      → IsStart bs V v below_ino imp ino level 0 file t sn.superblock nodes g sn.inodeblock
          (2 * sn.index)
          sn.inode_blockno
          o.top
  open-IsStart ino size level file t sn nodes g o = record {
    system = o.system;
    at_i = o.at_top;
    nonzero = o.nonzero;
    used = o.used;
    outside = λ q h. absurd (cc (o.no_place, h));
    exists_parent = (sn.inodeblock, o.on_disk);
    on_disk = λ nz. o.on_disk;
    placed = o.placed;
  }

  pub finish_lem :
      (ino size level offset : ℕ) (blk : Block) (file : ℕ → Block) (t : S) (sn : Snapshot)
      (nodes : List Node) (g : Positions)
      → IsOpen ino size level file t sn nodes g
      → level ≤ 4
      → offset < word_mod
      → offset < capacity level
      → level < n_free nodes
      → (d : ℕ) × (t1 : S) × (t2 : S) × (write_down bs below_ino level t sn.superblock sn.inodeblock
            (2 * sn.index)
            sn.inode_blockno
            offset
          ≡ some (d, t1))
        × (put_block bs below_ino t1 d blk ≡ some t2)
        × IsChanged ino size level (update file offset blk) t sn nodes g t2
  finish_lem ino size level offset blk file t sn nodes g o le small fits lt =
      let i = 2 * sn.index in
      let no = sn.inode_blockno in
      let start = open-IsStart ino size level file t sn nodes g o in
      let (d, t1, run1, down) =
        write_down_lem bs V v below_ino imp ino level 0 offset file t sn.superblock nodes g
          sn.inodeblock i no o.top le small start (level, omega arith, div-eq_of_lt fits) lt in
      let (nzd, used_d) = down.walked.system.apart d (ino, 0, offset) down.data_place in
      let (old, there) = down.there in
      let (t2, run2, put, same) =
        Walked-put bs V v below_ino imp (IsOf ino) blk down.walked.system nzd used_d there in
      let walked =
        Walked-weaken bs V v below_ino imp (IsIn ino level 0) (IsOf ino) (λ q h. h.0) down.walked in
      let no_place : down.g' no ≡ none =
        unplaced ino nodes g down.g' no o.no_place o.used walked.places_new in
      let apart : no ≢ d = λ e. absurd (cc (ap down.g' e, no_place, down.data_place)) in
      (
        d,
        t1,
        t2,
        run1,
        run2,
        record {
          sn' = record sn { superblock = down.sb'; inodeblock = set sn.inodeblock i down.b' };
          nodes' = down.nodes';
          g' = down.g';
          opened = record {
            system = put.system;
            nonzero = o.nonzero;
            used = down.walked.used no o.nonzero o.used;
            no_place = no_place;
            on_disk =
                ap (λ (w : Disk). w no) same
                ∙ write_at_ne (disk bs V v below_ino t1) d blk no apart
                ∙ down.linked;
            top = down.b';
            at_top =
                get_elem?-set_self sn.inodeblock i down.b'
                  (lt_of_get_elem? sn.inodeblock i o.at_top);
            at_size = get_elem?-set_ne sn.inodeblock down.b' (λ e. omega arith) ∙ o.at_size;
            placed =
                subst
                  (λ (w : Disk). IsPlaced w down.g' ino level 0 down.b' (update file offset blk))
                  (sym same) (down.placed blk);
          };
          walked = Walked-trans bs V v below_ino imp (IsOf ino) walked down.data_place refl put;
          same_blockno = refl;
          same_index = refl;
          rest = λ k ne ne'. get_elem?-set_ne sn.inodeblock down.b' (λ e. ne (sym e));
        },
      )
