-- ===== src/Disk/Tree/Writing/Grown.antt =====
-- `treedisk_write` in src/block/treedisk.c grows a tree by any number of levels.
use cs4411_p.Prelude.{
  ◌≤◌, ◌≢◌, ◌≡◌, ◌∙◌, ◌>>=◌, ◌+◌, ◌*◌, ℕ, zero, sym, suc, subst, some, refl, lt_of_get_elem?, inl,
  get_elem?-set_self, get_elem?-set_ne, get_elem?, arith, List,
}
use native.Mathlib.Nat.{pow-suc}
use cs4411_p.Store.{Block, BlockStore}
use cs4411_p.Store.Contract.{View, Implements}
use cs4411_p.Disk.Tree.Layout.{null_block, Snapshot, root, set_root}
use cs4411_p.Disk.Tree.Access.{disk}
use cs4411_p.Disk.Tree.Files.{grow}
use cs4411_p.Disk.Tree.Files.Levels.{capacity}
use cs4411_p.Disk.Tree.FreeList.Chain.{Node, times_free, n_free}
use cs4411_p.Disk.Tree.Writing.Positions.{Positions, IsPlaced}
use cs4411_p.Disk.Tree.Writing.System.{IsSystem}
use cs4411_p.Disk.Tree.Writing.Child.{Walked}
use cs4411_p.Disk.Tree.Writing.Walking.{Walked-same}
use cs4411_p.Disk.Tree.Writing.Growing.{IsOf, new-IsTop}

none_more : (level : ℕ) → level ≡ 0 + level
none_more level = omega arith

module _ {S : Type 0} (bs : BlockStore S) (V : S → Type 0) (v : S → View) (below_ino : ℕ)
    (imp : Implements bs V v) where
  -- The tree has `count` levels more and holds the same file.
  pub record IsGrown (ino count level : ℕ) (file : ℕ → Block) (t : S) (sn : Snapshot)
      (nodes : List Node) (g : Positions) (sn' : Snapshot) (t' : S) : Type 0 where
    pub nodes' : List Node
    pub g' : Positions
    pub top' : ℕ
    pub walked :
        Walked bs V v below_ino imp
          (IsOf ino)
          t
          sn.superblock
          nodes
          g
          sn.inode_blockno
          t'
          sn'.superblock
          nodes'
          g'
    pub at_top : root sn' ≡ some top'
    pub placed : IsPlaced (disk bs V v below_ino t') g' ino (count + level) 0 top' file
    pub rest : (k : ℕ) → k ≢ 2 * sn.index → get_elem? sn'.inodeblock k ≡ get_elem? sn.inodeblock k
    pub same_blockno : sn'.inode_blockno ≡ sn.inode_blockno
    pub same_index : sn'.index ≡ sn.index
    pub inode_block :
        disk bs V v below_ino t' sn.inode_blockno ≡ disk bs V v below_ino t sn.inode_blockno
    pub fewer : n_free nodes ≡ count + n_free nodes'

  pub grow_lem :
      (ino count level : ℕ) (file : ℕ → Block) (t : S) (sn : Snapshot) (nodes : List Node)
      (g : Positions) (top : ℕ)
      → IsSystem bs V v below_ino imp t sn.superblock nodes g
      → sn.inode_blockno ≢ 0
      → times_free nodes sn.inode_blockno ≡ 0
      → root sn ≡ some top
      → IsPlaced (disk bs V v below_ino t) g ino level 0 top file
      → ((k : ℕ) → capacity level ≤ k → file k ≡ null_block)
      → count ≤ n_free nodes
      → (sn' : Snapshot) × (t' : S) × (grow bs below_ino count t sn ≡ some (sn', t'))
        × IsGrown ino count level file t sn nodes g sn' t'
  unfolding grow
  grow_lem ino zero level file t sn nodes g top s nz used at_top placed beyond le = (
    sn,
    t,
    refl,
    record {
      nodes' = nodes;
      g' = g;
      top' = top;
      walked = record {
        system = s;
        kept = λ x nzx ne u out. refl;
        used = λ x nzx u. u;
        places_kept = λ x q h. h;
        places_new = λ x q h. inl h;
        same_size = refl;
      };
      at_top = at_top;
      placed =
          subst (λ l. IsPlaced (disk bs V v below_ino t) g ino l 0 top file) (none_more level)
            placed;
      rest = λ k ne. refl;
      same_blockno = refl;
      same_index = refl;
      inode_block = refl;
      fewer = omega arith;
    },
  )
  grow_lem ino (suc count) level file t sn nodes g top s nz used at_top placed beyond le =
      let blockno = sn.inode_blockno in
      let (n, sb1, t1, t2, run1, run2, a) =
        new-IsTop bs V v below_ino imp ino level file t sn.superblock nodes g blockno top s nz used
          placed beyond (omega arith) in
      let sn1 : Snapshot = record (set_root sn n) { superblock = sb1 } in
      let at_n : root sn1 ≡ some n =
        get_elem?-set_self sn.inodeblock (2 * sn.index) n
          (lt_of_get_elem? sn.inodeblock (2 * sn.index) at_top) in
      let (sn', t', run, b) =
        grow_lem ino count (suc level) file t2 sn1 a.nodes' a.g' n a.walked.system nz
          (a.walked.used blockno nz used) at_n a.placed
          (λ k h. beyond k (omega (arith, pow-suc 256 level, h))) (omega (arith, a.fewer)) in
      let levels : count + suc level ≡ suc count + level = omega arith in
      (
        sn',
        t',
        rw (grow, run1, ◌>>=◌, at_top, run2) run,
        record {
          nodes' = b.nodes';
          g' = b.g';
          top' = b.top';
          walked = Walked-same bs V v below_ino imp (IsOf ino) a.walked b.walked;
          at_top = b.at_top;
          placed =
              subst (λ l. IsPlaced (disk bs V v below_ino t') b.g' ino l 0 b.top' file) levels
                b.placed;
          rest = λ k ne. b.rest k ne ∙ get_elem?-set_ne sn.inodeblock n (λ e. ne (sym e));
          same_blockno = b.same_blockno;
          same_index = b.same_index;
          inode_block = b.inode_block ∙ a.inode_block;
          fewer = omega (arith, a.fewer, b.fewer);
        },
      )
