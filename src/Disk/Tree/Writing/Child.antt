-- ===== src/Disk/Tree/Writing/Child.antt =====
-- One level of the walk of `treedisk_write` in src/block/treedisk.c: the block at a place, allocated
-- if it is not there.
use cs4411_p.Prelude.{
  ≢→==, ◌>>=◌, ◌==◌, some-injective, Bool-cases, ==→≡, ==_refl, ◌⊎◌, ◌≤◌, ◌≢◌, ◌≡◌, ◌∙◌, ◌<◌, ℕ,
  true, sym, suc, some, set-get_elem?, set, refl, inr, inl, get_elem?, false, arith, ap, List, Bool,
}
use cs4411_p.Store.{Block, BlockStore}
use cs4411_p.Store.Contract.{View, Implements}
use cs4411_p.Disk.Tree.Layout.{n_inodeblocks}
use cs4411_p.Disk.Tree.Access.{Disk, write_at_self, write_at_ne, disk}
use cs4411_p.Disk.Tree.Files.{get_child}
use cs4411_p.Disk.Tree.FreeList.Chain.{Node, times_free, n_free, exists-write}
use cs4411_p.Disk.Tree.Writing.Positions.{Position, Positions}
use cs4411_p.Disk.Tree.Writing.System.{
  place, place_self, place_ne, IsSystem, put_block-IsSystem, alloc_block-IsSystem,
}

module _ {S : Type 0} (bs : BlockStore S) (V : S → Type 0) (v : S → View) (below_ino : ℕ)
    (imp : Implements bs V v) where
  -- What the walk leaves after it started at `parent_off`, if it changes the places of `Q` only.
  pub record Walked (Q : Position → Type 0) (t : S) (sb : Block) (nodes : List Node) (g : Positions)
      (parent_off : ℕ) (t' : S) (sb' : Block) (nodes' : List Node) (g' : Positions) : Type 0 where
    pub system : IsSystem bs V v below_ino imp t' sb' nodes' g'
    pub kept :
        (x : ℕ)
        → x ≢ 0
        → x ≢ parent_off
        → times_free nodes x ≡ 0
        → ((q : Position) → g x ≡ some q → ¬ Q q)
        → disk bs V v below_ino t' x ≡ disk bs V v below_ino t x
    pub used : (x : ℕ) → x ≢ 0 → times_free nodes x ≡ 0 → times_free nodes' x ≡ 0
    pub places_kept : (x : ℕ) (q : Position) → g x ≡ some q → g' x ≡ some q
    pub places_new :
        (x : ℕ) (q : Position) → g' x ≡ some q → (g x ≡ some q) ⊎ ((0 < times_free nodes x) × Q q)
    pub same_size : n_inodeblocks sb' ≡ n_inodeblocks sb

  -- What `get_child` leaves for place `p`.
  pub record IsChild (p : Position) (t : S) (sb : Block) (nodes : List Node) (g : Positions)
      (parent : Block) (i parent_off b : ℕ) (flag : Bool) (b' : ℕ) (sb' : Block) (t' : S)
      : Type 0 where
    pub nodes' : List Node
    pub g' : Positions
    pub walked : Walked (λ q. q ≡ p) t sb nodes g parent_off t' sb' nodes' g'
    pub found : ((flag ≡ true) × (b ≢ 0) × (b' ≡ b)) ⊎ ((flag ≡ false) × (b ≡ 0))
    pub is_block : b' ≢ 0
    pub at_place : g' b' ≡ some p
    pub there : (x : Block) × (disk bs V v below_ino t' b' ≡ some x)
    pub same : (x : ℕ) → b ≢ 0 → disk bs V v below_ino t' x ≡ disk bs V v below_ino t x
    pub linked : disk bs V v below_ino t' parent_off ≡ some (set parent i b')
    pub enough : n_free nodes ≤ suc (n_free nodes')

  module _ (p : Position) (t : S) (sb : Block) (nodes : List Node) (g : Positions) (parent : Block)
      (i parent_off b : ℕ) (s : IsSystem bs V v below_ino imp t sb nodes g) (nz : parent_off ≢ 0)
      (parent_used : times_free nodes parent_off ≡ 0) (at_i : get_elem? parent i ≡ some b) where
    IsChild-old :
        b ≢ 0
        → disk bs V v below_ino t parent_off ≡ some parent
        → g b ≡ some p
        → {x : Block} → disk bs V v below_ino t b ≡ some x
        → IsChild p t sb nodes g parent i parent_off b true b sb t
    IsChild-old nzb on_disk at_place {x} there = record {
      nodes' = nodes;
      g' = g;
      walked = record {
        system = s;
        kept = λ x nz ne u h. refl;
        used = λ x nz u. u;
        places_kept = λ x q h. h;
        places_new = λ x q h. inl h;
        same_size = refl;
      };
      found = inl (refl, nzb, refl);
      is_block = nzb;
      at_place = at_place;
      there = (x, there);
      same = λ x nz. refl;
      linked = on_disk ∙ ap some (sym (set-get_elem? parent i at_i));
      enough = omega arith;
    }

    IsChild-new :
        b ≡ 0
        → 0 < n_free nodes
        → {old : Block} → disk bs V v below_ino t parent_off ≡ some old
        → (n : ℕ) × (sb' : Block) × (t' : S) × (get_child bs below_ino t sb parent i parent_off
            ≡ some (false, n, sb', t'))
          × IsChild p t sb nodes g parent i parent_off b false n sb' t'
    unfolding get_child
    IsChild-new e lt {old} on_disk =
        let (n, sb1, t1, run1, a) = alloc_block-IsSystem bs V v below_ino imp t sb nodes g p s lt in
        let empty : (b == 0) ≡ true = rw e (==_refl 0) in
        let (kept, still) = a.kept parent_off nz parent_used in
        let here : disk bs V v below_ino t1 parent_off ≡ some old = kept ∙ on_disk in
        let refs = set parent i n in
        let (t2, run2, s2, same) =
          put_block-IsSystem bs V v below_ino imp t1 sb1 a.nodes' (place g n p) parent_off refs
            a.system nz still here in
        let w1 = disk bs V v below_ino t1 in
        let (bn, hn) = a.there in
        let (bn', hn') = exists-write w1 parent_off refs n hn in
        (
          n,
          sb1,
          t2,
          rw (get_child, at_i, ◌>>=◌, empty, run1, run2),
          record {
            nodes' = a.nodes';
            g' = place g n p;
            walked = record {
              system = s2;
              kept = λ x nzx ne u h.
                  ap (λ (w : Disk). w x) same
                  ∙ write_at_ne w1 parent_off refs x ne
                  ∙ (a.kept x nzx u).0;
              used = λ x nzx u. (a.kept x nzx u).1;
              places_kept = λ x q h. place_ne g n p x (apart x q h a.was_free) ∙ h;
              places_new = λ x q h. new_place n x q h a.was_free;
              same_size = a.same_size;
            };
            found = inr (refl, e);
            is_block = a.is_block;
            at_place = place_self g n p;
            there = (bn', ap (λ (w : Disk). w n) same ∙ hn');
            same = λ x nzb. absurd (nzb e);
            linked = ap (λ (w : Disk). w parent_off) same ∙ write_at_self w1 parent_off refs;
            enough = omega (arith, a.fewer);
          },
        )
      where
        apart : {n : ℕ} (x : ℕ) (q : Position) → g x ≡ some q → 0 < times_free nodes n → x ≢ n
        apart x q h lt e' =
            let (nzx, u) = s.apart x q h in omega (arith, u, ap (times_free nodes) e')

        new_place :
            (n x : ℕ) (q : Position)
            → place g n p x ≡ some q
            → 0 < times_free nodes n
            → (g x ≡ some q) ⊎ ((0 < times_free nodes x) × (q ≡ p))
        new_place n x q h lt = elim (Bool-cases (x == n)) [
          | inl e' ↦
              let same : x ≡ n = ==→≡ x n e' in
              inr (rw same lt, sym (some-injective p q (rw e' at h)))
          | inr ne ↦ inl (rw ne at h)
        ]

    -- The block at the place, old or new.
    pub child_lem :
        (b ≡ 0)
          ⊎ ((b ≢ 0)
              × (disk bs V v below_ino t parent_off ≡ some parent)
              × (g b ≡ some p)
              × ((x : Block) × (disk bs V v below_ino t b ≡ some x)))
        → 0 < n_free nodes
        → {old : Block} → disk bs V v below_ino t parent_off ≡ some old
        → (flag : Bool) × (n : ℕ) × (sb' : Block) × (t' : S) × (get_child bs below_ino t sb parent i
              parent_off
            ≡ some (flag, n, sb', t'))
          × IsChild p t sb nodes g parent i parent_off b flag n sb' t'
    unfolding get_child
    child_lem (inl e) lt here =
        let (n, sb', t', run, c) = IsChild-new e lt here in (false, n, sb', t', run, c)
    child_lem (inr (nzb, on_disk, at_place, (x, there))) lt here =
        let full : (b == 0) ≡ false = ≢→== b 0 nzb in
        (true, b, sb, t, rw (get_child, at_i, ◌>>=◌, full), IsChild-old nzb on_disk at_place there)
