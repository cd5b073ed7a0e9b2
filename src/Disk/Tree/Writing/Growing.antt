-- ===== src/Disk/Tree/Writing/Growing.antt =====
-- `treedisk_write` in src/block/treedisk.c puts new levels on top of a tree.
use cs4411_p.Prelude.{
  zero, refl, get_elem?-set_self, get_elem?-set_ne, get_elem?, ◌⊎◌, ◌≤◌, ◌≢◌, ◌≡◌, ◌∙◌, ◌==◌, ◌<◌,
  ◌/◌, ◌+◌, ◌*◌, ℕ, sym, suc, some-injective, some, set, length-set, inr, inl, arith, ap, List,
  Bool-cases, ==→≡,
}
use native.Mathlib.Nat.{le-div_iff_mul-le}
use cs4411_p.Store.{Block, BlockStore}
use cs4411_p.Store.Contract.{View, Implements}
use cs4411_p.Disk.Tree.Layout.{refs_per_block, null_block, put_block}
use cs4411_p.Disk.Tree.Access.{Disk, write_at_self, write_at_ne, disk, null_ref, length-null_block}
use cs4411_p.Disk.Tree.Files.Levels.{capacity, capacity_pos}
use cs4411_p.Disk.Tree.FreeList.Chain.{Node, times_free, n_free}
use cs4411_p.Disk.Tree.FreeList.{alloc_block}
use cs4411_p.Disk.Tree.Writing.Positions.{Position, Positions, IsWithin, IsPlaced, IsPlaced-agree}
use cs4411_p.Disk.Tree.Writing.System.{
  place, place_self, place_ne, IsSystem, put_block-IsSystem, alloc_block-IsSystem,
}
use cs4411_p.Disk.Tree.Writing.Child.{Walked}
use cs4411_p.Disk.Tree.Writing.Next.{hole-IsPlaced}

-- The places of a file.
abbrev pub IsOf : ℕ → Position → Type 0
IsOf ino q = q.0 ≡ ino

beyond_hole :
    (k' k level : ℕ) → k ≢ 0 → IsWithin 0 k' level (0 * refs_per_block + k) → capacity level ≤ k'
beyond_hole k' k level nz (d, e, q) =
    let same : d ≡ level = omega arith in
    let many : 1 ≤ k' / capacity level = omega (arith, ap (λ n. k' / capacity n) same, q) in
    let le = (le-div_iff_mul-le (capacity_pos level)).0 many in omega (arith, le)

module _ {S : Type 0} (bs : BlockStore S) (V : S → Type 0) (v : S → View) (below_ino : ℕ)
    (imp : Implements bs V v) where
  -- A new indirect block on top.
  pub record IsTop (ino level : ℕ) (file : ℕ → Block) (t : S) (sb : Block) (nodes : List Node)
      (g : Positions) (blockno n : ℕ) (sb' : Block) (t' : S) : Type 0 where
    pub nodes' : List Node
    pub g' : Positions
    pub walked : Walked bs V v below_ino imp (IsOf ino) t sb nodes g blockno t' sb' nodes' g'
    pub placed : IsPlaced (disk bs V v below_ino t') g' ino (suc level) 0 n file
    pub fewer : n_free nodes ≡ suc (n_free nodes')
    pub inode_block : disk bs V v below_ino t' blockno ≡ disk bs V v below_ino t blockno

  pub new-IsTop :
      (ino level : ℕ) (file : ℕ → Block) (t : S) (sb : Block) (nodes : List Node) (g : Positions)
      (blockno top : ℕ)
      → IsSystem bs V v below_ino imp t sb nodes g
      → blockno ≢ 0
      → times_free nodes blockno ≡ 0
      → IsPlaced (disk bs V v below_ino t) g ino level 0 top file
      → ((k : ℕ) → capacity level ≤ k → file k ≡ null_block)
      → 0 < n_free nodes
      → (n : ℕ) × (sb' : Block) × (t1 : S) × (t2 : S) × (alloc_block bs below_ino t sb
          ≡ some (n, sb', t1))
        × (put_block bs below_ino t1 n (set null_block 0 top) ≡ some t2)
        × IsTop ino level file t sb nodes g blockno n sb' t2
  new-IsTop ino level file t sb nodes g blockno top s nz_i used_i placed beyond lt =
      let p : Position = (ino, suc level, 0) in
      let (n, sb1, t1, run1, a) = alloc_block-IsSystem bs V v below_ino imp t sb nodes g p s lt in
      let refs = set null_block 0 top in
      let (old, there) = a.there in
      let (nzn, used_n) = a.system.apart n p (place_self g n p) in
      let (t2, run2, s2, same) =
        put_block-IsSystem bs V v below_ino imp t1 sb1 a.nodes' (place g n p) n refs a.system
          a.is_block used_n there in
      let w1 = disk bs V v below_ino t1 in
      let other : (x : ℕ)
          → x ≢ 0
          → times_free nodes x ≡ 0
          → disk bs V v below_ino t2 x ≡ disk bs V v below_ino t x =
        λ x nzx u.
          ap (λ (w : Disk). w x) same
          ∙ write_at_ne w1 n refs x (apart x u a.was_free)
          ∙ (a.kept x nzx u).0 in
      (
        n,
        sb1,
        t1,
        t2,
        run1,
        run2,
        record {
          nodes' = a.nodes';
          g' = place g n p;
          walked = record {
            system = s2;
            kept = λ x nzx ne u out. other x nzx u;
            used = λ x nzx u. (a.kept x nzx u).1;
            places_kept = λ x q h. place_ne g n p x (apart x (s.apart x q h).1 a.was_free) ∙ h;
            places_new = λ x q h. new_place n x q h a.was_free;
            same_size = a.same_size;
          };
          placed = inr (
            a.is_block,
            place_self g n p,
            (
              refs,
              ap (λ (w : Disk). w n) same ∙ write_at_self w1 n refs,
              length-set null_block 0 top ∙ length-null_block,
              λ k r h. children n t2 other a.was_free k r h,
            ),
          );
          fewer = a.fewer;
          inode_block = other blockno nz_i used_i;
        },
      )
    where
      apart : {n : ℕ} (x : ℕ) → times_free nodes x ≡ 0 → 0 < times_free nodes n → x ≢ n
      apart x u lt' e' = omega (arith, u, ap (times_free nodes) e')

      new_place :
          (n x : ℕ) (q : Position)
          → place g n (ino, suc level, 0) x ≡ some q
          → 0 < times_free nodes n
          → (g x ≡ some q) ⊎ ((0 < times_free nodes x) × IsOf ino q)
      new_place n x q h lt' = elim (Bool-cases (x == n)) [
        | inl e' ↦
            let same : x ≡ n = ==→≡ x n e' in
            let e = some-injective (ino, suc level, 0) q (rw e' at h) in
            inr (rw same lt', sym (ap (λ (z : Position). z.0) e))
        | inr ne ↦ inl (rw ne at h)
      ]

      children :
          (n : ℕ) (t2 : S)
          → ((x : ℕ)
              → x ≢ 0
              → times_free nodes x ≡ 0
              → disk bs V v below_ino t2 x ≡ disk bs V v below_ino t x)
          → 0 < times_free nodes n
          → (k r : ℕ) → get_elem? (set null_block 0 top) k ≡ some r
          → IsPlaced
              (disk bs V v below_ino t2)
              (place g n (ino, suc level, 0))
              ino
              level
              (0 * refs_per_block + k)
              r
              file
      children n t2 other lt' zero r h =
          let first = get_elem?-set_self null_block 0 top (omega (arith, length-null_block)) in
          let is_top : r ≡ top = some-injective r top (sym h ∙ first) in
          rw is_top (
            IsPlaced-agree (disk bs V v below_ino t) (disk bs V v below_ino t2) g
              (place g n (ino, suc level, 0)) ino level 0 top file file
              (λ x lv ix at in_q.
                let (nzx, u) = s.apart x (ino, lv, ix) at in
                (other x nzx u, place_ne g n (ino, suc level, 0) x (apart x u lt')))
              (λ k' h'. refl) placed)
      children n t2 other lt' (suc k) r h =
          let nzk : suc k ≢ 0 = λ e. absurd (omega arith) in
          let rest : get_elem? null_block (suc k) ≡ some r =
            sym (get_elem?-set_ne null_block {i = 0} {j = suc k} top (λ e. nzk (sym e))) ∙ h in
          rw (null_ref (suc k) r rest) (
            hole-IsPlaced (disk bs V v below_ino t2) (place g n (ino, suc level, 0)) ino level
              (0 * refs_per_block + suc k) file
              (λ k' h'. beyond k' (beyond_hole k' (suc k) level nzk h')))
