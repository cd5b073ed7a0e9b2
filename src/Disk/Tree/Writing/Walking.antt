-- ===== src/Disk/Tree/Writing/Walking.antt =====
-- How the steps of the walk of `treedisk_write` in src/block/treedisk.c follow on each other.
use cs4411_p.Prelude.{
  refl, ◌≢◌, ◌==◌, ◌<◌, Bool-cases, ==→≡, ◌≡◌, ◌∙◌, ℕ, some, inr, inl, arith, ap, Option, List,
}
use cs4411_p.Store.{Block, BlockStore}
use cs4411_p.Store.Contract.{View, Implements}
use cs4411_p.Disk.Tree.Layout.{put_block}
use cs4411_p.Disk.Tree.Access.{Disk, write_at, write_at_ne, disk}
use cs4411_p.Disk.Tree.FreeList.Chain.{Node, times_free}
use cs4411_p.Disk.Tree.Writing.Positions.{Position, Positions}
use cs4411_p.Disk.Tree.Writing.System.{IsSystem, put_block-IsSystem}
use cs4411_p.Disk.Tree.Writing.Child.{Walked}

was_free :
    (nodes nodes1 : List Node) (x : ℕ)
    → x ≢ 0
    → (x ≢ 0 → times_free nodes x ≡ 0 → times_free nodes1 x ≡ 0)
    → 0 < times_free nodes1 x
    → 0 < times_free nodes x
was_free nodes nodes1 x nz used lt = elim (Bool-cases (times_free nodes x == 0)) [
  | inl e ↦ absurd (omega (arith, used nz (==→≡ (times_free nodes x) 0 e)))
  | inr ne ↦ ground arith
]

module _ {S : Type 0} (bs : BlockStore S) (V : S → Type 0) (v : S → View) (below_ino : ℕ)
    (imp : Implements bs V v) {t : S} {sb : Block} {nodes : List Node} {g : Positions}
    {parent_off : ℕ} where
  pub Walked-weaken :
      (Q Q' : Position → Type 0) {t' : S} {sb' : Block} {nodes' : List Node} {g' : Positions}
      → ((q : Position) → Q q → Q' q)
      → Walked bs V v below_ino imp Q t sb nodes g parent_off t' sb' nodes' g'
      → Walked bs V v below_ino imp Q' t sb nodes g parent_off t' sb' nodes' g'
  Walked-weaken Q Q' more a = record {
    system = a.system;
    kept = λ x nz ne u out. a.kept x nz ne u (λ q h i. out q h (more q i));
    used = a.used;
    places_kept = a.places_kept;
    places_new =
        λ x q h. elim (a.places_new x q h) [ inl old ↦ inl old | inr (lt, i) ↦ inr (lt, more q i) ];
    same_size = a.same_size;
  }

  -- A call that leaves the disk as it was.
  pub Walked-read :
      (Q : Position → Type 0) {t1 t2 : S} {sb' : Block} {nodes' : List Node} {g' : Positions}
      → Walked bs V v below_ino imp Q t sb nodes g parent_off t1 sb' nodes' g'
      → V t2
      → disk bs V v below_ino t2 ≡ disk bs V v below_ino t1
      → Walked bs V v below_ino imp Q t sb nodes g parent_off t2 sb' nodes' g'
  Walked-read Q a w same = record {
    system = record { valid = w; free = rw same a.system.free; apart = a.system.apart };
    kept = λ x nz ne u out. ap (λ (d : ℕ → Option Block). d x) same ∙ a.kept x nz ne u out;
    used = a.used;
    places_kept = a.places_kept;
    places_new = a.places_new;
    same_size = a.same_size;
  }

  -- A block that was neither free nor at a place of `Q` is at none of these afterwards.
  pub still_out :
      (Q : Position → Type 0) {t1 : S} {sb1 : Block} {nodes1 : List Node} {g1 : Positions}
      → Walked bs V v below_ino imp Q t sb nodes g parent_off t1 sb1 nodes1 g1
      → (x : ℕ) → times_free nodes x ≡ 0
      → ((q : Position) → g x ≡ some q → ¬ Q q)
      → (q : Position) → g1 x ≡ some q
      → ¬ Q q
  still_out Q a x u out q h i = elim (a.places_new x q h) [
    | inl old ↦ out q old i
    | inr (lt, i') ↦ absurd (omega arith)
  ]

  -- A step and then one from a block at a place of `Q`.
  pub Walked-trans :
      (Q : Position → Type 0) {t1 t2 : S} {sb1 sb2 : Block} {nodes1 nodes2 : List Node}
      {g1 g2 : Positions} {b : ℕ} {p : Position}
      → Walked bs V v below_ino imp Q t sb nodes g parent_off t1 sb1 nodes1 g1
      → g1 b ≡ some p
      → Q p
      → Walked bs V v below_ino imp Q t1 sb1 nodes1 g1 b t2 sb2 nodes2 g2
      → Walked bs V v below_ino imp Q t sb nodes g parent_off t2 sb2 nodes2 g2
  Walked-trans Q {nodes1} {g1} {b} {p} a at_b in_p a' = record {
    system = a'.system;
    kept = λ x nz ne u out.
        let out1 = still_out Q a x u out in
        a'.kept x nz (λ e. out1 p (ap g1 e ∙ at_b) in_p) (a.used x nz u) out1
        ∙ a.kept x nz ne u out;
    used = λ x nz u. a'.used x nz (a.used x nz u);
    places_kept = λ x q h. a'.places_kept x q (a.places_kept x q h);
    places_new = λ x q h. elim (a'.places_new x q h) [
      | inl h1 ↦ a.places_new x q h1
      | inr (lt, i) ↦ inr (was_free nodes nodes1 x (a'.system.apart x q h).0 (a.used x) lt, i)
    ];
    same_size = a'.same_size ∙ a.same_size;
  }

  -- Two steps from one block.
  pub Walked-same :
      (Q : Position → Type 0) {t1 t2 : S} {sb1 sb2 : Block} {nodes1 nodes2 : List Node}
      {g1 g2 : Positions}
      → Walked bs V v below_ino imp Q t sb nodes g parent_off t1 sb1 nodes1 g1
      → Walked bs V v below_ino imp Q t1 sb1 nodes1 g1 parent_off t2 sb2 nodes2 g2
      → Walked bs V v below_ino imp Q t sb nodes g parent_off t2 sb2 nodes2 g2
  Walked-same Q {nodes1} a a' = record {
    system = a'.system;
    kept = λ x nz ne u out.
        a'.kept x nz ne (a.used x nz u) (still_out Q a x u out) ∙ a.kept x nz ne u out;
    used = λ x nz u. a'.used x nz (a.used x nz u);
    places_kept = λ x q h. a'.places_kept x q (a.places_kept x q h);
    places_new = λ x q h. elim (a'.places_new x q h) [
      | inl h1 ↦ a.places_new x q h1
      | inr (lt, i) ↦ inr (was_free nodes nodes1 x (a'.system.apart x q h).0 (a.used x) lt, i)
    ];
    same_size = a'.same_size ∙ a.same_size;
  }

  -- The block itself is written.
  pub Walked-put :
      (Q : Position → Type 0) (b : Block) {old : Block}
      → IsSystem bs V v below_ino imp t sb nodes g
      → parent_off ≢ 0
      → times_free nodes parent_off ≡ 0
      → disk bs V v below_ino t parent_off ≡ some old
      → (t' : S) × (put_block bs below_ino t parent_off b ≡ some t')
        × Walked bs V v below_ino imp Q t sb nodes g parent_off t' sb nodes g
        × (disk bs V v below_ino t' ≡ write_at (disk bs V v below_ino t) parent_off b)
  Walked-put Q b {old} s nz used there =
      let (t', run, s', same) =
        put_block-IsSystem bs V v below_ino imp t sb nodes g parent_off b s nz used there in
      (
        t',
        run,
        record {
          system = s';
          kept = λ x nzx ne u out.
              ap (λ (w : Disk). w x) same ∙ write_at_ne (disk bs V v below_ino t) parent_off b x ne;
          used = λ x nzx u. u;
          places_kept = λ x q h. h;
          places_new = λ x q h. inl h;
          same_size = refl;
        },
        same,
      )
