-- ===== src/Disk/Tree/FreeList/Release.antt =====
-- The free lists that `treedisk_free_block` of src/block/treedisk.c makes.
use cs4411_p.Prelude.{
  ==_refl, length-set, ◌⊎◌, ◌≤◌, ◌==◌, inr, inl, Bool-cases, ==→≡, ◌<◌, sym, suc, refl,
  lt_of_get_elem?, length, get_elem?-set_self, get_elem?, ap, [], ◌≢◌, ◌≡◌, ◌∷◌, ◌∙◌, ◌+◌, ℕ, some,
  set, get_elem?-set_ne, arith, List,
}
use cs4411_p.Store.{Block, BlockStore}
use cs4411_p.Store.Contract.{View, Implements}
use cs4411_p.Disk.Tree.Layout.{refs_per_block, null_block, set_free_list, n_inodeblocks}
use cs4411_p.Disk.Tree.Access.{Disk, disk}
use cs4411_p.Disk.Tree.FreeList.Counting.{
  count-replicate, is_at, is_at_self, is_at_ne, count_refs, count_refs-set,
}
use cs4411_p.Disk.Tree.FreeList.Chain.{Node, IsChain, times_free, HasFree}

-- A block that holds no references.
abbrev pub IsEmptyNode : Block → ℕ → Type 0
IsEmptyNode refs next =
    (get_elem? refs 0 ≡ some next)
    × (length refs ≡ refs_per_block)
    × ((x : ℕ) → x ≢ 0 → count_refs x refs ≡ 0)

pub null-IsEmptyNode : (next : ℕ) → IsEmptyNode (set null_block 0 next) next
unfolding null_block
null-IsEmptyNode next = (refl, refl, λ x nz. count-replicate x 255 nz)

pub null-empty : IsEmptyNode null_block 0
unfolding null_block
null-empty = (refl, refl, λ x nz. count-replicate x 255 nz)

-- The chain depends on the free blocks only.
pub IsChain-agree :
    (w w' : Disk) (head : ℕ) (nodes : List Node)
    → ((k : ℕ) → k ≢ 0 → 0 < times_free nodes k → w' k ≡ w k)
    → IsChain w head nodes
    → IsChain w' head nodes
IsChain-agree w w' head [] agree h = h
IsChain-agree w w' head (c ∷ nodes) agree (e, (nz, at, len, (next, first, rest))) =
    let here : w' c.0 ≡ w c.0 = agree c.0 nz (omega (arith, is_at_self c.0)) in
    let rest' = IsChain-agree w w' next nodes (λ k nzk lt. agree k nzk (omega arith)) rest in
    (e, (nz, here ∙ at, len, (next, first, rest')))

is_at_cases : (y x : ℕ) → (y ≡ x) ⊎ ((x ≢ y) × (is_at y x ≡ 0))
is_at_cases y x = elim (Bool-cases (y == x)) [
  | inl e ↦ inl (==→≡ y x e)
  | inr n ↦ inr (λ e. cc (sym e, ==_refl x), rw n)
]

module _ {S : Type 0} (bs : BlockStore S) (V : S → Type 0) (v : S → View) (below_ino : ℕ)
    (imp : Implements bs V v) where
  -- What freeing block `target` leaves: it is free, the other blocks are free as before, and the
  -- blocks that were not free are as they were.
  pub record Freed (t : S) (sb : Block) (nodes : List Node) (target : ℕ) (sb' : Block) (t' : S)
      : Type 0 where
    pub valid : V t'
    pub nodes' : List Node
    pub free : HasFree (disk bs V v below_ino t') sb' nodes'
    pub given : (x : ℕ) → x ≢ 0 → times_free nodes' x ≡ is_at target x + times_free nodes x
    pub kept :
        (k : ℕ)
        → k ≢ 0
        → k ≢ target
        → times_free nodes k ≡ 0
        → disk bs V v below_ino t' k ≡ disk bs V v below_ino t k
    pub same_size : n_inodeblocks sb' ≡ n_inodeblocks sb

  module _ (t : S) (sb : Block) (nodes : List Node) (target : ℕ)
      (f : HasFree (disk bs V v below_ino t) sb nodes) (nz : target ≢ 0)
      (used : times_free nodes target ≡ 0) where
    -- The block becomes the head of the list, without references.
    pub pushed_lem :
        (refs : Block) (t' : S)
        → IsEmptyNode refs f.head
        → V t'
        → disk bs V v below_ino t' 0 ≡ some (set_free_list sb target)
        → disk bs V v below_ino t' target ≡ some refs
        → ((k : ℕ) → k ≢ 0 → k ≢ target → disk bs V v below_ino t' k ≡ disk bs V v below_ino t k)
        → Freed t sb nodes target (set_free_list sb target) t'
    pushed_lem refs t' (next, len, none_here) w' super here others = record {
      valid = w';
      nodes' = (target, refs) ∷ nodes;
      free = record {
        head = target;
        super = super;
        first = get_elem?-set_self sb 1 target (lt_of_get_elem? sb 1 f.first);
        chain = (
          refl,
          (nz, here, len, (f.head, next, IsChain-agree w0 w0' f.head nodes agree f.chain)),
        );
        once = λ x nzx. omega (arith, none_here x nzx, once x nzx);
        exist = λ x nzx lt. exist x nzx lt;
      };
      given = λ x nzx. omega (arith, none_here x nzx);
      kept = λ k nzk ne none_free. others k nzk ne;
      same_size = get_elem?-set_ne sb target (λ e'. omega arith);
    }
      where
        w0 : Disk
        w0 = disk bs V v below_ino t

        w0' : Disk
        w0' = disk bs V v below_ino t'

        agree : (k : ℕ) → k ≢ 0 → 0 < times_free nodes k → w0' k ≡ w0 k
        agree k nzk lt = others k nzk (λ e. absurd (omega (arith, used, ap (times_free nodes) e)))

        once : (x : ℕ) → x ≢ 0 → is_at target x + times_free nodes x ≤ 1
        once x nzx = elim (is_at_cases target x) [
          | inl e ↦
              omega (arith, is_at_self x, ap (λ y. is_at y x) e, used, ap (times_free nodes) e)
          | inr (ne, off) ↦ omega (arith, f.once x nzx)
        ]

        exist :
            (x : ℕ)
            → x ≢ 0
            → 0 < times_free ((target, refs) ∷ nodes) x
            → (b : Block) × (w0' x ≡ some b)
        exist x nzx lt = elim (is_at_cases target x) [
          | inl e ↦ (refs, ap w0' (sym e) ∙ here)
          | inr (ne, off) ↦
              let listed : 0 < times_free nodes x = omega (arith, none_here x nzx) in
              let (b, hb) = f.exist x nzx listed in (b, agree x nzx listed ∙ hb)
        ]

  -- The block takes an empty place of the first free list block.
  pub placed_lem :
      (t : S) (sb : Block) (c : Node) (nodes : List Node) (target i : ℕ)
      → target ≢ 0
      → HasFree (disk bs V v below_ino t) sb (c ∷ nodes)
      → times_free (c ∷ nodes) target ≡ 0
      → get_elem? c.1 (suc i) ≡ some 0
      → (t' : S) → V t'
      → disk bs V v below_ino t' c.0 ≡ some (set c.1 (suc i) target)
      → ((k : ℕ) → k ≢ target → k ≢ c.0 → disk bs V v below_ino t' k ≡ disk bs V v below_ino t k)
      → (b : Block) × (disk bs V v below_ino t' target ≡ some b)
      → Freed t sb (c ∷ nodes) target sb t'
  placed_lem t sb c nodes target i nz f used empty t' w' here others still =
      let (e, (nzc, at, len, (next, first, tail))) = f.chain in
      let refs = set c.1 (suc i) target in
      let counted : (x : ℕ) → x ≢ 0 → count_refs x refs ≡ count_refs x c.1 + is_at target x =
        λ x nzx.
          omega (arith, count_refs-set x c.1 i target empty, is_at_ne 0 x (λ e'. nzx (sym e'))) in
      let kept : (k : ℕ) → k ≢ target → k ≢ c.0 → w0' k ≡ w0 k = others in
      record {
        valid = w';
        nodes' = (c.0, refs) ∷ nodes;
        free = record {
          head = f.head;
          super = kept 0 (λ e'. nz (sym e')) (λ e'. nzc (sym e')) ∙ f.super;
          first = f.first;
          chain = (
            e,
            (
              nzc,
              here,
              length-set c.1 (suc i) target ∙ len,
              (
                next,
                get_elem?-set_ne c.1 target (λ e'. omega arith) ∙ first,
                IsChain-agree w0 w0' next nodes (agree nzc) tail,
              ),
            ),
          );
          once = λ x nzx. omega (arith, once x nzx, counted x nzx);
          exist = λ x nzx lt. exist at x nzx (omega (arith, counted x nzx));
        };
        given = λ x nzx. omega (arith, counted x nzx);
        kept = λ k nzk ne none_free.
            kept k ne (λ e'. absurd (omega (arith, is_at_self c.0, ap (is_at c.0) e')));
        same_size = refl;
      }
    where
      w0 : Disk
      w0 = disk bs V v below_ino t

      w0' : Disk
      w0' = disk bs V v below_ino t'

      once : (x : ℕ) → x ≢ 0 → is_at target x + times_free (c ∷ nodes) x ≤ 1
      once x nzx = elim (is_at_cases target x) [
        | inl e ↦
            omega (arith, is_at_self x, ap (λ y. is_at y x) e, used, ap (times_free (c ∷ nodes)) e)
        | inr (ne, off) ↦ omega (arith, f.once x nzx)
      ]

      agree : c.0 ≢ 0 → (k : ℕ) → k ≢ 0 → 0 < times_free nodes k → w0' k ≡ w0 k
      agree nzc k nzk lt =
          others k (λ e. absurd (omega (arith, used, ap (times_free nodes) e)))
            (λ e. absurd (omega (arith, f.once k nzk, is_at_self k, ap (λ y. is_at y k) e)))

      exist :
          w0 c.0 ≡ some c.1
          → (x : ℕ) → x ≢ 0
          → 0 < is_at target x + times_free (c ∷ nodes) x
          → (b : Block) × (w0' x ≡ some b)
      exist at x nzx lt = elim (is_at_cases target x) [
        | inl e ↦ let (b, hb) = still in (b, ap w0' (sym e) ∙ hb)
        | inr (ne, off) ↦ elim (is_at_cases c.0 x) [
          | inl e ↦ (set c.1 (suc i) target, ap w0' (sym e) ∙ here)
          | inr (ne', off') ↦ let (b, hb) = f.exist x nzx (omega arith) in (b, others x ne ne' ∙ hb)
        ]
      ]
