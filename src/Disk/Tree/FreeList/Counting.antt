-- ===== src/Disk/Tree/FreeList/Counting.antt =====
-- How often a block number stands in the blocks of the free list.
use cs4411_p.Prelude.{
  false, sym, replicate, ≢→==, ==_refl, ◌∙◌, ◌>>=◌, ◌==◌, ◌+◌, zero, refl, inr, if◌then◌else◌,
  get_elem?_of_lt, ap, [], ==→≡, Bool-cases, inl, ◌⊎◌, ◌≤◌, arith, some-injective, length, length,
  ◌≡◌, ◌<◌, ◌≢◌, List, List, ◌∷◌, List, ℕ,
}
use cs4411_p.Store.{Block}
use cs4411_p.Disk.Tree.FreeList.{
  set, set, some, some, some, some, some, suc, suc, get_elem?, last_ref, first_empty,
}

-- 1 where the numbers are equal.
abbrev pub is_at : ℕ → ℕ → ℕ
is_at y x = if y == x then 1 else 0

abbrev pub count : ℕ → List ℕ → ℕ
count x [] = 0
count x (y ∷ ys) = is_at y x + count x ys

pub is_at_self : (x : ℕ) → is_at x x ≡ 1
is_at_self x = rw (==_refl x)

pub is_at_ne : (y x : ℕ) → y ≢ x → is_at y x ≡ 0
is_at_ne y x ne = rw (≢→== y x ne)

-- The references of a free list block: all words but the first.
abbrev pub count_refs : ℕ → Block → ℕ
count_refs x [] = 0
count_refs x (next ∷ refs) = count x refs

count-set :
    (x : ℕ) (ys : List ℕ) (k m : ℕ) {n : ℕ}
    → get_elem? ys k ≡ some n
    → count x (set ys k m) + is_at n x ≡ count x ys + is_at m x
count-set x [] k m h = cc
count-set x (y ∷ ys) zero m {n} h = let e : y ≡ n = some-injective y n h in rw e (omega arith)
count-set x (y ∷ ys) (suc k) m h = omega (arith, count-set x ys k m h)

pub count_refs-set :
    (x : ℕ) (refs : Block) (k m : ℕ) {n : ℕ}
    → get_elem? refs (suc k) ≡ some n
    → count_refs x (set refs (suc k) m) + is_at n x ≡ count_refs x refs + is_at m x
count_refs-set x [] k m h = cc
count_refs-set x (next ∷ refs) k m h = count-set x refs k m h

pub count-replicate : (x n : ℕ) → x ≢ 0 → count x (replicate n 0) ≡ 0
count-replicate x zero nz = refl
count-replicate x (suc n) nz =
    let rest = count-replicate x n nz in let off = is_at_ne 0 x (λ e. nz (sym e)) in omega arith

count_none :
    (x : ℕ) (ys : List ℕ)
    → x ≢ 0
    → ((k : ℕ) → k < length ys → get_elem? ys k ≡ some 0)
    → count x ys ≡ 0
count_none x [] nz all = refl
count_none x (y ∷ ys) nz all =
    let e : y ≡ 0 = some-injective y 0 (all 0 (omega arith)) in
    let rest = count_none x ys nz (λ k lt. all (suc k) (omega arith)) in rw (e, rest) (ground arith)

pub count_refs_none :
    (x : ℕ) (refs : Block)
    → x ≢ 0
    → ((k : ℕ) → suc k < length refs → get_elem? refs (suc k) ≡ some 0)
    → count_refs x refs ≡ 0
count_refs_none x [] nz all = refl
count_refs_none x (next ∷ refs) nz all = count_none x refs nz (λ k lt. all k (omega arith))

-- 1 for a reference that is not empty.
abbrev is_ref : ℕ → ℕ
is_ref y = if y == 0 then 0 else 1

abbrev pub n_refs : List ℕ → ℕ
n_refs [] = 0
n_refs (y ∷ ys) = is_ref y + n_refs ys

n_refs-set :
    (ys : List ℕ) (k : ℕ) {n : ℕ}
    → get_elem? ys k ≡ some n
    → n ≢ 0
    → n_refs ys ≡ suc (n_refs (set ys k 0))
n_refs-set [] k h nz = cc
n_refs-set (y ∷ ys) zero {n} h nz =
    let e : y ≡ n = some-injective y n h in
    let used : (y == 0) ≡ false = ≢→== y 0 (λ z. nz (sym e ∙ z)) in rw used (omega arith)
n_refs-set (y ∷ ys) (suc k) h nz = omega (arith, n_refs-set ys k h nz)

-- How many blocks a free list block holds, with itself.
abbrev pub n_free_in : Block → ℕ
n_free_in [] = 1
n_free_in (next ∷ refs) = suc (n_refs refs)

pub n_free_in-set :
    (refs : Block) (k : ℕ) {n : ℕ}
    → get_elem? refs (suc k) ≡ some n
    → n ≢ 0
    → n_free_in refs ≡ suc (n_free_in (set refs (suc k) 0))
n_free_in-set [] k h nz = cc
n_free_in-set (next ∷ refs) k h nz = ap suc (n_refs-set refs k h nz)

n_refs_none : (ys : List ℕ) → ((k : ℕ) → k < length ys → get_elem? ys k ≡ some 0) → n_refs ys ≡ 0
n_refs_none [] all = refl
n_refs_none (y ∷ ys) all =
    let e : y ≡ 0 = some-injective y 0 (all 0 (omega arith)) in
    let rest = n_refs_none ys (λ k lt. all (suc k) (omega arith)) in rw e (omega (arith, rest))

pub n_free_in_none :
    (refs : Block)
    → ((k : ℕ) → suc k < length refs → get_elem? refs (suc k) ≡ some 0)
    → n_free_in refs ≡ 1
n_free_in_none [] all = refl
n_free_in_none (next ∷ refs) all = ap suc (n_refs_none refs (λ k lt. all k (omega arith)))

-- The scan of `treedisk_alloc_block`: every reference up to `i` is 0, or it finds one that is not.
pub last_ref_lem :
    (refs : Block) (i : ℕ)
    → i < length refs
    → ((last_ref refs i ≡ some 0) × ((k : ℕ) → suc k ≤ i → get_elem? refs (suc k) ≡ some 0))
      ⊎ ((k : ℕ) × (n : ℕ) × (last_ref refs i ≡ some (suc k))
          × (get_elem? refs (suc k) ≡ some n)
          × (n ≢ 0))
unfolding last_ref
last_ref_lem refs zero lt = inl (refl, λ k le. absurd (omega arith))
last_ref_lem refs (suc i) lt =
    let (x, at) = get_elem?_of_lt refs (suc i) lt in
    elim (Bool-cases (x == 0)) [
      | inr full ↦ inr (i, x, rw (at, ◌>>=◌, full), at, λ e. ground arith)
      | inl zero_here ↦
          let ez : x ≡ 0 = ==→≡ x 0 zero_here in
          elim (last_ref_lem refs i (omega arith)) [
            | inl (e, all) ↦ inl (rw (at, ◌>>=◌, zero_here) e, λ k le. up k le (rw ez at at) all)
            | inr (k, n, e, at', nz) ↦ inr (k, n, rw (at, ◌>>=◌, zero_here) e, at', nz)
          ]
    ]
  where
    up :
        (k : ℕ)
        → suc k ≤ suc i
        → get_elem? refs (suc i) ≡ some 0
        → ((j : ℕ) → suc j ≤ i → get_elem? refs (suc j) ≡ some 0)
        → get_elem? refs (suc k) ≡ some 0
    up k le here all = elim (Bool-cases (k == i)) [
      | inl same ↦ rw (==→≡ k i same) here
      | inr other ↦ all k (ground arith)
    ]

-- The scan of `treedisk_free_block`: it finds an empty place from `i` on, or comes to the end.
pub first_empty_lem :
    (refs : Block) (i n : ℕ)
    → i + n ≤ length refs
    → (first_empty refs i n ≡ some (i + n))
      ⊎ ((k : ℕ) × (first_empty refs i n ≡ some k)
          × (i ≤ k)
          × (k < i + n)
          × (get_elem? refs k ≡ some 0))
unfolding first_empty
first_empty_lem refs i zero le = inl (ap some (omega arith))
first_empty_lem refs i (suc n) le =
    let (x, at) = get_elem?_of_lt refs i (omega arith) in
    elim (Bool-cases (x == 0)) [
      | inl zero_here ↦
          let ez : x ≡ 0 = ==→≡ x 0 zero_here in
          inr (i, rw (at, ◌>>=◌, zero_here), omega arith, omega arith, rw ez at at)
      | inr full ↦ elim (first_empty_lem refs (i + 1) n (omega arith)) [
        | inl e ↦ inl (rw (at, ◌>>=◌, full) (e ∙ ap some (omega arith)))
        | inr (k, e, le', lt, at') ↦ inr (k, rw (at, ◌>>=◌, full) e, omega arith, omega arith, at')
      ]
    ]
