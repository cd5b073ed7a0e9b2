-- ===== src/Prelude/Lists.antt =====
-- Lists measured and indexed by native numbers, under the library's names: the arrays of the code.
use Prim.Native.Nat.{ℕ, zero, suc, ◌+◌, ◌<◌, ◌≤◌}
use mathlib.Core.Path.{◌≡◌, refl, sym, ap, subst}
use mathlib.Core.Logic.{◌≢◌}
use mathlib.Core.List.{List, [], ◌∷◌, ◌++◌, map}
use mathlib.Core.Option.{Option, none, some, some-injective}
use native.Mathlib.Omega.{arith}

module _ {ℓ} {A : Type ℓ} where
  abbrev pub length : List A → ℕ
  length [] = 0
  length (x ∷ xs) = suc (length xs)

  abbrev pub get_elem? : List A → ℕ → Option A
  get_elem? [] i = none
  get_elem? (x ∷ xs) zero = some x
  get_elem? (x ∷ xs) (suc i) = get_elem? xs i

  -- A write out of bounds changes nothing.
  abbrev pub set : List A → ℕ → A → List A
  set [] i v = []
  set (x ∷ xs) zero v = v ∷ xs
  set (x ∷ xs) (suc i) v = x ∷ set xs i v

  abbrev pub replicate : ℕ → A → List A
  replicate zero a = []
  replicate (suc n) a = a ∷ replicate n a

  abbrev pub take : ℕ → List A → List A
  take zero xs = []
  take (suc n) [] = []
  take (suc n) (x ∷ xs) = x ∷ take n xs

  -- A predicate of every element.
  abbrev pub All {κ} : (A → Type κ) → List A → Type κ
  All P [] = Unit
  All P (x ∷ xs) = P x × All P xs

module _ {ℓ} {A : Type ℓ} where
  pub length-append : (xs ys : List A) → length (xs ++ ys) ≡ length xs + length ys
  length-append [] ys = omega arith
  length-append (x ∷ xs) ys = omega (arith, length-append xs ys)

  pub length-set : (xs : List A) (i : ℕ) (v : A) → length (set xs i v) ≡ length xs
  length-set [] i v = refl
  length-set (x ∷ xs) zero v = refl
  length-set (x ∷ xs) (suc i) v = ap suc (length-set xs i v)

  pub get_elem?-set_self :
      (xs : List A) (i : ℕ) (v : A) → i < length xs → get_elem? (set xs i v) i ≡ some v
  get_elem?-set_self [] i v h = elim h [ ]
  get_elem?-set_self (x ∷ xs) zero v h = refl
  get_elem?-set_self (x ∷ xs) (suc i) v h = get_elem?-set_self xs i v (omega arith)

  pub get_elem?-set_ne :
      (xs : List A) {i j : ℕ} (v : A) → i ≢ j → get_elem? (set xs i v) j ≡ get_elem? xs j
  get_elem?-set_ne [] v h = refl
  get_elem?-set_ne (x ∷ xs) {i = zero} {j = zero} v h = absurd (h refl)
  get_elem?-set_ne (x ∷ xs) {i = zero} {j = suc j} v h = refl
  get_elem?-set_ne (x ∷ xs) {i = suc i} {j = zero} v h = refl
  get_elem?-set_ne (x ∷ xs) {i = suc i} {j = suc j} v h = get_elem?-set_ne xs v (λ e. h (ap suc e))

  pub get_elem?_of_lt : (xs : List A) (i : ℕ) → i < length xs → (x : A) × (get_elem? xs i ≡ some x)
  get_elem?_of_lt [] i h = elim h [ ]
  get_elem?_of_lt (x ∷ xs) zero h = (x, refl)
  get_elem?_of_lt (x ∷ xs) (suc i) h = get_elem?_of_lt xs i (omega arith)

  pub lt_of_get_elem? : (xs : List A) (i : ℕ) {x : A} → get_elem? xs i ≡ some x → i < length xs
  lt_of_get_elem? [] i h = cc
  lt_of_get_elem? (x ∷ xs) zero h = omega arith
  lt_of_get_elem? (x ∷ xs) (suc i) h = omega (arith, lt_of_get_elem? xs i h)

  pub All-get {κ} :
      (P : A → Type κ) (xs : List A) (i : ℕ) {x : A} → All P xs → get_elem? xs i ≡ some x → P x
  All-get P [] i h e = cc
  All-get P (y ∷ xs) zero {x} h e = subst P (some-injective y x e) h.0
  All-get P (y ∷ xs) (suc i) h e = All-get P xs i h.1 e

  pub All-set {κ} :
      (P : A → Type κ) (xs : List A) (i : ℕ) {x : A} → All P xs → P x → All P (set xs i x)
  All-set P [] i h p = tt
  All-set P (y ∷ xs) zero h p = (p, h.1)
  All-set P (y ∷ xs) (suc i) h p = (h.0, All-set P xs i h.1 p)

  pub set-get_elem? : (xs : List A) (i : ℕ) {x : A} → get_elem? xs i ≡ some x → set xs i x ≡ xs
  set-get_elem? [] i h = refl
  set-get_elem? (y ∷ xs) zero {x} h = ap (λ z. z ∷ xs) (sym (some-injective y x h))
  set-get_elem? (y ∷ xs) (suc i) h = ap (◌∷◌ y) (set-get_elem? xs i h)

module _ {ℓ κ} {A : Type ℓ} {B : Type κ} (f : A → B) where
  pub length-map : (xs : List A) → length (map f xs) ≡ length xs
  length-map [] = refl
  length-map (x ∷ xs) = ap suc (length-map xs)

  pub map-set : (xs : List A) (i : ℕ) (x : A) → map f (set xs i x) ≡ set (map f xs) i (f x)
  map-set [] i x = refl
  map-set (y ∷ xs) zero x = refl
  map-set (y ∷ xs) (suc i) x = ap (◌∷◌ (f y)) (map-set xs i x)

  pub get_elem?-map :
      (xs : List A) (i : ℕ) {x : A} → get_elem? xs i ≡ some x → get_elem? (map f xs) i ≡ some (f x)
  get_elem?-map [] i h = cc
  get_elem?-map (y ∷ xs) zero {x} h = ap (λ z. some (f z)) (some-injective y x h)
  get_elem?-map (y ∷ xs) (suc i) h = get_elem?-map xs i h

  pub get_elem?-map-none :
      (xs : List A) (i : ℕ) → get_elem? xs i ≡ none → get_elem? (map f xs) i ≡ none
  get_elem?-map-none [] i h = refl
  get_elem?-map-none (y ∷ xs) zero h = cc
  get_elem?-map-none (y ∷ xs) (suc i) h = get_elem?-map-none xs i h

  -- An element replaced by one with the same image.
  pub map-set_same :
      (xs : List A) (i : ℕ) (x' : A) {x : A}
      → get_elem? xs i ≡ some x
      → f x' ≡ f x
      → map f (set xs i x') ≡ map f xs
  map-set_same xs i x' {x} h e =
      rw (map-set xs i x', e) (set-get_elem? (map f xs) i (get_elem?-map xs i h))

pub get_elem?_of_le {ℓ} : {A : Type ℓ} (xs : List A) (i : ℕ) → length xs ≤ i → get_elem? xs i ≡ none
get_elem?_of_le [] i h = refl
get_elem?_of_le (x ∷ xs) zero h = absurd (omega arith)
get_elem?_of_le (x ∷ xs) (suc i) h = get_elem?_of_le xs i (omega arith)

pub get_elem?-replicate {ℓ} :
    {A : Type ℓ} (a : A) (n i : ℕ) → i < n → get_elem? (replicate n a) i ≡ some a
get_elem?-replicate a zero i h = absurd (omega arith)
get_elem?-replicate a (suc n) zero h = refl
get_elem?-replicate a (suc n) (suc i) h = get_elem?-replicate a n i (omega arith)
