-- ===== src/Disk/Combine/Locating.antt =====
-- The loop of src/block/combinedisk.c that looks for the store of an inode.
use cs4411_p.Prelude.{
  ℕ, zero, suc, ◌+◌, ◌-◌, ◌<◌, ◌≤◌, to_int, is_neg, sub_word, int_limit, ◌≡◌, refl, ap, ◌∙◌, true,
  false, not, none, some, List, [], ◌∷◌, ltb, get_elem?, length, All, arith, Bool-cases, inl, inr,
  ltb→lt, ltb→le,
}
use cs4411_p.Disk.Combine.{locate}

-- The number of inodes in front of store `n`.
abbrev pub first_inode : List ℕ → ℕ → ℕ
first_inode [] n = 0
first_inode (size ∷ sizes) zero = 0
first_inode (size ∷ sizes) (suc n) = size + first_inode sizes n

-- No store has more inodes than an `int` can count.
abbrev pub AreSmall : List ℕ → Type 0
AreSmall = All (λ n. n < int_limit)

locate_here :
    (n : ℕ) (sizes : List ℕ) (nino i : ℕ)
    → n < int_limit
    → nino < n
    → locate (n ∷ sizes) nino i ≡ some (i, nino)
unfolding locate
locate_here n sizes nino i small lt =
    let stop : not (is_neg (to_int (sub_word nino n))) ≡ false = ground arith in rw stop

locate_next :
    (n : ℕ) (sizes : List ℕ) (nino i : ℕ)
    → nino < int_limit
    → n ≤ nino
    → locate (n ∷ sizes) nino i ≡ locate sizes (nino - n) (i + 1)
unfolding locate
locate_next n sizes nino i lt le =
    let exact : sub_word nino n ≡ nino - n = omega arith in
    let more : not (is_neg (to_int (nino - n))) ≡ true = ground arith in rw (exact, more)

-- What the loop finds is the store in whose range the inode lies.
pub locate-some :
    (sizes : List ℕ) (nino i j k : ℕ)
    → AreSmall sizes
    → nino < int_limit
    → locate sizes nino i ≡ some (j, k)
    → (d : ℕ) × (j ≡ i + d)
      × (nino ≡ first_inode sizes d + k)
      × ((size : ℕ) × (get_elem? sizes d ≡ some size) × (k < size))
locate-some [] nino i j k small lt h = unfold locate in cc
locate-some (n ∷ sizes) nino i j k (sm, small) lt h = elim (Bool-cases (ltb nino n)) [
  | inl here ↦
      let e = locate_here n sizes nino i sm (ltb→lt nino n here) in
      (0, ground arith, ground arith, (n, refl, ground arith))
  | inr on ↦
      let le : n ≤ nino = ltb→le nino n on in
      let (d, ej, en, found) =
        locate-some sizes (nino - n) (i + 1) j k small (omega arith)
          (rw (locate_next n sizes nino i lt le) at h) in
      (suc d, omega arith, omega arith, found)
]

-- The loop ends within the array, if the inode is among those of the stores.
pub locate_total :
    (sizes : List ℕ) (nino i : ℕ)
    → AreSmall sizes
    → nino < int_limit
    → nino < first_inode sizes (length sizes)
    → (j : ℕ) × (k : ℕ) × (locate sizes nino i ≡ some (j, k))
locate_total [] nino i small lt h = absurd (omega arith)
locate_total (n ∷ sizes) nino i (sm, small) lt h = elim (Bool-cases (ltb nino n)) [
  | inl here ↦ (i, nino, locate_here n sizes nino i sm (ltb→lt nino n here))
  | inr on ↦
      let le : n ≤ nino = ltb→le nino n on in
      let (j, k, e) = locate_total sizes (nino - n) (i + 1) small (omega arith) (omega arith) in
      (j, k, locate_next n sizes nino i lt le ∙ e)
]

-- Two inodes that are found at one place are one.
pub locate_unique :
    (sizes : List ℕ) (m n j k : ℕ)
    → AreSmall sizes
    → m < int_limit
    → n < int_limit
    → locate sizes m 0 ≡ some (j, k)
    → locate sizes n 0 ≡ some (j, k)
    → m ≡ n
locate_unique sizes m n j k small lm ln hm hn =
    let (d, ej, em, found) = locate-some sizes m 0 j k small lm hm in
    let (d', ej', en, found') = locate-some sizes n 0 j k small ln hn in
    let same : d ≡ d' = omega arith in omega (arith, ap (first_inode sizes) same)

-- For an inode number below 2^31 that no store has, where the stores have fewer than 2^31 inodes
-- each, the loop runs on beyond the end of the array.
pub locate_beyond :
    (sizes : List ℕ) (nino i : ℕ)
    → AreSmall sizes
    → nino < int_limit
    → first_inode sizes (length sizes) ≤ nino
    → locate sizes nino i ≡ none
locate_beyond [] nino i small lt h = unfold locate in refl
locate_beyond (n ∷ sizes) nino i (sm, small) lt h =
    let le : n ≤ nino = omega arith in
    locate_next n sizes nino i lt le
    ∙ locate_beyond sizes (nino - n) (i + 1) small (omega arith) (omega arith)

-- For an inode number below 2^31 that one of the stores has, where these have fewer than 2^31
-- inodes each, the loop ends in the range of that store: `k` is the inode's number there, and the
-- inodes in front of the store make up the rest.
pub locate_lem :
    (sizes : List ℕ) (nino : ℕ)
    → AreSmall sizes
    → nino < int_limit
    → nino < first_inode sizes (length sizes)
    → (d : ℕ) × (k : ℕ) × (size : ℕ) × (locate sizes nino 0 ≡ some (d, k))
      × (get_elem? sizes d ≡ some size)
      × (k < size)
      × (nino ≡ first_inode sizes d + k)
locate_lem sizes nino small lt h =
    let (j, k, e) = locate_total sizes nino 0 small lt h in
    let (d, ej, en, (size, at, lt')) = locate-some sizes nino 0 j k small lt e in
    (d, k, size, e ∙ ap (λ n. some (n, k)) (omega arith), at, lt', en)
