-- ===== src/Disk/Combine/Joined.antt =====
-- The array that src/block/combinedisk.c stands for, and what its search loop finds there.
use cs4411_p.Prelude.{
  ◌≤◌, ◌≡◌, ◌∷◌, ◌∙◌, ◌<◌, ◌-◌, ◌+◌, ℕ, zero, sym, suc, some, refl, none, ltb→lt, ltb→le, ltb,
  length, int_limit, inr, inl, if◌then◌else◌, get_elem?, fun_ext, false, arith, ap, [], Option,
  List, Bool-cases,
}
use cs4411_p.Store.{Block}
use cs4411_p.Store.Contract.{View}
use cs4411_p.Disk.Combine.{locate}
use cs4411_p.Disk.Combine.Locating.{AreSmall, first_inode, locate_lem, locate_beyond}

-- The inodes of stores of so many inodes each, one store after the other.
abbrev pub concat : List ℕ → List View → ℕ → ℕ → Option Block
concat [] ws ino off = none
concat (n ∷ sizes) [] ino off = none
concat (n ∷ sizes) (w ∷ ws) ino off = if ltb ino n then w ino off else concat sizes ws (ino - n) off

-- Those of the inodes that an `int` can count.
abbrev pub joined : List ℕ → List View → View
joined sizes ws ino off = if ltb ino int_limit then concat sizes ws ino off else none

abbrev pub block_at : Option View → ℕ → ℕ → Option Block
block_at none k off = none
block_at (some w) k off = w k off

-- The block of the inode at a place that the loop finds.
abbrev pub found_at : List View → Option (ℕ × ℕ) → ℕ → Option Block
found_at ws none off = none
found_at ws (some (j, k)) off = block_at (get_elem? ws j) k off

abbrev pub found : List ℕ → List View → View
found sizes ws ino off = if ltb ino int_limit then found_at ws (locate sizes ino 0) off else none

concat-first_inode :
    (sizes : List ℕ) (ws : List View) (d k size off : ℕ)
    → get_elem? sizes d ≡ some size
    → k < size
    → concat sizes ws (first_inode sizes d + k) off ≡ block_at (get_elem? ws d) k off
concat-first_inode [] ws d k size off h lt = cc
concat-first_inode (n ∷ sizes) [] d k size off h lt = refl
concat-first_inode (n ∷ sizes) (w ∷ ws) zero k size off h lt = ground arith
concat-first_inode (n ∷ sizes) (w ∷ ws) (suc d) k size off h lt =
    let beyond : ltb (n + first_inode sizes d + k) n ≡ false = ground arith in
    let rest : n + first_inode sizes d + k - n ≡ first_inode sizes d + k = omega arith in
    rw (beyond, rest) (concat-first_inode sizes ws d k size off h lt)

concat_beyond :
    (sizes : List ℕ) (ws : List View) (ino off : ℕ)
    → first_inode sizes (length sizes) ≤ ino
    → concat sizes ws ino off ≡ none
concat_beyond [] ws ino off h = refl
concat_beyond (n ∷ sizes) [] ino off h = refl
concat_beyond (n ∷ sizes) (w ∷ ws) ino off h =
    let beyond : ltb ino n ≡ false = ground arith in
    rw beyond (concat_beyond sizes ws (ino - n) off (omega arith))

found_at-locate :
    (sizes : List ℕ) (ws : List View) (ino off : ℕ)
    → AreSmall sizes
    → ino < int_limit
    → concat sizes ws ino off ≡ found_at ws (locate sizes ino 0) off
found_at-locate sizes ws ino off small lt =
    elim (Bool-cases (ltb ino (first_inode sizes (length sizes)))) [
      | inl inside ↦
          let (d, k, size, loc, at, ltk, e) =
            locate_lem sizes ino small lt (ltb→lt ino (first_inode sizes (length sizes)) inside) in
          ap (λ x. concat sizes ws x off) e
          ∙ concat-first_inode sizes ws d k size off at ltk
          ∙ sym (ap (λ x. found_at ws x off) loc)
      | inr beyond ↦
          let le = ltb→le ino (first_inode sizes (length sizes)) beyond in
          concat_beyond sizes ws ino off le
          ∙ sym (ap (λ x. found_at ws x off) (locate_beyond sizes ino 0 small lt le))
    ]

-- The loop finds each inode at its place.
pub joined-found :
    (sizes : List ℕ) (ws : List View) → AreSmall sizes → joined sizes ws ≡ found sizes ws
joined-found sizes ws small = fun_ext λ ino. fun_ext λ off. elim (Bool-cases (ltb ino int_limit)) [
  | inl lt ↦ rw lt (found_at-locate sizes ws ino off small (ltb→lt ino int_limit lt))
  | inr big ↦ rw big
]
