-- ===== src/Disk/Slots/Finding.antt =====
-- What the search loop of a block cache finds.
use cs4411_p.Prelude.{
  ℕ, zero, suc, ◌+◌, ◌≡◌, ◌≢◌, refl, ap, ◌∙◌, true, false, Option, none, some, List, [], ◌∷◌,
  if◌then◌else◌, get_elem?, some-injective, some-ne-none, arith, Bool-cases, inl, inr, ==_refl, ◌⊎◌,
}
use cs4411_p.Disk.Slots.{Slot, is_used, is_hit, find_hit}

module _ {D : Type 0} where
  -- The slot that holds a block, if one does.
  unfoldable pub find : List (Slot D) → ℕ → ℕ → Option (Slot D)
  find [] ino offset = none
  find (x ∷ slots) ino offset = if is_hit x ino offset then some x else find slots ino offset

  -- No block is held twice.
  abbrev pub AreDistinct : List (Slot D) → Type 0
  AreDistinct [] = Unit
  AreDistinct (x ∷ slots) =
      ((is_used x.status ≡ false) ⊎ (find slots x.ino x.offset ≡ none)) × AreDistinct slots

  pub is_hit_iff :
      (x : Slot D) (ino offset : ℕ)
      → is_hit x ino offset ≡ true
      → (x.ino ≡ ino) × (x.offset ≡ offset) × (is_used x.status ≡ true)
  unfolding is_hit
  is_hit_iff x ino offset h = ground arith

  pub is_hit_self : (x : Slot D) → is_used x.status ≡ true → is_hit x x.ino x.offset ≡ true
  unfolding is_hit
  is_hit_self x h = rw (h, ==_refl x.ino, ==_refl x.offset)

  -- The loop finds what `find` finds, at the index that it reports.
  pub find_hit-find :
      (slots : List (Slot D)) (ino offset i : ℕ)
      → ((find_hit slots ino offset i ≡ none) × (find slots ino offset ≡ none))
        ⊎ ((k : ℕ) × (x : Slot D) × (find_hit slots ino offset i ≡ some (i + k, x))
            × (find slots ino offset ≡ some x)
            × (get_elem? slots k ≡ some x)
            × (is_hit x ino offset ≡ true))
  unfolding find_hit find
  find_hit-find [] ino offset i = inl (refl, refl)
  find_hit-find (x ∷ slots) ino offset i = elim (Bool-cases (is_hit x ino offset)) [
    | inl hit ↦ inr (0, x, rw hit (ap (λ n. some (n, x)) (omega arith)), rw hit, refl, hit)
    | inr miss ↦ elim (find_hit-find slots ino offset (i + 1)) [
      | inl (a, b) ↦ inl (rw miss a, rw miss b)
      | inr (k, y, a, b, at, hit) ↦
          inr (suc k, y, rw miss (a ∙ ap (λ n. some (n, y)) (omega arith)), rw miss b, at, hit)
    ]
  ]

  pub find-hit :
      (slots : List (Slot D)) (ino offset : ℕ) {x : Slot D}
      → find slots ino offset ≡ some x
      → is_hit x ino offset ≡ true
  unfolding find
  find-hit [] ino offset h = cc
  find-hit (y ∷ slots) ino offset {x} h = elim (Bool-cases (is_hit y ino offset)) [
    | inl hit ↦ rw (← some-injective y x (rw hit at h)) hit
    | inr miss ↦ find-hit slots ino offset (rw miss at h)
  ]

  -- A slot that holds the block is evidence that the search finds one.
  pub find_of_get :
      (slots : List (Slot D)) (k ino offset : ℕ) {x : Slot D}
      → get_elem? slots k ≡ some x
      → is_hit x ino offset ≡ true
      → find slots ino offset ≢ none
  unfolding find
  find_of_get [] k ino offset at hit none_found = cc
  find_of_get (y ∷ slots) zero ino offset {x} at hit none_found =
      let e : is_hit y ino offset ≡ true = rw (some-injective y x at) hit in
      absurd (some-ne-none y (rw e at none_found))
  find_of_get (y ∷ slots) (suc k) ino offset at hit none_found =
      elim (Bool-cases (is_hit y ino offset)) [
        | inl e ↦ absurd (some-ne-none y (rw e at none_found))
        | inr e ↦ find_of_get slots k ino offset at hit (rw e at none_found)
      ]
