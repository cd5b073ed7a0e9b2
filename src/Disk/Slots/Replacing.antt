-- ===== src/Disk/Slots/Replacing.antt =====
-- One slot of a block cache replaced.
use cs4411_p.Prelude.{
  ℕ, zero, suc, ◌≡◌, ◌≢◌, refl, sym, ◌∙◌, Bool, true, false, ◌&&◌, Option, none, some, List, [],
  ◌∷◌, ◌==◌, leb, if◌then◌else◌, get_elem?, set, some-injective, some-ne-none, arith, Bool-cases,
  inl, inr, ◌⊎◌,
}
use cs4411_p.Disk.Slots.{Slot, is_used, is_hit, drop_beyond}
use cs4411_p.Disk.Slots.Finding.{find, AreDistinct, is_hit_iff, is_hit_self, find_of_get}

module _ {D : Type 0} where
  -- Two slots that hold one block stop each other from being in a list of distinct ones.
  pub no_second :
      (z : Slot D) (slots : List (Slot D)) (k ino offset : ℕ) {x : Slot D}
      → AreDistinct (z ∷ slots)
      → get_elem? slots k ≡ some x
      → is_hit x ino offset ≡ true
      → is_hit z ino offset ≡ false
  no_second z slots k ino offset {x} (first, _) at hit = elim (Bool-cases (is_hit z ino offset)) [
    | inr miss ↦ miss
    | inl both ↦
        let (ei, eo, used) = is_hit_iff z ino offset both in
        let twice : find slots z.ino z.offset ≢ none =
          rw (ei, eo) (find_of_get slots k ino offset at hit) in
        elim first [ inl unused ↦ cc | inr alone ↦ absurd (twice alone) ]
  ]

  -- The new slot's block is in no slot, or is that of the slot that it replaces.
  abbrev pub MayReplace : List (Slot D) → Slot D → Slot D → Type 0
  MayReplace slots x y = (find slots y.ino y.offset ≡ none) ⊎ (is_hit x y.ino y.offset ≡ true)

  MayReplace-tail :
      (z : Slot D) (slots : List (Slot D)) (k : ℕ) (x y : Slot D)
      → AreDistinct (z ∷ slots)
      → get_elem? slots k ≡ some x
      → MayReplace (z ∷ slots) x y
      → (is_hit z y.ino y.offset ≡ false) × MayReplace slots x y
  unfolding find
  MayReplace-tail z slots k x y d at (inl absent) = elim (Bool-cases (is_hit z y.ino y.offset)) [
    | inl hit ↦ absurd (some-ne-none z (rw hit at absent))
    | inr miss ↦ (miss, inl (rw miss at absent))
  ]
  MayReplace-tail z slots k x y d at (inr hit) =
      (no_second z slots k y.ino y.offset d at hit, inr hit)

  -- After slot `k` is replaced by `y`, the search finds `y` for its block, nothing for the old
  -- slot's block, and otherwise what it found before.
  pub find-set :
      (slots : List (Slot D)) (k i o : ℕ) (y : Slot D) {x : Slot D}
      → AreDistinct slots
      → get_elem? slots k ≡ some x
      → MayReplace slots x y
      → find (set slots k y) i o
        ≡ (if is_hit y i o then some y else if is_hit x i o then none else find slots i o)
  unfolding find
  find-set [] k i o y d at may = cc
  find-set (z ∷ slots) zero i o y {x} d at may =
      rw (← some-injective z x at) (elim (Bool-cases (is_hit z i o)) [
        | inl hit ↦
            let (ei, eo, used) = is_hit_iff z i o hit in
            let gone : find slots i o ≡ none = alone d.0 ei eo used in rw (hit, gone)
        | inr miss ↦ rw miss
      ])
    where
      alone :
          (is_used z.status ≡ false) ⊎ (find slots z.ino z.offset ≡ none)
          → z.ino ≡ i
          → z.offset ≡ o
          → is_used z.status ≡ true
          → find slots i o ≡ none
      alone (inl unused) ei eo used = cc
      alone (inr none_found) ei eo used = rw (ei, eo) at none_found
  find-set (z ∷ slots) (suc k) i o y {x} d at may =
      let (miss_y, may') = MayReplace-tail z slots k x y d at may in
      let ih = find-set slots k i o y d.1 at may' in
      elim (Bool-cases (is_hit z i o)) [
        | inl hit ↦
            let not_x : is_hit x i o ≡ false = other_hit d at hit in
            let not_y : is_hit y i o ≡ false = other_key miss_y hit in rw (hit, not_x, not_y)
        | inr miss ↦ rw (miss, ih)
      ]
    where
      other_hit :
          AreDistinct (z ∷ slots)
          → get_elem? slots k ≡ some x
          → is_hit z i o ≡ true
          → is_hit x i o ≡ false
      other_hit d at hit = elim (Bool-cases (is_hit x i o)) [
        | inl both ↦ absurd (clash (sym hit ∙ no_second z slots k i o d at both))
        | inr miss ↦ miss
      ]
        where
          clash : true ≡ false → ⊥
          clash p = cc

      other_key : is_hit z y.ino y.offset ≡ false → is_hit z i o ≡ true → is_hit y i o ≡ false
      other_key miss_y hit = elim (Bool-cases (is_hit y i o)) [
        | inl both ↦
            let (ei, eo, used) = is_hit_iff y i o both in
            let here : is_hit z i o ≡ false = rw (ei, eo) at miss_y in cc
        | inr miss ↦ miss
      ]

  -- The slots stay distinct.
  pub set-AreDistinct :
      (slots : List (Slot D)) (k : ℕ) (y : Slot D) {x : Slot D}
      → AreDistinct slots
      → get_elem? slots k ≡ some x
      → MayReplace slots x y
      → AreDistinct (set slots k y)
  set-AreDistinct [] k y d at may = tt
  set-AreDistinct (z ∷ slots) zero y {x} d at may =
      (inr (lone (some-injective z x at) d.0 may), d.1)
    where
      lone :
          z ≡ x
          → (is_used z.status ≡ false) ⊎ (find slots z.ino z.offset ≡ none)
          → MayReplace (z ∷ slots) x y
          → find slots y.ino y.offset ≡ none
      lone e first (inl absent) =
          unfold find in
          elim (Bool-cases (is_hit z y.ino y.offset)) [
            | inl hit ↦ absurd (some-ne-none z (rw hit at absent))
            | inr miss ↦ rw miss at absent
          ]
      lone e first (inr hit) =
          let (ei, eo, used) = is_hit_iff z y.ino y.offset (rw e hit) in
          elim first [ inl unused ↦ cc | inr alone ↦ rw (ei, eo) at alone ]
  set-AreDistinct (z ∷ slots) (suc k) y {x} d at may =
      let (miss_y, may') = MayReplace-tail z slots k x y d at may in
      (
        elim d.0 [
          | inl unused ↦ inl unused
          | inr alone ↦ elim (Bool-cases (is_used z.status)) [
            | inr unused ↦ inl unused
            | inl used ↦ inr (
                find-set slots k z.ino z.offset y d.1 at may'
                ∙ rw (not_y used miss_y, alone) (both_none (is_hit x z.ino z.offset)))
          ]
        ],
        set-AreDistinct slots k y d.1 at may',
      )
    where
      not_y :
          is_used z.status ≡ true
          → is_hit z y.ino y.offset ≡ false
          → is_hit y z.ino z.offset ≡ false
      not_y used miss_y = elim (Bool-cases (is_hit y z.ino z.offset)) [
        | inr miss ↦ miss
        | inl both ↦
            let (ei, eo, used_y) = is_hit_iff y z.ino z.offset both in
            let here : is_hit z z.ino z.offset ≡ false = rw (ei, eo) at miss_y in
            let there : is_hit z z.ino z.offset ≡ true = is_hit_self z used in cc
      ]

      both_none : (b : Bool) → ◌≡◌ {A = Option (Slot D)} (if b then none else none) none
      both_none true = refl
      both_none false = refl

  -- `find` after `drop_beyond`: the blocks beyond the new end are gone.
  pub find-drop_beyond :
      (slots : List (Slot D)) (ino nblocks i o : ℕ)
      → find (drop_beyond slots ino nblocks) i o
        ≡ (if i == ino && leb nblocks o then none else find slots i o)
  unfolding find drop_beyond is_hit
  find-drop_beyond [] ino nblocks i o = ground arith
  find-drop_beyond (x ∷ slots) ino nblocks i o =
      ground (arith, find-drop_beyond slots ino nblocks i o)
