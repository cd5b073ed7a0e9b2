-- ===== src/Disk/WtClock/Updating.antt =====
-- The loop of `cache_update` of src/block/wtclockdisk.c ends, and what it keeps.
use cs4411_p.Prelude.{
  ℕ, zero, suc, ◌+◌, ◌<◌, ◌≤◌, ◌≡◌, refl, ◌∙◌, true, false, none, some, List, [], ◌∷◌,
  if◌then◌else◌, get_elem?, set, length, length-set, get_elem?_of_lt, some-injective, ◌>>=◌, arith,
  Bool-cases, Option, inl, inr,
}
use cs4411_p.Store.{Block}
use cs4411_p.Store.Contract.{View}
use native.Mathlib.Nat.{mod-lt}
use cs4411_p.Disk.Slots.{Status, empty, old, new, Slot, is_used, is_new, is_hit}
use cs4411_p.Disk.Slots.Finding.{find, AreDistinct, is_hit_self, find_of_get}
use cs4411_p.Disk.Slots.Replacing.{MayReplace, find-set, set-AreDistinct}
use cs4411_p.Disk.Slots.Overlay.{find_at}
use cs4411_p.Disk.WtClock.{WtClockDisk, put_slot, update_loop, cache_update}

-- The number of slots that the loop passes over.
abbrev pub count_new : List (Slot (Unit {0})) → ℕ
count_new [] = 0
count_new (x ∷ slots) = (if is_new x.status then 1 else 0) + count_new slots

count_new-le-length : (slots : List (Slot (Unit {0}))) → count_new slots ≤ length slots
count_new-le-length [] = omega arith
count_new-le-length (x ∷ slots) = ground (arith, count_new-le-length slots)

count_new-set :
    (slots : List (Slot (Unit {0}))) (h : ℕ) {x : Slot (Unit {0})}
    → get_elem? slots h ≡ some x
    → is_new x.status ≡ true
    → count_new (set slots h (record x { status = old })) + 1 ≡ count_new slots
count_new-set [] h at n = cc
count_new-set (z ∷ slots) zero {x} at n =
    let e : z ≡ x = some-injective z x at in
    let n' : is_new z.status ≡ true = rw e n in rw n' (omega arith)
count_new-set (z ∷ slots) (suc h) at n = omega (arith, count_new-set slots h at n)

-- A slot in use holds the block of the store below.
abbrev pub IsCopy : View → Option (Slot (Unit {0})) → Type 0
IsCopy w none = Unit
IsCopy w (some x) = w x.ino x.offset ≡ some x.block

unfoldable pub AreCopies : View → List (Slot (Unit {0})) → Type 0
AreCopies w slots = (i o : ℕ) → IsCopy w (find slots i o)

pub AreCopies-set :
    (w : View) (slots : List (Slot (Unit {0}))) (k : ℕ) (x y : Slot (Unit {0}))
    → AreDistinct slots
    → get_elem? slots k ≡ some x
    → MayReplace slots x y
    → w y.ino y.offset ≡ some y.block
    → AreCopies w slots
    → AreCopies w (set slots k y)
unfolding AreCopies
AreCopies-set w slots k x y d at may copy all i o =
    rw (find-set slots k i o y d at may) (elim (Bool-cases (is_hit y i o)) [
      | inl hit ↦ rw hit copy
      | inr miss ↦ elim (Bool-cases (is_hit x i o)) [
        | inl hit ↦ rw (miss, hit) tt
        | inr miss_x ↦ rw (miss, miss_x) (all i o)
      ]
    ])

-- A slot that the search finds is a copy.
pub copied :
    (w : View) (slots : List (Slot (Unit {0}))) (i o : ℕ) {x : Slot (Unit {0})}
    → AreCopies w slots
    → find slots i o ≡ some x
    → w x.ino x.offset ≡ some x.block
unfolding AreCopies
copied w slots i o all e = rw e at (all i o)

-- The hand is within the slots, no block is held twice, and what is held is in the array `w`.
pub record IsCoherent {S : Type 0} (w : View) (s : WtClockDisk S) : Type 0 where
  pub hand : s.clock_hand < length s.slots
  pub distinct : AreDistinct s.slots
  pub copies : AreCopies w s.slots

used_of_new : (st : Status) → is_new st ≡ true → is_used st ≡ true
used_of_new empty n = cc
used_of_new old n = refl
used_of_new new n = refl

module _ {S : Type 0} (w : View) where
  put_slot-IsCoherent :
      (s : WtClockDisk S) (x y : Slot (Unit {0}))
      → IsCoherent w s
      → get_elem? s.slots s.clock_hand ≡ some x
      → MayReplace s.slots x y
      → w y.ino y.offset ≡ some y.block
      → IsCoherent w (put_slot s y)
  put_slot-IsCoherent s x y c at may copy = record {
    hand = rw (length-set s.slots s.clock_hand y) (mod-lt _ (omega (arith, c.hand)));
    distinct = set-AreDistinct s.slots s.clock_hand y c.distinct at may;
    copies = AreCopies-set w s.slots s.clock_hand x y c.distinct at may copy c.copies;
  }

  module _ (s : WtClockDisk S) (x : Slot (Unit {0})) (c : IsCoherent w s)
      (at : get_elem? s.slots s.clock_hand ≡ some x) (n : is_new x.status ≡ true) where
    aged_copy : w x.ino x.offset ≡ some x.block
    aged_copy = copied w s.slots x.ino x.offset c.copies (
        find_at s.slots s.clock_hand x.ino x.offset c.distinct at
          (is_hit_self x (used_of_new x.status n)))

    -- Aging a slot brings no block in.
    still_absent :
        (i o : ℕ)
        → find s.slots i o ≡ none
        → find (set s.slots s.clock_hand (record x { status = old })) i o ≡ none
    still_absent i o absent =
        let used = used_of_new x.status n in
        let miss = missed in
        find-set s.slots s.clock_hand i o (record x { status = old }) c.distinct at
          (inr (is_hit_self x used))
        ∙ rw (same_hit, miss) absent
      where
        missed : is_hit x i o ≡ false
        missed = elim (Bool-cases (is_hit x i o)) [
          | inl hit ↦ absurd (find_of_get s.slots s.clock_hand i o at hit absent)
          | inr miss ↦ miss
        ]

        same_hit : is_hit (record x { status = old }) i o ≡ is_hit x i o
        same_hit = unfold is_hit in rw (used_of_new x.status n)

  update_loop_lem :
      (fuel : ℕ) (s : WtClockDisk S) (y : Slot (Unit {0}))
      → IsCoherent w s
      → find s.slots y.ino y.offset ≡ none
      → w y.ino y.offset ≡ some y.block
      → count_new s.slots < fuel
      → (s' : WtClockDisk S) × (update_loop fuel s y ≡ some s')
        × IsCoherent w s'
        × (s'.below ≡ s.below)
  unfolding update_loop
  update_loop_lem zero s y c absent copy lt = absurd (omega arith)
  update_loop_lem (suc fuel) s y c absent copy lt =
      let (x, at) = get_elem?_of_lt s.slots s.clock_hand c.hand in
      elim (Bool-cases (is_new x.status)) [
        | inl n ↦
            let aged : Slot (Unit {0}) = record x { status = old } in
            let (s', e, c', same) =
              update_loop_lem fuel (put_slot s aged) y
                (put_slot-IsCoherent s x aged c at (inr (is_hit_self x (used_of_new x.status n)))
                  (aged_copy s x c at n))
                (still_absent s x c at n y.ino y.offset absent) copy
                (omega (arith, count_new-set s.slots s.clock_hand at n)) in
            (s', rw (at, ◌>>=◌, n) e, c', same)
        | inr n ↦ (
          put_slot s y,
          rw (at, ◌>>=◌, n),
          put_slot-IsCoherent s x y c at (inl absent) copy,
          refl,
        )
      ]

  pub cache_update_lem :
      (s : WtClockDisk S) (ino off : ℕ) (b : Block)
      → IsCoherent w s
      → find s.slots ino off ≡ none
      → w ino off ≡ some b
      → (s' : WtClockDisk S) × (cache_update s ino off b ≡ some s')
        × IsCoherent w s'
        × (s'.below ≡ s.below)
  unfolding cache_update
  cache_update_lem s ino off b c absent copy =
      update_loop_lem (suc (length s.slots)) s
        (record { status = new; dirty = tt; ino = ino; offset = off; block = b }) c absent copy
        (omega (arith, count_new-le-length s.slots))
