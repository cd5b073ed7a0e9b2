-- ===== src/Disk/Clock/Termination.antt =====
-- The loop of `cache_update` of src/block/clockdisk.c ends.
use cs4411_p.Prelude.{
  ℕ, zero, suc, ◌+◌, ◌<◌, ◌≤◌, ℤ, word_mod, ◌≡◌, ◌∙◌, Bool, true, false, ◌&&◌, some, List, [], ◌∷◌,
  if◌then◌else◌, get_elem?, set, length, length-set, get_elem?_of_lt, some-injective, ◌>>=◌, arith,
  Bool-cases, inl, inr,
}
use cs4411_p.Store.{Block, BlockStore}
use native.Mathlib.Nat.{mod-lt}
use cs4411_p.Disk.Slots.{old, Slot, is_used, is_new}
use cs4411_p.Disk.Clock.{ClockDisk, advance, age, fill, update_loop, cache_update}

-- The number of slots that the loop passes over.
abbrev pub count_new : List (Slot Bool) → ℕ
count_new [] = 0
count_new (x ∷ slots) = (if is_new x.status then 1 else 0) + count_new slots

pub count_new-le-length : (slots : List (Slot Bool)) → count_new slots ≤ length slots
count_new-le-length [] = omega arith
count_new-le-length (x ∷ slots) = ground (arith, count_new-le-length slots)

pub count_new-set :
    (slots : List (Slot Bool)) (h : ℕ) {x : Slot Bool}
    → get_elem? slots h ≡ some x
    → is_new x.status ≡ true
    → count_new (set slots h (record x { status = old })) + 1 ≡ count_new slots
count_new-set [] h at n = cc
count_new-set (z ∷ slots) zero {x} at n =
    let e : z ≡ x = some-injective z x at in
    let n' : is_new z.status ≡ true = rw e n in rw n' (omega arith)
count_new-set (z ∷ slots) (suc h) at n = omega (arith, count_new-set slots h at n)

-- The hand stays within the slots.
pub record InRange {S : Type 0} (s : ClockDisk S) : Type 0 where
  pub hand : s.clock_hand < length s.slots
  pub sized : length s.slots < word_mod

pub advance-lt : {S : Type 0} (s : ClockDisk S) → InRange s → advance s < length s.slots
advance-lt s r = mod-lt _ (omega (arith, r.hand))

pub age-InRange : {S : Type 0} (s : ClockDisk S) (x : Slot Bool) → InRange s → InRange (age s x)
age-InRange s x r =
    let same = length-set s.slots s.clock_hand (record x { status = old }) in
    record { hand = rw same (advance-lt s r); sized = rw same r.sized }

module _ {S : Type 0} (bs : BlockStore S) where
  -- What the loop does in a round, by the slot under the hand.
  pub update_loop_new :
      (fuel : ℕ) (s : ClockDisk S) (x y : Slot Bool)
      → get_elem? s.slots s.clock_hand ≡ some x
      → is_new x.status ≡ true
      → update_loop bs (suc fuel) s y ≡ update_loop bs fuel (age s x) y
  unfolding update_loop
  update_loop_new fuel s x y at n = rw (at, ◌>>=◌, n)

  pub update_loop-fill :
      (fuel : ℕ) (s : ClockDisk S) (x y : Slot Bool)
      → get_elem? s.slots s.clock_hand ≡ some x
      → is_new x.status ≡ false
      → update_loop bs (suc fuel) s y ≡ fill bs s x y
  unfolding update_loop
  update_loop-fill fuel s x y at n = rw (at, ◌>>=◌, n)

  -- The store below never stops the program in a write.
  abbrev pub WritesReturn : Type 0
  WritesReturn =
      (t : S) (ino off : ℕ) (b : Block) → (r : ℤ) × (t' : S) × (bs.write t ino off b ≡ some (r, t'))

  fill_total :
      WritesReturn
      → (s : ClockDisk S) (x y : Slot Bool) → (s' : ClockDisk S) × (fill bs s x y ≡ some s')
  unfolding fill
  fill_total total s x y = elim (Bool-cases (is_used x.status && x.dirty)) [
    | inl dirty ↦
        let (r, t, called) = total s.below x.ino x.offset x.block in
        (
          record s { below = t; slots = set s.slots s.clock_hand y; clock_hand = advance s },
          rw (dirty, called),
        )
    | inr clean ↦
        (record s { slots = set s.slots s.clock_hand y; clock_hand = advance s }, rw clean)
  ]

  update_loop_total :
      WritesReturn
      → (fuel : ℕ) (s : ClockDisk S) (y : Slot Bool) → InRange s
      → count_new s.slots < fuel
      → (s' : ClockDisk S) × (update_loop bs fuel s y ≡ some s')
  update_loop_total total zero s y r lt = absurd (omega arith)
  update_loop_total total (suc fuel) s y r lt =
      let (x, at) = get_elem?_of_lt s.slots s.clock_hand r.hand in
      elim (Bool-cases (is_new x.status)) [
        | inl n ↦
            let (s', e) =
              update_loop_total total fuel (age s x) y (age-InRange s x r)
                (omega (arith, count_new-set s.slots s.clock_hand at n)) in
            (s', update_loop_new fuel s x y at n ∙ e)
        | inr n ↦ let (s', e) = fill_total total s x y in (s', update_loop-fill fuel s x y at n ∙ e)
      ]

  -- `cache_update` returns, if the hand is within the slots (so that there is one) and the store
  -- below returns from every write.
  pub cache_update_total :
      WritesReturn
      → (s : ClockDisk S) (ino off : ℕ) (b : Block) (dirty : Bool) → InRange s
      → (s' : ClockDisk S) × (cache_update bs s ino off b dirty ≡ some s')
  unfolding cache_update
  cache_update_total total s ino off b dirty r =
      update_loop_total total (suc (length s.slots)) s _ r
        (omega (arith, count_new-le-length s.slots))
