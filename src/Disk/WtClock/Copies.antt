-- ===== src/Disk/WtClock/Copies.antt =====
-- Writes of src/block/wtclockdisk.c leave the slots copies of the blocks below.
use cs4411_p.Prelude.{
  ℕ, ◌≡◌, refl, true, false, ◌&&◌, none, some, List, ◌==◌, get_elem?, set, arith, Bool-cases,
  Option-cases, inl, inr, ==_refl,
}
use cs4411_p.Store.{Block}
use cs4411_p.Store.Contract.{View, put}
use cs4411_p.Disk.Slots.{Slot, is_used, is_hit}
use cs4411_p.Disk.Slots.Finding.{find, AreDistinct, is_hit_iff, find-hit}
use cs4411_p.Disk.Slots.Replacing.{find-set}
use cs4411_p.Disk.WtClock.Updating.{IsCopy, AreCopies, copied}

module _ (w : View) (slots : List (Slot (Unit {0}))) (ino off : ℕ) (b : Block) where
  other_place :
      (z : Slot (Unit {0})) (i o : ℕ)
      → (i == ino && o == off) ≡ false
      → IsCopy w (some z)
      → z.ino ≡ i
      → z.offset ≡ o
      → IsCopy (put w ino off b) (some z)
  other_place z i o other c ei eo = rw (ei, eo, other) (rw (ei, eo) at c)

  -- A write to a block that is not in the cache leaves the slots copies.
  pub AreCopies-put :
      find slots ino off ≡ none → AreCopies w slots → AreCopies (put w ino off b) slots
  unfolding AreCopies
  AreCopies-put absent all i o = elim (Option-cases (find slots i o)) [
    | inl e ↦ rw e tt
    | inr (z, e) ↦
        let (ei, eo, used) = is_hit_iff z i o (find-hit slots i o e) in
        rw e (elim (Bool-cases (i == ino && o == off)) [
          | inl key ↦ absurd (twice z i o key e)
          | inr other ↦ other_place z i o other (copied w slots i o all e) ei eo
        ])
  ]
    where
      twice :
          (z : Slot (Unit {0})) (i o : ℕ)
          → (i == ino && o == off) ≡ true
          → find slots i o ≡ some z
          → ⊥
      twice z i o key e =
          let ei : i ≡ ino = ground arith in
          let eo : o ≡ off = ground arith in
          let e' : find slots ino off ≡ some z = rw (← ei, ← eo) e in cc

  -- A write to the block of slot `k`, in the cache and below.
  pub AreCopies-written :
      (k : ℕ) (x y : Slot (Unit {0}))
      → AreDistinct slots
      → get_elem? slots k ≡ some x
      → is_hit x ino off ≡ true
      → is_used y.status ≡ true
      → y.ino ≡ ino
      → y.offset ≡ off
      → y.block ≡ b
      → AreCopies w slots
      → AreCopies (put w ino off b) (set slots k y)
  unfolding AreCopies
  AreCopies-written k x y d at hit used ei eo eb all i o =
      rw (find-set slots k i o y d at (inr (rw (ei, eo) hit))) (elim (Bool-cases (is_hit y i o)) [
        | inl hit_y ↦ rw (hit_y, ei, eo, ==_refl ino, ==_refl off, eb) refl
        | inr miss ↦ elim (Bool-cases (is_hit x i o)) [
          | inl hit_x ↦ rw (miss, hit_x) tt
          | inr miss_x ↦
              rw (miss, miss_x)
                (elim (Option-cases (find slots i o)) [
                  | inl e ↦ rw e tt
                  | inr (z, e) ↦
                      let (fi, fo, u) = is_hit_iff z i o (find-hit slots i o e) in
                      rw e (other_place z i o (apart i o miss) (copied w slots i o all e) fi fo)
                ])
        ]
      ])
    where
      apart : (i o : ℕ) → is_hit y i o ≡ false → (i == ino && o == off) ≡ false
      apart i o miss =
          let m : (is_used y.status && (y.ino == i && y.offset == o)) ≡ false =
            unfold is_hit in miss in
          let m' : (ino == i && off == o) ≡ false = rw (used, ei, eo) at m in ground arith
