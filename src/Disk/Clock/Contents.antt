-- ===== src/Disk/Clock/Contents.antt =====
-- src/block/clockdisk.c as an array of blocks: the blocks below, under those of the slots.
use cs4411_p.Prelude.{
  ℕ, ◌<◌, ◌≡◌, refl, sym, ap, ◌∙◌, Bool, true, ◌&&◌, Option, none, some, List, ◌==◌, get_elem?, set,
  length, length-set, some-injective, arith, Bool-cases, Option-cases, inl, inr, ◌⊎◌,
}
use cs4411_p.Store.{Block, BlockStore}
use cs4411_p.Store.Contract.{View, put}
use cs4411_p.Disk.Slots.{Slot, is_used, is_hit}
use cs4411_p.Disk.Slots.Finding.{find, AreDistinct, is_hit_iff, is_hit_self, find-hit}
use cs4411_p.Disk.Slots.Replacing.{MayReplace, find-set, set-AreDistinct}
use cs4411_p.Disk.Slots.Overlay.{overlay, find_at}
use cs4411_p.Disk.Clock.{ClockDisk}
use cs4411_p.Disk.Clock.Termination.{InRange}

-- A slot's block exists below, and is the block below unless the slot is dirty.
abbrev pub IsBacked : View → Slot Bool → Type 0
IsBacked w x = (d : Block) × (w x.ino x.offset ≡ some d) × ((x.dirty ≡ true) ⊎ (d ≡ x.block))

abbrev pub FoundIsBacked : View → Option (Slot Bool) → Type 0
FoundIsBacked w none = Unit
FoundIsBacked w (some x) = IsBacked w x

unfoldable pub AreBacked : View → List (Slot Bool) → Type 0
AreBacked w slots = (i o : ℕ) → FoundIsBacked w (find slots i o)

AreBacked-set :
    (w : View) (slots : List (Slot Bool)) (k : ℕ) (x y : Slot Bool)
    → AreDistinct slots
    → get_elem? slots k ≡ some x
    → MayReplace slots x y
    → IsBacked w y
    → AreBacked w slots
    → AreBacked w (set slots k y)
unfolding AreBacked
AreBacked-set w slots k x y d at may backed all i o =
    rw (find-set slots k i o y d at may) (elim (Bool-cases (is_hit y i o)) [
      | inl hit ↦ rw hit backed
      | inr miss ↦ elim (Bool-cases (is_hit x i o)) [
        | inl hit ↦ rw (miss, hit) tt
        | inr miss_x ↦ rw (miss, miss_x) (all i o)
      ]
    ])

-- A slot that the search finds is backed.
pub IsBacked-of_find :
    (w : View) (slots : List (Slot Bool)) (i o : ℕ) {x : Slot Bool}
    → AreBacked w slots
    → find slots i o ≡ some x
    → IsBacked w x
unfolding AreBacked
IsBacked-of_find w slots i o all e = rw e at (all i o)

pub AreBacked-put :
    (w : View) (slots : List (Slot Bool)) (k : ℕ) (x : Slot Bool)
    → AreDistinct slots
    → get_elem? slots k ≡ some x
    → is_used x.status ≡ true
    → AreBacked w slots
    → AreBacked (put w x.ino x.offset x.block) slots
unfolding AreBacked
AreBacked-put w slots k x d at used all i o = elim (Option-cases (find slots i o)) [
  | inl e ↦ rw e tt
  | inr (z, e) ↦
      let backed : IsBacked w z = rw e at (all i o) in
      rw e (elim (Bool-cases (z.ino == x.ino && z.offset == x.offset)) [
        | inl key ↦ rw key (x.block, refl, inr (same_block_of z e key))
        | inr other ↦ rw other backed
      ])
]
  where
    same_block_of :
        (z : Slot Bool)
        → find slots i o ≡ some z
        → (z.ino == x.ino && z.offset == x.offset) ≡ true
        → x.block ≡ z.block
    same_block_of z e key =
        let (ei, eo, u) = is_hit_iff z i o (find-hit slots i o e) in
        let pi : i ≡ x.ino = ground arith in
        let po : o ≡ x.offset = ground arith in
        let found : find slots i o ≡ some x =
          find_at slots k i o d at (rw (pi, po) (is_hit_self x used)) in
        ap (λ (s : Slot Bool). s.block) (some-injective x z (sym found ∙ e))

module _ {S : Type 0} (bs : BlockStore S) (V : S → Type 0) (v : S → View) where
  pub record IsValid (s : ClockDisk S) : Type 0 where
    pub below : V s.below
    pub range : InRange s
    pub distinct : AreDistinct s.slots
    pub backed : AreBacked (v s.below) s.slots

  -- What a client sees: the slots' blocks, and elsewhere those of the store below.
  abbrev pub view : ClockDisk S → View
  view s = overlay (v s.below) s.slots

  -- The slots and the store of `s` with slot `k` replaced.
  pub replaced :
      (s s' : ClockDisk S) (k : ℕ) (x y : Slot Bool)
      → IsValid s
      → get_elem? s.slots k ≡ some x
      → MayReplace s.slots x y
      → IsBacked (v s.below) y
      → s'.below ≡ s.below
      → s'.slots ≡ set s.slots k y
      → s'.clock_hand < length s.slots
      → IsValid s'
  replaced s s' k x y w at may backed eb es hand = record {
    below = rw eb w.below;
    range = record {
      hand = rw (es, length-set s.slots k y) hand;
      sized = rw (es, length-set s.slots k y) w.range.sized;
    };
    distinct = rw es (set-AreDistinct s.slots k y w.distinct at may);
    backed =
        rw (eb, es) (AreBacked-set (v s.below) s.slots k x y w.distinct at may backed w.backed);
  }
