-- ===== src/Disk/Slots/Overlay.antt =====
-- The blocks that a cache shows: those of its slots, laid over the contents of the store below.
use cs4411_p.Prelude.{
  ℕ, zero, suc, ◌≡◌, sym, ◌∙◌, fun_ext, true, false, ◌&&◌, Option, none, some, List, [], ◌∷◌, ◌==◌,
  if◌then◌else◌, get_elem?, set, some-injective, arith, Bool-cases, inl, inr, ◌⊎◌,
}
use cs4411_p.Store.{Block}
use cs4411_p.Store.Contract.{View, put}
use cs4411_p.Disk.Slots.{Slot, is_used, is_hit}
use cs4411_p.Disk.Slots.Finding.{find, AreDistinct, is_hit_iff, is_hit_self}
use cs4411_p.Disk.Slots.Replacing.{MayReplace, no_second, find-set}

module _ {D : Type 0} where
  abbrev pub shown : Option Block → Option (Slot D) → Option Block
  shown b none = b
  shown b (some x) = some x.block

  abbrev pub overlay : View → List (Slot D) → View
  overlay w slots i o = shown (w i o) (find slots i o)

  -- A slot in use is the one that the search finds.
  pub find_at :
      (slots : List (Slot D)) (k i o : ℕ) {x : Slot D}
      → AreDistinct slots
      → get_elem? slots k ≡ some x
      → is_hit x i o ≡ true
      → find slots i o ≡ some x
  unfolding find
  find_at [] k i o d at hit = cc
  find_at (z ∷ slots) zero i o {x} d at hit = let e = some-injective z x at in rw (e, hit)
  find_at (z ∷ slots) (suc k) i o d at hit =
      rw (no_second z slots k i o d at hit) (find_at slots k i o d.1 at hit)

  -- Nothing is lost with the slot `x`: it is not in use, its block is the one below, or `y` holds
  -- a newer version of the block.
  abbrev pub MayDrop : View → Slot D → Slot D → Type 0
  MayDrop w x y =
      (is_used x.status ≡ false)
      ⊎ (w x.ino x.offset ≡ some x.block)
      ⊎ ((y.ino ≡ x.ino) × (y.offset ≡ x.offset))

  dropped :
      (w : View) (slots : List (Slot D)) (k i o : ℕ) (x y : Slot D)
      → AreDistinct slots
      → get_elem? slots k ≡ some x
      → is_used y.status ≡ true
      → MayDrop w x y
      → is_hit y i o ≡ false
      → is_hit x i o ≡ true
      → w i o ≡ overlay w slots i o
  dropped w slots k i o x y d at used (inl unused) miss hit =
      let (ei, eo, u) = is_hit_iff x i o hit in cc
  dropped w slots k i o x y d at used (inr (inl same)) miss hit =
      let (ei, eo, u) = is_hit_iff x i o hit in
      rw (find_at slots k i o d at hit) (rw (ei, eo) at same)
  dropped w slots k i o x y d at used (inr (inr (pi, po))) miss hit =
      let (ei, eo, u) = is_hit_iff x i o hit in
      let there : is_hit y i o ≡ true =
        rw (sym ei ∙ sym pi, sym eo ∙ sym po) (is_hit_self y used) in
      cc

  -- A slot replaced changes what is shown at its own block only.
  pub overlay-set :
      (w : View) (slots : List (Slot D)) (k i o : ℕ) (x y : Slot D)
      → AreDistinct slots
      → get_elem? slots k ≡ some x
      → MayReplace slots x y
      → is_used y.status ≡ true
      → MayDrop w x y
      → overlay w (set slots k y) i o ≡ (if is_hit y i o then some y.block else overlay w slots i o)
  overlay-set w slots k i o x y d at may used drop =
      rw (find-set slots k i o y d at may) (elim (Bool-cases (is_hit y i o)) [
        | inl hit ↦ rw hit
        | inr miss ↦ elim (Bool-cases (is_hit x i o)) [
          | inl hit ↦ rw (miss, hit) (dropped w slots k i o x y d at used drop miss hit)
          | inr miss_x ↦ rw (miss, miss_x)
        ]
      ])

  -- Writing a slot's block to the store below shows no difference.
  pub overlay-put :
      (w : View) (slots : List (Slot D)) (k : ℕ) (x : Slot D)
      → AreDistinct slots
      → get_elem? slots k ≡ some x
      → is_used x.status ≡ true
      → overlay (put w x.ino x.offset x.block) slots ≡ overlay w slots
  overlay-put w slots k x d at used = fun_ext λ i. fun_ext λ o.
      elim (Bool-cases (i == x.ino && o == x.offset)) [
        | inl key ↦
            let ei : i ≡ x.ino = ground arith in
            let eo : o ≡ x.offset = ground arith in
            let found : find slots i o ≡ some x =
              find_at slots k i o d at (rw (ei, eo) (is_hit_self x used)) in
            rw found
        | inr other ↦ rw other
      ]
