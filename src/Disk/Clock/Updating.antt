-- ===== src/Disk/Clock/Updating.antt =====
-- What `cache_update` of src/block/clockdisk.c does to the contents.
use cs4411_p.Prelude.{
  ℕ, zero, suc, ◌<◌, ◌≡◌, refl, sym, ap, ◌∙◌, fun_ext, Bool, true, false, ◌&&◌, none, some, ◌==◌,
  if◌then◌else◌, get_elem?, set, length, get_elem?_of_lt, arith, Bool-cases, inl, inr, ==_refl,
}
use cs4411_p.Store.{Block, BlockStore}
use cs4411_p.Store.Contract.{View, put, Implements}
use cs4411_p.Disk.Slots.{Status, empty, old, new, Slot, is_used, is_new, is_hit}
use cs4411_p.Disk.Slots.Finding.{find, is_hit_iff, is_hit_self, find_of_get}
use cs4411_p.Disk.Slots.Replacing.{MayReplace, find-set}
use cs4411_p.Disk.Slots.Overlay.{overlay, find_at, MayDrop, overlay-set, overlay-put}
use cs4411_p.Disk.Clock.{ClockDisk, advance, age, fill, update_loop, cache_update}
use cs4411_p.Disk.Clock.Termination.{
  count_new, count_new-le-length, count_new-set, advance-lt, update_loop_new, update_loop-fill,
}
use cs4411_p.Disk.Clock.Contents.{
  IsBacked, AreBacked, AreBacked-put, IsBacked-of_find, IsValid, view, replaced,
}

module _ {S : Type 0} (bs : BlockStore S) (V : S → Type 0) (v : S → View) where
  -- A slot that may be brought in: in use, of a block that no slot holds, and backed.
  pub record IsFresh (s : ClockDisk S) (y : Slot Bool) : Type 0 where
    pub used : is_used y.status ≡ true
    pub absent : find s.slots y.ino y.offset ≡ none
    pub backed : IsBacked (v s.below) y

  -- The state after the slot is brought in.
  pub record Updated (s : ClockDisk S) (y : Slot Bool) (s' : ClockDisk S) : Type 0 where
    pub valid : IsValid bs V v s'
    pub shows :
        (i o : ℕ) → view bs V v s' i o ≡ (if is_hit y i o then some y.block else view bs V v s i o)

  module _ (s : ClockDisk S) (x : Slot Bool) (w : IsValid bs V v s)
      (at : get_elem? s.slots s.clock_hand ≡ some x) where
    -- A slot in use is backed.
    at-IsBacked : is_used x.status ≡ true → IsBacked (v s.below) x
    at-IsBacked used =
        IsBacked-of_find (v s.below) s.slots x.ino x.offset w.backed
          (find_at s.slots s.clock_hand x.ino x.offset w.distinct at (is_hit_self x used))

    other_key :
        (y : Slot Bool) → find s.slots y.ino y.offset ≡ none → is_hit x y.ino y.offset ≡ false
    other_key y absent = elim (Bool-cases (is_hit x y.ino y.offset)) [
      | inl hit ↦ absurd (find_of_get s.slots s.clock_hand y.ino y.offset at hit absent)
      | inr miss ↦ miss
    ]

    unaged :
        (i o : ℕ)
        → is_used x.status ≡ true
        → is_hit (record x { status = old }) i o ≡ true
        → is_hit x i o ≡ true
    unaged i o used hit =
        let (ei, eo, u) = is_hit_iff (record x { status = old }) i o hit in
        rw (← ei, ← eo) (is_hit_self x used)

    used_of_new : (st : Status) → is_new st ≡ true → is_used st ≡ true
    used_of_new empty n = cc
    used_of_new old n = refl
    used_of_new new n = refl

    -- Aging a slot shows no difference.
    age_lem :
        is_new x.status ≡ true → IsValid bs V v (age s x) × (view bs V v (age s x) ≡ view bs V v s)
    age_lem n =
        let used : is_used x.status ≡ true = used_of_new x.status n in
        let y : Slot Bool = record x { status = old } in
        let may : MayReplace s.slots x y = inr (is_hit_self x used) in
        (
          replaced bs V v s (age s x) s.clock_hand x y w at may (at-IsBacked used) refl refl
              (advance-lt s w.range),
          fun_ext λ i. fun_ext λ o.
              overlay-set (v s.below) s.slots s.clock_hand i o x y w.distinct at may refl
                (inr (inr (refl, refl)))
              ∙ shown_still used i o,
        )
      where
        shown_still :
            is_used x.status ≡ true
            → (i o : ℕ)
            → (if is_hit (record x { status = old }) i o then some x.block else view bs V v s i o)
              ≡ view bs V v s i o
        shown_still used i o = elim (Bool-cases (is_hit (record x { status = old }) i o)) [
          | inl hit ↦ rw (hit, find_at s.slots s.clock_hand i o w.distinct at (unaged i o used hit))
          | inr miss ↦ rw miss
        ]

    age-absent :
        (y : Slot Bool)
        → is_new x.status ≡ true
        → find s.slots y.ino y.offset ≡ none
        → find (age s x).slots y.ino y.offset ≡ none
    age-absent y n absent =
        let used : is_used x.status ≡ true = used_of_new x.status n in
        let aged : Slot Bool = record x { status = old } in
        let miss : is_hit x y.ino y.offset ≡ false = other_key y absent in
        find-set s.slots s.clock_hand y.ino y.offset aged w.distinct at (inr (is_hit_self x used))
        ∙ elim (Bool-cases (is_hit aged y.ino y.offset)) [
          | inl hit ↦ absurd (clash (sym (unaged y.ino y.offset used hit) ∙ miss))
          | inr miss_aged ↦ rw (miss_aged, miss) absent
        ]
      where
        clash : true ≡ false → ⊥
        clash p = cc

    -- The slot `y` in the place of `x`, over a store that shows no difference.
    filled :
        (y : Slot Bool) (t : S)
        → find s.slots y.ino y.offset ≡ none
        → is_used y.status ≡ true
        → V t
        → AreBacked (v t) s.slots
        → overlay (v t) s.slots ≡ overlay (v s.below) s.slots
        → IsBacked (v t) y
        → MayDrop (v t) x y
        → Updated s y
            (record s { below = t; slots = set s.slots s.clock_hand y; clock_hand = advance s })
    filled y t absent used w' all same backed drop = record {
      valid =
          replaced bs V v (record s { below = t }) _ s.clock_hand x y
            (record {
              below = w';
              range = record { hand = w.range.hand; sized = w.range.sized };
              distinct = w.distinct;
              backed = all;
            })
            at (inl absent) backed refl refl (advance-lt s w.range);
      shows = λ i o.
          overlay-set (v t) s.slots s.clock_hand i o x y w.distinct at (inl absent) used drop
          ∙ ap (λ (z : View). if is_hit y i o then some y.block else z i o) same;
    }

    -- A write to the block of `x` leaves the block of `y` backed.
    IsBacked-put :
        (y : Slot Bool)
        → is_used x.status ≡ true
        → find s.slots y.ino y.offset ≡ none
        → IsBacked (v s.below) y
        → IsBacked (put (v s.below) x.ino x.offset x.block) y
    IsBacked-put y used absent (d, h, c) =
        let miss = other_key y absent in
        let other : (y.ino == x.ino && y.offset == x.offset) ≡ false = other_place y used miss in
        (d, rw other h, c)
      where
        other_place :
            (y : Slot Bool)
            → is_used x.status ≡ true
            → is_hit x y.ino y.offset ≡ false
            → (y.ino == x.ino && y.offset == x.offset) ≡ false
        other_place y used miss = unfold is_hit in ground arith

    fill_lem :
        Implements bs V v
        → (y : Slot Bool) → IsFresh s y
        → (s' : ClockDisk S) × (fill bs s x y ≡ some s') × Updated s y s'
    unfolding fill
    fill_lem imp y f = elim (Bool-cases (is_used x.status && x.dirty)) [
      | inl both ↦
          let used : is_used x.status ≡ true = ground arith in
          let (d, h, c) = at-IsBacked used in
          let (t, called, w', same) = imp.write_some s.below x.ino x.offset x.block d w.below h in
          let put_self : put (v s.below) x.ino x.offset x.block x.ino x.offset ≡ some x.block =
            rw (==_refl x.ino, ==_refl x.offset) in
          (
            record s { below = t; slots = set s.slots s.clock_hand y; clock_hand = advance s },
            rw (both, called),
            filled y t f.absent f.used w'
                (rw same
                  (AreBacked-put (v s.below) s.slots s.clock_hand x w.distinct at used w.backed))
                (rw same (overlay-put (v s.below) s.slots s.clock_hand x w.distinct at used))
                (rw same (IsBacked-put y used f.absent f.backed)) (rw same (inr (inl put_self))),
          )
      | inr clean ↦ (
        record s { slots = set s.slots s.clock_hand y; clock_hand = advance s },
        rw clean,
        filled y s.below f.absent f.used w.below w.backed refl f.backed (drop y clean),
      )
    ]
      where
        clean_block :
            IsBacked (v s.below) x → x.dirty ≡ false → v s.below x.ino x.offset ≡ some x.block
        clean_block (d, h, inl dirty) n = cc
        clean_block (d, h, inr e) n = rw (← e) h

        drop : (y : Slot Bool) → (is_used x.status && x.dirty) ≡ false → MayDrop (v s.below) x y
        drop y clean = elim (Bool-cases (is_used x.status)) [
          | inr unused ↦ inl unused
          | inl used ↦ inr (inl (clean_block (at-IsBacked used) (ground arith)))
        ]

  module _ (imp : Implements bs V v) where
    update_loop_lem :
        (fuel : ℕ) (s : ClockDisk S) (y : Slot Bool)
        → IsValid bs V v s
        → IsFresh s y
        → count_new s.slots < fuel
        → (s' : ClockDisk S) × (update_loop bs fuel s y ≡ some s') × Updated s y s'
    update_loop_lem zero s y w f lt = absurd (omega arith)
    update_loop_lem (suc fuel) s y w f lt =
        let (x, at) = get_elem?_of_lt s.slots s.clock_hand w.range.hand in
        elim (Bool-cases (is_new x.status)) [
          | inl n ↦
              let (w', same) = age_lem s x w at n in
              let f' : IsFresh (age s x) y = record {
                used = f.used;
                absent = age-absent s x w at y n f.absent;
                backed = f.backed;
              } in
              let (s', e, u) =
                update_loop_lem fuel (age s x) y w' f'
                  (omega (arith, count_new-set s.slots s.clock_hand at n)) in
              (
                s',
                update_loop_new bs fuel s x y at n ∙ e,
                record {
                  valid = u.valid;
                  shows = λ i o.
                      u.shows i o
                      ∙ ap (λ (z : View). if is_hit y i o then some y.block else z i o) same;
                },
              )
          | inr n ↦
              let (s', e, u) = fill_lem s x w at imp y f in
              (s', update_loop-fill bs fuel s x y at n ∙ e, u)
        ]

    -- Over a store that behaves as an array of blocks, `cache_update` on a valid cache returns, keeps
    -- it valid and shows the new block at its place and everything else as before. The block is not
    -- in the cache yet, and the store below has a block there, the same one unless it is dirty.
    pub cache_update_lem :
        (s : ClockDisk S) (ino off : ℕ) (b : Block) (dirty : Bool)
        → IsValid bs V v s
        → find s.slots ino off ≡ none
        → IsBacked
            (v s.below)
            (record { status = new; dirty = dirty; ino = ino; offset = off; block = b })
        → (s' : ClockDisk S) × (cache_update bs s ino off b dirty ≡ some s')
          × IsValid bs V v s'
          × (view bs V v s' ≡ put (view bs V v s) ino off b)
    unfolding cache_update is_hit
    cache_update_lem s ino off b dirty w absent backed =
        let y : Slot Bool = record {
          status = new;
          dirty = dirty;
          ino = ino;
          offset = off;
          block = b;
        } in
        let (s', e, u) =
          update_loop_lem (suc (length s.slots)) s y w
            (record { used = refl; absent = absent; backed = backed })
            (omega (arith, count_new-le-length s.slots)) in
        (s', e, u.valid, fun_ext λ i. fun_ext λ o. u.shows i o ∙ flip i o)
      where
        flip :
            (i o : ℕ)
            → (if true && (ino == i && off == o) then some b else view bs V v s i o)
              ≡ put (view bs V v s) ino off b i o
        flip i o = ground arith
