-- ===== src/Disk/Clock/Syncing.antt =====
-- The loop of `clockdisk_sync` of src/block/clockdisk.c.
use cs4411_p.Prelude.{
  ℕ, suc, ◌≡◌, refl, ap, ◌∙◌, fun_ext, Bool, true, false, ◌&&◌, none, some, List, [], ◌∷◌, ◌==◌,
  length, some-ne-none, arith, Bool-cases, inl, inr, ==_refl, ◌⊎◌,
}
use cs4411_p.Store.{BlockStore}
use cs4411_p.Store.Contract.{View, put, Implements}
use cs4411_p.Disk.Slots.{Slot, is_used, is_hit}
use cs4411_p.Disk.Slots.Finding.{find, AreDistinct, is_hit_iff, is_hit_self}
use cs4411_p.Disk.Slots.Overlay.{shown, overlay}
use cs4411_p.Disk.Clock.{sync_slots, is_asked}
use cs4411_p.Disk.Clock.Contents.{IsBacked, AreBacked, AreBacked-put, IsBacked-of_find}

module _ {S : Type 0} (bs : BlockStore S) (V : S → Type 0) (v : S → View) where
  -- The store and the slots after the loop has run over `slots`, started with the store `t`.
  pub record Synced (t : S) (slots : List (Slot Bool)) (ino : ℕ) (t' : S)
      (slots' : List (Slot Bool)) : Type 0 where
    pub valid : V t'
    pub sized : length slots' ≡ length slots
    pub distinct : AreDistinct slots'
    pub backed : AreBacked (v t') slots'
    -- No block is brought in, and blocks that no slot holds are untouched below.
    pub gone : (i o : ℕ) → find slots i o ≡ none → find slots' i o ≡ none
    pub kept : (i o : ℕ) → find slots i o ≡ none → v t' i o ≡ v t i o
    pub shows : overlay (v t') slots' ≡ overlay (v t) slots
    -- What was asked for is below.
    pub stored : (i o : ℕ) → (is_asked ino i ≡ false) ⊎ (v t' i o ≡ overlay (v t) slots i o)

  -- One round of the loop in front of the others: `t1` is the store after it.
  module _ (ino : ℕ) (t t1 t' : S) (x : Slot Bool) (dirty : Bool) (slots slots' : List (Slot Bool))
      (d : AreDistinct (x ∷ slots)) (others : (i o : ℕ) → is_hit x i o ≡ false → v t1 i o ≡ v t i o)
      (tail : Synced t1 slots ino t' slots') where
    alone : is_used x.status ≡ true → find slots x.ino x.offset ≡ none
    alone used = elim d.0 [ inl unused ↦ cc | inr none_found ↦ none_found ]

    alone_at : (i o : ℕ) → is_hit x i o ≡ true → find slots i o ≡ none
    alone_at i o hit = let (ei, eo, used) = is_hit_iff x i o hit in rw (← ei, ← eo) (alone used)

    cons_distinct : AreDistinct (record x { dirty = dirty } ∷ slots')
    cons_distinct = (
      elim d.0 [
        | inl unused ↦ inl unused
        | inr none_found ↦ inr (tail.gone x.ino x.offset none_found)
      ],
      tail.distinct,
    )

    cons_backed :
        ((used : is_used x.status ≡ true) → IsBacked (v t1) (record x { dirty = dirty }))
        → AreBacked (v t') (record x { dirty = dirty } ∷ slots')
    unfolding AreBacked find is_hit
    cons_backed own i o = elim (Bool-cases (is_hit x i o)) [
      | inl hit ↦
          let (ei, eo, used) = is_hit_iff x i o hit in
          let (b, h, c) = own used in rw hit (b, tail.kept x.ino x.offset (alone used) ∙ h, c)
      | inr miss ↦ rw miss (tail.backed i o)
    ]

    cons_shows : overlay (v t') (record x { dirty = dirty } ∷ slots') ≡ overlay (v t) (x ∷ slots)
    unfolding find is_hit
    cons_shows = fun_ext λ i. fun_ext λ o. elim (Bool-cases (is_hit x i o)) [
      | inl hit ↦ rw hit
      | inr miss ↦ rw miss (
          ap (λ (w : View). w i o) tail.shows
          ∙ ap (λ b. shown b (find slots i o)) (others i o miss))
    ]

    cons_stored :
        ((used : is_used x.status ≡ true)
          → (is_asked ino x.ino ≡ false) ⊎ (v t1 x.ino x.offset ≡ some x.block))
        → (i o : ℕ) → (is_asked ino i ≡ false) ⊎ (v t' i o ≡ overlay (v t) (x ∷ slots) i o)
    unfolding find
    cons_stored own i o = elim (Bool-cases (is_hit x i o)) [
      | inl hit ↦
          let (ei, eo, used) = is_hit_iff x i o hit in
          elim (own used) [
            | inl other ↦ inl (rw ei at other)
            | inr below ↦ inr (rw hit (tail.kept i o (alone_at i o hit) ∙ (rw (ei, eo) at below)))
          ]
      | inr miss ↦ elim (tail.stored i o) [
        | inl other ↦ inl other
        | inr below ↦ inr (rw miss (below ∙ ap (λ b. shown b (find slots i o)) (others i o miss)))
      ]
    ]

    Synced-cons :
        ((used : is_used x.status ≡ true) → IsBacked (v t1) (record x { dirty = dirty }))
        → ((used : is_used x.status ≡ true)
            → (is_asked ino x.ino ≡ false) ⊎ (v t1 x.ino x.offset ≡ some x.block))
        → Synced t (x ∷ slots) ino t' (record x { dirty = dirty } ∷ slots')
    unfolding find is_hit
    Synced-cons own own_stored = record {
      valid = tail.valid;
      sized = ap suc tail.sized;
      distinct = cons_distinct;
      backed = cons_backed own;
      gone = λ i o h. elim (Bool-cases (is_hit x i o)) [
        | inl hit ↦ absurd (some-ne-none x (rw hit at h))
        | inr miss ↦ rw miss (tail.gone i o (rw miss at h))
      ];
      kept = λ i o h. elim (Bool-cases (is_hit x i o)) [
        | inl hit ↦ absurd (some-ne-none x (rw hit at h))
        | inr miss ↦ tail.kept i o (rw miss at h) ∙ others i o miss
      ];
      shows = cons_shows;
      stored = cons_stored own_stored;
    }

  tail_backed :
      (w : View) (x : Slot Bool) (slots : List (Slot Bool))
      → AreDistinct (x ∷ slots)
      → AreBacked w (x ∷ slots)
      → AreBacked w slots
  unfolding AreBacked find
  tail_backed w x slots d all i o = elim (Bool-cases (is_hit x i o)) [
    | inl hit ↦
        let (ei, eo, used) = is_hit_iff x i o hit in
        let gone : find slots i o ≡ none = rw (← ei, ← eo) (lone d.0 used) in rw gone tt
    | inr miss ↦ rw miss at (all i o)
  ]
    where
      lone :
          (is_used x.status ≡ false) ⊎ (find slots x.ino x.offset ≡ none)
          → is_used x.status ≡ true
          → find slots x.ino x.offset ≡ none
      lone (inl unused) used = cc
      lone (inr none_found) used = none_found

  head-IsBacked :
      (w : View) (x : Slot Bool) (slots : List (Slot Bool))
      → AreBacked w (x ∷ slots)
      → is_used x.status ≡ true
      → IsBacked w x
  unfolding find
  head-IsBacked w x slots all used =
      IsBacked-of_find w (x ∷ slots) x.ino x.offset {x = x} all (rw (is_hit_self x used))

  clean_stored :
      (t : S) (x : Slot Bool) (ino : ℕ)
      → IsBacked (v t) x
      → is_used x.status ≡ true
      → (is_used x.status && x.dirty && is_asked ino x.ino) ≡ false
      → (is_asked ino x.ino ≡ false) ⊎ (v t x.ino x.offset ≡ some x.block)
  clean_stored t x ino (b, h, inr e) used no_write = inr (rw (← e) h)
  clean_stored t x ino (b, h, inl dirty) used no_write = inl (ground arith)

  module _ (imp : Implements bs V v) where
    pub sync_slots_lem :
        (t : S) (slots : List (Slot Bool)) (ino : ℕ)
        → V t
        → AreDistinct slots
        → AreBacked (v t) slots
        → (t' : S) × (slots' : List (Slot Bool)) × (sync_slots bs t slots ino ≡ some (t', slots'))
          × Synced t slots ino t' slots'
    unfolding sync_slots
    sync_slots_lem t [] ino w d all = (
      t,
      [],
      refl,
      record {
        valid = w;
        sized = refl;
        distinct = tt;
        backed = all;
        gone = λ i o h. h;
        kept = λ i o h. refl;
        shows = refl;
        stored = λ i o. inr (unfold find in refl);
      },
    )
    sync_slots_lem t (x ∷ slots) ino w d all =
        elim (Bool-cases (is_used x.status && x.dirty && is_asked ino x.ino)) [
          | inl test ↦
              let used : is_used x.status ≡ true = ground arith in
              let (b, h, c) = head-IsBacked (v t) x slots all used in
              let (t1, called, w1, same) = imp.write_some t x.ino x.offset x.block b w h in
              let all1 : AreBacked (v t1) (x ∷ slots) =
                rw same (AreBacked-put (v t) (x ∷ slots) 0 x d refl used all) in
              let own : v t1 x.ino x.offset ≡ some x.block =
                rw same (rw (==_refl x.ino, ==_refl x.offset)) in
              let (t', slots', e, tail) =
                sync_slots_lem t1 slots ino w1 d.1 (tail_backed (v t1) x slots d all1) in
              (
                t',
                record x { dirty = false } ∷ slots',
                rw (test, called, e),
                Synced-cons ino t t1 t' x false slots slots' d
                    (λ i o miss. rw same (elsewhere i o used miss)) tail
                    (λ u. (x.block, own, inr refl)) (λ u. inr own),
              )
          | inr no_write ↦
              let (t', slots', e, tail) =
                sync_slots_lem t slots ino w d.1 (tail_backed (v t) x slots d all) in
              (
                t',
                x ∷ slots',
                rw (no_write, e),
                Synced-cons ino t t t' x x.dirty slots slots' d (λ i o miss. refl) tail
                    (head-IsBacked (v t) x slots all)
                    (λ u. clean_stored t x ino (head-IsBacked (v t) x slots all u) u no_write),
              )
        ]
      where
        elsewhere :
            (i o : ℕ)
            → is_used x.status ≡ true
            → is_hit x i o ≡ false
            → put (v t) x.ino x.offset x.block i o ≡ v t i o
        elsewhere i o used miss =
            let other : (i == x.ino && o == x.offset) ≡ false = unfold is_hit in ground arith in
            rw other
