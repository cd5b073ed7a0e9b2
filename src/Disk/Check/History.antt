-- ===== src/Disk/Check/History.antt =====
-- What src/block/checkdisk.c has seen of the store below, call after call, and what it finds by it.
use cs4411_p.Prelude.{
  ◌≢◌, ◌↔◌, false, Option, ◌∙◌, true, sym, subst, some-injective, refl, pos, fun_ext, err, ap₂, ap,
  ◌≡◌, ◌∷◌, ◌>>=◌, ◌==◌, ◌&&◌, ℤ, ℕ, some, none, leb, is_neg, inr, inl, if◌then◌else◌, arith, [],
  Run, Option-cases, List, Bool-cases,
}
use mathlib.Core.List.{foldl}
use cs4411_p.Store.{Block, BlockStore}
use cs4411_p.Store.Contract.{View, put}
use cs4411_p.Disk.Check
use cs4411_p.Disk.Check.{Entry, CheckDisk, find, remember, remove_beyond, same_block, check, init}
use cs4411_p.Disk.Check.Contents.{same_block→≡, same_block_refl, find-remember, find-remove_beyond}

-- A call with its result, and with the block that it was given or has read.
pub data Event : Type 0 where
  did_getninodes : ℤ → Event
  did_getsize : ℕ → ℤ → Event
  did_setsize : ℕ → ℕ → ℤ → Event
  did_read : ℕ → ℕ → Block → ℤ → Block → Event
  did_write : ℕ → ℕ → Block → ℤ → Event
  did_sync : ℕ → ℤ → Event

-- The blocks that are known after an event: a block that was read or written without an error is
-- known from then on, until its inode is cut before it.
abbrev pub note : View → Event → View
note w (did_getninodes r) = w
note w (did_getsize ino r) = w
note w (did_setsize ino nblocks r) = λ i o. if i == ino && leb nblocks o then none else w i o
note w (did_read ino off buf r b) = if is_neg r then w else put w ino off b
note w (did_write ino off b r) = if is_neg r then w else put w ino off b
note w (did_sync ino r) = w

-- The block last read or written at each place.
abbrev pub last_seen : List Event → View
last_seen events = foldl note (λ i o. none) events

module _ {S : Type 0} (bs : BlockStore S) where
  -- The event leads from one state to the other.
  abbrev pub Step : CheckDisk S → Event → CheckDisk S → Type 0
  Step s (did_getninodes r) s' = Check.getninodes bs s ≡ some (r, s')
  Step s (did_getsize ino r) s' = Check.getsize bs s ino ≡ some (r, s')
  Step s (did_setsize ino nblocks r) s' = Check.setsize bs s ino nblocks ≡ some (r, s')
  Step s (did_read ino off buf r b) s' = Check.read bs s ino off buf ≡ some (r, b, s')
  Step s (did_write ino off b r) s' = Check.write bs s ino off b ≡ some (r, s')
  Step s (did_sync ino r) s' = Check.sync bs s ino ≡ some (r, s')

  abbrev pub History : CheckDisk S → List Event → CheckDisk S → Type 0
  History s [] s' = s ≡ s'
  History s (e ∷ events) s' = (s1 : CheckDisk S) × Step s e s1 × History s1 events s'

  pub put-remember :
      (bl : List Entry) (ino off : ℕ) (b : Block)
      → find (remember bl ino off b (find bl ino off)) ≡ put (find bl) ino off b
  put-remember bl ino off b = fun_ext λ i. fun_ext λ o. find-remember bl ino off b i o

  abbrev forward : CheckDisk S → ℤ × S → Run (ℤ × CheckDisk S)
  forward s (r, t) = some (r, record s { below = t })

  -- A method that only passes a call on does not change what is known.
  passed_on :
      (s s' : CheckDisk S) (r : ℤ) (m : Run (ℤ × S))
      → (m >>= forward s) ≡ some (r, s')
      → find s'.bl ≡ find s.bl
  passed_on s s' r none h = cc
  passed_on s s' r (some (r0, t)) h =
      ap (λ (x : ℤ × CheckDisk S). find x.1.bl)
        (sym (some-injective (r0, record s { below = t }) (r, s') h))

  setsize-note :
      (s s' : CheckDisk S) (ino nblocks : ℕ) (r : ℤ)
      → Check.setsize bs s ino nblocks ≡ some (r, s')
      → find s'.bl ≡ note (find s.bl) (did_setsize ino nblocks r)
  unfolding Check.setsize
  setsize-note s s' ino nblocks r h = elim (Option-cases (bs.setsize s.below ino nblocks)) [
    | inl e ↦ let bad : ◌≡◌ {A = Run (ℤ × CheckDisk S)} none (some (r, s')) = rw e at h in cc
    | inr ((r0, t), e) ↦
        let known : CheckDisk S = record { below = t; bl = remove_beyond s.bl ino nblocks } in
        ap (λ (x : ℤ × CheckDisk S). find x.1.bl)
          (sym (some-injective (r0, known) (r, s') (rw e at h)))
        ∙ fun_ext λ i. fun_ext λ o. find-remove_beyond s.bl ino nblocks i o
  ]

  write-note :
      (s s' : CheckDisk S) (ino off : ℕ) (b : Block) (r : ℤ)
      → Check.write bs s ino off b ≡ some (r, s')
      → find s'.bl ≡ note (find s.bl) (did_write ino off b r)
  unfolding Check.write
  write-note s s' ino off b r h = elim (Option-cases (bs.write s.below ino off b)) [
    | inl e ↦ let bad : ◌≡◌ {A = Run (ℤ × CheckDisk S)} none (some (r, s')) = rw e at h in cc
    | inr ((r0, t), e) ↦ elim (Bool-cases (is_neg r0)) [
      | inl neg ↦ from (err, record s { below = t }) (rw (e, neg) at h) refl
      | inr good ↦
          from (r0, record { below = t; bl = remember s.bl ino off b (find s.bl ino off) })
            (rw (e, good) at h) (rw good (put-remember s.bl ino off b))
    ]
  ]
    where
      from :
          (x : ℤ × CheckDisk S)
          → some x ≡ some (r, s')
          → find x.1.bl ≡ note (find s.bl) (did_write ino off b x.0)
          → find s'.bl ≡ note (find s.bl) (did_write ino off b r)
      from x p =
          subst (λ (y : ℤ × CheckDisk S). find y.1.bl ≡ note (find s.bl) (did_write ino off b y.0))
            (some-injective x (r, s') p)

  put_pushed :
      (bl : List Entry) (ino off : ℕ) (b : Block)
      → find bl ino off ≡ none
      → find (record { ino = ino; offset = off; block = b } ∷ bl) ≡ put (find bl) ino off b
  unfolding remember
  put_pushed bl ino off b e = rw e at (put-remember bl ino off b)

  -- A block that is found equal to the known one is no news.
  put_known :
      (bl : List Entry) (ino off : ℕ) (b known : Block)
      → find bl ino off ≡ some known
      → same_block known b ≡ true
      → find bl ≡ put (find bl) ino off b
  put_known bl ino off b known e same = fun_ext λ i. fun_ext λ o.
      elim (Bool-cases (i == ino && o == off)) [
        | inl here ↦
            let ei : i ≡ ino = ground arith in
            let eo : o ≡ off = ground arith in
            rw here (ap₂ (find bl) ei eo ∙ e ∙ ap some (same_block→≡ known b same))
        | inr away ↦ rw away
      ]

  read-note :
      (s s' : CheckDisk S) (ino off : ℕ) (buf b : Block) (r : ℤ)
      → Check.read bs s ino off buf ≡ some (r, b, s')
      → find s'.bl ≡ note (find s.bl) (did_read ino off buf r b)
  unfolding Check.read check
  read-note s s' ino off buf b r h = elim (Option-cases (bs.read s.below ino off buf)) [
    | inl e ↦ stopped (rw e at h)
    | inr ((r0, b0, t), e) ↦ elim (Bool-cases (is_neg r0)) [
      | inl neg ↦ from (err, b0, record s { below = t }) (rw (e, neg) at h) refl
      | inr good ↦ elim (Option-cases (find s.bl ino off)) [
        | inl new ↦
            from
              (
                pos 0,
                b0,
                record { below = t; bl = record { ino = ino; offset = off; block = b0 } ∷ s.bl },
              )
              (rw (e, good, new) at h) (put_pushed s.bl ino off b0 new)
        | inr (known, e') ↦ elim (Bool-cases (same_block known b0)) [
          | inr differ ↦ stopped (rw (e, good, e', differ) at h)
          | inl same ↦
              from (pos 0, b0, record { below = t; bl = s.bl }) (rw (e, good, e', same) at h)
                (put_known s.bl ino off b0 known e' same)
        ]
      ]
    ]
  ]
    where
      stopped : ◌≡◌ {A = Run (ℤ × Block × CheckDisk S)} none (some (r, b, s')) → {P : Type 0} → P
      stopped bad = cc

      from :
          (x : ℤ × Block × CheckDisk S)
          → some x ≡ some (r, b, s')
          → find x.2.bl ≡ note (find s.bl) (did_read ino off buf x.0 x.1)
          → find s'.bl ≡ note (find s.bl) (did_read ino off buf r b)
      from x p =
          subst
            (λ (y : ℤ × Block × CheckDisk S).
              find y.2.bl ≡ note (find s.bl) (did_read ino off buf y.0 y.1))
            (some-injective x (r, b, s') p)

  Step-note : (s s' : CheckDisk S) (e : Event) → Step s e s' → find s'.bl ≡ note (find s.bl) e
  unfolding Check.getninodes Check.getsize Check.sync
  Step-note s s' (did_getninodes r) h = passed_on s s' r (bs.getninodes s.below) h
  Step-note s s' (did_getsize ino r) h = passed_on s s' r (bs.getsize s.below ino) h
  Step-note s s' (did_setsize ino nblocks r) h = setsize-note s s' ino nblocks r h
  Step-note s s' (did_read ino off buf r b) h = read-note s s' ino off buf b r h
  Step-note s s' (did_write ino off b r) h = write-note s s' ino off b r h
  Step-note s s' (did_sync ino r) h = passed_on s s' r (bs.sync s.below ino) h

  History-note :
      (s s' : CheckDisk S) (events : List Event)
      → History s events s'
      → find s'.bl ≡ foldl note (find s.bl) events
  History-note s s' [] h = ap (λ (x : CheckDisk S). find x.bl) (sym h)
  History-note s s' (e ∷ events) (s1, first, rest) =
      History-note s1 s' events rest
      ∙ ap (λ (w : View). foldl note w events) (Step-note s s1 e first)

  -- After any events from the start on, the list holds what was last seen.
  find-last_seen :
      (t : S) (s : CheckDisk S) (events : List Event)
      → History (init t) events s
      → find s.bl ≡ last_seen events
  unfolding init find
  find-last_seen t s events h = History-note (init t) s events h

  -- What a read does at a place where `seen` is known.
  check_ends :
      (t : S) (bl : List Entry) (ino off : ℕ) (b : Block) (seen : Option Block)
      → (check t bl ino off b seen ≡ none) ↔ ((known : Block) × (seen ≡ some known) × (known ≢ b))
  unfolding check
  check_ends t bl ino off b none = (λ h. cc, λ (known, e, differ). cc)
  check_ends t bl ino off b (some known) = elim (Bool-cases (same_block known b)) [
    | inl same ↦ (
      λ h. absurd (ground (arith, same)),
      λ (k, e, differ).
          absurd (differ (sym (some-injective known k e) ∙ same_block→≡ known b same)),
    )
    | inr differ ↦ (
      λ h. (
        known,
        refl,
        λ e. let equal : same_block known b ≡ true = rw e (same_block_refl b) in cc,
      ),
      λ h. rw differ,
    )
  ]

  -- After any calls of a new layer that returned, where the store below returns a block with no
  -- error: `read` ends the program if and only if the layer has last read or written another block
  -- there, without an error and not beyond the end of a later `setsize` of that inode.
  pub read_detects :
      (t : S) (s : CheckDisk S) (events : List Event) (ino off : ℕ) (buf b : Block) (r : ℤ) (t' : S)
      → History (init t) events s
      → bs.read s.below ino off buf ≡ some (r, b, t')
      → is_neg r ≡ false
      → (Check.read bs s ino off buf ≡ none)
        ↔ ((known : Block) × (last_seen events ino off ≡ some known) × (known ≢ b))
  unfolding Check.read
  read_detects t s events ino off buf b r t' h called good =
      rw (called, good, ap (λ (w : View). w ino off) (find-last_seen t s events h))
        (check_ends t' s.bl ino off b (last_seen events ino off))
