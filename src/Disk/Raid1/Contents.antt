-- ===== src/Disk/Raid1/Contents.antt =====
-- src/block/raid1disk.c over stores that may fail.
use cs4411_p.Prelude.{
  ℕ, ℤ, pos, err, is_neg, ◌≡◌, refl, sym, ap, ◌∙◌, true, false, some, List, [], ◌∷◌, All,
  some-injective, Bool-cases, Option-cases, inl, inr, ==_refl, ◌⊎◌,
}
use cs4411_p.Store.{Block, BlockStore}
use cs4411_p.Store.Contract.{View, put, Implements, Rejects}
use cs4411_p.Disk.Raid1.{Drive, Raid1Disk, read_any, write_all, read, write}

-- What is asked of a store below: a read that does not fail returns the block, and leaves the
-- contents as they are, as one that fails does; a write that does not fail replaces the block. A
-- failed write may leave the store in any state.
pub record MayFail {S : Type 0} (bs : BlockStore S) (V : S → Type 0) (v : S → View) : Type 0 where
  pub read_may :
      (s : S) (ino off : ℕ) (buf : Block)
      → V s
      → (r : ℤ) × (b : Block) × (s' : S) × (bs.read s ino off buf ≡ some (r, b, s'))
        × V s'
        × (v s' ≡ v s)
        × ((is_neg r ≡ true) ⊎ (v s ino off ≡ some b))
  pub write_may :
      (s : S) (ino off : ℕ) (b : Block)
      → V s
      → (r : ℤ) × (s' : S) × (bs.write s ino off b ≡ some (r, s'))
        × ((is_neg r ≡ true) ⊎ ((is_neg r ≡ false) × V s' × (v s' ≡ put (v s) ino off b)))

module _ {S : Type 0} (bs : BlockStore S) (V : S → Type 0) (v : S → View) where
  -- Every drive that is not marked broken holds the contents `w`.
  abbrev pub IsMirror : View → Drive S → Type 0
  IsMirror w d = (d.broken ≡ true) ⊎ (V d.store × (v d.store ≡ w))

  abbrev pub IsMirrored : View → List (Drive S) → Type 0
  IsMirrored w = All (IsMirror w)

  -- No drive is left.
  abbrev pub AreBroken : List (Drive S) → Type 0
  AreBroken = All (λ d. d.broken ≡ true)

  module _ (may : MayFail bs V v) where
    pub read_any_lem :
        (w : View) (ds : List (Drive S)) (ino off : ℕ) (buf : Block)
        → IsMirrored w ds
        → (r : ℤ) × (b : Block) × (ds' : List (Drive S)) × (read_any bs ds ino off buf
            ≡ some (r, b, ds'))
          × IsMirrored w ds'
          × ((r ≡ err) ⊎ ((r ≡ pos 0) × (w ino off ≡ some b)))
    unfolding read_any
    read_any_lem w [] ino off buf m = (err, buf, [], refl, tt, inl refl)
    read_any_lem w (d ∷ ds) ino off buf (inl broken, m) =
        let (r, b, ds', e, m', result) = read_any_lem w ds ino off buf m in
        (r, b, d ∷ ds', rw (broken, e), (inl broken, m'), result)
    read_any_lem w (d ∷ ds) ino off buf (inr (valid, same), m) = elim (Bool-cases d.broken) [
      | inl broken ↦
          let (r, b, ds', e, m', result) = read_any_lem w ds ino off buf m in
          (r, b, d ∷ ds', rw (broken, e), (inl broken, m'), result)
      | inr working ↦
          let (r, b, t, called, valid', same', read_ok) = may.read_may d.store ino off buf valid in
          let mirror : IsMirror w (record d { store = t }) = inr (valid', same' ∙ same) in
          elim (Bool-cases (is_neg r)) [
            | inl failed ↦
                let (r', b', ds', e, m', result) = read_any_lem w ds ino off b m in
                (
                  r',
                  b',
                  record d { store = t } ∷ ds',
                  rw (working, called, failed, e),
                  (mirror, m'),
                  result,
                )
            | inr good ↦ (
              pos 0,
              b,
              record d { store = t } ∷ ds,
              rw (working, called, good),
              (mirror, m),
              inr (refl, returned r b good read_ok same),
            )
          ]
    ]
      where
        returned :
            (r : ℤ) (b : Block)
            → is_neg r ≡ false
            → (is_neg r ≡ true) ⊎ (v d.store ino off ≡ some b)
            → v d.store ≡ w
            → w ino off ≡ some b
        returned r b good (inl failed) same = cc
        returned r b good (inr h) same = rw (← same) h

    -- A write leaves every drive that is not marked broken with the new block. It returns 0 if
    -- one of them took it, and otherwise the result that it was given.
    write_all_lem :
        (w : View) (ds : List (Drive S)) (ino off : ℕ) (b : Block) (result : ℤ)
        → IsMirrored w ds
        → (r : ℤ) × (ds' : List (Drive S)) × (write_all bs ds ino off b result ≡ some (r, ds'))
          × IsMirrored (put w ino off b) ds'
          × ((r ≡ pos 0) ⊎ ((r ≡ result) × AreBroken ds'))
    unfolding write_all
    write_all_lem w [] ino off b result m = (result, [], refl, tt, inr (refl, tt))
    write_all_lem w (d ∷ ds) ino off b result (mirror, m) = elim (Bool-cases d.broken) [
      | inl broken ↦
          let (r, ds', e, m', ended) = write_all_lem w ds ino off b result m in
          (
            r,
            d ∷ ds',
            rw (broken, e),
            (inl broken, m'),
            elim ended [ inl ok ↦ inl ok | inr (same, all) ↦ inr (same, (broken, all)) ],
          )
      | inr working ↦
          let (valid, same) = mirrored mirror working in
          let (r, t, called, outcome) = may.write_may d.store ino off b valid in
          elim outcome [
            | inl failed ↦
                let (r', ds', e, m', ended) = write_all_lem w ds ino off b result m in
                (
                  r',
                  record { store = t; broken = is_neg r } ∷ ds',
                  rw (working, called, failed, e),
                  (inl failed, m'),
                  elim ended [ inl ok ↦ inl ok | inr (given, all) ↦ inr (given, (failed, all)) ],
                )
            | inr (good, valid', written) ↦
                let (r', ds', e, m', ended) = write_all_lem w ds ino off b (pos 0) m in
                (
                  r',
                  record { store = t; broken = is_neg r } ∷ ds',
                  rw (working, called, good, e),
                  (inr (valid', written ∙ ap (λ z. put z ino off b) same), m'),
                  elim ended [ inl ok ↦ inl ok | inr (given, all) ↦ inl given ],
                )
          ]
    ]
      where
        mirrored : IsMirror w d → d.broken ≡ false → V d.store × (v d.store ≡ w)
        mirrored (inl broken) working = cc
        mirrored (inr h) working = h

    -- On mirrored drives, over stores that may fail but never lie, a write returns 0, or -1 with all
    -- drives broken. A read of the same block after it returns -1, or 0 with the block written.
    pub read-write :
        (w : View) (s : Raid1Disk S) (ino off : ℕ) (b buf : Block)
        → IsMirrored w s.drives
        → (r : ℤ) × (s' : Raid1Disk S) × (write bs s ino off b ≡ some (r, s'))
          × ((r ≡ pos 0) ⊎ ((r ≡ err) × AreBroken s'.drives))
          × ((r' : ℤ) × (b' : Block) × (s'' : Raid1Disk S) × (read bs s' ino off buf
                ≡ some (r', b', s''))
              × ((r' ≡ err) ⊎ ((r' ≡ pos 0) × (b' ≡ b))))
    unfolding read write
    read-write w s ino off b buf m =
        let (r, ds, e, m', ended) = write_all_lem w s.drives ino off b err m in
        let (r', b', ds', e', m'', result) = read_any_lem (put w ino off b) ds ino off buf m' in
        (
          r,
          record { drives = ds },
          rw e,
          ended,
          (
            r',
            b',
            record { drives = ds' },
            rw e',
            elim result [
              | inl failed ↦ inl failed
              | inr (good, h) ↦
                  inr (good, sym (some-injective b b' (rw (==_refl ino, ==_refl off) at h)))
            ],
          ),
        )

-- A store that meets the contract everywhere fails only beyond its end.
pub MayFail_of_Implements :
    {S : Type 0} (bs : BlockStore S) (V : S → Type 0) (v : S → View)
    → Implements bs V v
    → Rejects bs V v
    → MayFail bs V v
MayFail_of_Implements bs V v imp rej = record {
  read_may = λ s ino off buf w. elim (Option-cases (v s ino off)) [
    | inl e ↦
        let (b, s', called, w', same) = rej.read_none s ino off buf w e in
        (err, b, s', called, w', same, inl refl)
    | inr (b, e) ↦
        let (s', called, w', same) = imp.read_some s ino off buf b w e in
        (pos 0, b, s', called, w', same, inr e)
  ];
  write_may = λ s ino off b w. elim (Option-cases (v s ino off)) [
    | inl e ↦
        let (s', called, w', same) = rej.write_none s ino off b w e in (err, s', called, inl refl)
    | inr (old, e) ↦
        let (s', called, w', written) = imp.write_some s ino off b old w e in
        (pos 0, s', called, inr (refl, w', written))
  ];
}
