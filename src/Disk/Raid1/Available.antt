-- ===== src/Disk/Raid1/Available.antt =====
-- src/block/raid1disk.c reads as long as one store does.
use cs4411_p.Prelude.{
  ℕ, zero, suc, ℤ, pos, err, is_neg, ◌≡◌, sym, ◌∙◌, false, some, List, [], ◌∷◌, get_elem?, subst,
  some-injective, Run, Bool-cases, inl, inr, ◌⊎◌,
}
use cs4411_p.Store.{Block, BlockStore}
use cs4411_p.Store.Contract.{View}
use cs4411_p.Disk.Raid1.{Drive, Raid1Disk, read_any, read}
use cs4411_p.Disk.Raid1.Contents.{MayFail, IsMirror, IsMirrored, read_any_lem}

module _ {S : Type 0} (bs : BlockStore S) (V : S → Type 0) (v : S → View) where
  module _ (may : MayFail bs V v) where
    -- A drive that is not marked broken, and whose reads of the block succeed.
    pub record Serves (ino off : ℕ) (d : Drive S) : Type 0 where
      pub working : d.broken ≡ false
      pub serves :
          (buf : Block) → (b : Block) × (t : S) × (bs.read d.store ino off buf ≡ some (pos 0, b, t))

    read_any_available :
        (w : View) (ds : List (Drive S)) (k ino off : ℕ) (buf : Block) {d : Drive S}
        → IsMirrored bs V v w ds
        → get_elem? ds k ≡ some d
        → Serves ino off d
        → (b : Block) × (ds' : List (Drive S)) × (read_any bs ds ino off buf ≡ some (pos 0, b, ds'))
    unfolding read_any
    read_any_available w [] k ino off buf m at good = cc
    read_any_available w (x ∷ ds) zero ino off buf {d} m at good =
        let same : d ≡ x = sym (some-injective x d at) in
        let g : Serves ino off x = subst (λ y. Serves ino off y) same good in
        let (b, t, called) = g.serves buf in
        (b, record x { store = t } ∷ ds, rw (g.working, called))
    read_any_available w (x ∷ ds) (suc k) ino off buf (mirror, m) at good =
        elim (Bool-cases x.broken) [
          | inl broken ↦
              let (b, ds', e) = read_any_available w ds k ino off buf m at good in
              (b, x ∷ ds', rw (broken, e))
          | inr working ↦
              let (valid, same) = mirrored mirror working in
              let (r, b, t, called, valid', same', read_ok) =
                may.read_may x.store ino off buf valid in
              elim (Bool-cases (is_neg r)) [
                | inl failed ↦
                    let (b', ds', e) = read_any_available w ds k ino off b m at good in
                    (b', record x { store = t } ∷ ds', rw (working, called, failed, e))
                | inr fine ↦ (b, record x { store = t } ∷ ds, rw (working, called, fine))
              ]
        ]
      where
        mirrored : IsMirror bs V v w x → x.broken ≡ false → V x.store × (v x.store ≡ w)
        mirrored (inl broken) working = cc
        mirrored (inr h) working = h

    -- On mirrored drives, over stores that may fail but never lie, a read returns 0 with the mirrored
    -- contents of the block if one drive that is not marked broken can read it.
    pub read_available :
        (w : View) (s : Raid1Disk S) (k ino off : ℕ) (buf : Block) (d : Drive S)
        → IsMirrored bs V v w s.drives
        → get_elem? s.drives k ≡ some d
        → Serves ino off d
        → (b : Block) × (s' : Raid1Disk S) × (read bs s ino off buf ≡ some (pos 0, b, s'))
          × (w ino off ≡ some b)
    unfolding read
    read_available w s k ino off buf d m at good =
        let (b, ds, e) = read_any_available w s.drives k ino off buf m at good in
        let (r', b', ds', e', m', result) = read_any_lem bs V v may w s.drives ino off buf m in
        (b, record { drives = ds }, rw e, same_result (sym e ∙ e') result)
      where
        same_result :
            {b b' : Block} {r' : ℤ} {ds ds' : List (Drive S)}
            → ◌≡◌ {A = Run (ℤ × Block × List (Drive S))} (some (pos 0, b, ds)) (some (r', b', ds'))
            → (r' ≡ err) ⊎ ((r' ≡ pos 0) × (w ino off ≡ some b'))
            → w ino off ≡ some b
        same_result e (inl failed) = cc
        same_result e (inr (z, h)) = cc
