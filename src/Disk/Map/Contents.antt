-- ===== src/Disk/Map/Contents.antt =====
-- src/block/mapdisk.c as an array of blocks.
use cs4411_p.Prelude.{
  ℕ, err, ◌≡◌, refl, fun_ext, none, some, List, ◌==◌, if◌then◌else◌, All, arith, Bool-cases, inl,
  inr, ==_refl,
}
use cs4411_p.Store.{Block, BlockStore}
use cs4411_p.Store.Contract.{View, put, Implements}
use cs4411_p.Store.Session.{Call, Exists, run, ideal, run_in_range}
use cs4411_p.Disk.Map.{MapDisk, read, write, sync, ops}

module _ {S : Type 0} (bs : BlockStore S) (V : S → Type 0) (v : S → View) where
  abbrev pub IsValid : MapDisk S → Type 0
  IsValid s = V s.below

  -- Inode 0 is the chosen inode below, and there is no other.
  abbrev pub view : MapDisk S → View
  view s ino off = if ino == 0 then v s.below s.ino off else none

  zero_of : (s : MapDisk S) (ino off : ℕ) {b : Block} → view s ino off ≡ some b → ino ≡ 0
  zero_of s ino off h = ground arith

  below_of :
      (s : MapDisk S) (ino off : ℕ) {b : Block}
      → view s ino off ≡ some b
      → v s.below s.ino off ≡ some b
  below_of s ino off h = ground arith

  view_below : (s : MapDisk S) (t : S) → v t ≡ v s.below → view (record s { below = t }) ≡ view s
  view_below s t e = λ k ino off. if ino == 0 then e k s.ino off else none

  view-put :
      (s : MapDisk S) (t : S) (off : ℕ) (b : Block)
      → v t ≡ put (v s.below) s.ino off b
      → view (record s { below = t }) ≡ put (view s) 0 off b
  view-put s t off b e = fun_ext λ i. fun_ext λ o. rw e (ground (arith, ==_refl s.ino))

  module _ (imp : Implements bs V v) where
    pub ops-Implements : Implements (ops bs) IsValid view
    unfolding read write sync
    ops-Implements = record {
      read_some = λ s ino off buf b w h.
          let (t, called, w', same) =
            imp.read_some s.below s.ino off buf b w (below_of s ino off h) in
          (record s { below = t }, rw (zero_of s ino off h, called), w', view_below s t same);
      write_some = λ s ino off b old w h.
          let (t, called, w', same) =
            imp.write_some s.below s.ino off b old w (below_of s ino off h) in
          (
            record s { below = t },
            rw (zero_of s ino off h, called),
            w',
            rw (zero_of s ino off h) (view-put s t off b same),
          );
      sync_ok = λ s ino w. elim (Bool-cases (ino == 0)) [
        | inl e ↦
            let (r, t, called, w', same) = imp.sync_ok s.below s.ino w in
            (r, record s { below = t }, rw (e, called), w', view_below s t same)
        | inr e ↦ (err, s, rw e, w, refl)
      ];
    }

  -- Over a store that behaves as an array of blocks, inode 0 of a valid disk answers calls for blocks
  -- that exist as the array of the chosen inode below does.
  pub mapdisk_run :
      Implements bs V v
      → (calls : List Call) (s : MapDisk S) → IsValid s
      → All (Exists (view s)) calls
      → run (ops bs) s calls ≡ some (ideal (view s) calls)
  mapdisk_run imp calls s w h = run_in_range (ops bs) IsValid view (ops-Implements imp) calls s w h
