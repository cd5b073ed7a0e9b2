-- ===== src/Disk/Raid0/Contents.antt =====
-- src/block/raid0disk.c as an array of blocks: the stores below, taken in turn.
use cs4411_p.Prelude.{
  ℕ, ◌/◌, ◌%◌, ℤ, pos, err, is_neg, ◌≡◌, ◌≢◌, refl, sym, ap, ◌∙◌, fun_ext, false, Option, none,
  some, List, [], ◌∷◌, ◌==◌, map, if◌then◌else◌, get_elem?, set, length, length-set, All, All-get,
  All-set, get_elem?-set_self, get_elem?-set_ne, lt_of_get_elem?, length-map, map-set,
  get_elem?-map, get_elem?-map-none, map-set_same, arith, Bool-cases, Option-cases, inl, inr, ==→≡,
  ≢→==,
}
use cs4411_p.Store.{Block, BlockStore}
use cs4411_p.Store.Contract.{View, put, Implements}
use cs4411_p.Store.Session.{Call, Exists, run, ideal, run_in_range}
use native.Mathlib.Nat.{div-add-mod}
use cs4411_p.Disk.Raid0.{Raid0Disk, read, write, sync_all, sync, ops}

abbrev pub block_at : Option View → ℕ → Option Block
block_at none o = none
block_at (some w) o = w 0 o

-- The blocks of inode 0 go round the stores.
abbrev pub dealt : List View → View
dealt ws ino off =
    if ino == 0 then block_at (get_elem? ws (off % length ws)) (off / length ws) else none

-- Store and offset determine the block.
pub dealt_unique : (n o off : ℕ) → o % n ≡ off % n → o / n ≡ off / n → o ≡ off
dealt_unique n o off r q = sym (div-add-mod o n) ∙ rw (q, r) (div-add-mod off n)

dealt_put_at :
    (ws : List View) (off o : ℕ) (b : Block) {w : View}
    → get_elem? ws (off % length ws) ≡ some w
    → block_at
        (get_elem? (set ws (off % length ws) (put w 0 (off / length ws) b)) (o % length ws))
        (o / length ws)
      ≡ (if o == off then some b else block_at (get_elem? ws (o % length ws)) (o / length ws))
dealt_put_at ws off o b {w} h = elim (Bool-cases (o % length ws == off % length ws)) [
  | inl e ↦
      let same : o % length ws ≡ off % length ws = ==→≡ _ _ e in
      rw
        (
          same,
          get_elem?-set_self ws (off % length ws) (put w 0 (off / length ws) b)
              (lt_of_get_elem? ws (off % length ws) h),
          h,
        )
        (ground (arith, dealt_unique (length ws) o off same))
  | inr e ↦
      let other : off % length ws ≢ o % length ws = ground arith in
      rw (get_elem?-set_ne ws (put w 0 (off / length ws) b) other) (
        let ne : (o == off) ≡ false = ≢→== o off (λ p. other (ap (λ k. k % length ws) (sym p))) in
        rw ne)
]

dealt-put :
    (ws : List View) (off : ℕ) (b : Block) {w : View}
    → get_elem? ws (off % length ws) ≡ some w
    → dealt (set ws (off % length ws) (put w 0 (off / length ws) b)) ≡ put (dealt ws) 0 off b
dealt-put ws off b {w} h = fun_ext λ i. fun_ext λ o. elim (Bool-cases (i == 0)) [
  | inl e ↦
      rw (e, length-set ws (off % length ws) (put w 0 (off / length ws) b))
        (dealt_put_at ws off o b h)
  | inr e ↦ rw e
]

module _ {S : Type 0} (bs : BlockStore S) (V : S → Type 0) (v : S → View) where
  abbrev pub IsValid : Raid0Disk S → Type 0
  IsValid s = All V s.below

  abbrev pub view : Raid0Disk S → View
  view s = dealt (map v s.below)

  -- The store that holds an existing block.
  dealt_to :
      (s : Raid0Disk S) (ino off : ℕ) {b : Block}
      → view s ino off ≡ some b
      → (ino ≡ 0)
        × ((t : S) × (get_elem? s.below (off % length s.below) ≡ some t)
            × (v t 0 (off / length s.below) ≡ some b))
  dealt_to s ino off h = elim (Option-cases (get_elem? s.below (off % length s.below))) [
    | inl e ↦ absurd (
        ground (arith, length-map v s.below, get_elem?-map-none v s.below (off % length s.below) e))
    | inr (t, e) ↦ (
      ground arith,
      (
        t,
        e,
        ground (arith, length-map v s.below, get_elem?-map v s.below (off % length s.below) e),
      ),
    )
  ]

  -- The loop of `sync` visits the stores in order, and stops at the first that fails.
  sync_all_ok :
      Implements bs V v
      → (stores : List S) (ino : ℕ) → All V stores
      → (r : ℤ) × (stores' : List S) × (sync_all bs stores ino ≡ some (r, stores'))
        × All V stores'
        × (map v stores' ≡ map v stores)
  unfolding sync_all
  sync_all_ok imp [] ino w = (pos 0, [], refl, tt, refl)
  sync_all_ok imp (t ∷ stores) ino (w, ws) =
      let (r, t', called, w', same) = imp.sync_ok t ino w in
      elim (Bool-cases (is_neg r)) [
        | inl bad ↦ (err, t' ∷ stores, rw (called, bad), (w', ws), ap (λ x. x ∷ map v stores) same)
        | inr good ↦
            let (r', stores', calls, ws', sames) = sync_all_ok imp stores ino ws in
            (r', t' ∷ stores', rw (called, good, calls), (w', ws'), rw (same, sames))
      ]

  module _ (imp : Implements bs V v) where
    pub ops-Implements : Implements (ops bs) IsValid view
    unfolding read write sync
    ops-Implements = record {
      read_some = λ s ino off buf b w h.
          let (first, (t, e, h')) = dealt_to s ino off h in
          let (t', called, w', same) =
            imp.read_some t 0 (off / length s.below) buf b (All-get V s.below _ w e) h' in
          (
            record { below = set s.below (off % length s.below) t' },
            rw (first, e, called),
            All-set V s.below _ w w',
            ap dealt (map-set_same v s.below (off % length s.below) t' e same),
          );
      write_some = λ s ino off b old w h.
          let (first, (t, e, h')) = dealt_to s ino off h in
          let (t', called, w', same) =
            imp.write_some t 0 (off / length s.below) b old (All-get V s.below _ w e) h' in
          (
            record { below = set s.below (off % length s.below) t' },
            rw (first, e, called),
            All-set V s.below _ w w',
            rw first (written s off b t t' e same),
          );
      sync_ok = λ s ino w.
          let (r, stores', called, w', same) = sync_all_ok imp s.below ino w in
          (r, record { below = stores' }, rw called, w', ap dealt same);
    }
      where
        written :
            (s : Raid0Disk S) (off : ℕ) (b : Block) (t t' : S)
            → get_elem? s.below (off % length s.below) ≡ some t
            → v t' ≡ put (v t) 0 (off / length s.below) b
            → dealt (map v (set s.below (off % length s.below) t'))
              ≡ put (dealt (map v s.below)) 0 off b
        written s off b t t' e same =
            rw (map-set v s.below (off % length s.below) t', same, ← length-map v s.below)
              (dealt-put (map v s.below) off b
                (rw (length-map v s.below) (get_elem?-map v s.below (off % length s.below) e)))

  -- Over stores that behave as arrays of blocks, calls for blocks that exist are answered as by one
  -- array, in which block `n` is block `n / nbelow` of store `n % nbelow`.
  pub raid0disk_run :
      Implements bs V v
      → (calls : List Call) (s : Raid0Disk S) → IsValid s
      → All (Exists (view s)) calls
      → run (ops bs) s calls ≡ some (ideal (view s) calls)
  raid0disk_run imp calls s w h =
      run_in_range (ops bs) IsValid view (ops-Implements imp) calls s w h
