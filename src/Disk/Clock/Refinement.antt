-- ===== src/Disk/Clock/Refinement.antt =====
-- The methods of src/block/clockdisk.c: on blocks that exist the cache is transparent.
use cs4411_p.Prelude.{
  ℕ, ◌+◌, ℤ, pos, err, to_word, add_word, ◌≡◌, refl, sym, ap, ◌∙◌, fun_ext, Bool, true, false, ◌&&◌,
  some, List, ◌==◌, if◌then◌else◌, get_elem?, set, All, some-injective, arith, Bool-cases, inl, inr,
  ==_refl, ◌⊎◌,
}
use cs4411_p.Store.{Block, BlockStore}
use cs4411_p.Store.Contract.{View, put, Implements}
use cs4411_p.Store.Session.{Call, Exists, run, ideal, run_in_range}
use cs4411_p.Disk.Slots.{new, Slot, is_used, is_hit}
use cs4411_p.Disk.Slots.Finding.{is_hit_iff, is_hit_self, find_hit-find}
use cs4411_p.Disk.Slots.Replacing.{MayReplace}
use cs4411_p.Disk.Slots.Overlay.{overlay-set}
use cs4411_p.Disk.Clock.{
  ClockDisk, read_found, read, write_found, write, sync, ops, count_op, is_asked,
}
use cs4411_p.Disk.Clock.Contents.{IsBacked, IsBacked-of_find, IsValid, view, replaced}
use cs4411_p.Disk.Clock.Updating.{cache_update_lem}
use cs4411_p.Disk.Clock.Syncing.{sync_slots_lem}

put_same : (w : View) (ino off : ℕ) (b : Block) → w ino off ≡ some b → put w ino off b ≡ w
put_same w ino off b h = fun_ext λ i. fun_ext λ o. elim (Bool-cases (i == ino && o == off)) [
  | inl key ↦
      let ei : i ≡ ino = ground arith in
      let eo : o ≡ off = ground arith in rw (ei, eo, ==_refl ino, ==_refl off) (sym h)
  | inr other ↦ rw other
]

module _ {S : Type 0} (bs : BlockStore S) (V : S → Type 0) (v : S → View)
    (imp : Implements bs V v) where
  -- What a hit does: slot `k` is replaced by a version of the same block.
  hit_lem :
      (s s' : ClockDisk S) (k ino off : ℕ) (x y : Slot Bool)
      → IsValid bs V v s
      → get_elem? s.slots k ≡ some x
      → is_hit x ino off ≡ true
      → is_used y.status ≡ true
      → y.ino ≡ x.ino
      → y.offset ≡ x.offset
      → IsBacked (v s.below) y
      → s'.below ≡ s.below
      → s'.slots ≡ set s.slots k y
      → s'.clock_hand ≡ s.clock_hand
      → IsValid bs V v s' × (view bs V v s' ≡ put (view bs V v s) ino off y.block)
  hit_lem s s' k ino off x y w at hit used ei eo backed eb es eh =
      let (pi, po, used_x) = is_hit_iff x ino off hit in
      let may : MayReplace s.slots x y = inr (rw (ei, eo) (is_hit_self x used_x)) in
      (
        replaced bs V v s s' k x y w at may backed eb es (rw eh w.range.hand),
        fun_ext λ i. fun_ext λ o.
            rw (eb, es)
              (overlay-set (v s.below) s.slots k i o x y w.distinct at may used (inr (inr (ei, eo)))
                ∙ key i o (ei ∙ pi) (eo ∙ po)),
      )
    where
      key :
          (i o : ℕ)
          → y.ino ≡ ino
          → y.offset ≡ off
          → (if is_hit y i o then some y.block else view bs V v s i o)
            ≡ put (view bs V v s) ino off y.block i o
      key i o pi po = unfold is_hit in rw (used, pi, po) (flip i o)
        where
          flip :
              (i o : ℕ)
              → (if true && (ino == i && off == o) then some y.block else view bs V v s i o)
                ≡ put (view bs V v s) ino off y.block i o
          flip i o = ground arith

  -- The store below has answered, and shows no difference.
  over :
      (s s' : ClockDisk S)
      → IsValid bs V v s
      → V s'.below
      → v s'.below ≡ v s.below
      → s'.slots ≡ s.slots
      → s'.clock_hand ≡ s.clock_hand
      → IsValid bs V v s' × (view bs V v s' ≡ view bs V v s)
  over s s' w w' same es eh = (
    record {
      below = w';
      range = record { hand = rw (es, eh) w.range.hand; sized = rw es w.range.sized };
      distinct = rw es w.distinct;
      backed = rw (same, es) w.backed;
    },
    rw (same, es),
  )

  pub read_lem :
      (s : ClockDisk S) (ino off : ℕ) (buf b : Block)
      → IsValid bs V v s
      → view bs V v s ino off ≡ some b
      → (s' : ClockDisk S) × (read bs s ino off buf ≡ some (pos 0, b, s'))
        × IsValid bs V v s'
        × (view bs V v s' ≡ view bs V v s)
  unfolding read read_found
  read_lem s ino off buf b w h = elim (find_hit-find s.slots ino off 0) [
    | inl (miss, absent) ↦
        let below : v s.below ino off ≡ some b = rw absent at h in
        let (t, called, w', same) = imp.read_some s.below ino off buf b w.below below in
        let s1 : ClockDisk S = record (count_op s) {
          below = t;
          read_miss = add_word s.read_miss 1;
        } in
        let (w1, same1) = over s s1 w w' same refl refl in
        let (s', e, valid, shows) =
          cache_update_lem bs V v imp s1 ino off b false w1 absent (b, rw same below, inr refl) in
        (s', rw (miss, called, e), valid, shows ∙ rw same1 (put_same (view bs V v s) ino off b h))
    | inr (k, x, found, e, at, hit) ↦
        let block_is : x.block ≡ b = some-injective x.block b (rw e at h) in
        let y : Slot Bool = record x { status = new } in
        let s' : ClockDisk S = record (count_op s) {
          slots = set s.slots (0 + k) y;
          read_hit = add_word s.read_hit 1;
        } in
        let (valid, shows) =
          hit_lem s s' k ino off x y w at hit refl refl refl
            (IsBacked-of_find (v s.below) s.slots ino off w.backed e) refl
            (ap (λ n. set s.slots n y) (omega arith)) refl in
        (
          s',
          rw (found, block_is),
          valid,
          shows ∙ rw block_is (put_same (view bs V v s) ino off b h),
        )
  ]

  pub write_lem :
      (s : ClockDisk S) (ino off : ℕ) (b d : Block)
      → IsValid bs V v s
      → view bs V v s ino off ≡ some d
      → (s' : ClockDisk S) × (write bs s ino off b ≡ some (pos 0, s'))
        × IsValid bs V v s'
        × (view bs V v s' ≡ put (view bs V v s) ino off b)
  unfolding write write_found
  write_lem s ino off b d w h = elim (find_hit-find s.slots ino off 0) [
    | inl (miss, absent) ↦
        let below : v s.below ino off ≡ some d = rw absent at h in
        let s1 : ClockDisk S = record (count_op s) { write_miss = add_word s.write_miss 1 } in
        let (w1, same1) = over s s1 w w.below refl refl refl in
        let (s', e, valid, shows) =
          cache_update_lem bs V v imp s1 ino off b true w1 absent (d, below, inl refl) in
        (s', rw (miss, e), valid, shows)
    | inr (k, x, found, e, at, hit) ↦
        let (d', h', c) = IsBacked-of_find (v s.below) s.slots ino off w.backed e in
        let y : Slot Bool = record x { status = new; dirty = true; block = b } in
        let s' : ClockDisk S = record (count_op s) {
          slots = set s.slots (0 + k) y;
          write_hit = add_word s.write_hit 1;
        } in
        let (valid, shows) =
          hit_lem s s' k ino off x y w at hit refl refl refl (d', h', inl refl) refl
            (ap (λ n. set s.slots n y) (omega arith)) refl in
        (s', rw found, valid, shows)
  ]

  -- The loop and the call below of `sync`.
  pub sync_lem :
      (s : ClockDisk S) (ino : ℕ)
      → IsValid bs V v s
      → (r : ℤ) × (s' : ClockDisk S) × (sync bs s ino ≡ some (r, s'))
        × IsValid bs V v s'
        × (view bs V v s' ≡ view bs V v s)
        × ((i o : ℕ) → (is_asked ino i ≡ false) ⊎ (v s'.below i o ≡ view bs V v s i o))
  unfolding sync
  sync_lem s ino w =
      let (t, slots, e, l) =
        sync_slots_lem bs V v imp s.below s.slots ino w.below w.distinct w.backed in
      let (r, t', called, w', same) = imp.sync_ok t ino l.valid in
      (
        r,
        record (count_op s) { below = t'; slots = slots },
        rw (e, called),
        record {
          below = w';
          range = record { hand = rw l.sized w.range.hand; sized = rw l.sized w.range.sized };
          distinct = l.distinct;
          backed = rw same l.backed;
        },
        rw same l.shows,
        λ i o. rw same (l.stored i o),
      )

  pub ops-Implements : Implements (ops bs) (IsValid bs V v) (view bs V v)
  ops-Implements = record {
    read_some = read_lem;
    write_some = write_lem;
    sync_ok =
        λ s ino w. let (r, s', e, w', same, stored) = sync_lem s ino w in (r, s', e, w', same);
  }

  -- Over a store that behaves as an array of blocks, `sync` of one inode on a valid cache returns,
  -- and then the store below holds what the cache showed of that inode.
  pub sync_flushes :
      (s : ClockDisk S) (ino : ℕ)
      → IsValid bs V v s
      → (r : ℤ) × (s' : ClockDisk S) × (sync bs s ino ≡ some (r, s'))
        × ((o : ℕ) → v s'.below ino o ≡ view bs V v s ino o)
  sync_flushes s ino w =
      let (r, s', e, w', same, stored) = sync_lem s ino w in
      (
        r,
        s',
        e,
        λ o. elim (stored ino o) [ inl no_ino ↦ absurd (asked no_ino) | inr below ↦ below ],
      )
    where
      asked : is_asked ino ino ≡ false → ⊥
      asked h = ground arith

  -- Over a store that behaves as an array of blocks, `sync` of inode -1 on a valid cache returns,
  -- and then the store below holds all that the cache showed.
  pub sync_flushes_all :
      (s : ClockDisk S)
      → IsValid bs V v s
      → (r : ℤ) × (s' : ClockDisk S) × (sync bs s (to_word err) ≡ some (r, s'))
        × (v s'.below ≡ view bs V v s)
  sync_flushes_all s w =
      let (r, s', e, w', same, stored) = sync_lem s (to_word err) w in
      (
        r,
        s',
        e,
        fun_ext λ i.
            fun_ext
              λ o. elim (stored i o) [ inl no_ino ↦ absurd (asked i no_ino) | inr below ↦ below ],
      )
    where
      asked : (i : ℕ) → is_asked (to_word err) i ≡ false → ⊥
      asked i h = ground arith

  -- Over a store that behaves as an array of blocks, a valid cache returns from any calls for
  -- blocks that exist, with the replies of the array of blocks that it shows.
  pub clockdisk_run :
      (calls : List Call) (s : ClockDisk S)
      → IsValid bs V v s
      → All (Exists (view bs V v s)) calls
      → run (ops bs) s calls ≡ some (ideal (view bs V v s) calls)
  clockdisk_run calls s w h =
      run_in_range (ops bs) (IsValid bs V v) (view bs V v) ops-Implements calls s w h
