-- ===== src/Disk/WtClock/Contents.antt =====
-- The methods of src/block/wtclockdisk.c: the store below always holds what the cache shows.
use cs4411_p.Prelude.{
  ℕ, ◌+◌, pos, add_word, ◌≡◌, refl, sym, ap, ◌∙◌, none, some, List, set, length-set, some-injective,
  some-ne-none, arith, Option-cases, inl, inr, ==_refl,
}
use cs4411_p.Store.{Block, BlockStore}
use cs4411_p.Store.Contract.{View, put, Implements, Rejects}
use cs4411_p.Store.Session.{Call, run, ideal, run_refines}
use cs4411_p.Disk.Slots.{find_hit, new, Slot}
use cs4411_p.Disk.Slots.Finding.{find, is_hit_iff, is_hit_self, find_hit-find, find-hit}
use cs4411_p.Disk.Slots.Replacing.{MayReplace, set-AreDistinct}
use cs4411_p.Disk.WtClock.{WtClockDisk, read_found, read, write_found, write, sync, ops, count_op}
use cs4411_p.Disk.WtClock.Updating.{AreCopies-set, copied, IsCoherent, cache_update_lem}
use cs4411_p.Disk.WtClock.Copies.{AreCopies-put, AreCopies-written}

module _ {S : Type 0} (bs : BlockStore S) (V : S → Type 0) (v : S → View) where
  pub record IsValid (s : WtClockDisk S) : Type 0 where
    pub below : V s.below
    pub coherent : IsCoherent (v s.below) s

  -- What a client sees: the store below.
  abbrev pub view : WtClockDisk S → View
  view s = v s.below

  -- The store below has answered, and the slots are as before.
  answered :
      (s s' : WtClockDisk S)
      → V s'.below
      → IsCoherent (v s'.below) s
      → s'.slots ≡ s.slots
      → s'.clock_hand ≡ s.clock_hand
      → IsValid s'
  answered s s' below c es eh = record {
    below = below;
    coherent = record {
      hand = rw (es, eh) c.hand;
      distinct = rw es c.distinct;
      copies = rw es c.copies;
    };
  }

  module _ (imp : Implements bs V v) where
    -- What `read` returns for a block that exists.
    read_lem :
        (s : WtClockDisk S) (ino off : ℕ) (buf b : Block)
        → IsValid s
        → view s ino off ≡ some b
        → (s' : WtClockDisk S) × (read bs s ino off buf ≡ some (pos 0, b, s'))
          × IsValid s'
          × (view s' ≡ view s)
    unfolding read read_found
    read_lem s ino off buf b w h = elim (find_hit-find s.slots ino off 0) [
      | inl (miss, absent) ↦
          let (t, called, w', same) = imp.read_some s.below ino off buf b w.below h in
          let s1 : WtClockDisk S = record (count_op s) {
            below = t;
            read_miss = add_word s.read_miss 1;
          } in
          let c1 : IsCoherent (v s.below) s1 = record {
            hand = w.coherent.hand;
            distinct = w.coherent.distinct;
            copies = w.coherent.copies;
          } in
          let (s', e, c, eb) = cache_update_lem (v s.below) s1 ino off b c1 absent h in
          (
            s',
            rw (miss, called, e),
            record { below = rw eb w'; coherent = rw (eb, same) c },
            rw (eb, same),
          )
      | inr (k, x, found, e, at, hit) ↦
          let (pi, po, used) = is_hit_iff x ino off hit in
          let copy = copied (v s.below) s.slots ino off w.coherent.copies e in
          let block_is : x.block ≡ b = some-injective x.block b (sym copy ∙ rw (pi, po) h) in
          let y : Slot (Unit {0}) = record x { status = new } in
          let may : MayReplace s.slots x y = inr (is_hit_self x used) in
          let index : 0 + k ≡ k = omega arith in
          (
            record (count_op s) { slots = set s.slots k y; read_hit = add_word s.read_hit 1 },
            rw (found ∙ ap (λ n. some (n, x)) index, block_is),
            record {
              below = w.below;
              coherent = record {
                hand = rw (length-set s.slots k y) w.coherent.hand;
                distinct = set-AreDistinct s.slots k y w.coherent.distinct at may;
                copies =
                    AreCopies-set (v s.below) s.slots k x y w.coherent.distinct at may copy
                      w.coherent.copies;
              };
            },
            refl,
          )
    ]

    -- What `write` does to a block that exists.
    write_lem :
        (s : WtClockDisk S) (ino off : ℕ) (b d : Block)
        → IsValid s
        → view s ino off ≡ some d
        → (s' : WtClockDisk S) × (write bs s ino off b ≡ some (pos 0, s'))
          × IsValid s'
          × (view s' ≡ put (view s) ino off b)
    unfolding write write_found
    write_lem s ino off b d w h =
        let (t, called, w', same) = imp.write_some s.below ino off b d w.below h in
        elim (find_hit-find s.slots ino off 0) [
          | inl (miss, absent) ↦
              let s1 : WtClockDisk S = record (count_op s) {
                below = t;
                write_miss = add_word s.write_miss 1;
              } in
              let c1 : IsCoherent (put (v s.below) ino off b) s1 = record {
                hand = w.coherent.hand;
                distinct = w.coherent.distinct;
                copies = AreCopies-put (v s.below) s.slots ino off b absent w.coherent.copies;
              } in
              let (s', e, c, eb) =
                cache_update_lem (put (v s.below) ino off b) s1 ino off b c1 absent
                  (rw (==_refl ino, ==_refl off) refl) in
              (
                s',
                rw (miss, called, e),
                record { below = rw eb w'; coherent = rw (eb, same) c },
                rw (eb, same),
              )
          | inr (k, x, found, e, at, hit) ↦
              let (pi, po, used) = is_hit_iff x ino off hit in
              let y : Slot (Unit {0}) = record x { status = new; block = b } in
              let may : MayReplace s.slots x y = inr (is_hit_self x used) in
              let index : 0 + k ≡ k = omega arith in
              (
                record (count_op s) {
                  below = t;
                  slots = set s.slots k y;
                  write_hit = add_word s.write_hit 1;
                },
                rw (found ∙ ap (λ n. some (n, x)) index, called),
                record {
                  below = w';
                  coherent = record {
                    hand = rw (length-set s.slots k y) w.coherent.hand;
                    distinct = set-AreDistinct s.slots k y w.coherent.distinct at may;
                    copies = rw same (
                        AreCopies-written (v s.below) s.slots ino off b k x y w.coherent.distinct at
                          hit refl pi po refl w.coherent.copies);
                  };
                },
                same,
              )
        ]

    pub ops-Implements : Implements (ops bs) IsValid view
    unfolding sync
    ops-Implements = record {
      read_some = read_lem;
      write_some = write_lem;
      sync_ok = λ s ino w.
          let (r, t, called, w', same) = imp.sync_ok s.below ino w.below in
          (
            r,
            record (count_op s) { below = t },
            rw called,
            answered s _ w' (rw same w.coherent) refl refl,
            same,
          );
    }

  module _ (rej : Rejects bs V v) where
    -- A block that does not exist is in no slot.
    absent_of_none :
        (s : WtClockDisk S) (ino off : ℕ)
        → IsValid s
        → view s ino off ≡ none
        → find s.slots ino off ≡ none
    absent_of_none s ino off w h = elim (Option-cases (find s.slots ino off)) [
      | inl e ↦ e
      | inr (x, e) ↦
          let (pi, po, used) = is_hit_iff x ino off (find-hit s.slots ino off e) in
          let copy = copied (v s.below) s.slots ino off w.coherent.copies e in
          let there : v s.below ino off ≡ some x.block = rw (pi, po) at copy in cc
    ]

    not_hit :
        (s : WtClockDisk S) (ino off : ℕ)
        → IsValid s
        → view s ino off ≡ none
        → find_hit s.slots ino off 0 ≡ none
    not_hit s ino off w h = elim (find_hit-find s.slots ino off 0) [
      | inl (miss, absent) ↦ miss
      | inr (k, x, found, e, at, hit) ↦
          absurd (some-ne-none x (sym e ∙ absent_of_none s ino off w h))
    ]

    pub ops-Rejects : Rejects (ops bs) IsValid view
    unfolding read read_found write write_found
    ops-Rejects = record {
      read_none = λ s ino off buf w h.
          let (buf', t, called, w', same) = rej.read_none s.below ino off buf w.below h in
          (
            buf',
            record (count_op s) { below = t; read_miss = add_word s.read_miss 1 },
            rw (not_hit s ino off w h, called),
            answered s _ w' (rw same w.coherent) refl refl,
            same,
          );
      write_none = λ s ino off b w h.
          let (t, called, w', same) = rej.write_none s.below ino off b w.below h in
          (
            record (count_op s) { below = t; write_miss = add_word s.write_miss 1 },
            rw (not_hit s ino off w h, called),
            answered s _ w' (rw same w.coherent) refl refl,
            same,
          );
    }

  -- Over a store that behaves as an array of blocks and answers -1 for the blocks that it has not,
  -- a valid write-through cache returns from any calls with the replies of the store below.
  pub wtclockdisk_run :
      Implements bs V v
      → Rejects bs V v
      → (calls : List Call) (s : WtClockDisk S) → IsValid s
      → run (ops bs) s calls ≡ some (ideal (v s.below) calls)
  wtclockdisk_run imp rej calls s w =
      run_refines (ops bs) IsValid view (ops-Implements imp) (ops-Rejects rej) calls s w
