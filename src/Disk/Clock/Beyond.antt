-- ===== src/Disk/Clock/Beyond.antt =====
-- Writes beyond the end of the store below src/block/clockdisk.c.
use cs4411_p.Prelude.{
  ℕ, pos, add_word, ◌≡◌, sym, ◌∙◌, Bool, true, none, some, List, some-ne-none, Option-cases, inl,
  inr,
}
use cs4411_p.Store.{Block, BlockStore}
use cs4411_p.Store.Contract.{View}
use cs4411_p.Disk.Slots.{Slot}
use cs4411_p.Disk.Slots.Finding.{find, find_hit-find}
use cs4411_p.Disk.Slots.Overlay.{overlay}
use cs4411_p.Disk.Clock.{ClockDisk, write_found, write, count_op}
use cs4411_p.Disk.Clock.Contents.{IsValid, view}
use cs4411_p.Disk.Clock.Termination.{WritesReturn, cache_update_total}

absent_of_none :
    (w : View) (slots : List (Slot Bool)) (ino off : ℕ)
    → overlay w slots ino off ≡ none
    → find slots ino off ≡ none
absent_of_none w slots ino off h = elim (Option-cases (find slots ino off)) [
  | inl e ↦ e
  | inr (x, e) ↦ absurd (some-ne-none x.block (rw e at h))
]

module _ {S : Type 0} (bs : BlockStore S) (V : S → Type 0) (v : S → View) where
  -- Over a store that returns from every write, a valid cache answers a write to a block that does
  -- not exist with 0.
  pub write_beyond :
      WritesReturn bs
      → (s : ClockDisk S) (ino off : ℕ) (b : Block) → IsValid bs V v s
      → view bs V v s ino off ≡ none
      → (s' : ClockDisk S) × (write bs s ino off b ≡ some (pos 0, s'))
  unfolding write write_found
  write_beyond total s ino off b w h =
      let absent = absent_of_none (v s.below) s.slots ino off h in
      elim (find_hit-find s.slots ino off 0) [
        | inl (miss, _) ↦
            let s1 : ClockDisk S = record (count_op s) { write_miss = add_word s.write_miss 1 } in
            let (s', e) =
              cache_update_total bs total s1 ino off b true
                (record { hand = w.range.hand; sized = w.range.sized }) in
            (s', rw (miss, e))
        | inr (k, x, found, e, at, hit) ↦ absurd (some-ne-none x (sym e ∙ absent))
      ]
