-- ===== src/Disk/Clock.antt =====
-- src/block/clockdisk.c: a write-back cache with the CLOCK replacement strategy.
pub mod Termination
pub mod Contents
pub mod Updating
pub mod Refinement
pub mod Syncing
pub mod Init
pub mod Beyond
mod Tests
use cs4411_p.Prelude.{
  ℕ, zero, suc, ◌%◌, ℤ, pos, err, to_word, is_err, add_word, Bool, true, false, ◌&&◌, ◌||◌, Option,
  none, some, List, [], ◌∷◌, ◌==◌, map, if◌then◌else◌, get_elem?, set, length, Run, ◌>>=◌,
}
use cs4411_p.Store.{Block, BlockStore}
use cs4411_p.Disk.Slots.{empty, old, new, Slot, is_used, is_new, find_hit, drop_beyond}

-- `struct clockdisk_state`: `nblocks` is the length of `slots`.
pub record ClockDisk (S : Type 0) : Type 0 where
  pub below : S
  pub slots : List (Slot Bool)
  pub clock_hand : ℕ
  pub read_hit : ℕ
  pub read_miss : ℕ
  pub write_hit : ℕ
  pub write_miss : ℕ
  pub nops : ℕ

-- `++cs->nops`. The statistics are printed at every twentieth call; printing is not modelled.
abbrev pub count_op : {S : Type 0} → ClockDisk S → ClockDisk S
count_op s = record s { nops = add_word s.nops 1 }

-- `(i + 1) % cs->nblocks`
abbrev pub advance : {S : Type 0} → ClockDisk S → ℕ
advance s = add_word s.clock_hand 1 % length s.slots

-- The branch of `cache_update` for a slot in use: the slot under the hand gets old.
abbrev pub age : {S : Type 0} → ClockDisk S → Slot Bool → ClockDisk S
age s x = record s {
  slots = set s.slots s.clock_hand (record x { status = old });
  clock_hand = advance s;
}

-- `ino == (unsigned int) -1 || ino == block_infos[i].ino`, the slots that `sync` is asked for.
abbrev pub is_asked : ℕ → ℕ → Bool
is_asked ino slot_ino = slot_ino == ino || ino == to_word err

module _ {S : Type 0} (bs : BlockStore S) where
  unfoldable pub getninodes : ClockDisk S → Run (ℤ × ClockDisk S)
  getninodes s = do (r, t) ← bs.getninodes s.below; some (r, record (count_op s) { below = t })

  unfoldable pub getsize : ClockDisk S → ℕ → Run (ℤ × ClockDisk S)
  getsize s ino = do (r, t) ← bs.getsize s.below ino; some (r, record (count_op s) { below = t })

  unfoldable pub setsize : ClockDisk S → ℕ → ℕ → Run (ℤ × ClockDisk S)
  setsize s ino nblocks = do
    (r, t) ← bs.setsize s.below ino nblocks
    some (r, record (count_op s) { below = t; slots = drop_beyond s.slots ino nblocks })

  -- The write of a dirty slot's block to the store below. Its result is ignored.
  unfoldable pub write_back : S → Slot Bool → Run S
  write_back t x =
      if is_used x.status && x.dirty
      then (do (_, t') ← bs.write t x.ino x.offset x.block; some t')
      else some t

  -- The branch of `cache_update` that puts the block into the slot under the hand.
  unfoldable pub fill : ClockDisk S → Slot Bool → Slot Bool → Run (ClockDisk S)
  unfolding write_back
  fill s x y = do
    t ← write_back s.below x
    some (record s { below = t; slots = set s.slots s.clock_hand y; clock_hand = advance s })

  -- The loop of `cache_update`, with fuel: `y` is the slot with the new block.
  unfoldable pub update_loop : ℕ → ClockDisk S → Slot Bool → Run (ClockDisk S)
  unfolding fill
  update_loop zero s y = none
  update_loop (suc fuel) s y = do
    x ← get_elem? s.slots s.clock_hand
    elim (is_new x.status) [ true ↦ update_loop fuel (age s x) y | false ↦ fill s x y ]

  -- Each round but the last ages a slot, so one round more than there are slots is enough.
  unfoldable pub cache_update : ClockDisk S → ℕ → ℕ → Block → Bool → Run (ClockDisk S)
  unfolding update_loop
  cache_update s ino offset block dirty =
      update_loop (suc (length s.slots)) s
        (record { status = new; dirty = dirty; ino = ino; offset = offset; block = block })

  -- What `read` does behind its search loop.
  unfoldable pub read_found :
      ClockDisk S → ℕ → ℕ → Block → Option (ℕ × Slot Bool) → Run (ℤ × Block × ClockDisk S)
  unfolding cache_update
  read_found s ino offset block (some (i, x)) = some (
    pos 0,
    x.block,
    record s {
      slots = set s.slots i (record x { status = new });
      read_hit = add_word s.read_hit 1;
    },
  )
  read_found s ino offset block none = do
    (r, b, t) ← bs.read s.below ino offset block
    let s' = record s { below = t; read_miss = add_word s.read_miss 1 }
    if is_err r
        then some (r, b, s')
        else do s'' ← cache_update s' ino offset b false; some (pos 0, b, s'')

  unfoldable pub read : ClockDisk S → ℕ → ℕ → Block → Run (ℤ × Block × ClockDisk S)
  unfolding read_found find_hit
  read s ino offset block = read_found (count_op s) ino offset block (find_hit s.slots ino offset 0)

  -- What `write` does behind its search loop.
  unfoldable pub write_found :
      ClockDisk S → ℕ → ℕ → Block → Option (ℕ × Slot Bool) → Run (ℤ × ClockDisk S)
  unfolding cache_update
  write_found s ino offset block (some (i, x)) = some (
    pos 0,
    record s {
      slots = set s.slots i (record x { status = new; dirty = true; block = block });
      write_hit = add_word s.write_hit 1;
    },
  )
  write_found s ino offset block none = do
    s' ← cache_update (record s { write_miss = add_word s.write_miss 1 }) ino offset block true
    some (pos 0, s')

  unfoldable pub write : ClockDisk S → ℕ → ℕ → Block → Run (ℤ × ClockDisk S)
  unfolding write_found find_hit
  write s ino offset block =
      write_found (count_op s) ino offset block (find_hit s.slots ino offset 0)

  -- The loop of `sync`: the dirty slots that are asked for are written and marked clean.
  unfoldable pub sync_slots : S → List (Slot Bool) → ℕ → Run (S × List (Slot Bool))
  sync_slots t [] ino = some (t, [])
  sync_slots t (x ∷ slots) ino =
      let rest = λ (t' : S). sync_slots t' slots ino in
      if is_used x.status && x.dirty && is_asked ino x.ino
      then (do
        (_, t') ← bs.write t x.ino x.offset x.block
        (t'', slots') ← rest t'
        some (t'', record x { dirty = false } ∷ slots'))
      else (do (t'', slots') ← rest t; some (t'', x ∷ slots'))

  unfoldable pub sync : ClockDisk S → ℕ → Run (ℤ × ClockDisk S)
  unfolding sync_slots
  sync s ino = do
    (t, slots) ← sync_slots s.below s.slots ino
    (r, t') ← bs.sync t ino
    some (r, record (count_op s) { below = t'; slots = slots })

  abbrev pub ops : BlockStore (ClockDisk S)
  ops = record {
    getninodes = getninodes;
    getsize = getsize;
    setsize = setsize;
    read = read;
    write = write;
    sync = sync;
  }

-- `calloc` clears the metadata: every slot is empty. `blocks` has `nblocks` elements.
unfoldable pub init : {S : Type 0} → S → List Block → ClockDisk S
init below blocks = record {
  below = below;
  slots =
      map (λ b. record { status = empty; dirty = false; ino = 0; offset = 0; block = b }) blocks;
  clock_hand = 0;
  read_hit = 0;
  read_miss = 0;
  write_hit = 0;
  write_miss = 0;
  nops = 0;
}
