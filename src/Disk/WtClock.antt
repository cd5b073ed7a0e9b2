-- ===== src/Disk/WtClock.antt =====
-- src/block/wtclockdisk.c: the write-through version of clockdisk.c.
pub mod Updating
pub mod Copies
pub mod Contents
mod Tests
use cs4411_p.Prelude.{
  ℕ, zero, suc, ◌%◌, ℤ, pos, is_err, add_word, true, false, Option, none, some, List, map,
  if◌then◌else◌, get_elem?, set, length, Run, ◌>>=◌,
}
use cs4411_p.Store.{Block, BlockStore}
use cs4411_p.Disk.Slots.{empty, old, new, Slot, is_new, find_hit, drop_beyond}

-- `struct wtclockdisk_state`: `nblocks` is the length of `slots`.
pub record WtClockDisk (S : Type 0) : Type 0 where
  pub below : S
  pub slots : List (Slot (Unit {0}))
  pub clock_hand : ℕ
  pub read_hit : ℕ
  pub read_miss : ℕ
  pub write_hit : ℕ
  pub write_miss : ℕ
  pub nops : ℕ

-- `++cs->nops`; what is printed at every twentieth call is not modelled.
abbrev pub count_op : {S : Type 0} → WtClockDisk S → WtClockDisk S
count_op s = record s { nops = add_word s.nops 1 }

-- `(i + 1) % cs->nblocks`
abbrev pub advance : {S : Type 0} → WtClockDisk S → ℕ
advance s = add_word s.clock_hand 1 % length s.slots

-- A round of `cache_update`: the slot under the hand is replaced by `x`, and the hand moves on.
abbrev pub put_slot : {S : Type 0} → WtClockDisk S → Slot (Unit {0}) → WtClockDisk S
put_slot s x = record s { slots = set s.slots s.clock_hand x; clock_hand = advance s }

-- The loop of `cache_update`, with fuel: `y` is the slot with the new block.
unfoldable pub update_loop :
    {S : Type 0} → ℕ → WtClockDisk S → Slot (Unit {0}) → Run (WtClockDisk S)
update_loop zero s y = none
update_loop (suc fuel) s y = do
  x ← get_elem? s.slots s.clock_hand
  elim (is_new x.status) [
    | true ↦ update_loop fuel (put_slot s (record x { status = old })) y
    | false ↦ some (put_slot s y)
  ]

-- Each round but the last ages a slot, so one round more than there are slots is enough.
unfoldable pub cache_update : {S : Type 0} → WtClockDisk S → ℕ → ℕ → Block → Run (WtClockDisk S)
unfolding update_loop
cache_update s ino offset block =
    update_loop (suc (length s.slots)) s
      (record { status = new; dirty = tt; ino = ino; offset = offset; block = block })

module _ {S : Type 0} (bs : BlockStore S) where
  unfoldable pub getninodes : WtClockDisk S → Run (ℤ × WtClockDisk S)
  getninodes s = do (r, t) ← bs.getninodes s.below; some (r, record (count_op s) { below = t })

  unfoldable pub getsize : WtClockDisk S → ℕ → Run (ℤ × WtClockDisk S)
  getsize s ino = do (r, t) ← bs.getsize s.below ino; some (r, record (count_op s) { below = t })

  unfoldable pub setsize : WtClockDisk S → ℕ → ℕ → Run (ℤ × WtClockDisk S)
  setsize s ino nblocks = do
    (r, t) ← bs.setsize s.below ino nblocks
    some (r, record (count_op s) { below = t; slots = drop_beyond s.slots ino nblocks })

  -- What `read` does behind its search loop.
  unfoldable pub read_found :
      WtClockDisk S → ℕ → ℕ → Block → Option (ℕ × Slot (Unit {0})) → Run (ℤ × Block × WtClockDisk S)
  unfolding cache_update
  read_found s ino offset block (some (i, x)) = some (
    pos 0,
    x.block,
    record s {
      slots = set s.slots i (record x { status = new });
      read_hit = add_word s.read_hit 1;
    },
  )
  read_found s ino offset block none = do
    (r, b, t) ← bs.read s.below ino offset block
    let s' = record s { below = t; read_miss = add_word s.read_miss 1 }
    if is_err r
        then some (r, b, s')
        else do s'' ← cache_update s' ino offset b; some (pos 0, b, s'')

  unfoldable pub read : WtClockDisk S → ℕ → ℕ → Block → Run (ℤ × Block × WtClockDisk S)
  unfolding read_found find_hit
  read s ino offset block = read_found (count_op s) ino offset block (find_hit s.slots ino offset 0)

  -- What `write` does behind its search loop. The result of the store below is returned as it is
  -- after a hit, and compared with -1 after a miss.
  unfoldable pub write_found :
      WtClockDisk S → ℕ → ℕ → Block → Option (ℕ × Slot (Unit {0})) → Run (ℤ × WtClockDisk S)
  unfolding cache_update
  write_found s ino offset block (some (i, x)) = do
    (r, t) ← bs.write s.below ino offset block
    some (
      r,
      record s {
        below = t;
        slots = set s.slots i (record x { status = new; block = block });
        write_hit = add_word s.write_hit 1;
      },
    )
  write_found s ino offset block none = do
    (r, t) ← bs.write s.below ino offset block
    let s' = record s { below = t; write_miss = add_word s.write_miss 1 }
    if is_err r then some (r, s') else do s'' ← cache_update s' ino offset block; some (pos 0, s'')

  unfoldable pub write : WtClockDisk S → ℕ → ℕ → Block → Run (ℤ × WtClockDisk S)
  unfolding write_found find_hit
  write s ino offset block =
      write_found (count_op s) ino offset block (find_hit s.slots ino offset 0)

  unfoldable pub sync : WtClockDisk S → ℕ → Run (ℤ × WtClockDisk S)
  sync s ino = do (r, t) ← bs.sync s.below ino; some (r, record (count_op s) { below = t })

  abbrev pub ops : BlockStore (WtClockDisk S)
  ops = record {
    getninodes = getninodes;
    getsize = getsize;
    setsize = setsize;
    read = read;
    write = write;
    sync = sync;
  }

-- `calloc` clears the metadata: every slot is empty. `blocks` has `nblocks` elements.
unfoldable pub init : {S : Type 0} → S → List Block → WtClockDisk S
init below blocks = record {
  below = below;
  slots = map (λ b. record { status = empty; dirty = tt; ino = 0; offset = 0; block = b }) blocks;
  clock_hand = 0;
  read_hit = 0;
  read_miss = 0;
  write_hit = 0;
  write_miss = 0;
  nops = 0;
}
