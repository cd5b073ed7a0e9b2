-- ===== src/Disk/WtClock/Tests.antt =====
-- A run of src/block/wtclockdisk.c at concrete inputs.
use cs4411_p.Prelude.{◌≡◌, refl, ◌&&◌, some, List, [], ◌∷◌, ◌==◌, arith, Bool-cases, inl, inr}
use cs4411_p.Store.Session.{Call, read, write, sync, Reply, got, done, failed, synced, run, ideal}
use cs4411_p.Disk.Ram
use cs4411_p.Disk.Ram.{RamDisk}
use cs4411_p.Disk.Ram.Contents as RamContents
use cs4411_p.Disk.WtClock
use cs4411_p.Disk.WtClock.{WtClockDisk}
use cs4411_p.Disk.Slots.{Slot, empty, new, is_hit}
use cs4411_p.Disk.Slots.Finding.{find}
use cs4411_p.Disk.WtClock.Updating.{AreCopies}
use cs4411_p.Disk.WtClock.Contents.{IsValid, wtclockdisk_run}

abbrev ram : RamDisk
ram = record { blocks = (1 ∷ []) ∷ (2 ∷ []) ∷ (3 ∷ []) ∷ (4 ∷ []) ∷ []; nblocks = 4 }

-- A cache of two slots: one holds block 1, the other is empty.
abbrev held : Slot (Unit {0})
held = record { status = new; dirty = tt; ino = 0; offset = 1; block = 2 ∷ [] }

abbrev unused : Slot (Unit {0})
unused = record { status = empty; dirty = tt; ino = 0; offset = 0; block = [] }

abbrev cache : WtClockDisk RamDisk
cache = record {
  below = ram;
  slots = held ∷ unused ∷ [];
  clock_hand = 0;
  read_hit = 0;
  read_miss = 1;
  write_hit = 0;
  write_miss = 0;
  nops = 1;
}

cache-AreCopies : AreCopies (RamContents.view ram) (held ∷ unused ∷ [])
unfolding AreCopies find is_hit
cache-AreCopies i o = elim (Bool-cases (0 == i && 1 == o)) [
  | inl key ↦ rw key refl
  | inr other ↦ rw other tt
]

cache-IsValid : IsValid Ram.ops RamContents.IsValid RamContents.view cache
unfolding find is_hit
cache-IsValid = record {
  below = omega arith;
  coherent = record {
    hand = omega arith;
    distinct = (inr refl, (inl refl, tt));
    copies = cache-AreCopies;
  };
}

-- Hits, misses that age and replace slots, and calls for a block that does not exist.
abbrev calls : List Call
calls =
    read 0 1
    ∷ write 0 1 (9 ∷ [])
    ∷ read 0 3
    ∷ write 0 0 (8 ∷ [])
    ∷ read 0 4
    ∷ write 0 4 []
    ∷ sync 0
    ∷ read 0 1
    ∷ read 0 0
    ∷ []

abbrev replies : List Reply
replies =
    got (2 ∷ [])
    ∷ done
    ∷ got (4 ∷ [])
    ∷ done
    ∷ failed
    ∷ failed
    ∷ synced
    ∷ got (9 ∷ [])
    ∷ got (8 ∷ [])
    ∷ []

cache_runs : run (WtClock.ops Ram.ops) cache calls ≡ some replies
unfolding run WtClock.read WtClock.write WtClock.sync is_hit Ram.read Ram.write Ram.sync
cache_runs = refl

wtclockdisk_run_example : run (WtClock.ops Ram.ops) cache calls ≡ some replies
unfolding ideal find is_hit
wtclockdisk_run_example =
    wtclockdisk_run Ram.ops RamContents.IsValid RamContents.view RamContents.ops-Implements
      RamContents.ops-Rejects calls cache cache-IsValid
