-- ===== src/Disk/Clock/Tests.antt =====
-- Runs of src/block/clockdisk.c, alone and within a stack of modules, at concrete inputs.
use cs4411_p.Prelude.{
  ℕ, ℤ, pos, err, to_word, ◌≡◌, refl, Bool, true, false, ◌&&◌, none, some, List, [], ◌∷◌, ◌==◌,
  arith, Bool-cases, inl, inr,
}
use cs4411_p.Store.{Block, BlockStore}
use cs4411_p.Store.Contract.{View, put}
use cs4411_p.Store.Session.{Call, read, write, sync, Reply, got, done, synced, run, ideal}
use cs4411_p.Disk.Ram
use cs4411_p.Disk.Ram.{RamDisk}
use cs4411_p.Disk.Ram.Contents as RamContents
use cs4411_p.Disk.Clock
use cs4411_p.Disk.Clock.{ClockDisk}
use cs4411_p.Disk.Slots.{Slot, empty, new, is_hit}
use cs4411_p.Disk.Slots.Finding.{find}
use cs4411_p.Disk.Clock.Contents.{IsValid, view, AreBacked}
use cs4411_p.Disk.Clock.Termination.{WritesReturn, cache_update_total}
use cs4411_p.Disk.Clock.Updating.{cache_update_lem}
use cs4411_p.Disk.Clock.Refinement.{clockdisk_run, sync_flushes, sync_flushes_all}
use cs4411_p.Disk.Clock.Beyond.{write_beyond}
use cs4411_p.Disk.Clock.Init.{init_lem}
use cs4411_p.Disk.Stack
use cs4411_p.Disk.Stack.{stack_run}

abbrev ram : RamDisk
ram = record { blocks = (1 ∷ []) ∷ (2 ∷ []) ∷ (3 ∷ []) ∷ (4 ∷ []) ∷ []; nblocks = 4 }

abbrev nine : Block
nine = 9 ∷ []

-- A cache of two slots: one holds a new version of block 1, the other is empty.
abbrev held : Slot Bool
held = record { status = new; dirty = true; ino = 0; offset = 1; block = nine }

abbrev unused : Slot Bool
unused = record { status = empty; dirty = false; ino = 0; offset = 0; block = [] }

abbrev cache : ClockDisk RamDisk
cache = record {
  below = ram;
  slots = held ∷ unused ∷ [];
  clock_hand = 0;
  read_hit = 0;
  read_miss = 0;
  write_hit = 0;
  write_miss = 1;
  nops = 1;
}

cache-AreBacked : AreBacked (RamContents.view ram) (held ∷ unused ∷ [])
unfolding AreBacked find is_hit
cache-AreBacked i o = elim (Bool-cases (0 == i && 1 == o)) [
  | inl key ↦ rw key (2 ∷ [], refl, inl refl)
  | inr other ↦ rw other tt
]

cache-IsValid : IsValid Ram.ops RamContents.IsValid RamContents.view cache
unfolding find is_hit
cache-IsValid = record {
  below = omega arith;
  range = record { hand = omega arith; sized = omega arith };
  distinct = (inr refl, (inl refl, tt));
  backed = cache-AreBacked;
}

-- A read of the held block, one of block 0 that ages the first slot and fills the second, and one
-- of block 3 that evicts the held block, with a write to the memory.
abbrev calls : List Call
calls = read 0 1 ∷ read 0 0 ∷ read 0 3 ∷ write 0 2 nine ∷ sync 0 ∷ read 0 1 ∷ read 0 2 ∷ []

abbrev replies : List Reply
replies = got nine ∷ got (1 ∷ []) ∷ got (4 ∷ []) ∷ done ∷ synced ∷ got nine ∷ got nine ∷ []

cache_runs : run (Clock.ops Ram.ops) cache calls ≡ some replies
unfolding run Clock.read Clock.write Clock.sync Clock.write_back is_hit Ram.read Ram.write Ram.sync
cache_runs = refl

clockdisk_run_example : run (Clock.ops Ram.ops) cache calls ≡ some replies
unfolding ideal find is_hit
clockdisk_run_example =
    clockdisk_run Ram.ops RamContents.IsValid RamContents.view RamContents.ops-Implements calls
      cache cache-IsValid
      (
        (nine, refl),
        (
          (1 ∷ [], refl),
          ((4 ∷ [], refl), ((3 ∷ [], refl), (tt, ((nine, refl), ((3 ∷ [], refl), tt))))),
        ),
      )

sync_flushes_example :
    (r : ℤ) × (s' : ClockDisk RamDisk) × (Clock.sync Ram.ops cache 0 ≡ some (r, s'))
    × ((o : ℕ)
        → RamContents.view s'.below 0 o
          ≡ view Ram.ops RamContents.IsValid RamContents.view cache 0 o)
sync_flushes_example =
    sync_flushes Ram.ops RamContents.IsValid RamContents.view RamContents.ops-Implements cache 0
      cache-IsValid

sync_flushes_all_example :
    (r : ℤ) × (s' : ClockDisk RamDisk) × (Clock.sync Ram.ops cache (to_word err) ≡ some (r, s'))
    × (RamContents.view s'.below ≡ view Ram.ops RamContents.IsValid RamContents.view cache)
sync_flushes_all_example =
    sync_flushes_all Ram.ops RamContents.IsValid RamContents.view RamContents.ops-Implements cache
      cache-IsValid

cache_update_example :
    (s' : ClockDisk RamDisk) × (Clock.cache_update Ram.ops cache 0 3 nine true ≡ some s')
    × IsValid Ram.ops RamContents.IsValid RamContents.view s'
    × (view Ram.ops RamContents.IsValid RamContents.view s'
        ≡ put (view Ram.ops RamContents.IsValid RamContents.view cache) 0 3 nine)
unfolding find is_hit
cache_update_example =
    cache_update_lem Ram.ops RamContents.IsValid RamContents.view RamContents.ops-Implements cache 0
      3 nine true cache-IsValid refl (4 ∷ [], refl, inl refl)

-- A store that takes every write and keeps nothing.
abbrev sink : BlockStore (Unit {0})
sink = record {
  getninodes = λ s. some (pos 1, s);
  getsize = λ s ino. some (pos 0, s);
  setsize = λ s ino n. some (err, s);
  read = λ s ino off b. some (err, b, s);
  write = λ s ino off b. some (err, s);
  sync = λ s ino. some (pos 0, s);
}

sink-WritesReturn : WritesReturn sink
sink-WritesReturn t ino off b = (err, t, refl)

abbrev over_sink : ClockDisk (Unit {0})
over_sink = record {
  below = tt;
  slots = held ∷ held ∷ [];
  clock_hand = 1;
  read_hit = 0;
  read_miss = 0;
  write_hit = 0;
  write_miss = 0;
  nops = 0;
}

cache_update_total_example :
    (s' : ClockDisk (Unit {0})) × (Clock.cache_update sink over_sink 0 3 nine true ≡ some s')
cache_update_total_example =
    cache_update_total sink sink-WritesReturn over_sink 0 3 nine true
      (record { hand = omega arith; sized = omega arith })

abbrev nothing : Unit {0} → View
nothing t i o = none

abbrev Always : Unit {0} → Type 0
Always t = Unit {0}

abbrev empty_over_sink : ClockDisk (Unit {0})
empty_over_sink = record over_sink { slots = unused ∷ []; clock_hand = 0 }

empty_over_sink-IsValid : IsValid sink Always nothing empty_over_sink
unfolding AreBacked find is_hit
empty_over_sink-IsValid = record {
  below = tt;
  range = record { hand = omega arith; sized = omega arith };
  distinct = (inl refl, tt);
  backed = λ i o. tt;
}

write_beyond_example :
    (s' : ClockDisk (Unit {0})) × (Clock.write sink empty_over_sink 0 7 nine ≡ some (pos 0, s'))
unfolding find is_hit
write_beyond_example =
    write_beyond sink Always nothing sink-WritesReturn empty_over_sink 0 7 nine
      empty_over_sink-IsValid refl

init_example :
    IsValid Ram.ops RamContents.IsValid RamContents.view (Clock.init ram (nine ∷ nine ∷ []))
    × (view Ram.ops RamContents.IsValid RamContents.view (Clock.init ram (nine ∷ nine ∷ []))
        ≡ RamContents.view ram)
init_example =
    init_lem Ram.ops RamContents.IsValid RamContents.view ram (nine ∷ nine ∷ []) (omega arith)
      (omega arith) (omega arith)

-- The stack over the second of two partitions of the memory.
abbrev stack : Stack.Stack
stack = record {
  below = record {
    below = record {
      below = record {
        below = record { below = ram; ninodes = 2; partsizes = 1 ∷ 3 ∷ [] };
        ino = 1;
      };
      slots = unused ∷ unused ∷ [];
      clock_hand = 0;
      read_hit = 0;
      read_miss = 0;
      write_hit = 0;
      write_miss = 0;
      nops = 0;
    };
    ngetsize = 0;
    nsetsize = 0;
    nread = 0;
    nwrite = 0;
    nsync = 0;
  };
}

stack-IsValid : Stack.IsValid stack
unfolding AreBacked find is_hit
stack-IsValid = record {
  below = record { below = omega arith; sized = refl; few = omega arith; fits = omega arith };
  range = record { hand = omega arith; sized = omega arith };
  distinct = (inl refl, (inl refl, tt));
  backed = λ i o. tt;
}

stack_run_example :
    run Stack.ops stack (write 0 1 nine ∷ read 0 0 ∷ sync 0 ∷ read 0 1 ∷ [])
    ≡ some (done ∷ got (2 ∷ []) ∷ synced ∷ got nine ∷ [])
unfolding ideal find is_hit
stack_run_example =
    stack_run (write 0 1 nine ∷ read 0 0 ∷ sync 0 ∷ read 0 1 ∷ []) stack stack-IsValid
      ((3 ∷ [], refl), ((2 ∷ [], refl), (tt, ((3 ∷ [], refl), tt))))
