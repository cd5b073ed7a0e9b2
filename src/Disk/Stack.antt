-- ===== src/Disk/Stack.antt =====
-- Modules of src/block on top of one another: a cache with a counting and a printing layer above it,
-- over one partition of a disk in memory.
use cs4411_p.Prelude.{◌≡◌, some, List, All}
use cs4411_p.Store.{BlockStore}
use cs4411_p.Store.Contract.{View, Implements}
use cs4411_p.Store.Session.{Call, Exists, run, ideal, run_in_range}
use cs4411_p.Disk.Ram
use cs4411_p.Disk.Ram.Contents as RamContents
use cs4411_p.Disk.Part
use cs4411_p.Disk.Part.Contents as PartContents
use cs4411_p.Disk.Map
use cs4411_p.Disk.Map.Contents as MapContents
use cs4411_p.Disk.Clock
use cs4411_p.Disk.Clock.Contents as ClockContents
use cs4411_p.Disk.Clock.Refinement as ClockRefinement
use cs4411_p.Disk.Stat
use cs4411_p.Disk.Stat.Contents as StatContents
use cs4411_p.Disk.Debug
use cs4411_p.Disk.Debug.Contents as DebugContents

abbrev pub Disk : Type 0
Disk = Part.PartDisk Ram.RamDisk

abbrev pub Mapped : Type 0
Mapped = Map.MapDisk Disk

abbrev pub Cached : Type 0
Cached = Clock.ClockDisk Mapped

abbrev pub Stack : Type 0
Stack = Debug.DebugDisk (Stat.StatDisk Cached)

abbrev disk_ops : BlockStore Disk
disk_ops = Part.ops Ram.ops

abbrev mapped_ops : BlockStore Mapped
mapped_ops = Map.ops disk_ops

abbrev cached_ops : BlockStore Cached
cached_ops = Clock.ops mapped_ops

abbrev pub ops : BlockStore Stack
ops = Debug.ops (Stat.ops cached_ops)

abbrev DiskIsValid : Disk → Type 0
DiskIsValid = PartContents.IsValid Ram.ops RamContents.IsValid RamContents.view

abbrev disk_view : Disk → View
disk_view = PartContents.view Ram.ops RamContents.IsValid RamContents.view

abbrev MappedIsValid : Mapped → Type 0
MappedIsValid = MapContents.IsValid disk_ops DiskIsValid disk_view

abbrev mapped_view : Mapped → View
mapped_view = MapContents.view disk_ops DiskIsValid disk_view

abbrev CachedIsValid : Cached → Type 0
CachedIsValid = ClockContents.IsValid mapped_ops MappedIsValid mapped_view

abbrev cached_view : Cached → View
cached_view = ClockContents.view mapped_ops MappedIsValid mapped_view

abbrev pub IsValid : Stack → Type 0
IsValid s = CachedIsValid s.below.below

abbrev pub view : Stack → View
view s = cached_view s.below.below

cached-Implements : Implements cached_ops CachedIsValid cached_view
cached-Implements = ClockRefinement.ops-Implements mapped_ops MappedIsValid mapped_view (
    MapContents.ops-Implements disk_ops DiskIsValid disk_view (
      PartContents.ops-Implements Ram.ops RamContents.IsValid RamContents.view
        RamContents.ops-Implements))

stack-Implements : Implements ops IsValid view
stack-Implements =
    DebugContents.ops-Implements (Stat.ops cached_ops)
      (StatContents.IsValid cached_ops CachedIsValid cached_view)
      (StatContents.view cached_ops CachedIsValid cached_view)
      (StatContents.ops-Implements cached_ops CachedIsValid cached_view cached-Implements)

-- The stack of a debugging, a counting, a caching, a mapping and a partitioning layer over memory
-- answers calls for blocks that exist, in a valid state, as one array of blocks.
pub stack_run :
    (calls : List Call) (s : Stack)
    → IsValid s
    → All (Exists (view s)) calls
    → run ops s calls ≡ some (ideal (view s) calls)
stack_run calls s w h = run_in_range ops IsValid view stack-Implements calls s w h
