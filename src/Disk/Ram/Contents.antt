-- ===== src/Disk/Ram/Contents.antt =====
-- src/block/ramdisk.c as an array of blocks.
use cs4411_p.Prelude.{
  ℕ, ◌<◌, ◌≤◌, pos, ◌≡◌, ◌≢◌, refl, ap, fun_ext, ◌&&◌, none, some, List, ◌==◌, ltb, if◌then◌else◌,
  get_elem?, set, length, length-set, get_elem?-set_self, get_elem?-set_ne, get_elem?_of_lt,
  get_elem?_of_le, to_int_small, to_int, int_limit, arith, Bool-cases, inl, inr, lt→ltb, ==→≡,
}
use cs4411_p.Store.{Block}
use cs4411_p.Store.Contract.{View, put, Implements, Rejects}
use cs4411_p.Store.Session.{Call, run, ideal, run_refines}
use cs4411_p.Disk.Ram.{RamDisk, setsize, read, write, sync, ops}

-- The memory holds at least `nblocks` blocks.
abbrev pub IsValid : RamDisk → Type 0
IsValid s = s.nblocks ≤ length s.blocks

abbrev pub view : RamDisk → View
view s ino off = if ino == 0 && ltb off s.nblocks then get_elem? s.blocks off else none

view-set :
    (s : RamDisk) (off : ℕ) (b : Block)
    → IsValid s
    → off < s.nblocks
    → view (record s { blocks = set s.blocks off b }) ≡ put (view s) 0 off b
view-set s off b v h = fun_ext λ i. fun_ext λ o. elim (Bool-cases (o == off)) [
  | inl e ↦
      let same : o ≡ off = ==→≡ o off e in
      rw same (ground (arith, get_elem?-set_self s.blocks off b))
  | inr e ↦
      let other : off ≢ o = ground arith in
      ground (arith, get_elem?-set_ne s.blocks {i = off} {j = o} b other)
]

pub ops-Implements : Implements ops IsValid view
unfolding read write sync
ops-Implements = record {
  read_some = λ s ino off buf b v h. (s, ground arith, v, refl);
  write_some = λ s ino off b old v h. (
    record s { blocks = set s.blocks off b },
    ground (arith, get_elem?_of_lt s.blocks off),
    omega (arith, length-set s.blocks off b),
    rw (zero_of s ino off h) (view-set s off b v (ground arith)),
  );
  sync_ok = λ s ino v. (pos 0, s, refl, v, refl);
}
  where
    zero_of : (s : RamDisk) (ino off : ℕ) {b : Block} → view s ino off ≡ some b → ino ≡ 0
    zero_of s ino off h = ground arith

pub ops-Rejects : Rejects ops IsValid view
unfolding read write
ops-Rejects = record {
  read_none = λ s ino off buf v h. (buf, s, ground (arith, get_elem?_of_lt s.blocks off), v, refl);
  write_none = λ s ino off b v h. (s, ground (arith, get_elem?_of_lt s.blocks off), v, refl);
}

-- A valid memory answers any calls as an array of `nblocks` blocks does, whose reads and writes
-- beyond its end return -1.
pub ramdisk_run :
    (calls : List Call) (s : RamDisk) → IsValid s → run ops s calls ≡ some (ideal (view s) calls)
ramdisk_run calls s w = run_refines ops IsValid view ops-Implements ops-Rejects calls s w

-- A `setsize` that does not grow a valid disk of fewer than 2^31 blocks keeps it valid, returns the
-- old size, and shows the blocks in front of the new end as they were and none behind it.
pub setsize_lem :
    (s : RamDisk) (ino nblocks : ℕ)
    → IsValid s
    → s.nblocks < int_limit
    → nblocks ≤ s.nblocks
    → (s' : RamDisk) × (setsize s ino nblocks ≡ some (pos s.nblocks, s'))
      × IsValid s'
      × (view s' ≡ λ i o. if ltb o nblocks then view s i o else none)
unfolding setsize
setsize_lem s ino nblocks w small le = (
  record s { nblocks = nblocks },
  ap (λ r. some (r, record s { nblocks = nblocks })) (to_int_small s.nblocks small),
  omega arith,
  fun_ext λ i. fun_ext λ o. ground arith,
)

-- A `setsize` to more blocks than the memory has is not refused: a read of a block behind the
-- memory and in front of the new end goes beyond the array.
pub read-setsize_beyond :
    (s : RamDisk) (ino nblocks off : ℕ) (buf : Block)
    → length s.blocks ≤ off
    → off < nblocks
    → (s' : RamDisk) × (setsize s ino nblocks ≡ some (to_int s.nblocks, s'))
      × (read s' 0 off buf ≡ none)
unfolding setsize read
read-setsize_beyond s ino nblocks off buf beyond lt = (
  record s { nblocks = nblocks },
  refl,
  rw (lt→ltb off nblocks lt, get_elem?_of_le s.blocks off beyond),
)
