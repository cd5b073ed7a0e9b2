-- ===== src/Disk/Ram.antt =====
-- src/block/ramdisk.c: a block store in memory.
pub mod Contents
use cs4411_p.Prelude.{
  ℕ, ℤ, pos, err, to_int, not, some, List, ◌==◌, ltb, if◌then◌else◌, get_elem?, set, Run, ◌>>=◌,
}
use cs4411_p.Store.{Block, BlockStore}

-- `struct ramdisk_state`
pub record RamDisk : Type 0 where
  pub blocks : List Block
  pub nblocks : ℕ

unfoldable pub getninodes : RamDisk → Run (ℤ × RamDisk)
getninodes s = some (pos 1, s)

unfoldable pub getsize : RamDisk → ℕ → Run (ℤ × RamDisk)
getsize s ino = if not (ino == 0) then some (err, s) else some (to_int s.nblocks, s)

unfoldable pub setsize : RamDisk → ℕ → ℕ → Run (ℤ × RamDisk)
setsize s ino nblocks = some (to_int s.nblocks, record s { nblocks = nblocks })

unfoldable pub read : RamDisk → ℕ → ℕ → Block → Run (ℤ × Block × RamDisk)
read s ino offset block =
    if not (ino == 0)
    then some (err, block, s)
    else if not (ltb offset s.nblocks)
    then some (err, block, s)
    else do b ← get_elem? s.blocks offset; some (pos 0, b, s)

unfoldable pub write : RamDisk → ℕ → ℕ → Block → Run (ℤ × RamDisk)
write s ino offset block =
    if not (ino == 0)
    then some (err, s)
    else if not (ltb offset s.nblocks)
    then some (err, s)
    else do
      _ ← get_elem? s.blocks offset
      some (pos 0, record s { blocks = set s.blocks offset block })

unfoldable pub sync : RamDisk → ℕ → Run (ℤ × RamDisk)
sync s ino = some (pos 0, s)

unfoldable pub init : List Block → ℕ → RamDisk
init blocks nblocks = record { blocks = blocks; nblocks = nblocks }

abbrev pub ops : BlockStore RamDisk
ops = record {
  getninodes = getninodes;
  getsize = getsize;
  setsize = setsize;
  read = read;
  write = write;
  sync = sync;
}
