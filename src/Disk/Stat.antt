-- ===== src/Disk/Stat.antt =====
-- src/block/statdisk.c: forwards each call and counts it. The counters are read by the printing code only.
pub mod Contents
use cs4411_p.Prelude.{ℕ, ℤ, add_word, some, Run, ◌>>=◌}
use cs4411_p.Store.{Block, BlockStore}

-- `struct statdisk_state`
pub record StatDisk (S : Type 0) : Type 0 where
  pub below : S
  pub ngetsize : ℕ
  pub nsetsize : ℕ
  pub nread : ℕ
  pub nwrite : ℕ
  pub nsync : ℕ

module _ {S : Type 0} (bs : BlockStore S) where
  unfoldable pub getninodes : StatDisk S → Run (ℤ × StatDisk S)
  getninodes s = do (r, t) ← bs.getninodes s.below; some (r, record s { below = t })

  unfoldable pub getsize : StatDisk S → ℕ → Run (ℤ × StatDisk S)
  getsize s ino = do
    (r, t) ← bs.getsize s.below ino
    some (r, record s { below = t; ngetsize = add_word s.ngetsize 1 })

  unfoldable pub setsize : StatDisk S → ℕ → ℕ → Run (ℤ × StatDisk S)
  setsize s ino nblocks = do
    (r, t) ← bs.setsize s.below ino nblocks
    some (r, record s { below = t; nsetsize = add_word s.nsetsize 1 })

  unfoldable pub read : StatDisk S → ℕ → ℕ → Block → Run (ℤ × Block × StatDisk S)
  read s ino offset block = do
    (r, b, t) ← bs.read s.below ino offset block
    some (r, b, record s { below = t; nread = add_word s.nread 1 })

  unfoldable pub write : StatDisk S → ℕ → ℕ → Block → Run (ℤ × StatDisk S)
  write s ino offset block = do
    (r, t) ← bs.write s.below ino offset block
    some (r, record s { below = t; nwrite = add_word s.nwrite 1 })

  unfoldable pub sync : StatDisk S → ℕ → Run (ℤ × StatDisk S)
  sync s ino = do
    (r, t) ← bs.sync s.below ino
    some (r, record s { below = t; nsync = add_word s.nsync 1 })

  abbrev pub ops : BlockStore (StatDisk S)
  ops = record {
    getninodes = getninodes;
    getsize = getsize;
    setsize = setsize;
    read = read;
    write = write;
    sync = sync;
  }

unfoldable pub init : {S : Type 0} → S → StatDisk S
init below = record { below = below; ngetsize = 0; nsetsize = 0; nread = 0; nwrite = 0; nsync = 0 }
