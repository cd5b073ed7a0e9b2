-- ===== src/Disk/Debug.antt =====
-- src/block/debugdisk.c: forwards each call. What it prints is not modelled.
pub mod Contents
use cs4411_p.Prelude.{ℕ, ℤ, some, Run, ◌>>=◌}
use cs4411_p.Store.{Block, BlockStore}

-- `struct debugdisk_state`, without the text that is printed.
pub record DebugDisk (S : Type 0) : Type 0 where
  pub below : S

module _ {S : Type 0} (bs : BlockStore S) where
  unfoldable pub getninodes : DebugDisk S → Run (ℤ × DebugDisk S)
  getninodes s = do (r, t) ← bs.getninodes s.below; some (r, record { below = t })

  unfoldable pub getsize : DebugDisk S → ℕ → Run (ℤ × DebugDisk S)
  getsize s ino = do (r, t) ← bs.getsize s.below ino; some (r, record { below = t })

  unfoldable pub setsize : DebugDisk S → ℕ → ℕ → Run (ℤ × DebugDisk S)
  setsize s ino nblocks = do (r, t) ← bs.setsize s.below ino nblocks; some (r, record { below = t })

  unfoldable pub read : DebugDisk S → ℕ → ℕ → Block → Run (ℤ × Block × DebugDisk S)
  read s ino offset block = do
    (r, b, t) ← bs.read s.below ino offset block
    some (r, b, record { below = t })

  unfoldable pub write : DebugDisk S → ℕ → ℕ → Block → Run (ℤ × DebugDisk S)
  write s ino offset block = do
    (r, t) ← bs.write s.below ino offset block
    some (r, record { below = t })

  unfoldable pub sync : DebugDisk S → ℕ → Run (ℤ × DebugDisk S)
  sync s ino = do (r, t) ← bs.sync s.below ino; some (r, record { below = t })

  abbrev pub ops : BlockStore (DebugDisk S)
  ops = record {
    getninodes = getninodes;
    getsize = getsize;
    setsize = setsize;
    read = read;
    write = write;
    sync = sync;
  }

unfoldable pub init : {S : Type 0} → S → DebugDisk S
init below = record { below = below }
