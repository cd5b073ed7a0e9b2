-- ===== src/Disk/Map.antt =====
-- src/block/mapdisk.c: one inode of the store below, as a store of its own.
pub mod Contents
use cs4411_p.Prelude.{ℕ, ℤ, pos, err, not, some, ◌==◌, if◌then◌else◌, Run, ◌>>=◌}
use cs4411_p.Store.{Block, BlockStore}

-- `struct mapdisk_state`
pub record MapDisk (S : Type 0) : Type 0 where
  pub below : S
  pub ino : ℕ

module _ {S : Type 0} (bs : BlockStore S) where
  unfoldable pub getninodes : MapDisk S → Run (ℤ × MapDisk S)
  getninodes s = some (pos 1, s)

  unfoldable pub getsize : MapDisk S → ℕ → Run (ℤ × MapDisk S)
  getsize s ino =
      if not (ino == 0)
      then some (err, s)
      else do (r, t) ← bs.getsize s.below s.ino; some (r, record s { below = t })

  unfoldable pub setsize : MapDisk S → ℕ → ℕ → Run (ℤ × MapDisk S)
  setsize s ino nblocks =
      if not (ino == 0)
      then some (err, s)
      else do (r, t) ← bs.setsize s.below s.ino nblocks; some (r, record s { below = t })

  unfoldable pub read : MapDisk S → ℕ → ℕ → Block → Run (ℤ × Block × MapDisk S)
  read s ino offset block =
      if not (ino == 0)
      then some (err, block, s)
      else do (r, b, t) ← bs.read s.below s.ino offset block; some (r, b, record s { below = t })

  unfoldable pub write : MapDisk S → ℕ → ℕ → Block → Run (ℤ × MapDisk S)
  write s ino offset block =
      if not (ino == 0)
      then some (err, s)
      else do (r, t) ← bs.write s.below s.ino offset block; some (r, record s { below = t })

  unfoldable pub sync : MapDisk S → ℕ → Run (ℤ × MapDisk S)
  sync s ino =
      if not (ino == 0)
      then some (err, s)
      else do (r, t) ← bs.sync s.below s.ino; some (r, record s { below = t })

  abbrev pub ops : BlockStore (MapDisk S)
  ops = record {
    getninodes = getninodes;
    getsize = getsize;
    setsize = setsize;
    read = read;
    write = write;
    sync = sync;
  }

unfoldable pub init : {S : Type 0} → S → ℕ → MapDisk S
init below ino = record { below = below; ino = ino }
