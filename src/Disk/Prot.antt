-- ===== src/Disk/Prot.antt =====
-- src/block/protdisk.c: an inode of a block server, as a store of its own.
pub mod Contents
mod Tests
use cs4411_p.Prelude.{
  ℕ, ℤ, pos, err, to_int, Bool, true, false, not, Option, none, some, ◌==◌, if◌then◌else◌, Run,
  ◌>>=◌,
}
use cs4411_p.Store.{Block, BlockStore}
use cs4411_p.Remote
use cs4411_p.Remote.{Rpc}

-- `struct protdisk_state`: `below` is the server, by its state.
pub record ProtDisk (S : Type 0) : Type 0 where
  pub below : S
  pub ino : ℕ

-- `r ? 0 : -1`
abbrev pub result_of : Bool → ℤ
result_of r = if r then pos 0 else err

module _ {S : Type 0} (rpc : Rpc S) where
  -- The assertion that the server has answered.
  unfoldable pub getninodes : ProtDisk S → Run (ℤ × ProtDisk S)
  unfolding Remote.getninodes
  getninodes s = do
    (r, n, t) ← Remote.getninodes rpc s.below
    ninodes ← n
    if r then some (to_int ninodes, record s { below = t }) else none

  unfoldable pub getsize : ProtDisk S → ℕ → Run (ℤ × ProtDisk S)
  unfolding Remote.getsize
  getsize s ino = if not (ino == 0) then some (err, s) else do
    (r, n, t) ← Remote.getsize rpc s.below s.ino
    nblocks ← n
    if r then some (to_int nblocks, record s { below = t }) else none

  -- `assert(0)`
  unfoldable pub setsize : ProtDisk S → ℕ → ℕ → Run (ℤ × ProtDisk S)
  setsize s ino nblocks = none

  unfoldable pub read : ProtDisk S → ℕ → ℕ → Block → Run (ℤ × Block × ProtDisk S)
  unfolding Remote.read
  read s ino offset block = if not (ino == 0) then some (err, block, s) else do
    (r, b, t) ← Remote.read rpc s.below s.ino offset block
    some (result_of r, b, record s { below = t })

  unfoldable pub write : ProtDisk S → ℕ → ℕ → Block → Run (ℤ × ProtDisk S)
  unfolding Remote.write
  write s ino offset block = if not (ino == 0) then some (err, s) else do
    (r, t) ← Remote.write rpc s.below s.ino offset block
    some (result_of r, record s { below = t })

  unfoldable pub sync : ProtDisk S → ℕ → Run (ℤ × ProtDisk S)
  unfolding Remote.sync
  sync s ino =
      if not (ino == 0)
      then some (err, s)
      else do (r, t) ← Remote.sync rpc s.below s.ino; some (result_of r, record s { below = t })

  abbrev pub ops : BlockStore (ProtDisk S)
  ops = record {
    getninodes = getninodes;
    getsize = getsize;
    setsize = setsize;
    read = read;
    write = write;
    sync = sync;
  }

unfoldable pub init : {S : Type 0} → S → ℕ → ProtDisk S
init below ino = record { below = below; ino = ino }
