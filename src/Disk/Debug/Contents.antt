-- ===== src/Disk/Debug/Contents.antt =====
-- src/block/debugdisk.c as an array of blocks: the one below.
use cs4411_p.Store.{BlockStore}
use cs4411_p.Store.Contract.{View, Implements}
use cs4411_p.Disk.Debug.{DebugDisk, read, write, sync, ops}

module _ {S : Type 0} (bs : BlockStore S) (V : S → Type 0) (v : S → View) where
  abbrev pub IsValid : DebugDisk S → Type 0
  IsValid s = V s.below

  abbrev pub view : DebugDisk S → View
  view s = v s.below

  pub ops-Implements : Implements bs V v → Implements (ops bs) IsValid view
  unfolding read write sync
  ops-Implements imp = record {
    read_some = λ s ino off buf b w h.
        let (t, called, w', same) = imp.read_some s.below ino off buf b w h in
        (record { below = t }, rw called, w', same);
    write_some = λ s ino off b old w h.
        let (t, called, w', same) = imp.write_some s.below ino off b old w h in
        (record { below = t }, rw called, w', same);
    sync_ok = λ s ino w.
        let (r, t, called, w', same) = imp.sync_ok s.below ino w in
        (r, record { below = t }, rw called, w', same);
  }
