-- ===== src/Disk/Prot/Tests.antt =====
-- Runs of src/block/protdisk.c at concrete inputs.
use cs4411_p.Prelude.{◌+◌, pos, is_neg, not, ◌≡◌, refl, some, none, List, [], ◌∷◌, arith, ◌>>=◌}
use cs4411_p.Store.Session.{Call, read, write, sync, Reply, got, done, synced, run, ideal}
use cs4411_p.Remote.{Rpc, block_read, block_write, block_sync, reply_size, block_size}
use cs4411_p.Disk.Ram
use cs4411_p.Disk.Ram.{RamDisk}
use cs4411_p.Disk.Ram.Contents as RamContents
use cs4411_p.Disk.Prot
use cs4411_p.Disk.Prot.{ProtDisk}
use cs4411_p.Disk.Prot.Contents.{Serves, protdisk_run}

-- A server of a disk in memory. It answers the requests other than those below with no reply.
abbrev ram_server : Rpc RamDisk
ram_server s req = elim req.kind [
  | block_read ↦ do
    (r, b, t) ← Ram.read s req.ino req.offset_nblock []
    some (
      pos (reply_size + block_size),
      record { is_ok = not (is_neg r); size_nblock = 0; payload = b },
      t,
    )
  | block_write ↦ do
    (r, t) ← Ram.write s req.ino req.offset_nblock req.payload
    some (pos reply_size, record { is_ok = not (is_neg r); size_nblock = 0; payload = [] }, t)
  | block_sync ↦ do
    (r, t) ← Ram.sync s req.ino
    some (pos reply_size, record { is_ok = not (is_neg r); size_nblock = 0; payload = [] }, t)
  | _ ↦ none
]

ram_server-Serves : Serves ram_server RamContents.IsValid RamContents.view
ram_server-Serves = record {
  serves_read = λ s ino off b w h.
      let (t, called, w', same) = RamContents.ops-Implements.read_some s ino off [] b w h in
      (0, t, rw called, w', same);
  serves_write = λ s ino off b old w h.
      let (t, called, w', same) = RamContents.ops-Implements.write_some s ino off b old w h in
      (0, [], t, rw called, w', same);
  serves_sync = λ s ino w.
      let (r, t, called, w', same) = RamContents.ops-Implements.sync_ok s ino w in
      (
        pos reply_size,
        record { is_ok = not (is_neg r); size_nblock = 0; payload = [] },
        t,
        rw called,
        w',
        same,
      );
}

abbrev remote : ProtDisk RamDisk
remote = record { below = record { blocks = (1 ∷ []) ∷ (2 ∷ []) ∷ []; nblocks = 2 }; ino = 0 }

abbrev calls : List Call
calls = read 0 1 ∷ write 0 1 (9 ∷ []) ∷ sync 0 ∷ read 0 1 ∷ read 0 0 ∷ []

abbrev replies : List Reply
replies = got (2 ∷ []) ∷ done ∷ synced ∷ got (9 ∷ []) ∷ got (1 ∷ []) ∷ []

protdisk_run_example : run (Prot.ops ram_server) remote calls ≡ some replies
unfolding ideal
protdisk_run_example =
    protdisk_run ram_server RamContents.IsValid RamContents.view ram_server-Serves calls remote
      (omega arith) ((2 ∷ [], refl), ((2 ∷ [], refl), (tt, ((2 ∷ [], refl), ((1 ∷ [], refl), tt)))))
