-- ===== src/Disk/Prot/Contents.antt =====
-- src/block/protdisk.c as an array of blocks: that of the server.
use cs4411_p.Prelude.{
  ℕ, ◌+◌, ℤ, pos, err, ◌≡◌, refl, fun_ext, true, not, ◌||◌, none, some, List, [], ◌==◌,
  if◌then◌else◌, All, arith, Bool-cases, inl, inr, ==_refl,
}
use cs4411_p.Store.{Block}
use cs4411_p.Store.Contract.{View, put, Implements}
use cs4411_p.Store.Session.{Call, Exists, run, ideal, run_in_range}
use cs4411_p.Remote
use cs4411_p.Remote.{
  Rpc, BlockReply, block_read, block_write, block_sync, reply_size, block_size, is_short,
}
use cs4411_p.Disk.Prot.{ProtDisk, result_of, read, write, sync, ops}

-- What protdisk.c relies on: the server keeps an array of blocks, answers the reads and writes of
-- blocks that exist with whole replies that are marked as good, and answers a request to sync.
pub record Serves {S : Type 0} (rpc : Rpc S) (V : S → Type 0) (v : S → View) : Type 0 where
  pub serves_read :
      (s : S) (ino off : ℕ) (b : Block)
      → V s
      → v s ino off ≡ some b
      → (n : ℕ) × (t : S) × (rpc s
            (record { kind = block_read; ino = ino; offset_nblock = off; payload = [] })
          ≡ some (
            pos (reply_size + block_size),
            record { is_ok = true; size_nblock = n; payload = b },
            t,
          ))
        × V t
        × (v t ≡ v s)
  pub serves_write :
      (s : S) (ino off : ℕ) (b old : Block)
      → V s
      → v s ino off ≡ some old
      → (n : ℕ) × (p : Block) × (t : S) × (rpc s
            (record { kind = block_write; ino = ino; offset_nblock = off; payload = b })
          ≡ some (pos reply_size, record { is_ok = true; size_nblock = n; payload = p }, t))
        × V t
        × (v t ≡ put (v s) ino off b)
  pub serves_sync :
      (s : S) (ino : ℕ)
      → V s
      → (n : ℤ) × (reply : BlockReply) × (t : S) × (rpc s
            (record { kind = block_sync; ino = ino; offset_nblock = 0; payload = [] })
          ≡ some (n, reply, t))
        × V t
        × (v t ≡ v s)

module _ {S : Type 0} (rpc : Rpc S) (V : S → Type 0) (v : S → View) where
  abbrev pub IsValid : ProtDisk S → Type 0
  IsValid s = V s.below

  -- Inode 0 is the chosen inode of the server, and there is no other.
  abbrev pub view : ProtDisk S → View
  view s ino off = if ino == 0 then v s.below s.ino off else none

  zero_of : (s : ProtDisk S) (ino off : ℕ) {b : Block} → view s ino off ≡ some b → ino ≡ 0
  zero_of s ino off h = ground arith

  below_of :
      (s : ProtDisk S) (ino off : ℕ) {b : Block}
      → view s ino off ≡ some b
      → v s.below s.ino off ≡ some b
  below_of s ino off h = ground arith

  view_below : (s : ProtDisk S) (t : S) → v t ≡ v s.below → view (record s { below = t }) ≡ view s
  view_below s t e = λ k ino off. if ino == 0 then e k s.ino off else none

  view-put :
      (s : ProtDisk S) (t : S) (off : ℕ) (b : Block)
      → v t ≡ put (v s.below) s.ino off b
      → view (record s { below = t }) ≡ put (view s) 0 off b
  view-put s t off b e = fun_ext λ i. fun_ext λ o. rw e (ground (arith, ==_refl s.ino))

  module _ (srv : Serves rpc V v) where
    pub ops-Implements : Implements (ops rpc) IsValid view
    unfolding read write sync Remote.read Remote.write Remote.sync
    ops-Implements = record {
      read_some = λ s ino off buf b w h.
          let (n, t, called, w', same) =
            srv.serves_read s.below s.ino off b w (below_of s ino off h) in
          (record s { below = t }, rw (zero_of s ino off h, called), w', view_below s t same);
      write_some = λ s ino off b old w h.
          let (n, p, t, called, w', same) =
            srv.serves_write s.below s.ino off b old w (below_of s ino off h) in
          (
            record s { below = t },
            rw (zero_of s ino off h, called),
            w',
            rw (zero_of s ino off h) (view-put s t off b same),
          );
      sync_ok = λ s ino w. elim (Bool-cases (ino == 0)) [
        | inl e ↦
            let (n, reply, t, called, w', same) = srv.serves_sync s.below s.ino w in
            (
              result_of (not (is_short n reply_size || not reply.is_ok)),
              record s { below = t },
              rw (e, called),
              w',
              view_below s t same,
            )
        | inr e ↦ (err, s, rw e, w, refl)
      ];
    }

  -- Over a server that keeps an array of blocks and answers for those that exist, inode 0 of a valid
  -- disk answers calls for blocks that exist as the array of the chosen inode of the server.
  pub protdisk_run :
      Serves rpc V v
      → (calls : List Call) (s : ProtDisk S) → IsValid s
      → All (Exists (view s)) calls
      → run (ops rpc) s calls ≡ some (ideal (view s) calls)
  protdisk_run srv calls s w h =
      run_in_range (ops rpc) IsValid view (ops-Implements srv) calls s w h
