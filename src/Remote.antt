-- ===== src/Remote.antt =====
-- src/lib/block.c: the calls of a block server, by messages. `rpc` stands for `sys_rpc`, the kernel's
-- round trip of a request and a reply, together with the server; `S` is the server's state.
use cs4411_p.Prelude.{
  ℕ, ◌+◌, ℤ, pos, negsuc, Bool, true, false, not, ltb, Option, none, some, [], if◌then◌else◌, ◌||◌,
  ◌&&◌, Run, ◌>>=◌,
}
use cs4411_p.Store.{Block}

-- The types of requests.
pub data RequestType : Type 0 where
  block_unused block_read block_write block_getsize block_setsize block_sync : RequestType
  block_getninodes : RequestType

-- `struct block_request`, with the block that follows it in a request to write.
pub record BlockRequest : Type 0 where
  pub kind : RequestType
  pub ino : ℕ
  pub offset_nblock : ℕ
  pub payload : Block

-- `struct block_reply`, with the block that follows it in a reply to a read.
pub record BlockReply : Type 0 where
  pub is_ok : Bool
  pub size_nblock : ℕ
  pub payload : Block

-- `sys_rpc` returns the number of bytes of the reply, or a negative number.
abbrev pub Rpc : Type 0 → Type 0
Rpc S = S → BlockRequest → Run (ℤ × BlockReply × S)

-- `sizeof(struct block_reply)` and `BLOCK_SIZE`
abbrev pub reply_size : ℕ
reply_size = 8

abbrev pub block_size : ℕ
block_size = 1024

-- `result < (int) size`
abbrev pub is_short : ℤ → ℕ → Bool
is_short (pos n) size = ltb n size
is_short (negsuc n) size = true

module _ {S : Type 0} (rpc : Rpc S) where
  unfoldable pub read : S → ℕ → ℕ → Block → Run (Bool × Block × S)
  read s ino offset addr = do
    (n, reply, t) ←
        rpc s (record { kind = block_read; ino = ino; offset_nblock = offset; payload = [] })
    if is_short n (reply_size + block_size) || not reply.is_ok
        then some (false, addr, t)
        else some (true, reply.payload, t)

  unfoldable pub write : S → ℕ → ℕ → Block → Run (Bool × S)
  write s ino offset addr = do
    (n, reply, t) ←
        rpc s (record { kind = block_write; ino = ino; offset_nblock = offset; payload = addr })
    some (not (is_short n reply_size || not reply.is_ok), t)

  unfoldable pub sync : S → ℕ → Run (Bool × S)
  sync s ino = do
    (n, reply, t) ← rpc s (record { kind = block_sync; ino = ino; offset_nblock = 0; payload = [] })
    some (not (is_short n reply_size || not reply.is_ok), t)

  -- With the size that is stored for the caller, if it is.
  unfoldable pub getsize : S → ℕ → Run (Bool × Option ℕ × S)
  getsize s ino = do
    (n, reply, t) ←
        rpc s (record { kind = block_getsize; ino = ino; offset_nblock = 0; payload = [] })
    if is_short n reply_size
        then some (false, none, t)
        else some (reply.is_ok, some reply.size_nblock, t)

  unfoldable pub setsize : S → ℕ → ℕ → Run (Bool × S)
  setsize s ino size = do
    (n, reply, t) ←
        rpc s (record { kind = block_setsize; ino = ino; offset_nblock = size; payload = [] })
    some (not (is_short n reply_size) && reply.is_ok, t)

  -- With the number that is stored for the caller, if it is.
  unfoldable pub getninodes : S → Run (Bool × Option ℕ × S)
  getninodes s = do
    (n, reply, t) ←
        rpc s (record { kind = block_getninodes; ino = 0; offset_nblock = 0; payload = [] })
    if is_short n reply_size
        then some (false, none, t)
        else some (reply.is_ok, some reply.size_nblock, t)
