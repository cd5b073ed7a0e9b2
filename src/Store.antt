-- ===== src/Store.antt =====
-- The block store interface of src/h/egos/block_store.h.
pub mod Contract
pub mod Session
use cs4411_p.Prelude.{ℕ, ℤ, List, Run}

-- `block_t`: the contents of a block, as its 32-bit words.
abbrev pub Block : Type 0
Block = List ℕ

-- `block_store_t`: the seven methods but `release`, over a state `S`. A method returns its result
-- and the state that it leaves. `read` is given the caller's buffer and returns what it then holds.
pub record BlockStore (S : Type 0) : Type 0 where
  pub getninodes : S → Run (ℤ × S)
  pub getsize : S → ℕ → Run (ℤ × S)
  pub setsize : S → ℕ → ℕ → Run (ℤ × S)
  pub read : S → ℕ → ℕ → Block → Run (ℤ × Block × S)
  pub write : S → ℕ → ℕ → Block → Run (ℤ × S)
  pub sync : S → ℕ → Run (ℤ × S)
