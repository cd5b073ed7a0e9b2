-- ===== src/Store/Contract.antt =====
-- What a client of a block store relies on: the store is an array of blocks for each inode.
use cs4411_p.Prelude.{ℕ, ℤ, pos, err, ◌≡◌, ◌&&◌, Option, none, some, ◌==◌, if◌then◌else◌}
use cs4411_p.Store.{Block, BlockStore}

-- The contents of a store: the block at an inode and an offset, or `none` beyond its end.
abbrev pub View : Type 0
View = ℕ → ℕ → Option Block

-- One block replaced.
abbrev pub put : View → ℕ → ℕ → Block → View
put v ino off b i o = if i == ino && o == off then some b else v i o

-- At blocks that exist, `read` returns the block and `write` replaces it; both return 0. `read` and `sync` leave the contents as they are.
pub record Implements {S : Type 0} (bs : BlockStore S) (IsValid : S → Type 0) (view : S → View)
    : Type 0 where
  pub read_some :
      (s : S) (ino off : ℕ) (buf b : Block)
      → IsValid s
      → view s ino off ≡ some b
      → (s' : S) × (bs.read s ino off buf ≡ some (pos 0, b, s')) × IsValid s' × (view s' ≡ view s)
  pub write_some :
      (s : S) (ino off : ℕ) (b old : Block)
      → IsValid s
      → view s ino off ≡ some old
      → (s' : S) × (bs.write s ino off b ≡ some (pos 0, s'))
        × IsValid s'
        × (view s' ≡ put (view s) ino off b)
  pub sync_ok :
      (s : S) (ino : ℕ)
      → IsValid s
      → (r : ℤ) × (s' : S) × (bs.sync s ino ≡ some (r, s')) × IsValid s' × (view s' ≡ view s)

-- Beyond the end both methods return -1 and change nothing.
pub record Rejects {S : Type 0} (bs : BlockStore S) (IsValid : S → Type 0) (view : S → View)
    : Type 0 where
  pub read_none :
      (s : S) (ino off : ℕ) (buf : Block)
      → IsValid s
      → view s ino off ≡ none
      → (buf' : Block) × (s' : S) × (bs.read s ino off buf ≡ some (err, buf', s'))
        × IsValid s'
        × (view s' ≡ view s)
  pub write_none :
      (s : S) (ino off : ℕ) (b : Block)
      → IsValid s
      → view s ino off ≡ none
      → (s' : S) × (bs.write s ino off b ≡ some (err, s')) × IsValid s' × (view s' ≡ view s)
