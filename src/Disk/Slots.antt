-- ===== src/Disk/Slots.antt =====
-- The slots of a block cache: the arrays `blocks` and `block_infos` of src/block/clockdisk.c and
-- src/block/wtclockdisk.c, element by element.
pub mod Finding
pub mod Replacing
pub mod Overlay
use cs4411_p.Prelude.{
  ℕ, ◌+◌, Bool, true, false, ◌&&◌, Option, none, some, List, [], ◌∷◌, ◌==◌, leb, if◌then◌else◌,
}
use cs4411_p.Store.{Block}

-- `enum block_status`
pub data Status : Type 0 where
  empty old new : Status

-- An element of `blocks` and of `block_infos`. `dirty` is a Boolean in clockdisk.c; wtclockdisk.c
-- has no such field, which the type with one element stands for.
pub record Slot (D : Type 0) : Type 0 where
  pub status : Status
  pub dirty : D
  pub ino : ℕ
  pub offset : ℕ
  pub block : Block

-- `status != EMPTY`
abbrev pub is_used : Status → Bool
is_used empty = false
is_used old = true
is_used new = true

-- `status == NEW`
abbrev pub is_new : Status → Bool
is_new empty = false
is_new old = false
is_new new = true

module _ {D : Type 0} where
  -- The test of the search loops.
  unfoldable pub is_hit : Slot D → ℕ → ℕ → Bool
  is_hit x ino offset = is_used x.status && (x.ino == ino && x.offset == offset)

  -- The search loops: the first slot from `i` on that holds the block, with its index.
  unfoldable pub find_hit : List (Slot D) → ℕ → ℕ → ℕ → Option (ℕ × Slot D)
  find_hit [] ino offset i = none
  find_hit (x ∷ slots) ino offset i =
      if is_hit x ino offset then some (i, x) else find_hit slots ino offset (i + 1)

  -- The loop of `setsize`, which empties the slots beyond the new end.
  unfoldable pub drop_beyond : List (Slot D) → ℕ → ℕ → List (Slot D)
  drop_beyond [] ino nblocks = []
  drop_beyond (x ∷ slots) ino nblocks =
      (if is_used x.status && (x.ino == ino && leb nblocks x.offset)
        then record x { status = empty }
        else x)
      ∷ drop_beyond slots ino nblocks
