-- ===== src/Disk/Clock/Init.antt =====
-- `clockdisk_init` of src/block/clockdisk.c.
use cs4411_p.Prelude.{
  ℕ, ◌<◌, word_mod, ◌≡◌, refl, fun_ext, Bool, false, none, List, [], ◌∷◌, map, length, length-map,
  inl,
}
use cs4411_p.Store.{Block, BlockStore}
use cs4411_p.Store.Contract.{View}
use cs4411_p.Disk.Slots.{empty, Slot, is_hit}
use cs4411_p.Disk.Slots.Finding.{find, AreDistinct}
use cs4411_p.Disk.Clock.Contents.{AreBacked, IsValid, view}
use cs4411_p.Disk.Clock.{init}

empty_slot : Block → Slot Bool
empty_slot b = record { status = empty; dirty = false; ino = 0; offset = 0; block = b }

find-empty : (blocks : List Block) (i o : ℕ) → find (map empty_slot blocks) i o ≡ none
unfolding find is_hit empty_slot
find-empty [] i o = refl
find-empty (b ∷ blocks) i o = find-empty blocks i o

distinct-empty : (blocks : List Block) → AreDistinct (map empty_slot blocks)
unfolding empty_slot
distinct-empty [] = tt
distinct-empty (b ∷ blocks) = (inl refl, distinct-empty blocks)

module _ {S : Type 0} (bs : BlockStore S) (V : S → Type 0) (v : S → View) where
  -- A new cache with at least one slot, and fewer than 2^32, over a valid store is valid, and shows
  -- the store below.
  pub init_lem :
      (t : S) (blocks : List Block)
      → V t
      → 0 < length blocks
      → length blocks < word_mod
      → IsValid bs V v (init t blocks) × (view bs V v (init t blocks) ≡ v t)
  unfolding init AreBacked empty_slot
  init_lem t blocks w some_slot few = (
    record {
      below = w;
      range = record {
        hand = rw (length-map empty_slot blocks) some_slot;
        sized = rw (length-map empty_slot blocks) few;
      };
      distinct = distinct-empty blocks;
      backed = λ i o. rw (find-empty blocks i o) tt;
    },
    fun_ext λ i. fun_ext λ o. rw (find-empty blocks i o),
  )
