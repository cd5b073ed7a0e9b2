-- ===== src/Disk/Tree/Files/Freeing.antt =====
-- The levels of a file that `treedisk_free_file` of src/block/treedisk.c frees.
use cs4411_p.Prelude.{
  ◌≤◌, ◌≡◌, ◌∙◌, ◌^◌, ◌<◌, ◌+◌, ◌*◌, ◌%◌, ℕ, zero, word_mod, sym, suc, some, refl, none, lt→ltb,
  le→ltb, arith,
}
use cs4411_p.Disk.Tree.Layout.{refs_per_block}
use cs4411_p.Disk.Tree.Files.{nlevels, free_level}
use cs4411_p.Disk.Tree.Files.Levels.{capacity, nlevels_lem}

free_level_more :
    (fuel max_capacity size level : ℕ)
    → max_capacity < size
    → free_level (suc fuel) max_capacity size level
      ≡ free_level fuel (max_capacity * refs_per_block % word_mod) size (level + 1)
unfolding free_level
free_level_more fuel max_capacity size level h = rw (free_level, lt→ltb max_capacity size h)

free_level_done :
    (fuel max_capacity size level : ℕ)
    → size ≤ max_capacity
    → free_level (suc fuel) max_capacity size level ≡ some level
unfolding free_level
free_level_done fuel max_capacity size level h = rw (free_level, le→ltb max_capacity size h)

-- For a file of 2 to 2^24 blocks `free_level` returns the number of levels that `nlevels` returns.
pub free_level-nlevels :
    (size : ℕ) → 1 < size → size ≤ 2 ^ 24 → free_level 4 refs_per_block size 1 ≡ nlevels size
free_level-nlevels size lo hi =
    let (level, run, le, fits, least) = nlevels_lem size (omega arith) (omega arith) in
    by_level level run fits least
  where
    by_level :
        (level : ℕ)
        → nlevels size ≡ some level
        → size ≤ capacity level
        → ((k : ℕ) → k < level → capacity k < size)
        → free_level 4 refs_per_block size 1 ≡ nlevels size
    by_level zero run fits least = absurd (omega arith)
    by_level (suc zero) run fits least = free_level_done 3 256 size 1 fits ∙ sym run
    by_level (suc (suc zero)) run fits least =
        free_level_more 3 256 size 1 (least 1 (omega arith))
        ∙ free_level_done 2 65536 size 2 fits
        ∙ sym run
    by_level (suc (suc (suc zero))) run fits least =
        free_level_more 3 256 size 1 (omega (arith, least 2 (omega arith)))
        ∙ free_level_more 2 65536 size 2 (least 2 (omega arith))
        ∙ free_level_done 1 16777216 size 3 fits
        ∙ sym run
    by_level (suc (suc (suc (suc n)))) run fits least =
        absurd (omega (arith, least 3 (omega arith)))

free_level_zero : (fuel size level : ℕ) → 0 < size → free_level fuel 0 size level ≡ none
unfolding free_level
free_level_zero zero size level h = refl
free_level_zero (suc fuel) size level h =
    free_level_more fuel 0 size level h ∙ free_level_zero fuel size (level + 1) h

-- For a file of more than 2^24 blocks the loop of `free_level` does not end, whatever the fuel.
pub free_level_large :
    (fuel size : ℕ) → 2 ^ 24 < size → free_level fuel refs_per_block size 1 ≡ none
unfolding free_level
free_level_large zero size h = refl
free_level_large (suc zero) size h = free_level_more 0 256 size 1 (omega arith)
free_level_large (suc (suc zero)) size h =
    free_level_more 1 256 size 1 (omega arith) ∙ free_level_more 0 65536 size 2 (omega arith)
free_level_large (suc (suc (suc fuel))) size h =
    free_level_more (suc (suc fuel)) 256 size 1 (omega arith)
    ∙ free_level_more (suc fuel) 65536 size 2 (omega arith)
    ∙ free_level_more fuel 16777216 size 3 (omega arith)
    ∙ free_level_zero fuel size 4 (omega arith)
