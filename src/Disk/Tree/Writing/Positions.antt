-- ===== src/Disk/Tree/Writing/Positions.antt =====
-- The places of blocks in the trees of src/block/treedisk.c.
use cs4411_p.Prelude.{
  ◌⊎◌, ◌≤◌, ◌≢◌, ◌≡◌, ◌∙◌, ◌<◌, ◌/◌, ◌+◌, ◌*◌, ℕ, zero, sym, suc, some, lt_of_get_elem?, length,
  inr, inl, get_elem?, arith, ap, Option,
}
use native.Mathlib.Nat.{pow-suc, div-div-eq-div-mul}
use cs4411_p.Store.{Block}
use cs4411_p.Disk.Tree.Layout.{refs_per_block, null_block}
use cs4411_p.Disk.Tree.Access.{Disk}
use cs4411_p.Disk.Tree.Files.Levels.{capacity}

-- The file, the level and the number in the level.
abbrev pub Position : Type 0
Position = ℕ × ℕ × ℕ

-- Which block is where; `none` for the blocks that are in no tree.
abbrev pub Positions : Type 0
Positions = ℕ → Option Position

-- Place `ix` at level `lv` is in the tree below place `index` at `level`.
abbrev pub IsWithin : ℕ → ℕ → ℕ → ℕ → Type 0
IsWithin lv ix level index = (d : ℕ) × (lv + d ≡ level) × (ix / capacity d ≡ index)

pub IsWithin-self : (level index : ℕ) → IsWithin level index level index
IsWithin-self level index = (0, omega arith, omega arith)

pub IsWithin-parent :
    (lv ix level index i : ℕ)
    → i < refs_per_block
    → IsWithin lv ix level (index * refs_per_block + i)
    → IsWithin lv ix (suc level) index
IsWithin-parent lv ix level index i lt (d, e, q) =
    let split : ix / capacity (suc d) ≡ ix / capacity d / 256 =
      ap (λ n. ix / n) (pow-suc 256 d) ∙ sym (div-div-eq-div-mul ix (capacity d) 256) in
    let outer : (index * 256 + i) / 256 ≡ index = omega arith in
    (suc d, omega arith, split ∙ ap (λ n. n / 256) q ∙ outer)

pub IsWithin-same : (lv ix level a b : ℕ) → IsWithin lv ix level a → IsWithin lv ix level b → a ≡ b
IsWithin-same lv ix level a b (d, e, q) (d', e', q') =
    let same : d ≡ d' = omega arith in sym q ∙ ap (λ n. ix / capacity n) same ∙ q'

pub IsWithin-level : (lv ix level index : ℕ) → IsWithin lv ix level index → lv ≤ level
IsWithin-level lv ix level index (d, e, q) = omega arith

-- The tree of file `ino` from block `b` at place `index` of `level` holds the blocks of `file`.
abbrev pub IsPlaced : Disk → Positions → ℕ → ℕ → ℕ → ℕ → (ℕ → Block) → Type 0
IsPlaced w g ino zero index b file =
    ((b ≡ 0) × (file index ≡ null_block))
    ⊎ ((b ≢ 0) × (g b ≡ some (ino, 0, index)) × (w b ≡ some (file index)))
IsPlaced w g ino (suc level) index b file =
    ((b ≡ 0) × ((k : ℕ) → IsWithin 0 k (suc level) index → file k ≡ null_block))
    ⊎ ((b ≢ 0)
        × (g b ≡ some (ino, suc level, index))
        × ((refs : Block) × (w b ≡ some refs)
            × (length refs ≡ refs_per_block)
            × ((i r : ℕ)
                → get_elem? refs i ≡ some r
                → IsPlaced w g ino level (index * refs_per_block + i) r file)))

-- A tree depends on its own blocks only, and on its part of the file.
pub IsPlaced-agree :
    (w w' : Disk) (g g' : Positions) (ino level index b : ℕ) (file file' : ℕ → Block)
    → ((x lv ix : ℕ)
        → g x ≡ some (ino, lv, ix)
        → IsWithin lv ix level index
        → (w' x ≡ w x) × (g' x ≡ g x))
    → ((k : ℕ) → IsWithin 0 k level index → file' k ≡ file k)
    → IsPlaced w g ino level index b file
    → IsPlaced w' g' ino level index b file'
IsPlaced-agree w w' g g' ino zero index b file file' agree same (inl (e, hole)) =
    inl (e, same index (IsWithin-self 0 index) ∙ hole)
IsPlaced-agree w w' g g' ino zero index b file file' agree same (inr (nz, at_g, at_w)) =
    let (kept, kept') = agree b 0 index at_g (IsWithin-self 0 index) in
    inr (nz, kept' ∙ at_g, kept ∙ at_w ∙ ap some (sym (same index (IsWithin-self 0 index))))
IsPlaced-agree w w' g g' ino (suc level) index b file file' agree same (inl (e, holes)) =
    inl (e, λ k h. same k h ∙ holes k h)
IsPlaced-agree w w' g g' ino (suc level) index b file file' agree same
      (inr (nz, at_g, (refs, at_w, len, below))) =
    let (kept, kept') = agree b (suc level) index at_g (IsWithin-self (suc level) index) in
    inr (
      nz,
      kept' ∙ at_g,
      (
        refs,
        kept ∙ at_w,
        len,
        λ i r h.
            let lt : i < refs_per_block = omega (arith, lt_of_get_elem? refs i h) in
            IsPlaced-agree w w' g g' ino level (index * refs_per_block + i) r file file'
              (λ x lv ix at h'. agree x lv ix at (IsWithin-parent lv ix level index i lt h'))
              (λ k h'. same k (IsWithin-parent 0 k level index i lt h')) (below i r h),
      ),
    )
