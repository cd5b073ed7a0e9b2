-- ===== src/Disk/Tree/Writing/Reread.antt =====
-- Reading in src/block/treedisk.c after a write: the trees with places hold the same files.
use cs4411_p.Prelude.{
  ◌≤◌, pos, ◌/◌, ◌≡◌, ◌∙◌, ◌<◌, ◌+◌, ◌*◌, ℕ, zero, sym, suc, some, lt_of_get_elem?, inr, inl, arith,
  ap,
}
use native.Mathlib.Nat.{mod-eq_of_lt, div-eq_of_lt, mul-add-div_right, div-lt_iff_lt-mul, pow-suc}
use cs4411_p.Store.{Block, BlockStore}
use cs4411_p.Store.Contract.{View, Implements}
use cs4411_p.Disk.Tree.Layout.{refs_per_block}
use cs4411_p.Disk.Tree.Access.{Disk, disk}
use cs4411_p.Disk.Tree.Files.{read_down}
use cs4411_p.Disk.Tree.Files.Levels.{capacity, capacity_pos}
use cs4411_p.Disk.Tree.Files.Reading.{Holds, read_down_lem}
use cs4411_p.Disk.Tree.Writing.Positions.{Positions, IsWithin, IsPlaced}

within_div :
    (level index k : ℕ) → k < capacity level → (index * capacity level + k) / capacity level ≡ index
within_div level index k lt =
    let none_more : k / capacity level ≡ 0 = div-eq_of_lt lt in
    mul-add-div_right (capacity_pos level) index k ∙ omega (arith, none_more)

digits_bound :
    (level i k : ℕ)
    → i < refs_per_block
    → k < capacity level
    → i * capacity level + k < capacity (suc level)
digits_bound level i k lt lt' =
    let digit : (i * capacity level + k) / capacity level < 256 =
      omega (arith, within_div level i k lt') in
    let bound = (div-lt_iff_lt-mul (capacity_pos level)).0 digit in
    omega (arith, bound, pow-suc 256 level)

digits_sum : (c index i k : ℕ) → index * (c * 256) + (i * c + k) ≡ (index * 256 + i) * c + k
digits_sum c index i k = grind arith

digits_shift :
    (level index i k : ℕ)
    → index * capacity (suc level) + (i * capacity level + k)
      ≡ (index * refs_per_block + i) * capacity level + k
digits_shift level index i k =
    ap (λ z. index * z + (i * capacity level + k)) (pow-suc 256 level)
    ∙ digits_sum (capacity level) index i k

-- An offset below a place.
IsWithin-offset :
    (level index k : ℕ) → k < capacity level → IsWithin 0 (index * capacity level + k) level index
IsWithin-offset level index k lt = (level, omega arith, within_div level index k lt)

pub IsPlaced-Holds :
    (w : Disk) (g : Positions) (ino level index b : ℕ) (file : ℕ → Block)
    → IsPlaced w g ino level index b file
    → (f : ℕ → Block) → ((k : ℕ) → k < capacity level → f k ≡ file (index * capacity level + k))
    → Holds w level b f
IsPlaced-Holds w g ino zero index b file (inl (e, hole)) f same =
    inl (e, same 0 (omega arith) ∙ ap file (omega arith) ∙ hole)
IsPlaced-Holds w g ino zero index b file (inr (nz, at_g, at)) f same =
    inr (nz, at ∙ ap some (sym (same 0 (omega arith) ∙ ap file (omega arith))))
IsPlaced-Holds w g ino (suc level) index b file (inl (e, holes)) f same = inl (
  e,
  λ k lt.
      same k lt ∙ holes (index * capacity (suc level) + k) (IsWithin-offset (suc level) index k lt),
)
IsPlaced-Holds w g ino (suc level) index b file (inr (nz, at_g, (refs, at, len, below))) f same =
    inr (
      nz,
      (
        refs,
        at,
        len,
        λ i r h.
            let lt_i : i < refs_per_block = omega (arith, lt_of_get_elem? refs i h) in
            IsPlaced-Holds w g ino level (index * refs_per_block + i) r file (below i r h)
              (λ k. f (i * capacity level + k))
              (λ k lt.
                same (i * capacity level + k) (digits_bound level i k lt_i lt)
                ∙ ap file (digits_shift level index i k)),
      ),
    )

module _ {S : Type 0} (bs : BlockStore S) (V : S → Type 0) (v : S → View) (below_ino : ℕ)
    (imp : Implements bs V v) where
  -- In a tree of places the walk of `treedisk_read` returns the block of the file at an offset.
  pub read_placed :
      (ino level : ℕ) (t : S) (g : Positions) (top offset : ℕ) (block : Block) (file : ℕ → Block)
      → level ≤ 4
      → V t
      → offset < capacity level
      → IsPlaced (disk bs V v below_ino t) g ino level 0 top file
      → (t' : S) × (read_down bs below_ino level t top offset block ≡ some (pos 0, file offset, t'))
        × V t'
        × (disk bs V v below_ino t' ≡ disk bs V v below_ino t)
  read_placed ino level t g top offset block file le w fits placed =
      let h =
        IsPlaced-Holds (disk bs V v below_ino t) g ino level 0 top file placed file
          (λ k lt. ap file (omega arith)) in
      let (t', run, w', same) =
        read_down_lem bs V v below_ino imp level t top offset block file le w h in
      (t', run ∙ ap (λ o. some (pos 0, file o, t')) (mod-eq_of_lt fits), w', same)
