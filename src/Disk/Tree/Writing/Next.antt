-- ===== src/Disk/Tree/Writing/Next.antt =====
-- Where the walk of `treedisk_write` in src/block/treedisk.c goes on, one level down.
use cs4411_p.Prelude.{
  ◌≤◌, ◌≢◌, ◌≡◌, ◌∙◌, ◌<◌, ◌/◌, ◌+◌, ◌*◌, ℕ, zero, word_mod, sym, suc, some-injective, some, refl,
  inl, get_elem?, arith, ap, List,
}
use native.Mathlib.Nat.{pow-suc, div-div-eq-div-mul}
use cs4411_p.Store.{Block, BlockStore}
use cs4411_p.Store.Contract.{View, Implements}
use cs4411_p.Disk.Tree.Layout.{refs_per_block, null_block}
use cs4411_p.Disk.Tree.Access.{Disk, disk}
use cs4411_p.Disk.Tree.Files.{ref_index}
use cs4411_p.Disk.Tree.Files.Levels.{capacity, log_shift_r-capacity}
use cs4411_p.Disk.Tree.FreeList.Chain.{Node}
use cs4411_p.Disk.Tree.Writing.Positions.{
  Position, Positions, IsWithin, IsPlaced, IsWithin-self, IsWithin-level,
}
use cs4411_p.Disk.Tree.Writing.System.{IsSystem}
use cs4411_p.Disk.Tree.Writing.Down.{IsStart}

-- The place of the offset one level down.
pub IsWithin-child :
    (offset level index : ℕ)
    → level ≤ 4
    → offset < word_mod
    → IsWithin 0 offset (suc level) index
    → IsWithin 0 offset level (index * refs_per_block + ref_index offset level)
IsWithin-child offset level index le small (d, e, q) =
    let same : d ≡ suc level = omega arith in
    let shift = log_shift_r-capacity offset level small le in
    let split : offset / capacity (suc level) ≡ offset / capacity level / 256 =
      ap (λ n. offset / n) (pow-suc 256 level)
      ∙ sym (div-div-eq-div-mul offset (capacity level) 256) in
    let above : offset / capacity level / 256 ≡ index =
      sym split ∙ ap (λ n. offset / capacity n) (sym same) ∙ q in
    (level, omega arith, rw shift (omega (arith, above)))

-- A hole at the level below is a hole.
pub hole-IsPlaced :
    (w : Disk) (g : Positions) (ino level index : ℕ) (file : ℕ → Block)
    → ((k : ℕ) → IsWithin 0 k level index → file k ≡ null_block)
    → IsPlaced w g ino level index 0 file
hole-IsPlaced w g ino zero index file holes = inl (refl, holes index (IsWithin-self 0 index))
hole-IsPlaced w g ino (suc level) index file holes = inl (refl, holes)

module _ {S : Type 0} (bs : BlockStore S) (V : S → Type 0) (v : S → View) (below_ino : ℕ)
    (imp : Implements bs V v) where
  -- The walk continues at the block `b` with the references `refs`.
  pub next-IsStart :
      (ino level index j r : ℕ) (file : ℕ → Block) (t : S) (sb : Block) (nodes : List Node)
      (g : Positions) (b : ℕ) (refs : Block)
      → IsSystem bs V v below_ino imp t sb nodes g
      → g b ≡ some (ino, suc level, index)
      → get_elem? refs j ≡ some r
      → (x : Block) × (disk bs V v below_ino t b ≡ some x)
      → (r ≢ 0 → disk bs V v below_ino t b ≡ some refs)
      → IsPlaced (disk bs V v below_ino t) g ino level (index * refs_per_block + j) r file
      → IsStart bs V v below_ino imp ino level
          (index * refs_per_block + j)
          file
          t
          sb
          nodes
          g
          refs
          j
          b
          r
  next-IsStart ino level index j r file t sb nodes g b refs s at_b at_j there on_disk placed =
      let p : Position = (ino, suc level, index) in
      let (nz, used) = s.apart b p at_b in
      record {
        system = s;
        at_i = at_j;
        nonzero = nz;
        used = used;
        outside = λ q h in_q.
            let e = some-injective p q (sym at_b ∙ h) in
            let le = IsWithin-level q.1 q.2 level (index * refs_per_block + j) in_q.1 in
            absurd (omega (arith, ap (λ (z : Position). z.1) e, le));
        exists_parent = there;
        on_disk = on_disk;
        placed = placed;
      }
