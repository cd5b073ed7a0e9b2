-- ===== src/Disk/Tree/Files/Reading.antt =====
-- `treedisk_read` of src/block/treedisk.c reads a file as a sequence of blocks.
use native.Mathlib.Nat.{mod-lt}
use cs4411_p.Prelude.{
  ◌>>=◌, ◌⊎◌, ◌≤◌, ◌≢◌, ◌≡◌, ◌∙◌, ◌==◌, ◌<◌, ◌+◌, ◌*◌, ◌%◌, ≢→==, ℤ, ℕ, zero, sym, suc, some, refl,
  pos, length, inr, inl, get_elem?_of_lt, get_elem?, false, arith, ap, Run,
}
use cs4411_p.Store.{Block, BlockStore}
use cs4411_p.Store.Contract.{View, Implements}
use cs4411_p.Disk.Tree.Layout.{refs_per_block, null_block}
use cs4411_p.Disk.Tree.Access.{Disk, disk}
use cs4411_p.Disk.Tree.Files.{ref_index, read_down}
use cs4411_p.Disk.Tree.Files.Levels.{capacity, capacity_pos, split_offset}

-- The tree from block `b` on holds the blocks `f`, in order; a hole is read as zeros.
abbrev pub Holds : Disk → ℕ → ℕ → (ℕ → Block) → Type 0
Holds w zero b f = ((b ≡ 0) × (f 0 ≡ null_block)) ⊎ ((b ≢ 0) × (w b ≡ some (f 0)))
Holds w (suc level) b f =
    ((b ≡ 0) × ((k : ℕ) → k < capacity (suc level) → f k ≡ null_block))
    ⊎ ((b ≢ 0)
        × ((refs : Block) × (w b ≡ some refs)
            × (length refs ≡ refs_per_block)
            × ((i r : ℕ)
                → get_elem? refs i ≡ some r
                → Holds w level r (λ k. f (i * capacity level + k)))))

module _ {S : Type 0} (bs : BlockStore S) (V : S → Type 0) (v : S → View) (below_ino : ℕ)
    (imp : Implements bs V v) where
  -- What a read of block `b` returns.
  abbrev pub IsRead : S → Block → Run (ℤ × Block × S) → Type 0
  IsRead t b run =
      (t' : S) × (run ≡ some (pos 0, b, t'))
      × V t'
      × (disk bs V v below_ino t' ≡ disk bs V v below_ino t)

  pub read_down_lem :
      (level : ℕ) (t : S) (b offset : ℕ) (block : Block) (f : ℕ → Block)
      → level ≤ 4
      → V t
      → Holds (disk bs V v below_ino t) level b f
      → IsRead t (f (offset % capacity level)) (read_down bs below_ino level t b offset block)
  unfolding read_down
  read_down_lem zero t b offset block f le w (inl (e, hole)) =
      let first : offset % 1 ≡ 0 = omega arith in
      (t, rw (e, first) (ap (λ x. some (pos 0, x, t)) (sym hole)), w, refl)
  read_down_lem zero t b offset block f le w (inr (nz, at)) =
      let (t', called, w', same) = imp.read_some t below_ino b block (f 0) w at in
      let some_block : (b == 0) ≡ false = ≢→== b 0 nz in
      let first : offset % 1 ≡ 0 = omega arith in
      (t', rw (some_block, called, first), w', ap (λ (u : View). u below_ino) same)
  read_down_lem (suc level) t b offset block f le w (inl (e, hole)) =
      let here = hole (offset % capacity (suc level)) (mod-lt offset (capacity_pos (suc level))) in
      (t, rw e (ap (λ x. some (pos 0, x, t)) (sym here)), w, refl)
  read_down_lem (suc level) t b offset block f le w (inr (nz, (refs, at, len, below))) =
      let (t1, called, w1, same) = imp.read_some t below_ino b block refs w at in
      let some_block : (b == 0) ≡ false = ≢→== b 0 nz in
      let i = ref_index offset level in
      let same_disk : disk bs V v below_ino t1 ≡ disk bs V v below_ino t =
        ap (λ (u : View). u below_ino) same in
      let (r, found) = get_elem?_of_lt refs i (rw len (omega arith)) in
      let h : Holds (disk bs V v below_ino t1) level r (λ k. f (i * capacity level + k)) =
        rw same_disk (below i r found) in
      let (t', run, w', same') =
        read_down_lem level t1 r offset refs (λ k. f (i * capacity level + k)) (omega arith) w1 h in
      let digits = split_offset level offset (omega arith) in
      (
        t',
        rw (read_down, some_block, called, ◌>>=◌, found)
            (run ∙ ap (λ o. some (pos 0, f o, t')) digits),
        w',
        same' ∙ same_disk,
      )
