-- ===== src/Disk/Tree/Create/Filling.antt =====
-- What `setup_freelist` of src/block/treedisk.c puts in a free list block.
use cs4411_p.Prelude.{
  replicate, sym, ltb→lt, ltb→le, ap, ◌≤◌, ◌≢◌, ◌≡◌, ◌<◌, ◌+◌, ℕ, zero, suc, refl, ltb, length, leb,
  inr, inl, if◌then◌else◌, arith, Bool-cases,
}
use cs4411_p.Disk.Tree.Create.{fill_refs, next_after}
use cs4411_p.Disk.Tree.FreeList.Counting.{is_at, count, count-replicate}

-- 1 for the numbers from `lo` on and below `hi`.
abbrev pub inside : ℕ → ℕ → ℕ → ℕ
inside lo hi x = if leb lo x then (if ltb x hi then 1 else 0) else 0

pub inside_in : (lo hi x : ℕ) → lo ≤ x → x < hi → inside lo hi x ≡ 1
inside_in lo hi x h h' = ground arith

pub inside_below : (lo hi x : ℕ) → x < lo → inside lo hi x ≡ 0
inside_below lo hi x h = ground arith

pub inside_above : (lo hi x : ℕ) → hi ≤ x → inside lo hi x ≡ 0
inside_above lo hi x h = ground arith

pub inside_none : (lo x : ℕ) → inside lo lo x ≡ 0
inside_none lo x = ground arith

pub inside_bounds : (lo hi x : ℕ) → 0 < inside lo hi x → (lo ≤ x) × (x < hi)
inside_bounds lo hi x h = ground arith

pub inside_once : (lo hi x : ℕ) → inside lo hi x ≤ 1
inside_once lo hi x = ground arith

pub inside_first : (lo hi x : ℕ) → lo < hi → is_at lo x + inside (lo + 1) hi x ≡ inside lo hi x
inside_first lo hi x h = ground arith

pub inside_join :
    (lo mid hi x : ℕ) → lo ≤ mid → mid ≤ hi → inside lo mid x + inside mid hi x ≡ inside lo hi x
inside_join lo mid hi x h h' = ground arith

length-replicate : (n : ℕ) → length {A = ℕ} (replicate n 0) ≡ n
length-replicate zero = refl
length-replicate (suc n) = ap suc (length-replicate n)

pub length-fill_refs : (n next nblocks : ℕ) → length (fill_refs n next nblocks) ≡ n
unfolding fill_refs
length-fill_refs zero next nblocks = refl
length-fill_refs (suc n) next nblocks = elim (Bool-cases (ltb next nblocks)) [
  | inl e ↦ rw (e, length-fill_refs n (next + 1) nblocks)
  | inr e ↦ rw (e) (ap suc (length-replicate n))
]

pub next_after_cases :
    (n next nblocks : ℕ)
    → next ≤ nblocks
    → (next ≤ next_after n next nblocks) × (next_after n next nblocks ≤ nblocks)
unfolding next_after
next_after_cases n next nblocks h = ground arith

next_after_step :
    (n next nblocks : ℕ) → next_after n (next + 1) nblocks ≡ next_after (suc n) next nblocks
unfolding next_after
next_after_step n next nblocks = ground arith

next_after_zero : (next nblocks : ℕ) → next ≤ nblocks → next_after 0 next nblocks ≡ next
unfolding next_after
next_after_zero next nblocks h = ground arith

next_after_end :
    (n next nblocks : ℕ) → nblocks ≤ next → next ≤ nblocks → next_after n next nblocks ≡ next
unfolding next_after
next_after_end n next nblocks h h' = ground arith

pub count-fill_refs :
    (x n next nblocks : ℕ)
    → x ≢ 0
    → next ≤ nblocks
    → count x (fill_refs n next nblocks) ≡ inside next (next_after n next nblocks) x
unfolding fill_refs
count-fill_refs x zero next nblocks nz h =
    rw (next_after_zero next nblocks h) (sym (inside_none next x))
count-fill_refs x (suc n) next nblocks nz h = elim (Bool-cases (ltb next nblocks)) [
  | inl e ↦
      let lt = ltb→lt next nblocks e in
      let (lo, hi) = next_after_cases n (next + 1) nblocks (omega arith) in
      let rest = count-fill_refs x n (next + 1) nblocks nz (omega arith) in
      rw (e, rest, sym (next_after_step n next nblocks)) (inside_first next _ x (omega arith))
  | inr e ↦
      let end = next_after_end (suc n) next nblocks (ltb→le next nblocks e) h in
      rw (e, count-replicate x (suc n) nz, end) (sym (inside_none next x))
]
