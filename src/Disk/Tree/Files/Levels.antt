-- ===== src/Disk/Tree/Files/Levels.antt =====
-- How many levels a tree of src/block/treedisk.c has.
use native.Mathlib.Nat.{pow-suc, div-lt_iff_lt-mul, le-div_iff_mul-le}
use cs4411_p.Prelude.{
  ◌∙◌, sym, some-injective, ◌-◌, ≢→==, true, ltb→lt, ltb→le, ltb, false, ap, ==→≡, ◌==◌, inr, inl,
  Bool-cases, ◌≤◌, ◌≡◌, ◌^◌, ◌<◌, ◌/◌, ◌+◌, ◌*◌, ◌%◌, ℕ, zero, word_mod, suc, some, refl, arith,
}
use cs4411_p.Disk.Tree.Layout.{refs_per_block, log_rpb, log_shift_r}
use cs4411_p.Disk.Tree.Files.{count_levels, nlevels, ref_index}

-- How many blocks a tree with so many levels holds.
abbrev pub capacity : ℕ → ℕ
capacity level = refs_per_block ^ level

pub capacity_pos : (level : ℕ) → 0 < capacity level
capacity_pos zero = omega arith
capacity_pos (suc level) = omega (arith, pow-suc 256 level, capacity_pos level)

pub log_shift_r-capacity :
    (last level : ℕ)
    → last < word_mod
    → level ≤ 4
    → log_shift_r last (level * log_rpb) ≡ last / capacity level
unfolding log_shift_r
log_shift_r-capacity last zero small le = refl
log_shift_r-capacity last (suc zero) small le = refl
log_shift_r-capacity last (suc (suc zero)) small le = refl
log_shift_r-capacity last (suc (suc (suc zero))) small le = refl
log_shift_r-capacity last (suc (suc (suc (suc zero)))) small le = omega arith
log_shift_r-capacity last (suc (suc (suc (suc (suc n))))) small le = absurd (omega arith)

-- The digits of an offset.
pub split_offset :
    (level offset : ℕ)
    → level < 4
    → ref_index offset level * capacity level + offset % capacity level
      ≡ offset % capacity (suc level)
unfolding log_shift_r
split_offset zero offset lt = omega arith
split_offset (suc zero) offset lt = omega arith
split_offset (suc (suc zero)) offset lt = omega arith
split_offset (suc (suc (suc zero))) offset lt = omega arith
split_offset (suc (suc (suc (suc n)))) offset lt = absurd (omega arith)

fits_lem : (last level : ℕ) → (last / capacity level == 0) ≡ true → last < capacity level
fits_lem last level e =
    let few : last / capacity level < 1 = omega (arith, ==→≡ (last / capacity level) 0 e) in
    let lt = (div-lt_iff_lt-mul (capacity_pos level)).0 few in omega (arith, lt)

exceeds_lem : (last level : ℕ) → (last / capacity level == 0) ≡ false → capacity level ≤ last
exceeds_lem last level e =
    let many : 1 ≤ last / capacity level = ground arith in
    let le = (le-div_iff_mul-le (capacity_pos level)).0 many in omega (arith, le)

-- `count_levels` finds the least number of levels, from `n` on, whose capacity `last` is below.
abbrev pub IsLeast : ℕ → ℕ → ℕ → Type 0
IsLeast last n level =
    (n ≤ level)
    × (level ≤ 4)
    × (last < capacity level)
    × ((k : ℕ) → n ≤ k → k < level → capacity k ≤ last)

pub count_levels_lem :
    (fuel last n : ℕ)
    → last < word_mod
    → fuel + n ≡ 5
    → n ≤ 4
    → (level : ℕ) × (count_levels fuel last n ≡ some level) × IsLeast last n level
unfolding count_levels
count_levels_lem zero last n small e le = absurd (omega arith)
count_levels_lem (suc fuel) last n small e le =
    let shift = log_shift_r-capacity last n small le in
    elim (Bool-cases (log_shift_r last (n * log_rpb) == 0)) [
      | inl done ↦ (
        n,
        rw (count_levels, done),
        (omega arith, le, fits_lem last n (rw shift at done), λ k lo hi. absurd (omega arith)),
      )
      | inr more ↦
          let large : capacity n ≤ last = exceeds_lem last n (rw shift at more) in
          let room : n < 4 = room_lem large in
          let (level, run, (lo, hi, fits, least)) =
            count_levels_lem fuel last (n + 1) small (omega arith) (omega arith) in
          (level, rw (count_levels, more) run, (omega arith, hi, fits, from_here large least))
    ]
  where
    room_lem : capacity n ≤ last → n < 4
    room_lem large = elim (Bool-cases (ltb n 4)) [
      | inl lt ↦ ltb→lt n 4 lt
      | inr ge ↦
          let top : n ≡ 4 = omega (arith, ltb→le n 4 ge) in absurd (omega (arith, ap capacity top))
    ]

    from_here :
        {level : ℕ}
        → capacity n ≤ last
        → ((k : ℕ) → n + 1 ≤ k → k < level → capacity k ≤ last)
        → (k : ℕ) → n ≤ k
        → k < level
        → capacity k ≤ last
    from_here large least k lo hi = elim (Bool-cases (k == n)) [
      | inl e ↦ rw (==→≡ k n e) large
      | inr ne ↦ least k (ground arith) hi
    ]

-- For a file that is not empty and whose size is a word, `nlevels` ends, and returns the least
-- number of levels whose capacity is not below the size; 4 levels are enough.
pub nlevels_lem :
    (size : ℕ)
    → 0 < size
    → size < word_mod
    → (level : ℕ) × (nlevels size ≡ some level)
      × (level ≤ 4)
      × (size ≤ capacity level)
      × ((k : ℕ) → k < level → capacity k < size)
unfolding nlevels
nlevels_lem size nonempty small =
    let (level, run, (lo, hi, fits, least)) =
      count_levels_lem 5 (size - 1) 0 (omega arith) refl (omega arith) in
    let full : (size == 0) ≡ false = ≢→== size 0 (λ e. omega arith) in
    (level, rw full run, hi, omega arith, λ k lt. omega (arith, least k (omega arith) lt))

-- Any number of levels that `nlevels` returns is large enough.
pub nlevels_bound :
    (size level : ℕ)
    → nlevels size ≡ some level
    → size < word_mod
    → (level ≤ 4) × (size ≤ capacity level) × ((k : ℕ) → k < level → capacity k < size)
unfolding nlevels
nlevels_bound size level run small = elim (Bool-cases (size == 0)) [
  | inl e ↦
      let none_there : size ≡ 0 = ==→≡ size 0 e in
      let no_levels : level ≡ 0 = sym (some-injective 0 level (rw e at run)) in
      (omega arith, omega arith, λ k lt. absurd (omega arith))
  | inr ne ↦
      let (level', run', le, fits, least) = nlevels_lem size (ground arith) small in
      let same : level' ≡ level = some-injective level' level (sym run' ∙ run) in
      rw (sym same) (le, fits, least)
]
