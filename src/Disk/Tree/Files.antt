-- ===== src/Disk/Tree/Files.antt =====
-- The trees of src/block/treedisk.c: walking, growing and freeing one.
pub mod Levels
pub mod Reading
pub mod Freeing
use cs4411_p.Prelude.{
  ℕ, zero, suc, ◌+◌, ◌-◌, ◌*◌, ◌%◌, word_mod, ℤ, pos, is_neg, Bool, true, false, none, some, List,
  [], ◌∷◌, ◌==◌, ltb, if◌then◌else◌, get_elem?, set, Run, ◌>>=◌,
}
use cs4411_p.Store.{Block, BlockStore}
use cs4411_p.Disk.Tree.Layout.{
  refs_per_block, null_block, log_rpb, log_shift_r, Snapshot, root, set_root, fetch, put_block,
}
use cs4411_p.Disk.Tree.FreeList.{alloc_block, free_block}

-- The loops that count the levels of a tree whose last offset is `last`, with fuel. A word has 32
-- bits, so that the fifth test ends the loop.
unfoldable pub count_levels : ℕ → ℕ → ℕ → Run ℕ
count_levels zero last n = none
count_levels (suc fuel) last n = elim (log_shift_r last (n * log_rpb) == 0) [
  | true ↦ some n
  | false ↦ count_levels fuel last (n + 1)
]

-- `nlevels`, for a file of `size` blocks.
unfoldable pub nlevels : ℕ → Run ℕ
unfolding count_levels
nlevels size = if size == 0 then some 0 else count_levels 5 (size - 1) 0

-- The place in an indirect block of the level above `level`.
abbrev pub ref_index : ℕ → ℕ → ℕ
ref_index offset level = log_shift_r offset (level * log_rpb) % refs_per_block

-- The loop of `treedisk_free_file` for its level, with fuel: `max_capacity` wraps around.
unfoldable pub free_level : ℕ → ℕ → ℕ → ℕ → Run ℕ
free_level zero max_capacity size level = none
free_level (suc fuel) max_capacity size level = elim (ltb max_capacity size) [
  | true ↦ free_level fuel (max_capacity * refs_per_block % word_mod) size (level + 1)
  | false ↦ some level
]

module _ {S : Type 0} (bs : BlockStore S) (below_ino : ℕ) where
  -- The loop of `treedisk_read`, down from block `b` at `level`.
  unfoldable pub read_down : ℕ → S → ℕ → ℕ → Block → Run (ℤ × Block × S)
  read_down zero t b offset block = if b == 0 then some (pos 0, null_block, t) else do
    (r, block', t') ← bs.read t below_ino b block
    if is_neg r then some (r, block', t') else some (pos 0, block', t')
  read_down (suc level) t b offset block = elim (b == 0) [
    | true ↦ some (pos 0, null_block, t)
    | false ↦ do
      (r, block', t') ← bs.read t below_ino b block
      elim (is_neg r) [
        | true ↦ some (r, block', t')
        | false ↦ do
          b' ← get_elem? block' (ref_index offset level)
          read_down level t' b' offset block'
      ]
  ]

  -- The loop of `treedisk_write` that puts `count` new levels on top of the tree.
  unfoldable pub grow : ℕ → S → Snapshot → Run (Snapshot × S)
  unfolding put_block
  grow zero t sn = some (sn, t)
  grow (suc count) t sn = do
    (indir, superblock, t1) ← alloc_block bs below_ino t sn.superblock
    top ← root sn
    t2 ← put_block bs below_ino t1 indir (set null_block 0 top)
    grow count t2 (record (set_root sn indir) { superblock = superblock })

  -- The block at place `i` of the parent, allocated if it is not there; the flag tells if it was.
  unfoldable pub get_child : S → Block → Block → ℕ → ℕ → Run (Bool × ℕ × Block × S)
  unfolding put_block
  get_child t superblock parent i parent_off = do
    b ← get_elem? parent i
    elim (b == 0) [
      | true ↦ do
        (n, superblock', t1) ← alloc_block bs below_ino t superblock
        t2 ← put_block bs below_ino t1 parent_off (set parent i n)
        some (false, n, superblock', t2)
      | false ↦ some (true, b, superblock, t)
    ]

  -- The loop of `treedisk_write` that walks down to the data block, from place `i` of the parent.
  unfoldable pub write_down : ℕ → S → Block → Block → ℕ → ℕ → ℕ → Run (ℕ × S)
  unfolding get_child fetch
  write_down zero t superblock parent i parent_off offset = do
    (old, b, superblock', t') ← get_child t superblock parent i parent_off
    some (b, t')
  write_down (suc level) t superblock parent i parent_off offset = do
    (old, b, superblock', t1) ← get_child t superblock parent i parent_off
    (tib, t2) ← if old then fetch bs below_ino t1 b else some (null_block, t1)
    write_down level t2 superblock' tib (ref_index offset level) b offset

  -- The loop of `recursive_free_file` over the references of an indirect block.
  unfoldable pub free_refs :
      (S → Block → ℕ → Run (Block × S)) → List ℕ → S → Block → Run (Block × S)
  free_refs free_tree [] t superblock = some (superblock, t)
  free_refs free_tree (b ∷ refs) t superblock = do
    (superblock', t') ← if b == 0 then some (superblock, t) else free_tree t superblock b
    free_refs free_tree refs t' superblock'

  -- `recursive_free_file`, for a tree with `level` levels below its top.
  unfoldable pub free_tree : ℕ → S → Block → ℕ → Run (Block × S)
  unfolding free_refs fetch
  free_tree zero t superblock b = free_block bs below_ino t superblock b
  free_tree (suc level) t superblock b = do
    (refs, t1) ← fetch bs below_ino t b
    (superblock', t2) ← free_refs (free_tree level) refs t1 superblock
    free_block bs below_ino t2 superblock' b
