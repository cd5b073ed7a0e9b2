-- ===== src/Disk/Tree/Writing/Down.antt =====
-- The walk of `treedisk_write` in src/block/treedisk.c from a block down to the data block.
use cs4411_p.Prelude.{
  ◌⊎◌, ◌≢◌, ◌≡◌, ◌∙◌, ◌^◌, ◌==◌, ◌<◌, ◌/◌, ≢→==, ℕ, zero, sym, suc, some, set, refl, inr, inl,
  if◌then◌else◌, get_elem?, arith, ap, List, Bool, ==_refl,
}
use cs4411_p.Store.{Block, BlockStore}
use cs4411_p.Store.Contract.{View, Implements}
use cs4411_p.Disk.Tree.Access.{Disk, write_at, write_at_self, disk}
use cs4411_p.Disk.Tree.Files.{get_child, write_down}
use cs4411_p.Disk.Tree.FreeList.Chain.{Node, times_free, n_free}
use cs4411_p.Disk.Tree.Writing.Positions.{Position, Positions, IsWithin, IsPlaced, IsWithin-self}
use cs4411_p.Disk.Tree.Writing.System.{IsSystem}
use cs4411_p.Disk.Tree.Writing.Child.{Walked, IsChild, child_lem}
use cs4411_p.Disk.Tree.Writing.Walking.{Walked-weaken}

-- One block of a file replaced.
abbrev pub update : (ℕ → Block) → ℕ → Block → ℕ → Block
update file offset blk k = if k == offset then blk else file k

-- The places below place `index` of `level`.
abbrev pub IsIn : ℕ → ℕ → ℕ → Position → Type 0
IsIn ino level index q = (q.0 ≡ ino) × IsWithin q.1 q.2 level index

pub update_other :
    (file : ℕ → Block) (offset : ℕ) (blk : Block) (k : ℕ)
    → k ≢ offset
    → update file offset blk k ≡ file k
update_other file offset blk k ne = rw (≢→== k offset ne)

within_zero : (offset index : ℕ) → IsWithin 0 offset 0 index → index ≡ offset
within_zero offset index (d, e, q) =
    let none_left : d ≡ 0 = omega arith in
    let whole : offset / 1 ≡ offset = omega arith in
    sym q ∙ ap (λ n. offset / 256 ^ n) none_left ∙ whole

module _ {S : Type 0} (bs : BlockStore S) (V : S → Type 0) (v : S → View) (below_ino : ℕ)
    (imp : Implements bs V v) where
  -- The walk ends at the data block `d` of `offset`: a write there changes the file at `offset` only.
  pub record IsDown (ino level index offset : ℕ) (file : ℕ → Block) (t : S) (sb : Block)
      (nodes : List Node) (g : Positions) (parent : Block) (i parent_off d : ℕ) (t' : S)
      : Type 0 where
    pub sb' : Block
    pub nodes' : List Node
    pub g' : Positions
    pub b' : ℕ
    pub walked :
        Walked bs V v below_ino imp (IsIn ino level index) t sb nodes g parent_off t' sb' nodes' g'
    pub data_place : g' d ≡ some (ino, 0, offset)
    pub there : (x : Block) × (disk bs V v below_ino t' d ≡ some x)
    pub linked : disk bs V v below_ino t' parent_off ≡ some (set parent i b')
    pub placed :
        (blk : Block)
        → IsPlaced
            (write_at (disk bs V v below_ino t') d blk)
            g'
            ino
            level
            index
            b'
            (update file offset blk)

  -- Where the walk may start.
  pub record IsStart (ino level index : ℕ) (file : ℕ → Block) (t : S) (sb : Block)
      (nodes : List Node) (g : Positions) (parent : Block) (i parent_off b : ℕ) : Type 0 where
    pub system : IsSystem bs V v below_ino imp t sb nodes g
    pub at_i : get_elem? parent i ≡ some b
    pub nonzero : parent_off ≢ 0
    pub used : times_free nodes parent_off ≡ 0
    pub outside : (q : Position) → g parent_off ≡ some q → ¬ IsIn ino level index q
    pub exists_parent : (x : Block) × (disk bs V v below_ino t parent_off ≡ some x)
    pub on_disk : b ≢ 0 → disk bs V v below_ino t parent_off ≡ some parent
    pub placed : IsPlaced (disk bs V v below_ino t) g ino level index b file

  root_of :
      (w : Disk) (g : Positions) (ino level index b : ℕ) (file : ℕ → Block)
      → IsPlaced w g ino level index b file
      → (b ≡ 0) ⊎ ((b ≢ 0) × (g b ≡ some (ino, level, index)) × ((x : Block) × (w b ≡ some x)))
  root_of w g ino zero index b file (inl (e, hole)) = inl e
  root_of w g ino zero index b file (inr (nz, at_g, at_w)) = inr (nz, at_g, (file index, at_w))
  root_of w g ino (suc level) index b file (inl (e, hole)) = inl e
  root_of w g ino (suc level) index b file (inr (nz, at_g, (refs, at_w, len, more))) =
      inr (nz, at_g, (refs, at_w))

  -- The block at the place where the walk starts.
  pub start-IsChild :
      (ino level index : ℕ) (file : ℕ → Block) (t : S) (sb : Block) (nodes : List Node)
      (g : Positions) (parent : Block) (i parent_off b : ℕ)
      → IsStart ino level index file t sb nodes g parent i parent_off b
      → 0 < n_free nodes
      → (flag : Bool) × (n : ℕ) × (sb' : Block) × (t' : S) × (get_child bs below_ino t sb parent i
            parent_off
          ≡ some (flag, n, sb', t'))
        × IsChild bs V v below_ino imp
            (ino, level, index)
            t
            sb
            nodes
            g
            parent
            i
            parent_off
            b
            flag
            n
            sb'
            t'
  start-IsChild ino level index file t sb nodes g parent i parent_off b s lt =
      let (x, here) = s.exists_parent in
      child_lem bs V v below_ino imp (ino, level, index) t sb nodes g parent i parent_off b s.system
        s.nonzero s.used s.at_i old lt here
    where
      old :
          (b ≡ 0)
          ⊎ ((b ≢ 0)
              × (disk bs V v below_ino t parent_off ≡ some parent)
              × (g b ≡ some (ino, level, index))
              × ((x : Block) × (disk bs V v below_ino t b ≡ some x)))
      old = elim (root_of (disk bs V v below_ino t) g ino level index b file s.placed) [
        | inl e ↦ inl e
        | inr (nz, at_g, there) ↦ inr (nz, s.on_disk nz, at_g, there)
      ]

  pub IsDown-zero :
      (ino index offset : ℕ) (file : ℕ → Block) (t : S) (sb : Block) (nodes : List Node)
      (g : Positions) (parent : Block) (i parent_off b : ℕ)
      → IsStart ino 0 index file t sb nodes g parent i parent_off b
      → IsWithin 0 offset 0 index
      → 0 < n_free nodes
      → (d : ℕ) × (t' : S) × (write_down bs below_ino 0 t sb parent i parent_off offset
          ≡ some (d, t'))
        × IsDown ino 0 index offset file t sb nodes g parent i parent_off d t'
  unfolding write_down
  IsDown-zero ino index offset file t sb nodes g parent i parent_off b s within lt =
      let (flag, n, sb1, t1, run, c) =
        start-IsChild ino 0 index file t sb nodes g parent i parent_off b s lt in
      let same : index ≡ offset = within_zero offset index within in
      let at_place : c.g' n ≡ some (ino, 0, offset) =
        c.at_place ∙ ap (λ k. some (ino, 0, k)) same in
      (
        n,
        t1,
        rw (write_down, run),
        record {
          sb' = sb1;
          nodes' = c.nodes';
          g' = c.g';
          b' = n;
          walked =
              Walked-weaken bs V v below_ino imp (λ q. q ≡ (ino, 0, index)) (IsIn ino 0 index)
                (λ q e. rw e (refl, IsWithin-self 0 index)) c.walked;
          data_place = at_place;
          there = c.there;
          linked = c.linked;
          placed = λ blk. inr (
            c.is_block,
            c.at_place,
            write_at_self (disk bs V v below_ino t1) n blk ∙ ap some (sym (replaced blk same)),
          );
        },
      )
    where
      replaced : (blk : Block) → index ≡ offset → update file offset blk index ≡ blk
      replaced blk same = rw (same, ==_refl offset)
