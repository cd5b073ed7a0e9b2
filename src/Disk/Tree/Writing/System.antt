-- ===== src/Disk/Tree/Writing/System.antt =====
-- Allocations and writes of src/block/treedisk.c where the blocks of the files are not free.
use cs4411_p.Prelude.{
  ◌≢◌, ◌≡◌, ◌∷◌, ◌∙◌, ◌==◌, ◌<◌, ≢→==, ℕ, sym, suc, some, inr, inl, if◌then◌else◌, arith, [], List,
  Bool-cases, ==→≡, ==_refl,
}
use cs4411_p.Store.{Block, BlockStore}
use cs4411_p.Store.Contract.{View, Implements}
use cs4411_p.Disk.Tree.Layout.{n_inodeblocks, put_block}
use cs4411_p.Disk.Tree.Access.{write_at, write_at_ne, disk, put_block_lem}
use cs4411_p.Disk.Tree.FreeList.{alloc_block}
use cs4411_p.Disk.Tree.FreeList.Counting.{is_at_self}
use cs4411_p.Disk.Tree.FreeList.Chain.{
  Node, times_free, n_free, HasFree, IsChain-write_other, exists-write,
}
use cs4411_p.Disk.Tree.FreeList.Alloc.{alloc_block_lem}
use cs4411_p.Disk.Tree.Writing.Positions.{Position, Positions}

-- A block gets a place.
abbrev pub place : Positions → ℕ → Position → Positions
place g n p x = if x == n then some p else g x

pub place_self : (g : Positions) (n : ℕ) (p : Position) → place g n p n ≡ some p
place_self g n p = rw (==_refl n)

pub place_ne : (g : Positions) (n : ℕ) (p : Position) (x : ℕ) → x ≢ n → place g n p x ≡ g x
place_ne g n p x ne = rw (≢→== x n ne)

module _ {S : Type 0} (bs : BlockStore S) (V : S → Type 0) (v : S → View) (below_ino : ℕ)
    (imp : Implements bs V v) where
  -- A well formed free list, and no block that has a place is free.
  pub record IsSystem (t : S) (sb : Block) (nodes : List Node) (g : Positions) : Type 0 where
    pub valid : V t
    pub free : HasFree (disk bs V v below_ino t) sb nodes
    pub apart : (x : ℕ) (p : Position) → g x ≡ some p → (x ≢ 0) × (times_free nodes x ≡ 0)

  -- A block that is not free is written.
  pub put_block-IsSystem :
      (t : S) (sb : Block) (nodes : List Node) (g : Positions) (n : ℕ) (b : Block) {old : Block}
      → IsSystem t sb nodes g
      → n ≢ 0
      → times_free nodes n ≡ 0
      → disk bs V v below_ino t n ≡ some old
      → (t' : S) × (put_block bs below_ino t n b ≡ some t')
        × IsSystem t' sb nodes g
        × (disk bs V v below_ino t' ≡ write_at (disk bs V v below_ino t) n b)
  put_block-IsSystem t sb nodes g n b {old} s nz used there =
      let (t', called, w', same) = put_block_lem bs V v below_ino imp t n s.valid old b there in
      let w0 = disk bs V v below_ino t in
      (
        t',
        called,
        record {
          valid = w';
          free = record {
            head = s.free.head;
            super = rw same (write_at_ne w0 n b 0 (λ e. nz (sym e)) ∙ s.free.super);
            first = s.free.first;
            chain = rw same (IsChain-write_other w0 s.free.head nodes n b used s.free.chain);
            once = s.free.once;
            exist = λ x nzx lt.
                let (bx, hx) = s.free.exist x nzx lt in
                let (bx', hx') = exists-write w0 n b x hx in (bx', rw same hx');
          };
          apart = s.apart;
        },
        same,
      )

  -- What an allocation for place `p` leaves.
  pub record IsTaken (t : S) (sb : Block) (nodes : List Node) (g : Positions) (p : Position) (n : ℕ)
      (sb' : Block) (t' : S) : Type 0 where
    pub nodes' : List Node
    pub system : IsSystem t' sb' nodes' (place g n p)
    pub is_block : n ≢ 0
    pub was_free : 0 < times_free nodes n
    pub fewer : n_free nodes ≡ suc (n_free nodes')
    pub there : (b : Block) × (disk bs V v below_ino t' n ≡ some b)
    pub kept :
        (k : ℕ)
        → k ≢ 0
        → times_free nodes k ≡ 0
        → (disk bs V v below_ino t' k ≡ disk bs V v below_ino t k) × (times_free nodes' k ≡ 0)
    pub same_size : n_inodeblocks sb' ≡ n_inodeblocks sb

  pub alloc_block-IsSystem :
      (t : S) (sb : Block) (nodes : List Node) (g : Positions) (p : Position)
      → IsSystem t sb nodes g
      → 0 < n_free nodes
      → (n : ℕ) × (sb' : Block) × (t' : S) × (alloc_block bs below_ino t sb ≡ some (n, sb', t'))
        × IsTaken t sb nodes g p n sb' t'
  alloc_block-IsSystem t sb [] g p s lt = absurd (omega arith)
  alloc_block-IsSystem t sb (c ∷ nodes) g p s lt =
      let (n, sb', t', run, a) = alloc_block_lem bs V v below_ino imp t sb c nodes s.valid s.free in
      let used : times_free a.nodes' n ≡ 0 =
        omega (arith, s.free.once n a.is_block, a.taken n a.is_block, is_at_self n) in
      let still : (k : ℕ) → k ≢ 0 → times_free (c ∷ nodes) k ≡ 0 → times_free a.nodes' k ≡ 0 =
        λ k nz h. omega (arith, a.taken k nz) in
      (
        n,
        sb',
        t',
        run,
        record {
          nodes' = a.nodes';
          system = record {
            valid = a.valid;
            free = a.free;
            apart = λ x q h. apart n a.nodes' a.is_block used still x q h;
          };
          is_block = a.is_block;
          was_free = omega (arith, a.taken n a.is_block, is_at_self n);
          fewer = a.fewer;
          there = a.there;
          kept = λ k nz h. (a.kept k nz h, still k nz h);
          same_size = a.same_size;
        },
      )
    where
      apart :
          (n : ℕ) (nodes' : List Node)
          → n ≢ 0
          → times_free nodes' n ≡ 0
          → ((k : ℕ) → k ≢ 0 → times_free (c ∷ nodes) k ≡ 0 → times_free nodes' k ≡ 0)
          → (x : ℕ) (q : Position) → place g n p x ≡ some q
          → (x ≢ 0) × (times_free nodes' x ≡ 0)
      apart n nodes' nz used still x q h = elim (Bool-cases (x == n)) [
        | inl e ↦ let same : x ≡ n = ==→≡ x n e in rw same (nz, used)
        | inr ne ↦ let (nzx, was) = s.apart x q (rw ne at h) in (nzx, still x nzx was)
      ]
