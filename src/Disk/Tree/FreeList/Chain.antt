-- ===== src/Disk/Tree/FreeList/Chain.antt =====
-- The free list of src/block/treedisk.c on the disk.
use cs4411_p.Prelude.{
  ◌≤◌, ◌≢◌, ◌≡◌, ◌∷◌, ◌==◌, ◌<◌, ◌+◌, ≢→==, ℕ, some, length, inr, inl, get_elem?, false, arith, [],
  List, Bool-cases, All,
}
use cs4411_p.Store.{Block}
use cs4411_p.Disk.Tree.Layout.{refs_per_block, free_list}
use cs4411_p.Disk.Tree.Access.{Disk, write_at}
use cs4411_p.Disk.Tree.FreeList.Counting.{n_free_in, is_at, count_refs}

-- A block of the free list: its number and its contents.
abbrev pub Node : Type 0
Node = ℕ × Block

-- From block `head` on the disk holds the free list blocks `nodes`.
abbrev pub IsChain : Disk → ℕ → List Node → Type 0
IsChain w head [] = head ≡ 0
IsChain w head (c ∷ nodes) =
    (head ≡ c.0)
    × ((c.0 ≢ 0)
        × (w c.0 ≡ some c.1)
        × (length c.1 ≡ refs_per_block)
        × ((next : ℕ) × (get_elem? c.1 0 ≡ some next) × IsChain w next nodes))

-- How often a block is in the free list, as one of its blocks or as a reference.
abbrev pub times_free : List Node → ℕ → ℕ
times_free [] x = 0
times_free (c ∷ nodes) x = is_at c.0 x + count_refs x c.1 + times_free nodes x

-- How many free blocks there are.
abbrev pub n_free : List Node → ℕ
n_free [] = 0
n_free (c ∷ nodes) = n_free_in c.1 + n_free nodes

-- The disk with superblock `sb` holds the free list `nodes`: each free block is there once, and exists.
pub record HasFree (w : Disk) (sb : Block) (nodes : List Node) : Type 0 where
  pub head : ℕ
  pub super : w 0 ≡ some sb
  pub first : free_list sb ≡ some head
  pub chain : IsChain w head nodes
  pub once : (x : ℕ) → x ≢ 0 → times_free nodes x ≤ 1
  pub exist : (x : ℕ) → x ≢ 0 → 0 < times_free nodes x → (b : Block) × (w x ≡ some b)

-- A write to a block that is none of the free list blocks.
IsChain-write :
    (w : Disk) (head : ℕ) (nodes : List Node) (k : ℕ) (b : Block)
    → All (λ (c : Node). c.0 ≢ k) nodes
    → IsChain w head nodes
    → IsChain (write_at w k b) head nodes
IsChain-write w head [] k b apart h = h
IsChain-write w head (c ∷ nodes) k b (ne, apart) (e, (nz, at, len, (next, first, rest))) =
    let other : (c.0 == k) ≡ false = ≢→== c.0 k ne in
    (e, (nz, rw other at, len, (next, first, IsChain-write w next nodes k b apart rest)))

apart_of_zero :
    (w : Disk) (head : ℕ) (nodes : List Node)
    → IsChain w head nodes
    → All (λ (c : Node). c.0 ≢ 0) nodes
apart_of_zero w head [] h = tt
apart_of_zero w head (c ∷ nodes) (e, (nz, at, len, (next, first, rest))) =
    (nz, apart_of_zero w next nodes rest)

apart_of_times :
    (nodes : List Node) (k : ℕ) → times_free nodes k ≡ 0 → All (λ (c : Node). c.0 ≢ k) nodes
apart_of_times [] k h = tt
apart_of_times (c ∷ nodes) k h = (λ e. ground arith, apart_of_times nodes k (omega arith))

pub IsChain-write_super :
    (w : Disk) (head : ℕ) (nodes : List Node) (b : Block)
    → IsChain w head nodes
    → IsChain (write_at w 0 b) head nodes
IsChain-write_super w head nodes b h =
    IsChain-write w head nodes 0 b (apart_of_zero w head nodes h) h

pub IsChain-write_other :
    (w : Disk) (head : ℕ) (nodes : List Node) (k : ℕ) (b : Block)
    → times_free nodes k ≡ 0
    → IsChain w head nodes
    → IsChain (write_at w k b) head nodes
IsChain-write_other w head nodes k b none_free h =
    IsChain-write w head nodes k b (apart_of_times nodes k none_free) h

-- A write leaves a block where there was one.
pub exists-write :
    (w : Disk) (k : ℕ) (b : Block) (x : ℕ) {old : Block}
    → w x ≡ some old
    → (b' : Block) × (write_at w k b x ≡ some b')
exists-write w k b x {old} h = elim (Bool-cases (x == k)) [
  | inl e ↦ (b, rw e)
  | inr n ↦ (old, rw n h)
]
