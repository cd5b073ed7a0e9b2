-- ===== src/Disk/Tree/Tests.antt =====
-- Runs of src/block/treedisk.c.
use cs4411_p.Prelude.{
  ◌==◌, ◌*◌, ≢→==, zero, suc, some-injective, if◌then◌else◌, ◌⊎◌, ◌≢◌, ◌∙◌, ◌+◌, sym, inr, inl,
  get_elem?-set_ne, get_elem?, set, get_elem?-replicate, err, Option, ℤ, Run, List, ◌≤◌, ◌≡◌, ◌∷◌,
  ◌>>=◌, ◌<◌, ℕ, some, replicate, refl, pos, none, arith, [],
}
use cs4411_p.Store.{Block}
use cs4411_p.Disk.Ram.{RamDisk}
use cs4411_p.Disk.Ram
use cs4411_p.Disk.Ram.Contents as RamContents
use cs4411_p.Disk.Tree.FreeList.{alloc_block, free_block}
use cs4411_p.Disk.Tree.FreeList.Counting.{is_at, is_at_ne, count_refs, count_refs-set}
use cs4411_p.Disk.Tree.FreeList.Free.{free_block_lem}
use cs4411_p.Disk.Tree.FreeList.Release.{null-IsEmptyNode, Freed}
use cs4411_p.Disk.Tree.FreeList.Chain.{Node, times_free, HasFree}
use cs4411_p.Disk.Tree.FreeList.Reuse.{free_block-alloc_block}
use cs4411_p.Disk.Tree.FreeList.Alloc.{Allocated, alloc_block_lem}
use cs4411_p.Disk.Tree.FreeList.Release.{Freed}
use cs4411_p.Disk.Tree.Access.{disk, null_word, null_ref}
use cs4411_p.Disk.Tree.Create.Created.{IsEmptySystem, create_lem}
use cs4411_p.Disk.Tree.Layout.{
  log_shift_r, count_log, log_rpb, refs_per_block, null_block, TreeDisk,
}
use cs4411_p.Disk.Tree.Files.{nlevels, free_level}
use cs4411_p.Disk.Tree.Files.Levels.{nlevels_lem, capacity}
use cs4411_p.Disk.Tree.Files.Freeing.{free_level-nlevels, free_level_large}
use cs4411_p.Disk.Tree.Methods.{init, getsize, read, write}
use cs4411_p.Disk.Tree.Create.{create}
use cs4411_p.Disk.Tree.Files.Reading.{Holds}
use cs4411_p.Disk.Tree.Methods.Reads.{HasFile, IsKept, read_lem}
use cs4411_p.Disk.Tree.Create.Files.{create-getsize}

log_rpb_test : count_log 33 0 ≡ some log_rpb
unfolding count_log
log_rpb_test = refl

nlevels_lem_example :
    (level : ℕ) × (nlevels 300 ≡ some level)
    × (level ≤ 4)
    × (300 ≤ capacity level)
    × ((k : ℕ) → k < level → capacity k < 300)
nlevels_lem_example = nlevels_lem 300 (omega arith) (omega arith)

free_level-nlevels_example : free_level 4 refs_per_block 300 1 ≡ nlevels 300
free_level-nlevels_example = free_level-nlevels 300 (omega arith) (omega arith)

free_level_large_example : free_level 9 refs_per_block 16777217 1 ≡ none
free_level_large_example = free_level_large 9 16777217 (omega arith)

-- A store of eight blocks.
abbrev disk8 : RamDisk
disk8 = Ram.init (replicate 8 null_block) 8

-- A new file system, a write that grows a file to two levels, and reads of that and of a hole.
abbrev session : Run (List ℤ × Block × Block)
session = do
  (r, t) ← create Ram.ops 0 disk8 100
  (r1, s1) ← write Ram.ops (init t 0) 5 300 (7 ∷ [])
  (r2, b2, s2) ← read Ram.ops s1 5 300 []
  (r3, b3, s3) ← read Ram.ops s2 5 299 []
  (r4, s4) ← getsize Ram.ops s3 5
  some (r ∷ r1 ∷ r2 ∷ r3 ∷ r4 ∷ [], b2, b3)

session_test : session ≡ some (pos 0 ∷ pos 0 ∷ pos 0 ∷ pos 0 ∷ pos 301 ∷ [], 7 ∷ [], null_block)
unfolding create write read getsize init Ram.getsize Ram.read Ram.write Ram.init null_block
    log_shift_r alloc_block
session_test = refl

abbrev ram_disk : RamDisk → ℕ → Option Block
ram_disk = disk Ram.ops RamContents.IsValid RamContents.view 0

disk8-HasBlocks : (k : ℕ) → k < 8 → (b : Block) × (ram_disk disk8 k ≡ some b)
unfolding Ram.init
disk8-HasBlocks k lt = (null_block, ground (arith, get_elem?-replicate null_block 8 k lt))

create_lem_example :
    (t' : RamDisk) × (create Ram.ops 0 disk8 100 ≡ some (pos 0, t'))
    × IsEmptySystem Ram.ops RamContents.IsValid RamContents.view 0 RamContents.ops-Implements 1 8 t'
unfolding Ram.init Ram.getsize null_block
create_lem_example =
    create_lem Ram.ops RamContents.IsValid RamContents.view 0 RamContents.ops-Implements disk8 disk8
      100 (pos 8) null_block refl (omega arith) disk8-HasBlocks (omega arith) (omega arith) refl
      refl

create-getsize_example :
    (t' : RamDisk) × (create Ram.ops 0 disk8 100 ≡ some (pos 0, t'))
    × ((s : TreeDisk RamDisk) × (getsize Ram.ops (init t' 0) 5 ≡ some (pos 0, s)))
    × ((offset : ℕ) (block : Block)
        → (s : TreeDisk RamDisk) × (read Ram.ops (init t' 0) 5 offset block ≡ some (err, block, s)))
unfolding Ram.init Ram.getsize null_block
create-getsize_example =
    create-getsize Ram.ops RamContents.IsValid RamContents.view 0 RamContents.ops-Implements disk8
      disk8 100 5 (pos 8) null_block refl (omega arith) disk8-HasBlocks (omega arith) (omega arith)
      refl refl (omega arith)

-- A free list with the blocks 1 and 2, of a file system without inodes.
abbrev node1 : Node
node1 = (1, set (set null_block 0 0) 3 2)

abbrev super1 : Block
super1 = set null_block 1 1

abbrev disk3 : RamDisk
disk3 = Ram.init (super1 ∷ node1.1 ∷ null_block ∷ []) 3

node1-times : (x : ℕ) → x ≢ 0 → times_free (node1 ∷ []) x ≡ is_at 1 x + is_at 2 x
node1-times x nz =
    let refs = set null_block 0 0 in
    let empty : count_refs x refs ≡ 0 = (null-IsEmptyNode 0).2 x nz in
    let here : get_elem? refs 3 ≡ some 0 =
      get_elem?-set_ne null_block 0 (λ e. absurd (omega arith)) ∙ null_word 3 (omega arith) in
    omega (arith, count_refs-set x refs 2 2 here, is_at_ne 0 x (λ e. nz (sym e)), empty)

one_or_two : (x : ℕ) → 0 < is_at 1 x + is_at 2 x → (x ≡ 1) ⊎ (x ≡ 2)
one_or_two x lt = ground arith

at_most_once : (x : ℕ) → is_at 1 x + is_at 2 x ≤ 1
at_most_once x = ground arith

disk3-exist : (x : ℕ) → (x ≡ 1) ⊎ (x ≡ 2) → (b : Block) × (ram_disk disk3 x ≡ some b)
unfolding Ram.init
disk3-exist x (inl e) = rw e (node1.1, refl)
disk3-exist x (inr e) = rw e (null_block, refl)

disk3-HasFree : HasFree (ram_disk disk3) super1 (node1 ∷ [])
unfolding Ram.init null_block
disk3-HasFree = record {
  head = 1;
  super = refl;
  first = refl;
  chain = (refl, (λ e. absurd (omega arith), refl, refl, (0, refl, refl)));
  once = λ x nz. rw (node1-times x nz) (at_most_once x);
  exist = λ x nz lt. disk3-exist x (one_or_two x (rw (node1-times x nz) at lt));
}

alloc_block_lem_example :
    (n : ℕ) × (sb' : Block) × (t' : RamDisk) × (alloc_block Ram.ops 0 disk3 super1
      ≡ some (n, sb', t'))
    × Allocated Ram.ops RamContents.IsValid RamContents.view 0 RamContents.ops-Implements disk3
        super1
        (node1 ∷ [])
        n
        sb'
        t'
unfolding Ram.init
alloc_block_lem_example =
    alloc_block_lem Ram.ops RamContents.IsValid RamContents.view 0 RamContents.ops-Implements disk3
      super1 node1 [] (omega arith) disk3-HasFree

free_block-alloc_block_example :
    (n : ℕ) × (sb1 : Block) × (t1 : RamDisk) × (sb2 : Block) × (t2 : RamDisk) × (nodes : List Node)
    × (alloc_block Ram.ops 0 disk3 super1 ≡ some (n, sb1, t1))
    × (free_block Ram.ops 0 t1 sb1 n ≡ some (sb2, t2))
    × HasFree (ram_disk t2) sb2 nodes
    × ((x : ℕ) → x ≢ 0 → times_free nodes x ≡ times_free (node1 ∷ []) x)
    × ((k : ℕ) → k ≢ 0 → times_free (node1 ∷ []) k ≡ 0 → ram_disk t2 k ≡ ram_disk disk3 k)
unfolding Ram.init
free_block-alloc_block_example =
    free_block-alloc_block Ram.ops RamContents.IsValid RamContents.view 0 RamContents.ops-Implements
      disk3 super1 node1 [] (omega arith) disk3-HasFree

-- Block 3 goes to the free list.
abbrev disk4 : RamDisk
disk4 = Ram.init (super1 ∷ node1.1 ∷ null_block ∷ null_block ∷ []) 4

disk4-exist : (x : ℕ) → (x ≡ 1) ⊎ (x ≡ 2) → (b : Block) × (ram_disk disk4 x ≡ some b)
unfolding Ram.init
disk4-exist x (inl e) = rw e (node1.1, refl)
disk4-exist x (inr e) = rw e (null_block, refl)

disk4-HasFree : HasFree (ram_disk disk4) super1 (node1 ∷ [])
unfolding Ram.init null_block
disk4-HasFree = record {
  head = 1;
  super = refl;
  first = refl;
  chain = (refl, (λ e. absurd (omega arith), refl, refl, (0, refl, refl)));
  once = λ x nz. rw (node1-times x nz) (at_most_once x);
  exist = λ x nz lt. disk4-exist x (one_or_two x (rw (node1-times x nz) at lt));
}

free_block_lem_example :
    (sb' : Block) × (t' : RamDisk) × (free_block Ram.ops 0 disk4 super1 3 ≡ some (sb', t'))
    × Freed Ram.ops RamContents.IsValid RamContents.view 0 RamContents.ops-Implements disk4 super1
        (node1 ∷ [])
        3
        sb'
        t'
unfolding Ram.init
free_block_lem_example =
    free_block_lem Ram.ops RamContents.IsValid RamContents.view 0 RamContents.ops-Implements disk4
      super1 (node1 ∷ []) 3 (omega arith) disk4-HasFree (λ e. absurd (omega arith))
      (node1-times 3 (λ e. absurd (omega arith))) refl

-- A file of two blocks, the second of which is a hole.
abbrev file_blocks : ℕ → Block
file_blocks k = if k == 0 then 7 ∷ [] else null_block

abbrev file_refs : Block
file_refs = set null_block 0 3

abbrev file_disk : RamDisk
file_disk =
    Ram.init (set null_block 0 1 ∷ set (set null_block 0 2) 1 2 ∷ file_refs ∷ (7 ∷ []) ∷ []) 4

hole_ref : (i r : ℕ) → get_elem? file_refs (suc i) ≡ some r → r ≡ 0
hole_ref i r h =
    null_ref (suc i) r
      (sym (get_elem?-set_ne null_block {i = 0} {j = suc i} 3 (λ e. absurd (omega arith))) ∙ h)

file-Holds : Holds (ram_disk file_disk) 1 2 file_blocks
unfolding Ram.init null_block
file-Holds = inr (λ e. absurd (omega arith), (file_refs, refl, refl, below))
  where
    below :
        (i r : ℕ)
        → get_elem? file_refs i ≡ some r
        → Holds (ram_disk file_disk) 0 r (λ k. file_blocks (i * capacity 0 + k))
    below zero r h =
        let e : r ≡ 3 = sym (some-injective 3 r h) in rw e (inr (λ e'. absurd (omega arith), refl))
    below (suc i) r h =
        inl (hole_ref i r h, rw (≢→== (suc i * 1 + 0) 0 (λ e. absurd (omega arith))))

file-HasFile : HasFile (ram_disk file_disk) 0 2 file_blocks
unfolding Ram.init null_block nlevels log_shift_r
file-HasFile = record {
  superblock = set null_block 0 1;
  inodeblock = set (set null_block 0 2) 1 2;
  inodeblocks = 1;
  top = 2;
  super = refl;
  counted = refl;
  exists_ino = omega arith;
  at = refl;
  at_top = refl;
  at_size = refl;
  small = omega arith;
  holds = λ level lt run. let e : level ≡ 1 = sym (some-injective 1 level run) in rw e file-Holds;
}

read_lem_example :
    (s : TreeDisk RamDisk) × (read Ram.ops (init file_disk 0) 0 1 [] ≡ some (pos 0, null_block, s))
    × IsKept Ram.ops RamContents.IsValid RamContents.view RamContents.ops-Implements
        (init file_disk 0)
        s
unfolding init Ram.init
read_lem_example =
    read_lem Ram.ops RamContents.IsValid RamContents.view RamContents.ops-Implements
      (init file_disk 0) 0 2 file_blocks (omega arith) file-HasFile 1 []
