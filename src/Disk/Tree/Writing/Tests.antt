-- ===== src/Disk/Tree/Writing/Tests.antt =====
-- A run of `treedisk_write` in src/block/treedisk.c.
use cs4411_p.Prelude.{
  ltb, if◌then◌else◌, err, ◌≢◌, ◌≡◌, ◌∷◌, ◌∙◌, ◌<◌, ℕ, zero, suc, some, set, replicate, refl, pos,
  none, inl, get_elem?-replicate, arith, ap, [], Option,
}
use cs4411_p.Store.{Block}
use cs4411_p.Disk.Ram.{RamDisk}
use cs4411_p.Disk.Ram
use cs4411_p.Disk.Ram.Contents as RamContents
use cs4411_p.Disk.Tree.Layout.{null_block, Snapshot}
use cs4411_p.Disk.Tree.Access.{disk, null_word}
use cs4411_p.Disk.Tree.Files.{nlevels}
use cs4411_p.Disk.Tree.FreeList.Counting.{count}
use cs4411_p.Disk.Tree.FreeList.Chain.{Node, times_free, n_free, HasFree}
use cs4411_p.Disk.Tree.Create.{fill_refs, next_after}
use cs4411_p.Disk.Tree.Create.Filling.{
  inside, inside_first, inside_once, inside_bounds, inside_below, length-fill_refs, count-fill_refs,
}
use cs4411_p.Disk.Tree.Methods.{write_snapshot}
use cs4411_p.Disk.Tree.Methods.{init, read, write}
use cs4411_p.Disk.Tree.Layout.{TreeDisk, n_inodeblocks}
use cs4411_p.Disk.Tree.Writing.Methods.{snapshot_of, read-write_file}
use cs4411_p.Disk.Tree.Writing.Positions.{Positions}
use cs4411_p.Disk.Tree.Writing.Down.{update}
use cs4411_p.Disk.Tree.Writing.Finish.{IsOpen, IsChanged}
use cs4411_p.Disk.Tree.Writing.Whole.{write_snapshot_lem}

-- Block 1 has the inodes, all empty; blocks 2 to 10 are free.
abbrev free_node : Node
free_node = (2, 0 ∷ fill_refs 255 3 11)

abbrev super11 : Block
super11 = set (set null_block 0 1) 1 2

abbrev disk11 : RamDisk
disk11 = Ram.init (super11 ∷ null_block ∷ free_node.1 ∷ replicate 8 null_block) 11

abbrev ram_view : RamDisk → ℕ → Option Block
ram_view = disk Ram.ops RamContents.IsValid RamContents.view 0

next_lem : next_after 255 3 11 ≡ 11
unfolding next_after
next_lem = refl

free_times : (x : ℕ) → x ≢ 0 → times_free (free_node ∷ []) x ≡ inside 2 11 x
free_times x nz =
    let listed : count x (fill_refs 255 3 11) ≡ inside 3 11 x =
      count-fill_refs x 255 3 11 nz (omega arith) ∙ ap (λ n. inside 3 n x) next_lem in
    omega (arith, listed, inside_first 2 11 x (omega arith))

disk11-exist : (x : ℕ) → x < 11 → (b : Block) × (ram_view disk11 x ≡ some b)
unfolding Ram.init
disk11-exist zero lt = (super11, refl)
disk11-exist (suc zero) lt = (null_block, refl)
disk11-exist (suc (suc zero)) lt = (free_node.1, refl)
disk11-exist (suc (suc (suc k))) lt =
    (null_block, ground (arith, get_elem?-replicate null_block 8 k (omega arith)))

disk11-HasFree : HasFree (ram_view disk11) super11 (free_node ∷ [])
unfolding Ram.init null_block
disk11-HasFree = record {
  head = 2;
  super = refl;
  first = refl;
  chain = (
    refl,
    (λ e. absurd (omega arith), refl, ap suc (length-fill_refs 255 3 11), (0, refl, refl)),
  );
  once = λ x nz. omega (arith, free_times x nz, inside_once 2 11 x);
  exist = λ x nz lt. disk11-exist x (inside_bounds 2 11 x (omega (arith, free_times x nz))).1;
}

-- No block is in a file, and the file is empty.
abbrev no_places : Positions
no_places x = none

abbrev no_blocks : ℕ → Block
no_blocks k = null_block

abbrev snapshot : Snapshot
snapshot = snapshot_of 5 super11 null_block

super11_size : n_inodeblocks super11 ≡ some 1
unfolding null_block
super11_size = refl

file-IsOpen :
    IsOpen Ram.ops RamContents.IsValid RamContents.view 0 RamContents.ops-Implements 5 0 0 no_blocks
      disk11 snapshot
      (free_node ∷ [])
      no_places
unfolding Ram.init
file-IsOpen = record {
  system = record { valid = omega arith; free = disk11-HasFree; apart = λ x p h. cc };
  nonzero = λ e. absurd (omega arith);
  used = omega (arith, free_times 1 (λ e. absurd (omega arith)), inside_below 2 11 1 (omega arith));
  no_place = refl;
  on_disk = refl;
  top = 0;
  at_top = null_word 10 (omega arith);
  at_size = null_word 11 (omega arith);
  placed = inl (refl, refl);
}

no_levels : nlevels 0 ≡ some 0
unfolding nlevels
no_levels = refl

nine_free : n_free (free_node ∷ []) ≡ 9
unfolding fill_refs
nine_free = refl

write_snapshot_lem_example :
    (t' : RamDisk) × (level' : ℕ) × (write_snapshot Ram.ops 0 disk11 snapshot 300 (7 ∷ [])
      ≡ some (pos 0, t'))
    × (nlevels 301 ≡ some level')
    × IsChanged Ram.ops RamContents.IsValid RamContents.view 0 RamContents.ops-Implements 5 301
        level'
        (update no_blocks 300 (7 ∷ []))
        disk11
        snapshot
        (free_node ∷ [])
        no_places
        t'
write_snapshot_lem_example =
    write_snapshot_lem Ram.ops RamContents.IsValid RamContents.view 0 RamContents.ops-Implements 5 0
      0 300 (7 ∷ []) no_blocks disk11 snapshot (free_node ∷ []) no_places file-IsOpen no_levels
      (omega arith) (λ k h. refl) (omega arith) (omega (arith, nine_free))

read-write_file_example :
    (s' : TreeDisk RamDisk) × (write Ram.ops (init disk11 0) 5 300 (7 ∷ []) ≡ some (pos 0, s'))
    × ((k : ℕ) (block : Block)
        → (s'' : TreeDisk RamDisk) × (read Ram.ops s' 5 k block ≡ (
            if ltb k 301
            then some (pos 0, update no_blocks 300 (7 ∷ []) k, s'')
            else some (err, block, s''))))
unfolding init
read-write_file_example =
    read-write_file Ram.ops RamContents.IsValid RamContents.view RamContents.ops-Implements
      (init disk11 0) 5 0 0 1 300 (7 ∷ []) super11 null_block no_blocks (free_node ∷ []) no_places
      file-IsOpen super11_size (omega arith) no_levels (omega arith) (λ k h. refl) (omega arith)
      (omega (arith, nine_free))
