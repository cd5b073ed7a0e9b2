-- ===== src/Disk/Tree/Create/Created.antt =====
-- `treedisk_create` of src/block/treedisk.c on a store without a file system.
use cs4411_p.Prelude.{
  ℤ, to_word, is_neg, if◌then◌else◌, err, Run, ◌>>=◌, ◌/◌, ◌-◌, le→ltb, false, ◌≤◌, ◌≢◌, ◌≡◌, ◌∙◌,
  ◌<◌, ◌+◌, ℕ, word_mod, suc, some, set, refl, pos, ltb→lt, ltb→le, ltb, inr, inl, arith, ap,
  add_word, [], List, Bool-cases,
}
use cs4411_p.Store.{Block, BlockStore}
use cs4411_p.Store.Contract.{View, Implements}
use cs4411_p.Disk.Tree.Layout.{
  inodes_per_block, null_block, free_list, set_free_list, n_inodeblocks,
}
use cs4411_p.Disk.Tree.Access.{Disk, write_at, write_at_self, write_at_ne, disk, write_lem}
use cs4411_p.Disk.Tree.FreeList.Chain.{exists-write, Node, times_free, HasFree, exists-write}
use cs4411_p.Disk.Tree.FreeList.Release.{IsChain-agree}
use cs4411_p.Disk.Tree.Create.{
  setup_freelist, setup_from, clear_inodes, setup_freelist, initialize, create,
}
use cs4411_p.Disk.Tree.Create.Filling.{inside, inside_once, inside_below, inside_above}
use cs4411_p.Disk.Tree.Create.Setup.{HasBlocks, Setup, setup_from_lem}
use cs4411_p.Disk.Tree.Create.Clearing.{Cleared, clear_inodes_lem}

-- The superblock of a new file system.
abbrev pub new_superblock : ℕ → ℕ → Block
new_superblock inodeblocks head = set_free_list (set null_block 0 inodeblocks) head

new_superblock_size :
    (inodeblocks head : ℕ) → n_inodeblocks (new_superblock inodeblocks head) ≡ some inodeblocks
unfolding null_block
new_superblock_size inodeblocks head = refl

new_superblock_list :
    (inodeblocks head : ℕ) → free_list (new_superblock inodeblocks head) ≡ some head
unfolding null_block
new_superblock_list inodeblocks head = refl

module _ {S : Type 0} (bs : BlockStore S) (V : S → Type 0) (v : S → View) (below_ino : ℕ)
    (imp : Implements bs V v) where
  -- A file system of `nblocks` blocks in which every inode is empty and every block behind the inodes is free.
  pub record IsEmptySystem (inodeblocks nblocks : ℕ) (t : S) : Type 0 where
    pub valid : V t
    pub superblock : Block
    pub nodes : List Node
    pub free : HasFree (disk bs V v below_ino t) superblock nodes
    pub size : n_inodeblocks superblock ≡ some inodeblocks
    pub free_blocks : (x : ℕ) → x ≢ 0 → times_free nodes x ≡ inside (inodeblocks + 1) nblocks x
    pub empty_inodes : (k : ℕ) → k < inodeblocks → disk bs V v below_ino t (1 + k) ≡ some null_block

  -- The state after the three steps of `initialize`.
  module _ (t0 t1 t2 t' : S) (inodeblocks nblocks head : ℕ) (fits : inodeblocks + 2 ≤ nblocks)
      (a : Setup bs V v below_ino imp t0 [] (inodeblocks + 1) nblocks head t1)
      (same : disk bs V v below_ino t2
        ≡ write_at (disk bs V v below_ino t1) 0 (new_superblock inodeblocks head))
      (c : Cleared bs V v below_ino imp inodeblocks t2 1 t') where
    after_inodes :
        (k : ℕ) → inodeblocks + 1 ≤ k → disk bs V v below_ino t' k ≡ disk bs V v below_ino t1 k
    after_inodes k le =
        c.kept_above k (omega arith)
        ∙ ap (λ (u : Disk). u k) same
        ∙ write_at_ne (disk bs V v below_ino t1) 0 (new_superblock inodeblocks head) k
            (λ e. absurd (omega arith))

    listed_from : (x : ℕ) → x ≢ 0 → 0 < times_free a.nodes' x → inodeblocks + 1 ≤ x
    listed_from x nz lt = elim (Bool-cases (ltb x (inodeblocks + 1))) [
      | inr e ↦ ltb→le x (inodeblocks + 1) e
      | inl e ↦
          let none_below =
            inside_below (inodeblocks + 1) nblocks x (ltb→lt x (inodeblocks + 1) e) in
          absurd (omega (arith, a.listed x nz, none_below))
    ]

    listed_to : (x : ℕ) → x ≢ 0 → 0 < times_free a.nodes' x → x < nblocks
    listed_to x nz lt = elim (Bool-cases (ltb x nblocks)) [
      | inl e ↦ ltb→lt x nblocks e
      | inr e ↦
          let none_above = inside_above (inodeblocks + 1) nblocks x (ltb→le x nblocks e) in
          absurd (omega (arith, a.listed x nz, none_above))
    ]

    initialized : IsEmptySystem inodeblocks nblocks t'
    initialized = record {
      valid = c.valid;
      superblock = new_superblock inodeblocks head;
      nodes = a.nodes';
      free = record {
        head = head;
        super =
            c.kept_below 0 (omega arith)
            ∙ ap (λ (u : Disk). u 0) same
            ∙ write_at_self (disk bs V v below_ino t1) 0 (new_superblock inodeblocks head);
        first = new_superblock_list inodeblocks head;
        chain =
            IsChain-agree (disk bs V v below_ino t1) (disk bs V v below_ino t') head a.nodes'
              (λ k nz lt. after_inodes k (listed_from k nz lt)) a.chain;
        once = λ x nz. omega (arith, a.listed x nz, inside_once (inodeblocks + 1) nblocks x);
        exist = λ x nz lt.
            let (b, hb) = a.blocks x (listed_to x nz lt) in
            (b, after_inodes x (listed_from x nz lt) ∙ hb);
      };
      size = new_superblock_size inodeblocks head;
      free_blocks = λ x nz. omega (arith, a.listed x nz);
      empty_inodes = λ k lt. c.cleared (1 + k) (omega arith) (omega arith);
    }

  initialize_run :
      (t t1 t2 : S) (inodeblocks nblocks head : ℕ) {r : Run (ℤ × S)}
      → setup_freelist bs below_ino t (add_word inodeblocks 1) nblocks ≡ some (head, t1)
      → bs.write t1 below_ino 0 (new_superblock inodeblocks head) ≡ some (pos 0, t2)
      → clear_inodes bs below_ino inodeblocks t2 1 ≡ r
      → initialize bs below_ino t inodeblocks nblocks ≡ r
  unfolding initialize
  initialize_run t t1 t2 inodeblocks nblocks head run1 run2 run3 =
      ap
        (λ (r : Run (ℕ × S)). do
          (head', t1') ← r
          (w, t2') ← bs.write t1' below_ino 0 (new_superblock inodeblocks head')
          if is_neg w then some (err, t2') else clear_inodes bs below_ino inodeblocks t2' 1)
        run1
      ∙ rw (run2, ◌>>=◌) run3

  setup_freelist_lem :
      (t : S) (inodeblocks nblocks : ℕ)
      → V t
      → HasBlocks (disk bs V v below_ino t) nblocks
      → inodeblocks + 2 ≤ nblocks
      → nblocks < word_mod
      → (head : ℕ) × (t1 : S) × (setup_freelist bs below_ino t (add_word inodeblocks 1) nblocks
          ≡ some (head, t1))
        × Setup bs V v below_ino imp t [] (inodeblocks + 1) nblocks head t1
  unfolding setup_freelist
  setup_freelist_lem t inodeblocks nblocks w has fits small =
      let first : add_word inodeblocks 1 ≡ inodeblocks + 1 = omega arith in
      let (head, t1, run, a) =
        setup_from_lem bs V v below_ino imp (suc nblocks) t 0 [] (inodeblocks + 1) nblocks w refl
          has (omega arith) (omega arith) (λ x nz lt. absurd (omega arith)) (omega arith) in
      (head, t1, ap (λ n. setup_from bs below_ino (suc nblocks) t 0 n nblocks) first ∙ run, a)

  initialize_lem :
      (t : S) (inodeblocks nblocks : ℕ)
      → V t
      → HasBlocks (disk bs V v below_ino t) nblocks
      → inodeblocks + 2 ≤ nblocks
      → nblocks < word_mod
      → (t' : S) × (initialize bs below_ino t inodeblocks nblocks ≡ some (pos 0, t'))
        × IsEmptySystem inodeblocks nblocks t'
  initialize_lem t inodeblocks nblocks w has fits small =
      let (head, t1, run1, a) = setup_freelist_lem t inodeblocks nblocks w has fits small in
      let (old, there) = a.blocks 0 (omega arith) in
      let sb = new_superblock inodeblocks head in
      let (t2, run2, w2, same) = write_lem bs V v below_ino imp t1 0 a.valid old sb there in
      let (t', run3, c) = clear_inodes_lem bs V v below_ino imp inodeblocks t2 1 w2 (λ k lo hi.
        let (b, hb) = a.blocks k (omega arith) in
        let (b', hb') = exists-write (disk bs V v below_ino t1) 0 sb k hb in
        (b', ap (λ (u : Disk). u k) same ∙ hb')) in
      (
        t',
        initialize_run t t1 t2 inodeblocks nblocks head run1 run2 run3,
        initialized t t1 t2 t' inodeblocks nblocks head fits a same c,
      )

  -- On a store that behaves as an array of blocks, whose `getsize` tells its number of blocks, fewer
  -- than 2^32 and at least two more than the `inodes_per_block` inodes a block need for `ninodes`,
  -- and whose superblock has no inodes, `create` returns 0 and leaves an empty file system of the
  -- size of the store.
  pub create_lem :
      (t t0 : S) (ninodes : ℕ) (size : ℤ) (sb : Block)
      → bs.getsize t below_ino ≡ some (size, t0)
      → V t0
      → HasBlocks (disk bs V v below_ino t0) (to_word size)
      → to_word size < word_mod
      → (ninodes + inodes_per_block - 1) / inodes_per_block + 2 ≤ to_word size
      → disk bs V v below_ino t0 0 ≡ some sb
      → n_inodeblocks sb ≡ some 0
      → (t' : S) × (create bs below_ino t ninodes ≡ some (pos 0, t'))
        × IsEmptySystem ((ninodes + inodes_per_block - 1) / inodes_per_block) (to_word size) t'
  unfolding create
  create_lem t t0 ninodes size sb sized w has small fits super no_inodes =
      let inodeblocks = (ninodes + inodes_per_block - 1) / inodes_per_block in
      let (t2, called, w2, same) = imp.read_some t0 below_ino 0 [] sb w super in
      let same_disk : disk bs V v below_ino t2 ≡ disk bs V v below_ino t0 =
        ap (λ (u : View). u below_ino) same in
      let has' : HasBlocks (disk bs V v below_ino t2) (to_word size) = rw same_disk has in
      let (t', run, e) = initialize_lem t2 inodeblocks (to_word size) w2 has' fits small in
      let enough : ltb (to_word size) (add_word inodeblocks 2) ≡ false =
        le→ltb (to_word size) (add_word inodeblocks 2) (omega arith) in
      (t', rw (sized, enough, called, no_inodes, ◌>>=◌) run, e)
