-- ===== src/Disk/Tree/FreeList/Alloc.antt =====
-- `treedisk_alloc_block` of src/block/treedisk.c takes a block off the free list.
use cs4411_p.Prelude.{
  ◌>>=◌, ◌==◌, ≢→==, inr, inl, false, subst, ◌∙◌, ◌<◌, sym, set, refl, lt_of_get_elem?, length-set,
  get_elem?-set_self, get_elem?-set_ne, ap, ◌≤◌, ◌≢◌, ◌≡◌, ◌∷◌, ◌-◌, ◌+◌, ℕ, suc, some, get_elem?,
  arith, List,
}
use cs4411_p.Store.{Block, BlockStore}
use cs4411_p.Store.Contract.{View, Implements}
use cs4411_p.Disk.Tree.Layout.{refs_per_block, free_list, set_free_list, n_inodeblocks}
use cs4411_p.Disk.Tree.Access.{Disk, write_at_self, write_at_ne, disk, fetch_lem, put_block_lem}
use cs4411_p.Disk.Tree.FreeList.{take_head, take_ref, alloc_block}
use cs4411_p.Disk.Tree.FreeList.Counting.{
  n_free_in_none, n_free_in-set, is_at, is_at_self, is_at_ne, count_refs, count_refs-set,
  count_refs_none, last_ref_lem,
}
use cs4411_p.Disk.Tree.FreeList.Chain.{
  n_free, Node, IsChain, times_free, HasFree, IsChain-write_super, IsChain-write_other,
  exists-write,
}

module _ {S : Type 0} (bs : BlockStore S) (V : S → Type 0) (v : S → View) (below_ino : ℕ)
    (imp : Implements bs V v) where
  -- What an allocation leaves: block `n` was free once and is so no longer, the other blocks are
  -- free as before, and the blocks that were not free are as they were.
  pub record Allocated (t : S) (sb : Block) (nodes : List Node) (n : ℕ) (sb' : Block) (t' : S)
      : Type 0 where
    pub valid : V t'
    pub nodes' : List Node
    pub free : HasFree (disk bs V v below_ino t') sb' nodes'
    pub is_block : n ≢ 0
    pub taken : (x : ℕ) → x ≢ 0 → times_free nodes x ≡ is_at n x + times_free nodes' x
    pub fewer : n_free nodes ≡ suc (n_free nodes')
    pub there : (b : Block) × (disk bs V v below_ino t' n ≡ some b)
    pub kept :
        (k : ℕ)
        → k ≢ 0
        → times_free nodes k ≡ 0
        → disk bs V v below_ino t' k ≡ disk bs V v below_ino t k
    pub same_size : n_inodeblocks sb' ≡ n_inodeblocks sb

  module _ (t : S) (sb : Block) (c : Node) (nodes : List Node) (w : V t)
      (f : HasFree (disk bs V v below_ino t) sb (c ∷ nodes)) where
    head_lem :
        ((k : ℕ) → suc k ≤ refs_per_block - 1 → get_elem? c.1 (suc k) ≡ some 0)
        → (n : ℕ) × (sb' : Block) × (t' : S) × (take_head bs below_ino t sb c.0 c.1
            ≡ some (n, sb', t'))
          × Allocated t sb (c ∷ nodes) n sb' t'
    unfolding take_head
    head_lem all_empty =
        let (e, (nz, at, len, (next, first, rest))) = f.chain in
        let sb' = set_free_list sb next in
        let (t', called, w', same) = put_block_lem bs V v below_ino imp t 0 w sb sb' f.super in
        let empty : (x : ℕ) → x ≢ 0 → count_refs x c.1 ≡ 0 =
          λ x nzx. count_refs_none x c.1 nzx (λ k lt. all_empty k (omega arith)) in
        let w0 = disk bs V v below_ino t in
        let (b, still) = exists-write w0 0 sb' c.0 at in
        (
          c.0,
          sb',
          t',
          rw (first, called),
          record {
            valid = w';
            nodes' = nodes;
            free = record {
              head = next;
              super = rw same (write_at_self w0 0 sb');
              first = get_elem?-set_self sb 1 next (lt_of_get_elem? sb 1 f.first);
              chain = rw same (IsChain-write_super w0 next nodes sb' rest);
              once = λ x nzx. omega (arith, f.once x nzx);
              exist = λ x nzx lt.
                  let (bx, hx) = f.exist x nzx (omega arith) in
                  (bx, rw same (write_at_ne w0 0 sb' x nzx ∙ hx));
            };
            is_block = nz;
            taken = λ x nzx. omega (arith, empty x nzx);
            fewer = omega (arith, n_free_in_none c.1 (λ k lt. all_empty k (omega arith)));
            there = (b, rw same still);
            kept = λ k nzk none_free. rw same (write_at_ne w0 0 sb' k nzk);
            same_size = get_elem?-set_ne sb next (λ e'. omega arith);
          },
        )

    ref_lem :
        (k n : ℕ)
        → get_elem? c.1 (suc k) ≡ some n
        → n ≢ 0
        → (n' : ℕ) × (sb' : Block) × (t' : S) × (take_ref bs below_ino t sb c.0 c.1 (suc k)
            ≡ some (n', sb', t'))
          × Allocated t sb (c ∷ nodes) n' sb' t'
    unfolding take_ref
    ref_lem k n at_k nzn =
        let (e, (nz, at, len, (next, first, rest))) = f.chain in
        let refs = set c.1 (suc k) 0 in
        let (t', called, w', same) = put_block_lem bs V v below_ino imp t c.0 w c.1 refs at in
        let w0 = disk bs V v below_ino t in
        let counted : (x : ℕ) → x ≢ 0 → count_refs x refs + is_at n x ≡ count_refs x c.1 = λ x nzx.
          omega (arith, count_refs-set x c.1 k 0 at_k, is_at_ne 0 x (λ e'. nzx (sym e'))) in
        let alone : times_free nodes c.0 ≡ 0 = omega (arith, f.once c.0 nz, is_at_self c.0) in
        let listed : 0 < times_free (c ∷ nodes) n = omega (arith, counted n nzn, is_at_self n) in
        let (bn, hn) = f.exist n nzn listed in
        let (b, still) = exists-write w0 c.0 refs n hn in
        (
          n,
          sb,
          t',
          rw (at_k, called),
          record {
            valid = w';
            nodes' = (c.0, refs) ∷ nodes;
            free = record {
              head = f.head;
              super = rw same (write_at_ne w0 c.0 refs 0 (λ e'. nz (sym e')) ∙ f.super);
              first = f.first;
              chain = (
                e,
                (
                  nz,
                  rw same (write_at_self w0 c.0 refs),
                  length-set c.1 (suc k) 0 ∙ len,
                  (
                    next,
                    get_elem?-set_ne c.1 0 (λ e'. omega arith) ∙ first,
                    subst (λ (z : Disk). IsChain z next nodes) (sym same)
                        (IsChain-write_other w0 next nodes c.0 refs alone rest),
                  ),
                ),
              );
              once = λ x nzx. omega (arith, f.once x nzx, counted x nzx);
              exist = λ x nzx lt.
                  let (bx, hx) = f.exist x nzx (omega (arith, counted x nzx)) in
                  let (bx', hx') = exists-write w0 c.0 refs x hx in (bx', rw same hx');
            };
            is_block = nzn;
            taken = λ x nzx. omega (arith, counted x nzx);
            fewer = omega (arith, n_free_in-set c.1 k at_k nzn);
            there = (b, rw same still);
            kept = λ j nzj none_free.
                rw same (write_at_ne w0 c.0 refs j (λ e'. differ j none_free e'));
            same_size = refl;
          },
        )
      where
        differ : (j : ℕ) → times_free (c ∷ nodes) j ≡ 0 → j ≡ c.0 → ⊥
        differ j none_free e = omega (arith, is_at_self c.0, ap (is_at c.0) e)

  -- Over a store that behaves as an array of blocks, and where the free list is not empty,
  -- `alloc_block` returns a block that was free: it takes that off the free list and changes no
  -- block that was not free but the superblock.
  pub alloc_block_lem :
      (t : S) (sb : Block) (c : Node) (nodes : List Node)
      → V t
      → HasFree (disk bs V v below_ino t) sb (c ∷ nodes)
      → (n : ℕ) × (sb' : Block) × (t' : S) × (alloc_block bs below_ino t sb ≡ some (n, sb', t'))
        × Allocated t sb (c ∷ nodes) n sb' t'
  unfolding alloc_block
  alloc_block_lem t sb c nodes w f =
      let (e, (nz, at, len, more)) = f.chain in
      let (t1, called, w1, same) = fetch_lem bs V v below_ino imp t c.0 w c.1 at in
      let f1 : HasFree (disk bs V v below_ino t1) sb (c ∷ nodes) = rw same f in
      let empty_head : (c.0 == 0) ≡ false = ≢→== c.0 0 nz in
      let start : free_list sb ≡ some c.0 = f.first ∙ ap some e in
      elim (last_ref_lem c.1 (refs_per_block - 1) (rw len (omega arith))) [
        | inl (none_left, all) ↦
            let (n, sb', t', run, a) = head_lem t1 sb c nodes w1 f1 all in
            (n, sb', t', rw (start, ◌>>=◌, empty_head, called, none_left) run, back a same)
        | inr (k, n, found, at_k, nzn) ↦
            let (n', sb', t', run, a) = ref_lem t1 sb c nodes w1 f1 k n at_k nzn in
            let full : (suc k == 0) ≡ false = ≢→== (suc k) 0 (λ e. omega arith) in
            (n', sb', t', rw (start, ◌>>=◌, empty_head, called, found, full) run, back a same)
      ]
    where
      back :
          {t1 : S} {n : ℕ} {sb' : Block} {t' : S}
          → Allocated t1 sb (c ∷ nodes) n sb' t'
          → disk bs V v below_ino t1 ≡ disk bs V v below_ino t
          → Allocated t sb (c ∷ nodes) n sb' t'
      back a same = record {
        valid = a.valid;
        nodes' = a.nodes';
        free = a.free;
        is_block = a.is_block;
        taken = a.taken;
        fewer = a.fewer;
        there = a.there;
        kept = λ k nzk h. a.kept k nzk h ∙ ap (λ (u : Disk). u k) same;
        same_size = a.same_size;
      }
