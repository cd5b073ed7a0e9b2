-- ===== src/Disk/Tree/Create/Setup.antt =====
-- `setup_freelist` of src/block/treedisk.c makes a free list of all blocks from one on.
use cs4411_p.Prelude.{
  true, ◌∙◌, refl, ltb→le, length, ap, ◌≤◌, ◌≢◌, ◌≡◌, ◌∷◌, ◌<◌, ◌-◌, ◌+◌, ℕ, zero, suc, some,
  ltb→lt, ltb, inr, inl, arith, List, Bool-cases,
}
use cs4411_p.Store.{Block, BlockStore}
use cs4411_p.Store.Contract.{View, Implements}
use cs4411_p.Disk.Tree.Layout.{refs_per_block}
use cs4411_p.Disk.Tree.Access.{Disk, write_at, write_at_self, write_at_ne, disk, put_block_lem}
use cs4411_p.Disk.Tree.Layout.{put_block}
use cs4411_p.Disk.Tree.FreeList.Counting.{count}
use cs4411_p.Disk.Tree.FreeList.Chain.{Node, IsChain, times_free, exists-write}
use cs4411_p.Disk.Tree.FreeList.Release.{IsChain-agree}
use cs4411_p.Disk.Tree.Create.{fill_refs, next_after, setup_from}
use cs4411_p.Disk.Tree.Create.Filling.{
  inside_above, inside, inside_none, inside_first, inside_join, length-fill_refs, next_after_cases,
  count-fill_refs,
}

-- The disk has the blocks below `nblocks`.
abbrev pub HasBlocks : Disk → ℕ → Type 0
HasBlocks w nblocks = (k : ℕ) → k < nblocks → (b : Block) × (w k ≡ some b)

module _ {S : Type 0} (bs : BlockStore S) (V : S → Type 0) (v : S → View) (below_ino : ℕ)
    (imp : Implements bs V v) where
  -- What `setup_freelist` leaves: the blocks from `next` on are free once more than before, and those below are as they were.
  pub record Setup (t : S) (nodes : List Node) (next nblocks head' : ℕ) (t' : S) : Type 0 where
    pub valid : V t'
    pub nodes' : List Node
    pub chain : IsChain (disk bs V v below_ino t') head' nodes'
    pub listed : (x : ℕ) → x ≢ 0 → times_free nodes' x ≡ times_free nodes x + inside next nblocks x
    pub blocks : HasBlocks (disk bs V v below_ino t') nblocks
    pub kept : (k : ℕ) → k < next → disk bs V v below_ino t' k ≡ disk bs V v below_ino t k

  -- One round: the block `next` in front of the list, with references to those before `next'`.
  module _ (t : S) (head : ℕ) (nodes : List Node) (next nblocks next' : ℕ) (refs : List ℕ) (t1 : S)
      (same : disk bs V v below_ino t1 ≡ write_at (disk bs V v below_ino t) next (head ∷ refs))
      (positive : 0 < next) (below : (x : ℕ) → x ≢ 0 → 0 < times_free nodes x → x < next)
      (counted : (x : ℕ) → x ≢ 0 → count x refs ≡ inside (next + 1) next' x) (after : next < next')
      (before : next' ≤ nblocks) where
    abbrev w0 : Disk
    w0 = disk bs V v below_ino t

    abbrev w1 : Disk
    w1 = disk bs V v below_ino t1

    same_below : (k : ℕ) → k ≢ next → w1 k ≡ w0 k
    same_below k ne = ap (λ (u : Disk). u k) same ∙ write_at_ne w0 next (head ∷ refs) k ne

    round_times :
        (x : ℕ)
        → x ≢ 0
        → times_free ((next, head ∷ refs) ∷ nodes) x ≡ times_free nodes x + inside next next' x
    round_times x nz = omega (arith, counted x nz, inside_first next next' x after)

    round_below : (x : ℕ) → x ≢ 0 → 0 < times_free ((next, head ∷ refs) ∷ nodes) x → x < next'
    round_below x nz lt = elim (Bool-cases (ltb x next')) [
      | inl e ↦ ltb→lt x next' e
      | inr e ↦
          let le = ltb→le x next' e in
          let listed : 0 < times_free nodes x =
            omega (arith, round_times x nz, inside_above next next' x le) in
          absurd (omega (arith, below x nz listed))
    ]

    round-IsChain :
        length refs ≡ 255 → IsChain w0 head nodes → IsChain w1 next ((next, head ∷ refs) ∷ nodes)
    round-IsChain len ch = (
      refl,
      (
        λ e. absurd (omega arith),
        ap (λ (u : Disk). u next) same ∙ write_at_self w0 next (head ∷ refs),
        ap suc len,
        (
          head,
          refl,
          IsChain-agree w0 w1 head nodes
              (λ k nz lt. same_below k (λ e. absurd (omega (arith, below k nz lt)))) ch,
        ),
      ),
    )

    round_has : HasBlocks w0 nblocks → HasBlocks w1 nblocks
    round_has has k lt =
        let (b, at) = has k lt in
        let (b', at') = exists-write w0 next (head ∷ refs) k at in
        (b', ap (λ (u : Disk). u k) same ∙ at')

    round_result :
        {head' : ℕ} {t' : S}
        → Setup t1 ((next, head ∷ refs) ∷ nodes) next' nblocks head' t'
        → Setup t nodes next nblocks head' t'
    round_result a = record {
      valid = a.valid;
      nodes' = a.nodes';
      chain = a.chain;
      listed = λ x nz. omega (
        arith,
        a.listed x nz,
        round_times x nz,
        inside_join next next' nblocks x (omega arith) before,
      );
      blocks = a.blocks;
      kept = λ k lt. a.kept k (omega arith) ∙ same_below k (λ e. omega arith);
    }

    round_lem :
        length refs ≡ 255
        → IsChain w0 head nodes
        → HasBlocks w0 nblocks
        → IsChain w1 next ((next, head ∷ refs) ∷ nodes)
          × HasBlocks w1 nblocks
          × ((x : ℕ) → x ≢ 0 → 0 < times_free ((next, head ∷ refs) ∷ nodes) x → x < next')
          × ((head' : ℕ) (t' : S)
              → Setup t1 ((next, head ∷ refs) ∷ nodes) next' nblocks head' t'
              → Setup t nodes next nblocks head' t')
    round_lem len ch has =
        (round-IsChain len ch, round_has has, round_below, λ head' t' a. round_result a)

  setup_from_step :
      (fuel : ℕ) (t : S) (head next nblocks : ℕ) {t1 : S}
      → ltb next nblocks ≡ true
      → put_block bs below_ino t next (head ∷ fill_refs (refs_per_block - 1) (next + 1) nblocks)
        ≡ some t1
      → setup_from bs below_ino (suc fuel) t head next nblocks
        ≡ setup_from bs below_ino fuel t1 next
            (next_after (refs_per_block - 1) (next + 1) nblocks)
            nblocks
  unfolding setup_from
  setup_from_step fuel t head next nblocks e called = rw (setup_from, e, called)

  pub setup_from_lem :
      (fuel : ℕ) (t : S) (head : ℕ) (nodes : List Node) (next nblocks : ℕ)
      → V t
      → IsChain (disk bs V v below_ino t) head nodes
      → HasBlocks (disk bs V v below_ino t) nblocks
      → 0 < next
      → next ≤ nblocks
      → ((x : ℕ) → x ≢ 0 → 0 < times_free nodes x → x < next)
      → nblocks < fuel + next
      → (head' : ℕ) × (t' : S) × (setup_from bs below_ino fuel t head next nblocks
          ≡ some (head', t'))
        × Setup t nodes next nblocks head' t'
  unfolding setup_from
  setup_from_lem zero t head nodes next nblocks w ch has positive le below enough =
      absurd (omega arith)
  setup_from_lem (suc fuel) t head nodes next nblocks w ch has positive le below enough =
      elim (Bool-cases (ltb next nblocks)) [
        | inr e ↦
            let last : next ≡ nblocks = omega (arith, ltb→le next nblocks e) in
            (
              head,
              t,
              rw (setup_from, e),
              record {
                valid = w;
                nodes' = nodes;
                chain = ch;
                listed = λ x nz. rw last (omega (arith, inside_none nblocks x));
                blocks = has;
                kept = λ k lt. refl;
              },
            )
        | inl e ↦
            let lt = ltb→lt next nblocks e in
            let (old, there) = has next lt in
            let n = refs_per_block - 1 in
            let refs = fill_refs n (next + 1) nblocks in
            let (t1, called, w1, same) =
              put_block_lem bs V v below_ino imp t next w old (head ∷ refs) there in
            let next' = next_after n (next + 1) nblocks in
            let (lo, hi) = next_after_cases n (next + 1) nblocks (omega arith) in
            let (chain', has', below', back) =
              round_lem t head nodes next nblocks next' refs t1 same positive below
                (λ x nz. count-fill_refs x n (next + 1) nblocks nz (omega arith)) (omega arith) hi
                (length-fill_refs n (next + 1) nblocks) ch has in
            let (head', t', run, a) =
              setup_from_lem fuel t1 next ((next, head ∷ refs) ∷ nodes) next' nblocks w1 chain' has'
                (omega arith) hi below' (omega arith) in
            (head', t', setup_from_step fuel t head next nblocks e called ∙ run, back head' t' a)
      ]
