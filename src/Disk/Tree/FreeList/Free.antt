-- ===== src/Disk/Tree/FreeList/Free.antt =====
-- `treedisk_free_block` of src/block/treedisk.c puts a block on the free list.
use cs4411_p.Prelude.{
  ≢→==, false, ◌>>=◌, subst, ◌==◌, inr, inl, zero, sym, suc, refl, get_elem?, ap, [], ◌≢◌, ◌≡◌, ◌∷◌,
  ◌∙◌, ℕ, some, set, arith, List,
}
use cs4411_p.Store.{Block, BlockStore}
use cs4411_p.Store.Contract.{View, Implements}
use cs4411_p.Disk.Tree.Layout.{refs_per_block, null_block, set_free_list}
use cs4411_p.Disk.Tree.Access.{
  fetch_lem, write_at_self, write_at_ne, write_at_ne, put_block_lem, write_at, Disk, disk,
}
use cs4411_p.Disk.Tree.FreeList.{free_list, put_block, put_block, push_head, free_block}
use cs4411_p.Disk.Tree.FreeList.Counting.{first_empty_lem, is_at, is_at_self}
use cs4411_p.Disk.Tree.FreeList.Chain.{exists-write, Node, times_free, HasFree}
use cs4411_p.Disk.Tree.FreeList.Release.{
  IsEmptyNode, null-IsEmptyNode, null-empty, Freed, pushed_lem, placed_lem,
}

module _ {S : Type 0} (bs : BlockStore S) (V : S → Type 0) (v : S → View) (below_ino : ℕ)
    (imp : Implements bs V v) where
  push_head_lem :
      (t : S) (sb : Block) (target b : ℕ) {old : Block}
      → V t
      → target ≢ 0
      → disk bs V v below_ino t 0 ≡ some sb
      → disk bs V v below_ino t target ≡ some old
      → (t' : S) × (push_head bs below_ino t sb target b ≡ some (set_free_list sb target, t'))
        × V t'
        × (disk bs V v below_ino t'
            ≡ write_at
                (write_at (disk bs V v below_ino t) 0 (set_free_list sb target))
                target
                (set null_block 0 b))
  unfolding push_head
  push_head_lem t sb target b {old} w nz super there =
      let sb' = set_free_list sb target in
      let refs = set null_block 0 b in
      let w0 = disk bs V v below_ino t in
      let (t1, called1, w1, same1) = put_block_lem bs V v below_ino imp t 0 w sb sb' super in
      let still : disk bs V v below_ino t1 target ≡ some old =
        ap (λ (u : Disk). u target) same1 ∙ write_at_ne w0 0 sb' target nz ∙ there in
      let (t2, called2, w2, same2) =
        put_block_lem bs V v below_ino imp t1 target w1 old refs still in
      (t2, rw (called1, called2), w2, same2 ∙ ap (λ u. write_at u target refs) same1)

  module _ (t : S) (sb : Block) (target : ℕ) (nz : target ≢ 0) (t2 : S) (w2 : V t2)
      (same : disk bs V v below_ino t2 ≡ write_at (disk bs V v below_ino t) target null_block) where
    at_other : (k : ℕ) → k ≢ target → disk bs V v below_ino t2 k ≡ disk bs V v below_ino t k
    at_other k ne =
        ap (λ (u : Disk). u k) same ∙ write_at_ne (disk bs V v below_ino t) target null_block k ne

    at_target : disk bs V v below_ino t2 target ≡ some null_block
    at_target =
        ap (λ (u : Disk). u target) same ∙ write_at_self (disk bs V v below_ino t) target null_block

    -- The rest of `free_block` where the free list is empty.
    only_lem :
        (f : HasFree (disk bs V v below_ino t) sb [])
        → (t' : S) × (put_block bs below_ino t2 0 (set_free_list sb target) ≡ some t')
          × Freed bs V v below_ino imp t sb [] target (set_free_list sb target) t'
    only_lem f =
        let sb' = set_free_list sb target in
        let w0 = disk bs V v below_ino t2 in
        let super : w0 0 ≡ some sb = at_other 0 (λ e. nz (sym e)) ∙ f.super in
        let (t', called, w', same') = put_block_lem bs V v below_ino imp t2 0 w2 sb sb' super in
        let at : (k : ℕ) → disk bs V v below_ino t' k ≡ write_at w0 0 sb' k =
          λ k. ap (λ (u : Disk). u k) same' in
        let empty = subst (IsEmptyNode null_block) (sym f.chain) null-empty in
        (
          t',
          called,
          pushed_lem bs V v below_ino imp t sb [] target f nz refl null_block t' empty w'
              (at 0 ∙ write_at_self w0 0 sb')
              (at target ∙ write_at_ne w0 0 sb' target nz ∙ at_target)
              (λ k nzk ne. at k ∙ write_at_ne w0 0 sb' k nzk ∙ at_other k ne),
        )

    -- The rest of `free_block` where the first free list block is full.
    full_lem :
        (nodes : List Node) (f : HasFree (disk bs V v below_ino t) sb nodes)
        → times_free nodes target ≡ 0
        → (t' : S) × (push_head bs below_ino t2 sb target f.head
            ≡ some (set_free_list sb target, t'))
          × Freed bs V v below_ino imp t sb nodes target (set_free_list sb target) t'
    full_lem nodes f used =
        let sb' = set_free_list sb target in
        let w0 = disk bs V v below_ino t2 in
        let refs = set null_block 0 f.head in
        let super : w0 0 ≡ some sb = at_other 0 (λ e. nz (sym e)) ∙ f.super in
        let (t', called, w', same') = push_head_lem t2 sb target f.head w2 nz super at_target in
        let wt = write_at w0 0 sb' in
        let at : (k : ℕ) → disk bs V v below_ino t' k ≡ write_at wt target refs k =
          λ k. ap (λ (u : Disk). u k) same' in
        (
          t',
          called,
          pushed_lem bs V v below_ino imp t sb nodes target f nz used refs t'
              (null-IsEmptyNode f.head) w'
              (at 0 ∙ write_at_ne wt target refs 0 (λ e. nz (sym e)) ∙ write_at_self w0 0 sb')
              (at target ∙ write_at_self wt target refs)
              (λ k nzk ne.
                at k
                ∙ write_at_ne wt target refs k ne
                ∙ write_at_ne w0 0 sb' k nzk
                ∙ at_other k ne),
        )

    -- The rest of `free_block` where place `suc i` is empty.
    place_lem :
        (c : Node) (nodes : List Node) (i : ℕ)
        → HasFree (disk bs V v below_ino t) sb (c ∷ nodes)
        → times_free (c ∷ nodes) target ≡ 0
        → get_elem? c.1 (suc i) ≡ some 0
        → disk bs V v below_ino t2 c.0 ≡ some c.1
        → (t' : S) × (put_block bs below_ino t2 c.0 (set c.1 (suc i) target) ≡ some t')
          × Freed bs V v below_ino imp t sb (c ∷ nodes) target sb t'
    place_lem c nodes i f used empty here =
        let w0 = disk bs V v below_ino t2 in
        let refs = set c.1 (suc i) target in
        let (t', called, w', same') = put_block_lem bs V v below_ino imp t2 c.0 w2 c.1 refs here in
        let at : (k : ℕ) → disk bs V v below_ino t' k ≡ write_at w0 c.0 refs k =
          λ k. ap (λ (u : Disk). u k) same' in
        let (b, still) = exists-write w0 c.0 refs target at_target in
        (
          t',
          called,
          placed_lem bs V v below_ino imp t sb c nodes target i nz f used empty t' w'
              (at c.0 ∙ write_at_self w0 c.0 refs)
              (λ k ne ne'. at k ∙ write_at_ne w0 c.0 refs k ne' ∙ at_other k ne)
              (b, at target ∙ still),
        )

  -- Over a store that behaves as an array of blocks, `free_block` puts a block that exists and is
  -- not free on the free list, and changes no block that was not free but that and the superblock.
  pub free_block_lem :
      (t : S) (sb : Block) (nodes : List Node) (target : ℕ) {old : Block}
      → V t
      → HasFree (disk bs V v below_ino t) sb nodes
      → target ≢ 0
      → times_free nodes target ≡ 0
      → disk bs V v below_ino t target ≡ some old
      → (sb' : Block) × (t' : S) × (free_block bs below_ino t sb target ≡ some (sb', t'))
        × Freed bs V v below_ino imp t sb nodes target sb' t'
  unfolding free_block
  free_block_lem t sb [] target {old} w f nz used there =
      let (t1, called1, w1, same1) =
        put_block_lem bs V v below_ino imp t target w old null_block there in
      let (t', called, a) = only_lem t sb target nz t1 w1 same1 f in
      let start : free_list sb ≡ some 0 = f.first ∙ ap some f.chain in
      (set_free_list sb target, t', rw (called1, start, ◌>>=◌, called), a)
  free_block_lem t sb (c ∷ nodes) target {old} w f nz used there =
      let (e, (nzc, at, len, more)) = f.chain in
      let (t1, called1, w1, same1) =
        put_block_lem bs V v below_ino imp t target w old null_block there in
      let apart : c.0 ≢ target =
        λ e'. absurd (omega (arith, used, is_at_self c.0, ap (is_at c.0) e')) in
      let at1 : disk bs V v below_ino t1 c.0 ≡ some c.1 =
        at_other t sb target nz t1 w1 same1 c.0 apart ∙ at in
      let (t2, called2, w2, same2) = fetch_lem bs V v below_ino imp t1 c.0 w1 c.1 at1 in
      let start : free_list sb ≡ some c.0 = f.first ∙ ap some e in
      let nonempty : (c.0 == 0) ≡ false = ≢→== c.0 0 nzc in
      elim (first_empty_lem c.1 1 255 (rw len (omega arith))) [
        | inl e' ↦
            let (t', called, a) =
              full_lem t sb target nz t2 w2 (same2 ∙ same1) (c ∷ nodes) f used in
            let pushed = ap (push_head bs below_ino t2 sb target) (sym e) ∙ called in
            (
              set_free_list sb target,
              t',
              rw (called1, start, ◌>>=◌, nonempty, called2, e') pushed,
              a,
            )
        | inr (suc i, e', lo, hi, at_i) ↦
            let here : disk bs V v below_ino t2 c.0 ≡ some c.1 =
              ap (λ (u : Disk). u c.0) same2 ∙ at1 in
            let (t', called, a) =
              place_lem t sb target nz t2 w2 (same2 ∙ same1) c nodes i f used at_i here in
            let notfull : (suc i == refs_per_block) ≡ false =
              ≢→== (suc i) refs_per_block (λ e. omega arith) in
            (sb, t', rw (called1, start, ◌>>=◌, nonempty, called2, e', notfull, called), a)
        | inr (zero, e', lo, hi, at_i) ↦ absurd (omega arith)
      ]
