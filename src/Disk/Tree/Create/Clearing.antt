-- ===== src/Disk/Tree/Create/Clearing.antt =====
-- The loop of `treedisk_create` in src/block/treedisk.c that clears the inodes.
use cs4411_p.Prelude.{
  ◌≤◌, ◌≢◌, ◌≡◌, ◌∙◌, ◌==◌, ◌<◌, ◌+◌, ℕ, zero, suc, some, refl, pos, inr, inl, arith, ap,
  Bool-cases, ==→≡,
}
use cs4411_p.Store.{Block, BlockStore}
use cs4411_p.Store.Contract.{View, Implements}
use cs4411_p.Disk.Tree.Layout.{null_block}
use cs4411_p.Disk.Tree.Access.{Disk, write_at_self, write_at_ne, disk, write_lem}
use cs4411_p.Disk.Tree.Create.{clear_inodes}

module _ {S : Type 0} (bs : BlockStore S) (V : S → Type 0) (v : S → View) (below_ino : ℕ)
    (imp : Implements bs V v) where
  -- The blocks from `i` on are cleared, the others stay as they were.
  pub record Cleared (n : ℕ) (t : S) (i : ℕ) (t' : S) : Type 0 where
    pub valid : V t'
    pub cleared : (k : ℕ) → i ≤ k → k < i + n → disk bs V v below_ino t' k ≡ some null_block
    pub kept_below : (k : ℕ) → k < i → disk bs V v below_ino t' k ≡ disk bs V v below_ino t k
    pub kept_above : (k : ℕ) → i + n ≤ k → disk bs V v below_ino t' k ≡ disk bs V v below_ino t k

  pub clear_inodes_lem :
      (n : ℕ) (t : S) (i : ℕ)
      → V t
      → ((k : ℕ) → i ≤ k → k < i + n → (b : Block) × (disk bs V v below_ino t k ≡ some b))
      → (t' : S) × (clear_inodes bs below_ino n t i ≡ some (pos 0, t')) × Cleared n t i t'
  unfolding clear_inodes
  clear_inodes_lem zero t i w has = (
    t,
    refl,
    record {
      valid = w;
      cleared = λ k lo hi. absurd (omega arith);
      kept_below = λ k lt. refl;
      kept_above = λ k le. refl;
    },
  )
  clear_inodes_lem (suc n) t i w has =
      let (old, there) = has i (omega arith) (omega arith) in
      let (t1, called, w1, same) = write_lem bs V v below_ino imp t i w old null_block there in
      let w0 = disk bs V v below_ino t in
      let at : (k : ℕ) → k ≢ i → disk bs V v below_ino t1 k ≡ w0 k =
        λ k ne. ap (λ (u : Disk). u k) same ∙ write_at_ne w0 i null_block k ne in
      let here : disk bs V v below_ino t1 i ≡ some null_block =
        ap (λ (u : Disk). u i) same ∙ write_at_self w0 i null_block in
      let (t', run, a) = clear_inodes_lem n t1 (i + 1) w1 (λ k lo hi.
        let (b, hb) = has k (omega arith) (omega arith) in
        (b, at k (λ e. absurd (omega arith)) ∙ hb)) in
      (
        t',
        rw called run,
        record {
          valid = a.valid;
          cleared = λ k lo hi. elim (Bool-cases (k == i)) [
            | inl e ↦ let same_k = ==→≡ k i e in rw same_k (a.kept_below i (omega arith) ∙ here)
            | inr ne ↦ a.cleared k (ground arith) (omega arith)
          ];
          kept_below = λ k lt. a.kept_below k (omega arith) ∙ at k (λ e. absurd (omega arith));
          kept_above = λ k le. a.kept_above k (omega arith) ∙ at k (λ e. absurd (omega arith));
        },
      )
