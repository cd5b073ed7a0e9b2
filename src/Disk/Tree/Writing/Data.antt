-- ===== src/Disk/Tree/Writing/Data.antt =====
-- `treedisk_write` of src/block/treedisk.c finds the data block of an offset.
use cs4411_p.Prelude.{
  true, lt_of_get_elem?, length, get_elem?_of_lt, Bool, ◌≤◌, ◌≢◌, ◌≡◌, ◌∙◌, ◌<◌, ◌+◌, ◌*◌, ℕ, zero,
  word_mod, sym, suc, some, refl, inr, inl, get_elem?, arith, ap, List,
}
use cs4411_p.Store.{Block, BlockStore}
use cs4411_p.Store.Contract.{View, Implements}
use cs4411_p.Disk.Tree.Layout.{refs_per_block, null_block, fetch}
use cs4411_p.Disk.Tree.Access.{Disk, disk, fetch_lem, null_ref, length-null_block}
use cs4411_p.Disk.Tree.Files.{ref_index, write_down}
use cs4411_p.Disk.Tree.FreeList.Chain.{Node, n_free}
use cs4411_p.Disk.Tree.Writing.Positions.{
  Position, Positions, IsWithin, IsPlaced, IsWithin-self, IsWithin-parent, IsPlaced-agree,
}
use cs4411_p.Disk.Tree.Writing.Child.{IsChild}
use cs4411_p.Disk.Tree.Writing.Walking.{Walked-weaken, Walked-read}
use cs4411_p.Disk.Tree.Writing.Down.{IsIn, IsDown, IsStart, start-IsChild, IsDown-zero}
use cs4411_p.Disk.Tree.Writing.Level.{level-IsDown}
use cs4411_p.Disk.Tree.Writing.Next.{IsWithin-child, hole-IsPlaced, next-IsStart}

module _ {S : Type 0} (bs : BlockStore S) (V : S → Type 0) (v : S → View) (below_ino : ℕ)
    (imp : Implements bs V v) where
  -- The walk from any start at `level` ends.
  abbrev Reaches : ℕ → Type 0
  Reaches level =
      (ino index offset : ℕ) (file : ℕ → Block) (t : S) (sb : Block) (nodes : List Node)
      (g : Positions) (parent : Block) (i parent_off b : ℕ)
      → level ≤ 4
      → offset < word_mod
      → IsStart bs V v below_ino imp ino level index file t sb nodes g parent i parent_off b
      → IsWithin 0 offset level index
      → level < n_free nodes
      → (d : ℕ) × (t' : S) × (write_down bs below_ino level t sb parent i parent_off offset
          ≡ some (d, t'))
        × IsDown bs V v below_ino imp ino level index offset file t sb nodes g parent i parent_off d
            t'

  module _ (level : ℕ) (ih : Reaches level) (ino index offset : ℕ) (file : ℕ → Block) (t : S)
      (sb : Block) (nodes : List Node) (g : Positions) (parent : Block) (i parent_off b : ℕ)
      (le : suc level ≤ 4) (small : offset < word_mod)
      (s : IsStart bs V v below_ino imp ino
        (suc level)
        index
        file
        t
        sb
        nodes
        g
        parent
        i
        parent_off
        b)
      (within : IsWithin 0 offset (suc level) index) (lt : suc level < n_free nodes) {flag : Bool}
      {n : ℕ} {sb1 : Block} {t1 : S}
      (c : IsChild bs V v below_ino imp
        (ino, suc level, index)
        t
        sb
        nodes
        g
        parent
        i
        parent_off
        b
        flag
        n
        sb1
        t1) where
    -- The walk after the block at the start, with its contents.
    after_child :
        (refs : Block) (t2 : S)
        → V t2
        → disk bs V v below_ino t2 ≡ disk bs V v below_ino t1
        → length refs ≡ refs_per_block
        → ((k r : ℕ) → get_elem? refs k ≡ some r → r ≢ 0 → disk bs V v below_ino t2 n ≡ some refs)
        → ((k r : ℕ)
            → get_elem? refs k ≡ some r
            → IsPlaced
                (disk bs V v below_ino t2)
                c.g'
                ino
                level
                (index * refs_per_block + k)
                r
                file)
        → (d : ℕ) × (t' : S) × (write_down bs below_ino level t2 sb1 refs
              (ref_index offset level)
              n
              offset
            ≡ some (d, t'))
          × IsDown bs V v below_ino imp ino
              (suc level)
              index
              offset
              file
              t
              sb
              nodes
              g
              parent
              i
              parent_off
              d
              t'
    after_child refs t2 w2 same len on_disk below =
        let p : Position = (ino, suc level, index) in
        let j = ref_index offset level in
        let lt_j : j < refs_per_block = omega arith in
        let (r, at_j) = get_elem?_of_lt refs j (rw len lt_j) in
        let walked =
          Walked-read bs V v below_ino imp (IsIn ino (suc level) index)
            (Walked-weaken bs V v below_ino imp (λ q. q ≡ p) (IsIn ino (suc level) index)
              (λ q e. rw e (refl, IsWithin-self (suc level) index)) c.walked)
            w2 same in
        let (x, hx) = c.there in
        let start =
          next-IsStart bs V v below_ino imp ino level index j r file t2 sb1 c.nodes' c.g' n refs
            walked.system c.at_place at_j (x, ap (λ (w : Disk). w n) same ∙ hx) (on_disk j r at_j)
            (below j r at_j) in
        let within' = IsWithin-child offset level index (omega arith) small within in
        let (d, t', run, down) =
          ih ino (index * refs_per_block + j) offset file t2 sb1 c.nodes' c.g' refs j n r
            (omega arith) small start within' (omega (arith, c.enough)) in
        (
          d,
          t',
          run,
          level-IsDown bs V v below_ino imp ino level index offset file parent i parent_off n refs j
              walked c.is_block c.at_place len lt_j within' below down
              (ap (λ (w : Disk). w parent_off) same ∙ c.linked) s.nonzero s.used s.outside,
        )

    -- The block was there.
    after_old :
        flag ≡ true
        → b ≢ 0
        → n ≡ b
        → (t2 : S) × (refs : Block) × (fetch bs below_ino t1 n ≡ some (refs, t2))
          × ((d : ℕ) × (t' : S) × (write_down bs below_ino level t2 sb1 refs
                  (ref_index offset level)
                  n
                  offset
                ≡ some (d, t'))
              × IsDown bs V v below_ino imp ino
                  (suc level)
                  index
                  offset
                  file
                  t
                  sb
                  nodes
                  g
                  parent
                  i
                  parent_off
                  d
                  t')
    after_old is_old nz same_b = elim s.placed [
      | inl (e, holes) ↦ absurd (nz e)
      | inr (nz', at_g, (refs, at_w, len, below)) ↦
          let here : disk bs V v below_ino t1 n ≡ some refs =
            c.same n nz ∙ ap (disk bs V v below_ino t) same_b ∙ at_w in
          let (t2, called, w2, same) =
            fetch_lem bs V v below_ino imp t1 n c.walked.system.valid refs here in
          let same_t : (x : ℕ) → disk bs V v below_ino t2 x ≡ disk bs V v below_ino t x =
            λ x. ap (λ (w : Disk). w x) same ∙ c.same x nz in
          (
            t2,
            refs,
            called,
            after_child refs t2 w2 same len (λ k r h nzr. ap (λ (w : Disk). w n) same ∙ here)
                (λ k r h.
                  IsPlaced-agree (disk bs V v below_ino t) (disk bs V v below_ino t2) g c.g' ino
                    level (index * refs_per_block + k) r file file
                    (λ x lv ix at in_q.
                      (same_t x, c.walked.places_kept x (ino, lv, ix) at ∙ sym at))
                    (λ k' h'. refl) (below k r h)),
          )
    ]

    -- The block is new.
    after_new :
        b ≡ 0
        → (d : ℕ) × (t' : S) × (write_down bs below_ino level t1 sb1 null_block
              (ref_index offset level)
              n
              offset
            ≡ some (d, t'))
          × IsDown bs V v below_ino imp ino
              (suc level)
              index
              offset
              file
              t
              sb
              nodes
              g
              parent
              i
              parent_off
              d
              t'
    after_new e = elim s.placed [
      | inr (nz, at_g, more) ↦ absurd (nz e)
      | inl (e', holes) ↦
          after_child null_block t1 c.walked.system.valid refl length-null_block
            (λ k r h nzr. absurd (nzr (null_ref k r h)))
            (λ k r h.
              let lt_k : k < refs_per_block =
                omega (arith, lt_of_get_elem? null_block k h, length-null_block) in
              rw (null_ref k r h) (
                hole-IsPlaced (disk bs V v below_ino t1) c.g' ino level (index * refs_per_block + k)
                  file (λ k' h'. holes k' (IsWithin-parent 0 k' level index k lt_k h'))))
    ]

  reaches : (level : ℕ) → Reaches level
  unfolding write_down
  reaches zero ino index offset file t sb nodes g parent i parent_off b le small s within lt =
      IsDown-zero bs V v below_ino imp ino index offset file t sb nodes g parent i parent_off b s
        within lt
  reaches (suc level) ino index offset file t sb nodes g parent i parent_off b le small s within
        lt =
      let ih = reaches level in
      let (flag, n, sb1, t1, run, c) =
        start-IsChild bs V v below_ino imp ino (suc level) index file t sb nodes g parent i
          parent_off b s (omega arith) in
      elim c.found [
        | inl (is_old, nz, same_b) ↦
            let (t2, refs, called, (d, t', run', down)) =
              after_old level ih ino index offset file t sb nodes g parent i parent_off b le small s
                within lt c is_old nz same_b in
            (d, t', rw (write_down, run, is_old, called) run', down)
        | inr (is_new, e) ↦
            let (d, t', run', down) =
              after_new level ih ino index offset file t sb nodes g parent i parent_off b le small s
                within lt c e in
            (d, t', rw (write_down, run, is_new) run', down)
      ]

  -- From any start, where there are more free blocks than levels, the walk ends at the data block of
  -- the offset; a write of that block changes the file at the offset only.
  pub write_down_lem :
      (ino level index offset : ℕ) (file : ℕ → Block) (t : S) (sb : Block) (nodes : List Node)
      (g : Positions) (parent : Block) (i parent_off b : ℕ)
      → level ≤ 4
      → offset < word_mod
      → IsStart bs V v below_ino imp ino level index file t sb nodes g parent i parent_off b
      → IsWithin 0 offset level index
      → level < n_free nodes
      → (d : ℕ) × (t' : S) × (write_down bs below_ino level t sb parent i parent_off offset
          ≡ some (d, t'))
        × IsDown bs V v below_ino imp ino level index offset file t sb nodes g parent i parent_off d
            t'
  write_down_lem ino level = reaches level ino
