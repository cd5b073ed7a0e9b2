-- ===== src/Disk/Tree/Writing/Level.antt =====
-- One level of the walk of `treedisk_write` in src/block/treedisk.c, in front of the levels below it.
use cs4411_p.Prelude.{
  ◌==◌, set, refl, length-set, inr, inl, get_elem?-set_self, get_elem?-set_ne, Bool-cases, ==→≡,
  ==_refl, ◌≢◌, ◌≡◌, ◌∙◌, ◌<◌, ◌+◌, ◌*◌, ℕ, sym, suc, subst, some-injective, some, length,
  get_elem?, arith, ap, List,
}
use cs4411_p.Store.{Block, BlockStore}
use cs4411_p.Store.Contract.{View, Implements}
use cs4411_p.Disk.Tree.Layout.{refs_per_block}
use cs4411_p.Disk.Tree.Access.{write_at, write_at_ne, disk}
use cs4411_p.Disk.Tree.FreeList.Chain.{Node, times_free}
use cs4411_p.Disk.Tree.Writing.Positions.{
  Position, Positions, IsWithin, IsPlaced, IsWithin-self, IsWithin-same, IsWithin-parent,
  IsWithin-level, IsPlaced-agree,
}
use cs4411_p.Disk.Tree.Writing.Child.{Walked}
use cs4411_p.Disk.Tree.Writing.Walking.{Walked-weaken, still_out, Walked-trans}
use cs4411_p.Disk.Tree.Writing.Down.{update, update_other, IsIn, IsDown}

module _ {S : Type 0} (bs : BlockStore S) (V : S → Type 0) (v : S → View) (below_ino : ℕ)
    (imp : Implements bs V v) (ino level index offset : ℕ) (file : ℕ → Block) {t : S} {sb : Block}
    {nodes : List Node} {g : Positions} (parent : Block) (i parent_off : ℕ) {t2 : S} {sb2 : Block}
    {nodes2 : List Node} {g2 : Positions} (b : ℕ) (refs : Block) (j : ℕ)
    (first : Walked bs V v below_ino imp
      (IsIn ino (suc level) index)
      t
      sb
      nodes
      g
      parent_off
      t2
      sb2
      nodes2
      g2)
    (nz_b : b ≢ 0) (at_b : g2 b ≡ some (ino, suc level, index)) (len : length refs ≡ refs_per_block)
    (lt_j : j < refs_per_block) (within : IsWithin 0 offset level (index * refs_per_block + j))
    (below : (k r : ℕ)
      → get_elem? refs k ≡ some r
      → IsPlaced (disk bs V v below_ino t2) g2 ino level (index * refs_per_block + k) r file)
    {d : ℕ} {t' : S}
    (down : IsDown bs V v below_ino imp ino level
      (index * refs_per_block + j)
      offset
      file
      t2
      sb2
      nodes2
      g2
      refs
      j
      b
      d
      t') where
  abbrev child : ℕ
  child = index * refs_per_block + j

  -- A block at two places.
  one_place : (h : Positions) (x : ℕ) (p q : Position) → h x ≡ some p → h x ≡ some q → p ≡ q
  one_place h x p q e e' = some-injective p q (sym e ∙ e')

  b_not_data : b ≢ d
  b_not_data e =
      let p =
        one_place down.g' d (ino, suc level, index) (ino, 0, offset)
          (ap down.g' (sym e) ∙ down.walked.places_kept b (ino, suc level, index) at_b)
          down.data_place in
      absurd (omega (arith, ap (λ (q : Position). q.1) p))

  -- The trees beside that of the offset.
  beside :
      (blk : Block) (k r : ℕ)
      → k ≢ j
      → get_elem? refs k ≡ some r
      → IsPlaced
          (write_at (disk bs V v below_ino t') d blk)
          down.g'
          ino
          level
          (index * refs_per_block + k)
          r
          (update file offset blk)
  beside blk k r ne h =
      IsPlaced-agree (disk bs V v below_ino t2) (write_at (disk bs V v below_ino t') d blk) g2
        down.g' ino level (index * refs_per_block + k) r file (update file offset blk) agree same
        (below k r h)
    where
      apart :
          (lv ix : ℕ)
          → IsWithin lv ix level (index * refs_per_block + k)
          → IsWithin lv ix level child
          → ⊥
      apart lv ix w w' =
          ne (omega (arith, IsWithin-same lv ix level (index * refs_per_block + k) child w w'))

      same :
          (n : ℕ)
          → IsWithin 0 n level (index * refs_per_block + k)
          → update file offset blk n ≡ file n
      same n w =
          update_other file offset blk n
            (λ e. apart 0 n w (subst (λ z. IsWithin 0 z level child) (sym e) within))

      moved :
          (lv ix : ℕ) (q : Position)
          → IsWithin lv ix level (index * refs_per_block + k)
          → (ino, lv, ix) ≡ q
          → IsWithin q.1 q.2 level child
          → ⊥
      moved lv ix q w e in_q =
          apart lv ix w (subst (λ (z : Position). IsWithin z.1 z.2 level child) (sym e) in_q)

      agree :
          (x lv ix : ℕ)
          → g2 x ≡ some (ino, lv, ix)
          → IsWithin lv ix level (index * refs_per_block + k)
          → (write_at (disk bs V v below_ino t') d blk x ≡ disk bs V v below_ino t2 x)
            × (down.g' x ≡ g2 x)
      agree x lv ix at_x w =
          let p : Position = (ino, lv, ix) in
          let (nzx, ux) = first.system.apart x p at_x in
          let kept_place = down.walked.places_kept x p at_x in
          let not_d : x ≢ d = λ e.
            moved lv ix (ino, 0, offset) w
              (one_place down.g' x p (ino, 0, offset) kept_place (ap down.g' e ∙ down.data_place))
              within in
          let not_b : x ≢ b = λ e.
            let level_of = one_place g2 x p (ino, suc level, index) at_x (ap g2 e ∙ at_b) in
            absurd (
              omega (
                arith,
                IsWithin-level lv ix level (index * refs_per_block + k) w,
                ap (λ (q : Position). q.1) level_of,
              )) in
          let kept =
            down.walked.kept x nzx not_b ux
              (λ q h' in_q. moved lv ix q w (one_place g2 x p q at_x h') in_q.1) in
          (write_at_ne (disk bs V v below_ino t') d blk x not_d ∙ kept, kept_place ∙ sym at_x)

  -- The tree from `b` on.
  level-IsPlaced :
      (blk : Block)
      → IsPlaced
          (write_at (disk bs V v below_ino t') d blk)
          down.g'
          ino
          (suc level)
          index
          b
          (update file offset blk)
  level-IsPlaced blk =
      let refs' = set refs j down.b' in
      inr (
        nz_b,
        down.walked.places_kept b (ino, suc level, index) at_b,
        (
          refs',
          write_at_ne (disk bs V v below_ino t') d blk b b_not_data ∙ down.linked,
          length-set refs j down.b' ∙ len,
          children blk,
        ),
      )
    where
      children :
          (blk : Block) (k r : ℕ)
          → get_elem? (set refs j down.b') k ≡ some r
          → IsPlaced
              (write_at (disk bs V v below_ino t') d blk)
              down.g'
              ino
              level
              (index * refs_per_block + k)
              r
              (update file offset blk)
      children blk k r h = elim (Bool-cases (k == j)) [
        | inl e ↦
            let same : k ≡ j = ==→≡ k j e in
            let here : get_elem? (set refs j down.b') j ≡ some down.b' =
              get_elem?-set_self refs j down.b' (rw len lt_j) in
            let is_b' : r ≡ down.b' =
              some-injective r down.b' (sym h ∙ ap (get_elem? (set refs j down.b')) same ∙ here) in
            rw (same, is_b') (down.placed blk)
        | inr other ↦
            let ne : k ≢ j = λ e. absurd (cc (other, e, ==_refl j)) in
            beside blk k r ne (sym (get_elem?-set_ne refs down.b' (λ e. ne (sym e))) ∙ h)
      ]

  -- The walk from the block above on.
  pub level-IsDown :
      (linked : disk bs V v below_ino t2 parent_off ≡ some (set parent i b))
      → parent_off ≢ 0
      → times_free nodes parent_off ≡ 0
      → ((q : Position) → g parent_off ≡ some q → ¬ IsIn ino (suc level) index q)
      → IsDown bs V v below_ino imp ino
          (suc level)
          index
          offset
          file
          t
          sb
          nodes
          g
          parent
          i
          parent_off
          d
          t'
  level-IsDown linked nz_p used_p outside =
      let p : Position = (ino, suc level, index) in
      let here : IsIn ino (suc level) index p = (refl, IsWithin-self (suc level) index) in
      let inner : (q : Position) → IsIn ino level child q → IsIn ino (suc level) index q =
        λ q in_q. (in_q.0, IsWithin-parent q.1 q.2 level index j lt_j in_q.1) in
      let walked =
        Walked-weaken bs V v below_ino imp (IsIn ino level child) (IsIn ino (suc level) index) inner
          down.walked in
      let outside2 =
        still_out bs V v below_ino imp (IsIn ino (suc level) index) first parent_off used_p
          outside in
      let apart : parent_off ≢ b = λ e. outside2 p (ap g2 e ∙ at_b) here in
      record {
        sb' = down.sb';
        nodes' = down.nodes';
        g' = down.g';
        b' = b;
        walked =
            Walked-trans bs V v below_ino imp (IsIn ino (suc level) index) first at_b here walked;
        data_place = down.data_place;
        there = down.there;
        linked =
            walked.kept parent_off nz_p apart (first.used parent_off nz_p used_p) outside2 ∙ linked;
        placed = level-IsPlaced;
      }
