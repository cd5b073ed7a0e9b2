-- ===== src/Disk/Combine/Contents.antt =====
-- src/block/combinedisk.c as an array of blocks: the inodes of the stores below, one after the other.
use cs4411_p.Prelude.{
  ℕ, ◌<◌, pos, int_limit, ◌≡◌, ◌≢◌, sym, ap, ◌∙◌, fun_ext, false, ◌&&◌, Option, none, some, List,
  ◌==◌, map, ltb, if◌then◌else◌, get_elem?, set, All, All-get, All-set, get_elem?-set_self,
  get_elem?-set_ne, lt_of_get_elem?, map-set, get_elem?-map, get_elem?-map-none, map-set_same, ap₂,
  some-injective, arith, Bool-cases, Option-cases, inl, inr, ltb→lt, ltb→le, ==→≡, ==_refl, ≢→==,
}
use cs4411_p.Store.{Block, BlockStore}
use cs4411_p.Store.Contract.{View, put, Implements}
use cs4411_p.Disk.Combine.Locating.{AreSmall, locate_unique}
use cs4411_p.Disk.Combine.Joined.{joined, block_at, found, joined-found}
use cs4411_p.Disk.Combine.{CombineDisk, locate, read, write}

found_put_at :
    (sizes : List ℕ) (ws : List View) (ino off : ℕ) (b : Block) (j k : ℕ) {w : View} (i o j' k' : ℕ)
    → AreSmall sizes
    → ino < int_limit
    → locate sizes ino 0 ≡ some (j, k)
    → get_elem? ws j ≡ some w
    → i < int_limit
    → locate sizes i 0 ≡ some (j', k')
    → block_at (get_elem? (set ws j (put w k off b)) j') k' o
      ≡ (if i == ino && o == off then some b else block_at (get_elem? ws j') k' o)
found_put_at sizes ws ino off b j k {w} i o j' k' small lt loc e lti loc' =
    elim (Bool-cases (j' == j)) [
      | inl here ↦
          let same : j' ≡ j = ==→≡ j' j here in
          let keys : (i == ino) ≡ (k' == k) = same_inode same in
          rw (same, get_elem?-set_self ws j (put w k off b) (lt_of_get_elem? ws j e), e, keys)
      | inr away ↦
          let other : j ≢ j' = ground arith in
          let no_key : (i == ino) ≡ false = ≢→== i ino (λ p. moved (loc_at p) other) in
          rw (get_elem?-set_ne ws (put w k off b) other, no_key)
    ]
  where
    loc_at : i ≡ ino → ◌≡◌ {A = Option (ℕ × ℕ)} (some (j, k)) (some (j', k'))
    loc_at p = sym loc ∙ sym (ap (λ x. locate sizes x 0) p) ∙ loc'

    moved : ◌≡◌ {A = Option (ℕ × ℕ)} (some (j, k)) (some (j', k')) → j ≢ j' → ⊥
    moved p ne = ne (ap (λ x. x.0) (some-injective (j, k) (j', k') p))

    same_inode : j' ≡ j → (i == ino) ≡ (k' == k)
    same_inode same = elim (Bool-cases (k' == k)) [
      | inl one ↦
          let found : locate sizes i 0 ≡ some (j, k) =
            loc' ∙ ap₂ (λ x y. some (x, y)) same (==→≡ k' k one) in
          let one_inode = locate_unique sizes i ino j k small lti lt found loc in
          rw (one, one_inode) (==_refl ino)
      | inr two ↦ rw two (
          ≢→== i ino (λ p.
            let e' : k ≡ k' = ap (λ x. x.1) (some-injective (j, k) (j', k') (loc_at p)) in
            absurd (ground arith)))
    ]

found-put :
    (sizes : List ℕ) (ws : List View) (ino off : ℕ) (b : Block) (j k : ℕ) {w : View}
    → AreSmall sizes
    → ino < int_limit
    → locate sizes ino 0 ≡ some (j, k)
    → get_elem? ws j ≡ some w
    → found sizes (set ws j (put w k off b)) ≡ put (found sizes ws) ino off b
found-put sizes ws ino off b j k {w} small lt loc e = fun_ext λ i. fun_ext λ o.
    elim (Bool-cases (ltb i int_limit)) [
      | inl lti ↦ elim (Option-cases (locate sizes i 0)) [
        | inl out ↦
            let ne : (i == ino) ≡ false = ≢→== i ino (λ p. clash i p out) in rw (lti, out, ne)
        | inr ((j', k'), loc') ↦
            rw (lti, loc')
              (found_put_at sizes ws ino off b j k i o j' k' small lt loc e (ltb→lt i int_limit lti)
                loc')
      ]
      | inr big ↦
          let ne : (i == ino) ≡ false =
            ≢→== i ino (λ p. absurd (omega (arith, ltb→le i int_limit big))) in
          rw (big, ne)
    ]
  where
    clash : (i : ℕ) → i ≡ ino → locate sizes i 0 ≡ none → ⊥
    clash i p out =
        let q : ◌≡◌ {A = Option (ℕ × ℕ)} (some (j, k)) none =
          sym loc ∙ sym (ap (λ x. locate sizes x 0) p) ∙ out in
        cc

joined-put :
    (sizes : List ℕ) (ws : List View) (ino off : ℕ) (b : Block) (j k : ℕ) {w : View}
    → AreSmall sizes
    → ino < int_limit
    → locate sizes ino 0 ≡ some (j, k)
    → get_elem? ws j ≡ some w
    → joined sizes (set ws j (put w k off b)) ≡ put (joined sizes ws) ino off b
joined-put sizes ws ino off b j k {w} small lt loc e =
    joined-found sizes (set ws j (put w k off b)) small
    ∙ found-put sizes ws ino off b j k small lt loc e
    ∙ sym (ap (λ (u : View). put u ino off b) (joined-found sizes ws small))

module _ {S : Type 0} (bs : BlockStore S) (V : S → Type 0) (v : S → View) where
  pub record IsValid (s : CombineDisk S) : Type 0 where
    pub below : All V s.below
    pub small : AreSmall s.belowninodes

  abbrev pub view : CombineDisk S → View
  view s = joined s.belowninodes (map v s.below)

  -- Where an existing block is kept.
  record Home (s : CombineDisk S) (ino off : ℕ) (b : Block) : Type 0 where
    place : ℕ
    nino : ℕ
    store : S
    counted : ino < int_limit
    located : locate s.belowninodes ino 0 ≡ some (place, nino)
    entry : get_elem? s.below place ≡ some store
    has : v store nino off ≡ some b

  Home-found :
      (s : CombineDisk S) (ino off : ℕ) (b : Block)
      → found s.belowninodes (map v s.below) ino off ≡ some b
      → Home s ino off b
  Home-found s ino off b h = elim (Option-cases (locate s.belowninodes ino 0)) [
    | inl out ↦ absurd (ground arith)
    | inr ((j, k), loc) ↦ elim (Option-cases (get_elem? s.below j)) [
      | inl no_store ↦ absurd (ground (arith, get_elem?-map-none v s.below j no_store))
      | inr (t, e) ↦ record {
        place = j;
        nino = k;
        store = t;
        counted = ground arith;
        located = loc;
        entry = e;
        has = ground (arith, get_elem?-map v s.below j e);
      }
    ]
  ]

  Home-of :
      (s : CombineDisk S) (ino off : ℕ) (b : Block)
      → IsValid s
      → view s ino off ≡ some b
      → Home s ino off b
  Home-of s ino off b w h =
      Home-found s ino off b (
        sym (ap (λ (u : View). u ino off) (joined-found s.belowninodes (map v s.below) w.small))
        ∙ h)

  stored :
      (s : CombineDisk S) (i : ℕ) (t' : S)
      → IsValid s
      → V t'
      → IsValid (record s { below = set s.below i t' })
  stored s i t' w w' = record { below = All-set V s.below i w.below w'; small = w.small }

  module _ (imp : Implements bs V v) where
    -- Over stores that behave as arrays of blocks and have fewer than 2^31 inodes each, a read of a
    -- block that exists in the inodes of the stores, taken one store after the other up to number
    -- 2^31 - 1, returns 0 with this block and leaves what the disk shows as it was.
    pub combinedisk_read :
        (s : CombineDisk S) (ino off : ℕ) (buf b : Block)
        → IsValid s
        → view s ino off ≡ some b
        → (s' : CombineDisk S) × (read bs s ino off buf ≡ some (pos 0, b, s'))
          × IsValid s'
          × (view s' ≡ view s)
    unfolding read
    combinedisk_read s ino off buf b w h =
        let p = Home-of s ino off b w h in
        let (t', called, w', same) =
          imp.read_some p.store p.nino off buf b (All-get V s.below p.place w.below p.entry)
            p.has in
        (
          record s { below = set s.below p.place t' },
          rw (p.located, p.entry, called),
          stored s p.place t' w w',
          ap (joined s.belowninodes) (map-set_same v s.below p.place t' p.entry same),
        )

    -- Over stores that behave as arrays of blocks and have fewer than 2^31 inodes each, a write of a
    -- block that exists in the inodes of the stores, taken one store after the other up to number
    -- 2^31 - 1, returns 0 and changes this block and no other.
    pub combinedisk_write :
        (s : CombineDisk S) (ino off : ℕ) (b old : Block)
        → IsValid s
        → view s ino off ≡ some old
        → (s' : CombineDisk S) × (write bs s ino off b ≡ some (pos 0, s'))
          × IsValid s'
          × (view s' ≡ put (view s) ino off b)
    unfolding write
    combinedisk_write s ino off b old w h =
        let p = Home-of s ino off old w h in
        let (t', called, w', same) =
          imp.write_some p.store p.nino off b old (All-get V s.below p.place w.below p.entry)
            p.has in
        (
          record s { below = set s.below p.place t' },
          rw (p.located, p.entry, called),
          stored s p.place t' w w',
          rw (map-set v s.below p.place t', same)
              (joined-put s.belowninodes (map v s.below) ino off b p.place p.nino w.small p.counted
                p.located (get_elem?-map v s.below p.place p.entry)),
        )
