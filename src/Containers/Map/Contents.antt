-- ===== src/Containers/Map/Contents.antt =====
-- What src/lib/map.c promises: lookups see the last insertions, iterations see every key.
use cs4411_p.Prelude.{
  ℕ, ◌≡◌, refl, sym, ap, ap₂, ◌∙◌, true, false, List, [], ◌∷◌, ◌==◌, ltb, if◌then◌else◌, arith,
  Bool-cases, inl, inr, ==_refl,
}
use cs4411_p.Containers.Map.{
  Key, BinListNode, Map, null, node, sdbm_hash, same_key, map_list_lookup, lookup_at, map_lookup,
  is_listed, change_data, map_list_insert, insert_at, map_insert,
}

pub same_key_refl : (k : Key) → same_key k k ≡ true
unfolding same_key
same_key_refl [] = refl
same_key_refl (x ∷ xs) = rw (==_refl x, same_key_refl xs)

pub same_key→≡ : (a b : Key) → same_key a b ≡ true → a ≡ b
unfolding same_key
same_key→≡ [] [] h = refl
same_key→≡ [] (y ∷ ys) h = cc
same_key→≡ (x ∷ xs) [] h = cc
same_key→≡ (x ∷ xs) (y ∷ ys) h = ground (arith, same_key→≡ xs ys)

-- A change of the data of `k`, seen at `k'`.
map_list_lookup-change_data :
    (list : List BinListNode) (k k' : Key) (f : ℕ → ℕ)
    → is_listed list k ≡ true
    → map_list_lookup (change_data list k f) k'
      ≡ (if same_key k k' then f (map_list_lookup list k) else map_list_lookup list k')
unfolding map_list_lookup change_data is_listed
map_list_lookup-change_data [] k k' f h = cc
map_list_lookup-change_data (x ∷ list) k k' f h = elim (Bool-cases (same_key x.key k)) [
  | inl e ↦
      rw (e, same_key→≡ x.key k e)
        (elim (Bool-cases (same_key k k')) [ inl e' ↦ rw e' | inr n' ↦ rw n' ])
  | inr n ↦
      let rest = map_list_lookup-change_data list k k' f (rw n at h) in
      elim (Bool-cases (same_key x.key k')) [
        | inr n' ↦ rw (n, n') rest
        | inl e' ↦ let apart : same_key k k' ≡ false = other x.key n e' in rw (n, e', apart)
      ]
]
  where
    other : (a : Key) → same_key a k ≡ false → same_key a k' ≡ true → same_key k k' ≡ false
    other a n e' = elim (Bool-cases (same_key k k')) [
      | inr apart ↦ apart
      | inl same ↦
          let ek : a ≡ k' = same_key→≡ a k' e' in
          let ek' : k ≡ k' = same_key→≡ k k' same in
          let hit : same_key a k ≡ true = rw (ek, ek') (same_key_refl k') in cc
    ]

-- A key that is not listed has no data.
pub map_list_lookup-unlisted :
    (list : List BinListNode) (k : Key) → is_listed list k ≡ false → map_list_lookup list k ≡ 0
unfolding map_list_lookup is_listed
map_list_lookup-unlisted [] k h = refl
map_list_lookup-unlisted (x ∷ list) k h = elim (Bool-cases (same_key x.key k)) [
  | inl e ↦ let bad : true ≡ false = rw e at h in cc
  | inr n ↦ rw n (map_list_lookup-unlisted list k (rw n at h))
]

empty_lookup : (k : Key) → map_list_lookup [] k ≡ 0
unfolding map_list_lookup
empty_lookup k = refl

map_list_lookup-map_list_insert :
    (list : List BinListNode) (k k' : Key) (f : ℕ → ℕ)
    → map_list_lookup (map_list_insert list k f) k'
      ≡ (if same_key k k' then f (map_list_lookup list k) else map_list_lookup list k')
unfolding map_list_insert
map_list_lookup-map_list_insert list k k' f = elim (Bool-cases (is_listed list k)) [
  | inl e ↦ rw e (map_list_lookup-change_data list k k' f e)
  | inr n ↦ rw n (unfold map_list_lookup in rw (map_list_lookup-unlisted list k n) refl)
]

-- What the search does at a node, by the hashes.
module _ (l r : Map) (hash h : ℕ) (list : List BinListNode) (k : Key) where
  pub lookup_here : (hash == h) ≡ true → lookup_at (node l r hash list) h k ≡ map_list_lookup list k
  unfolding lookup_at
  lookup_here e = rw (lookup_at, e)

  pub lookup_right :
      (hash == h) ≡ false → ltb hash h ≡ true → lookup_at (node l r hash list) h k ≡ lookup_at r h k
  unfolding lookup_at
  lookup_right e lt = ground arith

  pub lookup_left :
      (hash == h) ≡ false
      → ltb hash h ≡ false
      → lookup_at (node l r hash list) h k ≡ lookup_at l h k
  unfolding lookup_at
  lookup_left e ge = ground arith

  module _ (f : ℕ → ℕ) where
    pub insert_here :
        (hash == h) ≡ true
        → insert_at (node l r hash list) h k f ≡ node l r hash (map_list_insert list k f)
    unfolding insert_at
    insert_here e = rw (insert_at, e)

    pub insert_right :
        (hash == h) ≡ false
        → ltb hash h ≡ true
        → insert_at (node l r hash list) h k f ≡ node l (insert_at r h k f) hash list
    unfolding insert_at
    insert_right e lt = ground arith

    pub insert_left :
        (hash == h) ≡ false
        → ltb hash h ≡ false
        → insert_at (node l r hash list) h k f ≡ node (insert_at l h k f) r hash list
    unfolding insert_at
    insert_left e ge = ground arith

apart :
    {h h' : ℕ} (k k' : Key) → (same_key k k' ≡ true → h ≡ h') → (h ≡ h' → ⊥) → same_key k k' ≡ false
apart k k' hashed differ = elim (Bool-cases (same_key k k')) [
  | inl e ↦ absurd (differ (hashed e))
  | inr n ↦ n
]

-- An insertion in a subtree, seen by a lookup that starts at the node above.
module _ (l r : Map) (hash h h' : ℕ) (list : List BinListNode) (k k' : Key) (f : ℕ → ℕ)
    (hashed : same_key k k' ≡ true → h ≡ h') (nh : (hash == h) ≡ false) where
  beside_right :
      ltb hash h ≡ true
      → lookup_at (insert_at r h k f) h' k'
        ≡ (if same_key k k' then f (lookup_at r h k) else lookup_at r h' k')
      → lookup_at (node l (insert_at r h k f) hash list) h' k'
        ≡ (if same_key k k' then f (lookup_at r h k) else lookup_at (node l r hash list) h' k')
  beside_right lt rest = elim (Bool-cases (hash == h')) [
    | inl eh' ↦ rw (apart k k' hashed (λ p. ground arith)) (
        lookup_here l (insert_at r h k f) hash h' list k' eh'
        ∙ sym (lookup_here l r hash h' list k' eh'))
    | inr nh' ↦ elim (Bool-cases (ltb hash h')) [
      | inl lt' ↦
          rw (lookup_right l r hash h' list k' nh' lt')
            (lookup_right l (insert_at r h k f) hash h' list k' nh' lt' ∙ rest)
      | inr ge' ↦ rw (apart k k' hashed (λ p. ground arith)) (
          lookup_left l (insert_at r h k f) hash h' list k' nh' ge'
          ∙ sym (lookup_left l r hash h' list k' nh' ge'))
    ]
  ]

  beside_left :
      ltb hash h ≡ false
      → lookup_at (insert_at l h k f) h' k'
        ≡ (if same_key k k' then f (lookup_at l h k) else lookup_at l h' k')
      → lookup_at (node (insert_at l h k f) r hash list) h' k'
        ≡ (if same_key k k' then f (lookup_at l h k) else lookup_at (node l r hash list) h' k')
  beside_left ge rest = elim (Bool-cases (hash == h')) [
    | inl eh' ↦ rw (apart k k' hashed (λ p. ground arith)) (
        lookup_here (insert_at l h k f) r hash h' list k' eh'
        ∙ sym (lookup_here l r hash h' list k' eh'))
    | inr nh' ↦ elim (Bool-cases (ltb hash h')) [
      | inr ge' ↦
          rw (lookup_left l r hash h' list k' nh' ge')
            (lookup_left (insert_at l h k f) r hash h' list k' nh' ge' ∙ rest)
      | inl lt' ↦ rw (apart k k' hashed (λ p. ground arith)) (
          lookup_right (insert_at l h k f) r hash h' list k' nh' lt'
          ∙ sym (lookup_right l r hash h' list k' nh' lt'))
    ]
  ]

lookup_at-insert_at :
    (m : Map) (h h' : ℕ) (k k' : Key) (f : ℕ → ℕ)
    → (same_key k k' ≡ true → h ≡ h')
    → lookup_at (insert_at m h k f) h' k'
      ≡ (if same_key k k' then f (lookup_at m h k) else lookup_at m h' k')
unfolding lookup_at insert_at
lookup_at-insert_at null h h' k k' f hashed = elim (Bool-cases (h == h')) [
  | inl eh ↦
      lookup_here null null h h' (map_list_insert [] k f) k' eh
      ∙ map_list_lookup-map_list_insert [] k k' f
      ∙ ap₂ (λ (a b : ℕ). if same_key k k' then f a else b) (empty_lookup k) (empty_lookup k')
  | inr nh ↦
      let n : same_key k k' ≡ false = apart k k' hashed (λ p. ground arith) in
      elim (Bool-cases (ltb h h')) [
        | inl lt ↦ lookup_right null null h h' (map_list_insert [] k f) k' nh lt ∙ rw n
        | inr ge ↦ lookup_left null null h h' (map_list_insert [] k f) k' nh ge ∙ rw n
      ]
]
lookup_at-insert_at (node l r hash list) h h' k k' f hashed = elim (Bool-cases (hash == h)) [
  | inl eh ↦
      rw (insert_here l r hash h list k f eh, lookup_here l r hash h list k eh)
        (elim (Bool-cases (hash == h')) [
          | inl eh' ↦
              rw
                (
                  lookup_here l r hash h' (map_list_insert list k f) k' eh',
                  lookup_here l r hash h' list k' eh',
                )
                (map_list_lookup-map_list_insert list k k' f)
          | inr nh' ↦ rw (apart k k' hashed (λ p. ground arith)) (elim (Bool-cases (ltb hash h')) [
            | inl lt' ↦
                lookup_right l r hash h' (map_list_insert list k f) k' nh' lt'
                ∙ sym (lookup_right l r hash h' list k' nh' lt')
            | inr ge' ↦
                lookup_left l r hash h' (map_list_insert list k f) k' nh' ge'
                ∙ sym (lookup_left l r hash h' list k' nh' ge')
          ])
        ])
  | inr nh ↦ elim (Bool-cases (ltb hash h)) [
    | inl lt ↦
        rw (insert_right l r hash h list k f nh lt, lookup_right l r hash h list k nh lt)
          (beside_right l r hash h h' list k k' f hashed nh lt
            (lookup_at-insert_at r h h' k k' f hashed))
    | inr ge ↦
        rw (insert_left l r hash h list k f nh ge, lookup_left l r hash h list k nh ge)
          (beside_left l r hash h h' list k k' f hashed nh ge
            (lookup_at-insert_at l h h' k k' f hashed))
  ]
]

-- After an insertion of `k`, at whose place the caller does `f`, a lookup of `k` returns `f` of what
-- it returned before (of 0 if there was nothing), and a lookup of any other key what it returned
-- before.
pub map_lookup-map_insert :
    (m : Map) (k k' : Key) (f : ℕ → ℕ)
    → map_lookup (map_insert m k f) k'
      ≡ (if same_key k k' then f (map_lookup m k) else map_lookup m k')
unfolding map_lookup map_insert
map_lookup-map_insert m k k' f =
    lookup_at-insert_at m (sdbm_hash k) (sdbm_hash k') k k' f
      (λ e. ap sdbm_hash (same_key→≡ k k' e))
