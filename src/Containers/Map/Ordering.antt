-- ===== src/Containers/Map/Ordering.antt =====
-- The tree of src/lib/map.c is ordered by hashes, and what a lookup finds there.
use cs4411_p.Prelude.{
  ℕ, ◌<◌, ◌≡◌, ◌≢◌, refl, sym, ap, ◌∙◌, List, [], ◌∷◌, ◌++◌, ◌==◌, ltb, if◌then◌else◌, All, arith,
  Bool-cases, inl, inr,
}
use cs4411_p.Containers.Map.{
  Key, BinListNode, Map, null, node, sdbm_hash, same_key, map_list_lookup, lookup_at, is_listed,
  change_data, map_list_insert, insert_at, map_insert,
}
use cs4411_p.Containers.Map.Contents.{
  same_key→≡, lookup_here, lookup_right, lookup_left, insert_here, insert_right, insert_left,
}

-- The nodes of the lists, in the order of the tree.
unfoldable pub entries : Map → List BinListNode
entries null = []
entries (node l r hash list) = entries l ++ (list ++ entries r)

-- The hashes of the keys of a list have a property.
abbrev pub Hashes : (ℕ → Type 0) → List BinListNode → Type 0
Hashes P list = All (λ (x : BinListNode). P (sdbm_hash x.key)) list

unfoldable pub IsOrdered : Map → Type 0
IsOrdered null = Unit
IsOrdered (node l r hash list) =
    IsOrdered l
    × IsOrdered r
    × Hashes (λ h. h ≡ hash) list
    × Hashes (λ h. h < hash) (entries l)
    × Hashes (λ h. hash < h) (entries r)

module _ (P : ℕ → Type 0) where
  Hashes-append : (xs ys : List BinListNode) → Hashes P xs → Hashes P ys → Hashes P (xs ++ ys)
  Hashes-append [] ys p q = q
  Hashes-append (x ∷ xs) ys (h, p) q = (h, Hashes-append xs ys p q)

  Hashes-split : (xs ys : List BinListNode) → Hashes P (xs ++ ys) → Hashes P xs × Hashes P ys
  Hashes-split [] ys p = (tt, p)
  Hashes-split (x ∷ xs) ys (h, p) = let (a, b) = Hashes-split xs ys p in ((h, a), b)

  Hashes-change_data :
      (list : List BinListNode) (key : Key) (f : ℕ → ℕ)
      → Hashes P list
      → Hashes P (change_data list key f)
  unfolding change_data
  Hashes-change_data [] key f p = tt
  Hashes-change_data (x ∷ list) key f (h, p) = elim (Bool-cases (same_key x.key key)) [
    | inl e ↦ rw e (h, p)
    | inr n ↦ rw n (h, Hashes-change_data list key f p)
  ]

  Hashes-map_list_insert :
      (list : List BinListNode) (key : Key) (f : ℕ → ℕ)
      → P (sdbm_hash key)
      → Hashes P list
      → Hashes P (map_list_insert list key f)
  unfolding map_list_insert
  Hashes-map_list_insert list key f h p = elim (Bool-cases (is_listed list key)) [
    | inl e ↦ rw e (Hashes-change_data list key f p)
    | inr n ↦ rw n (h, p)
  ]

  Hashes-insert_at :
      (m : Map) (h : ℕ) (key : Key) (f : ℕ → ℕ)
      → P (sdbm_hash key)
      → Hashes P (entries m)
      → Hashes P (entries (insert_at m h key f))
  unfolding entries insert_at
  Hashes-insert_at null h key f q p = (q, tt)
  Hashes-insert_at (node l r hash list) h key f q p =
      let (pl, rest) = Hashes-split (entries l) (list ++ entries r) p in
      let (pm, pr) = Hashes-split list (entries r) rest in
      elim (Bool-cases (hash == h)) [
        | inl eh ↦ rw (insert_here l r hash h list key f eh) (
            Hashes-append (entries l) (map_list_insert list key f ++ entries r) pl (
              Hashes-append (map_list_insert list key f) (entries r)
                (Hashes-map_list_insert list key f q pm) pr))
        | inr nh ↦ elim (Bool-cases (ltb hash h)) [
          | inl lt ↦ rw (insert_right l r hash h list key f nh lt) (
              Hashes-append (entries l) (list ++ entries (insert_at r h key f)) pl (
                Hashes-append list (entries (insert_at r h key f)) pm
                  (Hashes-insert_at r h key f q pr)))
          | inr ge ↦ rw (insert_left l r hash h list key f nh ge) (
              Hashes-append (entries (insert_at l h key f)) (list ++ entries r)
                (Hashes-insert_at l h key f q pl) (Hashes-append list (entries r) pm pr))
        ]
      ]

insert_at-IsOrdered :
    (m : Map) (key : Key) (f : ℕ → ℕ) → IsOrdered m → IsOrdered (insert_at m (sdbm_hash key) key f)
unfolding IsOrdered entries
insert_at-IsOrdered null key f o = unfold insert_at map_list_insert in (tt, tt, (refl, tt), tt, tt)
insert_at-IsOrdered (node l r hash list) key f (ol, orr, same, less, more) =
    let h = sdbm_hash key in
    elim (Bool-cases (hash == h)) [
      | inl eh ↦ rw (insert_here l r hash h list key f eh) (
        ol,
        orr,
        Hashes-map_list_insert (λ i. i ≡ hash) list key f (ground arith) same,
        less,
        more,
      )
      | inr nh ↦ elim (Bool-cases (ltb hash h)) [
        | inl lt ↦ rw (insert_right l r hash h list key f nh lt) (
          ol,
          insert_at-IsOrdered r key f orr,
          same,
          less,
          Hashes-insert_at (λ i. hash < i) r h key f (ground arith) more,
        )
        | inr ge ↦ rw (insert_left l r hash h list key f nh ge) (
          insert_at-IsOrdered l key f ol,
          orr,
          same,
          Hashes-insert_at (λ i. i < hash) l h key f (ground arith) less,
          more,
        )
      ]
    ]

-- An insertion keeps the tree ordered by hashes.
pub map_insert-IsOrdered :
    (m : Map) (key : Key) (f : ℕ → ℕ) → IsOrdered m → IsOrdered (map_insert m key f)
unfolding map_insert
map_insert-IsOrdered m key f o = insert_at-IsOrdered m key f o

-- Nodes of other hashes do not answer a lookup.
map_list_lookup-other :
    (xs ys : List BinListNode) (key : Key)
    → Hashes (λ h. h ≢ sdbm_hash key) xs
    → map_list_lookup (xs ++ ys) key ≡ map_list_lookup ys key
unfolding map_list_lookup
map_list_lookup-other [] ys key p = refl
map_list_lookup-other (x ∷ xs) ys key (differ, p) = elim (Bool-cases (same_key x.key key)) [
  | inl e ↦ absurd (differ (ap sdbm_hash (same_key→≡ x.key key e)))
  | inr n ↦ rw n (map_list_lookup-other xs ys key p)
]

map_list_lookup-before :
    (xs ys : List BinListNode) (key : Key)
    → Hashes (λ h. h ≢ sdbm_hash key) ys
    → map_list_lookup (xs ++ ys) key ≡ map_list_lookup xs key
unfolding map_list_lookup
map_list_lookup-before [] [] key p = refl
map_list_lookup-before [] (y ∷ ys) key (differ, p) = elim (Bool-cases (same_key y.key key)) [
  | inl e ↦ absurd (differ (ap sdbm_hash (same_key→≡ y.key key e)))
  | inr n ↦ rw n (map_list_lookup-before [] ys key p)
]
map_list_lookup-before (x ∷ xs) ys key p =
    ap (λ (n : ℕ). if same_key x.key key then x.value else n) (map_list_lookup-before xs ys key p)

Hashes-weaken :
    (P Q : ℕ → Type 0) → ((h : ℕ) → P h → Q h) → (xs : List BinListNode) → Hashes P xs → Hashes Q xs
Hashes-weaken P Q imp [] p = tt
Hashes-weaken P Q imp (x ∷ xs) (h, p) = (imp (sdbm_hash x.key) h, Hashes-weaken P Q imp xs p)

pub lookup_at-entries :
    (m : Map) (key : Key)
    → IsOrdered m
    → lookup_at m (sdbm_hash key) key ≡ map_list_lookup (entries m) key
unfolding IsOrdered entries lookup_at map_list_lookup
lookup_at-entries null key o = refl
lookup_at-entries (node l r hash list) key (ol, orr, same, less, more) =
    let h = sdbm_hash key in
    elim (Bool-cases (hash == h)) [
      | inl eh ↦
          lookup_here l r hash h list key eh
          ∙ sym (
              map_list_lookup-other (entries l) (list ++ entries r) key (
                Hashes-weaken (λ i. i < hash) (λ i. i ≢ h) (λ i lt e. ground arith) (entries l)
                  less)
              ∙ map_list_lookup-before list (entries r) key (
                  Hashes-weaken (λ i. hash < i) (λ i. i ≢ h) (λ i lt e. ground arith) (entries r)
                    more))
      | inr nh ↦
          let away =
            Hashes-weaken (λ i. i ≡ hash) (λ i. i ≢ h) (λ i e e'. ground arith) list same in
          elim (Bool-cases (ltb hash h)) [
            | inl lt ↦
                lookup_right l r hash h list key nh lt
                ∙ lookup_at-entries r key orr
                ∙ sym (
                    map_list_lookup-other (entries l) (list ++ entries r) key (
                      Hashes-weaken (λ i. i < hash) (λ i. i ≢ h) (λ i le e. ground arith)
                        (entries l) less)
                    ∙ map_list_lookup-other list (entries r) key away)
            | inr ge ↦
                lookup_left l r hash h list key nh ge
                ∙ lookup_at-entries l key ol
                ∙ sym (
                    map_list_lookup-before (entries l) (list ++ entries r) key (
                      Hashes-append (λ i. i ≢ h) list (entries r) away
                        (Hashes-weaken (λ i. hash < i) (λ i. i ≢ h) (λ i le e. ground arith)
                          (entries r) more)))
          ]
    ]
