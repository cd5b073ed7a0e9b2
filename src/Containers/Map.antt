-- ===== src/Containers/Map.antt =====
-- src/lib/map.c: a map as a binary tree by the hash of the key. The list of free nodes, `bln_cache`,
-- is part of the allocation of memory and not modelled: a new node has data 0 either way.
pub mod Contents
pub mod Ordering
pub mod Visiting
mod Tests
use cs4411_p.Prelude.{
  ℕ, ◌*◌, ◌%◌, ◌^◌, word_mod, add_word, sub_word, Bool, true, false, ◌&&◌, List, [], ◌∷◌, ◌==◌, ltb,
  if◌then◌else◌,
}

-- The bytes of a key; `key_size` is their number.
abbrev pub Key : Type 0
Key = List ℕ

-- `struct bin_list_node`, without `next`: `value` is the pointer `data`, 0 if it is not set.
pub record BinListNode : Type 0 where
  pub key : Key
  pub value : ℕ

-- `struct map`: `null` is the null pointer, `children[0]` and `children[1]` come first.
pub data Map : Type 0 where
  null : Map
  node : Map → Map → ℕ → List BinListNode → Map

-- A round of the loop of `sdbm_hash`.
abbrev pub mix : ℕ → ℕ → ℕ
mix h byte = sub_word (add_word (add_word byte (h * 2 ^ 6 % word_mod)) (h * 2 ^ 16 % word_mod)) h

unfoldable pub hash_from : ℕ → Key → ℕ
hash_from h [] = h
hash_from h (byte ∷ key) = hash_from (mix h byte) key

unfoldable pub sdbm_hash : Key → ℕ
unfolding hash_from
sdbm_hash key = hash_from 0 key

-- `bln->key_size == key_size && memcmp(bln->key, key, key_size) == 0`
unfoldable pub same_key : Key → Key → Bool
same_key [] [] = true
same_key [] (y ∷ ys) = false
same_key (x ∷ xs) [] = false
same_key (x ∷ xs) (y ∷ ys) = x == y && same_key xs ys

unfoldable pub map_list_lookup : List BinListNode → Key → ℕ
unfolding same_key
map_list_lookup [] key = 0
map_list_lookup (x ∷ list) key = if same_key x.key key then x.value else map_list_lookup list key

-- The lookup behind the hash.
unfoldable pub lookup_at : Map → ℕ → Key → ℕ
unfolding map_list_lookup
lookup_at null h key = 0
lookup_at (node left right hash list) h key = elim (hash == h) [
  | true ↦ map_list_lookup list key
  | false ↦ elim (ltb hash h) [ true ↦ lookup_at right h key | false ↦ lookup_at left h key ]
]

unfoldable pub map_lookup : Map → Key → ℕ
unfolding lookup_at sdbm_hash
map_lookup m key = lookup_at m (sdbm_hash key) key

-- The test of the search loop of `map_list_insert`.
unfoldable pub is_listed : List BinListNode → Key → Bool
unfolding same_key
is_listed [] key = false
is_listed (x ∷ list) key = if same_key x.key key then true else is_listed list key

-- The insertions return the address of the node's data; `f` is what the caller does there.
unfoldable pub change_data : List BinListNode → Key → (ℕ → ℕ) → List BinListNode
unfolding same_key
change_data [] key f = []
change_data (x ∷ list) key f =
    if same_key x.key key then record x { value = f x.value } ∷ list else x ∷ change_data list key f

unfoldable pub map_list_insert : List BinListNode → Key → (ℕ → ℕ) → List BinListNode
unfolding is_listed change_data
map_list_insert list key f =
    if is_listed list key then change_data list key f else record { key = key; value = f 0 } ∷ list

-- The insertion behind the hash.
unfoldable pub insert_at : Map → ℕ → Key → (ℕ → ℕ) → Map
unfolding map_list_insert
insert_at null h key f = node null null h (map_list_insert [] key f)
insert_at (node left right hash list) h key f = elim (hash == h) [
  | true ↦ node left right hash (map_list_insert list key f)
  | false ↦ elim (ltb hash h) [
    | true ↦ node left (insert_at right h key f) hash list
    | false ↦ node (insert_at left h key f) right hash list
  ]
]

unfoldable pub map_insert : Map → Key → (ℕ → ℕ) → Map
unfolding insert_at sdbm_hash
map_insert m key f = insert_at m (sdbm_hash key) key f

-- `upcall` takes the environment and returns what it leaves there.
unfoldable pub map_list_iter : {E : Type 0} → E → List BinListNode → (E → Key → ℕ → E) → E
map_list_iter env [] upcall = env
map_list_iter env (x ∷ list) upcall = map_list_iter (upcall env x.key x.value) list upcall

unfoldable pub map_iter : {E : Type 0} → E → Map → (E → Key → ℕ → E) → E
unfolding map_list_iter
map_iter env null upcall = env
map_iter env (node left right hash list) upcall =
    map_iter (map_list_iter (map_iter env left upcall) list upcall) right upcall
