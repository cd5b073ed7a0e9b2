-- ===== src/Containers/Map/Visiting.antt =====
-- What `map_iter` of src/lib/map.c visits, and what `map_lookup` finds among it.
use cs4411_p.Prelude.{
  ◌⊎◌, ◌≢◌, ◌≡◌, ◌∷◌, ◌∙◌, ◌++◌, ℕ, true, sym, subst, refl, inr, inl, false, ap, [], List,
  Bool-cases, All,
}
use mathlib.Core.List.{foldl}
use cs4411_p.Containers.Map.{
  Key, BinListNode, Map, null, node, same_key, map_list_lookup, map_lookup, map_list_iter, map_iter,
}
use cs4411_p.Containers.Map.Contents.{same_key→≡, same_key_refl}
use cs4411_p.Containers.Map.Ordering.{entries, IsOrdered, lookup_at-entries}

-- The calls of `upcall` on the nodes of a list, from the first to the last.
abbrev pub visit : {E : Type 0} → (E → Key → ℕ → E) → E → List BinListNode → E
visit upcall env list = foldl (λ e (x : BinListNode). upcall e x.key x.value) env list

abbrev pub Lacks : Key → List BinListNode → Type 0
Lacks key = All (λ (x : BinListNode). x.key ≢ key)

-- The first node of a list with a key, and the nodes around it.
pub record First (list : List BinListNode) (key : Key) (value : ℕ) : Type 0 where
  pub before : List BinListNode
  pub entry : BinListNode
  pub after : List BinListNode
  pub divided : list ≡ before ++ entry ∷ after
  pub lacking : Lacks key before
  pub key_found : entry.key ≡ key
  pub value_found : value ≡ entry.value

-- `value` is that of the first node with the key, and 0 if there is none.
abbrev pub Found : List BinListNode → Key → ℕ → Type 0
Found list key value = First list key value ⊎ (Lacks key list × (value ≡ 0))

same_key-false : (a b : Key) → same_key a b ≡ false → a ≢ b
same_key-false a b differ e = let same : same_key a b ≡ true = rw e (same_key_refl b) in cc

map_list_lookup-Found :
    (list : List BinListNode) (key : Key) → Found list key (map_list_lookup list key)
unfolding map_list_lookup
map_list_lookup-Found [] key = inr (tt, refl)
map_list_lookup-Found (x ∷ list) key = elim (Bool-cases (same_key x.key key)) [
  | inl e ↦ inl record {
    before = [];
    entry = x;
    after = list;
    divided = refl;
    lacking = tt;
    key_found = same_key→≡ x.key key e;
    value_found = rw e;
  }
  | inr n ↦ elim (map_list_lookup-Found list key) [
    | inl p ↦ inl record {
      before = x ∷ p.before;
      entry = p.entry;
      after = p.after;
      divided = ap (λ l. x ∷ l) p.divided;
      lacking = (same_key-false x.key key n, p.lacking);
      key_found = p.key_found;
      value_found = rw n p.value_found;
    }
    | inr (lacks, e) ↦ inr ((same_key-false x.key key n, lacks), rw n e)
  ]
]

visit-append :
    {E : Type 0} (upcall : E → Key → ℕ → E) (env : E) (xs ys : List BinListNode)
    → visit upcall env (xs ++ ys) ≡ visit upcall (visit upcall env xs) ys
visit-append upcall env [] ys = refl
visit-append upcall env (x ∷ xs) ys = visit-append upcall (upcall env x.key x.value) xs ys

map_list_iter-visit :
    {E : Type 0} (upcall : E → Key → ℕ → E) (env : E) (list : List BinListNode)
    → map_list_iter env list upcall ≡ visit upcall env list
unfolding map_list_iter
map_list_iter-visit upcall env [] = refl
map_list_iter-visit upcall env (x ∷ list) =
    map_list_iter-visit upcall (upcall env x.key x.value) list

map_iter-visit :
    {E : Type 0} (upcall : E → Key → ℕ → E) (env : E) (m : Map)
    → map_iter env m upcall ≡ visit upcall env (entries m)
unfolding map_iter entries
map_iter-visit upcall env null = refl
map_iter-visit {E} upcall env (node l r hash list) =
    map_iter-visit upcall (map_list_iter (map_iter env l upcall) list upcall) r
    ∙ ap (λ (e : E). visit upcall e (entries r))
        (map_list_iter-visit upcall (map_iter env l upcall) list
          ∙ ap (λ (e : E). visit upcall e list) (map_iter-visit upcall env l))
    ∙ sym (
        visit-append upcall env (entries l) (list ++ entries r)
        ∙ visit-append upcall (visit upcall env (entries l)) list (entries r))

-- On a tree that is ordered by hashes, `map_iter` calls `upcall` on each node of one list, from the
-- first to the last, with the node's key and data and the environment that the call before has
-- left. A lookup of any key returns the data of the first node in that list that has the key, and 0
-- if none of them has it.
pub map_iter_lem :
    {E : Type 0} (m : Map)
    → IsOrdered m
    → ((env : E) (upcall : E → Key → ℕ → E) → map_iter env m upcall ≡ visit upcall env (entries m))
      × ((key : Key) → Found (entries m) key (map_lookup m key))
unfolding map_lookup
map_iter_lem m o = (
  λ env upcall. map_iter-visit upcall env m,
  λ key.
      subst (λ n. Found (entries m) key n) (sym (lookup_at-entries m key o))
        (map_list_lookup-Found (entries m) key),
)
