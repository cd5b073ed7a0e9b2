-- ===== src/Containers/Map/Tests.antt =====
-- Runs of src/lib/map.c at concrete inputs.
use cs4411_p.Prelude.{ℕ, suc, ◌+◌, ◌≡◌, refl, [], ◌∷◌}
use cs4411_p.Containers.Map.{
  Key, Map, null, sdbm_hash, hash_from, lookup_at, map_lookup, insert_at, map_insert, map_iter,
}
use cs4411_p.Containers.Map.Contents.{map_lookup-map_insert}
use cs4411_p.Containers.Map.Ordering.{entries, IsOrdered, map_insert-IsOrdered}
use cs4411_p.Containers.Map.Visiting.{visit, Found, map_iter_lem}

abbrev name_a : Key
name_a = 97 ∷ []

abbrev name_b : Key
name_b = 98 ∷ 99 ∷ []

abbrev two_names : Map
two_names = map_insert (map_insert null name_b (λ _. 7)) name_a (λ _. 5)

hash_of_name : sdbm_hash name_b ≡ 6428801
unfolding sdbm_hash hash_from
hash_of_name = refl

map_insert_example : map_lookup (map_insert two_names name_a suc) name_a ≡ 6
unfolding map_lookup map_insert insert_at lookup_at sdbm_hash
map_insert_example = map_lookup-map_insert two_names name_a name_a suc

null-IsOrdered : IsOrdered null
unfolding IsOrdered
null-IsOrdered = tt

map-IsOrdered_example : IsOrdered two_names
map-IsOrdered_example =
    map_insert-IsOrdered (map_insert null name_b (λ _. 7)) name_a (λ _. 5)
      (map_insert-IsOrdered null name_b (λ _. 7) null-IsOrdered)

abbrev sum_up : ℕ → Key → ℕ → ℕ
sum_up env key value = env + value

map_iter_example :
    ((env : ℕ) (upcall : ℕ → Key → ℕ → ℕ)
      → map_iter env two_names upcall ≡ visit upcall env (entries two_names))
    × ((key : Key) → Found (entries two_names) key (map_lookup two_names key))
map_iter_example = map_iter_lem two_names (
    map_insert-IsOrdered (map_insert null name_b (λ _. 7)) name_a (λ _. 5)
      (map_insert-IsOrdered null name_b (λ _. 7) null-IsOrdered))

names_summed : map_iter 0 two_names sum_up ≡ 12
unfolding map_iter map_insert insert_at sdbm_hash
names_summed = refl
