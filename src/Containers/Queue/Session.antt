-- ===== src/Containers/Queue/Session.antt =====
-- A client's calls on one queue of src/lib/queue.c, in order.
use cs4411_p.Prelude.{
  ℕ, ◌%◌, word_mod, ◌≡◌, refl, ap, true, false, Bool, Option, none, some, List, [], ◌∷◌, ◌++◌, map,
  length, length-map, Run, ◌>>=◌,
}
use cs4411_p.Containers.Queue.{
  Memory, Queue, queue_init, queue_insert, queue_add, queue_tget, queue_empty, queue_size,
}
use cs4411_p.Containers.Queue.Contents.{
  Cell, IsChain, IsQueue, queue_add_lem, queue_insert_lem, queue_tget_lem, queue_tget-none,
}

pub data Call : Type 0 where
  insert : ℕ → Call
  add : ℕ → Call
  tget empty size : Call

pub data Reply : Type 0 where
  done : Reply
  got : Option ℕ → Reply
  is_empty : Bool → Reply
  counted : ℕ → Reply

unfoldable pub run : Memory → Queue → List Call → Run (List Reply)
run m q [] = some []
run m q (insert x ∷ calls) = do
  let (m', q') = queue_insert m q x
  rest ← run m' q' calls
  some (done ∷ rest)
run m q (add x ∷ calls) = do (m', q') ← queue_add m q x; rest ← run m' q' calls; some (done ∷ rest)
run m q (tget ∷ calls) = do
  (item, q') ← queue_tget m q
  rest ← run m q' calls
  some (got item ∷ rest)
run m q (empty ∷ calls) = do rest ← run m q calls; some (is_empty (queue_empty q) ∷ rest)
run m q (size ∷ calls) = do rest ← run m q calls; some (counted (queue_size q) ∷ rest)

abbrev pub has_none : List ℕ → Bool
has_none [] = true
has_none (x ∷ xs) = false

-- The replies of a list, from whose front items are taken.
unfoldable pub ideal : List ℕ → List Call → List Reply
ideal xs [] = []
ideal xs (insert x ∷ calls) = done ∷ ideal (x ∷ xs) calls
ideal xs (add x ∷ calls) = done ∷ ideal (xs ++ (x ∷ [])) calls
ideal [] (tget ∷ calls) = got none ∷ ideal [] calls
ideal (x ∷ xs) (tget ∷ calls) = got (some x) ∷ ideal xs calls
ideal xs (empty ∷ calls) = is_empty (has_none xs) ∷ ideal xs calls
ideal xs (size ∷ calls) = counted (length xs % word_mod) ∷ ideal xs calls

abbrev pub items : List Cell → List ℕ
items cells = map (λ (c : Cell). c.1) cells

items-snoc : (cells : List Cell) (d : Cell) → items (cells ++ (d ∷ [])) ≡ items cells ++ (d.1 ∷ [])
items-snoc [] d = refl
items-snoc (c ∷ cells) d = ap (◌∷◌ c.1) (items-snoc cells d)

empty_lem :
    (m : Memory) (q : Queue) (cells : List Cell)
    → IsQueue m q cells
    → queue_empty q ≡ has_none (items cells)
unfolding IsChain
empty_lem m q [] w = rw w.chain refl
empty_lem m q (c ∷ cells) w = rw (w.chain.0) refl

run_lem :
    (calls : List Call) (m : Memory) (q : Queue) (cells : List Cell)
    → IsQueue m q cells
    → run m q calls ≡ some (ideal (items cells) calls)
unfolding run ideal
run_lem [] m q cells w = refl
run_lem (insert x ∷ calls) m q cells w =
    rw (run_lem calls _ _ ((length m, x) ∷ cells) (queue_insert_lem m q cells x w))
run_lem (add x ∷ calls) m q cells w =
    let (m', q', e, w') = queue_add_lem m q cells x w in
    rw (e, run_lem calls m' q' (cells ++ ((length m, x) ∷ [])) w', items-snoc cells (length m, x))
run_lem (tget ∷ calls) m q [] w = rw (queue_tget-none m q w, run_lem calls m q [] w)
run_lem (tget ∷ calls) m q (c ∷ cells) w =
    let (q', e, w') = queue_tget_lem m q c cells w in rw (e, run_lem calls m q' cells w')
run_lem (empty ∷ calls) m q cells w = rw (empty_lem m q cells w, run_lem calls m q cells w)
run_lem (size ∷ calls) m q cells w =
    rw (run_lem calls m q cells w, w.counted, length-map (λ (c : Cell). c.1) cells)

-- A new queue, in any memory, returns from any calls with the replies of a list that is empty at
-- first: `queue_add` puts items at its end, `queue_insert` at its front, and `queue_tget` takes them
-- from its front.
pub queue_run : (m : Memory) (calls : List Call) → run m queue_init calls ≡ some (ideal [] calls)
unfolding IsChain
queue_run m calls =
    run_lem calls m queue_init [] (record { chain = refl; last = refl; counted = refl; apart = tt })
