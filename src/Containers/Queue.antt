-- ===== src/Containers/Queue.antt =====
-- src/lib/queue.c: queues as linked lists, with a pointer to the place of the last pointer.
pub mod Contents
pub mod Session
mod Tests
use cs4411_p.Prelude.{
  ℕ, word_mod, add_word, sub_word, ◌%◌, Bool, true, false, Option, none, some, List, [], ◌∷◌, ◌++◌,
  ◌==◌, if◌then◌else◌, ◌&&◌, get_elem?, set, length, Run, ◌>>=◌,
}

-- `struct element`: `next` is the number of the next element in the memory.
pub record Element : Type 0 where
  pub next : Option ℕ
  pub item : ℕ

-- The elements of all queues, in the order of their allocation. One that is freed stays where it is,
-- and nothing refers to it.
abbrev pub Memory : Type 0
Memory = List Element

-- What `last` points to: `first` of the queue, or `next` of an element.
pub data Place : Type 0 where
  at_first : Place
  at_next : ℕ → Place

-- `struct queue`. `nelts` wraps around where the C code leaves overflow undefined.
pub record Queue : Type 0 where
  pub first : Option ℕ
  pub last : Place
  pub nelts : ℕ

abbrev pub queue_init : Queue
queue_init = record { first = none; last = at_first; nelts = 0 }

abbrev pub is_null : Option ℕ → Bool
is_null none = true
is_null (some e) = false

-- `*q->last = e`
unfoldable pub assign : Memory → Queue → Place → ℕ → Run (Memory × Queue)
assign m q at_first e = some (m, record q { first = some e })
assign m q (at_next a) e = do x ← get_elem? m a; some (set m a (record x { next = some e }), q)

unfoldable pub queue_insert : Memory → Queue → ℕ → Memory × Queue
queue_insert m q item = (
  m ++ (record { next = q.first; item = item } ∷ []),
  record {
    first = some (length m);
    last = if is_null q.first then at_next (length m) else q.last;
    nelts = add_word q.nelts 1;
  },
)

unfoldable pub queue_add : Memory → Queue → ℕ → Run (Memory × Queue)
unfolding assign
queue_add m q item = do
  (m', q') ← assign (m ++ (record { next = none; item = item } ∷ [])) q q.last (length m)
  some (m', record q' { last = at_next (length m); nelts = add_word q'.nelts 1 })

-- `none` for `false`.
unfoldable pub queue_tget : Memory → Queue → Run (Option ℕ × Queue)
queue_tget m q = elim q.first [
  | none ↦ some (none, q)
  | some e ↦ do
    x ← get_elem? m e
    some (
      some x.item,
      record {
        first = x.next;
        last = if is_null x.next then at_first else q.last;
        nelts = sub_word q.nelts 1;
      },
    )
]

-- A number below 2^32 is the same as a pointer.
abbrev pub queue_add_uint : Memory → Queue → ℕ → Run (Memory × Queue)
queue_add_uint m q item = queue_add m q item

abbrev pub queue_get_uint : Memory → Queue → Run (Option ℕ × Queue)
queue_get_uint m q = do
  (item, q') ← queue_tget m q
  some (elim item [ none ↦ none | some x ↦ some (x % word_mod) ], q')

-- A null pointer for an empty queue.
unfoldable pub queue_get : Memory → Queue → Run (ℕ × Queue)
unfolding queue_tget
queue_get m q = do (item, q') ← queue_tget m q; some (elim item [ none ↦ 0 | some x ↦ x ], q')

abbrev pub queue_empty : Queue → Bool
queue_empty q = is_null q.first

abbrev pub queue_size : Queue → ℕ
queue_size q = q.nelts

-- The assertions; there is nothing to free.
abbrev pub queue_release : Queue → Run (Unit {0})
queue_release q = if is_null q.first && q.nelts == 0 then some tt else none
