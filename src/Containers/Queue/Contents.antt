-- ===== src/Containers/Queue/Contents.antt =====
-- The queues of src/lib/queue.c are lists.
use cs4411_p.Prelude.{
  ℕ, zero, suc, ◌<◌, ◌%◌, word_mod, add_word, sub_word, ◌≡◌, ◌≢◌, refl, sym, ap, ◌∙◌, Option, none,
  some, List, [], ◌∷◌, ◌++◌, if◌then◌else◌, get_elem?, set, length, length-append,
  get_elem?-set_self, get_elem?-set_ne, All, arith,
}
use cs4411_p.Containers.Queue.{
  Element, Memory, Place, at_first, at_next, Queue, is_null, assign, queue_insert, queue_add,
  queue_tget,
}

-- An element of a queue: its number and its item.
abbrev pub Cell : Type 0
Cell = ℕ × ℕ

-- From the pointer `p` the elements `cells` are linked up to the pointer `end`.
unfoldable pub IsChain : Memory → Option ℕ → List Cell → Option ℕ → Type 0
IsChain m p [] end = p ≡ end
IsChain m p (c ∷ cells) end =
    (p ≡ some c.0)
    × ((n : Option ℕ) × (get_elem? m c.0 ≡ some (record { next = n; item = c.1 }))
        × IsChain m n cells end)

-- The place of the pointer behind the cell `c` and the cells that follow it.
abbrev pub end_of : Cell → List Cell → ℕ
end_of c [] = c.0
end_of c (d ∷ cells) = end_of d cells

abbrev pub last_place : List Cell → Place
last_place [] = at_first
last_place (c ∷ cells) = at_next (end_of c cells)

-- No element is in the queue twice.
abbrev pub AreApart : List Cell → Type 0
AreApart [] = Unit
AreApart (c ∷ cells) = All (λ (d : Cell). c.0 ≢ d.0) cells × AreApart cells

pub record IsQueue (m : Memory) (q : Queue) (cells : List Cell) : Type 0 where
  pub chain : IsChain m q.first cells none
  pub last : q.last ≡ last_place cells
  pub counted : q.nelts ≡ length cells % word_mod
  pub apart : AreApart cells

get_elem?-append :
    (m : Memory) (e x : Element) (a : ℕ)
    → get_elem? m a ≡ some x
    → get_elem? (m ++ (e ∷ [])) a ≡ some x
get_elem?-append [] e x a h = cc
get_elem?-append (y ∷ m) e x zero h = h
get_elem?-append (y ∷ m) e x (suc a) h = get_elem?-append m e x a h

get_elem?-append_last : (m : Memory) (e : Element) → get_elem? (m ++ (e ∷ [])) (length m) ≡ some e
get_elem?-append_last [] e = refl
get_elem?-append_last (y ∷ m) e = get_elem?-append_last m e

-- A new element in the memory leaves the chains.
IsChain-append :
    (m : Memory) (e : Element) (p : Option ℕ) (cells : List Cell) (end : Option ℕ)
    → IsChain m p cells end
    → IsChain (m ++ (e ∷ [])) p cells end
unfolding IsChain
IsChain-append m e p [] end h = h
IsChain-append m e p (c ∷ cells) end (hp, (n, at, h)) =
    (hp, (n, get_elem?-append m e _ c.0 at, IsChain-append m e n cells end h))

-- Two chains, one after the other.
IsChain-join :
    (m : Memory) (p : Option ℕ) (cells more : List Cell) (q end : Option ℕ)
    → IsChain m p cells q
    → IsChain m q more end
    → IsChain m p (cells ++ more) end
unfolding IsChain
IsChain-join m p [] more q end h h' = rw h h'
IsChain-join m p (c ∷ cells) more q end (hp, (n, at, h)) h' =
    (hp, (n, at, IsChain-join m n cells more q end h h'))

-- A write to an element that is not in a chain leaves the chain.
IsChain-set :
    (m : Memory) (p : Option ℕ) (cells : List Cell) (end : Option ℕ) (a : ℕ) (e : Element)
    → All (λ (d : Cell). a ≢ d.0) cells
    → IsChain m p cells end
    → IsChain (set m a e) p cells end
unfolding IsChain
IsChain-set m p [] end a e apart h = h
IsChain-set m p (c ∷ cells) end a e (differ, apart) (hp, (n, at, h)) =
    (hp, (n, get_elem?-set_ne m e differ ∙ at, IsChain-set m n cells end a e apart h))

get_lt : (m : Memory) (a : ℕ) {x : Element} → get_elem? m a ≡ some x → a < length m
get_lt [] a h = cc
get_lt (y ∷ m) zero h = omega arith
get_lt (y ∷ m) (suc a) h = omega (arith, get_lt m a h)

away :
    (d : Cell) (cells : List Cell) {a : ℕ}
    → All (λ (z : Cell). a ≢ z.0) (d ∷ cells)
    → end_of d cells ≢ a
away d [] (differ, tt) e = differ (sym e)
away d (c ∷ cells) (differ, apart) e = away c cells apart e

-- The last pointer of a chain is changed.
linked :
    (m : Memory) (p : Option ℕ) (c : Cell) (cells : List Cell) (e : ℕ)
    → AreApart (c ∷ cells)
    → IsChain m p (c ∷ cells) none
    → (x : Element) × (get_elem? m (end_of c cells) ≡ some x)
      × IsChain (set m (end_of c cells) (record x { next = some e })) p (c ∷ cells) (some e)
unfolding IsChain
linked m p c [] e apart (hp, (n, at, h)) =
    (_, at, (hp, (some e, get_elem?-set_self m c.0 _ (get_lt m c.0 at), refl)))
linked m p c (d ∷ cells) e (apart_c, apart) (hp, (n, at, h)) =
    let (x, at', h') = linked m n d cells e apart h in
    (x, at', (hp, (n, get_elem?-set_ne m _ (away d cells apart_c) ∙ at, h')))

-- The elements of a chain are in the memory.
in_memory :
    (m : Memory) (p : Option ℕ) (cells : List Cell) (end : Option ℕ)
    → IsChain m p cells end
    → All (λ (d : Cell). length m ≢ d.0) cells
unfolding IsChain
in_memory m p [] end h = tt
in_memory m p (c ∷ cells) end (hp, (n, at, h)) =
    (λ e. let lt = get_lt m c.0 at in omega arith, in_memory m n cells end h)

AreApart-snoc :
    (cells : List Cell) (d : Cell)
    → All (λ (c : Cell). d.0 ≢ c.0) cells
    → AreApart cells
    → AreApart (cells ++ (d ∷ []))
AreApart-snoc [] d differ apart = (tt, tt)
AreApart-snoc (c ∷ cells) d (n, differ) (first, apart) =
    (add cells first, AreApart-snoc cells d differ apart)
  where
    add :
        (xs : List Cell)
        → All (λ (z : Cell). c.0 ≢ z.0) xs
        → All (λ (z : Cell). c.0 ≢ z.0) (xs ++ (d ∷ []))
    add [] h = (λ e. n (sym e), tt)
    add (x ∷ xs) (h, hs) = (h, add xs hs)

last_place-snoc : (cells : List Cell) (d : Cell) → last_place (cells ++ (d ∷ [])) ≡ at_next d.0
last_place-snoc [] d = refl
last_place-snoc (c ∷ cells) d = ap at_next (go c cells)
  where
    go : (c : Cell) (cells : List Cell) → end_of c (cells ++ (d ∷ [])) ≡ d.0
    go c [] = refl
    go c (x ∷ cells) = go x cells

count_up : (n : ℕ) → add_word (n % word_mod) 1 ≡ suc n % word_mod
count_up n = omega arith

count_down : (n : ℕ) → sub_word (suc n % word_mod) 1 ≡ n % word_mod
count_down n = omega arith

-- `queue_add` puts the item at the end.
pub queue_add_lem :
    (m : Memory) (q : Queue) (cells : List Cell) (item : ℕ)
    → IsQueue m q cells
    → (m' : Memory) × (q' : Queue) × (queue_add m q item ≡ some (m', q'))
      × IsQueue m' q' (cells ++ ((length m, item) ∷ []))
unfolding queue_add assign IsChain
queue_add_lem m q [] item w = (
  m ++ (record { next = none; item = item } ∷ []),
  record { first = some (length m); last = at_next (length m); nelts = add_word q.nelts 1 },
  rw w.last refl,
  record {
    chain = (refl, (none, get_elem?-append_last m _, refl));
    last = refl;
    counted = rw w.counted (omega arith);
    apart = (tt, tt);
  },
)
queue_add_lem m q (c ∷ cells) item w =
    let e : Element = record { next = none; item = item } in
    let grown = IsChain-append m e q.first (c ∷ cells) none w.chain in
    let (x, at, h) = linked (m ++ (e ∷ [])) q.first c cells (length m) w.apart grown in
    let fresh = in_memory m q.first (c ∷ cells) none w.chain in
    (
      set (m ++ (e ∷ [])) (end_of c cells) (record x { next = some (length m) }),
      record q { last = at_next (length m); nelts = add_word q.nelts 1 },
      rw (w.last, at),
      record {
        chain =
            IsChain-join _ q.first (c ∷ cells) ((length m, item) ∷ []) (some (length m)) none h (
              refl,
              (
                none,
                get_elem?-set_ne (m ++ (e ∷ [])) _ (λ p. away c cells fresh p)
                    ∙ get_elem?-append_last m e,
                refl,
              ),
            );
        last = sym (last_place-snoc (c ∷ cells) (length m, item));
        counted =
            rw w.counted
              (count_up (length (c ∷ cells)) ∙ ap (λ n. n % word_mod) (longer (c ∷ cells)));
        apart = AreApart-snoc (c ∷ cells) (length m, item) fresh w.apart;
      },
    )
  where
    longer : (xs : List Cell) → suc (length xs) ≡ length (xs ++ ((length m, item) ∷ []))
    longer xs = omega (arith, length-append xs ((length m, item) ∷ []))

-- `queue_insert` puts the item in front.
pub queue_insert_lem :
    (m : Memory) (q : Queue) (cells : List Cell) (item : ℕ)
    → IsQueue m q cells
    → IsQueue (queue_insert m q item).0 (queue_insert m q item).1 ((length m, item) ∷ cells)
unfolding queue_insert IsChain
queue_insert_lem m q [] item w = record {
  chain = (
    refl,
    (
      none,
      get_elem?-append_last m _ ∙ ap (λ n. some (record { next = n; item = item })) w.chain,
      refl,
    ),
  );
  last = rw w.chain refl;
  counted = rw w.counted (count_up 0);
  apart = (tt, tt);
}
queue_insert_lem m q (c ∷ cells) item w = record {
  chain = (
    refl,
    (q.first, get_elem?-append_last m _, IsChain-append m _ q.first (c ∷ cells) none w.chain),
  );
  last = rw (w.chain.0) w.last;
  counted = rw w.counted (count_up (length (c ∷ cells)));
  apart = (in_memory m q.first (c ∷ cells) none w.chain, w.apart);
}

-- `queue_tget` takes the first item off.
pub queue_tget_lem :
    (m : Memory) (q : Queue) (c : Cell) (cells : List Cell)
    → IsQueue m q (c ∷ cells)
    → (q' : Queue) × (queue_tget m q ≡ some (some c.1, q')) × IsQueue m q' cells
unfolding queue_tget IsChain
queue_tget_lem m q c cells w =
    let (hp, (n, at, h)) = w.chain in
    (
      record {
        first = n;
        last = if is_null n then at_first else q.last;
        nelts = sub_word q.nelts 1;
      },
      rw (hp, at),
      record {
        chain = h;
        last = place n cells w.last h;
        counted = rw w.counted (count_down (length cells));
        apart = w.apart.1;
      },
    )
  where
    place :
        (n : Option ℕ) (cells : List Cell)
        → q.last ≡ last_place (c ∷ cells)
        → IsChain m n cells none
        → (if is_null n then at_first else q.last) ≡ last_place cells
    place n [] l h = rw h refl
    place n (d ∷ cells) l (hp, _) = rw hp l

pub queue_tget-none : (m : Memory) (q : Queue) → IsQueue m q [] → queue_tget m q ≡ some (none, q)
unfolding queue_tget IsChain
queue_tget-none m q w = rw w.chain
