-- ===== src/Disk/Part/Contents.antt =====
-- src/block/partdisk.c as an array of blocks: disjoint ranges of the inode below.
use cs4411_p.Prelude.{
  ℕ, zero, suc, ◌+◌, ◌<◌, ◌≤◌, err, to_int, to_word, add_word, word_mod, ◌≡◌, ap, ◌∙◌, fun_ext,
  true, false, none, some, List, [], ◌∷◌, ltb, leb, if◌then◌else◌, get_elem?, length, All,
  get_elem?_of_lt, lt_of_get_elem?, arith, Bool-cases, Option-cases, inl, inr, ltb→lt, ltb→le,
  to_word-to_int, ◌⊎◌,
}
use cs4411_p.Store.{Block, BlockStore}
use cs4411_p.Store.Contract.{View, put, Implements}
use cs4411_p.Store.Session.{Call, Exists, run, ideal, run_in_range}
use cs4411_p.Disk.Part.{PartDisk, sum_before, read, write, sync, ops}

-- Where partition `n` begins: the sum of the sizes in front of it.
abbrev pub start : List ℕ → ℕ → ℕ
start [] n = 0
start (size ∷ sizes) zero = 0
start (size ∷ sizes) (suc n) = size + start sizes n

-- The size of the whole disk.
abbrev pub total : List ℕ → ℕ
total [] = 0
total (size ∷ sizes) = size + total sizes

-- A partition ends before the end of the disk.
pub start-le-total :
    (sizes : List ℕ) (n size : ℕ)
    → get_elem? sizes n ≡ some size
    → start sizes n + size ≤ total sizes
start-le-total [] n size h = cc
start-le-total (x ∷ sizes) zero size h = ground arith
start-le-total (x ∷ sizes) (suc n) size h = omega (arith, start-le-total sizes n size h)

-- A partition ends before the next begins.
pub start_mono :
    (sizes : List ℕ) (n m size : ℕ)
    → get_elem? sizes n ≡ some size
    → n < m
    → m < length sizes
    → start sizes n + size ≤ start sizes m
start_mono [] n m size h lt len = cc
start_mono (x ∷ sizes) n zero size h lt len = absurd (omega arith)
start_mono (x ∷ sizes) zero (suc m) size h lt len = ground arith
start_mono (x ∷ sizes) (suc n) (suc m) size h lt len =
    omega (arith, start_mono sizes n m size h (omega arith) (omega arith))

-- The loop computes the sum, if it fits into a word.
pub sum_before-start :
    (sizes : List ℕ) (n noffset : ℕ)
    → n ≤ length sizes
    → noffset + start sizes n < word_mod
    → sum_before sizes n noffset ≡ some (noffset + start sizes n)
unfolding sum_before
sum_before-start [] zero noffset le fits = ap some (omega arith)
sum_before-start (x ∷ sizes) zero noffset le fits = ap some (omega arith)
sum_before-start [] (suc n) noffset le fits = absurd (omega arith)
sum_before-start (x ∷ sizes) (suc n) noffset le fits =
    let no_wrap : add_word noffset x ≡ noffset + x = omega arith in
    rw no_wrap
      (sum_before-start sizes n (noffset + x) (omega arith) (omega arith) ∙ ap some (omega arith))

-- Two blocks of partitions that lie at one place are one block.
pub start_unique :
    (sizes : List ℕ) (i j o p : ℕ) {n m : ℕ}
    → get_elem? sizes i ≡ some n
    → o < n
    → get_elem? sizes j ≡ some m
    → p < m
    → o + start sizes i ≡ p + start sizes j
    → (i ≡ j) × (o ≡ p)
start_unique sizes i j o p {n} {m} hi ho hj hp e = elim (Bool-cases (ltb i j)) [
  | inl lt ↦
      absurd (omega (arith, start_mono sizes i j n hi (ltb→lt i j lt) (lt_of_get_elem? sizes j hj)))
  | inr ge ↦ elim (Bool-cases (ltb j i)) [
    | inl lt ↦
        absurd
          (omega (arith, start_mono sizes j i m hj (ltb→lt j i lt) (lt_of_get_elem? sizes i hi)))
    | inr le ↦
        let same : i ≡ j = omega (arith, ltb→le i j ge, ltb→le j i le) in
        (same, omega (arith, ap (start sizes) same))
  ]
]

-- Each partition is a range of inode 0 of the contents `w` below.
abbrev pub ranges : List ℕ → View → View
ranges sizes w ino off = elim (get_elem? sizes ino) [
  | none ↦ none
  | some size ↦ if ltb off size then w 0 (off + start sizes ino) else none
]

ranges-some :
    (sizes : List ℕ) (w : View) (ino off : ℕ) {b : Block}
    → ranges sizes w ino off ≡ some b
    → (size : ℕ) × (get_elem? sizes ino ≡ some size)
      × (off < size)
      × (w 0 (off + start sizes ino) ≡ some b)
ranges-some sizes w ino off h = elim (Option-cases (get_elem? sizes ino)) [
  | inl e ↦ absurd (ground arith)
  | inr (size, e) ↦ (size, e, ground arith, ground arith)
]

-- Outside of the partition's range a write leaves every partition as it is.
ranges-put :
    (sizes : List ℕ) (w : View) (ino off : ℕ) (b : Block) {size : ℕ}
    → get_elem? sizes ino ≡ some size
    → off < size
    → ranges sizes (put w 0 (off + start sizes ino) b) ≡ put (ranges sizes w) ino off b
ranges-put sizes w ino off b h lt = fun_ext λ i. fun_ext λ o.
    elim (Option-cases (get_elem? sizes i)) [
      | inl e ↦ ground arith
      | inr (n, e) ↦ elim (Bool-cases (ltb o n)) [
        | inl in_range ↦ grind (arith, start_unique sizes i ino o off e (ltb→lt o n in_range) h lt)
        | inr beyond ↦ ground arith
      ]
    ]

module _ {S : Type 0} (bs : BlockStore S) (V : S → Type 0) (v : S → View) where
  pub record IsValid (s : PartDisk S) : Type 0 where
    pub below : V s.below
    pub sized : length s.partsizes ≡ s.ninodes
    pub few : s.ninodes < word_mod
    pub fits : total s.partsizes < word_mod

  abbrev pub view : PartDisk S → View
  view s = ranges s.partsizes (v s.below)

  -- What the guards and the sum in front of a call below come to.
  record Found (s : PartDisk S) (ino off size : ℕ) : Type 0 where
    checked : leb (to_word (to_int s.ninodes)) ino ≡ false
    entry : get_elem? s.partsizes ino ≡ some size
    bounded : leb size off ≡ false
    summed : sum_before s.partsizes ino off ≡ some (off + start s.partsizes ino)

  Found-of :
      (s : PartDisk S) (ino off size : ℕ)
      → IsValid s
      → get_elem? s.partsizes ino ≡ some size
      → off < size
      → Found s ino off size
  Found-of s ino off size w e lt = record {
    checked = ground (arith, to_word-to_int s.ninodes, lt_of_get_elem? s.partsizes ino e);
    entry = e;
    bounded = ground arith;
    summed =
        sum_before-start s.partsizes ino off (omega (arith, lt_of_get_elem? s.partsizes ino e))
          (omega (arith, start-le-total s.partsizes ino size e));
  }

  below_valid : (s : PartDisk S) (t : S) → IsValid s → V t → IsValid (record s { below = t })
  below_valid s t w w' = record { below = w'; sized = w.sized; few = w.few; fits = w.fits }

  module _ (imp : Implements bs V v) where
    pub ops-Implements : Implements (ops bs) IsValid view
    unfolding read write sync
    ops-Implements = record {
      read_some = λ s ino off buf b w h.
          let (size, e, lt, h') = ranges-some s.partsizes (v s.below) ino off h in
          let f = Found-of s ino off size w e lt in
          let (t, called, w', same) =
            imp.read_some s.below 0 (off + start s.partsizes ino) buf b w.below h' in
          (
            record s { below = t },
            rw (f.checked, f.entry, f.bounded, f.summed, called),
            below_valid s t w w',
            ap (ranges s.partsizes) same,
          );
      write_some = λ s ino off b old w h.
          let (size, e, lt, h') = ranges-some s.partsizes (v s.below) ino off h in
          let f = Found-of s ino off size w e lt in
          let (t, called, w', same) =
            imp.write_some s.below 0 (off + start s.partsizes ino) b old w.below h' in
          (
            record s { below = t },
            rw (f.checked, f.entry, f.bounded, f.summed, called),
            below_valid s t w w',
            ap (ranges s.partsizes) same ∙ ranges-put s.partsizes (v s.below) ino off b e lt,
          );
      sync_ok = λ s ino w.
          let (r, t, called, w', same) = imp.sync_ok s.below 0 w.below in
          (
            r,
            record s { below = t },
            rw called,
            below_valid s t w w',
            ap (ranges s.partsizes) same,
          );
    }

  -- The whole of the disk lies within inode 0 of the store below.
  unfoldable pub IsCovered : PartDisk S → Type 0
  IsCovered s = (off : ℕ) → off < total s.partsizes → (b : Block) × (v s.below 0 off ≡ some b)

  out_of_range :
      (s : PartDisk S) (ino off : ℕ)
      → IsValid s
      → IsCovered s
      → view s ino off ≡ none
      → (leb (to_word (to_int s.ninodes)) ino ≡ true)
        ⊎ ((size : ℕ) × (leb (to_word (to_int s.ninodes)) ino ≡ false)
            × (get_elem? s.partsizes ino ≡ some size)
            × (leb size off ≡ true))
  unfolding IsCovered
  out_of_range s ino off w cov h = elim (Bool-cases (leb (to_word (to_int s.ninodes)) ino)) [
    | inl beyond ↦ inl beyond
    | inr inside ↦
        let (size, e) =
          get_elem?_of_lt s.partsizes ino (ground (arith, to_word-to_int s.ninodes)) in
        elim (Bool-cases (leb size off)) [
          | inl big ↦ inr (size, inside, e, big)
          | inr small ↦
              let lt : off < size = ground arith in
              let (b, has) =
                cov (off + start s.partsizes ino)
                  (omega (arith, start-le-total s.partsizes ino size e)) in
              absurd (ground arith)
        ]
  ]

  -- A read beyond the partitions, or beyond the end of one, returns -1 and changes nothing.
  pub read_beyond :
      (s : PartDisk S) (ino off : ℕ) (buf : Block)
      → IsValid s
      → IsCovered s
      → view s ino off ≡ none
      → read bs s ino off buf ≡ some (err, buf, s)
  unfolding read
  read_beyond s ino off buf w cov h = elim (out_of_range s ino off w cov h) [
    | inl beyond ↦ rw beyond
    | inr (size, inside, e, big) ↦ rw (inside, e, big)
  ]

  pub write_beyond :
      (s : PartDisk S) (ino off : ℕ) (b : Block)
      → IsValid s
      → IsCovered s
      → view s ino off ≡ none
      → write bs s ino off b ≡ some (err, s)
  unfolding write
  write_beyond s ino off b w cov h = elim (out_of_range s ino off w cov h) [
    | inl beyond ↦ rw beyond
    | inr (size, inside, e, big) ↦ rw (inside, e, big)
  ]

  -- Where the store below covers the partitions, a read or write of a block that no partition has,
  -- beyond the last of them or beyond the end of one, returns -1 and changes nothing.
  pub access_beyond :
      (s : PartDisk S) (ino off : ℕ) (b : Block)
      → IsValid s
      → IsCovered s
      → view s ino off ≡ none
      → (read bs s ino off b ≡ some (err, b, s)) × (write bs s ino off b ≡ some (err, s))
  access_beyond s ino off b w cov h =
      (read_beyond s ino off b w cov h, write_beyond s ino off b w cov h)

  -- Over a store that behaves as an array of blocks, the partitions of a valid disk answer calls for
  -- blocks that exist as separate arrays of blocks.
  pub partdisk_run :
      Implements bs V v
      → (calls : List Call) (s : PartDisk S) → IsValid s
      → All (Exists (view s)) calls
      → run (ops bs) s calls ≡ some (ideal (view s) calls)
  partdisk_run imp calls s w h = run_in_range (ops bs) IsValid view (ops-Implements imp) calls s w h
