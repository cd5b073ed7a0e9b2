-- ===== src/Disk/Check/Contents.antt =====
-- src/block/checkdisk.c as an array of blocks: the one below, if that behaves as one.
use cs4411_p.Prelude.{
  ℕ, pos, ◌≡◌, refl, sym, ◌∙◌, true, ◌&&◌, none, some, List, [], ◌∷◌, ◌==◌, leb, if◌then◌else◌, All,
  ap₂, arith, Bool-cases, Option-cases, inl, inr, ==_refl, ◌⊎◌,
}
use cs4411_p.Store.{Block, BlockStore}
use cs4411_p.Store.Contract.{View, put, Implements}
use cs4411_p.Store.Session.{Call, Exists, run, ideal, run_in_range}
use cs4411_p.Disk.Check.{
  Entry, CheckDisk, same_block, find, update, remove_beyond, check, remember, read, write, sync,
  ops,
}

pub same_block_refl : (b : Block) → same_block b b ≡ true
unfolding same_block
same_block_refl [] = refl
same_block_refl (x ∷ xs) = rw (==_refl x, same_block_refl xs)

-- `memcmp` returns 0 on equal blocks only.
pub same_block→≡ : (a b : Block) → same_block a b ≡ true → a ≡ b
unfolding same_block
same_block→≡ [] [] h = refl
same_block→≡ [] (y ∷ ys) h = cc
same_block→≡ (x ∷ xs) [] h = cc
same_block→≡ (x ∷ xs) (y ∷ ys) h = ground (arith, same_block→≡ xs ys)

-- Each block that the list knows is the block of the contents `w`.
unfoldable pub Agrees : List Entry → View → Type 0
Agrees bl w = (ino off : ℕ) → (find bl ino off ≡ none) ⊎ (find bl ino off ≡ w ino off)

find-update :
    (bl : List Entry) (ino off : ℕ) (b known : Block) (i o : ℕ)
    → find bl ino off ≡ some known
    → find (update bl ino off b) i o ≡ (if i == ino && o == off then some b else find bl i o)
unfolding find update
find-update [] ino off b known i o h = cc
find-update (e ∷ bl) ino off b known i o h = ground (arith, find-update bl ino off b known i o)

pub find-remember :
    (bl : List Entry) (ino off : ℕ) (b : Block) (i o : ℕ)
    → find (remember bl ino off b (find bl ino off)) i o
      ≡ (if i == ino && o == off then some b else find bl i o)
unfolding remember
find-remember bl ino off b i o = elim (Option-cases (find bl ino off)) [
  | inl e ↦ rw e (pushed i o)
  | inr (known, e) ↦ rw e (find-update bl ino off b known i o e)
]
  where
    pushed :
        (i o : ℕ)
        → find (record { ino = ino; offset = off; block = b } ∷ bl) i o
          ≡ (if i == ino && o == off then some b else find bl i o)
    pushed i o = unfold find in ground arith

-- `remove_beyond` forgets the blocks from the new end on, and no others.
pub find-remove_beyond :
    (bl : List Entry) (ino nblocks i o : ℕ)
    → find (remove_beyond bl ino nblocks) i o
      ≡ (if i == ino && leb nblocks o then none else find bl i o)
unfolding find remove_beyond
find-remove_beyond [] ino nblocks i o = ground arith
find-remove_beyond (e ∷ bl) ino nblocks i o = ground (arith, find-remove_beyond bl ino nblocks i o)

module _ {S : Type 0} (bs : BlockStore S) (V : S → Type 0) (v : S → View) where
  pub record IsValid (s : CheckDisk S) : Type 0 where
    pub below : V s.below
    pub agrees : Agrees s.bl (v s.below)

  abbrev pub view : CheckDisk S → View
  view s = v s.below

  -- With a store below that meets the contract `read` never ends the program.
  checked :
      (s : CheckDisk S) (t : S) (ino off : ℕ) (b : Block)
      → Agrees s.bl (v s.below)
      → V t
      → v t ≡ v s.below
      → v s.below ino off ≡ some b
      → (s' : CheckDisk S) × (check t s.bl ino off b (find s.bl ino off) ≡ some (pos 0, b, s'))
        × IsValid s'
        × (view s' ≡ view s)
  unfolding Agrees check find
  checked s t ino off b ag w same h = elim (Option-cases (find s.bl ino off)) [
    | inl e ↦ (
      record { below = t; bl = record { ino = ino; offset = off; block = b } ∷ s.bl },
      rw e,
      record { below = w; agrees = rw same (pushed ag h) },
      same,
    )
    | inr (known, e) ↦
        let equal : known ≡ b = known_eq e (ag ino off) in
        (
          record { below = t; bl = s.bl },
          rw (e, equal, same_block_refl b),
          record { below = w; agrees = rw same ag },
          same,
        )
  ]
    where
      pushed :
          Agrees s.bl (v s.below)
          → v s.below ino off ≡ some b
          → Agrees (record { ino = ino; offset = off; block = b } ∷ s.bl) (v s.below)
      pushed ag h i o = elim (Bool-cases (ino == i && off == o)) [
        | inl key ↦
            let ei : i ≡ ino = ground arith in
            let eo : o ≡ off = ground arith in
            inr (rw (key, find) (sym (ap₂ (v s.below) ei eo ∙ h)))
        | inr other ↦ rw (other, find) (ag i o)
      ]

      known_eq :
          {known : Block}
          → find s.bl ino off ≡ some known
          → (find s.bl ino off ≡ none) ⊎ (find s.bl ino off ≡ v s.below ino off)
          → known ≡ b
      known_eq e (inl no_entry) = cc
      known_eq e (inr entry) = cc

  module _ (imp : Implements bs V v) where
    pub ops-Implements : Implements (ops bs) IsValid view
    unfolding read write sync Agrees
    ops-Implements = record {
      read_some = λ s ino off buf b w h.
          let (t, called, w', same) = imp.read_some s.below ino off buf b w.below h in
          let (s', passed, valid, same') = checked s t ino off b w.agrees w' same h in
          (s', rw (called) passed, valid, same');
      write_some = λ s ino off b old w h.
          let (t, called, w', same) = imp.write_some s.below ino off b old w.below h in
          (
            record { below = t; bl = remember s.bl ino off b (find s.bl ino off) },
            rw called,
            record {
              below = w';
              agrees = rw same (remembered s.bl (v s.below) ino off b w.agrees);
            },
            same,
          );
      sync_ok = λ s ino w.
          let (r, t, called, w', same) = imp.sync_ok s.below ino w.below in
          (
            r,
            record s { below = t },
            rw called,
            record { below = w'; agrees = rw same w.agrees },
            same,
          );
    }
      where
        remembered :
            (bl : List Entry) (w : View) (ino off : ℕ) (b : Block)
            → Agrees bl w
            → Agrees (remember bl ino off b (find bl ino off)) (put w ino off b)
        remembered bl w ino off b ag i o =
            rw (find-remember bl ino off b i o) (elim (Bool-cases (i == ino && o == off)) [
              | inl key ↦ rw key (inr refl)
              | inr other ↦ rw other (ag i o)
            ])

  -- Over a store that behaves as an array of blocks, no check fails on calls for blocks that exist
  -- on a valid disk, and they are answered as by the array below.
  pub checkdisk_run :
      Implements bs V v
      → (calls : List Call) (s : CheckDisk S) → IsValid s
      → All (Exists (view s)) calls
      → run (ops bs) s calls ≡ some (ideal (view s) calls)
  checkdisk_run imp calls s w h =
      run_in_range (ops bs) IsValid view (ops-Implements imp) calls s w h
