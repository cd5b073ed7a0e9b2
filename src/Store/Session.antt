-- ===== src/Store/Session.antt =====
-- A client's calls in order: on a block store, and on the array of blocks that it stands for.
use cs4411_p.Prelude.{
  ℕ, ℤ, is_neg, ◌≡◌, refl, ◌&&◌, none, some, List, [], ◌∷◌, ◌==◌, if◌then◌else◌, Bool-cases,
  Option-cases, inl, inr, All, Run, ◌>>=◌,
}
use cs4411_p.Store.{Block, BlockStore}
use cs4411_p.Store.Contract.{View, put, Implements, Rejects}

pub data Call : Type 0 where
  read : ℕ → ℕ → Call
  write : ℕ → ℕ → Block → Call
  sync : ℕ → Call

-- What the client sees of a call. The result of `sync` is not part of it: a store is free to refuse.
pub data Reply : Type 0 where
  got : Block → Reply
  done failed synced : Reply

abbrev pub read_reply : ℤ → Block → Reply
read_reply r b = if is_neg r then failed else got b

abbrev pub reply : ℤ → Reply
reply r = if is_neg r then failed else done

-- The replies of the store, each read into a fresh buffer.
unfoldable pub run : {S : Type 0} → BlockStore S → S → List Call → Run (List Reply)
run bs s [] = some []
run bs s (read ino off ∷ calls) = do
  (r, b, s') ← bs.read s ino off []
  rest ← run bs s' calls
  some (read_reply r b ∷ rest)
run bs s (write ino off b ∷ calls) = do
  (r, s') ← bs.write s ino off b
  rest ← run bs s' calls
  some (reply r ∷ rest)
run bs s (sync ino ∷ calls) = do
  (_, s') ← bs.sync s ino
  rest ← run bs s' calls
  some (synced ∷ rest)

-- The replies of an array of blocks.
unfoldable pub ideal : View → List Call → List Reply
ideal v [] = []
ideal v (read ino off ∷ calls) = elim (v ino off) [
  | none ↦ failed ∷ ideal v calls
  | some b ↦ got b ∷ ideal v calls
]
ideal v (write ino off b ∷ calls) = elim (v ino off) [
  | none ↦ failed ∷ ideal v calls
  | some _ ↦ done ∷ ideal (put v ino off b) calls
]
ideal v (sync ino ∷ calls) = synced ∷ ideal v calls

-- The call is for a block that exists.
abbrev pub Exists : View → Call → Type 0
Exists v (read ino off) = (b : Block) × (v ino off ≡ some b)
Exists v (write ino off _) = (b : Block) × (v ino off ≡ some b)
Exists v (sync _) = Unit

put-some :
    (v : View) (ino off : ℕ) (b : Block) (i o : ℕ)
    → (c : Block) × (v i o ≡ some c)
    → (c : Block) × (put v ino off b i o ≡ some c)
put-some v ino off b i o (c, e) = elim (Bool-cases (i == ino && o == off)) [
  | inl here ↦ (b, rw here)
  | inr away ↦ (c, rw away e)
]

Exists-put :
    (v : View) (ino off : ℕ) (b : Block) (calls : List Call)
    → All (Exists v) calls
    → All (Exists (put v ino off b)) calls
Exists-put v ino off b [] h = tt
Exists-put v ino off b (read i o ∷ calls) h =
    (put-some v ino off b i o h.0, Exists-put v ino off b calls h.1)
Exists-put v ino off b (write i o _ ∷ calls) h =
    (put-some v ino off b i o h.0, Exists-put v ino off b calls h.1)
Exists-put v ino off b (sync i ∷ calls) h = (tt, Exists-put v ino off b calls h.1)

module _ {S : Type 0} (bs : BlockStore S) (IsValid : S → Type 0) (view : S → View)
    (imp : Implements bs IsValid view) where
  -- On blocks that exist a store that meets the contract answers as the array of its blocks.
  pub run_in_range :
      (calls : List Call) (s : S)
      → IsValid s
      → All (Exists (view s)) calls
      → run bs s calls ≡ some (ideal (view s) calls)
  unfolding run ideal
  run_in_range [] s v h = refl
  run_in_range (read ino off ∷ calls) s v ((b, e), h) =
      let (s', called, v', same) = imp.read_some s ino off [] b v e in
      rw (called, run_in_range calls s' v' (rw same h), same, e, ideal)
  run_in_range (write ino off b ∷ calls) s v ((old, e), h) =
      let (s', called, v', same) = imp.write_some s ino off b old v e in
      rw (
        called,
        run_in_range calls s' v' (rw same (Exists-put (view s) ino off b calls h)),
        same,
        e,
        ideal,
      )
  run_in_range (sync ino ∷ calls) s v (_, h) =
      let (r, s', called, v', same) = imp.sync_ok s ino v in
      rw (called, run_in_range calls s' v' (rw same h), same)

  -- A store that also rejects all other accesses answers as the array of its blocks everywhere.
  pub run_refines :
      Rejects bs IsValid view
      → (calls : List Call) (s : S) → IsValid s
      → run bs s calls ≡ some (ideal (view s) calls)
  unfolding run ideal
  run_refines rej [] s v = refl
  run_refines rej (read ino off ∷ calls) s v = elim (Option-cases (view s ino off)) [
    | inl e ↦
        let (b, s', called, v', same) = rej.read_none s ino off [] v e in
        rw (called, run_refines rej calls s' v', same, e, ideal)
    | inr (b, e) ↦
        let (s', called, v', same) = imp.read_some s ino off [] b v e in
        rw (called, run_refines rej calls s' v', same, e, ideal)
  ]
  run_refines rej (write ino off b ∷ calls) s v = elim (Option-cases (view s ino off)) [
    | inl e ↦
        let (s', called, v', same) = rej.write_none s ino off b v e in
        rw (called, run_refines rej calls s' v', same, e, ideal)
    | inr (old, e) ↦
        let (s', called, v', same) = imp.write_some s ino off b old v e in
        rw (called, run_refines rej calls s' v', same, e, ideal)
  ]
  run_refines rej (sync ino ∷ calls) s v =
      let (r, s', called, v', same) = imp.sync_ok s ino v in
      rw (called, run_refines rej calls s' v', same)
