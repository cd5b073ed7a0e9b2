-- ===== src/Disk/Tree/Access.antt =====
-- The store below src/block/treedisk.c as one array of blocks.
use cs4411_p.Prelude.{
  ◌<◌, sym, some-injective, refl, lt_of_get_elem?, length, get_elem?-replicate, get_elem?, arith,
  pos, ◌≢◌, ≢→==, ◌∙◌, fun_ext, ap, ==_refl, [], some, some, ◌==◌, ◌≡◌, ◌≡◌, if◌then◌else◌, Option,
  ℕ,
}
use cs4411_p.Store.{Block, BlockStore}
use cs4411_p.Store.Contract.{View, put, Implements}
use cs4411_p.Disk.Tree.Layout.{null_block, fetch, put_block}

pub null_word : (k : ℕ) → k < 256 → get_elem? null_block k ≡ some 0
unfolding null_block
null_word k lt = get_elem?-replicate 0 256 k lt

pub length-null_block : length null_block ≡ 256
unfolding null_block
length-null_block = refl

pub null_ref : (k r : ℕ) → get_elem? null_block k ≡ some r → r ≡ 0
null_ref k r h =
    let lt = lt_of_get_elem? null_block k h in
    sym (some-injective 0 r (sym (null_word k (omega (arith, lt, length-null_block))) ∙ h))

-- The contents of one inode.
abbrev pub Disk : Type 0
Disk = ℕ → Option Block

abbrev pub write_at : Disk → ℕ → Block → Disk
write_at w n b k = if k == n then some b else w k

pub write_at_self : (w : Disk) (n : ℕ) (b : Block) → write_at w n b n ≡ some b
write_at_self w n b = rw (==_refl n)

pub write_at_ne : (w : Disk) (n : ℕ) (b : Block) (k : ℕ) → k ≢ n → write_at w n b k ≡ w k
write_at_ne w n b k ne = rw (≢→== k n ne)

module _ {S : Type 0} (bs : BlockStore S) (V : S → Type 0) (v : S → View) (below_ino : ℕ) where
  -- The inode of the store below that holds the file system.
  abbrev pub disk : S → Disk
  disk t = v t below_ino

  module _ (imp : Implements bs V v) (t : S) (n : ℕ) (w : V t) where
    pub fetch_lem :
        (b : Block)
        → disk t n ≡ some b
        → (t' : S) × (fetch bs below_ino t n ≡ some (b, t')) × V t' × (disk t' ≡ disk t)
    unfolding fetch
    fetch_lem b h =
        let (t', called, w', same) = imp.read_some t below_ino n [] b w h in
        (t', rw called, w', ap (λ (u : View). u below_ino) same)

    pub write_lem :
        (old b : Block)
        → disk t n ≡ some old
        → (t' : S) × (bs.write t below_ino n b ≡ some (pos 0, t'))
          × V t'
          × (disk t' ≡ write_at (disk t) n b)
    write_lem old b h =
        let (t', called, w', same) = imp.write_some t below_ino n b old w h in
        (t', called, w', fun_ext λ k. ap (λ (u : View). u below_ino k) same ∙ here k)
      where
        here : (k : ℕ) → put (v t) below_ino n b below_ino k ≡ write_at (disk t) n b k
        here k = rw (==_refl below_ino)

    pub put_block_lem :
        (old b : Block)
        → disk t n ≡ some old
        → (t' : S) × (put_block bs below_ino t n b ≡ some t')
          × V t'
          × (disk t' ≡ write_at (disk t) n b)
    unfolding put_block
    put_block_lem old b h =
        let (t', called, w', same) = write_lem old b h in (t', rw called, w', same)
