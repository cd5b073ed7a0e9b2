-- ===== src/Disk/Tree/Layout.antt =====
-- The layout of src/block/treedisk.h, and how the blocks of the store below are reached.
use cs4411_p.Prelude.{
  ◌==◌, ℕ, zero, suc, ◌+◌, ◌-◌, ◌*◌, ◌/◌, ◌%◌, ◌^◌, is_neg, leb, Option, none, some, [], replicate,
  if◌then◌else◌, get_elem?, set, Run, ◌>>=◌,
}
use cs4411_p.Store.{Block, BlockStore}

-- `BLOCK_SIZE` is 1024: a block has 256 words, or 128 inodes of two words.
abbrev pub refs_per_block : ℕ
refs_per_block = 256

abbrev pub inodes_per_block : ℕ
inodes_per_block = 128

unfoldable pub null_block : Block
null_block = replicate refs_per_block 0

-- The loop of `treedisk_init`, with fuel: the logarithm of `refs_per_block`, from `n` on.
unfoldable pub count_log : ℕ → ℕ → Option ℕ
count_log zero n = none
count_log (suc fuel) n =
    let rest = count_log fuel (n + 1) in
    if (refs_per_block - 1) / 2 ^ (n + 1) == 0 then some (n + 1) else rest

-- What that loop stores.
abbrev pub log_rpb : ℕ
log_rpb = 8

unfoldable pub log_shift_r : ℕ → ℕ → ℕ
log_shift_r x nbits = if leb 32 nbits then 0 else x / 2 ^ nbits

-- `struct treedisk_state`; `ninodes` is not used.
pub record TreeDisk (S : Type 0) : Type 0 where
  pub below : S
  pub below_ino : ℕ

-- `struct treedisk_snapshot`: `inode` is a place in `inodeblock`, the two words from `2 * index` on.
pub record Snapshot : Type 0 where
  pub superblock : Block
  pub inodeblock : Block
  pub inode_blockno : ℕ
  pub index : ℕ

-- `struct treedisk_superblock`
abbrev pub n_inodeblocks : Block → Run ℕ
n_inodeblocks b = get_elem? b 0

abbrev pub free_list : Block → Run ℕ
free_list b = get_elem? b 1

abbrev pub set_free_list : Block → ℕ → Block
set_free_list b n = set b 1 n

-- `struct treedisk_inode`, the one that a snapshot is of
abbrev pub root : Snapshot → Run ℕ
root sn = get_elem? sn.inodeblock (2 * sn.index)

abbrev pub nblocks : Snapshot → Run ℕ
nblocks sn = get_elem? sn.inodeblock (2 * sn.index + 1)

abbrev pub set_root : Snapshot → ℕ → Snapshot
set_root sn n = record sn { inodeblock = set sn.inodeblock (2 * sn.index) n }

abbrev pub set_nblocks : Snapshot → ℕ → Snapshot
set_nblocks sn n = record sn { inodeblock = set sn.inodeblock (2 * sn.index + 1) n }

module _ {S : Type 0} (bs : BlockStore S) (below_ino : ℕ) where
  -- A read or write of the store below after whose failure the program panics.
  unfoldable pub fetch : S → ℕ → Run (Block × S)
  fetch t n = do (r, b, t') ← bs.read t below_ino n []; if is_neg r then none else some (b, t')

  unfoldable pub put_block : S → ℕ → Block → Run S
  put_block t n b = do (r, t') ← bs.write t below_ino n b; if is_neg r then none else some t'

  -- `none` inside for -1.
  unfoldable pub get_snapshot : S → ℕ → Run (Option Snapshot × S)
  get_snapshot t inode_no = do
    (r, superblock, t1) ← bs.read t below_ino 0 []
    if is_neg r then some (none, t1) else do
      n ← n_inodeblocks superblock
      if leb (n * inodes_per_block) inode_no then some (none, t1) else do
        let blockno = 1 + inode_no / inodes_per_block
        (r', inodeblock, t2) ← bs.read t1 below_ino blockno []
        if is_neg r'
            then some (none, t2)
            else some (
              some (record {
                superblock = superblock;
                inodeblock = inodeblock;
                inode_blockno = blockno;
                index = inode_no % inodes_per_block;
              }),
              t2,
            )
