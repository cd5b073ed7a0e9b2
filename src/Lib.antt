-- ===== src/Lib.antt =====
-- EGOS is a teaching operating system. This library models its block layer: the modules of
-- src/block, each of which turns one or more block stores into another, all with the interface
-- `block_store_t` of src/h/egos/block_store.h.
--
-- Store is the interface: `BlockStore S` is the record of methods over a state `S`, and a method
-- takes the state and returns the C result with the state that it leaves. Store/Contract says what
-- a client may rely on: over a `View`, which gives the block at an inode and an offset where there
-- is one, `Implements` states that reads and writes of blocks that exist return 0 and behave as on
-- that array, and `Rejects` that the others return -1 and change nothing. Store/Session runs a
-- sequence of calls. A layer takes the methods of the store below it as a parameter, as the C code
-- calls them through the pointers of `below`; Disk/Stack fills the parameters, layer by layer.
--
-- Disk/Ram is src/block/ramdisk.c, Disk/Map mapdisk.c, Disk/Part partdisk.c, Disk/Stat statdisk.c,
-- Disk/Debug debugdisk.c, Disk/Raid0 raid0disk.c, Disk/Raid1 raid1disk.c, Disk/Raid4 raid4disk.c,
-- Disk/Combine combinedisk.c, Disk/Check checkdisk.c, Disk/Clock clockdisk.c and Disk/WtClock
-- wtclockdisk.c. A function `getsize` of Disk/Part is `partdisk_getsize`, and so on for the other
-- methods and `init`; a state is a record with the fields of the C structure. Disk/Slots is what the
-- two caches share. The proofs about a layer are in the child modules of its file; Disk/Combine/Joined
-- has the array that combinedisk.c stands for, from the sizes of its stores alone, and
-- Disk/Check/History what checkdisk.c has seen, from the calls and their results alone.
--
-- Disk/Prot is protdisk.c, a store whose blocks a server keeps. Remote is src/lib/block.c, the
-- requests that it sends; the kernel's `sys_rpc` and the server behind it are a parameter.
--
-- Disk/Tree is treedisk.c, a file system in one inode of the store below. Disk/Tree/Layout is the
-- layout of treedisk.h: inodes, superblock and indirect blocks are blocks, read and changed at the
-- places of the C structures; `fetch` and `put_block` are a call of the store below after whose
-- failure the code panics. Disk/Tree/FreeList is `treedisk_alloc_block` and `treedisk_free_block`,
-- Disk/Tree/Files the walks over trees and their loops, Disk/Tree/Methods the methods and
-- Disk/Tree/Create `treedisk_create`. Each has its proofs below it: FreeList/Chain says what a well
-- formed free list is, Files/Reading what it means that a tree holds a sequence of blocks, and
-- Writing/Positions gives each block of a file its place, so that the trees have no block in common.
--
-- Containers/Map is src/lib/map.c, the map of the kernel and the servers. `map_insert` returns the
-- address of the data of a key, and its model takes what the caller does there, as a function.
-- Containers/Map/Visiting states iteration and lookup by the list of the nodes in the tree's order.
-- Containers/Queue is src/lib/queue.c: linked lists in one memory of elements, with `last` as the
-- place of a pointer; Containers/Queue/Session runs a client's calls.
--
-- Conventions. A call returns `Option`, spelled `Run`: `none` is a program that stops, by an
-- assertion, `exit` or a panic, an access beyond an array or to what was not initialised, which is
-- undefined in C, or a loop that does not end. Words of 32 bits are
-- natural numbers with the wrap-around written out, and results of type `int` are integers. A block
-- is the list of its 32-bit words. Parallel arrays (`blocks` and `block_infos` of a cache, `below`
-- and `broken` of a mirror) are one list of records. The stores below a layer are distinct and are
-- used through that layer only.
--
-- Fuel. The loop of `cache_update` of both caches runs on fuel, one round more than there are slots:
-- each round but the last makes a new slot old. In Disk/Tree the loops that count levels run on 5 rounds, since a
-- word has 32 bits and a level 8 of them; the one of `treedisk_free_file` on 4, after which it does
-- not end in C either; the one of `setup_freelist` on one more than there are blocks.
--
-- Not modelled: `release`, since nothing is called on a store after it; the messages and
-- statistics that the code prints; allocation failures. The file systems of unixdisk.c and
-- fatdisk.c, the other block stores, the kernel and the applications are not modelled.
pub mod Prelude
pub mod Store
pub mod Remote
pub mod Disk
pub mod Containers
