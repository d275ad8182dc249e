-- ===== src/Lib.antt =====
-- A model of the core of the ZeroOS microkernel and of its file-system library, with the theorems
-- that make them correct.
--
-- Parts and files
-- * Ipc (microkernel/src/ipc.rs). Ipc/Queue is the ring of 16 envelopes of a channel
--   (`MessageQueue`), Ipc/Channel one channel with its access rules and blocked receivers
--   (`Channel`), Ipc/Table the fixed table of channels (`ChannelTable`). Each call of the crate
--   holds the lock of the table from beginning to end, so that a call is one step of the model.
--   The capabilities of a caller (`security::effective_caps`) are a parameter of the calls. The
--   process that a send returns for waking is the first component of its result.
-- * Security (microkernel/src/security.rs). `GrantBook`: dynamically granted capabilities, login
--   tokens and sessions. `Security.Histories.run` runs a history of its calls. Time is an argument
--   of each call, as in the code. Security/Kernel has the calls of the crate, which lock the book
--   and the process table one after the other: they are modelled without other calls in between.
-- * Process (microkernel/src/process.rs): the state of a process as the processors hand it over when
--   they claim it, when it yields, blocks in two phases and is woken, and the login sessions in the
--   process table. Process/Wait has the decisions about exits and waiting parents. Process/Jobs adds
--   the number of entries that the process has in run queues.
-- * Scheduler (microkernel/src/scheduler.rs): the run queues with their levels, the queue of sleepers,
--   the boost and the account of a tick.
-- * Bitmap (shared by the two allocators below): positions of 64-bit words, with the count of
--   free positions (Bitmap/Counting).
-- * Mm/PhysBitmap (microkernel/src/mm/phys_bitmap.rs): the physical page allocator with its counts of
--   references. A failed assertion of the code is an error value, after which the kernel stops.
-- * Mm/TableWalk (microkernel/src/mm/table_walk.rs): the descriptors of pages, and the leaves that a
--   fork shares and a write fault makes private again. Mm/TableWalk/Memory has the walk of the tables
--   in memory and the two changes of a live table, whose assertions are the result `none`.
-- * Shm (microkernel/src/shm.rs): the shared regions, the windows of addresses at which processes map
--   them, and the reaping of regions without a handle or a mapping. Page tables, pages and the
--   process table are behind the interface `Services` of Shm.antt. A call is one step, but `create` is
--   two, since it tests the capacity and enters the region under separate locks. Shm/Histories runs
--   sequences of such steps. The calls of one process do not overlap.
-- * Elf (microkernel/src/elf.rs, user_elf.rs): the headers of an image and its segments. Numbers are
--   read with ZfsCore/Bytes, the bytes of a number with the least first.
-- * ZfsCore/Allocator (libs/zfs-core/src/allocator.rs): the block allocator of a volume, with the
--   strict calls and the idempotent ones that a journal replay makes. ZfsCore/Journal and
--   ZfsCore/Snapshot (journal.rs, snapshot.rs beside it): the last entries, and the snapshots with the
--   blocks that they protect.
-- * ZfsCore/Directory (directory.rs): the map from paths to entries, as the list of a BTreeMap
--   in its order. Its paths are lists of bytes, ordered as Rust orders strings.
-- * ZfsCore/Metadata (metadata.rs, with crc.rs in ZfsCore/Crc): the checkpoint of a volume, its two
--   banks of blocks and the choice of the newest complete one. The device is behind the interface
--   `BlockDevice`, with the laws `IsDevice` of a device of a fixed size, and `KeepsBlocks` of one that
--   may grow, as the device in memory does (device.rs, in ZfsCore/Device). ZfsCore/Utf8 has
--   the test for well-formed text that decoding makes. A checkpoint holds the entries of the
--   directory index above.
--
-- Conventions
-- * Numbers are unbounded natural numbers; where the code has a width that matters it is written
--   out (`saturating_add` against u64::MAX, bitmap words below 2 ^ 64). Bitmaps use the bitwise
--   operations on numbers, about which Common/Bits has the laws. The counters of
--   `GrantBook` wrap; the theorems that need it say how many calls they have left.
-- * A Vec or a fixed array is a list; a read out of bounds gives a named default. An error that
--   leaves the state alone carries no state.
-- * Loops are recursion over the list, or over the number of rounds that the code's bounds give, so
--   that every definition is total and no fuel can run out.
-- * The search for a free window of addresses makes one round for each mapping and one more, since a
--   round that fails passes at least one mapping.
--
-- Not modelled: locks and interrupt masking, hardware, raw memory, drivers, the boot loader and the
-- user-space servers; the kernel heap, the paging code on top of the descriptors, the dynamic section
-- of ELF images, the writing of files to a volume and its cryptography, and the dispatch of system calls.
pub mod Bitmap
pub mod Common
pub mod Elf
pub mod Ipc
pub mod Mm
pub mod Process
pub mod Scheduler
pub mod Security
pub mod Shm
pub mod ZfsCore
