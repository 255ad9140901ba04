-- ===== src/Lib.antt =====
-- HTKIS HyperDisk: the boot disk that a Windows machine reads over the network. The repository has
-- kernel drivers in C (driver/), a boot diagnostic tool in C (tools/bootdiag/), a client and a server in
-- C++ and Rust. The library models the code in C and C++ that keeps state or parses data.
--
-- Parts and files:
-- * driver/common/hd_serial.c, the COM1 port with its ring buffer: Serial. HdSerialWriteByte is
--   `write_byte`, the head and tail update of HdSerialWriteChar is `ring_put`, HdSerialDumpRingBuffer is
--   `dump_ring_buffer`. The line status register is a function of the time.
-- * driver/blk/blk_7b_recovery.c, the recovery from a 0x7B stop: Recovery. Hd7bProcessRetry and
--   Hd7bProcessFallback call each other and are mutual there, with fuel for the nesting of the
--   calls; five or six nested calls are enough to go through the three retries.
-- * driver/net/, the connection table, the request numbers and the wire frames: Net, with the bytes in
--   Net/Frame. HD_NET_FRAME_HEADER has 40 bytes in memory, of which the code copies 32.
-- * driver/blk/blk_irp_tracker.c, the requests in flight and the watchdog: Tracker. The calls of the
--   kernel are kept in a trace, so that memory and references can be counted.
-- * driver/blk/blk_*.c, the dispatch routines, fast I/O, pool quota and locks of the block device: Blk.
--   The drivers share Nt, which has the NTSTATUS codes and the packet (IRP) with its completion.
-- * driver/blk/wdm_disk_driver.c, the disk driver that the mount manager talks to: WdmDisk.
-- * driver/bus/bus_pnp.c, the virtual bus that makes the child devices: Bus. Bus/Ids has the identifiers
--   that HdBusPdoQueryId writes, Bus/Pdo the children, Bus/Dispatch the plug and play requests of bus
--   and child, Bus/Control the device control codes. HdBusDispatchPnp calls the driver
--   of the device below, with fuel for the nesting of these calls.
-- * driver/blk/pnp_disk_driver.c, the disk driver that sits on a child of the bus: PnpDisk, where
--   PnpDisk/Stack has the devices in a row and PnpDisk/Control the questions about the disk.
-- * driver/blk/storport_driver.c, the StorPort miniport: StorPort.
-- * driver/overlay/overlay_driver.c, the dirty pages of the write filter: Overlay.
-- * driver/cache/cache_driver.c, the block that the read filter keeps: Cache.
-- * tools/bootdiag/main.c, the run of the seven boot checks, the gate and the flags: BootDiag;
--   bootdiag_checks.c: BootDiag/Image (BCD, winload, hives, NTFS) and BootDiag/Gpt (GPT, CRC-32C, the
--   two checks that ask Windows).
-- * client/overlay_mgr/wal_enhanced.cpp, the write-ahead log of the client: Wal. Wal/Entry has the bytes
--   of an entry, Wal/Segment the segment files with their positions, Wal/Manager the chain of segments,
--   the checkpoint and the replay.
-- * client/smart_cache/w_tinylfu.cpp, the cache of the client: Lfu. Lfu/Sketch has the count-min sketch
--   and its periods, Lfu/Queues the cache with its three queues.
-- * client/disk_runtime/network_state_machine.cpp, the connection to the servers: NetState.
-- * client/common/hd_frame_codec.cpp, the frames of client and server: Codec, with the CRC of BootDiag/Gpt.
-- * client/boot_agent/boot_meta.cpp, the record of the boot agent, from a file or from a server through
--   the frames of Codec: BootMeta.
-- * client/boot_agent/dhcp_client.cpp, the search of the boot agent for its server: Dhcp, from the answer
--   on, and the options that are sent.
-- * tools/replay_recorder/replay_recorder.cpp, the recorder of boot traces: Replay. Replay/Ring and
--   Replay/Step have the ring buffer and what a write does to it, Replay/File the trace file,
--   Replay/Recorder the recording session, Replay/Report the summary of a trace, Replay/Perf the
--   times and Replay/Train the counts of reads for the prefetch. FlushToFile has as arguments how many
--   bytes behind its header buffer are spare, since it writes two there, and how much of the file is
--   written, which it does not look at.
--
-- The block driver waits for the network driver at its start and writes its progress to the serial
-- port; otherwise the parts keep separate states. Each C function with a state is a function that takes
-- the state and gives the new one, with its status. What the machine or the kernel answers, a register,
-- a sector, a file, the time, an allocation, is an argument.
--
-- Numbers are natural numbers; where the C type is unsigned and can wrap, the wrap-around is written
-- with `u8`, `u16`, `u32`, `u64`, `sub32` and `sub64`. Loops over lists and counters recurse on them; a
-- loop that may not end takes fuel and gives none when it is used up: the retries of a boot check (one
-- more than --retry is enough below 2 ^ 32 - 1), the drain of HdBlkDispatchShutdown (as many looks as it
-- takes until no request is pending) and HdSerialDumpRingBuffer (4096 rounds). The loops of
-- WalSegment::ReadAllEntries and DhcpClient::ParseOptions have fuel for every byte, and the loop of WTinyLFUCache::Put that
-- makes room has fuel for every key in a queue: each round takes a byte, or a key, away.
--
-- Not modelled: the rest of the C++ and Rust programs (client/, server/,
-- tools/blackbox_analyzer); the text of the log's checkpoint file and the names of its segments; the
-- DriverEntry functions, which only register routines; of the bus and the PnP
-- disk, the creation of the devices, the power requests and bus_child.c and bus_ioctl.c; the wrappers
-- of kernel calls in driver/common.
pub mod Base
pub mod Nt
pub mod Serial
pub mod Recovery
pub mod Net
pub mod Tracker
pub mod BootDiag
pub mod Blk
pub mod WdmDisk
pub mod Overlay
pub mod Cache
pub mod Wal
pub mod Lfu
pub mod NetState
pub mod Codec
pub mod BootMeta
pub mod StorPort
pub mod Replay
pub mod Bus
pub mod PnpDisk
pub mod Dhcp
