-- ===== src/Wal.antt =====
-- client/overlay_mgr/wal_enhanced.cpp and wal_enhanced.h, the write-ahead log of the client.
pub mod Entry
pub mod Segment
pub mod Manager
mod Tests
