-- ===== src/Lfu.antt =====
-- client/smart_cache/w_tinylfu.cpp and w_tinylfu.h, the cache of the client.
pub mod Sketch
pub mod Queues
mod Tests
