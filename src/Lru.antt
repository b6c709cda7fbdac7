-- ===== src/Lru.antt =====
-- hw04_lru_cache: the doubly linked list of list.go on an explicit store of items, and the cache of
-- cache.go over it.
pub mod Cache
pub mod Queue
mod Tests
