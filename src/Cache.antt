-- ===== src/Cache.antt =====
-- The product cache of src/service: the keys, the Bloom filter in front of it, and `SkuCache`.
pub mod LocalLru
pub mod Keys
pub mod Bloom
pub mod SkuCache
mod Tests
