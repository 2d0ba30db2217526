-- ===== src/Scripts.antt =====
-- Where a channel's script comes from: adapter/script_source.py, adapter/scriptstore/ and the cache of
-- adapter/script_cache.py.
pub mod Ref
pub mod Manifest
pub mod Store
pub mod Source
pub mod Cache
