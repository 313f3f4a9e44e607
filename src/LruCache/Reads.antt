-- ===== src/LruCache/Reads.antt =====
-- What `get` finds after `upsert` in src/libutil/include/nix/util/lru-cache.hh.
use archinix.LruCache.{LruCache}
