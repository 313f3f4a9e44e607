-- ===== src/Lib.antt =====
-- archinix: a content-addressed store of file trees, in C++ (src/libutil and src/libstore).
--
-- A tree is imported as a NAR archive, hashed while it is restored, named by its hash and
-- registered in a SQLite database; it is queried, verified and deleted by its path.
--
-- Parts, and the files that model them:
-- - src/libutil/serialise.cc: Serialise. A sink that is written to is the list of the bytes written,
--   a source the list of the bytes left, a reader a `Parser` (state and error; Base/Results).
--   Serialise/Sink has the buffer of a BufferedSink and of the HashSink of src/libutil/hash.cc,
--   Serialise/Source the `read` of sources, its contract and the loops over it. Serialise/Stream is
--   `sourceToSink`, a step relation of a producer and a thread that runs any reader.
-- - src/libutil/archive.cc: Archive. `dumpPath` is `dump_path` on a tree as an accessor shows it
--   (Archive/Tree, Archive/Dump); `parseDump` is `parse_dump`, which returns the calls on the sink
--   (Archive/Parse). Archive/Format is the format without depth and errors.
-- - src/libutil/base-n.cc and src/libutil/base-nix-32.cc: Encoding.
-- - src/libutil/hash.cc and src/libstore/content-address.cc: Hash.
-- - src/libutil/canon-path.cc and src/libutil/include/nix/util/file-path-impl.hh: CanonPath. The
--   abstract path is a stack of components (CanonPath/Resolve).
-- - src/libstore/path.cc and src/libstore/store-dir-config.cc: StorePath.
-- - src/libstore/local-store.cc with src/libstore/schema.sql: Store. The tables with their unique
--   and foreign keys are lists (Store/Schema); an operation returns the tables that the transaction
--   commits, or the exception after which it is rolled back (Store/Paths). The query by a prefix of
--   the hash part is in Store/Prefix, `verifyStore` and `verifyAllValidPaths` in Store/Verify.
--   `addToStoreFromDump`, and the `addToStore` of src/libstore/store-api.cc that feeds it, are
--   Import/FromDump: a tree on disk is the list of the calls that made it.
-- - `AsyncHashSink` of src/libstore/local-store.cc: Import/Queue, a step relation of two threads.
-- - `FileHashingSink` and `AsyncFileHasher` of src/libstore/local-store.cc: Import/Hasher. The calls of
--   the parser become events, and the events the map of digests.
-- - src/libstore/export-import.cc, `importVerified` of arch/import-path.cc and `addToStore`: Export.
-- - src/libutil/include/nix/util/lru-cache.hh: LruCache.
-- - src/libstore/gc.cc: Store/Collect deletes named paths. Store/Roots has the search for roots, which
--   reads a tree of links, `addPermRoot`, and `isInStore` and `toStorePath` of
--   src/libstore/store-api.cc with `isInDir` of src/libutil/file-system.cc.
-- - src/libstore/optimise-store.cc: Store/Optimise. `optimisePath_` works on a table of inodes and a
--   table of names; what the kernel answers to link and rename is a parameter.
-- - src/libutil/memory-source-accessor.cc: Memory, a client of the calls of the parser and of the trees
--   that are dumped.
--
-- Bytes are native numbers; `IsByte` is a hypothesis where a bound of 256 matters. SHA-256 is
-- OpenSSL's and a parameter of what uses it, and so is the clock. The nesting of a NAR is bounded by
-- the 64 levels of the code itself, which is what `parse` recurses on; the loop over the entries of
-- a directory runs on fuel, one more than the bytes left, and is shown not to run out of it; so is
-- the loop of `canonPathInner`, with one more than the length of the path, and the recursion of
-- `verify_path`, with one more than the number of valid paths.
--
-- Not modelled: system calls (the POSIX accessor, file descriptors, locks, metadata), SQLite itself,
-- logging, the walk of the hard-link farm over directories with their modes and times, its thread
-- pool and `loadInodeHash`, and the other tools.
pub mod Base
pub mod Serialise
pub mod Archive
pub mod Encoding
pub mod StorePath
pub mod Hash
pub mod Store
pub mod Import
pub mod CanonPath
pub mod Export
pub mod LruCache
pub mod Memory
