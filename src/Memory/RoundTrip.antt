-- ===== src/Memory/RoundTrip.antt =====
-- src/libutil/memory-source-accessor.cc with src/libutil/archive.cc: from a tree in memory to a NAR
-- and back.
use archinix.Base.{◌≡◌, refl, false, some, List, [], ◌++◌, Bytes, ok}
use archinix.Archive.Tree.{SinkCall, nar_max_depth}
use archinix.Archive.Format.{calls, IsArchivable}
use archinix.Archive.Dump.{dump_path}
use archinix.Archive.Parse.{parse_dump}
use archinix.Archive.RoundTrip.{parse_dump-dump_path}
use archinix.Memory.{File, Memory, nothing, replay}
use archinix.Memory.Restore.{node_of, replay-calls}

-- A tree in memory that has a NAR is dumped, its NAR is parsed up to its last byte, and the calls
-- that the parser makes on an empty memory sink build the same tree.
pub restore-dump :
    (f : File) (rest : Bytes)
    → IsArchivable false nar_max_depth (node_of f)
    → (bytes : Bytes) × (cs : List SinkCall) × (m : Memory) × (dump_path (node_of f) ≡ ok bytes)
      × (parse_dump false (bytes ++ rest) ≡ ok (cs, rest))
      × (replay cs nothing ≡ ok m)
      × (m.root ≡ some f)
restore-dump f rest h =
    let (bytes, e, k) = parse_dump-dump_path false (node_of f) rest h in
    let (o, r) = replay-calls nar_max_depth f h in
    (bytes, calls false [] (node_of f), _, e, k, r, refl)
