-- ===== src/Import/Hasher.antt =====
-- `AsyncFileHasher` and `FileHashingSink` of src/libstore/local-store.cc: while a tree is restored, every
-- file and link is hashed as if it were dumped by itself, and files that the farm has are swapped for
-- links. A HashSink is the bytes that were written to it; SHA-256, the farm and the swap are
-- parameters.
pub mod Framing
pub mod Modes
mod Tests
use archinix.Base.{
  ℕ, ◌+◌, ◌-◌, ◌*◌, ◌/◌, ◌%◌, ◌^◌, ◌<◌, Bool, false, not, ◌||◌, Option, none, some, List, [], ◌∷◌,
  ◌++◌, ◌==◌, if◌then◌else◌, length, Bytes, codes, eqb, Error, Result, ok, err, ◌>>?◌,
}
use archinix.Serialise.{write_string, write_num, write_padding}
use archinix.Archive.Tag
use archinix.Archive.Tree.{
  TreePath, SinkCall, create_regular_file, is_executable, preallocate_contents, write_contents,
  create_directory, create_symlink, nar_version_magic,
}
use archinix.Hash.{to_string, HashFormat}

-- `Ev`
pub data Event : Type 0 where
  begin : Bytes → Event
  exec : Event
  set_size : ℕ → Event
  data_of : Bytes → Event
  end : Event
  symlink : Bytes → Bytes → Event

-- `DedupSwapPool::Job`: the name of the farm's link, the key of the file, its size.
pub record Job : Type 0 where
  pub link : Bytes
  pub key : Bytes
  pub size : ℕ

-- What the hasher finds outside: whether there is a farm, the size that `lstat` reports of a name in
-- it, whether swaps go to a pool, and whether a swap replaces the file.
pub record Farm : Type 0 where
  pub dedups : Bool
  pub link_size : Bytes → Option ℕ
  pub has_pool : Bool
  pub swaps : Bytes → Bytes → Bool

-- The hasher with its `out`, an ImportFileHashes. `posted` is what the pool was given.
pub record Hasher : Type 0 where
  pub key : Bytes
  pub hash : Option Bytes
  pub size : ℕ
  pub bytes_done : ℕ
  pub files : List (Bytes × Bytes)
  pub symlinks : ℕ
  pub deduped_files : ℕ
  pub deduped_bytes : ℕ
  pub posted : List Job

unfoldable pub insert_or_assign : Bytes → Bytes → List (Bytes × Bytes) → List (Bytes × Bytes)
insert_or_assign k v [] = (k, v) ∷ []
insert_or_assign k v ((n, w) ∷ fs) =
    if eqb n k then (k, v) ∷ fs else (n, w) ∷ insert_or_assign k v fs

-- `*hash << …`
abbrev pub feed : Bytes → Hasher → Result Hasher
feed bytes h = elim h.hash [
  | none ↦ err Error.assertion_failed
  | some digested ↦ ok (record h { hash = some (digested ++ bytes) })
]

abbrev pub begin_file : Bytes → Hasher → Hasher
begin_file k h = record h {
  key = k;
  hash = some (
      write_string nar_version_magic
      ++ write_string Tag.open_paren
      ++ write_string Tag.type_of
      ++ write_string Tag.regular);
}

abbrev pub exec_file : Hasher → Result Hasher
exec_file h = feed (write_string Tag.executable ++ write_string []) h

abbrev pub size_file : ℕ → Hasher → Result Hasher
size_file s h = feed (write_string Tag.contents ++ write_num s) (record h { size = s })

abbrev pub data_file : Bytes → Hasher → Result Hasher
data_file d h =
    feed d h >>? λ h'. ok (record h' { bytes_done = (h'.bytes_done + length d) % 2 ^ 64 })

module _ (sha256 : Bytes → Bytes) (farm : Farm) where
  -- `tryDedup`, where the farm has an entry of the same size.
  abbrev pub swap_or_post : Bytes → Hasher → Hasher
  swap_or_post link h =
      if farm.has_pool
      then record h {
        posted = h.posted ++ (record { link = link; key = h.key; size = h.size } ∷ []);
      }
      else if farm.swaps link h.key
      then record h {
        deduped_files = (h.deduped_files + 1) % 2 ^ 64;
        deduped_bytes = (h.deduped_bytes + h.size) % 2 ^ 64;
      }
      else h

  abbrev pub try_dedup : Bytes → Hasher → Hasher
  try_dedup digest h =
      if not farm.dedups || h.size == 0
      then h
      else let link = to_string digest HashFormat.nix32 false in
        elim (farm.link_size link) [
          | none ↦ h
          | some st_size ↦ if st_size == h.size then swap_or_post link h else h
        ]

  abbrev pub end_file : Hasher → Result Hasher
  end_file h = feed (write_padding h.size ++ write_string Tag.close_paren) h >>? λ h'.
      elim h'.hash [
        | none ↦ err Error.assertion_failed
        | some digested ↦
            let digest = sha256 digested in
            let d = try_dedup digest h' in
            ok (record d { files = insert_or_assign d.key digest d.files; hash = none })
      ]

  abbrev pub symlink_file : Bytes → Bytes → Hasher → Hasher
  symlink_file k t h = record h {
    files =
        insert_or_assign k
          (sha256 (
            write_string nar_version_magic
            ++ write_string Tag.open_paren
            ++ write_string Tag.type_of
            ++ write_string Tag.symlink
            ++ write_string Tag.target
            ++ write_string t
            ++ write_string Tag.close_paren))
          h.files;
    symlinks = (h.symlinks + 1) % 2 ^ 64;
  }

  -- One event; without a thread it is the call itself.
  unfoldable pub handle : Event → Hasher → Result Hasher
  handle (begin k) h = ok (begin_file k h)
  handle exec h = exec_file h
  handle (set_size s) h = size_file s h
  handle (data_of d) h = data_file d h
  handle end h = end_file h
  handle (symlink k t) h = ok (symlink_file k t h)

  -- The calls without a thread: the first exception leaves them.
  unfoldable pub handle_all : List Event → Hasher → Result Hasher
  handle_all [] h = ok h
  handle_all (ev ∷ evs) h = handle ev h >>? λ h'. handle_all evs h'

  -- `run`: after a failure the events are drained.
  unfoldable pub run : List Event → Option Error → Hasher → Option Error × Hasher
  unfolding handle
  run [] failure h = (failure, h)
  run (ev ∷ evs) (some e) h = run evs (some e) h
  run (ev ∷ evs) none h = elim (handle ev h) [
    | ok h' ↦ run evs none h'
    | err e ↦ run evs (some e) h
  ]

-- The swap of a job, as `finish` of the pool adds it.
abbrev pub job_done : Farm → Job → Hasher → Hasher
job_done farm j h =
    if farm.swaps j.link j.key
    then record h {
      deduped_files = (h.deduped_files + 1) % 2 ^ 64;
      deduped_bytes = (h.deduped_bytes + j.size) % 2 ^ 64;
    }
    else h

unfoldable pub jobs_done : Farm → List Job → Hasher → Hasher
jobs_done farm [] h = h
jobs_done farm (j ∷ js) h = jobs_done farm js (job_done farm j h)

abbrev pub settle : Farm → Hasher → Hasher
settle farm h = jobs_done farm h.posted (record h { posted = [] })

abbrev pub rethrow : Option Error × Hasher → Result Hasher
rethrow (none, h) = ok h
rethrow (some e, h) = err e

abbrev pub finish : Farm → Option Error × Hasher → Result Hasher
finish farm (failure, h) = rethrow (failure, if farm.has_pool then settle farm h else h)

-- The string of a CanonPath.
unfoldable pub slashes : TreePath → Bytes
slashes [] = []
slashes (name ∷ path) = b'/' ∷ name ++ slashes path

abbrev pub abs : TreePath → Bytes
abs [] = codes "/"
abs (name ∷ path) = slashes (name ∷ path)

-- `createRegularFile` ends the file once the calls on it are over.
abbrev pub end_before : List SinkCall → List Event
end_before [] = end ∷ []
end_before (is_executable ∷ cs) = []
end_before (preallocate_contents size ∷ cs) = []
end_before (write_contents bytes ∷ cs) = []
end_before (create_regular_file path ∷ cs) = end ∷ []
end_before (create_directory path ∷ cs) = end ∷ []
end_before (create_symlink path target ∷ cs) = end ∷ []

-- What a FileHashingSink with a prefix passes to the hasher.
unfoldable pub events : TreePath → List SinkCall → List Event
events prefix [] = []
events prefix (create_directory path ∷ cs) = events prefix cs
events prefix (create_symlink path target ∷ cs) =
    symlink (abs (prefix ++ path)) target ∷ events prefix cs
events prefix (create_regular_file path ∷ cs) =
    begin (abs (prefix ++ path)) ∷ end_before cs ++ events prefix cs
events prefix (is_executable ∷ cs) = exec ∷ end_before cs ++ events prefix cs
events prefix (preallocate_contents size ∷ cs) = set_size size ∷ end_before cs ++ events prefix cs
events prefix (write_contents bytes ∷ cs) = data_of bytes ∷ end_before cs ++ events prefix cs
