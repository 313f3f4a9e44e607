-- ===== src/Memory/Tests.antt =====
-- Runs of src/libutil/memory-source-accessor.cc.
use archinix.Base.{
  ◌≡◌, refl, true, false, some, List, [], ◌∷◌, ◌++◌, arith, Bytes, codes, eqb, lt_bytes,
  contains_byte, Error, ok, err,
}
use archinix.Archive.Tree.{
  SinkCall, is_invalid_name, is_invalid_target, create_directory, create_regular_file,
}
use archinix.Archive.Dump.{dump_path}
use archinix.Archive.Parse.{parse_dump}
use archinix.Memory.{
  File, empty, file, regular, directory, symlink, Memory, nothing, replay, add_file, read_file,
  read_link, read_directory, listing, call, t_symlink, t_regular, insert, find, walk, open_create,
  open_existing, open_root, lstat,
}
use archinix.Memory.Restore.{node_of}
use archinix.Memory.RoundTrip.{restore-dump}
use archinix.Memory.Reads.{IsCreateError, add_file-IsCreateError}

abbrev bin : Bytes
bin = codes "bin"

abbrev sample : File
sample = directory (file bin (regular true (codes "run")) (file (codes "to") (symlink bin) empty))

restore-dump_example :
    (bytes : Bytes) × (cs : List SinkCall) × (m : Memory) × (dump_path (node_of sample) ≡ ok bytes)
    × (parse_dump false (bytes ++ (5 ∷ [])) ≡ ok (cs, 5 ∷ []))
    × (replay cs nothing ≡ ok m)
    × (m.root ≡ some sample)
unfolding node_of is_invalid_name is_invalid_target eqb contains_byte lt_bytes
restore-dump_example = restore-dump sample (5 ∷ []) (
  omega arith,
  (
    refl,
    omega arith,
    refl,
    (omega arith, omega arith),
    (refl, omega arith, refl, (omega arith, refl, omega arith), tt),
  ),
)

-- The file `bin/new` of the sample, where `bin` is a directory.
abbrev tree : File
tree = directory (file bin (directory (file (codes "old") (regular false (codes "1")) empty)) empty)

abbrev tree' : File
tree' = directory (
    file bin
      (directory (
        file (codes "new") (regular false (codes "22"))
          (file (codes "old") (regular false (codes "1")) empty)))
      empty)

add_file_run : add_file (bin ∷ codes "new" ∷ []) (codes "22") (some tree) ≡ ok tree'
unfolding add_file open_create walk find insert eqb lt_bytes
add_file_run = refl

read_old : read_file (bin ∷ codes "old" ∷ []) (some tree) ≡ ok (1, codes "1")
unfolding read_file open_root open_existing find eqb
read_old = refl

-- A path through a symbolic link is refused, one through a regular file is not found, and a file is
-- not created below one.
read_through_link : read_file (codes "to" ∷ bin ∷ []) (some sample) ≡ err Error.symlink_not_allowed
unfolding read_file open_root open_existing find eqb
read_through_link = refl

read_through_file : read_file (bin ∷ bin ∷ []) (some sample) ≡ err Error.file_not_found
unfolding read_file open_root open_existing find eqb
read_through_file = refl

add_below_file : add_file (bin ∷ bin ∷ []) [] (some sample) ≡ err Error.not_a_directory
unfolding add_file open_create walk find insert eqb
add_below_file = refl

link_of_sample : read_link (codes "to" ∷ []) (some sample) ≡ ok bin
unfolding read_link open_root open_existing find eqb
link_of_sample = refl

directory_of_sample :
    read_directory [] (some sample) ≡ ok ((bin, t_regular) ∷ (codes "to", t_symlink) ∷ [])
unfolding read_directory open_root open_existing listing lstat
directory_of_sample = refl

-- The parent of a file is created where it is missing.
nested :
    replay (create_directory [] ∷ create_regular_file (bin ∷ bin ∷ []) ∷ []) nothing
    ≡ ok (record {
      root = some (directory (file bin (directory (file bin (regular false []) empty)) empty));
      open_file = some (bin ∷ bin ∷ []);
    })
unfolding replay call open_create walk find insert eqb
nested = refl

add_file-IsCreateError_example : IsCreateError Error.not_a_directory
add_file-IsCreateError_example =
    add_file-IsCreateError (bin ∷ bin ∷ []) [] (some sample) Error.not_a_directory add_below_file
