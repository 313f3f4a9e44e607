-- ===== src/Memory.antt =====
-- src/libutil/memory-source-accessor.cc: a tree in memory, read by `MemorySourceAccessor` and built by
-- `MemorySink`. An exception gives the tree up.
pub mod Entries
pub mod Local
pub mod Restore
pub mod RoundTrip
pub mod Reads
mod Tests
use archinix.Base.{
  ℕ, ◌+◌, ◌-◌, ◌/◌, Bool, true, false, Option, none, some, List, [], ◌∷◌, ◌++◌, map, if◌then◌else◌,
  length, Bytes, eqb, lt_bytes, Error, Result, ok, err, ◌>>?◌,
}
use archinix.Archive.Tree.{
  TreePath, SinkCall, create_regular_file, is_executable, preallocate_contents, write_contents,
  create_directory, create_symlink,
}

-- `fso::VariantT` and the map of a directory, in the order of its keys.
mutual
  pub data File : Type 0 where
    regular : Bool → Bytes → File
    directory : Files → File
    symlink : Bytes → File

  pub data Files : Type 0 where
    empty : Files
    file : Bytes → File → Files → Files

unfoldable pub find : Bytes → Files → Option File
find name empty = none
find name (file n f es) = if eqb n name then some f else find name es

-- The write through the reference that a lookup or an insertion returned.
unfoldable pub insert : Bytes → File → Files → Files
insert name f empty = file name f empty
insert name f (file n g es) =
    if eqb n name
    then file name f es
    else if lt_bytes name n
    then file name f (file n g es)
    else file n g (insert name f es)

-- The walk of `open` with a file to create, and what the caller writes through the pointer that it
-- returns. `new` is `newF`.
unfoldable pub walk : Bool → TreePath → File → (File → Result File) → File → Result File
unfolding find insert
walk new [] create modify f = modify (if new then create else f)
walk new (name ∷ path) create modify (directory es) = elim (find name es) [
  | none ↦ walk true path create modify (directory empty) >>? λ f. ok (directory (insert name f es))
  | some g ↦ walk new path create modify g >>? λ f. ok (directory (insert name f es))
]
walk new (name ∷ path) create modify (regular x c) = err Error.not_a_directory
walk new (name ∷ path) create modify (symlink t) = err Error.symlink_not_allowed

-- `open(path, create)`, where the caller throws on a null pointer.
unfoldable pub open_create : TreePath → File → (File → Result File) → Option File → Result File
open_create [] create modify none = modify create
open_create (name ∷ path) create modify none = err Error.no_parent
open_create path create modify (some f) = walk false path create modify f

-- `open(path, std::nullopt)`
unfoldable pub open_existing : TreePath → File → Result (Option File)
unfolding find
open_existing [] f = ok (some f)
open_existing (name ∷ path) (directory es) = elim (find name es) [
  | none ↦ ok none
  | some f ↦ open_existing path f
]
open_existing (name ∷ path) (regular x c) = ok none
open_existing (name ∷ path) (symlink t) = err Error.symlink_not_allowed

unfoldable pub open_root : TreePath → Option File → Result (Option File)
open_root path none = ok none
open_root path (some f) = open_existing path f

-- The sink: the tree, and the regular file whose callback is running.
pub record Memory : Type 0 where
  pub root : Option File
  pub open_file : Option TreePath

abbrev pub nothing : Memory
nothing = record { root = none; open_file = none }

abbrev pub as_directory : File → Result File
as_directory (directory es) = ok (directory es)
as_directory (regular x c) = err Error.not_a_directory
as_directory (symlink t) = err Error.not_a_directory

abbrev pub as_regular : File → Result File
as_regular (regular x c) = ok (regular x c)
as_regular (directory es) = err Error.not_a_regular_file
as_regular (symlink t) = err Error.not_a_regular_file

abbrev pub set_executable : File → Result File
set_executable (regular x c) = ok (regular true c)
set_executable (directory es) = err Error.not_a_regular_file
set_executable (symlink t) = err Error.not_a_regular_file

abbrev pub append_contents : Bytes → File → Result File
append_contents bytes (regular x c) = ok (regular x (c ++ bytes))
append_contents bytes (directory es) = err Error.not_a_regular_file
append_contents bytes (symlink t) = err Error.not_a_regular_file

abbrev pub set_target : Bytes → File → Result File
set_target target (symlink t) = ok (symlink target)
set_target target (regular x c) = err Error.not_a_symlink
set_target target (directory es) = err Error.not_a_symlink

abbrev pub create_in :
    TreePath → File → (File → Result File) → Option TreePath → Memory → Result Memory
create_in path create modify opened m =
    open_create path create modify m.root >>? λ f. ok (record { root = some f; open_file = opened })

-- The calls of CreateMemoryRegularFile.
abbrev pub write_open : (File → Result File) → Memory → Result Memory
write_open modify m = elim m.open_file [
  | none ↦ err Error.assertion_failed
  | some path ↦ create_in path (regular false []) modify (some path) m
]

-- One call on the sink.
unfoldable pub call : SinkCall → Memory → Result Memory
unfolding open_create
call (create_directory path) m = create_in path (directory empty) as_directory none m
call (create_regular_file path) m = create_in path (regular false []) as_regular (some path) m
call (create_symlink path target) m = create_in path (symlink []) (set_target target) none m
call is_executable m = write_open set_executable m
call (preallocate_contents size) m = write_open as_regular m
call (write_contents bytes) m = write_open (append_contents bytes) m

unfoldable pub replay : List SinkCall → Memory → Result Memory
unfolding call
replay [] m = ok m
replay (c ∷ cs) m = call c m >>? λ m'. replay cs m'

abbrev pub set_contents : Bytes → File → Result File
set_contents bytes (regular x c) = ok (regular x bytes)
set_contents bytes (directory es) = err Error.not_a_regular_file
set_contents bytes (symlink t) = err Error.not_a_regular_file

-- `addFile`, which creates the root directory where there is none.
unfoldable pub add_file : TreePath → Bytes → Option File → Result File
unfolding open_create
add_file [] contents root = open_create [] (regular false []) (set_contents contents) root
add_file (name ∷ path) contents none = open_create [] (directory empty) ok none >>? λ root.
    open_create (name ∷ path) (regular false []) (set_contents contents) (some root)
add_file (name ∷ path) contents (some f) =
    open_create (name ∷ path) (regular false []) (set_contents contents) (some f)

-- `readFile`: the size that it reports, and the bytes.
unfoldable pub read_file : TreePath → Option File → Result (ℕ × Bytes)
unfolding open_root
read_file path root = open_root path root >>? λ f. elim f [
  | none ↦ err Error.file_not_found
  | some (regular x c) ↦ ok (length c, c)
  | some (directory es) ↦ err Error.not_a_regular_file
  | some (symlink t) ↦ err Error.symlink_not_allowed
]

unfoldable pub read_link : TreePath → Option File → Result Bytes
unfolding open_root
read_link path root = open_root path root >>? λ f. elim f [
  | none ↦ err Error.file_not_found
  | some (symlink t) ↦ ok t
  | some (regular x c) ↦ err Error.not_a_symlink
  | some (directory es) ↦ err Error.not_a_symlink
]

-- The type that `lstat` shows.
pub data FileType : Type 0 where
  t_regular t_directory t_symlink : FileType

-- `File::lstat`: the type, the size of a regular file, and whether it is executable.
pub record Stat : Type 0 where
  pub type : FileType
  pub file_size : Option ℕ
  pub is_executable : Bool

unfoldable pub lstat : File → Stat
lstat (regular x c) = record { type = t_regular; file_size = some (length c); is_executable = x }
lstat (directory es) = record { type = t_directory; file_size = none; is_executable = false }
lstat (symlink t) = record { type = t_symlink; file_size = none; is_executable = false }

unfoldable pub maybe_lstat : TreePath → Option File → Result (Option Stat)
unfolding open_root lstat
maybe_lstat path root =
    open_root path root >>? λ f. elim f [ none ↦ ok none | some g ↦ ok (some (lstat g)) ]

unfoldable pub listing : Files → List (Bytes × FileType)
unfolding lstat
listing empty = []
listing (file n f es) = (n, (lstat f).type) ∷ listing es

unfoldable pub read_directory : TreePath → Option File → Result (List (Bytes × FileType))
unfolding open_root listing
read_directory path root = open_root path root >>? λ f. elim f [
  | none ↦ err Error.file_not_found
  | some (directory es) ↦ ok (listing es)
  | some (regular x c) ↦ err Error.not_a_directory
  | some (symlink t) ↦ err Error.symlink_not_allowed
]
