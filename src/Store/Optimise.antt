-- ===== src/Store/Optimise.antt =====
-- `optimisePath_` of src/libstore/optimise-store.cc: files of a store path become hard links to the
-- farm. The table of inodes is a parameter, since this code changes names only; what the kernel answers
-- to `link` and `rename` is a parameter too. Modes and times of directories are left out.
pub mod Names
pub mod Contents
pub mod Candidates
pub mod Joins
pub mod Shared
mod Tests
use archinix.Base.{
  ℕ, ◌+◌, ◌%◌, ◌^◌, Bool, true, false, ◌||◌, ◌&&◌, not, Option, none, some, List, [], ◌∷◌, ltb,
  ◌==◌, if◌then◌else◌, length, drop, Bytes, codes, eqb, Result, ok, err,
}
use archinix.Hash.{to_string, nix32}
use archinix.Archive.Tree
use archinix.Archive.Tree.{Node}
use archinix.Archive.Dump.{dump_path}

-- What `lstat` finds that is no directory; `other` is no candidate, and has a size.
pub data File : Type 0 where
  regular : Bool → Bytes → File
  symlink : Bytes → File
  other : ℕ → File

pub record Inode : Type 0 where
  pub file : File
  pub writable : Bool
  -- `st_mtime == mtimeStore`
  pub canonical : Bool

-- The answer to `create_hard_link(path, linkPath)`: another process may have made the link, and a
-- collection may have removed it again.
pub data Published : Type 0 where
  published no_space_on_device publish_error : Published
  file_exists : Option ℕ → Published

-- The answers to `create_hard_link(linkPath, tempLink)` and to the `rename`.
pub data Replaced : Type 0 where
  replaced too_many_links no_such_file link_error : Replaced
  rename_too_many_links rename_error : Replaced

-- The names in the store and in the farm with their inodes, and the OptimiseCtx.
pub record Store : Type 0 where
  pub files : List (Bytes × ℕ)
  pub links : List (Bytes × ℕ)
  pub inode_hash : List ℕ
  pub visited : ℕ
  pub files_linked : ℕ
  pub bytes_freed : ℕ

-- An exception leaves what was done before it.
pub data Walked : Type 0 where
  returned thrown : Store → Walked

abbrev pub store_of : Walked → Store
store_of (returned s) = s
store_of (thrown s) = s

unfoldable pub find : Bytes → List (Bytes × ℕ) → Option ℕ
find name [] = none
find name ((n, i) ∷ entries) = if eqb n name then some i else find name entries

unfoldable pub unlink : Bytes → List (Bytes × ℕ) → List (Bytes × ℕ)
unlink name [] = []
unlink name ((n, i) ∷ entries) =
    if eqb n name then unlink name entries else (n, i) ∷ unlink name entries

unfoldable pub rename_over : Bytes → ℕ → List (Bytes × ℕ) → List (Bytes × ℕ)
rename_over name l [] = []
rename_over name l ((n, i) ∷ entries) =
    (n, if eqb n name then l else i) ∷ rename_over name l entries

unfoldable pub names_of : ℕ → List (Bytes × ℕ) → ℕ
names_of ino [] = 0
names_of ino ((n, i) ∷ entries) = (if i == ino then 1 else 0) + names_of ino entries

unfoldable pub contains : ℕ → List ℕ → Bool
contains i [] = false
contains i (j ∷ js) = j == i || contains i js

abbrev pub st_size : File → ℕ
st_size (regular x c) = length c
st_size (symlink t) = length t
st_size (other n) = n

-- What `st_size` adds to `bytesFreed`.
abbrev pub freed_size : File → ℕ
freed_size (regular x c) = length c
freed_size (symlink t) = 0
freed_size (other n) = 0

abbrev pub node_of : File → Node
node_of (regular x c) = Tree.regular x c
node_of (symlink t) = Tree.symlink t
node_of (other n) = Tree.special Tree.unknown

-- Files that a hash is taken of: no other nodes, no writable file, no empty one.
unfoldable pub is_candidate : Inode → Bool
is_candidate st = elim st.file [
  | regular x c ↦ not st.writable && not (length c == 0)
  | symlink t ↦ true
  | other n ↦ false
]

abbrev pub is_visited : File → Bool
is_visited (regular x c) = true
is_visited (symlink t) = true
is_visited (other n) = false

-- `hashPath(makeFSSourceAccessor(path)).hash`
unfoldable pub hash_path : (Bytes → Bytes) → File → Result Bytes
hash_path sha256 f = elim (dump_path (node_of f)) [ ok nar ↦ ok (sha256 nar) | err e ↦ err e ]

unfoldable pub find_hash : Bytes → List (Bytes × Bytes) → Option Bytes
find_hash name [] = none
find_hash name ((n, h) ∷ entries) = if eqb n name then some h else find_hash name entries

-- The captured hash of a path: its length base, and the map.
unfoldable pub captured : Option (ℕ × List (Bytes × Bytes)) → Bytes → Option Bytes
unfolding find_hash
captured none path = none
captured (some (base, hashes)) path =
    let rel = drop base path in find_hash (if eqb rel [] then codes "/" else rel) hashes

module _ (sha256 : Bytes → Bytes) (inode : ℕ → Inode)
    (file_hashes : Option (ℕ × List (Bytes × Bytes))) (publish : Bytes → Published)
    (replace : Bytes → Replaced) where
  unfoldable pub hash_of : Bytes → Inode → Result Bytes
  unfolding hash_path captured
  hash_of path st =
      if st.canonical
      then elim (captured file_hashes path) [ some h ↦ ok h | none ↦ hash_path sha256 st.file ]
      else hash_path sha256 st.file

  -- What the answers to the second `link` and to the `rename` lead to.
  unfoldable pub after_replace : Replaced → Bytes → ℕ → ℕ → Store → Walked
  unfolding rename_over
  after_replace replaced path ino l s = returned (record s {
    files = rename_over path l s.files;
    files_linked = (s.files_linked + 1) % 2 ^ 64;
    bytes_freed = (s.bytes_freed + freed_size (inode ino).file) % 2 ^ 64;
  })
  after_replace too_many_links path ino l s = returned s
  after_replace no_such_file path ino l s = returned s
  after_replace link_error path ino l s = thrown s
  after_replace rename_too_many_links path ino l s = returned s
  after_replace rename_error path ino l s = thrown s

  -- From the comparison of inodes on: the file becomes a link to the inode of the farm.
  unfoldable pub link_to : Bytes → ℕ → ℕ → Store → Walked
  unfolding after_replace
  link_to path ino l s = if ino == l then returned s else after_replace (replace path) path ino l s

  -- What the answer to the first `link` leads to.
  unfoldable pub after_publish : Published → Bytes → ℕ → Bytes → Store → Walked
  unfolding link_to
  after_publish published path ino name s =
      returned (record s { links = (name, ino) ∷ s.links; inode_hash = ino ∷ s.inode_hash })
  after_publish no_space_on_device path ino name s = returned s
  after_publish publish_error path ino name s = thrown s
  after_publish (file_exists none) path ino name s = returned s
  after_publish (file_exists (some l)) path ino name s =
      link_to path ino l (record s { links = (name, l) ∷ s.links })

  -- No link of the name is there.
  unfoldable pub publish_link : Bytes → ℕ → Bytes → Store → Walked
  unfolding after_publish
  publish_link path ino name s = after_publish (publish path) path ino name s

  -- The search for the link, and the removal of a corrupted one.
  unfoldable pub join_farm : Bytes → ℕ → Bytes → Store → Walked
  unfolding find unlink publish_link
  join_farm path ino name s = elim (find name s.links) [
    | none ↦ publish_link path ino name s
    | some l ↦
        if st_size (inode ino).file == st_size (inode l).file
        then link_to path ino l s
        else publish_link path ino name (record s { links = unlink name s.links })
  ]

  unfoldable pub after_hash : Result Bytes → Bytes → ℕ → Store → Walked
  unfolding join_farm
  after_hash (ok hash) path ino s = join_farm path ino (to_string hash nix32 false) s
  after_hash (err e) path ino s = thrown s

  -- From the guards on: the file has an inode, and is counted.
  unfoldable pub optimise_inode : Bytes → ℕ → Store → Walked
  unfolding is_candidate names_of contains hash_of after_hash
  optimise_inode path ino s =
      if not (is_candidate (inode ino))
      then returned s
      else if ltb 1 (names_of ino s.files + names_of ino s.links) && contains ino s.inode_hash
      then returned s
      else after_hash (hash_of path (inode ino)) path ino s

  unfoldable pub count_visit : ℕ → Store → Store
  count_visit ino s = record s {
    visited = if is_visited (inode ino).file then (s.visited + 1) % 2 ^ 64 else s.visited;
  }

  -- A file of the walk.
  unfoldable pub optimise_file : Bytes → Store → Walked
  unfolding find count_visit optimise_inode
  optimise_file path s = elim (find path s.files) [
    | none ↦ thrown s
    | some ino ↦ optimise_inode path ino (count_visit ino s)
  ]

  -- The files of a walk, in the order in which they are reached.
  unfoldable pub optimise_files : List Bytes → Store → Walked
  unfolding optimise_file
  optimise_files [] s = returned s
  optimise_files (path ∷ paths) s = elim (optimise_file path s) [
    | returned s' ↦ optimise_files paths s'
    | thrown s' ↦ thrown s'
  ]
