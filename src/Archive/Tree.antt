-- ===== src/Archive/Tree.antt =====
-- The trees that src/libutil/archive.cc dumps, the calls that its parser makes on a sink, and the
-- keywords and checks that the two directions share.
use archinix.Base.{ℕ, Bool, true, false, ◌&&◌, ◌||◌, List, [], Bytes, codes, eqb, contains_byte}

-- What `lstat` reports for a node that a NAR cannot hold.
pub data Special : Type 0 where
  fifo socket char_device block_device unknown : Special

-- A file system object as an accessor shows it. An entry of a directory holds its name, whether
-- `readDirectory` reported its type, and the node. The entries are in the order of the map.
mutual
  pub data Node : Type 0 where
    regular : Bool → Bytes → Node
    directory : Entries → Node
    symlink : Bytes → Node
    special : Special → Node

  pub data Entries : Type 0 where
    end : Entries
    entry : Bytes → Bool → Node → Entries → Entries

-- A CanonPath as the list of its components.
abbrev pub TreePath : Type 0
TreePath = List Bytes

-- The calls on a FileSystemObjectSink and on the CreateRegularFileSink that it hands out. The
-- chunks that `drainInto` passes on are joined to one `write_contents`.
pub data SinkCall : Type 0 where
  create_regular_file : TreePath → SinkCall
  is_executable : SinkCall
  preallocate_contents : ℕ → SinkCall
  write_contents : Bytes → SinkCall
  create_directory : TreePath → SinkCall
  create_symlink : TreePath → Bytes → SinkCall

abbrev pub nar_max_depth : ℕ
nar_max_depth = 64

abbrev pub nar_max_tag : ℕ
nar_max_tag = 32

abbrev pub nar_max_name : ℕ
nar_max_name = 255

abbrev pub nar_max_target : ℕ
nar_max_target = 4095

abbrev pub nar_version_magic : Bytes
nar_version_magic = codes "nix-archive-1"

-- A name that the parser refuses: empty, `.`, `..`, or one with a slash or a NUL byte.
unfoldable pub is_invalid_name : Bytes → Bool
is_invalid_name name =
    eqb name []
    || eqb name (codes ".")
    || eqb name (codes "..")
    || contains_byte b'/' name
    || contains_byte 0 name

unfoldable pub is_invalid_target : Bytes → Bool
is_invalid_target target = eqb target [] || contains_byte 0 target

abbrev pub is_fifo_or_socket : Node → Bool
is_fifo_or_socket (special fifo) = true
is_fifo_or_socket (special socket) = true
is_fifo_or_socket _ = false

-- `it->second == tFifo || it->second == tSocket`, where the type is known.
abbrev pub is_skipped : Bool → Node → Bool
is_skipped known n = known && is_fifo_or_socket n
