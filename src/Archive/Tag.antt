-- ===== src/Archive/Tag.antt =====
-- The keywords of the format in src/libutil/archive.cc.
use archinix.Base.{Bytes, codes}

abbrev pub open_paren : Bytes
open_paren = codes "("

abbrev pub close_paren : Bytes
close_paren = codes ")"

abbrev pub type_of : Bytes
type_of = codes "type"

abbrev pub regular : Bytes
regular = codes "regular"

abbrev pub executable : Bytes
executable = codes "executable"

abbrev pub contents : Bytes
contents = codes "contents"

abbrev pub directory : Bytes
directory = codes "directory"

abbrev pub entry : Bytes
entry = codes "entry"

abbrev pub name : Bytes
name = codes "name"

abbrev pub node : Bytes
node = codes "node"

abbrev pub symlink : Bytes
symlink = codes "symlink"

abbrev pub target : Bytes
target = codes "target"
