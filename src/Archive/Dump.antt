-- ===== src/Archive/Dump.antt =====
-- `SourceAccessor::dumpPath` of src/libutil/archive.cc: a tree as bytes.
use archinix.Base.{
  ℕ, ◌+◌, Bool, [], ◌++◌, leb, if◌then◌else◌, length, Bytes, Error, Result, ok, err,
}
use archinix.Serialise.{write_num, write_padding, write_string}
use archinix.Archive.Tag
use archinix.Archive.Tree.{
  Node, regular, directory, symlink, special, Entries, end, entry, nar_max_depth, nar_version_magic,
  is_skipped,
}

-- What two steps write one after the other, up to the first exception.
infixr 60 ◌⊕◌
abbrev pub ◌⊕◌ : Result Bytes → Result Bytes → Result Bytes
ok a ⊕ ok b = ok (a ++ b)
ok a ⊕ err e = err e
err e ⊕ r = err e

-- `sink << s`
abbrev pub token : Bytes → Result Bytes
token s = ok (write_string s)

unfoldable pub dump_contents : Bytes → Bytes
dump_contents c =
    write_string Tag.contents ++ (write_num (length c) ++ (c ++ write_padding (length c)))

unfoldable pub dump_regular : Bool → Bytes → Bytes
dump_regular exec c =
    write_string Tag.type_of
    ++ (write_string Tag.regular
        ++ ((if exec then write_string Tag.executable ++ write_string [] else [])
            ++ dump_contents c))

-- The recursive lambda of `dumpPath`; the number is `depth`.
unfoldable mutual
  pub dump : ℕ → Node → Result Bytes
  dump depth (regular exec c) =
      if leb nar_max_depth depth
      then err Error.too_deep
      else (token Tag.open_paren ⊕ ok (dump_regular exec c) ⊕ token Tag.close_paren)
  dump depth (directory es) =
      if leb nar_max_depth depth
      then err Error.too_deep
      else (token Tag.open_paren
          ⊕ token Tag.type_of
          ⊕ token Tag.directory
          ⊕ dump_entries depth es
          ⊕ token Tag.close_paren)
  dump depth (symlink target) =
      if leb nar_max_depth depth
      then err Error.too_deep
      else (token Tag.open_paren
          ⊕ token Tag.type_of
          ⊕ token Tag.symlink
          ⊕ token Tag.target
          ⊕ token target
          ⊕ token Tag.close_paren)
  dump depth (special s) =
      if leb nar_max_depth depth then err Error.too_deep else err Error.unsupported_type

  pub dump_entries : ℕ → Entries → Result Bytes
  dump_entries depth end = ok []
  dump_entries depth (entry name known n es) =
      if is_skipped known n
      then dump_entries depth es
      else (token Tag.entry
          ⊕ token Tag.open_paren
          ⊕ token Tag.name
          ⊕ token name
          ⊕ token Tag.node
          ⊕ dump (depth + 1) n
          ⊕ token Tag.close_paren
          ⊕ dump_entries depth es)

unfoldable pub dump_path : Node → Result Bytes
unfolding dump
dump_path t = token nar_version_magic ⊕ dump 0 t
