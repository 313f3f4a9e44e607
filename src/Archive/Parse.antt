-- ===== src/Archive/Parse.antt =====
-- `parse` and `parseDump` of src/libutil/archive.cc: bytes as calls on a sink.
use archinix.Base.{
  ◌>>=◌, ◌>>◌, ℕ, zero, suc, ◌+◌, ◌-◌, ◌*◌, ◌/◌, Bool, not, List, [], ◌∷◌, ◌++◌, ltb, if◌then◌else◌,
  length, Bytes, eqb, lt_bytes, Error, ok, err, Parser, pure, throw, throw_if,
}
use archinix.Serialise.{read_num, read_exact, read_padding, read_string, u64_max}
use archinix.Archive.Tag
use archinix.Archive.Tree.{
  TreePath, SinkCall, create_regular_file, is_executable, preallocate_contents, write_contents,
  create_directory, create_symlink, nar_max_depth, nar_max_tag, nar_max_name, nar_max_target,
  nar_version_magic, is_invalid_name, is_invalid_target,
}

-- `alignUp(val, 8)` on a uint64_t, from src/libutil/include/nix/util/alignment.hh.
unfoldable pub align_up_8 : ℕ → Parser ℕ
align_up_8 val = do
  throw_if (ltb (u64_max - 7) val) Error.too_large_to_align
  pure ((val + 7) / 8 * 8)

unfoldable pub get_tag : Parser Bytes
get_tag = read_string nar_max_tag

unfoldable pub expect_tag : Bytes → Parser (Unit {0})
unfolding get_tag
expect_tag expected = do tag ← get_tag; throw_if (not (eqb tag expected)) Error.unexpected_tag

-- The flag is `sink.skipContents`.
unfoldable pub parse_contents : Bool → Parser (List SinkCall)
parse_contents skip = do
  size ← read_num u64_max
  if skip
      then (do
        left ← align_up_8 size
        skipped ← read_exact left
        pure (preallocate_contents size ∷ []))
      else (do
        c ← read_exact size
        read_padding size
        pure (preallocate_contents size ∷ write_contents c ∷ []))

-- The optional marker before the contents: the calls, and the tag that follows.
unfoldable pub parse_executable : Bytes → Parser (List SinkCall × Bytes)
parse_executable tag =
    if eqb tag Tag.executable
    then (do
      s2 ← read_string 0
      throw_if (not (eqb s2 [])) Error.executable_not_empty
      tag' ← get_tag
      pure (is_executable ∷ [], tag'))
    else pure ([], tag)

-- What follows the marker, up to the closing parenthesis.
unfoldable pub parse_body : Bool → TreePath → List SinkCall × Bytes → Parser (List SinkCall)
unfolding parse_contents expect_tag
parse_body skip path (marker, tag) = do
  throw_if (not (eqb tag Tag.contents)) Error.unexpected_tag
  contents ← parse_contents skip
  expect_tag Tag.close_paren
  pure (create_regular_file path ∷ (marker ++ contents))

unfoldable pub parse_regular : Bool → TreePath → Parser (List SinkCall)
unfolding parse_executable parse_body
parse_regular skip path = do
  first ← get_tag
  marked ← parse_executable first
  parse_body skip path marked

-- The name of an entry that comes after `prev_name`.
unfoldable pub parse_name : Bytes → Parser Bytes
parse_name prev_name = do
  name ← read_string nar_max_name
  throw_if (is_invalid_name name) Error.invalid_name
  throw_if (not (lt_bytes prev_name name)) Error.not_sorted
  pure name

-- The loop over the entries of a directory, on fuel; `node` parses a child one level down.
unfoldable pub parse_entries :
    (TreePath → Parser (List SinkCall)) → TreePath → ℕ → Bytes → Parser (List SinkCall)
parse_entries node path zero prev_name = throw Error.out_of_fuel
parse_entries node path (suc fuel) prev_name = do
  tag ← get_tag
  if eqb tag Tag.close_paren then pure [] else (do
    throw_if (not (eqb tag Tag.entry)) Error.unexpected_tag
    expect_tag Tag.open_paren
    expect_tag Tag.name
    name ← parse_name prev_name
    expect_tag Tag.node
    child ← node (path ++ (name ∷ []))
    expect_tag Tag.close_paren
    others ← parse_entries node path fuel name
    pure (child ++ others))

-- Each round takes a byte at least, and the last one may find the source empty.
unfoldable pub parse_directory :
    (TreePath → Parser (List SinkCall)) → TreePath → Parser (List SinkCall)
unfolding parse_entries
parse_directory node path s =
    (do calls ← parse_entries node path (suc (length s)) []; pure (create_directory path ∷ calls)) s

unfoldable pub parse_symlink : TreePath → Parser (List SinkCall)
parse_symlink path = do
  expect_tag Tag.target
  target ← read_string nar_max_target
  throw_if (is_invalid_target target) Error.invalid_target
  expect_tag Tag.close_paren
  pure (create_symlink path target ∷ [])

unfoldable pub parse_type :
    Bool → (TreePath → Parser (List SinkCall)) → TreePath → Bytes → Parser (List SinkCall)
unfolding parse_regular parse_directory parse_symlink
parse_type skip node path type =
    if eqb type Tag.regular
    then parse_regular skip path
    else if eqb type Tag.directory
    then parse_directory node path
    else if eqb type Tag.symlink
    then parse_symlink path
    else throw Error.unknown_type

-- `parse`, where the number is `narMaxDepth - depth`: the levels that may still be entered.
unfoldable pub parse : Bool → ℕ → TreePath → Parser (List SinkCall)
unfolding parse_type
parse skip zero path = throw Error.too_deep
parse skip (suc left) path = do
  expect_tag Tag.open_paren
  expect_tag Tag.type_of
  type ← get_tag
  parse_type skip (parse skip left) path type

-- A SerialisationError while the version is read is caught, and then the version is wrong.
unfoldable pub read_version : Parser Bytes
read_version s = elim (read_string (length nar_version_magic) s) [
  | ok r ↦ ok r
  | err Error.num_too_large ↦ ok ([], s)
  | err Error.string_too_long ↦ ok ([], s)
  | err Error.nonzero_padding ↦ ok ([], s)
  | err e ↦ err e
]

unfoldable pub parse_dump : Bool → Parser (List SinkCall)
unfolding parse read_version
parse_dump skip = do
  version ← read_version
  throw_if (not (eqb version nar_version_magic)) Error.not_an_archive
  parse skip nar_max_depth []
