-- ===== src/Archive/Format.antt =====
-- The format of src/libutil/archive.cc as its header comment in include/nix/util/archive.hh states
-- it: the bytes of a tree, the sink calls that rebuild it, and the trees that have a NAR.
use archinix.Base.{
  ℕ, ◌-◌, ◌≤◌, ◌<◌, ◌≡◌, Bool, true, false, List, [], ◌∷◌, ◌++◌, if◌then◌else◌, length, Bytes,
  lt_bytes,
}
use archinix.Serialise.{write_string, u64_max}
use archinix.Archive.Tag
use archinix.Archive.Tree.{
  Node, regular, directory, symlink, special, Entries, end, entry, TreePath, SinkCall,
  create_regular_file, is_executable, preallocate_contents, write_contents, create_directory,
  create_symlink, nar_max_name, nar_max_target, is_invalid_name, is_invalid_target, is_skipped,
}
use archinix.Archive.Dump.{dump_regular}

unfoldable mutual
  pub nar : Node → Bytes
  nar (regular exec c) =
      write_string Tag.open_paren ++ (dump_regular exec c ++ write_string Tag.close_paren)
  nar (directory es) =
      write_string Tag.open_paren
      ++ (write_string Tag.type_of
          ++ (write_string Tag.directory ++ (nar_entries es ++ write_string Tag.close_paren)))
  nar (symlink target) =
      write_string Tag.open_paren
      ++ (write_string Tag.type_of
          ++ (write_string Tag.symlink
              ++ (write_string Tag.target
                  ++ (write_string target ++ write_string Tag.close_paren))))
  nar (special s) = []

  pub nar_entries : Entries → Bytes
  nar_entries end = []
  nar_entries (entry name known n es) =
      if is_skipped known n
      then nar_entries es
      else (write_string Tag.entry
          ++ (write_string Tag.open_paren
              ++ (write_string Tag.name
                  ++ (write_string name
                      ++ (write_string Tag.node
                          ++ (nar n ++ (write_string Tag.close_paren ++ nar_entries es)))))))

abbrev pub contents_calls : Bool → Bytes → List SinkCall
contents_calls true c = preallocate_contents (length c) ∷ []
contents_calls false c = preallocate_contents (length c) ∷ write_contents c ∷ []

-- The calls that create the tree at a path. A sink that skips contents is told only their size.
unfoldable mutual
  pub calls : Bool → TreePath → Node → List SinkCall
  calls skip path (regular exec c) =
      create_regular_file path
      ∷ ((if exec then is_executable ∷ [] else []) ++ contents_calls skip c)
  calls skip path (directory es) = create_directory path ∷ calls_entries skip path es
  calls skip path (symlink target) = create_symlink path target ∷ []
  calls skip path (special s) = []

  pub calls_entries : Bool → TreePath → Entries → List SinkCall
  calls_entries skip path end = []
  calls_entries skip path (entry name known n es) =
      if is_skipped known n
      then calls_entries skip path es
      else (calls skip (path ++ (name ∷ [])) n ++ calls_entries skip path es)

-- The largest file that a sink takes: one that skips the contents aligns their size first.
abbrev pub contents_limit : Bool → ℕ
contents_limit true = u64_max - 7
contents_limit false = u64_max

-- A tree that has a NAR, where `left` more levels may be entered: no other special file than a
-- skipped one, legal names in strictly ascending order, legal targets, sizes that fit.
abbrev mutual
  pub IsArchivable : Bool → ℕ → Node → Type 0
  IsArchivable skip left (regular exec c) = (0 < left) × (length c ≤ contents_limit skip)
  IsArchivable skip left (directory es) = (0 < left) × AreArchivable skip (left - 1) [] es
  IsArchivable skip left (symlink target) =
      (0 < left) × (is_invalid_target target ≡ false) × (length target ≤ nar_max_target)
  IsArchivable skip left (special s) = ⊥

  pub AreArchivable : Bool → ℕ → Bytes → Entries → Type 0
  AreArchivable skip left prev end = Unit {0}
  AreArchivable skip left prev (entry name known n es) =
      if is_skipped known n
      then AreArchivable skip left prev es
      else ((is_invalid_name name ≡ false)
          × (length name ≤ nar_max_name)
          × (lt_bytes prev name ≡ true)
          × IsArchivable skip left n
          × AreArchivable skip left name es)
