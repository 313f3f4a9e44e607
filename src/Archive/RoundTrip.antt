-- ===== src/Archive/RoundTrip.antt =====
-- Parsing what was dumped, for src/libutil/archive.cc.
use archinix.Base.{
  ℕ, zero, suc, ◌+◌, ◌-◌, ◌<◌, ◌≡◌, ◌∙◌, inl, inr, Bool, List, [], ◌∷◌, ◌++◌, append_assoc, arith,
  Bool-cases, length, length-append, Bytes, eqb, eqb_refl, ok, Parser, ◌>>=◌, >>=-ok,
}
use archinix.Serialise.{write_string, write_num}
use archinix.Archive.Tag
use archinix.Archive.Tree.{
  Node, regular, directory, symlink, special, Entries, end, entry, TreePath, SinkCall, is_skipped,
  create_directory, nar_version_magic, nar_max_depth,
}
use archinix.Archive.Dump.{dump_regular, dump, dump_path}
use archinix.Archive.Parse.{
  parse_entries, parse_directory, parse_type, parse, read_version, parse_dump,
}
use archinix.Archive.Format.{nar, nar_entries, calls, calls_entries, IsArchivable, AreArchivable}
use archinix.Archive.Tokens.{
  parse_header, parse_regular-write, parse_symlink-write, parse_entries-write, parse_entries-close,
}
use archinix.Archive.Written.{dump-nar}
use archinix.Serialise.RoundTrip.{read_string-write_string}

write_string-pos : (s : Bytes) → 0 < length (write_string s)
unfolding write_string write_num
write_string-pos s = omega arith

fewer :
    (a b c d e f g h : Bytes) {fuel : ℕ}
    → 0 < length a
    → length (a ++ (b ++ (c ++ (d ++ (e ++ (f ++ (g ++ h))))))) < suc fuel
    → length h < fuel
fewer a b c d e f g h p q = omega (arith, length-append {0})

sub_one : (n : ℕ) → suc n - 1 ≡ n
sub_one n = omega arith

parse_directory-write :
    (node : TreePath → Parser (List SinkCall)) (path : TreePath) (s : Bytes) (cs : List SinkCall)
    (rest : Bytes)
    → parse_entries node path (suc (length s)) [] s ≡ ok (cs, rest)
    → parse_directory node path s ≡ ok (create_directory path ∷ cs, rest)
unfolding parse_directory
parse_directory-write node path s cs rest h =
    >>=-ok (parse_entries node path (suc (length s)) []) _ s h

mutual
  unfolding parse_type parse dump_regular nar nar_entries calls calls_entries eqb

  pub parse_ok :
      (skip : Bool) (left : ℕ) (path : TreePath) (t : Node) (rest : Bytes)
      → IsArchivable skip left t
      → parse skip left path (nar t ++ rest) ≡ ok (calls skip path t, rest)
  parse_ok skip zero path (regular exec c) rest h = absurd (omega arith)
  parse_ok skip (suc left) path (regular exec c) rest h = simp append_assoc (
      parse_header skip left path Tag.regular _ (omega arith)
      ∙ parse_regular-write skip exec path c rest h.1)
  parse_ok skip zero path (directory es) rest h = absurd (omega arith)
  parse_ok skip (suc left) path (directory es) rest h = simp append_assoc (
      parse_header skip left path Tag.directory _ (omega arith)
      ∙ parse_directory-write (parse skip left) path _ _ rest (
          parse_entries_ok skip left path
            (suc (length (nar_entries es ++ (write_string Tag.close_paren ++ rest)))) [] es rest
            (simp length-append (omega arith)) (rw (sub_one left) at h.1)))
  parse_ok skip zero path (symlink target) rest h = absurd (omega arith)
  parse_ok skip (suc left) path (symlink target) rest h = simp append_assoc (
      parse_header skip left path Tag.symlink _ (omega arith)
      ∙ parse_symlink-write path target rest h.1 h.2)
  parse_ok skip left path (special s) rest h = absurd h

  parse_entries_ok :
      (skip : Bool) (left : ℕ) (path : TreePath) (fuel : ℕ) (prev : Bytes) (es : Entries)
      (rest : Bytes)
      → length (nar_entries es) < fuel
      → AreArchivable skip left prev es
      → parse_entries
          (parse skip left)
          path
          fuel
          prev
          (nar_entries es ++ (write_string Tag.close_paren ++ rest))
        ≡ ok (calls_entries skip path es, rest)
  parse_entries_ok skip left path zero prev es rest f h = absurd (omega arith)
  parse_entries_ok skip left path (suc fuel) prev end rest f h =
      parse_entries-close (parse skip left) path fuel prev rest
  parse_entries_ok skip left path (suc fuel) prev (entry name known n es) rest f h =
      elim (Bool-cases (is_skipped known n)) [
        | inl e ↦
            rw e (parse_entries_ok skip left path (suc fuel) prev es rest (rw e at f) (rw e at h))
        | inr e ↦ rw e (
            let (legal, fits, sorted, h₁, h₂) = rw e at h in
            simp append_assoc (
              parse_entries-write (parse skip left) path fuel prev name
                (calls skip (path ++ (name ∷ [])) n) (nar n)
                (nar_entries es ++ (write_string Tag.close_paren ++ rest)) rest legal fits sorted
                (parse_ok skip left (path ++ (name ∷ [])) n
                  (write_string Tag.close_paren
                    ++ (nar_entries es ++ (write_string Tag.close_paren ++ rest)))
                  h₁)
              ∙ >>=-ok (parse_entries (parse skip left) path fuel name) _ _ (
                  parse_entries_ok skip left path fuel name es rest
                    (fewer (write_string Tag.entry) (write_string Tag.open_paren)
                      (write_string Tag.name) (write_string name) (write_string Tag.node) (nar n)
                      (write_string Tag.close_paren) (nar_entries es) (write_string-pos Tag.entry)
                      (rw e at f))
                    h₂)))
      ]

-- The bytes that `dumpPath` writes for a tree, at any depth that leaves room for it, parse to the
-- calls that create the tree, whatever bytes follow.
parse-dump :
    (skip : Bool) (depth left : ℕ) (path : TreePath) (t : Node) (rest : Bytes)
    → depth + left ≡ nar_max_depth
    → IsArchivable skip left t
    → (bytes : Bytes) × (dump depth t ≡ ok bytes)
      × (parse skip left path (bytes ++ rest) ≡ ok (calls skip path t, rest))
parse-dump skip depth left path t rest d h =
    (nar t, dump-nar skip depth left t d h, parse_ok skip left path t rest h)

-- For a tree that has a NAR, `dumpPath` returns bytes, and `parseDump` on these bytes, whatever
-- follows them, makes the calls that create the tree and leaves what follows.
pub parse_dump-dump_path :
    (skip : Bool) (t : Node) (rest : Bytes)
    → IsArchivable skip nar_max_depth t
    → (bytes : Bytes) × (dump_path t ≡ ok bytes)
      × (parse_dump skip (bytes ++ rest) ≡ ok (calls skip [] t, rest))
unfolding dump_path parse_dump read_version
parse_dump-dump_path skip t rest h = (
  write_string nar_version_magic ++ nar t,
  rw (dump-nar skip 0 64 t (omega arith) h),
  simp append_assoc (
      rw
        (
          read_string-write_string 13 nar_version_magic (nar t ++ rest) (omega arith) (omega arith),
          ◌>>=◌,
        )
        (rw (eqb_refl nar_version_magic) (parse_ok skip 64 [] t rest h))),
)
