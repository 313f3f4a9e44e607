-- ===== src/Archive/Canonical.antt =====
-- What the parser of src/libutil/archive.cc accepts, for a sink that keeps the contents of files.
use archinix.Base.{
  ℕ, zero, suc, ◌+◌, ◌-◌, ◌≡◌, sym, ◌∙◌, false, not, List, [], ◌∷◌, ◌++◌, append_assoc, arith,
  length, All, Bytes, IsByte, eqb, eqb→eq, Error, ok, Parser, >>=-elim, throw_if-elim, ok_value,
  ok_left, if-elim, not_eqb→eq,
}
use archinix.Serialise.{write_string}
use archinix.Archive.Tag
use archinix.Archive.Tree.{
  Node, regular, directory, symlink, Entries, end, entry, TreePath, SinkCall, create_directory,
  nar_max_depth,
}
use archinix.Archive.Dump.{dump_regular, dump}
use archinix.Archive.Parse.{parse_entries, parse_directory, parse_type, parse}
use archinix.Archive.Format.{nar, nar_entries, calls, calls_entries, IsArchivable, AreArchivable}
use archinix.Archive.Written.{dump-nar}
use archinix.Archive.Accepted.{
  get_tag-elim, expect_tag-elim, parse_regular_inv, parse_symlink_inv, parse_name-elim,
}

-- The bytes `s` are the NAR of an archivable tree with these calls, followed by `rest`.
abbrev Parsed : ℕ → TreePath → Bytes → List SinkCall → Bytes → Type 0
Parsed left path s cs rest =
    (t : Node) × IsArchivable false left t
    × (cs ≡ calls false path t)
    × (s ≡ nar t ++ rest)
    × All IsByte rest

-- The same for the entries of a directory and its closing parenthesis.
abbrev ParsedEntries : ℕ → TreePath → Bytes → Bytes → List SinkCall → Bytes → Type 0
ParsedEntries left path prev s cs rest =
    (es : Entries) × AreArchivable false left prev es
    × (cs ≡ calls_entries false path es)
    × (s ≡ nar_entries es ++ (write_string Tag.close_paren ++ rest))
    × All IsByte rest

module _ (left : ℕ) (node : TreePath → Parser (List SinkCall))
    (sound : (path : TreePath) (s : Bytes) (cs : List SinkCall) (r : Bytes)
      → All IsByte s
      → node path s ≡ ok (cs, r)
      → Parsed left path s cs r) where
  parse_entries_inv :
      (path : TreePath) (fuel : ℕ) (prev s : Bytes) (cs : List SinkCall) (r : Bytes)
      → All IsByte s
      → parse_entries node path fuel prev s ≡ ok (cs, r)
      → ParsedEntries left path prev s cs r
  unfolding parse_entries calls_entries nar_entries
  parse_entries_inv path zero prev s cs r v h = absurd (cc)
  parse_entries_inv path (suc fuel) prev s cs r v h = get_tag-elim _ s v h λ tag r₁ e₁ v₁ k₁.
      if-elim (eqb tag Tag.close_paren) _ _ r₁ k₁
        (λ is k. (
          end,
          tt,
          sym (ok_value k),
          cc (e₁, eqb→eq tag Tag.close_paren is, ok_left k),
          rw (ok_left k) at v₁,
        ))
        λ isnt k. throw_if-elim (not (eqb tag Tag.entry)) Error.unexpected_tag _ r₁ k λ is k₂.
          expect_tag-elim Tag.open_paren _ r₁ v₁ k₂ λ r₂ e₂ v₂ k₃.
            expect_tag-elim Tag.name _ r₂ v₂ k₃ λ r₃ e₃ v₃ k₄.
              parse_name-elim prev _ r₃ v₃ k₄ λ name r₄ e₄ legal fits sorted v₄ k₅.
                expect_tag-elim Tag.node _ r₄ v₄ k₅ λ r₅ e₅ v₅ k₆.
                  >>=-elim (node (path ++ (name ∷ []))) _ r₅ k₆ λ ds r₆ e₆ k₇.
                    let (t, fine, is_calls, split, v₆) =
                      sound (path ++ (name ∷ [])) r₅ ds r₆ v₅ e₆ in
                    expect_tag-elim Tag.close_paren _ r₆ v₆ k₇ λ r₇ e₇ v₇ k₈.
                      >>=-elim (parse_entries node path fuel name) _ r₇ k₈ λ others r₈ e₈ k₉.
                        let (es, fine', is_calls', split', v₈) =
                          parse_entries_inv path fuel name r₇ others r₈ v₇ e₈ in
                        (
                          entry name false t es,
                          (legal, fits, sorted, fine, fine'),
                          sym (ok_value k₉) ∙ cc (is_calls, is_calls'),
                          simp append_assoc (
                              cc (
                                e₁,
                                not_eqb→eq tag Tag.entry is,
                                e₂,
                                e₃,
                                e₄,
                                e₅,
                                split,
                                e₇,
                                split',
                                ok_left k₉,
                              )),
                          rw (ok_left k₉) at v₈,
                        )

  parse_directory_inv :
      (path : TreePath) (s : Bytes) (cs : List SinkCall) (r : Bytes)
      → All IsByte s
      → parse_directory node path s ≡ ok (cs, r)
      → (ds : List SinkCall) × (cs ≡ create_directory path ∷ ds) × ParsedEntries left path [] s ds r
  unfolding parse_directory
  parse_directory_inv path s cs r v h =
      >>=-elim (parse_entries node path (suc (length s)) []) _ s h λ ds r₁ e k.
        let found = parse_entries_inv path (suc (length s)) [] s ds r₁ v e in
        (ds, sym (ok_value k), rw (ok_left k) at found)

sub_one : (n : ℕ) → suc n - 1 ≡ n
sub_one n = omega arith

parse_inv :
    (left : ℕ) (path : TreePath) (s : Bytes) (cs : List SinkCall) (r : Bytes)
    → All IsByte s
    → parse false left path s ≡ ok (cs, r)
    → Parsed left path s cs r
unfolding parse parse_type nar calls dump_regular
parse_inv zero path s cs r v h = absurd (cc)
parse_inv (suc left) path s cs r v h = expect_tag-elim Tag.open_paren _ s v h λ r₁ e₁ v₁ k₁.
    expect_tag-elim Tag.type_of _ r₁ v₁ k₁ λ r₂ e₂ v₂ k₂.
      get_tag-elim _ r₂ v₂ k₂ λ type r₃ e₃ v₃ k₃.
        if-elim (eqb type Tag.regular) _ _ r₃ k₃
          (λ is k.
            let (exec, c, is_calls, fits, split, v₄) = parse_regular_inv path r₃ v₃ k in
            (
              regular exec c,
              (omega arith, fits),
              is_calls,
              simp append_assoc (cc (e₁, e₂, e₃, eqb→eq type Tag.regular is, split)),
              v₄,
            ))
          λ isnt k₄.
            if-elim (eqb type Tag.directory) _ _ r₃ k₄
              (λ is k.
                let (ds, eq, found) =
                  parse_directory_inv left (parse false left) (parse_inv left) path r₃ cs r v₃ k in
                let (es, fine, is_calls, split, v₄) = found in
                (
                  directory es,
                  (omega arith, rw (← sub_one left) at fine),
                  cc (eq, is_calls),
                  simp append_assoc (cc (e₁, e₂, e₃, eqb→eq type Tag.directory is, split)),
                  v₄,
                ))
              λ isnt' k₅.
                if-elim (eqb type Tag.symlink) _ _ r₃ k₅
                  (λ is k.
                    let (target, is_calls, legal, fits, split, v₄) =
                      parse_symlink_inv path r₃ v₃ k in
                    (
                      symlink target,
                      (omega arith, legal, fits),
                      is_calls,
                      simp append_assoc (cc (e₁, e₂, e₃, eqb→eq type Tag.symlink is, split)),
                      v₄,
                    ))
                  λ isnt'' k. absurd (cc)

-- With a sink that keeps the contents, whatever the parser accepts is, up to the rest, exactly what the
-- dumper writes for some tree that has a NAR, and the sink is told to create that tree: no second
-- encoding is accepted. With `skipContents` the padding behind the contents is skipped unread, so that
-- this is not stated there.
pub parse_canonical :
    (depth left : ℕ) (path : TreePath) (s : Bytes) (cs : List SinkCall) (rest : Bytes)
    → depth + left ≡ nar_max_depth
    → All IsByte s
    → parse false left path s ≡ ok (cs, rest)
    → (t : Node) × (bytes : Bytes) × IsArchivable false left t
      × (dump depth t ≡ ok bytes)
      × (s ≡ bytes ++ rest)
      × (cs ≡ calls false path t)
parse_canonical depth left path s cs rest d v h =
    let (t, fine, is_calls, split, vr) = parse_inv left path s cs rest v h in
    (t, nar t, fine, dump-nar false depth left t d fine, split, is_calls)
