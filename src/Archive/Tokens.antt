-- ===== src/Archive/Tokens.antt =====
-- Each part of the parser of src/libutil/archive.cc on what the dumper writes for it.
use archinix.Base.{
  ℕ, suc, ◌+◌, ◌-◌, ◌*◌, ◌/◌, ◌%◌, ◌≤◌, ◌≡◌, refl, ◌∙◌, inl, inr, Bool, true, false, List, [], ◌∷◌,
  ◌++◌, append-nil, append_assoc, arith, ltb, ◌==◌, if◌then◌else◌, Bool-cases, length,
  length-append, length-replicate, Bytes, eqb, eqb_refl, lt_bytes, ok, Parser, ◌>>=◌, pure, >>=-ok,
}
use archinix.Serialise.{
  read_num, read_exact, read_padding, read_string, u64_max, write_num, write_string, write_padding,
}
use archinix.Serialise.RoundTrip.{
  read_exact-append, read_num-write_num, read_padding-write_padding, read_string-write_string,
}
use archinix.Archive.Tag
use archinix.Archive.Tree.{
  regular, TreePath, SinkCall, create_regular_file, is_executable, create_symlink, nar_max_name,
  nar_max_target, is_invalid_name, is_invalid_target,
}
use archinix.Archive.Dump.{dump_contents}
use archinix.Archive.Parse.{
  align_up_8, get_tag, expect_tag, parse_contents, parse_executable, parse_regular, parse_body,
  parse_name, parse_entries, parse_symlink, parse_type, parse,
}
use archinix.Archive.Format.{calls, contents_calls, contents_limit}

get_tag-write :
    (tag rest : Bytes) → length tag ≤ 32 → get_tag (write_string tag ++ rest) ≡ ok (tag, rest)
unfolding get_tag
get_tag-write tag rest h = read_string-write_string 32 tag rest h (omega arith)

expect_tag-write :
    (tag rest : Bytes) → length tag ≤ 32 → expect_tag tag (write_string tag ++ rest) ≡ ok (tt, rest)
unfolding expect_tag
expect_tag-write tag rest h = rw (get_tag-write tag rest h, ◌>>=◌) (rw (eqb_refl tag))

pub parse_header :
    (skip : Bool) (left : ℕ) (path : TreePath) (type body : Bytes)
    → length type ≤ 32
    → parse skip
        (suc left)
        path
        (write_string Tag.open_paren ++ (write_string Tag.type_of ++ (write_string type ++ body)))
      ≡ parse_type skip (parse skip left) path type body
unfolding parse
parse_header skip left path type body h =
    >>=-ok (expect_tag Tag.open_paren) _ _ (expect_tag-write Tag.open_paren _ (omega arith))
    ∙ >>=-ok (expect_tag Tag.type_of) _ _ (expect_tag-write Tag.type_of _ (omega arith))
    ∙ >>=-ok get_tag _ _ (get_tag-write type body h)

-- A sink that skips the contents skips the bytes and their padding together.
align_up_8-padding : (c : Bytes) → (length c + 7) / 8 * 8 ≡ length (c ++ write_padding (length c))
unfolding write_padding
align_up_8-padding c = elim (Bool-cases (length c % 8 == 0)) [
  | inl e ↦ rw e (rw append-nil (ground arith))
  | inr e ↦ rw e (rw (length-append c _, length-replicate) (ground arith))
]

parse_contents_skip :
    (c rest : Bytes)
    → length c ≤ u64_max - 7
    → parse_contents true (write_num (length c) ++ (c ++ (write_padding (length c) ++ rest)))
      ≡ ok (contents_calls true c, rest)
unfolding parse_contents align_up_8
parse_contents_skip c rest h =
    >>=-ok (read_num u64_max) _ _
      (read_num-write_num u64_max (length c) _ (omega arith) (omega arith))
    ∙ rw (small) (rw (align_up_8-padding c) (>>=-ok (read_exact _) _ _ whole))
  where
    small : ltb (u64_max - 7) (length c) ≡ false
    small = ground arith

    whole :
        read_exact
          (length (c ++ write_padding (length c)))
          (c ++ (write_padding (length c) ++ rest))
        ≡ ok (c ++ write_padding (length c), rest)
    whole =
        rw (← append_assoc c (write_padding (length c)) rest)
          (read_exact-append (c ++ write_padding (length c)) rest)

parse_contents_keep :
    (c rest : Bytes)
    → length c ≤ u64_max
    → parse_contents false (write_num (length c) ++ (c ++ (write_padding (length c) ++ rest)))
      ≡ ok (contents_calls false c, rest)
unfolding parse_contents
parse_contents_keep c rest h =
    >>=-ok (read_num u64_max) _ _
      (read_num-write_num u64_max (length c) _ (omega arith) (omega arith))
    ∙ >>=-ok (read_exact (length c)) _ _ (read_exact-append c _)
    ∙ >>=-ok (read_padding (length c)) _ _ (read_padding-write_padding (length c) rest)

parse_contents-write :
    (skip : Bool) (c rest : Bytes)
    → length c ≤ contents_limit skip
    → parse_contents skip (write_num (length c) ++ (c ++ (write_padding (length c) ++ rest)))
      ≡ ok (contents_calls skip c, rest)
parse_contents-write true c rest h = parse_contents_skip c rest h
parse_contents-write false c rest h = parse_contents_keep c rest h

parse_body-write :
    (skip : Bool) (path : TreePath) (marker : List SinkCall) (c rest : Bytes)
    → length c ≤ contents_limit skip
    → parse_body skip path
        (marker, Tag.contents)
        (write_num (length c)
          ++ (c ++ (write_padding (length c) ++ (write_string Tag.close_paren ++ rest))))
      ≡ ok (create_regular_file path ∷ (marker ++ contents_calls skip c), rest)
unfolding parse_body eqb
parse_body-write skip path marker c rest h =
    >>=-ok (parse_contents skip) _ _ (parse_contents-write skip c _ h)
    ∙ >>=-ok (expect_tag Tag.close_paren) _ _ (expect_tag-write Tag.close_paren rest (omega arith))

parse_executable-marked :
    (rest : Bytes)
    → parse_executable Tag.executable (write_string [] ++ (write_string Tag.contents ++ rest))
      ≡ ok ((is_executable ∷ [], Tag.contents), rest)
unfolding parse_executable eqb
parse_executable-marked rest =
    >>=-ok (read_string 0) _ _ (read_string-write_string 0 [] _ (omega arith) (omega arith))
    ∙ >>=-ok get_tag _ _ (get_tag-write Tag.contents rest (omega arith))

parse_executable-plain : (s : Bytes) → parse_executable Tag.contents s ≡ ok (([], Tag.contents), s)
unfolding parse_executable eqb
parse_executable-plain s = refl

pub parse_regular-write :
    (skip exec : Bool) (path : TreePath) (c rest : Bytes)
    → length c ≤ contents_limit skip
    → parse_regular skip path (
        (if exec then write_string Tag.executable ++ write_string [] else [])
        ++ (dump_contents c ++ (write_string Tag.close_paren ++ rest)))
      ≡ ok (calls skip path (regular exec c), rest)
unfolding parse_regular dump_contents calls
parse_regular-write skip true path c rest h = simp append_assoc (
    >>=-ok get_tag _ _ (get_tag-write Tag.executable _ (omega arith))
    ∙ >>=-ok (parse_executable Tag.executable) _ _ (parse_executable-marked _)
    ∙ parse_body-write skip path (is_executable ∷ []) c rest h)
parse_regular-write skip false path c rest h = simp append_assoc (
    >>=-ok get_tag _ _ (get_tag-write Tag.contents _ (omega arith))
    ∙ >>=-ok (parse_executable Tag.contents) _ _ (parse_executable-plain _)
    ∙ parse_body-write skip path [] c rest h)

pub parse_symlink-write :
    (path : TreePath) (target rest : Bytes)
    → is_invalid_target target ≡ false
    → length target ≤ nar_max_target
    → parse_symlink path
        (write_string Tag.target ++ (write_string target ++ (write_string Tag.close_paren ++ rest)))
      ≡ ok (create_symlink path target ∷ [], rest)
unfolding parse_symlink
parse_symlink-write path target rest legal fits =
    >>=-ok (expect_tag Tag.target) _ _ (expect_tag-write Tag.target _ (omega arith))
    ∙ >>=-ok (read_string nar_max_target) _ _
        (read_string-write_string _ target _ fits (omega arith))
    ∙ rw legal (
        >>=-ok (expect_tag Tag.close_paren) _ _
          (expect_tag-write Tag.close_paren rest (omega arith)))

parse_name-write :
    (prev name rest : Bytes)
    → is_invalid_name name ≡ false
    → length name ≤ nar_max_name
    → lt_bytes prev name ≡ true
    → parse_name prev (write_string name ++ rest) ≡ ok (name, rest)
unfolding parse_name
parse_name-write prev name rest legal fits sorted =
    >>=-ok (read_string nar_max_name) _ _ (read_string-write_string _ name _ fits (omega arith))
    ∙ rw legal (rw sorted refl)

-- One round of the loop over the entries.
pub parse_entries-write :
    (node : TreePath → Parser (List SinkCall)) (path : TreePath) (fuel : ℕ) (prev name : Bytes)
    (cs : List SinkCall) (child others rest : Bytes)
    → is_invalid_name name ≡ false
    → length name ≤ nar_max_name
    → lt_bytes prev name ≡ true
    → node (path ++ (name ∷ [])) (child ++ (write_string Tag.close_paren ++ others))
      ≡ ok (cs, write_string Tag.close_paren ++ others)
    → parse_entries node path (suc fuel) prev (
        write_string Tag.entry
        ++ (write_string Tag.open_paren
            ++ (write_string Tag.name
                ++ (write_string name
                    ++ (write_string Tag.node
                        ++ (child ++ (write_string Tag.close_paren ++ others)))))))
      ≡ (parse_entries node path fuel name >>= λ ds. pure (cs ++ ds)) others
unfolding parse_entries eqb
parse_entries-write node path fuel prev name cs child others rest legal fits sorted parsed =
    >>=-ok get_tag _ _ (get_tag-write Tag.entry _ (omega arith))
    ∙ >>=-ok (expect_tag Tag.open_paren) _ _ (expect_tag-write Tag.open_paren _ (omega arith))
    ∙ >>=-ok (expect_tag Tag.name) _ _ (expect_tag-write Tag.name _ (omega arith))
    ∙ >>=-ok (parse_name prev) _ _ (parse_name-write prev name _ legal fits sorted)
    ∙ >>=-ok (expect_tag Tag.node) _ _ (expect_tag-write Tag.node _ (omega arith))
    ∙ >>=-ok (node (path ++ (name ∷ []))) _ _ parsed
    ∙ >>=-ok (expect_tag Tag.close_paren) _ _
        (expect_tag-write Tag.close_paren others (omega arith))

pub parse_entries-close :
    (node : TreePath → Parser (List SinkCall)) (path : TreePath) (fuel : ℕ) (prev rest : Bytes)
    → parse_entries node path (suc fuel) prev (write_string Tag.close_paren ++ rest) ≡ ok ([], rest)
unfolding parse_entries eqb
parse_entries-close node path fuel prev rest =
    >>=-ok get_tag _ _ (get_tag-write Tag.close_paren rest (omega arith))
