-- ===== src/Archive/Prefix.antt =====
-- What the parser of src/libutil/archive.cc reads is the front of the source, for either kind of sink.
use archinix.Base.{
  ℕ, zero, suc, ◌-◌, ◌%◌, ◌≡◌, refl, sym, ap, ◌∙◌, Bool, true, false, not, List, [], ◌∷◌, ◌++◌,
  append_assoc, arith, ◌==◌, if◌then◌else◌, length, Bytes, eqb, lt_bytes, Error, Result, ok, err,
  Parser, ◌>>=◌, ◌>>◌, >>=-elim, pure, throw, throw_if,
}
use archinix.Serialise.{read_num, read_exact, read_padding, read_string, u64_max}
use archinix.Archive.Tag
use archinix.Archive.Tree.{TreePath, SinkCall, nar_max_depth, nar_version_magic, is_invalid_name}
use archinix.Archive.Parse.{
  align_up_8, get_tag, expect_tag, parse_contents, parse_executable, parse_regular, parse_body,
  parse_name, parse_entries, parse_directory, parse_symlink, parse_type, parse, read_version,
  parse_dump,
}

-- A parser that leaves an end of the source behind it.
record Advances {A : Type 0} (m : Parser A) : Type 0 where
  front : (s : Bytes) (a : A) (r : Bytes) → m s ≡ ok (a, r) → (p : Bytes) × (s ≡ p ++ r)

>>=-Advances :
    {A B : Type 0} (m : Parser A) (f : A → Parser B)
    → Advances m
    → ((a : A) → Advances (f a))
    → Advances (m >>= f)
>>=-Advances m f h g = record {
  front = λ s b r e. >>=-elim m f s e λ a t e₁ e₂.
      let (p, is) = h.front s a t e₁ in
      let (q, is') = (g a).front t b r e₂ in
      (p ++ q, is ∙ ap (p ++◌) is' ∙ sym (append_assoc p q r));
}

if-Advances :
    {A : Type 0} (b : Bool) (f g : Parser A)
    → Advances f
    → Advances g
    → Advances (if b then f else g)
if-Advances true f g hf hg = hf
if-Advances false f g hf hg = hg

pure-Advances : {A : Type 0} (a : A) → Advances (pure a)
pure-Advances a = record { front = λ s b r e. ([], cc) }

throw-Advances : {A : Type 0} (e : Error) → Advances {A = A} (throw e)
throw-Advances e = record { front = λ s b r h. absurd cc }

throw_if-Advances : (b : Bool) (e : Error) → Advances (throw_if b e)
throw_if-Advances true e = record { front = λ s b r h. absurd cc }
throw_if-Advances false e = record { front = λ s b r h. ([], cc) }

check-Advances :
    {A : Type 0} (b : Bool) (e : Error) (f : Parser A) → Advances f → Advances (throw_if b e >> f)
check-Advances b e f h = >>=-Advances (throw_if b e) _ (throw_if-Advances b e) λ u. h

read_exact-front :
    (n : ℕ) (s bs r : Bytes) → read_exact n s ≡ ok (bs, r) → (p : Bytes) × (s ≡ p ++ r)
unfolding read_exact
read_exact-front zero s bs r h = ([], cc)
read_exact-front (suc n) [] bs r h = absurd cc
read_exact-front (suc n) (b ∷ s) bs r h =
    >>=-elim (read_exact n) _ s h
      λ cs t e₁ e₂. let (p, is) = read_exact-front n s cs t e₁ in (b ∷ p, cc)

read_exact-Advances : (n : ℕ) → Advances (read_exact n)
read_exact-Advances n = record { front = read_exact-front n }

read_num-Advances : (limit : ℕ) → Advances (read_num limit)
unfolding read_num
read_num-Advances limit =
    >>=-Advances (read_exact 8) _ (read_exact-Advances 8)
      λ buf. check-Advances _ Error.num_too_large _ (pure-Advances _)

read_padding-Advances : (len : ℕ) → Advances (read_padding len)
unfolding read_padding
read_padding-Advances len = if-Advances (len % 8 == 0) _ _ (pure-Advances tt) (
    >>=-Advances (read_exact (8 - len % 8)) _ (read_exact-Advances _)
      λ zeros. throw_if-Advances _ Error.nonzero_padding)

read_string-Advances : (max : ℕ) → Advances (read_string max)
unfolding read_string
read_string-Advances max = >>=-Advances (read_num u64_max) _ (read_num-Advances u64_max) λ len.
    check-Advances _ Error.string_too_long _ (
      >>=-Advances (read_exact len) _ (read_exact-Advances len)
        λ res. >>=-Advances (read_padding len) _ (read_padding-Advances len) λ u. pure-Advances res)

get_tag-Advances : Advances get_tag
unfolding get_tag
get_tag-Advances = read_string-Advances _

expect_tag-Advances : (tag : Bytes) → Advances (expect_tag tag)
unfolding expect_tag
expect_tag-Advances tag =
    >>=-Advances get_tag _ get_tag-Advances λ x. throw_if-Advances _ Error.unexpected_tag

parse_contents-Advances : (skip : Bool) → Advances (parse_contents skip)
unfolding parse_contents align_up_8
parse_contents-Advances skip = >>=-Advances (read_num u64_max) _ (read_num-Advances u64_max) λ size.
    if-Advances skip _ _
      (>>=-Advances (align_up_8 size) _
        (check-Advances _ Error.too_large_to_align _ (pure-Advances _))
        λ left. >>=-Advances (read_exact left) _ (read_exact-Advances left) λ x. pure-Advances _)
      (>>=-Advances (read_exact size) _ (read_exact-Advances size)
        λ c. >>=-Advances (read_padding size) _ (read_padding-Advances size) λ u. pure-Advances _)

parse_executable-Advances : (tag : Bytes) → Advances (parse_executable tag)
unfolding parse_executable
parse_executable-Advances tag =
    if-Advances (eqb tag Tag.executable) _ _
      (>>=-Advances (read_string 0) _ (read_string-Advances 0) λ s2.
        check-Advances _ Error.executable_not_empty _
          (>>=-Advances get_tag _ get_tag-Advances λ x. pure-Advances _))
      (pure-Advances _)

parse_regular-Advances : (skip : Bool) (path : TreePath) → Advances (parse_regular skip path)
unfolding parse_regular parse_body
parse_regular-Advances skip path = >>=-Advances get_tag _ get_tag-Advances λ first.
    >>=-Advances (parse_executable first) _ (parse_executable-Advances first) λ marked.
      check-Advances _ Error.unexpected_tag _ (
        >>=-Advances (parse_contents skip) _ (parse_contents-Advances skip) λ contents.
          >>=-Advances (expect_tag Tag.close_paren) _ (expect_tag-Advances _) λ u. pure-Advances _)

parse_symlink-Advances : (path : TreePath) → Advances (parse_symlink path)
unfolding parse_symlink
parse_symlink-Advances path = >>=-Advances (expect_tag Tag.target) _ (expect_tag-Advances _) λ u.
    >>=-Advances (read_string _) _ (read_string-Advances _) λ target.
      check-Advances _ Error.invalid_target _
        (>>=-Advances (expect_tag Tag.close_paren) _ (expect_tag-Advances _) λ u. pure-Advances _)

parse_name-Advances : (prev : Bytes) → Advances (parse_name prev)
unfolding parse_name
parse_name-Advances prev = >>=-Advances (read_string _) _ (read_string-Advances _) λ name.
    check-Advances (is_invalid_name name) Error.invalid_name _
      (check-Advances (not (lt_bytes prev name)) Error.not_sorted _ (pure-Advances name))

module _ (node : TreePath → Parser (List SinkCall))
    (advances : (path : TreePath) → Advances (node path)) where
  parse_entries-Advances :
      (path : TreePath) (fuel : ℕ) (prev : Bytes) → Advances (parse_entries node path fuel prev)
  unfolding parse_entries
  parse_entries-Advances path zero prev = throw-Advances _
  parse_entries-Advances path (suc fuel) prev = >>=-Advances get_tag _ get_tag-Advances λ tag.
      if-Advances (eqb tag Tag.close_paren) _ _ (pure-Advances _) (
        check-Advances (not (eqb tag Tag.entry)) Error.unexpected_tag _ (
          >>=-Advances (expect_tag Tag.open_paren) _ (expect_tag-Advances _) λ u.
            >>=-Advances (expect_tag Tag.name) _ (expect_tag-Advances _) λ u.
              >>=-Advances (parse_name prev) _ (parse_name-Advances prev) λ name.
                >>=-Advances (expect_tag Tag.node) _ (expect_tag-Advances _) λ u.
                  >>=-Advances (node (path ++ (name ∷ []))) _ (advances (path ++ (name ∷ [])))
                    λ child.
                      >>=-Advances (expect_tag Tag.close_paren) _ (expect_tag-Advances _) λ u.
                        >>=-Advances (parse_entries node path fuel name) _
                          (parse_entries-Advances path fuel name) λ others. pure-Advances _))

  parse_directory-Advances : (path : TreePath) → Advances (parse_directory node path)
  unfolding parse_directory
  parse_directory-Advances path = record {
    front = λ s.
        (>>=-Advances (parse_entries node path (suc (length s)) []) _
            (parse_entries-Advances path (suc (length s)) []) λ ds. pure-Advances _).front
          s;
  }

parse-Advances : (skip : Bool) (left : ℕ) (path : TreePath) → Advances (parse skip left path)
unfolding parse parse_type
parse-Advances skip zero path = throw-Advances _
parse-Advances skip (suc left) path =
    >>=-Advances (expect_tag Tag.open_paren) _ (expect_tag-Advances _) λ u.
      >>=-Advances (expect_tag Tag.type_of) _ (expect_tag-Advances _) λ u.
        >>=-Advances get_tag _ get_tag-Advances λ type.
          if-Advances (eqb type Tag.regular) _ _ (parse_regular-Advances skip path) (
            if-Advances (eqb type Tag.directory) _ _
              (parse_directory-Advances (parse skip left) (parse-Advances skip left) path)
              (if-Advances (eqb type Tag.symlink) _ _ (parse_symlink-Advances path)
                (throw-Advances _)))

version_front :
    (s : Bytes) (x : Result (Bytes × Bytes)) (a r : Bytes)
    → read_string (length nar_version_magic) s ≡ x
    → read_version s ≡ ok (a, r)
    → (p : Bytes) × (s ≡ p ++ r)
unfolding read_version
version_front s (ok (b, t)) a r e h =
    (read_string-Advances (length nar_version_magic)).front s a r (e ∙ (rw (e, read_version) at h))
version_front s (err x) a r e h = ([], left_over x (rw (e, read_version) at h))
  where
    left_over :
        (x : Error)
        → ◌≡◌ {A = Result (Bytes × Bytes)}
            (elim x [
              | Error.num_too_large ↦ ok ([], s)
              | Error.string_too_long ↦ ok ([], s)
              | Error.nonzero_padding ↦ ok ([], s)
              | y ↦ err y
            ])
            (ok (a, r))
        → s ≡ r
    left_over x h = ground arith

-- What `parseDump` reads is the front of the source.
pub parse_dump-front :
    (skip : Bool) (s : Bytes) (cs : List SinkCall) (r : Bytes)
    → parse_dump skip s ≡ ok (cs, r)
    → (p : Bytes) × (s ≡ p ++ r)
unfolding parse_dump
parse_dump-front skip =
    (>>=-Advances read_version _
      (record {
        front = λ s a r. version_front s (read_string (length nar_version_magic) s) a r refl;
      })
      λ version.
        check-Advances (not (eqb version nar_version_magic)) Error.not_an_archive _
          (parse-Advances skip nar_max_depth [])).front
