-- ===== src/Archive/Fuel.antt =====
-- The parser of src/libutil/archive.cc ends on every input: its model never runs out of fuel.
use archinix.Base.{
  ℕ, zero, suc, ◌+◌, ◌-◌, ◌%◌, ◌≤◌, ◌<◌, ◌≢◌, Bool, true, false, not, List, [], ◌∷◌, ◌++◌, arith,
  ◌==◌, if◌then◌else◌, length, Bytes, eqb, lt_bytes, Error, Result, ok, err, Parser, ◌>>=◌, ◌>>◌,
  pure, throw_if,
}
use archinix.Serialise.{read_num, read_exact, read_padding, read_string, u64_max}
use archinix.Archive.Tag
use archinix.Archive.Tree.{TreePath, SinkCall, is_invalid_name}
use archinix.Archive.Parse.{
  align_up_8, get_tag, expect_tag, parse_contents, parse_executable, parse_regular, parse_body,
  parse_name, parse_entries, parse_directory, parse_symlink, parse_type, parse,
}

-- A result that is no lack of fuel, and that leaves at least `k` of `n` bytes behind it.
abbrev Takes : {A : Type 0} → ℕ → ℕ → Result (A × Bytes) → Type 0
Takes k n (ok (a, r)) = length r + k ≤ n
Takes k n (err e) = e ≢ Error.out_of_fuel

-- A parser that never lacks fuel, and leaves no more than it was given.
record Reads {A : Type 0} (m : Parser A) : Type 0 where
  takes : (s : Bytes) → Takes 0 (length s) (m s)

module _ {A B : Type 0} where
  >>=-Takes :
      (k j n : ℕ) (m : Parser A) (f : A → Parser B) (s : Bytes)
      → Takes k (length s) (m s)
      → ((a : A) (r : Bytes) → length r + k ≤ length s → Takes j n (f a r))
      → Takes j n ((m >>= f) s)
  >>=-Takes k j n m f s h g = go (m s) h
    where
      go :
          (x : Result (A × Bytes))
          → Takes k (length s) x
          → Takes j n (elim x as (λ x. Result (B × Bytes)) [ ok (a, r) ↦ f a r | err e ↦ err e ])
      go (ok (a, r)) h = g a r h
      go (err e) h = h

  -- What follows a parser that takes `k` bytes leaves them taken.
  first-Takes :
      (k : ℕ) (m : Parser A) (f : A → Parser B) (s : Bytes)
      → Takes k (length s) (m s)
      → ((a : A) → Reads (f a))
      → Takes k (length s) ((m >>= f) s)
  first-Takes k m f s h g =
      >>=-Takes k k (length s) m f s h λ a r l. weaken r (f a r) ((g a).takes r) l
    where
      weaken :
          (r : Bytes) (x : Result (B × Bytes))
          → Takes 0 (length r) x
          → length r + k ≤ length s
          → Takes k (length s) x
      weaken r (ok (b, t)) h l = omega arith
      weaken r (err e) h l = h

  >>=-Reads :
      (m : Parser A) (f : A → Parser B) → Reads m → ((a : A) → Reads (f a)) → Reads (m >>= f)
  >>=-Reads m f h g = record { takes = λ s. first-Takes 0 m f s (h.takes s) g }

if-Reads : {A : Type 0} (b : Bool) (f g : Parser A) → Reads f → Reads g → Reads (if b then f else g)
if-Reads true f g hf hg = hf
if-Reads false f g hf hg = hg

pure-Reads : {A : Type 0} (a : A) → Reads (pure a)
pure-Reads a = record { takes = λ s. omega arith }

throw_if-Reads : (b : Bool) (e : Error) → e ≢ Error.out_of_fuel → Reads (throw_if b e)
throw_if-Reads true e h = record { takes = λ s. h }
throw_if-Reads false e h = record { takes = λ s. omega arith }

read_exact-Takes : (n : ℕ) (s : Bytes) → Takes n (length s) (read_exact n s)
unfolding read_exact
read_exact-Takes zero s = omega arith
read_exact-Takes (suc n) [] = λ e. cc
read_exact-Takes (suc n) (b ∷ s) =
    >>=-Takes n (suc n) (suc (length s)) (read_exact n) _ s (read_exact-Takes n s)
      λ bs r l. omega arith

less-Takes : {A : Type 0} (k n : ℕ) (x : Result (A × Bytes)) → Takes k n x → Takes 0 n x
less-Takes k n (ok (b, t)) h = omega arith
less-Takes k n (err e) h = h

read_exact-Reads : (n : ℕ) → Reads (read_exact n)
read_exact-Reads n = record {
  takes = λ s. less-Takes n (length s) (read_exact n s) (read_exact-Takes n s);
}

check-Reads :
    {A : Type 0} (b : Bool) (e : Error) (f : Parser A)
    → e ≢ Error.out_of_fuel
    → Reads f
    → Reads (throw_if b e >> f)
check-Reads b e f h g = >>=-Reads (throw_if b e) _ (throw_if-Reads b e h) λ u. g

read_num-Takes : (limit : ℕ) (s : Bytes) → Takes 8 (length s) (read_num limit s)
unfolding read_num
read_num-Takes limit s =
    first-Takes 8 (read_exact 8) _ s (read_exact-Takes 8 s)
      λ buf. check-Reads _ Error.num_too_large _ (λ e. cc) (pure-Reads _)

read_padding-Reads : (len : ℕ) → Reads (read_padding len)
unfolding read_padding
read_padding-Reads len = if-Reads (len % 8 == 0) _ _ (pure-Reads tt) (
    >>=-Reads (read_exact (8 - len % 8)) _ (read_exact-Reads _)
      λ zeros. throw_if-Reads _ Error.nonzero_padding (λ e. cc))

read_string-Takes : (max : ℕ) (s : Bytes) → Takes 8 (length s) (read_string max s)
unfolding read_string
read_string-Takes max s = first-Takes 8 (read_num u64_max) _ s (read_num-Takes u64_max s) λ len.
    check-Reads _ Error.string_too_long _ (λ e. cc)
      (>>=-Reads (read_exact len) _ (read_exact-Reads len)
        λ res. >>=-Reads (read_padding len) _ (read_padding-Reads len) λ u. pure-Reads res)

read_string-Reads : (max : ℕ) → Reads (read_string max)
read_string-Reads max = record {
  takes = λ s. less-Takes 8 (length s) (read_string max s) (read_string-Takes max s);
}

get_tag-Reads : Reads get_tag
unfolding get_tag
get_tag-Reads = read_string-Reads 32

expect_tag-Reads : (tag : Bytes) → Reads (expect_tag tag)
unfolding expect_tag
expect_tag-Reads tag =
    >>=-Reads get_tag _ get_tag-Reads λ x. throw_if-Reads _ Error.unexpected_tag (λ e. cc)

parse_contents-Reads : (skip : Bool) → Reads (parse_contents skip)
unfolding parse_contents align_up_8
parse_contents-Reads skip =
    >>=-Reads (read_num u64_max) _
      (record {
        takes = λ s. less-Takes 8 (length s) (read_num u64_max s) (read_num-Takes u64_max s);
      })
      λ size.
        if-Reads skip _ _
          (>>=-Reads (align_up_8 size) _
            (check-Reads _ Error.too_large_to_align _ (λ e. cc) (pure-Reads _))
            λ left. >>=-Reads (read_exact left) _ (read_exact-Reads left) λ x. pure-Reads _)
          (>>=-Reads (read_exact size) _ (read_exact-Reads size)
            λ c. >>=-Reads (read_padding size) _ (read_padding-Reads size) λ u. pure-Reads _)

parse_executable-Reads : (tag : Bytes) → Reads (parse_executable tag)
unfolding parse_executable
parse_executable-Reads tag =
    if-Reads (eqb tag Tag.executable) _ _
      (>>=-Reads (read_string 0) _ (read_string-Reads 0) λ s2.
        check-Reads _ Error.executable_not_empty _ (λ e. cc)
          (>>=-Reads get_tag _ get_tag-Reads λ x. pure-Reads _))
      (pure-Reads _)

parse_regular-Reads : (skip : Bool) (path : TreePath) → Reads (parse_regular skip path)
unfolding parse_regular parse_body
parse_regular-Reads skip path = >>=-Reads get_tag _ get_tag-Reads λ first.
    >>=-Reads (parse_executable first) _ (parse_executable-Reads first) λ marked.
      check-Reads _ Error.unexpected_tag _ (λ e. cc)
        (>>=-Reads (parse_contents skip) _ (parse_contents-Reads skip) λ contents.
          >>=-Reads (expect_tag Tag.close_paren) _ (expect_tag-Reads _) λ u. pure-Reads _)

parse_symlink-Reads : (path : TreePath) → Reads (parse_symlink path)
unfolding parse_symlink
parse_symlink-Reads path = >>=-Reads (expect_tag Tag.target) _ (expect_tag-Reads _) λ u.
    >>=-Reads (read_string _) _ (read_string-Reads _) λ target.
      check-Reads _ Error.invalid_target _ (λ e. cc)
        (>>=-Reads (expect_tag Tag.close_paren) _ (expect_tag-Reads _) λ u. pure-Reads _)

parse_name-Reads : (prev : Bytes) → Reads (parse_name prev)
unfolding parse_name
parse_name-Reads prev = >>=-Reads (read_string _) _ (read_string-Reads _) λ name.
    check-Reads (is_invalid_name name) Error.invalid_name _ (λ e. cc)
      (check-Reads (not (lt_bytes prev name)) Error.not_sorted _ (λ e. cc) (pure-Reads name))

if-Takes :
    {A : Type 0} (n : ℕ) (b : Bool) (f g : Parser A) (s : Bytes)
    → Takes 0 n (f s)
    → Takes 0 n (g s)
    → Takes 0 n ((if b then f else g) s)
if-Takes n true f g s hf hg = hf
if-Takes n false f g s hf hg = hg

step :
    {A B : Type 0} (n : ℕ) (m : Parser A) (f : A → Parser B) (s : Bytes)
    → Reads m
    → ((a : A) (r : Bytes) → length r + 0 ≤ length s → Takes 0 n (f a r))
    → Takes 0 n ((m >>= f) s)
step n m f s h g = >>=-Takes 0 0 n m f s (h.takes s) g

module _ (node : TreePath → Parser (List SinkCall))
    (reads : (path : TreePath) → Reads (node path)) where
  -- Fuel above the bytes that are left is enough: each round takes at least the eight of its tag.
  parse_entries-Takes :
      (n : ℕ) (path : TreePath) (fuel : ℕ) (prev s : Bytes)
      → length s < fuel
      → length s ≤ n
      → Takes 0 n (parse_entries node path fuel prev s)
  unfolding parse_entries get_tag
  parse_entries-Takes n path zero prev s f l = absurd (omega arith)
  parse_entries-Takes n path (suc fuel) prev s f l =
      >>=-Takes 8 0 n get_tag _ s (read_string-Takes 32 s) λ tag r₁ l₁.
        if-Takes n (eqb tag Tag.close_paren) _ _ r₁ (omega arith) (
          step n _ _ r₁ (throw_if-Reads (not (eqb tag Tag.entry)) Error.unexpected_tag (λ e. cc))
            λ u r₂ l₂. step n _ _ r₂ (expect_tag-Reads Tag.open_paren) λ u r₃ l₃.
              step n _ _ r₃ (expect_tag-Reads Tag.name) λ u r₄ l₄.
                step n _ _ r₄ (parse_name-Reads prev) λ name r₅ l₅.
                  step n _ _ r₅ (expect_tag-Reads Tag.node) λ u r₆ l₆.
                    step n _ _ r₆ (reads (path ++ (name ∷ []))) λ child r₇ l₇.
                      step n _ _ r₇ (expect_tag-Reads Tag.close_paren) λ u r₈ l₈.
                        >>=-Takes 0 0 n (parse_entries node path fuel name) _ r₈
                          (parse_entries-Takes (length r₈) path fuel name r₈ (omega arith)
                            (omega arith))
                          λ others r₉ l₉. omega arith)

  parse_directory-Reads : (path : TreePath) → Reads (parse_directory node path)
  unfolding parse_directory
  parse_directory-Reads path = record {
    takes = λ s.
        >>=-Takes 0 0 (length s) (parse_entries node path (suc (length s)) []) _ s
          (parse_entries-Takes (length s) path (suc (length s)) [] s (omega arith) (omega arith))
          λ ds r l. l;
  }

parse-Reads : (skip : Bool) (left : ℕ) (path : TreePath) → Reads (parse skip left path)
unfolding parse parse_type
parse-Reads skip zero path = record { takes = λ s e. cc }
parse-Reads skip (suc left) path = >>=-Reads (expect_tag Tag.open_paren) _ (expect_tag-Reads _) λ u.
    >>=-Reads (expect_tag Tag.type_of) _ (expect_tag-Reads _) λ u.
      >>=-Reads get_tag _ get_tag-Reads λ type.
        if-Reads (eqb type Tag.regular) _ _ (parse_regular-Reads skip path) (
          if-Reads (eqb type Tag.directory) _ _
            (parse_directory-Reads (parse skip left) (parse-Reads skip left) path)
            (if-Reads (eqb type Tag.symlink) _ _ (parse_symlink-Reads path)
              (record { takes = λ s e. cc })))

Takes-ne : {A : Type 0} (n : ℕ) (x : Result (A × Bytes)) → Takes 0 n x → x ≢ err Error.out_of_fuel
Takes-ne n (ok (a, r)) h e = cc
Takes-ne n (err x) h e = h (cc)

-- On every input, at every depth and on either kind of sink, the parser stops by itself: it
-- returns the calls or throws one of the exceptions of the code.
pub parse-terminates :
    (skip : Bool) (left : ℕ) (path : TreePath) (s : Bytes)
    → parse skip left path s ≢ err Error.out_of_fuel
parse-terminates skip left path s =
    Takes-ne (length s) (parse skip left path s) ((parse-Reads skip left path).takes s)
