-- ===== src/Archive/Accepted.antt =====
-- What each part of the parser of src/libutil/archive.cc accepts, when the contents are kept.
use archinix.Base.{
  ℕ, ◌≤◌, ◌≡◌, sym, ◌∙◌, Bool, true, false, not, List, [], ◌∷◌, ◌++◌, append_assoc, arith,
  if◌then◌else◌, length, All, Bytes, IsByte, eqb, eqb→eq, lt_bytes, Error, ok, Parser, ◌>>=◌, ◌>>◌,
  >>=-elim, throw_if-elim, ok_value, ok_left, throw_if_inv, if-elim, not_eqb→eq,
}
use mathlib.Core.Path.{ap₂}
use archinix.Serialise.{
  read_num, read_exact, read_padding, read_string, u64_max, write_num, write_string, write_padding,
}
use archinix.Serialise.Canonical.{
  read_string_inv, read_num_inv, read_exact_inv, read_padding_inv, bytes_left,
}
use archinix.Archive.Tag
use archinix.Archive.Tree.{
  regular, TreePath, SinkCall, is_executable, preallocate_contents, write_contents, create_symlink,
  nar_max_name, nar_max_target, nar_max_tag, is_invalid_name, is_invalid_target,
}
use archinix.Archive.Dump.{dump_contents}
use archinix.Archive.Parse.{
  get_tag, expect_tag, parse_contents, parse_executable, parse_regular, parse_body, parse_name,
  parse_symlink,
}
use archinix.Archive.Format.{calls}

read_string-elim {κ} :
    {B : Type 0} {C : Type κ} (max : ℕ) (f : Bytes → Parser B) (s : Bytes) {p : B × Bytes}
    → All IsByte s
    → (read_string max >>= f) s ≡ ok p
    → ((x r : Bytes) → s ≡ write_string x ++ r → length x ≤ max → All IsByte r → f x r ≡ ok p → C)
    → C
read_string-elim max f s v h k =
    >>=-elim (read_string max) f s h
      λ x r e g. let (split, fits, wide, vr) = read_string_inv max s v e in k x r split fits vr g

pub get_tag-elim {κ} :
    {B : Type 0} {C : Type κ} (f : Bytes → Parser B) (s : Bytes) {p : B × Bytes}
    → All IsByte s
    → (get_tag >>= f) s ≡ ok p
    → ((x r : Bytes) → s ≡ write_string x ++ r → All IsByte r → f x r ≡ ok p → C)
    → C
unfolding get_tag
get_tag-elim f s v h k = read_string-elim nar_max_tag f s v h λ x r e l vr g. k x r e vr g

expect_tag_inv :
    (tag s : Bytes) {u : Unit {0}} {r : Bytes}
    → All IsByte s
    → expect_tag tag s ≡ ok (u, r)
    → (s ≡ write_string tag ++ r) × All IsByte r
unfolding expect_tag
expect_tag_inv tag s v h = get_tag-elim _ s v h λ x r e vr g.
    let (same, left) = throw_if_inv (not (eqb x tag)) Error.unexpected_tag r g in
    (e ∙ ap₂ (λ (a b : Bytes). write_string a ++ b) (not_eqb→eq x tag same) left, rw left at vr)

pub expect_tag-elim {κ} :
    {B : Type 0} {C : Type κ} (tag : Bytes) (f : Parser B) (s : Bytes) {p : B × Bytes}
    → All IsByte s
    → (expect_tag tag >> f) s ≡ ok p
    → ((r : Bytes) → s ≡ write_string tag ++ r → All IsByte r → f r ≡ ok p → C)
    → C
expect_tag-elim tag f s v h k =
    >>=-elim (expect_tag tag) _ s h
      λ u r e g. let (split, vr) = expect_tag_inv tag s v e in k r split vr g

parse_contents_inv :
    (s : Bytes) {cs : List SinkCall} {r : Bytes}
    → All IsByte s
    → parse_contents false s ≡ ok (cs, r)
    → (c : Bytes) × (cs ≡ preallocate_contents (length c) ∷ write_contents c ∷ [])
      × (length c ≤ u64_max)
      × (s ≡ write_num (length c) ++ (c ++ (write_padding (length c) ++ r)))
      × All IsByte r
unfolding parse_contents
parse_contents_inv s v h = >>=-elim (read_num u64_max) _ s h λ size r₁ e₁ k₁.
    >>=-elim (read_exact size) _ r₁ k₁ λ c r₂ e₂ k₂.
      >>=-elim (read_padding size) _ r₂ k₂ λ u r₃ e₃ k₃.
        let (split₁, fits, wide, v₁) = read_num_inv u64_max s v e₁ in
        let (split₂, l) = read_exact_inv size r₁ e₂ in
        let (vc, v₂) = bytes_left r₁ c r₂ v₁ split₂ in
        let split₃ : r₂ ≡ write_padding size ++ r₃ = read_padding_inv size r₂ e₃ in
        (
          c,
          ground (arith, k₃, l),
          ground arith,
          ground (arith, k₃, split₁, split₂, split₃, l),
          ground (arith, k₃, bytes_left r₂ (write_padding size) r₃ v₂ split₃),
        )

parse_executable_inv :
    (first s : Bytes) {marker : List SinkCall} {tag r : Bytes}
    → All IsByte s
    → parse_executable first s ≡ ok ((marker, tag), r)
    → (exec : Bool) × (marker ≡ (if exec then is_executable ∷ [] else []))
      × (write_string first ++ s
          ≡ (if exec then write_string Tag.executable ++ write_string [] else [])
            ++ (write_string tag ++ r))
      × All IsByte r
unfolding parse_executable
parse_executable_inv first s v h =
    if-elim (eqb first Tag.executable) _ _ s h
      (λ is k. read_string-elim 0 _ s v k λ x r₁ e₁ l₁ v₁ k₁.
        throw_if-elim (not (eqb x [])) Error.executable_not_empty _ r₁ k₁ λ empty k₂.
          get_tag-elim _ r₁ v₁ k₂ λ tag' r₂ e₂ v₂ k₃. (
            true,
            ground (arith, k₃),
            simp append_assoc (cc (eqb→eq first Tag.executable is, not_eqb→eq x [] empty, k₃)),
            rw (ok_left k₃) at v₂,
          ))
      (λ isnt k. (false, ground (arith, k), cc (k), rw (ok_left k) at v))

-- What `parse_regular` accepts, behind the type tag.
pub parse_regular_inv :
    (path : TreePath) (s : Bytes) {cs : List SinkCall} {r : Bytes}
    → All IsByte s
    → parse_regular false path s ≡ ok (cs, r)
    → (exec : Bool) × (c : Bytes) × (cs ≡ calls false path (regular exec c))
      × (length c ≤ u64_max)
      × (s
          ≡ (if exec then write_string Tag.executable ++ write_string [] else [])
            ++ (dump_contents c ++ (write_string Tag.close_paren ++ r)))
      × All IsByte r
unfolding parse_regular parse_body calls dump_contents
parse_regular_inv path s v h = get_tag-elim _ s v h λ first r₁ e₁ v₁ k₁.
    >>=-elim (parse_executable first) _ r₁ k₁ λ marked r₂ e₂ k₂.
      let (exec, is, split, v₂) = parse_executable_inv first r₁ v₁ e₂ in
      throw_if-elim (not (eqb marked.1 Tag.contents)) Error.unexpected_tag _ r₂ k₂ λ tag k₃.
        >>=-elim (parse_contents false) _ r₂ k₃ λ ds r₃ e₃ k₄.
          let (c, eq, fits, split', v₃) = parse_contents_inv r₂ v₂ e₃ in
          expect_tag-elim Tag.close_paren _ r₃ v₃ k₄ λ r₄ e₄ v₄ k₅. (
            exec,
            c,
            cc (ok_value k₅, is, eq),
            fits,
            e₁
                ∙ split
                ∙ simp append_assoc
                    (cc (not_eqb→eq marked.1 Tag.contents tag, split', e₄, ok_left k₅)),
            rw (ok_left k₅) at v₄,
          )

-- What `parse_symlink` accepts, behind the type tag.
pub parse_symlink_inv :
    (path : TreePath) (s : Bytes) {cs : List SinkCall} {r : Bytes}
    → All IsByte s
    → parse_symlink path s ≡ ok (cs, r)
    → (target : Bytes) × (cs ≡ create_symlink path target ∷ [])
      × (is_invalid_target target ≡ false)
      × (length target ≤ nar_max_target)
      × (s
          ≡ write_string Tag.target ++ (write_string target ++ (write_string Tag.close_paren ++ r)))
      × All IsByte r
unfolding parse_symlink
parse_symlink_inv path s v h = expect_tag-elim Tag.target _ s v h λ r₁ e₁ v₁ k₁.
    read_string-elim nar_max_target _ r₁ v₁ k₁ λ target r₂ e₂ fits v₂ k₂.
      throw_if-elim (is_invalid_target target) Error.invalid_target _ r₂ k₂ λ legal k₃.
        expect_tag-elim Tag.close_paren _ r₂ v₂ k₃ λ r₃ e₃ v₃ k₄. (
          target,
          sym (ok_value k₄),
          legal,
          fits,
          cc (e₁, e₂, e₃, ok_left k₄),
          rw (ok_left k₄) at v₃,
        )

pub parse_name-elim {κ} :
    {B : Type 0} {C : Type κ} (prev : Bytes) (f : Bytes → Parser B) (s : Bytes) {p : B × Bytes}
    → All IsByte s
    → (parse_name prev >>= f) s ≡ ok p
    → ((name r : Bytes)
        → s ≡ write_string name ++ r
        → is_invalid_name name ≡ false
        → length name ≤ nar_max_name
        → lt_bytes prev name ≡ true
        → All IsByte r
        → f name r ≡ ok p
        → C)
    → C
unfolding parse_name
parse_name-elim prev f s v h k = >>=-elim (parse_name prev) f s h λ name r e g.
    read_string-elim nar_max_name _ s v e λ x r₁ e₁ fits v₁ k₁.
      throw_if-elim (is_invalid_name x) Error.invalid_name _ r₁ k₁ λ legal k₂.
        throw_if-elim (not (lt_bytes prev x)) Error.not_sorted _ r₁ k₂ λ sorted k₃.
          k name r (cc (e₁, ok_value k₃, ok_left k₃)) (rw (ok_value k₃) at legal)
            (rw (ok_value k₃) at fits) (ground (arith, ok_value k₃)) (rw (ok_left k₃) at v₁) g
