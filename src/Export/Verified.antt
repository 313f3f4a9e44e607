-- ===== src/Export/Verified.antt =====
-- What `importVerified` of arch/import-path.cc accepts.
use archinix.Base.{
  ◌-◌, ◌^◌, ◌≡◌, refl, sym, ap, ◌∙◌, true, false, not, none, List, [], ◌∷◌, arith, ◌==◌, length,
  Bytes, eqb, Error, Result, ok, err, not_eqb→eq, >>=-elim, throw_if-elim, ok_value, ok_left, take,
  take_front, length-append, Parser, ◌++◌,
}
use mathlib.Core.Path.{subst}
use archinix.Serialise.{read_num, read_string, u64_max}
use archinix.Archive.Tree.{SinkCall}
use archinix.Archive.Parse.{parse_dump}
use archinix.Archive.Prefix.{parse_dump-front}
use archinix.StorePath.{name, make_content_addressed_path}
use archinix.StorePath.Parse.{parse_store_path}
use archinix.Store.Paths.{ValidPathInfo}
use archinix.Export.{export_magic, from_result, read_store_path_set, saved, import_one}

from_result_inv :
    {A : Type 0} (m : Result A) (s : Bytes) {a : A} {r : Bytes}
    → from_result m s ≡ ok (a, r)
    → m ≡ ok a
from_result_inv (ok b) s h = cc
from_result_inv (err e) s h = absurd cc

no_elements : (ps : List Bytes) → not (length ps == 0) ≡ false → ps ≡ []
no_elements [] h = refl
no_elements (p ∷ ps) h = absurd (ground arith)

-- What the TeeSource around the parser has saved is the front of the source that the parser read.
saved_inv :
    {A : Type 0} (parser : Parser A) (s got r : Bytes)
    → ((a : A) (r : Bytes) → parser s ≡ ok (a, r) → (p : Bytes) × (s ≡ p ++ r))
    → saved parser s ≡ ok (got, r)
    → (a : A) × (parser s ≡ ok (a, r)) × (s ≡ got ++ r)
saved_inv {A} parser s got r front h = go (parser s) refl h
  where
    go :
        (x : Result (A × Bytes))
        → parser s ≡ x
        → ◌≡◌ {A = Result (Bytes × Bytes)}
            (elim x [ ok (a, rest) ↦ ok (take (length s - length rest) s, rest) | err e ↦ err e ])
            (ok (got, r))
        → (a : A) × (parser s ≡ ok (a, r)) × (s ≡ got ++ r)
    go (err e) is k = absurd cc
    go (ok (a, rest)) is k =
        let same : rest ≡ r = ok_left k in
        let (p, split) = front a rest is in
        let whole : take (length s - length rest) s ≡ p =
          ap (λ t. take (length t - length rest) t) split
          ∙ take_front _ p rest (omega (arith, length-append {0})) in
        (a, rw same at is, split ∙ cc (whole, ok_value k, same))

-- The source begins with a NAR, which the parser reads to its end, and with no byte more; the name of the
-- path with the digest of this NAR gives the path; the info has this digest and the length of the NAR,
-- and no references.
abbrev pub IsVerified : (Bytes → Bytes) → Bytes → Bytes → ValidPathInfo → Bytes → Type 0
IsVerified sha256 store_dir s info nar =
    ((cs : List SinkCall) × (r : Bytes) × (parse_dump true s ≡ ok (cs, r)) × (s ≡ nar ++ r))
    × (make_content_addressed_path sha256 store_dir (name info.path) (sha256 nar) ≡ ok info.path)
    × (info.nar_hash ≡ sha256 nar)
    × (info.nar_size ≡ length nar)
    × (info.references ≡ [])

-- Whatever the stream, when a path is passed on to `addToStore`, the stream begins with the bytes of the
-- NAR that the parser read, the name of the path with their digest gives this very path, and the info has
-- this digest, their number and no references.
pub import_one-IsVerified :
    (sha256 : Bytes → Bytes) (store_dir : Bytes) (s rest : Bytes) (info : ValidPathInfo)
    (nar : Bytes)
    → import_one sha256 store_dir s ≡ ok ((info, nar), rest)
    → IsVerified sha256 store_dir s info nar
unfolding import_one
import_one-IsVerified sha256 store_dir s rest info nar h =
    >>=-elim (saved (parse_dump true)) _ s h λ nar' s1 e1 k1.
      >>=-elim (read_num (2 ^ 32 - 1)) _ s1 k1 λ magic s2 e2 k2.
        throw_if-elim (not (magic == export_magic)) Error.not_an_archive _ s2 k2 λ e3 k3.
          >>=-elim (read_string u64_max) _ s2 k3 λ text s4 e4 k4.
            >>=-elim (from_result (parse_store_path store_dir text)) _ s4 k4 λ path s5 e5 k5.
              >>=-elim (read_store_path_set sha256 store_dir) _ s5 k5 λ references s6 e6 k6.
                >>=-elim
                  (from_result
                    (make_content_addressed_path sha256 store_dir (name path) (sha256 nar')))
                  _ s6 k6
                  λ expected s7 e7 k7.
                    throw_if-elim (not (eqb path expected)) Error.bad_hash _ s7 k7 λ e8 k8.
                      throw_if-elim (not (length references == 0)) Error.usage_error _ s7 k8
                        λ e9 k9.
                          accepted path expected references nar' s7
                            (saved_inv (parse_dump true) s nar' s1 (parse_dump-front true s) e1)
                            (from_result_inv
                              (make_content_addressed_path sha256 store_dir (name path)
                                (sha256 nar'))
                              s6 e7)
                            (not_eqb→eq path expected e8) (no_elements references e9) k9
  where
    accepted :
        (path expected : Bytes) (references : List Bytes) (nar' s7 : Bytes) {s1 : Bytes}
        → (cs : List SinkCall) × (parse_dump true s ≡ ok (cs, s1)) × (s ≡ nar' ++ s1)
        → make_content_addressed_path sha256 store_dir (name path) (sha256 nar') ≡ ok expected
        → path ≡ expected
        → references ≡ []
        → ◌≡◌ {A = Result ((ValidPathInfo × Bytes) × Bytes)}
            (ok (
              (
                record {
                  path = path;
                  nar_hash = sha256 nar';
                  references = references;
                  registration_time = 0;
                  nar_size = length nar';
                  ca = none;
                },
                nar',
              ),
              s7,
            ))
            (ok ((info, nar), rest))
        → IsVerified sha256 store_dir s info nar
    accepted path expected references nar' s7 {s1} (cs, parsed, split) addressed same none_left k =
        let value = ok_value k in
        subst (λ p. IsVerified sha256 store_dir s p.0 p.1) value
          ((cs, s1, parsed, split), addressed ∙ ap ok (sym same), refl, refl, none_left)
