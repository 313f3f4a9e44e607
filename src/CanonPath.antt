-- ===== src/CanonPath.antt =====
-- Canonical paths: `canonPathInner` of src/libutil/include/nix/util/file-path-impl.hh, with a hook that
-- does nothing, and `CanonPath` of src/libutil/canon-path.cc. A path is its bytes.
pub mod Resolve
pub mod Canonical
pub mod Operations
pub mod Iterator
pub mod Order
pub mod Construct
mod Tests
use archinix.Base.{
  ℕ, zero, suc, ◌+◌, ◌≤◌, ◌<◌, ◌≡◌, refl, sym, ap, ◌∙◌, ◌≢◌, ◌⊎◌, inl, inr, Bool, true, false, not,
  ◌&&◌, ◌||◌, Option, none, some, List, [], ◌∷◌, ◌++◌, append-nil, append_assoc, arith,
  if◌then◌else◌, ltb, leb, ◌==◌, ==_iff, Bool-cases, and-true, length, length-append, take, drop,
  All, Bytes, codes, eqb, eqb_refl, eqb→eq, contains_byte, Error, Result, ok, err, ◌>>?◌, >>?-eq-ok,
  get_or,
}

unfoldable pub skip_slashes : Bytes → Bytes
skip_slashes [] = []
skip_slashes (c ∷ s) = if c == b'/' then skip_slashes s else c ∷ s

-- The bytes up to the next separator, and the bytes from it on.
unfoldable pub next_component : Bytes → Bytes
next_component [] = []
next_component (c ∷ s) = if c == b'/' then [] else c ∷ next_component s

unfoldable pub after_component : Bytes → Bytes
after_component [] = []
after_component (c ∷ s) = if c == b'/' then c ∷ s else after_component s

-- `result.erase(rfind('/'))`, which throws where there is no separator.
unfoldable pub erase_last : Bytes → Option Bytes
erase_last [] = none
erase_last (c ∷ s) = elim (erase_last s) [
  | some t ↦ some (c ∷ t)
  | none ↦ if c == b'/' then some [] else none
]

unfoldable pub erase_component : Bytes → Result Bytes
unfolding erase_last
erase_component [] = ok []
erase_component (c ∷ s) = elim (erase_last (c ∷ s)) [
  | none ↦ err Error.assertion_failed
  | some r ↦ ok r
]

-- One component: the result so far and what remains.
unfoldable pub canon_step : Bytes → Bytes → Result (Bytes × Bytes)
unfolding erase_component
canon_step result remaining =
    if eqb (next_component remaining) (codes ".")
    then ok (result, drop 1 remaining)
    else if eqb (next_component remaining) (codes "..")
    then (erase_component result >>? λ r. ok (r, drop 2 remaining))
    else ok (result ++ (b'/' ∷ next_component remaining), after_component remaining)

-- The loop, on fuel.
unfoldable pub canon_loop : ℕ → Bytes → Bytes → Result Bytes
unfolding canon_step
canon_loop zero result remaining = err Error.out_of_fuel
canon_loop (suc fuel) result remaining = elim (skip_slashes remaining) [
  | [] ↦ ok result
  | c ∷ s ↦ canon_step result (c ∷ s) >>? λ p. canon_loop fuel (p.0) (p.1)
]

abbrev pub or_root : Bytes → Bytes
or_root [] = b'/' ∷ []
or_root (c ∷ s) = c ∷ s

unfoldable pub canon_path_inner : Bytes → Result Bytes
canon_path_inner [] = err Error.assertion_failed
canon_path_inner (c ∷ s) =
    canon_loop (suc (length (c ∷ s))) [] (c ∷ s) >>? λ result. ok (or_root result)

unfoldable pub ensure_no_null_bytes : Bytes → Result (Unit {0})
ensure_no_null_bytes s = if contains_byte 0 s then err Error.invalid_name else ok tt

-- `CanonPath(raw)`
unfoldable pub canon_path : Bytes → Result Bytes
unfolding ensure_no_null_bytes
canon_path raw = canon_path_inner (b'/' ∷ raw) >>? λ p. ensure_no_null_bytes raw >>? λ u. ok p

abbrev pub root : Bytes
root = b'/' ∷ []

abbrev pub is_root : Bytes → Bool
is_root path = leb (length path) 1

abbrev pub rel : Bytes → Bytes
rel path = drop 1 path

-- The bytes before the last separator, or the root; `none` for the root.
unfoldable pub parent : Bytes → Option Bytes
unfolding erase_last
parent path = if is_root path then none else elim (erase_last path) [
  | none ↦ some path
  | some [] ↦ some (take 1 path)
  | some (c ∷ s) ↦ some (c ∷ s)
]

unfoldable pub push : Bytes → Bytes → Result Bytes
unfolding ensure_no_null_bytes
push path c =
    if contains_byte b'/' c || eqb c (codes ".") || eqb c (codes "..")
    then err Error.assertion_failed
    else ensure_no_null_bytes c >>? λ u.
        ok ((if is_root path then path else path ++ (b'/' ∷ [])) ++ c)

-- `path / x`
unfoldable pub extend : Bytes → Bytes → Bytes
extend path x = if is_root x then path else if is_root path then path ++ rel x else path ++ x

unfoldable pub is_within : Bytes → Bytes → Bool
is_within path of = not (
    ltb (length path) (length of)
    || not (eqb (take (length of) path) of)
    || (ltb 1 (length of)
        && ltb (length of) (length path)
        && not (get_or path (length of) 0 == b'/')))

unfoldable pub remove_prefix : Bytes → Bytes → Result Bytes
unfolding is_within
remove_prefix path prefix =
    if is_within path prefix
    then (if is_root prefix
        then ok path
        else if length path == length prefix
        then ok root
        else ok (drop (length prefix) path))
    else err Error.assertion_failed
