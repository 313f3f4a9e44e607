-- ===== src/StorePath/Parse.antt =====
-- `StoreDirConfig::parseStorePath` of src/libstore/store-dir-config.cc, with `canonPath` of
-- src/libutil/file-system.cc where it resolves no symbolic links.
use archinix.Base.{
  Option, ◌≡◌, refl, ap, ◌∙◌, true, not, none, some, List, [], ◌∷◌, ◌++◌, arith, if◌then◌else◌,
  ◌==◌, All, Bytes, eqb, eqb_refl, contains_byte, Error, Result, ok, err, ◌>>?◌,
}
use archinix.CanonPath.{canon_path_inner, erase_last, or_root}
use archinix.CanonPath.Resolve.{is_entry, joined, render, NoSlash, erase_last-joined, joined-starts}
use archinix.CanonPath.Canonical.{IsEntry, canonical}
use archinix.StorePath.{store_path, print_store_path}

-- `canonPath(path)`
unfoldable pub canon_path_absolute : Bytes → Result Bytes
canon_path_absolute [] = err Error.usage_error
canon_path_absolute (c ∷ s) = if c == b'/' then canon_path_inner (c ∷ s) else err Error.usage_error

-- `parent_path()` and `filename()` of a canonical path.
unfoldable pub parent_path : Bytes → Bytes
parent_path p = elim (erase_last p) [ none ↦ [] | some t ↦ or_root t ]

unfoldable pub filename : Bytes → Bytes
filename [] = []
filename (c ∷ s) = if contains_byte b'/' (c ∷ s) then filename s else c ∷ s

unfoldable pub parse_store_path : Bytes → Bytes → Result Bytes
parse_store_path store_dir [] = err Error.bad_store_path
parse_store_path store_dir (c ∷ s) = canon_path_absolute (c ∷ s) >>? λ p.
    if not (eqb (parent_path p) store_dir)
    then err Error.bad_store_path
    else store_path (filename p)

unfoldable pub maybe_parse_store_path : Bytes → Bytes → Option Bytes
unfolding parse_store_path
maybe_parse_store_path store_dir path = elim (parse_store_path store_dir path) [
  | ok b ↦ some b
  | err e ↦ none
]

filename-NoSlash : (c : Bytes) → NoSlash c → filename c ≡ c
unfolding filename
filename-NoSlash [] h = refl
filename-NoSlash (d ∷ c) h = rw h refl

slash_inside : (p c : Bytes) → contains_byte b'/' (p ++ (b'/' ∷ c)) ≡ true
unfolding contains_byte
slash_inside [] c = refl
slash_inside (d ∷ p) c = ground (arith, slash_inside p c)

filename-append : (p c : Bytes) → NoSlash c → filename (p ++ (b'/' ∷ c)) ≡ c
unfolding filename contains_byte
filename-append [] c h = filename-NoSlash c h
filename-append (d ∷ p) c h = rw (slash_inside p c) (ground (arith, filename-append p c h))

-- An accepted base name is long enough to be the name of an entry.
pub store_path-is_entry : (b : Bytes) → store_path b ≡ ok b → is_entry b ≡ true
unfolding store_path is_entry eqb
store_path-is_entry [] h = cc
store_path-is_entry (c ∷ []) h = cc
store_path-is_entry (c ∷ d ∷ []) h = cc
store_path-is_entry (c ∷ d ∷ e ∷ b) h = ground arith

parse_store_path-canonical :
    (store_dir s r p : Bytes)
    → s ≡ b'/' ∷ r
    → canon_path_inner s ≡ ok p
    → parent_path p ≡ store_dir
    → parse_store_path store_dir s ≡ store_path (filename p)
unfolding parse_store_path canon_path_absolute
parse_store_path-canonical store_dir s r p e h is =
    let h = rw e at h in rw e (rw h (rw is (rw (eqb_refl store_dir) refl)))

parent_path-joined :
    (d b : Bytes) (dirs : List Bytes)
    → NoSlash b
    → parent_path (joined (d ∷ dirs) ++ (b'/' ∷ b)) ≡ joined (d ∷ dirs)
unfolding parent_path
parent_path-joined d b dirs h =
    let (r, e) = joined-starts dirs d in
    rw (erase_last-joined (joined (d ∷ dirs)) b h, parent_path) (rw e refl)

-- A base name that is accepted and has no separator is what its path in a store directory parses to.
pub parse_store_path-print_store_path :
    (d b : Bytes) (dirs : List Bytes)
    → All IsEntry (d ∷ dirs)
    → NoSlash b
    → store_path b ≡ ok b
    → parse_store_path (render (d ∷ dirs)) (print_store_path (render (d ∷ dirs)) b) ≡ ok b
unfolding print_store_path render joined
parse_store_path-print_store_path d b dirs hs h ok_b =
    let (r, e) = joined-starts (d ∷ dirs) b in
    parse_store_path-canonical (joined (d ∷ dirs)) (joined (b ∷ d ∷ dirs)) r (joined (b ∷ d ∷ dirs))
      e (canonical (b ∷ d ∷ dirs) ((h, store_path-is_entry b ok_b), hs))
      (parent_path-joined d b dirs h)
    ∙ ap store_path (filename-append (joined (d ∷ dirs)) b h)
    ∙ ok_b
