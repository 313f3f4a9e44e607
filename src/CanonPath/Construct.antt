-- ===== src/CanonPath/Construct.antt =====
-- The other constructors and views of `CanonPath`.
use archinix.Base.{
  ◌≡◌, refl, Bool, true, false, Option, none, some, List, [], ◌∷◌, ◌++◌, if◌then◌else◌, All, Bytes,
  contains_byte, eqb, ◌&&◌, ◌==◌, Error, Result, ok, err, ◌>>?◌,
}
use archinix.CanonPath.{
  canon_path, canon_path_inner, ensure_no_null_bytes, root, is_root, rel, push, erase_last,
}
use archinix.CanonPath.Iterator.{elements}
use archinix.CanonPath.Resolve.{render}
use archinix.CanonPath.Canonical.{IsEntry}
use archinix.CanonPath.Operations.{push-render}

abbrev is_one : Option (List Bytes) → Bool
is_one none = false
is_one (some []) = false
is_one (some (c ∷ [])) = true
is_one (some (c ∷ d ∷ cs)) = false

-- `CanonPath::fromFilename`
unfoldable pub from_filename : Bytes → Result Bytes
from_filename segment = canon_path segment >>? λ res.
    if eqb segment (rel res) && is_one (elements res) then ok res else err Error.invalid_name

-- `CanonPath(raw, root)`
unfoldable pub canon_path_under : Bytes → Bytes → Result Bytes
canon_path_under [] root_path = canon_path_inner (root_path ++ (b'/' ∷ []))
canon_path_under (c ∷ raw) root_path =
    (if c == b'/'
      then canon_path_inner (c ∷ raw)
      else canon_path_inner (root_path ++ (b'/' ∷ c ∷ raw)))
    >>? λ p. ensure_no_null_bytes (c ∷ raw) >>? λ u. ok p

-- `CanonPath(elems)`: the loop of `push`.
unfoldable pub push_all : Bytes → List Bytes → Result Bytes
push_all path [] = ok path
push_all path (c ∷ cs) = push path c >>? λ p. push_all p cs

unfoldable pub of_components : List Bytes → Result Bytes
unfolding push_all
of_components elems = push_all root elems

unfoldable pub abs_or_empty : Bytes → Bytes
abs_or_empty path = if is_root path then [] else path

-- `dirOf`
unfoldable pub dir_of : Bytes → Option Bytes
dir_of path =
    if is_root path then none else elim (erase_last path) [ none ↦ some path | some s ↦ some s ]

-- The components pushed on a stack one after the other.
unfoldable pub stacked : List Bytes → List Bytes → List Bytes
stacked stack [] = stack
stacked stack (c ∷ cs) = stacked (c ∷ stack) cs

abbrev pub HasNoNul : Bytes → Type 0
HasNoNul c = contains_byte 0 c ≡ false

push_all-render :
    (stack cs : List Bytes)
    → All IsEntry stack
    → All IsEntry cs
    → All HasNoNul cs
    → push_all (render stack) cs ≡ ok (render (stacked stack cs))
unfolding push_all stacked
push_all-render stack [] hs h n = refl
push_all-render stack (c ∷ cs) hs (h, hc) (n, nc) =
    rw (push-render stack c hs h n) (push_all-render (c ∷ stack) cs (h, hs) hc nc)

-- The path that is built from components that are entries and have no NUL byte is their path.
of_components-render :
    (cs : List Bytes)
    → All IsEntry cs
    → All HasNoNul cs
    → of_components cs ≡ ok (render (stacked [] cs))
unfolding of_components render
of_components-render cs h n = push_all-render [] cs tt h n
