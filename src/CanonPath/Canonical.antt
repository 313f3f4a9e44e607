-- ===== src/CanonPath/Canonical.antt =====
-- The paths that `canonPathInner` returns, and the operations of `CanonPath` on them.
use archinix.Base.{
  ℕ, ◌≡◌, refl, sym, ap, ◌∙◌, inl, inr, true, ◌||◌, List, [], ◌∷◌, ◌++◌, arith, ◌==◌, Bool-cases,
  All, Bytes, codes, eqb, contains_byte, Result, ok,
}
use archinix.CanonPath.{canon_path_inner}
use archinix.CanonPath.Resolve.{
  split, cons_first, is_entry, pop, enter, resolve, joined, render, NoSlash,
  canon_path_inner-resolve, joined-starts, resolve-split_nil,
}

-- A component of a canonical path.
abbrev pub IsEntry : Bytes → Type 0
IsEntry c = NoSlash c × (is_entry c ≡ true)

resolve-append :
    (stack xs ys : List Bytes) → resolve stack (xs ++ ys) ≡ resolve (resolve stack xs) ys
unfolding resolve
resolve-append stack [] ys = refl
resolve-append stack (x ∷ xs) ys = resolve-append (enter stack x) xs ys

cons_first-append :
    (c : ℕ) (x : Bytes) (xs ys : List Bytes)
    → cons_first c ((x ∷ xs) ++ ys) ≡ cons_first c (x ∷ xs) ++ ys
unfolding cons_first
cons_first-append c x xs ys = refl

split-cases : (s : Bytes) → (x : Bytes) × (xs : List Bytes) × (split s ≡ x ∷ xs)
unfolding split cons_first
split-cases [] = ([], [], refl)
split-cases (c ∷ s) = elim (Bool-cases (c == b'/')) [
  | inl e ↦ ([], split s, rw e refl)
  | inr e ↦ let (x, xs, is) = split-cases s in (c ∷ x, xs, rw e (rw is refl))
]

pub split-NoSlash : (c : Bytes) → NoSlash c → split c ≡ c ∷ []
unfolding split cons_first contains_byte
split-NoSlash [] h = refl
split-NoSlash (d ∷ c) h = elim (Bool-cases (d == b'/')) [
  | inl e ↦ ground (arith, e, h)
  | inr e ↦ rw e (rw (split-NoSlash c (ground (arith, e, h))) refl)
]

pub split-append : (s c : Bytes) → split (s ++ (b'/' ∷ c)) ≡ split s ++ split c
unfolding split
split-append [] c = refl
split-append (d ∷ s) c = elim (Bool-cases (d == b'/')) [
  | inl e ↦ rw e (rw (split-append s c) refl)
  | inr e ↦
      let (x, xs, is) = split-cases s in
      rw e (rw (split-append s c) (rw is (cons_first-append d x xs (split c))))
]

enter-IsEntry : (stack : List Bytes) (c : Bytes) → IsEntry c → enter stack c ≡ c ∷ stack
unfolding enter is_entry
enter-IsEntry stack c (h, k) = ground (arith, k)

resolve-joined :
    (stack : List Bytes) → All IsEntry stack → resolve [] (split (joined stack)) ≡ stack
unfolding joined resolve
resolve-joined [] h = sym (resolve-split_nil [])
resolve-joined (c ∷ stack) (h, hs) = rw (split-append (joined stack) c) (
    rw (split-NoSlash c (h.0)) (
      rw (resolve-append [] (split (joined stack)) (c ∷ []))
        (rw (resolve-joined stack hs) (rw (enter-IsEntry stack c h, resolve) refl))))

split-All : (s : Bytes) → All NoSlash (split s)
unfolding split cons_first contains_byte
split-All [] = (refl, tt)
split-All (c ∷ s) = elim (Bool-cases (c == b'/')) [
  | inl e ↦ rw e (refl, split-All s)
  | inr e ↦
      let (x, xs, is) = split-cases s in
      let all = split-All s in
      let all = rw is at all in rw e (rw is (ground (arith, e, all.0), all.1))
]

enter-All :
    (stack : List Bytes) (c : Bytes) → All IsEntry stack → NoSlash c → All IsEntry (enter stack c)
unfolding enter is_entry
enter-All stack c hs h = elim (Bool-cases (eqb c [] || eqb c (codes "."))) [
  | inl e ↦ rw e hs
  | inr e ↦ elim (Bool-cases (eqb c (codes ".."))) [
    | inl d ↦ rw e (rw d (pop-All stack hs))
    | inr d ↦ rw e (rw d ((h, ground (arith, e, d)), hs))
  ]
]
  where
    pop-All : (stack : List Bytes) → All IsEntry stack → All IsEntry (pop stack)
    pop-All [] hs = tt
    pop-All (c ∷ stack) hs = hs.1

resolve-All :
    (stack cs : List Bytes) → All IsEntry stack → All NoSlash cs → All IsEntry (resolve stack cs)
unfolding resolve
resolve-All stack [] hs h = hs
resolve-All stack (c ∷ cs) hs h = resolve-All (enter stack c) cs (enter-All stack c hs (h.0)) (h.1)

-- A path of entries is returned unchanged.
pub canonical :
    (stack : List Bytes) → All IsEntry stack → canon_path_inner (render stack) ≡ ok (render stack)
unfolding render
canonical [] h = canon_path_inner-resolve b'/' [] ∙ (unfold split resolve enter eqb in refl)
canonical (c ∷ stack) h =
    let (r, e) = joined-starts stack c in
    let inner = canon_path_inner-resolve b'/' r in
    let inner = rw (← e) at inner in inner ∙ ap (λ x. ok (render x)) (resolve-joined (c ∷ stack) h)

-- `canonPathInner` returns a path of entries only: no component is empty, `.` or `..`, or has a
-- separator.
pub canon_path_inner-IsEntry :
    (c : ℕ) (s : Bytes)
    → (stack : List Bytes) × All IsEntry stack × (canon_path_inner (c ∷ s) ≡ ok (render stack))
canon_path_inner-IsEntry c s = (
  resolve [] (split (c ∷ s)),
  resolve-All [] (split (c ∷ s)) tt (split-All (c ∷ s)),
  canon_path_inner-resolve c s,
)

-- A path that `canonPathInner` returned is returned unchanged.
canon_path_inner_idempotent : (s p : Bytes) → canon_path_inner s ≡ ok p → canon_path_inner p ≡ ok p
canon_path_inner_idempotent [] p h = unfold canon_path_inner in cc
canon_path_inner_idempotent (c ∷ s) p h =
    let (stack, all, e) = canon_path_inner-IsEntry c s in
    let is : render stack ≡ p = ok_is (sym e ∙ h) in
    let again = canonical stack all in rw is at again
  where
    ok_is : {a b : Bytes} → ◌≡◌ {A = Result Bytes} (ok a) (ok b) → a ≡ b
    ok_is h = cc
