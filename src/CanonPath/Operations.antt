-- ===== src/CanonPath/Operations.antt =====
-- The operations of `CanonPath` on canonical paths.
use archinix.Base.{
  ℕ, ◌<◌, ◌≡◌, refl, sym, ap, ◌∙◌, true, false, ◌||◌, some, List, [], ◌∷◌, ◌++◌, append-nil,
  append_assoc, arith, length, length-append, take, drop, All, Bytes, codes, eqb, eqb_refl,
  contains_byte, ok, get_or,
}
use archinix.CanonPath.{
  erase_last, ensure_no_null_bytes, root, is_root, rel, parent, push, extend, is_within,
  remove_prefix,
}
use archinix.CanonPath.Resolve.{is_entry, joined, render, NoSlash, joined-starts, erase_last-joined}
use archinix.CanonPath.Canonical.{IsEntry}

length-entry : (c : Bytes) → is_entry c ≡ true → 0 < length c
unfolding is_entry eqb
length-entry [] h = absurd cc
length-entry (d ∷ c) h = omega arith

length-joined :
    (stack : List Bytes) (c : Bytes) → is_entry c ≡ true → 1 < length (joined (c ∷ stack))
unfolding joined
length-joined stack c h = omega (arith, length-append (joined stack) (b'/' ∷ c), length-entry c h)

not_root :
    (stack : List Bytes) (c : Bytes) → is_entry c ≡ true → is_root (joined (c ∷ stack)) ≡ false
not_root stack c h = ground (arith, length-joined stack c h)

not_refused :
    (c : Bytes)
    → NoSlash c
    → is_entry c ≡ true
    → (contains_byte b'/' c || eqb c (codes ".") || eqb c (codes "..")) ≡ false
unfolding is_entry
not_refused c h k = ground (arith, h, k)

-- `push` appends a component to a canonical path.
pub push-render :
    (stack : List Bytes) (c : Bytes)
    → All IsEntry stack
    → IsEntry c
    → contains_byte 0 c ≡ false
    → push (render stack) c ≡ ok (render (c ∷ stack))
unfolding push render is_entry ensure_no_null_bytes
push-render [] c hs (h, k) n = rw (not_refused c h k) (rw n refl)
push-render (b ∷ stack) c ((hb, kb), hs) (h, k) n =
    rw (not_refused c h k)
      (rw n (rw (not_root stack b kb) (ap ok (append_assoc (joined (b ∷ stack)) (b'/' ∷ []) c))))

or_first : Bytes → Bytes → Bytes
or_first path [] = take 1 path
or_first path (c ∷ s) = c ∷ s

parent-some :
    (path p : Bytes)
    → is_root path ≡ false
    → erase_last path ≡ some p
    → parent path ≡ some (or_first path p)
unfolding parent or_first
parent-some path [] h e = rw h (rw e refl)
parent-some path (c ∷ s) h e = rw h (rw e refl)

-- `parent` takes the last component of a canonical path away.
parent-render :
    (stack : List Bytes) (c : Bytes) → IsEntry c → parent (render (c ∷ stack)) ≡ some (render stack)
unfolding render or_first joined
parent-render [] c (h, k) = parent-some (b'/' ∷ c) [] (not_root [] c k) (erase_last-joined [] c h)
parent-render (b ∷ stack) c (h, k) =
    let (r, e) = joined-starts stack b in
    parent-some (joined (c ∷ b ∷ stack)) (joined (b ∷ stack)) (not_root (b ∷ stack) c k)
      (erase_last-joined (joined (b ∷ stack)) c h)
    ∙ rw e refl

joined-append : (xs ys : List Bytes) → joined (ys ++ xs) ≡ joined xs ++ joined ys
unfolding joined
joined-append xs [] = sym (append-nil (joined xs))
joined-append xs (y ∷ ys) =
    rw (joined-append xs ys) (append_assoc (joined xs) (joined ys) (b'/' ∷ y))

slash-rel : (stack : List Bytes) (c : Bytes) → b'/' ∷ rel (joined (c ∷ stack)) ≡ joined (c ∷ stack)
slash-rel stack c = let (r, e) = joined-starts stack c in rw e refl

-- `path / x` of two canonical paths is the canonical path of their components.
extend-render :
    (xs ys : List Bytes)
    → All IsEntry xs
    → All IsEntry ys
    → extend (render xs) (render ys) ≡ render (ys ++ xs)
unfolding extend render
extend-render xs [] hx hy = refl
extend-render [] (y ∷ ys) hx ((h, k), hs) =
    rw (not_root ys y k) (rw (append-nil ys) (slash-rel ys y))
extend-render (x ∷ xs) (y ∷ ys) ((hx, kx), hxs) ((h, k), hs) =
    rw (not_root ys y k) (rw (not_root xs x kx) (sym (joined-append (x ∷ xs) (y ∷ ys))))

take-all : (xs ys : Bytes) → take (length xs) (xs ++ ys) ≡ xs
take-all [] ys = refl
take-all (x ∷ xs) ys = ap (λ l. x ∷ l) (take-all xs ys)

drop-all : (xs ys : Bytes) → drop (length xs) (xs ++ ys) ≡ ys
drop-all [] ys = refl
drop-all (x ∷ xs) ys = drop-all xs ys

get_or-append : (xs : Bytes) (c : ℕ) (ys : Bytes) → get_or (xs ++ (c ∷ ys)) (length xs) 0 ≡ c
get_or-append [] c ys = refl
get_or-append (x ∷ xs) c ys = get_or-append xs c ys

-- A path that starts with another and goes on at a separator is within it.
is_within-append : (xs r : Bytes) → is_within (xs ++ (b'/' ∷ r)) xs ≡ true
unfolding is_within
is_within-append xs r =
    rw (take-all xs (b'/' ∷ r)) (
      rw (eqb_refl xs) (rw (get_or-append xs b'/' r) (ground (arith, length-append xs (b'/' ∷ r)))))

is_within-root : (r : Bytes) → is_within (b'/' ∷ r) root ≡ true
unfolding is_within eqb
is_within-root r = ground arith

is_within_refl : (p : Bytes) → is_within p p ≡ true
unfolding is_within
is_within_refl p = rw whole (rw (eqb_refl p) (ground arith))
  where
    whole : take (length p) p ≡ p
    whole = ap (take (length p)) (sym (append-nil p)) ∙ take-all p []

starts-remove : (r : Bytes) → remove_prefix (b'/' ∷ r) root ≡ ok (b'/' ∷ r)
unfolding remove_prefix
starts-remove r = rw (is_within-root r) refl

removed : (p r : Bytes) → is_root p ≡ false → remove_prefix (p ++ (b'/' ∷ r)) p ≡ ok (b'/' ∷ r)
unfolding remove_prefix
removed p r h =
    rw (is_within-append p r)
      (rw h (rw (drop-all p (b'/' ∷ r)) (ground (arith, length-append p (b'/' ∷ r)))))

removed_all : (p : Bytes) → is_root p ≡ false → remove_prefix p p ≡ ok root
unfolding remove_prefix
removed_all p h = rw (is_within_refl p) (rw h (ground arith))

remove_prefix-render :
    (xs ys : List Bytes)
    → All IsEntry xs
    → All IsEntry ys
    → remove_prefix (render (ys ++ xs)) (render xs) ≡ ok (render ys)
unfolding render
remove_prefix-render [] [] hx hy = starts-remove []
remove_prefix-render [] (y ∷ ys) hx hy =
    let (r, e) = joined-starts ys y in rw (append-nil ys) (rw e (starts-remove r))
remove_prefix-render (x ∷ xs) [] ((hx, kx), hxs) hy =
    removed_all (joined (x ∷ xs)) (not_root xs x kx)
remove_prefix-render (x ∷ xs) (y ∷ ys) ((hx, kx), hxs) hy =
    let (r, e) = joined-starts ys y in
    let parts : joined ((y ∷ ys) ++ (x ∷ xs)) ≡ joined (x ∷ xs) ++ (b'/' ∷ r) =
      joined-append (x ∷ xs) (y ∷ ys) ∙ ap (λ t. joined (x ∷ xs) ++ t) e in
    ap (λ t. remove_prefix t (joined (x ∷ xs))) parts
    ∙ removed (joined (x ∷ xs)) r (not_root xs x kx)
    ∙ ap ok (sym e)

-- `removePrefix` undoes `/` on canonical paths.
remove_prefix-extend :
    (xs ys : List Bytes)
    → All IsEntry xs
    → All IsEntry ys
    → remove_prefix (extend (render xs) (render ys)) (render xs) ≡ ok (render ys)
remove_prefix-extend xs ys hx hy = rw (extend-render xs ys hx hy) (remove_prefix-render xs ys hx hy)
