-- ===== src/Store/Roots/Within.antt =====
-- `isInStore` and `toStorePath` of src/libstore/store-api.cc on the paths that `printStorePath` writes.
use archinix.Base.{
  ℕ, suc, ◌+◌, ◌≡◌, refl, sym, ap, ◌∙◌, inl, inr, true, List, [], ◌∷◌, ◌++◌, arith, ◌==◌,
  Bool-cases, length, drop, All, Bytes, eqb, eqb_refl, ok,
}
use archinix.CanonPath.{root, rel, skip_slashes}
use archinix.CanonPath.Resolve.{split, is_entry, render, joined, joined-starts, NoSlash}
use archinix.CanonPath.Canonical.{IsEntry}
use archinix.CanonPath.Iterator.{in_order, split-rel, in_order-filled, AreFilled}
use archinix.StorePath.{store_path, print_store_path}
use archinix.StorePath.Parse.{store_path-is_entry, parse_store_path-print_store_path}
use archinix.Store.Roots.{
  inner_names, path_names, is_absolute, is_below, is_in_dir, is_in_store, to_store_path,
}

inner_names-filled : (xs : List Bytes) → AreFilled xs → inner_names xs ≡ xs
unfolding inner_names
inner_names-filled [] h = refl
inner_names-filled (x ∷ []) h = refl
inner_names-filled ([] ∷ y ∷ xs) (h, hs) = absurd (omega arith)
inner_names-filled ((c ∷ x) ∷ y ∷ xs) (h, hs) =
    rw (inner_names-filled (y ∷ xs) hs) (unfold eqb in refl)

path_names-slash : (r : Bytes) → AreFilled (split r) → path_names (b'/' ∷ r) ≡ split r
unfolding path_names skip_slashes split
path_names-slash [] (h, hs) = absurd (omega arith)
path_names-slash (d ∷ s) h = elim (Bool-cases (d == b'/')) [
  | inl e ↦ absurd (let (bad, rest) = rw e at h in omega arith)
  | inr e ↦
      let kept : skip_slashes (b'/' ∷ d ∷ s) ≡ d ∷ s = rw e refl in
      rw (kept, path_names) (inner_names-filled (split (d ∷ s)) h)
]

path_names-joined :
    (stack : List Bytes) (c : Bytes)
    → All IsEntry (c ∷ stack)
    → path_names (joined (c ∷ stack)) ≡ in_order (c ∷ stack)
path_names-joined stack c h =
    let (r, e) = joined-starts stack c in
    let parts : split r ≡ in_order (c ∷ stack) =
      ap (λ p. split (rel p)) (sym e) ∙ split-rel stack c h in
    ap path_names e ∙ path_names-slash r (rw parts (in_order-filled (c ∷ stack) h)) ∙ parts

is_below-append :
    (names : List Bytes) (b : Bytes) → is_entry b ≡ true → is_below names (names ++ (b ∷ [])) ≡ true
unfolding is_below
is_below-append [] b h = h
is_below-append (x ∷ names) b h = rw (eqb_refl x) (is_below-append names b h)

is_in_dir-absolute :
    (p q r t : Bytes)
    → p ≡ b'/' ∷ r
    → q ≡ b'/' ∷ t
    → is_below (path_names q) (path_names p) ≡ true
    → is_in_dir p q ≡ true
unfolding is_in_dir
is_in_dir-absolute p q r t e f h =
    let is_absolute_p : is_absolute p ≡ true = rw e refl in
    let is_absolute_q : is_absolute q ≡ true = rw f refl in
    rw (is_absolute_p, is_in_dir) (rw (is_absolute_q, is_in_dir) h)

drop_past : (s t : Bytes) (c : ℕ) → drop (length s + 1) (s ++ (c ∷ t)) ≡ t
drop_past [] t c = refl
drop_past (x ∷ s) t c =
    let e : suc (length s) + 1 ≡ suc (length s + 1) = omega arith in rw e (drop_past s t c)

module _ (sha256 : Bytes → Bytes) (d : Bytes) (dirs : List Bytes)
    (hs : All IsEntry (d ∷ dirs)) where
  pub is_in_store-print :
      (b : Bytes)
      → NoSlash b
      → is_entry b ≡ true
      → is_in_store sha256 (render (d ∷ dirs)) (print_store_path (render (d ∷ dirs)) b) ≡ true
  unfolding is_in_store is_in_dir print_store_path render joined in_order
  is_in_store-print b h k =
      let (r, e) = joined-starts (d ∷ dirs) b in
      let (t, f) = joined-starts dirs d in
      let below : is_below (path_names (joined (d ∷ dirs))) (path_names (joined (b ∷ d ∷ dirs)))
          ≡ true =
        rw (path_names-joined dirs d hs) (
          rw (path_names-joined (d ∷ dirs) b ((h, k), hs))
            (is_below-append (in_order (d ∷ dirs)) b k)) in
      is_in_dir-absolute (joined (b ∷ d ∷ dirs)) (joined (d ∷ dirs)) r t e f below

  -- The path that is printed for an accepted base name without a separator is in the store, and
  -- `toStorePath` reads the base name from it, and the root below it.
  pub to_store_path-print_store_path :
      (b : Bytes)
      → NoSlash b
      → store_path b ≡ ok b
      → to_store_path sha256 (render (d ∷ dirs)) (print_store_path (render (d ∷ dirs)) b)
        ≡ ok (b, root)
  unfolding to_store_path
  to_store_path-print_store_path b h accepted =
      let store_dir = render (d ∷ dirs) in
      let tail : drop (length store_dir + 1) (print_store_path store_dir b) ≡ b =
        unfold print_store_path in drop_past store_dir b b'/' in
      rw (is_in_store-print b h (store_path-is_entry b accepted), to_store_path)
        (rw (tail, to_store_path)
          (rw (h, to_store_path)
            (rw (parse_store_path-print_store_path d b dirs hs h accepted) refl)))
