-- ===== src/Store/Printed.antt =====
-- Tables whose paths were written by `printStorePath`: what src/libstore/local-store.cc reads back.
use archinix.Base.{
  ℕ, ◌≡◌, refl, List, [], ◌∷◌, ◌++◌, map, arith, ◌==◌, Bool-cases, All, Bytes, eqb, eqb_refl,
  eqb→eq, inl, inr, ok,
}
use archinix.StorePath.{print_store_path}
use archinix.StorePath.Parse.{parse_store_path}
use archinix.Store.Schema.{Row, paths_of_id, referrer_paths}
use archinix.Store.Paths.{parse_all, remove_path}

pub print_store_path_inj :
    (store_dir p q : Bytes) → print_store_path store_dir p ≡ print_store_path store_dir q → p ≡ q
unfolding print_store_path
print_store_path_inj [] p q h = cc
print_store_path_inj (c ∷ store_dir) p q h = print_store_path_inj store_dir p q cc

pub eqb-print_store_path :
    (store_dir p q : Bytes)
    → eqb (print_store_path store_dir p) (print_store_path store_dir q) ≡ eqb p q
unfolding eqb print_store_path
eqb-print_store_path [] p q = ground arith
eqb-print_store_path (c ∷ store_dir) p q = ground (arith, eqb-print_store_path store_dir p q)

-- A path that `printStorePath` writes, and that `parseStorePath` reads.
abbrev pub IsPrinted : Bytes → Bytes → Type 0
IsPrinted store_dir path =
    (b : Bytes) × (path ≡ print_store_path store_dir b)
    × (parse_store_path store_dir (print_store_path store_dir b) ≡ ok b)

abbrev pub ArePrinted : Bytes → List Row → Type 0
ArePrinted store_dir rows = All (λ (r : Row). IsPrinted store_dir r.path) rows

module _ {A : Type 0} (P : A → Type 0) where
  All-join : (xs ys : List A) → All P xs → All P ys → All P (xs ++ ys)
  All-join [] ys h k = k
  All-join (x ∷ xs) ys h k = (h.0, All-join xs ys (h.1) k)

module _ (store_dir : Bytes) where
  paths_of_id-IsPrinted :
      (i : ℕ) (rows : List Row)
      → ArePrinted store_dir rows
      → All (IsPrinted store_dir) (paths_of_id i rows)
  unfolding paths_of_id
  paths_of_id-IsPrinted i [] h = tt
  paths_of_id-IsPrinted i (r ∷ rows) h = elim (Bool-cases (r.id == i)) [
    | inl e ↦ rw e (h.0, paths_of_id-IsPrinted i rows (h.1))
    | inr e ↦ rw e (paths_of_id-IsPrinted i rows (h.1))
  ]

  pub referrer_paths-IsPrinted :
      (i : ℕ) (rows : List Row) (refs : List (ℕ × ℕ))
      → ArePrinted store_dir rows
      → All (IsPrinted store_dir) (referrer_paths i rows refs)
  unfolding referrer_paths
  referrer_paths-IsPrinted i rows [] h = tt
  referrer_paths-IsPrinted i rows ((x, y) ∷ refs) h = elim (Bool-cases (y == i)) [
    | inl e ↦ rw e (
        All-join (IsPrinted store_dir) _ _ (paths_of_id-IsPrinted x rows h)
          (referrer_paths-IsPrinted i rows refs h))
    | inr e ↦ rw e (referrer_paths-IsPrinted i rows refs h)
  ]

  -- Printed paths are all read.
  pub parse_all-printed :
      (ps : List Bytes)
      → All (IsPrinted store_dir) ps
      → (bs : List Bytes) × (parse_all store_dir ps ≡ ok bs)
        × (ps ≡ map (print_store_path store_dir) bs)
  unfolding parse_all
  parse_all-printed [] h = ([], refl, refl)
  parse_all-printed (p ∷ ps) ((b, e, k), h) =
      let (bs, all, is) = parse_all-printed ps h in
      (b ∷ bs, rw e (rw k (rw all refl)), rw e (rw is refl))

  -- Where no base name but one is left, no path but its own is.
  pub remove_path-printed :
      (p : Bytes) (bs : List Bytes)
      → remove_path p bs ≡ []
      → remove_path (print_store_path store_dir p) (map (print_store_path store_dir) bs) ≡ []
  unfolding remove_path
  remove_path-printed p [] h = refl
  remove_path-printed p (b ∷ bs) h = elim (Bool-cases (eqb b p)) [
    | inl e ↦
        rw (eqb→eq b p e)
          (rw (eqb_refl (print_store_path store_dir p)) (remove_path-printed p bs (rw e at h)))
    | inr e ↦ absurd (let bad = rw e at h in cc)
  ]
