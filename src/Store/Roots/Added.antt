-- ===== src/Store/Roots/Added.antt =====
-- `addPermRoot` of src/libstore/gc.cc, and the search that follows it.
use archinix.Base.{
  ◌≡◌, refl, inl, inr, true, false, Option, none, some, List, ◌∷◌, Bool-cases, All, Bytes, Error,
  ok, err, >>?-eq-ok,
}
use archinix.CanonPath.{root}
use archinix.CanonPath.Resolve.{render, NoSlash}
use archinix.CanonPath.Canonical.{IsEntry}
use archinix.StorePath.{store_path, print_store_path}
use archinix.StorePath.Parse.{store_path-is_entry, canon_path_absolute}
use archinix.Store.Schema.{Db}
use archinix.Store.Paths.{is_valid_path}
use archinix.Store.Roots.{
  Place, directory, link, plain, failing, is_in_store, replace_existing, add_perm_root,
}
use archinix.Store.Roots.Within.{is_in_store-print, to_store_path-print_store_path}
use archinix.Store.Roots.Reached.{IsRoot, Shows}

refused {κ} : {A : Type 0} {C : Type κ} {e : Error} {a : A} → err e ≡ ok a → C
refused h = absurd (cc)

replace_existing_inv :
    (sha256 : Bytes → Bytes) (store_dir path target p : Bytes) (existing : Option Place)
    (place : Place)
    → replace_existing sha256 store_dir p target existing ≡ ok (path, place)
    → (path ≡ p)
      × (place ≡ link target)
      × ((old : Place)
          → existing ≡ some old
          → (t : Bytes) × (old ≡ link t) × (is_in_store sha256 store_dir t ≡ true))
unfolding replace_existing
replace_existing_inv sha256 store_dir path target p none place h = (cc, cc, λ old e. absurd (cc))
replace_existing_inv sha256 store_dir path target p (some (link t)) place h =
    elim (Bool-cases (is_in_store sha256 store_dir t)) [
      | inl e ↦ let h = rw e at h in (cc, cc, λ old same. (t, cc, e))
      | inr e ↦ refused (rw e at h)
    ]
replace_existing_inv sha256 store_dir path target p (some (directory entries)) place h = refused h
replace_existing_inv sha256 store_dir path target p (some plain) place h = refused h
replace_existing_inv sha256 store_dir path target p (some (failing e)) place h = refused h

-- What `addPermRoot` returns for a valid path whose base name is accepted and has no separator: a path
-- outside the store, and at it a link that the search for roots follows to the path. It never replaces
-- what is no link into the store. The store directory is canonical and not the root.
pub add_perm_root-IsRoot :
    (sha256 : Bytes → Bytes) (db : Db) (d : Bytes) (dirs : List Bytes) (b gc_root path : Bytes)
    (existing : Option Place) (place : Place)
    → All IsEntry (d ∷ dirs)
    → NoSlash b
    → store_path b ≡ ok b
    → is_valid_path sha256 (render (d ∷ dirs)) db b ≡ true
    → add_perm_root sha256 (render (d ∷ dirs)) b gc_root existing ≡ ok (path, place)
    → (is_in_store sha256 (render (d ∷ dirs)) path ≡ false)
      × ((t : Bytes) × Shows t place × IsRoot sha256 (render (d ∷ dirs)) db t b)
      × ((old : Place)
          → existing ≡ some old
          → (t : Bytes) × (old ≡ link t) × (is_in_store sha256 (render (d ∷ dirs)) t ≡ true))
unfolding add_perm_root
add_perm_root-IsRoot sha256 db d dirs b gc_root path existing place hs h accepted valid added =
    let store_dir = render (d ∷ dirs) in
    let (p, is, k) = >>?-eq-ok (canon_path_absolute gc_root) _ added in
    elim (Bool-cases (is_in_store sha256 store_dir p)) [
      | inl e ↦ refused (rw e at k)
      | inr e ↦
          let (same, made, over) =
            replace_existing_inv sha256 store_dir path (print_store_path store_dir b) p existing
              place (rw e at k) in
          (
            rw same e,
            (
              print_store_path store_dir b,
              rw made refl,
              (
                root,
                is_in_store-print sha256 d dirs hs b h (store_path-is_entry b accepted),
                to_store_path-print_store_path sha256 d dirs hs b h accepted,
                valid,
              ),
            ),
            over,
          )
    ]
