-- ===== src/Store/Verify.antt =====
-- `verifyStore` of src/libstore/local-store.cc: the walk over the valid paths, and the check of hashes.
-- The sets of base names are lists; what is only printed is left out.
pub mod Visits
pub mod Paths
pub mod Contents
pub mod Report
mod Tests
use archinix.Base.{
  ℕ, zero, suc, Bool, true, false, ◌||◌, ◌&&◌, not, Option, none, some, List, [], ◌∷◌, ◌==◌,
  if◌then◌else◌, length, replicate, Bytes, eqb, Error, Result, ok, err, ◌>>?◌,
}
use archinix.Hash.{to_string, nix32}
use archinix.StorePath.{store_path}
use archinix.Archive.Tree.{Node}
use archinix.Archive.Dump.{dump_path}
use archinix.Store.Schema.{Db, StoreError, Outcome, done, failed, ◌>>!◌}
use archinix.Store.Paths.{
  ValidPathInfo, lift, update_path_info, query_referrers, query_path_info_internal,
}
use archinix.Store.Invalidate.{contains_path}
use archinix.Store.Prefix.{query_all_valid_paths}

-- What the calls of `verifyPath` share: `done`, `validPaths` and `errors`.
pub record Walk : Type 0 where
  pub visited : List Bytes
  pub valid_paths : List Bytes
  pub errors : Bool

abbrev pub blank : Walk
blank = record { visited = []; valid_paths = []; errors = false }

-- The loop over the referrers, given the recursive call.
unfoldable pub verify_each :
    (Bytes → Walk → Outcome Walk) → Bytes → List Bytes → Walk → Outcome Walk
verify_each verify path [] w = done w
verify_each verify path (i ∷ referrers) w =
    (if eqb i path then done w else verify i w) >>! λ w'. verify_each verify path referrers w'

module _ (exists_in_store_dir : Bytes → Bool) (referrers_of : Bytes → Outcome (List Bytes)) where
  -- `verifyPath`; the number bounds the depth of the calls.
  unfoldable pub verify_path : ℕ → Bytes → Walk → Outcome Walk
  unfolding verify_each contains_path
  verify_path zero path w = failed (StoreError.unreadable Error.out_of_fuel)
  verify_path (suc fuel) path w =
      if contains_path path w.visited
      then done w
      else let entered = record w { visited = path ∷ w.visited } in
        if exists_in_store_dir path
        then done (record entered { valid_paths = path ∷ w.valid_paths })
        else (referrers_of path >>! λ referrers.
            verify_each (verify_path fuel) path referrers entered >>! λ w'.
            done (record w' { errors = true }))

  unfoldable pub verify_paths : ℕ → List Bytes → Walk → Outcome Walk
  unfolding verify_path
  verify_paths fuel [] w = done w
  verify_paths fuel (i ∷ paths) w = verify_path fuel i w >>! λ w'. verify_paths fuel paths w'

-- The names in the store directory that are base names of store paths; BadStorePath is caught.
unfoldable pub store_paths_in : List Bytes → List Bytes
store_paths_in [] = []
store_paths_in (n ∷ names) = elim (store_path n) [
  | ok b ↦ b ∷ store_paths_in names
  | err e ↦ store_paths_in names
]

module _ (sha256 : Bytes → Bytes) (store_dir : Bytes) where
  unfoldable pub verify_all_valid_paths : Db → List Bytes → Outcome Walk
  unfolding verify_paths store_paths_in
  verify_all_valid_paths db names = query_all_valid_paths store_dir db >>! λ paths.
      verify_paths (λ p. contains_path p (store_paths_in names))
        (query_referrers sha256 store_dir db) (suc (length paths)) paths blank

-- The tree under a name in the store directory, as `dumpPath(toRealPath(i))` writes it.
unfoldable pub current_nar : List (Bytes × Node) → Bytes → Result Bytes
current_nar [] path = err Error.file_not_found
current_nar ((name, node) ∷ trees) path =
    if eqb name path then dump_path node else current_nar trees path

unfoldable pub names_of : List (Bytes × Node) → List Bytes
names_of [] = []
names_of ((name, node) ∷ trees) = name ∷ names_of trees

-- `Hash nullHash`
abbrev pub null_hash : Bytes
null_hash = replicate 32 0

module _ (sha256 : Bytes → Bytes) (store_dir : Bytes) where
  -- The loop over the farm: whether a link has another hash than its name.
  unfoldable pub check_links : List (Bytes × Node) → Result Bool
  check_links [] = ok false
  check_links ((name, node) ∷ links) = dump_path node >>? λ nar. check_links links >>? λ errors.
      ok (not (eqb (to_string (sha256 nar) nix32 false) name) || errors)

  -- Fills in a missing hash and a missing size.
  unfoldable pub fill_in : ValidPathInfo → Bytes → Db → Db
  fill_in info nar db =
      if eqb info.nar_hash null_hash || info.nar_size == 0
      then update_path_info sha256 store_dir db (record info {
        nar_hash = if eqb info.nar_hash null_hash then sha256 nar else info.nar_hash;
        nar_size = if info.nar_size == 0 then length nar else info.nar_size;
      })
      else db

  -- The body of the `try`: whether the path was modified, and the tables.
  unfoldable pub compare_path : List (Bytes × Node) → Bytes → Db → Outcome (Bool × Db)
  unfolding fill_in current_nar
  compare_path trees i db = query_path_info_internal sha256 store_dir db i >>! λ found. elim found [
    | none ↦ failed StoreError.invalid_path
    | some info ↦ lift (current_nar trees i) >>! λ nar.
        if not (eqb info.nar_hash null_hash) && not (eqb info.nar_hash (sha256 nar))
        then done (true, db)
        else done (false, fill_in info nar db)
  ]

  -- With the `catch`.
  unfoldable pub check_path : List (Bytes × Node) → Bytes → Db → Bool × Db
  unfolding compare_path
  check_path trees i db = elim (compare_path trees i db) [ done r ↦ r | failed e ↦ (true, db) ]

  unfoldable pub check_paths : List (Bytes × Node) → List Bytes → Db → Bool × Db
  unfolding check_path
  check_paths trees [] db = (false, db)
  check_paths trees (i ∷ paths) db =
      let (bad, db') = check_path trees i db in
      let (errors, db'') = check_paths trees paths db' in (bad || errors, db'')

  -- `verifyStore`: whether it reports errors, and the tables.
  unfoldable pub verify_store :
      Bool → Db → List (Bytes × Node) → List (Bytes × Node) → Outcome (Bool × Db)
  unfolding check_links check_paths names_of
  verify_store check_contents db links trees =
      verify_all_valid_paths sha256 store_dir db (names_of trees) >>! λ w.
      if check_contents
      then (lift (check_links links) >>! λ errors.
          let (bad, db') = check_paths trees w.valid_paths db in
          done (w.errors || errors || bad, db'))
      else done (w.errors, db)
