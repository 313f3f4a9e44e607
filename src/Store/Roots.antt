-- ===== src/Store/Roots.antt =====
-- The roots of the garbage collector: `findRoots`, `addPermRoot` and `collectGarbage` of
-- src/libstore/gc.cc, `isInStore` and `toStorePath` of src/libstore/store-api.cc. The tree of links is
-- what the directory iterator and `readLink` show, with the failures that they throw.
pub mod Within
pub mod Reached
pub mod Added
mod Tests
use archinix.Base.{
  ℕ, suc, ◌+◌, Bool, true, false, not, ◌||◌, ◌&&◌, Option, none, some, List, [], ◌∷◌, ◌++◌, ◌==◌,
  if◌then◌else◌, length, take, drop, Bytes, codes, eqb, contains_byte, Error, Result, ok, err,
  ◌>>?◌,
}
use archinix.CanonPath.{canon_path, root, skip_slashes, next_component, after_component}
use archinix.CanonPath.Resolve.{split, is_entry}
use archinix.StorePath.{print_store_path}
use archinix.StorePath.Parse.{parse_store_path, canon_path_absolute}
use archinix.Store.Schema.{Db, StoreError}
use archinix.Store.Paths.{is_valid_path}
use archinix.Store.Collect.{World, Collected, insert_path, collect_garbage}

-- The elements of a std::filesystem::path behind its root: a slash at the end leaves an empty one.
unfoldable pub inner_names : List Bytes → List Bytes
inner_names [] = []
inner_names (x ∷ []) = x ∷ []
inner_names (x ∷ y ∷ xs) = let rest = inner_names (y ∷ xs) in if eqb x [] then rest else x ∷ rest

unfoldable pub path_names : Bytes → List Bytes
unfolding inner_names
path_names path = elim (skip_slashes path) [ [] ↦ [] | c ∷ s ↦ inner_names (split (c ∷ s)) ]

abbrev pub is_absolute : Bytes → Bool
is_absolute [] = false
is_absolute (c ∷ s) = c == b'/'

-- The elements of the directory that lead down, and those that lead up.
unfoldable pub count_entries : List Bytes → ℕ
count_entries [] = 0
count_entries (x ∷ xs) = (if is_entry x then 1 else 0) + count_entries xs

unfoldable pub count_parents : List Bytes → ℕ
count_parents [] = 0
count_parents (x ∷ xs) = (if eqb x (codes "..") then 1 else 0) + count_parents xs

-- Whether the first element of `path.lexically_relative(dir)` is there and is neither `.` nor `..`.
unfoldable pub is_below : List Bytes → List Bytes → Bool
unfolding count_entries count_parents is_entry
is_below [] [] = false
is_below [] (a ∷ names) = is_entry a
is_below (d ∷ dir) [] = false
is_below (d ∷ dir) (a ∷ names) =
    let rest = is_below dir names in
    if eqb d a then rest else count_entries (d ∷ dir) == count_parents (d ∷ dir) && is_entry a

-- `isInDir` of src/libutil/file-system.cc
unfoldable pub is_in_dir : Bytes → Bytes → Bool
unfolding path_names is_below
is_in_dir path dir =
    (is_absolute path && is_absolute dir || not (is_absolute path) && not (is_absolute dir))
    && is_below (path_names dir) (path_names path)

-- What `findRoots` finds at a path; a directory may fail after some entries.
mutual
  pub data Place : Type 0 where
    directory : Entries → Place
    link : Bytes → Place
    plain : Place
    failing : Failure → Place

  pub data Entries : Type 0 where
    end : Entries
    fails : Failure → Entries
    entry : Place → Entries → Entries

  pub data Failure : Type 0 where
    permission_denied no_such_file not_a_directory : Failure
    other_failure : Failure

-- The set of roots, which an exception leaves as it is.
pub record Found : Type 0 where
  pub roots : List Bytes
  pub failure : Option StoreError

abbrev pub found : List Bytes → Found
found roots = record { roots = roots; failure = none }

abbrev pub is_bad_store_path : Error → Bool
is_bad_store_path Error.bad_store_path = true
is_bad_store_path e = false

-- The handlers: permanent failures are ignored.
abbrev pub handle : Failure → List Bytes → Found
handle permission_denied roots = found roots
handle no_such_file roots = found roots
handle not_a_directory roots = found roots
handle other_failure roots = record { roots = roots; failure = some StoreError.system_error }

module _ (sha256 : Bytes → Bytes) (store_dir : Bytes) where
  -- `isInStore`
  unfoldable pub is_in_store : Bytes → Bool
  unfolding is_in_dir
  is_in_store path = is_in_dir path store_dir

  -- `toStorePath`
  unfoldable pub to_store_path : Bytes → Result (Bytes × Bytes)
  unfolding is_in_store
  to_store_path path =
      if not (is_in_store path)
      then err Error.usage_error
      else let tail = drop (length store_dir + 1) path in
        if contains_byte b'/' tail
        then (parse_store_path store_dir (take (length store_dir + 1) path ++ next_component tail)
            >>? λ p. canon_path (after_component tail) >>? λ sub. ok (p, sub))
        else (parse_store_path store_dir path >>? λ p. ok (p, root))

  -- What is made of a target in the store; BadStorePath is caught.
  unfoldable pub after_read : Db → Result (Bytes × Bytes) → List Bytes → Found
  unfolding is_valid_path insert_path
  after_read db (ok (p, sub)) roots =
      found (if is_valid_path sha256 store_dir db p then insert_path p roots else roots)
  after_read db (err e) roots =
      if is_bad_store_path e
      then found roots
      else record { roots = roots; failure = some (StoreError.unreadable e) }

  -- A symlink.
  unfoldable pub find_link : Db → Bytes → List Bytes → Found
  unfolding after_read
  find_link db target roots =
      if not (is_in_store target) then found roots else after_read db (to_store_path target) roots

  -- `findRoots`
  unfoldable mutual
    unfolding find_link

    pub find_roots : Db → Place → List Bytes → Found
    find_roots db (directory entries) roots = find_entries db entries roots
    find_roots db (link target) roots = find_link db target roots
    find_roots db plain roots = found roots
    find_roots db (failing e) roots = handle e roots

    pub find_entries : Db → Entries → List Bytes → Found
    find_entries db end roots = found roots
    find_entries db (fails e) roots = handle e roots
    find_entries db (entry p entries) roots =
        let first = find_roots db p roots in
        let rest = find_entries db entries first.roots in
        elim first.failure [ none ↦ rest | some e ↦ first ]

  -- The check of what is at the path of a new root: only a link into the store is replaced.
  unfoldable pub replace_existing : Bytes → Bytes → Option Place → Result (Bytes × Place)
  replace_existing path target none = ok (path, link target)
  replace_existing path target (some (link old)) =
      if is_in_store old then ok (path, link target) else err Error.usage_error
  replace_existing path target (some (directory entries)) = err Error.usage_error
  replace_existing path target (some plain) = err Error.usage_error
  replace_existing path target (some (failing e)) = err Error.usage_error

  -- `addPermRoot`, where the path holds nothing or what `lstat` shows: the path of the root, and the
  -- link that is there then.
  unfoldable pub add_perm_root : Bytes → Bytes → Option Place → Result (Bytes × Place)
  unfolding replace_existing
  add_perm_root store_path gc_root existing = canon_path_absolute gc_root >>? λ path.
      if is_in_store path
      then err Error.usage_error
      else replace_existing path (print_store_path store_dir store_path) existing

  -- The whole of `collectGarbage`.
  module _ (locked : Bytes → Bool) (freed : Bytes → ℕ) (nlink : List Bytes → Bytes → ℕ) where
    unfoldable pub collect_named : Place → List Bytes → World → Collected
    unfolding find_roots
    collect_named gc_roots paths w = elim paths [
      | [] ↦ record { world = w; failure = none }
      | p ∷ ps ↦
          let f = find_roots w.db gc_roots [] in
          elim f.failure [
            | some e ↦ record { world = w; failure = some e }
            | none ↦ collect_garbage sha256 store_dir locked freed nlink f.roots (p ∷ ps) w
          ]
    ]
