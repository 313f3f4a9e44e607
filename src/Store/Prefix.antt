-- ===== src/Store/Prefix.antt =====
-- `queryPathsByHashPrefix` and `queryAllValidPaths` of src/libstore/local-store.cc: the walk over the
-- rows from the prefix on, in the order of their paths.
pub mod Order
mod Tests
use archinix.Base.{
  Bool, true, false, ◌&&◌, ◌||◌, List, [], ◌∷◌, ◌++◌, ltb, ◌==◌, if◌then◌else◌, length, Bytes,
}
use archinix.Store.Schema.{Row, Db, StoreError, Outcome, failed}
use archinix.Store.Paths.{lift, parse_all}
use archinix.Store.Collect.{starts_with}

-- The order of SQLite on text: the bytes, and a proper prefix first.
unfoldable pub at_most : Bytes → Bytes → Bool
at_most [] t = true
at_most (c ∷ s) [] = false
at_most (c ∷ s) (d ∷ t) = ltb c d || (c == d && at_most s t)

unfoldable pub insert_sorted : Bytes → List Bytes → List Bytes
unfolding at_most
insert_sorted p [] = p ∷ []
insert_sorted p (q ∷ qs) = if at_most p q then p ∷ q ∷ qs else q ∷ insert_sorted p qs

-- `order by path`
unfoldable pub sort_paths : List Bytes → List Bytes
unfolding insert_sorted
sort_paths [] = []
sort_paths (p ∷ ps) = insert_sorted p (sort_paths ps)

-- `where` on a list of paths.
unfoldable pub keep : (Bytes → Bool) → List Bytes → List Bytes
keep test [] = []
keep test (p ∷ ps) = if test p then p ∷ keep test ps else keep test ps

-- `select path from ValidPaths`
unfoldable pub row_paths : List Row → List Bytes
row_paths [] = []
row_paths (r ∷ rs) = r.path ∷ row_paths rs

-- `select path from ValidPaths where path >= ? order by path`
unfoldable pub paths_from : Bytes → List Row → List Bytes
unfolding at_most sort_paths keep row_paths
paths_from prefix rows = sort_paths (keep (at_most prefix) (row_paths rows))

-- The loop over the rows, up to the first that does not start with the prefix.
unfoldable pub take_run : Bytes → List Bytes → List Bytes
unfolding starts_with
take_run prefix [] = []
take_run prefix (p ∷ ps) = if starts_with prefix p then p ∷ take_run prefix ps else []

module _ (store_dir : Bytes) where
  unfoldable pub query_paths_by_hash_prefix : Db → Bytes → Outcome (List Bytes)
  unfolding paths_from take_run
  query_paths_by_hash_prefix db hash_prefix =
      if length hash_prefix == 0 || ltb 32 (length hash_prefix)
      then failed StoreError.invalid_hash_prefix
      else let prefix = store_dir ++ b'/' ∷ hash_prefix in
        lift (parse_all store_dir (take_run prefix (paths_from prefix db.rows)))

  unfoldable pub query_all_valid_paths : Db → Outcome (List Bytes)
  unfolding row_paths
  query_all_valid_paths db = lift (parse_all store_dir (row_paths db.rows))
