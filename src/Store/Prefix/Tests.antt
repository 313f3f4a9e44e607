-- ===== src/Store/Prefix/Tests.antt =====
-- Runs of the queries by prefix, on rows that are out of order.
use archinix.Base.{
  ℕ, ◌≡◌, refl, ◌||◌, none, [], ◌∷◌, ◌++◌, ltb, ◌==◌, if◌then◌else◌, length, replicate, Bytes,
  codes,
}
use archinix.Store.Schema.{Row, Db, StoreError, done, failed}
use archinix.Store.Paths.{lift, parse_all}
use archinix.Store.Collect.{starts_with}
use archinix.Store.Prefix.{
  at_most, insert_sorted, sort_paths, keep, row_paths, paths_from, take_run,
  query_paths_by_hash_prefix, query_all_valid_paths,
}
use archinix.Store.Prefix.Order.{query_paths_by_hash_prefix-keep}

abbrev base_name : ℕ → Bytes
base_name c = codes "ab" ++ replicate 30 c ++ codes "-lib"

abbrev row : ℕ → Bytes → Row
row i p = record { id = i; path = p; hash = []; registration_time = 1; nar_size = none; ca = none }

abbrev three_rows : Db
three_rows = record {
  rows =
      row 3 (codes "/s/" ++ base_name b'c')
      ∷ row 2 (codes "/s/" ++ codes "b" ++ replicate 31 b'b' ++ codes "-x")
      ∷ row 1 (codes "/s/" ++ base_name b'a')
      ∷ [];
  refs = [];
  last_id = 3;
}

run_matches :
    take_run (codes "/s/ab") (paths_from (codes "/s/ab") three_rows.rows)
    ≡ (codes "/s/" ++ base_name b'a') ∷ (codes "/s/" ++ base_name b'c') ∷ []
unfolding take_run paths_from starts_with at_most sort_paths insert_sorted keep row_paths
run_matches = refl

run_too_long :
    query_paths_by_hash_prefix (codes "/s") three_rows (replicate 33 b'a')
    ≡ failed StoreError.invalid_hash_prefix
unfolding query_paths_by_hash_prefix
run_too_long = refl

run_all : query_all_valid_paths (codes "/s") (record three_rows { rows = [] }) ≡ done []
unfolding query_all_valid_paths row_paths parse_all
run_all = refl

query_paths_by_hash_prefix-keep_example :
    query_paths_by_hash_prefix (codes "/s") three_rows (codes "ab") ≡ (
      if length (codes "ab") == 0 || ltb 32 (length (codes "ab"))
      then failed StoreError.invalid_hash_prefix
      else lift (
          parse_all (codes "/s") (
            sort_paths
              (keep (starts_with (codes "/s" ++ b'/' ∷ codes "ab")) (row_paths three_rows.rows)))))
query_paths_by_hash_prefix-keep_example =
    query_paths_by_hash_prefix-keep (codes "/s") three_rows (codes "ab")
