-- ===== src/Store/Verify/Tests.antt =====
-- Runs of the verification.
use archinix.Base.{
  ℕ, ◌%◌, ◌≡◌, refl, ◌↔◌, ◌&&◌, Bool, true, false, none, List, [], ◌∷◌, ◌++◌, length, replicate,
  All, Bytes, codes, eqb, contains_byte, ok,
}
use archinix.Hash.{to_string, base16}
use archinix.StorePath.{
  print_store_path, store_path, all_of, check_name, is_name_char, has_bad_dots,
}
use archinix.StorePath.Parse.{parse_store_path, canon_path_absolute, parent_path, filename}
use archinix.CanonPath.{
  canon_path_inner, canon_loop, canon_step, skip_slashes, next_component, after_component,
  erase_last,
}
use archinix.Encoding.Nix32
use archinix.Archive.Tree.{Node, regular}
use archinix.Archive.Dump.{dump_path, dump_regular, dump_contents}
use archinix.Serialise.{write_string, write_num, write_padding}
use archinix.Store.Schema.{Row, Db, done, find_row, referrer_paths, paths_of_id}
use archinix.Store.Printed.{ArePrinted}
use archinix.Store.Paths.{is_valid_path, parse_all, query_referrers}
use archinix.Store.Prefix.{row_paths, query_all_valid_paths}
use archinix.Store.Invalidate.{contains_path}
use archinix.Store.Verify.{
  Walk, verify_all_valid_paths, verify_paths, verify_path, verify_each, store_paths_in,
  verify_store, check_links,
}
use archinix.Store.Verify.Visits.{Distinct}
use archinix.Store.Verify.Paths.{exists_in, verify_all_valid_paths_lem}
use archinix.Store.Verify.Report.{IsNamed, IsSound, verify_store_iff}

abbrev store_dir : Bytes
store_dir = codes "/nix/store"

-- In the place of SHA-256, a function that repeats a byte of the length.
abbrev lengths : Bytes → Bytes
lengths s = replicate 32 (length s % 256)

abbrev lib_path : Bytes
lib_path = replicate 32 b'a' ++ codes "-lib"

abbrev app_path : Bytes
app_path = replicate 32 b'b' ++ codes "-app"

abbrev app_file : Node
app_file = regular true (codes "run")

abbrev row : ℕ → Bytes → Row
row i p = record {
  id = i;
  path = print_store_path store_dir p;
  hash = to_string (lengths (codes "changed")) base16 true;
  registration_time = 1;
  nar_size = none;
  ca = none;
}

-- The application refers to the library, whose tree is missing.
abbrev two_rows : Db
two_rows = record { rows = row 2 app_path ∷ row 1 lib_path ∷ []; refs = (2, 1) ∷ []; last_id = 2 }

lib_printed : parse_store_path store_dir (print_store_path store_dir lib_path) ≡ ok lib_path
unfolding parse_store_path print_store_path canon_path_absolute canon_path_inner canon_loop
    canon_step skip_slashes next_component after_component erase_last parent_path filename
    contains_byte eqb store_path all_of Nix32.is_hash_char check_name is_name_char has_bad_dots
lib_printed = refl

app_printed : parse_store_path store_dir (print_store_path store_dir app_path) ≡ ok app_path
unfolding parse_store_path print_store_path canon_path_absolute canon_path_inner canon_loop
    canon_step skip_slashes next_component after_component erase_last parent_path filename
    contains_byte eqb store_path all_of Nix32.is_hash_char check_name is_name_char has_bad_dots
app_printed = refl

two_rows-ArePrinted : ArePrinted store_dir two_rows.rows
two_rows-ArePrinted = ((app_path, refl, app_printed), ((lib_path, refl, lib_printed), tt))

-- A name that is none of a store path is skipped, and the library is reported.
run_missing :
    verify_all_valid_paths lengths store_dir two_rows (codes ".links" ∷ app_path ∷ [])
    ≡ done
        (record { visited = lib_path ∷ app_path ∷ []; valid_paths = app_path ∷ []; errors = true })
unfolding verify_all_valid_paths verify_paths verify_path verify_each store_paths_in
    query_all_valid_paths row_paths parse_all query_referrers referrer_paths paths_of_id find_row
    parse_store_path print_store_path canon_path_absolute canon_path_inner canon_loop canon_step
    skip_slashes next_component after_component erase_last parent_path filename contains_byte eqb
    store_path all_of Nix32.is_hash_char check_name is_name_char has_bad_dots
run_missing = refl

verify_all_valid_paths_lem_example :
    (w : Walk) × (verify_all_valid_paths lengths store_dir two_rows (app_path ∷ []) ≡ done w)
    × ((q : Bytes)
        → contains_path q w.valid_paths ≡ (
            is_valid_path lengths store_dir two_rows q
            && exists_in lengths store_dir (app_path ∷ []) q))
    × Distinct w.valid_paths
    × ((w.errors ≡ true) ↔ (
        (q : Bytes) × (is_valid_path lengths store_dir two_rows q ≡ true)
        × (exists_in lengths store_dir (app_path ∷ []) q ≡ false)))
verify_all_valid_paths_lem_example =
    verify_all_valid_paths_lem lengths store_dir two_rows (app_path ∷ []) two_rows-ArePrinted

abbrev one_link : List (Bytes × Node)
one_link = (codes "0000", app_file) ∷ []

one_link_checked : check_links lengths store_dir one_link ≡ ok true
unfolding check_links dump_path eqb to_string Nix32.encode write_string write_num write_padding
    dump_regular dump_contents
one_link_checked = refl

verify_store_iff_example :
    (reports : Bool) × (db' : Db) × (verify_store lengths store_dir true two_rows one_link
        ((app_path, app_file) ∷ [])
      ≡ done (reports, db'))
    × ((reports ≡ false) ↔ (
        All (IsNamed lengths store_dir) one_link
        × ((q : Bytes)
            → is_valid_path lengths store_dir two_rows q ≡ true
            → IsSound lengths store_dir two_rows ((app_path, app_file) ∷ []) q)))
verify_store_iff_example =
    verify_store_iff lengths store_dir two_rows one_link ((app_path, app_file) ∷ []) true
      two_rows-ArePrinted one_link_checked
