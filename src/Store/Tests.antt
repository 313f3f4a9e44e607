-- ===== src/Store/Tests.antt =====
-- Runs of the database operations of src/libstore/local-store.cc.
use archinix.Base.{
  ◌%◌, ◌≡◌, refl, ◌≢◌, ◌⊎◌, Bool, true, false, none, some, [], ◌∷◌, ◌++◌, arith, length, replicate,
  Bytes, codes, eqb,
}
use archinix.StorePath.{print_store_path}
use archinix.Base.{List, ok, contains_byte}
use archinix.CanonPath.{
  canon_path_inner, canon_loop, canon_step, skip_slashes, next_component, after_component,
  erase_last,
}
use archinix.Encoding.Nix32
use archinix.Encoding.Base16
use archinix.Hash.{to_string}
use archinix.StorePath.{
  make_content_addressed_path, make_store_path, compress_hash, compress_loop, xor_at,
  store_path_of_hash,
}
use archinix.StorePath.{store_path, all_of, check_name, is_name_char, has_bad_dots}
use archinix.StorePath.Parse.{parse_store_path, canon_path_absolute, parent_path, filename}
use archinix.Store.Printed.{ArePrinted}
use archinix.Store.Schema.{
  Db, StoreError, Outcome, done, failed, find_row, has_id, insert_row, add_reference,
}
use archinix.Store.Invariant.{IsConsistent}
use archinix.Store.Paths.{
  ValidPathInfo, is_content_addressed, is_valid_path, add_valid_path, add_references,
  query_valid_path_id, register_valid_path, query_path_info_internal, query_referrers,
  invalidate_path_checked,
}
use archinix.Store.Register.{Written, register_valid_path-Written}
use archinix.Store.Query.{query_path_info-register_valid_path}
use archinix.Store.Invalidate.{contains_path, invalidate_path_checked_outcome}

abbrev store_dir : Bytes
store_dir = codes "/nix/store"

-- In the place of SHA-256, a function that repeats a byte of the length.
abbrev lengths : Bytes → Bytes
lengths s = replicate 32 (length s % 256)

abbrev empty_db : Db
empty_db = record { rows = []; refs = []; last_id = 0 }

empty_db-IsConsistent : IsConsistent empty_db
empty_db-IsConsistent = record { unique = tt; below = tt; joined = tt }

abbrev lib_path : Bytes
lib_path = replicate 32 b'a' ++ codes "-lib"

abbrev app_path : Bytes
app_path = replicate 32 b'b' ++ codes "-app"

abbrev lib_info : ValidPathInfo
lib_info = record {
  path = lib_path;
  nar_hash = replicate 32 7;
  references = [];
  registration_time = 0;
  nar_size = 120;
  ca = none;
}

-- A path that refers to itself and to the library.
abbrev app_info : ValidPathInfo
app_info = record {
  path = app_path;
  nar_hash = replicate 32 9;
  references = app_path ∷ lib_path ∷ [];
  registration_time = 5;
  nar_size = 0;
  ca = none;
}

abbrev db_of : Outcome Db → Db
db_of (done db) = db
db_of (failed e) = empty_db

abbrev is_done : Outcome Db → Bool
is_done (done db) = true
is_done (failed e) = false

is_done_sound : (o : Outcome Db) → is_done o ≡ true → o ≡ done (db_of o)
is_done_sound (done db) h = refl
is_done_sound (failed e) h = absurd cc

abbrev with_lib : Outcome Db
with_lib = register_valid_path lengths store_dir 1000 empty_db lib_info

with_lib_done : is_done with_lib ≡ true
unfolding register_valid_path is_valid_path add_valid_path add_references insert_row find_row
with_lib_done = refl

-- A path that is addressed by its content, with a digest function that is always zero.
abbrev zeros : Bytes → Bytes
zeros bytes = replicate 32 0

abbrev text_info : ValidPathInfo
text_info = record {
  path = replicate 32 b'0' ++ codes "-x";
  nar_hash = replicate 32 7;
  references = [];
  registration_time = 0;
  nar_size = 120;
  ca = some (replicate 32 0);
}

abbrev with_text : Outcome Db
with_text = register_valid_path zeros store_dir 1000 empty_db text_info

with_text_done : is_done with_text ≡ true
unfolding register_valid_path is_valid_path add_valid_path add_references insert_row find_row
    is_content_addressed make_content_addressed_path make_store_path compress_hash compress_loop
    xor_at to_string Base16.encode store_path_of_hash check_name all_of is_name_char has_bad_dots
    Nix32.encode Nix32.encoded_length eqb
with_text_done = refl

query_path_info-register_valid_path_example :
    query_path_info_internal zeros store_dir (db_of with_text) (text_info.path)
    ≡ done (some (record text_info { registration_time = 1000 }))
query_path_info-register_valid_path_example =
    query_path_info-register_valid_path zeros store_dir 1000 empty_db (db_of with_text) text_info
      empty_db-IsConsistent (unfold is_valid_path find_row in refl) refl (ground arith)
      (refl, ground arith) refl (is_done_sound with_text with_text_done)

with_lib-IsConsistent : IsConsistent (db_of with_lib)
with_lib-IsConsistent =
    (register_valid_path-Written lengths store_dir 1000 empty_db (db_of with_lib) lib_info
      empty_db-IsConsistent (is_done_sound with_lib with_lib_done)).2

abbrev with_app : Outcome Db
with_app = register_valid_path lengths store_dir 1000 (db_of with_lib) app_info

with_app_done : is_done with_app ≡ true
unfolding register_valid_path is_valid_path add_valid_path add_references insert_row find_row
    query_valid_path_id add_reference eqb has_id print_store_path
with_app_done = refl

with_app-IsConsistent : IsConsistent (db_of with_app)
with_app-IsConsistent =
    (register_valid_path-Written lengths store_dir 1000 (db_of with_lib) (db_of with_app) app_info
      with_lib-IsConsistent (is_done_sound with_app with_app_done)).2

register_valid_path-Written_example :
    Written 1000 store_dir app_info (db_of with_lib) (db_of with_app)
register_valid_path-Written_example =
    register_valid_path-Written lengths store_dir 1000 (db_of with_lib) (db_of with_app) app_info
      with_lib-IsConsistent (is_done_sound with_app with_app_done)

lib_printed : parse_store_path store_dir (print_store_path store_dir lib_path) ≡ ok lib_path
unfolding parse_store_path print_store_path canon_path_absolute canon_path_inner canon_loop
    canon_step skip_slashes next_component after_component erase_last parent_path filename
    contains_byte eqb store_path all_of Nix32.is_hash_char check_name is_name_char has_bad_dots
lib_printed = refl

app_printed : parse_store_path store_dir (print_store_path store_dir app_path) ≡ ok app_path
unfolding parse_store_path print_store_path canon_path_absolute canon_path_inner canon_loop
    canon_step skip_slashes next_component after_component erase_last parent_path filename
    contains_byte eqb store_path all_of Nix32.is_hash_char check_name is_name_char has_bad_dots
app_printed = refl

with_app-ArePrinted : ArePrinted store_dir (db_of with_app).rows
unfolding register_valid_path is_valid_path add_valid_path add_references insert_row find_row
    query_valid_path_id add_reference eqb has_id print_store_path
with_app-ArePrinted = ((app_path, refl, app_printed), ((lib_path, refl, lib_printed), tt))

-- The library cannot be invalidated, since the application refers to it.
invalidate_path_checked_outcome_example :
    let t = print_store_path store_dir lib_path in
    ((db : Db) × (invalidate_path_checked lengths store_dir (db_of with_app) lib_path ≡ done db)
      × (find_row t db.rows ≡ none)
      × ((q : Bytes) → t ≢ q → find_row q db.rows ≡ find_row q (db_of with_app).rows)
      × IsConsistent db)
    ⊎ ((q : Bytes) × (referrers : List Bytes) × (invalidate_path_checked lengths store_dir
            (db_of with_app)
            lib_path
          ≡ failed StoreError.path_in_use)
        × (query_referrers lengths store_dir (db_of with_app) lib_path ≡ done referrers)
        × (lib_path ≢ q)
        × (contains_path q referrers ≡ true))
invalidate_path_checked_outcome_example =
    invalidate_path_checked_outcome lengths store_dir (db_of with_app) lib_path
      with_app-IsConsistent with_app-ArePrinted
