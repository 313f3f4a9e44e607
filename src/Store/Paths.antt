-- ===== src/Store/Paths.antt =====
-- The operations of src/libstore/local-store.cc on valid paths. A transaction that throws is rolled
-- back, so a failure carries no database.
use archinix.Base.{
  ℕ, Bool, true, false, Option, none, some, List, [], ◌∷◌, ◌==◌, if◌then◌else◌, Bytes, eqb, Result,
  ok, err, ◌>>?◌,
}
use archinix.Hash.{to_string, base16, parse_any_prefixed, render_ca, parse_ca_opt}
use archinix.StorePath.{name, print_store_path, make_content_addressed_path}
use archinix.StorePath.Parse.{parse_store_path}
use archinix.Store.Schema.{
  Db, StoreError, Outcome, done, failed, ◌>>!◌, find_row, insert_row, update_rows, add_reference,
  delete_row, reference_paths, referrer_paths,
}

-- `ValidPathInfo`. The path and the references are base names; the content address is its digest.
pub record ValidPathInfo : Type 0 where
  pub path : Bytes
  pub nar_hash : Bytes
  pub references : List Bytes
  pub registration_time : ℕ
  pub nar_size : ℕ
  pub ca : Option Bytes

-- A value for a column that may be null: `apply(value, notNull)`.
abbrev pub size_column : ℕ → Option ℕ
size_column size = if size == 0 then none else some size

abbrev pub ca_column : Option Bytes → Option Bytes
ca_column none = none
ca_column (some hash) = some (render_ca hash)

abbrev pub lift : {A : Type 0} → Result A → Outcome A
lift (ok a) = done a
lift (err e) = failed (StoreError.unreadable e)

unfoldable pub parse_all : Bytes → List Bytes → Result (List Bytes)
parse_all store_dir [] = ok []
parse_all store_dir (p ∷ ps) =
    parse_store_path store_dir p >>? λ b. parse_all store_dir ps >>? λ bs. ok (b ∷ bs)

unfoldable pub remove_path : Bytes → List Bytes → List Bytes
remove_path p [] = []
remove_path p (q ∷ qs) = if eqb q p then remove_path p qs else q ∷ remove_path p qs

-- `sha256` stands for OpenSSL's digest, `now` for the clock.
module _ (sha256 : Bytes → Bytes) (store_dir : Bytes) where
  unfoldable pub is_content_addressed : ValidPathInfo → Outcome Bool
  is_content_addressed info = elim info.ca [
    | none ↦ done false
    | some hash ↦ lift (make_content_addressed_path sha256 store_dir (name info.path) hash) >>! λ p.
        done (eqb p info.path)
  ]

  unfoldable pub make_from_ca : Bytes → Bytes → Result ValidPathInfo
  make_from_ca name_of nar_hash =
      make_content_addressed_path sha256 store_dir name_of nar_hash >>? λ p. ok (record {
        path = p;
        nar_hash = nar_hash;
        references = [];
        registration_time = 0;
        nar_size = 0;
        ca = some nar_hash;
      })

  unfoldable pub is_valid_path : Db → Bytes → Bool
  is_valid_path db p = elim (find_row (print_store_path store_dir p) db.rows) [
    | none ↦ false
    | some r ↦ true
  ]

  unfoldable pub add_valid_path : ℕ → Db → ValidPathInfo → Outcome Db
  unfolding is_content_addressed
  add_valid_path now db info =
      let inserted =
        insert_row db (print_store_path store_dir info.path) (to_string info.nar_hash base16 true)
          (if info.registration_time == 0 then now else info.registration_time)
          (size_column info.nar_size) (ca_column info.ca) in
      elim info.ca [
        | none ↦ inserted
        | some hash ↦ is_content_addressed info >>! λ holds.
            if holds then inserted else failed StoreError.not_content_addressed
      ]

  unfoldable pub update_path_info : Db → ValidPathInfo → Db
  update_path_info db info = record db {
    rows =
        update_rows db.rows (size_column info.nar_size) (to_string info.nar_hash base16 true)
          (ca_column info.ca) (print_store_path store_dir info.path);
  }

  unfoldable pub query_valid_path_id : Db → Bytes → Outcome ℕ
  query_valid_path_id db p = elim (find_row (print_store_path store_dir p) db.rows) [
    | none ↦ failed StoreError.invalid_path
    | some r ↦ done r.id
  ]

  -- The loop over `info.references`.
  unfoldable pub add_references : ℕ → List Bytes → Db → Outcome Db
  unfolding query_valid_path_id
  add_references referrer [] db = done db
  add_references referrer (p ∷ ps) db = query_valid_path_id db p >>! λ reference.
      add_reference db referrer reference >>! λ db'. add_references referrer ps db'

  unfoldable pub register_valid_path : ℕ → Db → ValidPathInfo → Outcome Db
  unfolding is_valid_path add_valid_path update_path_info add_references
  register_valid_path now db info =
      (if is_valid_path db info.path
        then done (update_path_info db info)
        else add_valid_path now db info)
      >>! λ db'. elim info.references [
        | [] ↦ done db'
        | p ∷ ps ↦
            query_valid_path_id db' info.path >>! λ referrer. add_references referrer (p ∷ ps) db'
      ]

  -- `queryPathInfoInternal`: `none` where there is no such row.
  unfoldable pub query_path_info_internal : Db → Bytes → Outcome (Option ValidPathInfo)
  query_path_info_internal db p = elim (find_row (print_store_path store_dir p) db.rows) [
    | none ↦ done none
    | some r ↦ lift (parse_any_prefixed r.hash) >>! λ nar_hash.
        lift (elim r.ca [ none ↦ ok none | some text ↦ parse_ca_opt text ]) >>! λ ca.
        lift (parse_all store_dir (reference_paths r.id db.rows db.refs)) >>! λ references. done (
          some (record {
            path = p;
            nar_hash = nar_hash;
            references = references;
            registration_time = r.registration_time;
            nar_size = elim r.nar_size [ none ↦ 0 | some size ↦ size ];
            ca = ca;
          }))
  ]

  unfoldable pub query_referrers : Db → Bytes → Outcome (List Bytes)
  query_referrers db p = elim (find_row (print_store_path store_dir p) db.rows) [
    | none ↦ done []
    | some r ↦ lift (parse_all store_dir (referrer_paths r.id db.rows db.refs))
  ]

  unfoldable pub invalidate_path : Db → Bytes → Outcome Db
  invalidate_path db p = delete_row db (print_store_path store_dir p)

  unfoldable pub invalidate_path_checked : Db → Bytes → Outcome Db
  unfolding is_valid_path query_referrers invalidate_path
  invalidate_path_checked db p =
      if is_valid_path db p
      then (query_referrers db p >>! λ referrers. elim (remove_path p referrers) [
        | [] ↦ invalidate_path db p
        | q ∷ qs ↦ failed StoreError.path_in_use
      ])
      else done db
