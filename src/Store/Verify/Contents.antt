-- ===== src/Store/Verify/Contents.antt =====
-- `verifyStore` of src/libstore/local-store.cc with contents: when it reports no errors.
use archinix.Base.{
  ℕ, ◌≡◌, refl, ◌≢◌, ◌⊎◌, inl, inr, Bool, true, false, not, ◌&&◌, Option, none, some, List, [], ◌∷◌,
  arith, Bool-cases, Option-cases, Bytes, eqb, eqb_refl, eqb→eq, Error, Result, ok, err,
}
use archinix.Hash.{to_string, base16, parse_any_prefixed, parse_ca_opt}
use archinix.StorePath.{print_store_path}
use archinix.Archive.Tree.{Node}
use archinix.Store.Schema.{
  Row, Db, StoreError, Outcome, done, failed, ◌>>!◌, find_row, update_rows, paths_of_id,
  reference_paths,
}
use archinix.Store.Rows.{find_row-update_rows_other}
use archinix.Store.Printed.{print_store_path_inj}
use archinix.Store.Paths.{
  ValidPathInfo, parse_all, lift, update_path_info, query_path_info_internal, size_column,
  ca_column,
}
use archinix.Store.Verify.{current_nar, null_hash, fill_in, check_path}

module _ (size : Option ℕ) (hash : Bytes) (ca : Option Bytes) (p : Bytes) where
  paths_of_id-update_rows :
      (i : ℕ) (rows : List Row)
      → paths_of_id i (update_rows rows size hash ca p) ≡ paths_of_id i rows
  unfolding paths_of_id update_rows
  paths_of_id-update_rows i [] = refl
  paths_of_id-update_rows i (r ∷ rows) = elim (Bool-cases (eqb r.path p)) [
    | inl e ↦ rw e (rw (paths_of_id-update_rows i rows) refl)
    | inr e ↦ rw e (rw (paths_of_id-update_rows i rows) refl)
  ]

  reference_paths-update_rows :
      (i : ℕ) (rows : List Row) (refs : List (ℕ × ℕ))
      → reference_paths i (update_rows rows size hash ca p) refs ≡ reference_paths i rows refs
  unfolding reference_paths
  reference_paths-update_rows i rows [] = refl
  reference_paths-update_rows i rows ((x, y) ∷ refs) =
      rw (paths_of_id-update_rows y rows) (rw (reference_paths-update_rows i rows refs) refl)

module _ (sha256 : Bytes → Bytes) (store_dir : Bytes) where
  abbrev pub query : Db → Bytes → Outcome (Option ValidPathInfo)
  query = query_path_info_internal sha256 store_dir

  pub query-update_path_info :
      (db : Db) (info : ValidPathInfo) (q : Bytes)
      → info.path ≢ q
      → query (update_path_info sha256 store_dir db info) q ≡ query db q
  unfolding query_path_info_internal update_path_info
  query-update_path_info db info q ne =
      let size = size_column info.nar_size in
      let hash = to_string info.nar_hash base16 true in
      let ca = ca_column info.ca in
      let p = print_store_path store_dir info.path in
      let same =
        find_row-update_rows_other db.rows size hash ca p (print_store_path store_dir q)
          (λ same. ne (print_store_path_inj store_dir info.path q same)) in
      elim (Option-cases (find_row (print_store_path store_dir q) db.rows)) [
        | inl e ↦ rw (same, query_path_info_internal) (rw (e, query_path_info_internal) refl)
        | inr (r, e) ↦
            rw (same, query_path_info_internal)
              (rw (e, query_path_info_internal)
                (rw (reference_paths-update_rows size hash ca p r.id db.rows db.refs) refl))
      ]

Outcome-cases :
    {A : Type 0} (o : Outcome A) → ((a : A) × (o ≡ done a)) ⊎ ((e : StoreError) × (o ≡ failed e))
Outcome-cases (done a) = inl (a, refl)
Outcome-cases (failed e) = inr (e, refl)

Result-cases : {A : Type 0} (r : Result A) → ((a : A) × (r ≡ ok a)) ⊎ ((e : Error) × (r ≡ err e))
Result-cases (ok a) = inl (a, refl)
Result-cases (err e) = inr (e, refl)

-- An info that is found is that of the path.
abbrev HasPath : Bytes → Outcome (Option ValidPathInfo) → Type 0
HasPath i o = (info : ValidPathInfo) → o ≡ done (some info) → info.path ≡ i

then-HasPath :
    {A : Type 0} (i : Bytes) (m : Outcome A) (f : A → Outcome (Option ValidPathInfo))
    → ((a : A) → HasPath i (f a))
    → HasPath i (m >>! f)
then-HasPath i (done a) f h info e = h a info e
then-HasPath i (failed x) f h info e = cc

done_value : {A : Type 0} {a b : A} → ◌≡◌ {A = Outcome A} (done a) (done b) → a ≡ b
done_value h = cc

same_hash :
    (hash other : Bytes)
    → (not (eqb hash null_hash) && not (eqb hash other)) ≡ false
    → (hash ≡ null_hash) ⊎ (hash ≡ other)
same_hash hash other h = elim (Bool-cases (eqb hash null_hash)) [
  | inl e ↦ inl (eqb→eq hash null_hash e)
  | inr e ↦ inr (eqb→eq hash other (ground arith))
]

module _ (sha256 : Bytes → Bytes) (store_dir : Bytes) where
  query-HasPath : (db : Db) (i : Bytes) → HasPath i (query sha256 store_dir db i)
  unfolding query_path_info_internal
  query-HasPath db i = elim (Option-cases (find_row (print_store_path store_dir i) db.rows)) [
    | inl e ↦ rw (e, query_path_info_internal) (λ info h. cc)
    | inr (r, e) ↦
        rw (e, query_path_info_internal)
          (then-HasPath i (lift (parse_any_prefixed r.hash)) _ λ a.
            then-HasPath i (lift (elim r.ca [ none ↦ ok none | some text ↦ parse_ca_opt text ])) _
              λ b.
                then-HasPath i (lift (parse_all store_dir (reference_paths r.id db.rows db.refs))) _
                  λ c info h. cc)
  ]

  -- A path whose row can be read, whose tree has a NAR, and whose stored hash is missing or that of
  -- the NAR.
  abbrev pub Intact : Db → List (Bytes × Node) → Bytes → Type 0
  Intact db trees i =
      (info : ValidPathInfo) × (nar : Bytes) × (query sha256 store_dir db i ≡ done (some info))
      × (current_nar trees i ≡ ok nar)
      × ((info.nar_hash ≡ null_hash) ⊎ (info.nar_hash ≡ sha256 nar))

  abbrev pub Checked : Db → List (Bytes × Node) → Bytes → Bool × Db → Type 0
  Checked db trees i r =
      (r ≡ (true, db))
      ⊎ ((info : ValidPathInfo) × (nar : Bytes) × (info.path ≡ i)
          × Intact db trees i
          × (r ≡ (false, fill_in sha256 store_dir info nar db)))

  pub check_path_cases :
      (trees : List (Bytes × Node)) (i : Bytes) (db : Db)
      → Checked db trees i (check_path sha256 store_dir trees i db)
  unfolding check_path
  check_path_cases trees i db = elim (Outcome-cases (query sha256 store_dir db i)) [
    | inr (e, is) ↦ inl (rw (is, check_path) refl)
    | inl (none, is) ↦ inl (rw (is, check_path) refl)
    | inl (some info, is) ↦ elim (Result-cases (current_nar trees i)) [
      | inr (e, k) ↦ inl (rw (is, check_path) (rw (k, check_path) refl))
      | inl (nar, k) ↦
          let differs = not (eqb info.nar_hash null_hash) && not (eqb info.nar_hash (sha256 nar)) in
          elim (Bool-cases differs) [
            | inl bad ↦ inl (rw (is, check_path) (rw (k, check_path) (rw bad refl)))
            | inr same ↦ inr (
              info,
              nar,
              query-HasPath db i info is,
              (info, nar, is, k, same_hash info.nar_hash (sha256 nar) same),
              rw (is, check_path) (rw (k, check_path) (rw same refl)),
            )
          ]
    ]
  ]

  pub check_path-Intact :
      (trees : List (Bytes × Node)) (i : Bytes) (db : Db)
      → Intact db trees i
      → (check_path sha256 store_dir trees i db).0 ≡ false
  unfolding check_path
  check_path-Intact trees i db (info, nar, is, k, inl null) =
      rw (is, check_path) (rw (k, check_path) (rw null (rw (eqb_refl null_hash) refl)))
  check_path-Intact trees i db (info, nar, is, k, inr same) =
      rw (is, check_path) (rw (k, check_path) (rw same (rw (eqb_refl (sha256 nar)) (ground arith))))
