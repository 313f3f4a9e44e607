-- ===== src/Store/Verify/Paths.antt =====
-- `verifyAllValidPaths` of src/libstore/local-store.cc on the tables and the names in the directory.
use archinix.Base.{
  ℕ, suc, ◌≡◌, refl, sym, ap, ◌∙◌, inl, inr, ◌↔◌, Bool, true, false, ◌||◌, ◌&&◌, none, some, List,
  [], ◌∷◌, ◌++◌, map, arith, Bool-cases, Option-cases, length, All, Bytes, eqb,
}
use archinix.StorePath.{print_store_path}
use archinix.Store.Schema.{Row, Db, done, find_row, paths_of_id, referrer_paths}
use archinix.Store.Paths.{is_valid_path, query_referrers}
use archinix.Store.Invalidate.{contains_path}
use archinix.Store.Printed.{
  ArePrinted, IsPrinted, eqb-print_store_path, parse_all-printed, referrer_paths-IsPrinted,
}
use archinix.Store.Prefix.{row_paths, query_all_valid_paths}
use archinix.Store.Verify.{Walk, blank, store_paths_in, verify_all_valid_paths}
use archinix.Store.Verify.Visits.{
  Subset, Distinct, valid_paths-Distinct, remaining-le, verify_paths-walked, valid_paths-universe,
  errors_iff,
}

contains_path-row_paths :
    (p : Bytes) (rows : List Row)
    → contains_path p (row_paths rows)
      ≡ elim (find_row p rows) as (λ _. Bool) [ none ↦ false | some r ↦ true ]
unfolding contains_path row_paths find_row
contains_path-row_paths p [] = refl
contains_path-row_paths p (r ∷ rows) = elim (Bool-cases (eqb r.path p)) [
  | inl e ↦ rw e refl
  | inr e ↦ rw e (contains_path-row_paths p rows)
]

paths_of_id-in : (i : ℕ) (rows : List Row) → Subset (paths_of_id i rows) (row_paths rows)
unfolding contains_path row_paths paths_of_id
paths_of_id-in i [] p h = h
paths_of_id-in i (r ∷ rows) p h = ground (arith, paths_of_id-in i rows p, h)

contains_path-append :
    (p : Bytes) (ps qs : List Bytes)
    → contains_path p (ps ++ qs) ≡ (contains_path p ps || contains_path p qs)
unfolding contains_path
contains_path-append p [] qs = refl
contains_path-append p (q ∷ ps) qs = ground (arith, contains_path-append p ps qs)

referrer_paths-in :
    (i : ℕ) (rows : List Row) (refs : List (ℕ × ℕ))
    → Subset (referrer_paths i rows refs) (row_paths rows)
unfolding referrer_paths
referrer_paths-in i rows [] p h = absurd (unfold contains_path in cc)
referrer_paths-in i rows ((x, y) ∷ refs) p h = ground (
  arith,
  referrer_paths-in i rows refs p,
  paths_of_id-in x rows p,
  h,
  contains_path-append p (paths_of_id x rows) (referrer_paths i rows refs),
  contains_path-append p [] (referrer_paths i rows refs),
)

row_paths-IsPrinted :
    (store_dir : Bytes) (rows : List Row)
    → ArePrinted store_dir rows
    → All (IsPrinted store_dir) (row_paths rows)
unfolding row_paths
row_paths-IsPrinted store_dir [] h = tt
row_paths-IsPrinted store_dir (r ∷ rows) (hr, h) = (hr, row_paths-IsPrinted store_dir rows h)

module _ (sha256 : Bytes → Bytes) (store_dir : Bytes) where
  contains_path-map :
      (q : Bytes) (bs : List Bytes)
      → contains_path (print_store_path store_dir q) (map (print_store_path store_dir) bs)
        ≡ contains_path q bs
  unfolding contains_path
  contains_path-map q [] = refl
  contains_path-map q (b ∷ bs) =
      rw (eqb-print_store_path store_dir b q) (rw (contains_path-map q bs) refl)

  module _ (db : Db) (printed : ArePrinted store_dir db.rows) where
    -- The base names of the valid paths.
    query_all_valid_paths-valid :
        (ps : List Bytes) × (query_all_valid_paths store_dir db ≡ done ps)
        × ((q : Bytes) → contains_path q ps ≡ is_valid_path sha256 store_dir db q)
    unfolding query_all_valid_paths is_valid_path
    query_all_valid_paths-valid =
        let (ps, all, are) =
          parse_all-printed store_dir (row_paths db.rows)
            (row_paths-IsPrinted store_dir db.rows printed) in
        (
          ps,
          rw all refl,
          λ q.
              sym (contains_path-map q ps)
              ∙ rw (← are) (contains_path-row_paths (print_store_path store_dir q) db.rows),
        )

    query_referrers-valid :
        (p : Bytes)
        → (ps : List Bytes) × (query_referrers sha256 store_dir db p ≡ done ps)
          × ((q : Bytes) → contains_path q ps ≡ true → is_valid_path sha256 store_dir db q ≡ true)
    unfolding query_referrers is_valid_path
    query_referrers-valid p =
        elim (Option-cases (find_row (print_store_path store_dir p) db.rows)) [
          | inl e ↦ rw (e, query_referrers) ([], refl, λ q h. absurd (unfold contains_path in cc))
          | inr (r, e) ↦
              let (ps, all, are) =
                parse_all-printed store_dir (referrer_paths r.id db.rows db.refs)
                  (referrer_paths-IsPrinted store_dir r.id db.rows db.refs printed) in
              rw (e, query_referrers)
                (rw all (
                  ps,
                  refl,
                  λ q h.
                      sym (contains_path-row_paths (print_store_path store_dir q) db.rows)
                      ∙ referrer_paths-in r.id db.rows db.refs (print_store_path store_dir q)
                          (rw are (contains_path-map q ps ∙ h)),
                ))
        ]

    query_referrers-within :
        (ps : List Bytes)
        → ((q : Bytes) → contains_path q ps ≡ is_valid_path sha256 store_dir db q)
        → (p : Bytes) → contains_path p ps ≡ true
        → (rs : List Bytes) × (query_referrers sha256 store_dir db p ≡ done rs) × Subset rs ps
    query_referrers-within ps valid p h =
        let (rs, are, sub) = query_referrers-valid p in (rs, are, λ q m. valid q ∙ sub q m)

  abbrev pub exists_in : List Bytes → Bytes → Bool
  exists_in names q = contains_path q (store_paths_in names)

  missing_valid :
      (ps : List Bytes) (exists : Bytes → Bool) (db : Db) (errors : Bool)
      → ((q : Bytes) → contains_path q ps ≡ is_valid_path sha256 store_dir db q)
      → ((errors ≡ true) ↔ ((q : Bytes) × (contains_path q ps ≡ true) × (exists q ≡ false)))
      → (errors ≡ true)
        ↔ ((q : Bytes) × (is_valid_path sha256 store_dir db q ≡ true) × (exists q ≡ false))
  missing_valid ps exists db errors valid (to, from) = (
    λ h. (let (q, within, missing) = to h in (q, sym (valid q) ∙ within, missing)),
    λ (q, is, missing). from (q, valid q ∙ is, missing),
  )

  -- On tables of printed paths `verifyAllValidPaths` ends and throws nothing. The paths that it
  -- returns are the valid ones that are in the store directory, each once, and it reports errors exactly when a
  -- valid path is not there.
  pub verify_all_valid_paths_lem :
      (db : Db) (names : List Bytes)
      → ArePrinted store_dir db.rows
      → (w : Walk) × (verify_all_valid_paths sha256 store_dir db names ≡ done w)
        × ((q : Bytes)
            → contains_path q w.valid_paths
              ≡ (is_valid_path sha256 store_dir db q && exists_in names q))
        × Distinct w.valid_paths
        × ((w.errors ≡ true) ↔ (
            (q : Bytes) × (is_valid_path sha256 store_dir db q ≡ true)
            × (exists_in names q ≡ false)))
  unfolding verify_all_valid_paths
  verify_all_valid_paths_lem db names printed =
      let (ps, all, valid) = query_all_valid_paths-valid db printed in
      let (w, ends, walked, visited) =
        verify_paths-walked ps (exists_in names) (query_referrers sha256 store_dir db)
          (query_referrers-within db printed ps valid) (suc (length ps)) ps blank (λ q h. h)
          (omega (arith, remaining-le ps [])) in
      rw (all, ends)
        (
          w,
          refl,
          λ q.
              valid_paths-universe ps (exists_in names) w walked visited q
              ∙ ap (λ b. b && exists_in names q) (valid q),
          valid_paths-Distinct ps (exists_in names) w walked visited,
          missing_valid ps (exists_in names) db w.errors valid
              (errors_iff ps (exists_in names) w walked visited),
        )
