-- ===== src/Store/Verify/Report.antt =====
-- `verifyStore` of src/libstore/local-store.cc with contents: when it reports no errors.
use archinix.Base.{
  ◌≡◌, refl, sym, ◌∙◌, ◌≢◌, inl, inr, ◌↔◌, Bool, true, false, not, ◌||◌, ◌&&◌, List, [], ◌∷◌, arith,
  ◌==◌, Bool-cases, and-true, All, Bytes, eqb, eqb_refl, eqb→eq, not_eqb→eq, Result, ok, >>?-eq-ok,
}
use archinix.Hash.{to_string, nix32}
use archinix.Archive.Tree.{Node}
use archinix.Archive.Dump.{dump_path}
use archinix.Store.Schema.{Db, done}
use archinix.Store.Printed.{ArePrinted}
use archinix.Store.Paths.{ValidPathInfo, is_valid_path}
use archinix.Store.Invalidate.{contains_path}
use archinix.Store.Verify.{
  names_of, null_hash, check_links, fill_in, check_path, check_paths, verify_store,
}
use archinix.Store.Verify.Visits.{Distinct}
use archinix.Store.Verify.Paths.{exists_in, verify_all_valid_paths_lem}
use archinix.Store.Verify.Contents.{
  query, query-update_path_info, Intact, check_path_cases, check_path-Intact,
}

ok_is : {A : Type 0} {a b : A} → ◌≡◌ {A = Result A} (ok a) (ok b) → a ≡ b
ok_is h = cc

pub or-false : (a b : Bool) → (a || b) ≡ false → (a ≡ false) × (b ≡ false)
or-false a b h = ground arith

joined :
    (hash name : Bytes) (others : Bool)
    → hash ≡ name
    → others ≡ false
    → (not (eqb hash name) || others) ≡ false
joined hash name others same rest = rw same (rw (eqb_refl name) rest)

none_reported : (a b c : Bool) → a ≡ false → b ≡ false → c ≡ false → (a || b || c) ≡ false
none_reported a b c p q r = ground arith

both : {a b : Bool} → a ≡ true → b ≡ true → (a && b) ≡ true
both p q = ground arith

pub eqb-ne : (p q : Bytes) → eqb p q ≡ false → p ≢ q
eqb-ne p q e same = absurd (let bad = rw (same, eqb_refl q) at e in cc)

ne_of_out :
    (p q : Bytes) (ps : List Bytes) → contains_path p ps ≡ false → contains_path q ps ≡ true → p ≢ q
ne_of_out p q ps out within same = absurd (let bad = rw same at out in cc)

module _ (sha256 : Bytes → Bytes) (store_dir : Bytes) where
  query-fill_in :
      (db : Db) (info : ValidPathInfo) (nar q : Bytes)
      → info.path ≢ q
      → query sha256 store_dir (fill_in sha256 store_dir info nar db) q
        ≡ query sha256 store_dir db q
  unfolding fill_in
  query-fill_in db info nar q ne =
      elim (Bool-cases (eqb info.nar_hash null_hash || info.nar_size == 0)) [
        | inl e ↦ rw e (query-update_path_info sha256 store_dir db _ q ne)
        | inr e ↦ rw e refl
      ]

  module _ (trees : List (Bytes × Node)) where
    -- The check of one path leaves the row of another one alone.
    check_path-query :
        (i q : Bytes) (db : Db)
        → i ≢ q
        → query sha256 store_dir (check_path sha256 store_dir trees i db).1 q
          ≡ query sha256 store_dir db q
    check_path-query i q db ne = elim (check_path_cases sha256 store_dir trees i db) [
      | inl e ↦ rw e refl
      | inr (info, nar, is, _, e) ↦ rw e (query-fill_in db info nar q (λ same. ne (sym is ∙ same)))
    ]

    Intact-same :
        (db db' : Db) (q : Bytes)
        → query sha256 store_dir db' q ≡ query sha256 store_dir db q
        → Intact sha256 store_dir db trees q
        → Intact sha256 store_dir db' trees q
    Intact-same db db' q same (info, nar, is, read, hash) = (info, nar, same ∙ is, read, hash)

    check_path_inv :
        (i : Bytes) (db : Db)
        → (check_path sha256 store_dir trees i db).0 ≡ false
        → Intact sha256 store_dir db trees i
    check_path_inv i db h = elim (check_path_cases sha256 store_dir trees i db) [
      | inl e ↦ absurd (let bad = rw e at h in cc)
      | inr (info, nar, is, intact, e) ↦ intact
    ]

    -- The loop reports nothing exactly when every path of the list is intact.
    check_paths_iff :
        (ps : List Bytes) (db : Db)
        → Distinct ps
        → ((check_paths sha256 store_dir trees ps db).0 ≡ false)
          ↔ ((q : Bytes) → contains_path q ps ≡ true → Intact sha256 store_dir db trees q)
    unfolding check_paths contains_path
    check_paths_iff [] db distinct = (λ h q k. absurd (cc), λ h. refl)
    check_paths_iff (i ∷ ps) db (out, distinct) =
        let db' = (check_path sha256 store_dir trees i db).1 in
        let (to, from) = check_paths_iff ps db' distinct in
        (
          λ h q k.
              (let (bad, errors) = or-false _ _ h in
                elim (Bool-cases (eqb i q)) [
                  | inl e ↦ rw (← eqb→eq i q e) (check_path_inv i db bad)
                  | inr e ↦
                      Intact-same db' db q (sym (check_path-query i q db (eqb-ne i q e)))
                        (to errors q (rw e at k))
                ]),
          λ all.
              (let errors = from λ q k.
                  Intact-same db db' q (check_path-query i q db (ne_of_out i q ps out k))
                    (all q (ground (arith, k))) in
                rw (check_path-Intact sha256 store_dir trees i db (all i (rw (eqb_refl i) refl)))
                  errors),
        )

  -- A link whose name is the hash of its NAR.
  abbrev pub IsNamed : Bytes × Node → Type 0
  IsNamed link =
      (nar : Bytes) × (dump_path link.1 ≡ ok nar) × (to_string (sha256 nar) nix32 false ≡ link.0)

  check_links_iff :
      (links : List (Bytes × Node)) (errors : Bool)
      → check_links sha256 store_dir links ≡ ok errors
      → (errors ≡ false) ↔ All IsNamed links
  unfolding check_links
  check_links_iff [] errors h = (λ e. tt, λ all. sym (ok_is h))
  check_links_iff ((name, node) ∷ links) errors h =
      let (nar, is, k) = >>?-eq-ok (dump_path node) _ h in
      let (others, are, l) = >>?-eq-ok (check_links sha256 store_dir links) _ k in
      let (to, from) = check_links_iff links others are in
      let sum = ok_is l in
      (
        λ e. (let (bad, rest) = or-false _ _ (sum ∙ e) in ((nar, is, not_eqb→eq _ _ bad), to rest)),
        λ ((nar', is', named), all).
            sym sum ∙ joined _ name others (rw (ok_is (sym is ∙ is')) named) (from all),
      )

  -- What the tables say of a valid path holds of the store directory.
  abbrev pub IsSound : Db → List (Bytes × Node) → Bytes → Type 0
  IsSound db trees q =
      (exists_in sha256 store_dir (names_of trees) q ≡ true) × Intact sha256 store_dir db trees q

  all-IsSound :
      (db : Db) (trees : List (Bytes × Node)) (ps : List Bytes) (gone modified : Bool)
      → ((q : Bytes)
          → contains_path q ps ≡ (
              is_valid_path sha256 store_dir db q && exists_in sha256 store_dir (names_of trees) q))
      → ((gone ≡ true) ↔ (
          (q : Bytes) × (is_valid_path sha256 store_dir db q ≡ true)
          × (exists_in sha256 store_dir (names_of trees) q ≡ false)))
      → ((modified ≡ false)
          ↔ ((q : Bytes) → contains_path q ps ≡ true → Intact sha256 store_dir db trees q))
      → ((gone ≡ false) × (modified ≡ false))
        ↔ ((q : Bytes) → is_valid_path sha256 store_dir db q ≡ true → IsSound db trees q)
  all-IsSound db trees ps gone modified valid (caused, missing) (to, from) = (
    λ (here, same) q is. elim (Bool-cases (exists_in sha256 store_dir (names_of trees) q)) [
      | inl there ↦ (there, to same q (valid q ∙ both is there))
      | inr out ↦ absurd (let bad = sym here ∙ missing (q, is, out) in cc)
    ],
    λ all. (
      elim (Bool-cases gone) [
        | inl bad ↦
            absurd (let (q, is, out) = caused bad in let clash = sym out ∙ (all q is).0 in cc)
        | inr good ↦ good
      ],
      from λ q k. (all q (and-true _ _ (sym (valid q) ∙ k)).0).1,
    ),
  )

  -- Where every link has a NAR, `verifyStore` with contents ends on tables of printed paths and throws
  -- nothing, and it reports no errors exactly when every link is named by the hash of its NAR, and
  -- every valid path is in the store directory under the hash that the tables hold, or has none there.
  pub verify_store_iff :
      (db : Db) (links trees : List (Bytes × Node)) (errors : Bool)
      → ArePrinted store_dir db.rows
      → check_links sha256 store_dir links ≡ ok errors
      → (reports : Bool) × (db' : Db) × (verify_store sha256 store_dir true db links trees
          ≡ done (reports, db'))
        × ((reports ≡ false) ↔ (
            All IsNamed links
            × ((q : Bytes) → is_valid_path sha256 store_dir db q ≡ true → IsSound db trees q)))
  unfolding verify_store
  verify_store_iff db links trees errors printed linked =
      let (w, ends, valid, distinct, noted) =
        verify_all_valid_paths_lem sha256 store_dir db (names_of trees) printed in
      let (to, from) = check_links_iff links errors linked in
      let modified = (check_paths sha256 store_dir trees w.valid_paths db).0 in
      let (sound, complete) =
        all-IsSound db trees w.valid_paths w.errors modified valid noted
          (check_paths_iff trees w.valid_paths db distinct) in
      rw (ends, linked)
        (
          _,
          _,
          refl,
          (
            λ h.
                (let (front, same) = or-false (w.errors || errors) modified h in
                  let (here, bad) = or-false w.errors errors front in (to bad, sound (here, same))),
            λ (named, all).
                (let (here, same) = complete all in none_reported _ _ _ here (from named) same),
          ),
        )
