-- ===== src/Store/Invalidate.antt =====
-- `invalidatePathChecked` of src/libstore/local-store.cc: what it deletes and what it refuses.
use archinix.Base.{
  ℕ, ◌≡◌, refl, sym, ◌∙◌, ◌≢◌, ◌⊎◌, inl, inr, Bool, true, false, ◌||◌, none, some, List, [], ◌∷◌,
  ◌++◌, arith, ◌==◌, if◌then◌else◌, Bool-cases, Option-cases, Bytes, eqb, eqb_refl, eqb→eq,
}
use archinix.StorePath.{print_store_path}
use archinix.Store.Schema.{
  Row, Db, StoreError, ◌>>!◌, done, failed, find_row, has_id, remove_pair, is_referred,
  remove_referrer, remove_row, delete_row, paths_of_id, referrer_paths,
}
use archinix.Store.Invariant.{AreUnique, AreRows, IsConsistent}
use archinix.Store.Delete.{find_row-remove_row, find_row-remove_row_other, delete_row-IsConsistent}
use archinix.Store.Printed.{
  ArePrinted, parse_all-printed, referrer_paths-IsPrinted, remove_path-printed,
}
use archinix.Store.Paths.{remove_path, is_valid_path, query_referrers, invalidate_path_checked}

unfoldable pub contains_path : Bytes → List Bytes → Bool
contains_path q [] = false
contains_path q (p ∷ ps) = eqb p q || contains_path q ps

remove_path-append :
    (p : Bytes) (qs rs : List Bytes)
    → remove_path p (qs ++ rs) ≡ remove_path p qs ++ remove_path p rs
unfolding remove_path
remove_path-append p [] rs = refl
remove_path-append p (q ∷ qs) rs = ground (arith, remove_path-append p qs rs)

append-nil_left : {A : Type 0} (xs ys : List A) → xs ++ ys ≡ [] → (xs ≡ []) × (ys ≡ [])
append-nil_left [] ys h = (refl, h)
append-nil_left (x ∷ xs) ys h = cc

module _ (p : Bytes) (i : ℕ) where
  -- If no other path than `p` has the id, then `p` has it.
  found_of_id :
      (rows : List Row)
      → has_id i rows ≡ true
      → remove_path p (paths_of_id i rows) ≡ []
      → find_row p rows ≢ none
  unfolding find_row has_id remove_path paths_of_id
  found_of_id [] h n = cc
  found_of_id (q ∷ rs) h n = elim (Bool-cases (eqb q.path p)) [
    | inl e ↦ λ f. cc (rw e at f)
    | inr e ↦ ground (arith, found_of_id rs)
  ]

  find_row_of_id :
      (rows : List Row) (r : Row)
      → AreUnique rows
      → find_row p rows ≡ some r
      → has_id i rows ≡ true
      → remove_path p (paths_of_id i rows) ≡ []
      → r.id ≡ i
  unfolding find_row has_id remove_path paths_of_id
  find_row_of_id [] r u f h n = cc
  find_row_of_id (q ∷ rs) r (u, v, w) f h n = elim (Bool-cases (q.id == i)) [
    | inl e ↦ ground (arith, f, e)
    | inr e ↦ elim (Bool-cases (eqb q.path p)) [
      | inl g ↦ absurd (found_of_id rs (ground arith) (ground arith) (rw (eqb→eq q.path p g) at u))
      | inr g ↦ find_row_of_id rs r w (rw g at f) (ground arith) (ground arith)
    ]
  ]

-- When no path other than `p` is a referrer, nothing but the row itself refers to the row of `p`.
unreferred :
    (p : Bytes) (rows : List Row) (r : Row) (refs : List (ℕ × ℕ))
    → AreUnique rows
    → find_row p rows ≡ some r
    → AreRows rows refs
    → remove_path p (referrer_paths r.id rows refs) ≡ []
    → is_referred r.id (remove_pair r.id r.id refs) ≡ false
unfolding referrer_paths remove_pair is_referred
unreferred p rows r [] u f h n = refl
unreferred p rows r ((x, y) ∷ refs) u f (hx, hy, h) n =
    let split =
      rw
        (remove_path-append p (if y == r.id then paths_of_id x rows else [])
          (referrer_paths r.id rows refs))
        at n in
    let (first, others) =
      append-nil_left (remove_path p (if y == r.id then paths_of_id x rows else []))
        (remove_path p (referrer_paths r.id rows refs)) split in
    let ih = unreferred p rows r refs u f h others in
    elim (Bool-cases (y == r.id)) [
      | inl e ↦
          let same : r.id ≡ x = find_row_of_id p x rows r u f hx (rw e at first) in
          ground (arith, ih, same)
      | inr e ↦ ground (arith, ih)
    ]

remove_path_found :
    (p q : Bytes) (ps qs : List Bytes)
    → remove_path p ps ≡ q ∷ qs
    → (p ≢ q) × (contains_path q ps ≡ true)
unfolding remove_path contains_path
remove_path_found p q [] qs h = cc
remove_path_found p q (r ∷ ps) qs h = elim (Bool-cases (eqb r p)) [
  | inl e ↦ ground (arith, remove_path_found p q ps qs (rw e at h))
  | inr e ↦
      let same : r ≡ q = ground (arith, rw e at h) in
      (
        (λ g. let bad : eqb r p ≡ true = rw (same ∙ sym g) (eqb_refl p) in cc (bad, e)),
        rw same (rw (eqb_refl q) refl),
      )
]

deleted :
    (db : Db) (t : Bytes) (r : Row)
    → find_row t db.rows ≡ some r
    → is_referred r.id (remove_pair r.id r.id db.refs) ≡ false
    → delete_row db t
      ≡ done (record db {
        rows = remove_row t db.rows;
        refs = remove_referrer r.id (remove_pair r.id r.id db.refs);
      })
unfolding delete_row
deleted db t r e n = rw (e, delete_row) (rw n refl)

paths-cases : (ps : List Bytes) → (ps ≡ []) ⊎ ((q : Bytes) × (qs : List Bytes) × (ps ≡ q ∷ qs))
paths-cases [] = inl refl
paths-cases (q ∷ qs) = inr (q, qs, refl)

module _ (sha256 : Bytes → Bytes) (store_dir : Bytes) where
  -- The outcomes of `invalidatePathChecked` on consistent tables of printed paths. Either it succeeds:
  -- the path is not valid any more, the rows of all other paths are untouched and the tables are
  -- consistent. Or it refuses, because a path other than this one is a referrer. It never runs into
  -- the foreign key.
  pub invalidate_path_checked_outcome :
      (db : Db) (p : Bytes)
      → IsConsistent db
      → ArePrinted store_dir db.rows
      → ((db' : Db) × (invalidate_path_checked sha256 store_dir db p ≡ done db')
          × (find_row (print_store_path store_dir p) db'.rows ≡ none)
          × ((q : Bytes)
              → print_store_path store_dir p ≢ q
              → find_row q db'.rows ≡ find_row q db.rows)
          × IsConsistent db')
        ⊎ ((q : Bytes) × (referrers : List Bytes) × (invalidate_path_checked sha256 store_dir db p
              ≡ failed StoreError.path_in_use)
            × (query_referrers sha256 store_dir db p ≡ done referrers)
            × (p ≢ q)
            × (contains_path q referrers ≡ true))
  unfolding invalidate_path_checked
  invalidate_path_checked_outcome db p c printed =
      let t = print_store_path store_dir p in
      elim (Option-cases (find_row t db.rows)) [
        | inl e ↦ inl (db, rw (e, is_valid_path) refl, e, (λ q ne. refl), c)
        | inr (r, e) ↦
            let (bs, all, is) =
              parse_all-printed store_dir (referrer_paths r.id db.rows db.refs)
                (referrer_paths-IsPrinted store_dir r.id db.rows db.refs printed) in
            let asked : query_referrers sha256 store_dir db p ≡ done bs =
              rw (e, query_referrers) (rw all refl) in
            elim (paths-cases (remove_path p bs)) [
              | inl n ↦
                  let none_left = remove_path-printed store_dir p bs n in
                  let unused =
                    unreferred t db.rows r db.refs c.unique e c.joined (rw (← is) at none_left) in
                  let gone = deleted db t r e unused in
                  inl (
                    record db {
                      rows = remove_row t db.rows;
                      refs = remove_referrer r.id (remove_pair r.id r.id db.refs);
                    },
                    rw (e, is_valid_path) (rw (asked, ◌>>!◌) (rw n gone)),
                    find_row-remove_row t db.rows,
                    (λ q ne. find_row-remove_row_other t q db.rows ne),
                    delete_row-IsConsistent db _ t c gone,
                  )
              | inr (q, qs, n) ↦
                  let (other, referrer) = remove_path_found p q bs qs n in
                  inr (
                    q,
                    bs,
                    rw (e, is_valid_path) (rw (asked, ◌>>!◌) (rw n refl)),
                    asked,
                    other,
                    referrer,
                  )
            ]
      ]
