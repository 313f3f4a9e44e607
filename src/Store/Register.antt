-- ===== src/Store/Register.antt =====
-- `registerValidPath` of src/libstore/local-store.cc: what it keeps and what a later query finds.
use mathlib.Core.Path.{subst}
use archinix.Base.{
  ℕ, suc, ◌≡◌, refl, sym, ap, ◌∙◌, ◌≢◌, inl, inr, Bool, true, false, Option, none, some, List, [],
  ◌∷◌, ◌==◌, if◌then◌else◌, Option-cases, Bytes,
}
use archinix.Hash.{to_string, base16}
use archinix.StorePath.{print_store_path}
use archinix.Store.Schema.{
  Row, Db, StoreError, Outcome, done, failed, ◌>>!◌, >>!-eq-done, find_row, insert_row,
  add_reference,
}
use archinix.Store.Invariant.{
  IsConsistent, insert_row-IsConsistent, update_rows-IsConsistent, add_reference-IsConsistent,
  done_is, failed-ne,
}
use archinix.Store.References.{Refers, id_is, add_references-Refers}
use archinix.Store.Rows.{
  find_row-path, insert_row_finds, find_row-update_rows, find_row-update_rows_other,
  add_reference_rows,
}
use archinix.Store.Paths.{
  ValidPathInfo, size_column, ca_column, is_content_addressed, is_valid_path, add_valid_path,
  update_path_info, query_valid_path_id, add_references, register_valid_path,
}

pub guarded :
    (e : StoreError) {b : Db} (c : Bool) (m : Outcome Db)
    → (if c then m else failed e) ≡ done b
    → m ≡ done b
guarded e true m h = h
guarded e false m h = failed-ne h

-- The columns that an info is stored in.
pub record Holds (store_dir : Bytes) (info : ValidPathInfo) (r : Row) : Type 0 where
  pub is_path : r.path ≡ print_store_path store_dir info.path
  pub is_hash : r.hash ≡ to_string info.nar_hash base16 true
  pub is_size : r.nar_size ≡ size_column info.nar_size
  pub is_ca : r.ca ≡ ca_column info.ca

-- The time and the id of the row: a new row has the time of the info, or the clock's for 0, and a new id;
-- a row that was there keeps both.
abbrev pub Stamped : ℕ → ℕ → ValidPathInfo → Option Row → Row → Type 0
Stamped now last info none r =
    (r.registration_time ≡ (if info.registration_time == 0 then now else info.registration_time))
    × (r.id ≡ suc last)
Stamped now last info (some old) r = (r.registration_time ≡ old.registration_time) × (r.id ≡ old.id)

-- The row of the info is in the new tables, the rows of other paths are the old ones, and no pair of the
-- references has changed.
abbrev RowWritten : ℕ → Bytes → ValidPathInfo → Db → Db → Type 0
RowWritten now store_dir info db db₁ =
    ((r : Row) × (find_row (print_store_path store_dir info.path) db₁.rows ≡ some r)
      × Holds store_dir info r
      × Stamped now db.last_id info (find_row (print_store_path store_dir info.path) db.rows) r)
    × ((q : Bytes)
        → print_store_path store_dir info.path ≢ q
        → find_row q db₁.rows ≡ find_row q db.rows)
    × IsConsistent db₁
    × (db₁.refs ≡ db.refs)

-- The row of the info is in the new tables and refers to the references of the info, and the rows of
-- other paths are the old ones.
abbrev pub Written : ℕ → Bytes → ValidPathInfo → Db → Db → Type 0
Written now store_dir info db db' =
    ((r : Row) × (find_row (print_store_path store_dir info.path) db'.rows ≡ some r)
      × Holds store_dir info r
      × Stamped now db.last_id info (find_row (print_store_path store_dir info.path) db.rows) r
      × Refers store_dir r.id info.references db'.rows db.refs db'.refs)
    × ((q : Bytes)
        → print_store_path store_dir info.path ≢ q
        → find_row q db'.rows ≡ find_row q db.rows)
    × IsConsistent db'

module _ (sha256 : Bytes → Bytes) (store_dir : Bytes) where
  pub add_valid_path_inserts :
      (now : ℕ) (db db' : Db) (info : ValidPathInfo)
      → add_valid_path sha256 store_dir now db info ≡ done db'
      → insert_row db
          (print_store_path store_dir info.path)
          (to_string info.nar_hash base16 true)
          (if info.registration_time == 0 then now else info.registration_time)
          (size_column info.nar_size)
          (ca_column info.ca)
        ≡ done db'
  unfolding add_valid_path
  add_valid_path_inserts now db db' info h = elim (Option-cases info.ca) [
    | inl e ↦ rw (e, add_valid_path) at h
    | inr (ca, e) ↦
        let (holds, asked, k) =
          >>!-eq-done (is_content_addressed sha256 store_dir info) _
            (rw (e, add_valid_path) at h) in
        guarded StoreError.not_content_addressed holds _ k
  ]

  add_references_keep :
      (referrer : ℕ) (ps : List Bytes) (db db' : Db)
      → add_references sha256 store_dir referrer ps db ≡ done db'
      → (db'.rows ≡ db.rows) × (IsConsistent db → IsConsistent db')
  unfolding add_references
  add_references_keep referrer [] db db' h =
      (ap (λ (d : Db). d.rows) (sym (done_is h)), λ c. subst IsConsistent (done_is h) c)
  add_references_keep referrer (p ∷ ps) db db' h =
      let (reference, found, k₁) = >>!-eq-done (query_valid_path_id sha256 store_dir db p) _ h in
      let (db₁, added, k₂) = >>!-eq-done (add_reference db referrer reference) _ k₁ in
      let (rows, keep) = add_references_keep referrer ps db₁ db' k₂ in
      (
        rows ∙ add_reference_rows db db₁ referrer reference added,
        λ c. keep (add_reference-IsConsistent db db₁ referrer reference c added),
      )

  add_references-nil :
      (referrer : ℕ) (db : Db) → add_references sha256 store_dir referrer [] db ≡ done db
  unfolding add_references
  add_references-nil referrer db = refl

  -- The first half of the transaction: the row is written, and only that row.
  written :
      (now : ℕ) (db db₁ : Db) (info : ValidPathInfo)
      → IsConsistent db
      → (if is_valid_path sha256 store_dir db info.path
          then done (update_path_info sha256 store_dir db info)
          else add_valid_path sha256 store_dir now db info)
        ≡ done db₁
      → RowWritten now store_dir info db db₁
  unfolding is_valid_path update_path_info
  written now db db₁ info c h =
      elim (Option-cases (find_row (print_store_path store_dir info.path) db.rows)) [
        | inl e ↦
            let inserted = add_valid_path_inserts now db db₁ info (rw (e, is_valid_path) at h) in
            let (found, others, refs) = insert_row_finds db db₁ _ _ _ _ _ inserted in
            (
              (
                _,
                found,
                record { is_path = refl; is_hash = refl; is_size = refl; is_ca = refl },
                rw e (refl, refl),
              ),
              others,
              insert_row-IsConsistent db db₁ _ _ _ _ _ c inserted,
              refs,
            )
        | inr (r, e) ↦
            let is = done_is (rw (e, is_valid_path) at h) in
            let p = print_store_path store_dir info.path in
            subst (RowWritten now store_dir info db) is (
              (
                _,
                find_row-update_rows db.rows (size_column info.nar_size)
                    (to_string info.nar_hash base16 true) (ca_column info.ca) p r e,
                record {
                  is_path = find_row-path p db.rows r e;
                  is_hash = refl;
                  is_size = refl;
                  is_ca = refl;
                },
                rw e (refl, refl),
              ),
              (λ q ne. find_row-update_rows_other db.rows _ _ _ p q ne),
              update_rows-IsConsistent db _ _ _ p c,
              refl,
            )
      ]

  query_valid_path_id-row :
      (db : Db) (p : Bytes) (r : Row) (i : ℕ)
      → find_row (print_store_path store_dir p) db.rows ≡ some r
      → query_valid_path_id sha256 store_dir db p ≡ done i
      → i ≡ r.id
  unfolding query_valid_path_id
  query_valid_path_id-row db p r i found h = sym (id_is (rw (found, query_valid_path_id) at h))

  -- A registration that succeeds on consistent tables leaves the row of the path with the hash, the size
  -- and the content address of the info. A path that was valid keeps its time and its id; the row of a
  -- new one has a new id and the time of the info, or the clock's for 0. The row refers to each of the
  -- references of the info by the row that it has, all references that were there are kept, and there
  -- are no others. The rows of all other paths are the old ones, and the tables are consistent.
  pub register_valid_path-Written :
      (now : ℕ) (db db' : Db) (info : ValidPathInfo)
      → IsConsistent db
      → register_valid_path sha256 store_dir now db info ≡ done db'
      → Written now store_dir info db db'
  unfolding register_valid_path
  register_valid_path-Written now db db' info c h =
      let (db₁, first, k) =
        >>!-eq-done
          (if is_valid_path sha256 store_dir db info.path
            then done (update_path_info sha256 store_dir db info)
            else add_valid_path sha256 store_dir now db info)
          _ h in
      with_references db₁ (written now db db₁ info c first) info.references refl k
    where
      carried :
          (db₁ : Db)
          → RowWritten now store_dir info db db₁
          → (db'.rows ≡ db₁.rows) × (IsConsistent db₁ → IsConsistent db')
          → ((r : Row)
              → find_row (print_store_path store_dir info.path) db₁.rows ≡ some r
              → Refers store_dir r.id info.references db₁.rows db₁.refs db'.refs)
          → Written now store_dir info db db'
      carried db₁ ((r, found, holds, stamped), others, c₁, refs) (rows, keep) refers = (
        (
          r,
          rw rows found,
          holds,
          stamped,
          rw rows (
              subst (λ old. Refers store_dir r.id info.references db₁.rows old db'.refs) refs
                (refers r found)),
        ),
        (λ q ne. rw rows (others q ne)),
        keep c₁,
      )

      with_references :
          (db₁ : Db)
          → RowWritten now store_dir info db db₁
          → (ps : List Bytes) → info.references ≡ ps
          → ◌≡◌ {A = Outcome Db}
              (elim ps [
                | [] ↦ done db₁
                | p ∷ ps ↦ query_valid_path_id sha256 store_dir db₁ info.path >>! λ referrer.
                    add_references sha256 store_dir referrer (p ∷ ps) db₁
              ])
              (done db')
          → Written now store_dir info db db'
      with_references db₁ w [] e k =
          let is = sym (done_is k) in
          carried db₁ w (ap (λ (d : Db). d.rows) is, λ c. subst IsConsistent (sym is) c)
            λ r found. rw e (
              subst (λ (d : Db). Refers store_dir r.id [] db₁.rows db₁.refs d.refs) (sym is)
                (add_references-Refers sha256 store_dir r.id [] db₁ db₁
                  (add_references-nil r.id db₁)))
      with_references db₁ w (p ∷ ps) e k =
          let (referrer, found, k₁) =
            >>!-eq-done (query_valid_path_id sha256 store_dir db₁ info.path) _ k in
          carried db₁ w (add_references_keep referrer (p ∷ ps) db₁ db' k₁) λ r row. rw e (
            subst (λ i. Refers store_dir i (p ∷ ps) db₁.rows db₁.refs db'.refs)
              (query_valid_path_id-row db₁ info.path r referrer row found)
              (add_references-Refers sha256 store_dir referrer (p ∷ ps) db₁ db' k₁))
