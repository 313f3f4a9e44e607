-- ===== src/Store/Rows.antt =====
-- The rows that the statements of src/libstore/local-store.cc write, and those that they leave alone.
use archinix.Base.{
  ℕ, suc, ◌≡◌, refl, sym, ap, ◌∙◌, ◌≢◌, inl, inr, ◌&&◌, Option, some, List, [], ◌∷◌, arith,
  Bool-cases, Option-cases, Bytes, eqb, eqb_refl, eqb→eq,
}
use archinix.Store.Schema.{Row, Db, done, find_row, has_id, insert_row, update_rows, add_reference}
use archinix.Store.Invariant.{done_is, failed-ne}

pub find_row-path : (p : Bytes) (rows : List Row) (r : Row) → find_row p rows ≡ some r → r.path ≡ p
unfolding find_row
find_row-path p [] r h = cc
find_row-path p (q ∷ rs) r h = elim (Bool-cases (eqb q.path p)) [
  | inl e ↦ ground (arith, h, e, eqb→eq q.path p)
  | inr e ↦ find_row-path p rs r (rw e at h)
]

pub insert_row_finds :
    (db db' : Db) (p hash : Bytes) (time : ℕ) (size : Option ℕ) (ca : Option Bytes)
    → insert_row db p hash time size ca ≡ done db'
    → (find_row p db'.rows
        ≡ some (record {
          id = suc db.last_id;
          path = p;
          hash = hash;
          registration_time = time;
          nar_size = size;
          ca = ca;
        }))
      × ((q : Bytes) → p ≢ q → find_row q db'.rows ≡ find_row q db.rows)
      × (db'.refs ≡ db.refs)
unfolding insert_row find_row
insert_row_finds db db' p hash time size ca h = elim (Option-cases (find_row p db.rows)) [
  | inl e ↦
      let is = done_is (rw (e, insert_row) at h) in
      (rw (← is) (rw (eqb_refl p) refl), (λ q ne. rw (← is) (skips q ne)), rw (← is) refl)
  | inr (r, e) ↦ failed-ne (rw (e, insert_row) at h)
]
  where
    skips :
        (q : Bytes)
        → p ≢ q
        → find_row q (
            record {
              id = suc db.last_id;
              path = p;
              hash = hash;
              registration_time = time;
              nar_size = size;
              ca = ca;
            }
            ∷ db.rows)
          ≡ find_row q db.rows
    skips q ne = ground (arith, eqb→eq p q)

pub find_row-update_rows :
    (rows : List Row) (size : Option ℕ) (hash : Bytes) (ca : Option Bytes) (p : Bytes) (r : Row)
    → find_row p rows ≡ some r
    → find_row p (update_rows rows size hash ca p)
      ≡ some (record r { hash = hash; nar_size = size; ca = ca })
unfolding find_row update_rows
find_row-update_rows [] size hash ca p r h = cc
find_row-update_rows (q ∷ rs) size hash ca p r h = elim (Bool-cases (eqb q.path p)) [
  | inl e ↦ rw e (rw e (ground (arith, h, e)))
  | inr e ↦ rw e (rw e (find_row-update_rows rs size hash ca p r (rw e at h)))
]

pub find_row-update_rows_other :
    (rows : List Row) (size : Option ℕ) (hash : Bytes) (ca : Option Bytes) (p q : Bytes)
    → p ≢ q
    → find_row q (update_rows rows size hash ca p) ≡ find_row q rows
unfolding find_row update_rows
find_row-update_rows_other [] size hash ca p q ne = refl
find_row-update_rows_other (r ∷ rs) size hash ca p q ne = elim (Bool-cases (eqb r.path p)) [
  | inl e ↦ elim (Bool-cases (eqb r.path q)) [
    | inl g ↦ absurd (ne (sym (eqb→eq r.path p e) ∙ eqb→eq r.path q g))
    | inr g ↦ rw e (rw g (find_row-update_rows_other rs size hash ca p q ne))
  ]
  | inr e ↦ rw e (ground (arith, find_row-update_rows_other rs size hash ca p q ne))
]

pub add_reference_rows :
    (db db' : Db) (a b : ℕ) → add_reference db a b ≡ done db' → db'.rows ≡ db.rows
unfolding add_reference
add_reference_rows db db' a b h = elim (Bool-cases (has_id a db.rows && has_id b db.rows)) [
  | inl e ↦ ap (λ (d : Db). d.rows) (sym (done_is (rw e at h)))
  | inr e ↦ failed-ne (rw e at h)
]
