-- ===== src/Store/Delete.antt =====
-- `delete from ValidPaths` with the trigger and the foreign keys of src/libstore/schema.sql.
use mathlib.Core.Path.{subst}
use archinix.Base.{
  ℕ, ◌≡◌, refl, sym, ◌∙◌, ◌≢◌, inl, inr, true, false, none, some, List, [], ◌∷◌, arith, ◌==◌,
  Bool-cases, Option-cases, Bytes, eqb, eqb→eq,
}
use archinix.Store.Schema.{
  Row, Db, done, find_row, has_id, remove_pair, is_referred, remove_referrer, remove_row,
  delete_row,
}
use archinix.Store.Invariant.{
  AreUnique, AreRows, AreBelow, IsConsistent, AreRows-remove_pair, done_is, failed-ne,
}

find_row-remove_row-none :
    (p q : Bytes) (rows : List Row) → find_row q rows ≡ none → find_row q (remove_row p rows) ≡ none
unfolding find_row remove_row
find_row-remove_row-none p q [] h = refl
find_row-remove_row-none p q (r ∷ rs) h = ground (arith, find_row-remove_row-none p q rs)

has_id-remove_row-false :
    (p : Bytes) (i : ℕ) (rows : List Row)
    → has_id i rows ≡ false
    → has_id i (remove_row p rows) ≡ false
unfolding has_id remove_row
has_id-remove_row-false p i [] h = refl
has_id-remove_row-false p i (r ∷ rs) h = ground (arith, has_id-remove_row-false p i rs)

AreUnique-remove_row :
    (p : Bytes) (rows : List Row) → AreUnique rows → AreUnique (remove_row p rows)
unfolding remove_row
AreUnique-remove_row p [] h = tt
AreUnique-remove_row p (r ∷ rs) (u, v, w) = elim (Bool-cases (eqb r.path p)) [
  | inl e ↦ rw e (AreUnique-remove_row p rs w)
  | inr e ↦ rw e (
    find_row-remove_row-none p r.path rs u,
    has_id-remove_row-false p r.id rs v,
    AreUnique-remove_row p rs w,
  )
]

AreBelow-remove_row :
    (p : Bytes) (n : ℕ) (rows : List Row) → AreBelow n rows → AreBelow n (remove_row p rows)
unfolding remove_row
AreBelow-remove_row p n [] h = tt
AreBelow-remove_row p n (r ∷ rs) (u, w) = elim (Bool-cases (eqb r.path p)) [
  | inl e ↦ rw e (AreBelow-remove_row p n rs w)
  | inr e ↦ rw e (u, AreBelow-remove_row p n rs w)
]

remove_row_absent :
    (p : Bytes) (rows : List Row) → find_row p rows ≡ none → remove_row p rows ≡ rows
unfolding find_row remove_row
remove_row_absent p [] h = refl
remove_row_absent p (r ∷ rs) h = ground (arith, remove_row_absent p rs)

-- The other rows keep their ids.
has_id-remove_row :
    (p : Bytes) (i : ℕ) (rows : List Row) (r : Row)
    → AreUnique rows
    → find_row p rows ≡ some r
    → (r.id == i) ≡ false
    → has_id i rows ≡ true
    → has_id i (remove_row p rows) ≡ true
unfolding has_id remove_row find_row
has_id-remove_row p i [] r u f ne h = cc
has_id-remove_row p i (q ∷ rs) r (u, v, w) f ne h = elim (Bool-cases (eqb q.path p)) [
  | inl e ↦ rw e (
      let gone : find_row p rs ≡ none = rw (eqb→eq q.path p e) at u in
      rw (remove_row_absent p rs gone) (ground (arith, f, e)))
  | inr e ↦ rw e (ground (arith, has_id-remove_row p i rs r w (rw e at f) ne))
]

-- The row is gone, and the rows of other paths are as they were.
pub find_row-remove_row : (p : Bytes) (rows : List Row) → find_row p (remove_row p rows) ≡ none
unfolding find_row remove_row
find_row-remove_row p [] = refl
find_row-remove_row p (r ∷ rs) = elim (Bool-cases (eqb r.path p)) [
  | inl e ↦ rw e (find_row-remove_row p rs)
  | inr e ↦ rw e (rw e (find_row-remove_row p rs))
]

pub find_row-remove_row_other :
    (p q : Bytes) (rows : List Row) → p ≢ q → find_row q (remove_row p rows) ≡ find_row q rows
unfolding find_row remove_row
find_row-remove_row_other p q [] ne = refl
find_row-remove_row_other p q (r ∷ rs) ne = elim (Bool-cases (eqb r.path p)) [
  | inl e ↦ rw e (elim (Bool-cases (eqb r.path q)) [
    | inl g ↦ absurd (ne (sym (eqb→eq r.path p e) ∙ eqb→eq r.path q g))
    | inr g ↦ rw g (find_row-remove_row_other p q rs ne)
  ])
  | inr e ↦ rw e (ground (arith, find_row-remove_row_other p q rs ne))
]

AreRows-remove_row :
    (p : Bytes) (rows : List Row) (r : Row) (refs : List (ℕ × ℕ))
    → AreUnique rows
    → find_row p rows ≡ some r
    → is_referred r.id refs ≡ false
    → AreRows rows refs
    → AreRows (remove_row p rows) (remove_referrer r.id refs)
unfolding is_referred remove_referrer
AreRows-remove_row p rows r [] u f n h = tt
AreRows-remove_row p rows r ((x, y) ∷ refs) u f n (hx, hy, h) = elim (Bool-cases (x == r.id)) [
  | inl e ↦ rw e (AreRows-remove_row p rows r refs u f (ground arith) h)
  | inr e ↦ rw e (
    has_id-remove_row p x rows r u f (ground arith) hx,
    has_id-remove_row p y rows r u f (ground arith) hy,
    AreRows-remove_row p rows r refs u f (ground arith) h,
  )
]

pub delete_row-IsConsistent :
    (db db' : Db) (p : Bytes) → IsConsistent db → delete_row db p ≡ done db' → IsConsistent db'
unfolding delete_row
delete_row-IsConsistent db db' p c h = elim (Option-cases (find_row p db.rows)) [
  | inl e ↦ subst IsConsistent (done_is (rw (e, delete_row) at h)) c
  | inr (r, e) ↦ elim (Bool-cases (is_referred r.id (remove_pair r.id r.id db.refs))) [
    | inl g ↦ failed-ne (rw g at (rw (e, delete_row) at h))
    | inr g ↦ subst IsConsistent (done_is (rw g at (rw (e, delete_row) at h))) (record {
      unique = AreUnique-remove_row p db.rows c.unique;
      below = AreBelow-remove_row p db.last_id db.rows c.below;
      joined =
          AreRows-remove_row p db.rows r _ c.unique e g
            (AreRows-remove_pair db.rows r.id r.id db.refs c.joined);
    })
  ]
]
