-- ===== src/Store/Invariant.antt =====
-- What the tables of src/libstore/schema.sql keep under the statements of src/libstore/local-store.cc.
use archinix.Base.{
  ℕ, suc, ◌≤◌, ◌<◌, ◌≡◌, refl, ◌∙◌, inl, inr, true, false, ◌&&◌, Option, none, List, [], ◌∷◌, arith,
  ◌==◌, Bool-cases, and-true, Option-cases, Bytes, eqb,
}
use mathlib.Core.Path.{subst}
use archinix.Store.Schema.{
  Row, Db, StoreError, done, failed, find_row, has_id, insert_row, update_rows, remove_pair,
  add_reference,
}

-- No path and no id stands in two rows.
abbrev pub AreUnique : List Row → Type 0
AreUnique [] = Unit {0}
AreUnique (r ∷ rs) = (find_row r.path rs ≡ none) × (has_id r.id rs ≡ false) × AreUnique rs

-- Both ends of a reference are rows.
abbrev pub AreRows : List Row → List (ℕ × ℕ) → Type 0
AreRows rows [] = Unit {0}
AreRows rows ((x, y) ∷ refs) = (has_id x rows ≡ true) × (has_id y rows ≡ true) × AreRows rows refs

abbrev pub AreBelow : ℕ → List Row → Type 0
AreBelow n [] = Unit {0}
AreBelow n (r ∷ rs) = (r.id ≤ n) × AreBelow n rs

pub record IsConsistent (db : Db) : Type 0 where
  pub unique : AreUnique db.rows
  pub below : AreBelow db.last_id db.rows
  pub joined : AreRows db.rows db.refs

AreBelow-suc : (n : ℕ) (rows : List Row) → AreBelow n rows → AreBelow (suc n) rows
AreBelow-suc n [] h = tt
AreBelow-suc n (r ∷ rs) h = (omega arith, AreBelow-suc n rs h.1)

pub has_id-fresh : (n i : ℕ) (rows : List Row) → AreBelow n rows → n < i → has_id i rows ≡ false
unfolding has_id
has_id-fresh n i [] h l = refl
has_id-fresh n i (r ∷ rs) h l = ground (arith, has_id-fresh n i rs h.1 l)

AreRows-cons :
    (r : Row) (rows : List Row) (refs : List (ℕ × ℕ)) → AreRows rows refs → AreRows (r ∷ rows) refs
unfolding has_id
AreRows-cons r rows [] h = tt
AreRows-cons r rows ((x, y) ∷ refs) h = (ground arith, ground arith, AreRows-cons r rows refs h.2)

pub done_is : {a b : Db} → done a ≡ done b → a ≡ b
done_is h = cc

pub failed-ne {κ} : {C : Type κ} {e : StoreError} {b : Db} → failed e ≡ done b → C
failed-ne h = absurd (cc)

pub insert_row-IsConsistent :
    (db db' : Db) (p hash : Bytes) (time : ℕ) (size : Option ℕ) (ca : Option Bytes)
    → IsConsistent db
    → insert_row db p hash time size ca ≡ done db'
    → IsConsistent db'
unfolding insert_row
insert_row-IsConsistent db db' p hash time size ca c h = elim (Option-cases (find_row p db.rows)) [
  | inl e ↦ subst IsConsistent (done_is (rw (e, insert_row) at h)) (record {
    unique = (e, has_id-fresh db.last_id (suc db.last_id) db.rows c.below (omega arith), c.unique);
    below = (omega arith, AreBelow-suc db.last_id db.rows c.below);
    joined = AreRows-cons _ db.rows db.refs c.joined;
  })
  | inr (r, e) ↦ failed-ne (rw (e, insert_row) at h)
]

module _ (size : Option ℕ) (hash : Bytes) (ca : Option Bytes) (p : Bytes) where
  has_id-update_rows :
      (i : ℕ) (rows : List Row) → has_id i (update_rows rows size hash ca p) ≡ has_id i rows
  unfolding has_id update_rows
  has_id-update_rows i [] = refl
  has_id-update_rows i (r ∷ rs) = ground (arith, has_id-update_rows i rs)

  find_row-update_rows-none :
      (q : Bytes) (rows : List Row)
      → find_row q rows ≡ none
      → find_row q (update_rows rows size hash ca p) ≡ none
  unfolding find_row update_rows
  find_row-update_rows-none q [] h = refl
  find_row-update_rows-none q (r ∷ rs) h = ground (arith, find_row-update_rows-none q rs)

  AreUnique-update_rows :
      (rows : List Row) → AreUnique rows → AreUnique (update_rows rows size hash ca p)
  unfolding update_rows
  AreUnique-update_rows [] h = tt
  AreUnique-update_rows (r ∷ rs) (u, v, w) = elim (Bool-cases (eqb r.path p)) [
    | inl e ↦ rw e (
      find_row-update_rows-none r.path rs u,
      has_id-update_rows r.id rs ∙ v,
      AreUnique-update_rows rs w,
    )
    | inr e ↦ rw e (
      find_row-update_rows-none r.path rs u,
      has_id-update_rows r.id rs ∙ v,
      AreUnique-update_rows rs w,
    )
  ]

  AreBelow-update_rows :
      (n : ℕ) (rows : List Row) → AreBelow n rows → AreBelow n (update_rows rows size hash ca p)
  unfolding update_rows
  AreBelow-update_rows n [] h = tt
  AreBelow-update_rows n (r ∷ rs) (u, w) = elim (Bool-cases (eqb r.path p)) [
    | inl e ↦ rw e (u, AreBelow-update_rows n rs w)
    | inr e ↦ rw e (u, AreBelow-update_rows n rs w)
  ]

AreRows-same :
    (rows rows' : List Row) (refs : List (ℕ × ℕ))
    → ((i : ℕ) → has_id i rows ≡ true → has_id i rows' ≡ true)
    → AreRows rows refs
    → AreRows rows' refs
AreRows-same rows rows' [] same h = tt
AreRows-same rows rows' ((x, y) ∷ refs) same (hx, hy, h) =
    (same x hx, same y hy, AreRows-same rows rows' refs same h)

pub update_rows-IsConsistent :
    (db : Db) (size : Option ℕ) (hash : Bytes) (ca : Option Bytes) (p : Bytes)
    → IsConsistent db
    → IsConsistent (record db { rows = update_rows db.rows size hash ca p })
update_rows-IsConsistent db size hash ca p c = record {
  unique = AreUnique-update_rows size hash ca p db.rows c.unique;
  below = AreBelow-update_rows size hash ca p db.last_id db.rows c.below;
  joined =
      AreRows-same db.rows _ db.refs (λ i h. has_id-update_rows size hash ca p i db.rows ∙ h)
        c.joined;
}

pub AreRows-remove_pair :
    (rows : List Row) (a b : ℕ) (refs : List (ℕ × ℕ))
    → AreRows rows refs
    → AreRows rows (remove_pair a b refs)
unfolding remove_pair
AreRows-remove_pair rows a b [] h = tt
AreRows-remove_pair rows a b ((x, y) ∷ refs) (hx, hy, h) = elim (Bool-cases (x == a && y == b)) [
  | inl e ↦ rw e (AreRows-remove_pair rows a b refs h)
  | inr e ↦ rw e (hx, hy, AreRows-remove_pair rows a b refs h)
]

pub add_reference-IsConsistent :
    (db db' : Db) (a b : ℕ) → IsConsistent db → add_reference db a b ≡ done db' → IsConsistent db'
unfolding add_reference
add_reference-IsConsistent db db' a b c h =
    elim (Bool-cases (has_id a db.rows && has_id b db.rows)) [
      | inl e ↦
          let (ha, hb) = and-true _ _ e in
          subst IsConsistent (done_is (rw e at h)) (record {
            unique = c.unique;
            below = c.below;
            joined = (ha, hb, AreRows-remove_pair db.rows a b db.refs c.joined);
          })
      | inr e ↦ failed-ne (rw e at h)
    ]
