-- ===== src/Store/References.antt =====
-- The table of references after `registerValidPath` of src/libstore/local-store.cc.
use archinix.Base.{
  ℕ, ◌≡◌, refl, sym, ap, ◌∙◌, ◌⊎◌, inl, inr, Bool, true, false, ◌&&◌, ◌||◌, some, List, [], ◌∷◌,
  arith, ◌==◌, Bool-cases, Option-cases, Bytes, eqb, eqb_refl, eqb→eq,
}
use mathlib.Core.Path.{subst}
use archinix.StorePath.{print_store_path}
use archinix.Store.Schema.{
  Row, Db, Outcome, done, >>!-eq-done, find_row, has_id, remove_pair, add_reference,
}
use archinix.Store.Invariant.{done_is, failed-ne}
use archinix.Store.Invalidate.{contains_path}
use archinix.Store.Paths.{query_valid_path_id, add_references}

-- Whether a pair is in the table of references.
unfoldable pub has_pair : ℕ → ℕ → List (ℕ × ℕ) → Bool
has_pair a b [] = false
has_pair a b ((x, y) ∷ refs) = (x == a && y == b) || has_pair a b refs

has_pair-remove_pair :
    (a b x y : ℕ) (refs : List (ℕ × ℕ))
    → has_pair x y ((a, b) ∷ remove_pair a b refs) ≡ has_pair x y ((a, b) ∷ refs)
unfolding has_pair remove_pair
has_pair-remove_pair a b x y [] = refl
has_pair-remove_pair a b x y ((c, d) ∷ refs) = ground (arith, has_pair-remove_pair a b x y refs)

-- The row of a path that is referred to.
abbrev Target : Bytes → List Row → Bytes → ℕ → Type 0
Target store_dir rows q y =
    (t : Row) × (find_row (print_store_path store_dir q) rows ≡ some t) × (y ≡ t.id)

-- The new pairs are those of the referrer with the paths of a list, and no pair is lost.
pub record Refers (store_dir : Bytes) (referrer : ℕ) (ps : List Bytes) (rows : List Row)
    (old new : List (ℕ × ℕ)) : Type 0 where
  pub kept : (x y : ℕ) → has_pair x y old ≡ true → has_pair x y new ≡ true
  pub added :
      (q : Bytes)
      → contains_path q ps ≡ true
      → (y : ℕ) × Target store_dir rows q y × (has_pair referrer y new ≡ true)
  pub only :
      (x y : ℕ)
      → has_pair x y new ≡ true
      → (has_pair x y old ≡ true)
        ⊎ ((x ≡ referrer) × ((q : Bytes) × (contains_path q ps ≡ true) × Target store_dir rows q y))

pub id_is : {i j : ℕ} → ◌≡◌ {A = Outcome ℕ} (done i) (done j) → i ≡ j
id_is h = cc

-- What one statement does.
add_reference-pairs :
    (db db' : Db) (a b x y : ℕ)
    → add_reference db a b ≡ done db'
    → (db'.rows ≡ db.rows) × (has_pair x y db'.refs ≡ has_pair x y ((a, b) ∷ db.refs))
unfolding add_reference
add_reference-pairs db db' a b x y h = elim (Bool-cases (has_id a db.rows && has_id b db.rows)) [
  | inl e ↦
      let is = done_is (rw e at h) in
      (
        ap (λ (d : Db). d.rows) (sym is),
        ap (λ (d : Db). has_pair x y d.refs) (sym is) ∙ has_pair-remove_pair a b x y db.refs,
      )
  | inr e ↦ failed-ne (rw e at h)
]

pair_of :
    (a b x y : ℕ) (refs : List (ℕ × ℕ))
    → has_pair x y ((a, b) ∷ refs) ≡ true
    → ((x ≡ a) × (y ≡ b)) ⊎ (has_pair x y refs ≡ true)
unfolding has_pair
pair_of a b x y refs h = ground arith

pair_behind :
    (a b x y : ℕ) (refs : List (ℕ × ℕ))
    → has_pair x y refs ≡ true
    → has_pair x y ((a, b) ∷ refs) ≡ true
unfolding has_pair
pair_behind a b x y refs h = ground arith

pair_first : (a b : ℕ) (refs : List (ℕ × ℕ)) → has_pair a b ((a, b) ∷ refs) ≡ true
unfolding has_pair
pair_first a b refs = ground arith

contains_path-cons :
    (q p : Bytes) (ps : List Bytes)
    → contains_path q (p ∷ ps) ≡ true
    → (p ≡ q) ⊎ (contains_path q ps ≡ true)
unfolding contains_path
contains_path-cons q p ps h = elim (Bool-cases (eqb p q)) [
  | inl e ↦ inl (eqb→eq p q e)
  | inr e ↦ inr (rw e at h)
]

contains_path-behind :
    (q p : Bytes) (ps : List Bytes) → contains_path q ps ≡ true → contains_path q (p ∷ ps) ≡ true
unfolding contains_path
contains_path-behind q p ps h = ground arith

contains_path-first : (p : Bytes) (ps : List Bytes) → contains_path p (p ∷ ps) ≡ true
unfolding contains_path
contains_path-first p ps = rw (eqb_refl p) refl

module _ (sha256 : Bytes → Bytes) (store_dir : Bytes) where
  query_valid_path_id-Target :
      (db : Db) (p : Bytes) (i : ℕ)
      → query_valid_path_id sha256 store_dir db p ≡ done i
      → Target store_dir db.rows p i
  unfolding query_valid_path_id
  query_valid_path_id-Target db p i h =
      elim (Option-cases (find_row (print_store_path store_dir p) db.rows)) [
        | inl e ↦ absurd (let bad = rw (e, query_valid_path_id) at h in cc)
        | inr (t, e) ↦ (t, e, sym (id_is (rw (e, query_valid_path_id) at h)))
      ]

  -- The loop over the references.
  pub add_references-Refers :
      (referrer : ℕ) (ps : List Bytes) (db db' : Db)
      → add_references sha256 store_dir referrer ps db ≡ done db'
      → Refers store_dir referrer ps db.rows db.refs db'.refs
  unfolding add_references contains_path
  add_references-Refers referrer [] db db' h =
      let is = done_is h in
      record {
        kept = λ x y e. subst (λ (d : Db). has_pair x y d.refs ≡ true) is e;
        added = λ q e. absurd cc;
        only = λ x y e. inl (subst (λ (d : Db). has_pair x y d.refs ≡ true) (sym is) e);
      }
  add_references-Refers referrer (p ∷ ps) db db' h =
      let (reference, found, k₁) = >>!-eq-done (query_valid_path_id sha256 store_dir db p) _ h in
      let (db₁, inserted, k₂) = >>!-eq-done (add_reference db referrer reference) _ k₁ in
      let target = query_valid_path_id-Target db p reference found in
      let rest : Refers store_dir referrer ps db.rows db₁.refs db'.refs =
        subst (λ rows. Refers store_dir referrer ps rows db₁.refs db'.refs)
          (add_reference-pairs db db₁ referrer reference 0 0 inserted).0
          (add_references-Refers referrer ps db₁ db' k₂) in
      let pairs = λ (x y : ℕ). (add_reference-pairs db db₁ referrer reference x y inserted).1 in
      record {
        kept = λ x y e. rest.kept x y (pairs x y ∙ pair_behind referrer reference x y db.refs e);
        added = λ q e. elim (contains_path-cons q p ps e) [
          | inl same ↦ (
            reference,
            subst (λ q. Target store_dir db.rows q reference) same target,
            rest.kept referrer reference
                (pairs referrer reference ∙ pair_first referrer reference db.refs),
          )
          | inr there ↦ rest.added q there
        ];
        only = λ x y e. elim (rest.only x y e) [
          | inr (is, (q, there, at)) ↦ inr (is, (q, contains_path-behind q p ps there, at))
          | inl before ↦ elim (pair_of referrer reference x y db.refs (sym (pairs x y) ∙ before)) [
            | inr old ↦ inl old
            | inl (is, is_reference) ↦ inr (
              is,
              (
                p,
                contains_path-first p ps,
                subst (λ y. Target store_dir db.rows p y) (sym is_reference) target,
              ),
            )
          ]
        ];
      }
