-- ===== src/Store/Prefix/Order.antt =====
-- The rows that start with a prefix are one run in the order of the paths.
use archinix.Base.{
  ◌≡◌, refl, ap, sym, ◌∙◌, inl, inr, Bool, true, false, ◌||◌, List, [], ◌∷◌, ◌++◌, ltb, ◌==◌,
  if◌then◌else◌, Bool-cases, length, All, Bytes, arith,
}
use archinix.Store.Schema.{Db, StoreError, failed}
use archinix.Store.Paths.{lift, parse_all}
use archinix.Store.Collect.{starts_with}
use archinix.Store.Prefix.{
  at_most, insert_sorted, sort_paths, keep, row_paths, paths_from, take_run,
  query_paths_by_hash_prefix,
}

at_most_trans : (s t u : Bytes) → at_most s t ≡ true → at_most t u ≡ true → at_most s u ≡ true
unfolding at_most
at_most_trans [] t u h k = refl
at_most_trans (c ∷ s) [] u h k = absurd cc
at_most_trans (c ∷ s) (d ∷ t) [] h k = absurd cc
at_most_trans (c ∷ s) (d ∷ t) (e ∷ u) h k = let ih = at_most_trans s t u in grind arith

at_most_total : (s t : Bytes) → at_most s t ≡ false → at_most t s ≡ true
unfolding at_most
at_most_total [] t h = absurd cc
at_most_total (c ∷ s) [] h = refl
at_most_total (c ∷ s) (d ∷ t) h = let ih = at_most_total s t in grind arith

starts_with-at_most : (p s : Bytes) → starts_with p s ≡ true → at_most p s ≡ true
unfolding starts_with at_most
starts_with-at_most [] s h = refl
starts_with-at_most (c ∷ p) [] h = absurd cc
starts_with-at_most (c ∷ p) (d ∷ s) h = let ih = starts_with-at_most p s in grind arith

-- Past the prefix, no later path starts with it.
starts_with_later :
    (p s t : Bytes)
    → at_most p s ≡ true
    → starts_with p s ≡ false
    → at_most s t ≡ true
    → starts_with p t ≡ false
unfolding starts_with at_most
starts_with_later [] s t a n b = absurd cc
starts_with_later (c ∷ p) [] t a n b = absurd cc
starts_with_later (c ∷ p) (d ∷ s) [] a n b = absurd cc
starts_with_later (c ∷ p) (d ∷ s) (e ∷ t) a n b = let ih = starts_with_later p s t in grind arith

abbrev IsSorted : List Bytes → Type 0
IsSorted [] = Unit
IsSorted (p ∷ ps) = All (λ q. at_most p q ≡ true) ps × IsSorted ps

above_trans :
    (p q : Bytes) (ps : List Bytes)
    → at_most p q ≡ true
    → All (λ x. at_most q x ≡ true) ps
    → All (λ x. at_most p x ≡ true) ps
above_trans p q [] le h = tt
above_trans p q (x ∷ ps) le (hx, h) = (at_most_trans p q x le hx, above_trans p q ps le h)

above-insert_sorted :
    (p q : Bytes) (ps : List Bytes)
    → at_most q p ≡ true
    → All (λ x. at_most q x ≡ true) ps
    → All (λ x. at_most q x ≡ true) (insert_sorted p ps)
unfolding insert_sorted
above-insert_sorted p q [] le h = (le, tt)
above-insert_sorted p q (x ∷ ps) le (hx, h) = elim (Bool-cases (at_most p x)) [
  | inl e ↦ rw e (le, (hx, h))
  | inr e ↦ rw e (hx, above-insert_sorted p q ps le h)
]

insert_sorted-IsSorted : (p : Bytes) (ps : List Bytes) → IsSorted ps → IsSorted (insert_sorted p ps)
unfolding insert_sorted
insert_sorted-IsSorted p [] h = (tt, tt)
insert_sorted-IsSorted p (q ∷ ps) (above, h) = elim (Bool-cases (at_most p q)) [
  | inl e ↦ rw e ((e, above_trans p q ps e above), (above, h))
  | inr e ↦
      rw e (above-insert_sorted p q ps (at_most_total p q e) above, insert_sorted-IsSorted p ps h)
]

sort_paths-IsSorted : (ps : List Bytes) → IsSorted (sort_paths ps)
unfolding sort_paths
sort_paths-IsSorted [] = tt
sort_paths-IsSorted (p ∷ ps) = insert_sorted-IsSorted p (sort_paths ps) (sort_paths-IsSorted ps)

insert_sorted-front :
    (p : Bytes) (ps : List Bytes) → All (λ x. at_most p x ≡ true) ps → insert_sorted p ps ≡ p ∷ ps
unfolding insert_sorted
insert_sorted-front p [] h = refl
insert_sorted-front p (q ∷ ps) (hq, h) = rw hq refl

module _ (test : Bytes → Bool) where
  above-keep :
      (p : Bytes) (ps : List Bytes)
      → All (λ x. at_most p x ≡ true) ps
      → All (λ x. at_most p x ≡ true) (keep test ps)
  unfolding keep
  above-keep p [] h = tt
  above-keep p (q ∷ ps) (hq, h) = elim (Bool-cases (test q)) [
    | inl e ↦ rw e (hq, above-keep p ps h)
    | inr e ↦ rw e (above-keep p ps h)
  ]

  keep-insert_sorted :
      (p : Bytes) (ps : List Bytes)
      → IsSorted ps
      → keep test (insert_sorted p ps)
        ≡ (if test p then insert_sorted p (keep test ps) else keep test ps)
  unfolding insert_sorted keep
  keep-insert_sorted p [] h = refl
  keep-insert_sorted p (q ∷ ps) (above, h) = elim (Bool-cases (at_most p q)) [
    | inl e ↦
        let first =
          insert_sorted-front p (keep test (q ∷ ps))
            (above-keep p (q ∷ ps) (e, above_trans p q ps e above)) in
        rw e (elim (Bool-cases (test p)) [ inl k ↦ rw (k, first) refl | inr k ↦ rw k refl ])
    | inr e ↦ let ih = keep-insert_sorted p ps h in grind arith
  ]

  keep-sort_paths : (ps : List Bytes) → keep test (sort_paths ps) ≡ sort_paths (keep test ps)
  unfolding sort_paths keep
  keep-sort_paths [] = refl
  keep-sort_paths (p ∷ ps) =
      let ih = keep-sort_paths ps in
      let step = keep-insert_sorted p (sort_paths ps) (sort_paths-IsSorted ps) in grind arith

keep-keep :
    (prefix : Bytes) (ps : List Bytes)
    → keep (starts_with prefix) (keep (at_most prefix) ps) ≡ keep (starts_with prefix) ps
unfolding keep
keep-keep prefix [] = refl
keep-keep prefix (p ∷ ps) =
    let ih = keep-keep prefix ps in let le = starts_with-at_most prefix p in grind arith

keep-none :
    (prefix p : Bytes) (ps : List Bytes)
    → at_most prefix p ≡ true
    → starts_with prefix p ≡ false
    → All (λ q. at_most p q ≡ true) ps
    → keep (starts_with prefix) ps ≡ []
unfolding keep
keep-none prefix p [] le out h = refl
keep-none prefix p (q ∷ ps) le out (hq, h) =
    rw (starts_with_later prefix p q le out hq) (keep-none prefix p ps le out h)

take_run-keep :
    (prefix : Bytes) (ps : List Bytes)
    → IsSorted ps
    → All (λ p. at_most prefix p ≡ true) ps
    → take_run prefix ps ≡ keep (starts_with prefix) ps
unfolding take_run keep
take_run-keep prefix [] s h = refl
take_run-keep prefix (p ∷ ps) (above, s) (hp, h) = elim (Bool-cases (starts_with prefix p)) [
  | inl e ↦ rw e (ap (λ qs. p ∷ qs) (take_run-keep prefix ps s h))
  | inr e ↦ rw e (sym (keep-none prefix p ps hp e above))
]

keep-holds : (test : Bytes → Bool) (ps : List Bytes) → All (λ p. test p ≡ true) (keep test ps)
unfolding keep
keep-holds test [] = tt
keep-holds test (p ∷ ps) = elim (Bool-cases (test p)) [
  | inl e ↦ rw e (e, keep-holds test ps)
  | inr e ↦ rw e (keep-holds test ps)
]

All-sort_paths :
    (q : Bytes) (ps : List Bytes)
    → All (λ x. at_most q x ≡ true) ps
    → All (λ x. at_most q x ≡ true) (sort_paths ps)
unfolding sort_paths
All-sort_paths q [] h = tt
All-sort_paths q (p ∷ ps) (hp, h) =
    above-insert_sorted p q (sort_paths ps) hp (All-sort_paths q ps h)

take_run-paths :
    (prefix : Bytes) (ps : List Bytes)
    → take_run prefix (sort_paths (keep (at_most prefix) ps))
      ≡ sort_paths (keep (starts_with prefix) ps)
take_run-paths prefix ps =
    take_run-keep prefix (sort_paths (keep (at_most prefix) ps))
      (sort_paths-IsSorted (keep (at_most prefix) ps))
      (All-sort_paths prefix (keep (at_most prefix) ps) (keep-holds (at_most prefix) ps))
    ∙ keep-sort_paths (starts_with prefix) (keep (at_most prefix) ps)
    ∙ ap sort_paths (keep-keep prefix ps)

-- For a hash prefix of 1 to 32 characters, `queryPathsByHashPrefix` reads, in their order, the paths
-- of all the rows that start with the store directory, a slash and the prefix: the loop that stops
-- at the first other row misses none. An empty or longer prefix is an error.
pub query_paths_by_hash_prefix-keep :
    (store_dir : Bytes) (db : Db) (hash_prefix : Bytes)
    → query_paths_by_hash_prefix store_dir db hash_prefix ≡ (
        if length hash_prefix == 0 || ltb 32 (length hash_prefix)
        then failed StoreError.invalid_hash_prefix
        else lift (
            parse_all store_dir (
              sort_paths
                (keep (starts_with (store_dir ++ b'/' ∷ hash_prefix)) (row_paths db.rows)))))
unfolding query_paths_by_hash_prefix paths_from
query_paths_by_hash_prefix-keep store_dir db hash_prefix =
    rw (take_run-paths (store_dir ++ b'/' ∷ hash_prefix) (row_paths db.rows)) refl
