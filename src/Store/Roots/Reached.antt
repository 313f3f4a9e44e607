-- ===== src/Store/Roots/Reached.antt =====
-- What `findRoots` of src/libstore/gc.cc finds, and what the collection spares.
use archinix.Base.{
  ℕ, ◌≡◌, refl, sym, ap, ◌∙◌, ◌⊎◌, ◌↔◌, inl, inr, Bool, true, ◌||◌, none, some, List, [], ◌∷◌,
  arith, Bool-cases, Option-cases, Bytes, eqb, eqb_refl, eqb→eq, Result, ok, err,
}
use archinix.StorePath.{print_store_path}
use archinix.Store.Schema.{Db, find_row}
use archinix.Store.Paths.{is_valid_path}
use archinix.Store.Invalidate.{contains_path}
use archinix.Store.Collect.{World, insert_path}
use archinix.Store.Collect.Safety.{collect_garbage-root}
use archinix.Store.Roots.{
  Place, directory, link, plain, failing, Entries, end, fails, entry, Failure, permission_denied,
  no_such_file, not_a_directory, other_failure, Found, found, handle, is_in_store, to_store_path,
  is_bad_store_path, after_read, find_link, find_roots, find_entries, collect_named,
}

-- A link with a target somewhere in a tree.
abbrev mutual
  pub Shows : Bytes → Place → Type 0
  Shows target (directory entries) = ShowsIn target entries
  Shows target (link t) = t ≡ target
  Shows target plain = ⊥
  Shows target (failing e) = ⊥

  pub ShowsIn : Bytes → Entries → Type 0
  ShowsIn target end = ⊥
  ShowsIn target (fails e) = ⊥
  ShowsIn target (entry p entries) = Shows target p ⊎ ShowsIn target entries

contains_path-insert_path :
    (p q : Bytes) (ps : List Bytes)
    → contains_path q (insert_path p ps) ≡ (eqb p q || contains_path q ps)
unfolding insert_path contains_path
contains_path-insert_path p q ps = elim (Bool-cases (contains_path p ps)) [
  | inr e ↦ rw e refl
  | inl e ↦ elim (Bool-cases (eqb p q)) [
    | inl k ↦ rw (e, k) (rw (← eqb→eq p q k) e)
    | inr k ↦ rw (e, k) refl
  ]
]

handle-roots :
    (e : Failure) (roots : List Bytes)
    → (handle e roots).failure ≡ none
    → (handle e roots).roots ≡ roots
handle-roots permission_denied roots h = refl
handle-roots no_such_file roots h = refl
handle-roots not_a_directory roots h = refl
handle-roots other_failure roots h = cc

module _ (sha256 : Bytes → Bytes) (store_dir : Bytes) (db : Db) where
  -- The path that a target names, where it is valid.
  abbrev pub IsRoot : Bytes → Bytes → Type 0
  IsRoot target p =
      (sub : Bytes) × (is_in_store sha256 store_dir target ≡ true)
      × (to_store_path sha256 store_dir target ≡ ok (p, sub))
      × (is_valid_path sha256 store_dir db p ≡ true)

  -- The roots are those that were there, and those that links name.
  abbrev Roots : (Bytes → Type 0) → List Bytes → Found → Type 0
  Roots shows roots f =
      f.failure ≡ none
      → (p : Bytes)
      → (contains_path p f.roots ≡ true)
        ↔ ((contains_path p roots ≡ true) ⊎ ((t : Bytes) × shows t × IsRoot t p))

  unchanged :
      (roots roots' : List Bytes) (shows : Bytes → Type 0)
      → ((t p : Bytes) → shows t → IsRoot t p → ⊥)
      → roots' ≡ roots
      → (p : Bytes)
      → (contains_path p roots' ≡ true)
        ↔ ((contains_path p roots ≡ true) ⊎ ((t : Bytes) × shows t × IsRoot t p))
  unchanged roots roots' shows no_more same p = (
    λ h. inl (rw (← same) h),
    λ h. elim h [ inl old ↦ rw same old | inr (t, s, r) ↦ absurd (no_more t p s r) ],
  )

  read_is : {a b c d : Bytes} → ◌≡◌ {A = Result (Bytes × Bytes)} (ok (a, b)) (ok (c, d)) → a ≡ c
  read_is h = cc

  -- An entry, then the others, unless the first throws.
  joined :
      (place : Place) (entries : Entries) (roots : List Bytes) (first : Found)
      → Roots (λ t. Shows t place) roots first
      → ((more : List Bytes)
          → Roots (λ t. ShowsIn t entries) more (find_entries sha256 store_dir db entries more))
      → Roots
          (λ t. Shows t place ⊎ ShowsIn t entries)
          roots
          (elim first.failure [
            | none ↦ find_entries sha256 store_dir db entries first.roots
            | some e ↦ first
          ])
  joined place entries roots first here there = elim (Option-cases first.failure) [
    | inr (e, is) ↦ rw is (λ h. absurd (let clash = sym is ∙ h in cc))
    | inl is ↦ rw is (λ h p.
        (let (to, from) = there first.roots h p in
          let (to_first, from_first) = here is p in
          (
            λ k. elim (to k) [
              | inr (t, s, r) ↦ inr (t, inr s, r)
              | inl old ↦ elim (to_first old) [
                | inl older ↦ inl older
                | inr (t, s, r) ↦ inr (t, inl s, r)
              ]
            ],
            λ k. elim k [
              | inl old ↦ from (inl (from_first (inl old)))
              | inr (t, inl s, r) ↦ from (inl (from_first (inr (t, s, r))))
              | inr (t, inr s, r) ↦ from (inr (t, s, r))
            ],
          )))
  ]

  module _ (target : Bytes) (roots : List Bytes) where
    after_read-Roots :
        (r : Result (Bytes × Bytes))
        → is_in_store sha256 store_dir target ≡ true
        → to_store_path sha256 store_dir target ≡ r
        → Roots (λ t. target ≡ t) roots (after_read sha256 store_dir db r roots)
    unfolding after_read
    after_read-Roots (ok (p, sub)) within is h q =
        elim (Bool-cases (is_valid_path sha256 store_dir db p)) [
          | inl e ↦
              rw (e, contains_path-insert_path p q roots)
                (
                  λ k. elim (Bool-cases (eqb p q)) [
                    | inl same ↦ inr (target, refl, rw (← eqb→eq p q same) (sub, within, is, e))
                    | inr other ↦ inl (rw other at k)
                  ],
                  λ k. elim k [
                    | inl old ↦ ground (arith, old)
                    | inr (t, same, (sub', _, is', _)) ↦
                        let named : p ≡ q =
                          read_is (sym is ∙ ap (to_store_path sha256 store_dir) same ∙ is') in
                        rw named (rw (eqb_refl q) refl)
                  ],
                )
          | inr e ↦ rw e (
              unchanged roots roots (λ t. target ≡ t)
                (λ t q same (sub', _, is', valid).
                  let named : p ≡ q =
                    read_is (sym is ∙ ap (to_store_path sha256 store_dir) same ∙ is') in
                  absurd (let clash = sym (rw named at e) ∙ valid in cc))
                refl q)
        ]
    after_read-Roots (err x) within is h q = elim (Bool-cases (is_bad_store_path x)) [
      | inl e ↦ rw e (
          unchanged roots roots (λ t. target ≡ t)
            (λ t q same (sub', _, is', valid).
              absurd (let clash = sym is ∙ ap (to_store_path sha256 store_dir) same ∙ is' in cc))
            refl q)
      | inr e ↦ absurd (let clash = rw e at h in cc)
    ]

    find_link-Roots : Roots (λ t. target ≡ t) roots (find_link sha256 store_dir db target roots)
    unfolding find_link
    find_link-Roots = elim (Bool-cases (is_in_store sha256 store_dir target)) [
      | inr e ↦ rw e λ h p.
          unchanged roots roots (λ t. target ≡ t)
            (λ t p same (sub, within, _, _).
              absurd (let clash = sym e ∙ ap (is_in_store sha256 store_dir) same ∙ within in cc))
            refl p
      | inl e ↦ rw e (after_read-Roots (to_store_path sha256 store_dir target) e refl)
    ]

  mutual
    unfolding find_roots

    find_roots-Roots :
        (place : Place) (roots : List Bytes)
        → Roots (λ t. Shows t place) roots (find_roots sha256 store_dir db place roots)
    find_roots-Roots (directory entries) roots = find_entries-Roots entries roots
    find_roots-Roots (link target) roots = find_link-Roots target roots
    find_roots-Roots plain roots = λ h. unchanged roots roots _ (λ t p s r. s) refl
    find_roots-Roots (failing e) roots =
        λ h. unchanged roots _ _ (λ t p s r. s) (handle-roots e roots h)

    find_entries-Roots :
        (entries : Entries) (roots : List Bytes)
        → Roots (λ t. ShowsIn t entries) roots (find_entries sha256 store_dir db entries roots)
    find_entries-Roots end roots = λ h. unchanged roots roots _ (λ t p s r. s) refl
    find_entries-Roots (fails e) roots =
        λ h. unchanged roots _ _ (λ t p s r. s) (handle-roots e roots h)
    find_entries-Roots (entry place entries) roots =
        joined place entries roots (find_roots sha256 store_dir db place roots)
          (find_roots-Roots place roots) (λ more. find_entries-Roots entries more)

  -- A search for roots that throws nothing finds exactly the valid paths that the targets of the links
  -- in the tree name.
  pub find_roots_iff :
      (place : Place)
      → (find_roots sha256 store_dir db place []).failure ≡ none
      → (p : Bytes)
      → (contains_path p (find_roots sha256 store_dir db place []).roots ≡ true)
        ↔ ((t : Bytes) × Shows t place × IsRoot t p)
  unfolding contains_path
  find_roots_iff place h p =
      let (to, from) = find_roots-Roots place [] h p in
      (λ k. elim (to k) [ inl old ↦ absurd (cc) | inr found ↦ found ], λ k. from (inr k))

-- Whatever paths are named, what a link in the tree of roots names is not deleted: its row and its
-- place in the store directory are as before, also where the search or the collection throws.
pub collect_named-root :
    (sha256 : Bytes → Bytes) (store_dir : Bytes) (locked : Bytes → Bool) (freed : Bytes → ℕ)
    (nlink : List Bytes → Bytes → ℕ) (gc_roots : Place) (paths : List Bytes) (w : World)
    (t q : Bytes)
    → Shows t gc_roots
    → IsRoot sha256 store_dir w.db t q
    → let w' = (collect_named sha256 store_dir locked freed nlink gc_roots paths w).world in
      (find_row (print_store_path store_dir q) w'.db.rows
        ≡ find_row (print_store_path store_dir q) w.db.rows)
      × (contains_path q w'.disk ≡ contains_path q w.disk)
unfolding collect_named
collect_named-root sha256 store_dir locked freed nlink gc_roots [] w t q s r = (refl, refl)
collect_named-root sha256 store_dir locked freed nlink gc_roots (p ∷ ps) w t q s r =
    elim (Option-cases (find_roots sha256 store_dir w.db gc_roots []).failure) [
      | inr (e, is) ↦ rw (is, collect_named) (refl, refl)
      | inl is ↦
          rw (is, collect_named)
            (collect_garbage-root sha256 store_dir locked freed nlink
              (find_roots sha256 store_dir w.db gc_roots []).roots (p ∷ ps) w q
              ((find_roots_iff sha256 store_dir w.db gc_roots is q).1 (t, s, r)))
    ]
