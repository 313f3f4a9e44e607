-- ===== src/Store/Collect/Safety.antt =====
-- What src/libstore/gc.cc keeps: the roots, and the valid paths on disk.
use archinix.Base.{
  ℕ, ◌≡◌, refl, sym, ap, ◌∙◌, ◌≢◌, ◌⊎◌, inl, inr, Bool, true, ◌&&◌, ◌||◌, none, some, List, [], ◌∷◌,
  Bool-cases, Option-cases, All, Bytes, codes, eqb, eqb_refl, eqb→eq,
}
use archinix.Store.Printed.{print_store_path_inj}
use archinix.Store.Schema.{
  Db, StoreError, Outcome, done, failed, >>!-eq-done, find_row, delete_row, is_referred,
  remove_pair,
}
use archinix.Store.Delete.{find_row-remove_row, find_row-remove_row_other}
use archinix.Store.Paths.{
  is_valid_path, query_referrers, invalidate_path, invalidate_path_checked, remove_path,
}
use archinix.Store.Invalidate.{contains_path}
use archinix.StorePath.{print_store_path}
use archinix.Store.Collect.{
  World, Collected, starts_with, delete_from_store, collect_one, collect_all, collect_garbage,
}

-- What a successful deletion of a row does to the rows of all paths.
abbrev IsDeleted : Bytes → Db → Db → Type 0
IsDeleted p db db' =
    (find_row p db'.rows ≡ none) × ((q : Bytes) → p ≢ q → find_row q db'.rows ≡ find_row q db.rows)

done_of : {A : Type 0} {a b : A} → ◌≡◌ {A = Outcome A} (done a) (done b) → a ≡ b
done_of h = cc

delete_row-IsDeleted : (db db' : Db) (p : Bytes) → delete_row db p ≡ done db' → IsDeleted p db db'
unfolding delete_row
delete_row-IsDeleted db db' p h = elim (Option-cases (find_row p db.rows)) [
  | inl e ↦ rw (← done_of (rw (e, delete_row) at h)) (e, λ q ne. refl)
  | inr (r, e) ↦ elim (Bool-cases (is_referred r.id (remove_pair r.id r.id db.refs))) [
    | inl g ↦ absurd (let bad = rw g at (rw (e, delete_row) at h) in cc)
    | inr g ↦
        rw (← done_of (rw g at (rw (e, delete_row) at h)))
          (find_row-remove_row p db.rows, λ q ne. find_row-remove_row_other p q db.rows ne)
  ]
]

contains_path-remove_path :
    (p q : Bytes) (ps : List Bytes)
    → p ≢ q
    → contains_path q (remove_path p ps) ≡ contains_path q ps
unfolding contains_path remove_path
contains_path-remove_path p q [] ne = refl
contains_path-remove_path p q (r ∷ ps) ne = elim (Bool-cases (eqb r p)) [
  | inl e ↦ rw e (elim (Bool-cases (eqb r q)) [
    | inl g ↦ absurd (ne (sym (eqb→eq r p e) ∙ eqb→eq r q g))
    | inr g ↦ rw g (contains_path-remove_path p q ps ne)
  ])
  | inr e ↦ rw e (ap (λ b. eqb r q || b) (contains_path-remove_path p q ps ne))
]

module _ (sha256 : Bytes → Bytes) (store_dir : Bytes) (locked : Bytes → Bool) (freed : Bytes → ℕ)
    (nlink : List Bytes → Bytes → ℕ) where
  abbrev pub printed : Bytes → Bytes
  printed p = print_store_path store_dir p

  invalidate-IsDeleted :
      (db db' : Db) (p : Bytes)
      → invalidate_path_checked sha256 store_dir db p ≡ done db'
      → IsDeleted (printed p) db db'
  unfolding invalidate_path_checked is_valid_path invalidate_path
  invalidate-IsDeleted db db' p h = elim (Option-cases (find_row (printed p) db.rows)) [
    | inl e ↦ rw (← done_of (rw (e, invalidate_path_checked, is_valid_path) at h)) (e, λ q ne. refl)
    | inr (r, e) ↦
        let (qs, k, g) =
          >>!-eq-done (query_referrers sha256 store_dir db p) _
            (rw (e, invalidate_path_checked, is_valid_path) at h) in
        go (remove_path p qs) g
  ]
    where
      go :
          (rest : List Bytes)
          → ◌≡◌ {A = Outcome Db}
              (elim rest [
                | [] ↦ invalidate_path sha256 store_dir db p
                | q ∷ qs ↦ failed StoreError.path_in_use
              ])
              (done db')
          → IsDeleted (printed p) db db'
      go [] g = delete_row-IsDeleted db db' (printed p) g
      go (q ∷ qs) g = absurd cc

  -- A path that a step leaves alone.
  abbrev IsUntouched : World → World → Bytes → Type 0
  IsUntouched w w' q =
      (find_row (printed q) w'.db.rows ≡ find_row (printed q) w.db.rows)
      × (contains_path q w'.disk ≡ contains_path q w.disk)

  delete_from_store-disk :
      (p q : Bytes) (w : World)
      → p ≢ q
      → contains_path q (delete_from_store sha256 store_dir locked freed nlink p w).disk
        ≡ contains_path q w.disk
  unfolding delete_from_store
  delete_from_store-disk p q w ne = elim (Bool-cases (starts_with (codes "tmp-") p && locked p)) [
    | inl e ↦ rw e refl
    | inr e ↦ rw e (contains_path-remove_path p q w.disk ne)
  ]

  delete_from_store-db :
      (p : Bytes) (w : World)
      → (delete_from_store sha256 store_dir locked freed nlink p w).db ≡ w.db
  unfolding delete_from_store
  delete_from_store-db p w = elim (Bool-cases (starts_with (codes "tmp-") p && locked p)) [
    | inl e ↦ rw e refl
    | inr e ↦ rw e refl
  ]

  -- One round of the loop leaves the world as it is, or its path is not valid any more and every other path
  -- is as before.
  abbrev IsRound : Bytes → World → World → Type 0
  IsRound p w w' =
      (w' ≡ w)
      ⊎ ((find_row (printed p) w'.db.rows ≡ none) × ((q : Bytes) → p ≢ q → IsUntouched w w' q))

  collect_one-IsRound :
      (roots : List Bytes) (p : Bytes) (w : World)
      → IsRound p w (collect_one sha256 store_dir locked freed nlink roots p w).world
  unfolding collect_one
  collect_one-IsRound roots p w = elim (Bool-cases (contains_path p roots)) [
    | inl e ↦ rw e (inl refl)
    | inr e ↦ rw e (go (invalidate_path_checked sha256 store_dir w.db p) refl)
  ]
    where
      go :
          (r : Outcome Db)
          → invalidate_path_checked sha256 store_dir w.db p ≡ r
          → IsRound p w (
              (elim r as (λ _. Collected) [
                | done db' ↦ record {
                  world =
                      delete_from_store sha256 store_dir locked freed nlink p
                        (record w { db = db' });
                  failure = none;
                }
                | failed StoreError.path_in_use ↦ record { world = w; failure = none }
                | failed e ↦ record { world = w; failure = some e }
              ]).world)
      go (done db') h =
          let (gone, others) = invalidate-IsDeleted w.db db' p h in
          let w' : World = record w { db = db' } in
          inr (
            rw (delete_from_store-db p w') gone,
            λ q ne. (
              rw (delete_from_store-db p w')
                  (others (printed q) (λ same. ne (print_store_path_inj store_dir p q same))),
              delete_from_store-disk p q w' ne,
            ),
          )
      go (failed StoreError.path_in_use) h = inl refl
      go (failed StoreError.invalid_path) h = inl refl
      go (failed StoreError.not_content_addressed) h = inl refl
      go (failed StoreError.constraint_failed) h = inl refl
      go (failed StoreError.hash_mismatch) h = inl refl
      go (failed StoreError.size_mismatch) h = inl refl
      go (failed StoreError.still_rooted) h = inl refl
      go (failed StoreError.system_error) h = inl refl
      go (failed StoreError.invalid_hash_prefix) h = inl refl
      go (failed (StoreError.unreadable e)) h = inl refl

  -- What every round keeps, the whole collection keeps.
  collect_all-kept :
      (Keeps : World → World → Type 0)
      → ((w : World) → Keeps w w)
      → ((u v w : World) → Keeps u v → Keeps v w → Keeps u w)
      → (roots ps : List Bytes)
      → ((p : Bytes) (w : World)
          → Keeps w (collect_one sha256 store_dir locked freed nlink roots p w).world)
      → (w : World) → Keeps w (collect_all sha256 store_dir locked freed nlink roots ps w).world
  unfolding collect_all
  collect_all-kept Keeps same chain roots [] round w = same w
  collect_all-kept Keeps same chain roots (p ∷ ps) round w =
      let c = collect_one sha256 store_dir locked freed nlink roots p w in
      elim (Option-cases c.failure) [
        | inl e ↦
            rw (e, collect_all)
              (chain w c.world _ (round p w)
                (collect_all-kept Keeps same chain roots ps round c.world))
        | inr (x, e) ↦ rw (e, collect_all) (round p w)
      ]

  -- The links are no part of what is kept.
  collect_garbage-kept :
      (Keeps : World → World → Type 0)
      → ((w : World) → Keeps w w)
      → ((u v w : World) → Keeps u v → Keeps v w → Keeps u w)
      → ((v w : World) (links : List Bytes) → Keeps v w → Keeps v (record w { links = links }))
      → (roots ps : List Bytes)
      → ((p : Bytes) (w : World)
          → Keeps w (collect_one sha256 store_dir locked freed nlink roots p w).world)
      → (w : World) → Keeps w (collect_garbage sha256 store_dir locked freed nlink roots ps w).world
  unfolding collect_garbage
  collect_garbage-kept Keeps same chain farm roots [] round w = same w
  collect_garbage-kept Keeps same chain farm roots (p ∷ ps) round w =
      let c = collect_all sha256 store_dir locked freed nlink roots (p ∷ ps) w in
      let kept = collect_all-kept Keeps same chain roots (p ∷ ps) round w in
      elim (Option-cases c.failure) [
        | inl e ↦ rw (e, collect_garbage) (farm w c.world _ kept)
        | inr (x, e) ↦ rw (e, collect_garbage) kept
      ]

  collect_one-root :
      (roots : List Bytes) (q p : Bytes) (w : World)
      → contains_path q roots ≡ true
      → IsUntouched w (collect_one sha256 store_dir locked freed nlink roots p w).world q
  unfolding collect_one
  collect_one-root roots q p w rooted = elim (Bool-cases (contains_path p roots)) [
    | inl e ↦ rw e (refl, refl)
    | inr e ↦
        let other : p ≢ q = λ same. absurd (let bad = rw same at e in cc (bad, rooted)) in
        elim (collect_one-IsRound roots p w) [
          | inl same ↦ rw same (refl, refl)
          | inr (gone, others) ↦ others q other
        ]
  ]

  -- Whatever paths are named, and whether the collection ends or throws, the row of a rooted path and its
  -- place in the store directory are as before.
  pub collect_garbage-root :
      (roots ps : List Bytes) (w : World) (q : Bytes)
      → contains_path q roots ≡ true
      → let w' = (collect_garbage sha256 store_dir locked freed nlink roots ps w).world in
        (find_row (print_store_path store_dir q) w'.db.rows
          ≡ find_row (print_store_path store_dir q) w.db.rows)
        × (contains_path q w'.disk ≡ contains_path q w.disk)
  collect_garbage-root roots ps w q rooted =
      collect_garbage-kept (λ v w'. IsUntouched v w' q) (λ v. (refl, refl))
        (λ u v x a b. (b.0 ∙ a.0, b.1 ∙ a.1)) (λ v x links a. a) roots ps
        (λ p v. collect_one-root roots q p v rooted) w

  -- Every valid path is in the store directory.
  abbrev pub IsStored : World → Type 0
  IsStored w =
      (q : Bytes) → is_valid_path sha256 store_dir w.db q ≡ true → contains_path q w.disk ≡ true

  collect_one-IsStored :
      (roots : List Bytes) (p : Bytes) (w : World)
      → IsStored w
      → IsStored (collect_one sha256 store_dir locked freed nlink roots p w).world
  unfolding is_valid_path
  collect_one-IsStored roots p w stored q valid = elim (collect_one-IsRound roots p w) [
    | inl same ↦ rw same (stored q (rw same at valid))
    | inr (gone, others) ↦ elim (Bool-cases (eqb p q)) [
      | inl e ↦ absurd (
          let row =
            ap
              (λ x.
                find_row (printed x)
                  (collect_one sha256 store_dir locked freed nlink roots p w).world.db.rows)
              (sym (eqb→eq p q e))
            ∙ gone in
          let bad = rw (row, is_valid_path) at valid in cc)
      | inr e ↦
          let (rows, files) =
            others q (λ same. absurd (let bad = rw same at e in cc (bad, eqb_refl q))) in
          files ∙ stored q (rw (rows, is_valid_path) at valid)
    ]
  ]

  -- The collection keeps the store whole, also where it throws: when every valid path is in the store
  -- directory before it, every path that is valid after it is there too.
  pub collect_garbage-IsStored :
      (roots ps : List Bytes) (w : World)
      → IsStored w
      → (q : Bytes)
      → is_valid_path sha256 store_dir
          (collect_garbage sha256 store_dir locked freed nlink roots ps w).world.db
          q
        ≡ true
      → contains_path q (collect_garbage sha256 store_dir locked freed nlink roots ps w).world.disk
        ≡ true
  collect_garbage-IsStored roots ps w =
      collect_garbage-kept (λ v w'. IsStored v → IsStored w') (λ v s. s) (λ u v x a b s. b (a s))
        (λ v x links a s. a s) roots ps (λ p v. collect_one-IsStored roots p v) w

  -- Nothing was thrown, and none of the paths is valid.
  abbrev pub AllGone : List Bytes → Collected → Type 0
  AllGone ps c =
      (c.failure ≡ none)
      × All (λ p. find_row (print_store_path store_dir p) c.world.db.rows ≡ none) ps
