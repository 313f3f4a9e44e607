-- ===== src/Store/Query.antt =====
-- `queryPathInfoInternal` of src/libstore/local-store.cc on what `registerValidPath` wrote.
use archinix.Base.{
  ℕ, suc, ◌<◌, ◌≡◌, refl, sym, inl, inr, false, Option, none, some, List, [], ◌∷◌, arith, ◌==◌,
  if◌then◌else◌, ==_iff, Bool-cases, length, All, Bytes, IsByte, Result, ok,
}
use archinix.Hash.{parse_ca_opt}
use archinix.Hash.Laws.{parse_any_prefixed-to_string, parse_ca_opt-render_ca}
use archinix.Store.Schema.{Row, Db, Outcome, done, >>!-eq-done, reference_paths}
use archinix.Store.Invariant.{AreRows, AreBelow, IsConsistent, has_id-fresh, done_is}
use archinix.Store.Rows.{insert_row_finds}
use archinix.Store.Register.{add_valid_path_inserts}
use archinix.Store.Paths.{
  ValidPathInfo, size_column, ca_column, is_valid_path, add_valid_path, update_path_info,
  register_valid_path, parse_all, query_path_info_internal,
}

reference_paths_fresh :
    (n i : ℕ) (rows rows' : List Row) (refs : List (ℕ × ℕ))
    → AreBelow n rows
    → AreRows rows refs
    → n < i
    → reference_paths i rows' refs ≡ []
unfolding reference_paths
reference_paths_fresh n i rows rows' [] b h l = refl
reference_paths_fresh n i rows rows' ((x, y) ∷ refs) b (hx, hy, h) l = elim (Bool-cases (x == i)) [
  | inl e ↦
      absurd (let same : x ≡ i = (==_iff x i).0 e in cc (rw same at hx, has_id-fresh n i rows b l))
  | inr e ↦ rw e (reference_paths_fresh n i rows rows' refs b h l)
]

size_back : (size : ℕ) → elim (size_column size) as (λ x. ℕ) [ none ↦ 0 | some s ↦ s ] ≡ size
size_back size = ground arith

-- Where there is a content address, it is a SHA-256 digest.
abbrev pub IsDigest : Option Bytes → Type 0
IsDigest none = Unit
IsDigest (some hash) = (length hash ≡ 32) × All IsByte hash

ca_back :
    (ca : Option Bytes)
    → IsDigest ca
    → elim (ca_column ca) as (λ x. Result (Option Bytes)) [
      | none ↦ ok none
      | some text ↦ parse_ca_opt text
    ]
      ≡ ok ca
ca_back none h = refl
ca_back (some hash) (l, v) = parse_ca_opt-render_ca hash l v

no_references :
    {db₁ db' : Db} (ps : List Bytes) (more : Bytes → List Bytes → Outcome Db)
    → ps ≡ []
    → ◌≡◌ {A = Outcome Db} (elim ps [ [] ↦ done db₁ | p ∷ ps ↦ more p ps ]) (done db')
    → db₁ ≡ db'
no_references [] more e h = done_is h
no_references (p ∷ ps) more e h = cc

module _ (sha256 : Bytes → Bytes) (store_dir : Bytes) where
  -- A path that was not valid, registered with a SHA-256 hash, with no references, and with a SHA-256
  -- digest or nothing as its content address, is found again with its hash, its size, its content
  -- address and no references. Its time is the one given, or the clock's for 0.
  pub query_path_info-register_valid_path :
      (now : ℕ) (db db' : Db) (info : ValidPathInfo)
      → IsConsistent db
      → is_valid_path sha256 store_dir db info.path ≡ false
      → length info.nar_hash ≡ 32
      → All IsByte info.nar_hash
      → IsDigest info.ca
      → info.references ≡ []
      → register_valid_path sha256 store_dir now db info ≡ done db'
      → query_path_info_internal sha256 store_dir db' info.path
        ≡ done (
            some (record info {
              registration_time =
                  if info.registration_time == 0 then now else info.registration_time;
            }))
  unfolding register_valid_path query_path_info_internal parse_all
  query_path_info-register_valid_path now db db' info c fresh l v addressed none_referred h =
      let (db₁, first, k) =
        >>!-eq-done
          (if is_valid_path sha256 store_dir db info.path
            then done (update_path_info sha256 store_dir db info)
            else add_valid_path sha256 store_dir now db info)
          _ h in
      let is : db₁ ≡ db' = no_references info.references _ none_referred k in
      let inserted = add_valid_path_inserts sha256 store_dir now db db₁ info (rw fresh at first) in
      let (found, others, refs) = insert_row_finds db db' _ _ _ _ _ (rw is at inserted) in
      let unreferenced : reference_paths (suc db.last_id) db'.rows db'.refs ≡ [] = rw refs (
        reference_paths_fresh db.last_id (suc db.last_id) db.rows db'.rows db.refs c.below c.joined
          (omega arith)) in
      rw (found, query_path_info_internal)
        (rw (parse_any_prefixed-to_string info.nar_hash l v) (
          rw (ca_back info.ca addressed) (
            rw unreferenced λ i. done (
              some (record {
                path = info.path;
                nar_hash = info.nar_hash;
                references = sym none_referred i;
                registration_time =
                    if info.registration_time == 0 then now else info.registration_time;
                nar_size = size_back info.nar_size i;
                ca = info.ca;
              })))))
