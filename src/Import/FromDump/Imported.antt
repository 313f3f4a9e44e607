-- ===== src/Import/FromDump/Imported.antt =====
-- What an import leaves in the store.
use archinix.Base.{
  ℕ, ◌-◌, ◌≡◌, refl, sym, ap, ◌∙◌, ◌≢◌, ◌⊎◌, inl, inr, true, false, Option, none, some, List, [],
  ◌∷◌, ◌++◌, append-nil, arith, Bool-cases, Option-cases, length, length-append, take, take_front,
  All, Bytes, IsByte, eqb, eqb_refl, eqb→eq, Result, ok,
}
use archinix.Hash.{to_string, base16}
use archinix.Archive.Tree.{Node, SinkCall, nar_max_depth}
use archinix.Archive.Format.{IsArchivable, calls}
use archinix.Archive.Dump.{dump_path}
use archinix.Archive.Parse.{parse_dump}
use archinix.Archive.RoundTrip.{parse_dump-dump_path}
use archinix.StorePath.{name, print_store_path, make_content_addressed_path}
use archinix.StorePath.Laws.{store_path-make_content_addressed_path}
use archinix.Store.Schema.{Db, StoreError, done, find_row}
use archinix.Store.Invariant.{IsConsistent}
use archinix.Store.Paths.{
  ValidPathInfo, size_column, ca_column, is_valid_path, is_content_addressed, make_from_ca,
  add_valid_path, register_valid_path, query_path_info_internal,
}
use archinix.Store.Register.{register_valid_path-Written}
use archinix.Store.Query.{query_path_info-register_valid_path}
use archinix.Export.RoundTrip.{insert_row-done}
use archinix.Import.FromDump.{
  Local, added, find_tree, delete_tree, move_and_register, add_restored, add_to_store_from_dump,
  add_tree_to_store,
}

ok_is : {A : Type 0} {a b : A} → ◌≡◌ {A = Result A} (ok a) (ok b) → a ≡ b
ok_is h = cc

take_all : (s rest : Bytes) → take (length (s ++ rest) - length rest) (s ++ rest) ≡ s
take_all s rest = take_front _ s rest (omega (arith, length-append {0}))

find-delete_tree :
    (p q : Bytes) (trees : List (Bytes × List SinkCall))
    → p ≢ q
    → find_tree q (delete_tree p trees) ≡ find_tree q trees
unfolding find_tree delete_tree
find-delete_tree p q [] ne = refl
find-delete_tree p q ((n, c) ∷ trees) ne = elim (Bool-cases (eqb n p)) [
  | inl e ↦ elim (Bool-cases (eqb n q)) [
    | inl k ↦ absurd (ne (sym (eqb→eq n p e) ∙ eqb→eq n q k))
    | inr k ↦ rw (e, k) (find-delete_tree p q trees ne)
  ]
  | inr e ↦ elim (Bool-cases (eqb n q)) [
    | inl k ↦ rw e (rw k refl)
    | inr k ↦ rw e (rw k (find-delete_tree p q trees ne))
  ]
]

module _ (sha256 : Bytes → Bytes) (store_dir : Bytes) where
  -- The info that is registered.
  abbrev pub imported_info : Bytes → Bytes → ValidPathInfo
  imported_info path nar = record {
    path = path;
    nar_hash = sha256 nar;
    references = [];
    registration_time = 0;
    nar_size = length nar;
    ca = some (sha256 nar);
  }

  content_addressed :
      (name_of path nar : Bytes)
      → make_content_addressed_path sha256 store_dir name_of (sha256 nar) ≡ ok path
      → is_content_addressed sha256 store_dir (imported_info path nar) ≡ done true
  unfolding is_content_addressed
  content_addressed name_of path nar named =
      let its_name =
        (store_path-make_content_addressed_path sha256 store_dir name_of (sha256 nar) path
          named).1 in
      let again : make_content_addressed_path sha256 store_dir (name path) (sha256 nar) ≡ ok path =
        ap (λ n. make_content_addressed_path sha256 store_dir n (sha256 nar)) its_name ∙ named in
      rw again (rw (eqb_refl path) refl)

  -- The registration of a path that is not valid.
  register-done :
      (now : ℕ) (db : Db) (name_of path nar : Bytes)
      → make_content_addressed_path sha256 store_dir name_of (sha256 nar) ≡ ok path
      → is_valid_path sha256 store_dir db path ≡ false
      → (db' : Db) × (register_valid_path sha256 store_dir now db (imported_info path nar)
          ≡ done db')
  unfolding register_valid_path add_valid_path
  register-done now db name_of path nar named new =
      elim (Option-cases (find_row (print_store_path store_dir path) db.rows)) [
        | inl e ↦
            let (db', k) =
              insert_row-done db (print_store_path store_dir path)
                (to_string (sha256 nar) base16 true) now (size_column (length nar))
                (ca_column (some (sha256 nar))) e in
            (
              db',
              rw (new, register_valid_path)
                  (rw (content_addressed name_of path nar named) (rw k refl)),
            )
        | inr (r, e) ↦ absurd (let bad = rw (e, is_valid_path) at new in cc)
      ]

  -- What an import adds to a store.
  pub record IsImported (now : ℕ) (path nar : Bytes) (cs : List SinkCall) (before after : Local)
      : Type 0 where
    pub valid : is_valid_path sha256 store_dir after.db path ≡ true
    pub tree : find_tree path after.trees ≡ some cs
    pub found :
        query_path_info_internal sha256 store_dir after.db path
        ≡ done (some (record (imported_info path nar) { registration_time = now }))
    pub other_trees : (q : Bytes) → path ≢ q → find_tree q after.trees ≡ find_tree q before.trees
    pub other_rows :
        (q : Bytes)
        → print_store_path store_dir path ≢ q
        → find_row q after.db.rows ≡ find_row q before.db.rows
    pub consistent : IsConsistent after.db

  -- The path was valid, or became so while the lock was waited for, or is imported.
  abbrev pub Outcomes : (Local → Local) → ℕ → Bytes → Bytes → List SinkCall → Local → Local → Type 0
  Outcomes meanwhile now path nar cs local after =
      ((is_valid_path sha256 store_dir local.db path ≡ true) × (after ≡ local))
      ⊎ ((is_valid_path sha256 store_dir (meanwhile local).db path ≡ true)
          × (after ≡ meanwhile local))
      ⊎ IsImported now path nar cs (meanwhile local) after

  module _ (restore : List SinkCall → Option StoreError) (meanwhile : Local → Local) (now : ℕ)
      (name_of path nar : Bytes) (cs : List SinkCall)
      (named : make_content_addressed_path sha256 store_dir name_of (sha256 nar) ≡ ok path)
      (long : length (sha256 nar) ≡ 32) (bytes : All IsByte (sha256 nar)) where
    move_and_register-IsImported :
        (local : Local)
        → IsConsistent local.db
        → is_valid_path sha256 store_dir local.db path ≡ false
        → (after : Local) × (move_and_register sha256 store_dir restore meanwhile now name_of nar
              path cs local
            ≡ added path after)
          × IsImported now path nar cs local after
    unfolding move_and_register make_from_ca find_tree is_valid_path
    move_and_register-IsImported local consistent new =
        let (db', done_is) = register-done now local.db name_of path nar named new in
        let ((r, row, _, _, _), others, still) =
          register_valid_path-Written sha256 store_dir now local.db db' (imported_info path nar)
            consistent done_is in
        let after : Local = record {
          db = db';
          trees = (path, cs) ∷ delete_tree path local.trees;
        } in
        (
          after,
          rw (named, move_and_register) (rw done_is refl),
          record {
            valid = rw (row, is_valid_path) refl;
            tree = rw (eqb_refl path) refl;
            found =
                query_path_info-register_valid_path sha256 store_dir now local.db db'
                  (imported_info path nar) consistent new long bytes (long, bytes) refl done_is;
            other_trees = λ q ne. elim (Bool-cases (eqb path q)) [
              | inl e ↦ absurd (ne (eqb→eq path q e))
              | inr e ↦ rw e (find-delete_tree path q local.trees ne)
            ];
            other_rows = others;
            consistent = still;
          },
        )

    add_restored_outcome :
        (local : Local)
        → IsConsistent (meanwhile local).db
        → (after : Local) × (add_restored sha256 store_dir restore meanwhile now name_of nar cs
              local
            ≡ added path after)
          × Outcomes meanwhile now path nar cs local after
    unfolding add_restored
    add_restored_outcome local consistent =
        elim (Bool-cases (is_valid_path sha256 store_dir local.db path)) [
          | inl e ↦ (local, rw (named, add_restored) (rw e refl), inl (e, refl))
          | inr e ↦ elim (Bool-cases (is_valid_path sha256 store_dir (meanwhile local).db path)) [
            | inl k ↦
                (meanwhile local, rw (named, add_restored) (rw (e, k) refl), inr (inl (k, refl)))
            | inr k ↦
                let (after, is, imported) =
                  move_and_register-IsImported (meanwhile local) consistent k in
                (after, rw (named, add_restored) (rw (e, k) is), inr (inr imported))
          ]
        ]

    -- A tree that has a NAR is added to any store with consistent tables, if its name gives a path and
    -- the restore throws nothing: `addToStore` returns the path of the name and the hash of the NAR.
    -- Either it was valid, here or while the lock was waited for, and the store is left as it was then;
    -- or the path is valid, what is at it was made by the calls that create the tree, its row is found
    -- again with the hash and the size of the NAR, with this hash as its content address, the clock's
    -- time and no references, and the other trees and rows are the old ones.
    pub add_tree_to_store-IsImported :
        (tree : Node) (local : Local)
        → IsArchivable false nar_max_depth tree
        → dump_path tree ≡ ok nar
        → cs ≡ calls false [] tree
        → restore cs ≡ none
        → IsConsistent (meanwhile local).db
        → (after : Local) × (add_tree_to_store sha256 store_dir restore meanwhile now name_of tree
              local
            ≡ added path after)
          × Outcomes meanwhile now path nar cs local after
    unfolding add_tree_to_store add_to_store_from_dump
    add_tree_to_store-IsImported tree local archivable dumped are restored consistent =
        let (bytes, e, k) = parse_dump-dump_path false tree [] archivable in
        let same : bytes ++ [] ≡ nar = append-nil bytes ∙ ok_is (sym e ∙ dumped) in
        let parsed : parse_dump false nar ≡ ok (cs, []) =
          ap (parse_dump false) (sym same) ∙ rw are k in
        let whole : take (length nar - length {A = ℕ} []) nar ≡ nar =
          ap (λ s. take (length s - length {A = ℕ} []) s) (sym (append-nil nar))
          ∙ take_all nar [] in
        let (after, is, outcome) = add_restored_outcome local consistent in
        (
          after,
          rw (dumped, add_tree_to_store)
              (rw (parsed, add_to_store_from_dump)
                (rw (restored, add_to_store_from_dump)
                  (ap (λ s. add_restored sha256 store_dir restore meanwhile now name_of s cs local)
                      whole
                    ∙ is))),
          outcome,
        )
