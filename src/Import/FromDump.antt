-- ===== src/Import/FromDump.antt =====
-- `addToStoreFromDump` of src/libstore/local-store.cc and the `addToStore` of src/libstore/store-api.cc
-- that feeds it. A tree in the store is the list of the calls on the RestoreSink that made it; what the
-- RestoreSink throws, and what other processes do while the lock is waited for, are parameters.
pub mod Imported
mod Tests
use archinix.Base.{
  ℕ, ◌-◌, Bool, true, false, Option, none, some, List, [], ◌∷◌, if◌then◌else◌, length, take, Bytes,
  eqb, Error, Result, ok, err,
}
use archinix.Archive.Tree.{Node, SinkCall}
use archinix.Archive.Dump.{dump_path}
use archinix.Archive.Parse.{parse_dump}
use archinix.StorePath.{make_content_addressed_path}
use archinix.Store.Schema.{Db, StoreError, Outcome, done, failed, ◌>>!◌}
use archinix.Store.Paths.{ValidPathInfo, lift, is_valid_path, make_from_ca, register_valid_path}

-- The tables, and the trees by their base names.
pub record Local : Type 0 where
  pub db : Db
  pub trees : List (Bytes × List SinkCall)

-- The path that is returned, or an exception, and what is there then.
pub data Added : Type 0 where
  added : Bytes → Local → Added
  stopped : StoreError → Local → Added

unfoldable pub find_tree : Bytes → List (Bytes × List SinkCall) → Option (List SinkCall)
find_tree p [] = none
find_tree p ((q, calls) ∷ trees) = if eqb q p then some calls else find_tree p trees

-- `deletePath(realPath)`
unfoldable pub delete_tree : Bytes → List (Bytes × List SinkCall) → List (Bytes × List SinkCall)
delete_tree p [] = []
delete_tree p ((q, calls) ∷ trees) =
    if eqb q p then delete_tree p trees else (q, calls) ∷ delete_tree p trees

module _ (sha256 : Bytes → Bytes) (store_dir : Bytes) (restore : List SinkCall → Option StoreError)
    (meanwhile : Local → Local) where
  -- Under the lock, where the path is not valid: the tree is moved into place, and registered.
  unfoldable pub move_and_register : ℕ → Bytes → Bytes → Bytes → List SinkCall → Local → Added
  unfolding delete_tree
  move_and_register now name_of nar path calls local =
      let moved = record local { trees = (path, calls) ∷ delete_tree path local.trees } in
      let registered = lift (make_from_ca sha256 store_dir name_of (sha256 nar)) >>! λ info.
      register_valid_path sha256 store_dir now local.db (record info { nar_size = length nar }) in
      elim registered [
        | done db ↦ added path (record moved { db = db })
        | failed e ↦ stopped e moved
      ]

  -- From the hash of the restored dump on.
  unfoldable pub add_restored : ℕ → Bytes → Bytes → List SinkCall → Local → Added
  unfolding move_and_register
  add_restored now name_of nar calls local =
      elim (make_content_addressed_path sha256 store_dir name_of (sha256 nar)) [
        | err e ↦ stopped (StoreError.unreadable e) local
        | ok path ↦
            if is_valid_path sha256 store_dir local.db path
            then added path local
            else if is_valid_path sha256 store_dir (meanwhile local).db path
            then added path (meanwhile local)
            else move_and_register now name_of nar path calls (meanwhile local)
      ]

  unfoldable pub add_to_store_from_dump : ℕ → Bytes → Bytes → Local → Added
  unfolding add_restored
  add_to_store_from_dump now name_of source local = elim (parse_dump false source) [
    | err e ↦ stopped (StoreError.unreadable e) local
    | ok (calls, rest) ↦ elim (restore calls) [
      | some e ↦ stopped e local
      | none ↦ add_restored now name_of (take (length source - length rest) source) calls local
    ]
  ]

  -- `addToStore(name, path)`, where the path shows a tree.
  unfoldable pub add_tree_to_store : ℕ → Bytes → Node → Local → Added
  unfolding add_to_store_from_dump
  add_tree_to_store now name_of tree local = elim (dump_path tree) [
    | err e ↦ stopped (StoreError.unreadable e) local
    | ok nar ↦ add_to_store_from_dump now name_of nar local
  ]
