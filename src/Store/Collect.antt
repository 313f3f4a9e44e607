-- ===== src/Store/Collect.antt =====
-- `LocalStore::collectGarbage` of src/libstore/gc.cc: the deletion of named paths, once the roots are known.
-- What the disk does is a parameter: which temporary directories are locked, how many bytes a deletion
-- frees, and how many names an entry of the farm has.
pub mod Safety
mod Tests
use archinix.Base.{
  ℕ, ◌+◌, ◌-◌, ◌/◌, ◌%◌, ◌^◌, Bool, true, false, ◌&&◌, ◌||◌, Option, none, some, List, [], ◌∷◌,
  ◌==◌, if◌then◌else◌, Bytes, codes, eqb,
}
use archinix.Store.Schema.{Db, StoreError, done, failed}
use archinix.Store.Paths.{invalidate_path_checked, remove_path}
use archinix.Store.Invalidate.{contains_path}
use archinix.StorePath.{print_store_path}

-- The tables, the names in the store directory and in the farm, and the GCResults.
pub record World : Type 0 where
  pub db : Db
  pub disk : List Bytes
  pub links : List Bytes
  pub paths : List Bytes
  pub bytes_freed : ℕ

-- An exception leaves what was done before it.
pub record Collected : Type 0 where
  pub world : World
  pub failure : Option StoreError

unfoldable pub starts_with : Bytes → Bytes → Bool
starts_with [] s = true
starts_with (c ∷ prefix) [] = false
starts_with (c ∷ prefix) (d ∷ s) = c == d && starts_with prefix s

unfoldable pub insert_path : Bytes → List Bytes → List Bytes
unfolding contains_path
insert_path p ps = if contains_path p ps then ps else p ∷ ps

module _ (sha256 : Bytes → Bytes) (store_dir : Bytes) (locked : Bytes → Bool) (freed : Bytes → ℕ)
    (nlink : List Bytes → Bytes → ℕ) where
  -- `deleteFromStore`
  unfoldable pub delete_from_store : Bytes → World → World
  unfolding starts_with insert_path
  delete_from_store base_name w =
      if starts_with (codes "tmp-") base_name && locked base_name then w else record w {
        disk = remove_path base_name w.disk;
        paths = insert_path (print_store_path store_dir base_name) w.paths;
        bytes_freed = (w.bytes_freed + freed base_name) % 2 ^ 64;
      }

  -- One path of the loop. PathInUse is reported, and the loop goes on.
  unfoldable pub collect_one : List Bytes → Bytes → World → Collected
  unfolding delete_from_store
  collect_one roots p w =
      if contains_path p roots
      then record { world = w; failure = some StoreError.still_rooted }
      else elim (invalidate_path_checked sha256 store_dir w.db p) [
        | done db' ↦ record { world = delete_from_store p (record w { db = db' }); failure = none }
        | failed StoreError.path_in_use ↦ record { world = w; failure = none }
        | failed e ↦ record { world = w; failure = some e }
      ]

  unfoldable pub collect_all : List Bytes → List Bytes → World → Collected
  unfolding collect_one
  collect_all roots [] w = record { world = w; failure = none }
  collect_all roots (p ∷ ps) w =
      let c = collect_one roots p w in
      let rest = collect_all roots ps c.world in elim c.failure [ none ↦ rest | some e ↦ c ]

  -- The loop over the farm.
  unfoldable pub unlink_unused : List Bytes → List Bytes → List Bytes
  unlink_unused disk [] = []
  unlink_unused disk (name ∷ names) =
      if eqb name (codes ".") || eqb name (codes "..")
      then name ∷ unlink_unused disk names
      else if nlink disk name == 1
      then unlink_unused disk names
      else name ∷ unlink_unused disk names

  unfoldable pub collect_garbage : List Bytes → List Bytes → World → Collected
  unfolding collect_all unlink_unused
  collect_garbage roots [] w = record { world = w; failure = none }
  collect_garbage roots (p ∷ ps) w =
      let c = collect_all roots (p ∷ ps) w in
      elim c.failure [
        | none ↦ record c {
          world = record c.world { links = unlink_unused c.world.disk c.world.links };
        }
        | some e ↦ c
      ]
