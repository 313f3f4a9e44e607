-- ===== src/Store/Collect/Tests.antt =====
-- Runs of the collection of src/libstore/gc.cc.
use archinix.Base.{
  true, ℕ, ◌≡◌, refl, inl, inr, Bool, false, none, List, [], ◌∷◌, Bool-cases, Bytes, codes, eqb,
}
use archinix.StorePath.{print_store_path}
use archinix.Store.Schema.{Row, find_row}
use archinix.Store.Paths.{is_valid_path, invalidate_path_checked}
use archinix.Store.Invalidate.{contains_path}
use archinix.Store.Collect.{World, collect_garbage, collect_all, collect_one, delete_from_store}
use archinix.Store.Collect.Safety.{IsStored, collect_garbage-IsStored}

abbrev store_dir : Bytes
store_dir = codes "/s"

abbrev digest : Bytes → Bytes
digest bytes = bytes

abbrev unlocked : Bytes → Bool
unlocked name = false

abbrev freed : Bytes → ℕ
freed name = 10

abbrev one_name : List Bytes → Bytes → ℕ
one_name disk name = 1

abbrev row_a : Row
row_a = record {
  id = 1;
  path = codes "/s/a";
  hash = codes "h";
  registration_time = 1;
  nar_size = none;
  ca = none;
}

-- The paths `a`, which is valid, and `b`, which is only in the directory.
abbrev world : World
world = record {
  db = record { rows = row_a ∷ []; refs = []; last_id = 1 };
  disk = codes "a" ∷ codes "b" ∷ [];
  links = codes "l" ∷ [];
  paths = [];
  bytes_freed = 0;
}

world-IsStored : IsStored digest store_dir unlocked freed one_name world
unfolding is_valid_path find_row print_store_path contains_path eqb
world-IsStored q valid = elim (Bool-cases (eqb (codes "a") q)) [
  | inl e ↦ rw e refl
  | inr e ↦ absurd (let bad = rw (e, is_valid_path) at valid in cc)
]

still_valid :
    is_valid_path digest store_dir
      (collect_garbage digest store_dir unlocked freed one_name [] (codes "b" ∷ []) world).world.db
      (codes "a")
    ≡ true
unfolding collect_garbage collect_all collect_one delete_from_store invalidate_path_checked
    is_valid_path find_row print_store_path contains_path eqb
still_valid = refl

collect_garbage-IsStored_example :
    contains_path
      (codes "a")
      (collect_garbage digest store_dir unlocked freed one_name []
        (codes "b" ∷ [])
        world).world.disk
    ≡ true
collect_garbage-IsStored_example =
    collect_garbage-IsStored digest store_dir unlocked freed one_name [] (codes "b" ∷ []) world
      world-IsStored (codes "a") still_valid
