-- ===== src/Store/Roots/Tests.antt =====
-- Runs of the search for roots.
use archinix.Base.{
  ◌%◌, ◌≡◌, refl, inl, inr, ◌↔◌, true, false, Option, none, some, List, [], ◌∷◌, ◌++◌, length,
  replicate, All, Bytes, codes, eqb, contains_byte, ok,
}
use archinix.CanonPath.{
  canon_path, canon_path_inner, canon_loop, canon_step, skip_slashes, next_component,
  after_component, erase_last, root,
}
use archinix.CanonPath.Resolve.{split, is_entry, render, joined, NoSlash}
use archinix.CanonPath.Canonical.{IsEntry}
use archinix.Encoding.Nix32
use archinix.StorePath.{
  print_store_path, store_path, all_of, check_name, is_name_char, has_bad_dots,
}
use archinix.StorePath.Parse.{parse_store_path, canon_path_absolute, parent_path, filename}
use archinix.Store.Schema.{Db, find_row}
use archinix.Store.Paths.{is_valid_path}
use archinix.Store.Invalidate.{contains_path}
use archinix.Store.Collect.{World}
use archinix.Store.Roots.{
  Place, directory, link, plain, end, entry, find_roots, find_link, after_read, to_store_path,
  is_in_store, is_in_dir, path_names, inner_names, is_below, add_perm_root, collect_named,
}
use archinix.Store.Roots.Within.{to_store_path-print_store_path}
use archinix.Store.Roots.Reached.{IsRoot, Shows, find_roots_iff, collect_named-root}
use archinix.Store.Roots.Added.{add_perm_root-IsRoot}

abbrev dirs : List Bytes
dirs = codes "store" ∷ codes "nix" ∷ []

abbrev store_dir : Bytes
store_dir = codes "/nix/store"

abbrev digest : Bytes → Bytes
digest s = replicate 32 (length s % 256)

abbrev base_name : Bytes
base_name = replicate 32 b'a' ++ codes "-gen"

abbrev one_row : Db
one_row = record {
  rows =
      record {
        id = 1;
        path = print_store_path store_dir base_name;
        hash = [];
        registration_time = 1;
        nar_size = none;
        ca = none;
      }
      ∷ [];
  refs = [];
  last_id = 1;
}

abbrev target : Bytes
target = store_dir ++ (b'/' ∷ base_name ++ codes "/boot")

-- A link into a valid path, one out of the store, and a file.
abbrev gc_roots : Place
gc_roots =
    directory (entry (link (codes "/nix/store/../etc")) (entry plain (entry (link target) end)))

target-read : to_store_path digest store_dir target ≡ ok (base_name, codes "/boot")
unfolding to_store_path is_in_store is_in_dir path_names inner_names is_below split is_entry eqb
    parse_store_path canon_path_absolute canon_path_inner canon_loop canon_step skip_slashes
    next_component after_component erase_last parent_path filename contains_byte store_path all_of
    Nix32.is_hash_char check_name is_name_char has_bad_dots canon_path
target-read = refl

target-within : is_in_store digest store_dir target ≡ true
unfolding is_in_store is_in_dir path_names inner_names is_below split is_entry eqb skip_slashes
target-within = refl

run_outside : is_in_store digest store_dir (codes "/nix/store/../etc") ≡ false
unfolding is_in_store is_in_dir path_names inner_names is_below split is_entry eqb skip_slashes
run_outside = refl

-- The store itself is not in the store, and neither is its neighbour.
run_store_itself : is_in_store digest store_dir (codes "/nix//store/") ≡ false
unfolding is_in_store is_in_dir path_names inner_names is_below split is_entry eqb skip_slashes
run_store_itself = refl

run_neighbour : is_in_store digest store_dir (codes "/nix/storehouse/x") ≡ false
unfolding is_in_store is_in_dir path_names inner_names is_below split is_entry eqb skip_slashes
run_neighbour = refl

base_name-valid : is_valid_path digest store_dir one_row base_name ≡ true
unfolding is_valid_path find_row eqb print_store_path
base_name-valid = refl

target-IsRoot : IsRoot digest store_dir one_row target base_name
target-IsRoot = (codes "/boot", target-within, target-read, base_name-valid)

gc_roots-failure : (find_roots digest store_dir one_row gc_roots []).failure ≡ none
unfolding find_roots find_link after_read to_store_path is_in_store is_in_dir path_names inner_names
    is_below split is_entry eqb parse_store_path canon_path_absolute canon_path_inner canon_loop
    canon_step skip_slashes next_component after_component erase_last parent_path filename
    contains_byte store_path all_of Nix32.is_hash_char check_name is_name_char has_bad_dots
    canon_path
gc_roots-failure = refl

find_roots_iff_example :
    (contains_path base_name (find_roots digest store_dir one_row gc_roots []).roots ≡ true)
    ↔ ((t : Bytes) × Shows t gc_roots × IsRoot digest store_dir one_row t base_name)
find_roots_iff_example = find_roots_iff digest store_dir one_row gc_roots gc_roots-failure base_name

abbrev world : World
world = record { db = one_row; disk = base_name ∷ []; links = []; paths = []; bytes_freed = 0 }

collect_named-root_example :
    let w' =
      (collect_named digest store_dir
        (λ p. false)
        (λ p. 1)
        (λ ps p. 2)
        gc_roots
        (base_name ∷ [])
        world).world in
    (find_row (print_store_path store_dir base_name) w'.db.rows
      ≡ find_row (print_store_path store_dir base_name) one_row.rows)
    × (contains_path base_name w'.disk ≡ contains_path base_name (base_name ∷ []))
collect_named-root_example =
    collect_named-root digest store_dir (λ p. false) (λ p. 1) (λ ps p. 2) gc_roots (base_name ∷ [])
      world target base_name (inr (inr (inl refl))) target-IsRoot

dirs-IsEntry : All IsEntry dirs
unfolding contains_byte is_entry eqb
dirs-IsEntry = ((refl, refl), ((refl, refl), tt))

accepted : store_path base_name ≡ ok base_name
unfolding store_path check_name all_of Nix32.is_hash_char is_name_char has_bad_dots eqb
accepted = refl

no_slash : NoSlash base_name
unfolding contains_byte
no_slash = refl

to_store_path-print_store_path_example :
    to_store_path digest (render dirs) (print_store_path (render dirs) base_name)
    ≡ ok (base_name, root)
to_store_path-print_store_path_example =
    to_store_path-print_store_path digest (codes "store") (codes "nix" ∷ []) dirs-IsEntry base_name
      no_slash accepted

abbrev root_path : Bytes
root_path = codes "/nix/var/gcroots/a"

added :
    add_perm_root digest (render dirs) base_name root_path none
    ≡ ok (root_path, link (print_store_path (render dirs) base_name))
unfolding add_perm_root canon_path_absolute canon_path_inner canon_loop canon_step skip_slashes
    next_component after_component erase_last eqb is_in_store is_in_dir path_names inner_names
    is_below split is_entry render joined
added = refl

rendered-valid : is_valid_path digest (render dirs) one_row base_name ≡ true
unfolding is_valid_path find_row eqb print_store_path render joined
rendered-valid = refl

add_perm_root-IsRoot_example :
    (is_in_store digest (render dirs) root_path ≡ false)
    × ((t : Bytes) × Shows t (link (print_store_path (render dirs) base_name))
        × IsRoot digest (render dirs) one_row t base_name)
    × ((old : Place)
        → ◌≡◌ {A = Option Place} none (some old)
        → (t : Bytes) × (old ≡ link t) × (is_in_store digest (render dirs) t ≡ true))
add_perm_root-IsRoot_example =
    add_perm_root-IsRoot digest one_row (codes "store") (codes "nix" ∷ []) base_name root_path
      root_path none (link (print_store_path (render dirs) base_name)) dirs-IsEntry no_slash
      accepted rendered-valid added
