-- ===== src/CanonPath/Tests.antt =====
-- Runs of `canonPathInner` and of `CanonPath`.
use archinix.Base.{◌≡◌, refl, some, List, [], ◌∷◌, All, Bytes, codes, eqb, contains_byte, ok}
use archinix.CanonPath.{
  canon_path_inner, canon_loop, skip_slashes, canon_step, next_component, after_component,
  erase_component, erase_last,
}
use archinix.CanonPath.Resolve.{is_entry, split, resolve, render, canon_path_inner-resolve}
use archinix.CanonPath.Canonical.{IsEntry, canon_path_inner-IsEntry}
use archinix.CanonPath.Iterator.{elements, in_order, elements-render}
use archinix.CanonPath.Construct.{of_components, push_all}
use archinix.CanonPath.{push}

abbrev messy : Bytes
messy = codes "nix//./store/../var/"

canon_messy : canon_path_inner (b'/' ∷ messy) ≡ ok (codes "/nix/var")
unfolding canon_path_inner canon_loop skip_slashes canon_step next_component after_component
    erase_component erase_last eqb
canon_messy = refl

canon_path_inner-resolve_example :
    canon_path_inner (b'/' ∷ messy) ≡ ok (render (resolve [] (split (b'/' ∷ messy))))
canon_path_inner-resolve_example = canon_path_inner-resolve b'/' messy

canon_path_inner-IsEntry_example :
    (stack : List Bytes) × All IsEntry stack × (canon_path_inner (b'/' ∷ messy) ≡ ok (render stack))
canon_path_inner-IsEntry_example = canon_path_inner-IsEntry b'/' messy

nix-IsEntry : IsEntry (codes "nix")
unfolding contains_byte is_entry eqb
nix-IsEntry = (refl, refl)

store-IsEntry : IsEntry (codes "store")
unfolding contains_byte is_entry eqb
store-IsEntry = (refl, refl)

elements-render_example :
    elements (render (codes "store" ∷ codes "nix" ∷ []))
    ≡ some (in_order (codes "store" ∷ codes "nix" ∷ []))
elements-render_example =
    elements-render (codes "store" ∷ codes "nix" ∷ []) (store-IsEntry, (nix-IsEntry, tt))

run_of_components : of_components (codes "nix" ∷ codes "store" ∷ []) ≡ ok (codes "/nix/store")
unfolding of_components push_all push contains_byte eqb
run_of_components = refl
