-- ===== src/Store/Optimise/Tests.antt =====
-- Runs of the walk over files.
use archinix.Base.{
  ℕ, ◌%◌, ◌≡◌, refl, true, false, none, some, [], ◌∷◌, length, replicate, Bytes, codes, eqb,
}
use archinix.Hash.{to_string}
use archinix.Encoding.Nix32
use archinix.Archive.Dump.{dump_path, dump_regular, dump_contents}
use archinix.Serialise.{write_string, write_num, write_padding}
use archinix.Store.Invalidate.{contains_path}
use archinix.Store.Optimise.{
  captured, Inode, regular, Published, published, file_exists, Replaced, replaced, Store, store_of,
  find, returned, contains, is_candidate, optimise_files,
}
use archinix.Store.Optimise.Names.{IsFarm, Kept}
use archinix.Store.Optimise.Joins.{AreKnown}
use archinix.Store.Optimise.Shared.{optimise_files-shared}
use archinix.Store.Optimise.Contents.{Trusted}
use archinix.Store.Optimise.Candidates.{Linkable, AreLinkable, Linked, optimise_files-IsSafe}

-- In the place of SHA-256, a function that repeats a byte of the length.
abbrev lengths : Bytes → Bytes
lengths s = replicate 32 (length s % 256)

-- Every inode holds the same program.
abbrev programs : ℕ → Inode
programs i = record { file = regular true (codes "run"); writable = false; canonical = true }

abbrev publishing : Bytes → Published
publishing path = published

abbrev replacing : Bytes → Replaced
replacing path = replaced

abbrev two_files : Store
two_files = record {
  files = (codes "/a", 1) ∷ (codes "/b", 2) ∷ [];
  links = [];
  inode_hash = [];
  visited = 0;
  files_linked = 0;
  bytes_freed = 0;
}

abbrev both_walked : Store
both_walked = store_of (
    optimise_files lengths programs none publishing replacing (codes "/a" ∷ codes "/b" ∷ [])
      two_files)

-- The second file becomes a link to the first, which is in the farm.
run_linked : find (codes "/b") both_walked.files ≡ some 1
unfolding optimise_files eqb dump_path to_string Nix32.encode write_string write_num write_padding
    dump_regular dump_contents
run_linked = refl

no_captures : (path : Bytes) → Trusted lengths programs none publishing replacing path two_files
unfolding captured
no_captures path ino at_path = (λ h c e. absurd (cc), λ l name e h. h)

not_raced : (path : Bytes) (l : ℕ) → publishing path ≡ file_exists (some l) → Linkable (programs l)
not_raced path l h = absurd cc

optimise_files-IsSafe_example :
    ((q : Bytes) → Kept lengths programs two_files both_walked q)
    × ((q : Bytes) → Linked programs two_files both_walked q)
    × IsFarm lengths programs both_walked
    × AreLinkable programs (both_walked.links)
optimise_files-IsSafe_example =
    optimise_files-IsSafe programs lengths none publishing replacing not_raced
      (codes "/a" ∷ codes "/b" ∷ []) two_files (λ i j name h k. refl) tt tt
      (unfold contains_path eqb in (refl, (refl, tt)))
      (no_captures (codes "/a"), (no_captures (codes "/b"), tt))

none_known : AreKnown lengths programs two_files
unfolding contains
none_known i name there = absurd (cc)

-- The two files of the walk are equal.
optimise_files-shared_example :
    (s' : Store) × (l : ℕ) × (optimise_files lengths programs none publishing replacing
        (codes "/a" ∷ codes "/b" ∷ [])
        two_files
      ≡ returned s')
    × (find (codes "/a") s'.files ≡ some l)
    × (find (codes "/b") s'.files ≡ some l)
    × ((programs l).file ≡ (programs 1).file)
optimise_files-shared_example =
    optimise_files-shared lengths programs (λ i j name h k. refl) none publishing replacing
      (λ p. refl) (λ p. refl) (codes "/a" ∷ codes "/b" ∷ []) two_files tt none_known
      (unfold contains_path eqb in (refl, (refl, tt)))
      (no_captures (codes "/a"), (no_captures (codes "/b"), tt))
      (unfold find eqb in ((1, refl), ((2, refl), tt))) (codes "/a") (codes "/b") 1 2
      (unfold contains_path eqb in refl) (unfold contains_path eqb in refl)
      (unfold find eqb in refl) (unfold find eqb in refl) (unfold is_candidate in refl)
      (unfold is_candidate in refl) refl
