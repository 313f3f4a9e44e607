-- ===== src/Store/Optimise/Candidates.antt =====
-- Which files `optimisePath_` of src/libstore/optimise-store.cc links.
use archinix.Base.{
  ℕ, ◌+◌, ◌≡◌, refl, sym, ◌∙◌, ◌≢◌, ◌⊎◌, inl, inr, Bool, true, false, ◌&&◌, not, Option, none, some,
  List, [], ◌∷◌, arith, ◌==◌, ltb, Bool-cases, Option-cases, length, All, Bytes, eqb, eqb→eq,
  Result, ok, err,
}
use archinix.Hash.{to_string, nix32}
use archinix.Store.Verify.Report.{eqb-ne}
use archinix.Store.Verify.Visits.{Distinct}
use archinix.Store.Optimise.{
  File, regular, symlink, other, Inode, Published, published, no_space_on_device, publish_error,
  file_exists, Replaced, replaced, too_many_links, no_such_file, link_error, rename_too_many_links,
  rename_error, Store, store_of, find, unlink, names_of, contains, st_size, is_candidate,
  after_replace, link_to, after_publish, publish_link, join_farm, after_hash, optimise_inode,
  count_visit, optimise_file, optimise_files,
}
use archinix.Store.Optimise.Names.{
  find-rename_over, find-rename_over_other, NoCollision, IsFarm, Kept, some_is,
}
use archinix.Store.Optimise.Contents.{Trusted, Walked-cases, optimise_files-Kept}

-- A file that is no regular one is a symlink; a regular one has contents, and nobody may write to it.
abbrev pub IsReadOnly : File → Bool → Type 0
IsReadOnly (regular x c) writable = (writable ≡ false) × (c ≢ [])
IsReadOnly (symlink t) writable = Unit
IsReadOnly (other n) writable = ⊥

abbrev pub Linkable : Inode → Type 0
Linkable st = IsReadOnly st.file st.writable

candidate_cases :
    (f : File) (writable : Bool)
    → elim f as (λ f. Bool) [
      | regular x c ↦ not writable && not (length c == 0)
      | symlink t ↦ true
      | other n ↦ false
    ]
      ≡ true
    → IsReadOnly f writable
candidate_cases (regular x []) writable h = absurd (ground arith)
candidate_cases (regular x (b ∷ c)) writable h = (ground arith, λ e. cc)
candidate_cases (symlink t) writable h = tt
candidate_cases (other n) writable h = absurd cc

is_candidate-Linkable : (st : Inode) → is_candidate st ≡ true → Linkable st
unfolding is_candidate
is_candidate-Linkable st h = candidate_cases st.file st.writable h

module _ (inode : ℕ → Inode) where
  -- The farm holds nothing else.
  abbrev pub AreLinkable : List (Bytes × ℕ) → Type 0
  AreLinkable links = All (λ link. Linkable (inode link.1)) links

  -- A path has its inode still, or both that one and the new one may be linked.
  abbrev pub Linked : Store → Store → Bytes → Type 0
  Linked s s' q =
      (find q s'.files ≡ find q s.files)
      ⊎ ((i : ℕ) × (l : ℕ) × (find q s.files ≡ some i)
          × (find q s'.files ≡ some l)
          × Linkable (inode i)
          × Linkable (inode l))

  abbrev Safe : Store → Store → Type 0
  Safe s s' = ((q : Bytes) → Linked s s' q) × AreLinkable s'.links

  same : (s : Store) → AreLinkable s.links → Safe s s
  same s h = (λ q. inl refl, h)

  Linked-trans : (s t u : Store) (q : Bytes) → Linked s t q → Linked t u q → Linked s u q
  Linked-trans s t u q (inl e) (inl k) = inl (k ∙ e)
  Linked-trans s t u q (inl e) (inr (i, l, was, is, li, ll)) = inr (i, l, sym e ∙ was, is, li, ll)
  Linked-trans s t u q (inr (i, l, was, is, li, ll)) (inl k) = inr (i, l, was, k ∙ is, li, ll)
  Linked-trans s t u q (inr (i, l, was, is, li, _)) (inr (j, m, was', is', _, lm)) =
      inr (i, m, was, is', li, lm)

  AreLinkable-unlink :
      (name : Bytes) (links : List (Bytes × ℕ))
      → AreLinkable links
      → AreLinkable (unlink name links)
  unfolding unlink
  AreLinkable-unlink name [] h = tt
  AreLinkable-unlink name ((n, l) ∷ links) (hl, h) = elim (Bool-cases (eqb n name)) [
    | inl e ↦ rw e (AreLinkable-unlink name links h)
    | inr e ↦ rw e (hl, AreLinkable-unlink name links h)
  ]

  find-Linkable :
      (name : Bytes) (links : List (Bytes × ℕ)) (l : ℕ)
      → AreLinkable links
      → find name links ≡ some l
      → Linkable (inode l)
  unfolding find
  find-Linkable name [] l h f = absurd cc
  find-Linkable name ((n, j) ∷ links) l (hj, h) f = elim (Bool-cases (eqb n name)) [
    | inl e ↦ let is : j ≡ l = some_is (rw e at f) in rw (← is) hj
    | inr e ↦ find-Linkable name links l h (rw e at f)
  ]

  module _ (sha256 : Bytes → Bytes) (file_hashes : Option (ℕ × List (Bytes × Bytes)))
      (publish : Bytes → Published) (replace : Bytes → Replaced) where
    module _ (path : Bytes) (ino : ℕ) (may : Linkable (inode ino)) where
      after_replace-Safe :
          (r : Replaced) (l : ℕ) (s : Store)
          → find path s.files ≡ some ino
          → Linkable (inode l)
          → AreLinkable s.links
          → Safe s
              (store_of (after_replace sha256 inode file_hashes publish replace r path ino l s))
      unfolding after_replace
      after_replace-Safe replaced l s at_path target h = (
        λ q. elim (Bool-cases (eqb path q)) [
          | inl e ↦
              rw (← eqb→eq path q e)
                (inr (ino, l, at_path, find-rename_over path l s.files ino at_path, may, target))
          | inr e ↦ inl (find-rename_over_other path q l s.files (eqb-ne path q e))
        ],
        h,
      )
      after_replace-Safe too_many_links l s at_path target h = same s h
      after_replace-Safe no_such_file l s at_path target h = same s h
      after_replace-Safe link_error l s at_path target h = same s h
      after_replace-Safe rename_too_many_links l s at_path target h = same s h
      after_replace-Safe rename_error l s at_path target h = same s h

      link_to-Safe :
          (l : ℕ) (s : Store)
          → find path s.files ≡ some ino
          → Linkable (inode l)
          → AreLinkable s.links
          → Safe s (store_of (link_to sha256 inode file_hashes publish replace path ino l s))
      unfolding link_to
      link_to-Safe l s at_path target h = elim (Bool-cases (ino == l)) [
        | inl e ↦ rw e (same s h)
        | inr e ↦ rw e (after_replace-Safe (replace path) l s at_path target h)
      ]

      after_publish-Safe :
          (p : Published) (name : Bytes) (s : Store)
          → find path s.files ≡ some ino
          → ((l : ℕ) → p ≡ file_exists (some l) → Linkable (inode l))
          → AreLinkable s.links
          → Safe s
              (store_of (after_publish sha256 inode file_hashes publish replace p path ino name s))
      unfolding after_publish
      after_publish-Safe published name s at_path raced h = (λ q. inl refl, (may, h))
      after_publish-Safe no_space_on_device name s at_path raced h = same s h
      after_publish-Safe publish_error name s at_path raced h = same s h
      after_publish-Safe (file_exists none) name s at_path raced h = same s h
      after_publish-Safe (file_exists (some l)) name s at_path raced h =
          link_to-Safe l (record s { links = (name, l) ∷ s.links }) at_path (raced l refl)
            (raced l refl, h)

      join_farm-Safe :
          (name : Bytes) (s : Store)
          → find path s.files ≡ some ino
          → ((l : ℕ) → publish path ≡ file_exists (some l) → Linkable (inode l))
          → AreLinkable s.links
          → Safe s (store_of (join_farm sha256 inode file_hashes publish replace path ino name s))
      unfolding join_farm publish_link
      join_farm-Safe name s at_path raced h = elim (Option-cases (find name s.links)) [
        | inl e ↦ rw (e, join_farm) (after_publish-Safe (publish path) name s at_path raced h)
        | inr (l, e) ↦ elim (Bool-cases (st_size (inode ino).file == st_size (inode l).file)) [
          | inl k ↦
              rw (e, join_farm)
                (rw k (link_to-Safe l s at_path (find-Linkable name s.links l h e) h))
          | inr k ↦
              rw (e, join_farm)
                (rw k (
                  after_publish-Safe (publish path) name (record s { links = unlink name s.links })
                    at_path raced (AreLinkable-unlink name s.links h)))
        ]
      ]

      after_hash-Safe :
          (r : Result Bytes) (s : Store)
          → find path s.files ≡ some ino
          → ((l : ℕ) → publish path ≡ file_exists (some l) → Linkable (inode l))
          → AreLinkable s.links
          → Safe s (store_of (after_hash sha256 inode file_hashes publish replace r path ino s))
      unfolding after_hash
      after_hash-Safe (ok hash) s at_path raced h =
          join_farm-Safe (to_string hash nix32 false) s at_path raced h
      after_hash-Safe (err e) s at_path raced h = same s h

    module _
        (raced : (path : Bytes) (l : ℕ)
          → publish path ≡ file_exists (some l)
          → Linkable (inode l)) where
      optimise_inode-Safe :
          (path : Bytes) (ino : ℕ) (s : Store)
          → find path s.files ≡ some ino
          → AreLinkable s.links
          → Safe s (store_of (optimise_inode sha256 inode file_hashes publish replace path ino s))
      unfolding optimise_inode
      optimise_inode-Safe path ino s at_path h =
          let seen =
            ltb 1 (names_of ino s.files + names_of ino s.links) && contains ino s.inode_hash in
          elim (Bool-cases (is_candidate (inode ino))) [
            | inr e ↦ rw e (same s h)
            | inl e ↦ elim (Bool-cases seen) [
              | inl k ↦ rw (e, k) (same s h)
              | inr k ↦
                  rw (e, k)
                    (after_hash-Safe path ino (is_candidate-Linkable (inode ino) e) _ s at_path
                      (raced path) h)
            ]
          ]

      optimise_file-Safe :
          (path : Bytes) (s : Store)
          → AreLinkable s.links
          → Safe s (store_of (optimise_file sha256 inode file_hashes publish replace path s))
      unfolding optimise_file count_visit
      optimise_file-Safe path s h = elim (Option-cases (find path s.files)) [
        | inl e ↦ rw (e, optimise_file) (same s h)
        | inr (ino, e) ↦
            rw (e, optimise_file)
              (optimise_inode-Safe path ino
                (count_visit sha256 inode file_hashes publish replace ino s) e h)
      ]

      optimise_files-Safe :
          (paths : List Bytes) (s : Store)
          → AreLinkable s.links
          → Safe s (store_of (optimise_files sha256 inode file_hashes publish replace paths s))
      unfolding optimise_files
      optimise_files-Safe [] s h = same s h
      optimise_files-Safe (p ∷ paths) s h =
          let first = optimise_file-Safe p s h in
          elim (Walked-cases (optimise_file sha256 inode file_hashes publish replace p s)) [
            | inr (t, e) ↦ let d : Safe s t = rw e at first in rw (e, optimise_files) d
            | inl (t, e) ↦
                let d : Safe s t = rw e at first in
                let others = optimise_files-Safe paths t d.1 in
                rw (e, optimise_files)
                  (
                    λ q.
                        Linked-trans s t
                          (store_of
                            (optimise_files sha256 inode file_hashes publish replace paths t))
                          q (d.0 q) (others.0 q),
                    others.1,
                  )
          ]

      -- Whatever the kernel answers, and whether the walk ends or throws: every path has the contents
      -- that it had, a path that changes its inode has left a file that may be linked for another such
      -- file, and the farm stays one and holds only such files, which are symlinks and regular files that
      -- are neither writable nor empty. It is supposed that the farm held only such files before, and
      -- that other processes link only such ones; that no two files of the store have one hash, that
      -- links are named by the hash of their file or have another size, that captured hashes are those of
      -- files with the canonical time, that links of other processes are named by their hash, and that no
      -- path is reached twice.
      pub optimise_files-IsSafe :
          (paths : List Bytes) (s : Store)
          → NoCollision sha256 inode
          → IsFarm sha256 inode s
          → AreLinkable s.links
          → Distinct paths
          → All (λ p. Trusted sha256 inode file_hashes publish replace p s) paths
          → ((q : Bytes)
              → Kept sha256 inode s
                  (store_of (optimise_files sha256 inode file_hashes publish replace paths s))
                  q)
            × ((q : Bytes)
                → Linked s
                    (store_of (optimise_files sha256 inode file_hashes publish replace paths s))
                    q)
            × IsFarm sha256 inode
                (store_of (optimise_files sha256 inode file_hashes publish replace paths s))
            × AreLinkable
                ((store_of (optimise_files sha256 inode file_hashes publish replace paths s)).links)
      optimise_files-IsSafe paths s clear farm linkable distinct trusted =
          let (kept, still) =
            optimise_files-Kept sha256 inode file_hashes publish replace clear paths s farm distinct
              trusted in
          let (linked, only) = optimise_files-Safe paths s linkable in (kept, linked, still, only)
