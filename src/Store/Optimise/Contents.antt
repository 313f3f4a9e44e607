-- ===== src/Store/Optimise/Contents.antt =====
-- `optimisePath_` of src/libstore/optimise-store.cc changes no contents.
use mathlib.Core.Path.{subst}
use archinix.Base.{
  ℕ, ◌+◌, ◌≡◌, refl, sym, ap, ◌∙◌, ◌≢◌, ◌⊎◌, inl, inr, true, false, ◌&&◌, Option, some, List, [],
  ◌∷◌, ltb, Bool-cases, Option-cases, All, Bytes, eqb, eqb→eq, Result, ok, err,
}
use archinix.Hash.{to_string, nix32}
use archinix.Store.Verify.Visits.{Distinct}
use archinix.Store.Verify.Report.{eqb-ne, or-false}
use archinix.Store.Invalidate.{contains_path}
use archinix.Store.Optimise.{
  Inode, Published, file_exists, Replaced, Store, Walked, returned, thrown, store_of, find,
  names_of, contains, is_candidate, hash_path, captured, hash_of, after_hash, optimise_inode,
  count_visit, optimise_file, optimise_files,
}
use archinix.Store.Optimise.Names.{
  HasName, NoCollision, IsFarm, Kept, Optimised, Optimised-same, Optimised-after,
  join_farm-Optimised, some_is,
}

ok_is : {A : Type 0} {a b : A} → ◌≡◌ {A = Result A} (ok a) (ok b) → a ≡ b
ok_is h = cc

-- What holds of the other paths of a list without the path.
pub All-others :
    (p : Bytes) (P Q : Bytes → Type 0)
    → ((q : Bytes) → p ≢ q → P q → Q q)
    → (paths : List Bytes) → contains_path p paths ≡ false
    → All P paths
    → All Q paths
unfolding contains_path
All-others p P Q f [] out h = tt
All-others p P Q f (q ∷ paths) out (hq, h) =
    let (ne, rest) = or-false (eqb q p) (contains_path p paths) out in
    (f q (λ same. eqb-ne q p ne (sym same)) hq, All-others p P Q f paths rest h)

pub All-at :
    (P : Bytes → Type 0) (p : Bytes) (paths : List Bytes)
    → All P paths
    → contains_path p paths ≡ true
    → P p
unfolding contains_path
All-at P p [] h there = cc
All-at P p (q ∷ paths) (hq, h) there = elim (Bool-cases (eqb q p)) [
  | inl e ↦ subst P (eqb→eq q p e) hq
  | inr e ↦ All-at P p paths h (rw e at there)
]

pub Walked-cases : (w : Walked) → ((s : Store) × (w ≡ returned s)) ⊎ ((s : Store) × (w ≡ thrown s))
Walked-cases (returned s) = inl (s, refl)
Walked-cases (thrown s) = inr (s, refl)

module _ (sha256 : Bytes → Bytes) (inode : ℕ → Inode)
    (file_hashes : Option (ℕ × List (Bytes × Bytes))) (publish : Bytes → Published)
    (replace : Bytes → Replaced) where
  -- The captured hash of a path is that of its file, as long as the time of the file is canonical; and
  -- a link that another process made has the hash that it is named by.
  abbrev pub Trusted : Bytes → Store → Type 0
  Trusted path s =
      (ino : ℕ)
      → find path s.files ≡ some ino
      → ((h : Bytes)
          → (inode ino).canonical ≡ true
          → captured file_hashes path ≡ some h
          → hash_path sha256 (inode ino).file ≡ ok h)
        × ((l : ℕ) (name : Bytes)
            → publish path ≡ file_exists (some l)
            → HasName sha256 inode (inode ino).file name
            → HasName sha256 inode (inode l).file name)

  hash_of-hash_path :
      (path : Bytes) (st : Inode) (h : Bytes)
      → ((h : Bytes)
          → st.canonical ≡ true
          → captured file_hashes path ≡ some h
          → hash_path sha256 st.file ≡ ok h)
      → hash_of sha256 inode file_hashes publish replace path st ≡ ok h
      → hash_path sha256 st.file ≡ ok h
  unfolding hash_of
  hash_of-hash_path path st h right is = elim (Bool-cases st.canonical) [
    | inr e ↦ rw e at is
    | inl e ↦ elim (Option-cases (captured file_hashes path)) [
      | inl none_there ↦ rw (none_there, hash_of) at (rw (e, hash_of) at is)
      | inr (k, there) ↦
          let same : k ≡ h = ok_is (rw (there, hash_of) at (rw (e, hash_of) at is)) in
          right h e (rw (← same) there)
    ]
  ]

  Trusted-same :
      (p : Bytes) (s s' : Store) → find p s'.files ≡ find p s.files → Trusted p s → Trusted p s'
  Trusted-same p s s' same trusted ino at_path = trusted ino (sym same ∙ at_path)

  pub All-Trusted :
      (p : Bytes) (s s' : Store)
      → ((q : Bytes) → p ≢ q → find q s'.files ≡ find q s.files)
      → (paths : List Bytes) → contains_path p paths ≡ false
      → All (λ q. Trusted q s) paths
      → All (λ q. Trusted q s') paths
  All-Trusted p s s' others paths out =
      All-others p (λ q. Trusted q s) (λ q. Trusted q s')
        (λ q ne. Trusted-same q s s' (others q ne)) paths out

  Kept-trans :
      (s t u : Store) (q : Bytes)
      → Kept sha256 inode s t q
      → Kept sha256 inode t u q
      → Kept sha256 inode s u q
  Kept-trans s t u q (inl e) (inl k) = inl (k ∙ e)
  Kept-trans s t u q (inl e) (inr (i, l, was, is, equal, candidate)) =
      inr (i, l, sym e ∙ was, is, equal, candidate)
  Kept-trans s t u q (inr (i, l, was, is, equal, candidate)) (inl k) =
      inr (i, l, was, k ∙ is, equal, candidate)
  Kept-trans s t u q (inr (i, l, was, is, equal, candidate)) (inr (j, m, was', is', equal', _)) =
      let same : j ≡ l = some_is (sym was' ∙ is) in
      inr (i, m, was, is', equal' ∙ ap (λ x. (inode x).file) same ∙ equal, candidate)

  module _ (clear : NoCollision sha256 inode) where
    after_hash-Optimised :
        (path : Bytes) (ino : ℕ) (s : Store)
        → IsFarm sha256 inode s
        → find path s.files ≡ some ino
        → is_candidate (inode ino) ≡ true
        → ((l : ℕ) (name : Bytes)
            → publish path ≡ file_exists (some l)
            → HasName sha256 inode (inode ino).file name
            → HasName sha256 inode (inode l).file name)
        → (r : Result Bytes) → ((h : Bytes) → r ≡ ok h → hash_path sha256 (inode ino).file ≡ ok h)
        → Optimised sha256 inode path s
            (store_of (after_hash sha256 inode file_hashes publish replace r path ino s))
    unfolding after_hash
    after_hash-Optimised path ino s farm at_path candidate raced (err x) is =
        Optimised-same sha256 inode path s s refl (λ h. h)
    after_hash-Optimised path ino s farm at_path candidate raced (ok h) is =
        let named : HasName sha256 inode (inode ino).file (to_string h nix32 false) =
          (h, is h refl, refl) in
        join_farm-Optimised sha256 inode file_hashes publish replace clear path ino
          (to_string h nix32 false) candidate named s farm at_path
          (λ l p. raced l (to_string h nix32 false) p named)

    optimise_inode-Optimised :
        (path : Bytes) (ino : ℕ) (s : Store)
        → IsFarm sha256 inode s
        → find path s.files ≡ some ino
        → Trusted path s
        → Optimised sha256 inode path s
            (store_of (optimise_inode sha256 inode file_hashes publish replace path ino s))
    unfolding optimise_inode
    optimise_inode-Optimised path ino s farm at_path trusted =
        let (right, raced) = trusted ino at_path in
        let seen =
          ltb 1 (names_of ino s.files + names_of ino s.links) && contains ino s.inode_hash in
        elim (Bool-cases (is_candidate (inode ino))) [
          | inr e ↦ rw e (Optimised-same sha256 inode path s s refl (λ h. h))
          | inl e ↦ elim (Bool-cases seen) [
            | inl k ↦ rw (e, k) (Optimised-same sha256 inode path s s refl (λ h. h))
            | inr k ↦
                rw (e, k)
                  (after_hash-Optimised path ino s farm at_path e raced _
                    (λ h is. hash_of-hash_path path (inode ino) h right is))
          ]
        ]

    pub optimise_file-Optimised :
        (path : Bytes) (s : Store)
        → IsFarm sha256 inode s
        → Trusted path s
        → Optimised sha256 inode path s
            (store_of (optimise_file sha256 inode file_hashes publish replace path s))
    unfolding optimise_file count_visit
    optimise_file-Optimised path s farm trusted = elim (Option-cases (find path s.files)) [
      | inl e ↦ rw (e, optimise_file) (Optimised-same sha256 inode path s s refl (λ h. h))
      | inr (ino, e) ↦
          let t = count_visit sha256 inode file_hashes publish replace ino s in
          rw (e, optimise_file)
            (Optimised-after sha256 inode path s t _ refl (λ h. h)
              (optimise_inode-Optimised path ino t farm e trusted))
    ]

    -- The walk keeps the contents of every path, and the farm stays one.
    pub optimise_files-Kept :
        (paths : List Bytes) (s : Store)
        → IsFarm sha256 inode s
        → Distinct paths
        → All (λ p. Trusted p s) paths
        → ((q : Bytes)
            → Kept sha256 inode s
                (store_of (optimise_files sha256 inode file_hashes publish replace paths s))
                q)
          × IsFarm sha256 inode
              (store_of (optimise_files sha256 inode file_hashes publish replace paths s))
    unfolding optimise_files
    optimise_files-Kept [] s farm distinct trusted = (λ q. inl refl, farm)
    optimise_files-Kept (p ∷ paths) s farm (out, distinct) (hp, trusted) =
        let first = optimise_file-Optimised p s farm hp in
        elim (Walked-cases (optimise_file sha256 inode file_hashes publish replace p s)) [
          | inr (s', e) ↦
              let d : Optimised sha256 inode p s s' = rw e at first in
              rw (e, optimise_files) (d.kept, d.farm farm)
          | inl (s', e) ↦
              let d : Optimised sha256 inode p s s' = rw e at first in
              let (kept, still) =
                optimise_files-Kept paths s' (d.farm farm) distinct
                  (All-Trusted p s s' d.others paths out trusted) in
              rw (e, optimise_files)
                (
                  λ q.
                      Kept-trans s s'
                        (store_of
                          (optimise_files sha256 inode file_hashes publish replace paths s'))
                        q (d.kept q) (kept q),
                  still,
                )
        ]
