-- ===== src/Store/Optimise/Shared.antt =====
-- `optimisePath_` of src/libstore/optimise-store.cc where the kernel makes the links that it is asked
-- for: files that are equal come to share an inode.
use mathlib.Core.Path.{subst}
use archinix.Base.{
  ℕ, ◌+◌, ◌≡◌, refl, sym, ap, ◌∙◌, inl, inr, true, false, ◌&&◌, Option, some, List, [], ◌∷◌, ltb,
  Bool-cases, and-true, Option-cases, All, Bytes, eqb, ok,
}
use archinix.Hash.{to_string, nix32}
use archinix.Store.Verify.Report.{eqb-ne, or-false}
use archinix.Store.Optimise.{
  captured, Inode, Published, published, Replaced, replaced, Store, returned, find, names_of,
  contains, is_candidate, hash_path, hash_of, after_hash, optimise_inode, count_visit,
  optimise_file, optimise_files,
}
use archinix.Store.Optimise.Names.{HasName, NoCollision, IsFarm, some_is, Optimised}
use archinix.Store.Optimise.Contents.{Trusted, All-Trusted, optimise_file-Optimised}
use archinix.Store.Optimise.Contents.{All-others, All-at}
use archinix.Store.Verify.Visits.{Distinct}
use archinix.Store.Invalidate.{contains_path}
use archinix.Store.Optimise.Joins.{
  AreKnown, IsJoined, Lasting, Joins, Joins-after, candidate-hash_path, join_farm-Joins,
}

module _ (sha256 : Bytes → Bytes) (inode : ℕ → Inode) (clear : NoCollision sha256 inode)
    (file_hashes : Option (ℕ × List (Bytes × Bytes))) (publish : Bytes → Published)
    (replace : Bytes → Replaced) where
  hash_of-ok :
      (path : Bytes) (st : Inode) (h : Bytes)
      → ((k : Bytes)
          → st.canonical ≡ true
          → captured file_hashes path ≡ some k
          → hash_path sha256 st.file ≡ ok k)
      → hash_path sha256 st.file ≡ ok h
      → hash_of sha256 inode file_hashes publish replace path st ≡ ok h
  unfolding hash_of
  hash_of-ok path st h right is = elim (Bool-cases st.canonical) [
    | inr e ↦ rw e is
    | inl e ↦ elim (Option-cases (captured file_hashes path)) [
      | inl none_there ↦ rw (e, hash_of) (rw none_there is)
      | inr (k, there) ↦ rw (e, hash_of) (rw there (sym (right k e there) ∙ is))
    ]
  ]

  optimise_inode-Joins :
      (path : Bytes) (ino : ℕ) (s : Store)
      → find path s.files ≡ some ino
      → IsFarm sha256 inode s
      → AreKnown sha256 inode s
      → Trusted sha256 inode file_hashes publish replace path s
      → publish path ≡ published
      → replace path ≡ replaced
      → Joins sha256 inode path ino s
          (optimise_inode sha256 inode file_hashes publish replace path ino s)
  unfolding optimise_inode after_hash
  optimise_inode-Joins path ino s at_path farm known trusted publishes replaces =
      let several = ltb 1 (names_of ino s.files + names_of ino s.links) in
      elim (Bool-cases (is_candidate (inode ino))) [
        | inr e ↦ rw e (record {
          after = s;
          is_returned = refl;
          joined = λ c. absurd (let bad = sym e ∙ c in cc);
          lasting = λ n i has there. there;
          known = λ k. k;
        })
        | inl e ↦ elim (Bool-cases (several && contains ino s.inode_hash)) [
          | inl k ↦
              rw (e, k)
                (record {
                  after = s;
                  is_returned = refl;
                  joined =
                      λ c. (ino, at_path, refl, λ n has. known ino n (and-true several _ k).1 has);
                  lasting = λ n i has there. there;
                  known = λ k. k;
                })
          | inr k ↦
              let (h, is) = candidate-hash_path sha256 inode (inode ino) e in
              rw (e, k, hash_of-ok path (inode ino) h (trusted ino at_path).0 is)
                (join_farm-Joins sha256 inode clear file_hashes publish replace path ino
                  (to_string h nix32 false) (h, is, refl) s at_path farm publishes replaces)
        ]
      ]

  optimise_file-Joins :
      (path : Bytes) (ino : ℕ) (s : Store)
      → find path s.files ≡ some ino
      → IsFarm sha256 inode s
      → AreKnown sha256 inode s
      → Trusted sha256 inode file_hashes publish replace path s
      → publish path ≡ published
      → replace path ≡ replaced
      → Joins sha256 inode path ino s
          (optimise_file sha256 inode file_hashes publish replace path s)
  unfolding optimise_file count_visit
  optimise_file-Joins path ino s at_path farm known trusted publishes replaces =
      let t = count_visit sha256 inode file_hashes publish replace ino s in
      rw (at_path, optimise_file)
        (Joins-after sha256 inode clear file_hashes publish replace path ino s t _
          (λ n i has there. there) (λ k. k)
          (optimise_inode-Joins path ino t at_path farm known trusted publishes replaces))

  -- A path of the walk is joined to the farm, if it is a candidate.
  abbrev pub IsShared : Store → Store → Bytes → Type 0
  IsShared s s' p =
      (ino : ℕ)
      → find p s.files ≡ some ino
      → is_candidate (inode ino) ≡ true
      → IsJoined sha256 inode p ino s'

  IsShared-Lasting :
      (s t s' : Store) (p : Bytes)
      → find p s'.files ≡ find p t.files
      → Lasting sha256 inode t s'
      → IsShared s t p
      → IsShared s s' p
  IsShared-Lasting s t s' p same lasting shared ino at_path candidate =
      let (i, is, equal, links) = shared ino at_path candidate in
      (
        i,
        same ∙ is,
        equal,
        λ n has. lasting n i (subst (λ f. HasName sha256 inode f n) (sym equal) has) (links n has),
      )

  record Linked (paths : List Bytes) (s : Store) : Type 0 where
    after : Store
    is_returned : optimise_files sha256 inode file_hashes publish replace paths s ≡ returned after
    shared : All (IsShared s after) paths
    others : (q : Bytes) → contains_path q paths ≡ false → find q after.files ≡ find q s.files
    lasting : Lasting sha256 inode s after

  module _ (publishes : (p : Bytes) → publish p ≡ published)
      (replaces : (p : Bytes) → replace p ≡ replaced) where
    optimise_files-Linked :
        (paths : List Bytes) (s : Store)
        → IsFarm sha256 inode s
        → AreKnown sha256 inode s
        → Distinct paths
        → All (λ p. Trusted sha256 inode file_hashes publish replace p s) paths
        → All (λ p. (ino : ℕ) × (find p s.files ≡ some ino)) paths
        → Linked paths s
    unfolding optimise_files contains_path
    optimise_files-Linked [] s farm known distinct trusted there = record {
      after = s;
      is_returned = refl;
      shared = tt;
      others = λ q out. refl;
      lasting = λ n i has h. h;
    }
    optimise_files-Linked (p ∷ paths) s farm known (out, distinct) (hp, trusted)
          ((ino, at_path), there) =
        let first = optimise_file-Joins p ino s at_path farm known hp (publishes p) (replaces p) in
        let t = first.after in
        let step =
          optimise_file-Optimised sha256 inode file_hashes publish replace clear p s farm hp in
        let d : Optimised sha256 inode p s t = rw first.is_returned at step in
        let rest =
          optimise_files-Linked paths t (d.farm farm) (first.known known) distinct
            (All-Trusted sha256 inode file_hashes publish replace p s t d.others paths out trusted)
            (All-others p _ _ (λ q ne (i, is). (i, d.others q ne ∙ is)) paths out there) in
        let start : IsShared s t p = λ i is.
          subst (λ j. is_candidate (inode j) ≡ true → IsJoined sha256 inode p j t)
            (some_is (sym at_path ∙ is)) first.joined in
        record {
          after = rest.after;
          is_returned = rw (first.is_returned, optimise_files) rest.is_returned;
          shared = (
            IsShared-Lasting s t rest.after p (rest.others p out) rest.lasting start,
            All-others p (IsShared t rest.after) (IsShared s rest.after)
                (λ q ne shared i is. shared i (d.others q ne ∙ is)) paths out rest.shared,
          );
          others = λ q fresh.
              let (ne, fresh') = or-false (eqb p q) (contains_path q paths) fresh in
              rest.others q fresh' ∙ d.others q (eqb-ne p q ne);
          lasting = λ n i has h. rest.lasting n i has (first.lasting n i has h);
        }

    -- Where the kernel makes every link, and every path of the walk is there, the walk ends and throws
    -- nothing, and two candidates of it with equal files end on one inode, that of a file like theirs.
    -- It is supposed that no two files of the store have one hash, that links are named by the hash of
    -- their file or have another size, that each inode that counts as linked is that of the link named
    -- by its hash, that captured hashes are those of files with the canonical time, and that no path is
    -- reached twice.
    pub optimise_files-shared :
        (paths : List Bytes) (s : Store)
        → IsFarm sha256 inode s
        → AreKnown sha256 inode s
        → Distinct paths
        → All (λ p. Trusted sha256 inode file_hashes publish replace p s) paths
        → All (λ p. (ino : ℕ) × (find p s.files ≡ some ino)) paths
        → (p q : Bytes) (i j : ℕ) → contains_path p paths ≡ true
        → contains_path q paths ≡ true
        → find p s.files ≡ some i
        → find q s.files ≡ some j
        → is_candidate (inode i) ≡ true
        → is_candidate (inode j) ≡ true
        → (inode i).file ≡ (inode j).file
        → (s' : Store) × (l : ℕ) × (optimise_files sha256 inode file_hashes publish replace paths s
            ≡ returned s')
          × (find p s'.files ≡ some l)
          × (find q s'.files ≡ some l)
          × ((inode l).file ≡ (inode i).file)
    optimise_files-shared paths s farm known distinct trusted there p q i j has_p has_q at_p at_q cp
          cq equal =
        let d = optimise_files-Linked paths s farm known distinct trusted there in
        let (l, is_l, same, link_p) =
          All-at (IsShared s d.after) p paths d.shared has_p i at_p cp in
        let (m, is_m, _, link_q) = All-at (IsShared s d.after) q paths d.shared has_q j at_q cq in
        let (h, is) = candidate-hash_path sha256 inode (inode i) cp in
        let name : Bytes = to_string h nix32 false in
        let one : m ≡ l = some_is (
          sym (link_q name (subst (λ f. HasName sha256 inode f name) equal (h, is, refl)))
          ∙ link_p name (h, is, refl)) in
        (d.after, l, d.is_returned, is_l, is_m ∙ ap some one, same)
