-- ===== src/Store/Optimise/Names.antt =====
-- The changes of names that `optimisePath_` of src/libstore/optimise-store.cc makes for one file.
use archinix.Base.{
  ℕ, ◌≡◌, refl, sym, ap, ◌∙◌, ◌≢◌, ◌⊎◌, inl, inr, true, false, Option, none, some, List, [], ◌∷◌,
  ◌==◌, Bool-cases, Option-cases, All, Bytes, eqb, eqb→eq, ok,
}
use archinix.Hash.{to_string, nix32}
use archinix.Store.Verify.Report.{eqb-ne}
use archinix.Store.Optimise.{
  File, Inode, Published, published, no_space_on_device, publish_error, file_exists, Replaced,
  replaced, too_many_links, no_such_file, link_error, rename_too_many_links, rename_error, Store,
  store_of, find, unlink, rename_over, st_size, is_candidate, hash_path, after_replace, link_to,
  after_publish, publish_link, join_farm,
}

pub find-rename_over :
    (p : Bytes) (l : ℕ) (es : List (Bytes × ℕ)) (i : ℕ)
    → find p es ≡ some i
    → find p (rename_over p l es) ≡ some l
unfolding find rename_over
find-rename_over p l [] i h = cc
find-rename_over p l ((n, j) ∷ es) i h = elim (Bool-cases (eqb n p)) [
  | inl e ↦ rw e refl
  | inr e ↦ rw e (find-rename_over p l es i (rw e at h))
]

pub find-rename_over_other :
    (p q : Bytes) (l : ℕ) (es : List (Bytes × ℕ)) → p ≢ q → find q (rename_over p l es) ≡ find q es
unfolding find rename_over
find-rename_over_other p q l [] ne = refl
find-rename_over_other p q l ((n, j) ∷ es) ne = elim (Bool-cases (eqb n q)) [
  | inl e ↦ elim (Bool-cases (eqb n p)) [
    | inl k ↦ absurd (ne (sym (eqb→eq n p k) ∙ eqb→eq n q e))
    | inr k ↦ rw (e, k) refl
  ]
  | inr e ↦ rw e (find-rename_over_other p q l es ne)
]

pub some_is : {A : Type 0} {a b : A} → ◌≡◌ {A = Option A} (some a) (some b) → a ≡ b
some_is h = cc

module _ (sha256 : Bytes → Bytes) (inode : ℕ → Inode) where
  -- The name of a file in the farm.
  abbrev pub HasName : File → Bytes → Type 0
  HasName f name = (h : Bytes) × (hash_path sha256 f ≡ ok h) × (to_string h nix32 false ≡ name)

  -- No two files of this store have one hash.
  abbrev pub NoCollision : Type 0
  NoCollision =
      (i j : ℕ) (name : Bytes)
      → HasName (inode i).file name
      → HasName (inode j).file name
      → (inode i).file ≡ (inode j).file

  -- A link is named by the hash of its file, or corrupted so that the sizes show it.
  abbrev pub IsLink : Bytes × ℕ → Type 0
  IsLink link =
      HasName (inode link.1).file link.0
      ⊎ ((i : ℕ)
          → HasName (inode i).file link.0
          → (st_size (inode i).file == st_size (inode link.1).file) ≡ false)

  abbrev pub IsFarm : Store → Type 0
  IsFarm s = All IsLink s.links

  -- A path has its inode still, or that of an equal file, and then it was a candidate.
  abbrev pub Kept : Store → Store → Bytes → Type 0
  Kept s s' q =
      (find q s'.files ≡ find q s.files)
      ⊎ ((i : ℕ) × (l : ℕ) × (find q s.files ≡ some i)
          × (find q s'.files ≡ some l)
          × ((inode l).file ≡ (inode i).file)
          × (is_candidate (inode i) ≡ true))

  pub record Optimised (path : Bytes) (s s' : Store) : Type 0 where
    pub kept : (q : Bytes) → Kept s s' q
    pub others : (q : Bytes) → path ≢ q → find q s'.files ≡ find q s.files
    pub farm : IsFarm s → IsFarm s'

  pub Optimised-same :
      (path : Bytes) (s s' : Store)
      → s'.files ≡ s.files
      → (IsFarm s → IsFarm s')
      → Optimised path s s'
  Optimised-same path s s' same farm = record {
    kept = λ q. inl (ap (find q) same);
    others = λ q ne. ap (find q) same;
    farm = farm;
  }

  -- A change of the farm before the step.
  pub Optimised-after :
      (path : Bytes) (s t s' : Store)
      → t.files ≡ s.files
      → (IsFarm s → IsFarm t)
      → Optimised path t s'
      → Optimised path s s'
  Optimised-after path s t s' same farm d = record {
    kept = λ q. elim (d.kept q) [
      | inl e ↦ inl (e ∙ ap (find q) same)
      | inr (i, l, was, is, equal, candidate) ↦
          inr (i, l, sym (ap (find q) same) ∙ was, is, equal, candidate)
    ];
    others = λ q ne. d.others q ne ∙ ap (find q) same;
    farm = λ h. d.farm (farm h);
  }

  IsFarm-unlink :
      (name : Bytes) (links : List (Bytes × ℕ)) → All IsLink links → All IsLink (unlink name links)
  unfolding unlink
  IsFarm-unlink name [] h = tt
  IsFarm-unlink name ((n, l) ∷ links) (hl, h) = elim (Bool-cases (eqb n name)) [
    | inl e ↦ rw e (IsFarm-unlink name links h)
    | inr e ↦ rw e (hl, IsFarm-unlink name links h)
  ]

  -- A link that is found.
  pub find-IsLink :
      (name : Bytes) (links : List (Bytes × ℕ)) (l : ℕ)
      → All IsLink links
      → find name links ≡ some l
      → IsLink (name, l)
  unfolding find
  find-IsLink name [] l h f = cc
  find-IsLink name ((n, j) ∷ links) l (hj, h) f = elim (Bool-cases (eqb n name)) [
    | inl e ↦ let same : j ≡ l = some_is (rw e at f) in rw (← same) (rw (← eqb→eq n name e) hj)
    | inr e ↦ find-IsLink name links l h (rw e at f)
  ]

  module _ (file_hashes : Option (ℕ × List (Bytes × Bytes))) (publish : Bytes → Published)
      (replace : Bytes → Replaced) where
    module _ (path : Bytes) (ino l : ℕ) (s : Store) (at_path : find path s.files ≡ some ino)
        (candidate : is_candidate (inode ino) ≡ true)
        (equal : (inode l).file ≡ (inode ino).file) where
      after_replace-Optimised :
          (r : Replaced)
          → Optimised path s
              (store_of (after_replace sha256 inode file_hashes publish replace r path ino l s))
      unfolding after_replace
      after_replace-Optimised replaced = record {
        kept = λ q. elim (Bool-cases (eqb path q)) [
          | inl e ↦
              rw (← eqb→eq path q e) (
                inr
                  (ino, l, at_path, find-rename_over path l s.files ino at_path, equal, candidate))
          | inr e ↦ inl (find-rename_over_other path q l s.files (eqb-ne path q e))
        ];
        others = λ q ne. find-rename_over_other path q l s.files ne;
        farm = λ h. h;
      }
      after_replace-Optimised too_many_links = Optimised-same path s s refl (λ h. h)
      after_replace-Optimised no_such_file = Optimised-same path s s refl (λ h. h)
      after_replace-Optimised link_error = Optimised-same path s s refl (λ h. h)
      after_replace-Optimised rename_too_many_links = Optimised-same path s s refl (λ h. h)
      after_replace-Optimised rename_error = Optimised-same path s s refl (λ h. h)

      link_to-Optimised :
          Optimised path s
            (store_of (link_to sha256 inode file_hashes publish replace path ino l s))
      unfolding link_to
      link_to-Optimised = elim (Bool-cases (ino == l)) [
        | inl e ↦ rw e (Optimised-same path s s refl (λ h. h))
        | inr e ↦ rw e (after_replace-Optimised (replace path))
      ]

    module _ (clear : NoCollision) (path : Bytes) (ino : ℕ) (name : Bytes)
        (candidate : is_candidate (inode ino) ≡ true) (named : HasName (inode ino).file name) where
      after_publish-Optimised :
          (p : Published) (s : Store)
          → find path s.files ≡ some ino
          → ((l : ℕ) → p ≡ file_exists (some l) → HasName (inode l).file name)
          → Optimised path s
              (store_of (after_publish sha256 inode file_hashes publish replace p path ino name s))
      unfolding after_publish
      after_publish-Optimised published s at_path raced =
          Optimised-same path s _ refl (λ h. (inl named, h))
      after_publish-Optimised no_space_on_device s at_path raced =
          Optimised-same path s s refl (λ h. h)
      after_publish-Optimised publish_error s at_path raced = Optimised-same path s s refl (λ h. h)
      after_publish-Optimised (file_exists none) s at_path raced =
          Optimised-same path s s refl (λ h. h)
      after_publish-Optimised (file_exists (some l)) s at_path raced =
          let t : Store = record s { links = (name, l) ∷ s.links } in
          Optimised-after path s t _ refl (λ h. (inl (raced l refl), h))
            (link_to-Optimised path ino l t at_path candidate
              (clear l ino name (raced l refl) named))

      pub join_farm-Optimised :
          (s : Store)
          → IsFarm s
          → find path s.files ≡ some ino
          → ((l : ℕ) → publish path ≡ file_exists (some l) → HasName (inode l).file name)
          → Optimised path s
              (store_of (join_farm sha256 inode file_hashes publish replace path ino name s))
      unfolding join_farm publish_link
      join_farm-Optimised s farm at_path raced = elim (Option-cases (find name s.links)) [
        | inl e ↦ rw (e, join_farm) (after_publish-Optimised (publish path) s at_path raced)
        | inr (l, e) ↦ elim (Bool-cases (st_size (inode ino).file == st_size (inode l).file)) [
          | inl k ↦
              rw (e, join_farm)
                (rw k (
                  link_to-Optimised path ino l s at_path candidate
                    (elim (find-IsLink name s.links l farm e) [
                      | inl has ↦ clear l ino name has named
                      | inr differs ↦ absurd (let bad = sym k ∙ differs ino named in cc)
                    ])))
          | inr k ↦
              let t : Store = record s { links = unlink name s.links } in
              rw (e, join_farm)
                (rw k (
                  Optimised-after path s t _ refl (λ h. IsFarm-unlink name s.links h)
                    (after_publish-Optimised (publish path) t at_path raced)))
        ]
      ]
