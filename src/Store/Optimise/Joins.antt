-- ===== src/Store/Optimise/Joins.antt =====
-- `optimisePath_` of src/libstore/optimise-store.cc where the kernel makes the links that it is asked
-- for: the steps with the farm.
use archinix.Base.{
  ℕ, ◌≡◌, refl, sym, ap, ◌∙◌, ◌≢◌, ◌⊎◌, inl, inr, true, false, Option, none, some, List, [], ◌∷◌,
  ◌==◌, if◌then◌else◌, Bool-cases, Option-cases, Bytes, eqb, eqb_refl, eqb→eq, ==_iff, Result, ok,
}
use archinix.Hash.{to_string, nix32}
use archinix.Archive.Dump.{dump, dump_path}
use archinix.Store.Verify.Report.{eqb-ne}
use archinix.Store.Optimise.{
  File, regular, symlink, other, Inode, Published, published, Replaced, replaced, Store, Walked,
  returned, find, unlink, after_publish, after_replace, contains, st_size, is_candidate, hash_path,
  link_to, publish_link, join_farm,
}
use archinix.Store.Optimise.Names.{
  HasName, NoCollision, IsFarm, find-IsLink, find-rename_over, some_is,
}

ok_is : {A : Type 0} {a b : A} → ◌≡◌ {A = Result A} (ok a) (ok b) → a ≡ b
ok_is h = cc

find-unlink : (name : Bytes) (es : List (Bytes × ℕ)) → find name (unlink name es) ≡ none
unfolding find unlink
find-unlink name [] = refl
find-unlink name ((n, i) ∷ es) = elim (Bool-cases (eqb n name)) [
  | inl e ↦ rw e (find-unlink name es)
  | inr e ↦ rw (e, find) (rw e (find-unlink name es))
]

hash_path-cases :
    (sha256 : Bytes → Bytes) (f : File)
    → ((h : Bytes) × (hash_path sha256 f ≡ ok h)) ⊎ ((n : ℕ) × (f ≡ other n))
unfolding hash_path dump_path dump
hash_path-cases sha256 (regular x c) = inl (_, refl)
hash_path-cases sha256 (symlink t) = inl (_, refl)
hash_path-cases sha256 (other n) = inr (n, refl)

find-unlink_other :
    (name q : Bytes) (es : List (Bytes × ℕ)) → name ≢ q → find q (unlink name es) ≡ find q es
unfolding find unlink
find-unlink_other name q [] ne = refl
find-unlink_other name q ((n, i) ∷ es) ne = elim (Bool-cases (eqb n name)) [
  | inl e ↦ elim (Bool-cases (eqb n q)) [
    | inl k ↦ absurd (ne (sym (eqb→eq n name e) ∙ eqb→eq n q k))
    | inr k ↦ rw (e, k) (find-unlink_other name q es ne)
  ]
  | inr e ↦ rw e (ap (λ f. if eqb n q then some i else f) (find-unlink_other name q es ne))
]

module _ (sha256 : Bytes → Bytes) (inode : ℕ → Inode) where
  -- An inode that counts as linked is that of a link.
  abbrev pub AreKnown : Store → Type 0
  AreKnown s =
      (i : ℕ) (name : Bytes)
      → contains i s.inode_hash ≡ true
      → HasName sha256 inode (inode i).file name
      → find name s.links ≡ some i

  -- The inode of a path is that of the link that is named by the hash of the file.
  abbrev pub IsJoined : Bytes → ℕ → Store → Type 0
  IsJoined path ino s =
      (i : ℕ) × (find path s.files ≡ some i)
      × ((inode i).file ≡ (inode ino).file)
      × ((name : Bytes) → HasName sha256 inode (inode ino).file name → find name s.links ≡ some i)

  -- No good link is lost.
  abbrev pub Lasting : Store → Store → Type 0
  Lasting s s' =
      (name : Bytes) (l : ℕ)
      → HasName sha256 inode (inode l).file name
      → find name s.links ≡ some l
      → find name s'.links ≡ some l

  -- What a step for a path does.
  pub record Joins (path : Bytes) (ino : ℕ) (s : Store) (w : Walked) : Type 0 where
    pub after : Store
    pub is_returned : w ≡ returned after
    pub joined : is_candidate (inode ino) ≡ true → IsJoined path ino after
    pub lasting : Lasting s after
    pub known : AreKnown s → AreKnown after

  HasName-unique :
      (f : File) (m n : Bytes) → HasName sha256 inode f m → HasName sha256 inode f n → m ≡ n
  HasName-unique f m n (h, is, prints) (k, is', prints') =
      let same : h ≡ k = ok_is (sym is ∙ is') in
      sym prints ∙ ap (λ x. to_string x nix32 false) same ∙ prints'

  pub candidate-hash_path :
      (st : Inode) → is_candidate st ≡ true → (h : Bytes) × (hash_path sha256 st.file ≡ ok h)
  unfolding is_candidate
  candidate-hash_path st candidate = elim (hash_path-cases sha256 st.file) [
    | inl has ↦ has
    | inr (n, e) ↦ absurd (let bad = rw (e, is_candidate) at candidate in cc)
  ]

  module _ (clear : NoCollision sha256 inode) (file_hashes : Option (ℕ × List (Bytes × Bytes)))
      (publish : Bytes → Published) (replace : Bytes → Replaced) where
    -- A link that is removed since its size differs was no good one.
    unlink-Lasting :
        (ino l : ℕ) (name : Bytes) (s : Store)
        → HasName sha256 inode (inode ino).file name
        → find name s.links ≡ some l
        → (st_size (inode ino).file == st_size (inode l).file) ≡ false
        → Lasting s (record s { links = unlink name s.links })
    unlink-Lasting ino l name s named at_name differs q i has at_q =
        elim (Bool-cases (eqb name q)) [
          | inr e ↦ find-unlink_other name q s.links (eqb-ne name q e) ∙ at_q
          | inl e ↦
              let same : l ≡ i =
                some_is (sym at_name ∙ ap (λ n. find n s.links) (eqb→eq name q e) ∙ at_q) in
              let equal : (inode ino).file ≡ (inode l).file =
                clear ino l name named (rw (same, eqb→eq name q e) has) in
              absurd (
                let bad =
                  sym differs ∙ (==_iff (st_size (inode ino).file) _).1 (ap st_size equal) in
                cc)
        ]

    Lasting-AreKnown :
        (s t : Store) → t.inode_hash ≡ s.inode_hash → Lasting s t → AreKnown s → AreKnown t
    Lasting-AreKnown s t same lasting known i name there has =
        lasting name i has (known i name (ap (contains i) (sym same) ∙ there) has)

    pub Joins-after :
        (path : Bytes) (ino : ℕ) (s t : Store) (w : Walked)
        → Lasting s t
        → (AreKnown s → AreKnown t)
        → Joins path ino t w
        → Joins path ino s w
    Joins-after path ino s t w lasting known d = record {
      after = d.after;
      is_returned = d.is_returned;
      joined = d.joined;
      lasting = λ name l has there. d.lasting name l has (lasting name l has there);
      known = λ k. d.known (known k);
    }

    module _ (path : Bytes) (ino : ℕ) (name : Bytes)
        (named : HasName sha256 inode (inode ino).file name) where
      publish_link-Joins :
          (s : Store)
          → find path s.files ≡ some ino
          → find name s.links ≡ none
          → publish path ≡ published
          → Joins path ino s (publish_link sha256 inode file_hashes publish replace path ino name s)
      unfolding publish_link after_publish find contains
      publish_link-Joins s at_path free publishes = rw publishes (record {
        after = record s { links = (name, ino) ∷ s.links; inode_hash = ino ∷ s.inode_hash };
        is_returned = refl;
        joined = λ c. (
          ino,
          at_path,
          refl,
          λ n has. rw (HasName-unique (inode ino).file name n named has, eqb_refl n) refl,
        );
        lasting = λ n l has there. elim (Bool-cases (eqb name n)) [
          | inl e ↦
              absurd (let bad = sym free ∙ ap (λ x. find x s.links) (eqb→eq name n e) ∙ there in cc)
          | inr e ↦ rw e there
        ];
        known = λ known i n there has. elim (Bool-cases (ino == i)) [
          | inl e ↦
              let same : ino ≡ i = (==_iff ino i).0 e in
              rw (HasName-unique (inode i).file name n (rw (← same) named) has, eqb_refl n, same)
                refl
          | inr e ↦
              let before : find n s.links ≡ some i = known i n (rw e at there) has in
              elim (Bool-cases (eqb name n)) [
                | inl k ↦
                    absurd (
                      let bad = sym free ∙ ap (λ x. find x s.links) (eqb→eq name n k) ∙ before in
                      cc)
                | inr k ↦ rw k before
              ]
        ];
      })

      link_to-Joins :
          (l : ℕ) (s : Store)
          → find path s.files ≡ some ino
          → find name s.links ≡ some l
          → ((inode l).file ≡ (inode ino).file)
          → replace path ≡ replaced
          → Joins path ino s (link_to sha256 inode file_hashes publish replace path ino l s)
      unfolding link_to after_replace
      link_to-Joins l s at_path at_name equal replaces = elim (Bool-cases (ino == l)) [
        | inl e ↦
            let same : ino ≡ l = (==_iff ino l).0 e in
            rw e (record {
              after = s;
              is_returned = refl;
              joined = λ c. (
                ino,
                at_path,
                refl,
                λ n has. rw (← HasName-unique (inode ino).file name n named has, same) at_name,
              );
              lasting = λ n i has there. there;
              known = λ known. known;
            })
        | inr e ↦
            rw (e, replaces)
              (record {
                after = _;
                is_returned = refl;
                joined = λ c. (
                  l,
                  find-rename_over path l s.files ino at_path,
                  equal,
                  λ n has. rw (← HasName-unique (inode ino).file name n named has) at_name,
                );
                lasting = λ n i has there. there;
                known = λ known. known;
              })
      ]

      pub join_farm-Joins :
          (s : Store)
          → find path s.files ≡ some ino
          → IsFarm sha256 inode s
          → publish path ≡ published
          → replace path ≡ replaced
          → Joins path ino s (join_farm sha256 inode file_hashes publish replace path ino name s)
      unfolding join_farm
      join_farm-Joins s at_path farm publishes replaces = elim (Option-cases (find name s.links)) [
        | inl e ↦ rw (e, join_farm) (publish_link-Joins s at_path e publishes)
        | inr (l, e) ↦ elim (Bool-cases (st_size (inode ino).file == st_size (inode l).file)) [
          | inl k ↦
              rw (e, join_farm)
                (rw k (
                  link_to-Joins l s at_path e
                    (elim (find-IsLink sha256 inode name s.links l farm e) [
                      | inl has ↦ clear l ino name has named
                      | inr differs ↦ absurd (let bad = sym k ∙ differs ino named in cc)
                    ])
                    replaces))
          | inr k ↦
              let t : Store = record s { links = unlink name s.links } in
              let lasting : Lasting s t = unlink-Lasting ino l name s named e k in
              rw (e, join_farm)
                (rw k (
                  Joins-after path ino s t _ lasting (Lasting-AreKnown s t refl lasting)
                    (publish_link-Joins t at_path (find-unlink name s.links) publishes)))
        ]
      ]
