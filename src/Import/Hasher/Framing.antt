-- ===== src/Import/Hasher/Framing.antt =====
-- The digests of src/libstore/local-store.cc's file hasher are those of `dumpPath` on each file.
use archinix.Base.{
  ℕ, ◌≡◌, refl, sym, ap, ◌∙◌, inl, inr, Bool, true, false, not, ◌||◌, Option, none, some, List, [],
  ◌∷◌, ◌++◌, append-nil, append_assoc, ◌==◌, if◌then◌else◌, Bool-cases, Bytes, ok, err,
}
use archinix.Serialise.{write_string, write_padding}
use archinix.Archive.Tag
use archinix.Archive.Tree.{
  TreePath, SinkCall, Node, regular, directory, symlink, special, Entries, end, entry, is_skipped,
}
use archinix.Archive.Dump.{dump, dump_path, dump_regular, dump_contents}
use archinix.Archive.Format.{calls, calls_entries}
use archinix.Hash.{to_string, HashFormat}
use archinix.Import.Hasher.{
  Event, Farm, Hasher, insert_or_assign, swap_or_post, try_dedup, end_file, handle, handle_all, abs,
  end_before, events,
}

-- What deduplication leaves alone.
abbrev IsKept : Hasher → Hasher → Type 0
IsKept h h' = (h'.key ≡ h.key) × (h'.files ≡ h.files) × (h'.symlinks ≡ h.symlinks)

module _ (sha256 : Bytes → Bytes) (farm : Farm) where
  swap_or_post-IsKept : (link : Bytes) (h : Hasher) → IsKept h (swap_or_post sha256 farm link h)
  swap_or_post-IsKept link h = elim (Bool-cases farm.has_pool) [
    | inl e ↦ rw e (refl, refl, refl)
    | inr e ↦ rw e (elim (Bool-cases (farm.swaps link h.key)) [
      | inl k ↦ rw k (refl, refl, refl)
      | inr k ↦ rw k (refl, refl, refl)
    ])
  ]

  try_dedup-IsKept : (digest : Bytes) (h : Hasher) → IsKept h (try_dedup sha256 farm digest h)
  try_dedup-IsKept digest h = elim (Bool-cases (not farm.dedups || h.size == 0)) [
    | inl e ↦ rw e (refl, refl, refl)
    | inr e ↦ rw e (go (farm.link_size (to_string digest HashFormat.nix32 false)))
  ]
    where
      link : Bytes
      link = to_string digest HashFormat.nix32 false

      go :
          (o : Option ℕ)
          → IsKept h (elim o [
            | none ↦ h
            | some st_size ↦ if st_size == h.size then swap_or_post sha256 farm link h else h
          ])
      go none = (refl, refl, refl)
      go (some n) = elim (Bool-cases (n == h.size)) [
        | inl k ↦ rw k (swap_or_post-IsKept link h)
        | inr k ↦ rw k (refl, refl, refl)
      ]

  -- The end of a file records the digest of what was fed, with the padding and the closing parenthesis.
  end_file-files :
      (h : Hasher) (digested : Bytes)
      → h.hash ≡ some digested
      → (h' : Hasher) × (end_file sha256 farm h ≡ ok h')
        × (h'.files
            ≡ insert_or_assign h.key
                (sha256 (digested ++ (write_padding h.size ++ write_string Tag.close_paren)))
                h.files)
        × (h'.symlinks ≡ h.symlinks)
  end_file-files h digested e =
      let fed = digested ++ (write_padding h.size ++ write_string Tag.close_paren) in
      let (k, f, n) = try_dedup-IsKept (sha256 fed) (record h { hash = some fed }) in
      rw e (_, refl, cc (k, f), n)

-- The digest of what `dumpPath` writes for one node.
abbrev pub digest_of : (Bytes → Bytes) → Node → Bytes
digest_of sha256 t = elim (dump_path t) [ ok bytes ↦ sha256 bytes | err e ↦ [] ]

-- The files and links of a tree with their paths, each with that digest.
unfoldable mutual
  pub digests : (Bytes → Bytes) → TreePath → TreePath → Node → List (Bytes × Bytes)
  digests sha256 prefix path (regular x c) =
      (abs (prefix ++ path), digest_of sha256 (regular x c)) ∷ []
  digests sha256 prefix path (symlink t) = (abs (prefix ++ path), digest_of sha256 (symlink t)) ∷ []
  digests sha256 prefix path (directory es) = digests_entries sha256 prefix path es
  digests sha256 prefix path (special s) = []

  digests_entries : (Bytes → Bytes) → TreePath → TreePath → Entries → List (Bytes × Bytes)
  digests_entries sha256 prefix path end = []
  digests_entries sha256 prefix path (entry name known n es) =
      if is_skipped known n
      then digests_entries sha256 prefix path es
      else digests sha256 prefix (path ++ (name ∷ [])) n ++ digests_entries sha256 prefix path es

unfoldable pub assign_all : List (Bytes × Bytes) → List (Bytes × Bytes) → List (Bytes × Bytes)
assign_all [] fs = fs
assign_all ((k, v) ∷ ds) fs = assign_all ds (insert_or_assign k v fs)

assign_all-append :
    (ds es fs : List (Bytes × Bytes)) → assign_all (ds ++ es) fs ≡ assign_all es (assign_all ds fs)
unfolding assign_all
assign_all-append [] es fs = refl
assign_all-append ((k, v) ∷ ds) es fs = assign_all-append ds es (insert_or_assign k v fs)

-- The calls that may follow the calls of a whole tree.
abbrev IsAtEnd : List SinkCall → Type 0
IsAtEnd cs = end_before cs ≡ Event.end ∷ []

module _ (sha256 : Bytes → Bytes) (farm : Farm) (prefix : TreePath) where
  -- After the events of the calls the files hold the given digests as well, and the rest follows.
  abbrev IsHashed : List SinkCall → List SinkCall → List (Bytes × Bytes) → Hasher → Type 0
  IsHashed cs rest ds h =
      (h' : Hasher) × (handle_all sha256 farm (events prefix (cs ++ rest)) h
        ≡ handle_all sha256 farm (events prefix rest) h')
      × (h'.files ≡ assign_all ds h.files)

  end-IsHashed :
      (rest : List SinkCall) (h : Hasher) (fed : Bytes)
      → h.hash ≡ some fed
      → IsAtEnd rest
      → (h' : Hasher) × (handle_all sha256 farm (end_before rest ++ events prefix rest) h
          ≡ handle_all sha256 farm (events prefix rest) h')
        × (h'.files
            ≡ insert_or_assign h.key
                (sha256 (fed ++ (write_padding h.size ++ write_string Tag.close_paren)))
                h.files)
  unfolding handle_all handle
  end-IsHashed rest h fed e at_end =
      let (h', k, f, n) = end_file-files sha256 farm h fed e in rw at_end (h', rw k refl, f)

  regular-IsHashed :
      (x : Bool) (path : TreePath) (c : Bytes) (rest : List SinkCall) (h : Hasher)
      → IsAtEnd rest
      → IsHashed (calls false path (regular x c)) rest (digests sha256 prefix path (regular x c)) h
  unfolding handle_all handle events calls digests assign_all dump_path dump dump_regular
      dump_contents
  regular-IsHashed true path c rest h e =
      let (h', k, f) = end-IsHashed rest _ _ refl e in
      (
        h',
        k,
        f
            ∙ ap (λ b. insert_or_assign (abs (prefix ++ path)) (sha256 b) h.files)
                (simp append_assoc refl),
      )
  regular-IsHashed false path c rest h e =
      let (h', k, f) = end-IsHashed rest _ _ refl e in
      (
        h',
        k,
        f
            ∙ ap (λ b. insert_or_assign (abs (prefix ++ path)) (sha256 b) h.files)
                (simp append_assoc refl),
      )

  symlink-IsHashed :
      (path : TreePath) (t : Bytes) (rest : List SinkCall) (h : Hasher)
      → IsHashed (calls false path (symlink t)) rest (digests sha256 prefix path (symlink t)) h
  unfolding handle_all handle events calls digests assign_all dump_path dump
  symlink-IsHashed path t rest h = (
    _,
    refl,
    ap (λ b. insert_or_assign (abs (prefix ++ path)) (sha256 b) h.files) (simp append_assoc refl),
  )

  IsHashed-append :
      (cs ds rest : List SinkCall) (xs ys : List (Bytes × Bytes)) (h : Hasher)
      → IsHashed cs (ds ++ rest) xs h
      → ((h' : Hasher) → IsHashed ds rest ys h')
      → IsHashed (cs ++ ds) rest (xs ++ ys) h
  IsHashed-append cs ds rest xs ys h (h', e, f) k =
      let (h2, e2, f2) = k h' in
      (
        h2,
        rw (append_assoc cs ds rest) (e ∙ e2),
        f2 ∙ ap (assign_all ys) f ∙ sym (assign_all-append xs ys h.files),
      )

mutual
  unfolding calls calls_entries

  calls-IsAtEnd :
      (path : TreePath) (n : Node) (rest : List SinkCall)
      → IsAtEnd rest
      → IsAtEnd (calls false path n ++ rest)
  calls-IsAtEnd path (regular x c) rest e = refl
  calls-IsAtEnd path (directory es) rest e = refl
  calls-IsAtEnd path (symlink t) rest e = refl
  calls-IsAtEnd path (special s) rest e = e

  calls_entries-IsAtEnd :
      (path : TreePath) (es : Entries) (rest : List SinkCall)
      → IsAtEnd rest
      → IsAtEnd (calls_entries false path es ++ rest)
  calls_entries-IsAtEnd path end rest e = e
  calls_entries-IsAtEnd path (entry name known n es) rest e =
      elim (Bool-cases (is_skipped known n)) [
        | inl k ↦ rw k (calls_entries-IsAtEnd path es rest e)
        | inr k ↦ rw k (
            rw
              (append_assoc (calls false (path ++ (name ∷ [])) n) (calls_entries false path es)
                rest)
              (calls-IsAtEnd (path ++ (name ∷ [])) n (calls_entries false path es ++ rest)
                (calls_entries-IsAtEnd path es rest e)))
      ]

module _ (sha256 : Bytes → Bytes) (farm : Farm) (prefix : TreePath) where
  mutual
    unfolding calls calls_entries digests digests_entries events assign_all

    node-IsHashed :
        (path : TreePath) (n : Node) (rest : List SinkCall) (h : Hasher)
        → IsAtEnd rest
        → IsHashed sha256 farm prefix (calls false path n) rest (digests sha256 prefix path n) h
    node-IsHashed path (regular x c) rest h e =
        regular-IsHashed sha256 farm prefix x path c rest h e
    node-IsHashed path (directory es) rest h e = entries-IsHashed path es rest h e
    node-IsHashed path (symlink t) rest h e = symlink-IsHashed sha256 farm prefix path t rest h
    node-IsHashed path (special s) rest h e = (h, refl, refl)

    entries-IsHashed :
        (path : TreePath) (es : Entries) (rest : List SinkCall) (h : Hasher)
        → IsAtEnd rest
        → IsHashed sha256 farm prefix
            (calls_entries false path es)
            rest
            (digests_entries sha256 prefix path es)
            h
    entries-IsHashed path end rest h e = (h, refl, refl)
    entries-IsHashed path (entry name known n es) rest h e =
        elim (Bool-cases (is_skipped known n)) [
          | inl k ↦ rw k (entries-IsHashed path es rest h e)
          | inr k ↦ rw k (
              IsHashed-append sha256 farm prefix (calls false (path ++ (name ∷ [])) n)
                (calls_entries false path es) rest (digests sha256 prefix (path ++ (name ∷ [])) n)
                (digests_entries sha256 prefix path es) h
                (node-IsHashed (path ++ (name ∷ [])) n (calls_entries false path es ++ rest) h
                  (calls_entries-IsAtEnd path es rest e))
                (λ h'. entries-IsHashed path es rest h' e))
        ]

  -- While the calls that create a tree pass a FileHashingSink, the hasher throws nothing, and it assigns
  -- to the path of every file and link below the prefix the digest of what `dumpPath` writes for that node
  -- by itself, whatever the digest function and whatever the farm holds.
  pub hasher-digests :
      (t : Node) (h : Hasher)
      → (h' : Hasher) × (handle_all sha256 farm (events prefix (calls false [] t)) h ≡ ok h')
        × (h'.files ≡ assign_all (digests sha256 prefix [] t) h.files)
  unfolding handle_all events
  hasher-digests t h =
      let (h', e, f) = node-IsHashed [] t [] h refl in
      (
        h',
        ap (λ cs. handle_all sha256 farm (events prefix cs) h) (sym (append-nil (calls false [] t)))
            ∙ e,
        f,
      )
