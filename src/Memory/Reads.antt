-- ===== src/Memory/Reads.antt =====
-- src/libutil/memory-source-accessor.cc: what `addFile` changes, and what it leaves.
use archinix.Base.{
  ℕ, ◌≡◌, refl, sym, ap, ◌∙◌, ◌≢◌, ◌⊎◌, inl, inr, Bool, true, false, Option, none, some, [], ◌∷◌,
  if◌then◌else◌, Bool-cases, Option-cases, length, Bytes, eqb, eqb→eq, lt_bytes, Error, Result, ok,
  err, ◌>>?◌, >>?-eq-ok,
}
use archinix.Archive.Tree.{TreePath}
use archinix.Memory.{
  File, Files, empty, file, regular, directory, symlink, insert, find, walk, open_create,
  open_existing, open_root, set_contents, add_file, read_file,
}
use archinix.Memory.Entries.{find-insert_self}

-- `addFile` returns a tree in which `readFile` at the same path reports the size of the contents
-- and passes them on.
ok-value : {A : Type 0} {a b : A} → ◌≡◌ {A = Result A} (ok a) (ok b) → a ≡ b
ok-value h = cc

ok_some : {A : Type 0} {a b : A} → ◌≡◌ {A = Option A} (some a) (some b) → a ≡ b
ok_some h = cc

set_contents_inv :
    (contents : Bytes) (f g : File)
    → set_contents contents f ≡ ok g
    → (x : Bool) × (g ≡ regular x contents)
set_contents_inv contents (regular x c) g h = (x, cc)
set_contents_inv contents (directory es) g h = absurd cc
set_contents_inv contents (symlink t) g h = absurd cc

walk-open_existing :
    (new : Bool) (path : TreePath) (create : File) (contents : Bytes) (f g : File)
    → walk new path create (set_contents contents) f ≡ ok g
    → (x : Bool) × (open_existing path g ≡ ok (some (regular x contents)))
unfolding walk open_existing
walk-open_existing new [] create contents f g h =
    let (x, e) = set_contents_inv contents (if new then create else f) g h in
    (x, ap (λ y. ok (some y)) e)
walk-open_existing new (name ∷ path) create contents (directory es) g h =
    elim (Option-cases (find name es)) [
      | inl e ↦
          let (f', k, l) =
            >>?-eq-ok (walk true path create (set_contents contents) (directory empty)) _
              (rw (e, walk) at h) in
          let (x, r) = walk-open_existing true path create contents (directory empty) f' k in
          (x, rw (← ok-value l) (rw (find-insert_self name f' es, open_existing) r))
      | inr (f, e) ↦
          let (f', k, l) =
            >>?-eq-ok (walk new path create (set_contents contents) f) _ (rw (e, walk) at h) in
          let (x, r) = walk-open_existing new path create contents f f' k in
          (x, rw (← ok-value l) (rw (find-insert_self name f' es, open_existing) r))
    ]
walk-open_existing new (name ∷ path) create contents (regular x c) g h = absurd cc
walk-open_existing new (name ∷ path) create contents (symlink t) g h = absurd cc

add_file-open_existing :
    (path : TreePath) (contents : Bytes) (root : Option File) (g : File)
    → add_file path contents root ≡ ok g
    → (x : Bool) × (open_existing path g ≡ ok (some (regular x contents)))
unfolding add_file open_create walk
add_file-open_existing [] contents none g h =
    walk-open_existing true [] (regular false []) contents (directory empty) g h
add_file-open_existing [] contents (some f) g h =
    walk-open_existing false [] (regular false []) contents f g h
add_file-open_existing (name ∷ path) contents none g h =
    walk-open_existing false (name ∷ path) (regular false []) contents (directory empty) g h
add_file-open_existing (name ∷ path) contents (some f) g h =
    walk-open_existing false (name ∷ path) (regular false []) contents f g h

-- When `addFile` returns, `readFile` of the new tree at the same path reports the size of the
-- contents and passes them on.
read_file-add_file :
    (path : TreePath) (contents : Bytes) (root : Option File) (g : File)
    → add_file path contents root ≡ ok g
    → read_file path (some g) ≡ ok (length contents, contents)
unfolding read_file open_root
read_file-add_file path contents root g h =
    let (x, e) = add_file-open_existing path contents root g h in rw e refl

find-insert_other :
    (q name : Bytes) (f : File) (es : Files)
    → eqb name q ≡ false
    → find q (insert name f es) ≡ find q es
unfolding find insert
find-insert_other q name f empty h = rw h refl
find-insert_other q name f (file n g es) h = elim (Bool-cases (eqb n name)) [
  | inl e ↦ rw e (rw (eqb→eq n name e) (rw h refl))
  | inr e ↦ elim (Bool-cases (lt_bytes name n)) [
    | inl l ↦ rw e (rw l (rw h refl))
    | inr l ↦
        rw e (rw l (ap (λ t. if eqb n q then some g else t) (find-insert_other q name f es h)))
  ]
]

-- A file that a lookup finds.
abbrev IsFile : TreePath → File → Bool → Bytes → Type 0
IsFile path f x c = open_existing path f ≡ ok (some (regular x c))

-- The step of a walk into a directory: what the entry becomes.
walk_inv :
    (name : Bytes) (path : TreePath) (create : File) (contents : Bytes) (es : Files) (g : File)
    → walk false (name ∷ path) create (set_contents contents) (directory es) ≡ ok g
    → (f' : File) × (g ≡ directory (insert name f' es))
      × ((f : File)
          → find name es ≡ some f
          → walk false path create (set_contents contents) f ≡ ok f')
unfolding walk
walk_inv name path create contents es g h = elim (Option-cases (find name es)) [
  | inl e ↦
      let (f', k, l) =
        >>?-eq-ok (walk true path create (set_contents contents) (directory empty)) _
          (rw (e, walk) at h) in
      (f', sym (ok-value l), λ f e'. absurd cc)
  | inr (f, e) ↦
      let (f', k, l) =
        >>?-eq-ok (walk false path create (set_contents contents) f) _ (rw (e, walk) at h) in
      (f', sym (ok-value l), λ f2 e'. rw (← ok_some (sym e ∙ e')) k)
]

IsFile-find :
    (q : Bytes) (qs : TreePath) (es : Files) (x : Bool) (c : Bytes)
    → IsFile (q ∷ qs) (directory es) x c
    → (f : File) × (find q es ≡ some f) × IsFile qs f x c
unfolding open_existing
IsFile-find q qs es x c k = elim (Option-cases (find q es)) [
  | inl e ↦ absurd (let bad = rw (e, open_existing) at k in cc)
  | inr (f, e) ↦ (f, e, rw (e, open_existing) at k)
]

IsFile-directory :
    (q : Bytes) (qs : TreePath) (es : Files) (f : File) (x : Bool) (c : Bytes)
    → find q es ≡ some f
    → IsFile qs f x c
    → IsFile (q ∷ qs) (directory es) x c
unfolding open_existing
IsFile-directory q qs es f x c e k = rw (e, open_existing) k

walk-IsFile :
    (path q : TreePath) (create : File) (contents : Bytes) (f g : File) (x : Bool) (c : Bytes)
    → walk false path create (set_contents contents) f ≡ ok g
    → IsFile q f x c
    → q ≢ path
    → IsFile q g x c
unfolding walk open_existing
walk-IsFile [] [] create contents f g x c h k ne = absurd (ne refl)
walk-IsFile [] (q ∷ qs) create contents (regular y d) g x c h k ne = absurd cc
walk-IsFile [] (q ∷ qs) create contents (directory es) g x c h k ne = absurd cc
walk-IsFile [] (q ∷ qs) create contents (symlink t) g x c h k ne = absurd cc
walk-IsFile (name ∷ path) [] create contents (directory es) g x c h k ne = absurd cc
walk-IsFile (name ∷ path) (q ∷ qs) create contents (directory es) g x c h k ne =
    let (f', e, step) = walk_inv name path create contents es g h in
    let (f, found, k') = IsFile-find q qs es x c k in
    rw e (elim (Bool-cases (eqb name q)) [
      | inl same ↦
          let same' = eqb→eq name q same in
          IsFile-directory q qs _ f' x c (rw (← same') (find-insert_self name f' es)) (
            walk-IsFile path qs create contents f f' x c
              (step f (ap (λ n. find n es) same' ∙ found)) k' (λ e'. ne (cc (e', same'))))
      | inr other ↦ IsFile-directory q qs _ f x c (find-insert_other q name f' es other ∙ found) k'
    ])
walk-IsFile (name ∷ path) qs create contents (regular y d) g x c h k ne = absurd cc
walk-IsFile (name ∷ path) qs create contents (symlink t) g x c h k ne = absurd cc

read_file_inv :
    (q : TreePath) (f : File) (r : ℕ × Bytes)
    → read_file q (some f) ≡ ok r
    → (x : Bool) × (c : Bytes) × (r ≡ (length c, c)) × IsFile q f x c
unfolding read_file open_root
read_file_inv q f r h = go (open_existing q f) refl (>>?-eq-ok (open_existing q f) _ h)
  where
    go :
        (s : Result (Option File))
        → open_existing q f ≡ s
        → (y : Option File) × (open_existing q f ≡ ok y)
          × ◌≡◌ {A = Result (ℕ × Bytes)}
              (elim y [
                | none ↦ err Error.file_not_found
                | some (regular x c) ↦ ok (length c, c)
                | some (directory es) ↦ err Error.not_a_regular_file
                | some (symlink t) ↦ err Error.symlink_not_allowed
              ])
              (ok r)
        → (x : Bool) × (c : Bytes) × (r ≡ (length c, c)) × IsFile q f x c
    go s e (some (regular x c), k, l) = (x, c, sym (ok-value l), k)
    go s e (some (directory es), k, l) = absurd cc
    go s e (some (symlink t), k, l) = absurd cc
    go s e (none, k, l) = absurd cc

add_file-walk :
    (path : TreePath) (contents : Bytes) (f : File)
    → add_file path contents (some f) ≡ walk false path (regular false []) (set_contents contents) f
unfolding add_file open_create
add_file-walk [] contents f = refl
add_file-walk (name ∷ path) contents f = refl

-- When `addFile` at one path returns, what `readFile` gave at any other path is what it gives of the
-- new tree.
read_file-add_file_other :
    (path q : TreePath) (contents : Bytes) (root : Option File) (g : File) (r : ℕ × Bytes)
    → add_file path contents root ≡ ok g
    → q ≢ path
    → read_file q root ≡ ok r
    → read_file q (some g) ≡ ok r
unfolding read_file open_root
read_file-add_file_other path q contents none g r h ne k = absurd cc
read_file-add_file_other path q contents (some f) g r h ne k =
    let (x, c, e, found) = read_file_inv q f r k in
    let kept =
      walk-IsFile path q (regular false []) contents f g x c
        (sym (add_file-walk path contents f) ∙ h) found ne in
    rw kept (ap ok (sym e))

-- The exceptions of a creation.
abbrev pub IsCreateError : Error → Type 0
IsCreateError e =
    (e ≡ Error.not_a_regular_file) ⊎ ((e ≡ Error.not_a_directory) ⊎ (e ≡ Error.symlink_not_allowed))

set_contents-IsCreateError :
    (contents : Bytes) (f : File) (e : Error) → set_contents contents f ≡ err e → IsCreateError e
set_contents-IsCreateError contents (regular x c) e h = absurd cc
set_contents-IsCreateError contents (directory es) e h = inl cc
set_contents-IsCreateError contents (symlink t) e h = inl cc

written-err :
    (m : Result File) (f : File → File) (e : Error) → (m >>? λ g. ok (f g)) ≡ err e → m ≡ err e
written-err (ok g) f e h = absurd cc
written-err (err x) f e h = cc

walk-IsCreateError :
    (new : Bool) (path : TreePath) (create : File) (contents : Bytes) (f : File) (e : Error)
    → walk new path create (set_contents contents) f ≡ err e
    → IsCreateError e
unfolding walk
walk-IsCreateError new [] create contents f e h =
    set_contents-IsCreateError contents (if new then create else f) e h
walk-IsCreateError new (name ∷ path) create contents (directory es) e h =
    elim (Option-cases (find name es)) [
      | inl n ↦
          walk-IsCreateError true path create contents (directory empty) e
            (written-err _ _ e (rw (n, walk) at h))
      | inr (f, n) ↦
          walk-IsCreateError new path create contents f e (written-err _ _ e (rw (n, walk) at h))
    ]
walk-IsCreateError new (name ∷ path) create contents (regular x c) e h = inr (inl cc)
walk-IsCreateError new (name ∷ path) create contents (symlink t) e h = inr (inr cc)

-- Whatever the tree, `addFile` throws no other exception than NotARegularFile, NotADirectory or
-- SymlinkNotAllowed: never that a parent directory does not exist.
pub add_file-IsCreateError :
    (path : TreePath) (contents : Bytes) (root : Option File) (e : Error)
    → add_file path contents root ≡ err e
    → IsCreateError e
unfolding add_file open_create
add_file-IsCreateError [] contents none e h = absurd cc
add_file-IsCreateError (name ∷ path) contents none e h =
    walk-IsCreateError false (name ∷ path) (regular false []) contents (directory empty) e h
add_file-IsCreateError path contents (some f) e h =
    walk-IsCreateError false path (regular false []) contents f e
      (sym (add_file-walk path contents f) ∙ h)
