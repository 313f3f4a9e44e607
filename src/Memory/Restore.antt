-- ===== src/Memory/Restore.antt =====
-- Building a tree in memory from the calls that describe it.
use archinix.Base.{
  ℕ, ◌-◌, ◌≡◌, refl, ap, true, false, Option, none, some, List, [], ◌∷◌, ◌++◌, map, Bytes, lt_bytes,
  Result, ok, err, ◌>>?◌,
}
use archinix.Archive.Tree.{TreePath, SinkCall, is_executable, Node, Entries, end, entry, is_skipped}
use archinix.Archive.Format.{calls, calls_entries, contents_calls, IsArchivable, AreArchivable}
use archinix.Memory.{
  File, Files, empty, file, regular, directory, symlink, find, walk, open_create, Memory, nothing,
  call, replay,
}
use archinix.Memory.Entries.{AreBefore, snoc, insert-snoc, find_before, AreBefore-snoc}
use archinix.Memory.Local.{below, at, opened_below, lifted, replay-below, calls-below}

-- A tree in memory as the accessor shows it: `readDirectory` reports every type.
unfoldable mutual
  pub node_of : File → Node
  node_of (regular x c) = Node.regular x c
  node_of (directory es) = Node.directory (entries_of es)
  node_of (symlink t) = Node.symlink t

  pub entries_of : Files → Entries
  entries_of empty = end
  entries_of (file name f es) = entry name true (node_of f) (entries_of es)

is_skipped-node_of : (f : File) → is_skipped true (node_of f) ≡ false
unfolding node_of
is_skipped-node_of (regular x c) = refl
is_skipped-node_of (directory es) = refl
is_skipped-node_of (symlink t) = refl

replay-append :
    (cs ds : List SinkCall) (m : Memory)
    → replay (cs ++ ds) m ≡ (replay cs m >>? λ m'. replay ds m')
unfolding replay
replay-append [] ds m = refl
replay-append (c ∷ cs) ds m = go (λ m'. replay-append cs ds m') (call c m)
  where
    go :
        ((m' : Memory) → replay (cs ++ ds) m' ≡ (replay cs m' >>? λ m''. replay ds m''))
        → (r : Result Memory)
        → (r >>? λ m'. replay (cs ++ ds) m') ≡ ((r >>? λ m'. replay cs m') >>? λ m'. replay ds m')
    go rest (ok m') = rest m'
    go rest (err e) = refl

append_files : Files → Files → Files
append_files empty fs = fs
append_files (file n f es) fs = file n f (append_files es fs)

append_files-snoc :
    (es : Files) (n : Bytes) (f : File) (fs : Files)
    → append_files (snoc es n f) fs ≡ append_files es (file n f fs)
unfolding append_files snoc
append_files-snoc empty n f fs = refl
append_files-snoc (file m g es) n f fs = ap (file m g) (append_files-snoc es n f fs)

-- The first call of an entry creates it where there is none; the others stay inside it.
replay-entry :
    (name : Bytes) (acc : Files) (o : Option TreePath) (f : File)
    → find name acc ≡ none
    → replay (map (below name) (calls false [] (node_of f))) (at (directory acc) o)
      ≡ lifted name acc (replay (calls false [] (node_of f)) nothing)
unfolding replay call open_create walk calls node_of
replay-entry name acc o (regular true c) h =
    rw (h, walk)
      (replay-below name acc (is_executable ∷ contents_calls false c) (regular false []) (some []))
replay-entry name acc o (regular false c) h =
    rw (h, walk) (replay-below name acc (contents_calls false c) (regular false []) (some []))
replay-entry name acc o (directory es) h =
    rw (h, walk)
      (replay-below name acc (calls_entries false [] (entries_of es)) (directory empty) none)
replay-entry name acc o (symlink t) h = rw (h, walk) refl

-- The state that a sink reaches holds the tree.
abbrev pub Holds : Result Memory → File → Type 0
Holds r f = (o : Option TreePath) × (r ≡ ok (at f o))

replay-step :
    (cs ds : List SinkCall) (m : Memory) (f g : File)
    → Holds (replay cs m) f
    → ((o : Option TreePath) → Holds (replay ds (at f o)) g)
    → Holds (replay (cs ++ ds) m) g
replay-step cs ds m f g (o, e) k = rw (replay-append cs ds m) (rw e (k o))

append_files-empty : (es : Files) → append_files es empty ≡ es
unfolding append_files
append_files-empty empty = refl
append_files-empty (file n f es) = ap (file n f) (append_files-empty es)

-- An entry after the others, where the calls for its tree build the tree.
replay-add :
    (name : Bytes) (acc : Files) (o : Option TreePath) (f : File)
    → AreBefore acc name
    → Holds (replay (calls false [] (node_of f)) nothing) f
    → Holds
        (replay (calls false (name ∷ []) (node_of f)) (at (directory acc) o))
        (directory (snoc acc name f))
replay-add name acc o f before (p, e) = rw (calls-below false name [] (node_of f)) (
    rw (replay-entry name acc o f (find_before name acc before))
      (rw e (opened_below name p, rw (insert-snoc name f acc before) refl)))

mutual
  unfolding replay call open_create walk calls calls_entries node_of entries_of append_files

  pub replay-calls :
      (left : ℕ) (f : File)
      → IsArchivable false left (node_of f)
      → Holds (replay (calls false [] (node_of f)) nothing) f
  replay-calls left (regular true c) h = (_, refl)
  replay-calls left (regular false c) h = (_, refl)
  replay-calls left (directory es) h =
      replay-calls_entries (left - 1) [] es empty none h.1 (λ later l. tt)
  replay-calls left (symlink t) h = (_, refl)

  replay-calls_entries :
      (left : ℕ) (prev : Bytes) (es acc : Files) (o : Option TreePath)
      → AreArchivable false left prev (entries_of es)
      → ((later : Bytes) → lt_bytes prev later ≡ true → AreBefore acc later)
      → Holds
          (replay (calls_entries false [] (entries_of es)) (at (directory acc) o))
          (directory (append_files acc es))
  replay-calls_entries left prev empty acc o h before = (o, rw (append_files-empty acc) refl)
  replay-calls_entries left prev (file name f es) acc o h before =
      let (_, _, l, k, hs) = rw (is_skipped-node_of f) at h in
      let before' = before name l in
      rw (← append_files-snoc acc name f es) (
        rw (is_skipped-node_of f) (
          replay-step (calls false (name ∷ []) (node_of f)) (calls_entries false [] (entries_of es))
            (at (directory acc) o) (directory (snoc acc name f)) _
            (replay-add name acc o f before' (replay-calls left f k))
            (λ p.
              replay-calls_entries left name es (snoc acc name f) p hs
                (λ later l'. AreBefore-snoc acc name later f before' l'))))
