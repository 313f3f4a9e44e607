-- ===== src/Memory/Local.antt =====
-- What a sink does inside one entry of a directory is what it does on the tree of that entry.
use archinix.Base.{
  ◌≡◌, refl, sym, ap, ◌⊎◌, inl, inr, Bool, true, false, Option, none, some, List, [], ◌∷◌, ◌++◌,
  map, Bool-cases, Bytes, Error, Result, ok, err, ◌>>?◌,
}
use archinix.Archive.Tree.{
  TreePath, SinkCall, create_regular_file, is_executable, preallocate_contents, write_contents,
  create_directory, create_symlink, Node, regular, directory, symlink, special, Entries, end, entry,
  is_skipped,
}
use archinix.Archive.Format.{calls, calls_entries}
use archinix.Memory.{
  File, Files, insert, walk, open_create, Memory, as_directory, as_regular, set_executable,
  append_contents, set_target, create_in, call, replay,
}
use archinix.Memory.Entries.{find-insert_self, insert-insert_self}
use mathlib.Core.List.{map-append}

-- A call at a path, as a call at the path below an entry.
abbrev pub below : Bytes → SinkCall → SinkCall
below name (create_regular_file path) = create_regular_file (name ∷ path)
below name is_executable = is_executable
below name (preallocate_contents size) = preallocate_contents size
below name (write_contents bytes) = write_contents bytes
below name (create_directory path) = create_directory (name ∷ path)
below name (create_symlink path target) = create_symlink (name ∷ path) target

abbrev pub at : File → Option TreePath → Memory
at f opened = record { root = some f; open_file = opened }

abbrev pub opened_below : Bytes → Option TreePath → Option TreePath
opened_below name none = none
opened_below name (some path) = some (name ∷ path)

module _ (name : Bytes) (es : Files) where
  abbrev pub inside : File → File
  inside f = File.directory (insert name f es)

  abbrev pub lift : Memory → Memory
  lift m = record {
    root = elim m.root [ none ↦ none | some f ↦ some (inside f) ];
    open_file = opened_below name m.open_file;
  }

  abbrev pub lifted : Result Memory → Result Memory
  lifted (ok m) = ok (lift m)
  lifted (err e) = err e

  walk-inside :
      (path : TreePath) (create : File) (modify : File → Result File) (f : File)
      → walk false (name ∷ path) create modify (inside f)
        ≡ (walk false path create modify f >>? λ g. ok (inside g))
  unfolding walk
  walk-inside path create modify f =
      rw (find-insert_self name f es, walk) (go (walk false path create modify f))
    where
      go :
          (r : Result File)
          → (r >>? λ g. ok (File.directory (insert name g (insert name f es))))
            ≡ (r >>? λ g. ok (inside g))
      go (ok g) = ap (λ x. ok (File.directory x)) (insert-insert_self name g f es)
      go (err e) = refl

-- On a tree that exists, a creation is a walk.
create_in-at :
    (path : TreePath) (create : File) (modify : File → Result File) (opened o : Option TreePath)
    (f : File)
    → create_in path create modify opened (at f o)
      ≡ (walk false path create modify f >>? λ g. ok (at g opened))
unfolding open_create
create_in-at [] create modify opened o f = refl
create_in-at (name ∷ path) create modify opened o f = refl

create_in-inside :
    (name : Bytes) (es : Files) (path : TreePath) (create : File) (modify : File → Result File)
    (opened o : Option TreePath) (f : File)
    → create_in (name ∷ path) create modify (opened_below name opened) (lift name es (at f o))
      ≡ lifted name es (create_in path create modify opened (at f o))
create_in-inside name es path create modify opened o f =
    rw
      (create_in-at (name ∷ path) create modify (opened_below name opened) (opened_below name o)
        (inside name es f))
      (rw (create_in-at path create modify opened o f)
        (rw (walk-inside name es path create modify f) (go (walk false path create modify f))))
  where
    go :
        (r : Result File)
        → ((r >>? λ g. ok (inside name es g)) >>? λ g. ok (at g (opened_below name opened)))
          ≡ lifted name es (r >>? λ g. ok (at g opened))
    go (ok g) = refl
    go (err e) = refl

call-below :
    (name : Bytes) (es : Files) (c : SinkCall) (f : File) (o : Option TreePath)
    → call (below name c) (lift name es (at f o)) ≡ lifted name es (call c (at f o))
unfolding call
call-below name es (create_directory path) f o =
    create_in-inside name es path (File.directory Files.empty) as_directory none o f
call-below name es (create_regular_file path) f o =
    create_in-inside name es path (File.regular false []) as_regular (some path) o f
call-below name es (create_symlink path target) f o =
    create_in-inside name es path (File.symlink []) (set_target target) none o f
call-below name es is_executable f none = refl
call-below name es is_executable f (some path) =
    create_in-inside name es path (File.regular false []) set_executable (some path) (some path) f
call-below name es (preallocate_contents size) f none = refl
call-below name es (preallocate_contents size) f (some path) =
    create_in-inside name es path (File.regular false []) as_regular (some path) (some path) f
call-below name es (write_contents bytes) f none = refl
call-below name es (write_contents bytes) f (some path) =
    create_in-inside name es path (File.regular false []) (append_contents bytes) (some path)
      (some path) f

-- A sink that has a root keeps one.
abbrev IsRooted : Result Memory → Type 0
IsRooted r = ((e : Error) × (r ≡ err e)) ⊎ ((f : File) × (o : Option TreePath) × (r ≡ ok (at f o)))

create_in-IsRooted :
    (path : TreePath) (create : File) (modify : File → Result File) (opened o : Option TreePath)
    (f : File)
    → IsRooted (create_in path create modify opened (at f o))
create_in-IsRooted path create modify opened o f =
    rw (create_in-at path create modify opened o f) (go (walk false path create modify f))
  where
    go : (r : Result File) → IsRooted (r >>? λ g. ok (at g opened))
    go (ok g) = inr (g, opened, refl)
    go (err e) = inl (e, refl)

call-IsRooted : (c : SinkCall) (f : File) (o : Option TreePath) → IsRooted (call c (at f o))
unfolding call
call-IsRooted (create_directory path) f o =
    create_in-IsRooted path (File.directory Files.empty) as_directory none o f
call-IsRooted (create_regular_file path) f o =
    create_in-IsRooted path (File.regular false []) as_regular (some path) o f
call-IsRooted (create_symlink path target) f o =
    create_in-IsRooted path (File.symlink []) (set_target target) none o f
call-IsRooted is_executable f none = inl (_, refl)
call-IsRooted is_executable f (some path) =
    create_in-IsRooted path (File.regular false []) set_executable (some path) (some path) f
call-IsRooted (preallocate_contents size) f none = inl (_, refl)
call-IsRooted (preallocate_contents size) f (some path) =
    create_in-IsRooted path (File.regular false []) as_regular (some path) (some path) f
call-IsRooted (write_contents bytes) f none = inl (_, refl)
call-IsRooted (write_contents bytes) f (some path) =
    create_in-IsRooted path (File.regular false []) (append_contents bytes) (some path) (some path)
      f

-- The calls of an entry's tree, made at the entry, change that entry alone, and as they would change
-- the tree by itself.
pub replay-below :
    (name : Bytes) (es : Files) (cs : List SinkCall) (f : File) (o : Option TreePath)
    → replay (map (below name) cs) (lift name es (at f o)) ≡ lifted name es (replay cs (at f o))
unfolding replay
replay-below name es [] f o = refl
replay-below name es (c ∷ cs) f o = rw (call-below name es c f o) (elim (call-IsRooted c f o) [
  | inl (e, h) ↦ rw h refl
  | inr (g, p, h) ↦ rw h (replay-below name es cs g p)
])

mutual
  unfolding calls calls_entries

  pub calls-below :
      (skip : Bool) (name : Bytes) (path : TreePath) (n : Node)
      → calls skip (name ∷ path) n ≡ map (below name) (calls skip path n)
  calls-below true name path (regular true c) = refl
  calls-below false name path (regular true c) = refl
  calls-below true name path (regular false c) = refl
  calls-below false name path (regular false c) = refl
  calls-below skip name path (directory es) =
      ap (create_directory (name ∷ path) ∷◌) (calls_entries-below skip name path es)
  calls-below skip name path (symlink target) = refl
  calls-below skip name path (special s) = refl

  calls_entries-below :
      (skip : Bool) (name : Bytes) (path : TreePath) (es : Entries)
      → calls_entries skip (name ∷ path) es ≡ map (below name) (calls_entries skip path es)
  calls_entries-below skip name path end = refl
  calls_entries-below skip name path (entry q known n es) = elim (Bool-cases (is_skipped known n)) [
    | inl e ↦ rw e (calls_entries-below skip name path es)
    | inr e ↦ rw e (
        rw (calls-below skip name (path ++ (q ∷ [])) n, calls_entries-below skip name path es)
          (sym (
            map-append (below name) (calls skip (path ++ (q ∷ [])) n)
              (calls_entries skip path es))))
  ]
