-- ===== src/Export/RoundTrip.antt =====
-- An exported stream is imported again: src/libstore/export-import.cc and arch/import-path.cc.
use archinix.Base.{
  ℕ, zero, suc, ◌-◌, ◌^◌, ◌≤◌, ◌<◌, ◌≡◌, refl, sym, ap, ◌∙◌, inl, inr, true, false, Option, none,
  List, [], ◌∷◌, ◌++◌, append-nil, append_assoc, arith, ◌==◌, Bool-cases, Option-cases, length,
  length-append, All, Bytes, eqb, eqb_refl, Result, ok, Parser, ◌>>=◌, take_front,
}
use mathlib.Core.Path.{subst}
use archinix.Serialise.{write_num, write_string, read_num, read_string, u64_max}
use archinix.Serialise.RoundTrip.{read_num-write_num, read_string-write_string}
use archinix.Archive.Tree.{nar_max_depth}
use archinix.Archive.Dump.{dump_path}
use archinix.Archive.Parse.{parse_dump}
use archinix.Archive.Format.{calls, IsArchivable}
use archinix.Archive.RoundTrip.{parse_dump-dump_path}
use archinix.CanonPath.Resolve.{render, NoSlash}
use archinix.CanonPath.Canonical.{IsEntry}
use archinix.StorePath.{name, print_store_path, make_content_addressed_path}
use archinix.StorePath.Laws.{store_path-make_content_addressed_path}
use archinix.StorePath.Parse.{parse_store_path, parse_store_path-print_store_path}
use archinix.Store.Schema.{Db, done, find_row, insert_row}
use archinix.Store.Paths.{
  ValidPathInfo, is_valid_path, register_valid_path, add_valid_path, size_column,
}
use archinix.Hash.{to_string, base16}
use archinix.Export.{
  export_magic, from_result, Item, read_paths, read_store_path_set, write_paths,
  write_store_path_set, export_path, export_paths, saved, import_one, add_to_store, import_loop,
  import_verified,
}

-- What an item needs: a tree that has a NAR, no references, and the hash and the path that its NAR gives it.
pub record IsExportable (sha256 : Bytes → Bytes) (store_dir : Bytes) (item : Item) : Type 0 where
  pub skimmed : IsArchivable true nar_max_depth item.tree
  pub archivable : IsArchivable false nar_max_depth item.tree
  pub independent : item.info.references ≡ []
  pub hashed : (nar : Bytes) → dump_path item.tree ≡ ok nar → item.info.nar_hash ≡ sha256 nar
  pub named :
      make_content_addressed_path sha256 store_dir (name item.info.path) item.info.nar_hash
      ≡ ok item.info.path
  pub plain : NoSlash item.info.path
  pub short : length (print_store_path store_dir item.info.path) ≤ u64_max

ok_of : {A : Type 0} {a b : A} → ◌≡◌ {A = Result A} (ok a) (ok b) → a ≡ b
ok_of h = cc

pub insert_row-done :
    (db : Db) (p hash : Bytes) (time : ℕ) (size : Option ℕ) (ca : Option Bytes)
    → find_row p db.rows ≡ none
    → (db' : Db) × (insert_row db p hash time size ca ≡ done db')
unfolding insert_row
insert_row-done db p hash time size ca e = (
  record db {
    rows =
        record {
          id = suc db.last_id;
          path = p;
          hash = hash;
          registration_time = time;
          nar_size = size;
          ca = ca;
        }
        ∷ db.rows;
    last_id = suc db.last_id;
  },
  rw (e, insert_row) refl,
)

length_num : (n : ℕ) → length (write_num n) ≡ 8
unfolding write_num
length_num n = refl

saved-append :
    {A : Type 0} (parser : Parser A) (bytes rest : Bytes) (a : A)
    → parser (bytes ++ rest) ≡ ok (a, rest)
    → saved parser (bytes ++ rest) ≡ ok (bytes, rest)
saved-append parser bytes rest a h =
    rw (h, saved)
      (ap (λ t. ok (t, rest)) (take_front _ bytes rest (omega (arith, length-append {0}))))

unfoldable pub paths_of : List Item → List Bytes
paths_of [] = []
paths_of (i ∷ items) = i.info.path ∷ paths_of items

module _ (sha256 : Bytes → Bytes) (d : Bytes) (dirs : List Bytes)
    (entries : All IsEntry (d ∷ dirs)) where
  abbrev pub store_dir : Bytes
  store_dir = render (d ∷ dirs)

  -- What `import_one` reads back.
  abbrev pub read_back : Item → Bytes → ValidPathInfo
  read_back item nar = record {
    path = item.info.path;
    nar_hash = sha256 nar;
    references = [];
    registration_time = 0;
    nar_size = length nar;
    ca = none;
  }

  pub import_one-written :
      (item : Item) (nar rest : Bytes)
      → IsExportable sha256 store_dir item
      → dump_path item.tree ≡ ok nar
      → import_one sha256 store_dir (
          nar
          ++ (write_num export_magic
              ++ (write_string (print_store_path store_dir item.info.path)
                  ++ (write_num 0 ++ rest))))
        ≡ ok ((read_back item nar, nar), rest)
  unfolding import_one read_store_path_set read_paths
  import_one-written item nar rest h dumped =
      let p = item.info.path in
      let text = print_store_path store_dir p in
      let tail3 = write_num 0 ++ rest in
      let tail2 = write_string text ++ tail3 in
      let tail1 = write_num export_magic ++ tail2 in
      let (bytes, e, k) = parse_dump-dump_path true item.tree tail1 h.skimmed in
      let same : bytes ≡ nar = ok_of (sym e ∙ dumped) in
      let parsed =
        subst (λ b. parse_dump true (b ++ tail1) ≡ ok (calls true [] item.tree, tail1)) same k in
      let first : saved (parse_dump true) (nar ++ tail1) ≡ ok (nar, tail1) =
        saved-append (parse_dump true) nar tail1 (calls true [] item.tree) parsed in
      let magic : read_num (2 ^ 32 - 1) tail1 ≡ ok (export_magic, tail2) =
        read_num-write_num (2 ^ 32 - 1) export_magic tail2 (omega arith) (omega arith) in
      let printed : read_string u64_max tail2 ≡ ok (text, tail3) =
        read_string-write_string u64_max text tail3 h.short (omega (arith, h.short)) in
      let none_referred : read_num u64_max tail3 ≡ ok (0, rest) =
        read_num-write_num u64_max 0 rest (omega arith) (omega arith) in
      let named : make_content_addressed_path sha256 store_dir (name p) (sha256 nar) ≡ ok p =
        ap (make_content_addressed_path sha256 store_dir (name p)) (sym (h.hashed nar dumped))
        ∙ h.named in
      let accepted =
        (store_path-make_content_addressed_path sha256 store_dir (name p) (sha256 nar) p named).0 in
      let path_read : parse_store_path store_dir text ≡ ok p =
        parse_store_path-print_store_path d p dirs entries h.plain accepted in
      rw (first, ◌>>=◌)
        (rw (magic, ◌>>=◌)
          (rw (printed, ◌>>=◌)
            (rw (path_read, from_result)
              (rw (none_referred, ◌>>=◌) (rw (named, from_result) (rw (eqb_refl p) refl))))))

  insert-done :
      (now : ℕ) (db : Db) (item : Item) (nar : Bytes)
      → is_valid_path sha256 store_dir db item.info.path ≡ false
      → (db' : Db) × (register_valid_path sha256 store_dir now db (read_back item nar) ≡ done db')
  unfolding register_valid_path add_valid_path is_valid_path
  insert-done now db item nar new =
      elim (Option-cases (find_row (print_store_path store_dir item.info.path) db.rows)) [
        | inl e ↦
            let (db', k) =
              insert_row-done db (print_store_path store_dir item.info.path)
                (to_string (sha256 nar) base16 true) now (size_column (length nar)) none e in
            (db', rw (new, register_valid_path) (rw k refl))
        | inr (r, e) ↦ absurd (let bad = rw (e, is_valid_path) at new in cc)
      ]

  add_to_store-done :
      (now : ℕ) (db : Db) (item : Item) (nar : Bytes)
      → IsExportable sha256 store_dir item
      → dump_path item.tree ≡ ok nar
      → (db' : Db) × (add_to_store sha256 store_dir now db (read_back item nar) nar ≡ done db')
  unfolding add_to_store
  add_to_store-done now db item nar h dumped =
      elim (Bool-cases (is_valid_path sha256 store_dir db item.info.path)) [
        | inl e ↦ (db, rw (e, add_to_store) refl)
        | inr e ↦
            let (bytes, e2, k) = parse_dump-dump_path false item.tree [] h.archivable in
            let same : bytes ≡ nar = ok_of (sym e2 ∙ dumped) in
            let parsed =
              subst (λ b. parse_dump false (b ++ []) ≡ ok (calls false [] item.tree, [])) same k in
            let taken = saved-append (parse_dump false) nar [] (calls false [] item.tree) parsed in
            let whole : saved (parse_dump false) nar ≡ ok (nar, []) =
              ap (saved (parse_dump false)) (sym (append-nil nar)) ∙ taken in
            let size : (length nar == length nar) ≡ true = ground arith in
            let (db', r) = insert-done now db item nar e in
            (db', rw (e, add_to_store) (rw whole (rw (eqb_refl (sha256 nar)) (rw size r))))
      ]

  abbrev body : Item → Bytes → Bytes
  body item nar =
      nar
      ++ (write_num export_magic
          ++ (write_string (print_store_path store_dir item.info.path) ++ (write_num 0 ++ [])))

  body-append :
      (item : Item) (nar rest : Bytes)
      → body item nar ++ rest
        ≡ nar
          ++ (write_num export_magic
              ++ (write_string (print_store_path store_dir item.info.path)
                  ++ (write_num 0 ++ rest)))
  body-append item nar rest = simp append_assoc refl

  export_path-body :
      (item : Item) (nar : Bytes)
      → IsExportable sha256 store_dir item
      → dump_path item.tree ≡ ok nar
      → export_path sha256 store_dir item ≡ ok (body item nar)
  unfolding export_path write_store_path_set write_paths
  export_path-body item nar h dumped =
      let same : eqb (sha256 nar) item.info.nar_hash ≡ true =
        ap (eqb (sha256 nar)) (h.hashed nar dumped) ∙ eqb_refl (sha256 nar) in
      let set : write_store_path_set sha256 store_dir item.info.references ≡ write_num 0 ++ [] =
        ap (write_store_path_set sha256 store_dir) h.independent in
      rw dumped (rw same (rw set refl))

  -- With any fuel above the number of items.
  import_loop-exported :
      (now fuel : ℕ) (db : Db) (items : List Item)
      → All (IsExportable sha256 store_dir) items
      → length items < fuel
      → (stream : Bytes) × (db' : Db) × (export_paths sha256 store_dir items ≡ ok stream)
        × (import_loop sha256 store_dir now fuel db stream ≡ done (paths_of items, db'))
        × (length items ≤ length stream)
  unfolding import_loop export_paths paths_of
  import_loop-exported now zero db items h enough = absurd (omega arith)
  import_loop-exported now (suc fuel) db [] h enough =
      let zero_read : read_num u64_max (write_num 0) ≡ ok (0, []) =
        ap (read_num u64_max) (sym (append-nil (write_num 0)))
        ∙ read_num-write_num u64_max 0 [] (omega arith) (omega arith) in
      (write_num 0, db, refl, rw zero_read refl, omega arith)
  import_loop-exported now (suc fuel) db (i ∷ items) (h, hs) enough =
      let (nar, dumped, parsed) = parse_dump-dump_path true i.tree [] h.skimmed in
      let (db1, added) = add_to_store-done now db i nar h dumped in
      let (stream, db2, exported, imported, long) =
        import_loop-exported now fuel db1 items hs (omega arith) in
      let one_read =
        read_num-write_num u64_max 1 (body i nar ++ stream) (omega arith) (omega arith) in
      (
        write_num 1 ++ (body i nar ++ stream),
        db2,
        rw (export_path-body i nar h dumped) (rw exported refl),
        rw one_read (
            rw (body-append i nar stream)
              (rw (import_one-written i nar stream h dumped) (rw added (rw imported refl)))),
        omega (
          arith,
          length-append (write_num 1) (body i nar ++ stream),
          length-append (body i nar) stream,
          long,
          length_num 1,
        ),
      )

  -- When every path has a tree with a NAR, no references, and the hash and the content address of its NAR,
  -- `exportPaths` writes a stream and `importVerified` of that stream, into any store, throws nothing and
  -- returns the paths in their order.
  pub import_verified-export_paths :
      (now : ℕ) (db : Db) (items : List Item)
      → All (IsExportable sha256 store_dir) items
      → (stream : Bytes) × (db' : Db) × (export_paths sha256 store_dir items ≡ ok stream)
        × (import_verified sha256 store_dir now db stream ≡ done (paths_of items, db'))
  unfolding import_verified
  import_verified-export_paths now db items h =
      let (stream, db1, exported, imported, long) =
        import_loop-exported now (suc (length items)) db items h (omega arith) in
      let (stream2, db2, exported2, imported2, long2) =
        import_loop-exported now (suc (length stream)) db items h (omega arith) in
      let same : stream2 ≡ stream = ok_of (sym exported2 ∙ exported) in
      (
        stream,
        db2,
        exported,
        subst
            (λ x.
              import_loop sha256 store_dir now (suc (length stream)) db x
              ≡ done (paths_of items, db2))
            same imported2,
      )
