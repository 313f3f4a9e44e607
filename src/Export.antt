-- ===== src/Export.antt =====
-- src/libstore/export-import.cc, `importVerified` of arch/import-path.cc and `LocalStore::addToStore` of
-- src/libstore/local-store.cc: paths as one stream, and the stream back into a store. A path on disk is its
-- tree; metadata, locks and the optimisation after the restore are left out.
pub mod RoundTrip
pub mod Verified
mod Tests
use archinix.Base.{
  ◌>>=◌, ◌>>◌, ℕ, zero, suc, ◌+◌, ◌-◌, ◌/◌, ◌^◌, true, false, not, ◌&&◌, none, List, [], ◌∷◌, ◌++◌,
  ◌==◌, if◌then◌else◌, length, take, replicate, Bytes, eqb, Error, Result, ok, err, throw_if, ◌>>?◌,
  Parser, ◌>>◌, pure,
}
use archinix.Serialise.{write_num, write_string, read_num, read_string, u64_max}
use archinix.Archive.Tree.{Node}
use archinix.Archive.Dump.{dump_path}
use archinix.Archive.Parse.{parse_dump}
use archinix.StorePath.{name, print_store_path, make_content_addressed_path}
use archinix.StorePath.Parse.{parse_store_path}
use archinix.Store.Schema.{Db, StoreError, Outcome, done, failed, ◌>>!◌}
use archinix.Store.Paths.{ValidPathInfo, lift, is_valid_path, register_valid_path}
use archinix.Store.Invalidate.{contains_path}

abbrev pub export_magic : ℕ
export_magic = 0x4558494f

abbrev pub from_result : {A : Type 0} → Result A → Parser A
from_result (ok a) s = ok (a, s)
from_result (err e) s = err e

-- `res.insert`
unfoldable pub insert_new : Bytes → List Bytes → List Bytes
unfolding contains_path
insert_new p ps = if contains_path p ps then ps else ps ++ (p ∷ [])

-- What a parser took from the source, as the TeeSource around it sees it.
abbrev pub saved : {A : Type 0} → Parser A → Parser Bytes
saved parser s = elim (parser s) [
  | ok (a, rest) ↦ ok (take (length s - length rest) s, rest)
  | err e ↦ err e
]

-- A path with the tree that is on disk under its name.
pub record Item : Type 0 where
  pub info : ValidPathInfo
  pub tree : Node

module _ (sha256 : Bytes → Bytes) (store_dir : Bytes) where
  unfoldable pub read_paths : ℕ → List Bytes → Parser (List Bytes)
  unfolding insert_new
  read_paths zero res = pure res
  read_paths (suc size) res = do
    text ← read_string u64_max
    path ← from_result (parse_store_path store_dir text)
    read_paths size (insert_new path res)

  unfoldable pub read_store_path_set : Parser (List Bytes)
  unfolding read_paths
  read_store_path_set = do size ← read_num u64_max; read_paths size []

  unfoldable pub write_paths : List Bytes → Bytes
  write_paths [] = []
  write_paths (p ∷ ps) = write_string (print_store_path store_dir p) ++ write_paths ps

  unfoldable pub write_store_path_set : List Bytes → Bytes
  unfolding write_paths
  write_store_path_set paths = write_num (length paths) ++ write_paths paths

  -- `exportPath`: a path whose tree does not have its hash is refused, unless that hash is zero.
  unfoldable pub export_path : Item → Result Bytes
  unfolding write_store_path_set
  export_path item = dump_path item.tree >>? λ nar.
      if not (eqb (sha256 nar) item.info.nar_hash) && not (eqb item.info.nar_hash (replicate 32 0))
      then err Error.bad_hash
      else ok (
          nar
          ++ (write_num export_magic
              ++ (write_string (print_store_path store_dir item.info.path)
                  ++ write_store_path_set item.info.references)))

  unfoldable pub export_paths : List Item → Result Bytes
  unfolding export_path
  export_paths [] = ok (write_num 0)
  export_paths (i ∷ items) =
      export_path i >>? λ bytes. export_paths items >>? λ rest. ok (write_num 1 ++ (bytes ++ rest))

  -- One path of `importVerified`, up to the call of `addToStore`.
  unfoldable pub import_one : Parser (ValidPathInfo × Bytes)
  unfolding read_store_path_set
  import_one = do
    nar ← saved (parse_dump true)
    magic ← read_num (2 ^ 32 - 1)
    throw_if (not (magic == export_magic)) Error.not_an_archive
    text ← read_string u64_max
    path ← from_result (parse_store_path store_dir text)
    references ← read_store_path_set
    expected ← from_result (make_content_addressed_path sha256 store_dir (name path) (sha256 nar))
    throw_if (not (eqb path expected)) Error.bad_hash
    throw_if (not (length references == 0)) Error.usage_error
    pure (
      record {
        path = path;
        nar_hash = sha256 nar;
        references = references;
        registration_time = 0;
        nar_size = length nar;
        ca = none;
      },
      nar,
    )

  -- `addToStore`, where the source holds the given bytes.
  unfoldable pub add_to_store : ℕ → Db → ValidPathInfo → Bytes → Outcome Db
  add_to_store now db info source =
      if is_valid_path sha256 store_dir db info.path
      then done db
      else lift (saved (parse_dump false) source) >>! λ got.
          if not (eqb (sha256 got.0) info.nar_hash)
          then failed StoreError.hash_mismatch
          else if not (length got.0 == info.nar_size)
          then failed StoreError.size_mismatch
          else register_valid_path sha256 store_dir now db info

  -- The loop of `importVerified`.
  unfoldable pub import_loop : ℕ → ℕ → Db → Bytes → Outcome (List Bytes × Db)
  unfolding import_one add_to_store
  import_loop now zero db s = failed (StoreError.unreadable Error.out_of_fuel)
  import_loop now (suc fuel) db s = lift (read_num u64_max s) >>! λ head.
      if head.0 == 0
      then done ([], db)
      else if not (head.0 == 1)
      then failed (StoreError.unreadable Error.usage_error)
      else (lift (import_one head.1) >>! λ one. add_to_store now db one.0.0 one.0.1 >>! λ db'.
          import_loop now fuel db' one.1 >>! λ rest. done (one.0.0.path ∷ rest.0, rest.1))

  unfoldable pub import_verified : ℕ → Db → Bytes → Outcome (List Bytes × Db)
  unfolding import_loop
  import_verified now db s = import_loop now (suc (length s)) db s
