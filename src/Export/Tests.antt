-- ===== src/Export/Tests.antt =====
-- A run of the export and the import of one path, with a digest function that is always zero.
use archinix.Base.{
  ◌≡◌, refl, false, none, List, [], ◌∷◌, ◌++◌, arith, replicate, All, Bytes, codes, eqb,
  contains_byte, ok, err,
}
use archinix.Encoding.Nix32
use archinix.Encoding.Base16
use archinix.Hash.{to_string}
use archinix.Archive.Tree.{Node}
use archinix.CanonPath.Resolve.{render, is_entry}
use archinix.CanonPath.Canonical.{IsEntry}
use archinix.StorePath.{
  make_content_addressed_path, make_store_path, compress_hash, compress_loop, xor_at,
  store_path_of_hash, check_name, all_of, is_name_char, has_bad_dots, print_store_path,
}
use archinix.Store.Schema.{Db, done}
use archinix.Store.Paths.{ValidPathInfo}
use archinix.Archive.Dump.{dump_path, dump}
use archinix.Serialise.{write_num, write_string}
use archinix.Export.Verified.{IsVerified, import_one-IsVerified}
use archinix.Export.{export_magic, Item, export_paths, import_verified}
use archinix.Export.RoundTrip.{
  IsExportable, paths_of, import_verified-export_paths, import_one-written, read_back,
}

abbrev zeros : Bytes → Bytes
zeros bytes = replicate 32 0

abbrev path : Bytes
path = replicate 32 b'0' ++ codes "-x"

abbrev item : Item
item = record {
  info = record {
    path = path;
    nar_hash = replicate 32 0;
    references = [];
    registration_time = 0;
    nar_size = 0;
    ca = none;
  };
  tree = Node.regular false (codes "hi");
}

abbrev dirs : List Bytes
dirs = codes "store" ∷ codes "nix" ∷ []

dirs-IsEntry : All IsEntry dirs
unfolding contains_byte is_entry eqb
dirs-IsEntry = ((refl, refl), ((refl, refl), tt))

item-IsExportable : IsExportable zeros (render dirs) item
unfolding make_content_addressed_path make_store_path compress_hash compress_loop xor_at to_string
    Base16.encode store_path_of_hash check_name all_of is_name_char has_bad_dots Nix32.encode
    Nix32.encoded_length contains_byte print_store_path render
item-IsExportable = record {
  skimmed = (omega arith, omega arith);
  archivable = (omega arith, omega arith);
  independent = refl;
  hashed = λ nar e. refl;
  named = refl;
  plain = refl;
  short = omega arith;
}

abbrev empty_db : Db
empty_db = record { rows = []; refs = []; last_id = 0 }

import_verified-export_paths_example :
    (stream : Bytes) × (db' : Db) × (export_paths zeros (render dirs) (item ∷ []) ≡ ok stream)
    × (import_verified zeros (render dirs) 1 empty_db stream ≡ done (paths_of (item ∷ []), db'))
import_verified-export_paths_example =
    import_verified-export_paths zeros (codes "store") (codes "nix" ∷ []) dirs-IsEntry 1 empty_db
      (item ∷ []) (item-IsExportable, tt)

abbrev hi : Bytes
hi = elim (dump_path item.tree) [ ok bytes ↦ bytes | err e ↦ [] ]

hi_dumped : dump_path item.tree ≡ ok hi
unfolding dump_path dump
hi_dumped = refl

abbrev hi_info : ValidPathInfo
hi_info = read_back zeros (codes "store") (codes "nix" ∷ []) dirs-IsEntry item hi

-- The stream behind the first word of it, with a byte that is left over.
abbrev hi_stream : Bytes
hi_stream =
    hi
    ++ (write_num export_magic
        ++ (write_string (print_store_path (render dirs) path) ++ (write_num 0 ++ (5 ∷ []))))

import_one-IsVerified_example : IsVerified zeros (render dirs) hi_stream hi_info hi
import_one-IsVerified_example =
    import_one-IsVerified zeros (render dirs) hi_stream (5 ∷ []) hi_info hi (
      import_one-written zeros (codes "store") (codes "nix" ∷ []) dirs-IsEntry item hi (5 ∷ [])
        item-IsExportable hi_dumped)
