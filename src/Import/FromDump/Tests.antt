-- ===== src/Import/FromDump/Tests.antt =====
-- A run of an import, with a digest function that is always zero.
use archinix.Base.{◌≡◌, refl, false, none, [], ◌++◌, arith, replicate, Bytes, codes, ok, err}
use archinix.Encoding.Nix32
use archinix.Encoding.Base16
use archinix.Hash.{to_string}
use archinix.Archive.Tree.{Node}
use archinix.Archive.Format.{calls}
use archinix.Archive.Dump.{dump_path, dump}
use archinix.StorePath.{
  make_content_addressed_path, make_store_path, compress_hash, compress_loop, xor_at,
  store_path_of_hash, check_name, all_of, is_name_char, has_bad_dots,
}
use archinix.Import.FromDump.{Local, added, add_tree_to_store}
use archinix.Import.FromDump.Imported.{Outcomes, add_tree_to_store-IsImported}

abbrev zeros : Bytes → Bytes
zeros bytes = replicate 32 0

abbrev store_dir : Bytes
store_dir = codes "/nix/store"

abbrev path : Bytes
path = replicate 32 b'0' ++ codes "-x"

abbrev greeting : Node
greeting = Node.regular false (codes "hi")

abbrev hi : Bytes
hi = elim (dump_path greeting) [ ok bytes ↦ bytes | err e ↦ [] ]

hi_dumped : dump_path greeting ≡ ok hi
unfolding dump_path dump
hi_dumped = refl

abbrev empty_store : Local
empty_store = record { db = record { rows = []; refs = []; last_id = 0 }; trees = [] }

named : make_content_addressed_path zeros store_dir (codes "x") (zeros hi) ≡ ok path
unfolding make_content_addressed_path make_store_path compress_hash compress_loop xor_at to_string
    Base16.encode store_path_of_hash check_name all_of is_name_char has_bad_dots Nix32.encode
    Nix32.encoded_length
named = refl

add_tree_to_store-IsImported_example :
    (after : Local) × (add_tree_to_store zeros store_dir
        (λ cs. none)
        (λ l. l)
        7
        (codes "x")
        greeting
        empty_store
      ≡ added path after)
    × Outcomes zeros store_dir (λ l. l) 7 path hi (calls false [] greeting) empty_store after
add_tree_to_store-IsImported_example =
    add_tree_to_store-IsImported zeros store_dir (λ cs. none) (λ l. l) 7 (codes "x") path hi
      (calls false [] greeting) named refl (omega arith) greeting empty_store
      (omega arith, omega arith) hi_dumped refl refl
      (record { unique = tt; below = tt; joined = tt })
