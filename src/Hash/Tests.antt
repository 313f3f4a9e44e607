-- ===== src/Hash/Tests.antt =====
-- Runs of src/libutil/hash.cc and src/libutil/base-n.cc.
use archinix.Base.{◌≡◌, refl, true, arith, replicate, Bytes, ok}
use archinix.Hash.{to_string, base16, parse_any_prefixed}
use archinix.Hash.Laws.{parse_any_prefixed-to_string}

abbrev digest : Bytes
digest = replicate 32 171

parse_any_prefixed-to_string_example : parse_any_prefixed (to_string digest base16 true) ≡ ok digest
parse_any_prefixed-to_string_example = parse_any_prefixed-to_string digest refl (ground arith)
