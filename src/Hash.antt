-- ===== src/Hash.antt =====
-- Printing and parsing a digest: src/libutil/hash.cc, with `splitPrefixTo` of
-- src/libutil/include/nix/util/split.hh, and the content address of src/libstore/content-address.cc.
pub mod Laws
mod Tests
use archinix.Base.{
  ℕ, ◌+◌, ◌-◌, Bool, true, false, not, ◌||◌, Option, none, some, [], ◌∷◌, ◌++◌, ◌==◌, if◌then◌else◌,
  length, Bytes, codes, eqb, Error, Result, ok, err, ◌>>◌, ◌>>?◌,
}
use archinix.Encoding.Base16
use archinix.Encoding.Base64
use archinix.Encoding.Nix32

abbrev pub hash_algo_name : Bytes
hash_algo_name = codes "sha256"

abbrev pub hash_size_sha256 : ℕ
hash_size_sha256 = 32

pub data HashFormat : Type 0 where
  nix32 base16 sri : HashFormat

abbrev pub has_dash : HashFormat → Bool
has_dash HashFormat.sri = true
has_dash format = false

-- `Hash::to_string` of a SHA-256 digest; the flag is `includeAlgo`.
unfoldable pub to_string : Bytes → HashFormat → Bool → Bytes
to_string hash format include_algo =
    (if has_dash format || include_algo
      then hash_algo_name ++ (if has_dash format then codes "-" else codes ":")
      else [])
    ++ elim format [
      | HashFormat.nix32 ↦ Nix32.encode hash
      | HashFormat.base16 ↦ Base16.encode hash
      | HashFormat.sri ↦ Base64.encode hash
    ]

-- The text before the first separator, and what is left behind it.
unfoldable pub split_prefix_to : ℕ → Bytes → Option (Bytes × Bytes)
split_prefix_to separator [] = none
split_prefix_to separator (c ∷ s) =
    let found = split_prefix_to separator s in
    if c == separator
    then some ([], s)
    else elim found [ none ↦ none | some (prefix, rest) ↦ some (c ∷ prefix, rest) ]

-- `baseFromSize(rest)` and the call of the decoder that it picks.
unfoldable pub decode_by_size : Bytes → Result Bytes
decode_by_size rest =
    if length rest == Base16.encoded_length hash_size_sha256
    then Base16.decode rest
    else if length rest == Nix32.encoded_length hash_size_sha256
    then Nix32.decode rest
    else if length rest == Base64.encoded_length hash_size_sha256
    then Base64.decode rest
    else err Error.bad_hash

-- `parseLowLevel`: an exception of the decoder is caught and leaves an empty digest behind, which
-- has the wrong size.
unfoldable pub parse_low_level : Result Bytes → Result Bytes
parse_low_level (ok d) = if length d == hash_size_sha256 then ok d else err Error.bad_hash
parse_low_level (err e) = err Error.bad_hash

unfoldable pub parse_prefixed : Bool → Bytes × Bytes → Result Bytes
unfolding parse_low_level decode_by_size
parse_prefixed is_sri (algo, rest) =
    if not (eqb algo hash_algo_name)
    then err Error.bad_hash
    else parse_low_level (if is_sri then Base64.decode rest else decode_by_size rest)

unfoldable pub parse_any_prefixed : Bytes → Result Bytes
unfolding parse_prefixed split_prefix_to
parse_any_prefixed original = elim (split_prefix_to b':' original) [
  | some parts ↦ parse_prefixed false parts
  | none ↦ elim (split_prefix_to b'-' original) [
    | some parts ↦ parse_prefixed true parts
    | none ↦ err Error.bad_hash
  ]
]

abbrev pub ca_prefix : Bytes
ca_prefix = codes "fixed:r:"

-- `splitPrefix`: what follows a prefix.
unfoldable pub split_prefix : Bytes → Bytes → Option Bytes
split_prefix [] s = some s
split_prefix (p ∷ ps) [] = none
split_prefix (p ∷ ps) (c ∷ s) = if p == c then split_prefix ps s else none

-- `ContentAddress::render`
unfoldable pub render_ca : Bytes → Bytes
unfolding to_string
render_ca hash = ca_prefix ++ to_string hash HashFormat.nix32 true

-- `ContentAddress::parse`
unfoldable pub parse_ca : Bytes → Result Bytes
unfolding split_prefix parse_any_prefixed
parse_ca raw = elim (split_prefix ca_prefix raw) [
  | none ↦ err Error.usage_error
  | some rest ↦ parse_any_prefixed rest
]

-- `ContentAddress::parseOpt`
unfoldable pub parse_ca_opt : Bytes → Result (Option Bytes)
unfolding parse_ca
parse_ca_opt raw = if eqb raw [] then ok none else (parse_ca raw >>? λ hash. ok (some hash))

-- `renderContentAddress`
unfoldable pub render_content_address : Option Bytes → Bytes
unfolding render_ca
render_content_address none = []
render_content_address (some hash) = render_ca hash
