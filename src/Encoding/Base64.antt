-- ===== src/Encoding/Base64.antt =====
-- Base 64, as in src/libutil/base-n.cc.
use Prim.Native.Nat.{bit_or}
use archinix.Base.{
  ℕ, ◌+◌, ◌-◌, ◌*◌, ◌/◌, ◌%◌, ◌^◌, none, some, [], ◌∷◌, ◌++◌, ◌≡◌, refl, get_or, length, replicate,
  bit_and, leb, ◌==◌, if◌then◌else◌, Bytes, codes, Error, Result, ok, err, ◌>>?◌,
}
use archinix.Encoding.Nix32.{index_of}

abbrev pub base64_chars : Bytes
base64_chars = codes "ABCDEFGHIJKLMNOPQRSTUVWXYZabcdefghijklmnopqrstuvwxyz0123456789+/"

-- `((4 * origSize / 3) + 3) & ~3`
unfoldable pub encoded_length : ℕ → ℕ
encoded_length orig_size = (4 * orig_size / 3 + 3) / 4 * 4

-- The loop over the characters, with the 32-bit accumulator `d` and the bits that it still holds.
unfoldable pub decode_loop : Bytes → ℕ → ℕ → Result Bytes
unfolding index_of
decode_loop [] d bits = ok []
decode_loop (c ∷ cs) d bits =
    let skipped = decode_loop cs d bits in
    if c == b'=' then ok [] else if c == 10 then skipped else elim (index_of c base64_chars) [
      | none ↦ err Error.invalid_character
      | some digit ↦
          let d' = bit_or (d * 2 ^ 6 % 2 ^ 32) digit in
          let full = leb 8 (bits + 6) in
          decode_loop cs d' (if full then bits + 6 - 8 else bits + 6) >>? λ rest.
          ok (if full then bit_and (d' / 2 ^ (bits + 6 - 8)) 0xff ∷ rest else rest)
    ]

unfoldable pub decode : Bytes → Result Bytes
unfolding decode_loop
decode s = decode_loop s 0 0

-- The inner loop: the digits that `acc` holds in its lowest `nbits` bits, of which at most 13 are
-- waiting.
unfoldable pub full_digits : ℕ → ℕ → Bytes
full_digits acc nbits =
    if leb 12 nbits
    then digit (acc / 2 ^ (nbits - 6)) ∷ digit (acc / 2 ^ (nbits - 12)) ∷ []
    else if leb 6 nbits
    then digit (acc / 2 ^ (nbits - 6)) ∷ []
    else []
  where
    digit : ℕ → ℕ
    digit v = get_or base64_chars (bit_and v 0x3f) 0

-- The loop over the bytes, with the 32-bit accumulator.
unfoldable pub encode_loop : Bytes → ℕ → ℕ → Bytes
unfolding full_digits
encode_loop [] acc nbits =
    if nbits == 0 then [] else get_or base64_chars (bit_and (acc * 2 ^ (6 - nbits)) 0x3f) 0 ∷ []
encode_loop (c ∷ s) acc nbits =
    let acc' = bit_or (acc * 2 ^ 8 % 2 ^ 32) c in
    full_digits acc' (nbits + 8) ++ encode_loop s acc' ((nbits + 8) % 6)

unfoldable pub encode : Bytes → Bytes
unfolding encode_loop
encode s = let digits = encode_loop s 0 0 in digits ++ replicate ((4 - length digits % 4) % 4) b'='

encoded_word : encode (codes "Man, any") ≡ codes "TWFuLCBhbnk="
unfolding encode
encoded_word = refl
