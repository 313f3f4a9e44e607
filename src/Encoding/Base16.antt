-- ===== src/Encoding/Base16.antt =====
-- Base 16, as in src/libutil/base-n.cc.
use Prim.Native.Nat.{bit_or}
use archinix.Base.{
  ℕ, ◌+◌, ◌-◌, ◌*◌, ◌/◌, ◌%◌, ◌^◌, ◌<◌, ◌≡◌, refl, Bool, true, false, ◌&&◌, [], ◌∷◌, bit_and, arith,
  leb, ◌==◌, if◌then◌else◌, ==_iff, length, All, Bytes, IsByte, codes, Error, Result, ok, err,
  ◌>>?◌, get_or, holds_below, holds_below_lt,
}

abbrev pub base16_chars : Bytes
base16_chars = codes "0123456789abcdef"

unfoldable pub encode : Bytes → Bytes
encode [] = []
encode (b ∷ bs) =
    get_or base16_chars (b / 2 ^ 4) 0 ∷ get_or base16_chars (bit_and b 0x0f) 0 ∷ encode bs

unfoldable pub parse_hex_digit : ℕ → Result ℕ
parse_hex_digit c =
    if leb b'0' c && leb c b'9'
    then ok (c - b'0')
    else if leb b'A' c && leb c b'F'
    then ok (c - b'A' + 10)
    else if leb b'a' c && leb c b'f'
    then ok (c - b'a' + 10)
    else err Error.invalid_character

-- The loop over the pairs of digits; the code asserts that there is no digit left over.
unfoldable pub decode_pairs : Bytes → Result Bytes
unfolding parse_hex_digit
decode_pairs [] = ok []
decode_pairs (c ∷ []) = err Error.assertion_failed
decode_pairs (c ∷ d ∷ s) = parse_hex_digit c >>? λ hi.
    parse_hex_digit d >>? λ lo. decode_pairs s >>? λ rest. ok (bit_or (hi * 2 ^ 4) lo ∷ rest)

unfoldable pub decode : Bytes → Result Bytes
unfolding decode_pairs
decode s = if length s % 2 == 0 then decode_pairs s else err Error.assertion_failed

unfoldable pub encoded_length : ℕ → ℕ
encoded_length orig_size = orig_size * 2

pub length-encode : (bs : Bytes) → length (encode bs) ≡ encoded_length (length bs)
unfolding encode encoded_length
length-encode [] = refl
length-encode (b ∷ bs) = omega (arith, length-encode bs)

eq_result : Result ℕ → ℕ → Bool
eq_result (ok a) n = a == n
eq_result (err e) n = false

eq_result_sound : (r : Result ℕ) (n : ℕ) → eq_result r n ≡ true → r ≡ ok n
unfolding eq_result
eq_result_sound (ok a) n h = ground arith
eq_result_sound (err e) n h = cc

high_digit :
    (b : ℕ) → b < 256 → parse_hex_digit (get_or base16_chars (b / 2 ^ 4) 0) ≡ ok (b / 2 ^ 4)
unfolding parse_hex_digit eq_result holds_below
high_digit b h = eq_result_sound _ _ (
    holds_below_lt
      (λ b. eq_result (parse_hex_digit (get_or base16_chars (b / 2 ^ 4) 0)) (b / 2 ^ 4)) 256 refl b
      h)

low_digit :
    (b : ℕ)
    → b < 256
    → parse_hex_digit (get_or base16_chars (bit_and b 0x0f) 0) ≡ ok (bit_and b 0x0f)
unfolding parse_hex_digit eq_result holds_below
low_digit b h = eq_result_sound _ _ (
    holds_below_lt
      (λ b. eq_result (parse_hex_digit (get_or base16_chars (bit_and b 0x0f) 0)) (bit_and b 0x0f))
      256 refl b h)

joined_digits : (b : ℕ) → b < 256 → bit_or (b / 2 ^ 4 * 2 ^ 4) (bit_and b 0x0f) ≡ b
unfolding holds_below
joined_digits b h =
    (==_iff _ _).0
      (holds_below_lt (λ b. bit_or (b / 2 ^ 4 * 2 ^ 4) (bit_and b 0x0f) == b) 256 refl b h)

decode_pairs-encode : (bs : Bytes) → All IsByte bs → decode_pairs (encode bs) ≡ ok bs
unfolding decode_pairs encode
decode_pairs-encode [] h = refl
decode_pairs-encode (b ∷ bs) (hb, h) =
    rw (high_digit b hb)
      (rw (low_digit b hb) (rw (decode_pairs-encode bs h) (rw (joined_digits b hb))))

-- Decoding gives back the bytes that were encoded.
pub decode-encode : (bs : Bytes) → All IsByte bs → decode (encode bs) ≡ ok bs
unfolding decode encoded_length
decode-encode bs h = ground (arith, length-encode bs, decode_pairs-encode bs h)
