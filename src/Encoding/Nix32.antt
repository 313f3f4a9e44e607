-- ===== src/Encoding/Nix32.antt =====
-- Base 32 in Nix's alphabet, as in src/libutil/base-nix-32.cc and its header.
pub mod Digits
pub mod Blocks
pub mod RoundTrip
use Prim.Native.Nat.{bit_or, digits, bit_and-bitwise}
use mathlib.Core.List.{reverse}
use archinix.Base.{
  ℕ, zero, suc, ◌+◌, ◌-◌, ◌*◌, ◌/◌, ◌%◌, ◌^◌, ◌≤◌, ◌<◌, min, ◌≡◌, refl, Bool, true, not, ◌&&◌, ◌||◌,
  Option, none, some, [], ◌∷◌, bit_and, arith, leb, ◌==◌, if◌then◌else◌, length, All, Bytes, codes,
  Error, Result, ok, err, get_or, holds_below, holds_below_lt,
}

abbrev pub characters : Bytes
characters = codes "0123456789abcdfghijklmnpqrsvwxyz"

-- `(originalLength * 8 - 1) / 5 + 1` on a size_t: for 0 the subtraction wraps.
unfoldable pub encoded_length : ℕ → ℕ
encoded_length n = (((n * 8 + 2 ^ 64 - 1) % 2 ^ 64) / 5 + 1) % 2 ^ 64

-- The five bits from bit `n * 5` on; what is shifted left falls off a byte above bit 7.
unfoldable pub digit_at : Bytes → ℕ → ℕ
digit_at bs n =
    let i = n * 5 / 8 in
    let j = n * 5 % 8 in
    bit_and
      (bit_or (get_or bs i 0 / 2 ^ j)
        (if leb (length bs - 1) i then 0 else get_or bs (i + 1) 0 * 2 ^ (8 - j) % 256))
      0x1f

-- `for (n = len - 1; n >= 0; n--)`, where the argument is n + 1.
unfoldable pub encode_from : Bytes → ℕ → Bytes
unfolding digit_at
encode_from bs zero = []
encode_from bs (suc n) = get_or characters (digit_at bs n) 0 ∷ encode_from bs n

unfoldable pub encode : Bytes → Bytes
unfolding encode_from encoded_length
encode [] = []
encode (b ∷ bs) = encode_from (b ∷ bs) (encoded_length (length (b ∷ bs)))

-- The value that `reverseMap` holds for a character.
unfoldable pub index_of : ℕ → Bytes → Option ℕ
index_of c [] = none
index_of c (x ∷ xs) =
    if x == c then some 0 else elim (index_of c xs) [ none ↦ none | some i ↦ some (suc i) ]

unfoldable pub lookup_reverse : ℕ → Option ℕ
unfolding index_of
lookup_reverse c = index_of c characters

-- `res.resize(i + 1); res[i] |= v`: the bytes past the end are cut or filled with zeros.
unfoldable pub resize_or : Bytes → ℕ → ℕ → Bytes
resize_or [] zero v = v ∷ []
resize_or (x ∷ xs) zero v = bit_or x v ∷ []
resize_or [] (suc i) v = 0 ∷ resize_or [] i v
resize_or (x ∷ xs) (suc i) v = x ∷ resize_or xs i v

unfoldable pub put_digit : Bytes → ℕ → ℕ → Bytes
unfolding resize_or
put_digit res n digit =
    let i = n * 5 / 8 in
    let j = n * 5 % 8 in
    let res' = resize_or res i (digit * 2 ^ j % 256) in
    if digit / 2 ^ (8 - j) == 0 then res' else resize_or res' (i + 1) (digit / 2 ^ (8 - j))

-- The loop over the characters, the last one first.
unfoldable pub decode_loop : Bytes → ℕ → Bytes → Result Bytes
unfolding lookup_reverse put_digit
decode_loop [] n res = ok res
decode_loop (c ∷ cs) n res = elim (lookup_reverse c) [
  | none ↦ err Error.invalid_character
  | some digit ↦ decode_loop cs (n + 1) (put_digit res n digit)
]

unfoldable pub decode : Bytes → Result Bytes
unfolding decode_loop
decode s = decode_loop (reverse s) 0 []

-- A character of the alphabet: a digit or a lower-case letter, but none of e, o, u and t.
unfoldable pub is_hash_char : ℕ → Bool
is_hash_char c = not (
    c == b'e'
    || c == b'o'
    || c == b'u'
    || c == b't'
    || not ((leb b'0' c && leb c b'9') || (leb b'a' c && leb c b'z')))

length-encode_from : (bs : Bytes) (n : ℕ) → length (encode_from bs n) ≡ n
unfolding encode_from
length-encode_from bs zero = refl
length-encode_from bs (suc n) = omega (arith, length-encode_from bs n)

-- The text has the length that the code announces.
pub length-encode :
    (b : ℕ) (bs : Bytes) → length (encode (b ∷ bs)) ≡ encoded_length (length (b ∷ bs))
unfolding encode
length-encode b bs = length-encode_from (b ∷ bs) _

digits-le : (n a b : ℕ) → digits (λ b. zero) min n a b ≤ b
digits-le zero a b = omega arith
digits-le (suc n) zero b = omega arith
digits-le (suc n) (suc a) b = omega (arith, digits-le n (suc a / 2) (b / 2))

bit_and-le : (a b : ℕ) → bit_and a b ≤ b
bit_and-le a b = rw (bit_and-bitwise a b) (digits-le a a b)

alphabet : (d : ℕ) → d < 32 → is_hash_char (get_or characters d 0) ≡ true
unfolding is_hash_char holds_below
alphabet d h = holds_below_lt (λ d. is_hash_char (get_or characters d 0)) 32 refl d h

encode_from-IsHash : (bs : Bytes) (n : ℕ) → All (λ c. is_hash_char c ≡ true) (encode_from bs n)
unfolding encode_from digit_at
encode_from-IsHash bs zero = tt
encode_from-IsHash bs (suc n) =
    (alphabet (digit_at bs n) (omega (arith, bit_and-le _ 0x1f)), encode_from-IsHash bs n)

-- Every character of the text is one that a store path's hash part may hold.
pub encode-IsHash : (bs : Bytes) → All (λ c. is_hash_char c ≡ true) (encode bs)
unfolding encode
encode-IsHash [] = tt
encode-IsHash (b ∷ bs) = encode_from-IsHash (b ∷ bs) _
