-- ===== src/Serialise.antt =====
-- src/libutil/serialise.cc and include/nix/util/serialise.hh: integers, strings and padding as
-- bytes. A sink that is written to is the list of the bytes written; a source is the list of the
-- bytes that it has left.
pub mod RoundTrip
pub mod Canonical
pub mod Sink
pub mod Source
pub mod Stream
mod Tests
use archinix.Base.{
  ℕ, zero, suc, ◌+◌, ◌-◌, ◌*◌, ◌/◌, ◌%◌, ◌^◌, [], ◌∷◌, ◌++◌, ltb, ◌==◌, length, replicate,
  if◌then◌else◌, Bytes, Parser, ok, err, Error, ◌>>=◌, ◌>>◌, pure, throw_if,
}

-- `sink << n` for a uint64_t: eight bytes, the lowest first.
unfoldable pub write_num : ℕ → Bytes
write_num n =
    (n % 256)
    ∷ (n / 2 ^ 8 % 256)
    ∷ (n / 2 ^ 16 % 256)
    ∷ (n / 2 ^ 24 % 256)
    ∷ (n / 2 ^ 32 % 256)
    ∷ (n / 2 ^ 40 % 256)
    ∷ (n / 2 ^ 48 % 256)
    ∷ (n / 2 ^ 56 % 256)
    ∷ []

unfoldable pub write_padding : ℕ → Bytes
write_padding len = if len % 8 == 0 then [] else replicate (8 - len % 8) 0

-- `sink << s` for a string: its length, its bytes, the padding.
unfoldable pub write_string : Bytes → Bytes
write_string s = write_num (length s) ++ s ++ write_padding (length s)

-- `source(data, len)` on a source that holds the bytes `s`: exactly `len` of them, or EndOfFile.
unfoldable pub read_exact : ℕ → Parser Bytes
read_exact zero s = ok ([], s)
read_exact (suc n) [] = err Error.end_of_file
read_exact (suc n) (b ∷ s) = (read_exact n >>= λ bs. pure (b ∷ bs)) s

-- `readLittleEndian<uint64_t>`
unfoldable pub little_endian : Bytes → ℕ
little_endian [] = 0
little_endian (b ∷ bs) = b + 256 * little_endian bs

-- `readNum<T>`, where `limit` is the greatest value of T.
unfoldable pub read_num : ℕ → Parser ℕ
read_num limit = do
  buf ← read_exact 8
  throw_if (ltb limit (little_endian buf)) Error.num_too_large
  pure (little_endian buf)

abbrev pub u64_max : ℕ
u64_max = 2 ^ 64 - 1

unfoldable pub read_padding : ℕ → Parser (Unit {0})
read_padding len = if len % 8 == 0 then pure tt else (do
  zeros ← read_exact (8 - len % 8)
  throw_if (ltb 0 (little_endian zeros)) Error.nonzero_padding)

unfoldable pub read_string : ℕ → Parser Bytes
read_string max = do
  len ← read_num u64_max
  throw_if (ltb max len) Error.string_too_long
  res ← read_exact len
  read_padding len
  pure res
