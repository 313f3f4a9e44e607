-- ===== src/Serialise/Sink.antt =====
-- `BufferedSink` of src/libutil/serialise.cc and `HashSink` of src/libutil/hash.cc. `chunks` is what
-- `writeUnbuffered` was called with, the first call first; the buffer holds `bufPos` bytes.
pub mod Order
mod Tests
use archinix.Base.{
  ℕ, zero, suc, ◌+◌, ◌-◌, ◌/◌, ◌%◌, ◌^◌, List, [], ◌∷◌, ◌++◌, ltb, leb, ◌==◌, if◌then◌else◌, length,
  take, drop, Bytes, Error, Result, ok, err, ◌>>?◌,
}

pub record BufferedSink : Type 0 where
  pub buf_size : ℕ
  pub buffer : Bytes
  pub chunks : List Bytes

abbrev pub empty_sink : ℕ → BufferedSink
empty_sink buf_size = record { buf_size = buf_size; buffer = []; chunks = [] }

abbrev pub write_unbuffered : Bytes → BufferedSink → BufferedSink
write_unbuffered bytes s = record s { chunks = s.chunks ++ (bytes ∷ []) }

unfoldable pub flush : BufferedSink → BufferedSink
flush s = if length s.buffer == 0 then s else write_unbuffered s.buffer (record s { buffer = [] })

-- The copy of `n` bytes into the buffer, which is flushed when it is full.
abbrev pub copy_in : ℕ → Bytes → BufferedSink → BufferedSink
copy_in n bytes s =
    let filled = record s { buffer = s.buffer ++ take n bytes } in
    if length filled.buffer == s.buf_size then flush filled else filled

-- The loop of `operator()`, with fuel.
unfoldable pub write_loop : ℕ → Bytes → BufferedSink → Result BufferedSink
unfolding flush
write_loop zero bytes s = err Error.out_of_fuel
write_loop (suc fuel) [] s = ok s
write_loop (suc fuel) (b ∷ bytes) s =
    let room = s.buf_size - length s.buffer in
    let n = if ltb room (length (b ∷ bytes)) then room else length (b ∷ bytes) in
    let rest = write_loop fuel (drop n (b ∷ bytes)) (copy_in n (b ∷ bytes) s) in
    if leb room (length (b ∷ bytes)) then ok (write_unbuffered (b ∷ bytes) (flush s)) else rest

unfoldable pub write : Bytes → BufferedSink → Result BufferedSink
unfolding write_loop
write bytes s = write_loop (suc (suc (length bytes))) bytes s

-- The writes that a caller makes one after the other.
unfoldable pub write_all : List Bytes → BufferedSink → Result BufferedSink
unfolding write
write_all [] s = ok s
write_all (c ∷ cs) s = write c s >>? λ s'. write_all cs s'

-- `HashSink`, with the chunks that SHA256_Update was called with, and `bytes`.
abbrev pub hash_buf_size : ℕ
hash_buf_size = 1024

unfoldable pub bytes_of : List Bytes → ℕ
bytes_of [] = 0
bytes_of (c ∷ cs) = (length c + bytes_of cs) % 2 ^ 64

unfoldable pub joined : List Bytes → Bytes
joined [] = []
joined (c ∷ cs) = c ++ joined cs

-- `finish`: the digest of what SHA256_Update saw, and the number of bytes.
unfoldable pub finish : (Bytes → Bytes) → BufferedSink → Bytes × ℕ
unfolding flush bytes_of joined
finish sha256 s = (sha256 (joined (flush s).chunks), bytes_of (flush s).chunks)
