-- ===== src/Serialise/Source.antt =====
-- The sources of src/libutil/serialise.cc: the loops over `read` that every `Source` has, and the `read`
-- of a `BufferedSource` and of a `StringSource`. What the file descriptor has left is a list of bytes; how
-- many of them one call of the system gives is a parameter.
pub mod Refine
pub mod Readers
mod Tests
use archinix.Base.{
  ℕ, zero, suc, ◌+◌, ◌-◌, ◌/◌, min, List, [], ◌∷◌, ltb, ◌==◌, if◌then◌else◌, length, take, drop,
  Bytes, Error, Result, ok, err, ◌>>?◌,
}
use archinix.Serialise.Sink.{joined}

module _ {S : Type 0} (read : ℕ → S → Result (Bytes × S)) where
  -- The loop until `len` bytes have been read, as the chunks that `read` gave. `request` is what the loop
  -- asks for. That `read` gives no more is asserted, and is what `operator()` relies on.
  unfoldable pub read_loop : (ℕ → ℕ) → ℕ → ℕ → S → Result (List Bytes × S)
  read_loop request fuel zero s = ok ([], s)
  read_loop request zero (suc n) s = err Error.out_of_fuel
  read_loop request (suc fuel) (suc n) s = read (request (suc n)) s >>? λ got.
      if ltb (suc n) (length got.0)
      then err Error.assertion_failed
      else (read_loop request fuel (suc n - length got.0) got.1 >>? λ rest.
          ok (got.0 ∷ rest.0, rest.1))

  -- `operator()`, which fills a buffer of `len` bytes.
  unfoldable pub read_fully : ℕ → S → Result (Bytes × S)
  unfolding read_loop
  read_fully len s = read_loop (λ n. n) len len s >>? λ r. ok (joined r.0, r.1)

  -- `drainInto` with a length: the chunks that the sink takes.
  unfoldable pub drain_into : ℕ → S → Result (List Bytes × S)
  unfolding read_loop
  drain_into len s = read_loop (λ n. min n 65536) len len s

  unfoldable pub skip : ℕ → S → Result S
  unfolding read_loop
  skip len s = read_loop (λ n. min n 8192) len len s >>? λ r. ok r.1

  -- `drainInto` up to the end of the source.
  unfoldable pub drain_all : ℕ → S → Result (List Bytes)
  drain_all zero s = err Error.out_of_fuel
  drain_all (suc fuel) s = elim (read 8192 s) [
    | ok (chunk, s') ↦ drain_all fuel s' >>? λ rest. ok (chunk ∷ rest)
    | err Error.end_of_file ↦ ok []
    | err e ↦ err e
  ]

-- A BufferedSource on a file descriptor: the bytes up to `bufPosIn`, `bufPosOut`, and what the descriptor
-- has left.
pub record BufferedSource : Type 0 where
  pub buf_size : ℕ
  pub buffer : Bytes
  pub pos_out : ℕ
  pub unread : Bytes

module _ (granted : ℕ → Bytes → ℕ) where
  -- `FdSource::readUnbuffered`
  abbrev pub read_unbuffered : BufferedSource → Result BufferedSource
  read_unbuffered s =
      let n = granted s.buf_size s.unread in
      if n == 0
      then err Error.end_of_file
      else ok (record s { buffer = take n s.unread; unread = drop n s.unread })

  abbrev pub refill : BufferedSource → Result BufferedSource
  refill s = if length s.buffer == 0 then read_unbuffered s else ok s

  abbrev pub copy_out : ℕ → BufferedSource → Bytes × BufferedSource
  copy_out len s =
      let n = min len (length s.buffer - s.pos_out) in
      let s' : BufferedSource =
        if length s.buffer == s.pos_out + n
        then record s { buffer = []; pos_out = 0 }
        else record s { pos_out = s.pos_out + n } in
      (take n (drop s.pos_out s.buffer), s')

  unfoldable pub read : ℕ → BufferedSource → Result (Bytes × BufferedSource)
  read len s = refill s >>? λ s'. ok (copy_out len s')

-- A StringSource.
pub record StringSource : Type 0 where
  pub text : Bytes
  pub pos : ℕ

unfoldable pub read_text : ℕ → StringSource → Result (Bytes × StringSource)
read_text len s =
    if s.pos == length s.text
    then err Error.end_of_file
    else let chunk = take len (drop s.pos s.text) in
      ok (chunk, record s { pos = s.pos + length chunk })

unfoldable pub skip_text : ℕ → StringSource → Result StringSource
skip_text len s =
    if ltb (length s.text - s.pos) len
    then err Error.end_of_file
    else ok (record s { pos = s.pos + len })
