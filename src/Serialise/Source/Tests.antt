-- ===== src/Serialise/Source/Tests.antt =====
-- Runs of the sources of src/libutil/serialise.cc.
use archinix.Base.{
  ℕ, min, ◌≡◌, refl, ◌⊎◌, inr, List, [], arith, length, Bytes, codes, Error, ok, err, ◌>>?◌,
}
use archinix.Serialise.{read_exact}
use archinix.Serialise.Sink.{joined}
use archinix.Serialise.Source.{
  read_loop, read_fully, drain_into, skip, drain_all, BufferedSource, read, StringSource, read_text,
  skip_text,
}
use archinix.Serialise.Source.Refine.{Follows, read_fully-Follows, skip-Follows, drain_all-joined}
use archinix.Serialise.Source.Readers.{IsGranting, buffered_reader, text_reader}

abbrev abcd : StringSource
abcd = record { text = codes "abcd"; pos = 1 }

-- A descriptor that gives at most two bytes at a time.
abbrev two : ℕ → Bytes → ℕ
two n s = min (min n 2) (length s)

two-IsGranting : IsGranting two
two-IsGranting = (λ n. omega arith, λ n s p q. (omega arith, omega arith, omega arith))

abbrev file : BufferedSource
file = record { buf_size = 3; buffer = []; pos_out = 0; unread = codes "hello" }

read_fully-Follows_example :
    Follows read_text text_reader 2 abcd (read_fully read_text 2 abcd)
    × Follows read_text text_reader 2 abcd
        (drain_into read_text 2 abcd >>? λ got. ok (joined got.0, got.1))
unfolding text_reader
read_fully-Follows_example = read_fully-Follows read_text text_reader 2 abcd (omega arith)

skip-Follows_example :
    ((read_exact 4 (codes "hello") ≡ err Error.end_of_file)
      × (skip (read two) 4 file ≡ err Error.end_of_file))
    ⊎ ((bytes : Bytes) × (s' : BufferedSource) × (read_exact 4 (codes "hello")
          ≡ ok (bytes, (buffered_reader two two-IsGranting).available s'))
        × (skip (read two) 4 file ≡ ok s'))
unfolding buffered_reader
skip-Follows_example =
    skip-Follows (read two) (buffered_reader two two-IsGranting) 4 file
      (omega arith, inr (refl, refl))

drain_all-joined_example :
    (chunks : List Bytes) × (drain_all (read two) 6 file ≡ ok chunks)
    × (joined chunks ≡ codes "hello")
unfolding buffered_reader
drain_all-joined_example =
    drain_all-joined (read two) (buffered_reader two two-IsGranting) 6 file (omega arith)
      (omega arith, inr (refl, refl))

-- The buffer is filled with two bytes, three times.
hello :
    read_fully (read two) 5 file
    ≡ ok (codes "hello", record { buf_size = 3; buffer = []; pos_out = 0; unread = [] })
unfolding read_fully read_loop read joined
hello = refl

past_end : skip_text 4 abcd ≡ err Error.end_of_file
unfolding skip_text
past_end = refl
