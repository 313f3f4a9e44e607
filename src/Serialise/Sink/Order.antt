-- ===== src/Serialise/Sink/Order.antt =====
-- What a `BufferedSink` of src/libutil/serialise.cc passes on: every byte, in order.
use archinix.Base.{
  ℕ, suc, ◌+◌, ◌-◌, ◌%◌, ◌^◌, ◌<◌, ◌≡◌, refl, sym, ap, ◌∙◌, inl, inr, true, false, List, [], ◌∷◌,
  ◌++◌, append-nil, append_assoc, arith, ltb, leb, ◌==◌, Bool-cases, length, length-append, Bytes,
  ok, take_all, drop_all,
}
use archinix.Serialise.Sink.{
  BufferedSink, empty_sink, write_unbuffered, flush, copy_in, write_loop, write, write_all,
  hash_buf_size, bytes_of, joined, finish,
}

-- The bytes that the sink has taken: those passed on, then those in the buffer.
abbrev pub sunk : BufferedSink → Bytes
sunk s = joined s.chunks ++ s.buffer

-- The buffer is not full.
abbrev pub HasRoom : BufferedSink → Type 0
HasRoom s = length s.buffer < s.buf_size

pub joined-snoc : (cs : List Bytes) (c : Bytes) → joined (cs ++ (c ∷ [])) ≡ joined cs ++ c
unfolding joined
joined-snoc [] c = append-nil c
joined-snoc (d ∷ cs) c = rw (joined-snoc cs c) (sym (append_assoc d (joined cs) c))

nil_of_length : (xs : Bytes) → (length xs == 0) ≡ true → xs ≡ []
nil_of_length [] e = refl
nil_of_length (x ∷ xs) e = absurd (ground arith)

-- A flush passes the buffer on and empties it.
flush-sunk :
    (s : BufferedSink)
    → (joined (flush s).chunks ≡ sunk s)
      × ((flush s).buffer ≡ [])
      × ((flush s).buf_size ≡ s.buf_size)
unfolding flush
flush-sunk s = elim (Bool-cases (length s.buffer == 0)) [
  | inl e ↦
      let empty = nil_of_length s.buffer e in
      rw e (sym (ap (λ b. joined s.chunks ++ b) empty ∙ append-nil (joined s.chunks)), empty, refl)
  | inr e ↦ rw e (joined-snoc s.chunks s.buffer, refl, refl)
]

-- The bytes passed on after a flush and a direct write.
bypass-sunk :
    (bytes : Bytes) (s : BufferedSink)
    → HasRoom s
    → (sunk (write_unbuffered bytes (flush s)) ≡ sunk s ++ bytes)
      × HasRoom (write_unbuffered bytes (flush s))
bypass-sunk bytes s room =
    let (j, b, z) = flush-sunk s in
    (
      rw (joined-snoc (flush s).chunks bytes, b)
          (append-nil (joined (flush s).chunks ++ bytes) ∙ ap (λ x. x ++ bytes) j),
      rw (b, z) (omega arith),
    )

below_ne : (n m : ℕ) → n < m → (n == m) ≡ false
below_ne n m h = ground arith

leb-lt : (n m : ℕ) → leb n m ≡ false → (m < n) × (ltb n m ≡ false)
leb-lt n m h = (ground arith, ground arith)

-- Bytes that fit below the size of the buffer.
copy_in-short :
    (bytes : Bytes) (s : BufferedSink)
    → length s.buffer + length bytes < s.buf_size
    → copy_in (length bytes) bytes s ≡ record s { buffer = s.buffer ++ bytes }
copy_in-short bytes s h =
    rw (take_all (length bytes) bytes (omega arith)) (
      rw (below_ne (length (s.buffer ++ bytes)) s.buf_size (omega (arith, length-append {0}))) refl)

write_loop-short :
    (fuel b : ℕ) (bytes : Bytes) (s : BufferedSink)
    → leb (s.buf_size - length s.buffer) (length (b ∷ bytes)) ≡ false
    → write_loop (suc (suc fuel)) (b ∷ bytes) s ≡ ok (record s { buffer = s.buffer ++ (b ∷ bytes) })
unfolding write_loop
write_loop-short fuel b bytes s h =
    let (l, k) = leb-lt (s.buf_size - length s.buffer) (length (b ∷ bytes)) h in
    rw h (
      rw k (
        rw (drop_all (length (b ∷ bytes)) (b ∷ bytes) (omega arith))
          (ap ok (copy_in-short (b ∷ bytes) s (omega arith)))))

-- A sink whose buffer is not full takes any bytes: the bytes that it passed on, then those of its
-- buffer, are the earlier ones followed by the new ones, and again the buffer is not full.
write-sunk :
    (bytes : Bytes) (s : BufferedSink)
    → HasRoom s
    → (s' : BufferedSink) × (write bytes s ≡ ok s') × (sunk s' ≡ sunk s ++ bytes) × HasRoom s'
unfolding write write_loop
write-sunk [] s room = (s, refl, sym (append-nil (sunk s)), room)
write-sunk (b ∷ bytes) s room =
    elim (Bool-cases (leb (s.buf_size - length s.buffer) (length (b ∷ bytes)))) [
      | inl e ↦
          let (k, r) = bypass-sunk (b ∷ bytes) s room in
          rw e (write_unbuffered (b ∷ bytes) (flush s), refl, k, r)
      | inr e ↦ (
        record s { buffer = s.buffer ++ (b ∷ bytes) },
        write_loop-short (suc (length bytes)) b bytes s e,
        sym (append_assoc (joined s.chunks) s.buffer (b ∷ bytes)),
        omega (
          arith,
          length-append {0},
          leb-lt (s.buf_size - length s.buffer) (length (b ∷ bytes)) e,
        ),
      )
    ]

write_all-sunk :
    (cs : List Bytes) (s : BufferedSink)
    → HasRoom s
    → (s' : BufferedSink) × (write_all cs s ≡ ok s') × (sunk s' ≡ sunk s ++ joined cs)
unfolding write_all joined
write_all-sunk [] s room = (s, refl, sym (append-nil (sunk s)))
write_all-sunk (c ∷ cs) s room =
    let (s1, e, k, room1) = write-sunk c s room in
    let (s2, e2, k2) = write_all-sunk cs s1 room1 in
    (s2, rw e e2, rw k2 (rw k (append_assoc (sunk s) c (joined cs))))

bytes_of-joined : (cs : List Bytes) → bytes_of cs ≡ length (joined cs) % 2 ^ 64
unfolding bytes_of joined
bytes_of-joined [] = refl
bytes_of-joined (c ∷ cs) = rw (bytes_of-joined cs) (omega (arith, length-append {0}))

-- A HashSink takes any sequence of writes, and `finish` returns the digest of the bytes in the order of
-- the writes, with their number modulo 2^64, however the buffer cut them.
pub finish-write_all :
    (sha256 : Bytes → Bytes) (cs : List Bytes)
    → (s : BufferedSink) × (write_all cs (empty_sink hash_buf_size) ≡ ok s)
      × (finish sha256 s ≡ (sha256 (joined cs), length (joined cs) % 2 ^ 64))
unfolding finish joined
finish-write_all sha256 cs =
    let (s, e, k) = write_all-sunk cs (empty_sink hash_buf_size) (omega arith) in
    let taken = (flush-sunk s).0 ∙ k in
    (s, e, rw (bytes_of-joined (flush s).chunks) (rw taken refl))
