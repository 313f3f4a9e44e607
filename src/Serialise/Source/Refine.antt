-- ===== src/Serialise/Source/Refine.antt =====
-- What a `read` promises, and what the loops of src/libutil/serialise.cc make of it: they read a source as if
-- it were the list of the bytes that it has left.
use archinix.Base.{
  ℕ, zero, suc, ◌-◌, ◌≤◌, ◌<◌, min, ◌≡◌, refl, sym, ap, ◌∙◌, ◌⊎◌, inl, inr, false, List, [], ◌∷◌,
  ◌++◌, append_assoc, arith, ltb, length, length-append, Bytes, Error, Result, ok, err, ◌>>?◌,
}
use archinix.Serialise.{read_exact}
use archinix.Serialise.RoundTrip.{read_exact-append}
use archinix.Serialise.Sink.{joined}
use archinix.Serialise.Source.{read_loop, read_fully, drain_into, skip, drain_all}

-- The contract of `Source::read`: at the end of the source it throws EndOfFile; before, it gives at least
-- one byte and at most as many as it was asked for, the next ones of the source.
pub record Reader {S : Type 0} (read : ℕ → S → Result (Bytes × S)) : Type 1 where
  pub available : S → Bytes
  pub IsSane : S → Type 0
  pub read_end :
      (len : ℕ) (s : S) → 0 < len → IsSane s → available s ≡ [] → read len s ≡ err Error.end_of_file
  pub read_some :
      (len : ℕ) (s : S)
      → 0 < len
      → IsSane s
      → 0 < length (available s)
      → (chunk : Bytes) × (s' : S) × (read len s ≡ ok (chunk, s'))
        × (available s ≡ chunk ++ available s')
        × (0 < length chunk)
        × (length chunk ≤ len)
        × IsSane s'

module _ {S : Type 0} (read : ℕ → S → Result (Bytes × S)) (reader : Reader read) where
  -- The loop gives the next bytes, in chunks, or throws at the end of the source.
  abbrev pub IsRead : ℕ → S → Result (List Bytes × S) → Type 0
  IsRead len s r =
      ((length (reader.available s) < len) × (r ≡ err Error.end_of_file))
      ⊎ ((chunks : List Bytes) × (s' : S) × (r ≡ ok (chunks, s'))
          × (reader.available s ≡ joined chunks ++ reader.available s')
          × (length (joined chunks) ≡ len)
          × reader.IsSane s')

  -- A request of a loop.
  abbrev pub IsRequest : (ℕ → ℕ) → Type 0
  IsRequest request = (n : ℕ) → (0 < request (suc n)) × (request (suc n) ≤ suc n)

  length-nil : (xs : Bytes) → xs ≡ [] ⊎ 0 < length xs
  length-nil [] = inl refl
  length-nil (x ∷ xs) = inr (omega arith)

  not_ltb : (a b : ℕ) → b ≤ a → ltb a b ≡ false
  not_ltb a b h = ground arith

  IsRead-then :
      (s s' : S) (chunk : Bytes) (len : ℕ) (r : Result (List Bytes × S))
      → reader.available s ≡ chunk ++ reader.available s'
      → length chunk ≤ len
      → IsRead (len - length chunk) s' r
      → IsRead len s (r >>? λ rest. ok (chunk ∷ rest.0, rest.1))
  unfolding joined
  IsRead-then s s' chunk len r split le (inl (short, k)) =
      inl (rw split (omega (arith, length-append {0})), rw k refl)
  IsRead-then s s' chunk len r split le (inr (cs, s2, k, split2, count, sane)) = inr (
    chunk ∷ cs,
    s2,
    rw k refl,
    split ∙ ap (chunk ++◌) split2 ∙ sym (append_assoc chunk (joined cs) (reader.available s2)),
    omega (arith, length-append {0}),
    sane,
  )

  read_loop-IsRead :
      (request : ℕ → ℕ) (fuel len : ℕ) (s : S)
      → IsRequest request
      → len ≤ fuel
      → reader.IsSane s
      → IsRead len s (read_loop read request fuel len s)
  unfolding read_loop joined
  read_loop-IsRead request fuel zero s ask enough sane = inr ([], s, refl, refl, refl, sane)
  read_loop-IsRead request zero (suc n) s ask enough sane = absurd (omega arith)
  read_loop-IsRead request (suc fuel) (suc n) s ask enough sane =
      elim (length-nil (reader.available s)) [
        | inl none_left ↦ inl (
          rw none_left (omega arith),
          rw (reader.read_end (request (suc n)) s (ask n).0 sane none_left) refl,
        )
        | inr left ↦
            let (chunk, s', e, split, pos, le, sane') =
              reader.read_some (request (suc n)) s (ask n).0 sane left in
            let fits = not_ltb (suc n) (length chunk) (omega (arith, ask n)) in
            rw e (
              rw fits (
                IsRead-then s s' chunk (suc n) _ split (omega (arith, ask n)) (
                  read_loop-IsRead request fuel (suc n - length chunk) s' ask (omega arith) sane')))
      ]

  -- The outcome on the source is the outcome on the list of its bytes.
  abbrev pub Follows : ℕ → S → Result (Bytes × S) → Type 0
  Follows len s r =
      ((read_exact len (reader.available s) ≡ err Error.end_of_file) × (r ≡ err Error.end_of_file))
      ⊎ ((bytes : Bytes) × (s' : S) × (read_exact len (reader.available s)
            ≡ ok (bytes, reader.available s'))
          × (r ≡ ok (bytes, s'))
          × reader.IsSane s')

  read_exact-short : (n : ℕ) (xs : Bytes) → length xs < n → read_exact n xs ≡ err Error.end_of_file
  unfolding read_exact
  read_exact-short zero xs h = absurd (omega arith)
  read_exact-short (suc n) [] h = refl
  read_exact-short (suc n) (x ∷ xs) h = rw (read_exact-short n xs (omega arith)) refl

  IsRead-Follows :
      (len : ℕ) (s : S) (r : Result (List Bytes × S))
      → IsRead len s r
      → Follows len s (r >>? λ got. ok (joined got.0, got.1))
  IsRead-Follows len s r (inl (short, k)) =
      inl (read_exact-short len (reader.available s) short, rw k refl)
  IsRead-Follows len s r (inr (cs, s', k, split, count, sane)) = inr (
    joined cs,
    s',
    rw split (rw (← count) (read_exact-append (joined cs) (reader.available s'))),
    rw k refl,
    sane,
  )

  min-IsRequest : (most : ℕ) → 0 < most → IsRequest (λ n. min n most)
  min-IsRequest most h n = (omega arith, omega arith)

  -- On any source that keeps the contract of `read`, `operator()` and `drainInto` with a length give the bytes
  -- that reading exactly so many from the list of the bytes left gives, and throw EndOfFile when it does;
  -- the loops end within as many rounds as there are bytes to read.
  pub read_fully-Follows :
      (len : ℕ) (s : S)
      → reader.IsSane s
      → Follows len s (read_fully read len s)
        × Follows len s (drain_into read len s >>? λ got. ok (joined got.0, got.1))
  unfolding read_fully drain_into
  read_fully-Follows len s sane = (
    IsRead-Follows len s _
        (read_loop-IsRead (λ n. n) len len s (λ n. (omega arith, omega arith)) (omega arith) sane),
    IsRead-Follows len s _ (
        read_loop-IsRead (λ n. min n 65536) len len s (min-IsRequest 65536 (omega arith))
          (omega arith) sane),
  )

  -- `skip` on such a source leaves what reading as many bytes from the list leaves, or throws EndOfFile with it.
  pub skip-Follows :
      (len : ℕ) (s : S)
      → reader.IsSane s
      → ((read_exact len (reader.available s) ≡ err Error.end_of_file)
          × (skip read len s ≡ err Error.end_of_file))
        ⊎ ((bytes : Bytes) × (s' : S) × (read_exact len (reader.available s)
              ≡ ok (bytes, reader.available s'))
            × (skip read len s ≡ ok s'))
  unfolding skip
  skip-Follows len s sane = go (read_loop read (λ n. min n 8192) len len s) (
      read_loop-IsRead (λ n. min n 8192) len len s (min-IsRequest 8192 (omega arith)) (omega arith)
        sane)
    where
      go :
          (r : Result (List Bytes × S))
          → IsRead len s r
          → ((read_exact len (reader.available s) ≡ err Error.end_of_file)
              × ((r >>? λ got. ok got.1) ≡ err Error.end_of_file))
            ⊎ ((bytes : Bytes) × (s' : S) × (read_exact len (reader.available s)
                  ≡ ok (bytes, reader.available s'))
                × ((r >>? λ got. ok got.1) ≡ ok s'))
      go r (inl (short, k)) = inl (read_exact-short len (reader.available s) short, rw k refl)
      go r (inr (cs, s', k, split, count, sane')) = inr (
        joined cs,
        s',
        rw split (rw (← count) (read_exact-append (joined cs) (reader.available s'))),
        rw k refl,
      )

  -- `drainInto` without a length ends, and passes on every byte that such a source has left, in order.
  pub drain_all-joined :
      (fuel : ℕ) (s : S)
      → length (reader.available s) < fuel
      → reader.IsSane s
      → (chunks : List Bytes) × (drain_all read fuel s ≡ ok chunks)
        × (joined chunks ≡ reader.available s)
  unfolding drain_all joined
  drain_all-joined zero s h sane = absurd (omega arith)
  drain_all-joined (suc fuel) s h sane = elim (length-nil (reader.available s)) [
    | inl none_left ↦ (
      [],
      rw (reader.read_end 8192 s (omega arith) sane none_left, drain_all) refl,
      sym none_left,
    )
    | inr left ↦
        let (chunk, s', e, split, pos, le, sane') =
          reader.read_some 8192 s (omega arith) sane left in
        let (cs, k, all) =
          drain_all-joined fuel s'
            (omega (arith, ap length split, length-append chunk (reader.available s'))) sane' in
        (chunk ∷ cs, rw (e, drain_all) (rw k refl), ap (chunk ++◌) all ∙ sym split)
  ]
