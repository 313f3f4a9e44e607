-- ===== src/Serialise/Canonical.antt =====
-- What the readers of src/libutil/serialise.cc accept is what the writers write.
use archinix.Base.{
  ℕ, zero, suc, ◌-◌, ◌%◌, ◌≤◌, ◌≡◌, refl, inl, inr, [], ◌∷◌, ◌++◌, append_assoc, arith, ltb, ◌==◌,
  Bool-cases, length, replicate, All, All-append, Bytes, IsByte, IsU64, Error, ok, ◌>>=◌, pure,
  throw_if, >>=-eq-ok, >>=-elim, throw_if-elim,
}
use archinix.Serialise.{
  write_num, write_padding, write_string, read_exact, little_endian, read_num, u64_max,
  read_padding, read_string,
}

pub read_exact_inv :
    (n : ℕ) (s : Bytes) {bs r : Bytes}
    → read_exact n s ≡ ok (bs, r)
    → (s ≡ bs ++ r) × (length bs ≡ n)
unfolding read_exact
read_exact_inv zero s h = ground arith
read_exact_inv (suc n) [] h = cc
read_exact_inv (suc n) (b ∷ s) {bs} {r} h =
    let (bs', r', e, k) = >>=-eq-ok (read_exact n) (λ bs. pure (b ∷ bs)) s h in
    ground (arith, read_exact_inv n s e, k)

-- The number determines its eight bytes.
eight_bytes :
    (a b c d e f g h : ℕ)
    → All IsByte (a ∷ b ∷ c ∷ d ∷ e ∷ f ∷ g ∷ h ∷ [])
    → write_num (little_endian (a ∷ b ∷ c ∷ d ∷ e ∷ f ∷ g ∷ h ∷ []))
      ≡ a ∷ b ∷ c ∷ d ∷ e ∷ f ∷ g ∷ h ∷ []
unfolding write_num little_endian
eight_bytes a b c d e f g h v = ground arith

write_num-little_endian :
    (bs : Bytes) → length bs ≡ 8 → All IsByte bs → write_num (little_endian bs) ≡ bs
write_num-little_endian (a ∷ b ∷ c ∷ d ∷ e ∷ f ∷ g ∷ h ∷ []) l v = eight_bytes a b c d e f g h v
write_num-little_endian bs l v = absurd (omega arith)

little_endian-IsU64 : (bs : Bytes) → length bs ≡ 8 → All IsByte bs → IsU64 (little_endian bs)
unfolding little_endian
little_endian-IsU64 (a ∷ b ∷ c ∷ d ∷ e ∷ f ∷ g ∷ h ∷ []) l v = omega arith
little_endian-IsU64 bs l v = absurd (omega arith)

-- A list of bytes that is split has bytes on both sides.
pub bytes_left : (s x r : Bytes) → All IsByte s → s ≡ x ++ r → All IsByte x × All IsByte r
bytes_left s x r h e = All-append IsByte x r (rw e at h)

-- What `read_num` accepts is what `write_num` writes for the number that it returns.
pub read_num_inv :
    (limit : ℕ) (s : Bytes) {n : ℕ} {r : Bytes}
    → All IsByte s
    → read_num limit s ≡ ok (n, r)
    → (s ≡ write_num n ++ r) × (n ≤ limit) × IsU64 n × All IsByte r
unfolding read_num
read_num_inv limit s {n} {r} v h =
    let (buf, r', e, k) = >>=-eq-ok (read_exact 8) _ s h in
    let (split, len) = read_exact_inv 8 s e in
    let (vb, vr) = bytes_left s buf r' v split in
    ground (arith, k, split, write_num-little_endian buf len vb, little_endian-IsU64 buf len vb)

little_endian-zero : (bs : Bytes) → little_endian bs ≡ 0 → bs ≡ replicate (length bs) 0
unfolding little_endian
little_endian-zero [] h = refl
little_endian-zero (b ∷ bs) h = ground (arith, little_endian-zero bs)

pub read_padding_inv :
    (len : ℕ) (s : Bytes) {r : Bytes} → read_padding len s ≡ ok (tt, r) → s ≡ write_padding len ++ r
unfolding read_padding write_padding
read_padding_inv len s {r} h = elim (Bool-cases (len % 8 == 0)) [
  | inl e ↦ rw e (ground (arith, rw e at h))
  | inr e ↦ rw e (padded (rw e at h))
]
  where
    padded :
        (do
          zeros ← read_exact (8 - len % 8)
          throw_if (ltb 0 (little_endian zeros)) Error.nonzero_padding)
            s
          ≡ ok (tt, r)
        → s ≡ replicate (8 - len % 8) 0 ++ r
    padded h =
        let (zeros, r', e, k) = >>=-eq-ok (read_exact (8 - len % 8)) _ s h in
        let (split, l) = read_exact_inv (8 - len % 8) s e in
        ground (arith, k, split, l, little_endian-zero zeros)

write_string_joined :
    (s res r₁ r₂ r₃ : Bytes)
    → s ≡ write_num (length res) ++ r₁
    → r₁ ≡ res ++ r₂
    → r₂ ≡ write_padding (length res) ++ r₃
    → s ≡ write_string res ++ r₃
unfolding write_string
write_string_joined s res r₁ r₂ r₃ a b c = simp append_assoc (cc)

-- What `read_string` accepts is what `write_string` writes for the string that it returns: the
-- length word, the bytes and zero padding, and nothing else.
pub read_string_inv :
    (max : ℕ) (s : Bytes) {x r : Bytes}
    → All IsByte s
    → read_string max s ≡ ok (x, r)
    → (s ≡ write_string x ++ r) × (length x ≤ max) × IsU64 (length x) × All IsByte r
unfolding read_string
read_string_inv max s {x} {r} v h = >>=-elim (read_num u64_max) _ s h λ len r₁ e₁ k₁.
    throw_if-elim (ltb max len) Error.string_too_long _ r₁ k₁ λ fits k₂.
      >>=-elim (read_exact len) _ r₁ k₂ λ res r₂ e₂ k₃.
        >>=-elim (read_padding len) _ r₂ k₃ λ u r₃ e₃ k₄.
          let (split₁, small, wide, v₁) = read_num_inv u64_max s v e₁ in
          let (split₂, l) = read_exact_inv len r₁ e₂ in
          let (vx, v₂) = bytes_left r₁ res r₂ v₁ split₂ in
          let padding : r₂ ≡ write_padding len ++ r₃ = read_padding_inv len r₂ e₃ in
          ground (
            arith,
            k₄,
            write_string_joined s res r₁ r₂ r₃ (rw l split₁) split₂ (rw l padding),
            bytes_left r₂ (write_padding len) r₃ v₂ padding,
          )
