-- ===== src/Serialise/RoundTrip.antt =====
-- Reading back what was written, for src/libutil/serialise.cc.
use archinix.Base.{
  ℕ, zero, suc, ◌-◌, ◌%◌, ◌≤◌, ◌≡◌, refl, inl, inr, false, [], ◌∷◌, ◌++◌, append_assoc, arith, ltb,
  ◌==◌, Bool-cases, length, replicate, Bytes, IsU64, ok, ◌>>=◌, ◌>>◌,
}
use archinix.Serialise.{
  write_num, write_padding, write_string, read_exact, little_endian, read_num, u64_max,
  read_padding, read_string,
}

pub read_exact-append : (bs rest : Bytes) → read_exact (length bs) (bs ++ rest) ≡ ok (bs, rest)
unfolding read_exact
read_exact-append [] rest = refl
read_exact-append (b ∷ bs) rest = rw (read_exact-append bs rest)

read_exact-eight :
    (n : ℕ) (rest : Bytes) → read_exact 8 (write_num n ++ rest) ≡ ok (write_num n, rest)
unfolding read_exact write_num
read_exact-eight n rest = refl

little_endian-write_num : (n : ℕ) → IsU64 n → little_endian (write_num n) ≡ n
unfolding little_endian write_num
little_endian-write_num n h = omega arith

-- A number that fits the type that is read comes back, and what follows it is left.
pub read_num-write_num :
    (limit n : ℕ) (rest : Bytes)
    → IsU64 n
    → n ≤ limit
    → read_num limit (write_num n ++ rest) ≡ ok (n, rest)
unfolding read_num
read_num-write_num limit n rest h fits =
    rw (read_exact-eight n rest, ◌>>=◌) (rw (little_endian-write_num n h) (ground arith))

little_endian-zeros : (n : ℕ) → little_endian (replicate n 0) ≡ 0
unfolding little_endian
little_endian-zeros zero = refl
little_endian-zeros (suc n) = omega (arith, little_endian-zeros n)

read_exact-zeros :
    (n : ℕ) (rest : Bytes) → read_exact n (replicate n 0 ++ rest) ≡ ok (replicate n 0, rest)
unfolding read_exact
read_exact-zeros zero rest = refl
read_exact-zeros (suc n) rest = rw (read_exact-zeros n rest)

pub read_padding-write_padding :
    (len : ℕ) (rest : Bytes) → read_padding len (write_padding len ++ rest) ≡ ok (tt, rest)
unfolding read_padding write_padding
read_padding-write_padding len rest = elim (Bool-cases (len % 8 == 0)) [
  | inl e ↦ rw e
  | inr e ↦
      rw e
        (rw (read_exact-zeros (8 - len % 8) rest, ◌>>=◌) (rw (little_endian-zeros (8 - len % 8))))
]

-- A string within the reader's limit comes back, and what follows it is left.
pub read_string-write_string :
    (max : ℕ) (s rest : Bytes)
    → length s ≤ max
    → IsU64 (length s)
    → read_string max (write_string s ++ rest) ≡ ok (s, rest)
unfolding read_string write_string
read_string-write_string max s rest fits h = simp append_assoc (
    rw
      (
        read_num-write_num u64_max (length s) (s ++ (write_padding (length s) ++ rest)) h
            (omega arith),
        ◌>>=◌,
      )
      (rw not_too_long (
        rw (read_exact-append s (write_padding (length s) ++ rest), ◌>>=◌)
          (rw (read_padding-write_padding (length s) rest, ◌>>◌, ◌>>=◌)))))
  where
    not_too_long : ltb max (length s) ≡ false
    not_too_long = ground arith
