-- ===== src/Encoding/Nix32/RoundTrip.antt =====
-- A digest of 32 bytes printed in the base 32 of src/libutil/base-nix-32.cc and read back.
use mathlib.Core.List.{reverse, reverse-cons}
use archinix.Base.{
  ℕ, zero, suc, ◌+◌, ◌<◌, ◌≡◌, refl, ap, ◌∙◌, Bool, true, false, Option, none, some, [], ◌∷◌, ◌++◌,
  arith, ◌==◌, ==_iff, length, All, Bytes, IsByte, Error, Result, ok, err, get_or, holds_below,
  holds_below_lt,
}
use archinix.Encoding.Nix32.{
  characters, encoded_length, digit_at, encode_from, encode, lookup_reverse, index_of, put_digit,
  decode_loop, decode, bit_and-le,
}
use archinix.Encoding.Nix32.Blocks.{run, run-suc, run_of_blocks}

is_some : Option ℕ → ℕ → Bool
is_some none n = false
is_some (some m) n = m == n

is_some_sound : (o : Option ℕ) (n : ℕ) → is_some o n ≡ true → o ≡ some n
unfolding is_some
is_some_sound none n h = absurd cc
is_some_sound (some m) n h = ap some ((==_iff m n).0 h)

-- The reverse map holds the index of each character.
lookup_reverse-characters : (d : ℕ) → d < 32 → lookup_reverse (get_or characters d 0) ≡ some d
unfolding lookup_reverse index_of is_some holds_below
lookup_reverse-characters d h =
    is_some_sound (lookup_reverse (get_or characters d 0)) d
      (holds_below_lt (λ d. is_some (lookup_reverse (get_or characters d 0)) d) 32 refl d h)

digit_at-lt : (bs : Bytes) (n : ℕ) → digit_at bs n < 32
unfolding digit_at
digit_at-lt bs n = omega (arith, bit_and-le _ 0x1f)

decode_loop-cons :
    (cs : Bytes) (c digit k : ℕ) (res : Bytes)
    → lookup_reverse c ≡ some digit
    → decode_loop (c ∷ cs) k res ≡ decode_loop cs (k + 1) (put_digit res k digit)
unfolding decode_loop
decode_loop-cons cs c digit k res known =
    ap
      (λ o. elim o as (λ x. Result Bytes) [
        | none ↦ err Error.invalid_character
        | some digit ↦ decode_loop cs (k + 1) (put_digit res k digit)
      ])
      known

decode_loop-nil : (k : ℕ) (res : Bytes) → decode_loop [] k res ≡ ok res
unfolding decode_loop
decode_loop-nil k res = refl

-- The text of the digits from the `n`-th on, the lowest first.
text : Bytes → ℕ → ℕ → Bytes
text bs n zero = []
text bs n (suc m) = get_or characters (digit_at bs n) 0 ∷ text bs (suc n) m

text-last :
    (bs : Bytes) (n m : ℕ)
    → text bs n m ++ (get_or characters (digit_at bs (n + m)) 0 ∷ []) ≡ text bs n (suc m)
unfolding text
text-last bs n zero =
    let e : n + 0 ≡ n = omega arith in ap (λ k. get_or characters (digit_at bs k) 0 ∷ []) e
text-last bs n (suc m) =
    let e : n + suc m ≡ suc n + m = omega arith in
    ap
      (λ k.
        get_or characters (digit_at bs n) 0
        ∷ (text bs (suc n) m ++ (get_or characters (digit_at bs k) 0 ∷ [])))
      e
    ∙ ap (get_or characters (digit_at bs n) 0 ∷◌) (text-last bs (suc n) m)

reverse-encode_from : (bs : Bytes) (n : ℕ) → reverse (encode_from bs n) ≡ text bs 0 n
unfolding encode_from text
reverse-encode_from bs zero = refl
reverse-encode_from bs (suc n) =
    let e : n ≡ 0 + n = omega arith in
    reverse-cons (get_or characters (digit_at bs n) 0) (encode_from bs n)
    ∙ ap (λ cs. cs ++ (get_or characters (digit_at bs n) 0 ∷ [])) (reverse-encode_from bs n)
    ∙ ap (λ k. text bs 0 n ++ (get_or characters (digit_at bs k) 0 ∷ [])) e
    ∙ text-last bs 0 n

decode_loop-text :
    (bs : Bytes) (m n : ℕ) → decode_loop (text bs n m) n (run bs n) ≡ ok (run bs (n + m))
unfolding text
decode_loop-text bs zero n =
    let e : n ≡ n + 0 = omega arith in decode_loop-nil n (run bs n) ∙ ap (λ k. ok (run bs k)) e
decode_loop-text bs (suc m) n =
    let e : n + 1 ≡ suc n = omega arith in
    let e' : suc n + m ≡ n + suc m = omega arith in
    decode_loop-cons (text bs (suc n) m) (get_or characters (digit_at bs n) 0) (digit_at bs n) n
      (run bs n) (lookup_reverse-characters (digit_at bs n) (digit_at-lt bs n))
    ∙ ap (λ k. decode_loop (text bs (suc n) m) k (put_digit (run bs n) n (digit_at bs n))) e
    ∙ ap (decode_loop (text bs (suc n) m) (suc n)) (run-suc bs n)
    ∙ decode_loop-text bs m (suc n)
    ∙ ap (λ k. ok (run bs k)) e'

-- A digest of 32 bytes that is printed in Nix's base 32 is read back.
pub decode-encode : (bs : Bytes) → length bs ≡ 32 → All IsByte bs → decode (encode bs) ≡ ok bs
unfolding decode encode run
decode-encode [] l h = absurd (omega arith)
decode-encode (b ∷ bs) l h =
    let size : encoded_length (length (b ∷ bs)) ≡ 52 =
      unfold encoded_length in ap encoded_length l in
    ap (λ n. decode_loop (reverse (encode_from (b ∷ bs) n)) 0 []) size
    ∙ ap (λ s. decode_loop s 0 []) (reverse-encode_from (b ∷ bs) 52)
    ∙ decode_loop-text (b ∷ bs) 52 0
    ∙ ap ok (run_of_blocks 6 (b ∷ bs) l h)
