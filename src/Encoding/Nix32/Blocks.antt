-- ===== src/Encoding/Nix32/Blocks.antt =====
-- What the decoder of src/libutil/base-nix-32.cc makes of the digits: five bytes make eight of them, so
-- that the proof goes by blocks.
use Prim.Native.Nat.{bit_or}
use archinix.Base.{
  ℕ, zero, suc, ◌+◌, ◌-◌, ◌*◌, ◌/◌, ◌%◌, ◌^◌, ◌<◌, ◌≡◌, refl, sym, ap, ◌∙◌, [], ◌∷◌, ◌++◌, arith,
  length, All, Bytes, IsByte,
}
use archinix.Encoding.Nix32.{digit_at, resize_or, put_digit}
use archinix.Encoding.Nix32.Digits.{
  cell, put_at-cell, cell-begun, byte-begun, put_digit-put_at, digit_at-joined, put_at-append,
  put_at-skip,
}

-- What the decoder has after the first `n` digits of `bs`.
unfoldable pub run : Bytes → ℕ → Bytes
run bs zero = []
run bs (suc n) = put_digit (run bs n) n (digit_at bs n)

pub run-suc : (bs : Bytes) (n : ℕ) → put_digit (run bs n) n (digit_at bs n) ≡ run bs (suc n)
unfolding run
run-suc bs n = refl

-- One round of the decoder, where the byte at hand holds `x` so far.
round :
    (bs pre cur : Bytes) (n j digit x low z carry : ℕ)
    → ((v : ℕ) → v < 256 → resize_or cur 0 v ≡ bit_or x v ∷ [])
    → run bs n ≡ pre ++ cur
    → digit_at bs n ≡ digit
    → n * 5 / 8 ≡ length pre
    → n * 5 % 8 ≡ j
    → digit * 2 ^ j % 256 ≡ low * 2 ^ j
    → low * 2 ^ j < 256
    → x < 2 ^ j
    → low < 2 ^ (8 - j)
    → z ≡ x + low * 2 ^ j
    → carry ≡ digit / 2 ^ (8 - j)
    → run bs (suc n) ≡ pre ++ (z ∷ cell carry)
unfolding run
round bs pre cur n j digit x low z carry begun before is_digit is_i is_j is_low fits hx hl is_z
      is_carry =
    rw (before, run)
      (rw is_digit (
        put_digit-put_at (pre ++ cur) n (length pre) j digit is_i is_j
        ∙ put_at-append pre cur j digit
        ∙ ap (pre ++◌) (
            put_at-cell cur x j digit low z carry begun is_low fits (omega (arith, is_j)) hx hl is_z
              is_carry)))

module _ (a b c d e : ℕ) (bs : Bytes) (ha : a < 256) (hb : b < 256) (hc : c < 256) (hd : d < 256)
    (he : e < 256) where
  abbrev five : Bytes
  five = a ∷ b ∷ c ∷ d ∷ e ∷ bs

  digits_of_five :
      (digit_at five 0 ≡ a % 32)
      × (digit_at five 1 ≡ a / 32 + b % 4 * 8)
      × (digit_at five 2 ≡ b / 4 % 32)
      × (digit_at five 3 ≡ b / 128 + c % 16 * 2)
      × (digit_at five 4 ≡ c / 16 + d % 2 * 16)
      × (digit_at five 5 ≡ d / 2 % 32)
      × (digit_at five 6 ≡ d / 64 + e % 8 * 4)
      × (digit_at five 7 ≡ e / 8)
  digits_of_five = (
    digit_at-joined five 0 0 0 _ refl refl (omega arith) (omega arith) (omega arith) (omega arith)
        (omega arith),
    digit_at-joined five 1 0 5 _ refl refl (omega arith) (omega arith) (omega arith) (omega arith)
        (omega arith),
    digit_at-joined five 2 1 2 _ refl refl (omega arith) (omega arith) (omega arith) (omega arith)
        (omega arith),
    digit_at-joined five 3 1 7 _ refl refl (omega arith) (omega arith) (omega arith) (omega arith)
        (omega arith),
    digit_at-joined five 4 2 4 _ refl refl (omega arith) (omega arith) (omega arith) (omega arith)
        (omega arith),
    digit_at-joined five 5 3 1 _ refl refl (omega arith) (omega arith) (omega arith) (omega arith)
        (omega arith),
    digit_at-joined five 6 3 6 _ refl refl (omega arith) (omega arith) (omega arith) (omega arith)
        (omega arith),
    digit_at-joined five 7 4 3 _ refl refl (omega arith) (omega arith) (omega arith) (omega arith)
        (omega arith),
  )

  run_of_five : run five 8 ≡ a ∷ b ∷ c ∷ d ∷ e ∷ []
  unfolding run
  run_of_five =
      let (d₀, d₁, d₂, d₃, d₄, d₅, d₆, d₇) = digits_of_five in
      let r₁ : run five 1 ≡ (a % 32) ∷ [] =
        round five [] (cell 0) 0 0 _ 0 (a % 32) (a % 32) 0 (cell-begun 0) refl d₀ refl refl
          (omega arith) (omega arith) (omega arith) (omega arith) (omega arith) (omega arith) in
      let r₂ : run five 2 ≡ a ∷ cell (b % 4) =
        round five [] (a % 32 ∷ []) 1 5 _ (a % 32) (a / 32) a (b % 4) (byte-begun (a % 32)) r₁ d₁
          refl refl (omega arith) (omega arith) (omega arith) (omega arith) (omega arith)
          (omega arith) in
      let r₃ : run five 3 ≡ a ∷ (b % 128) ∷ [] =
        round five (a ∷ []) (cell (b % 4)) 2 2 _ (b % 4) (b / 4 % 32) (b % 128) 0
          (cell-begun (b % 4)) r₂ d₂ refl refl (omega arith) (omega arith) (omega arith)
          (omega arith) (omega arith) (omega arith) in
      let r₄ : run five 4 ≡ a ∷ b ∷ cell (c % 16) =
        round five (a ∷ []) (b % 128 ∷ []) 3 7 _ (b % 128) (b / 128) b (c % 16)
          (byte-begun (b % 128)) r₃ d₃ refl refl (omega arith) (omega arith) (omega arith)
          (omega arith) (omega arith) (omega arith) in
      let r₅ : run five 5 ≡ a ∷ b ∷ c ∷ cell (d % 2) =
        round five (a ∷ b ∷ []) (cell (c % 16)) 4 4 _ (c % 16) (c / 16) c (d % 2)
          (cell-begun (c % 16)) r₄ d₄ refl refl (omega arith) (omega arith) (omega arith)
          (omega arith) (omega arith) (omega arith) in
      let r₆ : run five 6 ≡ a ∷ b ∷ c ∷ (d % 64) ∷ [] =
        round five (a ∷ b ∷ c ∷ []) (cell (d % 2)) 5 1 _ (d % 2) (d / 2 % 32) (d % 64) 0
          (cell-begun (d % 2)) r₅ d₅ refl refl (omega arith) (omega arith) (omega arith)
          (omega arith) (omega arith) (omega arith) in
      let r₇ : run five 7 ≡ a ∷ b ∷ c ∷ d ∷ cell (e % 8) =
        round five (a ∷ b ∷ c ∷ []) (d % 64 ∷ []) 6 6 _ (d % 64) (d / 64) d (e % 8)
          (byte-begun (d % 64)) r₆ d₆ refl refl (omega arith) (omega arith) (omega arith)
          (omega arith) (omega arith) (omega arith) in
      round five (a ∷ b ∷ c ∷ d ∷ []) (cell (e % 8)) 7 3 _ (e % 8) (e / 8) e 0 (cell-begun (e % 8))
        r₇ d₇ refl refl (omega arith) (omega arith) (omega arith) (omega arith) (omega arith)
        (omega arith)

  digit_at-shift : (n : ℕ) → digit_at five (n + 8) ≡ digit_at bs n
  unfolding digit_at
  digit_at-shift n =
      let place : (n + 8) * 5 / 8 ≡ suc (suc (suc (suc (suc (n * 5 / 8))))) = omega arith in
      let bit : (n + 8) * 5 % 8 ≡ n * 5 % 8 = omega arith in
      let after : suc (suc (suc (suc (suc (n * 5 / 8))))) + 1
          ≡ suc (suc (suc (suc (suc (n * 5 / 8 + 1))))) =
        omega arith in
      rw (place, bit) (rw after (ground arith))

  put_digit-shift :
      (res : Bytes) (n digit : ℕ)
      → put_digit (a ∷ b ∷ c ∷ d ∷ e ∷ res) (n + 8) digit
        ≡ a ∷ b ∷ c ∷ d ∷ e ∷ put_digit res n digit
  put_digit-shift res n digit =
      put_digit-put_at (a ∷ b ∷ c ∷ d ∷ e ∷ res) (n + 8) (suc (suc (suc (suc (suc (n * 5 / 8))))))
        (n * 5 % 8) digit (omega arith) (omega arith)
      ∙ put_at-skip a _ _ (n * 5 % 8) digit
      ∙ ap (a ∷◌) (
          put_at-skip b _ _ (n * 5 % 8) digit
          ∙ ap (b ∷◌) (
              put_at-skip c _ _ (n * 5 % 8) digit
              ∙ ap (c ∷◌) (
                  put_at-skip d _ _ (n * 5 % 8) digit
                  ∙ ap (d ∷◌) (
                      put_at-skip e res _ (n * 5 % 8) digit
                      ∙ ap (e ∷◌) (sym (put_digit-put_at res n _ _ digit refl refl))))))

  run-shift : (n : ℕ) → run five (n + 8) ≡ a ∷ b ∷ c ∷ d ∷ e ∷ run bs n
  unfolding run
  run-shift zero = run_of_five
  run-shift (suc n) =
      let next : suc n + 8 ≡ suc (n + 8) = omega arith in
      ap (run five) next
      ∙ ap (λ res. put_digit res (n + 8) (digit_at five (n + 8))) (run-shift n)
      ∙ ap (put_digit (a ∷ b ∷ c ∷ d ∷ e ∷ run bs n) (n + 8)) (digit_at-shift n)
      ∙ put_digit-shift (run bs n) n (digit_at bs n)

-- The last two bytes of a digest make four digits.
run_of_two : (a b : ℕ) → a < 256 → b < 256 → run (a ∷ b ∷ []) 4 ≡ a ∷ b ∷ []
unfolding run
run_of_two a b ha hb =
    let two = a ∷ b ∷ [] in
    let d₀ : digit_at two 0 ≡ a % 32 =
      digit_at-joined two 0 0 0 _ refl refl (omega arith) (omega arith) (omega arith) (omega arith)
        (omega arith) in
    let d₁ : digit_at two 1 ≡ a / 32 + b % 4 * 8 =
      digit_at-joined two 1 0 5 _ refl refl (omega arith) (omega arith) (omega arith) (omega arith)
        (omega arith) in
    let d₂ : digit_at two 2 ≡ b / 4 % 32 =
      digit_at-joined two 2 1 2 _ refl refl (omega arith) (omega arith) (omega arith) (omega arith)
        (omega arith) in
    let d₃ : digit_at two 3 ≡ b / 128 =
      digit_at-joined two 3 1 7 _ refl refl (omega arith) (omega arith) (omega arith) (omega arith)
        (omega arith) in
    let r₁ : run two 1 ≡ (a % 32) ∷ [] =
      round two [] (cell 0) 0 0 _ 0 (a % 32) (a % 32) 0 (cell-begun 0) refl d₀ refl refl
        (omega arith) (omega arith) (omega arith) (omega arith) (omega arith) (omega arith) in
    let r₂ : run two 2 ≡ a ∷ cell (b % 4) =
      round two [] (a % 32 ∷ []) 1 5 _ (a % 32) (a / 32) a (b % 4) (byte-begun (a % 32)) r₁ d₁ refl
        refl (omega arith) (omega arith) (omega arith) (omega arith) (omega arith) (omega arith) in
    let r₃ : run two 3 ≡ a ∷ (b % 128) ∷ [] =
      round two (a ∷ []) (cell (b % 4)) 2 2 _ (b % 4) (b / 4 % 32) (b % 128) 0 (cell-begun (b % 4))
        r₂ d₂ refl refl (omega arith) (omega arith) (omega arith) (omega arith) (omega arith)
        (omega arith) in
    round two (a ∷ []) (b % 128 ∷ []) 3 7 _ (b % 128) (b / 128) b 0 (byte-begun (b % 128)) r₃ d₃
      refl refl (omega arith) (omega arith) (omega arith) (omega arith) (omega arith) (omega arith)

pub run_of_blocks :
    (k : ℕ) (bs : Bytes) → length bs ≡ k * 5 + 2 → All IsByte bs → run bs (k * 8 + 4) ≡ bs
run_of_blocks zero (a ∷ b ∷ []) l (ha, (hb, _)) = run_of_two a b ha hb
run_of_blocks zero [] l h = absurd (omega arith)
run_of_blocks zero (a ∷ []) l h = absurd (omega arith)
run_of_blocks zero (a ∷ b ∷ c ∷ bs) l h = absurd (omega arith)
run_of_blocks (suc k) (a ∷ b ∷ c ∷ d ∷ e ∷ bs) l (ha, (hb, (hc, (hd, (he, h))))) =
    let rounds : suc k * 8 + 4 ≡ k * 8 + 4 + 8 = omega arith in
    ap (run (a ∷ b ∷ c ∷ d ∷ e ∷ bs)) rounds
    ∙ run-shift a b c d e bs ha hb hc hd he (k * 8 + 4)
    ∙ ap (λ xs. a ∷ b ∷ c ∷ d ∷ e ∷ xs) (run_of_blocks k bs (omega arith) h)
run_of_blocks (suc k) [] l h = absurd (omega arith)
run_of_blocks (suc k) (a ∷ []) l h = absurd (omega arith)
run_of_blocks (suc k) (a ∷ b ∷ []) l h = absurd (omega arith)
run_of_blocks (suc k) (a ∷ b ∷ c ∷ []) l h = absurd (omega arith)
run_of_blocks (suc k) (a ∷ b ∷ c ∷ d ∷ []) l h = absurd (omega arith)
