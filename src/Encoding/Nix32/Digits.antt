-- ===== src/Encoding/Nix32/Digits.antt =====
-- The bits of one digit of the base 32 of src/libutil/base-nix-32.cc: how they are taken out of two bytes,
-- and put into them.
use Prim.Native.Nat.{bit_or}
use archinix.Base.{
  ℕ, zero, suc, ◌+◌, ◌-◌, ◌*◌, ◌/◌, ◌%◌, ◌^◌, ◌≤◌, ◌<◌, ◌≡◌, refl, sym, ap, ◌∙◌, inl, inr, Bool,
  true, false, [], ◌∷◌, ◌++◌, bit_and, arith, leb, ◌==◌, if◌then◌else◌, ==_iff, Bool-cases, length,
  Bytes, get_or, holds_below, holds_below_lt,
}
use archinix.Encoding.Nix32.{digit_at, resize_or, put_digit}

-- Disjoint bits are added.
disjoint_table :
    holds_below
      (λ j.
        holds_below
          (λ x. holds_below (λ y. bit_or x (y * 2 ^ j) == x + y * 2 ^ j) (2 ^ (8 - j)))
          (2 ^ j))
      9
    ≡ true
unfolding holds_below
disjoint_table = refl

disjoint : (j x y : ℕ) → j < 9 → x < 2 ^ j → y < 2 ^ (8 - j) → bit_or x (y * 2 ^ j) ≡ x + y * 2 ^ j
disjoint j x y hj hx hy = (==_iff _ _).0 (
    holds_below_lt _ (2 ^ (8 - j))
      (holds_below_lt _ (2 ^ j)
        (holds_below_lt
          (λ j.
            holds_below
              (λ x. holds_below (λ y. bit_or x (y * 2 ^ j) == x + y * 2 ^ j) (2 ^ (8 - j))) (2 ^ j))
          9 disjoint_table j hj)
        x hx)
      y hy)

joined_table :
    holds_below
      (λ k.
        holds_below
          (λ x.
            holds_below
              (λ y. bit_and (bit_or x (y * 2 ^ k)) 0x1f == (x + y * 2 ^ k) % 32)
              (2 ^ (8 - k)))
          (2 ^ k))
      9
    ≡ true
unfolding holds_below
joined_table = refl

-- The digit whose bits are the upper ones of a byte and the lower ones of the next, where `k` is 8 - j.
joined :
    (k x y v d : ℕ)
    → k < 9
    → x < 2 ^ k
    → y < 2 ^ (8 - k)
    → v ≡ y * 2 ^ k
    → d ≡ (x + y * 2 ^ k) % 32
    → bit_and (bit_or x v) 0x1f ≡ d
joined k x y v d hk hx hy is_v is_d =
    ap (λ v. bit_and (bit_or x v) 0x1f) is_v
    ∙ (==_iff _ _).0 (
        holds_below_lt _ (2 ^ (8 - k))
          (holds_below_lt _ (2 ^ k)
            (holds_below_lt
              (λ k.
                holds_below
                  (λ x.
                    holds_below (λ y. bit_and (bit_or x (y * 2 ^ k)) 0x1f == (x + y * 2 ^ k) % 32)
                      (2 ^ (8 - k)))
                  (2 ^ k))
              9 joined_table k hk)
            x hx)
          y hy)
    ∙ sym is_d

-- What a carry leaves behind the last whole byte.
abbrev pub cell : ℕ → Bytes
cell zero = []
cell (suc c) = suc c ∷ []

resize_or-cell : (x v : ℕ) → v < 256 → resize_or (cell x) 0 v ≡ bit_or x v ∷ []
unfolding resize_or
resize_or-cell zero v h =
    let e : bit_or 0 (v * 2 ^ 0) ≡ 0 + v * 2 ^ 0 =
      disjoint 0 0 v (omega arith) (omega arith) (omega arith) in
    let e' : v * 2 ^ 0 ≡ v = omega arith in
    ap (λ k. k ∷ []) (sym (ap (bit_or 0) (sym e') ∙ e ∙ (omega arith)))
resize_or-cell (suc x) v h = refl

-- `put_digit` at the place `i` and the bit `j`.
abbrev pub put_at : Bytes → ℕ → ℕ → ℕ → Bytes
put_at res i j digit =
    let res' = resize_or res i (digit * 2 ^ j % 256) in
    if digit / 2 ^ (8 - j) == 0 then res' else resize_or res' (i + 1) (digit / 2 ^ (8 - j))

pub put_at-skip :
    (p : ℕ) (res : Bytes) (i j digit : ℕ)
    → put_at (p ∷ res) (suc i) j digit ≡ p ∷ put_at res i j digit
unfolding resize_or
put_at-skip p res i j digit = elim (Bool-cases (digit / 2 ^ (8 - j) == 0)) [
  | inl e ↦ rw e refl
  | inr e ↦
      let next : suc i + 1 ≡ suc (i + 1) = omega arith in
      rw e (
        ap (λ k. resize_or (p ∷ resize_or res i (digit * 2 ^ j % 256)) k (digit / 2 ^ (8 - j)))
          next)
]

-- A digit is put on a byte that the bits below it have begun.
pub put_at-cell :
    (cur : Bytes) (x j digit low z carry : ℕ)
    → ((v : ℕ) → v < 256 → resize_or cur 0 v ≡ bit_or x v ∷ [])
    → digit * 2 ^ j % 256 ≡ low * 2 ^ j
    → low * 2 ^ j < 256
    → j < 9
    → x < 2 ^ j
    → low < 2 ^ (8 - j)
    → z ≡ x + low * 2 ^ j
    → carry ≡ digit / 2 ^ (8 - j)
    → put_at cur 0 j digit ≡ z ∷ cell carry
unfolding resize_or
put_at-cell cur x j digit low z carry begun is_low fits hj hx hl is_z is_carry =
    let first : resize_or cur 0 (digit * 2 ^ j % 256) ≡ z ∷ [] =
      ap (resize_or cur 0) is_low
      ∙ begun (low * 2 ^ j) fits
      ∙ ap (λ k. k ∷ []) (disjoint j x low hj hx hl ∙ sym is_z) in
    rw first (rw (← is_carry) (spread carry))
  where
    spread : (c : ℕ) → (if c == 0 then z ∷ [] else resize_or (z ∷ []) (0 + 1) c) ≡ z ∷ cell c
    spread zero = refl
    spread (suc c) = ground arith

pub cell-begun : (x v : ℕ) → v < 256 → resize_or (cell x) 0 v ≡ bit_or x v ∷ []
cell-begun x v h = resize_or-cell x v h

pub byte-begun : (x v : ℕ) → v < 256 → resize_or (x ∷ []) 0 v ≡ bit_or x v ∷ []
unfolding resize_or
byte-begun x v h = refl

pub put_digit-put_at :
    (res : Bytes) (n i j digit : ℕ)
    → n * 5 / 8 ≡ i
    → n * 5 % 8 ≡ j
    → put_digit res n digit ≡ put_at res i j digit
unfolding put_digit
put_digit-put_at res n i j digit is_i is_j =
    ap (λ i. put_at res i (n * 5 % 8) digit) is_i ∙ ap (λ j. put_at res i j digit) is_j

get_or_past : (bs : Bytes) (i : ℕ) → length bs ≤ i → get_or bs i 0 ≡ 0
get_or_past [] i h = refl
get_or_past (b ∷ bs) zero h = absurd (omega arith)
get_or_past (b ∷ bs) (suc i) h = get_or_past bs i (omega arith)

-- A digit by the byte and the bit at which it begins.
pub digit_at-joined :
    (bs : Bytes) (n i j d : ℕ)
    → n * 5 / 8 ≡ i
    → n * 5 % 8 ≡ j
    → j < 8
    → get_or bs i 0 / 2 ^ j < 2 ^ (8 - j)
    → get_or bs (i + 1) 0 % 2 ^ j < 2 ^ (8 - (8 - j))
    → get_or bs (i + 1) 0 * 2 ^ (8 - j) % 256 ≡ get_or bs (i + 1) 0 % 2 ^ j * 2 ^ (8 - j)
    → d ≡ (get_or bs i 0 / 2 ^ j + get_or bs (i + 1) 0 % 2 ^ j * 2 ^ (8 - j)) % 32
    → digit_at bs n ≡ d
unfolding digit_at
digit_at-joined bs n i j d is_i is_j hj hx hy is_v is_d = rw is_i (
    rw is_j (
      joined (8 - j) (get_or bs i 0 / 2 ^ j) (get_or bs (i + 1) 0 % 2 ^ j) _ d (omega arith) hx hy
        (upper (leb (length bs - 1) i) refl ∙ is_v) is_d))
  where
    upper :
        (t : Bool)
        → leb (length bs - 1) i ≡ t
        → (if t then 0 else get_or bs (i + 1) 0 * 2 ^ (8 - j) % 256)
          ≡ get_or bs (i + 1) 0 * 2 ^ (8 - j) % 256
    upper false h = refl
    upper true h =
        let none_left : get_or bs (i + 1) 0 ≡ 0 = get_or_past bs (i + 1) (ground arith) in
        rw none_left (ground arith)

pub put_at-append :
    (pre cur : Bytes) (j digit : ℕ)
    → put_at (pre ++ cur) (length pre) j digit ≡ pre ++ put_at cur 0 j digit
put_at-append [] cur j digit = refl
put_at-append (p ∷ pre) cur j digit =
    put_at-skip p (pre ++ cur) (length pre) j digit ∙ ap (p ∷◌) (put_at-append pre cur j digit)
