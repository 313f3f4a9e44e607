-- ===== src/Base/Lists.antt =====
-- Lists measured by native numbers, bytes, and the order of std::string.
use Prim.Native.Nat.{ℕ, zero, suc, ◌+◌, ◌^◌, ◌<◌}
use Prim.Native.Char.{code}
use Prim.Native.String.{String}
use mathlib.Core.Path.{◌≡◌, refl, ap}
use mathlib.Core.Bool.{Bool, true, false, not, ◌&&◌, ◌||◌}
use mathlib.Core.Logic.{inl, inr}
use mathlib.Core.List.{List, [], ◌∷◌, ◌++◌}
use native.Mathlib.Omega.{arith}
use archinix.Base.Tests.{ltb, ◌==◌, ==_iff, and-true, Bool-cases}

module _ {ℓ} {A : Type ℓ} where
  abbrev pub length : List A → ℕ
  length [] = 0
  length (x ∷ xs) = suc (length xs)

  abbrev pub take : ℕ → List A → List A
  take zero xs = []
  take (suc n) [] = []
  take (suc n) (x ∷ xs) = x ∷ take n xs

  abbrev pub drop : ℕ → List A → List A
  drop zero xs = xs
  drop (suc n) [] = []
  drop (suc n) (x ∷ xs) = drop n xs

  abbrev pub replicate : ℕ → A → List A
  replicate zero a = []
  replicate (suc n) a = a ∷ replicate n a

  pub length-append : (xs ys : List A) → length (xs ++ ys) ≡ length xs + length ys
  length-append [] ys = omega arith
  length-append (x ∷ xs) ys = omega (arith, length-append xs ys)

  pub length-replicate : (n : ℕ) (a : A) → length (replicate n a) ≡ n
  length-replicate zero a = refl
  length-replicate (suc n) a = ap suc (length-replicate n a)

  abbrev pub All {κ} : (A → Type κ) → List A → Type κ
  All P [] = Unit {κ}
  All P (x ∷ xs) = P x × All P xs

  pub All-append {κ} : (P : A → Type κ) (xs ys : List A) → All P (xs ++ ys) → All P xs × All P ys
  All-append P [] ys h = (tt, h)
  All-append P (x ∷ xs) ys (hx, hs) = let (l, r) = All-append P xs ys hs in ((hx, l), r)

abbrev pub Bytes : Type 0
Bytes = List ℕ

abbrev pub IsByte : ℕ → Type 0
IsByte b = b < 256

abbrev pub IsU64 : ℕ → Type 0
IsU64 n = n < 2 ^ 64

-- The bytes of an ASCII literal.
abbrev pub codes : String → Bytes
codes String.[] = []
codes (String.◌∷◌ c s) = code c ∷ codes s

-- std::string's `==`.
unfoldable pub eqb : Bytes → Bytes → Bool
eqb [] [] = true
eqb [] (y ∷ ys) = false
eqb (x ∷ xs) [] = false
eqb (x ∷ xs) (y ∷ ys) = x == y && eqb xs ys

pub eqb_refl : (xs : Bytes) → eqb xs xs ≡ true
unfolding eqb
eqb_refl [] = refl
eqb_refl (x ∷ xs) = ground (arith, eqb_refl xs)

pub eqb→eq : (xs ys : Bytes) → eqb xs ys ≡ true → xs ≡ ys
unfolding eqb
eqb→eq [] [] h = refl
eqb→eq [] (y ∷ ys) h = cc
eqb→eq (x ∷ xs) [] h = cc
eqb→eq (x ∷ xs) (y ∷ ys) h = ground (arith, eqb→eq xs ys)

-- std::string's `<`: lexicographic, on unsigned bytes.
unfoldable pub lt_bytes : Bytes → Bytes → Bool
lt_bytes xs [] = false
lt_bytes [] (y ∷ ys) = true
lt_bytes (x ∷ xs) (y ∷ ys) = ltb x y || (x == y && lt_bytes xs ys)

-- `s.find(c) != npos`.
unfoldable pub contains_byte : ℕ → Bytes → Bool
contains_byte c [] = false
contains_byte c (x ∷ xs) = x == c || contains_byte c xs

pub not_eqb→eq : (xs ys : Bytes) → not (eqb xs ys) ≡ false → xs ≡ ys
not_eqb→eq xs ys h = ground (arith, eqb→eq xs ys)

module _ {ℓ} {A : Type ℓ} where
  abbrev pub get_or : List A → ℕ → A → A
  get_or [] i d = d
  get_or (x ∷ xs) zero d = x
  get_or (x ∷ xs) (suc i) d = get_or xs i d

-- A test that holds of every number under a bound, which evaluation can decide.
unfoldable pub holds_below : (ℕ → Bool) → ℕ → Bool
holds_below test zero = true
holds_below test (suc bound) = holds_below test bound && test bound

pub holds_below_lt :
    (test : ℕ → Bool) (bound : ℕ)
    → holds_below test bound ≡ true
    → (n : ℕ) → n < bound
    → test n ≡ true
unfolding holds_below
holds_below_lt test zero all n small = absurd (omega arith)
holds_below_lt test (suc bound) all n small =
    let (others, last) = and-true (holds_below test bound) (test bound) all in
    elim (Bool-cases (n == bound)) [
      | inl e ↦ rw ((==_iff n bound).0 e) last
      | inr e ↦ holds_below_lt test bound others n (ground (arith, small, e))
    ]
