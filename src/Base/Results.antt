-- ===== src/Base/Results.antt =====
-- Exceptions as values, and a parser as a state-passing function on the bytes left in the source.
use mathlib.Core.Path.{◌≡◌, refl}
use mathlib.Core.Bool.{Bool, true, false}
use archinix.Base.Lists.{Bytes}
use archinix.Base.Tests.{if◌then◌else◌}

-- What the code throws. `out_of_fuel` is no exception of the program: a bounded loop ran out.
pub data Error : Type 0 where
  end_of_file : Error
  num_too_large : Error
  string_too_long : Error
  nonzero_padding : Error
  too_large_to_align : Error
  too_deep : Error
  unexpected_tag : Error
  executable_not_empty : Error
  invalid_name : Error
  not_sorted : Error
  invalid_target : Error
  unknown_type : Error
  not_an_archive : Error
  unsupported_type : Error
  out_of_fuel : Error
  invalid_character : Error
  assertion_failed : Error
  bad_hash : Error
  bad_store_path : Error
  usage_error : Error
  file_not_found not_a_regular_file not_a_directory not_a_symlink : Error
  symlink_not_allowed no_parent : Error

pub data Result {ℓ} (A : Type ℓ) : Type ℓ where
  ok : A → Result A
  err : Error → Result A

abbrev pub Parser : Type 0 → Type 0
Parser A = Bytes → Result (A × Bytes)

infixl 5 ◌>>=◌ ◌>>◌
abbrev pub ◌>>=◌ : {A B : Type 0} → Parser A → (A → Parser B) → Parser B
◌>>=◌ m f s = elim (m s) [ ok (a, r) ↦ f a r | err e ↦ err e ]

abbrev pub ◌>>◌ : {B : Type 0} → Parser (Unit {0}) → Parser B → Parser B
m >> k = m >>= λ _. k

abbrev pub pure : {A : Type 0} → A → Parser A
pure a s = ok (a, s)

abbrev pub throw : {A : Type 0} → Error → Parser A
throw e s = err e

abbrev pub throw_if : Bool → Error → Parser (Unit {0})
throw_if true e s = err e
throw_if false e s = ok (tt, s)

-- Inversion of a bind that succeeds.
pub >>=-eq-ok :
    {A B : Type 0} (m : Parser A) (f : A → Parser B) (s : Bytes) {p : B × Bytes}
    → (m >>= f) s ≡ ok p
    → (a : A) × (r : Bytes) × (m s ≡ ok (a, r)) × (f a r ≡ ok p)
>>=-eq-ok {A} {B} m f s {p} h = go (m s) refl h
  where
    go :
        (x : Result (A × Bytes))
        → m s ≡ x
        → ◌≡◌ {A = Result (B × Bytes)} (elim x [ ok (a, r) ↦ f a r | err e ↦ err e ]) (ok p)
        → (a : A) × (r : Bytes) × (m s ≡ ok (a, r)) × (f a r ≡ ok p)
    go (ok (a, r)) e h = (a, r, e, h)
    go (err x) e h = cc

-- One step of a bind.
pub >>=-ok :
    {A B : Type 0} (m : Parser A) (f : A → Parser B) (s : Bytes) {a : A} {r : Bytes}
    → m s ≡ ok (a, r)
    → (m >>= f) s ≡ f a r
>>=-ok m f s e = rw (e, ◌>>=◌)

pub >>=-err :
    {A B : Type 0} (m : Parser A) (f : A → Parser B) (s : Bytes) {x : Error}
    → m s ≡ err x
    → (m >>= f) s ≡ err x
>>=-err m f s e = rw (e, ◌>>=◌)

-- The inversion as an elimination: the parts of a successful bind are fresh variables.
pub >>=-elim {κ} :
    {A B : Type 0} {C : Type κ} (m : Parser A) (f : A → Parser B) (s : Bytes) {p : B × Bytes}
    → (m >>= f) s ≡ ok p
    → ((a : A) (r : Bytes) → m s ≡ ok (a, r) → f a r ≡ ok p → C)
    → C
>>=-elim m f s h k = let (a, r, e, g) = >>=-eq-ok m f s h in k a r e g

-- A check that passes leaves the source alone.
pub throw_if-elim {κ} :
    {B : Type 0} {C : Type κ} (b : Bool) (x : Error) (f : Parser B) (s : Bytes) {p : B × Bytes}
    → (throw_if b x >> f) s ≡ ok p
    → (b ≡ false → f s ≡ ok p → C)
    → C
throw_if-elim true x f s h k = absurd (cc)
throw_if-elim false x f s h k = k refl h

pub if-elim {κ} :
    {B : Type 0} {C : Type κ} (b : Bool) (f g : Parser B) (s : Bytes) {p : B × Bytes}
    → (if b then f else g) s ≡ ok p
    → (b ≡ true → f s ≡ ok p → C)
    → (b ≡ false → g s ≡ ok p → C)
    → C
if-elim true f g s h k l = k refl h
if-elim false f g s h k l = l refl h

pub throw_if_inv :
    (b : Bool) (x : Error) (s : Bytes) {u : Unit {0}} {r : Bytes}
    → throw_if b x s ≡ ok (u, r)
    → (b ≡ false) × (s ≡ r)
throw_if_inv true x s h = absurd (cc)
throw_if_inv false x s h = (refl, cc)

-- The parts of two equal results.
pub ok_value {ℓ} :
    {A : Type ℓ} {a b : A} {r t : Bytes}
    → ◌≡◌ {A = Result (A × Bytes)} (ok (a, r)) (ok (b, t))
    → a ≡ b
ok_value h = cc

pub ok_left {ℓ} :
    {A : Type ℓ} {a b : A} {r t : Bytes}
    → ◌≡◌ {A = Result (A × Bytes)} (ok (a, r)) (ok (b, t))
    → r ≡ t
ok_left h = cc

-- A step of code that may throw and reads no source.
infixl 5 ◌>>?◌
abbrev pub ◌>>?◌ {ℓ κ} : {A : Type ℓ} {B : Type κ} → Result A → (A → Result B) → Result B
ok a >>? f = f a
err e >>? f = err e

pub >>?-eq-ok {ℓ κ} :
    {A : Type ℓ} {B : Type κ} (m : Result A) (f : A → Result B) {b : B}
    → (m >>? f) ≡ ok b
    → (a : A) × (m ≡ ok a) × (f a ≡ ok b)
>>?-eq-ok (ok a) f h = (a, refl, h)
>>?-eq-ok (err e) f h = cc
