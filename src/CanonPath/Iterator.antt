-- ===== src/CanonPath/Iterator.antt =====
-- `CanonPath::Iterator` of src/libutil/include/nix/util/canon-path.hh.
use archinix.Base.{
  ℕ, zero, suc, ◌<◌, ◌≡◌, refl, sym, ap, ◌∙◌, ◌⊎◌, inl, inr, Bool, true, false, Option, none, some,
  List, [], ◌∷◌, ◌++◌, arith, if◌then◌else◌, ◌==◌, ==_iff, Bool-cases, length, take, drop, All,
  Bytes, eqb,
}
use archinix.CanonPath.{next_component, after_component, rel}
use archinix.CanonPath.Resolve.{
  is_entry, split, joined, render, joined-starts, later, split-next, after_component-le,
}
use archinix.CanonPath.Canonical.{IsEntry, split-append, split-NoSlash}

pub record Iterator : Type 0 where
  pub remaining : Bytes
  pub slash : Option ℕ

-- `remaining.find('/')`
unfoldable pub find_slash : Bytes → Option ℕ
find_slash [] = none
find_slash (c ∷ s) =
    if c == b'/' then some 0 else elim (find_slash s) [ none ↦ none | some n ↦ some (suc n) ]

abbrev pub iterator : Bytes → Iterator
iterator remaining = record { remaining = remaining; slash = find_slash remaining }

-- `operator*`
abbrev pub segment : Iterator → Bytes
segment i = elim i.slash [ none ↦ i.remaining | some n ↦ take n i.remaining ]

-- `operator++`
abbrev pub next : Iterator → Iterator
next i = elim i.slash [
  | none ↦ record i { remaining = drop (length i.remaining) i.remaining }
  | some n ↦ iterator (drop (suc n) i.remaining)
]

-- The comparison with `end()` is of the positions in the path.
abbrev pub is_at_end : Iterator → Bool
is_at_end i = elim i.remaining [ [] ↦ true | c ∷ s ↦ false ]

-- `for (auto & c : path)`, on fuel.
unfoldable pub segments : ℕ → Iterator → Option (List Bytes)
segments zero i = none
segments (suc fuel) i =
    if is_at_end i
    then some []
    else elim (segments fuel (next i)) [ none ↦ none | some cs ↦ some (segment i ∷ cs) ]

unfoldable pub elements : Bytes → Option (List Bytes)
elements path = segments (suc (length (rel path))) (iterator (rel path))

record Found (s : Bytes) (n : ℕ) : Type 0 where
  pub found : find_slash s ≡ some n
  pub before : take n s ≡ next_component s
  pub behind : after_component s ≡ b'/' ∷ drop (suc n) s

record Missing (s : Bytes) : Type 0 where
  pub nowhere : find_slash s ≡ none
  pub whole : next_component s ≡ s
  pub nothing : after_component s ≡ []

find_slash-cases : (s : Bytes) → Missing s ⊎ ((n : ℕ) × Found s n)
unfolding find_slash next_component after_component
find_slash-cases [] = inl (record { nowhere = refl; whole = refl; nothing = refl })
find_slash-cases (c ∷ s) = elim (Bool-cases (c == b'/')) [
  | inl e ↦ inr (
    0,
    record {
      found = rw e refl;
      before = rw e refl;
      behind = rw e (ap (λ x. x ∷ s) ((==_iff c b'/').0 e));
    },
  )
  | inr e ↦ elim (find_slash-cases s) [
    | inl m ↦ inl (record {
      nowhere = rw e (rw (m.nowhere) refl);
      whole = rw e (rw (m.whole) refl);
      nothing = rw e (m.nothing);
    })
    | inr (n, f) ↦ inr (
      suc n,
      record {
        found = rw e (rw (f.found) refl);
        before = rw e (ap (λ x. c ∷ x) (f.before));
        behind = rw e (f.behind);
      },
    )
  ]
]

abbrev pub AreFilled : List Bytes → Type 0
AreFilled cs = All (λ c. 0 < length c) cs

split_nil-filled : AreFilled (split []) → ⊥
unfolding split
split_nil-filled h = omega (arith, h.0)

drop-length : (s : Bytes) → drop (length s) s ≡ []
drop-length [] = refl
drop-length (c ∷ s) = drop-length s

segment-none : (s : Bytes) → find_slash s ≡ none → segment (iterator s) ≡ s
segment-none s e = rw e refl

segment-some : (s : Bytes) (n : ℕ) → find_slash s ≡ some n → segment (iterator s) ≡ take n s
segment-some s n e = rw e refl

segments-last :
    (fuel c : ℕ) (r : Bytes)
    → find_slash (c ∷ r) ≡ none
    → segments (suc (suc fuel)) (iterator (c ∷ r)) ≡ some ((c ∷ r) ∷ [])
unfolding segments
segments-last fuel c r e =
    rw e (rw (drop-length r) (ap (λ x. some (x ∷ [])) (segment-none (c ∷ r) e)))

segments-more :
    (fuel c n : ℕ) (r : Bytes) (cs : List Bytes)
    → find_slash (c ∷ r) ≡ some n
    → segments fuel (iterator (drop (suc n) (c ∷ r))) ≡ some cs
    → segments (suc fuel) (iterator (c ∷ r)) ≡ some (take n (c ∷ r) ∷ cs)
unfolding segments
segments-more fuel c n r cs e h =
    rw (e, segments) (rw h (ap (λ x. some (x ∷ cs)) (segment-some (c ∷ r) n e)))

split-Found : (s : Bytes) (n : ℕ) → Found s n → split s ≡ take n s ∷ split (drop (suc n) s)
unfolding later
split-Found s n f =
    split-next s ∙ rw (f.behind) (ap (λ x. x ∷ split (drop (suc n) s)) (sym (f.before)))

split-Missing : (s : Bytes) → Missing s → split s ≡ s ∷ []
unfolding later
split-Missing s m = split-next s ∙ rw (m.nothing) (ap (λ x. x ∷ []) (m.whole))

-- Where no component is empty, the iterator visits each of them.
segments-split :
    (fuel : ℕ) (s : Bytes)
    → AreFilled (split s)
    → length s < fuel
    → segments fuel (iterator s) ≡ some (split s)
segments-split zero s h f = absurd (omega arith)
segments-split (suc fuel) [] h f = absurd (split_nil-filled h)
segments-split (suc zero) (c ∷ r) h f = absurd (omega arith)
segments-split (suc (suc fuel)) (c ∷ r) h f = elim (find_slash-cases (c ∷ r)) [
  | inl m ↦ segments-last fuel c r (m.nowhere) ∙ ap some (sym (split-Missing (c ∷ r) m))
  | inr (n, found) ↦
      let parts = split-Found (c ∷ r) n found in
      let filled = rw parts at h in
      segments-more (suc fuel) c n r (split (drop (suc n) (c ∷ r))) (found.found) (
        segments-split (suc fuel) (drop (suc n) (c ∷ r)) (filled.1)
          (omega (arith, after_component-le (c ∷ r), ap length (found.behind), f)))
      ∙ ap some (sym parts)
]

-- The components of a stack, the first one first.
unfoldable pub in_order : List Bytes → List Bytes
in_order [] = []
in_order (c ∷ stack) = in_order stack ++ (c ∷ [])

rel-append : (s t : Bytes) → 0 < length s → rel (s ++ t) ≡ rel s ++ t
rel-append [] t h = absurd (omega arith)
rel-append (c ∷ s) t h = refl

pub split-rel :
    (stack : List Bytes) (c : Bytes)
    → All IsEntry (c ∷ stack)
    → split (rel (joined (c ∷ stack))) ≡ in_order (c ∷ stack)
unfolding joined in_order
split-rel [] c ((h, k), hs) = split-NoSlash c h
split-rel (b ∷ stack) c ((h, k), hs) =
    let (r, e) = joined-starts stack b in
    ap split (rel-append (joined (b ∷ stack)) (b'/' ∷ c) (omega (arith, ap length e)))
    ∙ split-append (rel (joined (b ∷ stack))) c
    ∙ rw (split-rel stack b hs) (rw (split-NoSlash c h) refl)

filled-append :
    (xs : List Bytes) (c : Bytes) → AreFilled xs → 0 < length c → AreFilled (xs ++ (c ∷ []))
filled-append [] c h k = (k, tt)
filled-append (x ∷ xs) c h k = (h.0, filled-append xs c (h.1) k)

entry-filled : (c : Bytes) → is_entry c ≡ true → 0 < length c
unfolding is_entry eqb
entry-filled [] h = absurd cc
entry-filled (d ∷ c) h = omega arith

pub in_order-filled : (stack : List Bytes) → All IsEntry stack → AreFilled (in_order stack)
unfolding in_order
in_order-filled [] h = tt
in_order-filled (c ∷ stack) ((h, k), hs) =
    filled-append (in_order stack) c (in_order-filled stack hs) (entry-filled c k)

-- Iterating over a canonical path visits its components from the first to the last.
pub elements-render :
    (stack : List Bytes) → All IsEntry stack → elements (render stack) ≡ some (in_order stack)
unfolding elements render in_order
elements-render [] h = unfold segments in refl
elements-render (c ∷ stack) h =
    let parts = split-rel stack c h in
    let filled = in_order-filled (c ∷ stack) h in
    segments-split (suc (length (rel (joined (c ∷ stack))))) (rel (joined (c ∷ stack)))
      (rw (← parts) at filled) (omega arith)
    ∙ ap some parts
