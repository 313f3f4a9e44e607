-- ===== src/CanonPath/Resolve.antt =====
-- What `canonPathInner` computes, by the components of a path; the loop computes it.
use archinix.Base.{
  ℕ, zero, suc, ◌≤◌, ◌<◌, ◌≡◌, refl, sym, ap, ◌∙◌, ◌⊎◌, inl, inr, Bool, true, false, not, ◌||◌,
  none, some, List, [], ◌∷◌, ◌++◌, arith, if◌then◌else◌, ◌==◌, Bool-cases, length, drop, All, Bytes,
  codes, eqb, eqb→eq, contains_byte, ok, ◌>>?◌,
}
use archinix.CanonPath.{
  skip_slashes, next_component, after_component, erase_last, erase_component, canon_step,
  canon_loop, or_root, canon_path_inner,
}

unfoldable pub cons_first : ℕ → List Bytes → List Bytes
cons_first c [] = (c ∷ []) ∷ []
cons_first c (x ∷ xs) = (c ∷ x) ∷ xs

-- The strings between the separators.
unfoldable pub split : Bytes → List Bytes
unfolding cons_first
split [] = [] ∷ []
split (c ∷ s) = if c == b'/' then [] ∷ split s else cons_first c (split s)

-- A component that names an entry, and does not stand for this directory or its parent.
unfoldable pub is_entry : Bytes → Bool
is_entry c = not (eqb c [] || eqb c (codes ".") || eqb c (codes ".."))

abbrev pub pop : List Bytes → List Bytes
pop [] = []
pop (c ∷ stack) = stack

-- The components so far, the last one first.
unfoldable pub enter : List Bytes → Bytes → List Bytes
unfolding is_entry
enter stack c =
    if eqb c [] || eqb c (codes ".")
    then stack
    else if eqb c (codes "..")
    then pop stack
    else c ∷ stack

unfoldable pub resolve : List Bytes → List Bytes → List Bytes
resolve stack [] = stack
resolve stack (c ∷ cs) = resolve (enter stack c) cs

unfoldable pub joined : List Bytes → Bytes
joined [] = []
joined (c ∷ stack) = joined stack ++ (b'/' ∷ c)

-- The path of a stack of components.
unfoldable pub render : List Bytes → Bytes
unfolding joined
render [] = b'/' ∷ []
render (c ∷ stack) = joined (c ∷ stack)

abbrev pub NoSlash : Bytes → Type 0
NoSlash c = contains_byte b'/' c ≡ false

unfoldable pub later : Bytes → List Bytes
unfolding split
later [] = []
later (c ∷ s) = split s

pub split-next : (s : Bytes) → split s ≡ next_component s ∷ later (after_component s)
unfolding split next_component after_component later cons_first
split-next [] = refl
split-next (c ∷ s) = elim (Bool-cases (c == b'/')) [
  | inl e ↦ rw e refl
  | inr e ↦ rw e (rw (split-next s) refl)
]

resolve-later :
    (s : Bytes) (stack : List Bytes)
    → resolve stack (later (after_component s)) ≡ resolve stack (split (after_component s))
unfolding resolve later after_component split enter eqb
resolve-later [] stack = refl
resolve-later (c ∷ s) stack = elim (Bool-cases (c == b'/')) [
  | inl e ↦ rw e (rw e refl)
  | inr e ↦ rw e (resolve-later s stack)
]

-- A round of the loop enters one component.
resolve-split :
    (s : Bytes) (stack : List Bytes)
    → resolve stack (split s) ≡ resolve (enter stack (next_component s)) (split (after_component s))
unfolding resolve
resolve-split s stack = rw (split-next s) (resolve-later s (enter stack (next_component s)))

resolve-skip_slashes :
    (s : Bytes) (stack : List Bytes)
    → resolve stack (split (skip_slashes s)) ≡ resolve stack (split s)
unfolding skip_slashes resolve split enter eqb
resolve-skip_slashes [] stack = refl
resolve-skip_slashes (c ∷ s) stack = elim (Bool-cases (c == b'/')) [
  | inl e ↦ rw e (resolve-skip_slashes s stack)
  | inr e ↦ rw e (rw e refl)
]

skip_slashes-le : (s : Bytes) → length (skip_slashes s) ≤ length s
unfolding skip_slashes
skip_slashes-le [] = omega arith
skip_slashes-le (c ∷ s) = ground (arith, skip_slashes-le s)

pub after_component-le : (s : Bytes) → length (after_component s) ≤ length s
unfolding after_component
after_component-le [] = omega arith
after_component-le (c ∷ s) = ground (arith, after_component-le s)

next-after : (s : Bytes) → next_component s ++ after_component s ≡ s
unfolding next_component after_component
next-after [] = refl
next-after (c ∷ s) = elim (Bool-cases (c == b'/')) [
  | inl e ↦ rw e refl
  | inr e ↦ rw e (rw (next-after s) refl)
]

erase_last-none : (c : Bytes) → NoSlash c → erase_last c ≡ none
unfolding erase_last contains_byte
erase_last-none [] h = refl
erase_last-none (x ∷ c) h = ground (arith, erase_last-none c)

pub erase_last-joined : (p c : Bytes) → NoSlash c → erase_last (p ++ (b'/' ∷ c)) ≡ some p
unfolding erase_last
erase_last-joined [] c h = rw (erase_last-none c h) refl
erase_last-joined (x ∷ p) c h = rw (erase_last-joined p c h) refl

erase_component-some : (s t : Bytes) → erase_last s ≡ some t → erase_component s ≡ ok t
unfolding erase_component
erase_component-some [] t h = unfold erase_last in cc
erase_component-some (c ∷ s) t h = rw (h, erase_component) refl

erase_component-joined : (p c : Bytes) → NoSlash c → erase_component (p ++ (b'/' ∷ c)) ≡ ok p
erase_component-joined p c h = erase_component-some (p ++ (b'/' ∷ c)) p (erase_last-joined p c h)

next_component-NoSlash : (s : Bytes) → NoSlash (next_component s)
unfolding next_component contains_byte
next_component-NoSlash [] = refl
next_component-NoSlash (c ∷ s) = ground (arith, next_component-NoSlash s)

drop-next :
    (s : Bytes) (c : Bytes)
    → eqb (next_component s) c ≡ true
    → drop (length c) s ≡ after_component s
drop-next s c h =
    ap (drop (length c)) (sym (next-after s))
    ∙ ap (λ x. drop (length c) (x ++ after_component s)) (eqb→eq (next_component s) c h)
    ∙ drop-append c (after_component s)
  where
    drop-append : (xs ys : Bytes) → drop (length xs) (xs ++ ys) ≡ ys
    drop-append [] ys = refl
    drop-append (x ∷ xs) ys = drop-append xs ys

erase_component-pop :
    (stack : List Bytes)
    → All NoSlash stack
    → erase_component (joined stack) ≡ ok (joined (pop stack))
unfolding joined
erase_component-pop [] h = unfold erase_component in refl
erase_component-pop (c ∷ stack) (h, hs) = erase_component-joined (joined stack) c h

canon_step-enter :
    (stack : List Bytes) (s : Bytes)
    → All NoSlash stack
    → eqb (next_component s) [] ≡ false
    → canon_step (joined stack) s ≡ ok (joined (enter stack (next_component s)), after_component s)
unfolding canon_step enter
canon_step-enter stack s hs here = elim (Bool-cases (eqb (next_component s) (codes "."))) [
  | inl e ↦ rw here (rw e (rw (drop-next s (codes ".") e) refl))
  | inr e ↦ elim (Bool-cases (eqb (next_component s) (codes ".."))) [
    | inl d ↦
        rw here
          (rw e (rw d (rw (erase_component-pop stack hs) (rw (drop-next s (codes "..") d) refl))))
    | inr d ↦ rw here (rw e (rw d (unfold joined in refl)))
  ]
]

enter-NoSlash :
    (stack : List Bytes) (c : Bytes) → All NoSlash stack → NoSlash c → All NoSlash (enter stack c)
unfolding enter
enter-NoSlash stack c hs h = elim (Bool-cases (eqb c [] || eqb c (codes "."))) [
  | inl e ↦ rw e hs
  | inr e ↦ elim (Bool-cases (eqb c (codes ".."))) [
    | inl d ↦ rw e (rw d (pop-NoSlash stack hs))
    | inr d ↦ rw e (rw d (h, hs))
  ]
]
  where
    pop-NoSlash : (stack : List Bytes) → All NoSlash stack → All NoSlash (pop stack)
    pop-NoSlash [] hs = tt
    pop-NoSlash (c ∷ stack) hs = hs.1

skip-cases :
    (s : Bytes)
    → (skip_slashes s ≡ [])
      ⊎ ((c : ℕ) × (r : Bytes) × (skip_slashes s ≡ c ∷ r) × ((c == b'/') ≡ false))
unfolding skip_slashes
skip-cases [] = inl refl
skip-cases (c ∷ s) = elim (Bool-cases (c == b'/')) [
  | inl e ↦ rw e (skip-cases s)
  | inr e ↦ rw e (inr (c, s, refl, e))
]

next_component-ne :
    (c : ℕ) (r : Bytes) → (c == b'/') ≡ false → eqb (next_component (c ∷ r)) [] ≡ false
unfolding next_component eqb
next_component-ne c r n = rw n refl

shorter :
    (c : ℕ) (r : Bytes) (fuel : ℕ)
    → (c == b'/') ≡ false
    → length r < fuel
    → length (after_component (c ∷ r)) < fuel
unfolding after_component
shorter c r fuel n l = rw n (omega (arith, l, after_component-le r))

pub resolve-split_nil : (stack : List Bytes) → stack ≡ resolve stack (split [])
unfolding resolve split enter eqb
resolve-split_nil stack = refl

-- With fuel for what remains, the loop returns the path of the components that it enters.
canon_loop-resolve :
    (fuel : ℕ) (stack : List Bytes) (s : Bytes)
    → All NoSlash stack
    → length s < fuel
    → canon_loop fuel (joined stack) s ≡ ok (joined (resolve stack (split s)))
unfolding canon_loop
canon_loop-resolve zero stack s hs f = absurd (omega arith)
canon_loop-resolve (suc fuel) stack s hs f = elim (skip-cases s) [
  | inl e ↦
      let skipped = resolve-skip_slashes s stack in
      let skipped = rw e at skipped in
      rw (e, canon_loop) (ap (λ x. ok (joined x)) (resolve-split_nil stack ∙ skipped))
  | inr (c, r, e, n) ↦
      let skipped = resolve-skip_slashes s stack in
      let skipped = rw e at skipped in
      let short = skip_slashes-le s in
      let short = rw e at short in
      rw (e, canon_loop)
        (rw (canon_step-enter stack (c ∷ r) hs (next_component-ne c r n)) (
          canon_loop-resolve fuel (enter stack (next_component (c ∷ r))) (after_component (c ∷ r))
            (enter-NoSlash stack _ hs (next_component-NoSlash (c ∷ r)))
            (shorter c r fuel n (omega (arith, short, f)))
          ∙ ap (λ x. ok (joined x)) (sym (resolve-split (c ∷ r) stack) ∙ skipped)))
]

pub joined-starts : (stack : List Bytes) (c : Bytes) → (r : Bytes) × (joined (c ∷ stack) ≡ b'/' ∷ r)
unfolding joined
joined-starts [] c = (c, refl)
joined-starts (b ∷ stack) c = let (r, e) = joined-starts stack b in (r ++ (b'/' ∷ c), rw e refl)

or_root-joined : (stack : List Bytes) → or_root (joined stack) ≡ render stack
unfolding render
or_root-joined [] = unfold joined in refl
or_root-joined (c ∷ stack) = let (r, e) = joined-starts stack c in rw e refl

-- `canonPathInner` never fails on a path that is not empty: it returns the path of the components
-- that are left when empty ones and `.` are dropped and each `..` takes the last one away.
pub canon_path_inner-resolve :
    (c : ℕ) (s : Bytes) → canon_path_inner (c ∷ s) ≡ ok (render (resolve [] (split (c ∷ s))))
unfolding canon_path_inner joined
canon_path_inner-resolve c s =
    let whole = canon_loop-resolve (suc (length (c ∷ s))) [] (c ∷ s) tt (omega arith) in
    ap (λ x. x >>? λ result. ok (or_root result)) whole
    ∙ ap ok (or_root-joined (resolve [] (split (c ∷ s))))
