-- ===== src/Memory/Entries.antt =====
-- The map of a directory: reading what was written, and adding names in ascending order.
use archinix.Base.{
  ◌≡◌, refl, ap, inl, inr, true, false, none, some, [], ◌∷◌, arith, Bool-cases, Bytes, eqb,
  eqb_refl, eqb→eq, lt_bytes,
}
use archinix.Memory.{File, Files, empty, file, find, insert}

pub find-insert_self :
    (name : Bytes) (f : File) (es : Files) → find name (insert name f es) ≡ some f
unfolding find insert
find-insert_self name f empty = rw (eqb_refl name) refl
find-insert_self name f (file n g es) = elim (Bool-cases (eqb n name)) [
  | inl e ↦ rw e (rw (eqb_refl name) refl)
  | inr e ↦ elim (Bool-cases (lt_bytes name n)) [
    | inl l ↦ rw e (rw l (rw (eqb_refl name) refl))
    | inr l ↦ rw e (rw l (rw e (find-insert_self name f es)))
  ]
]

pub insert-insert_self :
    (name : Bytes) (f g : File) (es : Files) → insert name f (insert name g es) ≡ insert name f es
unfolding insert
insert-insert_self name f g empty = rw (eqb_refl name) refl
insert-insert_self name f g (file n h es) = elim (Bool-cases (eqb n name)) [
  | inl e ↦ rw e (rw (eqb_refl name) refl)
  | inr e ↦ elim (Bool-cases (lt_bytes name n)) [
    | inl l ↦ rw e (rw l (rw (eqb_refl name) refl))
    | inr l ↦ rw e (rw l (rw e (rw l (ap (file n h) (insert-insert_self name f g es)))))
  ]
]

pub lt_bytes_irrefl : (xs : Bytes) → lt_bytes xs xs ≡ false
unfolding lt_bytes
lt_bytes_irrefl [] = refl
lt_bytes_irrefl (x ∷ xs) = ground (arith, lt_bytes_irrefl xs)

pub lt_bytes_asym : (xs ys : Bytes) → lt_bytes xs ys ≡ true → lt_bytes ys xs ≡ false
unfolding lt_bytes
lt_bytes_asym [] [] h = cc
lt_bytes_asym [] (y ∷ ys) h = refl
lt_bytes_asym (x ∷ xs) [] h = cc
lt_bytes_asym (x ∷ xs) (y ∷ ys) h = ground (arith, lt_bytes_asym xs ys)

pub lt_bytes_trans :
    (xs ys zs : Bytes) → lt_bytes xs ys ≡ true → lt_bytes ys zs ≡ true → lt_bytes xs zs ≡ true
unfolding lt_bytes
lt_bytes_trans xs ys [] h k = ground arith
lt_bytes_trans [] ys (z ∷ zs) h k = refl
lt_bytes_trans (x ∷ xs) [] (z ∷ zs) h k = cc
lt_bytes_trans (x ∷ xs) (y ∷ ys) (z ∷ zs) h k = ground (arith, lt_bytes_trans xs ys zs)

lt_bytes-ne : (xs ys : Bytes) → lt_bytes xs ys ≡ true → eqb xs ys ≡ false
lt_bytes-ne xs ys h = elim (Bool-cases (eqb xs ys)) [
  | inl e ↦ absurd (let bad = rw (eqb→eq xs ys e) at h in cc (bad, lt_bytes_irrefl ys))
  | inr e ↦ e
]

-- Every name of the map comes before the given one.
abbrev pub AreBefore : Files → Bytes → Type 0
AreBefore empty name = Unit {0}
AreBefore (file n f es) name = (lt_bytes n name ≡ true) × AreBefore es name

unfoldable pub snoc : Files → Bytes → File → Files
snoc empty name f = file name f empty
snoc (file n g es) name f = file n g (snoc es name f)

pub insert-snoc :
    (name : Bytes) (f : File) (es : Files) → AreBefore es name → insert name f es ≡ snoc es name f
unfolding insert snoc
insert-snoc name f empty h = refl
insert-snoc name f (file n g es) (l, h) =
    rw (lt_bytes-ne n name l)
      (rw (lt_bytes_asym n name l) (ap (file n g) (insert-snoc name f es h)))

pub find_before : (name : Bytes) (es : Files) → AreBefore es name → find name es ≡ none
unfolding find
find_before name empty h = refl
find_before name (file n g es) (l, h) = rw (lt_bytes-ne n name l) (find_before name es h)

pub AreBefore-snoc :
    (es : Files) (name later : Bytes) (f : File)
    → AreBefore es name
    → lt_bytes name later ≡ true
    → AreBefore (snoc es name f) later
unfolding snoc
AreBefore-snoc empty name later f h l = (l, tt)
AreBefore-snoc (file n g es) name later f (k, h) l =
    (lt_bytes_trans n name later k l, AreBefore-snoc es name later f h l)
