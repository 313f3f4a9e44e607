-- ===== src/StorePath/Laws.antt =====
-- What the constructors of src/libstore/path.cc guarantee.
use archinix.Base.{
  ℕ, zero, suc, ◌+◌, ◌%◌, ◌≤◌, ◌≡◌, refl, ap, ◌∙◌, ◌≢◌, inl, inr, Bool, true, false, [], ◌∷◌, ◌++◌,
  arith, ltb, ◌==◌, ==_iff, Bool-cases, and-true, length, take, drop, replicate, length-append,
  length-replicate, All, Bytes, codes, contains_byte, Result, ok, >>?-eq-ok,
}
use archinix.Encoding.Nix32
use archinix.Hash.{to_string, base16}
use archinix.StorePath.{
  is_name_char, all_of, check_name, hash_part, name, store_path, store_path_of_hash, xor_at,
  compress_loop, compress_hash, make_store_path, make_content_addressed_path,
}

take-append : (n : ℕ) (xs ys : Bytes) → length xs ≡ n → take n (xs ++ ys) ≡ xs
take-append zero [] ys h = refl
take-append zero (x ∷ xs) ys h = absurd (omega arith)
take-append (suc n) [] ys h = absurd (omega arith)
take-append (suc n) (x ∷ xs) ys h = rw (take-append n xs ys (omega arith))

drop-append : (n : ℕ) (xs ys : Bytes) → length xs ≡ n → drop n (xs ++ ys) ≡ ys
drop-append zero [] ys h = refl
drop-append zero (x ∷ xs) ys h = absurd (omega arith)
drop-append (suc n) [] ys h = absurd (omega arith)
drop-append (suc n) (x ∷ xs) ys h = drop-append n xs ys (omega arith)

all_of-All : (p : ℕ → Bool) (xs : Bytes) → All (λ c. p c ≡ true) xs → all_of p xs ≡ true
unfolding all_of
all_of-All p [] h = refl
all_of-All p (x ∷ xs) h = ground (arith, all_of-All p xs h.1)

length-xor_at : (h : Bytes) (i v : ℕ) → length (xor_at h i v) ≡ length h
unfolding xor_at
length-xor_at [] i v = refl
length-xor_at (x ∷ xs) zero v = refl
length-xor_at (x ∷ xs) (suc i) v = ap suc (length-xor_at xs i v)

length-compress_loop :
    (n : ℕ) (bs : Bytes) (i : ℕ) (h : Bytes) → length (compress_loop n bs i h) ≡ length h
unfolding compress_loop
length-compress_loop n [] i h = refl
length-compress_loop n (b ∷ bs) i h =
    length-compress_loop n bs (i + 1) (xor_at h (i % n) b) ∙ length-xor_at h (i % n) b

-- A digest folded down has the size that was asked for.
length-compress_hash : (hash : Bytes) (n : ℕ) → length (compress_hash hash n) ≡ n
unfolding compress_hash
length-compress_hash hash n = length-compress_loop n hash 0 (replicate n 0) ∙ length-replicate n 0

length-encode_20 : (hash : Bytes) → length hash ≡ 20 → length (Nix32.encode hash) ≡ 32
unfolding Nix32.encoded_length
length-encode_20 [] h = absurd (omega arith)
length-encode_20 (b ∷ bs) h = Nix32.length-encode b bs ∙ rw h refl

drop-suc :
    (n : ℕ) (xs : Bytes) (c : ℕ) (ys : Bytes) → length xs ≡ n → drop (suc n) (xs ++ (c ∷ ys)) ≡ ys
drop-suc zero [] c ys h = refl
drop-suc zero (x ∷ xs) c ys h = absurd (omega arith)
drop-suc (suc n) [] c ys h = absurd (omega arith)
drop-suc (suc n) (x ∷ xs) c ys h = drop-suc n xs c ys (omega arith)

name-split : (h : Bytes) (c : ℕ) (n : Bytes) → length h ≡ 32 → name (h ++ (c ∷ n)) ≡ n
name-split h c n l = drop-suc 32 h c n l

check_name-only : (n : Bytes) {u : Unit {0}} → check_name n ≡ ok u → check_name n ≡ ok tt
check_name-only n {u} h = h

-- The constructor looks at 32 characters of hash and at the name behind character 32, and never at
-- character 32 itself.
pub store_path_separator :
    (h : Bytes) (c : ℕ) (n : Bytes)
    → length h ≡ 32
    → All (λ d. Nix32.is_hash_char d ≡ true) h
    → check_name n ≡ ok tt
    → store_path (h ++ (c ∷ n)) ≡ ok (h ++ (c ∷ n))
unfolding store_path
store_path_separator h c n l hs ok_name = rw (long) (
    rw (take-append 32 h (c ∷ n) l) (rw (all_of-All _ h hs) (rw (name-split h c n l) (rw ok_name))))
  where
    long : ltb (length (h ++ (c ∷ n))) 33 ≡ false
    long = ground (arith, length-append h (c ∷ n))

-- A path that is built from a digest of 20 bytes and a name has that name and the digest's text as
-- its parts, and the constructor that reads base names accepts it unchanged.
store_path-store_path_of_hash :
    (hash name_of p : Bytes)
    → length hash ≡ 20
    → store_path_of_hash hash name_of ≡ ok p
    → (store_path p ≡ ok p) × (name p ≡ name_of) × (hash_part p ≡ Nix32.encode hash)
unfolding store_path_of_hash
store_path-store_path_of_hash hash name_of p l h =
    let len = length-encode_20 hash l in
    let (u, checked, is) =
      >>?-eq-ok (check_name (name (Nix32.encode hash ++ (b'-' ∷ name_of)))) _ h in
    let named : name (Nix32.encode hash ++ (b'-' ∷ name_of)) ≡ name_of =
      name-split (Nix32.encode hash) b'-' name_of len in
    let p_is : Nix32.encode hash ++ (b'-' ∷ name_of) ≡ p = ok_is is in
    rw (← p_is) (
      store_path_separator (Nix32.encode hash) b'-' name_of len (Nix32.encode-IsHash hash)
          (check_name-only name_of (rw named at checked)),
      named,
      take-append 32 (Nix32.encode hash) (b'-' ∷ name_of) len,
    )
  where
    ok_is : {a b : Bytes} → ◌≡◌ {A = Result Bytes} (ok a) (ok b) → a ≡ b
    ok_is h = cc

-- The path that a name and the hash of a NAR determine, whatever function is used as the digest, is
-- accepted unchanged by the constructor that reads base names, and has that name.
pub store_path-make_content_addressed_path :
    (sha256 : Bytes → Bytes) (store_dir name_of nar_hash p : Bytes)
    → make_content_addressed_path sha256 store_dir name_of nar_hash ≡ ok p
    → (store_path p ≡ ok p) × (name p ≡ name_of)
unfolding make_content_addressed_path make_store_path
store_path-make_content_addressed_path sha256 store_dir name_of nar_hash p h =
    let (accepted, named, x) =
      store_path-store_path_of_hash _ name_of p
        (length-compress_hash
          (sha256 (
            codes "source"
            ++ (codes ":"
                ++ (to_string nar_hash base16 true
                    ++ (codes ":" ++ (store_dir ++ (codes ":" ++ name_of)))))))
          20)
        h in
    (accepted, named)

all_of-contains :
    (p : ℕ → Bool) (c : ℕ) (xs : Bytes)
    → p c ≡ false
    → all_of p xs ≡ true
    → contains_byte c xs ≡ false
unfolding all_of contains_byte
all_of-contains p c [] absent h = refl
all_of-contains p c (x ∷ xs) absent h = elim (Bool-cases (x == c)) [
  | inl e ↦
      absurd
        (let same : x ≡ c = (==_iff x c).0 e in cc (absent, rw same at ((and-true (p x) _ h).0)))
  | inr e ↦ rw e (all_of-contains p c xs absent ((and-true (p x) _ h).1))
]

-- A name that is accepted has no slash and no NUL byte, is neither empty nor `.` nor `..`, and has
-- at most 211 characters: it is one component of a path.
pub check_name_safe :
    (n : Bytes)
    → check_name n ≡ ok tt
    → (contains_byte b'/' n ≡ false)
      × (contains_byte 0 n ≡ false)
      × (n ≢ [])
      × (n ≢ codes ".")
      × (n ≢ codes "..")
      × (length n ≤ 211)
unfolding check_name
check_name_safe n h = (
  all_of-contains is_name_char b'/' n (unfold is_name_char in refl) chars,
  all_of-contains is_name_char 0 n (unfold is_name_char in refl) chars,
  (λ e. refused [] (λ g. cc) e),
  (λ e. refused (codes ".") (λ g. cc) e),
  (λ e. refused (codes "..") (λ g. cc) e),
  ground arith,
)
  where
    chars : all_of is_name_char n ≡ true
    chars = ground arith

    refused : (m : Bytes) → check_name m ≢ ok tt → n ≡ m → ⊥
    refused m bad e = bad (rw e at h)
