-- ===== src/Serialise/Source/Readers.antt =====
-- The `read` of a BufferedSource and of a StringSource of src/libutil/serialise.cc keep its contract.
use archinix.Base.{
  ℕ, ◌+◌, ◌-◌, ◌≤◌, ◌<◌, min, ◌≡◌, refl, sym, ap, ◌∙◌, ◌⊎◌, inl, inr, true, false, [], ◌++◌,
  append_assoc, arith, ◌==◌, Bool-cases, length, take, drop, length-append, Bytes, Error, ok, err,
  drop_all, take-drop, drop-drop, drop_nil, length-take, length-drop, take-drop-length,
}
use archinix.Serialise.Source.{BufferedSource, refill, copy_out, read, StringSource, read_text}
use archinix.Serialise.Source.Refine.{Reader}

-- What `read` of the system gives: nothing at the end of the file, and otherwise at least one byte, at most
-- as many as were asked for and as there are.
abbrev pub IsGranting : (ℕ → Bytes → ℕ) → Type 0
IsGranting granted =
    ((n : ℕ) → granted n [] ≡ 0)
    × ((n : ℕ) (s : Bytes)
        → 0 < n
        → 0 < length s
        → (0 < granted n s) × (granted n s ≤ n) × (granted n s ≤ length s))

abbrev pub unseen : BufferedSource → Bytes
unseen s = drop s.pos_out s.buffer ++ s.unread

abbrev pub HasRest : BufferedSource → Type 0
HasRest s = s.pos_out < length s.buffer

-- The buffer is empty with both positions at its start, or it has a byte that was not read.
abbrev pub IsBuffered : BufferedSource → Type 0
IsBuffered s = (0 < s.buf_size) × (HasRest s ⊎ ((s.buffer ≡ []) × (s.pos_out ≡ 0)))

abbrev IsStep : ℕ → BufferedSource → Bytes → BufferedSource → Type 0
IsStep len s chunk s' =
    (unseen s ≡ chunk ++ unseen s') × (0 < length chunk) × (length chunk ≤ len) × IsBuffered s'

-- The slice that is copied, with what is left of the buffer.
slice-split :
    (n : ℕ) (s : BufferedSource)
    → unseen s ≡ take n (drop s.pos_out s.buffer) ++ (drop (s.pos_out + n) s.buffer ++ s.unread)
slice-split n s =
    let rest = drop s.pos_out s.buffer in
    ap (λ b. b ++ s.unread)
      (sym (take-drop n rest) ∙ ap (take n rest ++◌) (drop-drop s.pos_out n s.buffer))
    ∙ append_assoc (take n rest) (drop (s.pos_out + n) s.buffer) s.unread

slice-length :
    (len : ℕ) (s : BufferedSource)
    → 0 < len
    → HasRest s
    → (0 < length (take (min len (length s.buffer - s.pos_out)) (drop s.pos_out s.buffer)))
      × (length (take (min len (length s.buffer - s.pos_out)) (drop s.pos_out s.buffer)) ≤ len)
slice-length len s pos rest =
    let n = min len (length s.buffer - s.pos_out) in
    rw (length-take n (drop s.pos_out s.buffer))
      (rw (length-drop s.pos_out s.buffer) (omega arith, omega arith))

copy_out-IsStep :
    (granted : ℕ → Bytes → ℕ) (len : ℕ) (s : BufferedSource)
    → 0 < len
    → 0 < s.buf_size
    → HasRest s
    → IsStep len s (copy_out granted len s).0 (copy_out granted len s).1
copy_out-IsStep granted len s pos size rest =
    let n = min len (length s.buffer - s.pos_out) in
    let (some_bytes, most) = slice-length len s pos rest in
    elim (Bool-cases (length s.buffer == s.pos_out + n)) [
      | inl e ↦
          let used : drop (s.pos_out + n) s.buffer ≡ [] =
            drop_all (s.pos_out + n) s.buffer (ground arith) in
          rw e (
            slice-split n s ∙ ap (λ b. take n (drop s.pos_out s.buffer) ++ (b ++ s.unread)) used,
            some_bytes,
            most,
            (size, inr (refl, refl)),
          )
      | inr e ↦ rw e (slice-split n s, some_bytes, most, (size, inl (ground arith)))
    ]

unseen_empty : (s : BufferedSource) → s.buffer ≡ [] → unseen s ≡ s.unread
unseen_empty s e =
    ap (λ b. drop s.pos_out b ++ s.unread) e ∙ ap (λ b. b ++ s.unread) (drop_nil s.pos_out)

unseen_nil : (s : BufferedSource) → IsBuffered s → unseen s ≡ [] → (s.buffer ≡ []) × (s.unread ≡ [])
unseen_nil s (size, inl rest) h = absurd (
    omega (
      arith,
      ap length h,
      length-append (drop s.pos_out s.buffer) s.unread,
      length-drop s.pos_out s.buffer,
    ))
unseen_nil s (size, inr (e, p)) h = (e, sym (unseen_empty s e) ∙ h)

-- A refill gives the descriptor's next bytes to an empty buffer.
refill-HasRest :
    (granted : ℕ → Bytes → ℕ) (s : BufferedSource)
    → IsGranting granted
    → IsBuffered s
    → 0 < length (unseen s)
    → (s' : BufferedSource) × (refill granted s ≡ ok s')
      × (unseen s' ≡ unseen s)
      × (0 < s'.buf_size)
      × HasRest s'
refill-HasRest granted s grants (size, inl rest) left =
    let full : (length s.buffer == 0) ≡ false = ground arith in (s, rw full refl, refl, size, rest)
refill-HasRest granted s (at_end, gives) (size, inr (e, p)) left =
    let u = unseen_empty s e in
    let n = granted s.buf_size s.unread in
    let (pos, le, enough) = gives s.buf_size s.unread size (omega (arith, ap length u)) in
    let no_buffer : (length s.buffer == 0) ≡ true = ap (λ b. length b == 0) e in
    let some_read : (n == 0) ≡ false = ground arith in
    let at_start : unseen (record s { buffer = take n s.unread; unread = drop n s.unread })
        ≡ s.unread =
      ap (λ k. drop k (take n s.unread) ++ drop n s.unread) p ∙ take-drop n s.unread in
    rw no_buffer (
      rw some_read (
        record s { buffer = take n s.unread; unread = drop n s.unread },
        refl,
        at_start ∙ sym u,
        size,
        omega (arith, length-take n s.unread),
      ))

pub read_end :
    (granted : ℕ → Bytes → ℕ)
    → IsGranting granted
    → (len : ℕ) (s : BufferedSource) → 0 < len
    → IsBuffered s
    → unseen s ≡ []
    → read granted len s ≡ err Error.end_of_file
unfolding read
read_end granted grants len s pos sane h =
    let (b, u) = unseen_nil s sane h in
    let no_buffer : (length s.buffer == 0) ≡ true = ap (λ xs. length xs == 0) b in
    let none_read : (granted s.buf_size s.unread == 0) ≡ true =
      ap (λ xs. granted s.buf_size xs == 0) u ∙ ap (λ k. k == 0) (grants.0 s.buf_size) in
    rw no_buffer (rw none_read refl)

pub read_some :
    (granted : ℕ → Bytes → ℕ)
    → IsGranting granted
    → (len : ℕ) (s : BufferedSource) → 0 < len
    → IsBuffered s
    → 0 < length (unseen s)
    → (chunk : Bytes) × (s' : BufferedSource) × (read granted len s ≡ ok (chunk, s'))
      × (unseen s ≡ chunk ++ unseen s')
      × (0 < length chunk)
      × (length chunk ≤ len)
      × IsBuffered s'
unfolding read
read_some granted grants len s pos sane left =
    let (s1, e, u, size, rest) = refill-HasRest granted s grants sane left in
    let (split, some_bytes, most, sane') = copy_out-IsStep granted len s1 pos size rest in
    (_, _, rw e refl, sym u ∙ split, some_bytes, most, sane')

-- A BufferedSource whose descriptor gives what the system promises keeps the contract of `read`.
unfoldable pub buffered_reader :
    (granted : ℕ → Bytes → ℕ) → IsGranting granted → Reader (read granted)
buffered_reader granted grants = record {
  available = unseen;
  IsSane = IsBuffered;
  read_end = read_end granted grants;
  read_some = read_some granted grants;
}

abbrev pub unread_text : StringSource → Bytes
unread_text s = drop s.pos s.text

abbrev pub IsInText : StringSource → Type 0
IsInText s = s.pos ≤ length s.text

pub read_text_end :
    (len : ℕ) (s : StringSource)
    → 0 < len
    → IsInText s
    → unread_text s ≡ []
    → read_text len s ≡ err Error.end_of_file
unfolding read_text
read_text_end len s pos sane h =
    let n = ap length h in
    let l = length-drop s.pos s.text in
    let at_end : (s.pos == length s.text) ≡ true = ground arith in rw at_end refl

pub read_text_some :
    (len : ℕ) (s : StringSource)
    → 0 < len
    → IsInText s
    → 0 < length (unread_text s)
    → (chunk : Bytes) × (s' : StringSource) × (read_text len s ≡ ok (chunk, s'))
      × (unread_text s ≡ chunk ++ unread_text s')
      × (0 < length chunk)
      × (length chunk ≤ len)
      × IsInText s'
unfolding read_text
read_text_some len s pos sane left =
    let rest = drop s.pos s.text in
    let chunk = take len rest in
    let l = length-take len rest in
    let d = length-drop s.pos s.text in
    let before_end : (s.pos == length s.text) ≡ false = ground arith in
    (
      chunk,
      record s { pos = s.pos + length chunk },
      rw before_end refl,
      sym (take-drop-length len rest) ∙ ap (chunk ++◌) (drop-drop s.pos (length chunk) s.text),
      omega arith,
      omega arith,
      omega arith,
    )

-- A StringSource keeps the contract of `read`.
unfoldable pub text_reader : Reader read_text
text_reader = record {
  available = unread_text;
  IsSane = IsInText;
  read_end = read_text_end;
  read_some = read_text_some;
}
