-- ===== src/Serialise/Stream/Keeps.antt =====
-- What the steps of `sourceToSink` of src/libutil/serialise.cc keep.
use archinix.Base.{
  ℕ, zero, suc, drop_nil, ◌+◌, ◌-◌, ◌≤◌, ◌<◌, ◌≡◌, ◌≢◌, refl, sym, ap, ◌∙◌, ◌⊎◌, inl, inr, Bool,
  true, false, List, [], ◌∷◌, ◌++◌, append_assoc, arith, ◌==◌, Bool-cases, length, length-append,
  take, drop, take-drop, drop-drop, Bytes,
}
use archinix.Serialise.Sink.{joined}
use archinix.Serialise.Sink.Order.{joined-snoc}
use archinix.Serialise.Stream.{
  Writer, ready, blocked, notifying, stopping, closing, joining, Worker, absent, reading, pulling,
  leaving, quitting, exited, Stream, source_to_sink_queued, started, after_push, wake_worker,
  wake_writer, after_pop,
}

abbrev pub is_closing : Writer → Bool
is_closing closing = true
is_closing joining = true
is_closing w = false

abbrev pub is_pulling : Worker → Bool
is_pulling (pulling n sleeping) = true
is_pulling w = false

abbrev pub is_gone : Worker → Bool
is_gone quitting = true
is_gone exited = true
is_gone w = false

pub record Keeps (s : Stream) : Type 0 where
  pub in_order : s.pulled ++ (drop s.consumed s.consuming ++ joined s.full) ≡ joined s.written
  pub inside : s.consumed ≤ length s.consuming
  pub bounded : length s.full ≤ source_to_sink_queued
  pub waits : is_pulling s.worker ≡ true → (s.consuming ≡ []) × (s.consumed ≡ 0)
  pub gone : is_gone s.worker ≡ true → s.quit ≡ true
  -- Nothing is pushed once it is closed.
  pub shut : s.closed ≡ true → (s.quit ≡ true) ⊎ (is_closing s.writer ≡ true)
  pub over : s.ended ≡ true → (s.closed ≡ true) × (s.full ≡ []) × (s.consuming ≡ [])

-- A step that changes what the threads do next.
pub threads-Keeps :
    (s : Stream) (w : Writer) (v : Worker)
    → Keeps s
    → (is_closing s.writer ≡ true → is_closing w ≡ true)
    → (is_pulling v ≡ true → is_pulling s.worker ≡ true)
    → (is_gone v ≡ true → is_gone s.worker ≡ true)
    → Keeps (record s { writer = w; worker = v })
threads-Keeps s w v k closes pulls goes = record {
  in_order = k.in_order;
  inside = k.inside;
  bounded = k.bounded;
  waits = λ h. k.waits (pulls h);
  gone = λ h. k.gone (goes h);
  shut = λ h. elim (k.shut h) [ inl q ↦ inl q | inr c ↦ inr (closes c) ];
  over = k.over;
}

pub writer-Keeps :
    (s : Stream) (w : Writer)
    → Keeps s
    → is_closing s.writer ≡ false
    → Keeps (record s { writer = w })
writer-Keeps s w k before =
    threads-Keeps s w s.worker k (λ h. absurd (let bad = sym before ∙ h in cc)) (λ h. h) (λ h. h)

pub worker-Keeps :
    (s : Stream) (v : Worker)
    → Keeps s
    → is_pulling s.worker ≡ is_pulling v
    → is_gone s.worker ≡ is_gone v
    → Keeps (record s { worker = v })
worker-Keeps s v k pulls goes =
    threads-Keeps s s.writer v k (λ h. h) (λ h. pulls ∙ h) (λ h. goes ∙ h)

drop_all : (xs : Bytes) (n : ℕ) → n ≡ length xs → drop n xs ≡ []
drop_all [] n h = drop_nil n
drop_all (x ∷ xs) zero h = absurd (omega (arith, h))
drop_all (x ∷ xs) (suc n) h = drop_all xs n (omega (arith, h))

pub started-kinds :
    (v : Worker)
    → (is_pulling (started v) ≡ true → is_pulling v ≡ true)
      × (is_gone (started v) ≡ true → is_gone v ≡ true)
started-kinds absent = (λ h. absurd cc, λ h. absurd cc)
started-kinds reading = (λ h. h, λ h. h)
started-kinds (pulling n b) = (λ h. h, λ h. h)
started-kinds leaving = (λ h. h, λ h. h)
started-kinds quitting = (λ h. h, λ h. h)
started-kinds exited = (λ h. h, λ h. h)

pub wake_worker-kinds :
    (v : Worker)
    → (is_pulling (wake_worker v) ≡ true → is_pulling v ≡ true)
      × (is_gone (wake_worker v) ≡ true → is_gone v ≡ true)
wake_worker-kinds absent = (λ h. h, λ h. h)
wake_worker-kinds reading = (λ h. h, λ h. h)
wake_worker-kinds (pulling n b) = (λ h. h, λ h. h)
wake_worker-kinds leaving = (λ h. h, λ h. h)
wake_worker-kinds quitting = (λ h. h, λ h. h)
wake_worker-kinds exited = (λ h. h, λ h. h)

pub wake_writer-is_closing : (w : Writer) → is_closing (wake_writer w) ≡ is_closing w
wake_writer-is_closing ready = refl
wake_writer-is_closing (blocked a b) = refl
wake_writer-is_closing notifying = refl
wake_writer-is_closing stopping = refl
wake_writer-is_closing closing = refl
wake_writer-is_closing joining = refl

pub after_pop-is_closing :
    (rest : List Bytes) (w : Writer) → is_closing (after_pop rest w) ≡ is_closing w
after_pop-is_closing rest w = elim (Bool-cases (length rest == source_to_sink_queued - 1)) [
  | inl e ↦ rw e (wake_writer-is_closing w)
  | inr e ↦ rw e refl
]

-- A chunk is pushed only while the stream is open.
pub push-Keeps :
    (s : Stream) (a : Bytes)
    → s.writer ≡ blocked a false
    → s.quit ≡ false
    → length s.full < source_to_sink_queued
    → Keeps s
    → Keeps (record s {
      full = s.full ++ (a ∷ []);
      written = s.written ++ (a ∷ []);
      writer = after_push (s.full ++ (a ∷ []));
    })
push-Keeps s a w running room k =
    let still_open : s.closed ≢ true = λ h. elim (k.shut h) [
      | inl q ↦ let bad = sym running ∙ q in cc
      | inr c ↦ let bad = sym (ap is_closing w) ∙ c in cc
    ] in
    let d : Bytes = drop s.consumed s.consuming in
    record {
      in_order =
          ap (λ x. s.pulled ++ (d ++ x)) (joined-snoc s.full a)
          ∙ ap (λ x. s.pulled ++ x) (sym (append_assoc d (joined s.full) a))
          ∙ sym (append_assoc s.pulled (d ++ joined s.full) a)
          ∙ ap (λ x. x ++ a) k.in_order
          ∙ sym (joined-snoc s.written a);
      inside = k.inside;
      bounded = omega (arith, length-append s.full (a ∷ []));
      waits = k.waits;
      gone = k.gone;
      shut = λ h. absurd (still_open h);
      over = λ h. absurd (still_open (k.over h).0);
    }

-- Bytes of the chunk at hand move to what was pulled.
taken-in_order :
    (pulled rest : Bytes) (n : ℕ) (left : Bytes)
    → (pulled ++ take n left) ++ (drop n left ++ rest) ≡ pulled ++ (left ++ rest)
taken-in_order pulled rest n left =
    append_assoc pulled (take n left) (drop n left ++ rest)
    ∙ ap (λ x. pulled ++ x)
        (sym (append_assoc (take n left) (drop n left) rest)
          ∙ ap (λ x. x ++ rest) (take-drop n left))

pub copy-Keeps :
    (s : Stream) (n : ℕ)
    → s.worker ≡ reading
    → s.consumed + n ≤ length s.consuming
    → Keeps s
    → Keeps (record s {
      consumed = s.consumed + n;
      pulled = s.pulled ++ take n (drop s.consumed s.consuming);
    })
copy-Keeps s n w within k = record {
  in_order =
      ap (λ x. (s.pulled ++ take n (drop s.consumed s.consuming)) ++ (x ++ joined s.full))
        (sym (drop-drop s.consumed n s.consuming))
      ∙ taken-in_order s.pulled (joined s.full) n (drop s.consumed s.consuming)
      ∙ k.in_order;
  inside = within;
  bounded = k.bounded;
  waits = λ h. absurd (let bad = sym (ap is_pulling w) ∙ h in cc);
  gone = k.gone;
  shut = k.shut;
  over = k.over;
}

pub pop-Keeps :
    (s : Stream) (n m : ℕ) (a : Bytes) (rest : List Bytes)
    → s.worker ≡ pulling n false
    → s.full ≡ a ∷ rest
    → m ≤ length a
    → Keeps s
    → Keeps (record s {
      full = rest;
      consuming = a;
      consumed = m;
      pulled = s.pulled ++ take m a;
      worker = reading;
      writer = after_pop rest s.writer;
    })
unfolding joined
pop-Keeps s n m a rest w there within k =
    let (none_left, at_start) = k.waits (ap is_pulling w) in
    record {
      in_order =
          taken-in_order s.pulled (joined rest) m a
          ∙ (rw (none_left, at_start, there) at k.in_order);
      inside = within;
      bounded = omega (arith, k.bounded, ap length there);
      waits = λ h. absurd cc;
      gone = λ h. absurd cc;
      shut = λ h. elim (k.shut h) [
        | inl q ↦ inl q
        | inr c ↦ inr (after_pop-is_closing rest s.writer ∙ c)
      ];
      over = λ h. absurd (let bad = sym there ∙ (k.over h).1 in cc);
    }

pub pull-Keeps :
    (s : Stream) (n : ℕ)
    → s.consumed ≡ length s.consuming
    → Keeps s
    → Keeps (record s { worker = pulling n false; consuming = []; consumed = 0 })
pull-Keeps s n spent k = record {
  in_order =
      ap (λ x. s.pulled ++ (x ++ joined s.full)) (sym (drop_all s.consuming s.consumed spent))
      ∙ k.in_order;
  inside = omega arith;
  bounded = k.bounded;
  waits = λ h. (refl, refl);
  gone = λ h. absurd cc;
  shut = k.shut;
  over = λ h. ((k.over h).0, (k.over h).1, refl);
}
