-- ===== src/Serialise/Stream/Sleeps.antt =====
-- When the threads of `sourceToSink` of src/libutil/serialise.cc sleep.
use archinix.Base.{
  ℕ, ◌-◌, ◌≤◌, ◌≡◌, refl, sym, ap, ◌∙◌, ◌≢◌, ◌⊎◌, inl, inr, Bool, true, false, List, [], ◌∷◌, ◌++◌,
  arith, ◌==◌, Bool-cases, length, Bytes,
}
use archinix.Serialise.Stream.{
  Writer, ready, blocked, notifying, stopping, closing, joining, Worker, absent, reading, pulling,
  leaving, quitting, exited, Stream, source_to_sink_queued, started, after_push, wake_worker,
  wake_writer, after_pop, Step, write, push, wait_for_room, wake_spuriously, notify_push, give_up,
  stop, close, notify_closed, join, copy, pull, pop, sleep, look_spuriously, end_of_file,
  reader_returns, reader_throws, leave, notify_quit, Reach, here, next,
}
use archinix.Serialise.Stream.Keeps.{
  is_closing, Keeps, wake_writer-is_closing, after_pop-is_closing,
}
use archinix.Serialise.Stream.Faithful.{Reach-Keeps}

-- A notification of cvFull follows.
abbrev pub is_notifying : Writer → Bool
is_notifying notifying = true
is_notifying closing = true
is_notifying w = false

abbrev pub is_asleep : Worker → Bool
is_asleep (pulling n sleeping) = sleeping
is_asleep v = false

abbrev pub is_sleeping : Writer → Bool
is_sleeping (blocked a sleeping) = sleeping
is_sleeping w = false

-- A thread sleeps only while it has to, or while a notification follows.
pub record SleepWell (full : List Bytes) (closed quit : Bool) (w : Writer) (v : Worker)
    : Type 0 where
  pub worker_sleeps :
      is_asleep v ≡ true → ((full ≡ []) × (closed ≡ false)) ⊎ (is_notifying w ≡ true)
  pub writer_sleeps :
      is_sleeping w ≡ true
      → ((quit ≡ false) × (source_to_sink_queued ≤ length full)) ⊎ (v ≡ quitting)
  pub present : v ≡ absent → w ≡ ready
  pub closes : is_closing w ≡ true → closed ≡ true

abbrev pub AreWell : Stream → Type 0
AreWell s = SleepWell s.full s.closed s.quit s.writer s.worker

wake_worker-kinds :
    (v : Worker) → (is_asleep (wake_worker v) ≡ false) × (wake_worker v ≡ absent → v ≡ absent)
wake_worker-kinds absent = (refl, λ h. h)
wake_worker-kinds reading = (refl, λ h. h)
wake_worker-kinds (pulling n b) = (refl, λ h. absurd cc)
wake_worker-kinds leaving = (refl, λ h. h)
wake_worker-kinds quitting = (refl, λ h. h)
wake_worker-kinds exited = (refl, λ h. h)

wake_writer-wakes : (w : Writer) → is_sleeping (wake_writer w) ≡ false
wake_writer-wakes ready = refl
wake_writer-wakes (blocked a b) = refl
wake_writer-wakes notifying = refl
wake_writer-wakes stopping = refl
wake_writer-wakes closing = refl
wake_writer-wakes joining = refl

started-kinds : (v : Worker) → (is_asleep (started v) ≡ is_asleep v) × (started v ≢ absent)
started-kinds absent = (refl, λ h. cc)
started-kinds reading = (refl, λ h. cc)
started-kinds (pulling n b) = (refl, λ h. cc)
started-kinds leaving = (refl, λ h. cc)
started-kinds quitting = (refl, λ h. cc)
started-kinds exited = (refl, λ h. cc)

pub refuted : {b : Bool} → b ≡ false → b ≢ true
refuted e h = let bad = sym e ∙ h in cc

after_push-kinds :
    (xs : List Bytes) → (is_sleeping (after_push xs) ≡ false) × (is_closing (after_push xs) ≡ false)
after_push-kinds xs = elim (Bool-cases (length xs == 1)) [
  | inl e ↦ rw e (refl, refl)
  | inr e ↦ rw e (refl, refl)
]

-- A step of the writer, whose last state notified nobody, to one in which it does not sleep.
writer-well :
    (full : List Bytes) (closed quit : Bool) (w u : Writer) (v : Worker)
    → SleepWell full closed quit w v
    → is_notifying w ≡ false
    → is_sleeping u ≡ false
    → (v ≡ absent → u ≡ ready)
    → is_closing u ≡ false
    → SleepWell full closed quit u v
writer-well full closed quit w u v k silent awake there running = record {
  worker_sleeps =
      λ h. elim (k.worker_sleeps h) [ inl e ↦ inl e | inr n ↦ absurd (refuted silent n) ];
  writer_sleeps = λ h. absurd (refuted awake h);
  present = there;
  closes = λ h. absurd (refuted running h);
}

-- A step of the worker, which had no notification to send.
worker-well :
    (full : List Bytes) (closed quit : Bool) (w : Writer) (v u : Worker)
    → SleepWell full closed quit w v
    → v ≢ quitting
    → is_asleep u ≡ false
    → u ≢ absent
    → SleepWell full closed quit w u
worker-well full closed quit w v u k silent awake there = record {
  worker_sleeps = λ h. absurd (refuted awake h);
  writer_sleeps = λ h. elim (k.writer_sleeps h) [ inl e ↦ inl e | inr q ↦ absurd (silent q) ];
  present = λ h. absurd (there h);
  closes = k.closes;
}

-- A writer that does not wait at `ready` has a thread beside it.
thread_there :
    (s : Stream) → AreWell s → s.writer ≢ ready → (u : Writer) → s.worker ≡ absent → u ≡ ready
thread_there s k busy u h = absurd (busy (k.present h))

push-AreWell :
    (s : Stream) (a : Bytes)
    → s.writer ≡ blocked a false
    → AreWell s
    → SleepWell (s.full ++ (a ∷ [])) s.closed s.quit (after_push (s.full ++ (a ∷ []))) s.worker
push-AreWell s a w k = record {
  worker_sleeps = λ h. elim (k.worker_sleeps h) [
    | inl (e, c) ↦ inr (rw e refl)
    | inr n ↦ absurd (refuted (ap is_notifying w) n)
  ];
  writer_sleeps = λ h. absurd (refuted (after_push-kinds (s.full ++ (a ∷ []))).0 h);
  present = thread_there s k (λ h. cc) _;
  closes = λ h. absurd (refuted (after_push-kinds (s.full ++ (a ∷ []))).1 h);
}

-- A writer that sleeps was there for a full ring, which a pop leaves with 63 chunks.
after_pop-awake :
    (s : Stream) (n : ℕ) (a : Bytes) (rest : List Bytes)
    → s.worker ≡ pulling n false
    → s.full ≡ a ∷ rest
    → length s.full ≤ source_to_sink_queued
    → AreWell s
    → is_sleeping (after_pop rest s.writer) ≡ false
after_pop-awake s n a rest w there bound k =
    elim (Bool-cases (length rest == source_to_sink_queued - 1)) [
      | inl e ↦ rw e (wake_writer-wakes s.writer)
      | inr e ↦ elim (Bool-cases (is_sleeping s.writer)) [
        | inr awake ↦ rw e awake
        | inl asleep ↦ elim (k.writer_sleeps asleep) [
          | inl (q, l) ↦ absurd (ground (arith, e, l, bound, ap length there))
          | inr q ↦ absurd (let bad = sym w ∙ q in cc)
        ]
      ]
    ]

Step-AreWell : {s t : Stream} → Step s t → Keeps s → AreWell s → AreWell t
Step-AreWell (write s a w some_left) b k = record {
  worker_sleeps = λ h. elim (k.worker_sleeps (sym (started-kinds s.worker).0 ∙ h)) [
    | inl e ↦ inl e
    | inr n ↦ absurd (refuted (ap is_notifying w) n)
  ];
  writer_sleeps = λ h. absurd cc;
  present = λ h. absurd ((started-kinds s.worker).1 h);
  closes = λ h. absurd cc;
}
Step-AreWell (push s a w running room) b k = push-AreWell s a w k
Step-AreWell (wait_for_room s a w running no_room) b k = record {
  worker_sleeps = λ h. elim (k.worker_sleeps h) [
    | inl e ↦ inl e
    | inr n ↦ absurd (refuted (ap is_notifying w) n)
  ];
  writer_sleeps = λ h. inl (running, no_room);
  present = thread_there s k (λ h. cc) _;
  closes = λ h. absurd cc;
}
Step-AreWell (wake_spuriously s a w) b k =
    writer-well s.full s.closed s.quit s.writer (blocked a false) s.worker k (ap is_notifying w)
      refl (thread_there s k (λ h. cc) _) refl
Step-AreWell (notify_push s w) b k = record {
  worker_sleeps = λ h. absurd (refuted (wake_worker-kinds s.worker).0 h);
  writer_sleeps = λ h. absurd cc;
  present = λ h. refl;
  closes = λ h. absurd cc;
}
Step-AreWell (give_up s a w gone) b k =
    writer-well s.full s.closed s.quit s.writer stopping s.worker k (ap is_notifying w) refl
      (thread_there s k (λ h. cc) _) refl
Step-AreWell (stop s w there) b k =
    writer-well s.full s.closed s.quit s.writer stopping s.worker k (ap is_notifying w) refl
      (λ h. absurd (there h)) refl
Step-AreWell (close s w) b k = record {
  worker_sleeps = λ h. inr refl;
  writer_sleeps = λ h. absurd cc;
  present = thread_there s k (λ h. cc) _;
  closes = λ h. refl;
}
Step-AreWell (notify_closed s w) b k = record {
  worker_sleeps = λ h. absurd (refuted (wake_worker-kinds s.worker).0 h);
  writer_sleeps = λ h. absurd cc;
  present = λ h. thread_there s k (λ h. cc) _ ((wake_worker-kinds s.worker).1 h);
  closes = λ h. k.closes (ap is_closing w);
}
Step-AreWell (join s w over) b k = record {
  worker_sleeps = λ h. absurd cc;
  writer_sleeps = λ h. absurd cc;
  present = λ h. refl;
  closes = λ h. absurd cc;
}
Step-AreWell (copy s n w more) b k = k
Step-AreWell (pull s n w spent) b k =
    worker-well s.full s.closed s.quit s.writer s.worker (pulling n false) k (λ h. cc) refl
      (λ h. cc)
Step-AreWell (pop s n a rest w there) b k = record {
  worker_sleeps = λ h. absurd cc;
  writer_sleeps = λ h. absurd (refuted (after_pop-awake s n a rest w there b.bounded k) h);
  present = λ h. absurd cc;
  closes = λ h. k.closes (sym (after_pop-is_closing rest s.writer) ∙ h);
}
Step-AreWell (sleep s n w empty unclosed) b k = record {
  worker_sleeps = λ h. inl (empty, unclosed);
  writer_sleeps =
      λ h. elim (k.writer_sleeps h) [ inl e ↦ inl e | inr q ↦ absurd (let bad = sym w ∙ q in cc) ];
  present = λ h. absurd cc;
  closes = k.closes;
}
Step-AreWell (look_spuriously s n w) b k =
    worker-well s.full s.closed s.quit s.writer s.worker (pulling n false) k (λ h. cc) refl
      (λ h. cc)
Step-AreWell (end_of_file s n w empty shut) b k =
    worker-well s.full s.closed s.quit s.writer s.worker reading k (λ h. cc) refl (λ h. cc)
Step-AreWell (reader_returns s w) b k =
    worker-well s.full s.closed s.quit s.writer s.worker leaving k (λ h. cc) refl (λ h. cc)
Step-AreWell (reader_throws s w) b k =
    worker-well s.full s.closed s.quit s.writer s.worker leaving k (λ h. cc) refl (λ h. cc)
Step-AreWell (leave s w) b k = record {
  worker_sleeps = λ h. absurd cc;
  writer_sleeps = λ h. inr refl;
  present = λ h. absurd cc;
  closes = k.closes;
}
Step-AreWell (notify_quit s w) b k = record {
  worker_sleeps = λ h. absurd cc;
  writer_sleeps = λ h. absurd (refuted (wake_writer-wakes s.writer) h);
  present = λ h. absurd cc;
  closes = λ h. k.closes (sym (wake_writer-is_closing s.writer) ∙ h);
}

pub Reach-AreWell : {s : Stream} → Reach s → AreWell s
Reach-AreWell here = record {
  worker_sleeps = λ h. absurd cc;
  writer_sleeps = λ h. absurd cc;
  present = λ h. refl;
  closes = λ h. absurd cc;
}
Reach-AreWell (next before step) = Step-AreWell step (Reach-Keeps before) (Reach-AreWell before)
