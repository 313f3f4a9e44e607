-- ===== src/Serialise/Stream/Liveness.antt =====
-- Which steps the threads of `sourceToSink` of src/libutil/serialise.cc can take.
use archinix.Base.{
  ℕ, ◌≤◌, ◌<◌, ◌≡◌, refl, sym, ap, ◌∙◌, ◌≢◌, ◌⊎◌, inl, inr, Bool, true, false, List, [], ◌∷◌, arith,
  Bool-cases, length, Bytes,
}
use archinix.Serialise.Stream.{
  Writer, ready, blocked, notifying, stopping, closing, joining, Worker, absent, reading, pulling,
  leaving, quitting, exited, Stream, source_to_sink_queued, Step, write, push, wait_for_room,
  wake_spuriously, notify_push, give_up, close, notify_closed, join, pop, sleep, look_spuriously,
  end_of_file, reader_returns, leave, notify_quit, Reach,
}
use archinix.Serialise.Stream.Keeps.{is_closing, is_gone}
use archinix.Serialise.Stream.Faithful.{Reach-Keeps}
use archinix.Serialise.Stream.Sleeps.{
  is_notifying, is_asleep, is_sleeping, AreWell, Reach-AreWell, refuted,
}

-- A wake-up of a condition variable that nothing notified.
abbrev pub is_spurious : {s t : Stream} → Step s t → Bool
is_spurious (wake_spuriously s a w) = true
is_spurious (look_spuriously s n w) = true
is_spurious step = false

abbrev pub CanGoOn : Stream → Type 0
CanGoOn s = (t : Stream) × (step : Step s t) × (is_spurious step ≡ false)

chunks-cases : (xs : List Bytes) → (xs ≡ []) ⊎ ((a : Bytes) × (rest : List Bytes) × (xs ≡ a ∷ rest))
chunks-cases [] = inl refl
chunks-cases (a ∷ rest) = inr (a, rest, refl)

room-cases :
    (s : Stream) → (length s.full < source_to_sink_queued) ⊎ (source_to_sink_queued ≤ length s.full)
room-cases s = omega arith

-- A `pull` that looks at the ring.
pull-goes : (s : Stream) (n : ℕ) → s.worker ≡ pulling n false → CanGoOn s
pull-goes s n w = elim (chunks-cases s.full) [
  | inr (a, rest, e) ↦ (_, pop s n a rest w e, refl)
  | inl e ↦ elim (Bool-cases s.closed) [
    | inl c ↦ (_, end_of_file s n w e c, refl)
    | inr c ↦ (_, sleep s n w e c, refl)
  ]
]

-- A thread that is there and awake takes a step, until it is over.
worker-goes :
    (s : Stream) (v : Worker)
    → s.worker ≡ v
    → v ≢ absent
    → is_asleep v ≡ false
    → (v ≡ exited → CanGoOn s)
    → CanGoOn s
worker-goes s absent w there awake over = absurd (there refl)
worker-goes s reading w there awake over = (_, reader_returns s w, refl)
worker-goes s (pulling n true) w there awake over = absurd cc
worker-goes s (pulling n false) w there awake over = pull-goes s n w
worker-goes s leaving w there awake over = (_, leave s w, refl)
worker-goes s quitting w there awake over = (_, notify_quit s w, refl)
worker-goes s exited w there awake over = over refl

-- Beside a writer that waits, and will not notify it, the thread sleeps only at an empty ring that is
-- not closed.
awake_beside :
    (s : Stream)
    → AreWell s
    → is_notifying s.writer ≡ false
    → (s.full ≡ [] → s.closed ≡ false → ⊥)
    → is_asleep s.worker ≡ false
awake_beside s k silent busy = elim (Bool-cases (is_asleep s.worker)) [
  | inr e ↦ e
  | inl e ↦ elim (k.worker_sleeps e) [
    | inl (empty, unclosed) ↦ absurd (busy empty unclosed)
    | inr n ↦ absurd (refuted silent n)
  ]
]

-- The writer sleeps at a full ring, or `quit` is set.
blocked-goes : (s : Stream) (a : Bytes) → Reach s → s.writer ≡ blocked a true → CanGoOn s
blocked-goes s a before w =
    let k = Reach-AreWell before in
    elim (k.writer_sleeps (ap is_sleeping w)) [
      | inr q ↦ (_, notify_quit s q, refl)
      | inl (running, no_room) ↦
          worker-goes s s.worker refl (λ h. let bad = sym w ∙ k.present h in cc)
            (awake_beside s k (ap is_notifying w) (λ e c. omega (arith, no_room, ap length e)))
            (λ h. absurd (refuted running ((Reach-Keeps before).gone (ap is_gone h))))
    ]

joining-goes : (s : Stream) → Reach s → s.writer ≡ joining → CanGoOn s
joining-goes s before w =
    let k = Reach-AreWell before in
    worker-goes s s.worker refl (λ h. let bad = sym w ∙ k.present h in cc)
      (awake_beside s k (ap is_notifying w) (λ e c. refuted c (k.closes (ap is_closing w))))
      (λ h. (_, join s w h, refl))

goes : (s : Stream) (w : Writer) → Reach s → s.writer ≡ w → CanGoOn s
goes s ready before w = (_, write s (0 ∷ []) w (λ h. cc), refl)
goes s (blocked a true) before w = blocked-goes s a before w
goes s (blocked a false) before w = elim (Bool-cases s.quit) [
  | inl q ↦ (_, give_up s a w q, refl)
  | inr q ↦ elim (room-cases s) [
    | inl l ↦ (_, push s a w q l, refl)
    | inr l ↦ (_, wait_for_room s a w q l, refl)
  ]
]
goes s notifying before w = (_, notify_push s w, refl)
goes s stopping before w = (_, close s w, refl)
goes s closing before w = (_, notify_closed s w, refl)
goes s joining before w = joining-goes s before w

-- In every state that `sourceToSink` reaches, a `pull` sleeps on cvFull only while the ring is empty and
-- not closed, or while the producer is about to notify it; the producer sleeps on cvFree only while the
-- ring is full and `quit` is not set, or while the thread of the reader is about to notify it; without
-- a thread the producer is between two calls, and once it has closed the stream, `closed` is set; and some
-- thread can take a step that is no spurious wake-up.
pub Reach-AreLive : (s : Stream) → Reach s → AreWell s × CanGoOn s
Reach-AreLive s before = (Reach-AreWell before, goes s s.writer before refl)
