-- ===== src/Import/Queue/Liveness.antt =====
-- When the two threads of `AsyncHashSink` of src/libstore/local-store.cc sleep, and that one can go on.
use archinix.Base.{
  suc, ◌-◌, ◌≤◌, ◌<◌, ◌≡◌, refl, sym, ap, ◌∙◌, ◌≢◌, ◌⊎◌, inl, inr, Bool, true, false, List, [], ◌∷◌,
  ◌++◌, append-nil, arith, ◌==◌, Bool-cases, length,
}
use archinix.Import.Queue.{
  Producer, ready, notifying, blocked, closing, joining, Worker, looking, asleep, waking, returned,
  Queue, max_queued, after_push, after_pop, wake_worker, wake_producer, Step, push, wait_for_room,
  wake_spuriously, push_woken, wait_again, notify_push, close, notify_closed, pop, sleep,
  look_spuriously, return, notify_pop, Reach, here, next,
}
use archinix.Import.Queue.Safety.{is_closing, IsSafe, Reach-IsSafe}

-- A notification of cvPush follows.
abbrev pub is_notifying : {A : Type 0} → Producer A → Bool
is_notifying notifying = true
is_notifying closing = true
is_notifying p = false

abbrev pub WorkerSleepsWell : {A : Type 0} → Queue A → Type 0
WorkerSleepsWell q =
    q.worker ≡ asleep → ((q.chunks ≡ []) × (q.closed ≡ false)) ⊎ (is_notifying q.producer ≡ true)

abbrev pub ProducerSleepsWell : {A : Type 0} → Queue A → Type 0
ProducerSleepsWell {A} q =
    (a : A) → q.producer ≡ blocked a true → (length q.chunks ≡ max_queued) ⊎ (q.worker ≡ waking)

wake_worker-wakes : (w : Worker) → wake_worker w ≢ asleep
wake_worker-wakes looking h = absurd cc
wake_worker-wakes asleep h = absurd cc
wake_worker-wakes waking h = absurd cc
wake_worker-wakes returned h = absurd cc

wake_producer-wakes : {A : Type 0} (p : Producer A) (a : A) → wake_producer p ≢ blocked a true
wake_producer-wakes ready a h = absurd cc
wake_producer-wakes notifying a h = absurd cc
wake_producer-wakes (blocked b s) a h = absurd cc
wake_producer-wakes closing a h = absurd cc
wake_producer-wakes joining a h = absurd cc

after_pop-awake : {A : Type 0} → (xs : List A) → after_pop xs ≢ asleep
after_pop-awake xs h = elim (Bool-cases (length xs == max_queued - 1)) [
  | inl t ↦ ground (arith, h, t)
  | inr f ↦ ground (arith, h, f)
]

after_push-awake : {A : Type 0} → (xs : List A) (a : A) → after_push xs ≢ blocked a true
after_push-awake xs a h = elim (Bool-cases (length xs == 1)) [
  | inl t ↦ ground (arith, h, t)
  | inr f ↦ ground (arith, h, f)
]

-- The worker sleeps beside a producer that does not notify it: the queue is empty and not closed.
idle :
    {A : Type 0} (q : Queue A)
    → WorkerSleepsWell q
    → is_notifying q.producer ≡ false
    → q.worker ≡ asleep
    → (q.chunks ≡ []) × (q.closed ≡ false)
idle q h p w = elim (h w) [ inl e ↦ e | inr n ↦ absurd cc ]

-- A push that may find the worker asleep notifies it.
push-notifies :
    {A : Type 0} (q : Queue A) (a : A)
    → WorkerSleepsWell q
    → is_notifying q.producer ≡ false
    → q.worker ≡ asleep
    → is_notifying (after_push (q.chunks ++ (a ∷ []))) ≡ true
push-notifies q a h p w = ap (λ xs. is_notifying (after_push (xs ++ (a ∷ [])))) ((idle q h p w).0)

Step-WorkerSleepsWell :
    {A : Type 0} {q r : Queue A} → Step q r → WorkerSleepsWell q → WorkerSleepsWell r
Step-WorkerSleepsWell (push q a p l) h = λ w. inr (push-notifies q a h (ap is_notifying p) w)
Step-WorkerSleepsWell (wait_for_room q a p l) h = λ w. inl (idle q h (ap is_notifying p) w)
Step-WorkerSleepsWell (wake_spuriously q a p) h = λ w. inl (idle q h (ap is_notifying p) w)
Step-WorkerSleepsWell (push_woken q a p l) h = λ w. inr (push-notifies q a h (ap is_notifying p) w)
Step-WorkerSleepsWell (wait_again q a p l) h = λ w. inl (idle q h (ap is_notifying p) w)
Step-WorkerSleepsWell (notify_push q p) h = λ w. absurd (wake_worker-wakes q.worker w)
Step-WorkerSleepsWell (close q p) h = λ w. inr refl
Step-WorkerSleepsWell (notify_closed q p) h = λ w. absurd (wake_worker-wakes q.worker w)
Step-WorkerSleepsWell (pop q a rest w e) h = λ w'. absurd (after_pop-awake rest w')
Step-WorkerSleepsWell (sleep q w e c) h = λ w'. inl (e, c)
Step-WorkerSleepsWell (look_spuriously q w) h = λ w'. absurd cc
Step-WorkerSleepsWell (return q w e c) h = λ w'. absurd cc
Step-WorkerSleepsWell (notify_pop q w) h = λ w'. absurd cc

-- A producer that sleeps beside a worker without a notification to send: the queue is full.
full :
    {A : Type 0} (q : Queue A) (a : A)
    → ProducerSleepsWell q
    → q.worker ≢ waking
    → q.producer ≡ blocked a true
    → length q.chunks ≡ max_queued
full q a h w p = elim (h a p) [ inl e ↦ e | inr n ↦ absurd (w n) ]

-- A pop from a full queue has a notification to send.
after_pop-wakes :
    {A : Type 0} → (xs : List A) → suc (length xs) ≡ max_queued → after_pop xs ≡ waking
after_pop-wakes xs h = elim (Bool-cases (length xs == max_queued - 1)) [
  | inl t ↦ rw t refl
  | inr f ↦ ground (arith, h, f)
]

Step-ProducerSleepsWell :
    {A : Type 0} {q r : Queue A} → Step q r → IsSafe q → ProducerSleepsWell q → ProducerSleepsWell r
Step-ProducerSleepsWell (push q a p l) s h =
    λ b e. absurd (after_push-awake (q.chunks ++ (a ∷ [])) b e)
Step-ProducerSleepsWell (wait_for_room q a p l) s h = λ b e. inl (omega (arith, l, s.bounded))
Step-ProducerSleepsWell (wake_spuriously q a p) s h = λ b e. absurd cc
Step-ProducerSleepsWell (push_woken q a p l) s h =
    λ b e. absurd (after_push-awake (q.chunks ++ (a ∷ [])) b e)
Step-ProducerSleepsWell (wait_again q a p l) s h = λ b e. inl (omega (arith, l, s.bounded))
Step-ProducerSleepsWell (notify_push q p) s h = λ b e. absurd cc
Step-ProducerSleepsWell (close q p) s h = λ b e. absurd cc
Step-ProducerSleepsWell (notify_closed q p) s h = λ b e. absurd cc
Step-ProducerSleepsWell (pop q a rest w e) s h =
    λ b p. inr (after_pop-wakes rest (sym (ap length e) ∙ full q b h (λ w'. absurd cc) p))
Step-ProducerSleepsWell (sleep q w e c) s h =
    λ b p. absurd (omega (arith, ap length e, full q b h (λ w'. absurd cc) p))
Step-ProducerSleepsWell (look_spuriously q w) s h = λ b p. inl (full q b h (λ w'. absurd cc) p)
Step-ProducerSleepsWell (return q w e c) s h =
    λ b p. absurd (omega (arith, ap length e, full q b h (λ w'. absurd cc) p))
Step-ProducerSleepsWell (notify_pop q w) s h = λ b p. absurd (wake_producer-wakes q.producer b p)

record SleepsWell {A : Type 0} (q : Queue A) : Type 0 where
  pub safe : IsSafe q
  pub worker_sleeps : WorkerSleepsWell q
  pub producer_sleeps : ProducerSleepsWell q

Reach-SleepsWell : {A : Type 0} {q : Queue A} → Reach q → SleepsWell q
Reach-SleepsWell here = record {
  safe = Reach-IsSafe here;
  worker_sleeps = λ w. absurd cc;
  producer_sleeps = λ a p. absurd cc;
}
Reach-SleepsWell (next before step) =
    let s = Reach-SleepsWell before in
    record {
      safe = Reach-IsSafe (next before step);
      worker_sleeps = Step-WorkerSleepsWell step s.worker_sleeps;
      producer_sleeps = Step-ProducerSleepsWell step s.safe s.producer_sleeps;
    }

-- A wake-up of a condition variable that nothing notified.
abbrev pub is_spurious : {A : Type 0} {q r : Queue A} → Step q r → Bool
is_spurious (wake_spuriously q a p) = true
is_spurious (look_spuriously q w) = true
is_spurious step = false

-- The worker has been joined.
abbrev pub IsFinished : {A : Type 0} → Queue A → Type 0
IsFinished q = (q.producer ≡ joining) × (q.worker ≡ returned)

abbrev pub CanGoOn : {A : Type 0} → Queue A → Type 0
CanGoOn {A} q = (r : Queue A) × (step : Step q r) × (is_spurious step ≡ false)

chunks-cases :
    {A : Type 0} (xs : List A) → (xs ≡ []) ⊎ ((a : A) × (rest : List A) × (xs ≡ a ∷ rest))
chunks-cases [] = inl refl
chunks-cases (a ∷ rest) = inr (a, rest, refl)

room-cases :
    {A : Type 0} (q : Queue A) → (length q.chunks < max_queued) ⊎ (max_queued ≤ length q.chunks)
room-cases q = omega arith

-- The worker that looks at a queue which is closed or holds a chunk takes a step.
looking-goes : {A : Type 0} (q : Queue A) → q.worker ≡ looking → CanGoOn q
looking-goes q w = elim (chunks-cases q.chunks) [
  | inl e ↦ elim (Bool-cases q.closed) [
    | inl c ↦ (_, return q w e c, refl)
    | inr c ↦ (_, sleep q w e c, refl)
  ]
  | inr (a, rest, e) ↦ (_, pop q a rest w e, refl)
]

worker-cases : (w : Worker) → (w ≡ looking) ⊎ (w ≡ asleep) ⊎ (w ≡ waking) ⊎ (w ≡ returned)
worker-cases looking = inl refl
worker-cases asleep = inr (inl refl)
worker-cases waking = inr (inr (inl refl))
worker-cases returned = inr (inr (inr refl))

blocked-goes :
    {A : Type 0} (q : Queue A) (a : A) → SleepsWell q → q.producer ≡ blocked a true → CanGoOn q
blocked-goes q a s p = elim (worker-cases q.worker) [
  | inl w ↦ looking-goes q w
  | inr (inl w) ↦ absurd (
      omega (
        arith,
        ap length ((idle q s.worker_sleeps (ap is_notifying p) w).0),
        full q a s.producer_sleeps (λ w'. absurd cc) p,
      ))
  | inr (inr (inl w)) ↦ (_, notify_pop q w, refl)
  | inr (inr (inr w)) ↦ absurd (
      omega
        (arith, ap length ((s.safe.drained w).0), full q a s.producer_sleeps (λ w'. absurd cc) p))
]

joining-goes :
    {A : Type 0} (q : Queue A) → SleepsWell q → q.producer ≡ joining → IsFinished q ⊎ CanGoOn q
joining-goes q s p = elim (worker-cases q.worker) [
  | inl w ↦ inr (looking-goes q w)
  | inr (inl w) ↦
      absurd
        (cc (s.safe.closed_iff ∙ ap is_closing p, (idle q s.worker_sleeps (ap is_notifying p) w).1))
  | inr (inr (inl w)) ↦ inr (_, notify_pop q w, refl)
  | inr (inr (inr w)) ↦ inl (p, w)
]

goes :
    {A : Type 0} (q : Queue A) (p : Producer A)
    → SleepsWell q
    → q.producer ≡ p
    → IsFinished q ⊎ CanGoOn q
goes q ready s p = inr (_, close q p, refl)
goes q notifying s p = inr (_, notify_push q p, refl)
goes q (blocked a true) s p = inr (blocked-goes q a s p)
goes q (blocked a false) s p = elim (room-cases q) [
  | inl l ↦ inr (_, push_woken q a p l, refl)
  | inr l ↦ inr (_, wait_again q a p l, refl)
]
goes q closing s p = inr (_, notify_closed q p, refl)
goes q joining s p = joining-goes q s p

-- In every state that the queue reaches, the worker sleeps on cvPush only while the queue is empty and
-- not closed, or while the producer is about to notify it; the producer sleeps on cvPop only while the
-- queue is full, or while the worker is about to notify it; and either the producer has joined a worker
-- that has returned, or a thread can go on without a spurious wake-up.
pub Reach-IsLive :
    {A : Type 0} (q : Queue A)
    → Reach q
    → WorkerSleepsWell q × ProducerSleepsWell q × (IsFinished q ⊎ CanGoOn q)
Reach-IsLive q before =
    let s = Reach-SleepsWell before in
    (s.worker_sleeps, s.producer_sleeps, goes q q.producer s refl)

-- Once the producer has joined the worker, the worker has taken every chunk that was pushed, in the
-- order in which they were pushed.
finished-taken : {A : Type 0} (q : Queue A) → Reach q → IsFinished q → q.taken ≡ q.pushed
finished-taken q before (p, w) =
    let s = Reach-IsSafe before in
    sym (append-nil q.taken) ∙ ap (λ xs. q.taken ++ xs) (sym ((s.drained w).0)) ∙ s.in_order
