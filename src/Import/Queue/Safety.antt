-- ===== src/Import/Queue/Safety.antt =====
-- What every reachable state of the queue of `AsyncHashSink` keeps.
use archinix.Base.{
  ◌-◌, ◌≤◌, ◌<◌, ◌≡◌, refl, sym, ap, ◌∙◌, ◌≢◌, inl, inr, Bool, true, false, List, [], ◌∷◌, ◌++◌,
  append_assoc, arith, ◌==◌, Bool-cases, length, length-append,
}
use archinix.Import.Queue.{
  Producer, ready, notifying, blocked, closing, joining, Worker, looking, asleep, waking, returned,
  Queue, max_queued, after_push, after_pop, wake_worker, wake_producer, Step, push, wait_for_room,
  wake_spuriously, push_woken, wait_again, notify_push, close, notify_closed, pop, sleep,
  look_spuriously, return, notify_pop, Reach, here, next,
}

-- The producer has closed the queue.
abbrev pub is_closing : {A : Type 0} → Producer A → Bool
is_closing closing = true
is_closing joining = true
is_closing p = false

pub record IsSafe {A : Type 0} (q : Queue A) : Type 0 where
  pub in_order : q.taken ++ q.chunks ≡ q.pushed
  pub bounded : length q.chunks ≤ max_queued
  pub closed_iff : q.closed ≡ is_closing q.producer
  pub drained : q.worker ≡ returned → (q.chunks ≡ []) × (q.closed ≡ true)

-- A thread that is about to push has not closed the queue.
after_push-open : {A : Type 0} → (xs : List A) → is_closing (after_push xs) ≡ false
after_push-open xs = elim (Bool-cases (length xs == 1)) [ inl t ↦ rw t refl | inr f ↦ rw f refl ]

after_pop-runs : {A : Type 0} → (xs : List A) → after_pop xs ≢ returned
after_pop-runs xs h = elim (Bool-cases (length xs == max_queued - 1)) [
  | inl t ↦ ground (arith, h, t)
  | inr f ↦ ground (arith, h, f)
]

wake_worker-returned : (w : Worker) → wake_worker w ≡ returned → w ≡ returned
wake_worker-returned looking h = h
wake_worker-returned asleep h = absurd cc
wake_worker-returned waking h = h
wake_worker-returned returned h = h

wake_producer-is_closing :
    {A : Type 0} → (p : Producer A) → is_closing p ≡ is_closing (wake_producer p)
wake_producer-is_closing ready = refl
wake_producer-is_closing notifying = refl
wake_producer-is_closing (blocked a s) = refl
wake_producer-is_closing closing = refl
wake_producer-is_closing joining = refl

push-IsSafe :
    {A : Type 0} (q : Queue A) (a : A)
    → IsSafe q
    → q.closed ≡ false
    → length q.chunks < max_queued
    → IsSafe (record q {
      chunks = q.chunks ++ (a ∷ []);
      pushed = q.pushed ++ (a ∷ []);
      producer = after_push (q.chunks ++ (a ∷ []));
    })
push-IsSafe q a s o l = record {
  in_order = sym (append_assoc q.taken q.chunks (a ∷ [])) ∙ ap (λ xs. xs ++ (a ∷ [])) s.in_order;
  bounded = omega (arith, length-append q.chunks (a ∷ []));
  closed_iff = o ∙ sym (after_push-open (q.chunks ++ (a ∷ [])));
  drained = λ w. ground (arith, o, s.drained w);
}

-- A producer step that leaves the queue and the worker alone.
producer-IsSafe :
    {A : Type 0} (q : Queue A) (p : Producer A)
    → IsSafe q
    → is_closing q.producer ≡ is_closing p
    → IsSafe (record q { producer = p })
producer-IsSafe q p s h = record {
  in_order = s.in_order;
  bounded = s.bounded;
  closed_iff = s.closed_iff ∙ h;
  drained = s.drained;
}

-- A worker step that leaves the queue and the producer alone, and does not return.
worker-IsSafe :
    {A : Type 0} (q : Queue A) (w : Worker)
    → IsSafe q
    → (w ≡ returned → q.worker ≡ returned)
    → IsSafe (record q { worker = w })
worker-IsSafe q w s h = record {
  in_order = s.in_order;
  bounded = s.bounded;
  closed_iff = s.closed_iff;
  drained = λ e. s.drained (h e);
}

Step-IsSafe : {A : Type 0} {q r : Queue A} → Step q r → IsSafe q → IsSafe r
Step-IsSafe (push q a p l) s = push-IsSafe q a s (s.closed_iff ∙ ap is_closing p) l
Step-IsSafe (wait_for_room q a p l) s = producer-IsSafe q (blocked a true) s (ap is_closing p)
Step-IsSafe (wake_spuriously q a p) s = producer-IsSafe q (blocked a false) s (ap is_closing p)
Step-IsSafe (push_woken q a p l) s = push-IsSafe q a s (s.closed_iff ∙ ap is_closing p) l
Step-IsSafe (wait_again q a p l) s = producer-IsSafe q (blocked a true) s (ap is_closing p)
Step-IsSafe (notify_push q p) s =
    worker-IsSafe (record q { producer = ready }) (wake_worker q.worker)
      (producer-IsSafe q ready s (ap is_closing p)) (wake_worker-returned q.worker)
Step-IsSafe (close q p) s = record {
  in_order = s.in_order;
  bounded = s.bounded;
  closed_iff = refl;
  drained = λ w. ((s.drained w).0, refl);
}
Step-IsSafe (notify_closed q p) s =
    worker-IsSafe (record q { producer = joining }) (wake_worker q.worker)
      (producer-IsSafe q joining s (ap is_closing p)) (wake_worker-returned q.worker)
Step-IsSafe (pop q a rest w e) s = record {
  in_order = append_assoc q.taken (a ∷ []) rest ∙ ap (λ xs. q.taken ++ xs) (sym e) ∙ s.in_order;
  bounded = omega (arith, s.bounded, ap length e);
  closed_iff = s.closed_iff;
  drained = λ h. absurd (after_pop-runs rest h);
}
Step-IsSafe (sleep q w e c) s = worker-IsSafe q asleep s (λ h. absurd cc)
Step-IsSafe (look_spuriously q w) s = worker-IsSafe q looking s (λ h. absurd cc)
Step-IsSafe (return q w e c) s = record {
  in_order = s.in_order;
  bounded = s.bounded;
  closed_iff = s.closed_iff;
  drained = λ h. (e, c);
}
Step-IsSafe (notify_pop q w) s =
    producer-IsSafe (record q { worker = looking }) (wake_producer q.producer)
      (worker-IsSafe q looking s (λ h. absurd cc)) (wake_producer-is_closing q.producer)

-- In every state that the queue reaches, the worker has taken the chunks in the order in which they
-- were pushed, with those in the queue next; the queue holds at most `max_queued`; it is closed
-- exactly after `finish` closed it; and a worker that has returned left no chunk behind.
pub Reach-IsSafe : {A : Type 0} {q : Queue A} → Reach q → IsSafe q
Reach-IsSafe here = record {
  in_order = refl;
  bounded = omega arith;
  closed_iff = refl;
  drained = λ h. absurd cc;
}
Reach-IsSafe (next before step) = Step-IsSafe step (Reach-IsSafe before)
