-- ===== src/Import/Queue.antt =====
-- `AsyncHashSink` of src/libstore/local-store.cc: one producer and one worker around a bounded
-- queue, with two condition variables and wake-ups only on the edges. `AsyncFileHasher` runs the
-- same protocol on its events. Each step is what happens under the mutex at once; a notification
-- that follows the unlock is a step of its own.
pub mod Safety
pub mod Liveness
mod Tests
use archinix.Base.{
  ℕ, ◌+◌, ◌-◌, ◌≤◌, ◌<◌, ◌≡◌, Bool, true, false, List, [], ◌∷◌, ◌++◌, ◌==◌, if◌then◌else◌, length,
}

-- What the producing thread does next. `blocked` holds a chunk that waits for room; the thread sleeps
-- on cvPop, or has been woken and not yet looked again.
pub data Producer (A : Type 0) : Type 0 where
  ready : Producer A
  notifying : Producer A
  blocked : A → Bool → Producer A
  closing : Producer A
  joining : Producer A

-- What the worker does next: it looks at the queue, sleeps on cvPush, has a notification of cvPop to
-- send, or has returned.
pub data Worker : Type 0 where
  looking : Worker
  asleep : Worker
  waking : Worker
  returned : Worker

pub record Queue (A : Type 0) : Type 0 where
  pub chunks : List A
  pub closed : Bool
  pub producer : Producer A
  pub worker : Worker
  pub pushed : List A
  pub taken : List A

abbrev pub max_queued : ℕ
max_queued = 64

abbrev pub start : {A : Type 0} → Queue A
start = record {
  chunks = [];
  closed = false;
  producer = ready;
  worker = looking;
  pushed = [];
  taken = [];
}

-- `wake = chunks.size() == 1` after a push.
abbrev pub after_push : {A : Type 0} → List A → Producer A
after_push chunks = if length chunks == 1 then notifying else ready

-- `wake = chunks.size() == maxQueued - 1` after a pop.
abbrev pub after_pop : {A : Type 0} → List A → Worker
after_pop chunks = if length chunks == max_queued - 1 then waking else looking

-- `notify_one` on cvPush and on cvPop.
abbrev pub wake_worker : Worker → Worker
wake_worker asleep = looking
wake_worker w = w

abbrev pub wake_producer : {A : Type 0} → Producer A → Producer A
wake_producer (blocked a sleeping) = blocked a false
wake_producer p = p

pub data Step {A : Type 0} : Queue A → Queue A → Type 0 where
  push :
      (q : Queue A) (a : A)
      → q.producer ≡ ready
      → length q.chunks < max_queued
      → Step q (record q {
        chunks = q.chunks ++ (a ∷ []);
        pushed = q.pushed ++ (a ∷ []);
        producer = after_push (q.chunks ++ (a ∷ []));
      })
  wait_for_room :
      (q : Queue A) (a : A)
      → q.producer ≡ ready
      → max_queued ≤ length q.chunks
      → Step q (record q { producer = blocked a true })
  -- A condition variable may wake its thread for no reason.
  wake_spuriously :
      (q : Queue A) (a : A)
      → q.producer ≡ blocked a true
      → Step q (record q { producer = blocked a false })
  push_woken :
      (q : Queue A) (a : A)
      → q.producer ≡ blocked a false
      → length q.chunks < max_queued
      → Step q (record q {
        chunks = q.chunks ++ (a ∷ []);
        pushed = q.pushed ++ (a ∷ []);
        producer = after_push (q.chunks ++ (a ∷ []));
      })
  wait_again :
      (q : Queue A) (a : A)
      → q.producer ≡ blocked a false
      → max_queued ≤ length q.chunks
      → Step q (record q { producer = blocked a true })
  notify_push :
      (q : Queue A)
      → q.producer ≡ notifying
      → Step q (record q { producer = ready; worker = wake_worker q.worker })
  close :
      (q : Queue A) → q.producer ≡ ready → Step q (record q { closed = true; producer = closing })
  notify_closed :
      (q : Queue A)
      → q.producer ≡ closing
      → Step q (record q { producer = joining; worker = wake_worker q.worker })
  pop :
      (q : Queue A) (a : A) (rest : List A)
      → q.worker ≡ looking
      → q.chunks ≡ a ∷ rest
      → Step q (record q { chunks = rest; taken = q.taken ++ (a ∷ []); worker = after_pop rest })
  sleep :
      (q : Queue A)
      → q.worker ≡ looking
      → q.chunks ≡ []
      → q.closed ≡ false
      → Step q (record q { worker = asleep })
  look_spuriously : (q : Queue A) → q.worker ≡ asleep → Step q (record q { worker = looking })
  return :
      (q : Queue A)
      → q.worker ≡ looking
      → q.chunks ≡ []
      → q.closed ≡ true
      → Step q (record q { worker = returned })
  notify_pop :
      (q : Queue A)
      → q.worker ≡ waking
      → Step q (record q { worker = looking; producer = wake_producer q.producer })

pub data Reach {A : Type 0} : Queue A → Type 0 where
  here : Reach start
  next : {q r : Queue A} → Reach q → Step q r → Reach r
