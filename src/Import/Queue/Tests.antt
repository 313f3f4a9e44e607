-- ===== src/Import/Queue/Tests.antt =====
-- Runs of the queue of `AsyncHashSink`.
use archinix.Base.{ℕ, ◌≡◌, refl, ◌⊎◌, [], ◌∷◌, arith}
use archinix.Import.Queue.{
  Queue, start, push, notify_push, close, notify_closed, pop, sleep, return, Reach, here, next,
  joining, returned, asleep, notifying,
}
use archinix.Import.Queue.Safety.{IsSafe, Reach-IsSafe}
use archinix.Import.Queue.Liveness.{
  WorkerSleepsWell, ProducerSleepsWell, IsFinished, CanGoOn, Reach-IsLive,
}

-- The worker sleeps, one chunk is pushed and taken, the queue is closed and the worker joined.
abbrev one_chunk :
    (q : Queue ℕ) × Reach q × (q.producer ≡ joining) × (q.worker ≡ returned) × (q.pushed ≡ 7 ∷ [])
one_chunk =
    let r₁ = next here (sleep start refl refl refl) in
    let r₂ = next r₁ (push _ 7 refl (omega arith)) in
    let r₃ = next r₂ (notify_push _ refl) in
    let r₄ = next r₃ (pop _ 7 [] refl refl) in
    let r₅ = next r₄ (close _ refl) in
    let r₆ = next r₅ (notify_closed _ refl) in
    let r₇ = next r₆ (return _ refl refl refl) in (_, r₇, refl, refl, refl)

Reach-IsSafe_example : IsSafe (one_chunk.0)
Reach-IsSafe_example = Reach-IsSafe (one_chunk.1)

-- The state in which the worker sleeps and a chunk has been pushed: a notification is to follow.
abbrev one_pushed :
    (q : Queue ℕ) × Reach q × (q.worker ≡ asleep) × (q.chunks ≡ 7 ∷ []) × (q.producer ≡ notifying)
one_pushed =
    let r₁ = next here (sleep start refl refl refl) in
    let r₂ = next r₁ (push _ 7 refl (omega arith)) in (_, r₂, refl, refl, refl)

Reach-IsLive_example :
    WorkerSleepsWell (one_pushed.0)
    × ProducerSleepsWell (one_pushed.0)
    × (IsFinished (one_pushed.0) ⊎ CanGoOn (one_pushed.0))
Reach-IsLive_example = Reach-IsLive (one_pushed.0) (one_pushed.1)
