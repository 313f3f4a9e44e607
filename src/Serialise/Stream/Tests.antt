-- ===== src/Serialise/Stream/Tests.antt =====
-- Runs of the stream of `sourceToSink`.
use archinix.Base.{◌≡◌, ◌≢◌, refl, true, [], ◌∷◌, arith, codes}
use archinix.Serialise.Stream.{
  Stream, reading, absent, pulling, start, write, push, notify_push, stop, close, notify_closed,
  join, copy, pull, pop, sleep, end_of_file, reader_returns, leave, notify_quit, Reach, here, next,
}
use archinix.Serialise.Stream.Liveness.{CanGoOn, Reach-AreLive}
use archinix.Serialise.Stream.Sleeps.{AreWell}
use archinix.Serialise.Stream.Faithful.{IsFaithful, Reach-IsFaithful}

some_bytes : codes "abc" ≢ []
some_bytes h = cc

a_thread : reading ≢ absent
a_thread h = cc

-- A chunk is pushed, and pulled in two parts by a reader that goes on to the end of the stream.
abbrev one_chunk :
    (s : Stream) × Reach s
    × (s.pulled ≡ codes "abc")
    × (s.written ≡ codes "abc" ∷ [])
    × (s.ended ≡ true)
one_chunk =
    let r₁ = next here (write start (codes "abc") refl some_bytes) in
    let r₂ = next r₁ (pull _ 2 refl refl) in
    let r₃ = next r₂ (sleep _ 2 refl refl refl) in
    let r₄ = next r₃ (push _ (codes "abc") refl refl (omega arith)) in
    let r₅ = next r₄ (notify_push _ refl) in
    let r₆ = next r₅ (pop _ 2 (codes "abc") [] refl refl) in
    let r₇ = next r₆ (copy _ 2 refl (omega arith)) in
    let r₈ = next r₇ (stop _ refl a_thread) in
    let r₉ = next r₈ (close _ refl) in
    let r₁₀ = next r₉ (notify_closed _ refl) in
    let r₁₁ = next r₁₀ (pull _ 2 refl refl) in
    let r₁₂ = next r₁₁ (end_of_file _ 2 refl refl refl) in
    let r₁₃ = next r₁₂ (reader_returns _ refl) in
    let r₁₄ = next r₁₃ (leave _ refl) in
    let r₁₅ = next r₁₄ (notify_quit _ refl) in
    let r₁₆ = next r₁₅ (join _ refl refl) in (_, r₁₆, refl, refl, refl)

Reach-IsFaithful_example : IsFaithful (one_chunk.0)
Reach-IsFaithful_example = Reach-IsFaithful (one_chunk.1)

-- The `pull` sleeps and a chunk has been pushed: a notification is to follow.
abbrev one_pushed :
    (s : Stream) × Reach s × (s.worker ≡ pulling 2 true) × (s.full ≡ codes "abc" ∷ [])
one_pushed =
    let r₁ = next here (write start (codes "abc") refl some_bytes) in
    let r₂ = next r₁ (pull _ 2 refl refl) in
    let r₃ = next r₂ (sleep _ 2 refl refl refl) in
    let r₄ = next r₃ (push _ (codes "abc") refl refl (omega arith)) in (_, r₄, refl, refl)

Reach-AreLive_example : AreWell (one_pushed.0) × CanGoOn (one_pushed.0)
Reach-AreLive_example = Reach-AreLive (one_pushed.0) (one_pushed.1)
