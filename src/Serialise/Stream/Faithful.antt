-- ===== src/Serialise/Stream/Faithful.antt =====
-- What every reachable state of the stream of `sourceToSink` of src/libutil/serialise.cc keeps.
use archinix.Base.{
  drop_nil, ◌-◌, min, ◌≤◌, ◌≡◌, refl, sym, ap, ◌∙◌, inl, inr, true, false, [], ◌++◌, append-nil,
  arith, length, drop,
}
use archinix.Serialise.Sink.{joined}
use archinix.Serialise.Stream.{
  ready, blocked, stopping, joining, pulling, leaving, exited, Stream, source_to_sink_queued,
  started, wake_worker, wake_writer, Step, write, push, wait_for_room, wake_spuriously, notify_push,
  give_up, stop, close, notify_closed, join, copy, pull, pop, sleep, look_spuriously, end_of_file,
  reader_returns, reader_throws, leave, notify_quit, Reach, here, next,
}
use archinix.Serialise.Stream.Keeps.{
  is_closing, is_pulling, is_gone, Keeps, threads-Keeps, writer-Keeps, worker-Keeps, started-kinds,
  wake_worker-kinds, wake_writer-is_closing, push-Keeps, copy-Keeps, pop-Keeps, pull-Keeps,
}

pub record IsFaithful (s : Stream) : Type 0 where
  pub in_order : s.pulled ++ (drop s.consumed s.consuming ++ joined s.full) ≡ joined s.written
  pub inside : s.consumed ≤ length s.consuming
  pub bounded : length s.full ≤ source_to_sink_queued
  pub complete : s.ended ≡ true → s.pulled ≡ joined s.written

Step-Keeps : {s t : Stream} → Step s t → Keeps s → Keeps t
Step-Keeps (write s a w some_left) k =
    threads-Keeps s (blocked a false) (started s.worker) k
      (λ h. absurd (let bad = sym (ap is_closing w) ∙ h in cc)) (started-kinds s.worker).0
      (started-kinds s.worker).1
Step-Keeps (push s a w running room) k = push-Keeps s a w running room k
Step-Keeps (wait_for_room s a w running no_room) k =
    writer-Keeps s (blocked a true) k (ap is_closing w)
Step-Keeps (wake_spuriously s a w) k = writer-Keeps s (blocked a false) k (ap is_closing w)
Step-Keeps (notify_push s w) k =
    threads-Keeps s ready (wake_worker s.worker) k
      (λ h. absurd (let bad = sym (ap is_closing w) ∙ h in cc)) (wake_worker-kinds s.worker).0
      (wake_worker-kinds s.worker).1
Step-Keeps (give_up s a w gone) k = writer-Keeps s stopping k (ap is_closing w)
Step-Keeps (stop s w there) k = writer-Keeps s stopping k (ap is_closing w)
Step-Keeps (close s w) k = record {
  in_order = k.in_order;
  inside = k.inside;
  bounded = k.bounded;
  waits = k.waits;
  gone = k.gone;
  shut = λ h. inr refl;
  over = λ h. (refl, (k.over h).1, (k.over h).2);
}
Step-Keeps (notify_closed s w) k =
    threads-Keeps s joining (wake_worker s.worker) k (λ h. refl) (wake_worker-kinds s.worker).0
      (wake_worker-kinds s.worker).1
Step-Keeps (join s w over) k = record {
  in_order = k.in_order;
  inside = k.inside;
  bounded = k.bounded;
  waits = λ h. absurd cc;
  gone = λ h. absurd cc;
  shut = λ h. inl (k.gone (ap is_gone over));
  over = k.over;
}
Step-Keeps (copy s n w more) k =
    copy-Keeps s (min n (length s.consuming - s.consumed)) w (omega (arith, k.inside)) k
Step-Keeps (pull s n w spent) k = pull-Keeps s n spent k
Step-Keeps (pop s n a rest w there) k =
    pop-Keeps s n (min n (length a)) a rest w there (omega arith) k
Step-Keeps (sleep s n w empty unclosed) k =
    worker-Keeps s (pulling n true) k (ap is_pulling w) (ap is_gone w)
Step-Keeps (look_spuriously s n w) k =
    worker-Keeps s (pulling n false) k (ap is_pulling w) (ap is_gone w)
Step-Keeps (end_of_file s n w empty shut) k = record {
  in_order = k.in_order;
  inside = k.inside;
  bounded = k.bounded;
  waits = λ h. absurd cc;
  gone = λ h. absurd cc;
  shut = k.shut;
  over = λ h. (shut, empty, (k.waits (ap is_pulling w)).0);
}
Step-Keeps (reader_returns s w) k = worker-Keeps s leaving k (ap is_pulling w) (ap is_gone w)
Step-Keeps (reader_throws s w) k = record {
  in_order = k.in_order;
  inside = k.inside;
  bounded = k.bounded;
  waits = λ h. absurd cc;
  gone = λ h. absurd cc;
  shut = k.shut;
  over = k.over;
}
Step-Keeps (leave s w) k = record {
  in_order = k.in_order;
  inside = k.inside;
  bounded = k.bounded;
  waits = λ h. absurd cc;
  gone = λ h. refl;
  shut = λ h. inl refl;
  over = k.over;
}
Step-Keeps (notify_quit s w) k =
    threads-Keeps s (wake_writer s.writer) exited k (λ h. wake_writer-is_closing s.writer ∙ h)
      (λ h. absurd cc) (λ h. ap is_gone w)

Keeps-IsFaithful : (s : Stream) → Keeps s → IsFaithful s
unfolding joined
Keeps-IsFaithful s k = record {
  in_order = k.in_order;
  inside = k.inside;
  bounded = k.bounded;
  complete = λ h.
      let (_, none_there, none_left) = k.over h in
      let rest : drop s.consumed s.consuming ++ joined s.full ≡ [] =
        rw (none_there, none_left) (append-nil (drop s.consumed []) ∙ drop_nil s.consumed) in
      sym (ap (λ x. s.pulled ++ x) rest ∙ append-nil s.pulled) ∙ k.in_order;
}

pub Reach-Keeps : {s : Stream} → Reach s → Keeps s
unfolding joined
Reach-Keeps here = record {
  in_order = refl;
  inside = omega arith;
  bounded = omega arith;
  waits = λ h. (refl, refl);
  gone = λ h. absurd cc;
  shut = λ h. absurd cc;
  over = λ h. absurd cc;
}
Reach-Keeps (next before step) = Step-Keeps step (Reach-Keeps before)

-- In every state that `sourceToSink` reaches, what the reader was given, the rest of its chunk and the
-- ring are, in this order, what was pushed; it has not read past the end of its chunk; the ring holds at
-- most 64 chunks; and once the reader was told that the stream has ended, it has been given everything
-- that was pushed.
pub Reach-IsFaithful : {s : Stream} → Reach s → IsFaithful s
Reach-IsFaithful {s} reached = Keeps-IsFaithful s (Reach-Keeps reached)
