-- ===== src/Serialise/Stream.antt =====
-- `sourceToSink` of src/libutil/serialise.cc: a producer that writes chunks, and a thread that runs a
-- reader on the source that they make. Each step is what happens under the mutex at once; a
-- notification that follows the unlock is a step of its own. When the reader asks for bytes, returns or
-- throws is up to it. The buffers that are used again are left out, since each is overwritten whole.
pub mod Keeps
pub mod Faithful
pub mod Sleeps
pub mod Liveness
mod Tests
use archinix.Base.{
  ℕ, ◌+◌, ◌-◌, min, ◌≤◌, ◌<◌, ◌≡◌, ◌≢◌, Bool, true, false, List, [], ◌∷◌, ◌++◌, ◌==◌, if◌then◌else◌,
  length, take, drop, Bytes,
}

-- `writeUnbuffered` with a chunk that waits for room, asleep on cvFree or not; then `stop`: to set
-- `closed`, to notify, and to join.
pub data Writer : Type 0 where
  ready : Writer
  blocked : Bytes → Bool → Writer
  notifying : Writer
  stopping : Writer
  closing : Writer
  joining : Writer

-- No thread, or what it does: the code of the reader, a `pull` of some bytes that waits, asleep on
-- cvFull or not; then it is to set `quit`, to notify, or is over.
pub data Worker : Type 0 where
  absent : Worker
  reading : Worker
  pulling : ℕ → Bool → Worker
  leaving : Worker
  quitting : Worker
  exited : Worker

-- `written` and `pulled` are what was pushed and what the reader was given, `ended` says that it was
-- told of the end, and `raised` what the last `stop` rethrew.
pub record Stream : Type 0 where
  pub full : List Bytes
  pub consuming : Bytes
  pub consumed : ℕ
  pub closed : Bool
  pub quit : Bool
  pub failure : Bool
  pub writer : Writer
  pub worker : Worker
  pub written : List Bytes
  pub pulled : Bytes
  pub ended : Bool
  pub raised : Bool

abbrev pub source_to_sink_queued : ℕ
source_to_sink_queued = 64

abbrev pub start : Stream
start = record {
  full = [];
  consuming = [];
  consumed = 0;
  closed = false;
  quit = false;
  failure = false;
  writer = ready;
  worker = absent;
  written = [];
  pulled = [];
  ended = false;
  raised = false;
}

-- `start()`, unless the thread is there.
abbrev pub started : Worker → Worker
started absent = reading
started w = w

-- `wake = full.size() == 1` after a push.
abbrev pub after_push : List Bytes → Writer
after_push full = if length full == 1 then notifying else ready

-- `notify_one` on cvFull and on cvFree.
abbrev pub wake_worker : Worker → Worker
wake_worker (pulling n sleeping) = pulling n false
wake_worker w = w

abbrev pub wake_writer : Writer → Writer
wake_writer (blocked a sleeping) = blocked a false
wake_writer w = w

-- A pop notifies where the ring was full.
abbrev pub after_pop : List Bytes → Writer → Writer
after_pop rest w = if length rest == source_to_sink_queued - 1 then wake_writer w else w

pub data Step : Stream → Stream → Type 0 where
  write :
      (s : Stream) (a : Bytes)
      → s.writer ≡ ready
      → a ≢ []
      → Step s (record s { writer = blocked a false; worker = started s.worker })
  push :
      (s : Stream) (a : Bytes)
      → s.writer ≡ blocked a false
      → s.quit ≡ false
      → length s.full < source_to_sink_queued
      → Step s (record s {
        full = s.full ++ (a ∷ []);
        written = s.written ++ (a ∷ []);
        writer = after_push (s.full ++ (a ∷ []));
      })
  wait_for_room :
      (s : Stream) (a : Bytes)
      → s.writer ≡ blocked a false
      → s.quit ≡ false
      → source_to_sink_queued ≤ length s.full
      → Step s (record s { writer = blocked a true })
  -- A condition variable may wake its thread for no reason.
  wake_spuriously :
      (s : Stream) (a : Bytes)
      → s.writer ≡ blocked a true
      → Step s (record s { writer = blocked a false })
  notify_push :
      (s : Stream)
      → s.writer ≡ notifying
      → Step s (record s { writer = ready; worker = wake_worker s.worker })
  -- The reader is gone.
  give_up :
      (s : Stream) (a : Bytes)
      → s.writer ≡ blocked a false
      → s.quit ≡ true
      → Step s (record s { writer = stopping })
  -- `stop` of `finish` and of the destructor; without a thread it does nothing.
  stop :
      (s : Stream) → s.writer ≡ ready → s.worker ≢ absent → Step s (record s { writer = stopping })
  close : (s : Stream) → s.writer ≡ stopping → Step s (record s { closed = true; writer = closing })
  notify_closed :
      (s : Stream)
      → s.writer ≡ closing
      → Step s (record s { writer = joining; worker = wake_worker s.worker })
  join :
      (s : Stream)
      → s.writer ≡ joining
      → s.worker ≡ exited
      → Step s (record s { writer = ready; worker = absent; failure = false; raised = s.failure })
  -- `pull` out of the chunk at hand.
  copy :
      (s : Stream) (n : ℕ)
      → s.worker ≡ reading
      → s.consumed ≢ length s.consuming
      → Step s (record s {
        consumed = s.consumed + min n (length s.consuming - s.consumed);
        pulled =
            s.pulled
            ++ take (min n (length s.consuming - s.consumed)) (drop s.consumed s.consuming);
      })
  pull :
      (s : Stream) (n : ℕ)
      → s.worker ≡ reading
      → s.consumed ≡ length s.consuming
      → Step s (record s { worker = pulling n false; consuming = []; consumed = 0 })
  pop :
      (s : Stream) (n : ℕ) (a : Bytes) (rest : List Bytes)
      → s.worker ≡ pulling n false
      → s.full ≡ a ∷ rest
      → Step s (record s {
        full = rest;
        consuming = a;
        consumed = min n (length a);
        pulled = s.pulled ++ take (min n (length a)) a;
        worker = reading;
        writer = after_pop rest s.writer;
      })
  sleep :
      (s : Stream) (n : ℕ)
      → s.worker ≡ pulling n false
      → s.full ≡ []
      → s.closed ≡ false
      → Step s (record s { worker = pulling n true })
  look_spuriously :
      (s : Stream) (n : ℕ)
      → s.worker ≡ pulling n true
      → Step s (record s { worker = pulling n false })
  -- EndOfFile, which the reader may catch.
  end_of_file :
      (s : Stream) (n : ℕ)
      → s.worker ≡ pulling n false
      → s.full ≡ []
      → s.closed ≡ true
      → Step s (record s { worker = reading; ended = true })
  reader_returns : (s : Stream) → s.worker ≡ reading → Step s (record s { worker = leaving })
  reader_throws :
      (s : Stream) → s.worker ≡ reading → Step s (record s { worker = leaving; failure = true })
  leave : (s : Stream) → s.worker ≡ leaving → Step s (record s { worker = quitting; quit = true })
  notify_quit :
      (s : Stream)
      → s.worker ≡ quitting
      → Step s (record s { worker = exited; writer = wake_writer s.writer })

pub data Reach : Stream → Type 0 where
  here : Reach start
  next : {s t : Stream} → Reach s → Step s t → Reach t
