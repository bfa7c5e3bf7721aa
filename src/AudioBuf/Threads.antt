-- ===== src/AudioBuf/Threads.antt =====
-- The two threads of audiobuf.c: what one does between its loads and its store is interleaved with
-- the steps of the other. A call is three steps: the load of the other thread's cursor, with the
-- count that follows from it; the copies; and the store of the own cursor. The cursors are stored
-- with release and loaded with acquire, so each step sees the steps before it.
pub mod Fifo
pub mod Steps
pub mod Runs
use cicy_agent_adr.Prelude.{ℕ, ◌==◌, List, [], ◌∷◌, ◌++◌, if◌then◌else◌}
use cicy_agent_adr.Prelude.Memory.{Memory, slice}
use cicy_agent_adr.AudioBuf.{AudioBuf, can_read, can_write, at_most, advance, copy_in, copy_out}

-- Where a call of `sc_audiobuf_read` with a destination is: before, after the loads, after the
-- copies; or it has failed its assertion.
pub data Reader {ℓ} (A : Type ℓ) : Type ℓ where
  reader_idle : Reader A
  reader_loaded : ℕ → Reader A
  reader_copied : ℕ → Memory A → Reader A
  reader_aborted : Reader A

-- Where a call of `sc_audiobuf_write` is, with the samples that it was given.
pub data Writer {ℓ} (A : Type ℓ) : Type ℓ where
  writer_idle : Writer A
  writer_loaded : ℕ → Memory A → Writer A
  writer_copied : ℕ → Memory A → Writer A

-- The threads, and the samples that finished calls have taken and given so far.
pub record Threads {ℓ} (A : Type ℓ) : Type ℓ where
  pub buf : AudioBuf A
  pub reader : Reader A
  pub writer : Writer A
  pub taken : List A
  pub given : List A

pub data Action {ℓ} (A : Type ℓ) : Type ℓ where
  load_head : ℕ → Action A
  copy_samples : Memory A → Action A
  store_tail : Action A
  load_tail : Memory A → ℕ → Action A
  copy_given : Action A
  store_head : Action A

module _ {ℓ} {A : Type ℓ} where
  -- The loads of a read of `samples_count` samples.
  unfoldable pub start_read : ℕ → AudioBuf A → Reader A → Reader A
  unfolding can_read
  start_read samples_count buf reader_idle =
      if samples_count == 0
      then reader_aborted
      else if can_read buf == 0
      then reader_idle
      else reader_loaded (at_most samples_count (can_read buf))
  start_read samples_count buf (reader_loaded count) = reader_loaded count
  start_read samples_count buf (reader_copied count to) = reader_copied count to
  start_read samples_count buf reader_aborted = reader_aborted

  -- The copies of a read to `to`.
  unfoldable pub copy_read : Memory A → AudioBuf A → Reader A → Reader A
  unfolding copy_out
  copy_read to buf reader_idle = reader_idle
  copy_read to buf (reader_loaded count) = reader_copied count (copy_out buf count to)
  copy_read to buf (reader_copied count to') = reader_copied count to'
  copy_read to buf reader_aborted = reader_aborted

  -- The store of the tail; the caller has the samples in `to`.
  unfoldable pub end_read : Threads A → Reader A → Threads A
  unfolding slice
  end_read s reader_idle = s
  end_read s (reader_loaded count) = s
  end_read s reader_aborted = s
  end_read s (reader_copied count to) = record s {
    buf = record s.buf { tail = advance s.buf s.buf.tail count };
    reader = reader_idle;
    taken = s.taken ++ slice to 0 count;
  }

  -- The loads of a write of `samples_count` samples.
  unfoldable pub start_write : Memory A → ℕ → AudioBuf A → Writer A → Writer A
  unfolding can_write
  start_write from samples_count buf writer_idle =
      if can_write buf == 0
      then writer_idle
      else writer_loaded (at_most samples_count (can_write buf)) from
  start_write from samples_count buf (writer_loaded count from') = writer_loaded count from'
  start_write from samples_count buf (writer_copied count from') = writer_copied count from'

  -- The copies of a write.
  unfoldable pub copy_write : Threads A → Writer A → Threads A
  unfolding copy_in
  copy_write s writer_idle = s
  copy_write s (writer_loaded count from) = record s {
    buf = record s.buf { data_items = copy_in s.buf count from };
    writer = writer_copied count from;
  }
  copy_write s (writer_copied count from) = s

  -- The store of the head.
  unfoldable pub end_write : Threads A → Writer A → Threads A
  unfolding slice
  end_write s writer_idle = s
  end_write s (writer_loaded count from) = s
  end_write s (writer_copied count from) = record s {
    buf = record s.buf { head = advance s.buf s.buf.head count };
    writer = writer_idle;
    given = s.given ++ slice from 0 count;
  }

  unfoldable pub step : Threads A → Action A → Threads A
  unfolding start_read copy_read end_read start_write copy_write end_write
  step s (load_head samples_count) = record s { reader = start_read samples_count s.buf s.reader }
  step s (copy_samples to) = record s { reader = copy_read to s.buf s.reader }
  step s store_tail = end_read s s.reader
  step s (load_tail from samples_count) = record s {
    writer = start_write from samples_count s.buf s.writer;
  }
  step s copy_given = copy_write s s.writer
  step s store_head = end_write s s.writer

  -- Any interleaving of the steps.
  unfoldable pub run : Threads A → List (Action A) → Threads A
  unfolding step
  run s [] = s
  run s (a ∷ actions) = run (step s a) actions

  -- Both threads before their first call.
  abbrev pub started : AudioBuf A → Threads A
  started buf = record {
    buf = buf;
    reader = reader_idle;
    writer = writer_idle;
    taken = [];
    given = [];
  }
