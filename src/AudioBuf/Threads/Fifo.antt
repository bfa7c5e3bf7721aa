-- ===== src/AudioBuf/Threads/Fifo.antt =====
-- The two threads of audiobuf.c pass the samples on in order.
use cicy_agent_adr.Prelude.{
  ℕ, ◌+◌, ◌≤◌, ◌<◌, ◌≡◌, refl, sym, ap, ◌∙◌, Bool, true, false, ◌++◌, length, take-append_front,
  take, arith, ◌==◌, if◌then◌else◌,
}
use cicy_agent_adr.Prelude.Memory.{Memory, memcpy, slice, slice-memcpy, slice_cong}
use cicy_agent_adr.Prelude.Window.{window, length-window}
use cicy_agent_adr.AudioBuf.{AudioBuf, can_read, can_write, at_most, advance, copy_out}
use cicy_agent_adr.AudioBuf.Cursors.{IsValid, can_write_lem, can_read_bound}
use cicy_agent_adr.AudioBuf.Refine.{items, at_most_lem, copy_out_lem}
use cicy_agent_adr.AudioBuf.Queue.{front_lem}
use cicy_agent_adr.AudioBuf.Threads.{
  Reader, reader_aborted, reader_idle, reader_loaded, reader_copied, Writer, writer_idle,
  writer_loaded, writer_copied, Threads, start_read, start_write,
}

module _ {A : Type 0} where
  -- The samples that a read in progress counts on are in the ring, and are those it copied.
  abbrev pub ReaderOk : AudioBuf A → Reader A → Type 0
  ReaderOk buf reader_idle = true ≡ true
  ReaderOk buf (reader_loaded count) = count ≤ can_read buf
  ReaderOk buf (reader_copied count to) =
      (count ≤ can_read buf) × (slice to 0 count ≡ take count (items buf))
  ReaderOk buf reader_aborted = true ≡ true

  -- The room that a write in progress counts on is there, and holds what it copied.
  abbrev pub WriterOk : AudioBuf A → Writer A → Type 0
  WriterOk buf writer_idle = true ≡ true
  WriterOk buf (writer_loaded count from) = count + can_read buf < buf.alloc_size
  WriterOk buf (writer_copied count from) =
      (count + can_read buf < buf.alloc_size)
      × (window buf.data_items buf.alloc_size buf.head count ≡ slice from 0 count)

  pub record Inv (s : Threads A) : Type 0 where
    pub valid : IsValid s.buf
    pub reader_ok : ReaderOk s.buf s.reader
    pub writer_ok : WriterOk s.buf s.writer
    pub fifo : s.given ≡ s.taken ++ items s.buf

  pub start_read-Ok :
      (n : ℕ) (buf : AudioBuf A) (r : Reader A) → ReaderOk buf r → ReaderOk buf (start_read n buf r)
  unfolding start_read
  start_read-Ok n buf reader_idle h = branch (n == 0) (can_read buf == 0)
    where
      branch :
          (a b : Bool)
          → ReaderOk buf (
              if a
              then reader_aborted
              else if b
              then reader_idle
              else reader_loaded (at_most n (can_read buf)))
      branch true b = refl
      branch false true = refl
      branch false false = omega (arith, at_most_lem n (can_read buf))
  start_read-Ok n buf (reader_loaded count) h = h
  start_read-Ok n buf (reader_copied count to) h = h
  start_read-Ok n buf reader_aborted h = h

  pub start_write-Ok :
      (from : Memory A) (n : ℕ) (buf : AudioBuf A) (w : Writer A)
      → IsValid buf
      → WriterOk buf w
      → WriterOk buf (start_write from n buf w)
  unfolding start_write
  start_write-Ok from n buf writer_idle v h = branch (can_write buf == 0)
    where
      branch :
          (b : Bool)
          → WriterOk buf (if b then writer_idle else writer_loaded (at_most n (can_write buf)) from)
      branch true = refl
      branch false = omega (arith, at_most_lem n (can_write buf), can_write_lem buf v)
  start_write-Ok from n buf (writer_loaded count from') v h = h
  start_write-Ok from n buf (writer_copied count from') v h = h

  -- The copy of a read: the front of the samples.
  pub front_copied :
      (buf : AudioBuf A) (count : ℕ) (to : Memory A)
      → IsValid buf
      → count ≤ can_read buf
      → slice (copy_out buf count to) 0 count ≡ take count (items buf)
  front_copied buf count to v h =
      let out = window buf.data_items buf.alloc_size buf.tail count in
      let l = length-window buf.data_items buf.alloc_size buf.tail count in
      let (f, v') = front_lem buf count v h in
      let p : count ≤ buf.alloc_size = omega (arith, can_read_bound buf v) in
      ap (λ m. slice m 0 count) (copy_out_lem buf count to v.tail_inside p)
      ∙ slice_cong (memcpy to 0 out) 0 0 count (length out) refl (sym l)
      ∙ slice-memcpy to 0 out
      ∙ sym (take-append_front out (items (record buf { tail = advance buf buf.tail count })))
      ∙ ap (λ n. take n (out ++ items (record buf { tail = advance buf buf.tail count }))) l
      ∙ sym (ap (take count) f)
