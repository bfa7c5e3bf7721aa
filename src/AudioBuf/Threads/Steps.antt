-- ===== src/AudioBuf/Threads/Steps.antt =====
-- Each step of the two threads of audiobuf.c keeps the samples in order.
use cicy_agent_adr.Prelude.{
  ℕ, ◌+◌, ◌-◌, ◌≤◌, ◌<◌, ◌≡◌, refl, sym, ap, ◌∙◌, List, [], ◌++◌, append-nil, append_assoc, length,
  length-append, take-append_front, append_parts, take-append_short, take, arith,
}
use cicy_agent_adr.Prelude.Memory.{Memory, memcpy, slice, length-slice}
use cicy_agent_adr.Prelude.Window.{window, window_split, window_mod, length-window}
use cicy_agent_adr.AudioBuf.{AudioBuf, can_read, advance, publish, right_count, copy_in}
use cicy_agent_adr.AudioBuf.Cursors.{IsValid, head_lem, can_read-head, advance_lem, advance_inside}
use cicy_agent_adr.AudioBuf.Refine.{items, at_most_lem, length-items, rest_copied, pieces_added}
use cicy_agent_adr.AudioBuf.Queue.{front_lem, slice_joined}
use cicy_agent_adr.AudioBuf.Threads.{
  Reader, reader_aborted, reader_idle, reader_loaded, reader_copied, Writer, writer_idle,
  writer_loaded, writer_copied, Threads, Action, load_head, copy_samples, store_tail, load_tail,
  copy_given, store_head, copy_read, end_read, copy_write, end_write, step,
}
use cicy_agent_adr.AudioBuf.Threads.Fifo.{
  ReaderOk, WriterOk, Inv, start_read-Ok, start_write-Ok, front_copied,
}

module _ {A : Type 0} where
  copy_read-Ok :
      (to : Memory A) (buf : AudioBuf A) (r : Reader A)
      → IsValid buf
      → ReaderOk buf r
      → ReaderOk buf (copy_read to buf r)
  unfolding copy_read
  copy_read-Ok to buf reader_idle v h = h
  copy_read-Ok to buf (reader_loaded count) v h = (h, front_copied buf count to v h)
  copy_read-Ok to buf (reader_copied count to') v h = h
  copy_read-Ok to buf reader_aborted v h = h

  -- Fewer samples leave a write in progress its room.
  writer_fewer :
      (buf : AudioBuf A) (tail' : ℕ) (w : Writer A)
      → can_read (record buf { tail = tail' }) ≤ can_read buf
      → WriterOk buf w
      → WriterOk (record buf { tail = tail' }) w
  writer_fewer buf tail' writer_idle h k = refl
  writer_fewer buf tail' (writer_loaded count from) h k = omega arith
  writer_fewer buf tail' (writer_copied count from) h (k, l) = (omega arith, l)

  -- More samples behind leave a read in progress those that it counts on.
  reader_more :
      (buf buf' : AudioBuf A) (new : List A) (r : Reader A)
      → items buf' ≡ items buf ++ new
      → ReaderOk buf r
      → ReaderOk buf' r
  reader_more buf buf' new reader_idle e h = refl
  reader_more buf buf' new reader_aborted e h = refl
  reader_more buf buf' new (reader_loaded count) e h = omega (
    arith,
    ap (λ t. length t) e,
    length-append (items buf) new,
    length-items buf,
    length-items buf',
  )
  reader_more buf buf' new (reader_copied count to) e (h, k) = (
    omega (
      arith,
      ap (λ t. length t) e,
      length-append (items buf) new,
      length-items buf,
      length-items buf',
    ),
    k
        ∙ sym (take-append_short count (items buf) new (omega (arith, length-items buf)))
        ∙ sym (ap (take count) e),
  )

  end_read-Inv : (s : Threads A) → Inv s → Inv (end_read s s.reader)
  unfolding end_read
  end_read-Inv s h = finish s.reader h.reader_ok
    where
      finish : (r : Reader A) → ReaderOk s.buf r → Inv (end_read s r)
      finish reader_idle k = h
      finish (reader_loaded count) k = h
      finish reader_aborted k = h
      finish (reader_copied count to) (k, e) =
          let out = window s.buf.data_items s.buf.alloc_size s.buf.tail count in
          let buf' = record s.buf { tail = advance s.buf s.buf.tail count } in
          let (f, v) = front_lem s.buf count h.valid k in
          let l = length-window s.buf.data_items s.buf.alloc_size s.buf.tail count in
          let same : slice to 0 count ≡ out =
            e
            ∙ ap (take count) f
            ∙ sym (ap (λ n. take n (out ++ items buf')) l)
            ∙ take-append_front out (items buf') in
          record {
            valid = v;
            reader_ok = refl;
            writer_ok =
                writer_fewer s.buf (advance s.buf s.buf.tail count) s.writer
                  (omega (
                    arith,
                    ap (λ t. length t) f,
                    length-append out (items buf'),
                    length-items s.buf,
                    length-items buf',
                  ))
                  h.writer_ok;
            fifo =
                h.fifo
                ∙ ap (λ t. s.taken ++ t) (f ∙ sym (ap (λ t. t ++ items buf') same))
                ∙ sym (append_assoc s.taken (slice to 0 count) (items buf'));
          }

  -- The copies of a write leave the samples in the ring and put the new ones behind them.
  copied_behind :
      (buf : AudioBuf A) (count : ℕ) (from m : Memory A)
      → IsValid buf
      → count + can_read buf < buf.alloc_size
      → copy_in buf count from ≡ m
      → (window m buf.alloc_size buf.tail (can_read buf) ≡ items buf)
        × (window m buf.alloc_size buf.head count ≡ slice from 0 count)
  unfolding copy_in items
  copied_behind buf count from m valid room e =
      let right = right_count buf buf.head count in
      let bound = at_most_lem (buf.alloc_size - buf.head) count in
      let xs = slice from 0 right in
      let ys = slice from right (count - right) in
      let same : memcpy (memcpy buf.data_items buf.head xs) 0 ys ≡ m =
        sym (rest_copied (memcpy buf.data_items buf.head xs) from 0 right right count) ∙ e in
      let lx = length-slice from 0 right in
      let ly = length-slice from right (count - right) in
      let (b, v) =
        pieces_added buf count xs ys valid room (lx ∙ bound) (omega (arith, lx, ly, bound)) in
      let p : count ≤ buf.alloc_size = omega arith in
      let more =
        can_read-head buf (publish buf count (memcpy (memcpy buf.data_items buf.head xs) 0 ys))
          valid v count room refl refl (advance_lem buf valid buf.head count valid.head_inside p) in
      let whole : window m buf.alloc_size buf.tail (can_read buf)
            ++ window m buf.alloc_size (buf.tail + can_read buf) count
          ≡ items buf ++ slice from 0 count =
        sym (window_split m buf.alloc_size buf.tail (can_read buf) count)
        ∙ sym (ap (λ t. window t buf.alloc_size buf.tail (can_read buf + count)) same)
        ∙ sym (
            ap (window (memcpy (memcpy buf.data_items buf.head xs) 0 ys) buf.alloc_size buf.tail)
              more)
        ∙ b
        ∙ ap (λ t. items buf ++ t)
            (slice_joined from right (count - right) count (omega (arith, bound))) in
      let l1 = length-window m buf.alloc_size buf.tail (can_read buf) in
      let l2 = length-items buf in
      let (front, new) =
        append_parts (window m buf.alloc_size buf.tail (can_read buf)) (items buf)
          (window m buf.alloc_size (buf.tail + can_read buf) count) (slice from 0 count)
          (l1 ∙ sym l2) whole in
      (
        front,
        ap (λ t. window m buf.alloc_size t count) (head_lem buf valid)
            ∙ window_mod m buf.alloc_size (buf.tail + can_read buf) count
            ∙ new,
      )

  copy_write-Inv : (s : Threads A) → Inv s → Inv (copy_write s s.writer)
  unfolding copy_write items can_read
  copy_write-Inv s h = finish s.writer h.writer_ok
    where
      finish : (w : Writer A) → WriterOk s.buf w → Inv (copy_write s w)
      finish writer_idle k = h
      finish (writer_copied count from) k = h
      finish (writer_loaded count from) k =
          let m = copy_in s.buf count from in
          let buf' = record s.buf { data_items = m } in
          let (front, new) = copied_behind s.buf count from m h.valid k refl in
          let v : IsValid buf' = record {
            small = h.valid.small;
            head_inside = h.valid.head_inside;
            tail_inside = h.valid.tail_inside;
          } in
          record {
            valid = v;
            reader_ok =
                reader_more s.buf buf' [] s.reader (front ∙ sym (append-nil (items s.buf)))
                  h.reader_ok;
            writer_ok = (k, new);
            fifo = h.fifo ∙ sym (ap (λ t. s.taken ++ t) front);
          }

  -- A store of the head adds what was copied behind the samples.
  head_moved :
      (buf : AudioBuf A) (count : ℕ)
      → IsValid buf
      → count + can_read buf < buf.alloc_size
      → let buf' = record buf { head = advance buf buf.head count } in
        (items buf' ≡ items buf ++ window buf.data_items buf.alloc_size buf.head count)
        × IsValid buf'
  unfolding items
  head_moved buf count valid room =
      let p : count ≤ buf.alloc_size = omega arith in
      let buf' = record buf { head = advance buf buf.head count } in
      let v : IsValid buf' = record {
        small = valid.small;
        head_inside = advance_inside buf valid buf.head count valid.head_inside p;
        tail_inside = valid.tail_inside;
      } in
      let more =
        can_read-head buf buf' valid v count room refl refl
          (advance_lem buf valid buf.head count valid.head_inside p) in
      (
        ap (window buf.data_items buf.alloc_size buf.tail) more
            ∙ window_split buf.data_items buf.alloc_size buf.tail (can_read buf) count
            ∙ ap (λ t. window buf.data_items buf.alloc_size buf.tail (can_read buf) ++ t)
                (sym (window_mod buf.data_items buf.alloc_size (buf.tail + can_read buf) count)
                  ∙ sym (
                      ap (λ t. window buf.data_items buf.alloc_size t count) (head_lem buf valid))),
        v,
      )

  end_write-Inv : (s : Threads A) → Inv s → Inv (end_write s s.writer)
  unfolding end_write
  end_write-Inv s h = finish s.writer h.writer_ok
    where
      finish : (w : Writer A) → WriterOk s.buf w → Inv (end_write s w)
      finish writer_idle k = h
      finish (writer_loaded count from) k = h
      finish (writer_copied count from) (k, e) =
          let buf' = record s.buf { head = advance s.buf s.buf.head count } in
          let (moved, v) = head_moved s.buf count h.valid k in
          let more : items buf' ≡ items s.buf ++ slice from 0 count =
            moved ∙ ap (λ t. items s.buf ++ t) e in
          record {
            valid = v;
            reader_ok = reader_more s.buf buf' (slice from 0 count) s.reader more h.reader_ok;
            writer_ok = refl;
            fifo =
                ap (λ t. t ++ slice from 0 count) h.fifo
                ∙ append_assoc s.taken (items s.buf) (slice from 0 count)
                ∙ sym (ap (λ t. s.taken ++ t) more);
          }

  pub step-Inv : (s : Threads A) (a : Action A) → Inv s → Inv (step s a)
  unfolding step
  step-Inv s (load_head n) h = record {
    valid = h.valid;
    reader_ok = start_read-Ok n s.buf s.reader h.reader_ok;
    writer_ok = h.writer_ok;
    fifo = h.fifo;
  }
  step-Inv s (copy_samples to) h = record {
    valid = h.valid;
    reader_ok = copy_read-Ok to s.buf s.reader h.valid h.reader_ok;
    writer_ok = h.writer_ok;
    fifo = h.fifo;
  }
  step-Inv s store_tail h = end_read-Inv s h
  step-Inv s (load_tail from n) h = record {
    valid = h.valid;
    reader_ok = h.reader_ok;
    writer_ok = start_write-Ok from n s.buf s.writer h.valid h.writer_ok;
    fifo = h.fifo;
  }
  step-Inv s copy_given h = copy_write-Inv s h
  step-Inv s store_head h = end_write-Inv s h
