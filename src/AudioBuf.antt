-- ===== src/AudioBuf.antt =====
-- The audio ring of scrcpy/app/src/util/audiobuf.c, filled by one thread and emptied by another.
-- A sample is one item: the source multiplies every index and count by the size of a sample.
-- A failed assertion that a size or a count is not 0 is `none`, or a call that never returns.
pub mod Copy
pub mod Cursors
pub mod Refine
pub mod Queue
pub mod Threads
mod Tests
use cicy_agent_adr.Prelude.{
  ℕ, ◌+◌, ◌-◌, ◌%◌, ◌^◌, ◌==◌, ◌||◌, Bool, Option, none, some, ltb, if◌then◌else◌,
}
use cicy_agent_adr.Prelude.Memory.{Memory, memcpy, memset, slice}
use mathlib.Core.Option.{map}

-- `struct sc_audiobuf`; the two cursors are the atomic variables.
pub record AudioBuf {ℓ} (A : Type ℓ) : Type ℓ where
  pub data_items : Memory A
  pub alloc_size : ℕ
  pub head : ℕ
  pub tail : ℕ

-- How `sc_audiobuf_init` ends: with a ring, with `false`, or with a failed assertion.
pub data Init {ℓ} (A : Type ℓ) : Type ℓ where
  init_done : AudioBuf A → Init A
  init_failed init_asserted : Init A

-- A `uint32_t` difference.
abbrev pub sub32 : ℕ → ℕ → ℕ
sub32 a b = (a + 2 ^ 32 - b) % 2 ^ 32

abbrev pub add32 : ℕ → ℕ → ℕ
add32 a b = (a + b) % 2 ^ 32

-- `if (a > b) a = b`
abbrev pub at_most : ℕ → ℕ → ℕ
at_most a b = if ltb b a then b else a

module _ {ℓ} {A : Type ℓ} where
  -- `sc_audiobuf_init`: the block that the allocator gives, if any.
  unfoldable pub audiobuf_init : Option (Memory A) → (sample_size capacity : ℕ) → Init A
  audiobuf_init block sample_size capacity =
      if sample_size == 0 || capacity == 0 then init_asserted else elim block [
        | none ↦ init_failed
        | some data_items ↦
            init_done (record {
              data_items = data_items;
              alloc_size = add32 capacity 1;
              head = 0;
              tail = 0;
            })
      ]

  -- `(buf->alloc_size + head - tail) % buf->alloc_size`
  unfoldable pub can_read : AudioBuf A → ℕ
  can_read buf = sub32 (add32 buf.alloc_size buf.head) buf.tail % buf.alloc_size

  -- `(buf->alloc_size + tail - head - 1) % buf->alloc_size`
  unfoldable pub can_write : AudioBuf A → ℕ
  can_write buf = sub32 (sub32 (add32 buf.alloc_size buf.tail) buf.head) 1 % buf.alloc_size

  -- The samples that a cursor is from the end of the array, or fewer.
  abbrev pub right_count : AudioBuf A → ℕ → ℕ → ℕ
  right_count buf cursor count = at_most (buf.alloc_size - cursor) count

  -- The copies of `sc_audiobuf_read`, with `count` bounded.
  unfoldable pub copy_out : AudioBuf A → ℕ → Memory A → Memory A
  unfolding memcpy slice
  copy_out buf count to =
      let right = right_count buf buf.tail count in
      let copied = memcpy to 0 (slice buf.data_items buf.tail right) in
      if ltb right count
      then memcpy copied right (slice buf.data_items 0 (count - right))
      else copied

  -- The copies of `sc_audiobuf_write`.
  unfoldable pub copy_in : AudioBuf A → ℕ → Memory A → Memory A
  unfolding memcpy slice
  copy_in buf count from =
      let right = right_count buf buf.head count in
      let copied = memcpy buf.data_items buf.head (slice from 0 right) in
      if ltb right count then memcpy copied 0 (slice from right (count - right)) else copied

  -- The stores of `sc_audiobuf_write_silence`.
  unfoldable pub silence_in : A → AudioBuf A → ℕ → Memory A
  unfolding memset
  silence_in zero_sample buf count =
      let right = right_count buf buf.head count in
      let filled = memset buf.data_items buf.head zero_sample right in
      if ltb right count then memset filled 0 zero_sample (count - right) else filled

  -- The new cursor.
  abbrev pub advance : AudioBuf A → ℕ → ℕ → ℕ
  advance buf cursor count = add32 cursor count % buf.alloc_size

  -- `sc_audiobuf_read` behind its assertion: the ring, what `to` holds (it may be NULL), and the
  -- result.
  unfoldable pub read_some : AudioBuf A → Option (Memory A) → ℕ → AudioBuf A × Option (Memory A) × ℕ
  unfolding can_read copy_out
  read_some buf to samples_count =
      let count = at_most samples_count (can_read buf) in
      if can_read buf == 0
      then (buf, to, 0)
      else (record buf { tail = advance buf buf.tail count }, map (copy_out buf count) to, count)

  -- `sc_audiobuf_read`; `none` is the failed assertion.
  unfoldable pub read :
      AudioBuf A → Option (Memory A) → ℕ → Option (AudioBuf A × Option (Memory A) × ℕ)
  unfolding read_some
  read buf to samples_count =
      if samples_count == 0 then none else some (read_some buf to samples_count)

  -- The end of both ways to write.
  abbrev pub publish : AudioBuf A → ℕ → Memory A → AudioBuf A
  publish buf count items = record buf { data_items = items; head = advance buf buf.head count }

  -- `sc_audiobuf_write`
  unfoldable pub write : AudioBuf A → Memory A → ℕ → AudioBuf A × ℕ
  unfolding can_write copy_in
  write buf from samples_count =
      let count = at_most samples_count (can_write buf) in
      if can_write buf == 0 then (buf, 0) else (publish buf count (copy_in buf count from), count)

  -- `sc_audiobuf_write_silence`
  unfoldable pub write_silence : A → AudioBuf A → ℕ → AudioBuf A × ℕ
  unfolding can_write silence_in
  write_silence zero_sample buf samples_count =
      let count = at_most samples_count (can_write buf) in
      if can_write buf == 0
      then (buf, 0)
      else (publish buf count (silence_in zero_sample buf count), count)
