-- ===== src/AudioBuf/Queue.antt =====
-- The operations of audiobuf.c on the queue of samples.
use cicy_agent_adr.Prelude.{
  ℕ, zero, suc, ◌+◌, ◌-◌, ◌^◌, ◌≤◌, ◌<◌, ◌≡◌, inl, inr, refl, sym, ap, ◌∙◌, subst, Bool, true,
  false, Bool-cases, Option, none, some, List, [], ◌∷◌, ◌++◌, length, length-replicate, replicate,
  arith, min, ltb, ◌==◌, ◌||◌, if◌then◌else◌,
}
use cicy_agent_adr.Prelude.Memory.{
  Memory, memcpy, memset, slice, slice_split, slice_cong, length-slice,
}
use cicy_agent_adr.Prelude.Window.{window, window_split, window_mod, window_cong, length-window}
use cicy_agent_adr.AudioBuf.{
  AudioBuf, audiobuf_init, add32, can_read, can_write, at_most, advance, publish, right_count,
  copy_out, copy_in, silence_in, read_some, read, init_done, write, write_silence,
}
use cicy_agent_adr.AudioBuf.Copy.{memset-memcpy}
use cicy_agent_adr.AudioBuf.Cursors.{
  IsValid, can_read_cases, can_write_lem, can_read_bound, can_read-tail, advance_lem,
  advance_inside,
}
use cicy_agent_adr.AudioBuf.Refine.{
  items, capacity, Taken, Added, at_most_lem, length-items, rest_copied, copy_out_lem, added,
  guarded, nil_of_length,
}
use mathlib.Core.Option.{map}

module _ {A : Type 0} where
  pub slice_joined :
      (m : Memory A) (n k total : ℕ) → n + k ≡ total → slice m 0 n ++ slice m n k ≡ slice m 0 total
  slice_joined m n k total e =
      ap (λ t. slice m 0 n ++ t) (slice_cong m n (0 + n) k k (omega arith) refl)
      ∙ sym (slice_split m 0 n k)
      ∙ slice_cong m 0 0 (n + k) total refl e

  -- On a valid ring, writing puts samples behind the others: as many as were given, or as the
  -- ring had room for, from the front of those given. Their number is returned, and the ring
  -- stays valid.
  pub write_lem :
      (buf : AudioBuf A) (from : Memory A) (samples_count : ℕ)
      → IsValid buf
      → Added buf samples_count
          (write buf from samples_count).0
          (write buf from samples_count).1
          (slice from 0 (min samples_count (capacity buf - length (items buf))))
  unfolding write copy_in
  write_lem buf from samples_count valid =
      let count = at_most samples_count (can_write buf) in
      let right = right_count buf buf.head count in
      let bound = at_most_lem (buf.alloc_size - buf.head) count in
      let new =
        added buf samples_count count (slice from 0 right) (slice from right (count - right)) valid
          refl (length-slice from 0 right ∙ bound)
          (omega (arith, length-slice from 0 right, length-slice from right (count - right), bound))
          (write buf from samples_count)
          (ap (λ m. guarded buf count (publish buf count m))
            (rest_copied (memcpy buf.data_items buf.head (slice from 0 right)) from 0 right right
              count)) in
      subst
        (Added buf samples_count (write buf from samples_count).0 (write buf from samples_count).1)
        (slice_joined from right (count - right)
          (min samples_count (capacity buf - length (items buf)))
          (omega (
            arith,
            bound,
            at_most_lem samples_count (can_write buf),
            length-items buf,
            can_write_lem buf valid,
          )))
        new

  replicate-replicate : (n k : ℕ) (v : A) → replicate n v ++ replicate k v ≡ replicate (n + k) v
  replicate-replicate zero k v = let e : k ≡ 0 + k = omega arith in ap (λ t. replicate t v) e
  replicate-replicate (suc n) k v =
      let e : suc (n + k) ≡ suc n + k = omega arith in
      ap (λ t. v ∷ t) (replicate-replicate n k v) ∙ ap (λ t. replicate t v) e

  rest_filled :
      (filled : Memory A) (v : A) (right count : ℕ)
      → (if ltb right count then memset filled 0 v (count - right) else filled)
        ≡ memcpy filled 0 (replicate (count - right) v)
  unfolding memcpy memset
  rest_filled filled v right count = elim (Bool-cases (ltb right count)) [
    | inl t ↦
        ap (λ b. if b then memset filled 0 v (count - right) else filled) t
        ∙ memset-memcpy filled 0 v (count - right)
    | inr f ↦
        let none_left : count - right ≡ 0 = ground arith in
        ap (λ b. if b then memset filled 0 v (count - right) else filled) f
        ∙ sym (ap (λ n. memcpy filled 0 (replicate n v)) none_left)
  ]

  -- On a valid ring, writing silence puts zero samples behind the others: as many as asked for,
  -- or as the ring had room for. Their number is returned, and the ring stays valid.
  pub write_silence_lem :
      (zero_sample : A) (buf : AudioBuf A) (samples_count : ℕ)
      → IsValid buf
      → Added buf samples_count
          (write_silence zero_sample buf samples_count).0
          (write_silence zero_sample buf samples_count).1
          (replicate (min samples_count (capacity buf - length (items buf))) zero_sample)
  unfolding write_silence silence_in
  write_silence_lem zero_sample buf samples_count valid =
      let count = at_most samples_count (can_write buf) in
      let right = right_count buf buf.head count in
      let bound = at_most_lem (buf.alloc_size - buf.head) count in
      let total : right + (count - right) ≡ min samples_count (capacity buf - length (items buf)) =
        omega (
          arith,
          bound,
          at_most_lem samples_count (can_write buf),
          length-items buf,
          can_write_lem buf valid,
        ) in
      let new =
        added buf samples_count count (replicate right zero_sample)
          (replicate (count - right) zero_sample) valid refl
          (length-replicate right zero_sample ∙ bound)
          (omega (
            arith,
            length-replicate right zero_sample,
            length-replicate (count - right) zero_sample,
            bound,
          ))
          (write_silence zero_sample buf samples_count)
          (ap (λ m. guarded buf count (publish buf count m))
            (rest_filled (memset buf.data_items buf.head zero_sample right) zero_sample right count
              ∙ ap (λ m. memcpy m 0 (replicate (count - right) zero_sample))
                  (memset-memcpy buf.data_items buf.head zero_sample right))) in
      subst
        (Added buf samples_count (write_silence zero_sample buf samples_count).0
          (write_silence zero_sample buf samples_count).1)
        (replicate-replicate right (count - right) zero_sample
          ∙ ap (λ t. replicate t zero_sample) total)
        new

  copied_out :
      (buf : AudioBuf A) (count : ℕ) (to : Option (Memory A))
      → buf.tail < buf.alloc_size
      → count ≤ buf.alloc_size
      → map (copy_out buf count) to
        ≡ map (λ m. memcpy m 0 (window buf.data_items buf.alloc_size buf.tail count)) to
  copied_out buf count none h p = refl
  copied_out buf count (some m) h p = ap some (copy_out_lem buf count m h p)

  nothing_copied : (to : Option (Memory A)) → to ≡ map (λ m. memcpy m 0 []) to
  unfolding memcpy
  nothing_copied none = refl
  nothing_copied (some m) = refl

  -- The samples between the old tail and the new one, and those from there.
  pub front_lem :
      (buf : AudioBuf A) (count : ℕ)
      → IsValid buf
      → count ≤ can_read buf
      → let buf' = record buf { tail = advance buf buf.tail count } in
        (items buf ≡ window buf.data_items buf.alloc_size buf.tail count ++ items buf')
        × IsValid buf'
  unfolding items
  front_lem buf count valid enough =
      let p = can_read_bound buf valid in
      let buf' = record buf { tail = advance buf buf.tail count } in
      let moved = advance_lem buf valid buf.tail count valid.tail_inside (omega (arith, p)) in
      let valid' : IsValid buf' = record {
        small = valid.small;
        head_inside = valid.head_inside;
        tail_inside = advance_inside buf valid buf.tail count valid.tail_inside (omega (arith, p));
      } in
      let left =
        can_read-tail buf buf' valid valid' count enough refl refl moved (omega (arith, p)) in
      (
        window_cong buf.data_items buf.alloc_size buf.tail buf.tail (can_read buf)
              (count + can_read buf') refl (omega (arith, left))
            ∙ window_split buf.data_items buf.alloc_size buf.tail count (can_read buf')
            ∙ ap (λ t. window buf.data_items buf.alloc_size buf.tail count ++ t)
                (sym (window_mod buf.data_items buf.alloc_size (buf.tail + count) (can_read buf'))
                  ∙ sym (ap (λ t. window buf.data_items buf.alloc_size t (can_read buf')) moved)),
        valid',
      )

  read_some_lem :
      (buf : AudioBuf A) (to : Option (Memory A)) (samples_count : ℕ)
      → IsValid buf
      → (out : List A) × Taken buf to samples_count
          (read_some buf to samples_count).0
          (read_some buf to samples_count).1
          (read_some buf to samples_count).2
          out
  unfolding read_some
  read_some_lem buf to samples_count valid = branch (can_read buf == 0) refl
    where
      count : ℕ
      count = at_most samples_count (can_read buf)

      enough : count ≤ can_read buf
      enough = omega (arith, at_most_lem samples_count (can_read buf))

      branch :
          (b : Bool)
          → (can_read buf == 0) ≡ b
          → let r : AudioBuf A × Option (Memory A) × ℕ = if b then (buf, to, 0) else (
            record buf { tail = advance buf buf.tail count },
            map (copy_out buf count) to,
            count,
          ) in
            (out : List A) × Taken buf to samples_count r.0 r.1 r.2 out
      branch true t =
          let empty : can_read buf ≡ 0 = ground arith in
          (
            [],
            record {
              front = refl;
              copied = nothing_copied to;
              returned = refl;
              bounded = omega (arith, empty, length-items buf);
              valid = valid;
              same_size = refl;
            },
          )
      branch false t =
          let (f, v) = front_lem buf count valid enough in
          let l = length-window buf.data_items buf.alloc_size buf.tail count in
          (
            window buf.data_items buf.alloc_size buf.tail count,
            record {
              front = f;
              copied =
                  copied_out buf count to valid.tail_inside
                    (omega (arith, enough, can_read_bound buf valid));
              returned = sym l;
              bounded =
                  omega (arith, l, at_most_lem samples_count (can_read buf), length-items buf);
              valid = v;
              same_size = refl;
            },
          )

  -- On a valid ring, reading at least one sample fails no assertion, and takes samples from the
  -- front: as many as asked for, or as there are, and copies them to the destination if there is
  -- one. Their number is returned, and the ring stays valid.
  pub read_lem :
      (buf : AudioBuf A) (to : Option (Memory A)) (samples_count : ℕ)
      → IsValid buf
      → 0 < samples_count
      → (buf' : AudioBuf A) × (to' : Option (Memory A)) × (count : ℕ) × (out : List A) × (read buf
            to samples_count
          ≡ some (buf', to', count))
        × Taken buf to samples_count buf' to' count out
  unfolding read
  read_lem buf to samples_count valid h =
      let some_samples : (samples_count == 0) ≡ false = ground (arith, h) in
      let (out, taken) = read_some_lem buf to samples_count valid in
      (_, _, _, out, rw some_samples, taken)

  -- For samples of at least one byte, a capacity of at least one and below 2 ^ 31, and a block of
  -- memory, no assertion fails, and the new ring is valid and empty and has that capacity.
  pub init_lem :
      (block : Memory A) (sample_size room : ℕ)
      → 0 < sample_size
      → 0 < room
      → room < 2 ^ 31
      → (buf : AudioBuf A) × (audiobuf_init (some block) sample_size room ≡ init_done buf)
        × IsValid buf
        × (items buf ≡ [])
        × (capacity buf ≡ room)
  unfolding audiobuf_init
  init_lem block sample_size room p q h =
      let buf : AudioBuf A = record {
        data_items = block;
        alloc_size = room + 1;
        head = 0;
        tail = 0;
      } in
      let valid : IsValid buf = record {
        small = omega arith;
        head_inside = omega arith;
        tail_inside = omega arith;
      } in
      let sizes : (sample_size == 0 || room == 0) ≡ false = ground (arith, p, q) in
      let e : add32 room 1 ≡ room + 1 = ground arith in
      (
        buf,
        rw sizes (
            ap (λ t. init_done (record { data_items = block; alloc_size = t; head = 0; tail = 0 }))
              e),
        valid,
        nil_of_length (items buf) (omega (arith, length-items buf, can_read_cases buf valid)),
        omega arith,
      )
