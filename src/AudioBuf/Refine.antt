-- ===== src/AudioBuf/Refine.antt =====
-- audiobuf.c is a bounded queue of samples.
use cicy_agent_adr.Prelude.{
  ℕ, ◌+◌, ◌-◌, ◌≤◌, ◌<◌, ◌≡◌, ◌≢◌, ◌∷◌, ◌⊎◌, inl, inr, refl, sym, ap, ◌∙◌, subst, Bool, true, false,
  Bool-cases, Option, List, [], ◌++◌, append-nil, length, length-append, arith, min, ltb, ◌==◌,
  if◌then◌else◌,
}
use cicy_agent_adr.Prelude.Memory.{Memory, memcpy, slice, slice_cong, length-slice, memcpy-memcpy}
use cicy_agent_adr.Prelude.Window.{window, window-eq-slice, window_round, length-window}
use cicy_agent_adr.AudioBuf.{AudioBuf, can_read, can_write, at_most, publish, right_count, copy_out}
use cicy_agent_adr.AudioBuf.Copy.{window-pieces}
use cicy_agent_adr.AudioBuf.Cursors.{
  IsValid, can_write_lem, head_lem, can_read-head, advance_lem, advance_inside,
}
use mathlib.Core.Option.{map}
use native.Mathlib.Decide.{dec_lt}

pub at_most_lem : (a b : ℕ) → at_most a b ≡ min a b
at_most_lem a b = ground arith

module _ {ℓ} {A : Type ℓ} where
  -- The samples in the ring, the oldest first.
  unfoldable pub items : AudioBuf A → List A
  unfolding window can_read
  items buf = window buf.data_items buf.alloc_size buf.tail (can_read buf)

  -- How many samples the ring holds at most.
  abbrev pub capacity : AudioBuf A → ℕ
  capacity buf = buf.alloc_size - 1

  -- `out` was taken from the front, as many samples as asked for or as there were, and copied to
  -- the destination if there is one.
  pub record Taken (buf : AudioBuf A) (to : Option (Memory A)) (samples_count : ℕ)
      (buf' : AudioBuf A) (to' : Option (Memory A)) (count : ℕ) (out : List A) : Type ℓ where
    pub front : items buf ≡ out ++ items buf'
    pub copied : to' ≡ map (λ m. memcpy m 0 out) to
    pub returned : count ≡ length out
    pub bounded : length out ≡ min samples_count (length (items buf))
    pub valid : IsValid buf'
    pub same_size : buf'.alloc_size ≡ buf.alloc_size

  -- `new` was put behind the others, as many samples as there were or as there was room for.
  pub record Added (buf : AudioBuf A) (samples_count : ℕ) (buf' : AudioBuf A) (count : ℕ)
      (new : List A) : Type ℓ where
    pub behind : items buf' ≡ items buf ++ new
    pub returned : count ≡ length new
    pub bounded : length new ≡ min samples_count (capacity buf - length (items buf))
    pub valid : IsValid buf'
    pub same_size : buf'.alloc_size ≡ buf.alloc_size

  pub length-items : (buf : AudioBuf A) → length (items buf) ≡ can_read buf
  unfolding items
  length-items buf = length-window buf.data_items buf.alloc_size buf.tail (can_read buf)

  -- The second piece may be copied without a test: it is empty otherwise.
  pub rest_copied :
      (copied from : Memory A) (k i right count : ℕ)
      → (if ltb right count then memcpy copied k (slice from i (count - right)) else copied)
        ≡ memcpy copied k (slice from i (count - right))
  unfolding memcpy slice
  rest_copied copied from k i right count = elim (Bool-cases (ltb right count)) [
    | inl t ↦ rw t
    | inr f ↦
        let none_left : count - right ≡ 0 = ground arith in
        ap (λ b. if b then memcpy copied k (slice from i (count - right)) else copied) f
        ∙ sym (ap (λ n. memcpy copied k (slice from i n)) none_left)
  ]

  -- A window is the slice up to the end of the array and one from its start.
  window-two_slices :
      (m : Memory A) (size i right count : ℕ)
      → i < size
      → count ≤ size
      → right ≡ min (size - i) count
      → window m size i count ≡ slice m i right ++ slice m 0 (count - right)
  unfolding slice
  window-two_slices m size i right count h p r = elim (dec_lt (size - i) count) [
    | yes q ↦
        let first : size - i ≡ right = omega arith in
        window_round m size i count h p (omega arith)
        ∙ ap (λ n. slice m i n ++ slice m 0 (count - n)) first
    | no q ↦
        let second : 0 ≡ count - right = omega arith in
        window-eq-slice m size i count (omega arith)
        ∙ slice_cong m i i count right refl (omega arith)
        ∙ sym (append-nil (slice m i right))
        ∙ ap (λ n. slice m i right ++ slice m 0 n) second
  ]

  -- The two copies of a read are one of the window.
  pub copy_out_lem :
      (buf : AudioBuf A) (count : ℕ) (to : Memory A)
      → buf.tail < buf.alloc_size
      → count ≤ buf.alloc_size
      → copy_out buf count to ≡ memcpy to 0 (window buf.data_items buf.alloc_size buf.tail count)
  unfolding copy_out
  copy_out_lem buf count to h p =
      let right = right_count buf buf.tail count in
      rest_copied (memcpy to 0 (slice buf.data_items buf.tail right)) buf.data_items right 0 right
        count
      ∙ memcpy-memcpy to 0 right (slice buf.data_items buf.tail right)
          (slice buf.data_items 0 (count - right))
          (omega (arith, length-slice buf.data_items buf.tail right))
      ∙ sym (
          ap (memcpy to 0) (
            window-two_slices buf.data_items buf.alloc_size buf.tail right count h p
              (at_most_lem (buf.alloc_size - buf.tail) count)))

  -- A copy in two pieces behind the samples adds them.
  pub pieces_added :
      (buf : AudioBuf A) (count : ℕ) (xs ys : List A)
      → IsValid buf
      → count + can_read buf < buf.alloc_size
      → length xs ≡ min (buf.alloc_size - buf.head) count
      → length xs + length ys ≡ count
      → (items (publish buf count (memcpy (memcpy buf.data_items buf.head xs) 0 ys))
          ≡ items buf ++ (xs ++ ys))
        × IsValid (publish buf count (memcpy (memcpy buf.data_items buf.head xs) 0 ys))
  unfolding items
  pieces_added buf count xs ys valid room l e =
      let p : count ≤ buf.alloc_size = omega arith in
      let buf' = publish buf count (memcpy (memcpy buf.data_items buf.head xs) 0 ys) in
      let valid' : IsValid buf' = record {
        small = valid.small;
        head_inside = advance_inside buf valid buf.head count valid.head_inside p;
        tail_inside = valid.tail_inside;
      } in
      let more : can_read buf' ≡ can_read buf + length xs + length ys =
        can_read-head buf buf' valid valid' count room refl refl
          (advance_lem buf valid buf.head count valid.head_inside p)
        ∙ omega arith in
      (
        ap (window buf'.data_items buf.alloc_size buf.tail) more
            ∙ window-pieces buf.data_items buf.alloc_size buf.tail (can_read buf) buf.head xs ys
                valid.tail_inside (omega arith) (head_lem buf valid)
                (omega (arith, valid.head_inside))
                (around (dec_lt (buf.alloc_size - buf.head) count)),
        valid',
      )
    where
      around :
          Dec (buf.alloc_size - buf.head < count)
          → (length ys ≡ 0) ⊎ (buf.head + length xs ≡ buf.alloc_size)
      around (yes q) = inr (omega (arith, valid.head_inside))
      around (no q) = inl (omega arith)

  pub nil_of_length : (xs : List A) → length xs ≡ 0 → xs ≡ []
  nil_of_length [] e = refl
  nil_of_length (x ∷ xs) e = absurd (omega arith)

  -- The general form of a write: nothing is done when the ring is full.
  abbrev pub guarded : AudioBuf A → ℕ → AudioBuf A → AudioBuf A × ℕ
  guarded buf count buf' = if can_write buf == 0 then (buf, 0) else (buf', count)

  pub added :
      (buf : AudioBuf A) (samples_count count : ℕ) (xs ys : List A)
      → IsValid buf
      → count ≡ at_most samples_count (can_write buf)
      → length xs ≡ min (buf.alloc_size - buf.head) count
      → length xs + length ys ≡ count
      → (r : AudioBuf A × ℕ)
      → r ≡ guarded buf count (publish buf count (memcpy (memcpy buf.data_items buf.head xs) 0 ys))
      → Added buf samples_count r.0 r.1 (xs ++ ys)
  added buf samples_count count xs ys valid c l e r same =
      subst (λ r. Added buf samples_count r.0 r.1 (xs ++ ys)) (sym same)
        (branch (can_write buf == 0) refl)
    where
      buf' : AudioBuf A
      buf' = publish buf count (memcpy (memcpy buf.data_items buf.head xs) 0 ys)

      whole : length (xs ++ ys) ≡ count
      whole = length-append xs ys ∙ e

      size_lem : length (xs ++ ys) ≡ min samples_count (capacity buf - length (items buf))
      size_lem = omega (
        arith,
        whole,
        c,
        at_most_lem samples_count (can_write buf),
        length-items buf,
        can_write_lem buf valid,
      )

      branch :
          (b : Bool)
          → (can_write buf == 0) ≡ b
          → let r : AudioBuf A × ℕ = if b then (buf, 0) else (buf', count) in
            Added buf samples_count r.0 r.1 (xs ++ ys)
      branch true t =
          let full : can_write buf ≡ 0 = ground arith in
          let nothing : length (xs ++ ys) ≡ 0 =
            omega (arith, whole, c, full, at_most_lem samples_count (can_write buf)) in
          record {
            behind =
                sym (append-nil (items buf))
                ∙ sym (ap (λ t. items buf ++ t) (nil_of_length (xs ++ ys) nothing));
            returned = sym nothing;
            bounded = size_lem;
            valid = valid;
            same_size = refl;
          }
      branch false t =
          let room : can_write buf ≢ 0 = ground arith in
          let (b, v) =
            pieces_added buf count xs ys valid
              (omega (
                arith,
                c,
                room,
                at_most_lem samples_count (can_write buf),
                can_write_lem buf valid,
              ))
              l e in
          record {
            behind = b;
            returned = sym whole;
            bounded = size_lem;
            valid = v;
            same_size = refl;
          }
