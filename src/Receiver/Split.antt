-- ===== src/Receiver/Split.antt =====
-- `process_msgs` takes the complete messages off the front of its buffer.
use cicy_agent_adr.Prelude.{
  ℕ, zero, suc, ◌+◌, ◌-◌, ◌≤◌, ◌<◌, ◌≡◌, refl, sym, ap, ◌∙◌, true, some, List, [], ◌∷◌, ◌++◌,
  length, take, map, drop, arith, length-append, append_assoc,
}
use cicy_agent_adr.Prelude.Memory.{Buffer, offset, slice, slice_cong, slice_split, length-slice}
use cicy_agent_adr.DeviceMsg.{
  DeviceMsg, Alloc, deserialize, incomplete, message, max_size, clipboard, ack_clipboard,
  uhid_output,
}
use cicy_agent_adr.DeviceMsg.Fields.{Holds, take-length-append}
use cicy_agent_adr.DeviceMsg.Stream.{wire, IsFramed, Succeeds, deserialize_whole, deserialize_part}
use cicy_agent_adr.Receiver.{
  Peers, Effect, Processed, process_msg, process_msgs, consumed, posted, post_clipboard, ack,
  uhid_effect,
}
use native.Mathlib.Decide.{dec_le, ℕ_discrete}

-- The bytes of a sequence of messages.
abbrev pub wires : List DeviceMsg → List ℕ
wires [] = []
wires (m ∷ ms) = wire m ++ wires ms

abbrev pub AllFramed : List DeviceMsg → Type 0
AllFramed [] = Unit {0}
AllFramed (m ∷ ms) = IsFramed m × AllFramed ms

pub wire_pos : (m : DeviceMsg) → IsFramed m → (0 < length (wire m)) × (length (wire m) ≤ max_size)
wire_pos (clipboard text) h = omega arith
wire_pos (ack_clipboard sequence) h = omega arith
wire_pos (uhid_output id payload) h = absurd h

-- Less than one message: what may be left in the buffer.
abbrev pub IsPart : ℕ → List DeviceMsg → Type 0
IsPart n [] = n ≡ 0
IsPart n (m ∷ ms) = n < length (wire m)

drop-length-append : (xs ys : List ℕ) → drop (length xs) (xs ++ ys) ≡ ys
drop-length-append [] ys = refl
drop-length-append (x ∷ xs) ys = drop-length-append xs ys

append_cancel : (xs ys us vs : List ℕ) → length xs ≡ length us → xs ++ ys ≡ us ++ vs → ys ≡ vs
append_cancel xs ys us vs l e =
    sym (drop-length-append xs ys)
    ∙ ap (drop (length xs)) e
    ∙ ap (λ k. drop k (us ++ vs)) l
    ∙ drop-length-append us vs

slice-offset : (buf : Buffer) (head i n : ℕ) → slice (offset buf head) i n ≡ slice buf (head + i) n
unfolding slice
slice-offset buf head i zero = refl
slice-offset buf head i (suc n) =
    ap (λ t. buf (head + i) ∷ t)
      (slice-offset buf head (i + 1) n
        ∙ slice_cong buf (head + (i + 1)) (head + i + 1) n n (omega arith) refl)

-- A buffer whose bytes from `head` on, with those still to come, are `xs`.
slice-Holds :
    (buf : Buffer) (head n : ℕ) (more xs : List ℕ)
    → slice buf head n ++ more ≡ xs
    → Holds (offset buf head) n xs
slice-Holds buf head n more xs e = record {
  fits = omega (arith, ap length e, length-append (slice buf head n) more, length-slice buf head n);
  bytes =
      slice-offset buf head 0 n
      ∙ slice_cong buf (head + 0) head n n (omega arith) refl
      ∙ sym (take-length-append (slice buf head n) more)
      ∙ ap (λ k. take k (slice buf head n ++ more)) (length-slice buf head n)
      ∙ ap (take n) e;
}

-- What is left once the first message is taken off.
left_after :
    (buf : Buffer) (head n : ℕ) (more w ws : List ℕ)
    → slice buf head n ++ more ≡ w ++ ws
    → length w ≤ n
    → slice buf (head + length w) (n - length w) ++ more ≡ ws
left_after buf head n more w ws e h =
    append_cancel (slice buf head (length w)) (slice buf (head + length w) (n - length w) ++ more) w
      ws (length-slice buf head (length w))
      (sym (
          append_assoc (slice buf head (length w)) (slice buf (head + length w) (n - length w))
            more)
        ∙ ap (λ t. t ++ more)
            (sym (slice_split buf head (length w) (n - length w))
              ∙ slice_cong buf head head (length w + (n - length w)) n refl (omega arith))
        ∙ e)

-- What becomes of a message: a text is posted to the main thread, an acknowledgement is passed to
-- the synchronization with its sequence.
abbrev pub handled : Peers → DeviceMsg → Effect
handled peers (clipboard text) = posted peers (post_clipboard text)
handled peers (ack_clipboard sequence) = ack sequence
handled peers (uhid_output id payload) = uhid_effect peers id payload

-- The messages as those that were handed on, and those that are still to come: their bytes are
-- the rest of the buffer from `n` on and those not yet received, and the rest is no whole message.
pub record Handed (peers : Peers) (msgs : List DeviceMsg) (buf : Buffer) (len : ℕ) (more : List ℕ)
    (out : List Effect × Processed) : Type 0 where
  pub done : List DeviceMsg
  pub pending : List DeviceMsg
  pub n : ℕ
  pub parts : msgs ≡ done ++ pending
  pub result : out ≡ (map (handled peers) done, consumed n)
  pub inside : n ≤ len
  pub left : slice buf n (len - n) ++ more ≡ wires pending
  pub short : IsPart (len - n) pending

pub zero-IsPart : (msgs : List DeviceMsg) → AllFramed msgs → IsPart 0 msgs
zero-IsPart [] f = refl
zero-IsPart (m ∷ ms) f = (wire_pos m f.0).0

deserialize_none : (alloc : Alloc) (buf : Buffer) → deserialize alloc buf 0 ≡ incomplete
unfolding deserialize
deserialize_none alloc buf = refl

module _ (peers : Peers) (ok : Succeeds peers.alloc) (synced : peers.acksync ≡ true) where
  process_msg_lem : (m : DeviceMsg) → process_msg peers m ≡ some (handled peers m)
  unfolding process_msg
  process_msg_lem (clipboard text) = refl
  process_msg_lem (ack_clipboard sequence) = rw synced
  process_msg_lem (uhid_output id payload) = refl

  -- The buffer holds no whole message.
  none_whole :
      (fuel : ℕ) (msgs : List DeviceMsg) (buf : Buffer) (head len : ℕ) (more : List ℕ)
      → head ≤ len
      → slice buf head (len - head) ++ more ≡ wires msgs
      → IsPart (len - head) msgs
      → deserialize peers.alloc (offset buf head) (len - head) ≡ incomplete
      → Handed peers msgs buf len more (process_msgs peers (suc fuel) buf head len)
  unfolding process_msgs
  none_whole fuel msgs buf head len more h e p d = record {
    done = [];
    pending = msgs;
    n = head;
    parts = refl;
    result = rw (d, process_msgs);
    inside = h;
    left = e;
    short = p;
  }

  -- The first message ends the buffer.
  last_whole :
      (fuel : ℕ) (m : DeviceMsg) (ms : List DeviceMsg) (buf : Buffer) (head len : ℕ) (more : List ℕ)
      → AllFramed ms
      → head + length (wire m) ≡ len
      → slice buf head (len - head) ++ more ≡ wire m ++ wires ms
      → deserialize peers.alloc (offset buf head) (len - head) ≡ message m (length (wire m))
      → Handed peers (m ∷ ms) buf len more (process_msgs peers (suc fuel) buf head len)
  unfolding process_msgs
  last_whole fuel m ms buf head len more f h e d = record {
    done = m ∷ [];
    pending = ms;
    n = len;
    parts = refl;
    result = rw (d, process_msgs, process_msg_lem m) (ground (arith, h));
    inside = omega arith;
    left =
        ap (λ t. t ++ more)
          (slice_cong buf len (head + length (wire m)) (len - len) (len - head - length (wire m))
            (omega arith) (omega arith))
        ∙ left_after buf head (len - head) more (wire m) (wires ms) e (omega arith);
    short = let z : len - len ≡ 0 = omega arith in rw z (zero-IsPart ms f);
  }

  -- More bytes follow the first message.
  next_whole :
      (fuel : ℕ) (m : DeviceMsg) (ms : List DeviceMsg) (buf : Buffer) (head len : ℕ) (more : List ℕ)
      → head + length (wire m) < len
      → deserialize peers.alloc (offset buf head) (len - head) ≡ message m (length (wire m))
      → Handed peers ms buf len more (process_msgs peers fuel buf (head + length (wire m)) len)
      → Handed peers (m ∷ ms) buf len more (process_msgs peers (suc fuel) buf head len)
  unfolding process_msgs
  next_whole fuel m ms buf head len more h d r = record {
    done = m ∷ r.done;
    pending = r.pending;
    n = r.n;
    parts = ap (λ t. m ∷ t) r.parts;
    result = rw (d, process_msgs, process_msg_lem m) (ground (arith, r.result));
    inside = r.inside;
    left = r.left;
    short = r.short;
  }

  pub process_msgs-Handed :
      (fuel : ℕ) (msgs : List DeviceMsg) (buf : Buffer) (head len : ℕ) (more : List ℕ)
      → AllFramed msgs
      → head ≤ len
      → len - head < fuel
      → slice buf head (len - head) ++ more ≡ wires msgs
      → Handed peers msgs buf len more (process_msgs peers fuel buf head len)
  process_msgs-Handed zero msgs buf head len more f h k e = absurd (omega arith)
  process_msgs-Handed (suc fuel) [] buf head len more f h k e =
      let z : len - head ≡ 0 = omega (
        arith,
        ap length e,
        length-append (slice buf head (len - head)) more,
        length-slice buf head (len - head),
      ) in
      none_whole fuel [] buf head len more h e z (
        ap (deserialize peers.alloc (offset buf head)) z
        ∙ deserialize_none peers.alloc (offset buf head))
  process_msgs-Handed (suc fuel) (m ∷ ms) buf head len more f h k e =
      let holds = slice-Holds buf head (len - head) more (wire m ++ wires ms) e in
      elim (dec_le (length (wire m)) (len - head)) [
        | no p ↦ none_whole fuel (m ∷ ms) buf head len more h e (omega arith) (
            deserialize_part peers.alloc m (wires ms) (offset buf head) (len - head) f.0 holds
              (omega arith))
        | yes p ↦
            let d =
              deserialize_whole peers.alloc ok m (wires ms) (offset buf head) (len - head) f.0 holds
                p in
            elim (ℕ_discrete (head + length (wire m)) len) [
              | yes q ↦ last_whole fuel m ms buf head len more f.1 q e d
              | no q ↦ next_whole fuel m ms buf head len more (omega arith) d (
                  process_msgs-Handed fuel ms buf (head + length (wire m)) len more f.1
                    (omega arith) (omega (arith, (wire_pos m f.0).0))
                    (ap (λ t. t ++ more)
                        (slice_cong buf (head + length (wire m)) (head + length (wire m))
                          (len - (head + length (wire m))) (len - head - length (wire m)) refl
                          (omega arith))
                      ∙ left_after buf head (len - head) more (wire m) (wires ms) e p))
            ]
      ]
