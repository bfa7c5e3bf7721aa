-- ===== src/AudioBuf/Threads/Runs.antt =====
-- Every interleaving of the reader and the writer of audiobuf.c.
use cicy_agent_adr.Prelude.{◌≤◌, ◌≡◌, refl, sym, List, [], ◌∷◌, ◌++◌, length, arith}
use cicy_agent_adr.AudioBuf.{AudioBuf}
use cicy_agent_adr.AudioBuf.Cursors.{IsValid, can_read_bound}
use cicy_agent_adr.AudioBuf.Refine.{items, capacity, length-items}
use cicy_agent_adr.AudioBuf.Threads.{Threads, Action, step, run, started}
use cicy_agent_adr.AudioBuf.Threads.Fifo.{Inv}
use cicy_agent_adr.AudioBuf.Threads.Steps.{step-Inv}

module _ {A : Type 0} where
  -- What the writer gave is what the reader took, in order, and then what the ring holds, which is
  -- never more than its capacity.
  pub record InOrder (s : Threads A) : Type 0 where
    pub fifo : s.given ≡ s.taken ++ items s.buf
    pub fits : length (items s.buf) ≤ capacity s.buf
    pub valid : IsValid s.buf

  run-Inv : (s : Threads A) (actions : List (Action A)) → Inv s → Inv (run s actions)
  unfolding run
  run-Inv s [] h = h
  run-Inv s (a ∷ actions) h = run-Inv (step s a) actions (step-Inv s a h)

  -- From an empty valid ring on, however the loads, copies and stores of the reader and the
  -- writer are interleaved: what the finished writes gave is what the finished reads took, in
  -- order, and then what the ring holds, which is within its capacity; the ring stays valid.
  pub threads_lem :
      (buf : AudioBuf A) (actions : List (Action A))
      → IsValid buf
      → items buf ≡ []
      → InOrder (run (started buf) actions)
  threads_lem buf actions v e =
      let s = run (started buf) actions in
      let h =
        run-Inv (started buf) actions
          (record { valid = v; reader_ok = refl; writer_ok = refl; fifo = sym e }) in
      record {
        fifo = h.fifo;
        fits = omega (arith, length-items s.buf, can_read_bound s.buf h.valid);
        valid = h.valid;
      }
