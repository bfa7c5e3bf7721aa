-- ===== src/AudioBuf/Tests.antt =====
-- A ring of three samples, going round.
use cicy_agent_adr.Prelude.{
  ℕ, ◌-◌, ◌≡◌, refl, Option, some, List, [], ◌∷◌, arith, min, length, replicate,
}
use cicy_agent_adr.Prelude.Memory.{Memory, slice, of_list}
use cicy_agent_adr.AudioBuf.{AudioBuf, audiobuf_init, init_done, read, write, write_silence}
use cicy_agent_adr.AudioBuf.Cursors.{IsValid}
use cicy_agent_adr.AudioBuf.Threads.{
  Action, load_head, copy_samples, store_tail, load_tail, copy_given, store_head, run, started,
}
use cicy_agent_adr.AudioBuf.Threads.Runs.{InOrder, threads_lem}
use cicy_agent_adr.AudioBuf.Refine.{items, capacity, Taken, Added}
use cicy_agent_adr.AudioBuf.Queue.{write_lem, write_silence_lem, read_lem, init_lem}

-- Samples 7 and 8 stand at the end and at the start of the array.
abbrev round : AudioBuf ℕ
round = record { data_items = of_list (8 ∷ 0 ∷ 0 ∷ 7 ∷ []); alloc_size = 4; head = 1; tail = 3 }

round-IsValid : IsValid round
round-IsValid = record { small = omega arith; head_inside = omega arith; tail_inside = omega arith }

round_items : items round ≡ 7 ∷ 8 ∷ []
unfolding items
round_items = refl

abbrev given : Memory ℕ
given = of_list (1 ∷ 2 ∷ 3 ∷ [])

-- There is room for one.
room_for_one : (write round given 3).1 ≡ 1
unfolding write
room_for_one = refl

write_lem_example :
    Added round 3
      (write round given 3).0
      (write round given 3).1
      (slice given 0 (min 3 (capacity round - length (items round))))
write_lem_example = write_lem round given 3 round-IsValid

write_silence_lem_example :
    Added round 3
      (write_silence 0 round 3).0
      (write_silence 0 round 3).1
      (replicate (min 3 (capacity round - length (items round))) 0)
write_silence_lem_example = write_silence_lem 0 round 3 round-IsValid

read_lem_example :
    (buf' : AudioBuf ℕ) × (to' : Option (Memory ℕ)) × (count : ℕ) × (out : List ℕ) × (read round
        (some given)
        2
      ≡ some (buf', to', count))
    × Taken round (some given) 2 buf' to' count out
read_lem_example = read_lem round (some given) 2 round-IsValid (omega arith)

init_lem_example :
    (buf : AudioBuf ℕ) × (audiobuf_init (some given) 4 3 ≡ init_done buf)
    × IsValid buf
    × (items buf ≡ [])
    × (capacity buf ≡ 3)
init_lem_example = init_lem given 4 3 (omega arith) (omega arith) (omega arith)

abbrev empty : AudioBuf ℕ
empty = record { data_items = λ j. 0; alloc_size = 4; head = 2; tail = 2 }

empty-IsValid : IsValid empty
empty-IsValid = record { small = omega arith; head_inside = omega arith; tail_inside = omega arith }

empty_items : items empty ≡ []
unfolding items
empty_items = refl

-- The writer gives a second time between the loads and the copies of a read.
abbrev interleaved : List (Action ℕ)
interleaved =
    load_tail given 2
    ∷ copy_given
    ∷ store_head
    ∷ load_head 5
    ∷ load_tail given 5
    ∷ copy_given
    ∷ copy_samples (λ j. 9)
    ∷ store_tail
    ∷ store_head
    ∷ []

interleaved_taken : (run (started empty) interleaved).taken ≡ 1 ∷ 2 ∷ []
unfolding run
interleaved_taken = refl

interleaved_given : (run (started empty) interleaved).given ≡ 1 ∷ 2 ∷ 1 ∷ []
unfolding run
interleaved_given = refl

threads_lem_example : InOrder (run (started empty) interleaved)
threads_lem_example = threads_lem empty interleaved empty-IsValid empty_items
