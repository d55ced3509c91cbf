-- ===== src/RwBuffer/Examples.antt =====
-- The theorems on the buffer at concrete runs.
use rclone_vfs.Prelude.{ℕ, ◌≡◌, refl, true, false, some, List, [], ◌∷◌, ◌++◌, drop}
use rclone_vfs.RwBuffer.{Rw, ok, eof, ReadError, new, must_wait, wait_write}
use rclone_vfs.RwBuffer.Flow.{Event, written, reads, closes, run, all_written, run-fifo}

abbrev events : List Event
events = written (1 ∷ 2 ∷ 3 ∷ []) ∷ reads 2 ∷ written (4 ∷ []) ∷ closes ∷ []

run-fifo_example :
    (run new events).0 ++ drop (run new events).1.r_offset (run new events).1.buf
    ≡ all_written events
run-fifo_example = run-fifo events

abbrev answers : List (List ℕ × ReadError)
answers = (1 ∷ 2 ∷ [], ok) ∷ (3 ∷ [], eof) ∷ []

abbrev filled : Rw
filled = record { buf = 1 ∷ []; r_offset = 0; closed = false }

empty_waits : must_wait new ≡ true
unfolding must_wait new
empty_waits = refl

woken : wait_write new (filled ∷ []) ≡ some filled
unfolding wait_write must_wait new
woken = refl
