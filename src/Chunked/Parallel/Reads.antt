-- ===== src/Chunked/Parallel/Reads.antt =====
-- The chunk size of the parallel reader, and what a failed stream does to a read.
use rclone_vfs.Prelude.{
  ℕ, zero, suc, ◌+◌, ◌-◌, ◌%◌, ◌≤◌, ◌<◌, ◌≡◌, refl, Bool, true, false, Option, none, some, List, [],
  ◌∷◌, ◌++◌, if◌then◌else◌, leb, ◌==◌, arith, length, replicate, pos,
}
use rclone_vfs.RwBuffer.{Rw, write_chunk, seek}
use rclone_vfs.RwBuffer
use rclone_vfs.Chunked.{ReaderError, eof}
use rclone_vfs.Chunked.Parallel.{
  Stream, Parallel, buffer_size, rounded, open_streams, stream_eof, stream_turns, stream_read,
  Closer, after_read, read_streams, read_parallel,
}

-- newParallel rounds the chunk size up to a multiple of the buffer size.
pub rounded-bounds :
    (n : ℕ)
    → (n ≤ rounded (pos n))
      × (rounded (pos n) < n + buffer_size)
      × (rounded (pos n) % buffer_size ≡ 0)
unfolding rounded
rounded-bounds n = (ground arith, ground arith, ground arith)

read_empty :
    (b : Rw) (n : ℕ) → length b.buf ≤ b.r_offset → RwBuffer.read b n ≡ (([], RwBuffer.eof), b)
unfolding RwBuffer.read
read_empty b n h = let t : leb (length b.buf) b.r_offset ≡ true = ground arith in simp t refl

not_over :
    {A : Type 0} (x : A) (y : A) (a b : Bool) (z : Option A)
    → a ≡ false
    → b ≡ false
    → z ≡ none
    → (if a then some x else if b then some y else z) ≡ none
not_over x y true b z e f g = cc
not_over x y false true z e f g = cc
not_over x y false false z e f g = g

stream_turns-starved :
    (n : ℕ) (s : Stream) (want : ℕ) (got : List ℕ)
    → 0 < want
    → s.read_bytes < s.size
    → length s.rw.buf ≤ s.rw.r_offset
    → stream_turns s want got (replicate n []) ≡ none
unfolding stream_turns stream_eof write_chunk
stream_turns-starved zero s want got some_left unread empty =
    rw (read_empty s.rw want empty, stream_turns)
      (not_over _ _ (leb s.size (s.read_bytes + 0)) (leb want 0) _ (ground arith) (ground arith)
        refl)
stream_turns-starved (suc n) s want got some_left unread empty =
    rw (read_empty s.rw want empty, stream_turns)
      (not_over _ _ (leb s.size (s.read_bytes + 0)) (leb want 0) _ (ground arith) (ground arith)
        (stream_turns-starved n _ (want - 0) _ (omega arith) (omega arith) empty))

-- A read of a stream whose goroutine appends nothing more, as after a failed Open, does not return
-- while the stream has read all that it has but not all that it should: it waits, however often it
-- is woken.
pub stream_read-starved :
    (s : Stream) (len n : ℕ)
    → 0 < len
    → s.read_bytes < s.size
    → length s.rw.buf ≤ s.rw.r_offset
    → stream_read s len (replicate n []) ≡ none
unfolding stream_read
stream_read-starved s len n some_left unread empty =
    let t : (len == 0) ≡ false = ground arith in
    simp t (stream_turns-starved n s len [] some_left unread empty)

-- What Read reports.
pub data Harmless : Option ReaderError → Type 0 where
  fine : Harmless none
  at_eof : Harmless (some eof)

-- The results of a read that is over.
unfoldable pub Reported : Option ((List ℕ × Option ReaderError) × Parallel) → Type 0
Reported none = 0 ≤ 0
Reported (some out) = Harmless out.0.1

if-Reported :
    (b : Bool) (x y : Option ((List ℕ × Option ReaderError) × Parallel))
    → Reported x
    → Reported y
    → Reported (if b then x else y)
if-Reported true x y v w = v
if-Reported false x y v w = w

-- One turn with the streams `l`, where `k` goes on after a read of the first of them.
turn-Reported :
    (cr : Parallel) (got : List ℕ) (want : ℕ) (turn : List (List ℕ)) (l : List Stream)
    → (k : List Stream
        → (List ℕ × Bool) × Stream
        → Option ((List ℕ × Option ReaderError) × Parallel))
    → ((ss : List Stream) (out : (List ℕ × Bool) × Stream) → Reported (k ss out))
    → Reported (elim l [
      | [] ↦ some ((got, some eof), cr)
      | s ∷ ss ↦ elim (stream_read s want turn) [ none ↦ none | some out ↦ k ss out ]
    ])
unfolding Reported
turn-Reported cr got want turn [] k h = at_eof
turn-Reported cr got want turn (s ∷ ss) k h = over (stream_read s want turn)
  where
    over :
        (o : Option ((List ℕ × Bool) × Stream))
        → Reported (elim o [ none ↦ none | some out ↦ k ss out ])
    over none = omega arith
    over (some out) = h ss out

read_streams-Reported :
    (closes : Closer) (cr : Parallel) (want : ℕ) (got : List ℕ) (turns : List (List (List ℕ)))
    → Reported (read_streams closes cr want got turns)
unfolding read_streams Reported
read_streams-Reported closes cr want got [] = if-Reported (want == 0) _ _ fine (omega arith)
read_streams-Reported closes cr want got (turn ∷ turns) = if-Reported (want == 0) _ _ fine (
    turn-Reported (open_streams cr) got want turn (open_streams cr).streams
      (λ ss out.
        let next = after_read closes (open_streams cr) ss out in
        if next.0.1
        then some ((got ++ next.0.0, none), next.1)
        else read_streams closes next.1 (want - length next.0.0) (got ++ next.0.0) turns)
      (λ ss out.
        let next = after_read closes (open_streams cr) ss out in
        if-Reported next.0.1 _ _ fine (read_streams-Reported closes next.1 _ _ turns)))

-- A Read of an open reader that returns reports no error or io.EOF: it drops the error with which a
-- stream ends, whatever it is.
pub read_parallel-Reported :
    (closes : Closer) (cr : Parallel) (len : ℕ) (turns : List (List (List ℕ)))
    → cr.closed ≡ false
    → Reported (read_parallel closes cr len turns)
unfolding read_parallel
read_parallel-Reported closes cr len turns running =
    simp running (read_streams-Reported closes cr len [] turns)
