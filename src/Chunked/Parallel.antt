-- ===== src/Chunked/Parallel.antt =====
-- internal/chunkedreader/parallel.go: the reader that fetches several chunks at once. The goroutine
-- of a stream is known by the bytes that it appends to the stream's buffer while a read waits, and
-- by the error that closing the stream returns. A stream's context, its name and its body are left
-- out.
pub mod Streams
pub mod Reads
use rclone_vfs.Prelude.{
  ℕ, zero, suc, ◌+◌, ◌-◌, ◌*◌, ◌/◌, Bool, true, false, not, ◌&&◌, ◌||◌, Option, none, some, List,
  [], ◌∷◌, ◌++◌, if◌then◌else◌, ltb, leb, ◌==◌, length, ℤ, pos, negsuc, ◌+ℤ◌, ◌-ℤ◌, ltb_ℤ, leb_ℤ,
  eqb_ℤ, pos_part,
}
use rclone_vfs.RwBuffer.{Rw, write_chunk, seek}
use rclone_vfs.RwBuffer
use rclone_vfs.Chunked.{
  ReaderError, eof, file_closed, invalid_seek, object_error, Whence, seek_start, seek_current,
  seek_end,
}

-- type stream
pub record Stream : Type 0 where
  pub offset : ℕ
  pub size : ℕ
  pub read_bytes : ℕ
  pub rw : Rw

-- type parallel. `o_size` is o.Size().
pub record Parallel : Type 0 where
  pub o_size : ℤ
  pub end_stream : ℕ
  pub offset : ℕ
  pub chunk_size : ℕ
  pub nstreams : ℕ
  pub streams : List Stream
  pub closed : Bool

-- rwbuffer.BufferSize
abbrev pub buffer_size : ℕ
buffer_size = 1048576

-- The chunk size of newParallel: a multiple of the buffer size.
unfoldable pub rounded : ℤ → ℕ
rounded (negsuc n) = buffer_size
rounded (pos n) =
    let down = buffer_size * (n / buffer_size) in if ltb down n then down + buffer_size else down

-- newParallel
unfoldable pub new_parallel : ℤ → ℤ → ℕ → Parallel
unfolding rounded
new_parallel o_size chunk_size streams = record {
  o_size = o_size;
  end_stream = 0;
  offset = 0;
  chunk_size = rounded chunk_size;
  nstreams = streams;
  streams = [];
  closed = false;
}

-- parallel.newStream, without the start of its goroutine.
pub new_stream : ℕ → ℕ → Stream
new_stream offset size = record { offset = offset; size = size; read_bytes = 0; rw = RwBuffer.new }

-- The loop of parallel._open, on the number of streams that are missing.
pub open_loop : ℕ → Parallel → ℕ → Parallel
unfolding new_stream
open_loop zero cr size = cr
open_loop (suc missing) cr size =
    let end' = cr.end_stream + cr.chunk_size in
    let chunk_size = if ltb size end' then size - cr.end_stream else cr.chunk_size in
    let cr' = record cr {
      streams = cr.streams ++ new_stream cr.end_stream chunk_size ∷ [];
      end_stream = cr.end_stream + chunk_size;
    } in
    let rest = open_loop missing cr' size in if leb size cr'.end_stream then cr' else rest

-- parallel._open, which reports no error, since newStream reports none.
pub open_streams : Parallel → Parallel
unfolding open_loop
open_streams cr =
    if ltb_ℤ cr.o_size (pos 0)
    then cr
    else if leb (pos_part cr.o_size) cr.end_stream
    then cr
    else open_loop (cr.nstreams - length cr.streams) cr (pos_part cr.o_size)

-- stream.eof
pub stream_eof : Stream → Bool
stream_eof s = leb s.size s.read_bytes

-- The loop of stream.read for `want` more bytes after `got`, given what the goroutine appends each
-- time that WaitWrite is called: the bytes, whether the stream is at its end, and the stream. It is
-- none while WaitWrite waits.
stream_turns : Stream → ℕ → List ℕ → List (List ℕ) → Option ((List ℕ × Bool) × Stream)
unfolding stream_eof
stream_turns s want got [] =
    let (out, rw') = RwBuffer.read s.rw want in
    let s' = record s { rw = rw'; read_bytes = s.read_bytes + length out.0 } in
    if stream_eof s'
    then some ((got ++ out.0, true), s')
    else if leb want (length out.0)
    then some ((got ++ out.0, false), s')
    else none
stream_turns s want got (appended ∷ turns) =
    let (out, rw') = RwBuffer.read s.rw want in
    let s' = record s { rw = rw'; read_bytes = s.read_bytes + length out.0 } in
    let rest =
      stream_turns (record s' { rw = write_chunk rw' appended }) (want - length out.0)
        (got ++ out.0) turns in
    if stream_eof s'
    then some ((got ++ out.0, true), s')
    else if leb want (length out.0)
    then some ((got ++ out.0, false), s')
    else rest

-- stream.read
pub stream_read : Stream → ℕ → List (List ℕ) → Option ((List ℕ × Bool) × Stream)
unfolding stream_turns
stream_read s len turns = if len == 0 then some (([], false), s) else stream_turns s len [] turns

-- What closing a stream returns: the errors of its goroutine and its body.
abbrev pub Closer : Type 0
Closer = Stream → Option ReaderError

-- parallel._popStream
pub pop_stream : Closer → Parallel → Option ReaderError × Parallel
pop_stream closes cr = elim cr.streams [
  | [] ↦ (none, cr)
  | s ∷ ss ↦ (closes s, record cr { streams = ss })
]

-- The first error of the two, as orErr keeps it.
pub or_err : Option ReaderError → Option ReaderError → Option ReaderError
or_err none e = e
or_err (some e) _ = some e

close_streams : Closer → List Stream → Option ReaderError → Option ReaderError
unfolding or_err
close_streams closes [] err = err
close_streams closes (s ∷ ss) err = close_streams closes ss (or_err err (closes s))

-- parallel._popStreams
pub pop_streams : Closer → Parallel → Option ReaderError × Parallel
unfolding close_streams
pop_streams closes cr = (close_streams closes cr.streams none, record cr { streams = [] })

-- parallel.Close
pub close_parallel : Closer → Parallel → Option ReaderError × Parallel
unfolding pop_streams
close_parallel closes cr =
    if cr.closed then (some file_closed, cr) else pop_streams closes (record cr { closed = true })

-- One turn of the loop of parallel.Read that has read from the first stream: the bytes and whether
-- the loop ends, and the reader. The error of a stream's close ends the loop, and is dropped: the
-- loop's `err` is not the one that Read returns.
pub after_read :
    Closer → Parallel → List Stream → (List ℕ × Bool) × Stream → (List ℕ × Bool) × Parallel
unfolding pop_stream
after_read closes cr ss ((bytes, at_end), s) =
    let cr' = record cr { streams = s ∷ ss; offset = cr.offset + length bytes } in
    let popped = pop_stream closes cr' in
    let stopped : Bool = elim popped.0 [ none ↦ false | some _ ↦ true ] in
    if at_end then ((bytes, stopped), popped.1) else ((bytes, false), cr')

-- The loop of parallel.Read for `want` more bytes after `got`, given for each turn what the first
-- stream's goroutine appends. It is none while the read is not over.
read_streams :
    Closer
    → Parallel
    → ℕ
    → List ℕ
    → List (List (List ℕ))
    → Option ((List ℕ × Option ReaderError) × Parallel)
read_streams closes cr want got [] = if want == 0 then some ((got, none), cr) else none
read_streams closes cr want got (turn ∷ turns) =
    let opened = open_streams cr in
    if want == 0 then some ((got, none), cr) else elim opened.streams [
      | [] ↦ some ((got, some eof), opened)
      | s ∷ ss ↦ elim (stream_read s want turn) [
        | none ↦ none
        | some out ↦
            let next = after_read closes opened ss out in
            let rest =
              read_streams closes next.1 (want - length next.0.0) (got ++ next.0.0) turns in
            if next.0.1 then some ((got ++ next.0.0, none), next.1) else rest
      ]
    ]

-- parallel.Read of `len` bytes: the bytes and the error, and the reader.
pub read_parallel :
    Closer → Parallel → ℕ → List (List (List ℕ)) → Option ((List ℕ × Option ReaderError) × Parallel)
unfolding read_streams open_streams stream_read after_read
read_parallel closes cr len turns =
    if cr.closed then some (([], some file_closed), cr) else read_streams closes cr len [] turns

-- The offset that parallel.Seek is asked for.
pub seek_to : Parallel → ℤ → Whence → ℤ
seek_to cr offset seek_start = offset
seek_to cr offset seek_current = pos cr.offset +ℤ offset
seek_to cr offset seek_end = cr.o_size +ℤ offset

-- The loop of parallel.Seek that drops the streams that end before the offset.
pub drop_before : ℕ → List Stream → List Stream
drop_before to [] = []
drop_before to (s ∷ ss) =
    let rest = drop_before to ss in if leb (s.offset + s.size) to then rest else s ∷ ss

-- What parallel.Seek does with the streams that are left, once the first has downloaded enough.
pub reseat : Parallel → ℕ → List Stream → Parallel
reseat cr to [] = record cr { offset = to; streams = []; end_stream = to }
reseat cr to (s ∷ ss) =
    let at = to - s.offset in
    let s' = record s { read_bytes = at; rw = (seek s.rw (pos at) 0).1 } in
    if ltb to s.offset
    then record cr { offset = to; streams = []; end_stream = to }
    else record cr { offset = to; streams = s' ∷ ss }

-- parallel.Seek, and RangeSeek: the new offset or the error, and the reader.
pub seek_parallel : Parallel → ℤ → Whence → (ℕ × Option ReaderError) × Parallel
unfolding seek_to drop_before reseat
seek_parallel cr offset whence =
    let to = seek_to cr offset whence in
    if cr.closed
    then ((0, some file_closed), cr)
    else if ltb_ℤ to (pos 0) || leb_ℤ cr.o_size to
    then ((0, some invalid_seek), cr)
    else if pos_part to == cr.offset
    then ((cr.offset, none), cr)
    else ((pos_part to, none), reseat cr (pos_part to) (drop_before (pos_part to) cr.streams))
