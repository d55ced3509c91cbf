-- ===== src/Chunked/Examples.antt =====
-- The theorems on the chunked readers at concrete readers.
use rclone_vfs.Prelude.{◌≡◌, refl, false, none, some, [], ◌∷◌, arith, replicate, ◌+ℤ◌}
use rclone_vfs.Prelude.{pos, negsuc}
use rclone_vfs.Chunked.{object_error, seek_start, normalise}
use rclone_vfs.Chunked.Sequential.{
  Sequential, new_sequential, seek_sequential, range_seek_sequential, range_base, sought,
}
use rclone_vfs.Chunked.Sequential.Sizes.{Sized, chunk_read, range_seeks, moves, moves-Sized}
use rclone_vfs.Chunked.Parallel.{
  Stream, Parallel, rounded, new_parallel, open_streams, stream_read, Closer, read_parallel,
  seek_parallel,
}
use rclone_vfs.Chunked.Parallel.Streams.{
  Joined, Placed, Lined, Opened, open_streams-Opened, Sought, seek_parallel-Sought,
}
use rclone_vfs.Chunked.Parallel.Reads.{stream_read-starved, Reported, read_parallel-Reported}

-- An object of 100 bytes, read in chunks of 10 up to 15.
moves-Sized_example :
    let made = normalise (pos 100) (pos 10) (pos 15) (pos 1) in
    Sized (
      moves
        (new_sequential (pos 100) made.0 made.1)
        (chunk_read ∷ range_seeks (pos 3) seek_start (pos 50) ∷ []))
moves-Sized_example =
    moves-Sized (pos 100) (pos 10) (pos 15) (pos 1)
      (chunk_read ∷ range_seeks (pos 3) seek_start (pos 50) ∷ []) (omega arith)

-- The reader after a seek to 7.
abbrev at_seven : Sequential
at_seven = (seek_sequential (new_sequential (pos 100) (pos 10) (pos 15)) (pos 7) seek_start).1

at_seven_runs : at_seven.closed ≡ false
unfolding seek_sequential range_seek_sequential new_sequential range_base sought ◌+ℤ◌
at_seven_runs = refl

at_seven_unread : at_seven.offset ≡ negsuc 0
unfolding seek_sequential range_seek_sequential new_sequential range_base sought ◌+ℤ◌
at_seven_unread = refl

-- Two streams over an object of three million bytes.
abbrev reader : Parallel
reader = new_parallel (pos 3000000) (pos 1000) 2

reader_size : reader.o_size ≡ pos 3000000
unfolding new_parallel
reader_size = refl

reader-Lined : Lined reader
unfolding new_parallel rounded Placed Joined
reader-Lined = record {
  place = refl;
  inside = omega arith;
  few = omega arith;
  some_chunk = omega arith;
}

open_streams-Opened_example : Opened reader (open_streams reader) 3000000 (2)
unfolding new_parallel
open_streams-Opened_example = open_streams-Opened reader 3000000 reader_size reader-Lined

reader_open : Lined (open_streams reader)
reader_open = (open_streams-Opened reader 3000000 reader_size reader-Lined).lined

seek_parallel-Sought_example :
    Sought (open_streams reader) (seek_parallel (open_streams reader) (pos 1500000) seek_start)
seek_parallel-Sought_example =
    seek_parallel-Sought (open_streams reader) (pos 1500000) seek_start reader_open

abbrev failed_stream : Stream
failed_stream = record {
  offset = 0;
  size = 10;
  read_bytes = 0;
  rw = record { buf = []; r_offset = 0; closed = false };
}

stream_read-starved_example : stream_read failed_stream 4 (replicate 3 []) ≡ none
stream_read-starved_example =
    stream_read-starved failed_stream 4 3 (omega arith) (omega arith) (omega arith)

abbrev closes : Closer
closes _ = some (object_error 1)

reader_runs : reader.closed ≡ false
unfolding new_parallel
reader_runs = refl

read_parallel-Reported_example :
    Reported (read_parallel closes reader 2 ((((1 ∷ 2 ∷ []) ∷ []) ∷ [])))
read_parallel-Reported_example =
    read_parallel-Reported closes reader 2 ((((1 ∷ 2 ∷ []) ∷ []) ∷ [])) reader_runs
