-- ===== src/Chunked.antt =====
-- internal/chunkedreader: the readers that fetch an object in chunks. chunkedreader.go chooses
-- between them; sequential.go is Sequential and parallel.go is Parallel. What the object's Open, the
-- HTTP body and their Close return are arguments, and errors are numbers.
pub mod Sequential
pub mod Parallel
mod Examples
use rclone_vfs.Prelude.{
  ℕ, ◌+◌, Bool, true, false, not, ◌&&◌, ◌||◌, if◌then◌else◌, ltb, leb, ℤ, ltb_ℤ, leb_ℤ, eqb_ℤ,
}
use rclone_vfs.Prelude

-- What the ChunkedReader interface reports: io.EOF, ErrorFileClosed, ErrorInvalidSeek, or an error
-- of the object.
pub data ReaderError : Type 0 where
  eof file_closed invalid_seek : ReaderError
  object_error : ℕ → ReaderError

-- io.SeekStart, io.SeekCurrent and io.SeekEnd
pub data Whence : Type 0 where
  seek_start seek_current seek_end : Whence

-- The value that stands for no limit.
abbrev pub no_limit : ℤ
no_limit = Prelude.negsuc 0

-- What New makes of its arguments: the initial and the maximal chunk size, and whether the reader
-- is parallel.
pub normalise : ℤ → ℤ → ℤ → ℤ → ℤ × ℤ × Bool
normalise size initial max_size streams =
    let initial' = if leb_ℤ initial (Prelude.pos 0) then no_limit else initial in
    let max' =
      if not (eqb_ℤ max_size no_limit) && ltb_ℤ max_size initial' then initial' else max_size in
    let streams' = if ltb_ℤ streams (Prelude.pos 0) then Prelude.pos 0 else streams in
    (initial', max', not (leb_ℤ streams' (Prelude.pos 1) || ltb_ℤ size (Prelude.pos 0)))
