-- ===== src/Chunked/Sequential.antt =====
-- internal/chunkedreader/sequential.go: the reader that fetches one chunk at a time.
pub mod Sizes
use rclone_vfs.Prelude.{
  ℕ, ◌+◌, ◌-◌, Bool, true, false, not, ◌&&◌, ◌||◌, Option, none, some, List, [], ◌∷◌, if◌then◌else◌,
  ltb, leb, ◌==◌, ℤ, ◌+ℤ◌, ◌-ℤ◌, ltb_ℤ, leb_ℤ, eqb_ℤ, pos_part,
}
use rclone_vfs.Prelude
use rclone_vfs.Chunked.{
  ReaderError, eof, file_closed, invalid_seek, object_error, Whence, seek_start, seek_current,
  seek_end, no_limit,
}

-- type sequential. `size` is o.Size(), and `has_rc` says that `rc` is set. The offset -1 forces a
-- reopen.
pub record Sequential : Type 0 where
  pub size : ℤ
  pub has_rc : Bool
  pub offset : ℤ
  pub chunk_offset : ℤ
  pub chunk_size : ℤ
  pub initial_chunk_size : ℤ
  pub max_chunk_size : ℤ
  pub custom_chunk_size : Bool
  pub closed : Bool

-- newSequential
unfoldable pub new_sequential : ℤ → ℤ → ℤ → Sequential
new_sequential size initial max_size = record {
  size = size;
  has_rc = false;
  offset = Prelude.negsuc 0;
  chunk_offset = Prelude.pos 0;
  chunk_size = initial;
  initial_chunk_size = initial;
  max_chunk_size = max_size;
  custom_chunk_size = false;
  closed = false;
}

-- What the world answers to openRange: where the RangeSeek of the open reader ends, if it has one
-- and that succeeds; the error of Open; and the error of closing the reader that was open.
pub record Answers : Type 0 where
  pub range_seek : Option ℤ
  pub opened : Option ℕ
  pub closing : Option ℕ

-- sequential.resetReader
pub reset_reader : Sequential → Bool → ℤ → Option ℕ → Option ReaderError × Sequential
reset_reader cr rc offset closing =
    let reset = record cr { has_rc = rc; offset = offset } in
    if cr.has_rc
    then elim closing [ some e ↦ (some (object_error e), cr) | none ↦ (none, reset) ]
    else (none, reset)

-- The range that openRange asks the object for: its start, and its end unless that is the end of
-- the file; none is the whole object.
pub asked : Sequential → Option (ℤ × Option ℤ)
asked cr =
    if leb_ℤ cr.chunk_size (Prelude.pos 0)
    then if eqb_ℤ cr.chunk_offset (Prelude.pos 0) then none else some (cr.chunk_offset, none)
    else some (cr.chunk_offset, some (cr.chunk_offset +ℤ cr.chunk_size -ℤ Prelude.pos 1))

-- openRange where the open reader cannot seek.
reopen : Sequential → Answers → Option ReaderError × Sequential
unfolding reset_reader
reopen cr w = elim w.opened [
  | some e ↦ (some (object_error e), cr)
  | none ↦ reset_reader cr true cr.chunk_offset w.closing
]

-- sequential.openRange
pub open_range : Sequential → Answers → Option ReaderError × Sequential
unfolding reopen
open_range cr w = if cr.closed then (some file_closed, cr) else elim w.range_seek [
  | none ↦ reopen cr w
  | some n ↦
      if cr.has_rc && eqb_ℤ n cr.chunk_offset
      then (none, record cr { offset = cr.chunk_offset })
      else reopen cr w
]

-- sequential.Open
pub open_sequential : Sequential → Answers → Option ReaderError × Sequential
unfolding open_range
open_sequential cr w =
    if cr.has_rc && not (eqb_ℤ cr.offset (Prelude.negsuc 0)) then (none, cr) else open_range cr w

-- Whether the chunk has been read completely.
pub chunk_done : Sequential → Bool
chunk_done cr =
    ltb_ℤ (Prelude.pos 0) cr.chunk_size && eqb_ℤ cr.offset (cr.chunk_offset +ℤ cr.chunk_size)

-- The size of the chunk after this one.
pub next_size : Sequential → ℤ
next_size cr =
    let twice = cr.chunk_size +ℤ cr.chunk_size in
    if cr.custom_chunk_size
    then cr.initial_chunk_size
    else if ltb_ℤ cr.max_chunk_size twice && not (eqb_ℤ cr.max_chunk_size no_limit)
    then cr.max_chunk_size
    else twice

-- The first case of the switch of sequential.Read, up to its call of openRange.
pub next_chunk : Sequential → Sequential
unfolding next_size
next_chunk cr = record cr {
  chunk_offset = cr.offset;
  chunk_size = next_size cr;
  custom_chunk_size = false;
}

-- The switch of sequential.Read.
pub prepare : Sequential → Answers → Option ReaderError × Sequential
unfolding open_range chunk_done next_chunk
prepare cr w =
    if chunk_done cr
    then open_range (next_chunk cr) w
    else if eqb_ℤ cr.offset (Prelude.negsuc 0)
    then open_range cr w
    else (none, cr)

-- How many of `n` bytes one turn of sequential.Read asks for.
pub turn_size : Sequential → ℕ → ℕ
turn_size cr n =
    let rest = cr.chunk_offset +ℤ cr.chunk_size -ℤ cr.offset in
    if ltb_ℤ rest (Prelude.pos n) && ltb_ℤ (Prelude.pos 0) cr.chunk_size then pos_part rest else n

-- One turn of the loop of sequential.Read: what io.ReadFull returns is the number of bytes and the
-- error, with io.EOF for io.ErrUnexpectedEOF.
pub record Filled : Type 0 where
  pub n : ℕ
  pub err : Option ReaderError

-- sequential.Read of `want` bytes after `got`, given the answers of each turn: the count and the
-- error, and the reader. It is none while the read is not over.
read_turns :
    Sequential → ℕ → ℕ → List (Answers × Filled) → Option ((ℕ × Option ReaderError) × Sequential)
read_turns cr want got [] = if want == 0 then some ((got, none), cr) else none
read_turns cr want got ((w, filled) ∷ turns) =
    let ready = prepare cr w in
    let cr' = record ready.1 { offset = ready.1.offset +ℤ Prelude.pos filled.n } in
    let rest = read_turns cr' (want - turn_size ready.1 want) (got + filled.n) turns in
    if want == 0 then some ((got, none), cr) else elim ready.0 [
      | some e ↦ some ((got, some e), ready.1)
      | none ↦ elim filled.err [ some e ↦ some ((got + filled.n, some e), cr') | none ↦ rest ]
    ]

-- sequential.Read
pub read_sequential :
    Sequential → ℕ → List (Answers × Filled) → Option ((ℕ × Option ReaderError) × Sequential)
unfolding read_turns prepare turn_size
read_sequential cr len turns =
    if cr.closed then some ((0, some file_closed), cr) else read_turns cr len 0 turns

-- sequential.Close
pub close_sequential : Sequential → Option ℕ → Option ReaderError × Sequential
unfolding reset_reader
close_sequential cr closing =
    if cr.closed
    then (some file_closed, cr)
    else reset_reader (record cr { closed = true }) false (Prelude.pos 0) closing

-- The base of RangeSeek: none is ErrorInvalidSeek.
unfoldable pub range_base : Sequential → Whence → Option ℤ
range_base cr seek_start = some (Prelude.pos 0)
range_base cr seek_current = some cr.offset
range_base cr seek_end = if ltb_ℤ cr.size (Prelude.pos 0) then none else some cr.size

-- The reader that RangeSeek leaves if it succeeds.
unfoldable pub sought : Sequential → ℤ → ℤ → Sequential
sought cr to length = record cr {
  chunk_offset = to;
  offset = Prelude.negsuc 0;
  custom_chunk_size = ltb_ℤ (Prelude.pos 0) length || cr.custom_chunk_size;
  chunk_size = if ltb_ℤ (Prelude.pos 0) length then length else cr.initial_chunk_size;
}

-- sequential.RangeSeek: the new position or the error, and the reader.
unfoldable pub range_seek_sequential :
    Sequential → ℤ → Whence → ℤ → (ℤ × Option ReaderError) × Sequential
unfolding range_base sought
range_seek_sequential cr offset whence length =
    if cr.closed then ((Prelude.pos 0, some file_closed), cr) else elim (range_base cr whence) [
      | none ↦ ((Prelude.pos 0, some invalid_seek), cr)
      | some base ↦
          let to = base +ℤ offset in
          if ltb_ℤ to (Prelude.pos 0) || leb_ℤ cr.size to
          then (
            (Prelude.pos 0, some invalid_seek),
            record (sought cr to length) { chunk_offset = Prelude.pos 0 },
          )
          else ((to, none), sought cr to length)
    ]

-- sequential.Seek
unfoldable pub seek_sequential : Sequential → ℤ → Whence → (ℤ × Option ReaderError) × Sequential
unfolding range_seek_sequential
seek_sequential cr offset whence = range_seek_sequential cr offset whence (Prelude.negsuc 0)
