-- ===== src/RwBuffer.antt =====
-- lib/rwbuffer/rwbuffer.go: the buffer between the goroutine that downloads a chunk and its reader.
-- Each method runs under the lock, so it is one step on the state; a blocked WaitWrite sees the
-- states in which it is woken. The reader that ReadFrom copies from is the list of its answers. The
-- capacity that `make` reserves is left out.
pub mod Flow
pub mod Waits
mod Examples
use rclone_vfs.Prelude.{
  ℕ, ◌+◌, ◌-◌, min, Bool, true, false, not, ◌&&◌, ◌||◌, Option, none, some, List, [], ◌∷◌, ◌++◌,
  if◌then◌else◌, ltb, leb, ◌==◌, ℤ, ◌+ℤ◌, ltb_ℤ, length, take, drop, pos_part,
}
use rclone_vfs.Prelude

-- type RW
pub record Rw : Type 0 where
  pub buf : List ℕ
  pub r_offset : ℕ
  pub closed : Bool

-- The error of an io.Reader: nil, io.EOF or any other.
pub data ReadError : Type 0 where
  ok eof broken : ReadError

-- New and NewSized
pub new : Rw
new = record { buf = []; r_offset = 0; closed = false }

-- The locked part of the loop of RW.ReadFrom.
unfoldable pub write_chunk : Rw → List ℕ → Rw
write_chunk rw data' = if ltb 0 (length data') then record rw { buf = rw.buf ++ data' } else rw

-- The loop of RW.ReadFrom over the answers of the reader, with the total so far. Its result is
-- none while the reader has not ended.
read_loop : Rw → ℕ → List (List ℕ × ReadError) → Rw × Option (ℕ × ReadError)
read_loop rw total [] = (rw, none)
read_loop rw total ((bytes, ok) ∷ answers) =
    read_loop (write_chunk rw bytes) (total + length bytes) answers
read_loop rw total ((bytes, eof) ∷ answers) =
    (write_chunk rw bytes, some (total + length bytes, ok))
read_loop rw total ((bytes, broken) ∷ answers) =
    (write_chunk rw bytes, some (total + length bytes, broken))

-- RW.ReadFrom
pub read_from : Rw → List (List ℕ × ReadError) → Rw × Option (ℕ × ReadError)
unfolding read_loop
read_from rw answers = read_loop rw 0 answers

-- RW.Read into `n` bytes: the bytes and the error, and the buffer.
unfoldable pub read : Rw → ℕ → (List ℕ × ReadError) × Rw
read rw n = if leb (length rw.buf) rw.r_offset then (([], eof), rw) else (
  (take n (drop rw.r_offset rw.buf), ok),
  record rw { r_offset = rw.r_offset + min n (length (drop rw.r_offset rw.buf)) },
)

-- The condition on which the loop of RW.WaitWrite waits.
pub must_wait : Rw → Bool
must_wait rw = leb (length rw.buf) rw.r_offset && not rw.closed

-- RW.WaitWrite, given the states in which the condition variable wakes it: the state in which it
-- returns, or none while it waits.
pub wait_write : Rw → List Rw → Option Rw
wait_write rw [] = if must_wait rw then none else some rw
wait_write rw (next ∷ wakes) =
    let rest = wait_write next wakes in if must_wait rw then rest else some rw

-- RW.Close
pub close : Rw → Rw
close rw = record rw { closed = true }

-- RW.Size
pub size : Rw → ℕ
size rw = length rw.buf

-- The base of RW.Seek: io.SeekStart, io.SeekCurrent and io.SeekEnd are 0, 1 and 2.
seek_base : Rw → ℕ → Option ℤ
seek_base rw whence =
    if whence == 0
    then some (Prelude.pos 0)
    else if whence == 1
    then some (Prelude.pos rw.r_offset)
    else if whence == 2
    then some (Prelude.pos (length rw.buf))
    else none

-- RW.Seek: the new offset, none for the error, and the buffer.
pub seek : Rw → ℤ → ℕ → Option ℕ × Rw
unfolding seek_base
seek rw offset whence = elim (seek_base rw whence) [
  | none ↦ (none, rw)
  | some base ↦
      let abs = base +ℤ offset in
      let to = if ltb (length rw.buf) (pos_part abs) then length rw.buf else pos_part abs in
      if ltb_ℤ abs (Prelude.pos 0) then (none, rw) else (some to, record rw { r_offset = to })
]
