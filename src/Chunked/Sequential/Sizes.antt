-- ===== src/Chunked/Sequential/Sizes.antt =====
-- The chunks of the sequential reader stay within their limit, and where a seek leads.
use rclone_vfs.Prelude.{
  ℕ, ◌+◌, ◌-◌, ◌≤◌, ◌<◌, ◌≡◌, refl, ◌⊎◌, inl, inr, Bool, true, false, not, ◌&&◌, ◌||◌, Option, none,
  some, List, [], ◌∷◌, arith, if◌then◌else◌, ℤ, ◌+ℤ◌, ◌≤ℤ◌, ◌<ℤ◌, ltb_ℤ, leb_ℤ, eqb_ℤ, Bool-cases,
  Option-cases, +ℤ_parts,
}
use rclone_vfs.Prelude
use rclone_vfs.Chunked.{invalid_seek, Whence, seek_current, no_limit, normalise}
use rclone_vfs.Chunked.Sequential.{
  Sequential, new_sequential, next_size, next_chunk, range_base, sought, range_seek_sequential,
  seek_sequential,
}

-- The current and the initial chunk size are positive and, where there is a limit, at most the
-- maximal size, unless RangeSeek has set the current one.
pub record Sized (cr : Sequential) : Type 0 where
  pub positive : Prelude.pos 0 <ℤ cr.chunk_size
  pub first : Prelude.pos 0 <ℤ cr.initial_chunk_size
  pub above : eqb_ℤ cr.max_chunk_size no_limit ≡ false → cr.initial_chunk_size ≤ℤ cr.max_chunk_size
  pub fits :
      eqb_ℤ cr.max_chunk_size no_limit ≡ false
      → cr.custom_chunk_size ≡ false
      → cr.chunk_size ≤ℤ cr.max_chunk_size

new_sequential-Sized :
    (size initial max_size streams : ℤ)
    → Prelude.pos 0 <ℤ initial
    → let made = normalise size initial max_size streams in
      Sized (new_sequential size made.0 made.1)
unfolding normalise new_sequential
new_sequential-Sized size initial max_size streams h = record {
  positive = ground arith;
  first = ground arith;
  above = λ e. ground arith;
  fits = λ e f. ground arith;
}

next_chunk-Sized : (cr : Sequential) → Sized cr → Sized (next_chunk cr)
unfolding next_chunk next_size
next_chunk-Sized cr v =
    let twice = +ℤ_parts cr.chunk_size cr.chunk_size in
    let above = v.above in
    let positive = v.positive in
    let first = v.first in
    record { positive = ground arith; first = v.first; above = v.above; fits = λ e f. ground arith }

sought-Sized : (cr : Sequential) (to length : ℤ) → Sized cr → Sized (sought cr to length)
unfolding sought
sought-Sized cr to length v =
    let above = v.above in
    let first = v.first in
    record { positive = ground arith; first = v.first; above = v.above; fits = λ e f. ground arith }

-- A field that the sizes do not depend on.
moved-Sized : (cr : Sequential) (to : ℤ) → Sized cr → Sized (record cr { chunk_offset = to })
moved-Sized cr to v = record {
  positive = v.positive;
  first = v.first;
  above = v.above;
  fits = v.fits;
}

if-Sized :
    {A : Type 0} (b : Bool) (x y : A × Sequential)
    → Sized x.1
    → Sized y.1
    → Sized (if b then x else y).1
if-Sized true x y v w = v
if-Sized false x y v w = w

range_seek_sequential-Sized :
    (cr : Sequential) (offset : ℤ) (whence : Whence) (length : ℤ)
    → Sized cr
    → Sized (range_seek_sequential cr offset whence length).1
unfolding range_seek_sequential
range_seek_sequential-Sized cr offset whence length v = elim (Option-cases (range_base cr whence)) [
  | inl e ↦ rw (e, range_seek_sequential) (if-Sized cr.closed _ _ v v)
  | inr (base, e) ↦
      let there = sought-Sized cr (base +ℤ offset) length v in
      rw (e, range_seek_sequential)
        (if-Sized cr.closed _ _ v (if-Sized _ _ _ (moved-Sized _ (Prelude.pos 0) there) there))
]

-- What can happen to the sizes of a reader: it has read the chunk completely, or it seeks.
pub data Move : Type 0 where
  chunk_read : Move
  range_seeks : ℤ → Whence → ℤ → Move

move : Sequential → Move → Sequential
move cr chunk_read = next_chunk cr
move cr (range_seeks offset whence length) = (range_seek_sequential cr offset whence length).1

pub moves : Sequential → List Move → Sequential
unfolding move
moves cr [] = cr
moves cr (x ∷ xs) = moves (move cr x) xs

moves_from-Sized : (cr : Sequential) (xs : List Move) → Sized cr → Sized (moves cr xs)
unfolding moves move
moves_from-Sized cr [] v = v
moves_from-Sized cr (chunk_read ∷ xs) v =
    moves_from-Sized (next_chunk cr) xs (next_chunk-Sized cr v)
moves_from-Sized cr (range_seeks offset whence length ∷ xs) v =
    moves_from-Sized _ xs (range_seek_sequential-Sized cr offset whence length v)

-- A reader that New makes with a positive initial chunk size, and that has then read chunks and
-- has been moved by any seeks, has a positive chunk size; where there is a limit, the size is at most
-- the limit unless RangeSeek has set it.
pub moves-Sized :
    (size initial max_size streams : ℤ) (xs : List Move)
    → Prelude.pos 0 <ℤ initial
    → let made = normalise size initial max_size streams in
      Sized (moves (new_sequential size made.0 made.1) xs)
moves-Sized size initial max_size streams xs h =
    moves_from-Sized _ xs (new_sequential-Sized size initial max_size streams h)

-- A seek that is not from the start or the end has the offset -1 as its base right after another
-- seek: asking for the current position, a move by 0 from where the reader is, then fails.
pub seek_sequential-current :
    (cr : Sequential)
    → cr.closed ≡ false
    → cr.offset ≡ Prelude.negsuc 0
    → (seek_sequential cr (Prelude.pos 0) seek_current).0.1 ≡ some invalid_seek
unfolding seek_sequential range_seek_sequential range_base ◌+ℤ◌
seek_sequential-current cr open_still unread = simp (open_still, unread) refl
