-- ===== src/Ranges.antt =====
-- lib/ranges/ranges.go: byte ranges, and the sorted and coalesced slice of them that records which
-- parts of a file are cached. `int64` is ℤ here: positions and sizes stay far below 2^62, so the
-- sums of the source do not wrap. A method with a pointer receiver returns the new value. An index
-- out of range would panic in Go; every index below is guarded, and `at` reads a zero Range there.
pub mod Cover
pub mod Search
pub mod Coalesce
pub mod Insert
pub mod Piece
pub mod Find
pub mod Walk
pub mod Missing
mod Examples
use rclone_vfs.Prelude.{
  ℕ, zero, suc, ◌+◌, ◌-◌, ◌/◌, Bool, true, false, ◌&&◌, ◌||◌, not, List, [], ◌∷◌, ◌++◌,
  if◌then◌else◌, ltb, leb, ◌==◌, ℤ, pos_part, ◌+ℤ◌, ◌-ℤ◌, ltb_ℤ, leb_ℤ, eqb_ℤ, min_ℤ, max_ℤ, length,
  get_or, set, take, drop,
}
use rclone_vfs.Prelude

-- type Range
pub record Range : Type 0 where
  pub pos : ℤ
  pub size : ℤ

-- Range{}
abbrev pub zero_range : Range
zero_range = record { pos = Prelude.pos 0; size = Prelude.pos 0 }

-- Range.End
abbrev pub end : Range → ℤ
end r = r.pos +ℤ r.size

-- Range.IsEmpty
abbrev pub is_empty : Range → Bool
is_empty r = leb_ℤ r.size (Prelude.pos 0)

-- Range.Clip
unfoldable pub clip : Range → ℤ → Range
clip r offset =
    let size = r.size -ℤ (end r -ℤ offset) in
    if leb_ℤ (end r) offset
    then r
    else if ltb_ℤ size (Prelude.pos 0)
    then zero_range
    else record r { size = size }

-- Range.Intersection
unfoldable pub intersection : Range → Range → Range
intersection r b =
    let start = max_ℤ r.pos b.pos in
    if (leb_ℤ b.pos r.pos && ltb_ℤ r.pos (end b)) || (leb_ℤ r.pos b.pos && ltb_ℤ b.pos (end r))
    then record { pos = start; size = min_ℤ (end r) (end b) -ℤ start }
    else zero_range

-- merge: whether the first range was merged into the second, and the second afterwards.
pub merge : Range → Range → Bool × Range
merge new dst = if ltb_ℤ (end new) dst.pos then (false, dst) else (
  true,
  record {
    pos = new.pos;
    size = if ltb_ℤ (end dst) (end new) then new.size else dst.size +ℤ (dst.pos -ℤ new.pos);
  },
)

-- rs[i]
abbrev pub at : List Range → ℕ → Range
at rs i = get_or rs i zero_range

-- The `for` of Ranges.coalesce, by the rounds left: the last index merged into, and the slice.
pub merge_loop : ℕ → ℕ → ℕ → List Range → ℕ × List Range
merge_loop zero j chop rs = (chop, rs)
merge_loop (suc k) j chop rs =
    let m = merge (at rs j) (at rs (suc j)) in
    let rest = merge_loop k (suc j) (suc j) (set rs (suc j) m.1) in if m.0 then rest else (chop, rs)

-- Ranges.coalesce
pub coalesce : List Range → ℕ → List Range
unfolding merge_loop
coalesce rs i =
    let m = merge (at rs (i - 1)) (at rs i) in
    let back = ltb 0 i && m.0 in
    let start = if back then i - 1 else i in
    let loop = merge_loop (length rs - 1 - i) i i (if back then set rs i m.1 else rs) in
    if ltb start loop.0 then take start loop.1 ++ drop loop.0 loop.1 else loop.1

-- The loop of sort.Search, on fuel: the first index in [i, j) at which the test holds.
pub sort_search_loop : ℕ → ℕ → ℕ → (ℕ → Bool) → ℕ
sort_search_loop zero i j f = i
sort_search_loop (suc k) i j f =
    let h = (i + j) / 2 in
    let rest = sort_search_loop k (if f h then i else h + 1) (if f h then h else j) f in
    if ltb i j then rest else i

pub sort_search : ℕ → (ℕ → Bool) → ℕ
unfolding sort_search_loop
sort_search n f = sort_search_loop n 0 n f

-- Ranges.search
unfoldable pub search_pos : List Range → Range → ℕ
unfolding sort_search
search_pos rs r = sort_search (length rs) (λ i. leb_ℤ r.pos (at rs i).pos)

-- Ranges.Insert
pub insert : List Range → Range → List Range
insert rs r =
    let i = search_pos rs r in
    let m = merge r (at rs i) in
    if is_empty r
    then rs
    else if length rs == 0
    then r ∷ []
    else coalesce (if i == length rs || not m.0 then take i rs ++ r ∷ drop i rs else set rs i m.1) i

-- Ranges.Find: curr, next, present.
unfoldable pub find : List Range → Range → Range × Range × Bool
find rs r =
    let i = search_pos rs r in
    let prev = intersection (at rs (i - 1)) r in
    let found = intersection (at rs i) r in
    let gap : Range = record { pos = r.pos; size = found.pos -ℤ r.pos } in
    if is_empty r
    then (r, zero_range, false)
    else if ltb 0 i && not (is_empty prev)
    then (prev, record { pos = end prev; size = r.size -ℤ prev.size }, true)
    else if leb (length rs) i
    then (r, zero_range, false)
    else if is_empty found
    then (r, zero_range, false)
    else if ltb_ℤ r.pos found.pos
    then (gap, record { pos = end gap; size = r.size -ℤ gap.size }, false)
    else (found, record { pos = end found; size = r.size -ℤ found.size }, true)

-- type FoundRange
pub record FoundRange : Type 0 where
  pub r : Range
  pub present : Bool

-- Each round of the loops below takes at least one byte off `r`, so its size is enough fuel.
abbrev pub rounds : Range → ℕ
rounds r = pos_part r.size

-- The loop of Ranges.FindAll
pub find_all_loop : ℕ → List Range → Range → List FoundRange
find_all_loop zero rs r = []
find_all_loop (suc k) rs r =
    let f = find rs r in
    let rest = find_all_loop k rs f.1 in
    if is_empty r then [] else record { r = f.0; present = f.2 } ∷ rest

-- Ranges.FindAll
pub find_all : List Range → Range → List FoundRange
unfolding find_all_loop
find_all rs r = find_all_loop (rounds r) rs r

-- Ranges.Present
unfoldable pub present : List Range → Range → Bool
present rs r =
    let f = find rs r in
    if is_empty r then true else if not f.2 then false else if is_empty f.1 then true else false

-- The loop of Ranges.Intersection
pub intersect_loop : ℕ → List Range → Range → List Range → List Range
intersect_loop zero rs r acc = acc
intersect_loop (suc k) rs r acc =
    let f = find rs r in
    let rest = intersect_loop k rs f.1 (if f.2 then insert acc f.0 else acc) in
    if is_empty r then acc else rest

-- Ranges.Intersection
pub intersect : List Range → Range → List Range
unfolding intersect_loop
intersect rs r = if length rs == 0 then rs else intersect_loop (rounds r) rs r []

-- The loop of Ranges.Equal, on slices of one length.
equal_loop : List Range → List Range → Bool
equal_loop (r ∷ rs) (b ∷ bs) = eqb_ℤ r.pos b.pos && eqb_ℤ r.size b.size && equal_loop rs bs
equal_loop _ _ = true

-- Ranges.Equal. A nil slice has length 0, where the loop has no round.
pub equal : List Range → List Range → Bool
unfolding equal_loop
equal rs bs = if not (length rs == length bs) then false else equal_loop rs bs

-- Ranges.Size
unfoldable pub total_size : List Range → ℤ
total_size [] = Prelude.pos 0
total_size (r ∷ rs) = r.size +ℤ total_size rs

-- Ranges.FindMissing
unfoldable pub find_missing : List Range → Range → Range
find_missing rs r =
    let f = find rs r in
    if is_empty r
    then r
    else if not f.2
    then r
    else record { pos = end f.0; size = r.size -ℤ (end f.0 -ℤ r.pos) }
