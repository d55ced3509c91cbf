-- ===== src/Ranges/Piece.antt =====
-- What Ranges.Find promises, and that it holds of its tests on the first range at or after the one
-- looked up.
use rclone_vfs.Prelude.{
  ◌≡◌, refl, ap, ◌∙◌, inl, inr, Bool, true, false, not, ◌&&◌, ◌||◌, List, [], ◌∷◌, arith,
  if◌then◌else◌, Bool-cases, ℤ, ◌<ℤ◌, ◌≤ℤ◌, ◌+ℤ◌, ◌-ℤ◌, ltb_ℤ, int_laws, +ℤ_parts, -ℤ_parts,
  eq_of_parts, max_ℤ_left, min_ℤ, min_ℤ_cases,
}
use rclone_vfs.Ranges.{Range, zero_range, end, is_empty, intersection}
use rclone_vfs.Ranges.Cover.{
  From, IsCoalesced, StartsAt, IsPositive, contains, covers, empty_contains, covers-below,
  covers-gap, contains-intersection, intersection-Overlap,
}

-- What Find promises of the range looked up, the piece found, what is left, and the flag.
pub record Finds (f : ℤ → Bool) (r : Range) (out : Range × Range × Bool) : Type 0 where
  pub starts : out.0.pos ≡ r.pos
  pub positive : IsPositive out.0
  pub within : end out.0 ≤ℤ end r
  pub uniform : (x : ℤ) → contains out.0 x ≡ true → f x ≡ out.2
  pub left_starts : is_empty out.1 ≡ false → out.1.pos ≡ end out.0
  pub left_ends : is_empty out.1 ≡ false → end out.1 ≡ end r
  pub stops : is_empty out.1 ≡ false → f (end out.0) ≡ not out.2
  pub finished : is_empty out.1 ≡ true → end out.0 ≡ end r

-- Find's tests on the first range at or after `r`.
unfoldable pub after : List Range → Range → Range × Range × Bool
after [] r = (r, zero_range, false)
after (b ∷ bs) r =
    let found = intersection b r in
    let gap : Range = record { pos = r.pos; size = found.pos -ℤ r.pos } in
    if is_empty found
    then (r, zero_range, false)
    else if ltb_ℤ r.pos found.pos
    then (gap, record { pos = end gap; size = r.size -ℤ gap.size }, false)
    else (found, record { pos = end found; size = r.size -ℤ found.size }, true)

-- A piece at the front of `r` with the rest of `r` behind it.
pub piece-Finds :
    (f : ℤ → Bool) (r c : Range) (p : Bool)
    → c.pos ≡ r.pos
    → IsPositive c
    → end c ≤ℤ end r
    → ((x : ℤ) → contains c x ≡ true → f x ≡ p)
    → (end c <ℤ end r → f (end c) ≡ not p)
    → Finds f r (c, record { pos = end c; size = r.size -ℤ c.size }, p)
piece-Finds f r c p e pc le same change =
    let whole = +ℤ_parts r.pos r.size in
    let part = +ℤ_parts c.pos c.size in
    let rest = -ℤ_parts r.size c.size in
    let sum = +ℤ_parts (end c) (r.size -ℤ c.size) in
    let left = eq_of_parts (end c +ℤ (r.size -ℤ c.size)) (end r) in
    let done = eq_of_parts (end c) (end r) in
    record {
      starts = e;
      positive = pc;
      within = le;
      uniform = same;
      left_starts = λ h. refl;
      left_ends = λ h. left (ground arith);
      stops = λ h. change (ground arith);
      finished = λ h. done (ground arith);
    }

-- Nothing of `r` is present.
whole-Finds :
    (f : ℤ → Bool) (r : Range)
    → IsPositive r
    → ((x : ℤ) → contains r x ≡ true → f x ≡ false)
    → Finds f r (r, zero_range, false)
whole-Finds f r pr same = record {
  starts = refl;
  positive = pr;
  within = omega arith;
  uniform = same;
  left_starts = λ h. absurd (ground arith);
  left_ends = λ h. absurd (ground arith);
  stops = λ h. absurd (ground arith);
  finished = λ h. refl;
}

absent_right : (m b r : Bool) → m ≡ false → m ≡ (r && b) → r ≡ true → b ≡ false
absent_right m b r e f g = ground arith

pub absent_left : (m b r : Bool) → m ≡ false → m ≡ (b && r) → r ≡ true → b ≡ false
absent_left m b r e f g = ground arith

contains_first : (b : Range) → IsPositive b → contains b b.pos ≡ true
contains_first b h = ground (arith, +ℤ_parts b.pos b.size)

past :
    (p : ℤ) (r : Range) (x : ℤ) → r.pos ≤ℤ p → contains r p ≡ false → contains r x ≡ true → x <ℤ p
past p r x s out inside = ground arith

after_absent :
    (b : Range) (bs : List Range) (r : Range) (x : ℤ)
    → IsCoalesced (b ∷ bs)
    → r.pos ≤ℤ b.pos
    → is_empty (intersection b r) ≡ true
    → contains r x ≡ true
    → covers (b ∷ bs) x ≡ false
after_absent b bs r x h s e inside =
    let size = +ℤ_parts b.pos b.size in
    let first : contains b b.pos ≡ true = contains_first b h.0 in
    let out : contains r b.pos ≡ false =
      absent_right (contains (intersection b r) b.pos) (contains r b.pos) (contains b b.pos)
        (empty_contains (intersection b r) b.pos e) (contains-intersection b r b.pos) first in
    covers-below b.pos x (b ∷ bs) h (omega arith) (past b.pos r x s out inside)

pub bool_present : (m b r c : Bool) → m ≡ true → m ≡ (b && r) → (b || c) ≡ true
bool_present m b r c e f = ground arith

in_gap : (p q x : ℤ) → contains (record { pos = p; size = q -ℤ p }) x ≡ true → x <ℤ q
in_gap p q x i = ground (arith, -ℤ_parts q p, +ℤ_parts p (q -ℤ p))

-- The gap before the first range at or after `r`.
gap_piece :
    (b : Range) (bs : List Range) (r found : Range)
    → IsCoalesced (b ∷ bs)
    → found.pos ≡ b.pos
    → IsPositive found
    → end found ≤ℤ end r
    → r.pos <ℤ found.pos
    → let gap : Range = record { pos = r.pos; size = found.pos -ℤ r.pos } in
      Finds (covers (b ∷ bs)) r (gap, record { pos = end gap; size = r.size -ℤ gap.size }, false)
unfolding covers
gap_piece b bs r found h start pf ends lt =
    let at_gap : r.pos +ℤ (found.pos -ℤ r.pos) ≡ found.pos = omega int_laws in
    let first : (contains b b.pos || covers bs b.pos) ≡ true =
      ground (arith, contains_first b h.0) in
    let size = -ℤ_parts found.pos r.pos in
    let reach = +ℤ_parts r.pos (found.pos -ℤ r.pos) in
    let more = +ℤ_parts found.pos found.size in
    piece-Finds (covers (b ∷ bs)) r (record { pos = r.pos; size = found.pos -ℤ r.pos }) false refl
      (omega arith) (omega arith)
      (λ x i.
        covers-below found.pos x (b ∷ bs) h (rw start (omega arith)) (in_gap r.pos found.pos x i))
      (λ _. ap (λ z. covers (b ∷ bs) z) (at_gap ∙ start) ∙ first)

pub at_end_of : (a r e : ℤ) → e ≡ min_ℤ a r → e <ℤ r → e ≡ a
at_end_of a r e h lt = elim (min_ℤ_cases a r) [
  | inl c ↦ h ∙ c.0
  | inr c ↦ absurd (ground (arith, h, c.0))
]

pub covers-end : (b : Range) (bs : List Range) → From (end b) bs → covers (b ∷ bs) (end b) ≡ false
unfolding covers
covers-end b bs h = ground (arith, covers-gap (end b) (end b) bs h (omega arith))

pub after-Finds :
    (post : List Range) (r : Range)
    → IsPositive r
    → IsCoalesced post
    → StartsAt r.pos post
    → Finds (covers post) r (after post r)
unfolding after covers
after-Finds [] r pr h s = whole-Finds _ r pr (λ x i. refl)
after-Finds (b ∷ bs) r pr h s = elim (Bool-cases (is_empty (intersection b r))) [
  | inl e ↦ rw e (whole-Finds _ r pr (λ x i. after_absent b bs r x h s e i))
  | inr e ↦
      let o = intersection-Overlap b r e in
      let start : (intersection b r).pos ≡ b.pos = o.starts ∙ max_ℤ_left b.pos r.pos s in
      rw e (elim (Bool-cases (ltb_ℤ r.pos (intersection b r).pos)) [
        | inl lt ↦
            rw lt (gap_piece b bs r (intersection b r) h start o.positive o.ends_b (ground arith))
        | inr ge ↦ rw ge (
            piece-Finds _ r (intersection b r) true
              (start ∙ eq_of_parts b.pos r.pos (ground (arith, ap (λ z. ltb_ℤ r.pos z) start)))
              o.positive o.ends_b
              (λ x i.
                bool_present (contains (intersection b r) x) (contains b x) (contains r x)
                  (covers bs x) i (contains-intersection b r x))
              (λ lt.
                ap (λ z. covers (b ∷ bs) z)
                  (at_end_of (end b) (end r) (end (intersection b r)) o.ends lt)
                ∙ covers-end b bs h.1))
      ])
]
