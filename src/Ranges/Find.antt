-- ===== src/Ranges/Find.antt =====
-- Ranges.Find over a coalesced slice: the first piece of a range that is wholly present or wholly
-- absent.
use rclone_vfs.Prelude.{
  suc, ◌-◌, ◌≡◌, sym, ap, ◌∙◌, inl, inr, Bool, true, false, not, ◌||◌, List, [], ◌∷◌, ◌++◌, arith,
  if◌then◌else◌, ltb, leb, Bool-cases, ℤ, ◌<ℤ◌, ◌≤ℤ◌, ◌-ℤ◌, length, int_laws, +ℤ_parts, max_ℤ_right,
  get_or-append, get_or-append_suc, length-append,
}
use mathlib.Core.Path.{subst}
use rclone_vfs.Ranges.{Range, zero_range, end, is_empty, intersection, search_pos, find}
use rclone_vfs.Ranges.Cover.{
  From, IsCoalesced, StartsAt, IsPositive, contains, covers, empty_contains, From-IsCoalesced,
  From-middle, IsCoalesced-From, covers-append, covers-above, contains-intersection,
  intersection-Overlap,
}
use rclone_vfs.Ranges.Piece.{
  Finds, after, piece-Finds, after-Finds, at_end_of, covers-end, absent_left, bool_present,
}
use rclone_vfs.Ranges.Search.{search_pos-Landing}

bool_behind : (pre p post : Bool) → (p || post) ≡ true → (pre || (p || post)) ≡ true
bool_behind pre p post h = ground arith

pub widen :
    (c r : Range) (x : ℤ)
    → c.pos ≡ r.pos
    → end c ≤ℤ end r
    → contains c x ≡ true
    → contains r x ≡ true
widen c r x e le i = ground arith

-- What Find promises depends on the slice only through the offsets of `r`.
pub end_inside :
    {f : ℤ → Bool} (r : Range) (out : Range × Range × Bool)
    → Finds f r out
    → is_empty out.1 ≡ false
    → contains r (end out.0) ≡ true
end_inside r out h e =
    let starts = h.starts in
    let size = h.positive in
    let reach = +ℤ_parts out.0.pos out.0.size in
    let more = +ℤ_parts out.1.pos out.1.size in ground (arith, h.left_starts e, h.left_ends e)

Finds-agree :
    (f g : ℤ → Bool) (r : Range) (out : Range × Range × Bool)
    → Finds f r out
    → ((x : ℤ) → contains r x ≡ true → g x ≡ f x)
    → Finds g r out
Finds-agree f g r out h same = record {
  starts = h.starts;
  positive = h.positive;
  within = h.within;
  uniform = λ x i. same x (widen out.0 r x h.starts h.within i) ∙ h.uniform x i;
  left_starts = h.left_starts;
  left_ends = h.left_ends;
  stops = λ e. same (end out.0) (end_inside r out h e) ∙ h.stops e;
  finished = h.finished;
}

find_first :
    (rs : List Range) (r : Range)
    → is_empty r ≡ false
    → search_pos rs r ≡ 0
    → find rs r ≡ after rs r
unfolding find after
find_first [] r e i = rw (e, i)
find_first (b ∷ bs) r e i =
    let inside : leb (suc (length bs)) 0 ≡ false = ground arith in rw (e, i, inside)

find_behind :
    (pre : List Range) (p : Range) (post : List Range) (r : Range)
    → is_empty r ≡ false
    → search_pos (pre ++ p ∷ post) r ≡ suc (length pre)
    → find (pre ++ p ∷ post) r ≡ (
        let prev = intersection p r in
        if not (is_empty prev)
        then (prev, record { pos = end prev; size = r.size -ℤ prev.size }, true)
        else after post r)
unfolding find after
find_behind pre p [] r e i =
    let back : suc (length pre) - 1 ≡ length pre = omega arith in
    let later : ltb 0 (suc (length pre)) ≡ true = ground arith in
    let last : leb (length (pre ++ p ∷ [])) (suc (length pre)) ≡ true =
      ground (arith, length-append pre (p ∷ [])) in
    rw (e, i, back, later, last, get_or-append pre [] p zero_range)
find_behind pre p (b ∷ bs) r e i =
    let back : suc (length pre) - 1 ≡ length pre = omega arith in
    let later : ltb 0 (suc (length pre)) ≡ true = ground arith in
    let inside : leb (length (pre ++ p ∷ b ∷ bs)) (suc (length pre)) ≡ false =
      ground (arith, length-append pre (p ∷ b ∷ bs)) in
    rw (
      e,
      i,
      back,
      later,
      inside,
      get_or-append pre (b ∷ bs) p zero_range,
      get_or-append_suc pre bs p b zero_range,
    )

-- Behind the range `p` before `r`, only what follows `p` matters.
skip_front :
    (b : ℤ) (pre : List Range) (p : Range) (post : List Range) (r : Range) (x : ℤ)
    → From b (pre ++ p ∷ post)
    → p.pos <ℤ r.pos
    → is_empty (intersection p r) ≡ true
    → contains r x ≡ true
    → covers (pre ++ p ∷ post) x ≡ covers post x
unfolding covers
skip_front b pre p post r x f lt e i =
    let out : contains p x ≡ false =
      absent_left (contains (intersection p r) x) (contains p x) (contains r x)
        (empty_contains (intersection p r) x e) (contains-intersection p r x) i in
    let before = covers-above b x pre p post f (ground arith) in
    rw (covers-append pre (p ∷ post) x, before, out)

covers-end_behind :
    (b : ℤ) (pre : List Range) (p : Range) (post : List Range)
    → From b (pre ++ p ∷ post)
    → covers (pre ++ p ∷ post) (end p) ≡ false
covers-end_behind b pre p post f =
    let mid = From-middle b pre p post f in
    rw (
      covers-append pre (p ∷ post) (end p),
      covers-end p post mid.2,
      covers-above b (end p) pre p post f (omega (int_laws, mid.1)),
    )

behind-Finds :
    (pre : List Range) (p : Range) (post : List Range) (r : Range)
    → IsCoalesced (pre ++ p ∷ post)
    → IsPositive r
    → p.pos <ℤ r.pos
    → StartsAt r.pos post
    → search_pos (pre ++ p ∷ post) r ≡ suc (length pre)
    → Finds (covers (pre ++ p ∷ post)) r (find (pre ++ p ∷ post) r)
unfolding covers
behind-Finds pre p post r h pr lt s i =
    let (b, f) = IsCoalesced-From (pre ++ p ∷ post) h in
    let mid = From-middle b pre p post f in
    rw (find_behind pre p post r (ground arith) i)
      (elim (Bool-cases (is_empty (intersection p r))) [
        | inl e ↦ rw e (
            Finds-agree (covers post) (covers (pre ++ p ∷ post)) r (after post r)
              (after-Finds post r pr (From-IsCoalesced (end p) post mid.2) s)
              (λ x c. skip_front b pre p post r x f lt e c))
        | inr e ↦
            let o = intersection-Overlap p r e in
            rw e (
              piece-Finds (covers (pre ++ p ∷ post)) r (intersection p r) true
                (o.starts ∙ max_ℤ_right p.pos r.pos (omega arith)) o.positive o.ends_b
                (λ x c.
                  covers-append pre (p ∷ post) x
                  ∙ bool_behind (covers pre x) (contains p x) (covers post x) (
                      bool_present (contains (intersection p r) x) (contains p x) (contains r x)
                        (covers post x) c (contains-intersection p r x)))
                (λ less.
                  ap (λ z. covers (pre ++ p ∷ post) z)
                    (at_end_of (end p) (end r) (end (intersection p r)) o.ends less)
                  ∙ covers-end_behind b pre p post f))
      ])

-- Find over a sorted and coalesced slice: the piece found starts where the range looked up starts,
-- is not empty and lies inside it; it is wholly covered if the flag says present, and wholly
-- uncovered if not; what is left is the rest of the range, and if nothing is left the piece
-- reaches its end.
pub find-Finds :
    (rs : List Range) (r : Range) → IsCoalesced rs → IsPositive r → Finds (covers rs) r (find rs r)
find-Finds rs r h pr = elim (search_pos-Landing rs r h) [
  | inl (i, s) ↦ rw (find_first rs r (ground arith) i) (after-Finds rs r pr h s)
  | inr l ↦
      subst (λ t. Finds (covers t) r (find t r)) (sym l.whole)
        (behind-Finds l.pre l.p l.post r (subst IsCoalesced l.whole h) pr l.earlier l.later
          (ap (λ t. search_pos t r) (sym l.whole) ∙ l.index))
]
