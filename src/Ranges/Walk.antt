-- ===== src/Ranges/Walk.antt =====
-- Ranges.FindAll and Ranges.Intersection: the loops that call Find until nothing is left.
use rclone_vfs.Prelude.{
  ℕ, zero, suc, ◌+◌, ◌-◌, ◌≤◌, ◌<◌, ◌≡◌, refl, sym, ap, ◌∙◌, ◌⊎◌, inl, inr, Bool, true, false, not,
  ◌&&◌, ◌||◌, List, [], ◌∷◌, ◌++◌, arith, if◌then◌else◌, ◌==◌, ltb, leb, Bool-cases, ℤ, pos_part,
  neg_part, ◌<ℤ◌, ◌≤ℤ◌, ◌+ℤ◌, ◌-ℤ◌, ltb_ℤ, leb_ℤ, length, int_laws, +ℤ_parts, -ℤ_parts, eq_of_parts,
}
use rclone_vfs.Prelude
use rclone_vfs.Ranges.{
  Range, end, is_empty, find, insert, rounds, FoundRange, find_all_loop, find_all, intersect_loop,
  intersect,
}
use rclone_vfs.Ranges.Cover.{IsCoalesced, IsPositive, contains, covers, empty_contains}
use rclone_vfs.Ranges.Piece.{Finds}
use rclone_vfs.Ranges.Find.{find-Finds}
use rclone_vfs.Ranges.Insert.{insert-Inserted}

-- The pieces lie end to end from `a` to `b`, none is empty, and the flag of each says whether `f`
-- holds of all its offsets or of none.
abbrev pub Tiles : (ℤ → Bool) → ℤ → ℤ → List FoundRange → Type 0
Tiles f a b [] = a ≡ b
Tiles f a b (p ∷ ps) =
    (p.r.pos ≡ a)
    × IsPositive p.r
    × ((x : ℤ) → contains p.r x ≡ true → f x ≡ p.present)
    × Tiles f (end p.r) b ps

positive_parts : (z : ℤ) → Prelude.pos 0 <ℤ z → neg_part z ≡ 0
positive_parts (Prelude.pos n) h = refl
positive_parts (Prelude.negsuc n) h = absurd (omega arith)

-- What is left after Find is smaller.
pub rounds_left :
    {f : ℤ → Bool} (r : Range) (out : Range × Range × Bool) (k : ℕ)
    → Finds f r out
    → is_empty out.1 ≡ false
    → rounds r ≤ suc k
    → rounds out.1 ≤ k
rounds_left r out k h e le =
    let starts = h.starts in
    let size = h.positive in
    let left : Prelude.pos 0 <ℤ out.1.size = ground arith in
    let whole = +ℤ_parts r.pos r.size in
    let reach = +ℤ_parts out.0.pos out.0.size in
    let more = +ℤ_parts out.1.pos out.1.size in
    let no_debt = positive_parts out.1.size left in ground (arith, h.left_starts e, h.left_ends e)

find_all_loop-empty :
    (k : ℕ) (rs : List Range) (r : Range) → is_empty r ≡ true → find_all_loop k rs r ≡ []
unfolding find_all_loop
find_all_loop-empty zero rs r e = refl
find_all_loop-empty (suc k) rs r e = rw e

find_all_loop-Tiles :
    (k : ℕ) (rs : List Range) (r : Range)
    → IsCoalesced rs
    → IsPositive r
    → rounds r ≤ k
    → Tiles (covers rs) r.pos (end r) (find_all_loop k rs r)
unfolding find_all_loop
find_all_loop-Tiles zero rs r h pr le = absurd (omega arith)
find_all_loop-Tiles (suc k) rs r h pr le =
    let found = find-Finds rs r h pr in
    let some_left : is_empty r ≡ false = ground arith in
    rw some_left (
      found.starts,
      found.positive,
      found.uniform,
      (elim (Bool-cases (is_empty (find rs r).1)) [
        | inl e ↦ rw (find_all_loop-empty k rs (find rs r).1 e) (found.finished e)
        | inr e ↦
            rw (← found.left_starts e, ← found.left_ends e)
              (find_all_loop-Tiles k rs (find rs r).1 h (ground arith)
                (rounds_left r (find rs r) k found e le))
      ]),
    )

-- FindAll over a sorted and coalesced slice cuts a range that is not empty into pieces that lie
-- end to end from its start to its end, each wholly covered or wholly uncovered as its flag says.
pub find_all-Tiles :
    (rs : List Range) (r : Range)
    → IsCoalesced rs
    → IsPositive r
    → Tiles (covers rs) r.pos (end r) (find_all rs r)
unfolding find_all
find_all-Tiles rs r h pr = find_all_loop-Tiles (rounds r) rs r h pr (omega arith)

-- What the loop of Intersection keeps: its result covers what it had, and what the slice covers of
-- the range still to be walked.
record Walked (rs : List Range) (r : Range) (acc out : List Range) : Type 0 where
  sorted : IsCoalesced out
  covered : (x : ℤ) → covers out x ≡ (covers acc x || (covers rs x && contains r x))

intersect_loop-empty :
    (k : ℕ) (rs : List Range) (r : Range) (acc : List Range)
    → is_empty r ≡ true
    → intersect_loop k rs r acc ≡ acc
unfolding intersect_loop
intersect_loop-empty zero rs r acc e = refl
intersect_loop-empty (suc k) rs r acc e = rw e

-- The range is the piece and what is left of it.
split_range :
    {f : ℤ → Bool} (r : Range) (out : Range × Range × Bool) (x : ℤ)
    → Finds f r out
    → contains r x ≡ (contains out.0 x || contains out.1 x)
split_range r out x h = elim (Bool-cases (is_empty out.1)) [
  | inl e ↦ rw (empty_contains out.1 x e) (ground (arith, h.starts, h.finished e))
  | inr e ↦
      let starts = h.starts in
      let size = h.positive in
      let whole = +ℤ_parts r.pos r.size in
      let reach = +ℤ_parts out.0.pos out.0.size in
      let more = +ℤ_parts out.1.pos out.1.size in ground (arith, h.left_starts e, h.left_ends e)
]

bool_walk :
    (rs acc c n a r : Bool)
    → a ≡ (acc || (rs && c))
    → r ≡ (c || n)
    → (a || (rs && n)) ≡ (acc || (rs && r))
bool_walk rs acc c n a r h k = ground arith

no_rounds : (z : ℤ) → leb_ℤ z (Prelude.pos 0) ≡ true → pos_part z ≡ 0
no_rounds (Prelude.pos n) h = ground arith
no_rounds (Prelude.negsuc n) h = refl

rounds_next :
    {f : ℤ → Bool} (r : Range) (out : Range × Range × Bool) (k : ℕ)
    → Finds f r out
    → rounds r ≤ suc k
    → rounds out.1 ≤ k
rounds_next r out k h le = elim (Bool-cases (is_empty out.1)) [
  | inl e ↦ omega (arith, no_rounds out.1.size e)
  | inr e ↦ rounds_left r out k h e le
]

-- One round: a present piece is inserted, an absent one is not.
keep_piece :
    (rs acc : List Range) (c : Range) (p : Bool)
    → IsCoalesced acc
    → ((x : ℤ) → contains c x ≡ true → covers rs x ≡ p)
    → IsCoalesced (if p then insert acc c else acc)
      × ((x : ℤ)
          → covers (if p then insert acc c else acc) x
            ≡ (covers acc x || (covers rs x && contains c x)))
keep_piece rs acc c true h same =
    let done = insert-Inserted acc c h in (done.0, λ x. ground (arith, done.1 x, same x))
keep_piece rs acc c false h same = (h, λ x. ground (arith, same x))

intersect_loop-Walked :
    (k : ℕ) (rs : List Range) (r : Range) (acc : List Range)
    → IsCoalesced rs
    → IsCoalesced acc
    → rounds r ≤ k
    → Walked rs r acc (intersect_loop k rs r acc)
unfolding intersect_loop
intersect_loop-Walked zero rs r acc h ha le = record {
  sorted = ha;
  covered = λ x. ground (arith, empty_contains r x (ground arith));
}
intersect_loop-Walked (suc k) rs r acc h ha le = elim (Bool-cases (is_empty r)) [
  | inl e ↦ rw e (record { sorted = ha; covered = λ x. ground (arith, empty_contains r x e) })
  | inr e ↦
      let found = find-Finds rs r h (ground arith) in
      let kept = keep_piece rs acc (find rs r).0 (find rs r).2 ha found.uniform in
      let rest =
        intersect_loop-Walked k rs (find rs r).1
          (if (find rs r).2 then insert acc (find rs r).0 else acc) h kept.0
          (rounds_next r (find rs r) k found le) in
      rw e (record {
        sorted = rest.sorted;
        covered = λ x.
            rest.covered x
            ∙ bool_walk (covers rs x) (covers acc x) (contains (find rs r).0 x)
                (contains (find rs r).1 x) _ _ (kept.1 x) (split_range r (find rs r) x found);
      })
]

-- Intersection of a sorted and coalesced slice with a range is sorted and coalesced, and covers
-- exactly the offsets of the range that the slice covers.
pub covers-intersect :
    (rs : List Range) (r : Range)
    → IsCoalesced rs
    → IsCoalesced (intersect rs r)
      × ((x : ℤ) → covers (intersect rs r) x ≡ (covers rs x && contains r x))
unfolding intersect covers
covers-intersect [] r h = (tt, λ x. refl)
covers-intersect (b ∷ bs) r h =
    let full : (suc (length bs) == 0) ≡ false = ground arith in
    let walked = intersect_loop-Walked (rounds r) (b ∷ bs) r [] h tt (omega arith) in
    rw full (walked.sorted, walked.covered)
