-- ===== src/Ranges/Coalesce.antt =====
-- merge and Ranges.coalesce, against an absorption by recursion on the slice.
use rclone_vfs.Prelude.{
  ℕ, suc, ◌-◌, ◌≤◌, ◌≡◌, refl, sym, ap, ◌∙◌, Bool, true, false, ◌||◌, List, [], ◌∷◌, ◌++◌, arith,
  if◌then◌else◌, ltb, Bool-cases, inl, inr, ℤ, pos_part, neg_part, ◌<ℤ◌, ◌≤ℤ◌, ◌+ℤ◌, ◌-ℤ◌, length,
  set, take, drop, int_laws, +ℤ_parts, -ℤ_parts, get_or-append, get_or-append_suc, set-append_suc,
  take-append, drop-append, length-append,
}
use mathlib.Core.List.{append_assoc, append-nil}
use rclone_vfs.Ranges.{Range, end, at, merge, merge_loop, coalesce}
use rclone_vfs.Ranges.Cover.{
  From, IsCoalesced, StartsAt, IsPositive, contains, covers, From-IsCoalesced,
}

-- What merge does to two ranges in order: a refusal leaves a gap between them and changes nothing,
-- and otherwise the second becomes the union.
pub record Merged (a b : Range) (m : Bool × Range) : Type 0 where
  pub apart : m.0 ≡ false → end a <ℤ b.pos
  pub kept : m.0 ≡ false → m.1 ≡ b
  pub starts : m.0 ≡ true → m.1.pos ≡ a.pos
  pub positive : m.0 ≡ true → IsPositive m.1
  pub reaches : m.0 ≡ true → end b ≤ℤ end m.1
  pub union : m.0 ≡ true → (x : ℤ) → contains m.1 x ≡ (contains a x || contains b x)

pub merge-Merged :
    (a b : Range) → a.pos ≤ℤ b.pos → IsPositive a → IsPositive b → Merged a b (merge a b)
unfolding merge
merge-Merged a b le pa pb =
    let sizes = +ℤ_parts a.pos a.size in
    let more = +ℤ_parts b.pos b.size in
    let gap = -ℤ_parts b.pos a.pos in
    let wider = +ℤ_parts b.size (b.pos -ℤ a.pos) in
    let whole = +ℤ_parts a.pos (b.size +ℤ (b.pos -ℤ a.pos)) in
    record {
      apart = λ e. ground arith;
      kept = λ e. ground arith;
      starts = λ e. ground arith;
      positive = λ e. ground arith;
      reaches = λ e. ground arith;
      union = λ e x. ground arith;
    }

-- Everything at the front of the slice that touches `a` goes into it.
pub absorb : Range → List Range → List Range
absorb a [] = a ∷ []
absorb a (b ∷ bs) = let rest = absorb (merge a b).1 bs in if (merge a b).0 then rest else a ∷ b ∷ bs

-- A coalesced slice that stands for the offsets `f`, when nothing is to stand before `p`.
pub record Holds (p : ℤ) (f : ℤ → Bool) (rs : List Range) : Type 0 where
  pub sorted : (c : ℤ) → c <ℤ p → From c rs
  pub covered : (x : ℤ) → covers rs x ≡ f x

pub merged_StartsAt :
    (a b : Range) (bs : List Range)
    → a.pos ≤ℤ b.pos
    → IsPositive a
    → IsCoalesced (b ∷ bs)
    → (merge a b).0 ≡ true
    → StartsAt (merge a b).1.pos bs
merged_StartsAt a b [] s pa h go = tt
merged_StartsAt a b (c ∷ bs) s pa h go = omega (
  int_laws,
  ap (λ z. pos_part z) ((merge-Merged a b s pa h.0).starts go),
  ap (λ z. neg_part z) ((merge-Merged a b s pa h.0).starts go),
  h.1.0,
  h.0,
  s,
)

pub absorb-Holds :
    (a : Range) (bs : List Range)
    → IsPositive a
    → IsCoalesced bs
    → StartsAt a.pos bs
    → Holds a.pos (λ x. contains a x || covers bs x) (absorb a bs)
unfolding absorb covers
absorb-Holds a [] pa h s = record { sorted = λ c lt. (lt, pa, tt); covered = λ x. refl }
absorb-Holds a (b ∷ bs) pa h s =
    let m = merge-Merged a b s pa h.0 in
    elim (Bool-cases (merge a b).0) [
      | inr stop ↦
          rw stop
            (record { sorted = λ c lt. (lt, pa, (m.apart stop, h.0, h.1)); covered = λ x. refl })
      | inl go ↦
          let rest =
            absorb-Holds (merge a b).1 bs (m.positive go) (From-IsCoalesced (end b) bs h.1)
              (merged_StartsAt a b bs s pa h go) in
          rw go (record {
            sorted = λ c lt. rest.sorted c (rw (m.starts go) lt);
            covered = λ x. ground (arith, rest.covered x, m.union go x);
          })
    ]

-- The loop leaves what stands before `a` alone, and behind its last index stands the absorption.
pub record Looped (xs : List Range) (a : Range) (bs : List Range) (l : ℕ × List Range)
    : Type 0 where
  pub tail : List Range
  pub whole : l.1 ≡ xs ++ tail
  pub chopped : drop l.0 l.1 ≡ absorb a bs
  pub index : length xs ≤ l.0

Looped-snoc :
    (xs : List Range) (a b : Range) (cs bs : List Range) (l : ℕ × List Range)
    → Looped (xs ++ a ∷ []) b bs l
    → absorb a cs ≡ absorb b bs
    → Looped xs a cs l
Looped-snoc xs a b cs bs l d e = record {
  tail = a ∷ d.tail;
  whole = d.whole ∙ append_assoc xs (a ∷ []) d.tail;
  chopped = d.chopped ∙ sym e;
  index = omega (arith, d.index, length-append xs (a ∷ []));
}

merge_loop-Looped :
    (xs : List Range) (a : Range) (bs : List Range) (j : ℕ) (rs : List Range)
    → j ≡ length xs
    → rs ≡ xs ++ a ∷ bs
    → Looped xs a bs (merge_loop (length bs) j j rs)
unfolding merge_loop absorb
merge_loop-Looped xs a [] j rs ej er = record {
  tail = a ∷ [];
  whole = er;
  chopped = rw (ej, er) (drop-append xs (a ∷ []));
  index = omega arith;
}
merge_loop-Looped xs a (b ∷ bs) j rs ej er =
    let ea : at rs j ≡ a = rw (ej, er) (get_or-append xs (b ∷ bs) a _) in
    let eb : at rs (suc j) ≡ b = rw (ej, er) (get_or-append_suc xs bs a b _) in
    rw (ea, eb)
      (elim (Bool-cases (merge a b).0) [
        | inr stop ↦ rw stop (record {
          tail = a ∷ b ∷ bs;
          whole = er;
          chopped = rw (ej, er) (drop-append xs (a ∷ b ∷ bs) ∙ sym (rw (stop, absorb)));
          index = omega arith;
        })
        | inl go ↦ rw go (
            Looped-snoc xs a (merge a b).1 (b ∷ bs) bs _
              (merge_loop-Looped (xs ++ a ∷ []) (merge a b).1 bs (suc j)
                (set rs (suc j) (merge a b).1) (omega (arith, length-append xs (a ∷ [])))
                (rw (ej, er) (set-append_suc xs bs a b _ ∙ sym (append_assoc xs (a ∷ []) _))))
              (rw (go, absorb)))
      ])

nil_of_length : (xs : List Range) → length xs ≡ 0 → xs ≡ []
nil_of_length [] e = refl
nil_of_length (x ∷ xs) e = absurd (omega arith)

-- The chop keeps `pre`, drops the range behind it that was merged on, and puts the absorption there.
coalesce_step :
    (pre junk : List Range) (a : Range) (bs : List Range) (start : ℕ) (l : ℕ × List Range)
    → Looped (pre ++ junk) a bs l
    → start ≡ length pre
    → (if ltb start l.0 then take start l.1 ++ drop l.0 l.1 else l.1) ≡ pre ++ absorb a bs
coalesce_step pre junk a bs start l d e = elim (Bool-cases (ltb start l.0)) [
  | inl chop ↦
      rw (chop, d.chopped, e, d.whole, append_assoc pre junk d.tail)
        (ap (λ t. t ++ absorb a bs) (take-append pre (junk ++ d.tail)))
  | inr all ↦
      let size = length-append pre junk in
      let last : l.0 ≡ length (pre ++ junk) = ground (arith, d.index, size) in
      let tail : d.tail ≡ absorb a bs =
        sym (drop-append (pre ++ junk) d.tail)
        ∙ ap (λ t. drop (length (pre ++ junk)) t) (sym d.whole)
        ∙ ap (λ n. drop n l.1) (sym last)
        ∙ d.chopped in
      let none_left : junk ≡ [] = nil_of_length junk (ground (arith, d.index, size)) in
      rw all (
        d.whole
        ∙ ap (λ t. (pre ++ junk) ++ t) tail
        ∙ ap (λ t. (pre ++ t) ++ absorb a bs) none_left
        ∙ append_assoc pre [] (absorb a bs))
]

-- Coalescing at the first index absorbs what follows it.
pub coalesce_front : (y : Range) (zs : List Range) → coalesce (y ∷ zs) 0 ≡ absorb y zs
unfolding coalesce
coalesce_front y zs =
    let rounds : suc (length zs) - 1 - 0 ≡ length zs = omega arith in
    rw rounds (
      coalesce_step [] [] y zs 0 (merge_loop (length zs) 0 0 (y ∷ zs))
        (merge_loop-Looped [] y zs 0 (y ∷ zs) refl refl) refl)

-- Coalescing at a later index also tries the range before it.
pub coalesce_behind :
    (pre : List Range) (p y : Range) (zs : List Range)
    → coalesce (pre ++ p ∷ y ∷ zs) (suc (length pre))
      ≡ pre ++ (if (merge p y).0 then absorb (merge p y).1 zs else p ∷ absorb y zs)
unfolding coalesce
coalesce_behind pre p y zs =
    let back : suc (length pre) - 1 ≡ length pre = omega arith in
    let rounds : length (pre ++ p ∷ y ∷ zs) - 1 - suc (length pre) ≡ length zs =
      omega (arith, length-append pre (p ∷ y ∷ zs)) in
    let not_first : ltb 0 (suc (length pre)) ≡ true = ground arith in
    let snoc : suc (length pre) ≡ length (pre ++ p ∷ []) =
      omega (arith, length-append pre (p ∷ [])) in
    rw (back, rounds, not_first, get_or-append pre (y ∷ zs) p _, get_or-append_suc pre zs p y _)
      (elim (Bool-cases (merge p y).0) [
        | inl go ↦ rw go (
            coalesce_step pre (p ∷ []) (merge p y).1 zs (length pre) _
              (merge_loop-Looped (pre ++ p ∷ []) (merge p y).1 zs (suc (length pre)) _ snoc
                (set-append_suc pre zs p y _ ∙ sym (append_assoc pre (p ∷ []) _)))
              refl)
        | inr stop ↦ rw stop (
            coalesce_step (pre ++ p ∷ []) [] y zs (suc (length pre)) _
              (rw (append-nil (pre ++ p ∷ [])) (
                merge_loop-Looped (pre ++ p ∷ []) y zs (suc (length pre)) _ snoc
                  (sym (append_assoc pre (p ∷ []) (y ∷ zs)))))
              snoc
            ∙ append_assoc pre (p ∷ []) (absorb y zs))
      ])
