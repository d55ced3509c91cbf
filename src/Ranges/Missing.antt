-- ===== src/Ranges/Missing.antt =====
-- Ranges.Present, Ranges.FindMissing and Range.Clip: one call of Find each.
use rclone_vfs.Prelude.{
  ℕ, zero, suc, ◌+◌, ◌-◌, ◌≤◌, ◌<◌, ◌≡◌, refl, sym, ap, ◌∙◌, ◌⊎◌, inl, inr, Bool, true, false, not,
  ◌&&◌, ◌||◌, List, [], ◌∷◌, ◌++◌, arith, if◌then◌else◌, ltb, leb, Bool-cases, ℤ, pos_part,
  neg_part, ◌<ℤ◌, ◌≤ℤ◌, ◌+ℤ◌, ◌-ℤ◌, ltb_ℤ, leb_ℤ, length, int_laws, +ℤ_parts, -ℤ_parts, eq_of_parts,
}
use rclone_vfs.Prelude
use rclone_vfs.Ranges.{Range, end, is_empty, clip, find, present, find_missing}
use rclone_vfs.Ranges.Cover.{IsCoalesced, contains, covers, empty_contains}
use rclone_vfs.Ranges.Piece.{Finds}
use rclone_vfs.Ranges.Find.{find-Finds, end_inside}

-- Clip keeps exactly the offsets of the range that lie below the limit.
pub contains-clip :
    (r : Range) (offset x : ℤ) → contains (clip r offset) x ≡ (contains r x && ltb_ℤ x offset)
unfolding clip
contains-clip r offset x =
    let over = -ℤ_parts (end r) offset in
    let size = -ℤ_parts r.size (end r -ℤ offset) in
    let reach = +ℤ_parts r.pos (r.size -ℤ (end r -ℤ offset)) in
    let whole = +ℤ_parts r.pos r.size in
    let none_left = +ℤ_parts (Prelude.pos 0) (Prelude.pos 0) in
    elim (Bool-cases (leb_ℤ (end r) offset)) [
      | inl e ↦ rw e (ground arith)
      | inr e ↦ elim (Bool-cases (ltb_ℤ (r.size -ℤ (end r -ℤ offset)) (Prelude.pos 0))) [
        | inl n ↦ rw (e, n) (ground arith)
        | inr n ↦ rw (e, n) (ground arith)
      ]
    ]

-- A slice covers a range.
abbrev pub CoversAll : List Range → Range → Type 0
CoversAll rs r = (x : ℤ) → contains r x ≡ true → covers rs x ≡ true

found_all :
    (rs : List Range) (r : Range) (out : Range × Range × Bool)
    → Finds (covers rs) r out
    → out.2 ≡ true
    → is_empty out.1 ≡ true
    → CoversAll rs r
found_all rs r out h p e x i = h.uniform x (ground (arith, h.starts, h.finished e, i)) ∙ p

found_absent :
    (rs : List Range) (r : Range) (out : Range × Range × Bool)
    → Finds (covers rs) r out
    → out.2 ≡ false
    → covers rs r.pos ≡ false
found_absent rs r out h p =
    let size = h.positive in
    let reach = +ℤ_parts out.0.pos out.0.size in h.uniform r.pos (ground (arith, h.starts)) ∙ p

contains_start : (r : Range) → is_empty r ≡ false → contains r r.pos ≡ true
contains_start r e = ground (arith, +ℤ_parts r.pos r.size)

-- Present says true exactly when every offset of the range is covered by the sorted and coalesced
-- slice; of an empty range it says true.
pub present_iff :
    (rs : List Range) (r : Range)
    → IsCoalesced rs
    → (present rs r ≡ true → CoversAll rs r) × (CoversAll rs r → present rs r ≡ true)
unfolding present
present_iff rs r h = elim (Bool-cases (is_empty r)) [
  | inl e ↦ rw e ((λ _ x i. absurd (ground (arith, empty_contains r x e))), λ _. refl)
  | inr e ↦
      let found = find-Finds rs r h (ground arith) in
      elim (Bool-cases (find rs r).2) [
        | inr p ↦
            rw (e, p)
              (
                (λ q. cc),
                λ all. absurd (
                    ground (
                      arith,
                      found_absent rs r (find rs r) found p,
                      all r.pos (contains_start r e),
                    )),
              )
        | inl p ↦ elim (Bool-cases (is_empty (find rs r).1)) [
          | inl d ↦ rw (e, p, d) ((λ _. found_all rs r (find rs r) found p d), λ _. refl)
          | inr d ↦
              rw (e, p, d)
                (
                  (λ q. cc),
                  λ all. absurd (
                      ground (
                        arith,
                        found.stops d,
                        p,
                        all (end (find rs r).0) (end_inside r (find rs r) found d),
                      )),
                )
        ]
      ]
]

-- What FindMissing promises.
pub record Missing (rs : List Range) (r out : Range) : Type 0 where
  pub ends : end out ≡ end r
  pub starts : r.pos ≤ℤ out.pos
  pub skipped : (x : ℤ) → contains r x ≡ true → x <ℤ out.pos → covers rs x ≡ true
  pub wanted : is_empty out ≡ false → covers rs out.pos ≡ false

-- Where the piece found leaves some of the range, Find says so.
some_left :
    (rs : List Range) (r : Range) (out : Range × Range × Bool)
    → Finds (covers rs) r out
    → leb_ℤ (r.size -ℤ (end out.0 -ℤ r.pos)) (Prelude.pos 0) ≡ false
    → is_empty out.1 ≡ false
some_left rs r out h n = elim (Bool-cases (is_empty out.1)) [
  | inr e ↦ e
  | inl e ↦
      let gone = -ℤ_parts (end out.0) r.pos in
      let size = -ℤ_parts r.size (end out.0 -ℤ r.pos) in
      let whole = +ℤ_parts r.pos r.size in absurd (ground (arith, h.finished e))
]

-- FindMissing over a sorted and coalesced slice drops from the front of the range exactly what is
-- covered: the end stays where it was, every offset dropped is covered, and the first offset of
-- what is returned, if there is one, is not.
pub find_missing-Missing :
    (rs : List Range) (r : Range) → IsCoalesced rs → Missing rs r (find_missing rs r)
unfolding find_missing
find_missing-Missing rs r h = elim (Bool-cases (is_empty r)) [
  | inl e ↦ rw e (record {
    ends = refl;
    starts = omega arith;
    skipped = λ x i lt. absurd (ground arith);
    wanted = λ n. cc;
  })
  | inr e ↦
      let found = find-Finds rs r h (ground arith) in
      elim (Bool-cases (find rs r).2) [
        | inr p ↦
            rw (e, p)
              (record {
                ends = refl;
                starts = omega arith;
                skipped = λ x i lt. absurd (ground arith);
                wanted = λ n. found_absent rs r (find rs r) found p;
              })
        | inl p ↦
            let c = (find rs r).0 in
            let gone = -ℤ_parts (end c) r.pos in
            let size = -ℤ_parts r.size (end c -ℤ r.pos) in
            let reach = +ℤ_parts (end c) (r.size -ℤ (end c -ℤ r.pos)) in
            let whole = +ℤ_parts r.pos r.size in
            let piece = +ℤ_parts c.pos c.size in
            rw (e, p)
              (record {
                ends = eq_of_parts _ _ (omega arith);
                starts = ground (arith, found.starts, found.positive);
                skipped = λ x i lt. found.uniform x (ground (arith, found.starts)) ∙ p;
                wanted = λ n. found.stops (some_left rs r (find rs r) found n) ∙ ap not p;
              })
      ]
]
