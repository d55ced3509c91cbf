-- ===== src/Ranges/Insert.antt =====
-- Ranges.Insert keeps the slice sorted and coalesced, and covers one range more.
use rclone_vfs.Prelude.{
  ℕ, zero, suc, ◌+◌, ◌-◌, ◌≤◌, ◌<◌, ◌≡◌, refl, sym, ap, ◌∙◌, ◌⊎◌, inl, inr, Bool, true, false, not,
  ◌||◌, List, [], ◌∷◌, ◌++◌, arith, if◌then◌else◌, ltb, ◌==◌, Bool-cases, ℤ, ◌<ℤ◌, ◌≤ℤ◌, ◌+ℤ◌, ◌-ℤ◌,
  length, set, take, drop, int_laws, +ℤ_parts, get_or-append, get_or-append_suc, set-append,
  set-append_suc, take-append, drop-append, take-append_suc, drop-append_suc, length-append,
}
use rclone_vfs.Prelude
use mathlib.Core.Path.{subst}
use mathlib.Core.List.{append_assoc}
use rclone_vfs.Ranges.{Range, end, at, is_empty, merge, coalesce, search_pos, insert}
use rclone_vfs.Ranges.Cover.{
  IsCoalesced, StartsAt, IsPositive, contains, covers, empty_contains, From-IsCoalesced,
  From-middle, From-replace, covers-append, StartsAt-mono, IsCoalesced-From,
}
use rclone_vfs.Ranges.Search.{search_pos-Landing}
use rclone_vfs.Ranges.Coalesce.{
  merged_StartsAt, merge-Merged, absorb, Holds, absorb-Holds, coalesce_front, coalesce_behind,
}

-- The new range `y` with what follows it, after Insert has placed it: the range put in, or the
-- first range behind it with the new one merged in.
abbrev place : Range → List Range → Range × List Range
place r [] = (r, [])
place r (s ∷ ss) = if (merge r s).0 then ((merge r s).1, ss) else (r, s ∷ ss)

-- What placing promises.
record Placed (r : Range) (post : List Range) (y : Range) (zs : List Range) : Type 0 where
  starts : y.pos ≡ r.pos
  positive : IsPositive y
  sorted : IsCoalesced zs
  later : StartsAt y.pos zs
  same : (x : ℤ) → (contains y x || covers zs x) ≡ (contains r x || covers post x)

place-Placed :
    (r : Range) (post : List Range)
    → IsPositive r
    → IsCoalesced post
    → StartsAt r.pos post
    → Placed r post (place r post).0 (place r post).1
unfolding covers
place-Placed r [] pr h s = record {
  starts = refl;
  positive = pr;
  sorted = tt;
  later = tt;
  same = λ x. refl;
}
place-Placed r (b ∷ bs) pr h s =
    let m = merge-Merged r b s pr h.0 in
    elim (Bool-cases (merge r b).0) [
      | inr stop ↦
          rw stop (record { starts = refl; positive = pr; sorted = h; later = s; same = λ x. refl })
      | inl go ↦ rw go (record {
        starts = m.starts go;
        positive = m.positive go;
        sorted = From-IsCoalesced (end b) bs h.1;
        later = merged_StartsAt r b bs s pr h go;
        same = λ x. ground (arith, m.union go x);
      })
    ]

-- The range before the new one, with the new one behind it or merged into it.
push : Range → Range → List Range → List Range
push p y zs = if (merge p y).0 then absorb (merge p y).1 zs else p ∷ absorb y zs

push-Holds :
    (p y : Range) (zs : List Range)
    → IsPositive p
    → p.pos ≤ℤ y.pos
    → IsPositive y
    → IsCoalesced zs
    → StartsAt y.pos zs
    → Holds p.pos (λ x. contains p x || (contains y x || covers zs x)) (push p y zs)
unfolding push covers
push-Holds p y zs pp le py h s =
    let m = merge-Merged p y le pp py in
    elim (Bool-cases (merge p y).0) [
      | inl go ↦
          let rest =
            absorb-Holds (merge p y).1 zs (m.positive go) h
              (rw (m.starts go) (StartsAt-mono p.pos y.pos zs le s)) in
          rw go (record {
            sorted = λ c lt. rest.sorted c (rw (m.starts go) lt);
            covered = λ x. ground (arith, rest.covered x, m.union go x);
          })
      | inr stop ↦
          let rest = absorb-Holds y zs py h s in
          rw stop (record {
            sorted = λ c lt. (lt, pp, rest.sorted (end p) (m.apart stop));
            covered = λ x. ground (arith, rest.covered x);
          })
    ]

-- The slice that Insert hands to coalesce.
placed : List Range → ℕ → Range → List Range
placed rs i r =
    let m = merge r (at rs i) in
    if i == length rs || not m.0 then take i rs ++ r ∷ drop i rs else set rs i m.1

placed_front :
    (r b : Range) (bs : List Range)
    → placed (b ∷ bs) 0 r ≡ (place r (b ∷ bs)).0 ∷ (place r (b ∷ bs)).1
unfolding placed
placed_front r b bs = ground arith

placed_behind :
    (r : Range) (pre : List Range) (p : Range) (post : List Range)
    → placed (pre ++ p ∷ post) (suc (length pre)) r ≡ pre ++ p ∷ (place r post).0 ∷ (place r post).1
unfolding placed
placed_behind r pre p [] =
    let last : (suc (length pre) == length (pre ++ p ∷ [])) ≡ true =
      ground (arith, length-append pre (p ∷ [])) in
    rw (last, take-append_suc pre [] p, drop-append_suc pre [] p)
      (append_assoc pre (p ∷ []) (r ∷ []))
placed_behind r pre p (b ∷ bs) =
    let inside : (suc (length pre) == length (pre ++ p ∷ b ∷ bs)) ≡ false =
      ground (arith, length-append pre (p ∷ b ∷ bs)) in
    rw
      (
        inside,
        get_or-append_suc pre bs p b _,
        take-append_suc pre (b ∷ bs) p,
        drop-append_suc pre (b ∷ bs) p,
      )
      (elim (Bool-cases (merge r b).0) [
        | inl go ↦ rw go (set-append_suc pre bs p b _)
        | inr stop ↦ rw stop (append_assoc pre (p ∷ []) (r ∷ b ∷ bs))
      ])

-- What Insert promises: the slice stays coalesced, and covers the new range and what it covered.
abbrev pub Inserted : Range → List Range → List Range → Type 0
Inserted r rs out = IsCoalesced out × ((x : ℤ) → covers out x ≡ (contains r x || covers rs x))

insert_front :
    (r b : Range) (bs : List Range)
    → IsPositive r
    → IsCoalesced (b ∷ bs)
    → StartsAt r.pos (b ∷ bs)
    → Inserted r (b ∷ bs) (coalesce (placed (b ∷ bs) 0 r) 0)
insert_front r b bs pr h s =
    let (y, zs) = place r (b ∷ bs) in
    let pl = place-Placed r (b ∷ bs) pr h s in
    let held = absorb-Holds y zs pl.positive pl.sorted pl.later in
    rw (placed_front r b bs, coalesce_front y zs)
      (
        From-IsCoalesced (y.pos -ℤ Prelude.pos 1) (absorb y zs) (held.sorted _ (omega int_laws)),
        λ x. held.covered x ∙ pl.same x,
      )

bool_regroup :
    (pre a p n z o w : Bool)
    → a ≡ (p || (n || z))
    → (n || z) ≡ (o || w)
    → (pre || a) ≡ (o || (pre || (p || w)))
bool_regroup pre a p n z o w h k = ground arith

insert_behind :
    (r : Range) (pre : List Range) (p : Range) (post : List Range)
    → IsPositive r
    → IsCoalesced (pre ++ p ∷ post)
    → p.pos <ℤ r.pos
    → StartsAt r.pos post
    → Inserted r
        (pre ++ p ∷ post)
        (coalesce (placed (pre ++ p ∷ post) (suc (length pre)) r) (suc (length pre)))
unfolding push covers
insert_behind r pre p post pr h lt s =
    let (b, f) = IsCoalesced-From (pre ++ p ∷ post) h in
    let mid = From-middle b pre p post f in
    let pl = place-Placed r post pr (From-IsCoalesced (end p) post mid.2) s in
    let held =
      push-Holds p (place r post).0 (place r post).1 mid.1 (rw pl.starts (omega arith)) pl.positive
        pl.sorted pl.later in
    rw (placed_behind r pre p post, coalesce_behind pre p (place r post).0 (place r post).1)
      (
        From-IsCoalesced b _ (From-replace b pre p post _ f held.sorted),
        λ x.
            rw
              (
                covers-append pre (push p (place r post).0 (place r post).1) x,
                covers-append pre (p ∷ post) x,
              )
              (bool_regroup (covers pre x) _ (contains p x) (contains (place r post).0 x)
                (covers (place r post).1 x) (contains r x) (covers post x) (held.covered x)
                (pl.same x)),
      )

insert_empty :
    (rs : List Range) (r : Range) → IsCoalesced rs → is_empty r ≡ true → Inserted r rs (insert rs r)
unfolding insert
insert_empty rs r h e = rw e (h, λ x. ground (arith, empty_contains r x e))

insert_nil : (r : Range) → Inserted r [] (insert [] r)
unfolding insert covers
insert_nil r = elim (Bool-cases (is_empty r)) [
  | inl e ↦ insert_empty [] r tt e
  | inr e ↦ rw e ((ground arith, tt), λ x. refl)
]

insert_step :
    (b : Range) (bs : List Range) (r : Range)
    → is_empty r ≡ false
    → insert (b ∷ bs) r
      ≡ coalesce (placed (b ∷ bs) (search_pos (b ∷ bs) r) r) (search_pos (b ∷ bs) r)
unfolding insert placed
insert_step b bs r e = let full : (suc (length bs) == 0) ≡ false = ground arith in rw (e, full)

-- Insert keeps a sorted and coalesced slice sorted and coalesced, and afterwards exactly the
-- offsets of the new range and those of the old slice are covered, whatever range is inserted.
pub insert-Inserted : (rs : List Range) (r : Range) → IsCoalesced rs → Inserted r rs (insert rs r)
insert-Inserted [] r h = insert_nil r
insert-Inserted (b ∷ bs) r h = elim (Bool-cases (is_empty r)) [
  | inl e ↦ insert_empty (b ∷ bs) r h e
  | inr e ↦ rw (insert_step b bs r e) (elim (search_pos-Landing (b ∷ bs) r h) [
    | inl (i, s) ↦ rw i (insert_front r b bs (ground arith) h s)
    | inr l ↦
        rw (l.index, l.whole)
          (insert_behind r l.pre l.p l.post (ground arith) (subst IsCoalesced l.whole h) l.earlier
            l.later)
  ])
]
