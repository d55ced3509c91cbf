-- ===== src/Ranges/Search.antt =====
-- sort.Search over a test that switches once, and Ranges.search over a coalesced slice.
use rclone_vfs.Prelude.{
  ℕ, zero, suc, ◌+◌, ◌/◌, ◌≤◌, ◌<◌, ◌≡◌, refl, ◌⊎◌, inl, inr, Bool, true, false, List, [], ◌∷◌,
  ◌++◌, arith, ltb, Bool-cases, ap, ℤ, ◌<ℤ◌, ◌≤ℤ◌, leb_ℤ, length, int_laws,
}
use rclone_vfs.Ranges.{Range, end, at, sort_search_loop, sort_search, search_pos}
use rclone_vfs.Ranges.Cover.{From, IsCoalesced, StartsAt, From-IsCoalesced}

-- The test holds from some index on.
abbrev pub Switches : ℕ → (ℕ → Bool) → Type 0
Switches n f = (i j : ℕ) → i ≤ j → j < n → f i ≡ true → f j ≡ true

-- `r` is the first index below `n` at which the test holds, or `n`.
pub record IsFirst (n : ℕ) (f : ℕ → Bool) (r : ℕ) : Type 0 where
  pub bounded : r ≤ n
  pub before : (k : ℕ) → k < r → f k ≡ false
  pub from : r < n → f r ≡ true

false_of : (f : ℕ → Bool) (n m h : ℕ) → Switches n f → f m ≡ true → f h ≡ false → m ≤ h → h < n → ⊥
false_of f n m h s v u le lt = ground (arith, s m h le lt v)

sort_search_loop-IsFirst :
    (fuel i j n : ℕ) (f : ℕ → Bool)
    → Switches n f
    → i ≤ j
    → j ≤ n
    → j ≤ i + fuel
    → ((k : ℕ) → k < i → f k ≡ false)
    → (j < n → f j ≡ true)
    → IsFirst n f (sort_search_loop fuel i j f)
unfolding sort_search_loop
sort_search_loop-IsFirst zero i j n f s ij jn fuel below above =
    let e : i ≡ j = omega arith in
    record { bounded = omega arith; before = below; from = λ h. rw e (above (omega arith)) }
sort_search_loop-IsFirst (suc k) i j n f s ij jn fuel below above =
    let h = (i + j) / 2 in
    elim (Bool-cases (ltb i j)) [
      | inr stop ↦ rw stop (record {
        bounded = omega arith;
        before = below;
        from = λ lt. let e : i ≡ j = ground arith in rw e (above (omega arith));
      })
      | inl go ↦ elim (Bool-cases (f h)) [
        | inl t ↦
            rw (go, t)
              (sort_search_loop-IsFirst k i h n f s (ground arith) (ground arith) (ground arith)
                below (λ _. t))
        | inr u ↦
            rw (go, u)
              (sort_search_loop-IsFirst k (h + 1) j n f s (ground arith) jn (ground arith)
                (λ m lt. elim (Bool-cases (f m)) [
                  | inl v ↦ absurd (false_of f n m h s v u (omega arith) (ground arith))
                  | inr v ↦ v
                ])
                above)
      ]
    ]

-- sort.Search finds the first index at which the test holds, within as many rounds as there are
-- indices.
pub sort_search-IsFirst : (n : ℕ) (f : ℕ → Bool) → Switches n f → IsFirst n f (sort_search n f)
unfolding sort_search
sort_search-IsFirst n f s =
    sort_search_loop-IsFirst n 0 n n f s (omega arith) (omega arith) (omega arith)
      (λ k lt. absurd (omega arith)) (λ lt. absurd (omega arith))

at_above : (b : ℤ) (rs : List Range) (i : ℕ) → From b rs → i < length rs → b <ℤ (at rs i).pos
at_above b [] i h lt = elim lt [ ]
at_above b (r ∷ rs) zero h lt = h.0
at_above b (r ∷ rs) (suc i) h lt =
    omega (int_laws, at_above (end r) rs i h.2 (omega arith), h.0, h.1)

at_mono :
    (rs : List Range) (i j : ℕ)
    → IsCoalesced rs
    → i ≤ j
    → j < length rs
    → (at rs i).pos ≤ℤ (at rs j).pos
at_mono [] i j h le lt = elim lt [ ]
at_mono (r ∷ rs) zero zero h le lt = omega arith
at_mono (r ∷ rs) zero (suc j) h le lt =
    omega (int_laws, at_above (end r) rs j h.1 (omega arith), h.0)
at_mono (r ∷ rs) (suc i) zero h le lt = absurd (omega arith)
at_mono (r ∷ rs) (suc i) (suc j) h le lt =
    at_mono rs i j (From-IsCoalesced (end r) rs h.1) (omega arith) (omega arith)

-- Ranges.search finds the first range that begins at or after `r`.
search_pos-IsFirst :
    (rs : List Range) (r : Range)
    → IsCoalesced rs
    → IsFirst (length rs) (λ i. leb_ℤ r.pos (at rs i).pos) (search_pos rs r)
unfolding search_pos
search_pos-IsFirst rs r h =
    sort_search-IsFirst (length rs) (λ i. leb_ℤ r.pos (at rs i).pos)
      (λ i j le lt t. ground (arith, at_mono rs i j h le lt))

-- Where the search lands: before every range, or just behind the last range `p` that begins
-- before `r`.
pub record Lands (rs : List Range) (r : Range) (i : ℕ) : Type 0 where
  pub pre : List Range
  pub p : Range
  pub post : List Range
  pub whole : rs ≡ pre ++ p ∷ post
  pub index : i ≡ suc (length pre)
  pub earlier : p.pos <ℤ r.pos
  pub later : StartsAt r.pos post

abbrev pub Landing : List Range → Range → ℕ → Type 0
Landing rs r i = ((i ≡ 0) × StartsAt r.pos rs) ⊎ Lands rs r i

IsFirst-Landing :
    (rs : List Range) (r : Range) (i : ℕ)
    → IsFirst (length rs) (λ i. leb_ℤ r.pos (at rs i).pos) i
    → Landing rs r i
IsFirst-Landing [] r i h = inl (omega (arith, h.bounded), tt)
IsFirst-Landing (s ∷ rs) r zero h = inl (refl, ground (arith, h.from (omega arith)))
IsFirst-Landing (s ∷ rs) r (suc i) h = elim (IsFirst-Landing rs r i tail_first) [
  | inl (e, later) ↦ inr (record {
    pre = [];
    p = s;
    post = rs;
    whole = refl;
    index = ap suc e;
    earlier = ground (arith, h.before 0 (omega arith));
    later = later;
  })
  | inr l ↦ inr (record {
    pre = s ∷ l.pre;
    p = l.p;
    post = l.post;
    whole = ap (λ x. s ∷ x) l.whole;
    index = ap suc l.index;
    earlier = l.earlier;
    later = l.later;
  })
]
  where
    tail_first : IsFirst (length rs) (λ i. leb_ℤ r.pos (at rs i).pos) i
    tail_first = record {
      bounded = omega (arith, h.bounded);
      before = λ k lt. h.before (suc k) (omega arith);
      from = λ lt. h.from (omega arith);
    }

pub search_pos-Landing :
    (rs : List Range) (r : Range) → IsCoalesced rs → Landing rs r (search_pos rs r)
search_pos-Landing rs r h = IsFirst-Landing rs r (search_pos rs r) (search_pos-IsFirst rs r h)
