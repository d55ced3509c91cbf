-- ===== src/Ranges/Cover.antt =====
-- What a slice of ranges stands for (the offsets that it covers), and what it means that it is
-- sorted and coalesced.
use rclone_vfs.Prelude.{
  ◌≡◌, refl, sym, ◌∙◌, Bool, true, false, ◌&&◌, ◌||◌, List, [], ◌∷◌, ◌++◌, arith, Bool-cases,
  and_true, or_false, inl, inr, ℤ, ◌≤ℤ◌, ◌<ℤ◌, ◌+ℤ◌, ◌-ℤ◌, ltb_ℤ, leb_ℤ, max_ℤ, min_ℤ, max_ℤ_cases,
  min_ℤ_cases, int_laws, +ℤ_parts, -ℤ_parts, eq_of_parts,
}
use rclone_vfs.Prelude
use rclone_vfs.Ranges.{Range, end, is_empty, zero_range, intersection}

-- Whether an offset lies in a range, and in some range of a slice.
abbrev pub contains : Range → ℤ → Bool
contains r x = leb_ℤ r.pos x && ltb_ℤ x (end r)

unfoldable pub covers : List Range → ℤ → Bool
covers [] x = false
covers (r ∷ rs) x = contains r x || covers rs x

-- An empty range holds no offset.
pub empty_contains : (r : Range) (x : ℤ) → is_empty r ≡ true → contains r x ≡ false
empty_contains r x e = ground (arith, +ℤ_parts r.pos r.size)

abbrev pub IsPositive : Range → Type 0
IsPositive r = Prelude.pos 0 <ℤ r.size

-- Every range begins above the end of the one before it, with a gap, and the first above `b`.
abbrev pub From : ℤ → List Range → Type 0
From b [] = Unit {0}
From b (r ∷ rs) = (b <ℤ r.pos) × IsPositive r × From (end r) rs

-- Sorted, no two ranges touch, none is empty.
abbrev pub IsCoalesced : List Range → Type 0
IsCoalesced [] = Unit {0}
IsCoalesced (r ∷ rs) = IsPositive r × From (end r) rs

-- No range begins before `p`.
abbrev pub StartsAt : ℤ → List Range → Type 0
StartsAt p [] = Unit {0}
StartsAt p (r ∷ rs) = p ≤ℤ r.pos

pub From-IsCoalesced : (b : ℤ) (rs : List Range) → From b rs → IsCoalesced rs
From-IsCoalesced b [] h = tt
From-IsCoalesced b (r ∷ rs) h = (h.1, h.2)

pub IsCoalesced-From : (rs : List Range) → IsCoalesced rs → (b : ℤ) × From b rs
IsCoalesced-From [] h = (Prelude.pos 0, tt)
IsCoalesced-From (r ∷ rs) h = (r.pos -ℤ Prelude.pos 1, (omega int_laws, h.0, h.1))

pub From-mono : (a b : ℤ) (rs : List Range) → a ≤ℤ b → From b rs → From a rs
From-mono a b [] h f = tt
From-mono a b (r ∷ rs) h f = (omega arith, f.1, f.2)

pub From-StartsAt : (b : ℤ) (rs : List Range) → From b rs → StartsAt b rs
From-StartsAt b [] h = tt
From-StartsAt b (r ∷ rs) h = omega arith

pub StartsAt-mono : (a b : ℤ) (rs : List Range) → a ≤ℤ b → StartsAt b rs → StartsAt a rs
StartsAt-mono a b [] h s = tt
StartsAt-mono a b (r ∷ rs) h s = omega arith

pub StartsAt-From :
    (b p : ℤ) (rs : List Range) → IsCoalesced rs → StartsAt p rs → b <ℤ p → From b rs
StartsAt-From b p [] h s lt = tt
StartsAt-From b p (r ∷ rs) h s lt = (omega arith, h.0, h.1)

-- Nothing is covered before the first range.
pub covers-below :
    (p x : ℤ) (rs : List Range) → IsCoalesced rs → StartsAt p rs → x <ℤ p → covers rs x ≡ false
unfolding covers
covers-below p x [] h s lt = refl
covers-below p x (r ∷ rs) h s lt =
    let rest =
      covers-below (end r) x rs (From-IsCoalesced (end r) rs h.1) (From-StartsAt (end r) rs h.1)
        (omega int_laws) in
    ground (arith, rest)

-- Nor at the end of a range before it.
pub covers-gap : (b x : ℤ) (rs : List Range) → From b rs → x ≤ℤ b → covers rs x ≡ false
unfolding covers
covers-gap b x [] h le = refl
covers-gap b x (r ∷ rs) h le =
    let rest = covers-gap (end r) x rs h.2 (omega int_laws) in ground (arith, rest)

pub covers-append :
    (xs ys : List Range) (x : ℤ) → covers (xs ++ ys) x ≡ (covers xs x || covers ys x)
unfolding covers
covers-append [] ys x = refl
covers-append (r ∷ xs) ys x = ground (arith, covers-append xs ys x)

-- The range in the middle begins above the bound, and itself starts a coalesced slice.
pub From-middle :
    (b : ℤ) (pre : List Range) (p : Range) (post : List Range)
    → From b (pre ++ p ∷ post)
    → (b <ℤ p.pos) × IsPositive p × From (end p) post
From-middle b [] p post h = h
From-middle b (r ∷ pre) p post h =
    let m = From-middle (end r) pre p post h.2 in (omega (int_laws, m.0), m.1, m.2)

-- A tail may be replaced by another that begins no earlier.
pub From-replace :
    (b : ℤ) (pre : List Range) (p : Range) (post tail : List Range)
    → From b (pre ++ p ∷ post)
    → ((c : ℤ) → c <ℤ p.pos → From c tail)
    → From b (pre ++ tail)
From-replace b [] p post tail h f = f b h.0
From-replace b (r ∷ pre) p post tail h f = (h.0, h.1, From-replace (end r) pre p post tail h.2 f)

-- Nothing of what stands before a range reaches its start.
pub covers-above :
    (b x : ℤ) (pre : List Range) (p : Range) (post : List Range)
    → From b (pre ++ p ∷ post)
    → p.pos ≤ℤ x
    → covers pre x ≡ false
unfolding covers
covers-above b x [] p post h le = refl
covers-above b x (r ∷ pre) p post h le =
    let rest = covers-above (end r) x pre p post h.2 le in
    let below = (From-middle (end r) pre p post h.2).0 in ground (arith, rest, below)

-- The condition under which Range.Intersection finds common offsets.
abbrev overlap : Range → Range → Bool
overlap r b =
    (leb_ℤ b.pos r.pos && ltb_ℤ r.pos (end b)) || (leb_ℤ r.pos b.pos && ltb_ℤ b.pos (end r))

both_overlap :
    (a b : Range) (x : ℤ) → (contains a x && contains b x) ≡ true → overlap a b ≡ false → ⊥
both_overlap a b x e t =
    let (ea, eb) = and_true (contains a x) (contains b x) e in
    let (no_a, no_b) =
      or_false (leb_ℤ b.pos a.pos && ltb_ℤ a.pos (end b)) (leb_ℤ a.pos b.pos && ltb_ℤ b.pos (end a))
        t in
    ground arith

apart : (a b : Range) (x : ℤ) → overlap a b ≡ false → (contains a x && contains b x) ≡ false
apart a b x t = elim (Bool-cases (contains a x && contains b x)) [
  | inr e ↦ e
  | inl e ↦ absurd (both_overlap a b x e t)
]

-- The intersection holds exactly the offsets that both ranges hold.
pub contains-intersection :
    (a b : Range) (x : ℤ) → contains (intersection a b) x ≡ (contains a x && contains b x)
unfolding intersection
contains-intersection a b x =
    let s = max_ℤ a.pos b.pos in
    let e = min_ℤ (end a) (end b) in
    let most = max_ℤ_cases a.pos b.pos in
    let least = min_ℤ_cases (end a) (end b) in
    let size = -ℤ_parts e s in
    let reach = +ℤ_parts s (e -ℤ s) in
    elim (Bool-cases (overlap a b)) [
      | inl t ↦ rw t (ground arith)
      | inr t ↦ rw t (empty_contains zero_range x (ground arith) ∙ sym (apart a b x t))
    ]

-- What is known of an intersection that is not empty.
pub record Overlap (a b f : Range) : Type 0 where
  pub starts : f.pos ≡ max_ℤ a.pos b.pos
  pub ends : end f ≡ min_ℤ (end a) (end b)
  pub ends_a : end f ≤ℤ end a
  pub ends_b : end f ≤ℤ end b
  pub positive : IsPositive f

pub intersection-Overlap :
    (a b : Range) → is_empty (intersection a b) ≡ false → Overlap a b (intersection a b)
unfolding intersection
intersection-Overlap a b h =
    let s = max_ℤ a.pos b.pos in
    let e = min_ℤ (end a) (end b) in
    let cases = min_ℤ_cases (end a) (end b) in
    let size = -ℤ_parts e s in
    let reach = +ℤ_parts s (e -ℤ s) in
    record {
      starts = ground arith;
      ends = ground (arith, eq_of_parts (s +ℤ (e -ℤ s)) e);
      ends_a = ground arith;
      ends_b = ground arith;
      positive = ground arith;
    }
