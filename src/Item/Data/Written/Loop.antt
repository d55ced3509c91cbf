-- ===== src/Item/Data/Written/Loop.antt =====
-- WriteAtNoOverwrite goes through the pieces of what it is given: what it writes, and what it leaves.
use rclone_vfs.Prelude.{
  or_assoc, ℕ, zero, suc, ◌+◌, ◌-◌, ◌≤◌, ◌<◌, ◌≡◌, refl, sym, ap, ◌∙◌, ◌⊎◌, inl, inr, Bool, true,
  false, not, ◌&&◌, ◌||◌, Option, none, some, List, [], ◌∷◌, arith, if◌then◌else◌, ltb, leb, ◌==◌,
  ℤ, ◌+ℤ◌, ◌-ℤ◌, ◌≤ℤ◌, ◌<ℤ◌, ltb_ℤ, leb_ℤ, eqb_ℤ, update, length, take, drop, get_or, pos_part,
  neg_part, Bool-cases, Option-cases, int_laws, +ℤ_parts, -ℤ_parts, eq_of_parts, length-take,
  length-drop,
}
use rclone_vfs.Prelude
use mathlib.Core.Path.{subst}
use rclone_vfs.Ranges.{Range, FoundRange, find_all, end}
use rclone_vfs.Ranges.Cover.{IsCoalesced, contains, covers}
use rclone_vfs.Ranges.Walk.{Tiles, find_all-Tiles}
use rclone_vfs.Item.{ItemError, State, Os, written}
use rclone_vfs.Item.Data.{
  size_of, fd_write_at, short_err, Overwrite, no_overwrite_loop, write_at_no_overwrite,
}
use rclone_vfs.Item.Data.Written.{
  sum_assoc, Put-take, empty_contains, not_both, fd_write_at-Put, within, Grown, written_piece,
  skipped_piece, covers_more, Grown-then,
}

-- What WriteAtNoOverwrite has done when it returns.
pub record Overwritten (orig : ℤ → Bool) (st : State) (b : List ℕ) (off : ℤ) (n : ℕ)
    (out : Overwrite × State) : Type 0 where
  pub m : ℕ
  pub counted : out.0.n ≡ n + m
  pub few : m ≤ length b
  pub all : out.0.err ≡ none → m ≡ length b
  pub grown : Grown orig b st off m out.1

if-Overwritten :
    (orig : ℤ → Bool) (st : State) (b : List ℕ) (off : ℤ) (n : ℕ) (t : Bool)
    (x y : Overwrite × State)
    → (t ≡ true → Overwritten orig st b off n x)
    → (t ≡ false → Overwritten orig st b off n y)
    → Overwritten orig st b off n (if t then x else y)
if-Overwritten orig st b off n true x y v w = v refl
if-Overwritten orig st b off n false x y v w = w refl

-- A piece of `size` bytes comes before the rest.
more_filled :
    (orig : ℤ → Bool) (st mid : State) (b : List ℕ) (off : ℤ) (n size : ℕ) (out : Overwrite × State)
    → size ≤ length b
    → Grown orig b st off size mid
    → Overwritten orig mid (drop size b) (off +ℤ Prelude.pos size) (n + size) out
    → Overwritten orig st b off n out
more_filled orig st mid b off n size out le g f = record {
  m = size + f.m;
  counted = omega (arith, f.counted);
  few = omega (arith, f.few, length-drop size b);
  all = λ e. omega (arith, f.all e, length-drop size b);
  grown = Grown-then orig b off size f.m st mid out.1 g f.grown;
}

-- After a piece is written the loop goes on or ends with its error.
after_piece :
    (orig : ℤ → Bool) (st mid : State) (b : List ℕ) (off : ℤ) (n nn skipped : ℕ)
    (err : Option ItemError) (next : Overwrite × State)
    → nn ≤ length b
    → Grown orig b st off nn mid
    → (err ≡ none → Overwritten orig mid (drop nn b) (off +ℤ Prelude.pos nn) (n + nn) next)
    → Overwritten orig st b off n (elim err [
      | some e ↦ (record { n = n + nn; skipped = skipped; err = some e }, mid)
      | none ↦ next
    ])
after_piece orig st mid b off n nn skipped (some e) next le g f = record {
  m = nn;
  counted = refl;
  few = le;
  all = λ h. cc;
  grown = g;
}
after_piece orig st mid b off n nn skipped none next le g f =
    more_filled orig st mid b off n nn next le g (f refl)

Tiles-le : (f : ℤ → Bool) (a b : ℤ) (ps : List FoundRange) → Tiles f a b ps → a ≤ℤ b
Tiles-le f a b [] h = subst (λ z. a ≤ℤ z) h (omega arith)
Tiles-le f a b (p ∷ ps) (at, positive, same, rest) = omega (
  arith,
  Tiles-le f (end p.r) b ps rest,
  +ℤ_parts p.r.pos p.r.size,
  ap pos_part at,
  ap neg_part at,
)

no_more : (off : ℤ) (n : ℕ) → off ≡ off +ℤ Prelude.pos n → n ≡ 0
no_more off n e = omega (arith, ap pos_part e, ap neg_part e, +ℤ_parts off (Prelude.pos n))

-- The rest of the slice ends where the slice ends.
rest_end :
    (off : ℤ) (n : ℕ) (b : List ℕ)
    → n ≤ length b
    → off +ℤ size_of b ≡ off +ℤ Prelude.pos n +ℤ size_of (drop n b)
rest_end off n b le = sym (
    sum_assoc off n (length (drop n b))
    ∙ ap (λ k. off +ℤ Prelude.pos k) (omega (arith, length-drop n b)))

rest-Tiles :
    (f : ℤ → Bool) (off : ℤ) (n : ℕ) (b : List ℕ) (p : FoundRange) (ps : List FoundRange)
    → n ≤ length b
    → end p.r ≡ off +ℤ Prelude.pos n
    → Tiles f (end p.r) (off +ℤ size_of b) ps
    → Tiles f (off +ℤ Prelude.pos n) (off +ℤ Prelude.pos n +ℤ size_of (drop n b)) ps
rest-Tiles f off n b p ps le e t =
    subst (λ z. Tiles f (off +ℤ Prelude.pos n) z ps) (rest_end off n b le)
      (subst (λ z. Tiles f z (off +ℤ size_of b) ps) e t)

-- A written piece is full if there is no error.
full_piece : (e : Option ItemError) (n size : ℕ) → short_err e n size ≡ none → n ≡ size
full_piece none n size h = ground (arith, h)
full_piece (some e) n size h = cc

shorter :
    (off : ℤ) (n size : ℕ) (x : ℤ) → n ≤ size → within off n x ≡ true → within off size x ≡ true
shorter off n size x le h =
    ground (arith, +ℤ_parts off (Prelude.pos n), +ℤ_parts off (Prelude.pos size))

same_range :
    (r : Range) (off : ℤ) (size : ℕ) (x : ℤ)
    → r.pos ≡ off
    → Prelude.pos size ≡ r.size
    → within off size x ≡ contains r x
same_range r off size x e f =
    ap (λ z. contains (record { pos = z; size = Prelude.pos size }) x) (sym e)
    ∙ ap (λ z. contains (record { pos = r.pos; size = z }) x) f

no_overwrite_loop-Overwritten :
    (found : List FoundRange) (orig : ℤ → Bool) (os : Os) (st : State) (b : List ℕ) (off : ℤ)
    (n skipped : ℕ)
    → IsCoalesced st.item.info.rs
    → Tiles orig off (off +ℤ size_of b) found
    → ((x : ℤ) → orig x ≡ true → covers st.item.info.rs x ≡ true)
    → Overwritten orig st b off n (no_overwrite_loop os st b off n skipped found)
unfolding no_overwrite_loop
no_overwrite_loop-Overwritten [] orig os st b off n skipped sorted tiles there = record {
  m = 0;
  counted = omega arith;
  few = omega arith;
  all = λ e. sym (no_more off (length b) tiles);
  grown =
      skipped_piece orig st b off 0 sorted
        (λ x h. absurd (not_both (sym h ∙ empty_contains off x)));
}
no_overwrite_loop-Overwritten (p ∷ ps) orig os st b off n skipped sorted (at, positive, same, rest)
      there =
    let size = pos_part p.r.size in
    let whole : Prelude.pos size ≡ p.r.size = eq_of_parts _ _ (ground arith) in
    let stop : end p.r ≡ off +ℤ Prelude.pos size =
      ap (λ z. z +ℤ p.r.size) at ∙ ap (λ z. off +ℤ z) (sym whole) in
    let le : size ≤ length b = omega (
      arith,
      Tiles-le orig (end p.r) (off +ℤ size_of b) ps rest,
      +ℤ_parts off (Prelude.pos size),
      +ℤ_parts off (size_of b),
      ap pos_part stop,
      ap neg_part stop,
    ) in
    let flag = λ (x : ℤ) (h : within off size x ≡ true).
      same x (sym (same_range p.r off size x at whole) ∙ h) in
    let out = fd_write_at os st (take size b) off in
    let put = fd_write_at-Put os st (take size b) off in
    let nn = out.0.0 in
    let st' = written out.1 off (Prelude.pos nn) in
    let short : nn ≤ size = omega (arith, put.few, length-take size b) in
    if-Overwritten orig st b off n (not (eqb_ℤ p.r.pos off)) _ _ (λ t. absurd (ground (arith, at)))
      (λ u.
        if-Overwritten orig st b off n p.present _ _
          (λ t.
            more_filled orig st st b off n size _ le
              (skipped_piece orig st b off size sorted (λ x h. there x (flag x h ∙ t)))
              (no_overwrite_loop-Overwritten ps orig os st (drop size b) (off +ℤ Prelude.pos size)
                (n + size) (skipped + size) sorted (rest-Tiles orig off size b p ps le stop rest)
                there))
          (λ t.
            let grown =
              written_piece orig st b off nn out.1 (Put-take st b off size nn out.1 put) sorted
                (λ x h. flag x (shorter off nn size x short h) ∙ t) in
            after_piece orig st st' b off n nn skipped (short_err out.0.1 nn size) _ (omega arith)
              grown
              (λ e.
                let full = full_piece out.0.1 nn size e in
                no_overwrite_loop-Overwritten ps orig os st' (drop nn b) (off +ℤ Prelude.pos nn)
                  (n + nn) skipped grown.sorted
                  (rest-Tiles orig off nn b p ps (omega arith)
                    (stop ∙ ap (λ z. off +ℤ Prelude.pos z) (sym full)) rest)
                  (λ x o. grown.covered x ∙ covers_more _ _ (there x o)))))

-- WriteAtNoOverwrite of a slice that is not empty, on an item whose ranges are sorted and
-- coalesced: the bytes from `off` on of which it returns the number are then present, and no others
-- have become so; no byte has changed that was present before; if the slice is what the source holds
-- there, then what was present holds the source's bytes afterwards if it did before; and without an error
-- the number is that of the whole slice.
pub write_at_no_overwrite-Overwritten :
    (os : Os) (st : State) (b : List ℕ) (off : ℤ)
    → IsCoalesced st.item.info.rs
    → 0 < length b
    → Overwritten (covers st.item.info.rs) st b off 0 (write_at_no_overwrite os st b off)
unfolding write_at_no_overwrite
write_at_no_overwrite-Overwritten os st b off sorted some_left =
    no_overwrite_loop-Overwritten
      (find_all st.item.info.rs (record { pos = off; size = size_of b })) (covers st.item.info.rs)
      os st b off 0 0 sorted
      (find_all-Tiles st.item.info.rs (record { pos = off; size = size_of b }) sorted (omega arith))
      (λ x h. h)
