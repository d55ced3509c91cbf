-- ===== src/Item/Data/Written.antt =====
-- WriteAtNoOverwrite fills in what is absent, with the bytes that it is given, and nothing else.
pub mod Loop
use rclone_vfs.Prelude.{
  or_assoc, ℕ, zero, suc, ◌+◌, ◌-◌, ◌≤◌, ◌<◌, ◌≡◌, refl, sym, ap, ◌∙◌, ◌⊎◌, inl, inr, Bool, true,
  false, not, ◌&&◌, ◌||◌, Option, none, some, List, [], ◌∷◌, arith, if◌then◌else◌, ltb, leb, ◌==◌,
  ℤ, ◌+ℤ◌, ◌-ℤ◌, ◌≤ℤ◌, ◌<ℤ◌, ltb_ℤ, leb_ℤ, eqb_ℤ, update, length, take, drop, get_or, pos_part,
  neg_part, Bool-cases, Option-cases, int_laws, +ℤ_parts, -ℤ_parts, eq_of_parts, length-take,
  length-drop,
}
use rclone_vfs.Prelude
use mathlib.Core.Path.{subst}
use rclone_vfs.Ranges.{Range, FoundRange, find_all, end}
use rclone_vfs.Ranges.Cover.{IsCoalesced, contains, covers}
use rclone_vfs.Ranges.Insert.{insert-Inserted}
use rclone_vfs.Ranges.Walk.{Tiles, find_all-Tiles}
use rclone_vfs.Item.{ItemError, State, Os, File, written}
use rclone_vfs.Item.Data.{
  size_of, put_bytes, put_file, fd_write, fd_write_at, short_err, Overwrite, no_overwrite_loop,
  write_at_no_overwrite,
}

-- The byte at an offset of the file that a handle is open on.
abbrev pub cell_at : (ℕ → File) → Option ℕ → ℤ → ℕ
cell_at inodes none x = 0
cell_at inodes (some i) x = (inodes i).data' x

-- The byte at an offset of the open file.
abbrev pub cell : State → ℤ → ℕ
cell st x = cell_at st.inodes st.item.fd x

-- The slice `b` holds the bytes of `source` from `off` on.
abbrev pub Carries : (ℤ → ℕ) → ℤ → List ℕ → Type 0
Carries source off b = (k : ℕ) → k < length b → get_or b k 0 ≡ source (off +ℤ Prelude.pos k)

-- Every offset that is marked as present holds the byte of `source`.
abbrev pub IsFaithful : (ℤ → ℕ) → State → Type 0
IsFaithful source st = (x : ℤ) → covers st.item.info.rs x ≡ true → cell st x ≡ source x

get_or-take : (k j : ℕ) (b : List ℕ) → j < length (take k b) → get_or (take k b) j 0 ≡ get_or b j 0
get_or-take zero j b h = elim h [ ]
get_or-take (suc k) j [] h = elim h [ ]
get_or-take (suc k) zero (x ∷ b) h = refl
get_or-take (suc k) (suc j) (x ∷ b) h = get_or-take k j b (omega arith)

suc_sum : (m k : ℕ) → suc m + k ≡ suc (m + k)
suc_sum m k = omega arith

zero_sum : (k : ℕ) → 0 + k ≡ k
zero_sum k = omega arith

get_or-drop : (m k : ℕ) (b : List ℕ) → get_or (drop m b) k 0 ≡ get_or b (m + k) 0
get_or-drop zero k b = rw zero_sum
get_or-drop (suc m) k [] = refl
get_or-drop (suc m) k (x ∷ b) = rw suc_sum (get_or-drop m k b)

pub sum_assoc :
    (off : ℤ) (m k : ℕ) → off +ℤ Prelude.pos m +ℤ Prelude.pos k ≡ off +ℤ Prelude.pos (m + k)
sum_assoc off m k = eq_of_parts _ _ (
    omega (
      arith,
      +ℤ_parts (off +ℤ Prelude.pos m) (Prelude.pos k),
      +ℤ_parts off (Prelude.pos m),
      +ℤ_parts off (Prelude.pos (m + k)),
    ))

back_to : (x off : ℤ) → off ≤ℤ x → off +ℤ Prelude.pos (pos_part (x -ℤ off)) ≡ x
back_to x off h =
    eq_of_parts _ _
      (ground (arith, +ℤ_parts off (Prelude.pos (pos_part (x -ℤ off))), -ℤ_parts x off))

Carries-drop :
    (source : ℤ → ℕ) (off : ℤ) (m : ℕ) (b : List ℕ)
    → Carries source off b
    → Carries source (off +ℤ Prelude.pos m) (drop m b)
Carries-drop source off m b c k h =
    get_or-drop m k b
    ∙ c (m + k) (omega (arith, length-drop m b))
    ∙ ap source (sym (sum_assoc off m k))

Carries-take :
    (source : ℤ → ℕ) (off : ℤ) (m : ℕ) (b : List ℕ)
    → Carries source off b
    → Carries source off (take m b)
Carries-take source off m b c k h = get_or-take m k b h ∙ c k (omega (arith, length-take m b))

-- What a write through the handle does.
pub record Put (st : State) (b : List ℕ) (off : ℤ) (n : ℕ) (st' : State) : Type 0 where
  pub same_item : st'.item ≡ st.item
  pub few : n ≤ length b
  pub bytes :
      (source : ℤ → ℕ)
      → Carries source off b
      → (x : ℤ) → contains (record { pos = off; size = Prelude.pos n }) x ≡ true
      → cell_at st'.inodes st.item.fd x ≡ source x
  pub outside :
      (x : ℤ)
      → contains (record { pos = off; size = Prelude.pos n }) x ≡ false
      → cell_at st'.inodes st.item.fd x ≡ cell st x

-- A write of the front of a slice.
pub Put-take :
    (st : State) (b : List ℕ) (off : ℤ) (size n : ℕ) (st' : State)
    → Put st (take size b) off n st'
    → Put st b off n st'
Put-take st b off size n st' put = record {
  same_item = put.same_item;
  few = omega (arith, put.few, length-take size b);
  bytes = λ source c. put.bytes source (Carries-take source off size b c);
  outside = put.outside;
}

pub empty_contains : (off x : ℤ) → contains (record { pos = off; size = Prelude.pos 0 }) x ≡ false
empty_contains off x = ground (arith, +ℤ_parts off (Prelude.pos 0))

pub not_both : true ≡ false → ⊥
not_both e = cc

pub put_hit :
    (f : ℤ → ℕ) (off : ℤ) (b : List ℕ) (source : ℤ → ℕ)
    → Carries source off b
    → (x : ℤ) → contains (record { pos = off; size = size_of b }) x ≡ true
    → put_bytes f off b x ≡ source x
put_hit f off b source c x h =
    let low : off ≤ℤ x = ground arith in
    let k = pos_part (x -ℤ off) in
    let short : k < length b = ground (arith, -ℤ_parts x off, +ℤ_parts off (size_of b)) in
    rw h (c k short ∙ ap source (back_to x off low))

put_miss :
    (f : ℤ → ℕ) (off : ℤ) (b : List ℕ) (x : ℤ)
    → contains (record { pos = off; size = size_of b }) x ≡ false
    → put_bytes f off b x ≡ f x
put_miss f off b x h = rw h refl

pub cell_here :
    (inodes : ℕ → File) (i : ℕ) (f : File) (x : ℤ) → (update inodes i f i).data' x ≡ f.data' x
cell_here inodes i f x = ground arith

fd_write-Put :
    (os : Os) (st : State) (fd : Option ℕ) (b : List ℕ) (off : ℤ)
    → st.item.fd ≡ fd
    → Put st b off (fd_write os st fd b off).0.0 (fd_write os st fd b off).1
unfolding fd_write
fd_write-Put os st none b off e = record {
  same_item = refl;
  few = omega arith;
  bytes = λ source c x h. absurd (not_both (sym h ∙ empty_contains off x));
  outside = λ x h. refl;
}
fd_write-Put os st (some i) b off e =
    let f = st.inodes i in
    let taken = take os.write_room b in
    let at = λ (inodes : ℕ → File) (x : ℤ). ap (λ fd. cell_at inodes fd x) e in
    let out = update st.inodes i (put_file f off taken) in
    record {
      same_item = refl;
      few = omega (arith, length-take os.write_room b);
      bytes = λ source c x h.
          at out x
          ∙ cell_here st.inodes i (put_file f off taken) x
          ∙ put_hit f.data' off taken source (Carries-take source off os.write_room b c) x h;
      outside = λ x h.
          at out x
          ∙ cell_here st.inodes i (put_file f off taken) x
          ∙ put_miss f.data' off taken x h
          ∙ sym (at st.inodes x);
    }

pub fd_write_at-Put :
    (os : Os) (st : State) (b : List ℕ) (off : ℤ)
    → Put st b off (fd_write_at os st b off).0.0 (fd_write_at os st b off).1
unfolding fd_write_at
fd_write_at-Put os st b off = fd_write-Put os st st.item.fd b off refl

-- The offsets of `n` bytes from `off`.
abbrev pub within : ℤ → ℕ → ℤ → Bool
within off n x = contains (record { pos = off; size = Prelude.pos n }) x

-- From `st` to `st'`, `n` bytes of `b` from `off` on have become present, and no byte has changed
-- where `orig` holds.
pub record Grown (orig : ℤ → Bool) (b : List ℕ) (st : State) (off : ℤ) (n : ℕ) (st' : State)
    : Type 0 where
  pub sorted : IsCoalesced st'.item.info.rs
  pub covered : (x : ℤ) → covers st'.item.info.rs x ≡ (within off n x || covers st.item.info.rs x)
  pub handle : st'.item.fd ≡ st.item.fd
  pub kept : (x : ℤ) → orig x ≡ true → cell st' x ≡ cell st x
  pub faithful :
      (source : ℤ → ℕ) → Carries source off b → IsFaithful source st → IsFaithful source st'

or_inl : (a b : Bool) → a ≡ true → (a || b) ≡ true
or_inl a b h = ground arith

or_inr : (a b : Bool) → a ≡ false → (a || b) ≡ b
or_inr a b h = ground arith

-- A piece that is absent is written.
pub written_piece :
    (orig : ℤ → Bool) (st : State) (b : List ℕ) (off : ℤ) (n : ℕ) (st' : State)
    → Put st b off n st'
    → IsCoalesced st.item.info.rs
    → ((x : ℤ) → within off n x ≡ true → orig x ≡ false)
    → Grown orig b st off n (written st' off (Prelude.pos n))
unfolding written
written_piece orig st b off n st' put sorted absent =
    let r : Range = record { pos = off; size = Prelude.pos n } in
    let same = ap (λ item. item.info.rs) put.same_item in
    let ins = insert-Inserted st'.item.info.rs r (subst IsCoalesced (sym same) sorted) in
    let handle = ap (λ item. item.fd) put.same_item in
    let at = λ (x : ℤ). ap (λ fd. cell_at st'.inodes fd x) handle in
    record {
      sorted = ins.0;
      covered = λ x. ins.1 x ∙ ap (λ rs. within off n x || covers rs x) same;
      handle = handle;
      kept = λ x o. elim (Bool-cases (within off n x)) [
        | inl hit ↦ absurd (not_both (sym o ∙ absent x hit))
        | inr miss ↦ at x ∙ put.outside x miss
      ];
      faithful = λ source c f x h. elim (Bool-cases (within off n x)) [
        | inl hit ↦ at x ∙ put.bytes source c x hit
        | inr miss ↦
            at x
            ∙ put.outside x miss
            ∙ f x (ap (λ rs. covers rs x) (sym same) ∙ sym (or_inr _ _ miss) ∙ sym (ins.1 x) ∙ h)
      ];
    }

-- A piece that is present is left alone.
pub skipped_piece :
    (orig : ℤ → Bool) (st : State) (b : List ℕ) (off : ℤ) (n : ℕ)
    → IsCoalesced st.item.info.rs
    → ((x : ℤ) → within off n x ≡ true → covers st.item.info.rs x ≡ true)
    → Grown orig b st off n st
skipped_piece orig st b off n sorted there = record {
  sorted = sorted;
  covered = λ x. elim (Bool-cases (within off n x)) [
    | inl hit ↦ there x hit ∙ sym (or_inl _ _ hit)
    | inr miss ↦ sym (or_inr _ _ miss)
  ];
  handle = refl;
  kept = λ x o. refl;
  faithful = λ source c f. f;
}

within_sum :
    (off : ℤ) (n m : ℕ) (x : ℤ)
    → within off (n + m) x ≡ (within (off +ℤ Prelude.pos n) m x || within off n x)
within_sum off n m x = ground (
  arith,
  +ℤ_parts off (Prelude.pos n),
  +ℤ_parts off (Prelude.pos (n + m)),
  +ℤ_parts (off +ℤ Prelude.pos n) (Prelude.pos m),
)

pub covers_more : (a b : Bool) → b ≡ true → (a || b) ≡ true
covers_more a b h = ground arith

pub Grown-then :
    (orig : ℤ → Bool) (b : List ℕ) (off : ℤ) (n m : ℕ) (st mid out : State)
    → Grown orig b st off n mid
    → Grown orig (drop n b) mid (off +ℤ Prelude.pos n) m out
    → Grown orig b st off (n + m) out
Grown-then orig b off n m st mid out f g = record {
  sorted = g.sorted;
  covered = λ x.
      g.covered x
      ∙ ap (λ z. within (off +ℤ Prelude.pos n) m x || z) (f.covered x)
      ∙ or_assoc (within (off +ℤ Prelude.pos n) m x) (within off n x) (covers st.item.info.rs x)
      ∙ ap (λ z. z || covers st.item.info.rs x) (sym (within_sum off n m x));
  handle = g.handle ∙ f.handle;
  kept = λ x o. g.kept x o ∙ f.kept x o;
  faithful =
      λ source c h. g.faithful source (Carries-drop source off n b c) (f.faithful source c h);
}
