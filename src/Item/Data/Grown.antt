-- ===== src/Item/Data/Grown.antt =====
-- What WriteAt and Truncate do to the ranges and the size of an item.
use rclone_vfs.Prelude.{
  or_assoc, ℕ, zero, suc, ◌+◌, ◌-◌, ◌≤◌, ◌<◌, ◌≡◌, refl, sym, ap, ◌∙◌, Bool, true, false, not, ◌&&◌,
  ◌||◌, Option, none, some, List, [], ◌∷◌, arith, if◌then◌else◌, ltb, ℤ, ◌+ℤ◌, ◌-ℤ◌, ◌≤ℤ◌, ◌<ℤ◌,
  ltb_ℤ, leb_ℤ, Bool-cases, Option-cases, +ℤ_parts, -ℤ_parts, inl, inr, length, eq_of_parts,
}
use rclone_vfs.Prelude
use mathlib.Core.Path.{subst}
use rclone_vfs.Ranges.{intersect}
use rclone_vfs.Ranges.Cover.{IsCoalesced, contains, covers}
use rclone_vfs.Ranges.Insert.{insert-Inserted}
use rclone_vfs.Ranges.Walk.{covers-intersect}
use rclone_vfs.Item.{State, Os, set_info, save, written, mark_dirty}
use rclone_vfs.Item.Data.{mark_written, fill_gap, grow_size, after_write, truncate_ranges}
use rclone_vfs.Item.Data.Written.{within}

-- Two states of an item with the same ranges, size and open file.
pub record SameBytes (st st' : State) : Type 0 where
  pub rs : st'.item.info.rs ≡ st.item.info.rs
  pub size : st'.item.info.size ≡ st.item.info.size
  pub fd : st'.item.fd ≡ st.item.fd
  pub inodes : st'.inodes ≡ st.inodes

if-SameBytes :
    (st x y : State) (b : Bool)
    → SameBytes st x
    → SameBytes st y
    → SameBytes st (if b then x else y)
if-SameBytes st x y true v w = v
if-SameBytes st x y false v w = w

SameBytes-trans : (a b c : State) → SameBytes a b → SameBytes b c → SameBytes a c
SameBytes-trans a b c f g = record {
  rs = g.rs ∙ f.rs;
  size = g.size ∙ f.size;
  fd = g.fd ∙ f.fd;
  inodes = g.inodes ∙ f.inodes;
}

pub save-item : (os : Os) (st : State) → (save os st).1.item ≡ st.item
unfolding save
save-item os st = ground arith

pub save-SameBytes : (os : Os) (st : State) → SameBytes st (save os st).1
unfolding save
save-SameBytes os st = record {
  rs = ground arith;
  size = ground arith;
  fd = ground arith;
  inodes = ground arith;
}

pub mark_dirty-SameBytes : (os : Os) (st : State) → SameBytes st (mark_dirty os st)
unfolding mark_dirty save
mark_dirty-SameBytes os st = record {
  rs = ground arith;
  size = ground arith;
  fd = ground arith;
  inodes = ground arith;
}

pub mark_dirty-dirty : (os : Os) (st : State) → (mark_dirty os st).item.info.dirty ≡ true
unfolding mark_dirty save
mark_dirty-dirty os st = ground arith

-- The ranges of an item after a part has been marked as present.
pub record Marked (st st' : State) (part : ℤ → Bool) : Type 0 where
  pub sorted : IsCoalesced st'.item.info.rs
  pub covered : (x : ℤ) → covers st'.item.info.rs x ≡ (part x || covers st.item.info.rs x)

pub written-Marked :
    (st : State) (offset size : ℤ)
    → IsCoalesced st.item.info.rs
    → Marked st (written st offset size) (contains (record { pos = offset; size = size }))
unfolding written
written-Marked st offset size sorted =
    let ins = insert-Inserted st.item.info.rs (record { pos = offset; size = size }) sorted in
    record { sorted = ins.0; covered = ins.1 }

Marked-same :
    (st mid out : State) (part : ℤ → Bool)
    → Marked st mid part
    → mid.item.info.rs ≡ out.item.info.rs
    → Marked st out part
Marked-same st mid out part m e = record {
  sorted = subst IsCoalesced e m.sorted;
  covered = λ x. ap (λ rs. covers rs x) (sym e) ∙ m.covered x;
}

-- What WriteAt leaves of the ranges, the size and the dirty flag.
pub record Recorded (st : State) (off : ℤ) (n : ℕ) (out : State) : Type 0 where
  pub marked : Marked st out (λ x. leb_ℤ st.item.info.size x && ltb_ℤ x off || within off n x)
  pub size : out.item.info.size ≡ (
      if ltb_ℤ st.item.info.size (off +ℤ Prelude.pos n)
      then off +ℤ Prelude.pos n
      else st.item.info.size)
  pub dirty : 0 < n → out.item.info.dirty ≡ true
  pub handle : out.item.fd ≡ st.item.fd
  pub bytes : out.inodes ≡ st.inodes

-- The gap between the end of the file and the write is filled.
gap_filled :
    (os : Os) (st mid : State) (off : ℤ) (n : ℕ) (b : Bool)
    → Marked st mid (within off n)
    → mid.item.info.size ≡ st.item.info.size
    → ltb_ℤ st.item.info.size off ≡ b
    → let size = mid.item.info.size in
      let out = if b then mark_dirty os (written mid size (off -ℤ size)) else mid in
      Marked st out (λ x. leb_ℤ st.item.info.size x && ltb_ℤ x off || within off n x)
gap_filled os st mid off n true m same lt =
    let size = mid.item.info.size in
    let w = written-Marked mid size (off -ℤ size) m.sorted in
    let dirtied = mark_dirty-SameBytes os (written mid size (off -ℤ size)) in
    Marked-same st (written mid size (off -ℤ size)) _ _
      (record {
        sorted = w.sorted;
        covered = λ x.
            w.covered x
            ∙ ap (λ z. z || covers mid.item.info.rs x) (gap_range size off x)
            ∙ ap (λ z. leb_ℤ z x && ltb_ℤ x off || covers mid.item.info.rs x) same
            ∙ ap (λ z. leb_ℤ st.item.info.size x && ltb_ℤ x off || z) (m.covered x)
            ∙ or_assoc (leb_ℤ st.item.info.size x && ltb_ℤ x off) (within off n x)
                (covers st.item.info.rs x);
      })
      (sym dirtied.rs)
  where
    gap_range :
        (size off x : ℤ)
        → contains (record { pos = size; size = off -ℤ size }) x ≡ (leb_ℤ size x && ltb_ℤ x off)
    gap_range size off x = ground (arith, -ℤ_parts off size, +ℤ_parts size (off -ℤ size))
gap_filled os st mid off n false m same lt = record {
  sorted = m.sorted;
  covered = λ x.
      m.covered x
      ∙ no_gap (leb_ℤ st.item.info.size x && ltb_ℤ x off) (within off n x)
          (covers st.item.info.rs x) (ground (arith, lt));
}
  where
    no_gap : (g p q : Bool) → g ≡ false → (p || q) ≡ ((g || p) || q)
    no_gap g p q e = ground arith

mark_written-Marked :
    (os : Os) (st : State) (off : ℤ) (n : ℕ)
    → IsCoalesced st.item.info.rs
    → Marked st (mark_written os st off n) (within off n)
      × SameBytes (written st off (Prelude.pos n)) (mark_written os st off n)
      × (0 < n → (mark_written os st off n).item.info.dirty ≡ true)
unfolding mark_written
mark_written-Marked os st off n sorted =
    let marked = written st off (Prelude.pos n) in
    let kept =
      if-SameBytes marked _ _ (ltb 0 n) (mark_dirty-SameBytes os marked)
        (record { rs = refl; size = refl; fd = refl; inodes = refl }) in
    (
      Marked-same st marked _ (within off n) (written-Marked st off (Prelude.pos n) sorted)
          (sym kept.rs),
      kept,
      λ h. let t : ltb 0 n ≡ true = ground arith in simp t (mark_dirty-dirty os marked),
    )

-- The gap leaves all but the ranges and the dirty flag.
record GapKept (mid out : State) : Type 0 where
  size : out.item.info.size ≡ mid.item.info.size
  handle : out.item.fd ≡ mid.item.fd
  bytes : out.inodes ≡ mid.inodes
  dirty : mid.item.info.dirty ≡ true → out.item.info.dirty ≡ true

fill_gap-GapKept : (os : Os) (mid : State) (off : ℤ) → GapKept mid (fill_gap os mid off)
unfolding fill_gap written
fill_gap-GapKept os mid off =
    let size = mid.item.info.size in
    let marked = written mid size (off -ℤ size) in
    let dirtied = mark_dirty-SameBytes os marked in
    by_gap (ltb_ℤ size off) dirtied (mark_dirty-dirty os marked)
  where
    by_gap :
        (b : Bool)
        → let out = mark_dirty os (written mid mid.item.info.size (off -ℤ mid.item.info.size)) in
          SameBytes (written mid mid.item.info.size (off -ℤ mid.item.info.size)) out
          → out.item.info.dirty ≡ true
          → GapKept mid (if b then out else mid)
    by_gap true d t = record { size = d.size; handle = d.fd; bytes = d.inodes; dirty = λ h. t }
    by_gap false d t = record { size = refl; handle = refl; bytes = refl; dirty = λ h. h }

grow_size-Recorded :
    (st mid : State) (off : ℤ) (n : ℕ)
    → Marked st mid (λ x. leb_ℤ st.item.info.size x && ltb_ℤ x off || within off n x)
    → mid.item.info.size ≡ st.item.info.size
    → (0 < n → mid.item.info.dirty ≡ true)
    → mid.item.fd ≡ st.item.fd
    → mid.inodes ≡ st.inodes
    → Recorded st off n (grow_size mid (off +ℤ Prelude.pos n))
unfolding grow_size
grow_size-Recorded st mid off n m same dirty fd inodes =
    by_size (ltb_ℤ mid.item.info.size (off +ℤ Prelude.pos n))
      (ap (λ z. ltb_ℤ z (off +ℤ Prelude.pos n)) same)
  where
    by_size :
        (b : Bool)
        → b ≡ ltb_ℤ st.item.info.size (off +ℤ Prelude.pos n)
        → Recorded st off n
            (if b then set_info mid (record mid.item.info { size = off +ℤ Prelude.pos n }) else mid)
    by_size true e = record {
      marked = record { sorted = m.sorted; covered = m.covered };
      size = simp (sym e) refl;
      dirty = dirty;
      handle = fd;
      bytes = inodes;
    }
    by_size false e = record {
      marked = m;
      size = simp (sym e) same;
      dirty = dirty;
      handle = fd;
      bytes = inodes;
    }

-- After a WriteAt that has written `n` bytes at `off`, on an item whose ranges are sorted and
-- coalesced, exactly those bytes, the gap between the old end of the file and `off`, and what was
-- present are present; the size is the end of the write if that is larger, and what is written makes
-- the item dirty.
pub after_write-Recorded :
    (os : Os) (st : State) (off : ℤ) (n : ℕ)
    → IsCoalesced st.item.info.rs
    → Recorded st off n (after_write os st off n)
unfolding after_write
after_write-Recorded os st off n sorted =
    let mid = mark_written os st off n in
    let (marked, same, dirty) = mark_written-Marked os st off n sorted in
    let gap = fill_gap-GapKept os mid off in
    grow_size-Recorded st (fill_gap os mid off) off n
      (unfold fill_gap in
        gap_filled os st mid off n (ltb_ℤ mid.item.info.size off) marked same.size
          (ap (λ z. ltb_ℤ z off) (sym same.size)))
      (gap.size ∙ same.size) (λ h. gap.dirty (dirty h)) (gap.handle ∙ same.fd)
      (gap.bytes ∙ same.inodes)

-- What Truncate leaves of the ranges.
pub record Cut (st : State) (old_size size : ℤ) (out : State) : Type 0 where
  pub sorted : IsCoalesced out.item.info.rs
  pub shorter :
      size <ℤ old_size
      → (x : ℤ)
      → covers out.item.info.rs x
        ≡ (covers st.item.info.rs x && contains (record { pos = Prelude.pos 0; size = size }) x)
  pub longer :
      old_size <ℤ size
      → (x : ℤ)
      → covers out.item.info.rs x
        ≡ ((leb_ℤ old_size x && ltb_ℤ x (old_size +ℤ size)) || covers st.item.info.rs x)
  pub equal : old_size ≡ size → out ≡ st

-- Truncate of an item whose ranges are sorted and coalesced keeps them so. To a smaller size it
-- leaves present what is below the size; to a larger one it adds all from the old size up to the
-- sum of the two sizes, which is beyond the new end of the file unless the old size was 0.
pub truncate_ranges-Cut :
    (st : State) (old_size size : ℤ)
    → IsCoalesced st.item.info.rs
    → Cut st old_size size (truncate_ranges st old_size size)
unfolding truncate_ranges
truncate_ranges-Cut st old_size size sorted =
    by_order (ltb_ℤ old_size size) (ltb_ℤ size old_size) refl refl
  where
    by_order :
        (b c : Bool)
        → ltb_ℤ old_size size ≡ b
        → ltb_ℤ size old_size ≡ c
        → Cut st old_size size (
            if b
            then written st old_size size
            else if c
            then set_info st (record st.item.info {
              rs = intersect st.item.info.rs (record { pos = Prelude.pos 0; size = size });
            })
            else st)
    by_order true c e f =
        let w = written-Marked st old_size size sorted in
        record {
          sorted = w.sorted;
          shorter = λ h. absurd (ground arith);
          longer = λ h x. w.covered x;
          equal = λ h. absurd (ground arith);
        }
    by_order false true e f =
        let i =
          covers-intersect st.item.info.rs (record { pos = Prelude.pos 0; size = size }) sorted in
        record {
          sorted = i.0;
          shorter = λ h. i.1;
          longer = λ h. absurd (ground arith);
          equal = λ h. absurd (ground arith);
        }
    by_order false false e f = record {
      sorted = sorted;
      shorter = λ h. absurd (ground arith);
      longer = λ h. absurd (ground arith);
      equal = λ h. refl;
    }
