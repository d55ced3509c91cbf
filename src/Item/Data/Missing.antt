-- ===== src/Item/Data/Missing.antt =====
-- The item as what the downloaders ask for: the laws of FindMissing and HasRange, and what an answer
-- to a waiter then means.
use rclone_vfs.Prelude.{
  ℕ, zero, suc, ◌+◌, ◌-◌, ◌≤◌, ◌<◌, ◌≡◌, refl, sym, ap, ◌∙◌, Bool, true, false, not, ◌&&◌, ◌||◌,
  Option, none, some, List, [], ◌∷◌, arith, if◌then◌else◌, ℤ, ◌+ℤ◌, ◌-ℤ◌, ◌≤ℤ◌, ◌<ℤ◌, ltb_ℤ, leb_ℤ,
  Bool-cases, +ℤ_parts, -ℤ_parts, inl, inr,
}
use rclone_vfs.Prelude
use rclone_vfs.Ranges.{Range, end, is_empty, clip, find_missing, present}
use rclone_vfs.Ranges.Cover.{IsCoalesced, contains, covers}
use rclone_vfs.Ranges.Missing.{contains-clip, CoversAll, present_iff, find_missing-Missing}
use rclone_vfs.Item.{ItemError, eof, os_error, State, Os}
use rclone_vfs.Item.Data.{has_range, missing_range, write_at_no_overwrite}
use rclone_vfs.Downloaders
use rclone_vfs.Downloaders.{
  ItemOps, Waiter, Answer, Downloaders, Seeker, dispatch_loop, dispatch_waiters,
}

-- The errors of an item as the downloaders see them.
pub item_error : ItemError → Downloaders.Error
item_error eof = Downloaders.eof
item_error (os_error e) = Downloaders.other (suc e)
item_error _ = Downloaders.other 0

-- The interface Item of the downloaders, filled by the cache's item.
pub item_ops : Os → ItemOps State
unfolding item_error missing_range has_range
item_ops os = record {
  find_missing = missing_range;
  has_range = has_range;
  write_at_no_overwrite = λ st b off.
      let out = write_at_no_overwrite os st b off in
      (
        record {
          n = out.0.n;
          skipped = out.0.skipped;
          err = elim out.0.err [ none ↦ none | some e ↦ some (item_error e) ];
        },
        out.1,
      );
}

-- A range that is not empty after it is clipped has kept its start.
clip-pos :
    (r : Range) (offset : ℤ)
    → is_empty (clip r offset) ≡ false
    → ((clip r offset).pos ≡ r.pos) × (is_empty r ≡ false)
unfolding clip
clip-pos r offset = elim (Bool-cases (leb_ℤ (end r) offset)) [
  | inl e ↦ rw e (λ h. (refl, h))
  | inr e ↦ elim (Bool-cases (ltb_ℤ (r.size -ℤ (end r -ℤ offset)) (Prelude.pos 0))) [
    | inl n ↦ rw (e, n) (λ h. absurd (ground arith))
    | inr n ↦
        rw (e, n)
          (λ h. (refl, ground (arith, -ℤ_parts (end r) offset, -ℤ_parts r.size (end r -ℤ offset))))
  ]
]

-- What FindMissing promises the downloaders of the range `r` of a file.
pub record Lacks (rs : List Range) (size : ℤ) (r out : Range) : Type 0 where
  pub inside : (x : ℤ) → contains out x ≡ true → (contains r x ≡ true) × (x <ℤ size)
  pub rest_there :
      (x : ℤ) → contains r x ≡ true → x <ℤ size → contains out x ≡ false → covers rs x ≡ true
  pub first_absent : is_empty out ≡ false → covers rs out.pos ≡ false

-- FindMissing of an item whose ranges are sorted and coalesced returns a part of the range inside
-- the file, such that what it leaves out of the range inside the file is present, and that its
-- first offset, if it is not empty, is not.
pub missing_range-Lacks :
    (st : State) (r : Range)
    → IsCoalesced st.item.info.rs
    → Lacks st.item.info.rs st.item.info.size r (missing_range st r)
unfolding missing_range
missing_range-Lacks st r sorted =
    let rs = st.item.info.rs in
    let size = st.item.info.size in
    let m = find_missing rs r in
    let found = find_missing-Missing rs r sorted in
    let ends = found.ends in
    let low = ap Prelude.pos_part ends in
    let high = ap Prelude.neg_part ends in
    record {
      inside = λ x h. let c = contains-clip m size x in ground (arith, found.starts, low, high);
      rest_there = λ x h lt miss.
          let c = contains-clip m size x in
          found.skipped x h (ground (arith, found.starts, low, high));
      first_absent =
          λ h. let kept = clip-pos m size h in ap (covers rs) kept.0 ∙ found.wanted kept.1;
    }

-- Some waiter on the channel `c` has the property.
pub data Asked (P : Waiter → Type 0) (c : ℕ) : List Waiter → Type 0 where
  here : {w : Waiter} {ws : List Waiter} → w.err_chan ≡ c → P w → Asked P c (w ∷ ws)
  there : {w : Waiter} {ws : List Waiter} → Asked P c ws → Asked P c (w ∷ ws)

-- Every answer is to a waiter that has the property.
unfoldable pub Earned : (Waiter → Type 0) → List Waiter → List Answer → Type 0
Earned P ws [] = 0 ≤ 0
Earned P ws (a ∷ answers) = Asked P a.err_chan ws × Earned P ws answers

Earned-cons :
    (P : Waiter → Type 0) (w : Waiter) (ws : List Waiter) (answers : List Answer)
    → Earned P ws answers
    → Earned P (w ∷ ws) answers
unfolding Earned
Earned-cons P w ws [] h = h
Earned-cons P w ws (a ∷ answers) (h, rest) = (there h, Earned-cons P w ws answers rest)

-- The range of a waiter, clipped to the size of the object, is in the file.
abbrev pub HasAll : State → ℤ → Waiter → Type 0
HasAll st size w = CoversAll st.item.info.rs (clip w.r size)

dispatch_loop-Earned :
    (os : Os) (st : State) (seek_err : Seeker) (size : ℤ) (ws : List Waiter)
    → IsCoalesced st.item.info.rs
    → Earned (HasAll st size) ws (dispatch_loop (item_ops os) st seek_err size ws).0
unfolding dispatch_loop Earned item_ops has_range
dispatch_loop-Earned os st seek_err size [] sorted = omega arith
dispatch_loop-Earned os st seek_err size (w ∷ ws) sorted =
    let rest =
      Earned-cons (HasAll st size) w ws _ (dispatch_loop-Earned os st seek_err size ws sorted) in
    elim (Bool-cases (present st.item.info.rs (clip w.r size))) [
      | inl e ↦ simp e (here refl ((present_iff st.item.info.rs (clip w.r size) sorted).0 e), rest)
      | inr e ↦ simp e rest
    ]

-- A dispatch of the waiters of an item answers, without an error, only those whose range, up to the
-- size of the object, is wholly present in the item (what Close sends is not part of it), given that the item's ranges are sorted and
-- coalesced.
pub dispatch_waiters-Earned :
    (os : Os) (st : State) (seek_err : Seeker) (ds : Downloaders)
    → IsCoalesced st.item.info.rs
    → Earned (HasAll st ds.src_size) ds.waiters (dispatch_waiters (item_ops os) st seek_err ds).0
unfolding dispatch_waiters
dispatch_waiters-Earned os st seek_err ds sorted =
    dispatch_loop-Earned os st seek_err ds.src_size ds.waiters sorted
