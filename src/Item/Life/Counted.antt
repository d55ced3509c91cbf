-- ===== src/Item/Life/Counted.antt =====
-- How opening and reading an item change the count of its openers.
use rclone_vfs.Prelude.{
  ℕ, ◌+◌, ◌≤◌, ◌≡◌, refl, sym, ap, ◌∙◌, inl, inr, Bool, true, false, not, ◌&&◌, ◌||◌, Option, none,
  some, List, [], arith, if◌then◌else◌, leb, ltb, ◌==◌, ℤ, ◌+ℤ◌, ◌-ℤ◌, ◌≤ℤ◌, ltb_ℤ, leb_ℤ, eqb_ℤ,
  Bool-cases, Option-cases, -ℤ_parts, +ℤ_parts, eq_of_parts,
}
use rclone_vfs.Prelude
use mathlib.Core.Option.{some-injective}
use rclone_vfs.Ranges.{Range}
use rclone_vfs.Item.{
  ItemError, os_error, not_open, Item, RemoteObject, State, Os, set_info, remove, load, remove_file,
  remove_meta, clean_info, save, open_path, exists, accessed, pre_access, post_access,
}
use rclone_vfs.Item.Data.{ensure_range, shrink_to_object, read_at}
use rclone_vfs.Item.Life.{
  create_file, check_object, open_fresh, open_counted, open', new_downloaders, new_item,
}
use rclone_vfs.Item.Life.Resets.{remove_not_in_use}
use rclone_vfs.Item.Life.Safe.{remove-Calm, check_object-Calm, truncate_to-Calm}

-- The downloaders write into an item and leave the count of its openers alone.
pub record Quiet (os : Os) : Type 0 where
  pub ensure : (st : State) (r : Range) → (os.ensure st r).1.item.opens ≡ st.item.opens
  pub download : (st : State) (r : Range) → (os.download st r).1.item.opens ≡ st.item.opens

-- The order of two counts survives equal counts.
pub ≤ℤ_refl : (a b : ℤ) → b ≡ a → a ≤ℤ b
≤ℤ_refl a b e = rw e (ground arith)

pub ≤ℤ_trans : (a b c : ℤ) → a ≤ℤ b → b ≤ℤ c → a ≤ℤ c
≤ℤ_trans a b c h k = ground arith

-- One opener more.
pub more_≤ℤ : (a : ℤ) → a ≤ℤ (a +ℤ Prelude.pos 1)
more_≤ℤ a = let s = +ℤ_parts a (Prelude.pos 1) in ground (arith, s)

-- An opener that was counted and gave up.
undone : (a : ℤ) → ((a +ℤ Prelude.pos 1) -ℤ Prelude.pos 1) ≡ a
undone a =
    let s = +ℤ_parts a (Prelude.pos 1) in
    let d = -ℤ_parts (a +ℤ Prelude.pos 1) (Prelude.pos 1) in
    eq_of_parts ((a +ℤ Prelude.pos 1) -ℤ Prelude.pos 1) a (ground (arith, s, d))

create_file-opens : (os : Os) (st : State) → (create_file os st).1.item.opens ≡ st.item.opens
unfolding create_file save open_path
create_file-opens os st = ground arith

new_downloaders-opens : (st : State) → (new_downloaders st).item.opens ≡ st.item.opens
new_downloaders-opens st = ground arith

-- A new opener of an item: it is counted where there is no error, and no opener is lost where there
-- is one.
pub record Opening (before : ℤ) (out : Option ItemError × State) : Type 0 where
  pub counted : out.0 ≡ none → out.1.item.opens ≡ before +ℤ Prelude.pos 1
  pub kept : before ≤ℤ out.1.item.opens

-- Where the count is one more, and where it is as before.
counted-Opening :
    (before : ℤ) (st : State) (err : Option ItemError)
    → st.item.opens ≡ before +ℤ Prelude.pos 1
    → Opening before (err, st)
counted-Opening before st err e = record { counted = λ _. e; kept = rw e (more_≤ℤ before) }

failed-Opening :
    (before : ℤ) (st : State) (x : ItemError) → st.item.opens ≡ before → Opening before (some x, st)
failed-Opening before st x e = record { counted = λ h. ground arith; kept = ≤ℤ_refl before _ e }

if-Opening :
    (before : ℤ) (b : Bool) (x y : Option ItemError × State)
    → Opening before x
    → Opening before y
    → Opening before (if b then x else y)
if-Opening before true x y v w = v
if-Opening before false x y v w = w

open_fresh-Opening :
    (os : Os) (taken : Bool) (before : ℤ) (st : State)
    → st.item.opens ≡ before +ℤ Prelude.pos 1
    → Opening before (open_fresh os taken st)
unfolding open_fresh
open_fresh-Opening os taken before st e =
    let created = create_file os st in
    let left = create_file-opens os st in
    elim (Option-cases created.0) [
      | inl f ↦
          rw (f, open_fresh)
            (counted-Opening before (new_downloaders created.1) _
              (new_downloaders-opens created.1 ∙ left ∙ e))
      | inr (x, f) ↦
          rw (f, open_fresh)
            (failed-Opening before _ x (
              ap (λ o. o -ℤ Prelude.pos 1) ((remove-Calm os created.1).opens ∙ left ∙ e)
              ∙ undone before))
    ]

open_counted-Opening :
    (os : Os) (taken : Bool) (before : ℤ) (st : State)
    → st.item.opens ≡ before +ℤ Prelude.pos 1
    → Opening before (open_counted os taken st)
unfolding open_counted
open_counted-Opening os taken before st e =
    let awake = record st { item = record st.item { grace_timer = false } } in
    let dropped = record awake { item = record awake.item { fd = none; downloaders = false } } in
    if-Opening before (not (eqb_ℤ st.item.opens (Prelude.pos 1))) _ _
      (counted-Opening before st none e)
      (if-Opening before st.item.grace_timer _ _
        (if-Opening before (exists awake) _ _ (counted-Opening before awake none e)
          (open_fresh-Opening os taken before dropped e))
        (open_fresh-Opening os taken before st e))

pub open'-Opening :
    (os : Os) (taken : Bool) (st : State) (o : Option RemoteObject)
    → Opening st.item.opens (open' os taken st o)
unfolding open'
open'-Opening os taken st o =
    let accessed_at = set_info st (record st.item.info { a_time = os.now }) in
    let checked = check_object os accessed_at o in
    let calm = (check_object-Calm os accessed_at o).opens in
    let counted = record checked.1 {
      item = record checked.1.item { opens = checked.1.item.opens +ℤ Prelude.pos 1 };
    } in
    elim (Option-cases os.create_dir_err) [
      | inl e ↦ elim (Option-cases checked.0) [
        | inl f ↦
            rw (e, f, open')
              (open_counted-Opening os taken st.item.opens counted
                (ap (λ n. n +ℤ Prelude.pos 1) calm))
        | inr (x, f) ↦ rw (e, f, open') (failed-Opening st.item.opens checked.1 x calm)
      ]
      | inr (x, e) ↦ rw (e, open') (failed-Opening st.item.opens accessed_at (os_error x) refl)
    ]

pub new_item-opens :
    (os : Os) (st : State) (name : ℕ) → (new_item os st name).item.opens ≡ Prelude.pos 0
unfolding new_item load remove remove_file remove_meta clean_info
new_item-opens os st name = ground arith

ensure_range-opens :
    (os : Os) (st : State) (offset size : ℤ)
    → Quiet os
    → (ensure_range os st offset size).1.item.opens ≡ st.item.opens
unfolding ensure_range
ensure_range-opens os st offset size q =
    let size' =
      if ltb_ℤ st.item.info.size (offset +ℤ size) then st.item.info.size -ℤ offset else size in
    let r : Range = record { pos = offset; size = size' } in
    let held = q.ensure st r in
    let got = q.download st r in
    let made = q.download (record st { item = record st.item { downloaders = true } }) r in
    ground arith

shrink_to_object-opens :
    (os : Os) (st : State) → (shrink_to_object os st).1.item.opens ≡ st.item.opens
unfolding shrink_to_object
shrink_to_object-opens os st = elim (Option-cases st.item.o) [
  | inl e ↦ rw (e, shrink_to_object) refl
  | inr (o, e) ↦
      let cut = (truncate_to-Calm os st o.size).opens in
      rw (e, shrink_to_object)
        (elim (Bool-cases (not st.item.info.dirty && not (eqb_ℤ o.size st.item.info.size))) [
          | inl t ↦ rw t cut
          | inr f ↦ rw f refl
        ])
]

pub read_at-opens :
    (os : Os) (st : State) (n : ℕ) (off : ℤ)
    → Quiet os
    → (read_at os st n off).1.item.opens ≡ st.item.opens
unfolding read_at
read_at-opens os st n off q =
    let ensured = ensure_range os st off (Prelude.pos n) in
    let e = ensure_range-opens os st off (Prelude.pos n) q in
    let s = shrink_to_object-opens os ensured.1 ∙ e in ground arith

-- The item while a method between preAccess and postAccess runs.
abbrev pub busy : State → State
busy st = record st { item = record st.item { pending_accesses = st.item.pending_accesses + 1 } }

-- What a method between preAccess and postAccess returns.
pub accessed_out :
    {A : Type 0} (f : State → A × State) (st : State) (out : A × State)
    → accessed f st ≡ some out
    → let done = f (busy st) in (done.0, record done.1 { item = post_access done.1.item }) ≡ out
unfolding accessed pre_access
accessed_out {A = A} f st out e = by_reset st.item.being_reset e
  where
    by_reset :
        (b : Bool)
        → (let free : Option Item = if b then none else some (busy st).item in
            let read : Option (A × State) = elim free [
              | none ↦ none
              | some item ↦
                  let done = f (record st { item = item }) in
                  some (done.0, record done.1 { item = post_access done.1.item })
            ] in
            read ≡ some out)
        → let done = f (busy st) in (done.0, record done.1 { item = post_access done.1.item }) ≡ out
    by_reset true e = ground arith
    by_reset false e =
        let done = f (busy st) in
        some-injective (done.0, record done.1 { item = post_access done.1.item }) out e

-- Such a method runs while the item is not being reset.
pub accessed_free :
    {A : Type 0} (f : State → A × State) (st : State)
    → st.item.being_reset ≡ false
    → let done = f (busy st) in
      accessed f st ≡ some (done.0, record done.1 { item = post_access done.1.item })
unfolding accessed pre_access
accessed_free {A = A} f st free = by_reset st.item.being_reset free
  where
    by_reset :
        (b : Bool)
        → b ≡ false
        → (let item : Option Item = if b then none else some (busy st).item in
            let read : Option (A × State) = elim item [
              | none ↦ none
              | some item ↦
                  let done = f (record st { item = item }) in
                  some (done.0, record done.1 { item = post_access done.1.item })
            ] in
            read)
          ≡ (let done = f (busy st) in
              some (done.0, record done.1 { item = post_access done.1.item }))
    by_reset true e = absurd (ground (arith, e))
    by_reset false e = refl

pub accessed_result :
    {A : Type 0} (f : State → A × State) (st : State) (out : A × State)
    → accessed f st ≡ some out
    → out.0 ≡ (f (busy st)).0
accessed_result f st out e = ap (λ o. o.0) (sym (accessed_out f st out e))

-- Where the method leaves the count alone.
pub accessed-opens :
    {A : Type 0} (f : State → A × State) (st : State) (out : A × State)
    → ((st' : State) → (f st').1.item.opens ≡ st'.item.opens)
    → accessed f st ≡ some out
    → out.1.item.opens ≡ st.item.opens
unfolding post_access
accessed-opens f st out kept e =
    ap (λ o. o.1.item.opens) (sym (accessed_out f st out e)) ∙ kept (busy st)

-- A read without an open handle.
pub read_at_shut :
    (os : Os) (st : State) (n : ℕ) (off : ℤ)
    → st.item.fd ≡ none
    → (read_at os st n off).0 ≡ ([], some not_open)
unfolding read_at
read_at_shut os st n off e = rw (e, read_at) refl

-- The cleaner leaves an item alone that somebody has open.
pub remove_not_in_use-opened :
    (os : Os) (st : State) (max_age : ℤ) (empty_only : Bool)
    → Prelude.pos 1 ≤ℤ st.item.opens
    → remove_not_in_use os st max_age empty_only ≡ (false, Prelude.pos 0, st)
unfolding remove_not_in_use
remove_not_in_use-opened os st max_age empty_only h = ground arith
