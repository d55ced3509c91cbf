-- ===== src/Item/Life/Safe/Cleaner.antt =====
-- What RemoveNotInUse and Reset do to an item, on all their branches.
use rclone_vfs.Prelude.{
  clash, ℕ, ◌+◌, ◌-◌, ◌≡◌, ◌≢◌, refl, sym, ap, ◌∙◌, ◌⊎◌, inl, inr, Bool, true, false, not, ◌&&◌,
  ◌||◌, Option, none, some, List, [], ◌∷◌, arith, if◌then◌else◌, ltb, leb, ◌==◌, ℤ, ◌+ℤ◌, ◌-ℤ◌,
  ltb_ℤ, leb_ℤ, eqb_ℤ, Bool-cases, Option-cases,
}
use rclone_vfs.Prelude
use rclone_vfs.Ranges.{total_size}
use rclone_vfs.Item.{ItemError, State, Os, set_fd, first_err, os_err, save, remove, open_path}
use rclone_vfs.Item.Life.{create_file, check_object, new_downloaders}
use rclone_vfs.Item.Life.Resets.{
  is_removed, remove_not_in_use, ResetResult, ResetOut, set_being_reset, reset_create, reset_closed,
  reset_used, reset, skipped_dirty, skipped_pending_access, skipped_empty, skipped_grace,
  removed_not_in_use, reset_failed, reset_complete,
}
use rclone_vfs.Item.Life.Safe.{remove-Calm, remove-rs, check_object-Calm}

-- What RemoveNotInUse and Reset may do to the item of `st` when they report that `freed` bytes are
-- free: an item with changes, in its grace period, or open and in the middle of a call is left as
-- it is, the openers are not touched, and either nothing is freed and nothing is lost, or what is
-- freed is all that the item had.
pub record Reclaimed (st : State) (freed : ℤ) (st' : State) : Type 0 where
  pub dirty : st.item.info.dirty ≡ true → st' ≡ st
  pub grace : st.item.grace_timer ≡ true → st' ≡ st
  pub busy :
      (ltb 0 st.item.pending_accesses && not (eqb_ℤ st.item.opens (Prelude.pos 0))) ≡ true
      → st' ≡ st
  pub opens : st'.item.opens ≡ st.item.opens
  pub name : st'.item.name ≡ st.item.name
  pub account :
      ((freed ≡ Prelude.pos 0) × (st'.item.info.rs ≡ st.item.info.rs))
      ⊎ ((freed ≡ total_size st.item.info.rs) × (st'.item.info.rs ≡ []))

kept-Reclaimed : (st : State) → Reclaimed st (Prelude.pos 0) st
kept-Reclaimed st = record {
  dirty = λ h. refl;
  grace = λ h. refl;
  busy = λ h. refl;
  opens = refl;
  name = refl;
  account = inl (refl, refl);
}

removed-Reclaimed :
    (os : Os) (st : State)
    → (eqb_ℤ st.item.opens (Prelude.pos 0) && not st.item.info.dirty && not st.item.grace_timer)
      ≡ true
    → Reclaimed st (total_size st.item.info.rs) (remove os st).1
removed-Reclaimed os st h = record {
  dirty = λ d. ground arith;
  grace = λ d. ground arith;
  busy = λ d. ground arith;
  opens = (remove-Calm os st).opens;
  name = (remove-Calm os st).name;
  account = inr (refl, remove-rs os st);
}

-- What RemoveNotInUse may do besides: an item that is open is left as it is, whether a call is being
-- made on it or not; what is reported as removed has no bytes left, was read last at least `max_age`
-- ago if that is not zero, and was empty before if only empty items are asked for; what is not
-- reported as removed is as it was, and nothing is reported as freed.
pub record Unused (os : Os) (max_age : ℤ) (empty_only : Bool) (st : State) (out : Bool × ℤ × State)
    : Type 0 where
  pub reclaimed : Reclaimed st out.1 out.2
  pub used : st.item.opens ≢ Prelude.pos 0 → (out.0 ≡ false) × (out.2 ≡ st)
  pub gone : out.0 ≡ true → (out.1 ≡ total_size st.item.info.rs) × (out.2.item.info.rs ≡ [])
  pub old :
      out.0 ≡ true → max_age ≢ Prelude.pos 0 → leb_ℤ st.item.info.a_time (os.now -ℤ max_age) ≡ true
  pub empty : out.0 ≡ true → empty_only ≡ true → total_size st.item.info.rs ≡ Prelude.pos 0
  pub kept : out.0 ≡ false → (out.1 ≡ Prelude.pos 0) × (out.2 ≡ st)

remove_not_in_use_reclaims :
    (os : Os) (st : State) (max_age : ℤ) (empty_only : Bool)
    → let out = remove_not_in_use os st max_age empty_only in Reclaimed st out.1 out.2
unfolding remove_not_in_use
remove_not_in_use_reclaims os st max_age empty_only =
    by_guard
      (not (eqb_ℤ st.item.opens (Prelude.pos 0)) || st.item.info.dirty || st.item.grace_timer)
      ((eqb_ℤ max_age (Prelude.pos 0) || leb_ℤ st.item.info.a_time (os.now -ℤ max_age))
        && (not empty_only || eqb_ℤ (total_size st.item.info.rs) (Prelude.pos 0)))
      refl
  where
    by_guard :
        (b c : Bool)
        → (not (eqb_ℤ st.item.opens (Prelude.pos 0)) || st.item.info.dirty || st.item.grace_timer)
          ≡ b
        → let out : Bool × ℤ × State =
            if b
            then (false, Prelude.pos 0, st)
            else if c
            then (true, total_size st.item.info.rs, (remove os st).1)
            else (false, Prelude.pos 0, st) in
          Reclaimed st out.1 out.2
    by_guard true c h = kept-Reclaimed st
    by_guard false true h = removed-Reclaimed os st (ground arith)
    by_guard false false h = kept-Reclaimed st

-- RemoveNotInUse leaves an item alone that has changes, is in its grace period or is open; what it
-- removes was read last at least the age given ago, unless that is zero, and was empty if only empty
-- items are asked for; and what it reports as freed is what the item had if it was removed, which
-- leaves it no range of bytes, and nothing if not.
pub remove_not_in_use-Reclaimed :
    (os : Os) (st : State) (max_age : ℤ) (empty_only : Bool)
    → Unused os max_age empty_only st (remove_not_in_use os st max_age empty_only)
unfolding remove_not_in_use
remove_not_in_use-Reclaimed os st max_age empty_only = record {
  reclaimed = remove_not_in_use_reclaims os st max_age empty_only;
  used = λ h. (ground arith, ground arith);
  gone = λ h. (ground arith, ground (arith, remove-rs os st));
  old = λ h n. ground arith;
  empty = λ h e. ground arith;
  kept = λ h. (ground arith, ground arith);
}

-- A reset that got past its guards: nothing is freed and nothing is lost, or it is all gone.
record Emptied (st : State) (out : ResetOut) : Type 0 where
  opens : out.state.item.opens ≡ st.item.opens
  name : out.state.item.name ≡ st.item.name
  result : is_removed out.result ≡ false
  account :
      ((out.freed ≡ Prelude.pos 0) × (out.state.item.info.rs ≡ st.item.info.rs))
      ⊎ ((out.freed ≡ total_size st.item.info.rs) × (out.state.item.info.rs ≡ []))

create_file-keeps :
    (os : Os) (st : State)
    → let st' = new_downloaders (create_file os st).1 in
      (st'.item.opens ≡ st.item.opens)
      × (st'.item.info.rs ≡ st.item.info.rs)
      × (st'.item.name ≡ st.item.name)
unfolding create_file save open_path
create_file-keeps os st = (ground arith, ground arith, ground arith)

create_file_removed :
    (os : Os) (st : State)
    → let st' = (remove os (create_file os st).1).1 in
      (st'.item.opens ≡ st.item.opens) × (st'.item.info.rs ≡ []) × (st'.item.name ≡ st.item.name)
unfolding create_file save open_path
create_file_removed os st =
    let kept : (create_file os st).1.item.opens ≡ st.item.opens = ground arith in
    let named : (create_file os st).1.item.name ≡ st.item.name = ground arith in
    let calm = remove-Calm os (create_file os st).1 in
    (calm.opens ∙ kept, remove-rs os (create_file os st).1, calm.name ∙ named)

reset_create-empty :
    (no_space : ItemError → Bool) (os : Os) (st : State) (freed : ℤ) (err : Option ItemError)
    → st.item.info.rs ≡ []
    → let out = reset_create no_space os st freed err in
      (out.state.item.opens ≡ st.item.opens)
      × (out.state.item.info.rs ≡ [])
      × (out.freed ≡ freed)
      × (out.state.item.name ≡ st.item.name)
      × (is_removed out.result ≡ false)
unfolding reset_create is_removed
reset_create-empty no_space os st freed err h = by_error (first_err err (create_file os st).0)
  where
    by_error :
        (o : Option ItemError)
        → let out : ResetOut = elim o [
          | none ↦ record {
            result = reset_complete;
            freed = freed;
            err = none;
            state = set_being_reset (new_downloaders (create_file os st).1) false;
          }
          | some e ↦ record {
            result = reset_failed;
            freed = freed;
            err = some e;
            state =
                if no_space e
                then set_fd (remove os (create_file os st).1).1 none
                else set_being_reset (set_fd (remove os (create_file os st).1).1 none) false;
          }
        ] in
          (out.state.item.opens ≡ st.item.opens)
          × (out.state.item.info.rs ≡ [])
          × (out.freed ≡ freed)
          × (out.state.item.name ≡ st.item.name)
          × (is_removed out.result ≡ false)
    by_error none = (
      (create_file-keeps os st).0,
      (create_file-keeps os st).1 ∙ h,
      refl,
      (create_file-keeps os st).2,
      refl,
    )
    by_error (some e) = elim (Bool-cases (no_space e)) [
      | inl b ↦ rw b (
        (create_file_removed os st).0,
        (create_file_removed os st).1,
        refl,
        (create_file_removed os st).2,
        refl,
      )
      | inr b ↦ rw b (
        (create_file_removed os st).0,
        (create_file_removed os st).1,
        refl,
        (create_file_removed os st).2,
        refl,
      )
    ]

reset_closed-Emptied :
    (no_space : ItemError → Bool) (os : Os) (st : State) (err : Option ItemError)
    → Emptied st (reset_closed no_space os st err)
unfolding reset_closed is_removed
reset_closed-Emptied no_space os st err =
    let checked = check_object os (remove os st).1 st.item.o in
    let c = check_object-Calm os (remove os st).1 st.item.o in
    let opens = c.opens ∙ (remove-Calm os st).opens in
    let named = c.name ∙ (remove-Calm os st).name in
    let emptied = c.empty (remove-rs os st) in
    let made = reset_create-empty no_space os checked.1 (total_size st.item.info.rs) none emptied in
    elim (Option-cases (first_err err checked.0)) [
      | inl e ↦
          rw (e, reset_closed)
            (record {
              opens = made.0 ∙ opens;
              name = made.3 ∙ named;
              result = made.4;
              account = inr (made.2, made.1);
            })
      | inr (x, e) ↦
          rw (e, reset_closed)
            (record { opens = opens; name = named; result = refl; account = inr (refl, emptied) })
    ]

reset_used-Emptied :
    (no_space : ItemError → Bool) (os : Os) (st : State) → Emptied st (reset_used no_space os st)
unfolding reset_used is_removed
reset_used-Emptied no_space os st =
    let dls_err = if st.item.downloaders then os_err os.dls_close_err else none in
    let quiet = record st { item = record st.item { downloaders = false; being_reset = true } } in
    let empty = reset_closed-Emptied no_space os quiet dls_err in
    let closed = reset_closed-Emptied no_space os (set_fd quiet none) none in
    elim (Option-cases st.item.fd) [
      | inl e ↦
          rw (e, reset_used)
            (record {
              opens = empty.opens;
              name = empty.name;
              result = empty.result;
              account = empty.account;
            })
      | inr (i, e) ↦ elim (Option-cases (first_err dls_err (os_err os.fd_close_err))) [
        | inl f ↦
            rw (e, reset_used, f)
              (record {
                opens = closed.opens;
                name = closed.name;
                result = closed.result;
                account = closed.account;
              })
        | inr (x, f) ↦
            rw (e, reset_used, f)
              (record { opens = refl; name = refl; result = refl; account = inl (refl, refl) })
      ]
    ]

-- Reset leaves alone an item with changes, in its grace period, or open and in the middle of a call
-- (one that is not open is removed even then), and what it reports as freed is what the item had if it was emptied and nothing if not,
-- whichever error it returns.
pub reset-Reclaimed :
    (no_space : ItemError → Bool) (os : Os) (st : State)
    → Reclaimed st (reset no_space os st).freed (reset no_space os st).state
unfolding reset
reset-Reclaimed no_space os st =
    by_guard
      (eqb_ℤ st.item.opens (Prelude.pos 0) && not st.item.info.dirty && not st.item.grace_timer)
      st.item.info.dirty st.item.grace_timer (ltb 0 st.item.pending_accesses)
      (eqb_ℤ (total_size st.item.info.rs) (Prelude.pos 0) && not st.item.being_reset) refl refl refl
      refl
  where
    skip : ResetResult → ResetOut
    skip r = record { result = r; freed = Prelude.pos 0; err = none; state = st }

    by_guard :
        (a b c d e : Bool)
        → (eqb_ℤ st.item.opens (Prelude.pos 0) && not st.item.info.dirty && not st.item.grace_timer)
          ≡ a
        → st.item.info.dirty ≡ b
        → st.item.grace_timer ≡ c
        → ltb 0 st.item.pending_accesses ≡ d
        → let out : ResetOut =
            if a
            then record {
              result = removed_not_in_use;
              freed = total_size st.item.info.rs;
              err = none;
              state = (remove os st).1;
            }
            else if b
            then skip skipped_dirty
            else if c
            then skip skipped_grace
            else if d
            then skip skipped_pending_access
            else if e
            then skip skipped_empty
            else reset_used no_space os st in
          Reclaimed st out.freed out.state
    by_guard true b c d e v w x y = removed-Reclaimed os st v
    by_guard false true c d e v w x y = kept-Reclaimed st
    by_guard false false true d e v w x y = kept-Reclaimed st
    by_guard false false false true e v w x y = kept-Reclaimed st
    by_guard false false false false true v w x y = kept-Reclaimed st
    by_guard false false false false false v w x y =
        let done = reset_used-Emptied no_space os st in
        record {
          dirty = λ h. ground arith;
          grace = λ h. ground arith;
          busy = λ h. ground arith;
          opens = done.opens;
          name = done.name;
          account = done.account;
        }

-- What RemoveNotInUse removes had no changes, and it reports its space.
pub remove_not_in_use_gone :
    (os : Os) (st : State) (max_age : ℤ) (empty_only : Bool)
    → (remove_not_in_use os st max_age empty_only).0 ≡ true
    → (st.item.info.dirty ≡ false)
      × ((remove_not_in_use os st max_age empty_only).1 ≡ total_size st.item.info.rs)
unfolding remove_not_in_use
remove_not_in_use_gone os st max_age empty_only h = (ground arith, ground arith)

-- What Reset removes had no changes, and it reports its space.
pub reset_gone :
    (no_space : ItemError → Bool) (os : Os) (st : State)
    → is_removed (reset no_space os st).result ≡ true
    → (st.item.info.dirty ≡ false) × ((reset no_space os st).freed ≡ total_size st.item.info.rs)
unfolding reset is_removed
reset_gone no_space os st h =
    by_guard
      (eqb_ℤ st.item.opens (Prelude.pos 0) && not st.item.info.dirty && not st.item.grace_timer)
      st.item.info.dirty st.item.grace_timer (ltb 0 st.item.pending_accesses)
      (eqb_ℤ (total_size st.item.info.rs) (Prelude.pos 0) && not st.item.being_reset) refl h
  where
    skip : ResetResult → ResetOut
    skip r = record { result = r; freed = Prelude.pos 0; err = none; state = st }

    by_guard :
        (a b c d e : Bool)
        → (eqb_ℤ st.item.opens (Prelude.pos 0) && not st.item.info.dirty && not st.item.grace_timer)
          ≡ a
        → let out : ResetOut =
            if a
            then record {
              result = removed_not_in_use;
              freed = total_size st.item.info.rs;
              err = none;
              state = (remove os st).1;
            }
            else if b
            then skip skipped_dirty
            else if c
            then skip skipped_grace
            else if d
            then skip skipped_pending_access
            else if e
            then skip skipped_empty
            else reset_used no_space os st in
          is_removed out.result ≡ true
          → (st.item.info.dirty ≡ false) × (out.freed ≡ total_size st.item.info.rs)
    by_guard true b c d e v r = (ground arith, refl)
    by_guard false true c d e v r = clash false r refl
    by_guard false false true d e v r = clash false r refl
    by_guard false false false true e v r = clash false r refl
    by_guard false false false false true v r = clash false r refl
    by_guard false false false false false v r =
        clash _ r (reset_used-Emptied no_space os st).result
