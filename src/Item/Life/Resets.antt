-- ===== src/Item/Life/Resets.antt =====
-- internal/cache/item.go: removing an item that is not in use, and resetting one that is.
use rclone_vfs.Prelude.{
  ℕ, ◌+◌, ◌-◌, Bool, true, false, not, ◌&&◌, ◌||◌, Option, none, some, List, [], ◌∷◌, if◌then◌else◌,
  ltb, leb, ◌==◌, ℤ, ◌+ℤ◌, ◌-ℤ◌, ltb_ℤ, leb_ℤ, eqb_ℤ,
}
use rclone_vfs.Prelude
use rclone_vfs.Ranges.{total_size}
use rclone_vfs.Item.{ItemError, State, Os, set_fd, os_err, first_err, remove}
use rclone_vfs.Item.Life.{create_file, check_object, new_downloaders}

-- Item.RemoveNotInUse: whether the item was removed, the space freed, and the state.
unfoldable pub remove_not_in_use : Os → State → ℤ → Bool → Bool × ℤ × State
unfolding remove
remove_not_in_use os st max_age empty_only =
    let used = total_size st.item.info.rs in
    let old = leb_ℤ st.item.info.a_time (os.now -ℤ max_age) in
    let remove_it = eqb_ℤ max_age (Prelude.pos 0) || old in
    if not (eqb_ℤ st.item.opens (Prelude.pos 0)) || st.item.info.dirty || st.item.grace_timer
    then (false, Prelude.pos 0, st)
    else if remove_it && (not empty_only || eqb_ℤ used (Prelude.pos 0))
    then (true, used, (remove os st).1)
    else (false, Prelude.pos 0, st)

-- type ResetResult
pub data ResetResult : Type 0 where
  skipped_dirty skipped_pending_access skipped_empty skipped_grace : ResetResult
  removed_not_in_use reset_failed reset_complete : ResetResult

-- Whether Reset has removed the item.
unfoldable pub is_removed : ResetResult → Bool
is_removed removed_not_in_use = true
is_removed _ = false

-- What Reset returns.
pub record ResetOut : Type 0 where
  pub result : ResetResult
  pub freed : ℤ
  pub err : Option ItemError
  pub state : State

abbrev pub set_being_reset : State → Bool → State
set_being_reset st b = record st { item = record st.item { being_reset = b } }

-- Reset from the call of _createFile. `no_space` says which errors are ENOSPC.
unfoldable pub reset_create : (ItemError → Bool) → Os → State → ℤ → Option ItemError → ResetOut
unfolding create_file remove
reset_create no_space os st freed err =
    let created = create_file os st in
    let failed = first_err err created.0 in
    let gone = set_fd (remove os created.1).1 none in
    elim failed [
      | none ↦ record {
        result = reset_complete;
        freed = freed;
        err = none;
        state = set_being_reset (new_downloaders created.1) false;
      }
      | some e ↦ record {
        result = reset_failed;
        freed = freed;
        err = some e;
        state = if no_space e then gone else set_being_reset gone false;
      }
    ]

-- Reset once the handle is closed.
unfoldable pub reset_closed : (ItemError → Bool) → Os → State → Option ItemError → ResetOut
unfolding reset_create check_object remove
reset_closed no_space os st err =
    let freed = total_size st.item.info.rs in
    let checked = check_object os (remove os st).1 st.item.o in
    let failed = first_err err checked.0 in
    elim failed [
      | some e ↦ record {
        result = reset_failed;
        freed = freed;
        err = some e;
        state = set_being_reset checked.1 false;
      }
      | none ↦ reset_create no_space os checked.1 freed none
    ]

-- Reset of an item that is in use and clean.
unfoldable pub reset_used : (ItemError → Bool) → Os → State → ResetOut
unfolding reset_closed
reset_used no_space os st =
    let dls_err = if st.item.downloaders then os_err os.dls_close_err else none in
    let quiet = record st { item = record st.item { downloaders = false; being_reset = true } } in
    let fd_err = first_err dls_err (os_err os.fd_close_err) in
    let stuck : ItemError → ResetOut = λ e. record {
      result = reset_failed;
      freed = Prelude.pos 0;
      err = some e;
      state = set_being_reset quiet false;
    } in
    elim st.item.fd [
      | none ↦ reset_closed no_space os quiet dls_err
      | some _ ↦ elim fd_err [
        | some e ↦ stuck e
        | none ↦ reset_closed no_space os (set_fd quiet none) none
      ]
    ]

-- Item.Reset
unfoldable pub reset : (ItemError → Bool) → Os → State → ResetOut
unfolding reset_used remove
reset no_space os st =
    let skip : ResetResult → ResetOut =
      λ r. record { result = r; freed = Prelude.pos 0; err = none; state = st } in
    let unused = eqb_ℤ st.item.opens (Prelude.pos 0) in
    if unused && not st.item.info.dirty && not st.item.grace_timer
    then record {
      result = removed_not_in_use;
      freed = total_size st.item.info.rs;
      err = none;
      state = (remove os st).1;
    }
    else if st.item.info.dirty
    then skip skipped_dirty
    else if st.item.grace_timer
    then skip skipped_grace
    else if ltb 0 st.item.pending_accesses
    then skip skipped_pending_access
    else if eqb_ℤ (total_size st.item.info.rs) (Prelude.pos 0) && not st.item.being_reset
    then skip skipped_empty
    else reset_used no_space os st
