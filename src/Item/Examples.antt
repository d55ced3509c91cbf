-- ===== src/Item/Examples.antt =====
-- The theorems on cached items at concrete items.
use rclone_vfs.Prelude.{
  ◌≡◌, refl, true, false, none, some, [], ◌∷◌, arith, ℤ, ltb_ℤ, ◌+ℤ◌, ◌-ℤ◌, min_ℤ, max_ℤ,
}
use rclone_vfs.Prelude.{pos}
use rclone_vfs.Ranges.{Range, total_size, present, find, search_pos, intersection}
use rclone_vfs.Ranges.Cover.{IsCoalesced, covers}
use rclone_vfs.Downloaders.{Seeker, Downloaders, dispatch_waiters}
use rclone_vfs.Item.{Os, State, os_error, set_info}
use rclone_vfs.Item.Data.{write_at, read_at}
use rclone_vfs.Item.Data.RoundTrip.{Idle, write_at-read_at}
use rclone_vfs.Item.Samples.{fine, object, changed, idle}
use rclone_vfs.Item.Data.{ensure_range, write_at_no_overwrite, after_write, truncate_ranges}
use rclone_vfs.Item.Data.Written.Loop.{Overwritten, write_at_no_overwrite-Overwritten}
use rclone_vfs.Item.Data.Missing.{HasAll, Earned, item_ops, dispatch_waiters-Earned}
use rclone_vfs.Item.Data.Grown.{Recorded, after_write-Recorded, Cut, truncate_ranges-Cut}
use rclone_vfs.Item.Life.{Options, new_item, open', close_locked, check_object}
use rclone_vfs.Item.Life.Resets.{remove_not_in_use, reset}
use rclone_vfs.Item.Life.Safe.Cleaner.{
  Reclaimed, Unused, remove_not_in_use-Reclaimed, reset-Reclaimed,
}
use rclone_vfs.Item.Life.Balance.{Balanced}
use rclone_vfs.Item.Life.Balance.Closes.{Served}
use rclone_vfs.Item.Life.Balance.Runs.{start, step, opened, closed, new_item-Balanced}
use rclone_vfs.Item.Life.Faults.{Refusing, Lost, close_locked-open'-Lost}

abbrev range : ℤ → ℤ → Range
range p s = record { pos = p; size = s }

-- One in which the downloads fail.
abbrev refusing : Os
refusing = record fine {
  ensure = λ st r. (some (os_error 5), st);
  download = λ st r. (some (os_error 5), st);
}

-- The same file, unchanged and open.
abbrev clean : State
clean = record changed {
  item = record changed.item { info = record changed.item.info { dirty = false } };
}

changed-IsCoalesced : IsCoalesced changed.item.info.rs
changed-IsCoalesced = omega arith

write_at_no_overwrite-Overwritten_example :
    Overwritten
      (covers changed.item.info.rs)
      changed
      (7 ∷ 7 ∷ 7 ∷ 7 ∷ [])
      (pos 1)
      0
      (write_at_no_overwrite fine changed (7 ∷ 7 ∷ 7 ∷ 7 ∷ []) (pos 1))
write_at_no_overwrite-Overwritten_example =
    write_at_no_overwrite-Overwritten fine changed (7 ∷ 7 ∷ 7 ∷ 7 ∷ []) (pos 1) changed-IsCoalesced
      (omega arith)

abbrev seeks : Seeker
seeks = λ p. none

-- Two waiters, of which the first has its range.
abbrev waiting : Downloaders
waiting = record {
  dls = [];
  waiters =
      record { r = range (pos 2) (pos 2); err_chan = 0 }
      ∷ record { r = range (pos 4) (pos 3); err_chan = 1 }
      ∷ [];
  error_count = 0;
  last_err = none;
  read_ahead = 0;
  src_size = pos 10;
}

dispatch_waiters-Earned_example :
    Earned
      (HasAll changed (pos 10))
      waiting.waiters
      (dispatch_waiters (item_ops fine) changed seeks waiting).0
dispatch_waiters-Earned_example =
    dispatch_waiters-Earned fine changed seeks waiting changed-IsCoalesced

after_write-Recorded_example : Recorded changed (pos 12) 2 (after_write fine changed (pos 12) 2)
after_write-Recorded_example = after_write-Recorded fine changed (pos 12) 2 changed-IsCoalesced

truncate_ranges-Cut_example :
    Cut changed (pos 10) (pos 3) (truncate_ranges changed (pos 10) (pos 3))
truncate_ranges-Cut_example = truncate_ranges-Cut changed (pos 10) (pos 3) changed-IsCoalesced

remove_not_in_use-Reclaimed_example :
    Unused fine (pos 0) false idle (remove_not_in_use fine idle (pos 0) false)
remove_not_in_use-Reclaimed_example = remove_not_in_use-Reclaimed fine idle (pos 0) false

reset-Reclaimed_example :
    Reclaimed clean (reset (λ e. false) fine clean).freed (reset (λ e. false) fine clean).state
reset-Reclaimed_example = reset-Reclaimed (λ e. false) fine clean

abbrev options : Options
options = record { write_back = pos 5; handle_caching = pos 0 }

fine-Served : Served fine
fine-Served = record {
  ensure_answer = λ st r. refl;
  ensure_keeps = λ st r. (refl, refl, refl);
  download_answer = λ st r. refl;
  download_keeps = λ st r. (refl, refl, refl);
}

-- A new item that is opened and closed.
abbrev made : State
made = new_item fine idle 3

abbrev used : State
used = (open' fine false made none).1

used_opens : ltb_ℤ (pos 0) used.item.opens ≡ true
unfolding new_item open' total_size ◌+ℤ◌ ◌-ℤ◌
used_opens = refl

new_item-Balanced_example : Balanced (close_locked fine options used).1
new_item-Balanced_example = new_item-Balanced fine idle 3 (close_locked fine options used).1 (
    step used _ (step made _ start (opened fine false none))
      (closed fine options fine-Served used_opens))

refusing-Refusing : Refusing refusing (os_error 5)
refusing-Refusing = record {
  ensure_answer = λ st r. refl;
  ensure_left = λ st r. record { fd = refl; opens = refl; grace = refl; dirty = refl };
  download_answer = λ st r. refl;
  download_left = λ st r. record { fd = refl; opens = refl; grace = refl; dirty = refl };
}

abbrev refused : State
refused = (close_locked refusing options changed).1

abbrev refused_timed : State
refused_timed = set_info refused (record refused.item.info { a_time = pos 9 })

refused-checks : (check_object fine refused_timed (some object)).0 ≡ none
unfolding close_locked check_object ensure_range present total_size ◌+ℤ◌ ◌-ℤ◌ find search_pos
    intersection min_ℤ max_ℤ
refused-checks = refl

close_locked-open'-Lost_example :
    ((close_locked refusing options changed).0 ≡ some (os_error 5))
    × Lost (open' fine false (close_locked refusing options changed).1 (some object))
close_locked-open'-Lost_example =
    close_locked-open'-Lost refusing fine options changed object (os_error 5) 0 false (some object)
      refusing-Refusing refl refl refl refl refl refl refl refused-checks

fine-Idle : Idle fine
fine-Idle = record { ensure = λ st r. refl }

-- Two bytes over the end of what is present.
write_at-read_at_example :
    (out : State) × (write_at fine changed (8 ∷ 9 ∷ []) (pos 4) ≡ some ((2, none), out))
    × ((read_at fine out 2 (pos 4)).0 ≡ (8 ∷ 9 ∷ [], none))
write_at-read_at_example =
    write_at-read_at fine fine changed 0 (8 ∷ 9 ∷ []) (pos 4) changed-IsCoalesced refl refl
      (omega arith) (omega arith) (omega arith) refl fine-Idle
