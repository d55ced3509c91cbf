-- ===== src/Writeback/Examples.antt =====
-- The theorems on the write-back queue at concrete queues.
use rclone_vfs.Prelude.{
  ◌≡◌, refl, true, false, none, some, List, [], ◌∷◌, ℤ, ◌+ℤ◌, ◌-ℤ◌, erase, lookup, delete, count,
  if◌then◌else◌,
}
use rclone_vfs.Prelude.{pos}
use rclone_vfs.Writeback.{
  WriteBack, succeeded, failed, new, least, top, peek_item, add, add_item, push_item, pop_item,
  new_item, set_id, new_expiry, reset_timer, stop_timer, start, process_loop, process_items,
  upload_done, cancel_upload, cancel_begin, cancel_waits, resume, add_end, add_known, less,
}
use rclone_vfs.Writeback.Invariant.{Inv}
use rclone_vfs.Writeback.Run.{
  Step, add_call, timer_call, upload_starts, upload_ends, remove_call, resumes, run, run-Inv,
}
use rclone_vfs.Writeback.Due.{Served, process_items-Served, cancel_upload-lost}

-- Two files are added at times 100 and 50, with a delay of 5.
abbrev added : WriteBack
added =
    let one = (add (new (pos 5)) 0 7 (pos 10) false 3 (pos 100)).1.0 in
    (add one 0 8 (pos 20) false 4 (pos 50)).1.0

-- The timer starts the second one.
abbrev busy : WriteBack
busy = process_items added (pos 60)

second_is_first : peek_item added ≡ some 1
unfolding new add new_item set_id new_expiry add_item push_item reset_timer stop_timer peek_item top
    least less lookup delete ◌+ℤ◌ cancel_begin add_end add_known
second_is_first = refl

-- An item is uploaded and its removal waits for that; the upload fails, the timer starts the item
-- again, and only then the removal goes on.
abbrev steps : List (ℤ × Step)
steps =
    (pos 100, add_call 0 7 (pos 10) false 3)
    ∷ (pos 200, timer_call)
    ∷ (pos 201, upload_starts 0)
    ∷ (pos 250, remove_call 1)
    ∷ (pos 300, upload_ends 0 failed)
    ∷ (pos 320, timer_call)
    ∷ (pos 400, resumes 0)
    ∷ []

run-Inv_example : Inv (run (record { queue = new (pos 5); waits = [] }) steps).queue
run-Inv_example = run-Inv (pos 5) steps

added_runs : added.ctx_done ≡ false
unfolding new add new_item set_id new_expiry add_item push_item reset_timer stop_timer peek_item top
    least less lookup delete ◌+ℤ◌ cancel_begin add_end add_known
added_runs = refl

process_items-Served_example : Served added (process_items added (pos 60)) (pos 60)
process_items-Served_example = process_items-Served added (pos 60) added_runs

busy_heap : count 1 busy.items ≡ (if (busy.store 1).on_heap then 1 else 0)
unfolding new add new_item set_id new_expiry add_item push_item pop_item reset_timer stop_timer
    peek_item top least less lookup delete erase process_items process_loop start ◌+ℤ◌ ◌-ℤ◌
    cancel_begin add_end add_known count
busy_heap = refl

busy_found : lookup 2 busy.lookup ≡ some 1
unfolding new add new_item set_id new_expiry add_item push_item pop_item reset_timer stop_timer
    peek_item top least less lookup delete erase process_items process_loop start ◌+ℤ◌ ◌-ℤ◌
    cancel_begin add_end add_known count
busy_found = refl

busy_uploads : (busy.store 1).uploading ≡ true
unfolding new add new_item set_id new_expiry add_item push_item pop_item reset_timer stop_timer
    peek_item top least less lookup delete erase process_items process_loop start ◌+ℤ◌ ◌-ℤ◌
    cancel_begin add_end add_known count
busy_uploads = refl

busy_cancellable : (busy.store 1).cancel ≡ true
unfolding new add new_item set_id new_expiry add_item push_item pop_item reset_timer stop_timer
    peek_item top least less lookup delete erase process_items process_loop start ◌+ℤ◌ ◌-ℤ◌
    cancel_begin add_end add_known count
busy_cancellable = refl

cancel_upload-lost_example :
    let after = resume (upload_done busy 1 succeeded (pos 70)) (cancel_waits 1) (pos 70) in
    ((cancel_upload busy 2).1 ≡ (busy, some (cancel_waits 1)))
    × (after.1 ≡ none)
    × (count 1 after.0.items ≡ 1)
    × ((after.0.store 1).on_heap ≡ true)
    × (lookup (busy.store 1).id after.0.lookup ≡ none)
cancel_upload-lost_example =
    cancel_upload-lost busy 2 1 (pos 70) busy_found busy_uploads busy_cancellable busy_heap
