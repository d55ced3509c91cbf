-- ===== src/Writeback.antt =====
-- internal/cache/writeback/writeback.go: the queue of files that wait to be written back.
-- A `*writeBackItem` is a pointer into `store`, the map that holds its fields. The heap of
-- container/heap is the bag of its pointers: `_peekItem` reads the least of them by Less, so the
-- order of the slice and the field `index` are left out. Times are nanoseconds, and "now" is an
-- argument. Names and the functions to call are only passed on, so they are numbers. Each method
-- runs under the lock, but _cancelUpload gives it up to wait for an upload: a call that does so is cut
-- there in two, and what it goes on with is a `Pending`, which `resume` carries out. In between any
-- other call and event may happen, and the item may be uploading again when the call resumes.
-- That the channel `done` is closed is not a condition of `resume`.
pub mod Invariant
pub mod Upload
pub mod Order
pub mod Run
pub mod Due
mod Examples
use rclone_vfs.Prelude.{
  ℕ, zero, suc, ◌+◌, ◌-◌, ◌%◌, ◌^◌, Bool, true, false, not, ◌&&◌, ◌||◌, Option, none, some, List,
  [], ◌∷◌, ◌++◌, if◌then◌else◌, ltb, leb, ◌==◌, ℤ, ◌+ℤ◌, ◌-ℤ◌, ltb_ℤ, leb_ℤ, eqb_ℤ, length, update,
  erase, lookup, delete,
}
use rclone_vfs.Prelude

-- type writeBackItem. `cancel` says whether it is set; closing `done` is upload_done.
pub record WbItem : Type 0 where
  pub name : ℕ
  pub size : ℤ
  pub id : ℕ
  pub expiry : ℤ
  pub uploading : Bool
  pub on_heap : Bool
  pub cancel : Bool
  pub put_fn : ℕ
  pub tries : ℕ
  pub delay : ℤ

-- type WriteBack. `write_back` is opt.WriteBack; `expiry` is none where the source has the zero
-- time, and the timer is armed exactly when it is set. `goroutines` are those that run upload, each
-- by its item; the source has them in the runtime only.
pub record WriteBack : Type 0 where
  pub id : ℕ
  pub items : List ℕ
  pub lookup : List (ℕ × ℕ)
  pub store : ℕ → WbItem
  pub allocated : ℕ
  pub write_back : ℤ
  pub expiry : Option ℤ
  pub uploads : ℕ
  pub goroutines : List ℕ
  pub ctx_done : Bool

-- writeback.New
pub new : ℤ → WriteBack
new write_back = record {
  id = 0;
  items = [];
  lookup = [];
  store = λ _. record {
    name = 0;
    size = Prelude.pos 0;
    id = 0;
    expiry = Prelude.pos 0;
    uploading = false;
    on_heap = false;
    cancel = false;
    put_fn = 0;
    tries = 0;
    delay = Prelude.pos 0;
  };
  allocated = 0;
  write_back = write_back;
  expiry = none;
  uploads = 0;
  goroutines = [];
  ctx_done = false;
}

-- maxUploadDelay, 5 minutes
abbrev pub max_upload_delay : ℤ
max_upload_delay = Prelude.pos 300000000000

-- At most four transfers at a time.
abbrev pub max_transfers : ℕ
max_transfers = 4

-- writeBackItems.Less
pub less : WbItem → WbItem → Bool
less a b = if eqb_ℤ a.expiry b.expiry then ltb a.id b.id else ltb_ℤ a.expiry b.expiry

-- The least item of a heap with the top `p`.
least : (ℕ → WbItem) → ℕ → List ℕ → ℕ
least store p [] = p
least store p (q ∷ qs) = least store (if less (store q) (store p) then q else p) qs

-- A write through an item's pointer.
abbrev pub set_item : WriteBack → ℕ → WbItem → WriteBack
set_item wb p item = record wb { store = update wb.store p item }

-- writeBackItems._update
pub update_expiry : WriteBack → ℕ → ℤ → WriteBack
update_expiry wb p expiry = set_item wb p (record (wb.store p) { expiry = expiry })

-- WriteBack._newExpiry
pub new_expiry : WriteBack → ℤ → ℤ
new_expiry wb now = if ltb_ℤ (Prelude.pos 0) wb.write_back then now +ℤ wb.write_back else now

-- WriteBack._addItem
pub add_item : WriteBack → ℕ → WriteBack
add_item wb p = record wb { lookup = ((wb.store p).id, p) ∷ delete (wb.store p).id wb.lookup }

-- WriteBack._delItem
pub del_item : WriteBack → ℕ → WriteBack
del_item wb p = record wb { lookup = delete (wb.store p).id wb.lookup }

-- WriteBack._pushItem
pub push_item : WriteBack → ℕ → WriteBack
push_item wb p =
    if not (wb.store p).on_heap
    then record wb {
      items = wb.items ++ p ∷ [];
      store = update wb.store p (record (wb.store p) { on_heap = true });
    }
    else wb

-- WriteBack._removeItem
pub remove_item : WriteBack → ℕ → WriteBack
remove_item wb p =
    if (wb.store p).on_heap
    then record wb {
      items = erase p wb.items;
      store = update wb.store p (record (wb.store p) { on_heap = false });
    }
    else wb

top : (ℕ → WbItem) → List ℕ → Option ℕ
unfolding least
top store [] = none
top store (p ∷ ps) = some (least store p ps)

-- WriteBack._peekItem
pub peek_item : WriteBack → Option ℕ
unfolding top
peek_item wb = top wb.store wb.items

-- WriteBack._popItem, of the pointer that _peekItem returned.
pub pop_item : WriteBack → ℕ → WriteBack
pop_item wb p = record wb {
  items = erase p wb.items;
  store = update wb.store p (record (wb.store p) { on_heap = false });
}

-- WriteBack._stopTimer
pub stop_timer : WriteBack → WriteBack
stop_timer wb = record wb { expiry = none }

-- WriteBack._resetTimer
pub reset_timer : WriteBack → WriteBack
reset_timer wb = elim (peek_item wb) [
  | none ↦ stop_timer wb
  | some p ↦ record wb { expiry = some (wb.store p).expiry }
]

-- WriteBack.SetID: the handle, and the queue.
pub set_id : WriteBack → ℕ → ℕ × WriteBack
set_id wb pid =
    if pid == 0 then ((wb.id + 1) % 2 ^ 64, record wb { id = (wb.id + 1) % 2 ^ 64 }) else (pid, wb)

-- WriteBack._newItem: the pointer, and the queue.
pub new_item : WriteBack → ℕ → ℕ → ℤ → ℤ → ℕ × WriteBack
new_item wb id name size now =
    let (id', wb') = set_id wb id in
    let p = wb'.allocated in
    let item : WbItem = record {
      name = name;
      size = size;
      id = id';
      expiry = new_expiry wb' now;
      uploading = false;
      on_heap = false;
      cancel = false;
      put_fn = 0;
      tries = 0;
      delay = wb'.write_back;
    } in
    (
      p,
      push_item (add_item (record wb' { store = update wb'.store p item; allocated = suc p }) p) p,
    )

-- How an upload ends: the error of putFn.
pub data Outcome : Type 0 where
  succeeded cancelled failed : Outcome

-- The delay before the next attempt.
pub next_delay : WriteBack → Outcome → ℤ → ℤ
next_delay wb cancelled delay = wb.write_back
next_delay wb _ delay =
    let twice = delay +ℤ delay in if ltb_ℤ max_upload_delay twice then max_upload_delay else twice

-- WriteBack.upload up to the call of putFn.
pub upload_start : WriteBack → ℕ → WriteBack
upload_start wb p = set_item wb p (record (wb.store p) { tries = (wb.store p).tries + 1 })

-- What WriteBack.upload does with the outcome of putFn.
upload_end : WriteBack → ℕ → Outcome → ℤ → WriteBack
upload_end wb p succeeded now = del_item wb p
upload_end wb p o now =
    let delay = next_delay wb o (wb.store p).delay in
    update_expiry (push_item (set_item wb p (record (wb.store p) { delay = delay })) p) p
      (now +ℤ delay)

-- WriteBack.upload from the return of putFn.
pub upload_done : WriteBack → ℕ → Outcome → ℤ → WriteBack
unfolding upload_end
upload_done wb p o now = reset_timer (
    upload_end
      (record wb {
        store = update wb.store p (record (wb.store p) { uploading = false });
        uploads = wb.uploads - 1;
        goroutines = erase p wb.goroutines;
      })
      p o now)

-- A call that waits, without the lock, for an upload to end, with what it goes on with.
pub data Pending : Type 0 where
  add_waits : ℕ → ℕ → ℤ → Pending
  remove_waits : ℕ → Pending
  cancel_waits : ℕ → Pending
  rename_waits : ℕ → ℕ → ℕ → Pending
  rename_removes : ℕ → ℕ → ℕ → ℕ → List (ℕ × ℕ) → Pending

-- The queue when a call gives up the lock: at its end, or where it waits.
abbrev pub Progress : Type 0
Progress = WriteBack × Option Pending

-- WriteBack._cancelUpload up to the wait: whether there is one, and the queue. What it does after the
-- wait is push_item.
pub cancel_begin : WriteBack → ℕ → Bool × WriteBack
cancel_begin wb p =
    if not (wb.store p).uploading
    then (false, wb)
    else if (wb.store p).cancel
    then (true, wb)
    else (false, push_item wb p)

-- The end of WriteBack.Add.
pub add_end : WriteBack → ℕ → ℕ → ℤ → WriteBack
add_end wb p put_fn size =
    reset_timer (set_item wb p (record (wb.store p) { put_fn = put_fn; size = size }))

-- WriteBack.Add for an item that is known, from the new expiry.
pub add_known : WriteBack → ℕ → ℕ → ℤ → ℤ → WriteBack
unfolding add_end
add_known wb p put_fn size now = add_end (update_expiry wb p (new_expiry wb now)) p put_fn size

-- WriteBack.Add up to its first wait: the handle that it returns, and the queue.
pub add : WriteBack → ℕ → ℕ → ℤ → Bool → ℕ → ℤ → ℕ × Progress
unfolding cancel_begin add_end add_known
add wb id name size modified put_fn now = elim (lookup id wb.lookup) [
  | none ↦
      let made = new_item wb id name size now in
      ((made.1.store made.0).id, (add_end made.1 made.0 put_fn size, none))
  | some p ↦
      let begun = if modified then cancel_begin wb p else (false, wb) in
      if begun.0
      then ((wb.store p).id, (begun.1, some (add_waits p put_fn size)))
      else ((wb.store p).id, (add_known begun.1 p put_fn size now, none))
]

-- WriteBack._remove of an item that was found, from the end of its upload.
pub remove_end : WriteBack → ℕ → WriteBack
remove_end wb p = reset_timer (del_item (remove_item wb p) p)

-- WriteBack._remove up to its wait: the queue, and the item whose upload it waits for.
pub remove_begin : WriteBack → ℕ → WriteBack × Option ℕ
unfolding cancel_begin remove_end
remove_begin wb id = elim (lookup id wb.lookup) [
  | none ↦ (reset_timer wb, none)
  | some p ↦
      let begun = cancel_begin wb p in
      if begun.0 then (begun.1, some p) else (remove_end begun.1 p, none)
]

-- WriteBack.Remove up to its wait: whether the item was found, and the queue.
pub remove : WriteBack → ℕ → Bool × Progress
unfolding remove_begin
remove wb id =
    let begun = remove_begin wb id in
    let found : Bool = elim (lookup id wb.lookup) [ none ↦ false | some _ ↦ true ] in
    (found, (begun.0, elim begun.1 [ none ↦ none | some p ↦ some (remove_waits p) ]))

-- The end of WriteBack.Rename.
pub rename_end : WriteBack → ℕ → ℕ → ℤ → WriteBack
rename_end wb p name now =
    let named = set_item wb p (record (wb.store p) { name = name }) in
    reset_timer (update_expiry named p (new_expiry named now))

-- The loop of WriteBack.Rename over the entries of the map, and what follows it: other items of the
-- name are removed. It stops where a removal waits for an upload.
pub rename_loop : WriteBack → ℕ → ℕ → ℕ → List (ℕ × ℕ) → ℤ → Progress
unfolding remove_begin rename_end
rename_loop wb p id name [] now = (rename_end wb p name now, none)
rename_loop wb p id name ((other, q) ∷ entries) now =
    elim (not (other == id) && (wb.store q).name == name) [
      | false ↦ rename_loop wb p id name entries now
      | true ↦ elim (remove_begin wb other).1 [
        | none ↦ rename_loop (remove_begin wb other).0 p id name entries now
        | some w ↦ ((remove_begin wb other).0, some (rename_removes w p id name entries))
      ]
    ]

-- WriteBack.Rename up to its first wait.
pub rename : WriteBack → ℕ → ℕ → ℤ → Progress
unfolding cancel_begin rename_loop
rename wb id name now = elim (lookup id wb.lookup) [
  | none ↦ (wb, none)
  | some p ↦
      let begun = cancel_begin wb p in
      if begun.0
      then (begun.1, some (rename_waits p id name))
      else rename_loop begun.1 p id name begun.1.lookup now
]

-- WriteBack.cancelUpload up to its wait: what it returns, and the queue.
pub cancel_upload : WriteBack → ℕ → Bool × Progress
unfolding cancel_begin
cancel_upload wb id = elim (lookup id wb.lookup) [
  | none ↦ (false, (wb, none))
  | some p ↦
      let begun = cancel_begin wb p in
      ((wb.store p).uploading, (begun.1, if begun.0 then some (cancel_waits p) else none))
]

-- A call that waited has the lock again: it pushes the item in _cancelUpload and goes on, up to its
-- end or its next wait.
pub resume : WriteBack → Pending → ℤ → Progress
unfolding rename_loop
resume wb (add_waits p put_fn size) now = (add_known (push_item wb p) p put_fn size now, none)
resume wb (remove_waits p) now = (remove_end (push_item wb p) p, none)
resume wb (cancel_waits p) now = (push_item wb p, none)
resume wb (rename_waits p id name) now =
    let wb' = push_item wb p in rename_loop wb' p id name wb'.lookup now
resume wb (rename_removes w p id name entries) now =
    rename_loop (remove_end (push_item wb w) w) p id name entries now

-- The item whose upload a call waits for.
waited : Pending → ℕ
waited (add_waits p _ _) = p
waited (remove_waits p) = p
waited (cancel_waits p) = p
waited (rename_waits p _ _) = p
waited (rename_removes w _ _ _ _) = w

-- A call that nothing else comes between: the uploads that it waits for end with the outcome given.
settle : ℕ → Progress → Outcome → ℤ → WriteBack
unfolding resume waited
settle k (wb, none) o now = wb
settle zero (wb, some w) o now = wb
settle (suc k) (wb, some w) o now = settle k (resume (upload_done wb (waited w) o now) w now) o now

-- Such calls as the cached files make them. Add and Remove wait once at most, and Rename at most once
-- more than there are entries of the map.
pub add_alone : WriteBack → ℕ → ℕ → ℤ → Bool → ℕ → Outcome → ℤ → ℕ × WriteBack
unfolding settle
add_alone wb id name size modified put_fn o now =
    let begun = add wb id name size modified put_fn now in (begun.0, settle 1 begun.1 o now)

pub remove_alone : WriteBack → ℕ → Outcome → ℤ → Bool × WriteBack
unfolding settle
remove_alone wb id o now = let begun = remove wb id in (begun.0, settle 1 begun.1 o now)

pub rename_alone : WriteBack → ℕ → ℕ → Outcome → ℤ → WriteBack
unfolding settle
rename_alone wb id name o now = settle (suc (length wb.lookup)) (rename wb id name now) o now

-- The item that process_items starts to upload.
start : WriteBack → ℕ → WriteBack
start wb p =
    let wb' = pop_item wb p in
    record wb' {
      store = update wb'.store p (record (wb'.store p) { uploading = true; cancel = true });
      uploads = wb'.uploads + 1;
      goroutines = p ∷ wb'.goroutines;
    }

-- The loop of WriteBack.processItems, on fuel, and whether the timer is to be reset.
process_loop : ℕ → WriteBack → ℤ → Bool × WriteBack
process_loop zero wb now = (true, wb)
process_loop (suc k) wb now = elim (peek_item wb) [
  | none ↦ (true, wb)
  | some p ↦ elim (leb_ℤ ((wb.store p).expiry -ℤ now) (Prelude.pos 0)) [
    | false ↦ (true, wb)
    | true ↦ elim (leb max_transfers wb.uploads) [
      | true ↦ (false, wb)
      | false ↦ process_loop k (start wb p) now
    ]
  ]
]

-- WriteBack.processItems. Each round takes an item off the heap, so its length is enough fuel.
pub process_items : WriteBack → ℤ → WriteBack
unfolding process_loop start
process_items wb now =
    let (again, wb') = process_loop (suc (length wb.items)) wb now in
    if wb.ctx_done then wb else if again then reset_timer wb' else stop_timer wb'

-- WriteBack.Stats
pub stats : WriteBack → ℕ × ℕ
stats wb = (wb.uploads, length wb.items)

-- WriteBack.SetExpiry: whether the item was found, and the queue. No expiry is the zero time.
pub set_expiry : WriteBack → ℕ → Option ℤ → ℤ → Bool × WriteBack
set_expiry wb id expiry relative = elim (lookup id wb.lookup) [
  | none ↦ (false, wb)
  | some p ↦
      let base : ℤ = elim expiry [ none ↦ (wb.store p).expiry | some e ↦ e ] in
      (true, reset_timer (update_expiry wb p (base +ℤ relative)))
]
