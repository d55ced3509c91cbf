-- ===== src/Writeback/Due.antt =====
-- processItems starts every item that is due while there is room, and failed uploads wait longer.
use rclone_vfs.Prelude.{
  ℕ, zero, suc, ◌+◌, ◌-◌, ◌≤◌, ◌<◌, ◌≡◌, refl, ◌⊎◌, inl, inr, Bool, true, false, Option, none, some,
  List, [], ◌∷◌, ◌++◌, arith, if◌then◌else◌, leb, length, count, Bool-cases, Option-cases, ℤ, leb_ℤ,
  ◌<ℤ◌, ◌≤ℤ◌, ◌-ℤ◌, ◌+ℤ◌, lookup, lookup-delete_self, count-erase_self, ltb_ℤ, eqb_ℤ, -ℤ_parts,
  ℕ_discrete, dec_lt, count-erase_ne, count-append, count-single, delete,
}
use rclone_vfs.Prelude
use rclone_vfs.Writeback.{
  WbItem, WriteBack, Outcome, succeeded, cancelled, failed, max_transfers, max_upload_delay, less,
  top, peek_item, pop_item, start, process_loop, process_items, reset_timer, stop_timer,
  upload_done, upload_end, push_item, del_item, cancel_upload, cancel_begin, cancel_waits, resume,
}
use rclone_vfs.Writeback.Invariant.{length-erase}
use rclone_vfs.Writeback.Order.{peek_item-IsFront}

-- What processItems leaves: no item on the heap that is due, or as many uploads as there may be.
pub record Drained (wb : WriteBack) (now : ℤ) (again : Bool) : Type 0 where
  pub full : again ≡ false → max_transfers ≤ wb.uploads
  pub late : again ≡ true → (q : ℕ) → 0 < count q wb.items → now <ℤ (wb.store q).expiry

not_before :
    (a b : WbItem) (now : ℤ)
    → less a b ≡ false
    → leb_ℤ (b.expiry -ℤ now) (Prelude.pos 0) ≡ false
    → now <ℤ a.expiry
unfolding less
not_before a b now h k = ground (arith, -ℤ_parts b.expiry now)

empty_of : (store : ℕ → WbItem) (l : List ℕ) → top store l ≡ none → l ≡ []
unfolding top
empty_of store [] h = refl
empty_of store (p ∷ l) h = cc

empty_top : (wb : WriteBack) → peek_item wb ≡ none → wb.items ≡ []
empty_top wb e = empty_of wb.store wb.items (unfold peek_item in e)

nothing : (q : ℕ) (l : List ℕ) → l ≡ [] → 0 < count q l → ⊥
unfolding count
nothing q [] e h = elim h [ ]
nothing q (p ∷ l) e h = cc

process_loop-Drained :
    (k : ℕ) (wb : WriteBack) (now : ℤ)
    → length wb.items < k
    → Drained (process_loop k wb now).1 now (process_loop k wb now).0
unfolding process_loop start pop_item
process_loop-Drained zero wb now h = elim h [ ]
process_loop-Drained (suc k) wb now h = elim (Option-cases (peek_item wb)) [
  | inl e ↦
      rw (e, process_loop)
        (record { full = λ f. cc; late = λ f q c. absurd (nothing q wb.items (empty_top wb e) c) })
  | inr (p, e) ↦
      let front = peek_item-IsFront wb e in
      elim (Bool-cases (leb_ℤ ((wb.store p).expiry -ℤ now) (Prelude.pos 0))) [
        | inr late ↦
            rw (e, process_loop, late)
              (record {
                full = λ f. cc;
                late = λ f q c. not_before (wb.store q) (wb.store p) now (front.first q c) late;
              })
        | inl due ↦ elim (Bool-cases (leb max_transfers wb.uploads)) [
          | inl full ↦
              rw (e, process_loop, due, full) (record { full = λ f. ground arith; late = λ f. cc })
          | inr room ↦
              rw (e, process_loop, due, room)
                (process_loop-Drained k (start wb p) now
                  (omega (arith, length-erase p wb.items front.inside)))
        ]
      ]
]

-- The items that went from the heap of `wb` to goroutines of `wb'`: no item is lost, each that went
-- was due, is marked as uploading and has a cancel function, the others are as they were, and the
-- counter of uploads goes up with the goroutines.
pub record Started (wb wb' : WriteBack) (now : ℤ) : Type 0 where
  pub moved :
      (q : ℕ)
      → count q wb'.items + count q wb'.goroutines ≡ count q wb.items + count q wb.goroutines
  pub forth : (q : ℕ) → count q wb.goroutines ≤ count q wb'.goroutines
  pub due : (q : ℕ) → count q wb.goroutines < count q wb'.goroutines → (wb.store q).expiry ≤ℤ now
  pub marked :
      (q : ℕ)
      → count q wb.goroutines < count q wb'.goroutines
      → ((wb'.store q).uploading ≡ true)
        × ((wb'.store q).cancel ≡ true)
        × ((wb'.store q).on_heap ≡ false)
  pub others : (q : ℕ) → count q wb'.goroutines ≡ count q wb.goroutines → wb'.store q ≡ wb.store q
  pub counted : wb'.uploads + length wb.goroutines ≡ wb.uploads + length wb'.goroutines

none-Started : (wb : WriteBack) (now : ℤ) → Started wb wb now
none-Started wb now = record {
  moved = λ q. refl;
  forth = λ q. omega arith;
  due = λ q h. absurd (omega arith);
  marked = λ q h. absurd (omega arith);
  others = λ q h. refl;
  counted = refl;
}

start-Started :
    (wb wb' : WriteBack) (p : ℕ) (now : ℤ)
    → 0 < count p wb.items
    → leb_ℤ ((wb.store p).expiry -ℤ now) (Prelude.pos 0) ≡ true
    → Started (start wb p) wb' now
    → Started wb wb' now
unfolding start pop_item count
start-Started wb wb' p now inside late s = record {
  moved = λ q. elim (ℕ_discrete q p) [
    | yes e ↦ ground (arith, s.moved q, count-erase_self p wb.items)
    | no n ↦ ground (arith, s.moved q, count-erase_ne q p wb.items n)
  ];
  forth = λ q. ground (arith, s.forth q);
  due = λ q h. elim (ℕ_discrete q p) [
    | yes e ↦ rw e (ground (arith, -ℤ_parts (wb.store p).expiry now))
    | no n ↦ ground (arith, s.due q)
  ];
  marked = λ q h. elim (dec_lt (count q (start wb p).goroutines) (count q wb'.goroutines)) [
    | yes more ↦ s.marked q more
    | no same ↦
        let f = s.forth q in
        let kept = s.others q (omega arith) in (ground arith, ground arith, ground arith)
  ];
  others = λ q h. ground (arith, s.others q, s.forth q);
  counted = omega (arith, s.counted);
}

process_loop-Started : (k : ℕ) (wb : WriteBack) (now : ℤ) → Started wb (process_loop k wb now).1 now
unfolding process_loop
process_loop-Started zero wb now = none-Started wb now
process_loop-Started (suc k) wb now = elim (Option-cases (peek_item wb)) [
  | inl e ↦ rw (e, process_loop) (none-Started wb now)
  | inr (p, e) ↦
      let front = peek_item-IsFront wb e in
      elim (Bool-cases (leb_ℤ ((wb.store p).expiry -ℤ now) (Prelude.pos 0))) [
        | inr late ↦ rw (e, process_loop, late) (none-Started wb now)
        | inl due ↦ elim (Bool-cases (leb max_transfers wb.uploads)) [
          | inl full ↦ rw (e, process_loop, due, full) (none-Started wb now)
          | inr room ↦
              rw (e, process_loop, due, room)
                (start-Started wb _ p now front.inside due
                  (process_loop-Started k (start wb p) now))
        ]
      ]
]

-- The timer is stopped if the heap is empty, and otherwise set to when its front is due.
pub record Timed (wb : WriteBack) : Type 0 where
  pub empty : peek_item wb ≡ none → wb.expiry ≡ none
  pub front : (q : ℕ) → peek_item wb ≡ some q → wb.expiry ≡ some (wb.store q).expiry

-- What processItems does to the queue and the timer.
pub record Served (wb wb' : WriteBack) (now : ℤ) : Type 0 where
  pub started : Started wb wb' now
  pub served :
      ((wb'.expiry ≡ none) × (max_transfers ≤ wb'.uploads))
      ⊎ ((Timed wb') × ((q : ℕ) → 0 < count q wb'.items → now <ℤ (wb'.store q).expiry))

-- All but the timer.
timer-Started :
    (wb wb' : WriteBack) (now : ℤ) (e : Option ℤ)
    → Started wb wb' now
    → Started wb (record wb' { expiry = e }) now
timer-Started wb wb' now e s = record {
  moved = s.moved;
  forth = s.forth;
  due = s.due;
  marked = s.marked;
  others = s.others;
  counted = s.counted;
}

reset_timer-Served :
    (wb wb' : WriteBack) (now : ℤ)
    → Started wb wb' now
    → Drained wb' now true
    → Served wb (reset_timer wb') now
unfolding reset_timer stop_timer peek_item
reset_timer-Served wb wb' now s d = elim (Option-cases (top wb'.store wb'.items)) [
  | inl e ↦
      rw (e, reset_timer)
        (record {
          started = timer-Started wb wb' now none s;
          served = inr (record { empty = λ h. refl; front = λ q h. cc }, d.late refl);
        })
  | inr (p, e) ↦
      rw (e, reset_timer)
        (record {
          started = timer-Started wb wb' now (some (wb'.store p).expiry) s;
          served = inr (record { empty = λ h. cc; front = λ q h. cc }, d.late refl);
        })
]

served_by :
    (again : Bool) (wb wb' : WriteBack) (now : ℤ)
    → Started wb wb' now
    → Drained wb' now again
    → Served wb (if again then reset_timer wb' else stop_timer wb') now
unfolding stop_timer
served_by false wb wb' now s d = record {
  started = timer-Started wb wb' now none s;
  served = inl (refl, d.full refl);
}
served_by true wb wb' now s d = reset_timer-Served wb wb' now s d

-- Unless the cache is shut down, processItems moves items from the heap to goroutines of their own,
-- only items that are due at the time given, marks those as uploading and off the heap, counts them
-- and leaves the others as they were; and after it, either the timer is stopped and at least four
-- uploads are running, or no item that is still on the heap is due, and the timer is set to when
-- the front of the heap is, or stopped if there is none.
pub process_items-Served :
    (wb : WriteBack) (now : ℤ) → wb.ctx_done ≡ false → Served wb (process_items wb now) now
unfolding process_items
process_items-Served wb now running =
    let n = suc (length wb.items) in
    let d = process_loop-Drained n wb now (omega arith) in
    simp running (served_by (process_loop n wb now).0 wb _ now (process_loop-Started n wb now) d)

-- A failed upload doubles the item's delay up to five minutes, a cancelled one sets it to the
-- write-back delay of the options; both queue the item again, to be due that delay from now.
pub record Retried (wb wb' : WriteBack) (p : ℕ) (o : Outcome) (now : ℤ) : Type 0 where
  pub queued : (wb'.store p).on_heap ≡ true
  pub heap : count p wb'.items ≡ 1
  pub idle : (wb'.store p).uploading ≡ false
  pub due : (wb'.store p).expiry ≡ now +ℤ (wb'.store p).delay
  pub bounded : o ≡ failed → (wb'.store p).delay ≤ℤ max_upload_delay
  pub growing :
      o ≡ failed
      → Prelude.pos 0 ≤ℤ (wb.store p).delay
      → (wb.store p).delay ≤ℤ max_upload_delay
      → (wb.store p).delay ≤ℤ (wb'.store p).delay
  pub restored : o ≡ cancelled → (wb'.store p).delay ≡ wb.write_back
  pub fewer : wb'.uploads ≡ wb.uploads - 1

pushed :
    (wb : WriteBack) (p : ℕ)
    → count p wb.items ≡ (if (wb.store p).on_heap then 1 else 0)
    → (count p (push_item wb p).items ≡ 1)
      × (((push_item wb p).store p).on_heap ≡ true)
      × ((push_item wb p).lookup ≡ wb.lookup)
unfolding push_item
pushed wb p c =
    (ground (arith, count-append p wb.items (p ∷ []), count-single p p), ground arith, ground arith)

succeeded-done :
    (wb : WriteBack) (p : ℕ) (now : ℤ)
    → let wb' = upload_done wb p succeeded now in
      (wb'.items ≡ wb.items)
      × ((wb'.store p).on_heap ≡ (wb.store p).on_heap)
      × (wb'.lookup ≡ delete (wb.store p).id wb.lookup)
unfolding upload_done upload_end del_item reset_timer stop_timer
succeeded-done wb p now = (ground arith, ground arith, ground arith)

-- A call of cancelUpload on an item that is uploading, can be cancelled and is on the heap as it
-- is marked waits; when the upload succeeds all the same and the call then goes on, the heap holds the item once, while the map has no
-- entry for its handle.
pub cancel_upload-lost :
    (wb : WriteBack) (id p : ℕ) (now : ℤ)
    → lookup id wb.lookup ≡ some p
    → (wb.store p).uploading ≡ true
    → (wb.store p).cancel ≡ true
    → count p wb.items ≡ (if (wb.store p).on_heap then 1 else 0)
    → let after = resume (upload_done wb p succeeded now) (cancel_waits p) now in
      ((cancel_upload wb id).1 ≡ (wb, some (cancel_waits p)))
      × (after.1 ≡ none)
      × (count p after.0.items ≡ 1)
      × ((after.0.store p).on_heap ≡ true)
      × (lookup (wb.store p).id after.0.lookup ≡ none)
unfolding cancel_upload cancel_begin resume
cancel_upload-lost wb id p now found busy can c =
    let (items, heap, gone) = succeeded-done wb p now in
    let q = pushed (upload_done wb p succeeded now) p (rw (items, heap) c) in
    (
      rw (found, cancel_upload, busy, can) refl,
      refl,
      q.0,
      q.1,
      rw (q.2, gone) (lookup-delete_self (wb.store p).id wb.lookup),
    )
