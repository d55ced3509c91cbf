-- ===== src/Writeback/Run.antt =====
-- Add and processItems keep the invariant of the write-back queue, and so does any sequence of
-- calls.
use rclone_vfs.Prelude.{
  ℕ, zero, suc, ◌+◌, ◌-◌, ◌≤◌, ◌<◌, ◌≡◌, refl, sym, ap, ◌∙◌, ◌≢◌, ◌⊎◌, inl, inr, Bool, true, false,
  not, ◌&&◌, Option, none, some, List, [], ◌∷◌, ◌++◌, arith, if◌then◌else◌, ltb, leb, and_true,
  ltb→lt, ◌==◌, Bool-cases, Option-cases, update, lookup, delete, count, lookup_new, length, ℤ,
  leb_ℤ, ◌-ℤ◌, dec_lt, ℕ_discrete,
}
use rclone_vfs.Prelude
use mathlib.Core.Path.{subst}
use rclone_vfs.Writeback.{
  WbItem, WriteBack, Outcome, succeeded, cancelled, failed, max_transfers, update_expiry, push_item,
  pop_item, add_item, del_item, new, reset_timer, stop_timer, peek_item, upload_start, upload_done,
  upload_end, new_expiry, new_item, set_id, add, remove, rename, cancel_upload, start, process_loop,
  process_items, set_expiry, Pending, Progress, add_waits, remove_waits, cancel_waits, rename_waits,
  rename_removes, cancel_begin, resume,
}
use rclone_vfs.Writeback.Invariant.{
  Inv, set_item-Inv, push_item-Inv, pop_item-Inv, busy-Inv, timer-Inv, new-Inv,
}
use rclone_vfs.Writeback.Upload.{
  Kept, Kept-trans, reset_timer-Kept, add_end-Kept, add_known-Kept, cancel_begin-Kept,
  upload_done-Inv, set_expiry-Inv, Knows, KnowsIf, Going, remove-Going, rename-Going,
  cancel_upload-Going, resume-Going,
}
use rclone_vfs.Writeback.Order.{peek_item-IsFront}

-- A fresh item that is neither queued nor uploading, with its entry in the map.
allocate : WriteBack → WbItem → WriteBack
allocate wb item =
    add_item (record wb { store = update wb.store wb.allocated item; allocated = suc wb.allocated })
      wb.allocated

new_entry :
    (wb : WriteBack) (item : WbItem)
    → Inv wb
    → (k q : ℕ)
    → ((k ≡ (update wb.store wb.allocated item wb.allocated).id) × (some wb.allocated ≡ some q))
      ⊎ (lookup k wb.lookup ≡ some q)
    → (q < suc wb.allocated) × ((update wb.store wb.allocated item q).id ≡ k)
new_entry wb item v k q (inl (e, f)) = ground arith
new_entry wb item v k q (inr e) = ground (arith, v.entries k q e)

allocate-Inv :
    (wb : WriteBack) (item : WbItem)
    → Inv wb
    → item.uploading ≡ false
    → item.on_heap ≡ false
    → Inv (allocate wb item)
unfolding allocate add_item
allocate-Inv wb item v idle off =
    let p = wb.allocated in
    let clear = v.fresh p (omega arith) in
    record {
      counted = λ q. ground (arith, v.counted q);
      running = λ q h. ground (arith, v.running q);
      cancellable = λ q h. ground (arith, v.cancellable q);
      fresh = λ q h. ground (arith, v.fresh q (omega arith));
      entries = λ k q h.
          new_entry wb item v k q (lookup_new k (update wb.store p item p).id p q wb.lookup h);
      tallied = v.tallied;
      limited = v.limited;
    }

set_id-Inv : (wb : WriteBack) (id : ℕ) → Inv wb → Inv (set_id wb id).1
unfolding set_id
set_id-Inv wb id v = elim (Bool-cases (id == 0)) [
  | inl e ↦ rw e (record {
    counted = v.counted;
    running = v.running;
    cancellable = v.cancellable;
    fresh = v.fresh;
    entries = v.entries;
    tallied = v.tallied;
    limited = v.limited;
  })
  | inr e ↦ rw e v
]

set_id-allocated : (wb : WriteBack) (id : ℕ) → (set_id wb id).1.allocated ≡ wb.allocated
unfolding set_id
set_id-allocated wb id = ground arith

push_item-allocated : (wb : WriteBack) (p : ℕ) → (push_item wb p).allocated ≡ wb.allocated
unfolding push_item
push_item-allocated wb p = ground arith

-- A new item's pointer is in range, and the queue keeps its invariant.
-- What a call leaves at its end or its wait.
record Grown (wb : WriteBack) (out : Progress) : Type 0 where
  inv : Inv out.0
  grows : wb.allocated ≤ out.0.allocated
  knows : KnowsIf out.0.allocated out.1

Going-Grown : {wb : WriteBack} {out : Progress} → Going wb out → Grown wb out
Going-Grown {wb} {out} g = record {
  inv = g.kept.inv;
  grows = omega (arith, g.kept.size);
  knows = subst (λ n. KnowsIf n out.1) (sym g.kept.size) g.knows;
}

Kept-Grown : {wb wb' : WriteBack} → Kept wb wb' → Grown wb (wb', none)
unfolding KnowsIf
Kept-Grown k = record { inv = k.inv; grows = omega (arith, k.size); knows = tt }

begun-Kept :
    (b : Bool) (wb : WriteBack) (p : ℕ)
    → Inv wb
    → p < wb.allocated
    → Kept wb (if b then cancel_begin wb p else (false, wb)).1
begun-Kept true wb p v known = cancel_begin-Kept wb p v known
begun-Kept false wb p v known = record { inv = v; size = refl }

record Known (wb : WriteBack) (out : ℕ × WriteBack) : Type 0 where
  inv : Inv out.1
  known : out.0 < out.1.allocated
  grows : wb.allocated ≤ out.1.allocated

new_item-Known :
    (wb : WriteBack) (id name : ℕ) (size now : ℤ) → Inv wb → Known wb (new_item wb id name size now)
unfolding new_item allocate add_item
new_item-Known wb id name size now v =
    let (id', wb') = set_id wb id in
    let item : WbItem = record {
      name = name;
      size = size;
      id = id';
      expiry = new_expiry wb' now;
      uploading = false;
      on_heap = false;
      cancel = false;
      put_fn = 0;
      tries = 0;
      delay = wb'.write_back;
    } in
    let fresh = allocate-Inv wb' item (set_id-Inv wb id v) refl refl in
    record {
      inv = push_item-Inv (allocate wb' item) wb'.allocated fresh (omega arith);
      known = rw (push_item-allocated (allocate wb' item) wb'.allocated) (omega arith);
      grows =
          rw (push_item-allocated (allocate wb' item) wb'.allocated, set_id-allocated wb id)
            (omega arith);
    }

add-Grown :
    (wb : WriteBack) (id name : ℕ) (size : ℤ) (modified : Bool) (put_fn : ℕ) (now : ℤ)
    → Inv wb
    → Grown wb (add wb id name size modified put_fn now).1
unfolding add KnowsIf Knows
add-Grown wb id name size modified put_fn now v = elim (Option-cases (lookup id wb.lookup)) [
  | inl e ↦
      let made = new_item-Known wb id name size now v in
      let k = add_end-Kept _ (new_item wb id name size now).0 put_fn size made.inv made.known in
      rw (e, add) (record { inv = k.inv; grows = rw k.size made.grows; knows = tt })
  | inr (p, e) ↦
      let known = (v.entries id p e).0 in
      let k = begun-Kept modified wb p v known in
      let begun = if modified then cancel_begin wb p else (false, wb) in
      elim (Bool-cases begun.0) [
        | inl w ↦
            rw (e, add, w)
              (record { inv = k.inv; grows = omega (arith, k.size); knows = rw k.size known })
        | inr d ↦
            let m = add_known-Kept begun.1 p put_fn size now k.inv (rw k.size known) in
            rw (e, add, d)
              (record { inv = m.inv; grows = omega (arith, k.size, m.size); knows = tt })
      ]
]

in_range : (wb : WriteBack) (p : ℕ) → Inv wb → (wb.store p).on_heap ≡ true → p < wb.allocated
in_range wb p v on = elim (dec_lt p wb.allocated) [
  | yes lt ↦ lt
  | no ge ↦ absurd (ground (arith, v.fresh p (omega arith)))
]

-- The front of the heap is known.
front_known : (wb : WriteBack) {p : ℕ} → Inv wb → peek_item wb ≡ some p → p < wb.allocated
front_known wb {p} v e =
    let f = (peek_item-IsFront wb e).inside in
    let c = v.counted p in
    elim (Bool-cases (wb.store p).on_heap) [
      | inr off ↦ absurd (ground arith)
      | inl on ↦ in_range wb p v on
    ]

start-Inv :
    (wb : WriteBack) {p : ℕ}
    → Inv wb
    → peek_item wb ≡ some p
    → wb.uploads < max_transfers
    → Inv (start wb p)
unfolding start pop_item
start-Inv wb {p} v e room =
    let known = front_known wb v e in
    busy-Inv (pop_item wb p) p (pop_item-Inv wb p v known) known room

process_loop-allocated :
    (k : ℕ) (wb : WriteBack) (now : ℤ) → (process_loop k wb now).1.allocated ≡ wb.allocated
unfolding process_loop start pop_item
process_loop-allocated zero wb now = refl
process_loop-allocated (suc k) wb now = elim (Option-cases (peek_item wb)) [
  | inl e ↦ rw (e, process_loop) refl
  | inr (p, e) ↦ elim (Bool-cases (leb_ℤ ((wb.store p).expiry -ℤ now) (Prelude.pos 0))) [
    | inr late ↦ rw (e, process_loop, late) refl
    | inl due ↦ elim (Bool-cases (leb max_transfers wb.uploads)) [
      | inl full ↦ rw (e, process_loop, due, full) refl
      | inr room ↦ rw (e, process_loop, due, room) (process_loop-allocated k (start wb p) now)
    ]
  ]
]

upload_done-allocated :
    (wb : WriteBack) (p : ℕ) (o : Outcome) (now : ℤ)
    → (upload_done wb p o now).allocated ≡ wb.allocated
unfolding upload_done upload_end push_item update_expiry del_item reset_timer stop_timer
upload_done-allocated wb p succeeded now = ground arith
upload_done-allocated wb p cancelled now = ground arith
upload_done-allocated wb p failed now = ground arith

process_loop-Inv : (k : ℕ) (wb : WriteBack) (now : ℤ) → Inv wb → Inv (process_loop k wb now).1
unfolding process_loop
process_loop-Inv zero wb now v = v
process_loop-Inv (suc k) wb now v = elim (Option-cases (peek_item wb)) [
  | inl e ↦ rw (e, process_loop) v
  | inr (p, e) ↦ elim (Bool-cases (leb_ℤ ((wb.store p).expiry -ℤ now) (Prelude.pos 0))) [
    | inr late ↦ rw (e, process_loop, late) v
    | inl due ↦ elim (Bool-cases (leb max_transfers wb.uploads)) [
      | inl full ↦ rw (e, process_loop, due, full) v
      | inr room ↦
          rw (e, process_loop, due, room)
            (process_loop-Inv k (start wb p) now (start-Inv wb v e (ground arith)))
    ]
  ]
]

if-Kept : (b : Bool) {wb x y : WriteBack} → Kept wb x → Kept wb y → Kept wb (if b then x else y)
if-Kept true v w = v
if-Kept false v w = w

process_items-Kept : (wb : WriteBack) (now : ℤ) → Inv wb → Kept wb (process_items wb now)
unfolding process_items stop_timer
process_items-Kept wb now v =
    let n = suc (length wb.items) in
    let k = process_loop-Inv n wb now v in
    let size = process_loop-allocated n wb now in
    if-Kept wb.ctx_done (record { inv = v; size = refl })
      (if-Kept (process_loop n wb now).0
        (Kept-trans (record { inv = k; size = size }) (reset_timer-Kept _ k))
        (record { inv = timer-Inv _ none k; size = size }))

-- What happens to the queue while the lock is held once: a call up to its end or its first wait, a
-- call that waits going on, the timer, or one of the two ends of the goroutine that uploads an item.
pub data Step : Type 0 where
  add_call : ℕ → ℕ → ℤ → Bool → ℕ → Step
  remove_call : ℕ → Step
  rename_call : ℕ → ℕ → Step
  cancel_call : ℕ → Step
  set_expiry_call : ℕ → Option ℤ → ℤ → Step
  set_id_call : ℕ → Step
  resumes : ℕ → Step
  timer_call : Step
  upload_starts : ℕ → Step
  upload_ends : ℕ → Outcome → Step

-- The queue, and the calls on it that wait.
pub record World : Type 0 where
  pub queue : WriteBack
  pub waits : List Pending

-- The waiting call of a number, and the others.
take_out : ℕ → List Pending → Option (Pending × List Pending)
take_out n [] = none
take_out zero (w ∷ ws) = some (w, ws)
take_out (suc n) (w ∷ ws) = elim (take_out n ws) [ none ↦ none | some (v, vs) ↦ some (v, w ∷ vs) ]

-- The waiting calls after one more may have come.
join : List Pending → Progress → World
join ws (wb, none) = record { queue = wb; waits = ws }
join ws (wb, some w) = record { queue = wb; waits = w ∷ ws }

-- An event of a goroutine of an item happens only while there is one.
live : WriteBack → ℕ → WriteBack → WriteBack
live wb p wb' = if ltb p wb.allocated && ltb 0 (count p wb.goroutines) then wb' else wb

step : ℤ → World → Step → World
unfolding join live take_out
step now s (add_call id name size modified put_fn) =
    join s.waits (add s.queue id name size modified put_fn now).1
step now s (remove_call id) = join s.waits (remove s.queue id).1
step now s (rename_call id name) = join s.waits (rename s.queue id name now)
step now s (cancel_call id) = join s.waits (cancel_upload s.queue id).1
step now s (set_expiry_call id e r) = record s { queue = (set_expiry s.queue id e r).1 }
step now s (set_id_call id) = record s { queue = (set_id s.queue id).1 }
step now s (resumes n) = elim (take_out n s.waits) [
  | none ↦ s
  | some (w, ws) ↦ join ws (resume s.queue w now)
]
step now s timer_call = record s { queue = process_items s.queue now }
step now s (upload_starts p) = record s { queue = live s.queue p (upload_start s.queue p) }
step now s (upload_ends p o) = record s { queue = live s.queue p (upload_done s.queue p o now) }

-- Steps with the times at which they are made.
pub run : World → List (ℤ × Step) → World
run s [] = s
run s ((now, c) ∷ cs) = run (step now s c) cs

AllKnow : ℕ → List Pending → Type 0
AllKnow n [] = Unit
AllKnow n (w ∷ ws) = (Knows n w) × (AllKnow n ws)

Knows-grows : {m n : ℕ} (w : Pending) → m ≤ n → Knows m w → Knows n w
unfolding Knows
Knows-grows (add_waits p _ _) le k = omega arith
Knows-grows (remove_waits p) le k = omega arith
Knows-grows (cancel_waits p) le k = omega arith
Knows-grows (rename_waits p _ _) le k = omega arith
Knows-grows (rename_removes w p _ _ _) le (h, k) = (omega arith, omega arith)

AllKnow-grows : {m n : ℕ} (ws : List Pending) → m ≤ n → AllKnow m ws → AllKnow n ws
unfolding AllKnow
AllKnow-grows [] le k = tt
AllKnow-grows (w ∷ ws) le (k, ks) = (Knows-grows w le k, AllKnow-grows ws le ks)

record Sound (s : World) : Type 0 where
  inv : Inv s.queue
  knows : AllKnow s.queue.allocated s.waits

join-Sound :
    (wb : WriteBack) (ws : List Pending) (out : Progress)
    → AllKnow wb.allocated ws
    → Grown wb out
    → Sound (join ws out)
unfolding join KnowsIf AllKnow
join-Sound wb ws (wb', none) k g = record { inv = g.inv; knows = AllKnow-grows ws g.grows k }
join-Sound wb ws (wb', some w) k g = record {
  inv = g.inv;
  knows = (g.knows, AllKnow-grows ws g.grows k);
}

data Taken (n : ℕ) : Option (Pending × List Pending) → Type 0 where
  nothing : Taken n none
  taken : {w : Pending} {ws : List Pending} → Knows n w → AllKnow n ws → Taken n (some (w, ws))

take_out-Taken : (i n : ℕ) (ws : List Pending) → AllKnow n ws → Taken n (take_out i ws)
unfolding take_out AllKnow
take_out-Taken zero n [] k = nothing
take_out-Taken (suc i) n [] k = nothing
take_out-Taken zero n (w ∷ ws) (k, ks) = taken k ks
take_out-Taken (suc i) n (w ∷ ws) (k, ks) = behind (take_out i ws) (take_out-Taken i n ws ks)
  where
    behind :
        (o : Option (Pending × List Pending))
        → Taken n o
        → Taken n (elim o [ none ↦ none | some (v, vs) ↦ some (v, w ∷ vs) ])
    behind none t = nothing
    behind (some (v, vs)) (taken h hs) = taken h (k, hs)

resumes-Sound :
    (s : World) (now : ℤ) (o : Option (Pending × List Pending))
    → Sound s
    → Taken s.queue.allocated o
    → Sound (elim o [ none ↦ s | some (w, ws) ↦ join ws (resume s.queue w now) ])
resumes-Sound s now none v t = v
resumes-Sound s now (some (w, ws)) v (taken h hs) =
    join-Sound s.queue ws _ hs (Going-Grown (resume-Going s.queue w now v.inv h))

live-Kept :
    (wb wb' : WriteBack) (p : ℕ)
    → Inv wb
    → (p < wb.allocated → 0 < count p wb.goroutines → Kept wb wb')
    → Kept wb (live wb p wb')
unfolding live
live-Kept wb wb' p v h = elim (Bool-cases (ltb p wb.allocated && ltb 0 (count p wb.goroutines))) [
  | inl e ↦
      let both = and_true (ltb p wb.allocated) (ltb 0 (count p wb.goroutines)) e in
      simp e (h (ltb→lt p wb.allocated both.0) (ltb→lt 0 (count p wb.goroutines) both.1))
  | inr e ↦ simp e (record { inv = v; size = refl })
]

same-Sound :
    (s : World) (wb : WriteBack) → Sound s → Kept s.queue wb → Sound (record s { queue = wb })
same-Sound s wb v k = record { inv = k.inv; knows = rw k.size v.knows }

step-Sound : (now : ℤ) (s : World) (c : Step) → Sound s → Sound (step now s c)
unfolding step upload_start
step-Sound now s (add_call id name size modified put_fn) v =
    join-Sound s.queue s.waits _ v.knows (add-Grown s.queue id name size modified put_fn now v.inv)
step-Sound now s (remove_call id) v =
    join-Sound s.queue s.waits _ v.knows (Going-Grown (remove-Going s.queue id v.inv))
step-Sound now s (rename_call id name) v =
    join-Sound s.queue s.waits _ v.knows (Going-Grown (rename-Going s.queue id name now v.inv))
step-Sound now s (cancel_call id) v =
    join-Sound s.queue s.waits _ v.knows (Going-Grown (cancel_upload-Going s.queue id v.inv))
step-Sound now s (set_expiry_call id e r) v = same-Sound s _ v (set_expiry-Inv s.queue id e r v.inv)
step-Sound now s (set_id_call id) v =
    same-Sound s _ v
      (record { inv = set_id-Inv s.queue id v.inv; size = set_id-allocated s.queue id })
step-Sound now s (resumes n) v =
    resumes-Sound s now (take_out n s.waits) v (take_out-Taken n s.queue.allocated s.waits v.knows)
step-Sound now s timer_call v = same-Sound s _ v (process_items-Kept s.queue now v.inv)
step-Sound now s (upload_starts p) v = same-Sound s _ v (
    live-Kept s.queue _ p v.inv (λ lt up. record {
      inv = set_item-Inv s.queue p v.inv lt _ refl refl refl refl;
      size = refl;
    }))
step-Sound now s (upload_ends p o) v = same-Sound s _ v (
    live-Kept s.queue _ p v.inv (λ lt up. record {
      inv = upload_done-Inv s.queue p o now v.inv lt up;
      size = upload_done-allocated s.queue p o now;
    }))

run-Sound : (s : World) (cs : List (ℤ × Step)) → Sound s → Sound (run s cs)
unfolding run
run-Sound s [] v = v
run-Sound s ((now, c) ∷ cs) v = run-Sound (step now s c) cs (step-Sound now s c v)

-- Whatever calls and events a new queue has seen, calls that gave up the lock to wait for an upload
-- and what came in between included, its heap holds exactly the items that are marked as being on it,
-- each once; an item marked as uploading has a goroutine that uploads it; each entry of the map
-- leads to the item with its handle; and the counter of uploads is the number of goroutines that
-- upload and at most four.
pub run-Inv :
    (write_back : ℤ) (cs : List (ℤ × Step))
    → Inv (run (record { queue = new write_back; waits = [] }) cs).queue
unfolding AllKnow
run-Inv write_back cs =
    (run-Sound (record { queue = new write_back; waits = [] }) cs
      (record { inv = new-Inv write_back; knows = tt })).inv
