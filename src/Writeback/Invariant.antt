-- ===== src/Writeback/Invariant.antt =====
-- What holds of the write-back queue between two calls, and that the steps on one item keep it.
use rclone_vfs.Prelude.{
  ℕ, suc, ◌+◌, ◌-◌, ◌≤◌, ◌<◌, ◌≡◌, refl, inl, inr, true, false, Option, none, some, [], ◌∷◌, arith,
  ℕ_discrete, sym, ap, delete, ◌∙◌, ◌-◌, Option-cases, lookup-delete_self, lookup-delete_ne,
  if◌then◌else◌, Bool-cases, update, count, lookup, count-append, count-single, count-erase_self,
  count-erase_ne, ℤ, List, length, erase,
}
use rclone_vfs.Writeback.{
  WbItem, WriteBack, max_transfers, set_item, push_item, remove_item, pop_item, new, reset_timer,
  stop_timer, peek_item, del_item,
}

-- An item is on the heap once if it is marked so and not at all if not; an item that is marked as
-- uploading has a goroutine that uploads it, and can be cancelled; the counter of uploads is the
-- number of these goroutines, and at most four; an entry of the map leads to the item of its handle;
-- what is not allocated yet is not queued and has no goroutine.
pub record Inv (wb : WriteBack) : Type 0 where
  pub counted : (q : ℕ) → count q wb.items ≡ (if (wb.store q).on_heap then 1 else 0)
  pub running : (q : ℕ) → (wb.store q).uploading ≡ true → 0 < count q wb.goroutines
  pub cancellable : (q : ℕ) → (wb.store q).uploading ≡ true → (wb.store q).cancel ≡ true
  pub fresh :
      (q : ℕ) → wb.allocated ≤ q → ((wb.store q).on_heap ≡ false) × (count q wb.goroutines ≡ 0)
  pub entries : (k p : ℕ) → lookup k wb.lookup ≡ some p → (p < wb.allocated) × ((wb.store p).id ≡ k)
  pub tallied : wb.uploads ≡ length wb.goroutines
  pub limited : wb.uploads ≤ max_transfers

pub length-erase : (p : ℕ) (l : List ℕ) → 0 < count p l → suc (length (erase p l)) ≡ length l
unfolding count erase
length-erase p [] h = elim h [ ]
length-erase p (q ∷ l) h = ground (arith, length-erase p l)

pub new-Inv : (write_back : ℤ) → Inv (new write_back)
unfolding new count lookup
new-Inv write_back = record {
  counted = λ q. refl;
  running = λ q h. cc;
  cancellable = λ q h. cc;
  fresh = λ q h. (refl, refl);
  entries = λ k p h. cc;
  tallied = refl;
  limited = omega arith;
}

module _ (wb : WriteBack) (p : ℕ) (v : Inv wb) (known : p < wb.allocated) where
  -- A write that leaves the three flags of the item alone.
  pub set_item-Inv :
      (item : WbItem)
      → item.on_heap ≡ (wb.store p).on_heap
      → item.uploading ≡ (wb.store p).uploading
      → item.cancel ≡ (wb.store p).cancel
      → item.id ≡ (wb.store p).id
      → Inv (set_item wb p item)
  set_item-Inv item heap up can same = record {
    counted = λ q. ground (arith, v.counted q);
    running = λ q h. ground (arith, v.running q);
    cancellable = λ q h. ground (arith, v.cancellable q);
    fresh = λ q h. ground (arith, v.fresh q h);
    entries = λ k q h. ground (arith, v.entries k q h);
    tallied = v.tallied;
    limited = v.limited;
  }

  pub push_item-Inv : Inv (push_item wb p)
  unfolding push_item
  push_item-Inv = elim (Bool-cases (wb.store p).on_heap) [
    | inl on ↦ rw on v
    | inr off ↦ rw off (record {
      counted =
          λ q. ground (arith, v.counted q, count-append q wb.items (p ∷ []), count-single q p);
      running = λ q h. ground (arith, v.running q);
      cancellable = λ q h. ground (arith, v.cancellable q);
      fresh = λ q h. ground (arith, v.fresh q h);
      entries = λ k q h. ground (arith, v.entries k q h);
      tallied = v.tallied;
      limited = v.limited;
    })
  ]

  pub pop_item-Inv : Inv (pop_item wb p)
  unfolding pop_item
  pop_item-Inv = record {
    counted = λ q. elim (ℕ_discrete q p) [
      | yes e ↦ rw e (ground (arith, v.counted p, count-erase_self p wb.items))
      | no n ↦ ground (arith, v.counted q, count-erase_ne q p wb.items n)
    ];
    running = λ q h. ground (arith, v.running q);
    cancellable = λ q h. ground (arith, v.cancellable q);
    fresh = λ q h. ground (arith, v.fresh q h);
    entries = λ k q h. ground (arith, v.entries k q h);
    tallied = v.tallied;
    limited = v.limited;
  }

pub remove_item-Inv : (wb : WriteBack) (p : ℕ) → Inv wb → p < wb.allocated → Inv (remove_item wb p)
unfolding remove_item pop_item
remove_item-Inv wb p v known = elim (Bool-cases (wb.store p).on_heap) [
  | inl on ↦ rw on (pop_item-Inv wb p v known)
  | inr off ↦ rw off v
]

-- A goroutine that uploads an item has ended.
pub idle-Inv :
    (wb : WriteBack) (p : ℕ)
    → Inv wb
    → 0 < count p wb.goroutines
    → Inv (record wb {
      store = update wb.store p (record (wb.store p) { uploading = false });
      uploads = wb.uploads - 1;
      goroutines = erase p wb.goroutines;
    })
idle-Inv wb p v live = record {
  counted = λ q. ground (arith, v.counted q);
  running = λ q h. elim (ℕ_discrete q p) [
    | yes e ↦ absurd (ground arith)
    | no n ↦ ground (arith, v.running q, count-erase_ne q p wb.goroutines n)
  ];
  cancellable = λ q h. ground (arith, v.cancellable q);
  fresh = λ q h. elim (ℕ_discrete q p) [
    | yes e ↦ absurd (ground (arith, v.fresh q h))
    | no n ↦ ground (arith, v.fresh q h, count-erase_ne q p wb.goroutines n)
  ];
  entries = λ k q h. ground (arith, v.entries k q h);
  tallied = omega (arith, v.tallied, length-erase p wb.goroutines live);
  limited = omega (arith, v.limited);
}

-- A goroutine that uploads an item begins.
pub busy-Inv :
    (wb : WriteBack) (p : ℕ)
    → Inv wb
    → p < wb.allocated
    → wb.uploads < max_transfers
    → Inv (record wb {
      store = update wb.store p (record (wb.store p) { uploading = true; cancel = true });
      uploads = wb.uploads + 1;
      goroutines = p ∷ wb.goroutines;
    })
unfolding count
busy-Inv wb p v known room = record {
  counted = λ q. ground (arith, v.counted q);
  running = λ q h. ground (arith, v.running q);
  cancellable = λ q h. ground (arith, v.cancellable q);
  fresh = λ q h. ground (arith, v.fresh q h);
  entries = λ k q h. ground (arith, v.entries k q h);
  tallied = omega (arith, v.tallied);
  limited = omega arith;
}

-- The timer is no part of the invariant.
pub timer-Inv : (wb : WriteBack) (e : Option ℤ) → Inv wb → Inv (record wb { expiry = e })
timer-Inv wb e v = record {
  counted = v.counted;
  running = v.running;
  cancellable = v.cancellable;
  fresh = v.fresh;
  entries = v.entries;
  tallied = v.tallied;
  limited = v.limited;
}

pub reset_timer-Inv : (wb : WriteBack) → Inv wb → Inv (reset_timer wb)
unfolding reset_timer stop_timer
reset_timer-Inv wb v = elim (Option-cases (peek_item wb)) [
  | inl e ↦ rw (e, reset_timer) (timer-Inv wb none v)
  | inr (p, e) ↦ rw (e, reset_timer) (timer-Inv wb (some (wb.store p).expiry) v)
]

-- An entry is taken out of the map.
absent_clash : {o : Option ℕ} {p : ℕ} → o ≡ none → o ≡ some p → ⊥
absent_clash e f = cc

pub del_item-Inv : (wb : WriteBack) (p : ℕ) → Inv wb → Inv (del_item wb p)
unfolding del_item
del_item-Inv wb p v = record {
  counted = v.counted;
  running = v.running;
  cancellable = v.cancellable;
  fresh = v.fresh;
  entries = λ k q h. elim (ℕ_discrete k (wb.store p).id) [
    | yes e ↦ absurd (
        absent_clash {p = q} (lookup-delete_self (wb.store p).id wb.lookup)
          (ap (λ z. lookup z (delete (wb.store p).id wb.lookup)) (sym e) ∙ h))
    | no n ↦ v.entries k q (sym (lookup-delete_ne k (wb.store p).id wb.lookup n) ∙ h)
  ];
  tallied = v.tallied;
  limited = v.limited;
}
