-- ===== src/Writeback/Upload.antt =====
-- Every call on the write-back queue keeps its invariant, so every queue that calls can reach has
-- at most four uploads, which the counter counts exactly.
use rclone_vfs.Prelude.{
  ℕ, ◌<◌, ◌≡◌, refl, ◌∙◌, inl, inr, not, ◌&&◌, Option, none, some, List, [], ◌∷◌, count, arith,
  ◌==◌, Bool-cases, Option-cases, lookup, ℤ,
}
use mathlib.Core.Path.{subst}
use rclone_vfs.Writeback.{
  WriteBack, Outcome, succeeded, cancelled, failed, set_item, update_expiry, push_item, remove_item,
  del_item, reset_timer, stop_timer, upload_end, upload_done, remove, rename_loop, rename,
  cancel_upload, set_expiry, Pending, Progress, add_waits, remove_waits, cancel_waits, rename_waits,
  rename_removes, add_end, add_known, remove_end, remove_begin, cancel_begin, resume, rename_end,
}
use rclone_vfs.Writeback.Invariant.{
  Inv, set_item-Inv, push_item-Inv, remove_item-Inv, idle-Inv, reset_timer-Inv, del_item-Inv,
}

-- What a step on the item `p` leaves alone besides the invariant.
record Keeps (wb wb' : WriteBack) (p : ℕ) : Type 0 where
  pub inv : Inv wb'
  pub size : wb'.allocated ≡ wb.allocated
  same : (wb'.store p).id ≡ (wb.store p).id

push_item-Keeps : (wb : WriteBack) (p : ℕ) → Inv wb → p < wb.allocated → Keeps wb (push_item wb p) p
unfolding push_item
push_item-Keeps wb p v known = record {
  inv = push_item-Inv wb p v known;
  size = ground arith;
  same = ground arith;
}

pub update_expiry-Inv :
    (wb : WriteBack) (p : ℕ) (e : ℤ) → Inv wb → p < wb.allocated → Inv (update_expiry wb p e)
unfolding update_expiry
update_expiry-Inv wb p e v known = set_item-Inv wb p v known _ refl refl refl refl

-- After a failed attempt the item is queued again.
requeue-Inv :
    (wb : WriteBack) (p : ℕ) (delay e : ℤ)
    → Inv wb
    → p < wb.allocated
    → Inv (update_expiry (push_item (set_item wb p (record (wb.store p) { delay = delay })) p) p e)
requeue-Inv wb p delay e v known =
    let wb' = set_item wb p (record (wb.store p) { delay = delay }) in
    let k = push_item-Keeps wb' p (set_item-Inv wb p v known _ refl refl refl refl) known in
    update_expiry-Inv (push_item wb' p) p e k.inv (rw k.size known)

upload_end-Inv :
    (wb : WriteBack) (p : ℕ) (o : Outcome) (now : ℤ)
    → Inv wb
    → p < wb.allocated
    → Inv (upload_end wb p o now)
unfolding upload_end
upload_end-Inv wb p succeeded now v known = del_item-Inv wb p v
upload_end-Inv wb p cancelled now v known = requeue-Inv wb p _ _ v known
upload_end-Inv wb p failed now v known = requeue-Inv wb p _ _ v known

pub upload_done-Inv :
    (wb : WriteBack) (p : ℕ) (o : Outcome) (now : ℤ)
    → Inv wb
    → p < wb.allocated
    → 0 < count p wb.goroutines
    → Inv (upload_done wb p o now)
unfolding upload_done
upload_done-Inv wb p o now v known live =
    reset_timer-Inv _ (upload_end-Inv _ p o now (idle-Inv wb p v live) known)

-- What a part of a call under the lock keeps; it gives up the lock at its end or with a wait for the
-- upload of an item that is allocated.
pub record Kept (wb wb' : WriteBack) : Type 0 where
  pub inv : Inv wb'
  pub size : wb'.allocated ≡ wb.allocated

pub Kept-trans : {a b c : WriteBack} → Kept a b → Kept b c → Kept a c
Kept-trans k l = record { inv = l.inv; size = l.size ∙ k.size }

pub reset_timer-Kept : (wb : WriteBack) → Inv wb → Kept wb (reset_timer wb)
unfolding reset_timer stop_timer
reset_timer-Kept wb v = record { inv = reset_timer-Inv wb v; size = ground arith }

pub push_item-Kept : (wb : WriteBack) (p : ℕ) → Inv wb → p < wb.allocated → Kept wb (push_item wb p)
push_item-Kept wb p v known =
    let k = push_item-Keeps wb p v known in record { inv = k.inv; size = k.size }

pub add_end-Kept :
    (wb : WriteBack) (p put_fn : ℕ) (size : ℤ)
    → Inv wb
    → p < wb.allocated
    → Kept wb (add_end wb p put_fn size)
unfolding add_end
add_end-Kept wb p put_fn size v known =
    let item = set_item-Inv wb p v known _ refl refl refl refl in
    let k = reset_timer-Kept _ item in record { inv = k.inv; size = k.size }

pub add_known-Kept :
    (wb : WriteBack) (p put_fn : ℕ) (size now : ℤ)
    → Inv wb
    → p < wb.allocated
    → Kept wb (add_known wb p put_fn size now)
unfolding add_known update_expiry
add_known-Kept wb p put_fn size now v known =
    let k = add_end-Kept _ p put_fn size (update_expiry-Inv wb p _ v known) known in
    record { inv = k.inv; size = k.size }

remove_item-allocated : (wb : WriteBack) (p : ℕ) → (remove_item wb p).allocated ≡ wb.allocated
unfolding remove_item
remove_item-allocated wb p = ground arith

pub remove_end-Kept :
    (wb : WriteBack) (p : ℕ) → Inv wb → p < wb.allocated → Kept wb (remove_end wb p)
unfolding remove_end del_item
remove_end-Kept wb p v known =
    let k = reset_timer-Kept _ (del_item-Inv _ p (remove_item-Inv wb p v known)) in
    record { inv = k.inv; size = k.size ∙ remove_item-allocated wb p }

pub cancel_begin-Kept :
    (wb : WriteBack) (p : ℕ) → Inv wb → p < wb.allocated → Kept wb (cancel_begin wb p).1
unfolding cancel_begin
cancel_begin-Kept wb p v known = elim (Bool-cases (wb.store p).uploading) [
  | inr idle ↦ rw idle (record { inv = v; size = refl })
  | inl busy ↦ rw (busy, v.cancellable p busy) (record { inv = v; size = refl })
]

pub set_expiry-Inv :
    (wb : WriteBack) (id : ℕ) (e : Option ℤ) (r : ℤ) → Inv wb → Kept wb (set_expiry wb id e r).1
unfolding set_expiry update_expiry
set_expiry-Inv wb id x r v = elim (Option-cases (lookup id wb.lookup)) [
  | inl e ↦ rw (e, set_expiry) (record { inv = v; size = refl })
  | inr (p, e) ↦
      let k = reset_timer-Kept _ (update_expiry-Inv wb p _ v (v.entries id p e).0) in
      rw (e, set_expiry) (record { inv = k.inv; size = k.size })
]

-- What a call goes on with names only items that are allocated.
unfoldable pub Knows : ℕ → Pending → Type 0
Knows n (add_waits p _ _) = p < n
Knows n (remove_waits p) = p < n
Knows n (cancel_waits p) = p < n
Knows n (rename_waits p _ _) = p < n
Knows n (rename_removes w p _ _ _) = (w < n) × (p < n)

unfoldable pub KnowsIf : ℕ → Option Pending → Type 0
KnowsIf n none = Unit
KnowsIf n (some w) = Knows n w

pub record Going (wb : WriteBack) (out : Progress) : Type 0 where
  pub kept : Kept wb out.0
  pub knows : KnowsIf wb.allocated out.1

remove_begin-Going :
    (wb : WriteBack) (id : ℕ)
    → Inv wb
    → (Kept wb (remove_begin wb id).0)
      × ((q : ℕ) → (remove_begin wb id).1 ≡ some q → q < wb.allocated)
unfolding remove_begin
remove_begin-Going wb id v = elim (Option-cases (lookup id wb.lookup)) [
  | inl e ↦ rw (e, remove_begin) (reset_timer-Kept wb v, λ q f. cc)
  | inr (p, e) ↦
      let known = (v.entries id p e).0 in
      let k = cancel_begin-Kept wb p v known in
      elim (Bool-cases (cancel_begin wb p).0) [
        | inl w ↦ rw (e, remove_begin, w) (k, λ q f. ground arith)
        | inr d ↦
            rw (e, remove_begin, d)
              (
                Kept-trans k (remove_end-Kept (cancel_begin wb p).1 p k.inv (rw k.size known)),
                λ q f. cc,
              )
      ]
]

pub remove-Going : (wb : WriteBack) (id : ℕ) → Inv wb → Going wb (remove wb id).1
unfolding remove KnowsIf Knows
remove-Going wb id v =
    let (k, knows) = remove_begin-Going wb id v in
    elim (Option-cases (remove_begin wb id).1) [
      | inl e ↦ rw (e, remove) (record { kept = k; knows = tt })
      | inr (q, e) ↦ rw (e, remove) (record { kept = k; knows = knows q e })
    ]

rename_end-Kept :
    (wb : WriteBack) (p name : ℕ) (now : ℤ)
    → Inv wb
    → p < wb.allocated
    → Kept wb (rename_end wb p name now)
unfolding rename_end update_expiry
rename_end-Kept wb p name now v known =
    let named =
      set_item-Inv wb p v known (record (wb.store p) { name = name }) refl refl refl refl in
    let k = reset_timer-Kept _ (set_item-Inv _ p named known _ refl refl refl refl) in
    record { inv = k.inv; size = k.size }

-- What goes on from a queue goes on from one with the same items.
Going-after : {a b : WriteBack} {out : Progress} → Kept a b → Going b out → Going a out
Going-after {a} {b} {out} k g = record {
  kept = Kept-trans k g.kept;
  knows = subst (λ n. KnowsIf n out.1) k.size g.knows;
}

rename_loop-Going :
    (wb : WriteBack) (p id name : ℕ) (l : List (ℕ × ℕ)) (now : ℤ)
    → Inv wb
    → p < wb.allocated
    → Going wb (rename_loop wb p id name l now)
unfolding rename_loop KnowsIf Knows
rename_loop-Going wb p id name [] now v known = record {
  kept = rename_end-Kept wb p name now v known;
  knows = tt;
}
rename_loop-Going wb p id name ((other, q) ∷ l) now v known =
    elim (Bool-cases (not (other == id) && (wb.store q).name == name)) [
      | inr miss ↦ rw (miss, rename_loop) (rename_loop-Going wb p id name l now v known)
      | inl hit ↦
          let (k, knows) = remove_begin-Going wb other v in
          elim (Option-cases (remove_begin wb other).1) [
            | inl e ↦
                rw (hit, rename_loop, e)
                  (Going-after k (
                    rename_loop-Going (remove_begin wb other).0 p id name l now k.inv
                      (rw k.size known)))
            | inr (w, e) ↦
                rw (hit, rename_loop, e) (record { kept = k; knows = (knows w e, known) })
          ]
    ]

pub rename-Going :
    (wb : WriteBack) (id name : ℕ) (now : ℤ) → Inv wb → Going wb (rename wb id name now)
unfolding rename KnowsIf Knows
rename-Going wb id name now v = elim (Option-cases (lookup id wb.lookup)) [
  | inl e ↦ rw (e, rename) (record { kept = record { inv = v; size = refl }; knows = tt })
  | inr (p, e) ↦
      let known = (v.entries id p e).0 in
      let k = cancel_begin-Kept wb p v known in
      elim (Bool-cases (cancel_begin wb p).0) [
        | inl w ↦ rw (e, rename, w) (record { kept = k; knows = known })
        | inr d ↦
            rw (e, rename, d)
              (Going-after k (rename_loop-Going _ p id name _ now k.inv (rw k.size known)))
      ]
]

pub cancel_upload-Going : (wb : WriteBack) (id : ℕ) → Inv wb → Going wb (cancel_upload wb id).1
unfolding cancel_upload KnowsIf Knows
cancel_upload-Going wb id v = elim (Option-cases (lookup id wb.lookup)) [
  | inl e ↦ rw (e, cancel_upload) (record { kept = record { inv = v; size = refl }; knows = tt })
  | inr (p, e) ↦
      let known = (v.entries id p e).0 in
      let k = cancel_begin-Kept wb p v known in
      elim (Bool-cases (cancel_begin wb p).0) [
        | inl w ↦ rw (e, cancel_upload, w) (record { kept = k; knows = known })
        | inr d ↦ rw (e, cancel_upload, d) (record { kept = k; knows = tt })
      ]
]

pub resume-Going :
    (wb : WriteBack) (w : Pending) (now : ℤ)
    → Inv wb
    → Knows wb.allocated w
    → Going wb (resume wb w now)
unfolding resume Knows KnowsIf
resume-Going wb (add_waits p f s) now v known =
    let k = push_item-Kept wb p v known in
    record { kept = Kept-trans k (add_known-Kept _ p f s now k.inv (rw k.size known)); knows = tt }
resume-Going wb (remove_waits p) now v known =
    let k = push_item-Kept wb p v known in
    record { kept = Kept-trans k (remove_end-Kept _ p k.inv (rw k.size known)); knows = tt }
resume-Going wb (cancel_waits p) now v known = record {
  kept = push_item-Kept wb p v known;
  knows = tt;
}
resume-Going wb (rename_waits p id name) now v known =
    let k = push_item-Kept wb p v known in
    Going-after k (rename_loop-Going _ p id name _ now k.inv (rw k.size known))
resume-Going wb (rename_removes w p id name l) now v (here, there) =
    let k = push_item-Kept wb w v here in
    let m = Kept-trans k (remove_end-Kept (push_item wb w) w k.inv (rw k.size here)) in
    Going-after m (rename_loop-Going _ p id name l now m.inv (rw m.size there))
