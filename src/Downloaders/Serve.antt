-- ===== src/Downloaders/Serve.antt =====
-- A range that is asked for gets a downloader.
use rclone_vfs.Prelude.{
  ℕ, zero, suc, ◌+◌, ◌-◌, ◌≤◌, ◌<◌, ◌≡◌, refl, sym, ap, ◌∙◌, ◌⊎◌, inl, inr, Bool, true, false, not,
  ◌&&◌, Option, none, some, List, [], ◌∷◌, ◌++◌, arith, if◌then◌else◌, leb, ltb, Bool-cases,
  Option-cases, ℤ, ltb_ℤ, leb_ℤ, eqb_ℤ, ◌+ℤ◌, ◌≤ℤ◌, ◌<ℤ◌, +ℤ_parts, and_true,
}
use rclone_vfs.Prelude
use rclone_vfs.Ranges.{Range, end, is_empty}
use rclone_vfs.Downloaders.{
  Error, ItemOps, Downloader, Downloaders, Seeker, min_window, remove_closed_loop, remove_closed,
  set_range, open_at, fresh, new_downloader, reuse, grown, target, start_new, ensure_downloader,
  reuse_or_start, count_errors,
}

-- The downloader `dl` is not closed, started at or before the start of `r`, has an offset more than
-- the start of `r` less the window, and has a limit at or after the end of `r`.
pub record Serving (r : Range) (dl : Downloader) : Type 0 where
  pub running : dl.closed ≡ false
  pub started : dl.start ≤ℤ r.pos
  pub near : r.pos <ℤ dl.offset +ℤ min_window
  pub far : end r ≤ℤ dl.max_offset

-- One of the downloaders serves the range.
pub data Served (r : Range) : List Downloader → Type 0 where
  here : {dl : Downloader} {dls : List Downloader} → Serving r dl → Served r (dl ∷ dls)
  there : {dl : Downloader} {dls : List Downloader} → Served r dls → Served r (dl ∷ dls)

Served-last :
    (r : Range) (dl : Downloader) (dls : List Downloader) → Serving r dl → Served r (dls ++ dl ∷ [])
Served-last r dl [] s = here s
Served-last r dl (d ∷ dls) s = there (Served-last r dl dls s)

some-inj : {x y : List Downloader} → some x ≡ some y → x ≡ y
some-inj e = cc

absent_clash : {x : List Downloader} → none ≡ some x → ⊥
absent_clash e = cc

present_clash : {x : Error} → some x ≡ none → ⊥
present_clash e = cc

first_of : {A B : Type 0} (b : Bool) (x y : A × B) → b ≡ true → (if b then x else y).0 ≡ x.0
first_of true x y e = refl
first_of false x y e = cc

set_range-Serving :
    (r : Range) (dl : Downloader)
    → dl.closed ≡ false
    → (leb_ℤ dl.start r.pos && ltb_ℤ r.pos (dl.offset +ℤ min_window)) ≡ true
    → Serving r (set_range dl r)
unfolding set_range
set_range-Serving r dl open_still h = record {
  running = open_still;
  started = ground arith;
  near = ground arith;
  far = ground arith;
}

-- A search that ends with a list ends with one in which a downloader serves the range.
data Found (r : Range) : Option (List Downloader) → Type 0 where
  nowhere : Found r none
  somewhere : {l : List Downloader} → Served r l → Found r (some l)

found : {r : Range} {l : List Downloader} → Found r (some l) → Served r l
found (somewhere s) = s

Found-later :
    (r : Range) (dl : Downloader) (o : Option (List Downloader))
    → Found r o
    → Found r (elim o [ none ↦ none | some l ↦ some (dl ∷ l) ])
Found-later r dl none f = nowhere
Found-later r dl (some l) f = somewhere (there (found f))

reuse-Found : (r : Range) (l : List Downloader) → Found r (reuse (remove_closed_loop l) r)
unfolding reuse remove_closed_loop
reuse-Found r [] = nowhere
reuse-Found r (dl ∷ dls) = elim (Bool-cases dl.closed) [
  | inl c ↦ simp c (reuse-Found r dls)
  | inr c ↦ elim (Bool-cases (leb_ℤ dl.start r.pos && ltb_ℤ r.pos (dl.offset +ℤ min_window))) [
    | inl hit ↦ simp (c, hit) (somewhere (here (set_range-Serving r dl c hit)))
    | inr miss ↦
        simp (c, miss) (Found-later r dl (reuse (remove_closed_loop dls) r) (reuse-Found r dls))
  ]
]

-- A result without an error comes with a downloader that serves the range.
record Ensured (r : Range) (out : Option Error × Downloaders) : Type 0 where
  served : out.0 ≡ none → Served r out.1.dls

opened-Serving :
    (size : ℤ) (r : Range) (seek_err : Option Error)
    → (open_at (fresh r) size r.pos seek_err).0 ≡ none
    → Serving r (open_at (fresh r) size r.pos seek_err).1
unfolding open_at fresh
opened-Serving size r none h = elim (Bool-cases (ltb_ℤ size (Prelude.pos 0))) [
  | inl e ↦ absurd (present_clash (sym (first_of _ _ _ e) ∙ h))
  | inr e ↦ simp e (record {
    running = refl;
    started = omega arith;
    near = ground (arith, +ℤ_parts r.pos min_window);
    far = omega arith;
  })
]
opened-Serving size r (some err) h = absurd (ground arith)

made_one :
    (ds : Downloaders) (r : Range) (opened : Option Error × Downloader)
    → (opened.0 ≡ none → Serving r opened.1)
    → Ensured r (elim opened.0 [
      | some err ↦ (some err, ds)
      | none ↦ (none, record ds { dls = ds.dls ++ opened.1 ∷ [] })
    ])
made_one ds r (none, dl) h = record { served = λ e. Served-last r dl ds.dls (h refl) }
made_one ds r (some err, dl) h = record { served = λ e. absurd (present_clash e) }

new_downloader-Ensured :
    (ds : Downloaders) (r : Range) (seek_err : Option Error)
    → Ensured r (new_downloader ds r seek_err)
unfolding new_downloader
new_downloader-Ensured ds r seek_err =
    made_one ds r (open_at (fresh r) ds.src_size r.pos seek_err)
      (opened-Serving ds.src_size r seek_err)

made :
    (r : Range) (out : Option Error × Downloaders)
    → Ensured r out
    → Ensured r (elim out.0 [
      | none ↦ (none, out.1)
      | some err ↦ (some err, count_errors out.1 0 (some err))
    ])
made r (none, ds) h = h
made r (some err, ds) h = record { served = λ e. absurd (present_clash e) }

module _ {I : Type 0} (ops : ItemOps I) (item : I) (seek_err : Seeker) where
  start_new-Ensured :
      (ds : Downloaders) (r : Range)
      → is_empty r ≡ false
      → Ensured r (start_new ops item seek_err ds true r)
  unfolding start_new
  start_new-Ensured ds r left = elim (Bool-cases (eqb_ℤ r.size (Prelude.pos 0))) [
    | inl e ↦ absurd (ground arith)
    | inr e ↦ simp e (
        made r (new_downloader ds r (seek_err r.pos))
          (new_downloader-Ensured ds r (seek_err r.pos)))
  ]

  target-left : (r : Range) → is_empty r ≡ false → target ops item seek_err r ≡ (true, r)
  unfolding target
  target-left r left = simp left

  ensured :
      (live : Downloaders) (r : Range) (o : Option (List Downloader))
      → is_empty r ≡ false
      → Found r o
      → Ensured r (elim o [
        | some dls ↦ (none, record live { dls = dls })
        | none ↦ start_new ops item seek_err live true r
      ])
  ensured live r none left f = start_new-Ensured live r left
  ensured live r (some l) left f = record { served = λ h. found f }

  reuse_or_start-Ensured :
      (ds : Downloaders) (r : Range)
      → is_empty r ≡ false
      → Ensured r (reuse_or_start ops item seek_err (remove_closed ds) (true, r))
  unfolding reuse_or_start remove_closed
  reuse_or_start-Ensured ds r left =
      ensured (remove_closed ds) r (reuse (remove_closed_loop ds.dls) r) left (reuse-Found r ds.dls)

  -- If EnsureDownloader reports no error and the part of the range, with the read-ahead, that the
  -- file still lacks is not empty, then some downloader in the list that is not closed has started
  -- at or before it, is less than the window of 1 MiB short of its start or beyond it, and has its
  -- limit at or after its end. Whether it was told to stop is not said: the code does not look.
  pub ensure_downloader-Served :
      (ds : Downloaders) (r : Range)
      → is_empty (ops.find_missing item (grown ds r)) ≡ false
      → (ensure_downloader ops item seek_err ds r).0 ≡ none
      → Served (ops.find_missing item (grown ds r)) (ensure_downloader ops item seek_err ds r).1.dls
  unfolding ensure_downloader
  ensure_downloader-Served ds r left =
      rw (target-left (ops.find_missing item (grown ds r)) left)
        (reuse_or_start-Ensured ds (ops.find_missing item (grown ds r)) left).served
