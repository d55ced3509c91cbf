-- ===== src/Item/Life/Balance/Closes.antt =====
-- Closing keeps the handle of an item in step with the count of its openers.
use rclone_vfs.Prelude.{
  clash, ℕ, ◌+◌, ◌-◌, ◌≡◌, ◌≢◌, refl, sym, ap, ◌∙◌, ◌⊎◌, inl, inr, Bool, true, false, not, ◌&&◌,
  ◌||◌, Option, none, some, List, [], ◌∷◌, arith, if◌then◌else◌, ltb, leb, ◌==◌, ℤ, ◌+ℤ◌, ◌-ℤ◌,
  ltb_ℤ, leb_ℤ, eqb_ℤ, Bool-cases, Option-cases, eq_of_parts, -ℤ_parts, +ℤ_parts,
}
use rclone_vfs.Prelude
use rclone_vfs.Ranges.{Range, total_size, present}
use rclone_vfs.Item.{ItemError, RemoteObject, Item, State, Os, save, remove, get_size}
use rclone_vfs.Item.Data.{ensure_range}
use rclone_vfs.Item.Life.{
  Options, store, queue_upload, close_handles, is_partial, close_ensured, actual_close,
  close_locked, close_after_grace,
}
use rclone_vfs.Item.Life.Resets.{remove_not_in_use}
use rclone_vfs.Item.Life.Safe.{remove-Calm, get_size-Calm}
use rclone_vfs.Item.Life.Balance.{
  has_fd, Balanced, parts-Balanced, Calm-Balanced, pair-Balanced, used_off,
}

-- The downloaders serve a call: they answer without an error, and leave the handle, the count and
-- the timer of the item alone.
pub record Served (os : Os) : Type 0 where
  pub ensure_answer : (st : State) (r : Range) → (os.ensure st r).0 ≡ none
  pub ensure_keeps :
      (st : State) (r : Range)
      → ((os.ensure st r).1.item.fd ≡ st.item.fd)
        × ((os.ensure st r).1.item.opens ≡ st.item.opens)
        × ((os.ensure st r).1.item.grace_timer ≡ st.item.grace_timer)
  pub download_answer : (st : State) (r : Range) → (os.download st r).0 ≡ none
  pub download_keeps :
      (st : State) (r : Range)
      → ((os.download st r).1.item.fd ≡ st.item.fd)
        × ((os.download st r).1.item.opens ≡ st.item.opens)
        × ((os.download st r).1.item.grace_timer ≡ st.item.grace_timer)

-- An item after its handle is closed.
record Shut (st st' : State) : Type 0 where
  fd : st'.item.fd ≡ none
  opens : st'.item.opens ≡ st.item.opens
  grace : st'.item.grace_timer ≡ st.item.grace_timer

save-Shut : (os : Os) (st : State) → st.item.fd ≡ none → Shut st (save os st).1
unfolding save
save-Shut os st h = record { fd = ground arith; opens = ground arith; grace = ground arith }

queue_upload-Shut :
    (os : Os) (st : State) (sync : Bool) → st.item.fd ≡ none → Shut st (queue_upload os st sync)
unfolding queue_upload store save
queue_upload-Shut os st sync h = record {
  fd = ground arith;
  opens = ground arith;
  grace = ground arith;
}

close_handles-Shut :
    (os : Os) (st : State) (sync : Bool) (err : Option ItemError)
    → Shut st (close_handles os st sync err).1
unfolding close_handles
close_handles-Shut os st sync err =
    let quiet = record st { item = record st.item { downloaders = false; fd = none } } in
    let saved = save-Shut os quiet refl in
    let queued = queue_upload-Shut os (save os quiet).1 sync saved.fd in
    record {
      fd = queued.fd;
      opens = queued.opens ∙ saved.opens;
      grace = queued.grace ∙ saved.grace;
    }

-- A call that answers without an error and leaves those three alone.
record Quiet (st : State) (out : Option ItemError × State) : Type 0 where
  answer : out.0 ≡ none
  fd : out.1.item.fd ≡ st.item.fd
  opens : out.1.item.opens ≡ st.item.opens
  grace : out.1.item.grace_timer ≡ st.item.grace_timer

if-Quiet :
    (st : State) (b : Bool) (x y : Option ItemError × State)
    → Quiet st x
    → Quiet st y
    → Quiet st (if b then x else y)
if-Quiet st true x y v w = v
if-Quiet st false x y v w = w

download-Quiet : (os : Os) → Served os → (st : State) (r : Range) → Quiet st (os.download st r)
download-Quiet os h st r =
    let keeps = h.download_keeps st r in
    record { answer = h.download_answer st r; fd = keeps.0; opens = keeps.1; grace = keeps.2 }

ensure_range-Quiet :
    (os : Os) (st : State) (offset size : ℤ) (o : RemoteObject)
    → Served os
    → st.item.o ≡ some o
    → Quiet st (ensure_range os st offset size)
unfolding ensure_range
ensure_range-Quiet os st offset size o h e =
    let size' =
      if ltb_ℤ st.item.info.size (offset +ℤ size) then st.item.info.size -ℤ offset else size in
    let r : Range = record { pos = offset; size = size' } in
    let started = record st { item = record st.item { downloaders = true } } in
    let keeps = h.ensure_keeps st r in
    let fresh = download-Quiet os h started r in
    if-Quiet st (present st.item.info.rs r) _ _
      (if-Quiet st st.item.downloaders _ _
        (record { answer = h.ensure_answer st r; fd = keeps.0; opens = keeps.1; grace = keeps.2 })
        (record { answer = refl; fd = refl; opens = refl; grace = refl }))
      (if-Quiet st st.item.downloaders _ _ (download-Quiet os h st r) (
        rw e (record {
          answer = fresh.answer;
          fd = fresh.fd;
          opens = fresh.opens;
          grace = fresh.grace;
        })))

if-Shut :
    (st : State) (b : Bool) (x y : Option ItemError × State)
    → (b ≡ true → Shut st x.1)
    → Shut st y.1
    → Shut st (if b then x else y).1
if-Shut st true x y v w = v refl
if-Shut st false x y v w = w

close_ensured-Shut :
    (os : Os) (st : State) (sync : Bool) (ensured : Option ItemError × State)
    → Quiet st ensured
    → Shut st (close_ensured os sync ensured).1
unfolding close_ensured
close_ensured-Shut os st sync ensured q =
    let closed = close_handles-Shut os ensured.1 sync none in
    rw (q.answer)
      (record { fd = closed.fd; opens = closed.opens ∙ q.opens; grace = closed.grace ∙ q.grace })

is_partial_object : (item : Item) → is_partial item ≡ true → (o : RemoteObject) × (item.o ≡ some o)
unfolding is_partial
is_partial_object item h = elim (Option-cases item.o) [ inl e ↦ ground arith | inr found ↦ found ]

actual_close-Shut :
    (os : Os) (st : State) (sync : Bool) → Served os → Shut st (actual_close os st sync).1
unfolding actual_close
actual_close-Shut os st sync h =
    let sized = (get_size os st).1 in
    let c = get_size-Calm os st in
    let direct = close_handles-Shut os sized sync none in
    if-Shut st (is_partial sized.item) _ _
      (λ p.
        let found = is_partial_object sized.item p in
        let quiet =
          ensure_range-Quiet os sized (Prelude.pos 0) sized.item.info.size found.0 h found.1 in
        let closed = close_ensured-Shut os sized sync _ quiet in
        record { fd = closed.fd; opens = closed.opens ∙ c.opens; grace = closed.grace ∙ c.grace })
      (record { fd = direct.fd; opens = direct.opens ∙ c.opens; grace = direct.grace ∙ c.grace })

actual_close-Balanced :
    (os : Os) (st : State) (sync : Bool)
    → Served os
    → st.item.opens ≡ Prelude.pos 0
    → st.item.grace_timer ≡ false
    → Balanced (actual_close os st sync).1
unfolding has_fd
actual_close-Balanced os st sync h none_open off =
    let shut = actual_close-Shut os st sync h in
    parts-Balanced (actual_close os st sync).1 none (Prelude.pos 0) false shut.fd
      (shut.opens ∙ none_open) (shut.grace ∙ off) refl refl (λ t. refl)

if-Balanced :
    (b : Bool) (x y : State)
    → (b ≡ true → Balanced x)
    → (b ≡ false → Balanced y)
    → Balanced (if b then x else y)
if-Balanced true x y v w = v refl
if-Balanced false x y v w = w refl

pub close_after_grace-Balanced :
    (os : Os) (st : State) → Served os → Balanced st → Balanced (close_after_grace os st)
unfolding close_after_grace
close_after_grace-Balanced os st h inv =
    if-Balanced (ltb_ℤ (Prelude.pos 0) st.item.opens || not st.item.grace_timer) _ _ (λ e. inv)
      (λ e.
        actual_close-Balanced os (record st { item = record st.item { grace_timer = false } }) false
          h (inv.grace (ground arith)) refl)

pub remove_not_in_use-Balanced :
    (os : Os) (st : State) (max_age : ℤ) (empty_only : Bool)
    → Balanced st
    → Balanced (remove_not_in_use os st max_age empty_only).2
unfolding remove_not_in_use
remove_not_in_use-Balanced os st max_age empty_only inv =
    by_tests
      (not (eqb_ℤ st.item.opens (Prelude.pos 0)) || st.item.info.dirty || st.item.grace_timer)
      ((eqb_ℤ max_age (Prelude.pos 0) || leb_ℤ st.item.info.a_time (os.now -ℤ max_age))
        && (not empty_only || eqb_ℤ (total_size st.item.info.rs) (Prelude.pos 0)))
  where
    by_tests :
        (b c : Bool)
        → let out : Bool × ℤ × State =
            if b
            then (false, Prelude.pos 0, st)
            else if c
            then (true, total_size st.item.info.rs, (remove os st).1)
            else (false, Prelude.pos 0, st) in
          Balanced out.2
    by_tests true c = inv
    by_tests false true = Calm-Balanced st _ (remove-Calm os st) inv
    by_tests false false = inv

-- One opener less, where there was one.
less_one :
    (opens : ℤ)
    → ltb_ℤ (Prelude.pos 0) opens ≡ true
    → ltb_ℤ (opens -ℤ Prelude.pos 1) (Prelude.pos 0) ≡ false
less_one opens h = ground (arith, -ℤ_parts opens (Prelude.pos 1))

leb_of_ltb : (a b : ℤ) → ltb_ℤ a b ≡ false → leb_ℤ b a ≡ true
leb_of_ltb a b h = ground arith

zero_of_tests :
    (a : ℤ) → ltb_ℤ a (Prelude.pos 0) ≡ false → ltb_ℤ (Prelude.pos 0) a ≡ false → a ≡ Prelude.pos 0
zero_of_tests a u v = eq_of_parts a (Prelude.pos 0) (ground arith)

pub close_locked-Balanced :
    (os : Os) (opt : Options) (st : State)
    → Served os
    → Balanced st
    → ltb_ℤ (Prelude.pos 0) st.item.opens ≡ true
    → Balanced (close_locked os opt st).1
unfolding close_locked
close_locked-Balanced os opt st h inv used =
    let opens = st.item.opens -ℤ Prelude.pos 1 in
    let counted = record st {
      item = record st.item { opens = opens; info = record st.item.info { a_time = os.now } };
    } in
    let off = used_off st inv used in
    let held : has_fd st.item.fd ≡ true = inv.handle ∙ ap (λ b. b || st.item.grace_timer) used in
    let least = less_one st.item.opens used in
    pair-Balanced (ltb_ℤ opens (Prelude.pos 0)) _ _ (λ e. clash _ e least)
      (λ _.
        pair-Balanced (ltb_ℤ (Prelude.pos 0) opens) _ _
          (λ e.
            parts-Balanced counted st.item.fd opens st.item.grace_timer refl refl refl
              (held ∙ sym (ap (λ b. b || st.item.grace_timer) e))
              (leb_of_ltb opens (Prelude.pos 0) least) (λ t. clash _ t off))
          (λ e.
            let last = zero_of_tests opens least e in
            pair-Balanced (ltb_ℤ (Prelude.pos 0) opt.handle_caching && not counted.item.info.dirty)
              _ _
              (λ _.
                parts-Balanced
                  (record counted { item = record counted.item { grace_timer = true } }) st.item.fd
                  (Prelude.pos 0) true refl last refl held refl (λ t. refl))
              (λ _.
                actual_close-Balanced os counted (leb_ℤ opt.write_back (Prelude.pos 0)) h last
                  off)))
