-- ===== src/Item/Life/Faults.antt =====
-- internal/cache/item.go: what an open meets after a close that failed.
use rclone_vfs.Prelude.{
  clash, ℕ, inl, inr, ◌+◌, ◌≡◌, refl, sym, ap, ◌∙◌, Bool, true, false, not, ◌&&◌, ◌||◌, Option,
  none, some, List, [], arith, if◌then◌else◌, ltb, ℤ, ◌+ℤ◌, ◌-ℤ◌, ltb_ℤ, leb_ℤ, eqb_ℤ, Bool-cases,
  Option-cases,
}
use rclone_vfs.Prelude
use rclone_vfs.Ranges.{Range, present}
use rclone_vfs.Item.{
  ItemError, already_open, RemoteObject, Item, State, Os, set_info, remove, clean_info, remove_file,
  remove_meta, get_size, size_found,
}
use rclone_vfs.Item.Data.{ensure_range}
use rclone_vfs.Item.Life.{
  Options, create_file, check_object, open_fresh, open_counted, open', is_partial, close_ensured,
  actual_close, close_locked,
}
use rclone_vfs.Item.Life.Safe.{check_object-Calm, remove-rs}

-- Two states of an item that is not open by anybody, as far as open looks at it.
pub record Left (st st' : State) : Type 0 where
  pub fd : st'.item.fd ≡ st.item.fd
  pub opens : st'.item.opens ≡ st.item.opens
  pub grace : st'.item.grace_timer ≡ st.item.grace_timer
  pub dirty : st'.item.info.dirty ≡ st.item.info.dirty

-- The downloaders refuse a call with the error `e`, and leave the handle, the count, the timer and
-- the mark of changes of the item alone.
pub record Refusing (os : Os) (e : ItemError) : Type 0 where
  pub ensure_answer : (st : State) (r : Range) → (os.ensure st r).0 ≡ some e
  pub ensure_left : (st : State) (r : Range) → Left st (os.ensure st r).1
  pub download_answer : (st : State) (r : Range) → (os.download st r).0 ≡ some e
  pub download_left : (st : State) (r : Range) → Left st (os.download st r).1

record Refused (st : State) (e : ItemError) (out : Option ItemError × State) : Type 0 where
  answer : out.0 ≡ some e
  left : Left st out.1

if-Refused :
    (st : State) (e : ItemError) (b : Bool) (x y : Option ItemError × State)
    → (b ≡ true → Refused st e x)
    → (b ≡ false → Refused st e y)
    → Refused st e (if b then x else y)
if-Refused st e true x y v w = v refl
if-Refused st e false x y v w = w refl

Left-trans : (a b c : State) → Left a b → Left b c → Left a c
Left-trans a b c f g = record {
  fd = g.fd ∙ f.fd;
  opens = g.opens ∙ f.opens;
  grace = g.grace ∙ f.grace;
  dirty = g.dirty ∙ f.dirty;
}

-- An upload brings in what is missing, where something is.
ensure_range-Refused :
    (os : Os) (st : State) (offset size : ℤ) (o : RemoteObject) (e : ItemError)
    → Refusing os e
    → st.item.o ≡ some o
    → st.item.downloaders ≡ true
    → Refused st e (ensure_range os st offset size)
unfolding ensure_range
ensure_range-Refused os st offset size o e h eo up =
    let size' =
      if ltb_ℤ st.item.info.size (offset +ℤ size) then st.item.info.size -ℤ offset else size in
    let r : Range = record { pos = offset; size = size' } in
    if-Refused st e (present st.item.info.rs r) _ _
      (λ _.
        if-Refused st e st.item.downloaders _ _
          (λ _. record { answer = h.ensure_answer st r; left = h.ensure_left st r })
          (λ off. clash _ up off))
      (λ _.
        if-Refused st e st.item.downloaders _ _
          (λ _. record { answer = h.download_answer st r; left = h.download_left st r })
          (λ off. clash _ up off))

get_size-Left :
    (os : Os) (st : State)
    → Left st (get_size os st).1
      × ((get_size os st).1.item.o ≡ st.item.o)
      × ((get_size os st).1.item.downloaders ≡ st.item.downloaders)
unfolding get_size
get_size-Left os st = elim (Option-cases (size_found os st).1) [
  | inl e ↦
      rw (e, get_size) (record { fd = refl; opens = refl; grace = refl; dirty = refl }, refl, refl)
  | inr (x, e) ↦
      rw (e, get_size) (record { fd = refl; opens = refl; grace = refl; dirty = refl }, refl, refl)
]

is_partial_changed :
    (item : Item) (o : RemoteObject)
    → item.o ≡ some o
    → item.info.dirty ≡ true
    → is_partial item ≡ true
unfolding is_partial
is_partial_changed item o e h = ground arith

close_ensured-Refused :
    (os : Os) (st : State) (sync : Bool) (e : ItemError) (ensured : Option ItemError × State)
    → Refused st e ensured
    → Refused st e (close_ensured os sync ensured)
unfolding close_ensured
close_ensured-Refused os st sync e ensured r = rw r.answer (record { answer = refl; left = r.left })

actual_close-Refused :
    (os : Os) (st : State) (sync : Bool) (o : RemoteObject) (e : ItemError)
    → Refusing os e
    → st.item.o ≡ some o
    → st.item.downloaders ≡ true
    → st.item.info.dirty ≡ true
    → Refused st e (actual_close os st sync)
unfolding actual_close
actual_close-Refused os st sync o e h eo up changed =
    let sized = (get_size os st).1 in
    let same = get_size-Left os st in
    let object = same.1 ∙ eo in
    let partial = is_partial_changed sized.item o object (same.0.dirty ∙ changed) in
    if-Refused st e (is_partial sized.item) _ _
      (λ _.
        let refused =
          ensure_range-Refused os sized (Prelude.pos 0) sized.item.info.size o e h object
            (same.2 ∙ up) in
        let closed = close_ensured-Refused os sized sync e _ refused in
        record { answer = closed.answer; left = Left-trans st sized _ same.0 closed.left })
      (λ off. clash _ partial off)

and_false : (b : Bool) → (b && false) ≡ false
and_false b = ground arith

-- What a close leaves of a changed file whose missing parts were refused: an open handle without an
-- opener.
record Stranded (e : ItemError) (fd : Option ℕ) (out : Option ItemError × State) : Type 0 where
  answer : out.0 ≡ some e
  handle : out.1.item.fd ≡ fd
  opens : out.1.item.opens ≡ Prelude.pos 0
  grace : out.1.item.grace_timer ≡ false
  dirty : out.1.item.info.dirty ≡ true

if-Stranded :
    (e : ItemError) (fd : Option ℕ) (b : Bool) (x y : Option ItemError × State)
    → b ≡ false
    → Stranded e fd y
    → Stranded e fd (if b then x else y)
if-Stranded e fd true x y v w = clash true refl v
if-Stranded e fd false x y v w = w

close_locked-Stranded :
    (os : Os) (opt : Options) (st : State) (o : RemoteObject) (e : ItemError)
    → Refusing os e
    → st.item.o ≡ some o
    → st.item.downloaders ≡ true
    → st.item.info.dirty ≡ true
    → st.item.grace_timer ≡ false
    → st.item.opens ≡ Prelude.pos 1
    → Stranded e st.item.fd (close_locked os opt st)
unfolding close_locked ◌-ℤ◌
close_locked-Stranded os opt st o e h eo up changed off one =
    let opens = st.item.opens -ℤ Prelude.pos 1 in
    let counted = record st {
      item = record st.item { opens = opens; info = record st.item.info { a_time = os.now } };
    } in
    let zero_left : opens ≡ Prelude.pos 0 = ap (λ x. x -ℤ Prelude.pos 1) one in
    let refused =
      actual_close-Refused os counted (leb_ℤ opt.write_back (Prelude.pos 0)) o e h eo up changed in
    if-Stranded e st.item.fd _ _ _ (ap (λ x. ltb_ℤ x (Prelude.pos 0)) zero_left) (
      if-Stranded e st.item.fd _ _ _ (ap (λ x. ltb_ℤ (Prelude.pos 0) x) zero_left) (
        if-Stranded e st.item.fd _ _ _
          (ap (λ b. ltb_ℤ (Prelude.pos 0) opt.handle_caching && not b) changed
            ∙ and_false (ltb_ℤ (Prelude.pos 0) opt.handle_caching))
          (record {
            answer = refused.answer;
            handle = refused.left.fd;
            opens = refused.left.opens ∙ zero_left;
            grace = refused.left.grace ∙ off;
            dirty = refused.left.dirty ∙ changed;
          })))

-- An open that finds the handle of nobody and gives up what the file held.
pub record Lost (out : Option ItemError × State) : Type 0 where
  pub answer : out.0 ≡ some already_open
  pub opens : out.1.item.opens ≡ Prelude.pos 0
  pub rs : out.1.item.info.rs ≡ []
  pub dirty : out.1.item.info.dirty ≡ false

create_file_taken :
    (os : Os) (st : State) (i : ℕ)
    → st.item.fd ≡ some i
    → create_file os st ≡ (some already_open, st)
unfolding create_file
create_file_taken os st i e = rw e refl

remove_parts :
    (os : Os) (st : State)
    → ((remove os st).1.item.info.dirty ≡ false) × ((remove os st).1.item.opens ≡ st.item.opens)
unfolding remove remove_file remove_meta clean_info
remove_parts os st = (ground arith, ground arith)

open_fresh-Lost :
    (os : Os) (taken : Bool) (st : State) (i : ℕ)
    → st.item.fd ≡ some i
    → st.item.opens ≡ Prelude.pos 1
    → Lost (open_fresh os taken st)
unfolding open_fresh ◌-ℤ◌
open_fresh-Lost os taken st i e one =
    let created = create_file os st in
    let taken_by = create_file_taken os st i e in
    let gone = remove_parts os created.1 in
    rw (ap (λ out. out.0) taken_by, open_fresh)
      (record {
        answer = refl;
        opens = ap (λ o. o -ℤ Prelude.pos 1) (gone.1 ∙ ap (λ out. out.1.item.opens) taken_by ∙ one);
        rs = remove-rs os created.1;
        dirty = gone.0;
      })

if-Lost :
    (b : Bool) (x y : Option ItemError × State) → b ≡ false → Lost y → Lost (if b then x else y)
if-Lost true x y v w = clash true refl v
if-Lost false x y v w = w

open_counted-Lost :
    (os : Os) (taken : Bool) (st : State) (i : ℕ)
    → st.item.fd ≡ some i
    → st.item.opens ≡ Prelude.pos 1
    → st.item.grace_timer ≡ false
    → Lost (open_counted os taken st)
unfolding open_counted
open_counted-Lost os taken st i e one off =
    if-Lost (not (eqb_ℤ st.item.opens (Prelude.pos 1))) _ _
      (ap (λ o. not (eqb_ℤ o (Prelude.pos 1))) one)
      (if-Lost st.item.grace_timer _ _ off (open_fresh-Lost os taken st i e one))

open'-Lost :
    (os : Os) (taken : Bool) (st : State) (o : Option RemoteObject) (i : ℕ)
    → os.create_dir_err ≡ none
    → (check_object os (set_info st (record st.item.info { a_time = os.now })) o).0 ≡ none
    → st.item.fd ≡ some i
    → st.item.opens ≡ Prelude.pos 0
    → st.item.grace_timer ≡ false
    → Lost (open' os taken st o)
unfolding open' ◌+ℤ◌
open'-Lost os taken st o i dir checks e none_open off =
    let accessed_at = set_info st (record st.item.info { a_time = os.now }) in
    let checked = check_object os accessed_at o in
    let c = check_object-Calm os accessed_at o in
    let counted = record checked.1 {
      item = record checked.1.item { opens = checked.1.item.opens +ℤ Prelude.pos 1 };
    } in
    rw (dir, checks, open')
      (open_counted-Lost os taken counted i (c.fd ∙ e)
        (ap (λ n. n +ℤ Prelude.pos 1) (c.opens ∙ none_open)) (c.grace ∙ off))

-- A changed file of one opener with an object and its downloaders up, where the downloaders refuse the
-- parts that the upload needs, with the error `e`: Close returns `e`, and the next Open, whatever the
-- world answers it, unless it fails before it counts its opener, returns the error that the file is
-- open already, with nobody counted as its opener, nothing of its contents present and the mark of
-- its changes gone.
pub close_locked-open'-Lost :
    (os os' : Os) (opt : Options) (st : State) (o : RemoteObject) (e : ItemError) (i : ℕ)
    (taken : Bool) (o' : Option RemoteObject)
    → Refusing os e
    → st.item.o ≡ some o
    → st.item.downloaders ≡ true
    → st.item.info.dirty ≡ true
    → st.item.grace_timer ≡ false
    → st.item.opens ≡ Prelude.pos 1
    → st.item.fd ≡ some i
    → os'.create_dir_err ≡ none
    → (let closed = (close_locked os opt st).1 in
        (check_object os' (set_info closed (record closed.item.info { a_time = os'.now })) o').0
        ≡ none)
    → ((close_locked os opt st).0 ≡ some e) × Lost (open' os' taken (close_locked os opt st).1 o')
close_locked-open'-Lost os os' opt st o e i taken o' h eo up changed off one ef dir checks =
    let s = close_locked-Stranded os opt st o e h eo up changed off one in
    (
      s.answer,
      open'-Lost os' taken (close_locked os opt st).1 o' i dir checks (s.handle ∙ ef) s.opens
          s.grace,
    )
