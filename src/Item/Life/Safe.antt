-- ===== src/Item/Life/Safe.antt =====
-- What the cleaner may do to an item: it leaves one that is dirty or in use alone, and accounts for
-- the space of the others.
pub mod Cleaner
use rclone_vfs.Prelude.{
  ℕ, ◌+◌, ◌-◌, ◌≡◌, ◌≢◌, refl, sym, ap, ◌∙◌, ◌⊎◌, inl, inr, Bool, true, false, not, ◌&&◌, ◌||◌,
  Option, none, some, List, [], ◌∷◌, arith, if◌then◌else◌, ltb, leb, ◌==◌, ℤ, ◌+ℤ◌, ◌-ℤ◌, ltb_ℤ,
  leb_ℤ, eqb_ℤ, Bool-cases, Option-cases,
}
use rclone_vfs.Prelude
use rclone_vfs.Ranges.{Range, total_size}
use rclone_vfs.Item.{
  ItemError, not_exist, not_open, err_closed, no_object, already_open, eof, wrong_offset,
  short_write, os_error, RemoteObject, Info, Item, State, Os, set_info, set_fd, first_err, os_err,
  save, remove, clean_info, remove_file, remove_meta, get_size, size_found,
  truncate_to_current_size, truncate_to, truncate_path, truncate_open, truncate_fd, open_path,
}
use rclone_vfs.Item.Life.{create_file, compare_object, check_object, new_downloaders}

-- What a step that checks the object of an item leaves alone.
pub record Calm (st st' : State) : Type 0 where
  pub fd : st'.item.fd ≡ st.item.fd
  pub opens : st'.item.opens ≡ st.item.opens
  pub grace : st'.item.grace_timer ≡ st.item.grace_timer
  pub name : st'.item.name ≡ st.item.name
  pub empty : st.item.info.rs ≡ [] → st'.item.info.rs ≡ []

pub Calm-refl : (st : State) → Calm st st
Calm-refl st = record { fd = refl; opens = refl; grace = refl; name = refl; empty = λ h. h }

pub Calm-trans : (a b c : State) → Calm a b → Calm b c → Calm a c
Calm-trans a b c f g = record {
  fd = g.fd ∙ f.fd;
  opens = g.opens ∙ f.opens;
  grace = g.grace ∙ f.grace;
  name = g.name ∙ f.name;
  empty = λ h. g.empty (f.empty h);
}

pub if-Calm : (st x y : State) (b : Bool) → Calm st x → Calm st y → Calm st (if b then x else y)
if-Calm st x y true v w = v
if-Calm st x y false v w = w

pub remove-Calm : (os : Os) (st : State) → Calm st (remove os st).1
unfolding remove remove_file remove_meta clean_info
remove-Calm os st = record {
  fd = ground arith;
  opens = ground arith;
  grace = ground arith;
  name = ground arith;
  empty = λ h. ground arith;
}

pub remove-rs : (os : Os) (st : State) → (remove os st).1.item.info.rs ≡ []
unfolding remove remove_file remove_meta clean_info
remove-rs os st = ground arith

pub get_size-Calm : (os : Os) (st : State) → Calm st (get_size os st).1
unfolding get_size
get_size-Calm os st = elim (Option-cases (size_found os st).1) [
  | inl e ↦
      rw (e, get_size)
        (record { fd = refl; opens = refl; grace = refl; name = refl; empty = λ h. h })
  | inr (x, e) ↦ rw (e, get_size) (Calm-refl st)
]

-- The branches of a result.
opt-Calm :
    {A B : Type 0} (st : State) (o : Option A) (x : B × State) (y : A → B × State)
    → Calm st x.1
    → ((a : A) → Calm st (y a).1)
    → let out : B × State = elim o [ none ↦ x | some a ↦ y a ] in Calm st out.1
opt-Calm st none x y v w = v
opt-Calm st (some a) x y v w = w a

-- The branches by an error, where one is a missing file.
missing-Calm :
    {B : Type 0} (st : State) (o : Option ItemError) (x y : B × State)
    → Calm st x.1
    → Calm st y.1
    → let out : B × State = elim o [ some not_exist ↦ x | _ ↦ y ] in Calm st out.1
missing-Calm st none x y v w = w
missing-Calm st (some not_exist) x y v w = v
missing-Calm st (some not_open) x y v w = w
missing-Calm st (some err_closed) x y v w = w
missing-Calm st (some no_object) x y v w = w
missing-Calm st (some already_open) x y v w = w
missing-Calm st (some eof) x y v w = w
missing-Calm st (some wrong_offset) x y v w = w
missing-Calm st (some short_write) x y v w = w
missing-Calm st (some (os_error e)) x y v w = w

pair-Calm :
    {B : Type 0} (st : State) (b : Bool) (x y : B × State)
    → Calm st x.1
    → Calm st y.1
    → Calm st (if b then x else y).1
pair-Calm st true x y v w = v
pair-Calm st false x y v w = w

open_path-Calm : (os : Os) (create : Bool) (st : State) → Calm st (open_path os create st).1
unfolding open_path
open_path-Calm os create st =
    opt-Calm st os.open_err _ _
      (opt-Calm st st.path _ _
        (pair-Calm st create _ _
          (record { fd = refl; opens = refl; grace = refl; name = refl; empty = λ h. h })
          (Calm-refl st))
        (λ i. Calm-refl st))
      (λ e. Calm-refl st)

truncate_fd-Calm : (os : Os) (st : State) (i : ℕ) (size : ℤ) → Calm st (truncate_fd os st i size).1
unfolding truncate_fd
truncate_fd-Calm os st i size =
    pair-Calm st (elim os.stat_err [ none ↦ eqb_ℤ (st.inodes i).size size | some _ ↦ false ]) _ _
      (record { fd = refl; opens = refl; grace = refl; name = refl; empty = λ h. h })
      (opt-Calm st os.truncate_err _ _
        (record { fd = refl; opens = refl; grace = refl; name = refl; empty = λ h. h })
        (λ e. Calm-refl st))

remove_meta-Calm : (os : Os) (st : State) → Calm st (remove_meta os st)
unfolding remove_meta
remove_meta-Calm os st = record {
  fd = ground arith;
  opens = ground arith;
  grace = ground arith;
  name = ground arith;
  empty = λ h. ground arith;
}

truncate_open-Calm : (os : Os) (st : State) → Calm st (truncate_open os st).1
unfolding truncate_open
truncate_open-Calm os st =
    let lost = set_info st (record st.item.info { rs = []; dirty = false }) in
    missing-Calm st (open_path os (eqb_ℤ (total_size st.item.info.rs) (Prelude.pos 0)) st).0.1 _ _
      (Calm-trans st (remove_meta os lost) _
        (Calm-trans st lost _
          (record { fd = refl; opens = refl; grace = refl; name = refl; empty = λ h. refl })
          (remove_meta-Calm os lost))
        (open_path-Calm os true (remove_meta os lost)))
      (open_path-Calm os (eqb_ℤ (total_size st.item.info.rs) (Prelude.pos 0)) st)

pub truncate_to-Calm : (os : Os) (st : State) (size : ℤ) → Calm st (truncate_to os st size).1
unfolding truncate_to truncate_path
truncate_to-Calm os st size =
    let opened = truncate_open os st in
    pair-Calm st (ltb_ℤ size (Prelude.pos 0)) _ _ (Calm-refl st) (
      opt-Calm st st.item.fd _ _
        (opt-Calm st opened.0.1 _ _
          (Calm-trans st opened.1 _ (truncate_open-Calm os st)
            (truncate_fd-Calm os opened.1 opened.0.0 size))
          (λ e. truncate_open-Calm os st))
        (λ i. truncate_fd-Calm os st i size))

truncate_to_current_size-Calm : (os : Os) (st : State) → Calm st (truncate_to_current_size os st).1
unfolding truncate_to_current_size
truncate_to_current_size-Calm os st =
    let found = get_size os st in
    let sized = get_size-Calm os st in
    let cut = Calm-trans st found.1 _ sized (truncate_to-Calm os found.1 found.0.0) in
    by_err found.0.1 sized cut
  where
    by_err :
        (o : Option ItemError)
        → Calm st (get_size os st).1
        → Calm st (truncate_to os (get_size os st).1 (get_size os st).0.0).1
        → let out : Option ItemError × State = elim o [
          | none ↦ truncate_to os (get_size os st).1 (get_size os st).0.0
          | some not_exist ↦ truncate_to os (get_size os st).1 (get_size os st).0.0
          | some e ↦ (some e, (get_size os st).1)
        ] in
          Calm st out.1
    by_err none v w = w
    by_err (some not_exist) v w = w
    by_err (some not_open) v w = v
    by_err (some err_closed) v w = v
    by_err (some no_object) v w = v
    by_err (some already_open) v w = v
    by_err (some eof) v w = v
    by_err (some wrong_offset) v w = v
    by_err (some short_write) v w = v
    by_err (some (os_error e)) v w = v

compare_object-Calm :
    (os : Os) (st : State) (o : Option RemoteObject) → Calm st (compare_object os st o)
unfolding compare_object
compare_object-Calm os st none =
    if-Calm st _ _ (not (st.item.info.fingerprint == 0) && not st.item.info.dirty)
      (remove-Calm os st) (Calm-refl st)
compare_object-Calm os st (some o) =
    let stale = (remove os st).1 in
    let gone = remove-Calm os st in
    let checked =
      if-Calm st _ _ (st.item.info.fingerprint == 0)
        (record { fd = refl; opens = refl; grace = refl; name = refl; empty = λ h. h })
        (if-Calm st _ _ (not (o.fingerprint == st.item.info.fingerprint) && not st.item.info.dirty)
          (record {
            fd = gone.fd;
            opens = gone.opens;
            grace = gone.grace;
            name = gone.name;
            empty = gone.empty;
          })
          (Calm-refl st)) in
    record {
      fd = checked.fd;
      opens = checked.opens;
      grace = checked.grace;
      name = checked.name;
      empty = checked.empty;
    }

-- _checkObject leaves the handle, the count of the openers and the grace timer alone.
pub check_object-Calm :
    (os : Os) (st : State) (o : Option RemoteObject) → Calm st (check_object os st o).1
unfolding check_object
check_object-Calm os st o =
    let compared = compare_object os st o in
    let c = compare_object-Calm os st o in
    let given = record compared { item = record compared.item { o = o } } in
    Calm-trans st given _
      (record { fd = c.fd; opens = c.opens; grace = c.grace; name = c.name; empty = c.empty })
      (truncate_to_current_size-Calm os given)
