-- ===== src/Item/Life/Balance/Runs.antt =====
-- The life of an item as a sequence of steps.
use rclone_vfs.Prelude.{
  clash, ℕ, ◌+◌, ◌-◌, ◌≡◌, ◌≢◌, refl, sym, ap, ◌∙◌, ◌⊎◌, inl, inr, Bool, true, false, not, ◌&&◌,
  ◌||◌, Option, none, some, List, [], ◌∷◌, arith, if◌then◌else◌, ltb, leb, ◌==◌, ℤ, ◌+ℤ◌, ◌-ℤ◌,
  ltb_ℤ, leb_ℤ, eqb_ℤ, Bool-cases, Option-cases, eq_of_parts, -ℤ_parts, +ℤ_parts,
}
use rclone_vfs.Prelude
use rclone_vfs.Item.{RemoteObject, State, Os, remove, load, remove_file, remove_meta, clean_info}
use rclone_vfs.Item.Life.{Options, open', close_locked, close_after_grace, new_item}
use rclone_vfs.Item.Life.Resets.{remove_not_in_use}
use rclone_vfs.Item.Life.Balance.{has_fd, Balanced, parts-Balanced}
use rclone_vfs.Item.Life.Balance.Closes.{
  Served, close_after_grace-Balanced, remove_not_in_use-Balanced, close_locked-Balanced,
}
use rclone_vfs.Item.Life.Balance.Opens.{open'-Balanced}

-- A step in the life of an item: it is opened or closed by an opener, the grace period ends, the
-- cleaner asks for its removal, or a call like ReadAt and WriteAt changes anything but the handle,
-- the count and the timer. Where an upload has to bring in what is missing, the downloaders serve it.
pub data Step (st : State) : State → Type 0 where
  opened : (os : Os) (taken : Bool) (o : Option RemoteObject) → Step st (open' os taken st o).1
  closed :
      (os : Os) (opt : Options)
      → Served os
      → ltb_ℤ (Prelude.pos 0) st.item.opens ≡ true
      → Step st (close_locked os opt st).1
  graced : (os : Os) → Served os → Step st (close_after_grace os st)
  cleaned :
      (os : Os) (max_age : ℤ) (empty_only : Bool)
      → Step st (remove_not_in_use os st max_age empty_only).2
  touched :
      (st' : State)
      → st'.item.fd ≡ st.item.fd
      → st'.item.opens ≡ st.item.opens
      → st'.item.grace_timer ≡ st.item.grace_timer
      → Step st st'

pub data Steps (st : State) : State → Type 0 where
  start : Steps st st
  step : (now next : State) → Steps st now → Step now next → Steps st next

Step-Balanced : (st st' : State) → Step st st' → Balanced st → Balanced st'
Step-Balanced st _ (opened os taken o) inv = open'-Balanced os taken st o inv
Step-Balanced st _ (closed os opt h used) inv = close_locked-Balanced os opt st h inv used
Step-Balanced st _ (graced os h) inv = close_after_grace-Balanced os st h inv
Step-Balanced st _ (cleaned os max_age empty_only) inv =
    remove_not_in_use-Balanced os st max_age empty_only inv
Step-Balanced st _ (touched st' f o g) inv =
    parts-Balanced st' st.item.fd st.item.opens st.item.grace_timer f o g inv.handle inv.counted
      inv.grace

Steps-Balanced : (st st' : State) → Balanced st → Steps st st' → Balanced st'
Steps-Balanced st _ inv start = inv
Steps-Balanced st _ inv (step now next before s) =
    Step-Balanced now next s (Steps-Balanced st now inv before)

new_item_parts :
    (os : Os) (st : State) (name : ℕ)
    → ((new_item os st name).item.fd ≡ none)
      × ((new_item os st name).item.opens ≡ Prelude.pos 0)
      × ((new_item os st name).item.grace_timer ≡ false)
unfolding new_item load remove remove_file remove_meta clean_info
new_item_parts os st name = (ground arith, ground arith, ground arith)

-- From a new item on, whatever is opened and closed, each close being one of an opener and each
-- upload served: the handle is open while somebody has the item open or the grace period runs, and
-- only then, the count is never negative, and the grace period runs only when it is zero.
pub new_item-Balanced :
    (os : Os) (st : State) (name : ℕ) (st' : State) → Steps (new_item os st name) st' → Balanced st'
unfolding has_fd
new_item-Balanced os st name st' steps =
    let made = new_item_parts os st name in
    Steps-Balanced (new_item os st name) st'
      (parts-Balanced (new_item os st name) none (Prelude.pos 0) false made.0 made.1 made.2 refl
        refl (λ t. refl))
      steps
