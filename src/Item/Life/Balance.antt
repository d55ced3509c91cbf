-- ===== src/Item/Life/Balance.antt =====
-- internal/cache/item.go: how the handle of an item follows the count of its openers.
pub mod Closes
pub mod Opens
pub mod Runs
use rclone_vfs.Prelude.{
  clash, ℕ, ◌+◌, ◌-◌, ◌≡◌, ◌≢◌, refl, sym, ap, ◌∙◌, ◌⊎◌, inl, inr, Bool, true, false, not, ◌&&◌,
  ◌||◌, Option, none, some, List, [], ◌∷◌, arith, if◌then◌else◌, ltb, leb, ◌==◌, ℤ, ◌+ℤ◌, ◌-ℤ◌,
  ltb_ℤ, leb_ℤ, eqb_ℤ, Bool-cases, Option-cases, eq_of_parts, -ℤ_parts, +ℤ_parts,
}
use rclone_vfs.Prelude
use rclone_vfs.Ranges.{Range, total_size, present}
use rclone_vfs.Item.{
  ItemError, RemoteObject, Item, State, Os, set_info, set_fd, first_err, os_err, save, remove,
  open_path, get_size, exists, load, remove_file, remove_meta, clean_info,
}
use rclone_vfs.Item.Data.{ensure_range}
use rclone_vfs.Item.Life.{
  Options, create_file, check_object, open_fresh, open_counted, open', store, queue_upload,
  close_handles, is_partial, close_ensured, actual_close, close_locked, close_after_grace, new_item,
  new_downloaders,
}
use rclone_vfs.Item.Life.Safe.{Calm, remove-Calm, get_size-Calm, check_object-Calm}

-- Whether the handle of the item is open.
pub has_fd : Option ℕ → Bool
has_fd none = false
has_fd (some _) = true

-- The handle is open while somebody has the item open or the grace period runs, and only then; the
-- openers are not negative; and the grace period runs only when there are none.
pub record Balanced (st : State) : Type 0 where
  pub handle : has_fd st.item.fd ≡ (ltb_ℤ (Prelude.pos 0) st.item.opens || st.item.grace_timer)
  pub counted : leb_ℤ (Prelude.pos 0) st.item.opens ≡ true
  pub grace : st.item.grace_timer ≡ true → st.item.opens ≡ Prelude.pos 0

-- The handle, the count and the timer of an item decide whether it is balanced.
pub parts-Balanced :
    (st : State) (fd : Option ℕ) (opens : ℤ) (grace : Bool)
    → st.item.fd ≡ fd
    → st.item.opens ≡ opens
    → st.item.grace_timer ≡ grace
    → has_fd fd ≡ (ltb_ℤ (Prelude.pos 0) opens || grace)
    → leb_ℤ (Prelude.pos 0) opens ≡ true
    → (grace ≡ true → opens ≡ Prelude.pos 0)
    → Balanced st
parts-Balanced st fd opens grace ef eo eg h c g = record {
  handle = rw (ef, eo, eg) h;
  counted = rw eo c;
  grace = λ t. eo ∙ g (sym eg ∙ t);
}

pub Calm-Balanced : (st st' : State) → Calm st st' → Balanced st → Balanced st'
Calm-Balanced st st' c inv =
    parts-Balanced st' st.item.fd st.item.opens st.item.grace_timer c.fd c.opens c.grace inv.handle
      inv.counted inv.grace

pub pair-Balanced :
    {A : Type 0} (b : Bool) (x y : A × State)
    → (b ≡ true → Balanced x.1)
    → (b ≡ false → Balanced y.1)
    → Balanced (if b then x else y).1
pair-Balanced true x y v w = v refl
pair-Balanced false x y v w = w refl

-- Who has an item open is not in its grace period.
pub used_off :
    (st : State)
    → Balanced st
    → ltb_ℤ (Prelude.pos 0) st.item.opens ≡ true
    → st.item.grace_timer ≡ false
used_off st inv used = elim (Bool-cases st.item.grace_timer) [
  | inl t ↦ clash _ used (ap (λ o. ltb_ℤ (Prelude.pos 0) o) (inv.grace t))
  | inr f ↦ f
]
