-- ===== src/Cache/Account.antt =====
-- internal/cache/cache.go: the space in use as the sum over the items of the index.
pub mod Removal
pub mod Purges
pub mod Settles
use rclone_vfs.Prelude.{
  ℕ, ◌+◌, ◌≡◌, ◌≢◌, refl, sym, ap, ◌∙◌, Bool, true, false, not, ◌||◌, Option, none, some, List, [],
  ◌∷◌, arith, if◌then◌else◌, ◌==◌, ℤ, ◌-ℤ◌, ◌+ℤ◌, delete, update, Bool-cases, inl, inr, ◌⊎◌, lookup,
  clash, or_false, +ℤ_parts, -ℤ_parts, eq_of_parts,
}
use rclone_vfs.Prelude
use rclone_vfs.Item.{State, get_disk_size}
use rclone_vfs.Cache.{sizes}

-- Whether an index has a name, and a pointer.
unfoldable pub has_name : ℕ → List (ℕ × ℕ) → Bool
has_name n [] = false
has_name n ((m, q) ∷ rest) = n == m || has_name n rest

unfoldable pub has_pointer : ℕ → List (ℕ × ℕ) → Bool
has_pointer p [] = false
has_pointer p ((m, q) ∷ rest) = p == q || has_pointer p rest

-- The items of an index have the names under which they stand, and no name or item stands twice.
abbrev pub Tidy : (ℕ → State) → List (ℕ × ℕ) → Type 0
Tidy store [] = Unit {0}
Tidy store ((n, p) ∷ rest) =
    ((store p).item.name ≡ n)
    × (has_name n rest ≡ false)
    × (has_pointer p rest ≡ false)
    × Tidy store rest

pub equal_of : (p q : ℕ) → (p == q) ≡ true → p ≡ q
equal_of p q h = ground arith

pub update_eq :
    (store : ℕ → State) (p q : ℕ) (st : State) → (p == q) ≡ true → update store p st q ≡ st
update_eq store p q st h = ground arith

pub update_ne :
    (store : ℕ → State) (p q : ℕ) (st : State) → (p == q) ≡ false → update store p st q ≡ store q
update_ne store p q st h = ground arith

pub sizes_absent :
    (store : ℕ → State) (p : ℕ) (st : State) (items : List (ℕ × ℕ))
    → has_pointer p items ≡ false
    → sizes (update store p st) items ≡ sizes store items
unfolding sizes has_pointer
sizes_absent store p st [] h = refl
sizes_absent store p st ((m, q) ∷ rest) h =
    let parts = or_false (p == q) (has_pointer p rest) h in
    ap (λ x. get_disk_size x.item +ℤ sizes (update store p st) rest)
      (update_ne store p q st parts.0)
    ∙ ap (λ s. get_disk_size (store q).item +ℤ s) (sizes_absent store p st rest parts.1)

sub_head : (a f s : ℤ) → ((a -ℤ f) +ℤ s) ≡ ((a +ℤ s) -ℤ f)
sub_head a f s =
    eq_of_parts ((a -ℤ f) +ℤ s) ((a +ℤ s) -ℤ f)
      (ground (arith, +ℤ_parts (a -ℤ f) s, -ℤ_parts a f, -ℤ_parts (a +ℤ s) f, +ℤ_parts a s))

pub sub_tail : (a f s : ℤ) → (a +ℤ (s -ℤ f)) ≡ ((a +ℤ s) -ℤ f)
sub_tail a f s =
    eq_of_parts (a +ℤ (s -ℤ f)) ((a +ℤ s) -ℤ f)
      (ground (arith, +ℤ_parts a (s -ℤ f), -ℤ_parts s f, -ℤ_parts (a +ℤ s) f, +ℤ_parts a s))

pub sub_self : (a s : ℤ) → s ≡ ((a +ℤ s) -ℤ a)
sub_self a s = eq_of_parts s ((a +ℤ s) -ℤ a) (ground (arith, -ℤ_parts (a +ℤ s) a, +ℤ_parts a s))

pub or_left : (b : Bool) (c : Bool) → (b || c) ≡ true → b ≡ false → c ≡ true
or_left b c h f = ground arith

-- An item that gives up space takes it out of the sum.
pub sizes-update :
    (store : ℕ → State) (p : ℕ) (st : State) (freed : ℤ) (items : List (ℕ × ℕ))
    → Tidy store items
    → has_pointer p items ≡ true
    → get_disk_size st.item ≡ get_disk_size (store p).item -ℤ freed
    → sizes (update store p st) items ≡ sizes store items -ℤ freed
unfolding sizes has_pointer
sizes-update store p st freed [] tidy h e = clash false h refl
sizes-update store p st freed ((m, q) ∷ rest) tidy h e = elim (Bool-cases (p == q)) [
  | inl t ↦
      let same = equal_of p q t in
      let absent : has_pointer p rest ≡ false = ap (λ x. has_pointer x rest) same ∙ tidy.2 in
      ap (λ x. get_disk_size x.item +ℤ sizes (update store p st) rest) (update_eq store p q st t)
      ∙ ap (λ s. get_disk_size st.item +ℤ s) (sizes_absent store p st rest absent)
      ∙ ap (λ d. d +ℤ sizes store rest) (e ∙ ap (λ x. get_disk_size (store x).item -ℤ freed) same)
      ∙ sub_head (get_disk_size (store q).item) freed (sizes store rest)
  | inr f ↦
      ap (λ x. get_disk_size x.item +ℤ sizes (update store p st) rest) (update_ne store p q st f)
      ∙ ap (λ s. get_disk_size (store q).item +ℤ s)
          (sizes-update store p st freed rest tidy.3 (or_left (p == q) (has_pointer p rest) h f) e)
      ∙ sub_tail (get_disk_size (store q).item) freed (sizes store rest)
]
