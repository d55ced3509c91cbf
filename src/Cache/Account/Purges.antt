-- ===== src/Cache/Account/Purges.antt =====
-- internal/cache/cache.go: the purges keep account of the space in use, and give the word that there
-- is room.
use rclone_vfs.Prelude.{
  ℕ, ◌+◌, ◌≡◌, refl, sym, ap, ◌∙◌, Bool, true, false, not, ◌&&◌, ◌||◌, Option, none, some, List, [],
  ◌∷◌, arith, if◌then◌else◌, ◌==◌, ltb_ℤ, leb_ℤ, ℤ, ◌-ℤ◌, ◌+ℤ◌, delete, update, Bool-cases,
  Option-cases, inl, inr, clash, or_false, -ℤ_parts, eq_of_parts,
}
use rclone_vfs.Prelude
use rclone_vfs.Ranges.{total_size}
use rclone_vfs.Item.{State, get_disk_size}
use rclone_vfs.Item.Life.Safe.Cleaner.{Reclaimed}
use rclone_vfs.Cache.{Cache, held, sizes, reclaim, select}
use rclone_vfs.Cache.Account.{has_pointer, Tidy, equal_of, sizes_absent, sizes-update}
use rclone_vfs.Cache.Account.Removal.{sizes-delete, delete-Tidy, update-Tidy, gone, stays}

-- The index is tidy, and the space in use is the sum over its items.
pub record Counted (c : Cache) : Type 0 where
  pub tidy : Tidy c.store c.item
  pub exact : c.used ≡ sizes c.store c.item

-- Whether a list has a pointer.
pub mem : ℕ → List ℕ → Bool
mem q [] = false
mem q (p ∷ ps) = q == p || mem q ps

abbrev pub Distinct : List ℕ → Type 0
Distinct [] = Unit {0}
Distinct (p ∷ ps) = (mem p ps ≡ false) × Distinct ps

-- Pointers to go through: they are in the index, each once.
pub record Ready (items : List (ℕ × ℕ)) (ps : List ℕ) : Type 0 where
  pub distinct : Distinct ps
  pub there : (q : ℕ) → mem q ps ≡ true → has_pointer q items ≡ true

-- sort.Sort gives the same pointers in another order.
pub record IsSort (sort : (ℕ → State) → List ℕ → List ℕ) : Type 0 where
  pub distinct : (store : ℕ → State) (ps : List ℕ) → Distinct ps → Distinct (sort store ps)
  pub only :
      (store : ℕ → State) (ps : List ℕ) (q : ℕ) → mem q (sort store ps) ≡ true → mem q ps ≡ true

-- What an item reports when it is asked for its space.
pub record Lawful (old : State) (removed : Bool) (freed : ℤ) (st : State) : Type 0 where
  pub name : st.item.name ≡ old.item.name
  pub disk : get_disk_size st.item ≡ get_disk_size old.item -ℤ freed
  pub gone : removed ≡ true → freed ≡ get_disk_size old.item

sub_zero : (a : ℤ) → a ≡ a -ℤ Prelude.pos 0
sub_zero a = eq_of_parts a (a -ℤ Prelude.pos 0) (ground (arith, -ℤ_parts a (Prelude.pos 0)))

sub_same : (a : ℤ) → Prelude.pos 0 ≡ a -ℤ a
sub_same a = eq_of_parts (Prelude.pos 0) (a -ℤ a) (ground (arith, -ℤ_parts a a))

pub Reclaimed-Lawful :
    (old : State) (removed : Bool) (freed : ℤ) (st : State)
    → Reclaimed old freed st
    → (removed ≡ true → (old.item.info.dirty ≡ false) × (freed ≡ total_size old.item.info.rs))
    → Lawful old removed freed st
unfolding get_disk_size total_size
Reclaimed-Lawful old removed freed st r g = record {
  name = r.name;
  disk = elim r.account [
    | inl (f, rs) ↦
        ap total_size rs
        ∙ sub_zero (total_size old.item.info.rs)
        ∙ ap (λ x. total_size old.item.info.rs -ℤ x) (sym f)
    | inr (f, rs) ↦
        ap total_size rs
        ∙ sub_same (total_size old.item.info.rs)
        ∙ ap (λ x. total_size old.item.info.rs -ℤ x) (sym f)
  ];
  gone = λ h. (g h).1;
}

pub reclaim-Counted :
    (c : Cache) (p : ℕ) (removed : Bool) (freed : ℤ) (st : State)
    → Counted c
    → has_pointer p c.item ≡ true
    → Lawful (held c p) removed freed st
    → Counted (reclaim c p removed freed st)
unfolding reclaim
reclaim-Counted c p true freed st inv h law =
    let tidy : Tidy c.store (delete st.item.name c.item) =
      delete-Tidy c.store st.item.name c.item inv.tidy in
    let absent : has_pointer p (delete st.item.name c.item) ≡ false =
      ap (λ n. has_pointer p (delete n c.item)) law.name ∙ gone c.store p c.item inv.tidy h in
    record {
      tidy = update-Tidy c.store p st (delete st.item.name c.item) law.name tidy;
      exact =
          ap (λ u. u -ℤ freed) inv.exact
          ∙ ap (λ f. sizes c.store c.item -ℤ f) (law.gone refl)
          ∙ sym (sizes-delete c.store p c.item inv.tidy h)
          ∙ ap (λ n. sizes c.store (delete n c.item)) (sym law.name)
          ∙ sym (sizes_absent c.store p st (delete st.item.name c.item) absent);
    }
reclaim-Counted c p false freed st inv h law = record {
  tidy = update-Tidy c.store p st c.item law.name inv.tidy;
  exact =
      ap (λ u. u -ℤ freed) inv.exact
      ∙ sym (sizes-update c.store p st freed c.item inv.tidy h law.disk);
}

pub head_there :
    (items : List (ℕ × ℕ)) (p : ℕ) (ps : List ℕ) → Ready items (p ∷ ps) → has_pointer p items ≡ true
unfolding mem
head_there items p ps r = r.there p (ground arith)

tail-Ready : (items : List (ℕ × ℕ)) (p : ℕ) (ps : List ℕ) → Ready items (p ∷ ps) → Ready items ps
unfolding mem
tail-Ready items p ps r = record {
  distinct = r.distinct.1;
  there = λ q h. r.there q (ground arith);
}

mem_other : (p q : ℕ) (ps : List ℕ) → mem p ps ≡ false → mem q ps ≡ true → (p == q) ≡ false
mem_other p q ps h k = elim (Bool-cases (p == q)) [
  | inl t ↦ clash _ k (ap (λ x. mem x ps) (sym (equal_of p q t)) ∙ h)
  | inr f ↦ f
]

pub reclaim-Ready :
    (c : Cache) (p : ℕ) (removed : Bool) (freed : ℤ) (st : State) (ps : List ℕ)
    → Counted c
    → Ready c.item (p ∷ ps)
    → Lawful (held c p) removed freed st
    → Ready (reclaim c p removed freed st).item ps
unfolding reclaim
reclaim-Ready c p true freed st ps inv r law = record {
  distinct = r.distinct.1;
  there = λ q h.
      ap (λ n. has_pointer q (delete n c.item)) law.name
      ∙ stays c.store p q c.item inv.tidy (head_there c.item p ps r)
          ((tail-Ready c.item p ps r).there q h) (mem_other p q ps r.distinct.0 h);
}
reclaim-Ready c p false freed st ps inv r law = tail-Ready c.item p ps r

-- The pointers that are selected are ready.
select_in :
    (test : State → Bool) (store : ℕ → State) (items : List (ℕ × ℕ)) (q : ℕ)
    → mem q (select test store items) ≡ true
    → has_pointer q items ≡ true
unfolding select has_pointer mem
select_in test store [] q h = h
select_in test store ((n, p) ∷ rest) q h = elim (Bool-cases (test (store p))) [
  | inl t ↦ ground (arith, select_in test store rest q)
  | inr f ↦ ground (arith, select_in test store rest q)
]

select-Distinct :
    (test : State → Bool) (store : ℕ → State) (items : List (ℕ × ℕ))
    → Tidy store items
    → Distinct (select test store items)
unfolding select
select-Distinct test store [] tidy = tt
select-Distinct test store ((n, p) ∷ rest) tidy =
    by_test (test (store p)) (select-Distinct test store rest tidy.3)
  where
    fresh : mem p (select test store rest) ≡ false
    fresh = elim (Bool-cases (mem p (select test store rest))) [
      | inl t ↦ clash _ (select_in test store rest p t) tidy.2
      | inr f ↦ f
    ]

    by_test :
        (b : Bool)
        → Distinct (select test store rest)
        → Distinct (if b then p ∷ select test store rest else select test store rest)
    by_test true d = (fresh, d)
    by_test false d = d

pub select-Ready :
    (test : State → Bool) (store : ℕ → State) (items : List (ℕ × ℕ))
    → Tidy store items
    → Ready items (select test store items)
select-Ready test store items tidy = record {
  distinct = select-Distinct test store items tidy;
  there = select_in test store items;
}
