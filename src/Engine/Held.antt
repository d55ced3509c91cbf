-- ===== src/Engine/Held.antt =====
-- The count of the openers of an item, through the calls of an engine.
use rclone_vfs.Prelude.{
  ℕ, ◌+◌, ◌≤◌, ◌<◌, ◌≡◌, ◌≢◌, refl, sym, ap, ◌∙◌, ◌⊎◌, inl, inr, Bool, true, false, Option, none,
  some, List, ◌∷◌, arith, if◌then◌else◌, leb, ltb, ◌==◌, ℤ, ◌+ℤ◌, ◌≤ℤ◌, Bool-cases, Option-cases,
  lookup, delete, lookup-cons_self, lookup-cons_ne, lookup-delete_self, lookup-delete_ne,
  update_cases, ℕ_discrete,
}
use rclone_vfs.Prelude
use rclone_vfs.Item.{
  ItemError, RemoteObject, State, Os, get_size, accessed, pre_access, post_access,
}
use rclone_vfs.Item
use rclone_vfs.Item.Life.{new_item}
use rclone_vfs.Item.Life.Safe.{remove-Calm}
use rclone_vfs.Item.Life.Counted.{≤ℤ_refl, ≤ℤ_trans, new_item-opens}
use rclone_vfs.Cache.{Cache, held, put_held, get}
use rclone_vfs.Cache

-- The index names items that were allocated, and no item has fewer than no opener.
pub record Sound (c : Cache) : Type 0 where
  pub known : (n p : ℕ) → lookup n c.item ≡ some p → p < c.allocated
  pub counted : (p : ℕ) → Prelude.pos 0 ≤ℤ (c.store p).item.opens

-- The count of the openers of the item at a pointer.
abbrev pub opens_at : Cache → ℕ → ℤ
opens_at c p = (c.store p).item.opens

-- A call that forgets no opener.
pub record Grows (c c' : Cache) : Type 0 where
  pub sound : Sound c'
  pub opens : (p : ℕ) → p < c.allocated → opens_at c p ≤ℤ opens_at c' p
  pub allocated : c.allocated ≤ c'.allocated

pub Grows-refl : (c : Cache) → Sound c → Grows c c
Grows-refl c s = record {
  sound = s;
  opens = λ p h. ≤ℤ_refl (opens_at c p) (opens_at c p) refl;
  allocated = ground arith;
}

pub Grows-trans : (a b c : Cache) → Grows a b → (Sound b → Grows b c) → Grows a c
Grows-trans a b c f k =
    let g = k f.sound in
    record {
      sound = g.sound;
      opens = λ p h.
          ≤ℤ_trans (opens_at a p) (opens_at b p) (opens_at c p) (f.opens p h)
            (g.opens p (ground (arith, f.allocated)));
      allocated = ground (arith, f.allocated, g.allocated);
    }

-- A call that changes the item at a pointer and loses no opener of it.
pub put_held-Grows :
    (c : Cache) (q : ℕ) (st : State)
    → Sound c
    → opens_at c q ≤ℤ st.item.opens
    → Grows c (put_held c q st)
put_held-Grows c q st s h =
    let kept : (p : ℕ) → opens_at c p ≤ℤ opens_at (put_held c q st) p = λ p.
      elim (update_cases c.store q st p) [
        | inl (e, u) ↦
            ≤ℤ_trans (opens_at c p) (opens_at c q) (opens_at (put_held c q st) p)
              (≤ℤ_refl (opens_at c p) (opens_at c q) (ap (opens_at c) (sym e)))
              (≤ℤ_trans (opens_at c q) st.item.opens (opens_at (put_held c q st) p) h
                (≤ℤ_refl st.item.opens (opens_at (put_held c q st) p) (ap (λ x. x.item.opens) u)))
        | inr u ↦ ≤ℤ_refl (opens_at c p) (opens_at (put_held c q st) p) (ap (λ x. x.item.opens) u)
      ] in
    record {
      sound = record {
        known = s.known;
        counted = λ p.
            ≤ℤ_trans (Prelude.pos 0) (opens_at c p) (opens_at (put_held c q st) p) (s.counted p)
              (kept p);
      };
      opens = λ p _. kept p;
      allocated = ground arith;
    }

-- An index that has lost or got an entry.
index-Grows :
    (c c' : Cache)
    → Sound c
    → c'.store ≡ c.store
    → c'.allocated ≡ c.allocated
    → ((n p : ℕ) → lookup n c'.item ≡ some p → lookup n c.item ≡ some p)
    → Grows c c'
index-Grows c c' s st al h = record {
  sound = record {
    known = λ n p e. rw al (s.known n p (h n p e));
    counted = λ p. rw st (s.counted p);
  };
  opens = λ p _. ≤ℤ_refl (opens_at c p) (opens_at c' p) (ap (λ f. (f p).item.opens) st);
  allocated = rw al (ground arith);
}

-- A new item takes a pointer that no item had.
pub made-Grows : (world : ℕ → Os) (c : Cache) (name : ℕ) → Sound c → Grows c (get world c name).2
unfolding get
made-Grows world c name s = elim (Option-cases (lookup name c.item)) [
  | inr (p, e) ↦ rw (e, get) (Grows-refl c s)
  | inl e ↦
      let p = c.allocated in
      let made = new_item (world p) (held c p) name in
      let zeroed = new_item-opens (world p) (held c p) name in
      let c' : Cache = record (put_held c p made) {
        item = (name, p) ∷ c.item;
        allocated = p + 1;
      } in
      let counts : (q : ℕ) → Prelude.pos 0 ≤ℤ opens_at c' q = λ q.
        elim (update_cases c.store p made q) [
          | inl (_, u) ↦ ≤ℤ_refl (Prelude.pos 0) (opens_at c' q) (ap (λ x. x.item.opens) u ∙ zeroed)
          | inr u ↦
              ≤ℤ_trans (Prelude.pos 0) (opens_at c q) (opens_at c' q) (s.counted q)
                (≤ℤ_refl (opens_at c q) (opens_at c' q) (ap (λ x. x.item.opens) u))
        ] in
      let names : (n q : ℕ) → lookup n c'.item ≡ some q → q < p + 1 = λ n q h.
        elim (ℕ_discrete n name) [
          | yes same ↦
              let found =
                sym (lookup-cons_self name p c.item)
                ∙ ap (λ k. lookup k ((name, p) ∷ c.item)) (sym same)
                ∙ h in
              ground (arith, found)
          | no other ↦
              let old = s.known n q (sym (lookup-cons_ne n name p c.item other) ∙ h) in
              ground (arith, old)
        ] in
      let keeps : (q : ℕ) → q < p → opens_at c q ≤ℤ opens_at c' q = λ q lt.
        elim (update_cases c.store p made q) [
          | inl (same, _) ↦ absurd (ground (arith, same))
          | inr u ↦ ≤ℤ_refl (opens_at c q) (opens_at c' q) (ap (λ x. x.item.opens) u)
        ] in
      rw (e, get)
        (record {
          sound = record { known = names; counted = counts };
          opens = keeps;
          allocated = ground arith;
        })
]

pub remove-Grows :
    (world : ℕ → Os) (c : Cache) (name : ℕ) → Sound c → Grows c (Cache.remove world c name).1
unfolding Cache.remove
remove-Grows world c name s = elim (Option-cases (lookup name c.item)) [
  | inl e ↦ rw (e, Cache.remove) (Grows-refl c s)
  | inr (p, e) ↦
      let cut : Cache = record c { item = delete name c.item } in
      let gone = Item.remove (world p) (held c p) in
      let calm = remove-Calm (world p) (held c p) in
      let rest = index-Grows c cut s refl refl (λ n q h. delete_known n q h) in
      rw (e, Cache.remove)
        (Grows-trans c cut (put_held cut p gone.1) rest (λ s'.
          put_held-Grows cut p gone.1 s' (≤ℤ_refl (opens_at c p) gone.1.item.opens calm.opens)))
]
  where
    delete_known : (n q : ℕ) → lookup n (delete name c.item) ≡ some q → lookup n c.item ≡ some q
    delete_known n q h = elim (ℕ_discrete n name) [
      | yes same ↦
          let none_left =
            ap (λ k. lookup k (delete name c.item)) same ∙ lookup-delete_self name c.item in
          ground (arith, h, none_left)
      | no other ↦ sym (lookup-delete_ne n name c.item other) ∙ h
    ]
