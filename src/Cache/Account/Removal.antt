-- ===== src/Cache/Account/Removal.antt =====
-- internal/cache/cache.go: an item that leaves the index.
use rclone_vfs.Prelude.{
  ℕ, ◌≡◌, refl, sym, ap, ◌∙◌, true, false, ◌||◌, List, [], ◌∷◌, arith, ◌==◌, ◌-ℤ◌, ◌+ℤ◌, delete,
  update, Bool-cases, inl, inr, clash, or_false,
}
use mathlib.Core.Path.{subst}
use rclone_vfs.Item.{State, get_disk_size}
use rclone_vfs.Cache.{sizes}
use rclone_vfs.Cache.Account.{
  has_name, has_pointer, Tidy, equal_of, update_eq, update_ne, sub_self, sub_tail, or_left,
}

delete_hit :
    (n m q : ℕ) (rest : List (ℕ × ℕ)) → (n == m) ≡ true → delete n ((m, q) ∷ rest) ≡ delete n rest
unfolding delete
delete_hit n m q rest h = ground arith

delete_miss :
    (n m q : ℕ) (rest : List (ℕ × ℕ))
    → (n == m) ≡ false
    → delete n ((m, q) ∷ rest) ≡ (m, q) ∷ delete n rest
unfolding delete
delete_miss n m q rest h = ground arith

delete_absent : (n : ℕ) (items : List (ℕ × ℕ)) → has_name n items ≡ false → delete n items ≡ items
unfolding delete has_name
delete_absent n [] h = refl
delete_absent n ((m, q) ∷ rest) h =
    let parts = or_false (n == m) (has_name n rest) h in
    delete_miss n m q rest parts.0 ∙ ap (λ r. (m, q) ∷ r) (delete_absent n rest parts.1)

-- The name of an item of a tidy index is in the index.
named :
    (store : ℕ → State) (p : ℕ) (items : List (ℕ × ℕ))
    → Tidy store items
    → has_pointer p items ≡ true
    → has_name (store p).item.name items ≡ true
unfolding has_name has_pointer
named store p [] tidy h = clash false h refl
named store p ((m, q) ∷ rest) tidy h = elim (Bool-cases (p == q)) [
  | inl t ↦
      let same : (store p).item.name ≡ m =
        ap (λ x. (store x).item.name) (equal_of p q t) ∙ tidy.0 in
      rw same (ground arith)
  | inr f ↦
      let deeper = named store p rest tidy.3 (or_left (p == q) (has_pointer p rest) h f) in
      ground (arith, deeper)
]

-- Where two items of a tidy index share a name, they are one.
first_named :
    (store : ℕ → State) (p m q : ℕ) (rest : List (ℕ × ℕ))
    → Tidy store ((m, q) ∷ rest)
    → has_pointer p rest ≡ true
    → ((store p).item.name == m) ≡ false
first_named store p m q rest tidy h = elim (Bool-cases ((store p).item.name == m)) [
  | inl t ↦
      let there = named store p rest tidy.3 h in
      clash _ there (ap (λ n. has_name n rest) (equal_of (store p).item.name m t) ∙ tidy.1)
  | inr f ↦ f
]

-- An item that is deleted takes what it had out of the sum.
pub sizes-delete :
    (store : ℕ → State) (p : ℕ) (items : List (ℕ × ℕ))
    → Tidy store items
    → has_pointer p items ≡ true
    → sizes store (delete (store p).item.name items)
      ≡ sizes store items -ℤ get_disk_size (store p).item
unfolding sizes has_pointer
sizes-delete store p [] tidy h = clash false h refl
sizes-delete store p ((m, q) ∷ rest) tidy h = elim (Bool-cases (p == q)) [
  | inl t ↦
      let same = equal_of p q t in
      let name_of : (store p).item.name ≡ m = ap (λ x. (store x).item.name) same ∙ tidy.0 in
      ap (λ r. sizes store r)
        (ap (λ n. delete n ((m, q) ∷ rest)) name_of
          ∙ delete_hit m m q rest (ground arith)
          ∙ delete_absent m rest tidy.1)
      ∙ sub_self (get_disk_size (store q).item) (sizes store rest)
      ∙ ap (λ x. (get_disk_size (store q).item +ℤ sizes store rest) -ℤ get_disk_size (store x).item)
          (sym same)
  | inr f ↦
      let deeper = or_left (p == q) (has_pointer p rest) h f in
      ap (λ r. sizes store r)
        (delete_miss (store p).item.name m q rest (first_named store p m q rest tidy deeper))
      ∙ ap (λ s. get_disk_size (store q).item +ℤ s) (sizes-delete store p rest tidy.3 deeper)
      ∙ sub_tail (get_disk_size (store q).item) (get_disk_size (store p).item) (sizes store rest)
]

pub has_name-delete :
    (n m : ℕ) (items : List (ℕ × ℕ))
    → has_name m items ≡ false
    → has_name m (delete n items) ≡ false
unfolding has_name delete
has_name-delete n m [] h = refl
has_name-delete n m ((k, q) ∷ rest) h =
    let parts = or_false (m == k) (has_name m rest) h in
    let deeper = has_name-delete n m rest parts.1 in
    elim (Bool-cases (n == k)) [
      | inl t ↦ ap (λ r. has_name m r) (delete_hit n k q rest t) ∙ deeper
      | inr f ↦
          ap (λ r. has_name m r) (delete_miss n k q rest f)
          ∙ ap (λ b. b || has_name m (delete n rest)) parts.0
          ∙ deeper
    ]

pub has_pointer-delete :
    (n p : ℕ) (items : List (ℕ × ℕ))
    → has_pointer p items ≡ false
    → has_pointer p (delete n items) ≡ false
unfolding has_pointer delete
has_pointer-delete n p [] h = refl
has_pointer-delete n p ((k, q) ∷ rest) h =
    let parts = or_false (p == q) (has_pointer p rest) h in
    let deeper = has_pointer-delete n p rest parts.1 in
    elim (Bool-cases (n == k)) [
      | inl t ↦ ap (λ r. has_pointer p r) (delete_hit n k q rest t) ∙ deeper
      | inr f ↦
          ap (λ r. has_pointer p r) (delete_miss n k q rest f)
          ∙ ap (λ b. b || has_pointer p (delete n rest)) parts.0
          ∙ deeper
    ]

pub delete-Tidy :
    (store : ℕ → State) (n : ℕ) (items : List (ℕ × ℕ))
    → Tidy store items
    → Tidy store (delete n items)
unfolding delete
delete-Tidy store n [] tidy = tt
delete-Tidy store n ((k, q) ∷ rest) tidy =
    let deeper = delete-Tidy store n rest tidy.3 in
    elim (Bool-cases (n == k)) [
      | inl t ↦ subst (λ r. Tidy store r) (sym (delete_hit n k q rest t)) deeper
      | inr f ↦
          subst (λ r. Tidy store r) (sym (delete_miss n k q rest f))
            (tidy.0, has_name-delete n k rest tidy.1, has_pointer-delete n q rest tidy.2, deeper)
    ]

pub update-Tidy :
    (store : ℕ → State) (p : ℕ) (st : State) (items : List (ℕ × ℕ))
    → st.item.name ≡ (store p).item.name
    → Tidy store items
    → Tidy (update store p st) items
update-Tidy store p st [] e tidy = tt
update-Tidy store p st ((m, q) ∷ rest) e tidy =
    let deeper = update-Tidy store p st rest e tidy.3 in
    let name_of : (update store p st q).item.name ≡ m = elim (Bool-cases (p == q)) [
      | inl t ↦
          ap (λ x. x.item.name) (update_eq store p q st t)
          ∙ e
          ∙ ap (λ x. (store x).item.name) (equal_of p q t)
          ∙ tidy.0
      | inr f ↦ ap (λ x. x.item.name) (update_ne store p q st f) ∙ tidy.0
    ] in
    (name_of, tidy.1, tidy.2, deeper)

-- The deleted item is gone, and the others stay.
pub gone :
    (store : ℕ → State) (p : ℕ) (items : List (ℕ × ℕ))
    → Tidy store items
    → has_pointer p items ≡ true
    → has_pointer p (delete (store p).item.name items) ≡ false
unfolding has_pointer
gone store p [] tidy h = clash false h refl
gone store p ((m, q) ∷ rest) tidy h = elim (Bool-cases (p == q)) [
  | inl t ↦
      let same = equal_of p q t in
      let name_of : (store p).item.name ≡ m = ap (λ x. (store x).item.name) same ∙ tidy.0 in
      ap (λ r. has_pointer p r)
        (ap (λ n. delete n ((m, q) ∷ rest)) name_of
          ∙ delete_hit m m q rest (ground arith)
          ∙ delete_absent m rest tidy.1)
      ∙ ap (λ x. has_pointer x rest) same
      ∙ tidy.2
  | inr f ↦
      let deeper = or_left (p == q) (has_pointer p rest) h f in
      ap (λ r. has_pointer p r)
        (delete_miss (store p).item.name m q rest (first_named store p m q rest tidy deeper))
      ∙ ap (λ b. b || has_pointer p (delete (store p).item.name rest)) f
      ∙ gone store p rest tidy.3 deeper
]

pub stays :
    (store : ℕ → State) (p r : ℕ) (items : List (ℕ × ℕ))
    → Tidy store items
    → has_pointer p items ≡ true
    → has_pointer r items ≡ true
    → (p == r) ≡ false
    → has_pointer r (delete (store p).item.name items) ≡ true
unfolding has_pointer
stays store p r [] tidy h k ne = clash false h refl
stays store p r ((m, q) ∷ rest) tidy h k ne = elim (Bool-cases (p == q)) [
  | inl t ↦
      let same = equal_of p q t in
      let name_of : (store p).item.name ≡ m = ap (λ x. (store x).item.name) same ∙ tidy.0 in
      let other : (r == q) ≡ false = ground arith in
      ap (λ z. has_pointer r z)
        (ap (λ n. delete n ((m, q) ∷ rest)) name_of
          ∙ delete_hit m m q rest (ground arith)
          ∙ delete_absent m rest tidy.1)
      ∙ or_left (r == q) (has_pointer r rest) k other
  | inr f ↦
      let deeper = or_left (p == q) (has_pointer p rest) h f in
      ap (λ z. has_pointer r z)
        (delete_miss (store p).item.name m q rest (first_named store p m q rest tidy deeper))
      ∙ elim (Bool-cases (r == q)) [
        | inl t ↦ ap (λ b. b || has_pointer r (delete (store p).item.name rest)) t
        | inr g ↦
            ap (λ b. b || has_pointer r (delete (store p).item.name rest)) g
            ∙ stays store p r rest tidy.3 deeper (or_left (r == q) (has_pointer r rest) k g) ne
      ]
]
