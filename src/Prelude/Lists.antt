-- ===== src/Prelude/Lists.antt =====
-- Lists measured and indexed by native numbers, under the library's names.
use Prim.Native.Nat.{ℕ, zero, suc, ◌+◌, ◌-◌, ◌<◌, min, compare, Ordering}
use mathlib.Core.Path.{◌≡◌, refl, ap, sym, ◌∙◌}
use mathlib.Core.Logic.{◌≢◌, ◌⊎◌, inl, inr}
use native.Mathlib.Decide.{ℕ_discrete}
use mathlib.Core.List.{List, [], ◌∷◌, ◌++◌, map}
use mathlib.Core.Option.{Option, none, some}
use native.Mathlib.Omega.{arith}

module _ {ℓ} {A : Type ℓ} where
  abbrev pub length : List A → ℕ
  length [] = 0
  length (x ∷ xs) = suc (length xs)

  abbrev pub get_elem? : List A → ℕ → Option A
  get_elem? [] i = none
  get_elem? (x ∷ xs) zero = some x
  get_elem? (x ∷ xs) (suc i) = get_elem? xs i

  -- A write out of bounds changes nothing.
  abbrev pub set : List A → ℕ → A → List A
  set [] i v = []
  set (x ∷ xs) zero v = v ∷ xs
  set (x ∷ xs) (suc i) v = x ∷ set xs i v

  pub length-append : (xs ys : List A) → length (xs ++ ys) ≡ length xs + length ys
  length-append [] ys = omega arith
  length-append (x ∷ xs) ys = omega (arith, length-append xs ys)

module _ {ℓ} {A : Type ℓ} where
  pub length-set : (xs : List A) (i : ℕ) (v : A) → length (set xs i v) ≡ length xs
  length-set [] i v = refl
  length-set (x ∷ xs) zero v = refl
  length-set (x ∷ xs) (suc i) v = ap suc (length-set xs i v)

  pub get_elem?-set_self :
      (xs : List A) (i : ℕ) (v : A) → i < length xs → get_elem? (set xs i v) i ≡ some v
  get_elem?-set_self [] i v h = elim h [ ]
  get_elem?-set_self (x ∷ xs) zero v h = refl
  get_elem?-set_self (x ∷ xs) (suc i) v h = get_elem?-set_self xs i v (omega arith)

  pub get_elem?-set_ne :
      (xs : List A) {i j : ℕ} (v : A) → i ≢ j → get_elem? (set xs i v) j ≡ get_elem? xs j
  get_elem?-set_ne [] v h = refl
  get_elem?-set_ne (x ∷ xs) {i = zero} {j = zero} v h = absurd (h refl)
  get_elem?-set_ne (x ∷ xs) {i = zero} {j = suc j} v h = refl
  get_elem?-set_ne (x ∷ xs) {i = suc i} {j = zero} v h = refl
  get_elem?-set_ne (x ∷ xs) {i = suc i} {j = suc j} v h = get_elem?-set_ne xs v (λ e. h (ap suc e))

module _ {ℓ} {A : Type ℓ} where
  abbrev pub get_or : List A → ℕ → A → A
  get_or [] i d = d
  get_or (x ∷ xs) zero d = x
  get_or (x ∷ xs) (suc i) d = get_or xs i d

  abbrev pub take : ℕ → List A → List A
  take zero xs = []
  take (suc n) [] = []
  take (suc n) (x ∷ xs) = x ∷ take n xs

  abbrev pub drop : ℕ → List A → List A
  drop zero xs = xs
  drop (suc n) [] = []
  drop (suc n) (x ∷ xs) = drop n xs

  abbrev pub replicate : ℕ → A → List A
  replicate zero a = []
  replicate (suc n) a = a ∷ replicate n a

  pub take-append-drop : (n : ℕ) (xs : List A) → take n xs ++ drop n xs ≡ xs
  take-append-drop zero xs = refl
  take-append-drop (suc n) [] = refl
  take-append-drop (suc n) (x ∷ xs) = rw (take-append-drop n xs)

  pub length-take : (n : ℕ) (xs : List A) → length (take n xs) ≡ min n (length xs)
  length-take zero xs = omega arith
  length-take (suc n) [] = omega arith
  length-take (suc n) (x ∷ xs) = omega (arith, length-take n xs)

  pub length-drop : (n : ℕ) (xs : List A) → length (drop n xs) ≡ length xs - n
  length-drop zero xs = omega arith
  length-drop (suc n) [] = omega arith
  length-drop (suc n) (x ∷ xs) = omega (arith, length-drop n xs)

  pub length-replicate : (n : ℕ) (a : A) → length (replicate n a) ≡ n
  length-replicate zero a = refl
  length-replicate (suc n) a = ap suc (length-replicate n a)

  pub length-map {κ} : {B : Type κ} (xs : List A) (f : A → B) → length (map f xs) ≡ length xs
  length-map [] f = refl
  length-map (x ∷ xs) f = ap suc (length-map xs f)

  pub get_or-append : (xs ys : List A) (y d : A) → get_or (xs ++ y ∷ ys) (length xs) d ≡ y
  get_or-append [] ys y d = refl
  get_or-append (x ∷ xs) ys y d = get_or-append xs ys y d

  pub get_or-append_suc :
      (xs ys : List A) (y z d : A) → get_or (xs ++ y ∷ z ∷ ys) (suc (length xs)) d ≡ z
  get_or-append_suc [] ys y z d = refl
  get_or-append_suc (x ∷ xs) ys y z d = get_or-append_suc xs ys y z d

  pub set-append : (xs ys : List A) (y v : A) → set (xs ++ y ∷ ys) (length xs) v ≡ xs ++ v ∷ ys
  set-append [] ys y v = refl
  set-append (x ∷ xs) ys y v = ap (λ l. x ∷ l) (set-append xs ys y v)

  pub set-append_suc :
      (xs ys : List A) (y z v : A) → set (xs ++ y ∷ z ∷ ys) (suc (length xs)) v ≡ xs ++ y ∷ v ∷ ys
  set-append_suc [] ys y z v = refl
  set-append_suc (x ∷ xs) ys y z v = ap (λ l. x ∷ l) (set-append_suc xs ys y z v)

  pub take-append : (xs ys : List A) → take (length xs) (xs ++ ys) ≡ xs
  take-append [] ys = refl
  take-append (x ∷ xs) ys = ap (λ l. x ∷ l) (take-append xs ys)

  pub drop-append : (xs ys : List A) → drop (length xs) (xs ++ ys) ≡ ys
  drop-append [] ys = refl
  drop-append (x ∷ xs) ys = drop-append xs ys

  pub take-append_suc :
      (xs ys : List A) (y : A) → take (suc (length xs)) (xs ++ y ∷ ys) ≡ xs ++ y ∷ []
  take-append_suc [] ys y = refl
  take-append_suc (x ∷ xs) ys y = ap (λ l. x ∷ l) (take-append_suc xs ys y)

  pub drop-append_suc : (xs ys : List A) (y : A) → drop (suc (length xs)) (xs ++ y ∷ ys) ≡ ys
  drop-append_suc [] ys y = refl
  drop-append_suc (x ∷ xs) ys y = drop-append_suc xs ys y

-- A map from numbers as a function, and a write into it.
abbrev pub update {ℓ} : {A : Type ℓ} → (ℕ → A) → ℕ → A → ℕ → A
update f k v j = elim (compare j k) [ Ordering.eq ↦ v | _ ↦ f j ]

-- An updated function at a key, or at another.
pub update_cases {ℓ} :
    {A : Type ℓ} (f : ℕ → A) (k : ℕ) (v : A) (j : ℕ)
    → ((j ≡ k) × (update f k v j ≡ v)) ⊎ (update f k v j ≡ f j)
update_cases f k v j = elim (ℕ_discrete j k) [
  | yes e ↦ inl (e, ground arith)
  | no n ↦ inr (ground arith)
]

-- How often a number stands in a list.
unfoldable pub count : ℕ → List ℕ → ℕ
count q [] = 0
count q (p ∷ ps) = elim (compare q p) [ Ordering.eq ↦ suc (count q ps) | _ ↦ count q ps ]

-- The list without the first occurrence of a number.
unfoldable pub erase : ℕ → List ℕ → List ℕ
erase q [] = []
erase q (p ∷ ps) = elim (compare q p) [ Ordering.eq ↦ ps | _ ↦ p ∷ erase q ps ]

pub count-append : (q : ℕ) (xs ys : List ℕ) → count q (xs ++ ys) ≡ count q xs + count q ys
unfolding count
count-append q [] ys = omega arith
count-append q (x ∷ xs) ys = ground (arith, count-append q xs ys)

pub count-single : (q p : ℕ) → count q (p ∷ []) ≡ elim (compare q p) [ Ordering.eq ↦ 1 | _ ↦ 0 ]
unfolding count
count-single q p = ground arith

pub count-erase_self : (q : ℕ) (xs : List ℕ) → count q (erase q xs) ≡ count q xs - 1
unfolding count erase
count-erase_self q [] = omega arith
count-erase_self q (x ∷ xs) = ground (arith, count-erase_self q xs)

pub count-erase_ne : (q p : ℕ) (xs : List ℕ) → q ≢ p → count q (erase p xs) ≡ count q xs
unfolding count erase
count-erase_ne q p [] h = refl
count-erase_ne q p (x ∷ xs) h = ground (arith, count-erase_ne q p xs h)

-- A map as an association list, the newest entry first.
module _ {ℓ} {V : Type ℓ} where
  unfoldable pub lookup : ℕ → List (ℕ × V) → Option V
  lookup k [] = none
  lookup k ((j, v) ∷ m) = elim (compare k j) [ Ordering.eq ↦ some v | _ ↦ lookup k m ]

  -- Go's `delete`: no entry is left.
  unfoldable pub delete : ℕ → List (ℕ × V) → List (ℕ × V)
  delete k [] = []
  delete k ((j, v) ∷ m) = elim (compare k j) [ Ordering.eq ↦ delete k m | _ ↦ (j, v) ∷ delete k m ]

  pub lookup-delete_self : (k : ℕ) (m : List (ℕ × V)) → lookup k (delete k m) ≡ none
  unfolding lookup delete
  lookup-delete_self k [] = refl
  lookup-delete_self k ((j, v) ∷ m) = ground (arith, lookup-delete_self k m)

  pub lookup-delete_ne : (k j : ℕ) (m : List (ℕ × V)) → k ≢ j → lookup k (delete j m) ≡ lookup k m
  unfolding lookup delete
  lookup-delete_ne k j [] h = refl
  lookup-delete_ne k j ((i, v) ∷ m) h = ground (arith, lookup-delete_ne k j m h)

  pub lookup-cons_self : (k : ℕ) (v : V) (m : List (ℕ × V)) → lookup k ((k, v) ∷ m) ≡ some v
  unfolding lookup
  lookup-cons_self k v m = ground arith

  pub lookup-cons_ne :
      (k j : ℕ) (v : V) (m : List (ℕ × V)) → k ≢ j → lookup k ((j, v) ∷ m) ≡ lookup k m
  unfolding lookup
  lookup-cons_ne k j v m h = ground arith

  -- What a map with a new entry holds is that entry, or it was there before.
  pub lookup_new :
      (k j : ℕ) (v w : V) (m : List (ℕ × V))
      → lookup k ((j, v) ∷ delete j m) ≡ some w
      → ((k ≡ j) × (some v ≡ some w)) ⊎ (lookup k m ≡ some w)
  lookup_new k j v w m h = elim (ℕ_discrete k j) [
    | yes e ↦ inl (
      e,
      sym (lookup-cons_self j v (delete j m))
          ∙ ap (λ z. lookup z ((j, v) ∷ delete j m)) (sym e)
          ∙ h,
    )
    | no n ↦ inr (sym (lookup-delete_ne k j m n) ∙ sym (lookup-cons_ne k j v (delete j m) n) ∙ h)
  ]
