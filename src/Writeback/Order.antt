-- ===== src/Writeback/Order.antt =====
-- The order of the write-back queue, and that its front is the item that is due first.
use rclone_vfs.Prelude.{
  ℕ, ◌<◌, ◌≡◌, ◌⊎◌, inl, inr, true, false, some, List, [], ◌∷◌, arith, Bool-cases, count,
  ℕ_discrete,
}
use mathlib.Core.Path.{subst}
use rclone_vfs.Writeback.{WbItem, WriteBack, less, least, top, peek_item}

less-trans_not : (a b c : WbItem) → less a b ≡ false → less b c ≡ false → less a c ≡ false
unfolding less
less-trans_not a b c h k = ground arith

less-asymm : (a b : WbItem) → less a b ≡ true → less b a ≡ false
unfolding less
less-asymm a b h = ground arith

less_irrefl : (a : WbItem) → less a a ≡ false
unfolding less
less_irrefl a = ground arith

-- The pointer `m` is on the heap and nothing on it is due before `m`.
pub record IsFront (store : ℕ → WbItem) (heap : List ℕ) (m : ℕ) : Type 0 where
  pub inside : 0 < count m heap
  pub first : (q : ℕ) → 0 < count q heap → less (store q) (store m) ≡ false

-- Of two pointers the one that is due later may be dropped.
earlier_of_two :
    (store : ℕ → WbItem) (k d : ℕ) (qs : List ℕ) (m r : ℕ)
    → IsFront store (k ∷ qs) m
    → less (store d) (store k) ≡ false
    → (r ≡ d) ⊎ (0 < count r (k ∷ qs))
    → less (store r) (store m) ≡ false
unfolding count
earlier_of_two store k d qs m r f late (inr h) = f.first r h
earlier_of_two store k d qs m r f late (inl e) =
    rw e (less-trans_not (store d) (store k) (store m) late (f.first k (ground arith)))

counted_in :
    (p q : ℕ) (qs : List ℕ) (r : ℕ)
    → 0 < count r (p ∷ q ∷ qs)
    → ((r ≡ p) ⊎ (0 < count r (q ∷ qs))) × ((r ≡ q) ⊎ (0 < count r (p ∷ qs)))
unfolding count
counted_in p q qs r h = elim (ℕ_discrete r p) [
  | yes e ↦ elim (ℕ_discrete r q) [ yes f ↦ (inl e, inl f) | no n ↦ (inl e, inr (ground arith)) ]
  | no n ↦ elim (ℕ_discrete r q) [
    | yes f ↦ (inr (ground arith), inl f)
    | no k ↦ (inr (ground arith), inr (ground arith))
  ]
]

count_more :
    (p q : ℕ) (qs : List ℕ) (m : ℕ)
    → (0 < count m (q ∷ qs) → 0 < count m (p ∷ q ∷ qs))
      × (0 < count m (p ∷ qs) → 0 < count m (p ∷ q ∷ qs))
unfolding count
count_more p q qs m = (λ h. ground arith, λ h. ground arith)

only : (store : ℕ → WbItem) (p q : ℕ) → q ≡ p → less (store q) (store p) ≡ false
only store p q e = rw e (less_irrefl (store p))

least-IsFront :
    (store : ℕ → WbItem) (p : ℕ) (ps : List ℕ) → IsFront store (p ∷ ps) (least store p ps)
unfolding least
least-IsFront store p [] = record {
  inside = unfold count in ground arith;
  first = λ q h. only store p q (unfold count in ground arith);
}
least-IsFront store p (q ∷ qs) = elim (Bool-cases (less (store q) (store p))) [
  | inl e ↦
      let f = least-IsFront store q qs in
      rw e (record {
        inside = (count_more p q qs (least store q qs)).0 f.inside;
        first = λ r h.
            earlier_of_two store q p qs (least store q qs) r f (less-asymm (store q) (store p) e)
              (counted_in p q qs r h).0;
      })
  | inr e ↦
      let f = least-IsFront store p qs in
      rw e (record {
        inside = (count_more p q qs (least store p qs)).1 f.inside;
        first =
            λ r h. earlier_of_two store p q qs (least store p qs) r f e (counted_in p q qs r h).1;
      })
]

top_first :
    (store : ℕ → WbItem) (items : List ℕ) {p : ℕ} → top store items ≡ some p → IsFront store items p
unfolding top
top_first store [] e = cc
top_first store (q ∷ qs) {p} e =
    let same : least store q qs ≡ p = cc in
    subst (λ z. IsFront store (q ∷ qs) z) same (least-IsFront store q qs)

-- The item that the queue hands out next is on the heap, and no item on the heap is due before it;
-- of items due at the same time the one with the lower handle goes first.
pub peek_item-IsFront :
    (wb : WriteBack) {p : ℕ} → peek_item wb ≡ some p → IsFront wb.store wb.items p
peek_item-IsFront wb e = top_first wb.store wb.items (unfold peek_item in e)
