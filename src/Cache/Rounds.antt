-- ===== src/Cache/Rounds.antt =====
-- internal/cache/cache.go: what a round of the cleaner leaves alone.
use rclone_vfs.Prelude.{
  update_cases, ℕ, ◌+◌, ◌≡◌, refl, sym, ap, ◌∙◌, Bool, true, false, not, Option, none, some, List,
  [], ◌∷◌, arith, if◌then◌else◌, ◌==◌, ℤ, ◌-ℤ◌, delete, update, Bool-cases, Option-cases, inl, inr,
  lookup, ◌⊎◌, ℕ_discrete,
}
use rclone_vfs.Prelude
use mathlib.Core.Path.{subst}
use rclone_vfs.Item.{ItemError, State, Os, in_use}
use rclone_vfs.Item.Life.Resets.{remove_not_in_use, reset, is_removed}
use rclone_vfs.Item.Life.Safe.Cleaner.{remove_not_in_use-Reclaimed, reset-Reclaimed}
use rclone_vfs.Cache.{
  Cache, Options, held, put_held, reclaim, remove_item_not_in_use, update_used, select, quotas_ok,
  release, purge_old_loop, purge_old, purge_over_loop, purge_over_quota, reset_item,
  purge_clean_loop, purge_clean, retry_loop, retry_failed_resets, purges, clean, have_quotas,
}

-- Two states of an item that differ in the write-back queue at most.
pub record SameFile (st st' : State) : Type 0 where
  pub item : st'.item ≡ st.item
  pub path : st'.path ≡ st.path
  pub meta : st'.meta ≡ st.meta
  pub inodes : st'.inodes ≡ st.inodes

-- The items with changes are left as they are.
abbrev pub Keeps : (ℕ → State) → (ℕ → State) → Type 0
Keeps store store' = (q : ℕ) → (store q).item.info.dirty ≡ true → SameFile (store q) (store' q)

Keeps-refl : (store : ℕ → State) → Keeps store store
Keeps-refl store q h = record { item = refl; path = refl; meta = refl; inodes = refl }

Keeps-trans : (a b c : ℕ → State) → Keeps a b → Keeps b c → Keeps a c
Keeps-trans a b c f g q h =
    let first = f q h in
    let second = g q (ap (λ i. i.info.dirty) first.item ∙ h) in
    record {
      item = second.item ∙ first.item;
      path = second.path ∙ first.path;
      meta = second.meta ∙ first.meta;
      inodes = second.inodes ∙ first.inodes;
    }

equal-SameFile : (a b : State) → b ≡ a → SameFile a b
equal-SameFile a b e = record {
  item = ap (λ st. st.item) e;
  path = ap (λ st. st.path) e;
  meta = ap (λ st. st.meta) e;
  inodes = ap (λ st. st.inodes) e;
}

held-SameFile : (c : Cache) (p : ℕ) (st : State) → st ≡ held c p → SameFile (c.store p) st
held-SameFile c p st e = record {
  item = ap (λ st. st.item) e;
  path = ap (λ st. st.path) e;
  meta = ap (λ st. st.meta) e;
  inodes = ap (λ st. st.inodes) e;
}

put_held-Keeps :
    (c : Cache) (p : ℕ) (st : State)
    → ((c.store p).item.info.dirty ≡ true → st ≡ held c p)
    → Keeps c.store (put_held c p st).store
put_held-Keeps c p st h q d = elim (update_cases c.store p st q) [
  | inl (e, u) ↦
      let at_p = held-SameFile c p st (h (ap (λ x. (c.store x).item.info.dirty) (sym e) ∙ d)) in
      let there = equal-SameFile st (update c.store p st q) u in
      let here = equal-SameFile (c.store q) (c.store p) (ap c.store (sym e)) in
      record {
        item = there.item ∙ at_p.item ∙ here.item;
        path = there.path ∙ at_p.path ∙ here.path;
        meta = there.meta ∙ at_p.meta ∙ here.meta;
        inodes = there.inodes ∙ at_p.inodes ∙ here.inodes;
      }
  | inr u ↦ equal-SameFile (c.store q) (update c.store p st q) u
]

if-Keeps :
    (store : ℕ → State) (b : Bool) (x y : Cache)
    → Keeps store x.store
    → Keeps store y.store
    → Keeps store (if b then x else y).store
if-Keeps store true x y v w = v
if-Keeps store false x y v w = w

reclaim-store :
    (c : Cache) (p : ℕ) (removed : Bool) (freed : ℤ) (st : State)
    → (reclaim c p removed freed st).store ≡ (put_held c p st).store
unfolding reclaim
reclaim-store c p true freed st = refl
reclaim-store c p false freed st = refl

reclaim-Keeps :
    (c : Cache) (p : ℕ) (removed : Bool) (freed : ℤ) (st : State)
    → ((c.store p).item.info.dirty ≡ true → st ≡ held c p)
    → Keeps c.store (reclaim c p removed freed st).store
reclaim-Keeps c p removed freed st h =
    subst (λ s. Keeps c.store s) (sym (reclaim-store c p removed freed st))
      (put_held-Keeps c p st h)

remove_item_not_in_use-Keeps :
    (world : ℕ → Os) (c : Cache) (p : ℕ) (max_age : ℤ) (empty_only : Bool)
    → Keeps c.store (remove_item_not_in_use world c p max_age empty_only).store
unfolding remove_item_not_in_use
remove_item_not_in_use-Keeps world c p max_age empty_only =
    let out = remove_not_in_use (world p) (held c p) max_age empty_only in
    reclaim-Keeps c p out.0 out.1 out.2
      (remove_not_in_use-Reclaimed (world p) (held c p) max_age empty_only).reclaimed.dirty

module _ (sort : (ℕ → State) → List ℕ → List ℕ) (avail : List (ℕ × ℕ) → Option ℤ)
    (no_space : ItemError → Bool) (opt : Options) (world : ℕ → Os) where
  purge_old_loop-Keeps :
      (c : Cache) (ps : List ℕ)
      → Keeps c.store (purge_old_loop sort avail no_space opt world c ps).store
  unfolding purge_old_loop
  purge_old_loop-Keeps c [] = Keeps-refl c.store
  purge_old_loop-Keeps c (p ∷ ps) =
      let next = remove_item_not_in_use world c p opt.cache_max_age false in
      Keeps-trans c.store next.store _
        (remove_item_not_in_use-Keeps world c p opt.cache_max_age false)
        (purge_old_loop-Keeps next ps)

  purge_over_loop-Keeps :
      (c : Cache) (ps : List ℕ)
      → Keeps c.store (purge_over_loop sort avail no_space opt world c ps).store
  unfolding purge_over_loop
  purge_over_loop-Keeps c [] = Keeps-refl c.store
  purge_over_loop-Keeps c (p ∷ ps) =
      let empty_only = quotas_ok sort avail no_space opt world c in
      let next = remove_item_not_in_use world c p (Prelude.pos 0) empty_only in
      Keeps-trans c.store next.store _
        (remove_item_not_in_use-Keeps world c p (Prelude.pos 0) empty_only)
        (purge_over_loop-Keeps next ps)

  reset_item-store :
      (c : Cache) (p : ℕ)
      → (reset_item sort avail no_space opt world c p).store
        ≡ (put_held c p (reset no_space (world p) (held c p)).state).store
  unfolding reset_item
  reset_item-store c p =
      let out = reset no_space (world p) (held c p) in
      let same = reclaim-store c p (is_removed out.result) out.freed out.state in
      elim (Option-cases out.err) [
        | inl e ↦ rw (e, reset_item) same
        | inr (x, e) ↦ rw (e, reset_item) same
      ]

  reset_item-Keeps :
      (c : Cache) (p : ℕ) → Keeps c.store (reset_item sort avail no_space opt world c p).store
  reset_item-Keeps c p =
      subst (λ s. Keeps c.store s) (sym (reset_item-store c p))
        (put_held-Keeps c p (reset no_space (world p) (held c p)).state
          (reset-Reclaimed no_space (world p) (held c p)).dirty)

  purge_clean_loop-Keeps :
      (c : Cache) (ps : List ℕ)
      → Keeps c.store (purge_clean_loop sort avail no_space opt world c ps).store
  unfolding purge_clean_loop
  purge_clean_loop-Keeps c [] = Keeps-refl c.store
  purge_clean_loop-Keeps c (p ∷ ps) =
      let next = reset_item sort avail no_space opt world c p in
      if-Keeps c.store (quotas_ok sort avail no_space opt world c) c
        (purge_clean_loop sort avail no_space opt world next ps) (Keeps-refl c.store)
        (Keeps-trans c.store next.store _ (reset_item-Keeps c p) (purge_clean_loop-Keeps next ps))

  retry_step-Keeps :
      (c : Cache) (p : ℕ) (errs : List (ℕ × ItemError)) (b : Bool)
      → let done = put_held c p (reset no_space (world p) (held c p)).state in
        let next : Cache = if b then done else record done { err_items = errs } in
        Keeps c.store next.store
  retry_step-Keeps c p errs true =
      put_held-Keeps c p (reset no_space (world p) (held c p)).state
        (reset-Reclaimed no_space (world p) (held c p)).dirty
  retry_step-Keeps c p errs false =
      put_held-Keeps c p (reset no_space (world p) (held c p)).state
        (reset-Reclaimed no_space (world p) (held c p)).dirty

  retry_loop-Keeps :
      (c : Cache) (errs : List (ℕ × ItemError))
      → Keeps c.store (retry_loop sort avail no_space opt world c errs).store
  unfolding retry_loop
  retry_loop-Keeps c [] = Keeps-refl c.store
  retry_loop-Keeps c ((name, old) ∷ rest) = elim (Option-cases (lookup name c.item)) [
    | inl e ↦
        rw (e, retry_loop)
          (retry_loop-Keeps (record c { err_items = delete name c.err_items }) rest)
    | inr (p, e) ↦
        let out = reset no_space (world p) (held c p) in
        let done = put_held c p out.state in
        let kept : Bool = elim out.err [ none ↦ false | some e ↦ no_space e ] in
        let next : Cache =
          if kept then done else record done { err_items = delete name c.err_items } in
        rw (e, retry_loop)
          (Keeps-trans c.store next.store _ (retry_step-Keeps c p (delete name c.err_items) kept)
            (retry_loop-Keeps next rest))
  ]

  purge_old-Keeps : (c : Cache) → Keeps c.store (purge_old sort avail no_space opt world c).store
  unfolding purge_old release
  purge_old-Keeps c =
      let kept = purge_old_loop-Keeps c (select (λ st. true) c.store c.item) in
      let purged =
        purge_old_loop sort avail no_space opt world c (select (λ st. true) c.store c.item) in
      if-Keeps c.store (quotas_ok sort avail no_space opt world purged)
        (record purged { out_of_space = false }) purged kept kept

  purge_over_quota-Keeps :
      (c : Cache) → Keeps c.store (purge_over_quota sort avail no_space opt world c).store
  unfolding purge_over_quota release update_used
  purge_over_quota-Keeps c =
      let counted = update_used c in
      let unused =
        sort counted.store (select (λ st. not (in_use st.item)) counted.store counted.item) in
      let kept = purge_over_loop-Keeps counted unused in
      let purged = purge_over_loop sort avail no_space opt world counted unused in
      if-Keeps c.store (quotas_ok sort avail no_space opt world counted) counted _
        (Keeps-refl c.store)
        (if-Keeps c.store (quotas_ok sort avail no_space opt world purged)
          (record purged { out_of_space = false }) purged kept kept)

  purge_clean-Keeps :
      (c : Cache) → Keeps c.store (purge_clean sort avail no_space opt world c).store
  unfolding purge_clean release
  purge_clean-Keeps c =
      let unchanged = sort c.store (select (λ st. not st.item.info.dirty) c.store c.item) in
      let purged = purge_clean_loop sort avail no_space opt world c unchanged in
      if-Keeps c.store (quotas_ok sort avail no_space opt world c) c
        (record purged { out_of_space = false }) (Keeps-refl c.store)
        (purge_clean_loop-Keeps c unchanged)

  purges-Keeps : (c : Cache) → Keeps c.store (purges sort avail no_space opt world c).store
  unfolding purges update_used
  purges-Keeps c =
      let old = purge_old sort avail no_space opt world (update_used c) in
      let over = purge_over_quota sort avail no_space opt world old in
      let first = purge_old-Keeps (update_used c) in
      if-Keeps c.store (have_quotas sort avail no_space opt world)
        (purge_clean sort avail no_space opt world over) old
        (Keeps-trans c.store old.store _ first (
          Keeps-trans old.store over.store _ (purge_over_quota-Keeps old) (purge_clean-Keeps over)))
        first

  -- A round of the cleaner, whatever it is asked and the world answers, leaves every item with
  -- changes as it is: the item itself, its file and its metadata.
  pub clean-Keeps :
      (c : Cache) (root_exists kicked : Bool)
      → Keeps c.store (clean sort avail no_space opt world c root_exists kicked).store
  unfolding clean retry_failed_resets
  clean-Keeps c root_exists kicked =
      let purged = purges sort avail no_space opt world c in
      let retried = retry_failed_resets sort avail no_space opt world purged in
      let done : Cache = if have_quotas sort avail no_space opt world then retried else purged in
      let kept =
        if-Keeps c.store (have_quotas sort avail no_space opt world) retried purged
          (Keeps-trans c.store purged.store _ (purges-Keeps c)
            (retry_loop-Keeps purged purged.err_items))
          (purges-Keeps c) in
      if-Keeps c.store (not root_exists) c _ (Keeps-refl c.store)
        (if-Keeps c.store kicked (record done { cleaner_kicked = false }) done kept kept)
