-- ===== src/Engine/Leaks.antt =====
-- An item that OpenCached has opened stays open.
use rclone_vfs.Prelude.{
  ℕ, ◌+◌, ◌≤◌, ◌<◌, ◌≡◌, refl, sym, ap, ◌∙◌, inl, inr, Bool, true, false, Option, none, some, List,
  [], arith, if◌then◌else◌, ◌==◌, ℤ, ◌+ℤ◌, ◌≤ℤ◌, Bool-cases, Option-cases, lookup, update_cases,
  clash, +ℤ_parts,
}
use rclone_vfs.Prelude
use mathlib.Core.Option.{some-injective}
use rclone_vfs.Item.{ItemError, RemoteObject, State, Os, accessed}
use rclone_vfs.Item.Data.{read_at}
use rclone_vfs.Item.Life.{open'}
use rclone_vfs.Item.Life.Resets.{remove_not_in_use}
use rclone_vfs.Item.Life.Counted.{
  Quiet, ≤ℤ_refl, ≤ℤ_trans, open'-Opening, read_at-opens, accessed-opens, remove_not_in_use-opened,
}
use rclone_vfs.Cache.{Cache, held, put_held, get}
use rclone_vfs.Engine.{
  Engine, err_closed, advanced, of_item_err, Handle, opened, open_item, dir_stat, open_file,
  node_and_open, open_cached, remove, handle_read_at, handle_read, HandleRead,
}
use rclone_vfs.Engine.Held.{
  Sound, Grows, Grows-refl, Grows-trans, opens_at, put_held-Grows, made-Grows, remove-Grows,
}
use rclone_vfs.Engine.Calls.{
  dir_stat-Grows, open_file-Grows, open_item-Grows, node_and_open-Grows, open_cached-Grows,
}

handle_read_at-Grows :
    (world : ℕ → Os) (e : Engine) (h : Handle) (n : ℕ) (off : ℤ)
    (out : (List ℕ × Option ItemError) × Engine)
    → ((p : ℕ) → Quiet (world p))
    → Sound e.cache
    → handle_read_at world e h n off ≡ some out
    → Grows e.cache out.1.cache
unfolding handle_read_at
handle_read_at-Grows world e h n off out q s eq =
    by_read (accessed (λ st. read_at (world got.0) st n off) (held got.2 got.0)) refl eq
  where
    got : ℕ × Bool × Cache
    got = get world e.cache h.f.name

    by_read :
        (o : Option ((List ℕ × Option ItemError) × State))
        → accessed (λ st. read_at (world got.0) st n off) (held got.2 got.0) ≡ o
        → (let all : Option ((List ℕ × Option ItemError) × Engine) = elim o [
          | none ↦ none
          | some r ↦ some (r.0, record e { cache = put_held got.2 got.0 r.1 })
        ] in
            all ≡ some out)
        → Grows e.cache out.1.cache
    by_read none b k = ground arith
    by_read (some r) b k =
        let same =
          accessed-opens (λ st. read_at (world got.0) st n off) (held got.2 got.0) r
            (λ st. read_at-opens (world got.0) st n off (q got.0)) b in
        let put = put_held got.2 got.0 r.1 in
        let to = some-injective (r.0, record e { cache = put }) out k in
        rw (sym (ap (λ x. x.1.cache) to)) (
          Grows-trans e.cache got.2 put (made-Grows world e.cache h.f.name s) (λ s'.
            put_held-Grows got.2 got.0 r.1 s' (≤ℤ_refl (opens_at got.2 got.0) r.1.item.opens same)))

handle_read-Grows :
    (world : ℕ → Os) (e : Engine) (h : Handle) (n : ℕ) (out : HandleRead)
    → ((p : ℕ) → Quiet (world p))
    → Sound e.cache
    → handle_read world e h n ≡ some out
    → Grows e.cache out.engine.cache
unfolding handle_read
handle_read-Grows world e h n out q s eq =
    by_read h.closed (handle_read_at world e h n h.offset) refl eq
  where
    by_read :
        (closed : Bool) (o : Option ((List ℕ × Option ItemError) × Engine))
        → handle_read_at world e h n h.offset ≡ o
        → (let shut : HandleRead = record {
          bytes = [];
          err = some err_closed;
          handle = h;
          engine = e;
        } in
            let all : Option HandleRead = elim o [
              | none ↦ none
              | some r ↦ some (record {
                bytes = r.0.0;
                err = of_item_err r.0.1;
                handle = advanced h r.0.0 r.0.1;
                engine = r.1;
              })
            ] in
            (if closed then some shut else all) ≡ some out)
        → Grows e.cache out.engine.cache
    by_read true o b k =
        let shut : HandleRead = record {
          bytes = [];
          err = some err_closed;
          handle = h;
          engine = e;
        } in
        let to = some-injective shut out k in
        rw (sym (ap (λ x. x.engine.cache) to)) (Grows-refl e.cache s)
    by_read false none b k = ground arith
    by_read false (some r) b k =
        let done : HandleRead = record {
          bytes = r.0.0;
          err = of_item_err r.0.1;
          handle = advanced h r.0.0 r.0.1;
          engine = r.1;
        } in
        let to = some-injective done out k in
        rw (sym (ap (λ x. x.engine.cache) to)) (handle_read_at-Grows world e h n h.offset r q s b)

-- A use of an engine: a Stat, an OpenFile, an OpenCached, a Remove or the Read of a handle. The
-- Close of a handle does not reach the engine.
pub data Use (world : ℕ → Os) (e : Engine) : Engine → Type 0 where
  stats : (name : ℕ) → Use world e (dir_stat world e name).1
  opens : (name : ℕ) (read_only : Bool) → Use world e (open_file world e name read_only).1
  caches : (name : ℕ) (obj : Option RemoteObject) → Use world e (open_cached world e name obj).1
  removes : (name : ℕ) → Use world e (remove world e name)
  reads :
      (h : Handle) (n : ℕ) (out : HandleRead)
      → handle_read world e h n ≡ some out
      → Use world e out.engine

-- The uses of an engine, each in a world of its own.
pub data Uses (e : Engine) : Engine → Type 1 where
  start : Uses e e
  use_in :
      (world : ℕ → Os) (now next : Engine)
      → ((p : ℕ) → Quiet (world p))
      → Uses e now
      → Use world now next
      → Uses e next

Use-Grows :
    (world : ℕ → Os) (e e' : Engine)
    → ((p : ℕ) → Quiet (world p))
    → Use world e e'
    → Sound e.cache
    → Grows e.cache e'.cache
unfolding remove
Use-Grows world e _ q (stats name) s = dir_stat-Grows world e name s
Use-Grows world e _ q (opens name read_only) s = open_file-Grows world e name read_only s
Use-Grows world e _ q (caches name obj) s = open_cached-Grows world e name obj s
Use-Grows world e _ q (removes name) s = remove-Grows world e.cache name s
Use-Grows world e _ q (reads h n out eq) s = handle_read-Grows world e h n out q s eq

Uses-Grows : (e e' : Engine) → Sound e.cache → Uses e e' → Grows e.cache e'.cache
Uses-Grows e _ s start = Grows-refl e.cache s
Uses-Grows e _ s (use_in world now next q before u) =
    Grows-trans e.cache now.cache next.cache (Uses-Grows e now s before)
      (Use-Grows world now next q u)

get_known :
    (world : ℕ → Os) (c : Cache) (name : ℕ)
    → Sound c
    → (get world c name).0 < (get world c name).2.allocated
unfolding get
get_known world c name s = elim (Option-cases (lookup name c.item)) [
  | inl e ↦ rw (e, get) (ground arith)
  | inr (p, e) ↦ rw (e, get) (s.known name p e)
]

-- One opener, of an item that had none or some.
one_≤ℤ : (a : ℤ) → Prelude.pos 0 ≤ℤ a → Prelude.pos 1 ≤ℤ (a +ℤ Prelude.pos 1)
one_≤ℤ a h = let s = +ℤ_parts a (Prelude.pos 1) in ground (arith, s)

open_item-counted :
    (world : ℕ → Os) (c : Cache) (p : ℕ) (o : RemoteObject)
    → (open_item world c p o).0 ≡ none
    → opens_at (open_item world c p o).1 p ≡ opens_at c p +ℤ Prelude.pos 1
unfolding open_item
open_item-counted world c p o h =
    let out = open' (world p) false (held c p) (some o) in
    let set : (open_item world c p o).1.store p ≡ out.1 = ground arith in
    ap (λ x. x.item.opens) set ∙ (open'-Opening (world p) false (held c p) (some o)).counted h

-- What OpenCached has opened is counted.
open_cached-counted :
    (world : ℕ → Os) (e : Engine) (name : ℕ) (o : RemoteObject) (h : Handle)
    → Sound e.cache
    → (open_cached world e name (some o)).0 ≡ opened h
    → let e' = (open_cached world e name (some o)).1 in
      let p = (get world e.cache name).0 in
      (Prelude.pos 1 ≤ℤ opens_at e'.cache p) × (p < e'.cache.allocated)
unfolding open_cached
open_cached-counted world e name o h s =
    let got = get world e.cache name in
    let p = got.0 in
    let made = made-Grows world e.cache name s in
    let tried = open_item world got.2 p o in
    let tries = Grows-trans e.cache got.2 tried.1 made (open_item-Grows world got.2 p o) in
    let here = get_known world e.cache name s in
    elim (Bool-cases (name == 0)) [
      | inl z ↦ rw (z, open_cached) (λ eq. absurd (ground (arith, eq)))
      | inr z ↦ elim (Option-cases tried.0) [
        | inr (x, t) ↦ rw (z, t, open_cached) (λ eq. absurd (ground (arith, eq)))
        | inl t ↦
            let e' = record e { cache = tried.1 } in
            let rest = node_and_open-Grows world e' p name tries.sound in
            let one =
              ≤ℤ_trans (Prelude.pos 1) (opens_at got.2 p +ℤ Prelude.pos 1) (opens_at tried.1 p)
                (one_≤ℤ (opens_at got.2 p) (made.sound.counted p))
                (≤ℤ_refl (opens_at got.2 p +ℤ Prelude.pos 1) (opens_at tried.1 p)
                  (open_item-counted world got.2 p o t)) in
            let there : p < tried.1.allocated = here in
            let last = (node_and_open world e' p name).1.cache in
            rw (z, t, open_cached)
              (λ _. (
                ≤ℤ_trans (Prelude.pos 1) (opens_at tried.1 p) (opens_at last p) one
                    (rest.opens p there),
                ground (arith, there, rest.allocated),
              ))
      ]
    ]

-- Where OpenCached has returned a handle for an object, the cleaner never removes the item again:
-- after any uses of the engine, in worlds whose downloaders leave the count of the openers alone,
-- RemoveNotInUse answers that nothing was removed, whatever its arguments, and changes nothing. The
-- handle may be closed: that changes the handle only. The index is assumed to name items that were
-- allocated, whose openers are not negative.
pub open_cached-Leaked :
    (world : ℕ → Os) (e e' : Engine) (name : ℕ) (o : RemoteObject) (h : Handle)
    → Sound e.cache
    → (open_cached world e name (some o)).0 ≡ opened h
    → Uses (open_cached world e name (some o)).1 e'
    → (os : Os) (max_age : ℤ) (empty_only : Bool)
    → let st = held e'.cache (get world e.cache name).0 in
      remove_not_in_use os st max_age empty_only ≡ (false, Prelude.pos 0, st)
open_cached-Leaked world e e' name o h s eq uses os max_age empty_only =
    let p = (get world e.cache name).0 in
    let now = (open_cached world e name (some o)).1 in
    let opened_once = open_cached-counted world e name o h s eq in
    let grown = Uses-Grows now e' (open_cached-Grows world e name (some o) s).sound uses in
    remove_not_in_use-opened os (held e'.cache p) max_age empty_only (
      ≤ℤ_trans (Prelude.pos 1) (opens_at now.cache p) (opens_at e'.cache p) opened_once.0
        (grown.opens p opened_once.1))
