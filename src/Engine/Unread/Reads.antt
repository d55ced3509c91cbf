-- ===== src/Engine/Unread/Reads.antt =====
-- Reading through a handle that was opened without an object.
use rclone_vfs.Prelude.{
  ℕ, ◌≡◌, ◌≢◌, refl, sym, ap, ◌∙◌, Bool, true, false, Option, none, some, List, [], arith,
  if◌then◌else◌, ◌==◌, ℤ,
}
use mathlib.Core.Option.{some-injective}
use rclone_vfs.Item.{ItemError, not_open, State, Os, accessed}
use rclone_vfs.Item.Data.{read_at}
use rclone_vfs.Item.Life.Counted.{busy, accessed_result, read_at_shut}
use rclone_vfs.Cache.{Cache, held, put_held, get}
use rclone_vfs.Engine.{
  Engine, err_closed, advanced, of_item_err, Handle, opened, of_item, node_and_open, open_cached,
  handle_read_at, handle_read, HandleRead,
}
use rclone_vfs.Engine.Unread.{Shut, Plain, get-Shut, node_and_open-Blank}

-- The ReadAt of a handle whose item has no open file.
handle_read_at_blank :
    (world : ℕ → Os) (e : Engine) (h : Handle) (n : ℕ) (off : ℤ)
    (out : (List ℕ × Option ItemError) × Engine)
    → Shut e.cache h.f.name
    → handle_read_at world e h n off ≡ some out
    → out.0 ≡ ([], some not_open)
unfolding handle_read_at
handle_read_at_blank world e h n off out s eq =
    by_read (accessed (λ st. read_at (world got.0) st n off) (held got.2 got.0)) refl eq
  where
    got : ℕ × Bool × Cache
    got = get world e.cache h.f.name

    shut_now : got.2.store got.0 ≡ e.cache.store s.p
    shut_now = ap (λ g. g.2.store g.0) (get-Shut world e.cache h.f.name s)

    by_read :
        (o : Option ((List ℕ × Option ItemError) × State))
        → accessed (λ st. read_at (world got.0) st n off) (held got.2 got.0) ≡ o
        → (let all : Option ((List ℕ × Option ItemError) × Engine) = elim o [
          | none ↦ none
          | some r ↦ some (r.0, record e { cache = put_held got.2 got.0 r.1 })
        ] in
            all ≡ some out)
        → out.0 ≡ ([], some not_open)
    by_read none b k = ground arith
    by_read (some r) b k =
        let st = held got.2 got.0 in
        let to = some-injective (r.0, record e { cache = put_held got.2 got.0 r.1 }) out k in
        sym (ap (λ x. x.0) to)
        ∙ accessed_result (λ st. read_at (world got.0) st n off) st r b
        ∙ read_at_shut (world got.0) (busy st) n off (ap (λ x. x.item.fd) shut_now ∙ s.fd)

-- The Read of a handle whose item has no open file.
handle_read_blank :
    (world : ℕ → Os) (e : Engine) (h : Handle) (n : ℕ) (out : HandleRead)
    → Shut e.cache h.f.name
    → h.closed ≡ false
    → handle_read world e h n ≡ some out
    → (out.bytes ≡ []) × (out.err ≡ some (of_item not_open))
unfolding handle_read
handle_read_blank world e h n out s live eq =
    by_read h.closed (handle_read_at world e h n h.offset) live refl eq
  where
    by_read :
        (closed : Bool) (o : Option ((List ℕ × Option ItemError) × Engine))
        → closed ≡ false
        → handle_read_at world e h n h.offset ≡ o
        → (let shut : HandleRead = record {
          bytes = [];
          err = some err_closed;
          handle = h;
          engine = e;
        } in
            let all : Option HandleRead = elim o [
              | none ↦ none
              | some r ↦ some (record {
                bytes = r.0.0;
                err = of_item_err r.0.1;
                handle = advanced h r.0.0 r.0.1;
                engine = r.1;
              })
            ] in
            (if closed then some shut else all) ≡ some out)
        → (out.bytes ≡ []) × (out.err ≡ some (of_item not_open))
    by_read true o c b k = absurd (ground (arith, c))
    by_read false none c b k = ground arith
    by_read false (some r) c b k =
        let done : HandleRead = record {
          bytes = r.0.0;
          err = of_item_err r.0.1;
          handle = advanced h r.0.0 r.0.1;
          engine = r.1;
        } in
        let to = some-injective done out k in
        let blank = handle_read_at_blank world e h n h.offset r s b in
        (
          ap (λ x. x.bytes) (sym to) ∙ ap (λ x. x.0) blank,
          ap (λ x. x.err) (sym to) ∙ ap (λ x. of_item_err x.1) blank,
        )

-- A Read that found no byte and reports that the item is not open; none is one that waits for a reset.
pub Unread : Option HandleRead → Type 0
Unread none = Unit
Unread (some out) = (out.bytes ≡ []) × (out.err ≡ some (of_item not_open))

-- OpenCached without an object, of a name whose item has no open handle, returns a handle of that
-- name all the same, whether or not the cache has a byte of the file, and a Read of that handle, of
-- any length and in any world, finds no byte and reports that the item is not open, if it does not wait
-- for a reset. The engine's files have no object and stand under their names.
pub open_cached-Unread :
    (world world' : ℕ → Os) (e : Engine) (name n : ℕ)
    → name ≢ 0
    → Plain e
    → Shut e.cache name
    → let out = open_cached world e name none in
      (h : Handle) × (out.0 ≡ opened h) × (h.f.name ≡ name) × Unread (handle_read world' out.1 h n)
unfolding open_cached Plain Unread
open_cached-Unread world world' e name n nz pl s =
    let got = get world e.cache name in
    let c_same : got.2 ≡ e.cache = ap (λ g. g.2) (get-Shut world e.cache name s) in
    let z : (name == 0) ≡ false = ground (arith, nz) in
    let e' = record e { cache = got.2 } in
    let opens =
      node_and_open-Blank world e' got.0 name (record { shut = rw c_same s; plain = pl }) z in
    let e'' = (node_and_open world e' got.0 name).1 in
    let shut : Shut e''.cache opens.handle.f.name = rw opens.named opens.engine.shut in
    rw (z, open_cached)
      (
        opens.handle,
        opens.is,
        opens.named,
        by_read (handle_read world' e'' opens.handle n)
            (λ out eq. handle_read_blank world' e'' opens.handle n out shut opens.live eq),
      )
  where
    by_read :
        (o : Option HandleRead)
        → ((out : HandleRead)
            → o ≡ some out
            → (out.bytes ≡ []) × (out.err ≡ some (of_item not_open)))
        → Unread o
    by_read none h = tt
    by_read (some out) h = h out refl
