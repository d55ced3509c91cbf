-- ===== src/Proxy/Serve/Tally.antt =====
-- What the counters of the handler count.
pub mod Runs
use rclone_vfs.Prelude.{
  ℕ, ◌+◌, ◌≡◌, refl, sym, ap, ◌∙◌, inl, inr, Bool, true, false, not, ◌&&◌, ◌||◌, Option, none, some,
  List, [], ◌∷◌, arith, if◌then◌else◌, ◌==◌, ℤ, ◌+ℤ◌, ltb_ℤ, leb_ℤ, Bool-cases, Option-cases,
  eq_of_parts, +ℤ_parts,
}
use rclone_vfs.Prelude
use mathlib.Core.Option.{some-injective}
use rclone_vfs.Item
use rclone_vfs.Cache.{get}
use rclone_vfs.Engine.{Engine, EngineError, Handle, failed, opened, open_cached}
use rclone_vfs.Engine
use rclone_vfs.Proxy.Path.{hash_cache_path}
use rclone_vfs.Proxy.Remote.{range, if_modified_since, if_none_match, get_header, upstream_headers}
use rclone_vfs.Proxy.Serve.{
  Metrics, Handler, HandlerOptions, Env, Request, Answer, target_required, purged, direct,
  not_modified, stale, content, copied, name_of, should_passthrough, try_stale_serve, respond,
  counted, serve_opened, serve_cached, is_purge, no_text, serve, handle_purge, same_text, etag_of,
  put_entry, new_http_file, object_of,
}

-- Whether an answer went through the cache.
pub through : Answer → ℕ
through target_required = 0
through purged = 0
through direct = 0
through _ = 1

-- Whether an answer is one of a stale file.
pub stales : Answer → ℕ
stales (stale size fh) = 1
stales _ = 0

pub purges_of : Answer → ℕ
purges_of purged = 1
purges_of _ = 0

-- The size that is counted for an answer, which is that of its file, -1 if it is unknown.
pub sent : Answer → ℤ
sent (content size etag fh) = size
sent (copied fh) = fh.f.size
sent _ = Prelude.pos 0

-- The sums of the answers.
pub sum_ℕ : (Answer → ℕ) → List Answer → ℕ
sum_ℕ f [] = 0
sum_ℕ f (a ∷ more) = f a + sum_ℕ f more

pub sum_ℤ : List Answer → ℤ
unfolding sent
sum_ℤ [] = Prelude.pos 0
sum_ℤ (a ∷ more) = sent a +ℤ sum_ℤ more

-- The counters after answers.
pub record Tallied (m m' : Metrics) (more : List Answer) : Type 0 where
  pub requests : m'.requests ≡ m.requests + sum_ℕ through more
  pub looked : m'.hits + m'.misses ≡ m.hits + m.misses + sum_ℕ through more + sum_ℕ stales more
  pub purges : m'.purges ≡ m.purges + sum_ℕ purges_of more
  pub bytes : m'.bytes_served ≡ m.bytes_served +ℤ sum_ℤ more
  pub upstream : m'.bytes_from_upstream ≡ m.bytes_from_upstream

-- The counters after one answer.
pub record Counts (m m' : Metrics) (a : Answer) : Type 0 where
  pub requests : m'.requests ≡ m.requests + through a
  pub looked : m'.hits + m'.misses ≡ m.hits + m.misses + through a + stales a
  pub purges : m'.purges ≡ m.purges + purges_of a
  pub bytes : m'.bytes_served ≡ m.bytes_served +ℤ sent a
  pub upstream : m'.bytes_from_upstream ≡ m.bytes_from_upstream

pub add_zero : (a : ℤ) → a ≡ a +ℤ Prelude.pos 0
add_zero a = eq_of_parts a (a +ℤ Prelude.pos 0) (ground (arith, +ℤ_parts a (Prelude.pos 0)))

-- What Serve answers of an open handle, and what it counts for it.
record Sent (out : Answer × ℤ) : Type 0 where
  through : through out.0 ≡ 1
  stales : stales out.0 ≡ 0
  purges : purges_of out.0 ≡ 0
  bytes : out.1 ≡ sent out.0

if-Sent : (b : Bool) (x y : Answer × ℤ) → Sent x → Sent y → Sent (if b then x else y)
if-Sent true x y v w = v
if-Sent false x y v w = w

respond-Sent :
    (env : Env) (r : Request) (path : List ℕ) (fh : Handle) → Sent (respond env r path fh)
unfolding respond through stales purges_of sent
respond-Sent env r path fh =
    let size = fh.f.size in
    let etag = etag_of path size in
    let sized = not (ltb_ℤ size (Prelude.pos 0)) in
    let since : Bool = elim (env.parse_time (get_header if_modified_since r.headers)) [
      | none ↦ false
      | some t ↦ leb_ℤ env.now t
    ] in
    let unmodified : Sent (not_modified, Prelude.pos 0) = record {
      through = refl;
      stales = refl;
      purges = refl;
      bytes = refl;
    } in
    if-Sent since _ _ unmodified (
      if-Sent (sized && same_text (get_header if_none_match r.headers) etag) _ _ unmodified (
        if-Sent sized _ _ (record { through = refl; stales = refl; purges = refl; bytes = refl })
          (if-Sent (not (no_text (get_header range r.headers))) _ _
            (record { through = refl; stales = refl; purges = refl; bytes = refl })
            (record { through = refl; stales = refl; purges = refl; bytes = refl }))))

-- Only a stale file is served where the open has failed.
try_stale_serve-stale :
    (env : Env) (e : Engine) (name : ℕ) (a : Answer)
    → (try_stale_serve env e name).0 ≡ some a
    → (through a ≡ 1) × (stales a ≡ 1) × (purges_of a ≡ 0) × (sent a ≡ Prelude.pos 0)
unfolding try_stale_serve through stales purges_of sent
try_stale_serve-stale env e name a =
    let got = get env.world e.cache name in
    let tried = open_cached env.world (record e { cache = got.2 }) name none in
    elim (Bool-cases (Item.exists (got.2.store got.0))) [
      | inr x ↦ rw (x, try_stale_serve) (λ eq. absurd (ground (arith, eq)))
      | inl x ↦ by_open tried.0 refl x
    ]
  where
    by_open :
        (o : Engine.Opened)
        → (let got = get env.world e.cache name in
            (open_cached env.world (record e { cache = got.2 }) name none).0 ≡ o)
        → (let got = get env.world e.cache name in Item.exists (got.2.store got.0) ≡ true)
        → (try_stale_serve env e name).0 ≡ some a
        → (through a ≡ 1) × (stales a ≡ 1) × (purges_of a ≡ 0) × (sent a ≡ Prelude.pos 0)
    by_open (failed err) t x = rw (x, t, try_stale_serve) (λ eq. absurd (ground (arith, eq)))
    by_open (opened fh) t x = rw (x, t, try_stale_serve) (λ eq. is_stale fh eq)
      where
        is_stale :
            (fh : Handle)
            → some (stale fh.f.size fh) ≡ some a
            → (through a ≡ 1) × (stales a ≡ 1) × (purges_of a ≡ 0) × (sent a ≡ Prelude.pos 0)
        is_stale fh eq =
            let is = sym (some-injective (stale fh.f.size fh) a eq) in
            (ap through is, ap stales is, ap purges_of is, ap sent is)

-- The counters of a handler after OpenCached, where `m` are those before the look into the cache.
pub serve_opened-Counts :
    (env : Env) (r : Request) (path : List ℕ) (name : ℕ) (h : Handler) (o : Engine.Opened)
    (m : Metrics)
    → h.metrics.requests ≡ m.requests + 1
    → h.metrics.hits + h.metrics.misses ≡ m.hits + m.misses + 1
    → h.metrics.purges ≡ m.purges
    → h.metrics.bytes_served ≡ m.bytes_served
    → h.metrics.bytes_from_upstream ≡ m.bytes_from_upstream
    → let out = serve_opened env r path name h o in Counts m out.1.metrics out.0
unfolding serve_opened through stales purges_of sent
serve_opened-Counts env r path name h (opened fh) m rq lk pg by up =
    let s = respond-Sent env r path fh in
    record {
      requests = ground (arith, rq, s.through);
      looked = ground (arith, lk, s.through, s.stales);
      purges = ground (arith, pg, s.purges);
      bytes = ap (λ b. b +ℤ (respond env r path fh).1) by ∙ ap (λ b. m.bytes_served +ℤ b) s.bytes;
      upstream = up;
    }
serve_opened-Counts env r path name h (failed err) m rq lk pg by up =
    elim (Option-cases (try_stale_serve env h.engine name).0) [
      | inl t ↦
          rw (t, serve_opened)
            (record {
              requests = rq;
              looked = ground (arith, lk);
              purges = ground (arith, pg);
              bytes = by ∙ add_zero m.bytes_served;
              upstream = up;
            })
      | inr (a, t) ↦
          let s = try_stale_serve-stale env h.engine name a t in
          rw (t, serve_opened)
            (record {
              requests = ground (arith, rq, s.0);
              looked = ground (arith, lk, s.0, s.1);
              purges = ground (arith, pg, s.2);
              bytes = by ∙ add_zero m.bytes_served ∙ ap (λ b. m.bytes_served +ℤ b) (sym s.3);
              upstream = up;
            })
    ]
