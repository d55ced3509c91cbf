-- ===== src/Proxy/Serve/Tally/Runs.antt =====
-- The counters of the handler over the requests that it serves.
use rclone_vfs.Prelude.{
  ℕ, ◌+◌, ◌≡◌, refl, sym, ap, ◌∙◌, inl, inr, Bool, true, false, not, ◌&&◌, ◌||◌, Option, none, some,
  List, [], ◌∷◌, arith, if◌then◌else◌, ◌==◌, ℤ, ◌+ℤ◌, ltb_ℤ, leb_ℤ, Bool-cases, Option-cases,
  eq_of_parts, +ℤ_parts,
}
use rclone_vfs.Prelude
use rclone_vfs.Item
use rclone_vfs.Cache.{get}
use rclone_vfs.Engine.{open_cached}
use rclone_vfs.Proxy.Path.{hash_cache_path}
use rclone_vfs.Proxy.Remote.{upstream_headers}
use rclone_vfs.Proxy.Serve.{
  Metrics, Handler, HandlerOptions, Env, Request, Answer, target_required, purged, direct, name_of,
  should_passthrough, counted, serve_cached, is_purge, no_text, serve, handle_purge, put_entry,
  new_http_file, object_of,
}
use rclone_vfs.Proxy.Serve.Tally.{
  through, stales, purges_of, sent, sum_ℕ, sum_ℤ, Tallied, Counts, add_zero, serve_opened-Counts,
}

add_assoc : (a b c : ℤ) → ((a +ℤ b) +ℤ c) ≡ a +ℤ (b +ℤ c)
add_assoc a b c =
    let l = +ℤ_parts a b in
    let r = +ℤ_parts b c in
    let s = +ℤ_parts (a +ℤ b) c in
    let t = +ℤ_parts a (b +ℤ c) in
    eq_of_parts ((a +ℤ b) +ℤ c) (a +ℤ (b +ℤ c)) (ground (arith, l, r, s, t))

counted-Counts :
    (cached : Bool) (m : Metrics)
    → ((counted cached m).requests ≡ m.requests + 1)
      × ((counted cached m).hits + (counted cached m).misses ≡ m.hits + m.misses + 1)
      × ((counted cached m).purges ≡ m.purges)
      × ((counted cached m).bytes_served ≡ m.bytes_served)
      × ((counted cached m).bytes_from_upstream ≡ m.bytes_from_upstream)
unfolding counted
counted-Counts true m = (refl, ground arith, refl, refl, refl)
counted-Counts false m = (refl, ground arith, refl, refl, refl)

if-Counts :
    (m : Metrics) (b : Bool) (x y : Answer × Handler)
    → Counts m x.1.metrics x.0
    → Counts m y.1.metrics y.0
    → let out = if b then x else y in Counts m out.1.metrics out.0
if-Counts m true x y v w = v
if-Counts m false x y v w = w

same-Counts :
    (m : Metrics) (a : Answer)
    → through a ≡ 0
    → stales a ≡ 0
    → purges_of a ≡ 0
    → sent a ≡ Prelude.pos 0
    → Counts m m a
same-Counts m a t s p b = record {
  requests = ground (arith, t);
  looked = ground (arith, t, s);
  purges = ground (arith, p);
  bytes = add_zero m.bytes_served ∙ ap (λ x. m.bytes_served +ℤ x) (sym b);
  upstream = refl;
}

purge-Counts : (m : Metrics) → Counts m (record m { purges = m.purges + 1 }) purged
unfolding through stales purges_of sent
purge-Counts m = record {
  requests = ground arith;
  looked = ground arith;
  purges = refl;
  bytes = add_zero m.bytes_served;
  upstream = refl;
}

-- The counters after one request.
serve-Counts :
    (env : Env) (opt : HandlerOptions) (h : Handler) (r : Request) (url : List ℕ)
    → let out = serve env opt h r url in Counts h.metrics out.1.metrics out.0
unfolding serve serve_cached handle_purge through stales purges_of sent
serve-Counts env opt h r url =
    let m = h.metrics in
    let path = hash_cache_path env.md5 opt.key url in
    let name = name_of env opt url in
    let entries = put_entry url path (upstream_headers r.headers) h.entries in
    let got = get env.world h.engine.cache name in
    let cached = Item.exists (got.2.store got.0) in
    let tried =
      open_cached env.world (record h.engine { cache = got.2 }) name
        (some (object_of (new_http_file env entries path))) in
    let c = counted-Counts cached m in
    let looked : Handler = record {
      engine = tried.1;
      entries = entries;
      metrics = counted cached m;
    } in
    if-Counts m (no_text url) (target_required, h) _
      (same-Counts m target_required refl refl refl refl)
      (if-Counts m (is_purge r.method) (purged, handle_purge env opt h url) _ (purge-Counts m)
        (if-Counts m (opt.passthrough || should_passthrough r) (direct, h) _
          (same-Counts m direct refl refl refl refl)
          (serve_opened-Counts env r path name looked tried.0 m c.0 c.1 c.2 c.3 c.4)))

-- The requests that a handler serves, each with what it uses and a URL: the answers, and the handler.
pub serve_all : HandlerOptions → Handler → List (Env × Request × List ℕ) → List Answer × Handler
serve_all opt h [] = ([], h)
serve_all opt h ((env, r, url) ∷ asked) =
    let out = serve env opt h r url in
    let rest = serve_all opt out.1 asked in (out.0 ∷ rest.0, rest.1)

-- Whatever requests a handler serves, its counters follow from its answers: Requests counts those that
-- went through the cache; Hits and Misses together count them too, and once more each answer with a
-- stale file; Purges counts the purges; BytesServed is the sum of the sizes of the files that were
-- served, with -1 for one of unknown size; and BytesFromUpstream never changes.
pub serve_all-Tallied :
    (opt : HandlerOptions) (h : Handler) (asked : List (Env × Request × List ℕ))
    → let out = serve_all opt h asked in Tallied h.metrics out.1.metrics out.0
unfolding serve_all sum_ℕ sum_ℤ
serve_all-Tallied opt h [] = record {
  requests = ground arith;
  looked = ground arith;
  purges = ground arith;
  bytes = add_zero h.metrics.bytes_served;
  upstream = refl;
}
serve_all-Tallied opt h ((env, r, url) ∷ asked) =
    let out = serve env opt h r url in
    let one = serve-Counts env opt h r url in
    let rest = serve_all-Tallied opt out.1 asked in
    record {
      requests = ground (arith, one.requests, rest.requests);
      looked = ground (arith, one.looked, rest.looked);
      purges = ground (arith, one.purges, rest.purges);
      bytes =
          rest.bytes
          ∙ ap (λ b. b +ℤ sum_ℤ (serve_all opt out.1 asked).0) one.bytes
          ∙ add_assoc h.metrics.bytes_served (sent out.0) (sum_ℤ (serve_all opt out.1 asked).0);
      upstream = rest.upstream ∙ one.upstream;
    }
