-- ===== src/Proxy/Serve.antt =====
-- pkg/proxy/proxy.go: the handler. What the answers of http.ServeContent and io.Copy are made of is
-- an answer here; what they send is theirs. A path of the cache has a clean name, by a parameter.
pub mod Tally
use rclone_vfs.Prelude.{
  ℕ, zero, suc, ◌+◌, ◌-◌, ◌/◌, ◌%◌, Bool, true, false, not, ◌&&◌, ◌||◌, Option, none, some, List,
  [], ◌∷◌, ◌++◌, if◌then◌else◌, ltb, ◌==◌, ℤ, ◌+ℤ◌, ltb_ℤ, leb_ℤ, pos_part,
}
use rclone_vfs.Prelude
use rclone_vfs.Item.{RemoteObject, Os}
use rclone_vfs.Item
use rclone_vfs.Cache.{get}
use rclone_vfs.Cache
use rclone_vfs.Engine.{Engine, EngineError, File, Handle, failed, opened, open_cached}
use rclone_vfs.Engine
use rclone_vfs.Proxy.Size.{head_size}
use rclone_vfs.Proxy.Path.{KeyOptions, hash_cache_path}
use rclone_vfs.Proxy.Remote.{
  range, if_modified_since, if_none_match, authorization, cookie, Headers, get_header, copy_headers,
  Method, get_method, head_method, post_method, put_method, patch_method, delete_method,
  purge_method, other_method, Client, RemoteFile, upstream_headers,
}

-- type Metrics
pub record Metrics : Type 0 where
  pub requests : ℕ
  pub hits : ℕ
  pub misses : ℕ
  pub bytes_served : ℤ
  pub bytes_from_upstream : ℤ
  pub purges : ℕ

-- type cacheEntry
pub record CacheEntry : Type 0 where
  pub url : List ℕ
  pub headers : Headers

-- type mapping: the entries under their paths.
abbrev pub Mapping : Type 0
Mapping = List (List ℕ × CacheEntry)

-- Whether two texts are equal.
unfoldable pub same_text : List ℕ → List ℕ → Bool
same_text [] [] = true
same_text [] (_ ∷ _) = false
same_text (_ ∷ _) [] = false
same_text (a ∷ s) (b ∷ t) = a == b && same_text s t

-- mapping.get
pub get_entry : List ℕ → Mapping → Option CacheEntry
unfolding same_text
get_entry path [] = none
get_entry path ((p, entry) ∷ m) =
    let rest = get_entry path m in if same_text p path then some entry else rest

-- The removal of an entry, in handlePurge.
pub delete_entry : List ℕ → Mapping → Mapping
unfolding same_text
delete_entry path [] = []
delete_entry path ((p, entry) ∷ m) =
    let rest = delete_entry path m in if same_text p path then rest else (p, entry) ∷ rest

-- mapping.put
pub put_entry : List ℕ → List ℕ → Headers → Mapping → Mapping
unfolding delete_entry
put_entry url path headers m = (path, record { url = url; headers = headers }) ∷ delete_entry path m

-- type Handler: what changes, and the options.
pub record Handler : Type 0 where
  pub engine : Engine
  pub entries : Mapping
  pub metrics : Metrics

pub record HandlerOptions : Type 0 where
  pub key : KeyOptions
  pub passthrough : Bool

-- What the handler uses: MD5 in hexadecimal, the clean name of a path, http.ParseTime, the client, the
-- files of the items, and the time.
pub record Env : Type 0 where
  pub md5 : List ℕ → List ℕ
  pub clean : List ℕ → ℕ
  pub parse_time : List ℕ → Option ℤ
  pub client : Client
  pub world : ℕ → Os
  pub now : ℤ

-- http.Request, as far as the handler reads it.
pub record Request : Type 0 where
  pub method : Method
  pub headers : Headers

-- What the handler answers: an error with its status, what ServeContent or io.Copy send of a handle, or
-- what the upstream answers.
pub data Answer : Type 0 where
  target_required purged direct not_modified range_unknown : Answer
  open_failed : EngineError → Answer
  stale : ℤ → Handle → Answer
  content : ℤ → List ℕ → Handle → Answer
  copied : Handle → Answer

-- Handler.hashCachePath as a clean name.
pub name_of : Env → HandlerOptions → List ℕ → ℕ
name_of env opt url = env.clean (hash_cache_path env.md5 opt.key url)

-- Handler.shouldPassthrough
bypasses : Method → Bool
bypasses post_method = true
bypasses put_method = true
bypasses patch_method = true
bypasses delete_method = true
bypasses _ = false

unfoldable pub no_text : List ℕ → Bool
no_text [] = true
no_text (_ ∷ _) = false

pub should_passthrough : Request → Bool
unfolding bypasses no_text
should_passthrough r =
    bypasses r.method
    || not (no_text (get_header authorization r.headers))
    || not (no_text (get_header cookie r.headers))

-- Handler.newHTTPFile: what the HEAD request says of the object.
pub new_http_file : Env → Mapping → List ℕ → RemoteFile
unfolding get_entry
new_http_file env m path = elim (get_entry path m) [
  | none ↦ record { url = []; headers = []; size = Prelude.negsuc 0; mod_time = none }
  | some entry ↦
      let asked = env.client (record {
        method = head_method;
        url = entry.url;
        headers = copy_headers [] entry.headers;
      }) in
      let size : ℤ = elim asked [
        | none ↦ Prelude.negsuc 0
        | some resp ↦ if resp.status == 200 then head_size resp.content_length else Prelude.negsuc 0
      ] in
      let mod_time : Option ℤ = elim asked [
        | none ↦ none
        | some resp ↦ if resp.status == 200 then env.parse_time resp.last_modified else none
      ] in
      record { url = entry.url; headers = entry.headers; size = size; mod_time = mod_time }
]

-- A remoteFile as the object of an item: it has no Fingerprint method.
abbrev pub object_of : RemoteFile → RemoteObject
object_of f = record { size = f.size; fingerprint = 0 }

-- strconv and fmt in base 16, on fuel above the number.
hex_digits : ℕ → ℕ → List ℕ → List ℕ
hex_digits zero n out = out
hex_digits (suc f) n out =
    let digit = if ltb (n % 16) 10 then b'0' + n % 16 else b'a' + (n % 16 - 10) in
    let rest = hex_digits f (n / 16) (digit ∷ out) in if ltb n 16 then digit ∷ out else rest

-- The ETag of a path and a size that is not negative.
pub etag_of : List ℕ → ℤ → List ℕ
unfolding hex_digits
etag_of path size =
    let n = pos_part size in b'"' ∷ (path ++ b'-' ∷ (hex_digits (suc n) n [] ++ b'"' ∷ []))

-- Handler.handlePurge
pub handle_purge : Env → HandlerOptions → Handler → List ℕ → Handler
unfolding delete_entry
handle_purge env opt h url = record {
  engine = Engine.remove env.world h.engine (name_of env opt url);
  entries = delete_entry (hash_cache_path env.md5 opt.key url) h.entries;
  metrics = record h.metrics { purges = h.metrics.purges + 1 };
}

-- Handler.tryStaleServe: the answer, if there is one, and the engine.
pub try_stale_serve : Env → Engine → ℕ → Option Answer × Engine
try_stale_serve env e name =
    let got = get env.world e.cache name in
    let tried = open_cached env.world (record e { cache = got.2 }) name none in
    if Item.exists (got.2.store got.0)
    then elim tried.0 [
      | failed _ ↦ (none, tried.1)
      | opened fh ↦ (some (stale fh.f.size fh), tried.1)
    ]
    else (none, record e { cache = got.2 })

-- Serve from the open handle on: the answer, and the bytes that it counts.
pub respond : Env → Request → List ℕ → Handle → Answer × ℤ
unfolding etag_of same_text no_text
respond env r path fh =
    let size = fh.f.size in
    let etag = etag_of path size in
    let sized = not (ltb_ℤ size (Prelude.pos 0)) in
    let since : Bool = elim (env.parse_time (get_header if_modified_since r.headers)) [
      | none ↦ false
      | some t ↦ leb_ℤ env.now t
    ] in
    if since
    then (not_modified, Prelude.pos 0)
    else if sized && same_text (get_header if_none_match r.headers) etag
    then (not_modified, Prelude.pos 0)
    else if sized
    then (content size etag fh, size)
    else if not (no_text (get_header range r.headers))
    then (range_unknown, Prelude.pos 0)
    else (copied fh, size)

-- The counters after the look into the cache.
pub counted : Bool → Metrics → Metrics
counted cached m =
    let asked = record m { requests = m.requests + 1 } in
    if cached then record asked { hits = m.hits + 1 } else record asked { misses = m.misses + 1 }

-- Serve after OpenCached.
pub serve_opened : Env → Request → List ℕ → ℕ → Handler → Engine.Opened → Answer × Handler
serve_opened env r path name h (opened fh) =
    let out = respond env r path fh in
    (
      out.0,
      record h { metrics = record h.metrics { bytes_served = h.metrics.bytes_served +ℤ out.1 } },
    )
serve_opened env r path name h (failed err) =
    let tried = try_stale_serve env h.engine name in
    let h' = record h { engine = tried.1 } in
    elim tried.0 [
      | some answer ↦
          (answer, record h' { metrics = record h.metrics { hits = h.metrics.hits + 1 } })
      | none ↦ (open_failed err, h')
    ]

-- Serve of a request that goes through the cache.
pub serve_cached : Env → HandlerOptions → Handler → Request → List ℕ → Answer × Handler
serve_cached env opt h r url =
    let path = hash_cache_path env.md5 opt.key url in
    let name = name_of env opt url in
    let entries = put_entry url path (upstream_headers r.headers) h.entries in
    let file = new_http_file env entries path in
    let got = get env.world h.engine.cache name in
    let metrics = counted (Item.exists (got.2.store got.0)) h.metrics in
    let tried =
      open_cached env.world (record h.engine { cache = got.2 }) name (some (object_of file)) in
    serve_opened env r path name (record { engine = tried.1; entries = entries; metrics = metrics })
      tried.0

is_purge : Method → Bool
is_purge purge_method = true
is_purge _ = false

-- Handler.Serve
unfoldable pub serve : Env → HandlerOptions → Handler → Request → List ℕ → Answer × Handler
unfolding is_purge no_text
serve env opt h r url =
    if no_text url
    then (target_required, h)
    else if is_purge r.method
    then (purged, handle_purge env opt h url)
    else if opt.passthrough || should_passthrough r
    then (direct, h)
    else serve_cached env opt h r url
