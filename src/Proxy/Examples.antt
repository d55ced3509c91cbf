-- ===== src/Proxy/Examples.antt =====
-- The theorems on the proxy at concrete requests.
use rclone_vfs.Prelude.{
  Option, ℤ, ℕ, ◌≡◌, ◌↔◌, refl, true, false, none, some, List, [], ◌∷◌, ◌++◌, arith, length,
}
use rclone_vfs.Prelude.{pos}
use rclone_vfs.Engine.Samples.{calm, stocked}
use rclone_vfs.Proxy.Size.{unit_of, is_space, parse_digits, parse_size}
use rclone_vfs.Proxy.Size.RoundTrip.{Sized, parse_size-Sized}
use rclone_vfs.Proxy.Path.{KeyOptions, hash_cache_path, cache_key}
use rclone_vfs.Proxy.Path.Keys.{has_byte, url_of, hash_cache_path-domain, hash_cache_path-query}
use rclone_vfs.Proxy.Remote.{
  Headers, range, if_none_match, other_header, RangeOption, RemoteFile, values, open_request,
  upstream_headers, get_method, purge_method,
}
use rclone_vfs.Proxy.Remote.Forwarded.{forwarded, open_request-Forwarded}
use rclone_vfs.Proxy.Serve.{Env, Request}
use rclone_vfs.Proxy.Serve.Tally.{Tallied}
use rclone_vfs.Proxy.Serve.Tally.Runs.{serve_all, serve_all-Tallied}
use rclone_vfs.Proxy.Setup.{
  ProxyOptions, EngineOptions, zero_options, engine_options, Turn, cleaner,
}
use rclone_vfs.Proxy.Setup.Idle.{cleaner-engine_options}
use rclone_vfs.Proxy.Samples.{digit, by_path, quiet_handler, plain_options, env}

kilo : unit_of b'k' ≡ some 1024
unfolding unit_of
kilo = refl

parse_size-Sized_example : Sized 100 b'k' 1024
parse_size-Sized_example = parse_size-Sized 100 b'k' 1024 (ground arith) kilo

length-digit : (s t : List ℕ) → length (digit s) ≡ length (digit t)
length-digit s t = ground arith

abbrev by_url : KeyOptions
by_url = record { strip_query = true; strip_domain = false; shard_level = pos 1 }

hash_cache_path-domain_example :
    (hash_cache_path digit by_path (url_of (b'a' ∷ []) (b'h' ∷ []) (b'p' ∷ []))
      ≡ hash_cache_path digit by_path (url_of (b'b' ∷ []) (b'i' ∷ []) (b'q' ∷ [])))
    ↔ (digit (b'/' ∷ b'p' ∷ []) ≡ digit (b'/' ∷ b'q' ∷ []))
unfolding has_byte
hash_cache_path-domain_example =
    hash_cache_path-domain digit by_path (b'a' ∷ []) (b'h' ∷ []) (b'p' ∷ []) (b'b' ∷ []) (b'i' ∷ [])
      (b'q' ∷ []) length-digit refl refl refl refl refl refl

hash_cache_path-query_example :
    (hash_cache_path digit by_url ((b'u' ∷ []) ++ b'?' ∷ b'x' ∷ [])
      ≡ hash_cache_path digit by_url ((b'v' ∷ []) ++ b'?' ∷ b'y' ∷ []))
    ↔ (digit (cache_key by_url (b'u' ∷ [])) ≡ digit (cache_key by_url (b'v' ∷ [])))
hash_cache_path-query_example =
    hash_cache_path-query digit by_url (b'u' ∷ []) (b'x' ∷ []) (b'v' ∷ []) (b'y' ∷ []) length-digit
      refl

-- A client that asks for a range, with a condition and another header.
abbrev client_headers : Headers
client_headers = (range, b'r' ∷ []) ∷ (if_none_match, b'e' ∷ []) ∷ (other_header 4, b'o' ∷ []) ∷ []

abbrev remote : RemoteFile
remote = record {
  url = b'u' ∷ [];
  headers = upstream_headers client_headers;
  size = pos 10;
  mod_time = none;
}

abbrev middle : RangeOption
middle = record { start = pos 2; end' = pos 5 }

open_request-Forwarded_example :
    values range (open_request remote (some middle ∷ [])).headers
    ≡ forwarded range middle client_headers
open_request-Forwarded_example = open_request-Forwarded remote middle client_headers refl range

abbrev two_requests : List (Env × Request × List ℕ)
two_requests =
    (env, record { method = get_method; headers = client_headers }, b'u' ∷ [])
    ∷ (env, record { method = purge_method; headers = [] }, b'u' ∷ [])
    ∷ []

serve_all-Tallied_example :
    let out = serve_all plain_options quiet_handler two_requests in
    Tallied quiet_handler.metrics out.1.metrics out.0
serve_all-Tallied_example = serve_all-Tallied plain_options quiet_handler two_requests

-- A proxy that is to keep at most 8 KiB for an hour.
abbrev given : ProxyOptions
given = record {
  cache_max_age = b'1' ∷ b'h' ∷ [];
  cache_max_size = b'8' ∷ b'k' ∷ [];
  cache_chunk_size = [];
  cache_chunk_streams = pos 2;
}

abbrev hour : List ℕ → Option ℤ
hour s = some (pos 3600000000000)

abbrev made_options : EngineOptions
made_options = record zero_options {
  cache_max_age = pos 3600000000000;
  cache_max_size = pos 8192;
  chunk_streams = pos 2;
}

given-made : engine_options hour given ≡ some made_options
unfolding engine_options parse_size is_space parse_digits
given-made = refl

abbrev turn : Turn
turn = record {
  sort = λ store ps. ps;
  world = calm;
  no_space = λ e. false;
  free = λ item. none;
  root_exists = true;
  kicked = false;
}

cleaner-engine_options_example : cleaner made_options stocked (turn ∷ []) ≡ stocked
cleaner-engine_options_example =
    cleaner-engine_options hour given made_options stocked (turn ∷ []) given-made
