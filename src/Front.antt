-- ===== src/Front.antt =====
-- caddy/module.go and main.go: the two front ends of the handler. The join of an upstream with a path,
-- the Base64 decoders and which answers have the status 404 are parameters.
pub mod Same
mod Examples
use rclone_vfs.Prelude.{
  ℕ, Bool, true, false, not, ◌&&◌, Option, none, some, List, [], ◌∷◌, ◌++◌, if◌then◌else◌, ◌==◌, ℤ,
  ltb_ℤ,
}
use rclone_vfs.Prelude.{pos}
use rclone_vfs.Proxy.Serve.{
  Handler, HandlerOptions, Env, Request, Answer, no_text, same_text, serve,
}

-- The URL of a request: its path, its query, and the value of "url" in it.
pub record Url : Type 0 where
  pub path : List ℕ
  pub raw_query : List ℕ
  pub url_param : List ℕ

-- base64.RawURLEncoding and URLEncoding
pub record Decoders : Type 0 where
  pub raw : List ℕ → Option (List ℕ)
  pub padded : List ℕ → Option (List ℕ)

-- The text behind a prefix, if it has it.
cut_prefix : List ℕ → List ℕ → Option (List ℕ)
cut_prefix [] s = some s
cut_prefix (c ∷ p) [] = none
cut_prefix (c ∷ p) (d ∷ s) = let rest = cut_prefix p s in if c == d then rest else none

-- "/stream/"
abbrev stream_prefix : List ℕ
stream_prefix = b'/' ∷ b's' ∷ b't' ∷ b'r' ∷ b'e' ∷ b'a' ∷ b'm' ∷ b'/' ∷ []

-- Handler.resolveTargetURL without an upstream.
resolve_dynamic : Decoders → Url → List ℕ
unfolding cut_prefix no_text
resolve_dynamic dec u =
    if not (no_text u.url_param) then u.url_param else elim (cut_prefix stream_prefix u.path) [
      | none ↦ []
      | some encoded ↦ elim (dec.raw encoded) [
        | some decoded ↦ decoded
        | none ↦ elim (dec.padded encoded) [ some decoded ↦ decoded | none ↦ [] ]
      ]
    ]

-- Handler.resolveTargetURL, with the join of the upstream if there is one.
pub resolve_target_url : Decoders → Option (List ℕ → List ℕ) → Url → List ℕ
unfolding resolve_dynamic
resolve_target_url dec none u = resolve_dynamic dec u
resolve_target_url dec (some join) u =
    let full = join u.path in if no_text u.raw_query then full else full ++ b'?' ∷ u.raw_query

-- The Caddy Handler.
pub record CaddyHandler : Type 0 where
  pub upstream : Option (List ℕ → List ℕ)
  pub scheme_ok : Bool
  pub metrics_path : List ℕ
  pub chunk_streams : ℤ
  pub options : HandlerOptions

-- The errors of Validate.
pub data ValidateError : Type 0 where
  bad_scheme negative_streams : ValidateError

-- Handler.Validate of an upstream that was parsed.
pub validate : CaddyHandler → Option ValidateError
validate c =
    let bad : Bool = elim c.upstream [ none ↦ false | some _ ↦ not c.scheme_ok ] in
    if bad
    then some bad_scheme
    else if ltb_ℤ c.chunk_streams (pos 0)
    then some negative_streams
    else none

-- What ServeHTTP does: it serves the metrics, leaves an answer, or asks the next handler.
pub data CaddyAnswer : Type 0 where
  metrics next : CaddyAnswer
  served : Answer → CaddyAnswer

-- Whether a request is one for the metrics.
pub is_metrics : CaddyHandler → Url → Bool
is_metrics c u = not (no_text c.metrics_path) && same_text u.path c.metrics_path

-- Handler.ServeHTTP, with whether there is a next handler.
pub serve_http :
    (Answer → Bool)
    → Decoders
    → Env
    → CaddyHandler
    → Bool
    → Handler
    → Request
    → Url
    → CaddyAnswer × Handler
serve_http not_found dec env c has_next h r u =
    let out = serve env c.options h r (resolve_target_url dec c.upstream u) in
    if is_metrics c u
    then (metrics, h)
    else if c.options.passthrough && has_next
    then if not_found out.0 then (next, out.1) else (served out.0, out.1)
    else (served out.0, out.1)

-- The target of main, which decodes the path where there is no "url".
pub main_target : Decoders → Url → List ℕ
unfolding cut_prefix
main_target dec u = elim (cut_prefix stream_prefix u.path) [
  | none ↦ u.url_param
  | some encoded ↦
      let decoded : List ℕ = elim (dec.raw encoded) [
        | some decoded ↦ decoded
        | none ↦ elim (dec.padded encoded) [ some decoded ↦ decoded | none ↦ u.url_param ]
      ] in
      if no_text u.url_param then decoded else u.url_param
]

-- What the handler of main answers: its own status 400, "Missing 'url' parameter or base64 path", or
-- what Serve answers.
pub data MainAnswer : Type 0 where
  missing_url : MainAnswer
  handled : Answer → MainAnswer

-- The handler of main.
pub main_handler : Decoders → Env → HandlerOptions → Handler → Request → Url → MainAnswer × Handler
unfolding main_target
main_handler dec env opt h r u =
    let target = main_target dec u in
    if no_text target
    then (missing_url, h)
    else let out = serve env opt h r target in (handled out.0, out.1)
