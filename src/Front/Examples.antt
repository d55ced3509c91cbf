-- ===== src/Front/Examples.antt =====
-- The theorem on the front ends at a concrete request.
use rclone_vfs.Prelude.{◌≡◌, refl, true, false, none, some, [], ◌∷◌}
use rclone_vfs.Prelude.{pos}
use rclone_vfs.Proxy.Remote.{get_method}
use rclone_vfs.Proxy.Serve.{Request, same_text, no_text}
use rclone_vfs.Proxy.Samples.{quiet_handler, plain_options, env}
use rclone_vfs.Front.{
  Url, Decoders, CaddyHandler, is_metrics, serve_http, main_handler, main_target, missing_url,
}
use rclone_vfs.Front.Same.{caddy_answer, serve_http-main_handler}

-- A handler without an upstream, and decoders that know only the padded text.
abbrev dynamic : CaddyHandler
dynamic = record {
  upstream = none;
  scheme_ok = true;
  metrics_path = b'/' ∷ b'm' ∷ [];
  chunk_streams = pos 2;
  options = plain_options;
}

abbrev padded_only : Decoders
padded_only = record { raw = λ s. none; padded = λ s. some (b'u' ∷ s) }

-- "/stream/x"
abbrev streamed : Url
streamed = record {
  path = b'/' ∷ b's' ∷ b't' ∷ b'r' ∷ b'e' ∷ b'a' ∷ b'm' ∷ b'/' ∷ b'x' ∷ [];
  raw_query = [];
  url_param = [];
}

abbrev plain_request : Request
plain_request = record { method = get_method; headers = [] }

streamed_plain : is_metrics dynamic streamed ≡ false
unfolding is_metrics same_text no_text
streamed_plain = refl

serve_http-main_handler_example :
    let out = main_handler padded_only env plain_options quiet_handler plain_request streamed in
    (serve_http (λ a. false) padded_only env dynamic true quiet_handler plain_request streamed
      ≡ (caddy_answer out.0, out.1))
    × (out.0 ≡ missing_url → no_text (main_target padded_only streamed) ≡ true)
serve_http-main_handler_example =
    serve_http-main_handler (λ a. false) padded_only env dynamic true quiet_handler plain_request
      streamed refl refl streamed_plain
