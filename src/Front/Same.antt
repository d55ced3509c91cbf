-- ===== src/Front/Same.antt =====
-- The two front ends serve alike.
use rclone_vfs.Prelude.{
  ℕ, ◌≡◌, refl, sym, ap, ◌∙◌, inl, inr, Bool, true, false, not, ◌&&◌, Option, none, some, List, [],
  ◌∷◌, if◌then◌else◌, Bool-cases,
}
use rclone_vfs.Proxy.Serve.{
  Handler, HandlerOptions, Env, Request, Answer, target_required, no_text, serve,
}
use rclone_vfs.Front.{
  Url, Decoders, MainAnswer, missing_url, handled, CaddyAnswer, cut_prefix, stream_prefix,
  resolve_dynamic, resolve_target_url, CaddyHandler, served, is_metrics, serve_http, main_target,
  main_handler,
}

-- The two ways to choose between the value of "url" and what the path holds.
same_target :
    (dec : Decoders) (given : List ℕ) (held : Option (List ℕ))
    → (let main : List ℕ = elim held [
      | none ↦ given
      | some encoded ↦
          let decoded : List ℕ = elim (dec.raw encoded) [
            | some decoded ↦ decoded
            | none ↦ elim (dec.padded encoded) [ some decoded ↦ decoded | none ↦ given ]
          ] in
          if no_text given then decoded else given
    ] in
        main)
      ≡ (if not (no_text given) then given else elim held [
        | none ↦ []
        | some encoded ↦ elim (dec.raw encoded) [
          | some decoded ↦ decoded
          | none ↦ elim (dec.padded encoded) [ some decoded ↦ decoded | none ↦ [] ]
        ]
      ])
unfolding no_text
same_target dec [] none = refl
same_target dec [] (some encoded) = refl
same_target dec (c ∷ s) none = refl
same_target dec (c ∷ s) (some encoded) = refl

main_target-resolve_dynamic : (dec : Decoders) (u : Url) → main_target dec u ≡ resolve_dynamic dec u
unfolding main_target resolve_dynamic
main_target-resolve_dynamic dec u = same_target dec u.url_param (cut_prefix stream_prefix u.path)

-- What the Caddy handler answers where main answers so: the two texts of the status 400 differ.
pub caddy_answer : MainAnswer → CaddyAnswer
caddy_answer missing_url = served target_required
caddy_answer (handled a) = served a

abbrev answered : Answer × Handler → CaddyAnswer × Handler
answered out = (served out.0, out.1)

handled_clash : {a : Answer} → handled a ≡ missing_url → ⊥
handled_clash e = cc

-- Serve answers a request without a target with a text of its own.
serve-untargeted :
    (env : Env) (opt : HandlerOptions) (h : Handler) (r : Request) (url : List ℕ)
    → let main : MainAnswer × Handler =
        if no_text url
        then (missing_url, h)
        else (handled (serve env opt h r url).0, (serve env opt h r url).1) in
      (answered (serve env opt h r url) ≡ (caddy_answer main.0, main.1))
      × (main.0 ≡ missing_url → no_text url ≡ true)
unfolding serve caddy_answer
serve-untargeted env opt h r url = elim (Bool-cases (no_text url)) [
  | inl t ↦ rw t (refl, λ e. refl)
  | inr t ↦ rw t (refl, λ e. absurd (handled_clash e))
]

-- A Caddy handler without an upstream, without the passthrough option or a next handler, answers
-- every request that is not for its metrics like the handler of main with the same options, and leaves
-- the same handler, but for one difference: where main answers that the parameter or path is
-- missing, which it does only if it finds no target, the Caddy handler leaves Serve's answer that a target is required.
pub serve_http-main_handler :
    (not_found : Answer → Bool) (dec : Decoders) (env : Env) (c : CaddyHandler) (has_next : Bool)
    (h : Handler) (r : Request) (u : Url)
    → c.upstream ≡ none
    → (c.options.passthrough && has_next) ≡ false
    → is_metrics c u ≡ false
    → let out = main_handler dec env c.options h r u in
      (serve_http not_found dec env c has_next h r u ≡ (caddy_answer out.0, out.1))
      × (out.0 ≡ missing_url → no_text (main_target dec u) ≡ true)
unfolding serve_http main_handler resolve_target_url
serve_http-main_handler not_found dec env c has_next h r u none_up alone plain =
    let target = main_target-resolve_dynamic dec u in
    let same = ap (λ up. resolve_target_url dec up u) none_up in
    let both = serve-untargeted env c.options h r (main_target dec u) in
    let out = ap (λ t. answered (serve env c.options h r t)) (sym (target ∙ sym same)) ∙ both.0 in
    (rw (plain, alone) out, both.1)
