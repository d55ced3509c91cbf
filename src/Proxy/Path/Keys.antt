-- ===== src/Proxy/Path/Keys.antt =====
-- pkg/proxy/proxy.go: which URLs share a path of the cache.
use rclone_vfs.Prelude.{
  ℕ, ◌-◌, ◌≡◌, ◌↔◌, refl, sym, ap, ◌∙◌, Bool, true, false, none, some, List, [], ◌∷◌, ◌++◌,
  if◌then◌else◌, ◌==◌, ◌||◌, ltb_ℤ, pos_part, arith, Bool-cases, inl, inr, length, drop,
  length-append, drop-append,
}
use rclone_vfs.Prelude.{pos}
use rclone_vfs.Proxy.Path.{
  before, from, scheme_mark, after_scheme, KeyOptions, path_of, strip_query_of, strip_domain_of,
  cache_key, shards, hash_cache_path,
}

-- What is left when the last `n` elements are kept.
abbrev pub last : ℕ → List ℕ → List ℕ
last n s = drop (length s - n) s

last-append : (xs ys : List ℕ) → last (length ys) (xs ++ ys) ≡ ys
last-append xs ys =
    ap (λ k. drop k (xs ++ ys)) (omega (arith, length-append xs ys)) ∙ drop-append xs ys

-- The end of a path is the hash.
last-hash_cache_path :
    (md5 : List ℕ → List ℕ) (opt : KeyOptions) (url : List ℕ)
    → last (length (md5 (cache_key opt url))) (hash_cache_path md5 opt url)
      ≡ md5 (cache_key opt url)
unfolding hash_cache_path
last-hash_cache_path md5 opt url =
    let hash = md5 (cache_key opt url) in
    elim (Bool-cases (ltb_ℤ (pos 0) opt.shard_level)) [
      | inl t ↦ rw t (last-append (shards (pos_part opt.shard_level) hash) hash)
      | inr f ↦ rw f (last-append [] hash)
    ]

hash_cache_path_iff :
    (md5 : List ℕ → List ℕ) (opt : KeyOptions) (url other : List ℕ)
    → ((s t : List ℕ) → length (md5 s) ≡ length (md5 t))
    → (hash_cache_path md5 opt url ≡ hash_cache_path md5 opt other)
      ↔ (md5 (cache_key opt url) ≡ md5 (cache_key opt other))
unfolding hash_cache_path
hash_cache_path_iff md5 opt url other same =
    let size = same (cache_key opt url) (cache_key opt other) in
    (
      λ e.
          sym (last-hash_cache_path md5 opt url)
          ∙ ap (λ p. last (length (md5 (cache_key opt url))) p) e
          ∙ ap (λ k. last k (hash_cache_path md5 opt other)) size
          ∙ last-hash_cache_path md5 opt other,
      λ e.
          ap
            (λ h.
              if ltb_ℤ (pos 0) opt.shard_level then shards (pos_part opt.shard_level) h ++ h else h)
            e,
    )

-- Whether a text has a byte.
unfoldable pub has_byte : ℕ → List ℕ → Bool
has_byte c [] = false
has_byte c (d ∷ s) = c == d || has_byte c s

before-append : (c : ℕ) (s t : List ℕ) → before c (s ++ c ∷ t) ≡ before c s
unfolding before
before-append c [] t = ground arith
before-append c (d ∷ s) t = ground (arith, before-append c s t)

from-append : (c : ℕ) (s t : List ℕ) → has_byte c s ≡ false → from c (s ++ c ∷ t) ≡ some (c ∷ t)
unfolding from has_byte
from-append c [] t h = ground arith
from-append c (d ∷ s) t h = ground (arith, from-append c s t)

no_mark : (c : ℕ) (s : List ℕ) → (b':' == c) ≡ false → scheme_mark (c ∷ s) ≡ none
unfolding scheme_mark
no_mark c [] h = refl
no_mark c (d ∷ []) h = refl
no_mark c (d ∷ e ∷ s) h = ground arith

after_scheme-append :
    (s t : List ℕ) → has_byte b':' s ≡ false → after_scheme (s ++ b':' ∷ b'/' ∷ b'/' ∷ t) ≡ some t
unfolding after_scheme has_byte
after_scheme-append [] t h = refl
after_scheme-append (c ∷ s) t h =
    rw (no_mark c (s ++ b':' ∷ b'/' ∷ b'/' ∷ t) (ground arith), after_scheme)
      (after_scheme-append s t (ground arith))

-- A URL of a scheme, a host and a path.
abbrev pub url_of : List ℕ → List ℕ → List ℕ → List ℕ
url_of scheme host path = scheme ++ b':' ∷ b'/' ∷ b'/' ∷ (host ++ b'/' ∷ path)

strip_query_of-query :
    (opt : KeyOptions) (url query : List ℕ)
    → opt.strip_query ≡ true
    → strip_query_of opt (url ++ b'?' ∷ query) ≡ strip_query_of opt url
unfolding strip_query_of
strip_query_of-query opt url query h = rw h (before-append b'?' url query)

cache_key-query :
    (opt : KeyOptions) (url query : List ℕ)
    → opt.strip_query ≡ true
    → cache_key opt (url ++ b'?' ∷ query) ≡ cache_key opt url
unfolding cache_key
cache_key-query opt url query h =
    ap (λ (asked : List ℕ). if opt.strip_domain then strip_domain_of asked else asked)
      (strip_query_of-query opt url query h)

strip_domain_of-url :
    (scheme host path : List ℕ)
    → has_byte b':' scheme ≡ false
    → has_byte b'/' host ≡ false
    → strip_domain_of (url_of scheme host path) ≡ b'/' ∷ path
unfolding strip_domain_of path_of
strip_domain_of-url scheme host path s h =
    rw (after_scheme-append scheme (host ++ b'/' ∷ path) s, strip_domain_of)
      (rw (from-append b'/' host path h, path_of) refl)

cache_key-domain :
    (opt : KeyOptions) (scheme host path : List ℕ)
    → opt.strip_query ≡ false
    → opt.strip_domain ≡ true
    → has_byte b':' scheme ≡ false
    → has_byte b'/' host ≡ false
    → cache_key opt (url_of scheme host path) ≡ b'/' ∷ path
unfolding cache_key strip_query_of
cache_key-domain opt scheme host path q d s h = rw (q, d) (strip_domain_of-url scheme host path s h)

-- With strip_domain and without strip_query, where all hashes have one length: two URLs of which
-- each has a scheme without a colon, a host without a slash and a path have one path in the cache
-- exactly when their paths, from the slash on, have one hash, whatever their schemes and hosts are.
pub hash_cache_path-domain :
    (md5 : List ℕ → List ℕ) (opt : KeyOptions) (scheme host path scheme' host' path' : List ℕ)
    → ((s t : List ℕ) → length (md5 s) ≡ length (md5 t))
    → opt.strip_query ≡ false
    → opt.strip_domain ≡ true
    → has_byte b':' scheme ≡ false
    → has_byte b'/' host ≡ false
    → has_byte b':' scheme' ≡ false
    → has_byte b'/' host' ≡ false
    → (hash_cache_path md5 opt (url_of scheme host path)
        ≡ hash_cache_path md5 opt (url_of scheme' host' path'))
      ↔ (md5 (b'/' ∷ path) ≡ md5 (b'/' ∷ path'))
hash_cache_path-domain md5 opt scheme host path scheme' host' path' same q d s h s' h' =
    let url = url_of scheme host path in
    let other = url_of scheme' host' path' in
    let key = ap md5 (cache_key-domain opt scheme host path q d s h) in
    let key' = ap md5 (cache_key-domain opt scheme' host' path' q d s' h') in
    let iff = hash_cache_path_iff md5 opt url other same in
    (λ e. sym key ∙ iff.0 e ∙ key', λ e. iff.1 (key ∙ e ∙ sym key'))

-- With strip_query, where all hashes have one length: two URLs with queries have one path in the
-- cache exactly when the URLs without them have keys of one hash, whatever the queries are.
pub hash_cache_path-query :
    (md5 : List ℕ → List ℕ) (opt : KeyOptions) (url query url' query' : List ℕ)
    → ((s t : List ℕ) → length (md5 s) ≡ length (md5 t))
    → opt.strip_query ≡ true
    → (hash_cache_path md5 opt (url ++ b'?' ∷ query)
        ≡ hash_cache_path md5 opt (url' ++ b'?' ∷ query'))
      ↔ (md5 (cache_key opt url) ≡ md5 (cache_key opt url'))
hash_cache_path-query md5 opt url query url' query' same h =
    let key = ap md5 (cache_key-query opt url query h) in
    let key' = ap md5 (cache_key-query opt url' query' h) in
    let iff = hash_cache_path_iff md5 opt (url ++ b'?' ∷ query) (url' ++ b'?' ∷ query') same in
    (λ e. sym key ∙ iff.0 e ∙ key', λ e. iff.1 (key ∙ e ∙ sym key'))
