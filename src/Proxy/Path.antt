-- ===== src/Proxy/Path.antt =====
-- pkg/proxy/proxy.go: hashCachePath. MD5 in hexadecimal is a parameter.
pub mod Keys
use rclone_vfs.Prelude.{
  ℕ, zero, suc, Bool, true, false, Option, none, some, List, [], ◌∷◌, ◌++◌, if◌then◌else◌, ltb,
  ◌==◌, ℤ, ltb_ℤ, pos_part,
}
use rclone_vfs.Prelude.{pos}

-- The text before the first byte `c`, which is all of it if there is none.
pub before : ℕ → List ℕ → List ℕ
before c [] = []
before c (d ∷ s) = let rest = before c s in if c == d then [] else d ∷ rest

-- The text from the first byte `c` on.
pub from : ℕ → List ℕ → Option (List ℕ)
from c [] = none
from c (d ∷ s) = let rest = from c s in if c == d then some (d ∷ s) else rest

-- The text behind "://", if it begins with that.
scheme_mark : List ℕ → Option (List ℕ)
scheme_mark (a ∷ b ∷ c ∷ s) =
    if a == b':' then if b == b'/' then if c == b'/' then some s else none else none else none
scheme_mark _ = none

-- The text behind the first "://".
pub after_scheme : List ℕ → Option (List ℕ)
unfolding scheme_mark
after_scheme [] = none
after_scheme (c ∷ s) = elim (scheme_mark (c ∷ s)) [ some rest ↦ some rest | none ↦ after_scheme s ]

-- The fields of Handler that say how a URL becomes a path of the cache.
pub record KeyOptions : Type 0 where
  pub strip_query : Bool
  pub strip_domain : Bool
  pub shard_level : ℤ

-- The path of a URL, "/" if there is none.
pub path_of : List ℕ → List ℕ
unfolding from
path_of s = elim (from b'/' s) [ some p ↦ p | none ↦ b'/' ∷ [] ]

-- A URL without its query, if that is asked for.
pub strip_query_of : KeyOptions → List ℕ → List ℕ
unfolding before
strip_query_of opt url = if opt.strip_query then before b'?' url else url

-- A URL without its scheme and host.
pub strip_domain_of : List ℕ → List ℕ
unfolding after_scheme path_of
strip_domain_of url = elim (after_scheme url) [ none ↦ url | some rest ↦ path_of rest ]

-- hashCachePath up to the hash: what of the URL counts.
pub cache_key : KeyOptions → List ℕ → List ℕ
unfolding strip_query_of strip_domain_of
cache_key opt url =
    let asked = strip_query_of opt url in if opt.strip_domain then strip_domain_of asked else asked

-- The directories of a hash: two digits for each level, as long as the hash has some.
pub shards : ℕ → List ℕ → List ℕ
shards zero hash = []
shards (suc l) (a ∷ b ∷ hash) = a ∷ b ∷ b'/' ∷ shards l hash
shards (suc l) _ = []

-- Handler.hashCachePath
pub hash_cache_path : (List ℕ → List ℕ) → KeyOptions → List ℕ → List ℕ
unfolding cache_key shards
hash_cache_path md5 opt url =
    let hash = md5 (cache_key opt url) in
    if ltb_ℤ (pos 0) opt.shard_level then shards (pos_part opt.shard_level) hash ++ hash else hash
