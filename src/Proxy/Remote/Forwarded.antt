-- ===== src/Proxy/Remote/Forwarded.antt =====
-- Which headers of a request reach the upstream.
use rclone_vfs.Prelude.{
  ℕ, ◌≡◌, refl, sym, ap, ◌∙◌, inl, inr, true, false, some, List, [], ◌∷◌, ◌++◌, if◌then◌else◌, ◌==◌,
  ltb, arith, Bool-cases,
}
use rclone_vfs.Proxy.Remote.{
  HeaderName, range, if_range, if_modified_since, if_unmodified_since, if_none_match, if_match,
  authorization, cookie, other_header, number, Headers, values, del_header, set_header, add_header,
  copy_headers, RangeOption, range_header, RemoteFile, apply_options, open_request, per_request,
  upstream_headers,
}

values-append : (k : HeaderName) (g h : Headers) → values k (g ++ h) ≡ values k g ++ values k h
unfolding values
values-append k [] h = refl
values-append k ((j, v) ∷ g) h = elim (Bool-cases (number j == number k)) [
  | inl e ↦ rw (e, values) (ap (λ r. v ∷ r) (values-append k g h))
  | inr e ↦ rw (e, values) (values-append k g h)
]

append_nil : {A : Type 0} (xs : List A) → xs ++ [] ≡ xs
append_nil [] = refl
append_nil (x ∷ xs) = ap (λ r. x ∷ r) (append_nil xs)

append_assoc : {A : Type 0} (xs ys zs : List A) → (xs ++ ys) ++ zs ≡ xs ++ (ys ++ zs)
append_assoc [] ys zs = refl
append_assoc (x ∷ xs) ys zs = ap (λ r. x ∷ r) (append_assoc xs ys zs)

values_nil : (k : HeaderName) → values k [] ≡ []
unfolding values
values_nil k = refl

-- The loop that copies headers keeps the values of every name.
values-copy_headers :
    (k : HeaderName) (to h : Headers) → values k (copy_headers to h) ≡ values k to ++ values k h
unfolding copy_headers add_header
values-copy_headers k to [] =
    sym (append_nil (values k to)) ∙ ap (λ r. values k to ++ r) (sym (values_nil k))
values-copy_headers k to ((j, v) ∷ h) =
    values-copy_headers k (to ++ (j, v) ∷ []) h
    ∙ ap (λ r. r ++ values k h) (values-append k to ((j, v) ∷ []))
    ∙ append_assoc (values k to) (values k ((j, v) ∷ [])) (values k h)
    ∙ ap (λ r. values k to ++ r) (sym (values-append k ((j, v) ∷ []) h))

values-del_self :
    (j k : HeaderName) (h : Headers)
    → (number j == number k) ≡ true
    → values k (del_header j h) ≡ []
unfolding values del_header
values-del_self j k [] e = refl
values-del_self j k ((i, v) ∷ h) e = ground (arith, values-del_self j k h e)

values-del_ne :
    (j k : HeaderName) (h : Headers)
    → (number j == number k) ≡ false
    → values k (del_header j h) ≡ values k h
unfolding values del_header
values-del_ne j k [] e = refl
values-del_ne j k ((i, v) ∷ h) e = ground (arith, values-del_ne j k h e)

-- The names about one request have the first numbers.
per_request-number : (k : HeaderName) → per_request k ≡ ltb (number k) 6
unfolding per_request
per_request-number range = refl
per_request-number if_range = refl
per_request-number if_modified_since = refl
per_request-number if_unmodified_since = refl
per_request-number if_none_match = refl
per_request-number if_match = refl
per_request-number authorization = refl
per_request-number cookie = refl
per_request-number (other_header n) = ground arith

values-upstream_headers :
    (k : HeaderName) (h : Headers)
    → values k (upstream_headers h) ≡ (if per_request k then [] else values k h)
unfolding values upstream_headers
values-upstream_headers k [] = ground arith
values-upstream_headers k ((j, v) ∷ h) =
    let rest = values-upstream_headers k h in
    let jn = per_request-number j in
    let kn = per_request-number k in
    elim (Bool-cases (per_request j)) [
      | inl e ↦ rw (e, upstream_headers) (ground (arith, rest, jn, kn, e))
      | inr e ↦ rw (e, upstream_headers) (ground (arith, rest, jn, kn, e))
    ]

-- Of the conditions that RFC 9110 has for a request, and its Range, nothing is passed on.
pub forwarded_of : HeaderName → List (List ℕ) → List (List ℕ)
forwarded_of range vs = []
forwarded_of if_match vs = []
forwarded_of if_none_match vs = []
forwarded_of if_modified_since vs = []
forwarded_of if_unmodified_since vs = []
forwarded_of if_range vs = []
forwarded_of authorization vs = vs
forwarded_of cookie vs = vs
forwarded_of (other_header n) vs = vs

per_request-forwarded_of :
    (k : HeaderName) (vs : List (List ℕ)) → (if per_request k then [] else vs) ≡ forwarded_of k vs
unfolding per_request forwarded_of
per_request-forwarded_of range vs = refl
per_request-forwarded_of if_range vs = refl
per_request-forwarded_of if_modified_since vs = refl
per_request-forwarded_of if_unmodified_since vs = refl
per_request-forwarded_of if_none_match vs = refl
per_request-forwarded_of if_match vs = refl
per_request-forwarded_of authorization vs = refl
per_request-forwarded_of cookie vs = refl
per_request-forwarded_of (other_header n) vs = refl

-- What the upstream gets of a name, of a client's headers, when a range is asked for.
pub forwarded : HeaderName → RangeOption → Headers → List (List ℕ)
forwarded k o h =
    if number range == number k then (range_header o).1 ∷ [] else forwarded_of k (values k h)

values-set_header :
    (j k : HeaderName) (v : List ℕ) (h : Headers)
    → values k (set_header j v h) ≡ (if number j == number k then v ∷ [] else values k h)
unfolding set_header values
values-set_header j k v h = elim (Bool-cases (number j == number k)) [
  | inl e ↦ rw e (
      values-append k (del_header j h) ((j, v) ∷ [])
      ∙ ap (λ r. r ++ values k ((j, v) ∷ [])) (values-del_self j k h e)
      ∙ values_one j k v e)
  | inr e ↦ rw e (
      values-append k (del_header j h) ((j, v) ∷ [])
      ∙ ap (λ r. values k (del_header j h) ++ r) (values_other j k v e)
      ∙ append_nil (values k (del_header j h))
      ∙ values-del_ne j k h e)
]
  where
    values_one :
        (j k : HeaderName) (v : List ℕ)
        → (number j == number k) ≡ true
        → values k ((j, v) ∷ []) ≡ v ∷ []
    values_one j k v e = rw (e, values) refl

    values_other :
        (j k : HeaderName) (v : List ℕ)
        → (number j == number k) ≡ false
        → values k ((j, v) ∷ []) ≡ []
    values_other j k v e = rw (e, values) refl

-- Whatever headers a client sends: a request for a range of an object that has the headers Serve
-- keeps has the range that was asked for as its one Range header, no value of If-Match, If-None-Match,
-- If-Modified-Since, If-Unmodified-Since or If-Range, and of every other name the values that the client sent, in their order.
pub open_request-Forwarded :
    (f : RemoteFile) (o : RangeOption) (h : Headers)
    → f.headers ≡ upstream_headers h
    → (k : HeaderName) → values k (open_request f (some o ∷ [])).headers ≡ forwarded k o h
unfolding open_request apply_options range_header forwarded
open_request-Forwarded f o h kept k =
    let sent = copy_headers [] f.headers in
    let copied = values-copy_headers k [] f.headers ∙ ap (λ g. values k [] ++ values k g) kept in
    let upstream =
      copied
      ∙ ap (λ r. r ++ values k (upstream_headers h)) (values_nil k)
      ∙ values-upstream_headers k h
      ∙ per_request-forwarded_of k (values k h) in
    values-set_header range k (range_header o).1 sent
    ∙ ap (λ r. if number range == number k then (range_header o).1 ∷ [] else r) upstream
