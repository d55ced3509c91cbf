-- ===== src/Proxy/Remote.antt =====
-- pkg/proxy/remote.go, internal/types/remote.go, and in proxy.go the headers that Serve passes on: the object
-- that is fetched over HTTP, and the headers of its requests. What the HTTP client returns is a
-- parameter, errors of building a request included.

pub mod Forwarded
use rclone_vfs.Prelude.{
  ℕ, suc, ◌+◌, Bool, true, false, ◌||◌, Option, none, some, List, [], ◌∷◌, ◌++◌, if◌then◌else◌,
  ◌==◌, ℤ, ltb_ℤ,
}
use rclone_vfs.Prelude
use rclone_vfs.Proxy.Size.{format_int}

-- The names of headers that the code mentions, and the others by number.
pub data HeaderName : Type 0 where
  range if_range if_modified_since if_unmodified_since if_none_match if_match : HeaderName
  authorization cookie : HeaderName
  other_header : ℕ → HeaderName

-- Equal names have equal numbers.
abbrev pub number : HeaderName → ℕ
number range = 0
number if_range = 1
number if_modified_since = 2
number if_unmodified_since = 3
number if_none_match = 4
number if_match = 5
number authorization = 6
number cookie = 7
number (other_header n) = 8 + n

-- http.Header: the values with their names, those of one name in their order.
abbrev pub Headers : Type 0
Headers = List (HeaderName × List ℕ)

-- The values of a name.
pub values : HeaderName → Headers → List (List ℕ)
values k [] = []
values k ((j, v) ∷ h) = let rest = values k h in if number j == number k then v ∷ rest else rest

-- http.Header.Get
pub get_header : HeaderName → Headers → List ℕ
unfolding values
get_header k h = elim (values k h) [ [] ↦ [] | v ∷ _ ↦ v ]

-- http.Header.Del
del_header : HeaderName → Headers → Headers
del_header k [] = []
del_header k ((j, v) ∷ h) =
    let rest = del_header k h in if number j == number k then rest else (j, v) ∷ rest

-- http.Header.Set
pub set_header : HeaderName → List ℕ → Headers → Headers
unfolding del_header
set_header k v h = del_header k h ++ (k, v) ∷ []

-- http.Header.Add
pub add_header : HeaderName → List ℕ → Headers → Headers
add_header k v h = h ++ (k, v) ∷ []

-- The loops that add every header of one request to another.
pub copy_headers : Headers → Headers → Headers
unfolding add_header
copy_headers to [] = to
copy_headers to ((k, v) ∷ h) = copy_headers (add_header k v to) h

-- The methods that the code mentions, and the others by number.
pub data Method : Type 0 where
  get_method head_method post_method put_method patch_method delete_method purge_method : Method
  other_method : ℕ → Method

-- A request that the client sends, and what it returns.
pub record ClientRequest : Type 0 where
  pub method : Method
  pub url : List ℕ
  pub headers : Headers

pub record ClientResponse : Type 0 where
  pub status : ℕ
  pub headers : Headers
  pub content_length : List ℕ
  pub last_modified : List ℕ
  pub body : List ℕ

abbrev pub Client : Type 0
Client = ClientRequest → Option ClientResponse

-- strconv.FormatInt in base 10.
pub format_signed : ℤ → List ℕ
format_signed (Prelude.pos n) = format_int n
format_signed (Prelude.negsuc n) = b'-' ∷ format_int (suc n)

-- type RangeOption, whose end is the last byte
pub record RangeOption : Type 0 where
  pub start : ℤ
  pub end' : ℤ

-- RangeOption.Header
pub range_header : RangeOption → HeaderName × List ℕ
unfolding format_signed
range_header o =
    let from = b'b' ∷ b'y' ∷ b't' ∷ b'e' ∷ b's' ∷ b'=' ∷ format_signed o.start ++ b'-' ∷ [] in
    (range, if ltb_ℤ o.end' (Prelude.pos 0) then from else from ++ format_signed o.end')

-- type remoteFile
pub record RemoteFile : Type 0 where
  pub url : List ℕ
  pub headers : Headers
  pub size : ℤ
  pub mod_time : Option ℤ

-- The loop of Open over its options, where none is a nil one.
apply_options : List (Option RangeOption) → Headers → Headers
unfolding set_header range_header
apply_options [] h = h
apply_options (none ∷ os) h = apply_options os h
apply_options (some o ∷ os) h =
    let header = range_header o in apply_options os (set_header header.0 header.1 h)

-- The request of remoteFile.Open.
pub open_request : RemoteFile → List (Option RangeOption) → ClientRequest
unfolding apply_options copy_headers
open_request f options = record {
  method = get_method;
  url = f.url;
  headers = apply_options options (copy_headers [] f.headers);
}

-- remoteFile.Open: the body, or none for an error.
pub remote_open : Client → RemoteFile → List (Option RangeOption) → Option (List ℕ)
unfolding open_request
remote_open client f options = elim (client (open_request f options)) [
  | none ↦ none
  | some resp ↦ if resp.status == 200 || resp.status == 206 then some resp.body else none
]

-- The headers that Serve keeps for the upstream: those that are not about this request.
per_request : HeaderName → Bool
per_request range = true
per_request if_range = true
per_request if_modified_since = true
per_request if_unmodified_since = true
per_request if_none_match = true
per_request if_match = true
per_request _ = false

-- The loop of Serve that builds them.
pub upstream_headers : Headers → Headers
unfolding per_request
upstream_headers [] = []
upstream_headers ((k, v) ∷ h) =
    let rest = upstream_headers h in if per_request k then rest else (k, v) ∷ rest
