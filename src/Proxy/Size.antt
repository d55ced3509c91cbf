-- ===== src/Proxy/Size.antt =====
-- pkg/proxy/proxy.go: parseSize, and the numbers of the Content-Length header. A text is the list of
-- its bytes. Of strconv, FormatInt and ParseInt in base 10 are written out; any of ParseInt's errors
-- is none, since the source treats them alike.
pub mod RoundTrip
use rclone_vfs.Prelude.{
  ℕ, zero, suc, ◌+◌, ◌-◌, ◌*◌, ◌/◌, ◌%◌, ◌^◌, Bool, true, false, ◌&&◌, ◌||◌, Option, none, some,
  List, [], ◌∷◌, if◌then◌else◌, ltb, leb, ◌==◌, ℤ,
}
use rclone_vfs.Prelude.{pos, negsuc}

-- The number of values of an int64 that are not negative.
abbrev pub int64_limit : ℕ
int64_limit = 2 ^ 63

pub is_digit : ℕ → Bool
is_digit c = leb b'0' c && leb c b'9'

-- The white space of strings.TrimSpace, in ASCII.
unfoldable pub is_space : ℕ → Bool
is_space c = c == 32 || leb 9 c && leb c 13

trim_left : List ℕ → List ℕ
trim_left [] = []
trim_left (c ∷ s) = if is_space c then trim_left s else c ∷ s

trim_right : List ℕ → List ℕ
trim_right [] = []
trim_right (c ∷ s) = elim (trim_right s) [
  | [] ↦ if is_space c then [] else c ∷ []
  | d ∷ r ↦ c ∷ d ∷ r
]

-- strings.TrimSpace
pub trim_space : List ℕ → List ℕ
unfolding trim_left trim_right
trim_space s = trim_left (trim_right s)

-- The digits of strconv.ParseInt, from the value of those before them.
unfoldable pub parse_digits : ℕ → List ℕ → Option ℕ
unfolding is_digit
parse_digits n [] = some n
parse_digits n (c ∷ s) =
    let rest = parse_digits (n * 10 + (c - b'0')) s in if is_digit c then rest else none

-- An int64 of a sign and a magnitude.
pub signed : Bool → ℕ → Option ℤ
signed false n = if ltb n int64_limit then some (pos n) else none
signed true n =
    if n == 0 then some (pos 0) else if leb n int64_limit then some (negsuc (n - 1)) else none

parse_magnitude : Bool → List ℕ → Option ℤ
unfolding signed
parse_magnitude neg [] = none
parse_magnitude neg (c ∷ s) = elim (parse_digits 0 (c ∷ s)) [ none ↦ none | some n ↦ signed neg n ]

-- strconv.ParseInt(s, 10, 64)
pub parse_int : List ℕ → Option ℤ
unfolding parse_magnitude
parse_int [] = none
parse_int (c ∷ s) =
    if c == b'-'
    then parse_magnitude true s
    else if c == b'+'
    then parse_magnitude false s
    else parse_magnitude false (c ∷ s)

-- strconv.FormatInt of a number that is not negative, on fuel above the number.
pub format_digits : ℕ → ℕ → List ℕ → List ℕ
format_digits zero n out = out
format_digits (suc f) n out =
    let rest = format_digits f (n / 10) ((b'0' + n % 10) ∷ out) in
    if ltb n 10 then (b'0' + n) ∷ out else rest

pub format_int : ℕ → List ℕ
unfolding format_digits
format_int n = format_digits (suc n) n []

-- The int64 that a product wraps around to.
pub wrap64 : ℕ → ℤ
wrap64 n =
    if ltb (n % 2 ^ 64) int64_limit then pos (n % 2 ^ 64) else negsuc (2 ^ 64 - n % 2 ^ 64 - 1)

-- The product of an int64 with a multiplier.
pub mul64 : ℤ → ℕ → ℤ
unfolding wrap64
mul64 (pos n) m = wrap64 (n * m)
mul64 (negsuc n) m = wrap64 (2 ^ 64 - (suc n * m) % 2 ^ 64)

-- The multiplier of a unit.
unfoldable pub unit_of : ℕ → Option ℕ
unit_of c =
    if c == b'k' || c == b'K'
    then some (2 ^ 10)
    else if c == b'M' || c == b'm'
    then some (2 ^ 20)
    else if c == b'G' || c == b'g'
    then some (2 ^ 30)
    else if c == b'T' || c == b't'
    then some (2 ^ 40)
    else none

-- A text without its last byte, and that byte.
pub split_last : ℕ → List ℕ → List ℕ × ℕ
split_last c [] = ([], c)
split_last c (d ∷ s) = let rest = split_last d s in (c ∷ rest.0, rest.1)

-- The number of a text times a multiplier.
scaled : ℕ → List ℕ → Option ℤ
unfolding parse_int mul64
scaled m s = elim (parse_int s) [ none ↦ none | some v ↦ some (mul64 v m) ]

-- The number of a text by its last byte, which may be a unit.
by_unit : List ℕ → List ℕ × ℕ → Option ℤ
unfolding scaled unit_of
by_unit s last = elim (unit_of last.1) [ some m ↦ scaled m last.0 | none ↦ scaled 1 s ]

-- parseSize of a trimmed text.
parse_trimmed : List ℕ → Option ℤ
unfolding by_unit split_last
parse_trimmed [] = some (pos 0)
parse_trimmed (c ∷ s) = by_unit (c ∷ s) (split_last c s)

-- parseSize: none is an error.
unfoldable pub parse_size : List ℕ → Option ℤ
unfolding trim_space parse_trimmed
parse_size s = parse_trimmed (trim_space s)

-- The size that newHTTPFile takes from a Content-Length header, where [] is one that is missing.
pub head_size : List ℕ → ℤ
unfolding parse_int
head_size [] = negsuc 0
head_size (c ∷ s) = elim (parse_int (c ∷ s)) [ none ↦ negsuc 0 | some v ↦ v ]
