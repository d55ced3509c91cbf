-- ===== src/Proxy/Size/RoundTrip.antt =====
-- pkg/proxy/proxy.go: what parseSize and newHTTPFile read of the numbers that are printed.
use rclone_vfs.Prelude.{
  ℕ, zero, suc, ◌+◌, ◌-◌, ◌*◌, ◌/◌, ◌%◌, ◌<◌, ◌≡◌, ◌↔◌, refl, sym, ap, ◌∙◌, true, false, none, some,
  List, [], ◌∷◌, ◌++◌, ltb, ℤ, arith, Bool-cases, inl, inr,
}
use rclone_vfs.Prelude.{pos}
use rclone_vfs.Proxy.Size.{
  int64_limit, is_digit, is_space, trim_left, trim_right, trim_space, parse_digits, parse_magnitude,
  parse_int, format_digits, format_int, wrap64, mul64, unit_of, split_last, scaled, by_unit,
  parse_trimmed, parse_size, head_size,
}

-- Reading the digits that are written in front of a text goes on with their number.
parse_digits-format_digits :
    (f n : ℕ) (out : List ℕ) → n < f → parse_digits 0 (format_digits f n out) ≡ parse_digits n out
unfolding format_digits parse_digits
parse_digits-format_digits zero n out h = elim h [ ]
parse_digits-format_digits (suc f) n out h = elim (Bool-cases (ltb n 10)) [
  | inl small ↦ ground arith
  | inr large ↦ ground (arith, parse_digits-format_digits f (n / 10) ((b'0' + n % 10) ∷ out))
]

-- What is written begins with a digit.
format_digits_first :
    (f n : ℕ) (out : List ℕ)
    → n < f
    → (c : ℕ) × (s : List ℕ) × (format_digits f n out ≡ c ∷ s) × (is_digit c ≡ true)
unfolding format_digits is_digit
format_digits_first zero n out h = elim h [ ]
format_digits_first (suc f) n out h = elim (Bool-cases (ltb n 10)) [
  | inl small ↦ (b'0' + n, out, rw small, ground arith)
  | inr large ↦ rw large (format_digits_first f (n / 10) ((b'0' + n % 10) ∷ out) (ground arith))
]

parse_magnitude-first :
    (c n : ℕ) (s : List ℕ)
    → parse_digits 0 (c ∷ s) ≡ some n
    → n < int64_limit
    → parse_magnitude false (c ∷ s) ≡ some (pos n)
unfolding parse_magnitude
parse_magnitude-first c n s e h = ground (arith, e)

-- A text that begins with a digit and is all digits is read as its number.
parse_int_digits :
    (c n : ℕ) (s : List ℕ)
    → is_digit c ≡ true
    → parse_digits 0 (c ∷ s) ≡ some n
    → n < int64_limit
    → parse_int (c ∷ s) ≡ some (pos n)
unfolding parse_int is_digit
parse_int_digits c n s d e h = ground (arith, parse_magnitude-first c n s e h)

-- What a printed number is: a digit and more.
printed :
    (n : ℕ)
    → (c : ℕ) × (s : List ℕ) × (format_int n ≡ c ∷ s)
      × (is_digit c ≡ true)
      × (parse_digits 0 (c ∷ s) ≡ some n)
unfolding format_int parse_digits
printed n =
    let first = format_digits_first (suc n) n [] (omega arith) in
    (
      first.0,
      first.1,
      first.2,
      first.3,
      ap (parse_digits 0) (sym first.2) ∙ parse_digits-format_digits (suc n) n [] (omega arith),
    )

last_digit :
    (k c n : ℕ) (s : List ℕ) → parse_digits k (c ∷ s) ≡ some n → is_digit (split_last c s).1 ≡ true
unfolding parse_digits split_last
last_digit k c n [] e = ground arith
last_digit k c n (d ∷ s) e = last_digit (k * 10 + (c - b'0')) d n s (ground arith)

trim_right_kept :
    (c : ℕ) (s : List ℕ) → is_space (split_last c s).1 ≡ false → trim_right (c ∷ s) ≡ c ∷ s
unfolding trim_right split_last
trim_right_kept c [] h = ground arith
trim_right_kept c (d ∷ s) h = rw (trim_right_kept d s h, trim_right) refl

-- A text that begins with a digit and does not end in white space is not trimmed.
trim_space_kept :
    (c : ℕ) (s : List ℕ)
    → is_digit c ≡ true
    → is_space (split_last c s).1 ≡ false
    → trim_space (c ∷ s) ≡ c ∷ s
unfolding trim_space trim_left is_digit is_space
trim_space_kept c s d h = ap trim_left (trim_right_kept c s h) ∙ ground arith

digit_plain : (c : ℕ) → is_digit c ≡ true → (is_space c ≡ false) × (unit_of c ≡ none)
unfolding is_digit is_space unit_of
digit_plain c h = (ground arith, ground arith)

unit_plain : (u m : ℕ) → unit_of u ≡ some m → is_space u ≡ false
unfolding unit_of is_space
unit_plain u m h = ground arith

split_last_append : (c u : ℕ) (s : List ℕ) → split_last c (s ++ u ∷ []) ≡ (c ∷ s, u)
unfolding split_last
split_last_append c u [] = refl
split_last_append c u (d ∷ s) = rw (split_last_append d u s, split_last) refl

mul64_one : (n : ℕ) → n < int64_limit → mul64 (pos n) 1 ≡ pos n
unfolding mul64 wrap64
mul64_one n h = ground arith

scaled_lem : (m : ℕ) (s : List ℕ) (v : ℤ) → parse_int s ≡ some v → scaled m s ≡ some (mul64 v m)
unfolding scaled
scaled_lem m s v e = rw (e, scaled) refl

by_unit-none :
    (s : List ℕ) (last : List ℕ × ℕ) → unit_of last.1 ≡ none → by_unit s last ≡ scaled 1 s
unfolding by_unit
by_unit-none s last e = rw (e, by_unit) refl

by_unit-some :
    (s : List ℕ) (last : List ℕ × ℕ) (m : ℕ)
    → unit_of last.1 ≡ some m
    → by_unit s last ≡ scaled m last.0
unfolding by_unit
by_unit-some s last m e = rw (e, by_unit) refl

-- A number of bytes is read back.
parse_size_plain : (n : ℕ) → n < int64_limit → parse_size (format_int n) ≡ some (pos n)
unfolding parse_size parse_trimmed
parse_size_plain n h =
    let (c, s, e, d, v) = printed n in
    let last = digit_plain (split_last c s).1 (last_digit 0 c n s v) in
    let number = parse_int_digits c n s d v h in
    ap parse_size e
    ∙ ap parse_trimmed (trim_space_kept c s d last.0)
    ∙ by_unit-none (c ∷ s) (split_last c s) last.1
    ∙ scaled_lem 1 (c ∷ s) (pos n) number
    ∙ ap some (mul64_one n h)

-- A number with a unit.
parse_size_unit :
    (n u m : ℕ)
    → n < int64_limit
    → unit_of u ≡ some m
    → parse_size (format_int n ++ u ∷ []) ≡ some (wrap64 (n * m))
unfolding parse_size parse_trimmed mul64
parse_size_unit n u m h unit =
    let (c, s, e, d, v) = printed n in
    let ends = split_last_append c u s in
    let number = parse_int_digits c n s d v h in
    let space : is_space (split_last c (s ++ u ∷ [])).1 ≡ false =
      ap (λ (r : List ℕ × ℕ). is_space r.1) ends ∙ unit_plain u m unit in
    ap (λ t. parse_size (t ++ u ∷ [])) e
    ∙ ap parse_trimmed (trim_space_kept c (s ++ u ∷ []) d space)
    ∙ ap (by_unit (c ∷ (s ++ u ∷ []))) ends
    ∙ by_unit-some (c ∷ (s ++ u ∷ [])) (c ∷ s, u) m unit
    ∙ scaled_lem m (c ∷ s) (pos n) number

-- The size of a printed Content-Length.
head_size-format_int : (n : ℕ) → n < int64_limit → head_size (format_int n) ≡ pos n
unfolding head_size
head_size-format_int n h =
    let (c, s, e, d, v) = printed n in
    ap head_size e ∙ rw (parse_int_digits c n s d v h, head_size) refl

-- What a printed size with a unit is read as.
pub record Sized (n u m : ℕ) : Type 0 where
  pub plain : parse_size (format_int n) ≡ some (pos n)
  pub announced : head_size (format_int n) ≡ pos n
  pub scaled : parse_size (format_int n ++ u ∷ []) ≡ some (wrap64 (n * m))
  pub fits : (wrap64 (n * m) ≡ pos (n * m)) ↔ (n * m < int64_limit)

wrap64_iff : (k : ℕ) → (wrap64 k ≡ pos k) ↔ (k < int64_limit)
unfolding wrap64
wrap64_iff k = (λ e. ground arith, λ h. ground arith)

-- The decimal print of an int64 that is not negative is read back as the number, by parseSize and by
-- newHTTPFile where it is the Content-Length that Serve has written. With a unit
-- behind it, parseSize gives the int64 that the number times the unit wraps around to, without an error;
-- that is the product exactly when the product fits.
pub parse_size-Sized : (n u m : ℕ) → n < int64_limit → unit_of u ≡ some m → Sized n u m
parse_size-Sized n u m h unit = record {
  plain = parse_size_plain n h;
  announced = head_size-format_int n h;
  scaled = parse_size_unit n u m h unit;
  fits = wrap64_iff (n * m);
}
