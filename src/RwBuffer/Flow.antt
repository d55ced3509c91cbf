-- ===== src/RwBuffer/Flow.antt =====
-- Bytes leave the buffer in the order in which they came in.
use rclone_vfs.Prelude.{
  ℕ, zero, suc, ◌+◌, ◌≤◌, min, ◌≡◌, refl, sym, ap, ◌∙◌, inl, inr, Option, some, List, [], ◌∷◌, ◌++◌,
  arith, leb, Bool-cases, length, take, drop, ◌≢◌, length-append, length-drop, take-append-drop,
}
use rclone_vfs.RwBuffer.{
  Rw, ReadError, ok, eof, broken, new, write_chunk, read_loop, read_from, read, close,
}

zero_least : (l : ℕ) → min 0 l ≡ 0
zero_least l = omega arith

suc_least : (n l : ℕ) → min (suc n) (suc l) ≡ suc (min n l)
suc_least n l = omega arith

zero_sum : (k : ℕ) → 0 + k ≡ k
zero_sum k = omega arith

suc_sum : (m k : ℕ) → suc m + k ≡ suc (m + k)
suc_sum m k = omega arith

module _ {ℓ} {A : Type ℓ} where
  append_nil : (xs : List A) → xs ++ [] ≡ xs
  append_nil [] = refl
  append_nil (x ∷ xs) = ap (λ l. x ∷ l) (append_nil xs)

  append_assoc : (xs ys zs : List A) → (xs ++ ys) ++ zs ≡ xs ++ (ys ++ zs)
  append_assoc [] ys zs = refl
  append_assoc (x ∷ xs) ys zs = ap (λ l. x ∷ l) (append_assoc xs ys zs)

  take_nil : (k : ℕ) → take {A = A} k [] ≡ []
  take_nil zero = refl
  take_nil (suc k) = refl

  take_least : (n : ℕ) (xs : List A) → take (min n (length xs)) xs ≡ take n xs
  take_least zero xs = rw zero_least
  take_least (suc n) [] = take_nil (min (suc n) 0)
  take_least (suc n) (x ∷ xs) = rw suc_least (ap (λ l. x ∷ l) (take_least n xs))

  take_sum : (m k : ℕ) (xs : List A) → take (m + k) xs ≡ take m xs ++ take k (drop m xs)
  take_sum zero k xs = rw zero_sum
  take_sum (suc m) k [] = take_nil (suc m + k) ∙ sym (take_nil k)
  take_sum (suc m) k (x ∷ xs) = rw suc_sum (ap (λ l. x ∷ l) (take_sum m k xs))

  -- The front of a list grows by the front of the rest.
  take_add :
      (m n : ℕ) (xs : List A)
      → take (m + min n (length (drop m xs))) xs ≡ take m xs ++ take n (drop m xs)
  take_add m n xs =
      take_sum m (min n (length (drop m xs))) xs
      ∙ ap (λ l. take m xs ++ l) (take_least n (drop m xs))

  take_within : (n : ℕ) (xs ys : List A) → n ≤ length xs → take n (xs ++ ys) ≡ take n xs
  take_within zero xs ys h = refl
  take_within (suc n) [] ys h = elim h [ ]
  take_within (suc n) (x ∷ xs) ys h = ap (λ l. x ∷ l) (take_within n xs ys (omega arith))

-- What the goroutine and the reader do with the buffer.
pub data Event : Type 0 where
  written : List ℕ → Event
  reads : ℕ → Event
  closes : Event

step : Rw → Event → List ℕ × Rw
step w (written bytes) = ([], write_chunk w bytes)
step w (reads n) = let r = read w n in (r.0.0, r.1)
step w closes = ([], close w)

-- The bytes that the reads of a run deliver, and the buffer after it.
pub run : Rw → List Event → List ℕ × Rw
unfolding step
run w [] = ([], w)
run w (e ∷ es) = let s = step w e in let rest = run s.1 es in (s.0 ++ rest.0, rest.1)

-- The bytes that a run writes.
pub all_written : List Event → List ℕ
all_written [] = []
all_written (written bytes ∷ es) = bytes ++ all_written es
all_written (reads n ∷ es) = all_written es
all_written (closes ∷ es) = all_written es

pub record Flows (w w' : Rw) (delivered incoming : List ℕ) : Type 0 where
  pub kept : w'.buf ≡ w.buf ++ incoming
  pub ahead : take w'.r_offset w'.buf ≡ take w.r_offset w.buf ++ delivered
  pub within : w'.r_offset ≤ length w'.buf

write_chunk-buf : (w : Rw) (bytes : List ℕ) → (write_chunk w bytes).buf ≡ w.buf ++ bytes
unfolding write_chunk
write_chunk-buf w [] = sym (append_nil w.buf)
write_chunk-buf w (b ∷ bytes) = ground arith

write_chunk-r_offset : (w : Rw) (bytes : List ℕ) → (write_chunk w bytes).r_offset ≡ w.r_offset
unfolding write_chunk
write_chunk-r_offset w bytes = ground arith

-- What one event delivers and brings in.
incoming : Event → List ℕ
incoming (written bytes) = bytes
incoming _ = []

read-Flows : (w : Rw) (n : ℕ) → w.r_offset ≤ length w.buf → Flows w (read w n).1 (read w n).0.0 []
unfolding read
read-Flows w n h = elim (Bool-cases (leb (length w.buf) w.r_offset)) [
  | inl e ↦ rw e (record { kept = sym (append_nil w.buf); ahead = sym (append_nil _); within = h })
  | inr e ↦ rw e (record {
    kept = sym (append_nil w.buf);
    ahead = take_add w.r_offset n w.buf;
    within = omega (arith, length-drop w.r_offset w.buf);
  })
]

step-Flows :
    (w : Rw) (e : Event)
    → w.r_offset ≤ length w.buf
    → Flows w (step w e).1 (step w e).0 (incoming e)
unfolding step incoming close
step-Flows w (written bytes) h =
    let b = write_chunk-buf w bytes in
    let o = write_chunk-r_offset w bytes in
    record {
      kept = b;
      ahead = rw (b, o) (take_within w.r_offset w.buf bytes h ∙ sym (append_nil _));
      within = rw (b, o) (omega (arith, length-append w.buf bytes));
    }
step-Flows w closes h = record {
  kept = sym (append_nil w.buf);
  ahead = sym (append_nil _);
  within = h;
}
step-Flows w (reads n) h = read-Flows w n h

all_written-cons :
    (e : Event) (es : List Event) → all_written (e ∷ es) ≡ incoming e ++ all_written es
unfolding all_written incoming
all_written-cons (written bytes) es = refl
all_written-cons (reads n) es = refl
all_written-cons closes es = refl

chain :
    {a b c : Rw} {d d' i i' : List ℕ}
    → Flows a b d i
    → Flows b c d' i'
    → Flows a c (d ++ d') (i ++ i')
chain {a} {b} {c} {d} {d'} {i} {i'} f g = record {
  kept = g.kept ∙ ap (λ l. l ++ i') f.kept ∙ append_assoc a.buf i i';
  ahead = g.ahead ∙ ap (λ l. l ++ d') f.ahead ∙ append_assoc (take a.r_offset a.buf) d d';
  within = g.within;
}

run_from-Flows :
    (w : Rw) (es : List Event)
    → w.r_offset ≤ length w.buf
    → Flows w (run w es).1 (run w es).0 (all_written es)
unfolding run all_written
run_from-Flows w [] h = record {
  kept = sym (append_nil w.buf);
  ahead = sym (append_nil _);
  within = h;
}
run_from-Flows w (e ∷ es) h =
    let f = step-Flows w e h in
    rw (all_written-cons e es) (chain f (run_from-Flows (step w e).1 es f.within))

-- Whatever a new buffer's writer and reader do in whatever order, without a seek, the bytes
-- delivered by Read followed by the bytes still unread are the bytes written, in order.
pub run-fifo :
    (es : List Event)
    → (run new es).0 ++ drop (run new es).1.r_offset (run new es).1.buf ≡ all_written es
unfolding new
run-fifo es =
    let f = run_from-Flows new es (omega arith) in
    let last = (run new es).1 in
    ap (λ l. l ++ drop last.r_offset last.buf) (sym f.ahead)
    ∙ take-append-drop last.r_offset last.buf
    ∙ f.kept

-- The bytes of the answers up to the one that ends the stream.
pub payload : List (List ℕ × ReadError) → List ℕ
payload [] = []
payload ((bytes, ok) ∷ answers) = bytes ++ payload answers
payload ((bytes, _) ∷ answers) = bytes

-- What ReadFrom has done with the answers of its reader.
pub record Copied (w w' : Rw) (total : ℕ) (result : Option (ℕ × ReadError)) (bytes : List ℕ)
    : Type 0 where
  pub stored : w'.buf ≡ w.buf ++ bytes
  pub counted : (n : ℕ) (e : ReadError) → result ≡ some (n, e) → n ≡ total + length bytes
  pub clean : (n : ℕ) → result ≢ some (n, eof)

read_loop-Copied :
    (w : Rw) (total : ℕ) (answers : List (List ℕ × ReadError))
    → Copied w (read_loop w total answers).0 total (read_loop w total answers).1 (payload answers)
unfolding read_loop payload
read_loop-Copied w total [] = record {
  stored = sym (append_nil w.buf);
  counted = λ n e h. cc;
  clean = λ n h. cc;
}
read_loop-Copied w total ((bytes, ok) ∷ answers) =
    let r = read_loop-Copied (write_chunk w bytes) (total + length bytes) answers in
    record {
      stored =
          r.stored
          ∙ ap (λ l. l ++ payload answers) (write_chunk-buf w bytes)
          ∙ append_assoc w.buf bytes (payload answers);
      counted = λ n e h. omega (arith, r.counted n e h, length-append bytes (payload answers));
      clean = r.clean;
    }
read_loop-Copied w total ((bytes, eof) ∷ answers) = record {
  stored = write_chunk-buf w bytes;
  counted = λ n e h. cc;
  clean = λ n h. cc;
}
read_loop-Copied w total ((bytes, broken) ∷ answers) = record {
  stored = write_chunk-buf w bytes;
  counted = λ n e h. cc;
  clean = λ n h. cc;
}

-- ReadFrom appends exactly the bytes that its reader gave up to its end, returns their number, and
-- never returns io.EOF.
pub read_from-Copied :
    (w : Rw) (answers : List (List ℕ × ReadError))
    → Copied w (read_from w answers).0 0 (read_from w answers).1 (payload answers)
unfolding read_from
read_from-Copied w answers = read_loop-Copied w 0 answers
