-- ===== src/Item/Data/RoundTrip.antt =====
-- A read after a write returns what was written.
use rclone_vfs.Prelude.{
  ℕ, zero, suc, ◌+◌, ◌-◌, ◌≤◌, ◌<◌, ◌≡◌, refl, sym, ap, ◌∙◌, inl, inr, Bool, true, false, not, ◌&&◌,
  ◌||◌, Option, none, some, List, [], ◌∷◌, arith, if◌then◌else◌, ltb, leb, ◌==◌, ℤ, ◌+ℤ◌, ◌-ℤ◌,
  ◌≤ℤ◌, ltb_ℤ, leb_ℤ, eqb_ℤ, update, length, take, get_or, pos_part, Bool-cases, Option-cases,
  +ℤ_parts, -ℤ_parts, eq_of_parts,
}
use rclone_vfs.Prelude
use rclone_vfs.Ranges.{Range, present}
use rclone_vfs.Ranges.Cover.{IsCoalesced, covers}
use rclone_vfs.Ranges.Missing.{present_iff}
use rclone_vfs.Item.{ItemError, not_open, RemoteObject, truncate_to, File, State, Os, post_access}
use rclone_vfs.Item.Data.{
  size_of, put_bytes, put_file, fd_write, fd_write_at, short_err, after_write, write_at_locked,
  write_at, ensure_range, shrink_to_object, file_read_at, read_at,
}
use rclone_vfs.Item.Data.Written.{Carries, sum_assoc, within}
use rclone_vfs.Item.Data.Grown.{after_write-Recorded}
use rclone_vfs.Item.Life.Counted.{busy, accessed_free}

-- Downloaders that have nothing to fetch where a range is present.
pub record Idle (os : Os) : Type 0 where
  pub ensure : (st : State) (r : Range) → os.ensure st r ≡ (none, st)

-- What was put is there.
put_bytes-Carries : (f : ℤ → ℕ) (off : ℤ) (b : List ℕ) → Carries (put_bytes f off b) off b
put_bytes-Carries f off b k h =
    let x = off +ℤ Prelude.pos k in
    let p = +ℤ_parts off (Prelude.pos k) in
    let q = +ℤ_parts off (size_of b) in
    let d = -ℤ_parts x off in
    let inside : (leb_ℤ off x && ltb_ℤ x (off +ℤ size_of b)) ≡ true = ground (arith, p, q) in
    let index : pos_part (x -ℤ off) ≡ k =
      ap pos_part (eq_of_parts (x -ℤ off) (Prelude.pos k) (ground (arith, p, d))) in
    rw (inside, index) refl

next_of : (off : ℤ) (k : ℕ) → off +ℤ Prelude.pos 1 +ℤ Prelude.pos k ≡ off +ℤ Prelude.pos (suc k)
next_of off k = sum_assoc off 1 k ∙ ap (λ m. off +ℤ Prelude.pos m) (omega arith)

-- A read within a file that holds a slice.
file_read_at-Carries :
    (f : File) (b : List ℕ) (off : ℤ)
    → (off +ℤ size_of b) ≤ℤ f.size
    → Carries f.data' off b
    → file_read_at f (length b) off ≡ b
file_read_at-Carries f [] off le c = refl
file_read_at-Carries f (x ∷ b) off le c =
    let p = +ℤ_parts off (size_of (x ∷ b)) in
    let q = +ℤ_parts off (Prelude.pos 1) in
    let r = +ℤ_parts (off +ℤ Prelude.pos 1) (size_of b) in
    let z = eq_of_parts (off +ℤ Prelude.pos 0) off (ground (arith, +ℤ_parts off (Prelude.pos 0))) in
    let inside : ltb_ℤ off f.size ≡ true = ground (arith, p) in
    let first : f.data' off ≡ x = sym (c 0 (ground arith) ∙ ap f.data' z) in
    let rest =
      file_read_at-Carries f b (off +ℤ Prelude.pos 1) (ground (arith, p, q, r))
        (λ k h. c (suc k) (ground (arith, h)) ∙ ap f.data' (sym (next_of off k))) in
    rw (inside, first, rest) refl

or_middle : (a b c : Bool) → b ≡ true → (a || b || c) ≡ true
or_middle a b c h = ground arith

take_all : {A : Type 0} (n : ℕ) (xs : List A) → length xs ≤ n → take n xs ≡ xs
take_all zero [] h = refl
take_all zero (x ∷ xs) h = absurd (ground (arith, h))
take_all (suc n) [] h = refl
take_all (suc n) (x ∷ xs) h = ap (λ r. x ∷ r) (take_all n xs (ground (arith, h)))

-- What is left of an item after a whole write: the slice in its file, and the range present.
record Holds (i : ℕ) (off : ℤ) (b : List ℕ) (st : State) : Type 0 where
  handle : st.item.fd ≡ some i
  bytes : Carries (st.inodes i).data' off b
  long : (off +ℤ size_of b) ≤ℤ (st.inodes i).size
  sized : (off +ℤ size_of b) ≤ℤ st.item.info.size
  there : present st.item.info.rs (record { pos = off; size = size_of b }) ≡ true
  dirty : st.item.info.dirty ≡ true

fd_write-whole :
    (os : Os) (st : State) (i : ℕ) (b : List ℕ) (off : ℤ)
    → length b ≤ os.write_room
    → os.write_err ≡ none
    → fd_write os st (some i) b off
      ≡ ((length b, none), record st { inodes = update st.inodes i (put_file (st.inodes i) off b) })
unfolding fd_write
fd_write-whole os st i b off room fine = rw (take_all os.write_room b room, fine) refl

after_write-Holds :
    (os : Os) (st : State) (i : ℕ) (b : List ℕ) (off : ℤ)
    → IsCoalesced st.item.info.rs
    → st.item.fd ≡ some i
    → 0 < length b
    → let put = record st { inodes = update st.inodes i (put_file (st.inodes i) off b) } in
      Holds i off b (after_write os put off (length b))
after_write-Holds os st i b off sorted e some_bytes =
    let put = record st { inodes = update st.inodes i (put_file (st.inodes i) off b) } in
    let out = after_write os put off (length b) in
    let rec = after_write-Recorded os put off (length b) sorted in
    let updated : put.inodes i ≡ put_file (st.inodes i) off b = ground arith in
    let here : out.inodes i ≡ put_file (st.inodes i) off b = ap (λ f. f i) rec.bytes ∙ updated in
    record {
      handle = rec.handle ∙ e;
      bytes = λ k h.
          put_bytes-Carries (st.inodes i).data' off b k h
          ∙ ap (λ f. f.data' (off +ℤ Prelude.pos k)) (sym here);
      long = rw here (ground arith);
      sized = rw rec.size (ground arith);
      there =
          (present_iff out.item.info.rs (record { pos = off; size = size_of b })
              rec.marked.sorted).1
            (λ x h.
              rec.marked.covered x
              ∙ or_middle (leb_ℤ st.item.info.size x && ltb_ℤ x off) (within off (length b) x)
                  (covers st.item.info.rs x) h);
      dirty = rec.dirty some_bytes;
    }

ensure_range-Holds :
    (os : Os) (i : ℕ) (off : ℤ) (b : List ℕ) (st : State)
    → Idle os
    → Holds i off b st
    → ensure_range os st off (size_of b) ≡ (none, st)
unfolding ensure_range
ensure_range-Holds os i off b st idle h =
    let inside : ltb_ℤ st.item.info.size (off +ℤ size_of b) ≡ false = ground (arith, h.sized) in
    let there = h.there in rw (inside, there) (by_downloaders st.item.downloaders)
  where
    by_downloaders :
        (running : Bool)
        → (if running then os.ensure st (record { pos = off; size = size_of b }) else (none, st))
          ≡ (none, st)
    by_downloaders true = idle.ensure st (record { pos = off; size = size_of b })
    by_downloaders false = refl

-- A test that a changed item fails.
if_changed : {A : Type 0} (d c : Bool) (x y : A) → d ≡ true → (if not d && c then x else y) ≡ y
if_changed true c x y e = refl
if_changed false c x y e = absurd (ground (arith, e))

shrink_to_object-dirty :
    (os : Os) (st : State) → st.item.info.dirty ≡ true → shrink_to_object os st ≡ (none, st)
unfolding shrink_to_object
shrink_to_object-dirty os st d = by_object st.item.o
  where
    by_object :
        (o : Option RemoteObject)
        → (let out : Option ItemError × State = elim o [
          | none ↦ (none, st)
          | some o ↦
              if not st.item.info.dirty && not (eqb_ℤ o.size st.item.info.size)
              then truncate_to os st o.size
              else (none, st)
        ] in
            out)
          ≡ (none, st)
    by_object none = refl
    by_object (some o) =
        if_changed st.item.info.dirty (not (eqb_ℤ o.size st.item.info.size))
          (truncate_to os st o.size) (none, st) d

-- A read of what an item holds.
read_at-Holds :
    (os : Os) (i : ℕ) (off : ℤ) (b : List ℕ) (st : State)
    → Idle os
    → Prelude.pos 0 ≤ℤ off
    → Holds i off b st
    → (read_at os st (length b) off).0 ≡ (b, none)
unfolding read_at
read_at-Holds os i off b st idle low h =
    let ensured = ensure_range-Holds os i off b st idle h in
    let shrunk = shrink_to_object-dirty os st h.dirty in
    let bytes = file_read_at-Carries (st.inodes i) b off h.long h.bytes in
    let not_negative : ltb_ℤ off (Prelude.pos 0) ≡ false = ground arith in
    let all : (length b == length b) ≡ true = ground arith in
    let handle = h.handle in simp (handle, ensured, shrunk, not_negative, bytes, all, read_at)

-- Taking the access back changes no byte.
post_access-Holds :
    (i : ℕ) (off : ℤ) (b : List ℕ) (st : State)
    → Holds i off b st
    → Holds i off b (record st { item = post_access st.item })
unfolding post_access
post_access-Holds i off b st h = record {
  handle = h.handle;
  bytes = h.bytes;
  long = h.long;
  sized = h.sized;
  there = h.there;
  dirty = h.dirty;
}

write_at_locked-whole :
    (os : Os) (st : State) (i : ℕ) (b : List ℕ) (off : ℤ)
    → st.item.fd ≡ some i
    → length b ≤ os.write_room
    → os.write_err ≡ none
    → let put = record st { inodes = update st.inodes i (put_file (st.inodes i) off b) } in
      write_at_locked os b off st ≡ ((length b, none), after_write os put off (length b))
unfolding write_at_locked fd_write_at
write_at_locked-whole os st i b off e room fine = by_handle st.item.fd e
  where
    put : State
    put = record st { inodes = update st.inodes i (put_file (st.inodes i) off b) }

    recorded : (ℕ × Option ItemError) × State → (ℕ × Option ItemError) × State
    recorded out =
        ((out.0.0, short_err out.0.1 out.0.0 (length b)), after_write os out.1 off out.0.0)

    wrote : fd_write_at os st b off ≡ ((length b, none), put)
    wrote = ap (λ fd. fd_write os st fd b off) e ∙ fd_write-whole os st i b off room fine

    no_error : short_err none (length b) (length b) ≡ none
    no_error = ground arith

    by_handle :
        (fd : Option ℕ)
        → fd ≡ some i
        → (let out : (ℕ × Option ItemError) × State = elim fd [
          | none ↦ ((0, some not_open), st)
          | some j ↦ recorded (fd_write_at os st b off)
        ] in
            out)
          ≡ ((length b, none), after_write os put off (length b))
    by_handle none f = absurd (ground (arith, f))
    by_handle (some j) f =
        ap recorded wrote
        ∙ ap (λ err. ((length b, err), after_write os put off (length b))) no_error

-- A WriteAt of some bytes at an offset that is not negative, into an item that is open, is not being
-- reset and whose ranges are sorted and coalesced, where the file takes all the bytes without an
-- error: it reports all of them, and a ReadAt of as many at the same offset returns those bytes and no
-- error, where the downloaders do nothing for a range that is present.
pub write_at-read_at :
    (os os' : Os) (st : State) (i : ℕ) (b : List ℕ) (off : ℤ)
    → IsCoalesced st.item.info.rs
    → st.item.fd ≡ some i
    → st.item.being_reset ≡ false
    → 0 < length b
    → Prelude.pos 0 ≤ℤ off
    → length b ≤ os.write_room
    → os.write_err ≡ none
    → Idle os'
    → (out : State) × (write_at os st b off ≡ some ((length b, none), out))
      × ((read_at os' out (length b) off).0 ≡ (b, none))
unfolding write_at
write_at-read_at os os' st i b off sorted e free some_bytes low room fine idle =
    let now = busy st in
    let put = record now { inodes = update now.inodes i (put_file (now.inodes i) off b) } in
    let done = after_write os put off (length b) in
    let out = record done { item = post_access done.item } in
    let wrote = write_at_locked-whole os now i b off e room fine in
    let holds =
      post_access-Holds i off b done (after_write-Holds os now i b off sorted e some_bytes) in
    (
      out,
      accessed_free (write_at_locked os b off) st free
          ∙ ap (λ r. some (r.0, record r.1 { item = post_access r.1.item })) wrote,
      read_at-Holds os' i off b out idle low holds,
    )
