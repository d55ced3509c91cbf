-- ===== src/Item/Data.antt =====
-- internal/cache/item.go: the operations on the bytes of an item.
pub mod Written
pub mod Missing
pub mod Grown
pub mod RoundTrip
use rclone_vfs.Prelude.{
  ℕ, zero, suc, ◌+◌, ◌-◌, min, Bool, true, false, not, ◌&&◌, ◌||◌, Option, none, some, List, [],
  ◌∷◌, if◌then◌else◌, ltb, leb, ◌==◌, ℤ, ◌+ℤ◌, ◌-ℤ◌, ltb_ℤ, leb_ℤ, eqb_ℤ, update, length, take,
  drop, get_or, pos_part,
}
use rclone_vfs.Prelude
use rclone_vfs.Ranges.{Range, FoundRange, find_all, find_missing, present, intersect, clip}
use rclone_vfs.Item.{
  ItemError, not_open, not_exist, no_object, eof, wrong_offset, short_write, os_error, Info, Item,
  File, State, Os, set_info, os_err, written, mark_dirty, get_size, truncate_to, save, accessed,
}

-- The length of a byte slice, as an int64.
abbrev pub size_of : List ℕ → ℤ
size_of b = Prelude.pos (length b)

-- The bytes `b` written at `off` over `data'`.
abbrev pub put_bytes : (ℤ → ℕ) → ℤ → List ℕ → ℤ → ℕ
put_bytes data' off b x =
    if leb_ℤ off x && ltb_ℤ x (off +ℤ size_of b) then get_or b (pos_part (x -ℤ off)) 0 else data' x

-- The file after a write.
abbrev pub put_file : File → ℤ → List ℕ → File
put_file f off b = record {
  size = if ltb_ℤ f.size (off +ℤ size_of b) then off +ℤ size_of b else f.size;
  data' = put_bytes f.data' off b;
}

-- os.File.WriteAt on the handle `fd`: the count and the error, and the state.
fd_write : Os → State → Option ℕ → List ℕ → ℤ → (ℕ × Option ItemError) × State
fd_write os st none b off = ((0, some not_open), st)
fd_write os st (some i) b off =
    let taken = take os.write_room b in
    (
      (length taken, os_err os.write_err),
      record st { inodes = update st.inodes i (put_file (st.inodes i) off taken) },
    )

-- os.File.WriteAt on the handle of the item.
pub fd_write_at : Os → State → List ℕ → ℤ → (ℕ × Option ItemError) × State
unfolding fd_write
fd_write_at os st b off = fd_write os st st.item.fd b off

-- The error of a write of `n` bytes out of `size`.
abbrev pub short_err : Option ItemError → ℕ → ℕ → Option ItemError
short_err (some e) n size = some e
short_err none n size = if n == size then none else some short_write

-- Item._present
pub whole_present : Item → Bool
whole_present item = present item.info.rs (record { pos = Prelude.pos 0; size = item.info.size })

-- Item.HasRange
pub has_range : State → Range → Bool
has_range st r = present st.item.info.rs r

-- Item.FindMissing
unfoldable pub missing_range : State → Range → Range
missing_range st r = clip (find_missing st.item.info.rs r) st.item.info.size

-- Item._ensure
unfoldable pub ensure_range : Os → State → ℤ → ℤ → Option ItemError × State
ensure_range os st offset size =
    let size' =
      if ltb_ℤ st.item.info.size (offset +ℤ size) then st.item.info.size -ℤ offset else size in
    let r : Range = record { pos = offset; size = size' } in
    if present st.item.info.rs r
    then if st.item.downloaders then os.ensure st r else (none, st)
    else if st.item.downloaders
    then os.download st r
    else elim st.item.o [
      | none ↦ (some no_object, st)
      | some _ ↦ os.download (record st { item = record st.item { downloaders = true } }) r
    ]

-- The part of readAt that follows an object that has another size now.
unfoldable pub shrink_to_object : Os → State → Option ItemError × State
shrink_to_object os st = elim st.item.o [
  | none ↦ (none, st)
  | some o ↦
      if not st.item.info.dirty && not (eqb_ℤ o.size st.item.info.size)
      then truncate_to os st o.size
      else (none, st)
]

-- os.File.ReadAt: the bytes, and whether the end of the file was reached.
abbrev pub file_read_at : File → ℕ → ℤ → List ℕ
file_read_at f zero off = []
file_read_at f (suc n) off =
    let rest = file_read_at f n (off +ℤ Prelude.pos 1) in
    if ltb_ℤ off f.size then f.data' off ∷ rest else []

-- Item.readAt of `n` bytes: the bytes and the error, and the state.
unfoldable pub read_at : Os → State → ℕ → ℤ → (List ℕ × Option ItemError) × State
read_at os st n off = elim st.item.fd [
  | none ↦ (([], some not_open), st)
  | some i ↦
      let ensured = ensure_range os st off (Prelude.pos n) in
      let shrunk = shrink_to_object os ensured.1 in
      let bytes = file_read_at (shrunk.1.inodes i) n off in
      let done = set_info shrunk.1 (record shrunk.1.item.info { a_time = os.now }) in
      if ltb_ℤ off (Prelude.pos 0) then (([], some eof), st) else elim ensured.0 [
        | some e ↦ (([], some e), ensured.1)
        | none ↦ elim shrunk.0 [
          | some e ↦ (([], some e), shrunk.1)
          | none ↦ ((bytes, if length bytes == n then none else some eof), done)
        ]
      ]
]

-- WriteAt marks the `n` bytes that it has written at `off`.
mark_written : Os → State → ℤ → ℕ → State
unfolding written mark_dirty
mark_written os st off n =
    let marked = written st off (Prelude.pos n) in if ltb 0 n then mark_dirty os marked else marked

-- WriteAt marks the gap between the end of the file and the write.
fill_gap : Os → State → ℤ → State
unfolding written mark_dirty
fill_gap os st off =
    let size = st.item.info.size in
    if ltb_ℤ size off then mark_dirty os (written st size (off -ℤ size)) else st

-- WriteAt moves the size to the end of the write.
grow_size : State → ℤ → State
grow_size st end' =
    if ltb_ℤ st.item.info.size end' then set_info st (record st.item.info { size = end' }) else st

-- What WriteAt records of a write of `n` bytes at `off`.
pub after_write : Os → State → ℤ → ℕ → State
unfolding mark_written fill_gap grow_size
after_write os st off n =
    grow_size (fill_gap os (mark_written os st off n) off) (off +ℤ Prelude.pos n)

-- Item.WriteAt between its preAccess and postAccess: the count and the error, and the state.
write_at_locked : Os → List ℕ → ℤ → State → (ℕ × Option ItemError) × State
write_at_locked os b off st = elim st.item.fd [
  | none ↦ ((0, some not_open), st)
  | some i ↦
      let out = fd_write_at os st b off in
      ((out.0.0, short_err out.0.1 out.0.0 (length b)), after_write os out.1 off out.0.0)
]

-- Item.WriteAt
pub write_at : Os → State → List ℕ → ℤ → Option ((ℕ × Option ItemError) × State)
unfolding write_at_locked
write_at os st b off = accessed (write_at_locked os b off) st

-- What WriteAtNoOverwrite returns.
pub record Overwrite : Type 0 where
  pub n : ℕ
  pub skipped : ℕ
  pub err : Option ItemError

-- The loop of WriteAtNoOverwrite over the found ranges, with the counts so far.
no_overwrite_loop : Os → State → List ℕ → ℤ → ℕ → ℕ → List FoundRange → Overwrite × State
unfolding fd_write_at written
no_overwrite_loop os st b off n skipped [] = (record { n = n; skipped = skipped; err = none }, st)
no_overwrite_loop os st b off n skipped (found ∷ rest) =
    let size = pos_part found.r.size in
    let out = fd_write_at os st (take size b) off in
    let nn = out.0.0 in
    let err = short_err out.0.1 nn size in
    let st' = written out.1 off (Prelude.pos nn) in
    let skip =
      no_overwrite_loop os st (drop size b) (off +ℤ Prelude.pos size) (n + size) (skipped + size)
        rest in
    let next = no_overwrite_loop os st' (drop nn b) (off +ℤ Prelude.pos nn) (n + nn) skipped rest in
    if not (eqb_ℤ found.r.pos off)
    then (record { n = n; skipped = skipped; err = some wrong_offset }, st)
    else if found.present
    then skip
    else elim err [
      | some e ↦ (record { n = n + nn; skipped = skipped; err = some e }, st')
      | none ↦ next
    ]

-- Item.WriteAtNoOverwrite
pub write_at_no_overwrite : Os → State → List ℕ → ℤ → Overwrite × State
unfolding no_overwrite_loop
write_at_no_overwrite os st b off =
    no_overwrite_loop os st b off 0 0
      (find_all st.item.info.rs (record { pos = off; size = size_of b }))

-- The ranges that Truncate leaves present, from `old_size` to `size`.
pub truncate_ranges : State → ℤ → ℤ → State
unfolding written
truncate_ranges st old_size size =
    if ltb_ℤ old_size size
    then written st old_size size
    else if ltb_ℤ size old_size
    then set_info st (record st.item.info {
      rs = intersect st.item.info.rs (record { pos = Prelude.pos 0; size = size });
    })
    else st

-- Item.Truncate between its preAccess and postAccess.
truncate_locked : Os → ℤ → State → Option ItemError × State
unfolding truncate_ranges
truncate_locked os size st = elim st.item.fd [
  | none ↦ (some not_open, st)
  | some _ ↦
      let found = get_size os st in
      let old_size = found.0.0 in
      let cut_off = truncate_to os found.1 size in
      let ranged = truncate_ranges cut_off.1 old_size size in
      let changed : Bool =
        if eqb_ℤ size old_size
        then (elim ranged.item.o [ none ↦ true | some _ ↦ false ])
        else true in
      let done : Option ItemError × State = elim cut_off.0 [
        | some e ↦ (some e, cut_off.1)
        | none ↦ (none, if changed then mark_dirty os ranged else ranged)
      ] in
      elim found.0.1 [ none ↦ done | some not_exist ↦ done | some e ↦ (some e, found.1) ]
]

-- Item.Truncate
pub truncate : Os → State → ℤ → Option (Option ItemError × State)
unfolding truncate_locked
truncate os st size = accessed (truncate_locked os size) st

-- Item.Sync between its preAccess and postAccess.
sync_locked : Os → State → Option ItemError × State
sync_locked os st = elim st.item.fd [
  | none ↦ (some not_open, st)
  | some _ ↦ elim os.write_err [ some e ↦ (some (os_error e), st) | none ↦ save os st ]
]

-- Item.Sync
pub sync : Os → State → Option (Option ItemError × State)
unfolding sync_locked
sync os st = accessed (sync_locked os) st
