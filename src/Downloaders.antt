-- ===== src/Downloaders.antt =====
-- internal/cache/downloaders/downloaders.go: the downloads that fill one file of the cache and the
-- readers that wait for them. The file is an interface, ItemOps, as in the source. A downloader of
-- `dls` is a record in the list, since no two entries are the same pointer; what goes through a
-- channel is a value: the answers to waiters are returned, and what wakes a blocked Write is a list
-- of events. The chunked reader is known by what its Seek and Close return. The window of
-- _ensureDownloader is minWindow throughout, since nothing raises it.
pub mod Serve
pub mod Answers
pub mod Write
mod Examples
use rclone_vfs.Prelude.{
  ℕ, ◌+◌, ◌-◌, Bool, true, false, not, ◌&&◌, ◌||◌, Option, none, some, List, [], ◌∷◌, ◌++◌,
  if◌then◌else◌, ltb, leb, ◌==◌, ℤ, ◌+ℤ◌, ltb_ℤ, leb_ℤ, eqb_ℤ, get_elem?, set,
}
use rclone_vfs.Prelude
use rclone_vfs.Ranges.{Range, end, is_empty, clip}

-- An error: io.EOF, or any other by a number.
pub data Error : Type 0 where
  eof : Error
  other : ℕ → Error

-- What an Item's WriteAtNoOverwrite returns.
pub record Wrote : Type 0 where
  pub n : ℕ
  pub skipped : ℕ
  pub err : Option Error

-- type Item, over the states of the file.
pub record ItemOps (I : Type 0) : Type 0 where
  pub find_missing : I → Range → Range
  pub has_range : I → Range → Bool
  pub write_at_no_overwrite : I → List ℕ → ℤ → Wrote × I

-- type waiter, its channel by a number.
pub record Waiter : Type 0 where
  pub r : Range
  pub err_chan : ℕ

-- type downloader. `has_in` says that `in` is set, and `kick` that the channel of that name is full.
pub record Downloader : Type 0 where
  pub kick : Bool
  pub start : ℤ
  pub offset : ℤ
  pub max_offset : ℤ
  pub has_in : Bool
  pub skipped : ℕ
  pub closed : Bool
  pub stop : Bool

-- type Downloaders. `read_ahead` is opt.ReadAhead, and `src_size` is src.Size().
pub record Downloaders : Type 0 where
  pub dls : List Downloader
  pub waiters : List Waiter
  pub error_count : ℕ
  pub last_err : Option Error
  pub read_ahead : ℕ
  pub src_size : ℤ

-- What a waiter is sent.
pub record Answer : Type 0 where
  pub err_chan : ℕ
  pub err : Option Error

abbrev pub max_skip_bytes : ℕ
max_skip_bytes = 1048576

abbrev pub max_error_count : ℕ
max_error_count = 10

abbrev pub min_window : ℤ
min_window = Prelude.pos 1048576

-- New, without the goroutine that kicks the waiters every five seconds.
pub new : ℕ → ℤ → Downloaders
new read_ahead src_size = record {
  dls = [];
  waiters = [];
  error_count = 0;
  last_err = none;
  read_ahead = read_ahead;
  src_size = src_size;
}

-- Downloaders._countErrors
pub count_errors : Downloaders → ℕ → Option Error → Downloaders
count_errors ds n (some err) = record ds { error_count = ds.error_count + 1; last_err = some err }
count_errors ds n none =
    if not (n == 0) && not (ds.error_count == 0)
    then record ds { error_count = 0; last_err = none }
    else ds

-- Downloaders._removeClosed
remove_closed_loop : List Downloader → List Downloader
remove_closed_loop [] = []
remove_closed_loop (dl ∷ dls) =
    let rest = remove_closed_loop dls in if dl.closed then rest else dl ∷ rest

pub remove_closed : Downloaders → Downloaders
unfolding remove_closed_loop
remove_closed ds = record ds { dls = remove_closed_loop ds.dls }

-- downloader.setRange
pub set_range : Downloader → Range → Downloader
set_range dl r = record dl {
  max_offset = if ltb_ℤ dl.max_offset (end r) then end r else dl.max_offset;
  kick = true;
}

-- downloader.getRange
pub get_range : Downloader → ℤ × ℤ
get_range dl = (dl.start, dl.offset)

-- downloader.open: none is success. `seek_err` is what the Seek of the reader returns.
pub open_at : Downloader → ℤ → ℤ → Option Error → Option Error × Downloader
open_at dl size offset seek_err =
    if ltb_ℤ size (Prelude.pos 0) then (some (other 0), dl) else elim seek_err [
      | some err ↦ (some err, dl)
      | none ↦ (none, record dl { has_in = true; offset = offset })
    ]

-- downloader.close. `close_err` is what the Close of the reader returns.
pub close : Downloader → Option Error → Option Error × Downloader
close dl close_err =
    (if dl.has_in then close_err else none, record dl { has_in = false; closed = true })

-- downloader._stop. It closes the channel quit, which `stop` stands for.
pub stop_dl : Downloader → Downloader
stop_dl dl = if dl.stop then dl else record dl { stop = true }

-- downloader.stopAndClose. By the time it closes the downloader, the goroutine of _newDownloader,
-- for which it waits, has done so.
pub stop_and_close : Downloader → Option Error → Option Error × Downloader
stop_and_close dl close_err = close (close (stop_dl dl) close_err).1 close_err

-- The downloader that _newDownloader makes.
pub fresh : Range → Downloader
fresh r = record {
  kick = false;
  start = r.pos;
  offset = r.pos;
  max_offset = end r;
  has_in = false;
  skipped = 0;
  closed = false;
  stop = false;
}

-- Downloaders._newDownloader up to the start of its goroutine; none is success.
pub new_downloader : Downloaders → Range → Option Error → Option Error × Downloaders
new_downloader ds r seek_err =
    let opened = open_at (fresh r) ds.src_size r.pos seek_err in
    elim opened.0 [
      | some err ↦ (some err, ds)
      | none ↦ (none, record ds { dls = ds.dls ++ opened.1 ∷ [] })
    ]

-- The loop of _ensureDownloader that looks for a downloader in range: the list with that
-- downloader's range set.
reuse : List Downloader → Range → Option (List Downloader)
reuse [] r = none
reuse (dl ∷ dls) r =
    let rest = reuse dls r in
    if leb_ℤ dl.start r.pos && ltb_ℤ r.pos (dl.offset +ℤ min_window)
    then some (set_range dl r ∷ dls)
    else elim rest [ none ↦ none | some dls' ↦ some (dl ∷ dls') ]

-- The range with opt.ReadAhead.
pub grown : Downloaders → Range → Range
grown ds r =
    if ltb 0 ds.read_ahead then record r { size = r.size +ℤ Prelude.pos ds.read_ahead } else r

-- A chunked reader's Seek, as a function of the offset.
abbrev pub Seeker : Type 0
Seeker = ℤ → Option Error

module _ {I : Type 0} (ops : ItemOps I) (item : I) (seek_err : Seeker) where
  -- The range that _ensureDownloader wants, and whether it may start a downloader.
  pub target : Range → Bool × Range
  target r =
      let r_window = record r { size = r.size +ℤ min_window } in
      let clipped = ops.find_missing item r_window in
      if is_empty r
      then if is_empty clipped
        then (false, record { pos = end r_window; size = Prelude.pos 0 })
        else (true, record { pos = clipped.pos; size = Prelude.pos 0 })
      else (true, r)

  -- _ensureDownloader where no downloader is in range.
  pub start_new : Downloaders → Bool → Range → Option Error × Downloaders
  start_new ds may r =
      let made = new_downloader ds r (seek_err r.pos) in
      if not may
      then (none, ds)
      else if eqb_ℤ r.size (Prelude.pos 0)
      then (none, ds)
      else elim made.0 [
        | none ↦ (none, made.1)
        | some err ↦ (some err, count_errors made.1 0 (some err))
      ]

  -- _ensureDownloader from the look for a downloader in range.
  pub reuse_or_start : Downloaders → Bool × Range → Option Error × Downloaders
  unfolding start_new reuse
  reuse_or_start live want = elim (reuse live.dls want.1) [
    | some dls ↦ (none, record live { dls = dls })
    | none ↦ start_new live want.0 want.1
  ]

  -- Downloaders._ensureDownloader, and EnsureDownloader: none is success.
  pub ensure_downloader : Downloaders → Range → Option Error × Downloaders
  unfolding reuse_or_start target
  ensure_downloader ds r =
      reuse_or_start (remove_closed ds) (target (ops.find_missing item (grown ds r)))

  -- Downloaders.Download up to the wait for the answer: an error returned at once, and the state.
  pub download : Downloaders → Range → ℕ → Option Error × Downloaders
  download ds r err_chan =
      let ensured = ensure_downloader ds r in
      elim ensured.0 [
        | some err ↦ (some err, ensured.1)
        | none ↦ (
          none,
          record ensured.1 {
            waiters = ensured.1.waiters ++ record { r = r; err_chan = err_chan } ∷ [];
          },
        )
      ]

  unfoldable pub dispatch_loop : ℤ → List Waiter → List Answer × List Waiter
  dispatch_loop size [] = ([], [])
  dispatch_loop size (w ∷ ws) =
      let rest = dispatch_loop size ws in
      if ops.has_range item (clip w.r size)
      then (record { err_chan = w.err_chan; err = none } ∷ rest.0, rest.1)
      else (rest.0, w ∷ rest.1)

  -- Downloaders._dispatchWaiters: the answers sent, and the state.
  unfoldable pub dispatch_waiters : Downloaders → List Answer × Downloaders
  unfolding dispatch_loop
  dispatch_waiters ds =
      let out = dispatch_loop ds.src_size ds.waiters in (out.0, record ds { waiters = out.1 })

  close_loop : List Waiter → Option Error → List Answer
  close_loop [] err = []
  close_loop (w ∷ ws) err = record { err_chan = w.err_chan; err = err } ∷ close_loop ws err

  -- Downloaders._closeWaiters
  pub close_waiters : Downloaders → Option Error → List Answer × Downloaders
  unfolding close_loop
  close_waiters ds err = (close_loop ds.waiters err, record ds { waiters = [] })

  -- The loop of kickWaiters over the waiters, which keeps going on errors.
  pub restart_loop : Downloaders → List Waiter → Downloaders
  unfolding ensure_downloader
  restart_loop ds [] = ds
  restart_loop ds (w ∷ ws) = restart_loop (ensure_downloader ds w.r).1 ws

  -- Whether kickWaiters gives up. `no_space` says which errors' text contains "no space".
  pub gives_up : (Error → Bool) → Downloaders → Bool
  gives_up no_space ds =
      (elim ds.last_err [ none ↦ false | some err ↦ no_space err ])
      || ltb max_error_count ds.error_count

  -- Downloaders.kickWaiters: its error, the answers sent, and the state.
  pub kick_waiters : (Error → Bool) → Downloaders → Option Error × List Answer × Downloaders
  unfolding restart_loop gives_up
  kick_waiters no_space ds =
      let dispatched = dispatch_waiters ds in
      let ds' = restart_loop dispatched.1 dispatched.1.waiters in
      let closed = close_waiters ds' ds'.last_err in
      if Prelude.length dispatched.1.waiters == 0
      then (none, dispatched.0, dispatched.1)
      else if gives_up no_space ds'
      then (ds'.last_err, dispatched.0 ++ closed.0, closed.1)
      else (none, dispatched.0, ds')

  -- The loop of Downloaders.Close over the downloaders. Its error is set only if it is set already.
  pub close_dls : List Downloader → Option Error → Option Error → Option Error
  close_dls [] close_err err = err
  close_dls (dl ∷ dls) close_err err =
      let closed = (stop_and_close dl close_err).0 in
      close_dls dls close_err
        (elim closed [ none ↦ err | some e ↦ elim err [ none ↦ none | some _ ↦ some e ] ])

-- What may happen while Close has given up the lock, each time with the file and the reader's Seek as
-- they are then: the goroutine of the downloader at a place of the list ends, with what download
-- returned; the goroutine of New kicks the waiters; or a reader calls Download.
pub data Meanwhile (I : Type 0) : Type 0 where
  ends : I → Seeker → ℕ → ℕ → Option Error → Meanwhile I
  kicks : I → Seeker → Meanwhile I
  asks : I → Seeker → Range → ℕ → Meanwhile I

-- The goroutine of _newDownloader marks its downloader as closed before it counts errors.
close_at : ℕ → List Downloader → List Downloader
close_at n dls = elim (get_elem? dls n) [ none ↦ dls | some dl ↦ set dls n (close dl none).1 ]

module _ {I : Type 0} (ops : ItemOps I) (no_space : Error → Bool) where
  -- The answers sent, and the state.
  pub happens : Downloaders → Meanwhile I → List Answer × Downloaders
  unfolding close_at
  happens ds (ends item seek_err place n err) =
      let closed = record ds { dls = close_at place ds.dls } in
      let kicked = kick_waiters ops item seek_err no_space (count_errors closed n err) in
      (kicked.1, kicked.2)
  happens ds (kicks item seek_err) =
      let kicked = kick_waiters ops item seek_err no_space ds in (kicked.1, kicked.2)
  happens ds (asks item seek_err r err_chan) = ([], (download ops item seek_err ds r err_chan).1)

  pub happen : Downloaders → List (Meanwhile I) → List Answer × Downloaders
  unfolding happens
  happen ds [] = ([], ds)
  happen ds (e ∷ es) =
      let now = happens ds e in let rest = happen now.1 es in (now.0 ++ rest.0, rest.1)

  -- The waits of Close for the goroutines of its downloaders. `gap` says what happens during each, by
  -- how many come after it; the end of the goroutine that it waits for is one of these events.
  pub wait_loop :
      Downloaders → List Downloader → (ℕ → List (Meanwhile I)) → List Answer × Downloaders
  unfolding happen
  wait_loop ds [] gap = ([], ds)
  wait_loop ds (dl ∷ dls) gap =
      let now = happen ds (gap (Prelude.length dls)) in
      let rest = wait_loop now.1 dls gap in (now.0 ++ rest.0, rest.1)

  -- Downloaders.Close: its error, the answers sent, and the state. `last` happens while it waits for
  -- the goroutine of New, and `item` is the file after that.
  pub close_all :
      Downloaders
      → (ℕ → List (Meanwhile I))
      → List (Meanwhile I)
      → I
      → Seeker
      → Option Error
      → Option Error
      → Option Error × List Answer × Downloaders
  unfolding close_dls wait_loop
  close_all ds gap last item seek_err in_err close_err =
      let live = remove_closed ds in
      let waited = wait_loop live live.dls gap in
      let quiet = happen waited.1 last in
      let dispatched = dispatch_waiters ops item seek_err (record quiet.1 { dls = [] }) in
      let closed = close_waiters ops item seek_err dispatched.1 in_err in
      (
        close_dls ops item seek_err live.dls close_err none,
        waited.0 ++ quiet.0 ++ dispatched.0 ++ closed.0,
        closed.1,
      )
