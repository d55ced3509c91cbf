-- ===== src/Downloaders/Write.antt =====
-- downloader.Write and the goroutine of _newDownloader.
use rclone_vfs.Prelude.{
  ℕ, ◌+◌, ◌-◌, ◌≤◌, ◌<◌, ◌≡◌, refl, Bool, true, false, not, ◌&&◌, ◌||◌, Option, none, some, List,
  [], ◌∷◌, ◌++◌, if◌then◌else◌, ltb, leb, ◌==◌, arith, ℤ, ◌+ℤ◌, ltb_ℤ, get_elem?, set, Bool-cases,
  Option-cases, ◌≤ℤ◌, ◌<ℤ◌,
}
use rclone_vfs.Prelude
use rclone_vfs.Downloaders.{
  Error, eof, Wrote, ItemOps, Downloader, Downloaders, Answer, Seeker, max_skip_bytes, stop_dl,
  close, count_errors, kick_waiters,
}

-- What wakes a Write that has reached maxOffset: the channel quit, which is closed once `stop` is
-- set; a kick, with the maxOffset then in force; or the timer.
pub data Wake : Type 0 where
  quits : Wake
  kicks : ℤ → Wake
  times_out : Wake

-- The loop of downloader.Write: the downloader when it goes on, or none while it waits.
pub write_wait : Downloader → List Wake → Option Downloader
write_wait dl [] = if ltb_ℤ dl.offset dl.max_offset then some dl else none
write_wait dl (quits ∷ wakes) =
    if ltb_ℤ dl.offset dl.max_offset then some dl else some (record dl { stop = true })
write_wait dl (kicks max_offset ∷ wakes) =
    let rest = write_wait (record dl { max_offset = max_offset; kick = false }) wakes in
    if ltb_ℤ dl.offset dl.max_offset then some dl else rest
write_wait dl (times_out ∷ wakes) =
    if ltb_ℤ dl.offset dl.max_offset then some dl else some (stop_dl dl)

-- The part of downloader.Write after the item has written.
pub write_count : Downloader → Wrote → Downloader
write_count dl w =
    let skipped = if w.skipped == w.n then dl.skipped + w.skipped else 0 in
    let dl' = record dl { skipped = skipped; offset = dl.offset +ℤ Prelude.pos w.n } in
    if not dl.stop && ltb max_skip_bytes skipped then stop_dl dl' else dl'

module _ {I : Type 0} (ops : ItemOps I) where
  -- downloader.Write from the end of its loop to the unlock: the count and the error, and the states.
  pub write_locked : I → Downloader → List ℕ → (ℕ × Option Error) × Downloader × I
  unfolding write_count
  write_locked item dl p =
      let (w, item') = ops.write_at_no_overwrite item p dl.offset in
      let dl' = write_count dl w in
      let err : Option Error = elim w.err [
        | none ↦ if dl'.stop then some eof else none
        | some e ↦ some e
      ] in
      ((w.n, err), dl', item')

  -- downloader.Write with the deferred kick, for the downloader at place `i`: the count, the error
  -- and the answers sent, and the states. It is none while the call waits.
  pub write :
      Seeker
      → (Error → Bool)
      → I
      → Downloaders
      → ℕ
      → Downloader
      → List ℕ
      → List Wake
      → Option ((ℕ × Option Error) × List Answer × Downloaders × I)
  unfolding write_wait write_locked
  write seek_err no_space item ds i dl p wakes = elim (write_wait dl wakes) [
    | none ↦ none
    | some dl' ↦
        let (out, dl'', item') = write_locked item dl' p in
        let ds' = record ds { dls = set ds.dls i dl'' } in
        let kicked = kick_waiters ops item' seek_err no_space ds' in
        let err : Option Error = elim out.1 [ none ↦ kicked.0 | some e ↦ some e ] in
        if out.0 == 0
        then some (out, [], ds', item')
        else some ((out.0, err), kicked.1, kicked.2, item')
  ]

  -- downloader.download: the error of io.Copy, where io.EOF is no error.
  pub download_err : Option Error → Option Error
  download_err (some eof) = none
  download_err e = e

  -- The end of the goroutine of _newDownloader for the downloader at place `i`, from the return of
  -- io.Copy with the number of bytes and the error.
  pub finish :
      Seeker
      → (Error → Bool)
      → I
      → Downloaders
      → ℕ
      → Downloader
      → ℕ
      → Option Error
      → List Answer × Downloaders
  unfolding download_err
  finish seek_err no_space item ds i dl n copy_err =
      let ds' = record ds { dls = set ds.dls i (close dl none).1 } in
      let kicked =
        kick_waiters ops item seek_err no_space (count_errors ds' n (download_err copy_err)) in
      (kicked.1, kicked.2)

-- What a Write that is not waiting does to its downloader.
pub record Advanced (dl dl' : Downloader) (w : Wrote) (err : Option Error) : Type 0 where
  pub moved : dl'.offset ≡ dl.offset +ℤ Prelude.pos w.n
  pub bounded : err ≡ none → (dl'.stop ≡ false) × (dl'.skipped ≤ max_skip_bytes)
  pub stays_stopped : dl.stop ≡ true → dl'.stop ≡ true
  pub useful : w.skipped < w.n → dl'.skipped ≡ 0
  pub reported : (e : Error) → w.err ≡ some e → err ≡ some e

no_err :
    (o : Option Error) (b : Bool)
    → (elim o [ none ↦ if b then some eof else none | some e ↦ some e ]) ≡ none
    → b ≡ false
no_err none true h = cc
no_err none false h = refl
no_err (some e) b h = cc

passed_on :
    (o : Option Error) (b : Bool) {e : Error}
    → o ≡ some e
    → (elim o [ none ↦ if b then some eof else none | some e ↦ some e ]) ≡ some e
passed_on none b h = cc
passed_on (some x) b h = h

running_bounded :
    (dl : Downloader) (w : Wrote)
    → (write_count dl w).stop ≡ false
    → ((write_count dl w).stop ≡ false) × ((write_count dl w).skipped ≤ max_skip_bytes)
unfolding write_count stop_dl
running_bounded dl w h = (h, ground (arith, h))

write_count-Advanced :
    (dl : Downloader) (w : Wrote)
    → Advanced dl
        (write_count dl w)
        w
        (elim w.err [ none ↦ if (write_count dl w).stop then some eof else none | some e ↦ some e ])
unfolding write_count stop_dl
write_count-Advanced dl w = record {
  moved = ground arith;
  bounded = λ h. running_bounded dl w (no_err w.err (write_count dl w).stop h);
  stays_stopped = λ h. ground arith;
  useful = λ h. ground arith;
  reported = λ e h. passed_on w.err (write_count dl w).stop h;
}

-- A Write that is not waiting moves its downloader on by what the item has taken; while it reports
-- no error the downloader is not stopped and has skipped at most 1 MiB in a row, which a write of new bytes
-- starts again from nothing; a stopped downloader stays so, and an error of the item is passed on.
pub write_locked-Advanced :
    {I : Type 0} (ops : ItemOps I) (item : I) (dl : Downloader) (p : List ℕ)
    → Advanced dl
        (write_locked ops item dl p).1
        (ops.write_at_no_overwrite item p dl.offset).0
        (write_locked ops item dl p).0.1
unfolding write_locked
write_locked-Advanced ops item dl p =
    write_count-Advanced dl (ops.write_at_no_overwrite item p dl.offset).0
