-- ===== src/Downloaders/Answers.antt =====
-- Each reader that waits for a range is sent one answer.
use rclone_vfs.Prelude.{
  ℕ, zero, suc, ◌+◌, ◌≤◌, ◌≡◌, refl, ap, ◌∙◌, inl, inr, Bool, true, false, Option, none, some, List,
  [], ◌∷◌, ◌++◌, map, count, count-append, arith, if◌then◌else◌, ◌==◌, Bool-cases, Option-cases,
  length, ℤ,
}
use rclone_vfs.Ranges.{Range, clip}
use rclone_vfs.Downloaders.{
  Error, ItemOps, Downloader, Downloaders, Seeker, Waiter, Answer, stop_and_close, remove_closed,
  reuse, new_downloader, count_errors, start_new, ensure_downloader, reuse_or_start, dispatch_loop,
  dispatch_waiters, close_loop, close_waiters, restart_loop, gives_up, kick_waiters, close_dls,
  close_all, download, Meanwhile, ends, kicks, asks, close_at, happens, happen, wait_loop,
}

-- How many answers a channel is sent, and how many waiters wait on it.
unfoldable pub sent : ℕ → List Answer → ℕ
sent c answers = count c (map (λ a. a.err_chan) answers)

unfoldable pub waiting : ℕ → List Waiter → ℕ
waiting c ws = count c (map (λ w. w.err_chan) ws)

waiting_nil : (c : ℕ) → waiting c [] ≡ 0
unfolding waiting count
waiting_nil c = refl

sent_nil : (c : ℕ) → sent c [] ≡ 0
unfolding sent count
sent_nil c = refl

waiting-snoc :
    (c : ℕ) (ws : List Waiter) (w : Waiter)
    → waiting c (ws ++ w ∷ []) ≡ waiting c ws + (if c == w.err_chan then 1 else 0)
unfolding waiting count
waiting-snoc c [] w = ground arith
waiting-snoc c (x ∷ ws) w = ground (arith, waiting-snoc c ws w)

map-append :
    (xs ys : List Answer)
    → map (λ a. a.err_chan) (xs ++ ys) ≡ map (λ a. a.err_chan) xs ++ map (λ a. a.err_chan) ys
map-append [] ys = refl
map-append (x ∷ xs) ys = ap (λ l. x.err_chan ∷ l) (map-append xs ys)

sent-append : (c : ℕ) (xs ys : List Answer) → sent c (xs ++ ys) ≡ sent c xs + sent c ys
unfolding sent
sent-append c xs ys = rw (map-append xs ys) (count-append c _ _)

module _ {I : Type 0} (ops : ItemOps I) (item : I) (seek_err : Seeker) where
  dispatch_loop-sent :
      (c : ℕ) (size : ℤ) (ws : List Waiter)
      → sent c (dispatch_loop ops item seek_err size ws).0
          + waiting c (dispatch_loop ops item seek_err size ws).1
        ≡ waiting c ws
  unfolding dispatch_loop sent waiting count
  dispatch_loop-sent c size [] = omega arith
  dispatch_loop-sent c size (w ∷ ws) = elim (Bool-cases (ops.has_range item (clip w.r size))) [
    | inl e ↦ simp e (ground (arith, dispatch_loop-sent c size ws))
    | inr e ↦ simp e (ground (arith, dispatch_loop-sent c size ws))
  ]

  close_loop-sent :
      (c : ℕ) (ws : List Waiter) (err : Option Error)
      → sent c (close_loop ops item seek_err ws err) ≡ waiting c ws
  unfolding close_loop sent waiting count
  close_loop-sent c [] err = refl
  close_loop-sent c (w ∷ ws) err = ground (arith, close_loop-sent c ws err)

  -- Starting downloads leaves the waiters alone.
  start_new-waiters :
      (ds : Downloaders) (may : Bool) (r : Range)
      → (start_new ops item seek_err ds may r).1.waiters ≡ ds.waiters
  unfolding start_new new_downloader count_errors
  start_new-waiters ds may r = ground arith

  reuse_or_start-waiters :
      (ds : Downloaders) (want : Bool × Range)
      → (reuse_or_start ops item seek_err ds want).1.waiters ≡ ds.waiters
  unfolding reuse_or_start
  reuse_or_start-waiters ds want = elim (Option-cases (reuse ds.dls want.1)) [
    | inl e ↦ rw (e, reuse_or_start) (start_new-waiters ds want.0 want.1)
    | inr (l, e) ↦ rw (e, reuse_or_start) refl
  ]

  ensure_downloader-waiters :
      (ds : Downloaders) (r : Range)
      → (ensure_downloader ops item seek_err ds r).1.waiters ≡ ds.waiters
  unfolding ensure_downloader remove_closed
  ensure_downloader-waiters ds r = reuse_or_start-waiters (remove_closed ds) _

  restart_loop-waiters :
      (ds : Downloaders) (ws : List Waiter)
      → (restart_loop ops item seek_err ds ws).waiters ≡ ds.waiters
  unfolding restart_loop
  restart_loop-waiters ds [] = refl
  restart_loop-waiters ds (w ∷ ws) =
      restart_loop-waiters (ensure_downloader ops item seek_err ds w.r).1 ws
      ∙ ensure_downloader-waiters ds w.r

  -- What kickWaiters does to the waiters.
  pub record Kicked (ds : Downloaders) (out : Option Error × List Answer × Downloaders)
      : Type 0 where
    pub once : (c : ℕ) → sent c out.1 + waiting c out.2.waiters ≡ waiting c ds.waiters
    pub all : (e : Error) → out.0 ≡ some e → out.2.waiters ≡ []

  restarted : Downloaders → Downloaders
  unfolding dispatch_waiters
  restarted ds =
      let ds' = (dispatch_waiters ops item seek_err ds).1 in
      restart_loop ops item seek_err ds' ds'.waiters

  split_kick :
      (ds : Downloaders) (none_left give_up : Bool)
      → Kicked ds (
          if none_left
          then (
            none,
            (dispatch_waiters ops item seek_err ds).0,
            (dispatch_waiters ops item seek_err ds).1,
          )
          else if give_up
          then (
            (restarted ds).last_err,
            (dispatch_waiters ops item seek_err ds).0
                ++ (close_waiters ops item seek_err (restarted ds) (restarted ds).last_err).0,
            (close_waiters ops item seek_err (restarted ds) (restarted ds).last_err).1,
          )
          else (none, (dispatch_waiters ops item seek_err ds).0, restarted ds))
  unfolding dispatch_waiters close_waiters restarted
  split_kick ds true g = record {
    once = λ c. dispatch_loop-sent c ds.src_size ds.waiters;
    all = λ e h. cc;
  }
  split_kick ds false true =
      let kept = (dispatch_waiters ops item seek_err ds).1 in
      record {
        once = λ c.
            rw
              (
                sent-append c (dispatch_loop ops item seek_err ds.src_size ds.waiters).0
                    (close_loop ops item seek_err (restarted ds).waiters (restarted ds).last_err),
                close_loop-sent c (restarted ds).waiters (restarted ds).last_err,
                restart_loop-waiters kept kept.waiters,
              )
              (omega (arith, waiting_nil c, dispatch_loop-sent c ds.src_size ds.waiters));
        all = λ e h. refl;
      }
  split_kick ds false false =
      let kept = (dispatch_waiters ops item seek_err ds).1 in
      record {
        once = λ c.
            rw (restart_loop-waiters kept kept.waiters)
              (dispatch_loop-sent c ds.src_size ds.waiters);
        all = λ e h. cc;
      }

  -- Of the waiters on each channel, kickWaiters sends an answer to some and keeps the others, none
  -- is lost and none is answered twice; if it reports an error, no waiter is kept.
  pub kick_waiters-Kicked :
      (no_space : Error → Bool) (ds : Downloaders)
      → Kicked ds (kick_waiters ops item seek_err no_space ds)
  unfolding kick_waiters restarted
  kick_waiters-Kicked no_space ds =
      split_kick ds (length (dispatch_waiters ops item seek_err ds).1.waiters == 0)
        (gives_up ops item seek_err no_space (restarted ds))

  close_dls-none :
      (l : List Downloader) (close_err : Option Error)
      → close_dls ops item seek_err l close_err none ≡ none
  unfolding close_dls
  close_dls-none [] close_err = refl
  close_dls-none (dl ∷ l) close_err = elim (Option-cases (stop_and_close dl close_err).0) [
    | inl e ↦ rw (e, close_dls) (close_dls-none l close_err)
    | inr (x, e) ↦ rw (e, close_dls) (close_dls-none l close_err)
  ]

  download-waiters :
      (c : ℕ) (ds : Downloaders) (r : Range) (err_chan : ℕ)
      → let after = waiting c (download ops item seek_err ds r err_chan).1.waiters in
        (waiting c ds.waiters ≤ after)
        × (after ≤ waiting c ds.waiters + (if c == err_chan then 1 else 0))
  unfolding download waiting
  download-waiters c ds r err_chan =
      let w : Waiter = record { r = r; err_chan = err_chan } in
      let kept = ensure_downloader-waiters ds r in
      let more = waiting-snoc c ds.waiters w in
      elim (Option-cases (ensure_downloader ops item seek_err ds r).0) [
        | inl e ↦ rw (e, download, kept) (omega (arith, more), omega (arith, more))
        | inr (x, e) ↦ rw (e, download, kept) (omega arith, omega arith)
      ]

-- Whether an event is a call of Download that waits on the channel, and how many are.
asks_on : {I : Type 0} → ℕ → Meanwhile I → ℕ
asks_on c (ends _ _ _ _ _) = 0
asks_on c (kicks _ _) = 0
asks_on c (asks _ _ _ err_chan) = if c == err_chan then 1 else 0

pub asked : {I : Type 0} → ℕ → List (Meanwhile I) → ℕ
unfolding asks_on
asked c [] = 0
asked c (e ∷ es) = asks_on c e + asked c es

-- How many do in the waits for `n` downloaders.
pub asked_in : {I : Type 0} → ℕ → (ℕ → List (Meanwhile I)) → ℕ → ℕ
asked_in c gap zero = 0
asked_in c gap (suc n) = asked c (gap n) + asked_in c gap n

module _ {I : Type 0} (ops : ItemOps I) (no_space : Error → Bool) where
  -- Of `had` waiters and at most `more` that come, all are answered once or still wait.
  record Settles (c had more : ℕ) (out : List Answer × Downloaders) : Type 0 where
    least : had ≤ sent c out.0 + waiting c out.1.waiters
    most : sent c out.0 + waiting c out.1.waiters ≤ had + more

  kick-Settles :
      (item : I) (seek_err : Seeker) (c : ℕ) (ds : Downloaders)
      → Settles c (waiting c ds.waiters) 0 (
        (kick_waiters ops item seek_err no_space ds).1,
        (kick_waiters ops item seek_err no_space ds).2,
      )
  kick-Settles item seek_err c ds =
      let k = (kick_waiters-Kicked ops item seek_err no_space ds).once c in
      record { least = omega (arith, k); most = omega (arith, k) }

  counted_waiters :
      (ds : Downloaders) (n : ℕ) (err : Option Error) → (count_errors ds n err).waiters ≡ ds.waiters
  unfolding count_errors
  counted_waiters ds n none = ground arith
  counted_waiters ds n (some err) = refl

  happens-Settles :
      (c : ℕ) (ds : Downloaders) (e : Meanwhile I)
      → Settles c (waiting c ds.waiters) (asks_on c e) (happens ops no_space ds e)
  unfolding happens asks_on
  happens-Settles c ds (ends item seek_err place n err) =
      let closed = record ds { dls = close_at place ds.dls } in
      let same = counted_waiters closed n err in
      let k = kick-Settles item seek_err c (count_errors closed n err) in
      record {
        least = omega (arith, k.least, ap (waiting c) same);
        most = omega (arith, k.most, ap (waiting c) same);
      }
  happens-Settles c ds (kicks item seek_err) = kick-Settles item seek_err c ds
  happens-Settles c ds (asks item seek_err r err_chan) =
      let (l, m) = download-waiters ops item seek_err c ds r err_chan in
      let z = sent_nil c in record { least = omega (arith, l, z); most = omega (arith, m, z) }

  -- One stretch after another.
  then-Settles :
      (c had m n : ℕ) (one two : List Answer × Downloaders)
      → Settles c had m one
      → Settles c (waiting c one.1.waiters) n two
      → Settles c had (m + n) (one.0 ++ two.0, two.1)
  then-Settles c had m n one two k l =
      let both = sent-append c one.0 two.0 in
      record {
        least = omega (arith, both, k.least, l.least);
        most = omega (arith, both, k.most, l.most);
      }

  idle-Settles : (c : ℕ) (ds : Downloaders) → Settles c (waiting c ds.waiters) 0 ([], ds)
  idle-Settles c ds =
      let z = sent_nil c in record { least = omega (arith, z); most = omega (arith, z) }

  happen-Settles :
      (c : ℕ) (ds : Downloaders) (es : List (Meanwhile I))
      → Settles c (waiting c ds.waiters) (asked c es) (happen ops no_space ds es)
  unfolding happen asked
  happen-Settles c ds [] = idle-Settles c ds
  happen-Settles c ds (e ∷ es) =
      then-Settles c _ _ _ (happens ops no_space ds e) _ (happens-Settles c ds e)
        (happen-Settles c (happens ops no_space ds e).1 es)

  wait_loop-Settles :
      (c : ℕ) (ds : Downloaders) (dls : List Downloader) (gap : ℕ → List (Meanwhile I))
      → Settles c
          (waiting c ds.waiters)
          (asked_in c gap (length dls))
          (wait_loop ops no_space ds dls gap)
  unfolding wait_loop asked_in
  wait_loop-Settles c ds [] gap = idle-Settles c ds
  wait_loop-Settles c ds (dl ∷ dls) gap =
      let es = gap (length dls) in
      then-Settles c _ _ _ (happen ops no_space ds es) _ (happen-Settles c ds es)
        (wait_loop-Settles c (happen ops no_space ds es).1 dls gap)

  -- What Close leaves, and what it reports.
  pub record Closed (ds : Downloaders) (more : ℕ → ℕ)
      (out : Option Error × List Answer × Downloaders) : Type 0 where
    pub silent : out.0 ≡ none
    pub least : (c : ℕ) → waiting c ds.waiters ≤ sent c out.1
    pub most : (c : ℕ) → sent c out.1 ≤ waiting c ds.waiters + more c
    pub no_waiters : out.2.waiters ≡ []
    pub no_downloaders : out.2.dls ≡ []

  closing :
      (item : I) (seek_err : Seeker) (in_err : Option Error) (c : ℕ) (ds : Downloaders)
      (dls : List Downloader) (gap : ℕ → List (Meanwhile I)) (last : List (Meanwhile I))
      → let waited = wait_loop ops no_space ds dls gap in
        let quiet = happen ops no_space waited.1 last in
        let left = dispatch_loop ops item seek_err quiet.1.src_size quiet.1.waiters in
        let all =
          sent c (waited.0 ++ quiet.0 ++ left.0 ++ close_loop ops item seek_err left.1 in_err) in
        (waiting c ds.waiters ≤ all)
        × (all ≤ waiting c ds.waiters + (asked_in c gap (length dls) + asked c last))
  closing item seek_err in_err c ds dls gap last =
      let waited = wait_loop ops no_space ds dls gap in
      let quiet = happen ops no_space waited.1 last in
      let left = dispatch_loop ops item seek_err quiet.1.src_size quiet.1.waiters in
      let closed = close_loop ops item seek_err left.1 in_err in
      let one = wait_loop-Settles c ds dls gap in
      let two = happen-Settles c waited.1 last in
      let a = sent-append c (waited.0 ++ quiet.0 ++ left.0) closed in
      let b = sent-append c (waited.0 ++ quiet.0) left.0 in
      let d = sent-append c waited.0 quiet.0 in
      let e = close_loop-sent ops item seek_err c left.1 in_err in
      let f = dispatch_loop-sent ops item seek_err c quiet.1.src_size quiet.1.waiters in
      (
        omega (arith, a, b, d, e, f, one.least, two.least),
        omega (arith, a, b, d, e, f, one.most, two.most),
      )

  -- Whatever happens while Close has given up the lock (downloads end, waiters are kicked and
  -- downloaders started, readers call Download): by its end each waiter has been sent exactly one answer, on a channel on which
  -- readers call Download meanwhile at most one more for each such call, and no waiter is left and
  -- no downloader in the list, those among them that were started meanwhile and nobody stops; Close reports no error, whatever
  -- the downloaders' readers say when they are closed.
  pub close_all-Closed :
      (ds : Downloaders) (gap : ℕ → List (Meanwhile I)) (last : List (Meanwhile I)) (item : I)
      (seek_err : Seeker) (in_err close_err : Option Error)
      → Closed ds
          (λ c. asked_in c gap (length (remove_closed ds).dls) + asked c last)
          (close_all ops no_space ds gap last item seek_err in_err close_err)
  unfolding close_all dispatch_waiters close_waiters remove_closed
  close_all-Closed ds gap last item seek_err in_err close_err =
      let live = remove_closed ds in
      record {
        silent = close_dls-none ops item seek_err live.dls close_err;
        least = λ c. (closing item seek_err in_err c live live.dls gap last).0;
        most = λ c. (closing item seek_err in_err c live live.dls gap last).1;
        no_waiters = refl;
        no_downloaders = refl;
      }
