-- ===== src/Downloaders/Examples.antt =====
-- The theorems on the downloaders at a file whose cached ranges are a list of ranges.
use rclone_vfs.Prelude.{
  ℕ, ◌+◌, ◌≡◌, refl, Bool, false, none, some, List, [], ◌∷◌, length, ◌+ℤ◌, ◌-ℤ◌, max_ℤ, min_ℤ,
}
use rclone_vfs.Prelude.{pos}
use rclone_vfs.Ranges.{
  Range, is_empty, find_missing, find, search_pos, intersection, present, insert,
}
use rclone_vfs.Downloaders.{
  Error, other, ItemOps, Downloaders, Seeker, grown, fresh, target, reuse, reuse_or_start,
  start_new, new_downloader, open_at, remove_closed, ensure_downloader, kick_waiters, close_all,
  Meanwhile, asks, ends, kicks,
}
use rclone_vfs.Downloaders.Serve.{Served, ensure_downloader-Served}
use rclone_vfs.Downloaders.Answers.{
  Kicked, kick_waiters-Kicked, Closed, close_all-Closed, asked, asked_in,
}

-- The file's state is the ranges that it has; a write adds its range.
abbrev file : ItemOps (List Range)
file = record {
  find_missing = find_missing;
  has_range = present;
  write_at_no_overwrite = λ rs p off. (
    record { n = length p; skipped = 0; err = none },
    insert rs (record { pos = off; size = pos (length p) }),
  );
}

abbrev range : ℕ → ℕ → Range
range p n = record { pos = pos p; size = pos n }

abbrev cached : List Range
cached = range 0 10 ∷ []

abbrev seeks : Seeker
seeks _ = none

abbrev idle : Downloaders
idle = record {
  dls = [];
  waiters = record { r = range 0 5; err_chan = 1 } ∷ record { r = range 0 20; err_chan = 2 } ∷ [];
  error_count = 0;
  last_err = none;
  read_ahead = 0;
  src_size = pos 100;
}

wants_more : is_empty (find_missing cached (grown idle (range 5 20))) ≡ false
unfolding grown find_missing find search_pos intersection ◌+ℤ◌ ◌-ℤ◌ max_ℤ min_ℤ
wants_more = refl

ensures : (ensure_downloader file cached seeks idle (range 5 20)).0 ≡ none
unfolding ensure_downloader grown find_missing find search_pos intersection target reuse
    reuse_or_start start_new new_downloader open_at fresh remove_closed ◌+ℤ◌ ◌-ℤ◌ max_ℤ min_ℤ
ensures = refl

ensure_downloader-Served_example :
    Served
      (find_missing cached (grown idle (range 5 20)))
      (ensure_downloader file cached seeks idle (range 5 20)).1.dls
ensure_downloader-Served_example =
    ensure_downloader-Served file cached seeks idle (range 5 20) wants_more ensures

abbrev no_space : Error → Bool
no_space _ = false

kick_waiters-Kicked_example :
    Kicked file cached seeks idle (kick_waiters file cached seeks no_space idle)
kick_waiters-Kicked_example = kick_waiters-Kicked file cached seeks no_space idle

-- While Close waits for its one downloader, a reader asks for a range, and the downloader ends.
abbrev gap : ℕ → List (Meanwhile (List Range))
gap _ = asks cached seeks (range 30 5) 3 ∷ ends cached seeks 0 7 (some (other 4)) ∷ []

abbrev downloading : Downloaders
downloading = record idle { dls = fresh (range 5 20) ∷ [] }

close_all-Closed_example :
    Closed file no_space downloading
      (λ c.
        asked_in c gap (length (remove_closed downloading).dls) + asked c (kicks cached seeks ∷ []))
      (close_all file no_space downloading gap
        (kicks cached seeks ∷ [])
        cached
        seeks
        (some (other 1))
        (some (other 2)))
close_all-Closed_example =
    close_all-Closed file no_space downloading gap (kicks cached seeks ∷ []) cached seeks
      (some (other 1)) (some (other 2))
