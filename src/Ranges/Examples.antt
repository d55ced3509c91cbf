-- ===== src/Ranges/Examples.antt =====
-- The theorems on ranges at concrete inputs, and runs of the definitions.
use rclone_vfs.Prelude.{
  ℕ, ◌≡◌, refl, Bool, true, false, ◌&&◌, List, [], ◌∷◌, arith, ltb_ℤ, ◌+ℤ◌, ◌-ℤ◌, max_ℤ, min_ℤ, ℤ,
}
use rclone_vfs.Prelude
use rclone_vfs.Ranges.{
  Range, end, insert, find, find_all, present, intersect, find_missing, equal, coalesce, search_pos,
  merge, intersection,
}
use rclone_vfs.Ranges.Cover.{IsCoalesced, contains, covers}
use rclone_vfs.Ranges.Insert.{Inserted, insert-Inserted}
use rclone_vfs.Ranges.Walk.{Tiles, find_all-Tiles, covers-intersect}
use rclone_vfs.Ranges.Missing.{CoversAll, present_iff, Missing, find_missing-Missing}

abbrev range : ℕ → ℕ → Range
range p n = record { pos = Prelude.pos p; size = Prelude.pos n }

-- Two cached stretches with a hole of ten bytes, and a request across the hole.
abbrev cached : List Range
cached = range 0 10 ∷ range 20 10 ∷ []

abbrev wanted : Range
wanted = range 5 20

cached-IsCoalesced : IsCoalesced cached
unfolding ◌+ℤ◌
cached-IsCoalesced = omega arith

insert_fills_hole : insert cached (range 10 10) ≡ range 0 30 ∷ []
unfolding insert coalesce search_pos merge ◌+ℤ◌ ◌-ℤ◌
insert_fills_hole = refl

find_missing_runs : find_missing cached wanted ≡ range 10 15
unfolding find_missing find search_pos intersection ◌+ℤ◌ ◌-ℤ◌ max_ℤ min_ℤ
find_missing_runs = refl

equal_runs : equal cached (insert cached (range 3 4)) ≡ true
unfolding equal insert coalesce search_pos merge ◌+ℤ◌ ◌-ℤ◌
equal_runs = refl

insert-Inserted_example : Inserted wanted cached (insert cached wanted)
insert-Inserted_example = insert-Inserted cached wanted cached-IsCoalesced

find_all-Tiles_example : Tiles (covers cached) wanted.pos (end wanted) (find_all cached wanted)
find_all-Tiles_example = find_all-Tiles cached wanted cached-IsCoalesced (omega arith)

covers-intersect_example :
    IsCoalesced (intersect cached wanted)
    × ((x : ℤ) → covers (intersect cached wanted) x ≡ (covers cached x && contains wanted x))
covers-intersect_example = covers-intersect cached wanted cached-IsCoalesced

present_iff_example :
    (present cached wanted ≡ true → CoversAll cached wanted)
    × (CoversAll cached wanted → present cached wanted ≡ true)
present_iff_example = present_iff cached wanted cached-IsCoalesced

find_missing-Missing_example : Missing cached wanted (find_missing cached wanted)
find_missing-Missing_example = find_missing-Missing cached wanted cached-IsCoalesced
