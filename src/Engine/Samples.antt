-- ===== src/Engine/Samples.antt =====
-- Sample engines for the tests, over the sample items.
use rclone_vfs.Prelude.{ℕ, false, none, [], ◌∷◌}
use rclone_vfs.Prelude.{pos}
use rclone_vfs.Writeback.{new}
use rclone_vfs.Item.{Os}
use rclone_vfs.Item.Samples.{fine, idle}
use rclone_vfs.Cache.{Cache}
use rclone_vfs.Engine.{Engine, File, Handle}

-- A world in which all goes well, for every item.
abbrev pub calm : ℕ → Os
calm p = fine

-- A closed file of 10 bytes, under the name 3.
abbrev pub stocked : Cache
stocked = record {
  item = (3, 0) ∷ [];
  err_items = [];
  used = pos 3;
  out_of_space = false;
  cleaner_kicked = false;
  kick = 0;
  store = λ p. idle;
  allocated = 1;
  writeback = new (pos 5);
}

-- No node yet for that file, and one of an earlier size.
abbrev pub unseen : Engine
unseen = record { cache = stocked; children = [] }

abbrev pub old_file : File
old_file = record { name = 3; size = pos 4; remote = none }

abbrev pub seen : Engine
seen = record { cache = stocked; children = (3, old_file) ∷ [] }

-- The handles of the two.
abbrev pub unseen_handle : Handle
unseen_handle = record {
  f = record { name = 3; size = pos 10; remote = none };
  offset = pos 0;
  size = pos 10;
  closed = false;
}

abbrev pub seen_handle : Handle
seen_handle = record { f = old_file; offset = pos 0; size = pos 10; closed = false }
