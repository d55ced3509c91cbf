-- ===== src/Item/Samples.antt =====
-- Sample items for the tests: a world in which all goes well, and a file of 10 bytes.
use rclone_vfs.Prelude.{true, false, none, some, [], ◌∷◌}
use rclone_vfs.Prelude.{pos}
use rclone_vfs.Writeback.{succeeded, new}
use rclone_vfs.Item.{Os, State, RemoteObject}

-- A world in which all goes well, at time 9.
abbrev pub fine : Os
fine = record {
  now = pos 9;
  stat_err = none;
  create_dir_err = none;
  open_err = none;
  truncate_err = none;
  save_err = none;
  torn = none;
  fd_close_err = none;
  dls_close_err = none;
  remove_fails = false;
  write_room = 100;
  write_err = none;
  outcome = succeeded;
  ensure = λ st r. (none, st);
  download = λ st r. (none, st);
}

abbrev pub object : RemoteObject
object = record { size = pos 10; fingerprint = 1 }

-- An open file of 10 bytes, of which the bytes 2 to 4 are present and changed.
abbrev pub changed : State
changed = record {
  item = record {
    name = 0;
    opens = pos 1;
    downloaders = true;
    o = some object;
    fd = some 0;
    info = record {
      mod_time = pos 1;
      a_time = pos 1;
      size = pos 10;
      rs = record { pos = pos 2; size = pos 3 } ∷ [];
      fingerprint = 1;
      dirty = true;
    };
    write_back_id = 0;
    pending_accesses = 0;
    modified = true;
    being_reset = false;
    grace_timer = false;
  };
  path = some 0;
  meta = none;
  inodes = λ i. record { size = pos 10; data' = λ x. 7 };
  next = 1;
  wb = new (pos 5);
}

-- The same file, unchanged and closed.
abbrev pub idle : State
idle = record changed {
  item = record changed.item {
    opens = pos 0;
    downloaders = false;
    fd = none;
    info = record changed.item.info { dirty = false };
  };
}
