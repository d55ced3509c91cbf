-- ===== src/Cache/Examples.antt =====
-- The theorems on the cache at a concrete cache.
use rclone_vfs.Prelude.{zero, suc, true, false, none, [], ◌∷◌}
use rclone_vfs.Prelude.{pos}
use rclone_vfs.Writeback.{new}
use rclone_vfs.Item.Samples.{fine, changed, idle}
use rclone_vfs.Cache.{Cache, Options, clean}
use rclone_vfs.Cache.Rounds.{Keeps, clean-Keeps}

-- A changed file and an unchanged one, of more than the cache may hold.
abbrev full : Cache
full = record {
  item = (0, 0) ∷ (1, 1) ∷ [];
  err_items = [];
  used = pos 6;
  out_of_space = true;
  cleaner_kicked = true;
  kick = 0;
  store =
      λ p. elim p [ zero ↦ changed | suc _ ↦ record idle { item = record idle.item { name = 1 } } ];
  allocated = 2;
  writeback = new (pos 5);
}

abbrev small : Options
small = record { cache_max_age = pos 100; cache_max_size = pos 2; cache_min_free_space = pos 0 }

clean-Keeps_example :
    Keeps full.store
      (clean (λ store ps. ps) (λ item. none) (λ e. false) small (λ p. fine) full true true).store
clean-Keeps_example =
    clean-Keeps (λ store ps. ps) (λ item. none) (λ e. false) small (λ p. fine) full true true
