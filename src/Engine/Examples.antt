-- ===== src/Engine/Examples.antt =====
-- The theorems on the engine at concrete engines.
use rclone_vfs.Prelude.{ℕ, ◌≡◌, refl, false, none, some, arith, lookup, delete, ◌+ℤ◌}
use rclone_vfs.Prelude.{pos}
use rclone_vfs.Ranges.{total_size}
use rclone_vfs.Item.Life.{open', new_item}
use rclone_vfs.Item.Life.Counted.{Quiet}
use rclone_vfs.Item.Life.Resets.{remove_not_in_use}
use rclone_vfs.Item.Samples.{fine, object}
use rclone_vfs.Cache.{held, get}
use rclone_vfs.Cache
use rclone_vfs.Engine.{
  Handle, opened, open_cached, remove, handle_read, node_and_open, open_file, dir_stat, open_node,
  new_read_file_handle,
}
use rclone_vfs.Engine.Samples.{calm, unseen, seen, stocked, old_file, unseen_handle, seen_handle}
use rclone_vfs.Engine.Held.{Sound}
use rclone_vfs.Engine.Leaks.{start, use_in, removes, open_cached-Leaked}
use rclone_vfs.Engine.Unread.{Shut, Plain}
use rclone_vfs.Engine.Unread.Reads.{Unread, open_cached-Unread}
use rclone_vfs.Engine.Remembered.Opens.{open_cached-Remembered}

calm-Quiet : (p : ℕ) → Quiet (calm p)
calm-Quiet p = record { ensure = λ st r. refl; download = λ st r. refl }

stocked-Sound : Sound stocked
unfolding lookup
stocked-Sound = record { known = λ n p h. ground arith; counted = λ p. ground arith }

unseen_opens : (open_cached calm unseen 3 (some object)).0 ≡ opened unseen_handle
unfolding open_cached node_and_open open_file dir_stat open_node new_read_file_handle lookup open'
    ◌+ℤ◌
unseen_opens = refl

open_cached-Leaked_example :
    let now = remove calm (open_cached calm unseen 3 (some object)).1 3 in
    let st = held now.cache (get calm stocked 3).0 in
    remove_not_in_use fine st (pos 0) false ≡ (false, pos 0, st)
open_cached-Leaked_example =
    let now = (open_cached calm unseen 3 (some object)).1 in
    open_cached-Leaked calm unseen (remove calm now 3) 3 object unseen_handle stocked-Sound
      unseen_opens (use_in calm now (remove calm now 3) calm-Quiet start (removes 3)) fine (pos 0)
      false

unseen-Plain : Plain unseen
unfolding Plain lookup
unseen-Plain = λ n f h. absurd (ground (arith, h))

unseen-Shut : Shut stocked 3
unfolding lookup
unseen-Shut = record { p = 0; indexed = refl; fd = refl }

open_cached-Unread_example :
    let out = open_cached calm unseen 3 none in
    (h : Handle) × (out.0 ≡ opened h) × (h.f.name ≡ 3) × Unread (handle_read calm out.1 h 5)
open_cached-Unread_example =
    open_cached-Unread calm calm unseen 3 5 (ground arith) unseen-Plain unseen-Shut

seen_child : lookup 3 seen.children ≡ some old_file
unfolding lookup
seen_child = refl

seen_opens : (open_cached calm (remove calm seen 3) 3 (some object)).0 ≡ opened seen_handle
unfolding open_cached node_and_open open_file dir_stat open_node new_read_file_handle lookup remove
    Cache.remove open' delete new_item total_size ◌+ℤ◌
seen_opens = refl

open_cached-Remembered_example : seen_handle.f ≡ old_file
open_cached-Remembered_example =
    open_cached-Remembered calm seen (remove calm seen 3) 3 old_file (some object) seen_handle
      seen_child (use_in calm seen (remove calm seen 3) calm-Quiet start (removes 3)) seen_opens
