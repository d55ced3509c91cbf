-- ===== src/Item.antt =====
-- internal/cache/item.go: a file of the cache, its metadata and the operations on both. The file on
-- disk is a path that may lead to an inode, which an open handle keeps alive after the path is gone,
-- as in the source; the metadata file is what was saved last. What the operating system and the
-- downloaders answer during a call is a record Os; the same call is answered the same way
-- throughout. The writeback queue is that of Writeback; where a call on it
-- waits for an upload, that upload ends with the outcome of the world, and nothing comes in between. The lock is left out: each method is one
-- step, also where it gives up the lock for a call. A fingerprint is a number, 0 for "".
pub mod Data
pub mod Life
pub mod Samples
mod Examples
use rclone_vfs.Prelude.{
  ℕ, ◌+◌, ◌-◌, Bool, true, false, not, ◌&&◌, ◌||◌, Option, none, some, List, [], ◌∷◌, if◌then◌else◌,
  ltb, leb, ◌==◌, ℤ, ◌+ℤ◌, ◌-ℤ◌, ltb_ℤ, leb_ℤ, eqb_ℤ, update,
}
use rclone_vfs.Prelude
use rclone_vfs.Ranges.{Range, insert, total_size}
use rclone_vfs.Writeback.{WriteBack, Outcome}
use rclone_vfs.Writeback

-- The errors of an item: the file is not open, os.ErrClosed, the file does not exist, no object to
-- download from, the file is open already, io.EOF, or one of the operating system by a number.
pub data ItemError : Type 0 where
  not_open err_closed not_exist no_object already_open eof wrong_offset short_write : ItemError
  os_error : ℕ → ItemError

-- types.RemoteObject, of which an item uses the size and the fingerprint.
pub record RemoteObject : Type 0 where
  pub size : ℤ
  pub fingerprint : ℕ

-- type Info
pub record Info : Type 0 where
  pub mod_time : ℤ
  pub a_time : ℤ
  pub size : ℤ
  pub rs : List Range
  pub fingerprint : ℕ
  pub dirty : Bool

-- type Item. `fd` is the inode that the handle is open on, `downloaders` and `grace_timer` say
-- whether they are set.
pub record Item : Type 0 where
  pub name : ℕ
  pub opens : ℤ
  pub downloaders : Bool
  pub o : Option RemoteObject
  pub fd : Option ℕ
  pub info : Info
  pub write_back_id : ℕ
  pub pending_accesses : ℕ
  pub modified : Bool
  pub being_reset : Bool
  pub grace_timer : Bool

-- The contents of an inode.
pub record File : Type 0 where
  pub size : ℤ
  pub data' : ℤ → ℕ

-- An item with the part of the world that it changes: the inode at its path in the cache, the
-- metadata file, the inodes, and the writeback queue.
pub record State : Type 0 where
  pub item : Item
  pub path : Option ℕ
  pub meta : Option Info
  pub inodes : ℕ → File
  pub next : ℕ
  pub wb : WriteBack

-- What the world answers during a call: the time, the errors of the system calls, what a failed
-- save leaves of the metadata file, whether removing files fails, how many bytes a write takes at
-- most, how an upload ends that is being cancelled, and what the downloaders do until they answer.
pub record Os : Type 0 where
  pub now : ℤ
  pub stat_err : Option ℕ
  pub create_dir_err : Option ℕ
  pub open_err : Option ℕ
  pub truncate_err : Option ℕ
  pub save_err : Option ℕ
  pub torn : Option Info
  pub fd_close_err : Option ℕ
  pub dls_close_err : Option ℕ
  pub remove_fails : Bool
  pub write_room : ℕ
  pub write_err : Option ℕ
  pub outcome : Outcome
  pub ensure : State → Range → Option ItemError × State
  pub download : State → Range → Option ItemError × State

-- Writes through the fields.
abbrev pub set_info : State → Info → State
set_info st info = record st { item = record st.item { info = info } }

abbrev pub set_fd : State → Option ℕ → State
set_fd st fd = record st { item = record st.item { fd = fd } }

abbrev pub os_err : Option ℕ → Option ItemError
os_err none = none
os_err (some e) = some (os_error e)

-- The first error of two, as checkErr and checkCloseErr keep it.
abbrev pub first_err : Option ItemError → Option ItemError → Option ItemError
first_err none e = e
first_err (some e) _ = some e

-- Info.clean
pub clean_info : ℤ → Info
clean_info now = record {
  mod_time = now;
  a_time = now;
  size = Prelude.pos 0;
  rs = [];
  fingerprint = 0;
  dirty = false;
}

-- Item.inUse
pub in_use : Item → Bool
in_use item = not (eqb_ℤ item.opens (Prelude.pos 0)) || item.info.dirty

-- Item.getDiskSize
unfoldable pub get_disk_size : Item → ℤ
get_disk_size item = total_size item.info.rs

-- Item._save
pub save : Os → State → Option ItemError × State
save os st = elim os.save_err [
  | none ↦ (none, record st { meta = some st.item.info })
  | some e ↦ (some (os_error e), record st { meta = os.torn })
]

-- Item.load: whether the metadata exists, and the item with it.
pub load : State → Bool × State
load st = elim st.meta [ none ↦ (false, st) | some info ↦ (true, set_info st info) ]

-- Item._removeFile and _removeMeta
pub remove_file : Os → State → State
remove_file os st = if os.remove_fails then st else record st { path = none }

pub remove_meta : Os → State → State
remove_meta os st = if os.remove_fails then st else record st { meta = none }

-- Item._remove and Item.remove: whether the file was in the queue, and the state.
pub remove : Os → State → Bool × State
unfolding clean_info remove_file remove_meta
remove os st =
    let out = Writeback.remove_alone st.wb st.item.write_back_id os.outcome os.now in
    (
      out.0,
      remove_meta os (remove_file os (set_info (record st { wb = out.1 }) (clean_info os.now))),
    )

-- Item._stat: the size of the file.
pub stat_size : Os → State → ℤ × Option ItemError
stat_size os st = elim os.stat_err [
  | some e ↦ (Prelude.pos 0, some (os_error e))
  | none ↦ elim st.item.fd [
    | some i ↦ ((st.inodes i).size, none)
    | none ↦ elim st.path [
      | some i ↦ ((st.inodes i).size, none)
      | none ↦ (Prelude.pos 0, some not_exist)
    ]
  ]
]

-- What _getSize returns.
size_found : Os → State → ℤ × Option ItemError
unfolding stat_size
size_found os st =
    let found = stat_size os st in
    elim found.1 [
      | some not_exist ↦ elim st.item.o [ some o ↦ (o.size, none) | none ↦ found ]
      | _ ↦ found
    ]

-- Item._getSize and GetSize: the size and the error, and the state.
pub get_size : Os → State → (ℤ × Option ItemError) × State
unfolding size_found
get_size os st =
    let found = size_found os st in
    elim found.1 [
      | none ↦ (found, set_info st (record st.item.info { size = found.0 }))
      | some _ ↦ (found, st)
    ]

-- Item._written
pub written : State → ℤ → ℤ → State
written st offset size =
    set_info st
      (record st.item.info { rs = insert st.item.info.rs (record { pos = offset; size = size }) })

-- Item._dirty
pub mark_dirty : Os → State → State
unfolding save
mark_dirty os st =
    let timed = set_info st (record st.item.info { mod_time = os.now; a_time = os.now }) in
    let changed = if st.item.modified then timed else record timed {
      item = record timed.item { modified = true };
      wb = (Writeback.remove_alone st.wb st.item.write_back_id os.outcome os.now).1;
    } in
    if st.item.info.dirty
    then changed
    else (save os (set_info changed (record changed.item.info { dirty = true }))).1

-- An empty new file at the path.
abbrev pub create_path : State → State
create_path st = record st {
  path = some st.next;
  inodes = update st.inodes st.next (record { size = Prelude.pos 0; data' = λ _. 0 });
  next = st.next + 1;
}

-- file.OpenFile at the path of the item, with O_CREATE or without.
pub open_path : Os → Bool → State → (ℕ × Option ItemError) × State
open_path os create st = elim os.open_err [
  | some e ↦ ((0, some (os_error e)), st)
  | none ↦ elim st.path [
    | some i ↦ ((i, none), st)
    | none ↦ if create then ((st.next, none), create_path st) else ((0, some not_exist), st)
  ]
]

-- The handle that _truncate uses where the item has none.
truncate_open : Os → State → (ℕ × Option ItemError) × State
unfolding open_path remove_meta
truncate_open os st =
    let first = open_path os (eqb_ℤ (total_size st.item.info.rs) (Prelude.pos 0)) st in
    elim first.0.1 [
      | some not_exist ↦
          open_path os true
            (remove_meta os (set_info st (record st.item.info { rs = []; dirty = false })))
      | _ ↦ first
    ]

-- A truncated file: what it gains is zeros.
abbrev pub cut : File → ℤ → File
cut f size = record {
  size = size;
  data' = λ x. if ltb_ℤ x f.size && ltb_ℤ x size then f.data' x else 0;
}

-- _truncate with its handle on the inode `i`.
truncate_fd : Os → State → ℕ → ℤ → Option ItemError × State
truncate_fd os st i size =
    let sized = set_info st (record st.item.info { size = size }) in
    let same : Bool = elim os.stat_err [ none ↦ eqb_ℤ (st.inodes i).size size | some _ ↦ false ] in
    if same then (none, sized) else elim os.truncate_err [
      | some e ↦ (some (os_error e), st)
      | none ↦ (none, record sized { inodes = update st.inodes i (cut (st.inodes i) size) })
    ]

-- _truncate where the item has no handle.
truncate_path : Os → State → ℤ → Option ItemError × State
unfolding truncate_open truncate_fd
truncate_path os st size =
    let opened = truncate_open os st in
    elim opened.0.1 [
      | some e ↦ (some e, opened.1)
      | none ↦
          let done = truncate_fd os opened.1 opened.0.0 size in
          (first_err done.0 (os_err os.fd_close_err), done.1)
    ]

-- Item._truncate
pub truncate_to : Os → State → ℤ → Option ItemError × State
unfolding truncate_path
truncate_to os st size =
    if ltb_ℤ size (Prelude.pos 0)
    then (none, st)
    else elim st.item.fd [ some i ↦ truncate_fd os st i size | none ↦ truncate_path os st size ]

-- Item._truncateToCurrentSize
pub truncate_to_current_size : Os → State → Option ItemError × State
unfolding get_size truncate_to
truncate_to_current_size os st =
    let found = get_size os st in
    elim found.0.1 [
      | none ↦ truncate_to os found.1 found.0.0
      | some not_exist ↦ truncate_to os found.1 found.0.0
      | some e ↦ (some e, found.1)
    ]

-- Item._exists and Exists
pub exists : State → Bool
exists st = elim st.path [ none ↦ false | some _ ↦ true ]

-- Item.preAccess: none while the item is being reset.
pub pre_access : Item → Option Item
pre_access item =
    if item.being_reset
    then none
    else some (record item { pending_accesses = item.pending_accesses + 1 })

-- Item.postAccess
pub post_access : Item → Item
post_access item = record item { pending_accesses = item.pending_accesses - 1 }

-- A method between preAccess and postAccess; none while it waits for a reset.
unfoldable pub accessed : {A : Type 0} → (State → A × State) → State → Option (A × State)
unfolding pre_access post_access
accessed f st = elim (pre_access st.item) [
  | none ↦ none
  | some item ↦
      let out = f (record st { item = item }) in
      some (out.0, record out.1 { item = post_access out.1.item })
]
