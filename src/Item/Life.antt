-- ===== src/Item/Life.antt =====
-- internal/cache/item.go: opening, closing, removing and resetting an item.
pub mod Resets
pub mod Safe
pub mod Faults
pub mod Balance
pub mod Counted
use rclone_vfs.Prelude.{
  ℕ, ◌+◌, ◌-◌, Bool, true, false, not, ◌&&◌, ◌||◌, Option, none, some, List, [], ◌∷◌, if◌then◌else◌,
  ltb, leb, ◌==◌, ℤ, ◌+ℤ◌, ◌-ℤ◌, ltb_ℤ, leb_ℤ, eqb_ℤ,
}
use rclone_vfs.Prelude
use rclone_vfs.Ranges.{Range, total_size}
use rclone_vfs.Writeback
use rclone_vfs.Item.{
  ItemError, not_exist, err_closed, already_open, not_open, os_error, RemoteObject, Info, Item,
  State, Os, set_info, set_fd, os_err, first_err, save, load, remove, remove_file, remove_meta,
  get_size, truncate_to_current_size, open_path, exists, accessed,
}
use rclone_vfs.Item.Data.{ensure_range}

-- The options of the cache that an item reads: opt.WriteBack and opt.HandleCaching.
pub record Options : Type 0 where
  pub write_back : ℤ
  pub handle_caching : ℤ

-- The item that newItem makes, before it looks at the disk.
abbrev pub blank_item : ℕ → ℤ → Item
blank_item name now = record {
  name = name;
  opens = Prelude.pos 0;
  downloaders = false;
  o = none;
  fd = none;
  info = record {
    mod_time = now;
    a_time = now;
    size = Prelude.pos 0;
    rs = [];
    fingerprint = 0;
    dirty = false;
  };
  write_back_id = 0;
  pending_accesses = 0;
  modified = false;
  being_reset = false;
  grace_timer = false;
}

-- newItem, of the state whose item is replaced. Its stat of the path goes first.
unfoldable pub new_item : Os → State → ℕ → State
unfolding remove load remove_file remove_meta
new_item os st name =
    let blank = record st { item = blank_item name os.now } in
    let checked : State = elim os.stat_err [
      | some _ ↦ (remove os blank).1
      | none ↦ elim st.path [ none ↦ remove_meta os blank | some _ ↦ blank ]
    ] in
    let loaded = load checked in
    let kept = if loaded.0 then loaded.1 else remove_file os loaded.1 in
    elim os.stat_err [
      | some _ ↦ kept
      | none ↦ elim st.path [
        | none ↦ kept
        | some i ↦ set_info kept (record kept.item.info { size = (st.inodes i).size })
      ]
    ]

-- Item._createFile
pub create_file : Os → State → Option ItemError × State
unfolding save
create_file os st = elim st.item.fd [
  | some _ ↦ (some already_open, st)
  | none ↦
      let cleared = record st { item = record st.item { modified = false } } in
      let opened = open_path os false cleared in
      let saved = save os (set_fd opened.1 (some opened.0.0)) in
      elim opened.0.1 [
        | some e ↦ (some e, opened.1)
        | none ↦ elim saved.0 [ none ↦ saved | some e ↦ (some e, set_fd saved.1 none) ]
      ]
]

-- The part of _checkObject that compares the fingerprints.
pub compare_object : Os → State → Option RemoteObject → State
unfolding remove
compare_object os st none =
    if not (st.item.info.fingerprint == 0) && not st.item.info.dirty then (remove os st).1 else st
compare_object os st (some o) =
    let stale = (remove os st).1 in
    let checked =
      if st.item.info.fingerprint == 0
      then set_info st (record st.item.info { fingerprint = o.fingerprint })
      else if not (o.fingerprint == st.item.info.fingerprint) && not st.item.info.dirty
      then set_info stale (record stale.item.info { fingerprint = o.fingerprint })
      else st in
    set_info checked (record checked.item.info { size = o.size })

-- Item._checkObject
unfoldable pub check_object : Os → State → Option RemoteObject → Option ItemError × State
unfolding compare_object truncate_to_current_size
check_object os st o =
    let compared = compare_object os st o in
    truncate_to_current_size os (record compared { item = record compared.item { o = o } })

-- The downloaders of an item that has an object.
abbrev pub new_downloaders : State → State
new_downloaders st = elim st.item.o [
  | none ↦ st
  | some _ ↦ record st { item = record st.item { downloaders = true } }
]

-- Item.open from the call of _createFile. `taken` says that put found another item of the name that
-- is open.
open_fresh : Os → Bool → State → Option ItemError × State
unfolding create_file remove
open_fresh os taken st =
    let created = create_file os st in
    let gone = (remove os created.1).1 in
    elim created.0 [
      | some e ↦ (
        some e,
        record gone {
          item = record gone.item { fd = none; opens = gone.item.opens -ℤ Prelude.pos 1 };
        },
      )
      | none ↦ (if taken then some already_open else none, new_downloaders created.1)
    ]

-- Item.open from the count of the openers.
open_counted : Os → Bool → State → Option ItemError × State
unfolding open_fresh exists
open_counted os taken st =
    let awake = record st { item = record st.item { grace_timer = false } } in
    let dropped = record awake { item = record awake.item { fd = none; downloaders = false } } in
    if not (eqb_ℤ st.item.opens (Prelude.pos 1))
    then (none, st)
    else if st.item.grace_timer
    then if exists awake then (none, awake) else open_fresh os taken dropped
    else open_fresh os taken st

-- Item.open
unfoldable pub open' : Os → Bool → State → Option RemoteObject → Option ItemError × State
unfolding check_object open_counted
open' os taken st o =
    let accessed_at = set_info st (record st.item.info { a_time = os.now }) in
    let checked = check_object os accessed_at o in
    let counted = record checked.1 {
      item = record checked.1.item { opens = checked.1.item.opens +ℤ Prelude.pos 1 };
    } in
    elim os.create_dir_err [
      | some e ↦ (some (os_error e), accessed_at)
      | none ↦ elim checked.0 [
        | some e ↦ (some e, checked.1)
        | none ↦ open_counted os taken counted
      ]
    ]

-- Item._store, where writes stay in the cache.
pub store : Os → State → State
unfolding save
store os st =
    if st.item.info.dirty
    then (save os (set_info st (record st.item.info { dirty = false }))).1
    else st

-- The end of _actualClose for a changed file: it is stored, or queued.
queue_upload : Os → State → Bool → State
unfolding store
queue_upload os st sync =
    let (id, named) = Writeback.set_id st.wb st.item.write_back_id in
    let added =
      (Writeback.add_alone named id st.item.name st.item.info.size st.item.modified 0 os.outcome
        os.now).1 in
    if not st.item.info.dirty
    then st
    else if sync
    then store os st
    else record st { wb = added; item = record st.item { write_back_id = id } }

-- _actualClose from the close of the downloaders on.
close_handles : Os → State → Bool → Option ItemError → Option ItemError × State
unfolding queue_upload save
close_handles os st sync err =
    let dls_err = if st.item.downloaders then os_err os.dls_close_err else none in
    let fd_err : Option ItemError = elim st.item.fd [
      | none ↦ some not_open
      | some _ ↦ os_err os.fd_close_err
    ] in
    let saved = save os (record st { item = record st.item { downloaders = false; fd = none } }) in
    let queued = queue_upload os saved.1 sync in
    (
      first_err (first_err (first_err err dls_err) fd_err) saved.0,
      record queued { item = record queued.item { modified = false } },
    )

-- Whether _actualClose has to bring in what was not transferred.
is_partial : Item → Bool
is_partial item = elim item.o [ none ↦ false | some _ ↦ item.info.dirty ]

-- _actualClose after its call of _ensure.
close_ensured : Os → Bool → Option ItemError × State → Option ItemError × State
unfolding close_handles
close_ensured os sync ensured = elim ensured.0 [
  | some e ↦ (some e, ensured.1)
  | none ↦ close_handles os ensured.1 sync none
]

-- Item._actualClose
pub actual_close : Os → State → Bool → Option ItemError × State
unfolding close_ensured close_handles is_partial
actual_close os st sync =
    let sized = (get_size os st).1 in
    if is_partial sized.item
    then close_ensured os sync (ensure_range os sized (Prelude.pos 0) sized.item.info.size)
    else close_handles os sized sync none

-- Item.Close between its preAccess and postAccess.
unfoldable pub close_locked : Os → Options → State → Option ItemError × State
unfolding actual_close
close_locked os opt st =
    let opens = st.item.opens -ℤ Prelude.pos 1 in
    let counted = record st {
      item = record st.item { opens = opens; info = record st.item.info { a_time = os.now } };
    } in
    if ltb_ℤ opens (Prelude.pos 0)
    then (some err_closed, counted)
    else if ltb_ℤ (Prelude.pos 0) opens
    then (none, counted)
    else if ltb_ℤ (Prelude.pos 0) opt.handle_caching && not counted.item.info.dirty
    then (none, record counted { item = record counted.item { grace_timer = true } })
    else actual_close os counted (leb_ℤ opt.write_back (Prelude.pos 0))

-- Item.Close
pub close : Os → Options → State → Option (Option ItemError × State)
unfolding close_locked
close os opt st = accessed (close_locked os opt) st

-- Item.closeAfterGrace
pub close_after_grace : Os → State → State
unfolding actual_close
close_after_grace os st =
    if ltb_ℤ (Prelude.pos 0) st.item.opens || not st.item.grace_timer
    then st
    else (actual_close os (record st { item = record st.item { grace_timer = false } }) false).1

-- Item._updateFingerprint
pub update_fingerprint : State → State
update_fingerprint st = elim st.item.o [
  | none ↦ st
  | some o ↦ set_info st (record st.item.info { fingerprint = o.fingerprint })
]

-- Item.rename between its preAccess and postAccess, where the files are moved to the new name, which
-- are the path and the metadata of the state from then on.
pub rename : Os → ℕ → Option RemoteObject → State → State
unfolding update_fingerprint
rename os new_name new_obj st =
    let named =
      update_fingerprint (record st {
        item = record st.item { downloaders = false; name = new_name; o = new_obj };
      }) in
    record named {
      wb = Writeback.rename_alone st.wb st.item.write_back_id new_name os.outcome os.now;
    }

-- Item.setModTime
pub set_mod_time : Os → State → ℤ → State
unfolding update_fingerprint save
set_mod_time os st mod_time =
    let printed = update_fingerprint st in
    (save os (set_info printed (record printed.item.info { mod_time = mod_time }))).1
