-- ===== src/Cache.antt =====
-- internal/cache/cache.go: the index of the items and the cleaner. A name is a number; an item is a
-- pointer into a store, as in the source, and the items share the write-back queue of the cache.
-- What the world answers a call on an item is a record of answers for each pointer, the free space
-- of the disk is a function of the index (none is an error), and sort.Sort is a parameter, as is the
-- order in which a map is walked, which is that of the list here. Each locked part is a step.
pub mod Account
pub mod Rounds
mod Examples
use rclone_vfs.Prelude.{
  ℕ, ◌+◌, Bool, true, false, not, ◌&&◌, ◌||◌, Option, none, some, List, [], ◌∷◌, if◌then◌else◌, ltb,
  leb, ◌==◌, ℤ, ◌+ℤ◌, ◌-ℤ◌, ltb_ℤ, leb_ℤ, lookup, delete, update,
}
use rclone_vfs.Prelude
use rclone_vfs.Writeback.{WriteBack}
use rclone_vfs.Item.{ItemError, RemoteObject, Item, State, Os, in_use, get_disk_size}
use rclone_vfs.Item
use rclone_vfs.Item.Life.{new_item}
use rclone_vfs.Item.Life
use rclone_vfs.Item.Life.Resets.{
  is_removed, remove_not_in_use, ResetResult, removed_not_in_use, reset,
}

-- type Cache: its index, the items in error, the space in use and the state of the cleaner; `store`
-- holds the items and `allocated` the next pointer; `kick` is the number of messages in the channel.
pub record Cache : Type 0 where
  pub item : List (ℕ × ℕ)
  pub err_items : List (ℕ × ItemError)
  pub used : ℤ
  pub out_of_space : Bool
  pub cleaner_kicked : Bool
  pub kick : ℕ
  pub store : ℕ → State
  pub allocated : ℕ
  pub writeback : WriteBack

-- The options that the cleaner reads.
pub record Options : Type 0 where
  pub cache_max_age : ℤ
  pub cache_max_size : ℤ
  pub cache_min_free_space : ℤ

-- The item at a pointer, with the queue of the cache.
abbrev pub held : Cache → ℕ → State
held c p = record (c.store p) { wb = c.writeback }

-- The cache after a call has changed the item at a pointer.
abbrev pub put_held : Cache → ℕ → State → Cache
put_held c p st = record c { store = update c.store p st; writeback = st.wb }

-- Cache._get and get, of a clean name: the item, whether it was found, and the cache.
unfoldable pub get : (ℕ → Os) → Cache → ℕ → ℕ × Bool × Cache
get world c name = elim (lookup name c.item) [
  | some p ↦ (p, true, c)
  | none ↦
      let p = c.allocated in
      let made = new_item (world p) (held c p) name in
      (p, false, record (put_held c p made) { item = (name, p) ∷ c.item; allocated = p + 1 })
]

-- Cache.put, of a clean name.
pub put : Cache → ℕ → ℕ → Option ℕ × Cache
put c name p =
    let set = record c { item = (name, p) ∷ delete name c.item } in
    elim (lookup name c.item) [
      | none ↦ (none, set)
      | some old ↦ if old == p then (none, c) else (some old, set)
    ]

-- Cache.InUse
pub in_use_name : Cache → ℕ → Bool
in_use_name c name = elim (lookup name c.item) [ none ↦ false | some p ↦ in_use (c.store p).item ]

-- Cache.DirtyItem
pub dirty_item : Cache → ℕ → Option ℕ
dirty_item c name = elim (lookup name c.item) [
  | none ↦ none
  | some p ↦ if (c.store p).item.info.dirty then some p else none
]

-- Cache.Exists
pub exists : (ℕ → Os) → Cache → ℕ → Bool × Cache
unfolding get
exists world c name = let (p, found, c') = get world c name in (Item.exists (c'.store p), c')

-- Cache.Rename, of clean names, where the files are moved without an error.
pub rename : (ℕ → Os) → Cache → ℕ → ℕ → Option RemoteObject → Cache
unfolding get
rename world c name new_name new_obj =
    let (p, found, c') = get world c name in
    let moved = put_held c' p (Life.rename (world p) new_name new_obj (held c' p)) in
    elim (lookup name moved.item) [
      | none ↦ moved
      | some q ↦ record moved { item = delete name ((new_name, q) ∷ delete new_name moved.item) }
    ]

-- Cache.Remove: whether the file was in the transfer queue, and the cache.
unfoldable pub remove : (ℕ → Os) → Cache → ℕ → Bool × Cache
remove world c name = elim (lookup name c.item) [
  | none ↦ (false, c)
  | some p ↦
      let out = Item.remove (world p) (held c p) in
      (out.0, put_held (record c { item = delete name c.item }) p out.1)
]

-- Cache.SetModTime
pub set_mod_time : (ℕ → Os) → Cache → ℕ → ℤ → Cache
unfolding get
set_mod_time world c name mod_time =
    let (p, found, c') = get world c name in
    put_held c' p (Life.set_mod_time (world p) (held c' p) mod_time)

-- KickCleaner up to its wait, for which the channel has room.
pub kick_cleaner : Cache → Cache
kick_cleaner c =
    if c.cleaner_kicked
    then c
    else record c { cleaner_kicked = true; out_of_space = true; kick = c.kick + 1 }

-- The total size of the items of an index.
pub sizes : (ℕ → State) → List (ℕ × ℕ) → ℤ
sizes store [] = Prelude.pos 0
sizes store ((name, p) ∷ rest) = get_disk_size (store p).item +ℤ sizes store rest

-- Cache.updateUsed
pub update_used : Cache → Cache
update_used c = record c { used = sizes c.store c.item }

-- The pointers of an index that pass a test.
pub select : (State → Bool) → (ℕ → State) → List (ℕ × ℕ) → List ℕ
select test store [] = []
select test store ((name, p) ∷ rest) =
    let found = select test store rest in if test (store p) then p ∷ found else found

-- An item that has been asked for its space: what it has freed, and whether it leaves the index.
pub reclaim : Cache → ℕ → Bool → ℤ → State → Cache
reclaim c p removed freed st =
    let charged = record (put_held c p st) { used = c.used -ℤ freed } in
    if removed then record charged { item = delete st.item.name c.item } else charged

-- Cache.removeNotInUse
pub remove_item_not_in_use : (ℕ → Os) → Cache → ℕ → ℤ → Bool → Cache
unfolding reclaim
remove_item_not_in_use world c p max_age empty_only =
    let (removed, freed, st) = remove_not_in_use (world p) (held c p) max_age empty_only in
    reclaim c p removed freed st

module _ (sort : (ℕ → State) → List ℕ → List ℕ) (avail : List (ℕ × ℕ) → Option ℤ)
    (no_space : ItemError → Bool) (opt : Options) (world : ℕ → Os) where
  -- Cache.maxSizeQuotaOK
  pub max_size_quota_ok : Cache → Bool
  max_size_quota_ok c = leb_ℤ opt.cache_max_size (Prelude.pos 0) || leb_ℤ c.used opt.cache_max_size

  -- Cache.minFreeSpaceQuotaOK. What statfs says is taken to change with the index only.
  pub min_free_space_quota_ok : Cache → Bool
  min_free_space_quota_ok c =
      let enough : Bool = elim (avail c.item) [
        | none ↦ true
        | some free ↦ leb_ℤ opt.cache_min_free_space free
      ] in
      leb_ℤ opt.cache_min_free_space (Prelude.pos 0) || enough

  -- Cache.quotasOK
  pub quotas_ok : Cache → Bool
  unfolding max_size_quota_ok min_free_space_quota_ok
  quotas_ok c = max_size_quota_ok c && min_free_space_quota_ok c

  -- Cache.haveQuotas
  pub have_quotas : Bool
  have_quotas =
      ltb_ℤ (Prelude.pos 0) opt.cache_max_size || ltb_ℤ (Prelude.pos 0) opt.cache_min_free_space

  -- Room again, with the word to those who wait for it.
  pub release : Cache → Cache
  release c = record c { out_of_space = false }

  -- The loop of purgeOld.
  pub purge_old_loop : Cache → List ℕ → Cache
  purge_old_loop c [] = c
  purge_old_loop c (p ∷ ps) =
      purge_old_loop (remove_item_not_in_use world c p opt.cache_max_age false) ps

  -- Cache.purgeOld
  pub purge_old : Cache → Cache
  unfolding purge_old_loop release
  purge_old c =
      let purged = purge_old_loop c (select (λ st. true) c.store c.item) in
      if quotas_ok purged then release purged else purged

  -- The loop of purgeOverQuota.
  pub purge_over_loop : Cache → List ℕ → Cache
  purge_over_loop c [] = c
  purge_over_loop c (p ∷ ps) =
      purge_over_loop (remove_item_not_in_use world c p (Prelude.pos 0) (quotas_ok c)) ps

  -- Cache.purgeOverQuota
  pub purge_over_quota : Cache → Cache
  unfolding purge_over_loop release update_used
  purge_over_quota c =
      let counted = update_used c in
      let unused =
        sort counted.store (select (λ st. not (in_use st.item)) counted.store counted.item) in
      let purged = purge_over_loop counted unused in
      if quotas_ok counted then counted else if quotas_ok purged then release purged else purged

  -- An item in the loop of purgeClean.
  pub reset_item : Cache → ℕ → Cache
  unfolding reclaim
  reset_item c p =
      let out = reset no_space (world p) (held c p) in
      let reclaimed = reclaim c p (is_removed out.result) out.freed out.state in
      elim out.err [
        | none ↦ reclaimed
        | some e ↦ record reclaimed {
          err_items = (out.state.item.name, e) ∷ delete out.state.item.name c.err_items;
        }
      ]

  -- The loop of purgeClean.
  pub purge_clean_loop : Cache → List ℕ → Cache
  unfolding reset_item
  purge_clean_loop c [] = c
  purge_clean_loop c (p ∷ ps) =
      let rest = purge_clean_loop (reset_item c p) ps in if quotas_ok c then c else rest

  -- Cache.purgeClean
  pub purge_clean : Cache → Cache
  unfolding purge_clean_loop release
  purge_clean c =
      let clean = sort c.store (select (λ st. not st.item.info.dirty) c.store c.item) in
      if quotas_ok c then c else release (purge_clean_loop c clean)

  -- The loop of retryFailedResets.
  pub retry_loop : Cache → List (ℕ × ItemError) → Cache
  retry_loop c [] = c
  retry_loop c ((name, old) ∷ rest) =
      let cleared = record c { err_items = delete name c.err_items } in
      let next : Cache = elim (lookup name c.item) [
        | none ↦ cleared
        | some p ↦
            let out = reset no_space (world p) (held c p) in
            let done = put_held c p out.state in
            let kept : Bool = elim out.err [ none ↦ false | some e ↦ no_space e ] in
            if kept then done else record done { err_items = delete name c.err_items }
      ] in
      retry_loop next rest

  -- Cache.retryFailedResets
  pub retry_failed_resets : Cache → Cache
  unfolding retry_loop
  retry_failed_resets c = retry_loop c c.err_items

  -- The purges of Cache.clean.
  pub purges : Cache → Cache
  unfolding purge_old purge_over_quota purge_clean
  purges c =
      let old = purge_old (update_used c) in
      if have_quotas then purge_clean (purge_over_quota old) else old

  -- Cache.clean: `root_exists` says whether os.Stat finds the root of the cache.
  pub clean : Cache → Bool → Bool → Cache
  unfolding purges retry_failed_resets
  clean c root_exists kicked =
      let purged = purges c in
      let retried = if have_quotas then retry_failed_resets purged else purged in
      if not root_exists
      then c
      else if kicked
      then record retried { cleaner_kicked = false }
      else retried

-- Cache.TotalInUse
pub total_in_use : (ℕ → State) → List (ℕ × ℕ) → ℕ
total_in_use store [] = 0
total_in_use store ((name, p) ∷ rest) =
    let n = total_in_use store rest in if in_use (store p).item then n + 1 else n
