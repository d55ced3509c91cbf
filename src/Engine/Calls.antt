-- ===== src/Engine/Calls.antt =====
-- The calls of an engine forget no opener of an item.
use rclone_vfs.Prelude.{
  ℕ, inl, inr, Bool, true, false, Option, some, ◌==◌, ℤ, Bool-cases, Option-cases, lookup,
}
use rclone_vfs.Item.{
  ItemError, RemoteObject, State, Os, get_size, accessed, pre_access, post_access,
}
use rclone_vfs.Item
use rclone_vfs.Item.Life.{open'}
use rclone_vfs.Item.Life.Safe.{get_size-Calm}
use rclone_vfs.Item.Life.Counted.{≤ℤ_refl, open'-Opening}
use rclone_vfs.Cache.{Cache, held, get}
use rclone_vfs.Engine.{
  Engine, File, dir, file, size_of_item, open_item, add_file, dir_stat, sized_handle,
  new_read_file_handle, open_node, open_file, node_and_open, open_cached,
}
use rclone_vfs.Engine.Held.{
  Sound, Grows, Grows-refl, Grows-trans, put_held-Grows, made-Grows, opens_at,
}

size_of_item-Grows :
    (world : ℕ → Os) (c : Cache) (p : ℕ) → Sound c → Grows c (size_of_item world c p).1
unfolding size_of_item
size_of_item-Grows world c p s = put_held-Grows c p (get_size (world p) (held c p)).1 s (
    ≤ℤ_refl (opens_at c p) (get_size (world p) (held c p)).1.item.opens
      (get_size-Calm (world p) (held c p)).opens)

pub open_item-Grows :
    (world : ℕ → Os) (c : Cache) (p : ℕ) (o : RemoteObject)
    → Sound c
    → Grows c (open_item world c p o).1
unfolding open_item
open_item-Grows world c p o s =
    put_held-Grows c p (open' (world p) false (held c p) (some o)).1 s
      (open'-Opening (world p) false (held c p) (some o)).kept

add_file-Grows :
    (world : ℕ → Os) (e : Engine) (c : Cache) (p name : ℕ)
    → Sound c
    → Grows c (add_file world e c p name).1.cache
unfolding add_file
add_file-Grows world e c p name s = size_of_item-Grows world c p s

pub dir_stat-Grows :
    (world : ℕ → Os) (e : Engine) (name : ℕ)
    → Sound e.cache
    → Grows e.cache (dir_stat world e name).1.cache
unfolding dir_stat
dir_stat-Grows world e name s =
    let got = get world e.cache name in
    let made = made-Grows world e.cache name s in
    elim (Bool-cases (name == 0)) [
      | inl z ↦ rw (z, dir_stat) (Grows-refl e.cache s)
      | inr z ↦ elim (Option-cases (lookup name e.children)) [
        | inr (f, k) ↦ rw (z, k, dir_stat) (Grows-refl e.cache s)
        | inl k ↦ elim (Bool-cases (Item.exists (got.2.store got.0))) [
          | inl x ↦
              rw (z, k, x, dir_stat)
                (Grows-trans e.cache got.2 (add_file world e got.2 got.0 name).1.cache made
                  (add_file-Grows world e got.2 got.0 name))
          | inr x ↦ rw (z, k, x, dir_stat) made
        ]
      ]
    ]

sized_handle-Grows :
    (world : ℕ → Os) (e : Engine) (f : File) (p : ℕ) (c : Cache) (size : ℤ)
    → Sound c
    → Grows c (sized_handle world e f p c size).1.cache
unfolding sized_handle
sized_handle-Grows world e f p c size s = size_of_item-Grows world c p s

new_read_file_handle-Grows :
    (world : ℕ → Os) (e : Engine) (f : File)
    → Sound e.cache
    → Grows e.cache (new_read_file_handle world e f).1.cache
unfolding new_read_file_handle
new_read_file_handle-Grows world e f s =
    let got = get world e.cache f.name in
    let made = made-Grows world e.cache f.name s in
    elim (Option-cases f.remote) [
      | inl r ↦
          rw (r, new_read_file_handle)
            (Grows-trans e.cache got.2 (sized_handle world e f got.0 got.2 f.size).1.cache made
              (sized_handle-Grows world e f got.0 got.2 f.size))
      | inr (o, r) ↦
          let tried = open_item world got.2 got.0 o in
          let tries =
            Grows-trans e.cache got.2 tried.1 made (open_item-Grows world got.2 got.0 o) in
          elim (Option-cases tried.0) [
            | inl t ↦
                rw (r, t, new_read_file_handle)
                  (Grows-trans e.cache tried.1 (sized_handle world e f got.0 tried.1 o.size).1.cache
                    tries (sized_handle-Grows world e f got.0 tried.1 o.size))
            | inr (x, t) ↦ rw (r, t, new_read_file_handle) tries
          ]
    ]

open_node-Grows :
    (world : ℕ → Os) (e : Engine) (f : File) (read_only : Bool)
    → Sound e.cache
    → Grows e.cache (open_node world e f read_only).1.cache
unfolding open_node
open_node-Grows world e f true s = new_read_file_handle-Grows world e f s
open_node-Grows world e f false s = Grows-refl e.cache s

pub open_file-Grows :
    (world : ℕ → Os) (e : Engine) (name : ℕ) (read_only : Bool)
    → Sound e.cache
    → Grows e.cache (open_file world e name read_only).1.cache
unfolding open_file
open_file-Grows world e name read_only s =
    let found = dir_stat world e name in
    let stats = dir_stat-Grows world e name s in
    elim (Bool-cases (name == 0)) [
      | inl z ↦ rw (z, open_file) (Grows-refl e.cache s)
      | inr z ↦ elim (Option-cases found.0) [
        | inl n ↦ rw (z, n, open_file) stats
        | inr (dir, n) ↦ rw (z, n, open_file) stats
        | inr (file f, n) ↦
            rw (z, n, open_file)
              (Grows-trans e.cache found.1.cache (open_node world found.1 f read_only).1.cache stats
                (open_node-Grows world found.1 f read_only))
      ]
    ]

pub node_and_open-Grows :
    (world : ℕ → Os) (e : Engine) (p name : ℕ)
    → Sound e.cache
    → Grows e.cache (node_and_open world e p name).1.cache
unfolding node_and_open
node_and_open-Grows world e p name s =
    let found = dir_stat world e name in
    let stats = dir_stat-Grows world e name s in
    let added = (add_file world found.1 found.1.cache p name).1 in
    elim (Option-cases found.0) [
      | inl n ↦
          rw (n, node_and_open)
            (Grows-trans e.cache added.cache (open_file world added name true).1.cache
              (Grows-trans e.cache found.1.cache added.cache stats
                (add_file-Grows world found.1 found.1.cache p name))
              (open_file-Grows world added name true))
      | inr (n, k) ↦
          rw (k, node_and_open)
            (Grows-trans e.cache found.1.cache (open_file world found.1 name true).1.cache stats
              (open_file-Grows world found.1 name true))
    ]

pub open_cached-Grows :
    (world : ℕ → Os) (e : Engine) (name : ℕ) (obj : Option RemoteObject)
    → Sound e.cache
    → Grows e.cache (open_cached world e name obj).1.cache
unfolding open_cached
open_cached-Grows world e name obj s =
    let got = get world e.cache name in
    let made = made-Grows world e.cache name s in
    elim (Bool-cases (name == 0)) [
      | inl z ↦ rw (z, open_cached) (Grows-refl e.cache s)
      | inr z ↦ elim (Option-cases obj) [
        | inl n ↦
            let e' = record e { cache = got.2 } in
            rw (z, n, open_cached)
              (Grows-trans e.cache got.2 (node_and_open world e' got.0 name).1.cache made
                (node_and_open-Grows world e' got.0 name))
        | inr (o, n) ↦
            let tried = open_item world got.2 got.0 o in
            let tries =
              Grows-trans e.cache got.2 tried.1 made (open_item-Grows world got.2 got.0 o) in
            let e' = record e { cache = tried.1 } in
            elim (Option-cases tried.0) [
              | inl t ↦
                  rw (z, n, t, open_cached)
                    (Grows-trans e.cache tried.1 (node_and_open world e' got.0 name).1.cache tries
                      (node_and_open-Grows world e' got.0 name))
              | inr (x, t) ↦ rw (z, n, t, open_cached) tries
            ]
      ]
    ]
