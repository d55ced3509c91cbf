-- ===== src/Engine/Remembered/Opens.antt =====
-- What is opened under a name that the root has: its file.
use rclone_vfs.Prelude.{
  ℕ, ◌≡◌, refl, sym, ap, ◌∙◌, inl, inr, true, false, Option, some, arith, ◌==◌, Bool-cases,
  Option-cases, lookup,
}
use rclone_vfs.Item.{RemoteObject, Os}
use rclone_vfs.Cache.{get}
use rclone_vfs.Engine.{
  Engine, EngineError, of_item, err_invalid, File, Handle, Opened, failed, opened, sized_handle,
  new_read_file_handle, open_node, open_file, open_item, node_and_open, open_cached, remove,
}
use rclone_vfs.Engine.Unread.{dir_stat_child, made_handle}
use rclone_vfs.Engine.Leaks.{Use, stats, opens, caches, removes, reads, Uses, start, use_in}
use rclone_vfs.Engine.Remembered.{
  Kept, same-Kept, Kept-trans, dir_stat-Kept, open_file-Kept, open_cached-Kept, handle_read-same,
}

Use-Kept : (world : ℕ → Os) (e e' : Engine) → Use world e e' → Kept e e'
unfolding remove
Use-Kept world e _ (stats name) = dir_stat-Kept world e name
Use-Kept world e _ (opens name read_only) = open_file-Kept world e name read_only
Use-Kept world e _ (caches name obj) = open_cached-Kept world e name obj
Use-Kept world e _ (removes name) = same-Kept e (remove world e name) refl
Use-Kept world e _ (reads h n out eq) = same-Kept e out.engine (handle_read-same world e h n out eq)

Uses-Kept : (e e' : Engine) → Uses e e' → Kept e e'
Uses-Kept e _ start = same-Kept e e refl
Uses-Kept e _ (use_in world now next q before u) =
    Kept-trans e now next (Uses-Kept e now before) (Use-Kept world now next u)

-- A handle that an open returned is one of a file.
record Of (f : File) (out : Opened) : Type 0 where
  pub file : (h : Handle) → out ≡ opened h → h.f ≡ f

failed-Of : (f : File) (err : EngineError) → Of f (failed err)
failed-Of f err = record { file = λ h eq. absurd (ground (arith, eq)) }

abbrev handle_or : Handle → Opened → Handle
handle_or h (failed _) = h
handle_or _ (opened h) = h

opened-Of : (f : File) (h : Handle) → h.f ≡ f → Of f (opened h)
opened-Of f h e = record { file = λ h' eq. ap (λ o. (handle_or h o).f) (sym eq) ∙ e }

open_node-Of :
    (world : ℕ → Os) (e : Engine) (f g : File) → f ≡ g → Of g (open_node world e f true).0
unfolding open_node new_read_file_handle sized_handle
open_node-Of world e f g same =
    let got = get world e.cache f.name in
    elim (Option-cases f.remote) [
      | inl r ↦
          rw (r, new_read_file_handle) (opened-Of g (made_handle world f got.0 got.2 f.size) same)
      | inr (o, r) ↦
          let tried = open_item world got.2 got.0 o in
          elim (Option-cases tried.0) [
            | inl t ↦
                rw (r, t, new_read_file_handle)
                  (opened-Of g (made_handle world f got.0 tried.1 o.size) same)
            | inr (x, t) ↦ rw (r, t, new_read_file_handle) (failed-Of g (of_item x))
          ]
    ]

open_file-Of :
    (world : ℕ → Os) (e : Engine) (name : ℕ) (f : File)
    → (name == 0) ≡ false
    → lookup name e.children ≡ some f
    → Of f (open_file world e name true).0
unfolding open_file
open_file-Of world e name f z child =
    let stat = dir_stat_child world e name f z child in
    let node = ap (λ r. r.0) stat in
    let same = ap (λ r. r.1) stat in rw (z, node, same, open_file) (open_node-Of world e f f refl)

node_and_open-Of :
    (world : ℕ → Os) (e : Engine) (p name : ℕ) (f : File)
    → (name == 0) ≡ false
    → lookup name e.children ≡ some f
    → Of f (node_and_open world e p name).0
unfolding node_and_open
node_and_open-Of world e p name f z child =
    let stat = dir_stat_child world e name f z child in
    let node = ap (λ r. r.0) stat in
    let same = ap (λ r. r.1) stat in
    rw (node, same, node_and_open) (open_file-Of world e name f z child)

open_cached-Of :
    (world : ℕ → Os) (e : Engine) (name : ℕ) (obj : Option RemoteObject) (f : File)
    → lookup name e.children ≡ some f
    → Of f (open_cached world e name obj).0
unfolding open_cached
open_cached-Of world e name obj f child =
    let got = get world e.cache name in
    elim (Bool-cases (name == 0)) [
      | inl z ↦ rw (z, open_cached) (failed-Of f err_invalid)
      | inr z ↦ elim (Option-cases obj) [
        | inl n ↦
            rw (z, n, open_cached)
              (node_and_open-Of world (record e { cache = got.2 }) got.0 name f z child)
        | inr (o, n) ↦
            let tried = open_item world got.2 got.0 o in
            elim (Option-cases tried.0) [
              | inl t ↦
                  rw (z, n, t, open_cached)
                    (node_and_open-Of world (record e { cache = tried.1 }) got.0 name f z child)
              | inr (x, t) ↦ rw (z, n, t, open_cached) (failed-Of f (of_item x))
            ]
      ]
    ]

-- Once the root has a file under a name, every handle that OpenCached returns for that name is one
-- of that very file, with the size it was first given: after any uses of the engine, Remove among
-- them, and whatever object is passed.
pub open_cached-Remembered :
    (world : ℕ → Os) (e e' : Engine) (name : ℕ) (f : File) (obj : Option RemoteObject) (h : Handle)
    → lookup name e.children ≡ some f
    → Uses e e'
    → (open_cached world e' name obj).0 ≡ opened h
    → h.f ≡ f
open_cached-Remembered world e e' name f obj h child uses eq =
    (open_cached-Of world e' name obj f ((Uses-Kept e e' uses).child name f child)).file h eq
