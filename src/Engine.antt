-- ===== src/Engine.antt =====
-- internal/engine.go, dir.go, file.go and read.go: the engine, the files of its root directory and
-- the handles that read them. A name is a clean name as in Cache, and 0 is the empty one; nothing adds
-- a directory to the root. Item.Open and Item.ReadAt are made once, without their retries, for an
-- item that the index has, so that put finds the item itself.
pub mod Held
pub mod Calls
pub mod Leaks
pub mod Unread
pub mod Remembered
pub mod Samples
mod Examples
use rclone_vfs.Prelude.{
  ℕ, ◌+◌, Bool, true, false, not, Option, none, some, List, [], ◌∷◌, if◌then◌else◌, ◌==◌, ℤ, ◌+ℤ◌,
  lookup, delete, length,
}
use rclone_vfs.Prelude
use rclone_vfs.Item.{ItemError, eof, RemoteObject, State, Os, get_size, accessed}
use rclone_vfs.Item
use rclone_vfs.Item.Data.{read_at}
use rclone_vfs.Item.Life.{open'}
use rclone_vfs.Cache.{Cache, held, put_held, get}
use rclone_vfs.Cache

-- The errors: os.ErrInvalid, os.ErrNotExist, os.ErrClosed, EPERM, or one of the item.
pub data EngineError : Type 0 where
  err_invalid err_not_exist err_closed err_permission : EngineError
  of_item : ItemError → EngineError

-- type File
pub record File : Type 0 where
  pub name : ℕ
  pub size : ℤ
  pub remote : Option RemoteObject

-- type Engine: the cache, and the children of the root.
pub record Engine : Type 0 where
  pub cache : Cache
  pub children : List (ℕ × File)

-- type ReadFileHandle
pub record Handle : Type 0 where
  pub f : File
  pub offset : ℤ
  pub size : ℤ
  pub closed : Bool

-- What Stat finds: the root, or a file.
pub data Node : Type 0 where
  dir : Node
  file : File → Node

-- What an open returns.
pub data Opened : Type 0 where
  failed : EngineError → Opened
  opened : Handle → Opened

-- Item.GetSize of the item at a pointer.
pub size_of_item : (ℕ → Os) → Cache → ℕ → (ℤ × Option ItemError) × Cache
size_of_item world c p = let out = get_size (world p) (held c p) in (out.0, put_held c p out.1)

-- Item.Open of the item at a pointer.
pub open_item : (ℕ → Os) → Cache → ℕ → RemoteObject → Option ItemError × Cache
open_item world c p o =
    let out = open' (world p) false (held c p) (some o) in (out.0, put_held c p out.1)

-- newFile with the size of the item, if it has one, as a child of the root.
add_file : (ℕ → Os) → Engine → Cache → ℕ → ℕ → File × Engine
unfolding size_of_item
add_file world e c p name =
    let sized = size_of_item world c p in
    let size : ℤ = elim sized.0.1 [ none ↦ sized.0.0 | some _ ↦ Prelude.pos 0 ] in
    let f : File = record { name = name; size = size; remote = none } in
    (f, record e { cache = sized.1; children = (name, f) ∷ delete name e.children })

-- Dir.Stat of the root: none is os.ErrNotExist.
pub dir_stat : (ℕ → Os) → Engine → ℕ → Option Node × Engine
unfolding add_file get
dir_stat world e name =
    let got = get world e.cache name in
    let added = add_file world e got.2 got.0 name in
    if name == 0 then (some dir, e) else elim (lookup name e.children) [
      | some f ↦ (some (file f), e)
      | none ↦
          if Item.exists (got.2.store got.0)
          then (some (file added.0), added.1)
          else (none, record e { cache = got.2 })
    ]

-- The end of newReadFileHandle, which asks the item for its size.
sized_handle : (ℕ → Os) → Engine → File → ℕ → Cache → ℤ → Opened × Engine
unfolding size_of_item
sized_handle world e f p c size =
    let sized = size_of_item world c p in
    let size' : ℤ = elim sized.0.1 [ none ↦ sized.0.0 | some _ ↦ size ] in
    (
      opened (record { f = f; offset = Prelude.pos 0; size = size'; closed = false }),
      record e { cache = sized.1 },
    )

-- newReadFileHandle
new_read_file_handle : (ℕ → Os) → Engine → File → Opened × Engine
unfolding sized_handle open_item get
new_read_file_handle world e f =
    let got = get world e.cache f.name in
    elim f.remote [
      | none ↦ sized_handle world e f got.0 got.2 f.size
      | some o ↦
          let tried = open_item world got.2 got.0 o in
          elim tried.0 [
            | some err ↦ (failed (of_item err), record e { cache = tried.1 })
            | none ↦ sized_handle world e f got.0 tried.1 o.size
          ]
    ]

-- File.Open, for the access mode os.O_RDONLY or another.
open_node : (ℕ → Os) → Engine → File → Bool → Opened × Engine
unfolding new_read_file_handle
open_node world e f read_only =
    if read_only then new_read_file_handle world e f else (failed err_permission, e)

-- Dir.OpenFile of the root, and Engine.Open and OpenFile.
pub open_file : (ℕ → Os) → Engine → ℕ → Bool → Opened × Engine
open_file world e name read_only =
    let found = dir_stat world e name in
    if name == 0 then (failed err_invalid, e) else elim found.0 [
      | none ↦ (failed err_not_exist, found.1)
      | some dir ↦ (failed err_invalid, found.1)
      | some (file f) ↦ open_node world found.1 f read_only
    ]

-- OpenCached once the item is open: the file gets a node, and is opened.
pub node_and_open : (ℕ → Os) → Engine → ℕ → ℕ → Opened × Engine
node_and_open world e p name =
    let found = dir_stat world e name in
    let known : Engine = elim found.0 [
      | some _ ↦ found.1
      | none ↦ (add_file world found.1 found.1.cache p name).1
    ] in
    open_file world known name true

-- Engine.OpenCached
pub open_cached : (ℕ → Os) → Engine → ℕ → Option RemoteObject → Opened × Engine
unfolding open_item get
open_cached world e name obj =
    let got = get world e.cache name in
    if name == 0 then (failed err_invalid, e) else elim obj [
      | none ↦ node_and_open world (record e { cache = got.2 }) got.0 name
      | some o ↦
          let tried = open_item world got.2 got.0 o in
          elim tried.0 [
            | some err ↦ (failed (of_item err), record e { cache = tried.1 })
            | none ↦ node_and_open world (record e { cache = tried.1 }) got.0 name
          ]
    ]

-- Engine.Remove, which drops what Cache.Remove returns.
pub remove : (ℕ → Os) → Engine → ℕ → Engine
remove world e name = record e { cache = (Cache.remove world e.cache name).1 }

-- ReadFileHandle.readAt and ReadAt of `n` bytes; none while the item is being reset.
pub handle_read_at :
    (ℕ → Os) → Engine → Handle → ℕ → ℤ → Option ((List ℕ × Option ItemError) × Engine)
unfolding get accessed
handle_read_at world e h n off =
    let got = get world e.cache h.f.name in
    elim (accessed (λ st. read_at (world got.0) st n off) (held got.2 got.0)) [
      | none ↦ none
      | some out ↦ some (out.0, record e { cache = put_held got.2 got.0 out.1 })
    ]

-- What Read returns: the bytes and the error, the handle, and the engine.
pub record HandleRead : Type 0 where
  pub bytes : List ℕ
  pub err : Option EngineError
  pub handle : Handle
  pub engine : Engine

-- The handle after a read, which goes on where there was no error but io.EOF.
advanced : Handle → List ℕ → Option ItemError → Handle
advanced h bytes err =
    let moved = record h { offset = h.offset +ℤ Prelude.pos (length bytes) } in
    elim err [ none ↦ moved | some eof ↦ moved | some _ ↦ h ]

of_item_err : Option ItemError → Option EngineError
of_item_err none = none
of_item_err (some err) = some (of_item err)

-- ReadFileHandle.Read
pub handle_read : (ℕ → Os) → Engine → Handle → ℕ → Option HandleRead
unfolding handle_read_at advanced of_item_err
handle_read world e h n =
    if h.closed
    then some (record { bytes = []; err = some err_closed; handle = h; engine = e })
    else elim (handle_read_at world e h n h.offset) [
      | none ↦ none
      | some out ↦ some (record {
        bytes = out.0.0;
        err = of_item_err out.0.1;
        handle = advanced h out.0.0 out.0.1;
        engine = out.1;
      })
    ]

-- io.SeekStart, io.SeekCurrent, io.SeekEnd, or another number.
pub data Whence : Type 0 where
  seek_start seek_current seek_end seek_other : Whence

-- ReadFileHandle.Seek: the new offset or os.ErrClosed, and the handle.
pub handle_seek : Handle → ℤ → Whence → Option ℤ × Handle
handle_seek h offset whence =
    let to : ℤ = elim whence [
      | seek_start ↦ offset
      | seek_end ↦ h.size +ℤ offset
      | seek_current ↦ h.offset +ℤ offset
      | seek_other ↦ h.offset
    ] in
    if h.closed then (none, h) else (some to, record h { offset = to })

-- ReadFileHandle.Close and Release: the error, and the handle.
pub handle_close : Handle → Option EngineError × Handle
handle_close h = if h.closed then (some err_closed, h) else (none, record h { closed = true })
