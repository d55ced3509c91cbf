-- ===== src/Engine/Unread.antt =====
-- What a handle reads that was opened without an object.
pub mod Reads
use rclone_vfs.Prelude.{
  ℕ, ◌+◌, ◌≡◌, ◌≢◌, refl, sym, ap, ◌∙◌, ◌⊎◌, inl, inr, Bool, true, false, Option, none, some, List,
  [], ◌∷◌, arith, if◌then◌else◌, ◌==◌, ℤ, ◌+ℤ◌, Bool-cases, Option-cases, lookup, delete,
  update_cases, clash, lookup_new, lookup-cons_self,
}
use rclone_vfs.Prelude
use mathlib.Core.Option.{some-injective}
use rclone_vfs.Item.{ItemError, not_open, RemoteObject, State, Os, get_size, accessed}
use rclone_vfs.Item
use rclone_vfs.Item.Data.{read_at}
use rclone_vfs.Item.Life.Safe.{get_size-Calm}
use rclone_vfs.Item.Life.Counted.{busy, accessed_result, read_at_shut}
use rclone_vfs.Cache.{Cache, held, put_held, get}
use rclone_vfs.Engine.{
  Engine, err_closed, advanced, of_item_err, File, Handle, file, Opened, opened, of_item,
  size_of_item, add_file, dir_stat, sized_handle, new_read_file_handle, open_node, open_file,
  node_and_open, open_cached, handle_read_at, handle_read, HandleRead,
}

-- A name whose item has no open handle.
pub record Shut (c : Cache) (name : ℕ) : Type 0 where
  pub p : ℕ
  pub indexed : lookup name c.item ≡ some p
  pub fd : (c.store p).item.fd ≡ none

-- The files of the engine stand under their names and have no object: newFile gives them none, and
-- nothing sets it.
unfoldable pub Plain : Engine → Type 0
Plain e = (n : ℕ) (f : File) → lookup n e.children ≡ some f → (f.name ≡ n) × (f.remote ≡ none)

-- An engine with plain files in which a name is shut.
pub record Quieted (e : Engine) (name : ℕ) : Type 0 where
  pub shut : Shut e.cache name
  pub plain : Plain e

add_file-child :
    (world : ℕ → Os) (e : Engine) (c : Cache) (q key : ℕ)
    → let added = add_file world e c q key in lookup key added.1.children ≡ some added.0
unfolding add_file
add_file-child world e c q key =
    lookup-cons_self key (add_file world e c q key).0 (delete key e.children)

pub get-Shut :
    (world : ℕ → Os) (c : Cache) (name : ℕ) (s : Shut c name) → get world c name ≡ (s.p, true, c)
unfolding get
get-Shut world c name s = rw (s.indexed, get) refl

size_of_item-Shut :
    (world : ℕ → Os) (c : Cache) (q name : ℕ) → Shut c name → Shut (size_of_item world c q).1 name
unfolding size_of_item
size_of_item-Shut world c q name s =
    let sized = (get_size (world q) (held c q)).1 in
    record {
      p = s.p;
      indexed = s.indexed;
      fd = elim (update_cases c.store q sized s.p) [
        | inl (same, u) ↦
            ap (λ x. x.item.fd) u
            ∙ (get_size-Calm (world q) (held c q)).fd
            ∙ ap (λ r. (c.store r).item.fd) (sym same)
            ∙ s.fd
        | inr u ↦ ap (λ x. x.item.fd) u ∙ s.fd
      ];
    }

-- A new file is plain, and keeps the name shut.
add_file-Quieted :
    (world : ℕ → Os) (e : Engine) (c : Cache) (q name key : ℕ)
    → Shut c name
    → Plain e
    → Quieted (add_file world e c q key).1 name
unfolding add_file Plain
add_file-Quieted world e c q name key s pl =
    let made = (add_file world e c q key).0 in
    record {
      shut = size_of_item-Shut world c q name s;
      plain = λ n f h. elim (lookup_new n key made f e.children h) [
        | inl (same, is) ↦
            let f_is = some-injective made f is in
            (ap (λ x. x.name) (sym f_is) ∙ sym same, ap (λ x. x.remote) (sym f_is))
        | inr old ↦ pl n f old
      ];
    }

-- After a Stat of a name that is shut: nothing was found, or the name has a file.
dir_stat-Quieted :
    (world : ℕ → Os) (e : Engine) (name : ℕ)
    → Quieted e name
    → (name == 0) ≡ false
    → let found = dir_stat world e name in
      Quieted found.1 name
      × ((found.0 ≡ none) ⊎ ((f : File) × (lookup name found.1.children ≡ some f)))
unfolding dir_stat Plain
dir_stat-Quieted world e name k z =
    let got = get world e.cache name in
    let c_same : got.2 ≡ e.cache = ap (λ g. g.2) (get-Shut world e.cache name k.shut) in
    let shut' : Shut got.2 name = rw c_same k.shut in
    elim (Option-cases (lookup name e.children)) [
      | inr (f, t) ↦ rw (z, t, dir_stat) (k, inr (f, t))
      | inl t ↦ elim (Bool-cases (Item.exists (got.2.store got.0))) [
        | inl x ↦
            let added = add_file world e got.2 got.0 name in
            rw (z, t, x, dir_stat)
              (
                add_file-Quieted world e got.2 got.0 name name shut' k.plain,
                inr (added.0, add_file-child world e got.2 got.0 name),
              )
        | inr x ↦ rw (z, t, x, dir_stat) (record { shut = shut'; plain = k.plain }, inl refl)
      ]
    ]

-- The handle that newReadFileHandle makes at its end.
abbrev pub made_handle : (ℕ → Os) → File → ℕ → Cache → ℤ → Handle
made_handle world f p c size =
    let sized = size_of_item world c p in
    let size' : ℤ = elim sized.0.1 [ none ↦ sized.0.0 | some _ ↦ size ] in
    record { f = f; offset = Prelude.pos 0; size = size'; closed = false }

-- An open that returned a handle of a shut name.
pub record Blank (name : ℕ) (out : Opened × Engine) : Type 0 where
  pub handle : Handle
  pub is : out.0 ≡ opened handle
  pub named : handle.f.name ≡ name
  pub live : handle.closed ≡ false
  pub engine : Quieted out.1 name

open_node-Blank :
    (world : ℕ → Os) (e : Engine) (f : File) (name : ℕ)
    → Quieted e name
    → (f.name ≡ name) × (f.remote ≡ none)
    → Blank name (open_node world e f true)
unfolding open_node new_read_file_handle sized_handle Plain
open_node-Blank world e f name k known =
    let got = get world e.cache f.name in
    let same = ap (get world e.cache) known.0 ∙ get-Shut world e.cache name k.shut in
    let c_same : got.2 ≡ e.cache = ap (λ g. g.2) same in
    let shut' : Shut got.2 name = rw c_same k.shut in
    rw (known.1, new_read_file_handle)
      (record {
        handle = made_handle world f got.0 got.2 f.size;
        is = refl;
        named = known.0;
        live = refl;
        engine = record { shut = size_of_item-Shut world got.2 got.0 name shut'; plain = k.plain };
      })

pub dir_stat_child :
    (world : ℕ → Os) (e : Engine) (name : ℕ) (f : File)
    → (name == 0) ≡ false
    → lookup name e.children ≡ some f
    → dir_stat world e name ≡ (some (file f), e)
unfolding dir_stat
dir_stat_child world e name f z child = rw (z, child, dir_stat) refl

open_file-Blank :
    (world : ℕ → Os) (e : Engine) (name : ℕ) (f : File)
    → Quieted e name
    → (name == 0) ≡ false
    → lookup name e.children ≡ some f
    → Blank name (open_file world e name true)
unfolding open_file Plain
open_file-Blank world e name f k z child =
    let stat = dir_stat_child world e name f z child in
    let node = ap (λ r. r.0) stat in
    let same = ap (λ r. r.1) stat in
    rw (z, node, same, open_file) (open_node-Blank world e f name k (k.plain name f child))

pub node_and_open-Blank :
    (world : ℕ → Os) (e : Engine) (p name : ℕ)
    → Quieted e name
    → (name == 0) ≡ false
    → Blank name (node_and_open world e p name)
unfolding node_and_open
node_and_open-Blank world e p name k z =
    let found = dir_stat world e name in
    let stat = dir_stat-Quieted world e name k z in
    let added = add_file world found.1 found.1.cache p name in
    elim (Option-cases found.0) [
      | inl n ↦
          rw (n, node_and_open)
            (open_file-Blank world added.1 name added.0
              (add_file-Quieted world found.1 found.1.cache p name name stat.0.shut stat.0.plain) z
              (add_file-child world found.1 found.1.cache p name))
      | inr (_, n) ↦
          rw (n, node_and_open)
            (elim stat.1 [
              | inl gone ↦ absurd (ground (arith, gone, n))
              | inr (f, child) ↦ open_file-Blank world found.1 name f stat.0 z child
            ])
    ]
