-- ===== src/Engine/Remembered.antt =====
-- The file that the root has under a name stays there.
pub mod Opens
use rclone_vfs.Prelude.{
  ℕ, ◌≡◌, refl, sym, ap, ◌∙◌, inl, inr, Bool, true, false, Option, none, some, List, [], arith,
  if◌then◌else◌, ◌==◌, ℤ, Bool-cases, Option-cases, lookup, delete, ℕ_discrete, lookup-cons_ne,
  lookup-delete_ne,
}
use mathlib.Core.Option.{some-injective}
use rclone_vfs.Item.{ItemError, RemoteObject, State, Os, accessed}
use rclone_vfs.Item
use rclone_vfs.Cache.{Cache, held, put_held, get}
use rclone_vfs.Engine.{
  Engine, EngineError, of_item, err_closed, err_invalid, advanced, of_item_err, File, Handle, dir,
  file, Opened, failed, opened, add_file, dir_stat, sized_handle, new_read_file_handle, open_node,
  open_file, open_item, node_and_open, open_cached, remove, handle_read_at, handle_read, HandleRead,
}
use rclone_vfs.Item.Data.{read_at}
use rclone_vfs.Engine.Unread.{dir_stat_child, made_handle}
use rclone_vfs.Engine.Leaks.{Use, stats, opens, caches, removes, reads, Uses, start, use_in}

-- A call that keeps the files that the root has.
pub record Kept (e e' : Engine) : Type 0 where
  pub child : (n : ℕ) (f : File) → lookup n e.children ≡ some f → lookup n e'.children ≡ some f

pub same-Kept : (e e' : Engine) → e'.children ≡ e.children → Kept e e'
same-Kept e e' s = record { child = λ n f h. ap (lookup n) s ∙ h }

pub Kept-trans : (a b c : Engine) → Kept a b → Kept b c → Kept a c
Kept-trans a b c f g = record { child = λ n x h. g.child n x (f.child n x h) }

-- A file for a name that has none.
add_file-Kept :
    (world : ℕ → Os) (e : Engine) (c : Cache) (p name : ℕ)
    → lookup name e.children ≡ none
    → Kept e (add_file world e c p name).1
unfolding add_file
add_file-Kept world e c p name missing = record {
  child = λ n f h. elim (ℕ_discrete n name) [
    | yes same ↦
        let clash' : none ≡ some f = sym missing ∙ ap (λ k. lookup k e.children) (sym same) ∙ h in
        absurd (ground (arith, clash'))
    | no other ↦
        lookup-cons_ne n name (add_file world e c p name).0 (delete name e.children) other
        ∙ lookup-delete_ne n name e.children other
        ∙ h
  ];
}

pub dir_stat-Kept : (world : ℕ → Os) (e : Engine) (name : ℕ) → Kept e (dir_stat world e name).1
unfolding dir_stat
dir_stat-Kept world e name =
    let got = get world e.cache name in
    elim (Bool-cases (name == 0)) [
      | inl z ↦ rw (z, dir_stat) (same-Kept e e refl)
      | inr z ↦ elim (Option-cases (lookup name e.children)) [
        | inr (f, t) ↦ rw (z, t, dir_stat) (same-Kept e e refl)
        | inl t ↦ elim (Bool-cases (Item.exists (got.2.store got.0))) [
          | inl x ↦ rw (z, t, x, dir_stat) (add_file-Kept world e got.2 got.0 name t)
          | inr x ↦ rw (z, t, x, dir_stat) (same-Kept e (record e { cache = got.2 }) refl)
        ]
      ]
    ]

-- A Stat that finds nothing leaves no file under the name.
dir_stat-missing :
    (world : ℕ → Os) (e : Engine) (name : ℕ)
    → (dir_stat world e name).0 ≡ none
    → lookup name (dir_stat world e name).1.children ≡ none
unfolding dir_stat
dir_stat-missing world e name =
    let got = get world e.cache name in
    elim (Bool-cases (name == 0)) [
      | inl z ↦ rw (z, dir_stat) (λ h. absurd (ground (arith, h)))
      | inr z ↦ elim (Option-cases (lookup name e.children)) [
        | inr (f, t) ↦ rw (z, t, dir_stat) (λ h. absurd (ground (arith, h)))
        | inl t ↦ elim (Bool-cases (Item.exists (got.2.store got.0))) [
          | inl x ↦ rw (z, t, x, dir_stat) (λ h. absurd (ground (arith, h)))
          | inr x ↦ rw (z, t, x, dir_stat) (λ _. t)
        ]
      ]
    ]

open_node-same :
    (world : ℕ → Os) (e : Engine) (f : File) (read_only : Bool)
    → (open_node world e f read_only).1.children ≡ e.children
unfolding open_node new_read_file_handle sized_handle
open_node-same world e f false = refl
open_node-same world e f true =
    let got = get world e.cache f.name in
    elim (Option-cases f.remote) [
      | inl r ↦ rw (r, new_read_file_handle) refl
      | inr (o, r) ↦ elim (Option-cases (open_item world got.2 got.0 o).0) [
        | inl t ↦ rw (r, t, new_read_file_handle) refl
        | inr (x, t) ↦ rw (r, t, new_read_file_handle) refl
      ]
    ]

pub open_file-Kept :
    (world : ℕ → Os) (e : Engine) (name : ℕ) (read_only : Bool)
    → Kept e (open_file world e name read_only).1
unfolding open_file
open_file-Kept world e name read_only =
    let found = dir_stat world e name in
    let stat = dir_stat-Kept world e name in
    elim (Bool-cases (name == 0)) [
      | inl z ↦ rw (z, open_file) (same-Kept e e refl)
      | inr z ↦ elim (Option-cases found.0) [
        | inl n ↦ rw (z, n, open_file) stat
        | inr (dir, n) ↦ rw (z, n, open_file) stat
        | inr (file f, n) ↦
            let last = (open_node world found.1 f read_only).1 in
            rw (z, n, open_file)
              (Kept-trans e found.1 last stat
                (same-Kept found.1 last (open_node-same world found.1 f read_only)))
      ]
    ]

node_and_open-Kept :
    (world : ℕ → Os) (e : Engine) (p name : ℕ) → Kept e (node_and_open world e p name).1
unfolding node_and_open
node_and_open-Kept world e p name =
    let found = dir_stat world e name in
    let stat = dir_stat-Kept world e name in
    let added = (add_file world found.1 found.1.cache p name).1 in
    elim (Option-cases found.0) [
      | inl n ↦
          let adds =
            add_file-Kept world found.1 found.1.cache p name (dir_stat-missing world e name n) in
          rw (n, node_and_open)
            (Kept-trans e added (open_file world added name true).1
              (Kept-trans e found.1 added stat adds) (open_file-Kept world added name true))
      | inr (_, n) ↦
          rw (n, node_and_open)
            (Kept-trans e found.1 (open_file world found.1 name true).1 stat
              (open_file-Kept world found.1 name true))
    ]

pub open_cached-Kept :
    (world : ℕ → Os) (e : Engine) (name : ℕ) (obj : Option RemoteObject)
    → Kept e (open_cached world e name obj).1
unfolding open_cached
open_cached-Kept world e name obj =
    let got = get world e.cache name in
    elim (Bool-cases (name == 0)) [
      | inl z ↦ rw (z, open_cached) (same-Kept e e refl)
      | inr z ↦ elim (Option-cases obj) [
        | inl n ↦
            let e' = record e { cache = got.2 } in
            rw (z, n, open_cached)
              (Kept-trans e e' (node_and_open world e' got.0 name).1 (same-Kept e e' refl)
                (node_and_open-Kept world e' got.0 name))
        | inr (o, n) ↦
            let tried = open_item world got.2 got.0 o in
            let e' = record e { cache = tried.1 } in
            elim (Option-cases tried.0) [
              | inl t ↦
                  rw (z, n, t, open_cached)
                    (Kept-trans e e' (node_and_open world e' got.0 name).1 (same-Kept e e' refl)
                      (node_and_open-Kept world e' got.0 name))
              | inr (x, t) ↦ rw (z, n, t, open_cached) (same-Kept e e' refl)
            ]
      ]
    ]

handle_read_at-same :
    (world : ℕ → Os) (e : Engine) (h : Handle) (n : ℕ) (off : ℤ)
    (out : (List ℕ × Option ItemError) × Engine)
    → handle_read_at world e h n off ≡ some out
    → out.1.children ≡ e.children
unfolding handle_read_at
handle_read_at-same world e h n off out eq =
    by_read (accessed (λ st. read_at (world got.0) st n off) (held got.2 got.0)) eq
  where
    got : ℕ × Bool × Cache
    got = get world e.cache h.f.name

    by_read :
        (o : Option ((List ℕ × Option ItemError) × State))
        → (let all : Option ((List ℕ × Option ItemError) × Engine) = elim o [
          | none ↦ none
          | some r ↦ some (r.0, record e { cache = put_held got.2 got.0 r.1 })
        ] in
            all ≡ some out)
        → out.1.children ≡ e.children
    by_read none k = ground arith
    by_read (some r) k =
        ap (λ x. x.1.children)
          (sym (some-injective (r.0, record e { cache = put_held got.2 got.0 r.1 }) out k))

pub handle_read-same :
    (world : ℕ → Os) (e : Engine) (h : Handle) (n : ℕ) (out : HandleRead)
    → handle_read world e h n ≡ some out
    → out.engine.children ≡ e.children
unfolding handle_read
handle_read-same world e h n out eq = by_read h.closed (handle_read_at world e h n h.offset) refl eq
  where
    by_read :
        (closed : Bool) (o : Option ((List ℕ × Option ItemError) × Engine))
        → handle_read_at world e h n h.offset ≡ o
        → (let shut : HandleRead = record {
          bytes = [];
          err = some err_closed;
          handle = h;
          engine = e;
        } in
            let all : Option HandleRead = elim o [
              | none ↦ none
              | some r ↦ some (record {
                bytes = r.0.0;
                err = of_item_err r.0.1;
                handle = advanced h r.0.0 r.0.1;
                engine = r.1;
              })
            ] in
            (if closed then some shut else all) ≡ some out)
        → out.engine.children ≡ e.children
    by_read true o b k =
        let shut : HandleRead = record {
          bytes = [];
          err = some err_closed;
          handle = h;
          engine = e;
        } in
        ap (λ x. x.engine.children) (sym (some-injective shut out k))
    by_read false none b k = ground arith
    by_read false (some r) b k =
        let done : HandleRead = record {
          bytes = r.0.0;
          err = of_item_err r.0.1;
          handle = advanced h r.0.0 r.0.1;
          engine = r.1;
        } in
        ap (λ x. x.engine.children) (sym (some-injective done out k))
        ∙ handle_read_at-same world e h n h.offset r b
