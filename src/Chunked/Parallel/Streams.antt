-- ===== src/Chunked/Parallel/Streams.antt =====
-- The streams of the parallel reader lie side by side.
use rclone_vfs.Prelude.{
  ℕ, zero, suc, ◌+◌, ◌-◌, ◌≤◌, ◌<◌, ◌≡◌, ◌≢◌, refl, sym, ap, ◌∙◌, ◌⊎◌, inl, inr, Bool, true, false,
  ◌||◌, Option, none, List, [], ◌∷◌, ◌++◌, if◌then◌else◌, ltb, leb, ◌==◌, arith, length,
  length-append, Bool-cases, ℤ, pos, ltb_ℤ, leb_ℤ, pos_part,
}
use mathlib.Core.Path.{subst}
use rclone_vfs.Chunked.{ReaderError, Whence}
use rclone_vfs.Chunked.Parallel.{
  Stream, Parallel, new_stream, open_loop, open_streams, drop_before, reseat, seek_parallel,
  seek_to,
}

-- The streams lie side by side from `p` to `e`, and none is empty.
unfoldable pub Joined : ℕ → List Stream → ℕ → Type 0
Joined p [] e = p ≡ e
Joined p (s ∷ ss) e = (s.offset ≡ p) × (0 < s.size) × Joined (p + s.size) ss e

-- The reader at `o` is in the first stream, where it has read up to `o`, or is where the next stream
-- will start.
unfoldable pub Placed : ℕ → List Stream → ℕ → Type 0
unfolding Joined
Placed o [] e = o ≡ e
Placed o (s ∷ ss) e =
    (o ≡ s.offset + s.read_bytes) × (s.read_bytes ≤ s.size) × Joined s.offset (s ∷ ss) e

pub record Lined (cr : Parallel) : Type 0 where
  pub place : Placed cr.offset cr.streams cr.end_stream
  pub inside : cr.end_stream ≤ pos_part cr.o_size
  pub few : length cr.streams ≤ cr.nstreams
  pub some_chunk : 0 < cr.chunk_size

Joined-last :
    (p e n : ℕ) (ss : List Stream)
    → Joined p ss e
    → 0 < n
    → Joined p (ss ++ new_stream e n ∷ []) (e + n)
unfolding Joined new_stream
Joined-last p e n [] j h = (sym j, h, ap (λ z. z + n) j)
Joined-last p e n (s ∷ ss) (at, full, j) h = (at, full, Joined-last (p + s.size) e n ss j h)

Placed-last :
    (o e n : ℕ) (ss : List Stream)
    → Placed o ss e
    → 0 < n
    → Placed o (ss ++ new_stream e n ∷ []) (e + n)
unfolding Placed Joined new_stream
Placed-last o e n [] j h = (omega (arith, j), omega arith, (refl, h, refl))
Placed-last o e n (s ∷ ss) (at, some_read, (start, full, j)) h =
    (at, some_read, (start, full, Joined-last (s.offset + s.size) e n ss j h))

-- What _open does: the streams are still lined up, and there are as many as there may be, or they
-- reach the end of the object.
pub record Opened (cr cr' : Parallel) (size missing : ℕ) : Type 0 where
  pub lined : Lined cr'
  pub enough : (length cr'.streams ≡ length cr.streams + missing) ⊎ (cr'.end_stream ≡ size)
  pub same : (cr'.offset ≡ cr.offset) × (cr'.nstreams ≡ cr.nstreams)

-- One round of the loop of _open.
opened_one :
    (cr : Parallel) (size n : ℕ)
    → pos_part cr.o_size ≡ size
    → Lined cr
    → length cr.streams < cr.nstreams
    → 0 < n
    → cr.end_stream + n ≤ size
    → Lined (record cr {
      streams = cr.streams ++ new_stream cr.end_stream n ∷ [];
      end_stream = cr.end_stream + n;
    })
opened_one cr size n e v room some_left h = record {
  place = Placed-last cr.offset cr.end_stream n cr.streams v.place some_left;
  inside = omega arith;
  few = omega (arith, length-append cr.streams (new_stream cr.end_stream n ∷ []));
  some_chunk = v.some_chunk;
}

if-Opened :
    (cr x y : Parallel) (size missing : ℕ) (b : Bool)
    → (b ≡ true → Opened cr x size missing)
    → (b ≡ false → Opened cr y size missing)
    → Opened cr (if b then x else y) size missing
if-Opened cr x y size missing true v w = v refl
if-Opened cr x y size missing false v w = w refl

open_loop-Opened :
    (missing : ℕ) (cr : Parallel) (size : ℕ)
    → pos_part cr.o_size ≡ size
    → Lined cr
    → length cr.streams + missing ≤ cr.nstreams
    → cr.end_stream < size
    → Opened cr (open_loop missing cr size) size missing
unfolding open_loop
open_loop-Opened zero cr size e v room h = record {
  lined = v;
  enough = inl (omega arith);
  same = (refl, refl);
}
open_loop-Opened (suc missing) cr size e v room h =
    let some_chunk = v.some_chunk in
    let n =
      if ltb size (cr.end_stream + cr.chunk_size) then size - cr.end_stream else cr.chunk_size in
    let some_left : 0 < n = ground arith in
    let within : cr.end_stream + n ≤ size = ground arith in
    let one = opened_one cr size n e v (omega arith) some_left within in
    let cr' = record cr {
      streams = cr.streams ++ new_stream cr.end_stream n ∷ [];
      end_stream = cr.end_stream + n;
    } in
    let longer = length-append cr.streams (new_stream cr.end_stream n ∷ []) in
    if-Opened cr cr' (open_loop missing cr' size) size (suc missing) (leb size (cr.end_stream + n))
      (λ t. record { lined = one; enough = inr (ground arith); same = (refl, refl) })
      (λ t.
        widen cr cr' (open_loop missing cr' size) size missing (omega arith) refl refl
          (open_loop-Opened missing cr' size e one (omega arith) (ground arith)))
  where
    widen :
        (cr cr' out : Parallel) (size missing : ℕ)
        → length cr'.streams ≡ length cr.streams + 1
        → cr'.offset ≡ cr.offset
        → cr'.nstreams ≡ cr.nstreams
        → Opened cr' out size missing
        → Opened cr out size (suc missing)
    widen cr cr' out size missing e f g o = record {
      lined = o.lined;
      enough = elim o.enough [ inl x ↦ inl (omega arith) | inr x ↦ inr x ];
      same = (o.same.0 ∙ f, o.same.1 ∙ g);
    }

-- Opening streams on a reader of known size whose streams are lined up leaves them so: side by side
-- from the one that the reader is in, none empty, none past the end of the object; there are then
-- as many streams as the reader may have, or they reach the end of the object.
pub open_streams-Opened :
    (cr : Parallel) (size : ℕ)
    → cr.o_size ≡ pos size
    → Lined cr
    → Opened cr (open_streams cr) size (cr.nstreams - length cr.streams)
unfolding open_streams
open_streams-Opened cr size e v =
    let inside = v.inside in
    let few = v.few in
    let part : pos_part cr.o_size ≡ size = ap pos_part e in
    if-Opened cr cr _ size _ (ltb_ℤ cr.o_size (pos 0)) (λ t. absurd (ground arith))
      (λ t.
        if-Opened cr cr _ size _ (leb (pos_part cr.o_size) cr.end_stream)
          (λ u. record { lined = v; enough = inr (ground arith); same = (refl, refl) })
          (λ u. rw part (
            open_loop-Opened (cr.nstreams - length cr.streams) cr size part v (omega arith)
              (ground arith))))

-- The streams that end behind `to` are joined from the first one on.
Sits : ℕ → List Stream → ℕ → Type 0
unfolding Joined
Sits to [] e = 0 ≤ to
Sits to (s ∷ ss) e = (to < s.offset + s.size) × Joined s.offset (s ∷ ss) e

drop_before-Sits : (to p e : ℕ) (ss : List Stream) → Joined p ss e → Sits to (drop_before to ss) e
unfolding Joined drop_before Sits
drop_before-Sits to p e [] j = omega arith
drop_before-Sits to p e (s ∷ ss) (at, full, j) = elim (Bool-cases (leb (s.offset + s.size) to)) [
  | inl t ↦ simp t (drop_before-Sits to (p + s.size) e ss j)
  | inr f ↦ simp f (ground arith, (refl, full, subst (λ z. Joined (z + s.size) ss e) (sym at) j))
]

length-drop_before : (to : ℕ) (ss : List Stream) → length (drop_before to ss) ≤ length ss
unfolding drop_before
length-drop_before to [] = omega arith
length-drop_before to (s ∷ ss) = ground (arith, length-drop_before to ss)

reseat-Lined :
    (cr : Parallel) (to : ℕ) (ss : List Stream)
    → Lined cr
    → to < pos_part cr.o_size
    → length ss ≤ length cr.streams
    → Sits to ss cr.end_stream
    → Lined (reseat cr to ss)
unfolding reseat Sits Placed Joined
reseat-Lined cr to [] v h l j = record {
  place = refl;
  inside = omega arith;
  few = omega arith;
  some_chunk = v.some_chunk;
}
reseat-Lined cr to (s ∷ ss) v h l (before, (start, full, j)) = elim (Bool-cases (ltb to s.offset)) [
  | inl t ↦
      simp t (record {
        place = refl;
        inside = omega arith;
        few = omega arith;
        some_chunk = v.some_chunk;
      })
  | inr f ↦ simp f (record {
    place = (ground arith, ground arith, (refl, full, j));
    inside = v.inside;
    few = omega (arith, v.few);
    some_chunk = v.some_chunk;
  })
]

some_front : (o e : ℕ) (ss : List Stream) → Placed o ss e → (p : ℕ) × Joined p ss e
unfolding Placed Joined
some_front o e [] h = (e, refl)
some_front o e (s ∷ ss) (at, some_read, j) = (s.offset, j)

-- What Seek returns and leaves.
pub record Sought (cr : Parallel) (out : (ℕ × Option ReaderError) × Parallel) : Type 0 where
  pub lined : Lined out.1
  pub landed : out.0.1 ≡ none → (out.1.offset ≡ out.0.0) × (out.0.0 < pos_part cr.o_size)
  pub failed : out.0.1 ≢ none → out.1 ≡ cr

if-Sought :
    (cr : Parallel) (x y : (ℕ × Option ReaderError) × Parallel) (b : Bool)
    → (b ≡ true → Sought cr x)
    → (b ≡ false → Sought cr y)
    → Sought cr (if b then x else y)
if-Sought cr x y true v w = v refl
if-Sought cr x y false v w = w refl

reseat-offset : (cr : Parallel) (to : ℕ) (ss : List Stream) → (reseat cr to ss).offset ≡ to
unfolding reseat
reseat-offset cr to [] = refl
reseat-offset cr to (s ∷ ss) = ground arith

-- A seek on a reader whose streams are lined up leaves them so; if it succeeds, the reader is at the offset returned, which is
-- inside the object, and if not, the reader is as it was.
pub seek_parallel-Sought :
    (cr : Parallel) (offset : ℤ) (whence : Whence)
    → Lined cr
    → Sought cr (seek_parallel cr offset whence)
unfolding seek_parallel
seek_parallel-Sought cr offset whence v =
    let to = seek_to cr offset whence in
    let (p, j) = some_front cr.offset cr.end_stream cr.streams v.place in
    if-Sought cr _ _ cr.closed (λ t. record { lined = v; landed = λ h. cc; failed = λ h. refl })
      (λ f.
        if-Sought cr _ _ (ltb_ℤ to (pos 0) || leb_ℤ cr.o_size to)
          (λ t. record { lined = v; landed = λ h. cc; failed = λ h. refl })
          (λ inside.
            let low : pos_part to < pos_part cr.o_size = ground arith in
            if-Sought cr _ _ (pos_part to == cr.offset)
              (λ t. record {
                lined = v;
                landed = λ h. (refl, ground arith);
                failed = λ h. absurd (h refl);
              })
              (λ g. record {
                lined =
                    reseat-Lined cr (pos_part to) _ v low
                      (length-drop_before (pos_part to) cr.streams)
                      (drop_before-Sits (pos_part to) p cr.end_stream cr.streams j);
                landed = λ h. (reseat-offset cr (pos_part to) _, low);
                failed = λ h. absurd (h refl);
              })))
