-- ===== src/RwBuffer/Waits.antt =====
-- What WaitWrite waits for, and where Seek leads.
use rclone_vfs.Prelude.{
  ℕ, zero, suc, ◌+◌, ◌-◌, ◌≤◌, ◌<◌, min, ◌≡◌, refl, sym, ap, ◌∙◌, ◌⊎◌, inl, inr, Bool, true, false,
  not, ◌&&◌, Option, none, some, List, [], ◌∷◌, ◌++◌, arith, if◌then◌else◌, leb, ltb, Bool-cases,
  Option-cases, length, take, drop, ◌≢◌, length-append, length-drop, take-append-drop, length-take,
  replicate, ℤ, ltb_ℤ, ◌+ℤ◌, pos_part,
}
use rclone_vfs.Prelude
use mathlib.Core.Path.{subst}
use rclone_vfs.RwBuffer.{Rw, must_wait, wait_write, seek_base, seek}

later : {A : Type 0} (b : Bool) (x y : A) → b ≡ true → (if b then x else y) ≡ x
later true x y e = refl
later false x y e = cc

sooner : {A : Type 0} (b : Bool) (x y : A) → b ≡ false → (if b then x else y) ≡ y
sooner true x y e = cc
sooner false x y e = refl

absent_clash : {x : Rw} → none ≡ some x → ⊥
absent_clash e = cc

some-inj : {x y : Rw} → some x ≡ some y → x ≡ y
some-inj e = cc

-- If WaitWrite returns, there is a byte to read or the buffer is closed.
pub wait_write-ready :
    (w : Rw) (wakes : List Rw) {out : Rw} → wait_write w wakes ≡ some out → must_wait out ≡ false
unfolding wait_write
wait_write-ready w [] {out} h = elim (Bool-cases (must_wait w)) [
  | inl e ↦ absurd (absent_clash (sym (later (must_wait w) _ _ e) ∙ h))
  | inr e ↦ subst (λ z. must_wait z ≡ false) (some-inj (sym (sooner (must_wait w) _ _ e) ∙ h)) e
]
wait_write-ready w (next ∷ wakes) {out} h = elim (Bool-cases (must_wait w)) [
  | inl e ↦ wait_write-ready next wakes (sym (later (must_wait w) _ _ e) ∙ h)
  | inr e ↦
      let same : w ≡ out = some-inj (sym (sooner (must_wait w) _ _ e) ∙ h) in
      subst (λ z. must_wait z ≡ false) same e
]

-- While nothing is written and the buffer is open, WaitWrite does not return, however often it is
-- woken.
pub wait_write-replicate :
    (w : Rw) (n : ℕ) → must_wait w ≡ true → wait_write w (replicate n w) ≡ none
unfolding wait_write
wait_write-replicate w zero h = simp h
wait_write-replicate w (suc n) h = simp (h, wait_write-replicate w n h)

-- Seek leaves the bytes alone and the position within them; on an error it changes nothing, and
-- else it returns the position that it has set.
pub record Sought (w : Rw) (out : Option ℕ × Rw) : Type 0 where
  pub bytes : out.1.buf ≡ w.buf
  pub still : out.1.closed ≡ w.closed
  pub inside : w.r_offset ≤ length w.buf → out.1.r_offset ≤ length w.buf
  pub failed : out.0 ≡ none → out.1 ≡ w
  pub at : (n : ℕ) → out.0 ≡ some n → (out.1.r_offset ≡ n) × (n ≤ length w.buf)

seek_to :
    (w : Rw) (abs : ℤ)
    → let to = if ltb (length w.buf) (pos_part abs) then length w.buf else pos_part abs in
      Sought w
        (if ltb_ℤ abs (Prelude.pos 0) then (none, w) else (some to, record w { r_offset = to }))
seek_to w abs = elim (Bool-cases (ltb_ℤ abs (Prelude.pos 0))) [
  | inl e ↦
      simp e
        (record { bytes = refl; still = refl; inside = λ h. h; failed = λ h. refl; at = λ n h. cc })
  | inr e ↦ simp e (record {
    bytes = refl;
    still = refl;
    inside = λ h. ground arith;
    failed = λ h. cc;
    at = λ n h. ground arith;
  })
]

-- Every seek keeps the bytes and stays within them: an error leaves the buffer as it was, and a
-- success returns the new position, which is at most the number of bytes.
pub seek-Sought : (w : Rw) (offset : ℤ) (whence : ℕ) → Sought w (seek w offset whence)
unfolding seek
seek-Sought w offset whence = elim (Option-cases (seek_base w whence)) [
  | inl e ↦
      rw (e, seek)
        (record { bytes = refl; still = refl; inside = λ h. h; failed = λ h. refl; at = λ n h. cc })
  | inr (base, e) ↦ rw (e, seek) (seek_to w (base +ℤ offset))
]
