-- ===== src/Item/Life/Balance/Opens.antt =====
-- Opening keeps the handle of an item in step with the count of its openers.
use rclone_vfs.Prelude.{
  clash, ℕ, ◌+◌, ◌-◌, ◌≡◌, ◌≢◌, refl, sym, ap, ◌∙◌, ◌⊎◌, inl, inr, Bool, true, false, not, ◌&&◌,
  ◌||◌, Option, none, some, List, [], ◌∷◌, arith, if◌then◌else◌, ltb, leb, ◌==◌, ℤ, ◌+ℤ◌, ◌-ℤ◌,
  ltb_ℤ, leb_ℤ, eqb_ℤ, Bool-cases, Option-cases, eq_of_parts, -ℤ_parts, +ℤ_parts,
}
use rclone_vfs.Prelude
use rclone_vfs.Item.{RemoteObject, State, Os, set_info, save, open_path, exists}
use rclone_vfs.Item.Life.{
  create_file, check_object, open_fresh, open_counted, open', new_downloaders,
}
use rclone_vfs.Item.Life.Safe.{remove-Calm, check_object-Calm}
use rclone_vfs.Item.Life.Balance.{
  has_fd, Balanced, parts-Balanced, Calm-Balanced, pair-Balanced, used_off,
}

or_true : (b : Bool) → (b || true) ≡ true
or_true b = ground arith

-- What _createFile does to the handle, the count and the timer.
create_file_parts :
    (os : Os) (st : State)
    → ((create_file os st).0 ≡ none → has_fd (new_downloaders (create_file os st).1).item.fd ≡ true)
      × ((new_downloaders (create_file os st).1).item.opens ≡ st.item.opens)
      × ((new_downloaders (create_file os st).1).item.grace_timer ≡ st.item.grace_timer)
unfolding create_file save open_path has_fd
create_file_parts os st = (λ h. ground arith, ground arith, ground arith)

create_file_left :
    (os : Os) (st : State)
    → ((create_file os st).1.item.opens ≡ st.item.opens)
      × ((create_file os st).1.item.grace_timer ≡ st.item.grace_timer)
unfolding create_file save open_path
create_file_left os st = (ground arith, ground arith)

open_fresh-Balanced :
    (os : Os) (taken : Bool) (st : State)
    → st.item.opens ≡ Prelude.pos 1
    → st.item.grace_timer ≡ false
    → Balanced (open_fresh os taken st).1
unfolding open_fresh has_fd ◌-ℤ◌
open_fresh-Balanced os taken st one off =
    let created = create_file os st in
    let c = remove-Calm os created.1 in
    let left = create_file_left os st in
    let made = create_file_parts os st in
    elim (Option-cases created.0) [
      | inl e ↦
          rw (e, open_fresh)
            (record {
              handle =
                  made.0 e
                  ∙ sym (
                      ap
                        (λ o.
                          ltb_ℤ (Prelude.pos 0) o || (new_downloaders created.1).item.grace_timer)
                        (made.1 ∙ one));
              counted = ap (λ o. leb_ℤ (Prelude.pos 0) o) (made.1 ∙ one);
              grace = λ t. clash _ t (made.2 ∙ off);
            })
      | inr (x, e) ↦
          rw (e, open_fresh)
            (parts-Balanced _ none (Prelude.pos 0) false refl
              (ap (λ o. o -ℤ Prelude.pos 1) (c.opens ∙ left.0 ∙ one)) (c.grace ∙ left.1 ∙ off) refl
              refl (λ t. refl))
    ]

-- One opener more, where there was none or some.
one_more :
    (opens : ℤ)
    → leb_ℤ (Prelude.pos 0) opens ≡ true
    → (ltb_ℤ (Prelude.pos 0) (opens +ℤ Prelude.pos 1) ≡ true)
      × (eqb_ℤ (opens +ℤ Prelude.pos 1) (Prelude.pos 1) ≡ false
          → ltb_ℤ (Prelude.pos 0) opens ≡ true)
      × (eqb_ℤ (opens +ℤ Prelude.pos 1) (Prelude.pos 1) ≡ true
          → (opens +ℤ Prelude.pos 1) ≡ Prelude.pos 1)
one_more opens h =
    let s = +ℤ_parts opens (Prelude.pos 1) in
    (
      ground (arith, s),
      λ e. ground (arith, s),
      λ e. eq_of_parts (opens +ℤ Prelude.pos 1) (Prelude.pos 1) (ground (arith, s)),
    )

-- An item whose handle is open and that gets an opener.
held-Balanced :
    (st : State) (opens : ℤ)
    → has_fd st.item.fd ≡ true
    → st.item.opens ≡ opens
    → ltb_ℤ (Prelude.pos 0) opens ≡ true
    → st.item.grace_timer ≡ false
    → Balanced st
held-Balanced st opens h eo more off =
    parts-Balanced st st.item.fd opens false refl eo off (h ∙ sym (ap (λ b. b || false) more))
      (ground arith) (λ t. clash _ t refl)

open_counted-Balanced :
    (os : Os) (taken : Bool) (st : State)
    → Balanced st
    → Balanced
        (open_counted os taken
          (record st { item = record st.item { opens = st.item.opens +ℤ Prelude.pos 1 } })).1
unfolding open_counted
open_counted-Balanced os taken st inv =
    let opens = st.item.opens +ℤ Prelude.pos 1 in
    let counted = record st { item = record st.item { opens = opens } } in
    let awake = record counted { item = record counted.item { grace_timer = false } } in
    let dropped = record awake { item = record awake.item { fd = none; downloaders = false } } in
    let more = one_more st.item.opens inv.counted in
    pair-Balanced (not (eqb_ℤ opens (Prelude.pos 1))) _ _
      (λ e.
        let used = more.1 (ground arith) in
        held-Balanced counted opens (inv.handle ∙ ap (λ b. b || st.item.grace_timer) used) refl
          more.0 (used_off st inv used))
      (λ e.
        let one = more.2 (ground arith) in
        pair-Balanced st.item.grace_timer _ _
          (λ t.
            pair-Balanced (exists awake) _ _
              (λ _.
                held-Balanced awake opens
                  (inv.handle
                    ∙ ap (λ b. ltb_ℤ (Prelude.pos 0) st.item.opens || b) t
                    ∙ or_true (ltb_ℤ (Prelude.pos 0) st.item.opens))
                  refl more.0 refl)
              (λ _. open_fresh-Balanced os taken dropped one refl))
          (λ f. open_fresh-Balanced os taken counted one f))

pub open'-Balanced :
    (os : Os) (taken : Bool) (st : State) (o : Option RemoteObject)
    → Balanced st
    → Balanced (open' os taken st o).1
unfolding open'
open'-Balanced os taken st o inv =
    let accessed_at = set_info st (record st.item.info { a_time = os.now }) in
    let checked = check_object os accessed_at o in
    let timed =
      parts-Balanced accessed_at st.item.fd st.item.opens st.item.grace_timer refl refl refl
        inv.handle inv.counted inv.grace in
    let calm = Calm-Balanced accessed_at checked.1 (check_object-Calm os accessed_at o) timed in
    elim (Option-cases os.create_dir_err) [
      | inl e ↦ elim (Option-cases checked.0) [
        | inl f ↦ rw (e, f, open') (open_counted-Balanced os taken checked.1 calm)
        | inr (x, f) ↦ rw (e, f, open') calm
      ]
      | inr (x, e) ↦ rw (e, open') timed
    ]
