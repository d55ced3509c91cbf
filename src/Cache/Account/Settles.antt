-- ===== src/Cache/Account/Settles.antt =====
-- internal/cache/cache.go: the rounds of the purges keep account of the space in use, and end with the
-- word that there is room.
use rclone_vfs.Prelude.{
  ℕ, ◌+◌, ◌≡◌, Bool, true, false, ◌&&◌, ◌||◌, Option, none, some, List, ◌==◌, ltb_ℤ, ℤ, ◌-ℤ◌, ◌+ℤ◌,
  delete, update, Bool-cases, or_false, -ℤ_parts, eq_of_parts,
}
use rclone_vfs.Prelude
use rclone_vfs.Item.{ItemError, State, Os}
use rclone_vfs.Cache.{Cache, Options, quotas_ok}
use rclone_vfs.Cache.Account.Purges.{Counted, Ready}

-- What a step of a loop leaves to the rest of the loop.
record Kept (c : Cache) (ps : List ℕ) : Type 0 where
  counted : Counted c
  ready : Ready c.item ps

module _ (sort : (ℕ → State) → List ℕ → List ℕ) (avail : List (ℕ × ℕ) → Option ℤ)
    (no_space : ItemError → Bool) (opt : Options) (world : ℕ → Os) where
  -- A cache that has the word that there is room if its quotas say so.
  record Settled (c : Cache) : Type 0 where
    counted : Counted c
    room : quotas_ok sort avail no_space opt world c ≡ true → c.out_of_space ≡ false

  -- A cache with room, whose space in use is that of its items.
  pub record Roomy (c : Cache) : Type 0 where
    pub counted : Counted c
    pub room : c.out_of_space ≡ false
