-- ===== src/Balance/Allocation.antt =====
-- How src/balance.ts splits one charge over the two pools.
use prism_control_plane.Prelude.{ℕ, ◌+◌, ◌≤◌, ◌⊎◌, ◌≡◌, arith, pos}
use prism_control_plane.Prelude.Number.{Number, integer}
use prism_control_plane.Balance.{allocate_charge, remaining_allowance_micro_usd}

-- Whatever the two allowance columns hold, a charge of `m` micro-USD is split without loss, the
-- allowance gives no more than what is left of it, and credit is touched only once the allowance
-- is used up.
pub allocate_charge_splits :
    (m : ℕ) (included used : Number)
    → let left = remaining_allowance_micro_usd included used in
      let split = allocate_charge (integer (pos m)) included used in
      (split.from_allowance_micro_usd + split.from_credit_micro_usd ≡ m)
      × (split.from_allowance_micro_usd ≤ left)
      × ((split.from_credit_micro_usd ≡ 0) ⊎ (split.from_allowance_micro_usd ≡ left))
unfolding allocate_charge
allocate_charge_splits m included used = ground arith
