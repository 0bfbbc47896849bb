-- ===== src/Balance.antt =====
-- src/balance.ts: the spend gate, monthly allowance first and then prepaid credit. The columns
-- come from D1 as JavaScript numbers, so the gate's own checks stand over `Number`; what has
-- passed them is a natural number of micro-USD.
pub mod Decision
pub mod Allocation
mod Tests
use prism_control_plane.Prelude.{
  ℕ, ◌+◌, ◌-◌, min, Option, none, some, ◌&&◌, leb, if◌then◌else◌, ◌==◌,
}
use prism_control_plane.Prelude.Number.{Number, count?}

pub record BalanceState : Type 0 where
  pub credit_micro_usd : ℕ
  pub spent_micro_usd : ℕ

pub record SpendPools : Type 0 where
  pub credit_micro_usd : Number
  pub spent_micro_usd : Number
  pub monthly_included_micro_usd : Number
  pub allowance_spent_micro_usd : Number

-- Which column a refusal names in its `reason`.
pub data Column : Type 0 where
  granted_credit recorded_spend monthly_included allowance_spent : Column

-- `indeterminate` holds what its text is made of: the column and the value found there.
pub data BalanceDecision : Type 0 where
  allow : ℕ → ℕ → ℕ → BalanceDecision
  exhausted : ℕ → ℕ → ℕ → BalanceDecision
  indeterminate : Column → Number → BalanceDecision

pub record ChargeAllocation : Type 0 where
  pub from_allowance_micro_usd : ℕ
  pub from_credit_micro_usd : ℕ

-- `remainingAllowanceMicroUsd`: the truncated `-` is `Math.max(0, a - b)`.
unfoldable pub remaining_allowance_micro_usd : Number → Number → ℕ
remaining_allowance_micro_usd included spent = elim (count? included) [
  | none ↦ 0
  | some i ↦ elim (count? spent) [ none ↦ 0 | some s ↦ i - s ]
]

-- `remainingMicroUsd`
unfoldable pub remaining_micro_usd : BalanceState → ℕ
remaining_micro_usd state = state.credit_micro_usd - state.spent_micro_usd

-- One guard of `decideBalance`: go on with the value, or stop at the malformed column.
abbrev require : Column → Number → (ℕ → BalanceDecision) → BalanceDecision
require column x next = elim (count? x) [ none ↦ indeterminate column x | some n ↦ next n ]

-- `decideBalance`
unfoldable pub decide_balance : SpendPools → BalanceDecision
unfolding remaining_allowance_micro_usd remaining_micro_usd
decide_balance pools = require granted_credit pools.credit_micro_usd λ credit.
    require recorded_spend pools.spent_micro_usd λ spent.
      require monthly_included pools.monthly_included_micro_usd λ _.
        require allowance_spent pools.allowance_spent_micro_usd λ _.
          let remaining_allowance =
            remaining_allowance_micro_usd pools.monthly_included_micro_usd
              pools.allowance_spent_micro_usd in
          let remaining_credit =
            remaining_micro_usd (record { credit_micro_usd = credit; spent_micro_usd = spent }) in
          if remaining_allowance == 0 && leb credit spent
          then exhausted credit spent 0
          else allow (remaining_allowance + remaining_credit) remaining_allowance remaining_credit

-- `allocateCharge`
unfoldable pub allocate_charge : Number → Number → Number → ChargeAllocation
unfolding remaining_allowance_micro_usd
allocate_charge micro_usd included spent = elim (count? micro_usd) [
  | none ↦ record { from_allowance_micro_usd = 0; from_credit_micro_usd = 0 }
  | some m ↦
      if leb m 0
      then record { from_allowance_micro_usd = 0; from_credit_micro_usd = 0 }
      else let remaining_allowance = remaining_allowance_micro_usd included spent in
        let from_allowance = min m remaining_allowance in
        record {
          from_allowance_micro_usd = from_allowance;
          from_credit_micro_usd = m - from_allowance;
        }
]
