-- ===== src/Balance/Decision.antt =====
-- When the gate of src/balance.ts opens, when it answers 402 and when 503.
use prism_control_plane.Prelude.{
  ℕ, ◌+◌, ◌-◌, ◌≤◌, ◌<◌, ◌≡◌, ◌≢◌, ◌↔◌, inl, inr, none, arith, pos, Option-cases,
}
use prism_control_plane.Prelude.Number.{Number, integer, count?}
use prism_control_plane.Balance.{
  SpendPools, allow, exhausted, indeterminate, Column, granted_credit, recorded_spend,
  monthly_included, allowance_spent, decide_balance,
}

-- Pools whose four columns are what the schema promises.
abbrev pub pools_of : ℕ → ℕ → ℕ → ℕ → SpendPools
pools_of credit spent included used = record {
  credit_micro_usd = integer (pos credit);
  spent_micro_usd = integer (pos spent);
  monthly_included_micro_usd = integer (pos included);
  allowance_spent_micro_usd = integer (pos used);
}

-- On well-formed columns the gate opens exactly when something is left in the two pools together,
-- it reports what is left in each, and it answers `exhausted` exactly when nothing is left.
pub decide_balance_open_iff :
    (credit spent included used : ℕ)
    → ((decide_balance (pools_of credit spent included used)
          ≡ allow (included - used + (credit - spent)) (included - used) (credit - spent))
        ↔ (0 < included - used + (credit - spent)))
      × ((decide_balance (pools_of credit spent included used) ≡ exhausted credit spent 0)
          ↔ ((included ≤ used) × (credit ≤ spent)))
unfolding decide_balance
decide_balance_open_iff credit spent included used =
    ((λ e. ground arith, λ h. ground arith), (λ e. ground arith, λ h. ground arith))

-- The columns that must all be read before anything is decided.
abbrev pub IsReadable : SpendPools → Type 0
IsReadable p =
    (count? p.credit_micro_usd ≢ none)
    × (count? p.spent_micro_usd ≢ none)
    × (count? p.monthly_included_micro_usd ≢ none)
    × (count? p.allowance_spent_micro_usd ≢ none)

-- Where the gate stops at a malformed column, column by column.
blame :
    (p : SpendPools)
    → ¬ IsReadable p
    → (c : Column) × (x : Number) × (decide_balance p ≡ indeterminate c x)
unfolding decide_balance
blame p h = elim (Option-cases (count? p.credit_micro_usd)) [
  | inl e ↦ (granted_credit, p.credit_micro_usd, ground arith)
  | inr (credit, e) ↦ elim (Option-cases (count? p.spent_micro_usd)) [
    | inl f ↦ (recorded_spend, p.spent_micro_usd, ground arith)
    | inr (spent, f) ↦ elim (Option-cases (count? p.monthly_included_micro_usd)) [
      | inl g ↦ (monthly_included, p.monthly_included_micro_usd, ground arith)
      | inr (included, g) ↦ elim (Option-cases (count? p.allowance_spent_micro_usd)) [
        | inl k ↦ (allowance_spent, p.allowance_spent_micro_usd, ground arith)
        | inr (used, k) ↦ absurd (h (ground arith))
      ]
    ]
  ]
]

-- The gate answers `indeterminate` exactly when some column is not a non-negative integer: a
-- broken counter is never read as `exhausted` nor as `allow`, and a sound one is never blamed.
pub decide_balance-indeterminate_iff :
    (p : SpendPools)
    → ((c : Column) × (x : Number) × (decide_balance p ≡ indeterminate c x)) ↔ (¬ IsReadable p)
unfolding decide_balance
decide_balance-indeterminate_iff p = (λ (c, x, e) r. ground arith, blame p)
