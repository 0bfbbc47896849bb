-- ===== src/Plans/Caps.antt =====
-- The output cap of src/plans.ts.
use prism_control_plane.Prelude.{ℕ, ◌≤◌, ◌<◌, ◌≡◌, Option, none, some, arith, pos, min}
use prism_control_plane.Prelude.Number.{Number, integer, fraction, infinity, neg_infinity, nan}
use prism_control_plane.Plans.{ceiling, effective_max_tokens}

-- A model's ceiling, where it has one, is above zero.
abbrev pub IsPositive : Option ℕ → Type 0
IsPositive none = Unit
IsPositive (some m) = 0 < m

abbrev pub AtMost : ℕ → Option ℕ → Type 0
AtMost n none = Unit
AtMost n (some m) = n ≤ m

-- Whatever is asked for, the cap of a request is at least one, at most the plan's and at most the
-- model's: the bound on one request's cost never lapses.
pub effective_max_tokens_bounds :
    (requested : Option Number) (plan_max : ℕ) (model_max : Option ℕ)
    → 0 < plan_max
    → IsPositive model_max
    → (1 ≤ effective_max_tokens requested plan_max model_max)
      × (effective_max_tokens requested plan_max model_max ≤ plan_max)
      × AtMost (effective_max_tokens requested plan_max model_max) model_max
unfolding effective_max_tokens
effective_max_tokens_bounds none p none h k = ground arith
effective_max_tokens_bounds none p (some m) h k = ground arith
effective_max_tokens_bounds (some (integer z)) p none h k = ground arith
effective_max_tokens_bounds (some (integer z)) p (some m) h k = ground arith
effective_max_tokens_bounds (some (fraction z)) p none h k = ground arith
effective_max_tokens_bounds (some (fraction z)) p (some m) h k = ground arith
effective_max_tokens_bounds (some infinity) p none h k = ground arith
effective_max_tokens_bounds (some infinity) p (some m) h k = ground arith
effective_max_tokens_bounds (some neg_infinity) p none h k = ground arith
effective_max_tokens_bounds (some neg_infinity) p (some m) h k = ground arith
effective_max_tokens_bounds (some nan) p none h k = ground arith
effective_max_tokens_bounds (some nan) p (some m) h k = ground arith

-- A whole positive request is granted in full up to the ceiling, and never exceeded.
pub effective_max_tokens-integer :
    (n plan_max : ℕ) (model_max : Option ℕ)
    → 0 < n
    → 0 < plan_max
    → IsPositive model_max
    → effective_max_tokens (some (integer (pos n))) plan_max model_max
      ≡ min n (ceiling plan_max model_max)
unfolding effective_max_tokens
effective_max_tokens-integer n p none h k l = ground arith
effective_max_tokens-integer n p (some m) h k l = ground arith
