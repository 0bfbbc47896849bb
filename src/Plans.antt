-- ===== src/Plans.antt =====
-- src/plans.ts: a stored plan row becomes a usable plan or is refused; who is entitled to what,
-- and the output cap of one request.
pub mod Rows
pub mod Caps
pub mod Tiers
mod Tests
use prism_control_plane.Prelude.{
  ℕ, ◌<◌, Bool, true, false, String, Option, none, some, List, [], ◌∷◌, map, any, if◌then◌else◌,
  min, max, leb, pos, pos_part,
}
use prism_control_plane.Prelude.Number.{Number, integer, fraction, count?, is_finite}
use prism_control_plane.Prelude.Text.{codes, codes_eq, split, trim, to_lower}
use prism_control_plane.Catalog.{ModelTier, standard, premium, tier_eq}
use prism_control_plane.Store.Schema.{PlanRow}

pub record Plan : Type 0 where
  pub id : String
  pub name : String
  pub signup_credit_micro_usd : ℕ
  pub monthly_included_micro_usd : ℕ
  pub requests_per_minute : ℕ
  pub max_output_tokens : ℕ
  pub allowed_tiers : List ModelTier

-- `KNOWN_TIERS`
unfoldable pub tier_of : List ℕ → Option ModelTier
tier_of s =
    if codes_eq s (codes "standard")
    then some standard
    else if codes_eq s (codes "premium")
    then some premium
    else none

-- `filter` to the known names, in the order of the text
unfoldable pub known_tiers : List (List ℕ) → List ModelTier
unfolding tier_of
known_tiers [] = []
known_tiers (part ∷ parts) = elim (tier_of part) [
  | none ↦ known_tiers parts
  | some t ↦ t ∷ known_tiers parts
]

-- `parseTiers`
unfoldable pub parse_tiers : List ℕ → List ModelTier
unfolding known_tiers split trim to_lower
parse_tiers raw = known_tiers (map (λ part. map to_lower (trim part)) (split b',' raw))

-- Which column a refusal names.
pub data PlanProblem : Type 0 where
  signup_credit monthly_included requests_per_minute max_output_tokens : Number → PlanProblem

pub data PlanResult : Type 0 where
  ok : Plan → PlanResult
  refused : PlanProblem → PlanResult

-- The value of a column where `Number.isInteger(x) && x > 0`.
abbrev pub positive? : Number → Option ℕ
positive? x = elim (count? x) [ none ↦ none | some n ↦ if leb n 0 then none else some n ]

abbrev require : Option ℕ → PlanProblem → (ℕ → PlanResult) → PlanResult
require none problem next = refused problem
require (some n) problem next = next n

-- `planFromRow`
unfoldable pub plan_from_row : PlanRow → PlanResult
plan_from_row row =
    require (count? row.signup_credit_micro_usd) (signup_credit row.signup_credit_micro_usd)
      λ signup.
        require (count? row.monthly_included_micro_usd)
          (monthly_included row.monthly_included_micro_usd)
          λ included.
            require (positive? row.requests_per_minute)
              (PlanProblem.requests_per_minute row.requests_per_minute)
              λ rate.
                require (positive? row.max_output_tokens)
                  (PlanProblem.max_output_tokens row.max_output_tokens)
                  λ cap. ok (record {
                    id = row.id;
                    name = row.name;
                    signup_credit_micro_usd = signup;
                    monthly_included_micro_usd = included;
                    requests_per_minute = rate;
                    max_output_tokens = cap;
                    allowed_tiers = parse_tiers (codes row.allowed_tiers);
                  })

-- `entitlesTier`
unfoldable pub entitles_tier : Plan → ModelTier → Bool
entitles_tier plan tier = any (tier_eq tier) plan.allowed_tiers

abbrev pub ceiling : ℕ → Option ℕ → ℕ
ceiling plan_max none = plan_max
ceiling plan_max (some model_max) = min plan_max model_max

-- `Math.max(1, Math.min(Math.floor(r), c))` for a finite `r`
abbrev pub clamp : Number → ℕ → ℕ
clamp (integer z) c = max 1 (min (pos_part z) c)
clamp (fraction z) c = max 1 (min (pos_part z) c)
clamp _ c = c

-- `effectiveMaxTokens`: what is absent or not finite asks for nothing.
unfoldable pub effective_max_tokens : Option Number → ℕ → Option ℕ → ℕ
effective_max_tokens none plan_max model_max = ceiling plan_max model_max
effective_max_tokens (some requested) plan_max model_max =
    if is_finite requested
    then clamp requested (ceiling plan_max model_max)
    else ceiling plan_max model_max
