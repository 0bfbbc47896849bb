-- ===== src/Plans/Rows.antt =====
-- Which plan rows src/plans.ts accepts, and what it makes of them.
use prism_control_plane.Prelude.{
  ℕ, ◌<◌, ◌≡◌, ◌≢◌, ◌↔◌, refl, none, some, arith, Option-cases, inl, inr,
}
use prism_control_plane.Prelude.Number.{Number, count?}
use prism_control_plane.Prelude.Text.{codes}
use prism_control_plane.Store.Schema.{PlanRow}
use prism_control_plane.Plans.{Plan, ok, positive?, parse_tiers, plan_from_row}

-- A row that holds a policy: whole amounts, and a rate limit and an output cap above zero.
abbrev pub IsUsable : PlanRow → Type 0
IsUsable row =
    (count? row.signup_credit_micro_usd ≢ none)
    × (count? row.monthly_included_micro_usd ≢ none)
    × (positive? row.requests_per_minute ≢ none)
    × (positive? row.max_output_tokens ≢ none)

positive?-eq-some : (x : Number) {n : ℕ} → positive? x ≡ some n → (count? x ≡ some n) × (0 < n)
positive?-eq-some x h = elim (Option-cases (count? x)) [
  | inl e ↦ absurd (ground arith)
  | inr (m, e) ↦ ground arith
]

abbrev plan_of : PlanRow → ℕ → ℕ → ℕ → ℕ → Plan
plan_of row a b c d = record {
  id = row.id;
  name = row.name;
  signup_credit_micro_usd = a;
  monthly_included_micro_usd = b;
  requests_per_minute = c;
  max_output_tokens = d;
  allowed_tiers = parse_tiers (codes row.allowed_tiers);
}

-- What an accepted plan is: each number is the row's own column, the rate limit and the output
-- cap are above zero, and the tiers are those of the row's text. Nothing is rounded or defaulted.
pub plan_from_row_sound :
    (row : PlanRow) {p : Plan}
    → plan_from_row row ≡ ok p
    → (p.id ≡ row.id)
      × (count? row.signup_credit_micro_usd ≡ some p.signup_credit_micro_usd)
      × (count? row.monthly_included_micro_usd ≡ some p.monthly_included_micro_usd)
      × (count? row.requests_per_minute ≡ some p.requests_per_minute)
      × (0 < p.requests_per_minute)
      × (count? row.max_output_tokens ≡ some p.max_output_tokens)
      × (0 < p.max_output_tokens)
      × (p.allowed_tiers ≡ parse_tiers (codes row.allowed_tiers))
unfolding plan_from_row
plan_from_row_sound row {p} h = elim (Option-cases (count? row.signup_credit_micro_usd)) [
  | inl e ↦ absurd (ground arith)
  | inr (a, ea) ↦ elim (Option-cases (count? row.monthly_included_micro_usd)) [
    | inl e ↦ absurd (ground arith)
    | inr (b, eb) ↦ elim (Option-cases (positive? row.requests_per_minute)) [
      | inl e ↦ absurd (ground arith)
      | inr (c, ec) ↦ elim (Option-cases (positive? row.max_output_tokens)) [
        | inl e ↦ absurd (ground arith)
        | inr (d, ed) ↦
            let same : plan_of row a b c d ≡ p = ground arith in
            let (whole_c, pos_c) = positive?-eq-some row.requests_per_minute ec in
            let (whole_d, pos_d) = positive?-eq-some row.max_output_tokens ed in
            rw (← same) (refl, ea, eb, whole_c, pos_c, whole_d, pos_d, refl)
      ]
    ]
  ]
]

-- A row is accepted exactly when it holds a policy; every other is refused.
pub plan_from_row-ok_iff :
    (row : PlanRow) → ((p : Plan) × (plan_from_row row ≡ ok p)) ↔ IsUsable row
unfolding plan_from_row
plan_from_row-ok_iff row = (
  λ (p, h). ground arith,
  λ (a, b, c, d). elim (Option-cases (count? row.signup_credit_micro_usd)) [
    | inl e ↦ absurd (a e)
    | inr (x, ex) ↦ elim (Option-cases (count? row.monthly_included_micro_usd)) [
      | inl e ↦ absurd (b e)
      | inr (y, ey) ↦ elim (Option-cases (positive? row.requests_per_minute)) [
        | inl e ↦ absurd (c e)
        | inr (z, ez) ↦ elim (Option-cases (positive? row.max_output_tokens)) [
          | inl e ↦ absurd (d e)
          | inr (w, ew) ↦ (plan_of row x y z w, ground arith)
        ]
      ]
    ]
  ],
)
