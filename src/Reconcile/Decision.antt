-- ===== src/Reconcile/Decision.antt =====
-- What `decideAdjustment` of src/reconcile.ts moves money for.
use prism_control_plane.Prelude.{
  ℕ, ◌+◌, ◌<◌, ◌≡◌, ◌≢◌, refl, false, Option, none, some, arith, ◌⊎◌, inl, inr, Bool-cases,
  Option-cases, ◌==◌, ltb, if◌then◌else◌, abs, sub_ℕ,
}
use prism_control_plane.Store.Schema.{spend, credit}
use prism_control_plane.Reconcile.{
  GatewayLogRow, LedgerEstimate, Adjust, adjust, in_agreement, truthy, is_other_account,
  estimate_of, decide_adjustment, needs_ledger_lookup,
}

-- The correction brings the estimate to the gateway's figure, in the direction that it names.
abbrev pub Settles : Adjust → Type 0
Settles a =
    ((a.direction ≡ spend) × (a.estimate_micro_usd + a.applied_micro_usd ≡ a.gateway_micro_usd))
    ⊎ ((a.direction ≡ credit) × (a.gateway_micro_usd + a.applied_micro_usd ≡ a.estimate_micro_usd))

-- What an adjustment rests on.
pub record IsFounded (log : GatewayLogRow) (event : Option LedgerEstimate) (a : Adjust)
    : Type 0 where
  pub has_request : truthy log.request_id ≢ none
  pub not_cached : log.cached ≡ false
  pub cost : log.cost_micro_usd ≡ some a.gateway_micro_usd
  pub in_ledger : event ≡ some a.event
  pub same_account : is_other_account log a.event ≡ false
  pub estimate : a.estimate_micro_usd ≡ estimate_of a.event
  pub positive : 0 < a.applied_micro_usd
  pub settles : Settles a

abbrev adjust_of : ℕ → LedgerEstimate → Adjust
adjust_of gateway e = record {
  direction = if ltb (estimate_of e) gateway then spend else credit;
  applied_micro_usd = abs (sub_ℕ gateway (estimate_of e));
  delta_micro_usd = sub_ℕ gateway (estimate_of e);
  estimate_micro_usd = estimate_of e;
  gateway_micro_usd = gateway;
  event = e;
}

adjust_of-Settles :
    (gateway : ℕ) (e : LedgerEstimate)
    → (gateway == estimate_of e) ≡ false
    → (0 < (adjust_of gateway e).applied_micro_usd) × Settles (adjust_of gateway e)
adjust_of-Settles gateway e h = elim (Bool-cases (ltb (estimate_of e) gateway)) [
  | inl more ↦ (ground arith, inl ground arith)
  | inr less ↦ (ground arith, inr ground arith)
]

-- The decision for a log row and the ledger row that was read for it moves money only for a log row that
-- names a request, was not a cache hit, has a known cost, was given a ledger row and does not name
-- another account than that row's; the amount is above zero, and brings that row's estimate to the
-- gateway's figure.
pub decide_adjustment-IsFounded :
    (log : GatewayLogRow) (event : Option LedgerEstimate) (a : Adjust)
    → decide_adjustment log event ≡ adjust a
    → IsFounded log event a
unfolding decide_adjustment
decide_adjustment-IsFounded log event a h = elim (Option-cases (truthy log.request_id)) [
  | inl e ↦ absurd (ground arith)
  | inr (r, er) ↦ elim (Bool-cases log.cached) [
    | inl c ↦ absurd (ground arith)
    | inr nc ↦ elim (Option-cases log.cost_micro_usd) [
      | inl e ↦ absurd (ground arith)
      | inr (g, eg) ↦ elim (Option-cases event) [
        | inl e ↦ absurd (ground arith)
        | inr (v, ev) ↦ elim (Bool-cases (is_other_account log v)) [
          | inl o ↦ absurd (ground arith)
          | inr same ↦ elim (Bool-cases (g == estimate_of v)) [
            | inl eq ↦ absurd (ground arith)
            | inr ne ↦
                let made : adjust_of g v ≡ a = ground arith in
                let (p, s) = adjust_of-Settles g v ne in
                rw (← made) (record {
                  has_request = ground arith;
                  not_cached = nc;
                  cost = eg;
                  in_ledger = ev;
                  same_account = same;
                  estimate = refl;
                  positive = p;
                  settles = s;
                })
          ]
        ]
      ]
    ]
  ]
]

-- Leaving out the read of the ledger for the rows that `needsLedgerLookup` passes over decides
-- every row as reading it for all of them would.
pub decide_adjustment-needs_ledger_lookup :
    (log : GatewayLogRow) (event : Option LedgerEstimate)
    → decide_adjustment log (if needs_ledger_lookup log then event else none)
      ≡ decide_adjustment log event
unfolding decide_adjustment needs_ledger_lookup
decide_adjustment-needs_ledger_lookup log event = ground arith

-- A row is in agreement only with a ledger row that was charged just what the gateway billed.
pub decide_adjustment_agrees :
    (log : GatewayLogRow) (event : Option LedgerEstimate) (n : ℕ) (x : LedgerEstimate)
    → decide_adjustment log event ≡ in_agreement n x
    → (event ≡ some x) × (log.cost_micro_usd ≡ some n) × (n ≡ estimate_of x)
unfolding decide_adjustment
decide_adjustment_agrees log event n x h = elim (Option-cases (truthy log.request_id)) [
  | inl e ↦ absurd (ground arith)
  | inr (r, er) ↦ elim (Bool-cases log.cached) [
    | inl c ↦ absurd (ground arith)
    | inr nc ↦ elim (Option-cases log.cost_micro_usd) [
      | inl e ↦ absurd (ground arith)
      | inr (g, eg) ↦ elim (Option-cases event) [
        | inl e ↦ absurd (ground arith)
        | inr (v, ev) ↦ elim (Bool-cases (is_other_account log v)) [
          | inl o ↦ absurd (ground arith)
          | inr same ↦ elim (Bool-cases (g == estimate_of v)) [
            | inr ne ↦ absurd (ground arith)
            | inl eq ↦
                let billed : g ≡ n = ground arith in
                let row : v ≡ x = ground arith in rw (← billed, ← row) (ev, eg, ground arith)
          ]
        ]
      ]
    ]
  ]
]
