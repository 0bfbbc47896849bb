-- ===== src/Reconcile/Totals.antt =====
-- The report of `tally` in src/reconcile.ts, and the drift of src/reconcile-run.ts.
use prism_control_plane.Prelude.{
  ℕ, ◌+◌, ◌≡◌, refl, Option, List, [], ◌∷◌, arith, inl, inr, total, length, All, ◌∙◌,
}
use prism_control_plane.Reconcile.{
  LedgerEstimate, ReconcileDecision, ReconcileOutcome, adjust, skipped, SkipReason, no_request_id,
  unknown_cost, no_ledger_row, account_mismatch, Adjust, ReconcileTotals, empty_totals,
  count_outcome, tally_from, tally, decide_adjustment, estimate_of,
}
use prism_control_plane.Reconcile.Decision.{
  Settles, decide_adjustment_agrees, decide_adjustment-IsFounded,
}
use prism_control_plane.Reconcile.Report.{gateway_micro_usd, gateway_total}

-- All the counters of a report together.
abbrev pub counted : ReconcileTotals → ℕ
counted t =
    t.in_agreement + t.adjusted_spend + t.adjusted_credit + t.skipped_no_request_id
    + t.skipped_cached + t.skipped_unknown_cost + t.skipped_no_ledger_row
    + t.skipped_account_mismatch

-- One decision is counted once, as one row.
count_outcome-counted :
    (o : ReconcileOutcome) (t : ReconcileTotals)
    → (counted (count_outcome o t) ≡ counted t + 1) × ((count_outcome o t).rows ≡ t.rows)
count_outcome-counted (ReconcileOutcome.in_agreement n e) t = omega arith
count_outcome-counted (adjust a) t = ground arith
count_outcome-counted (skipped no_request_id) t = omega arith
count_outcome-counted (skipped SkipReason.cached) t = omega arith
count_outcome-counted (skipped unknown_cost) t = omega arith
count_outcome-counted (skipped no_ledger_row) t = omega arith
count_outcome-counted (skipped account_mismatch) t = omega arith

tally_from-counted :
    (t : ReconcileTotals) (ds : List ReconcileDecision)
    → (counted (tally_from t ds) ≡ counted t + length ds)
      × ((tally_from t ds).rows ≡ t.rows + length ds)
unfolding tally_from
tally_from-counted t [] = omega arith
tally_from-counted t (d ∷ ds) =
    let next = record t { rows = t.rows + 1 } in
    let (c, r) = count_outcome-counted d.outcome next in
    let (cs, rs) = tally_from-counted (count_outcome d.outcome next) ds in omega arith

-- Every row of a run is in exactly one counter of its report: the counters add up to the rows, and
-- the rows are the decisions.
pub tally_partitions :
    (ds : List ReconcileDecision) → ((tally ds).rows ≡ length ds) × (counted (tally ds) ≡ length ds)
unfolding tally
tally_partitions ds = let (c, r) = tally_from-counted empty_totals ds in omega arith

-- What the ledger charged for a row that was compared.
abbrev pub charged_of : ReconcileOutcome → ℕ
charged_of (adjust a) = a.estimate_micro_usd
charged_of (ReconcileOutcome.in_agreement n e) = estimate_of e
charged_of (skipped r) = 0

-- Decided by the code, on some ledger row.
abbrev pub IsDecided : ReconcileDecision → Type 0
IsDecided d = (event : Option LedgerEstimate) × (decide_adjustment d.log event ≡ d.outcome)

abbrev Balances : ReconcileOutcome → Type 0
Balances o =
    (t : ReconcileTotals)
    → charged_of o + (count_outcome o t).spend_micro_usd + t.credit_micro_usd
      ≡ gateway_micro_usd o + (count_outcome o t).credit_micro_usd + t.spend_micro_usd

Settles-Balances : (a : Adjust) → Settles a → Balances (adjust a)
Settles-Balances a (inl (d, e)) t = rw d (omega arith)
Settles-Balances a (inr (d, e)) t = rw d (omega arith)

skipped-Balances : (r : SkipReason) → Balances (skipped r)
skipped-Balances no_request_id t = omega arith
skipped-Balances SkipReason.cached t = omega arith
skipped-Balances unknown_cost t = omega arith
skipped-Balances no_ledger_row t = omega arith
skipped-Balances account_mismatch t = omega arith

IsDecided-Balances :
    (d : ReconcileDecision) (o : ReconcileOutcome) → d.outcome ≡ o → IsDecided d → Balances o
unfolding decide_adjustment
IsDecided-Balances d (adjust a) e (v, h) =
    Settles-Balances a (decide_adjustment-IsFounded d.log v a (h ∙ e)).settles
IsDecided-Balances d (skipped r) e (v, h) = skipped-Balances r
IsDecided-Balances d (ReconcileOutcome.in_agreement n x) e (v, h) =
    λ t. omega (arith, (decide_adjustment_agrees d.log v n x (h ∙ e)).2)

tally_from-balances :
    (t : ReconcileTotals) (ds : List ReconcileDecision)
    → All IsDecided ds
    → total (λ d. charged_of d.outcome) ds + (tally_from t ds).spend_micro_usd + t.credit_micro_usd
      ≡ gateway_total ds + (tally_from t ds).credit_micro_usd + t.spend_micro_usd
unfolding tally_from
tally_from-balances t [] h = omega arith
tally_from-balances t (d ∷ ds) (h, hs) =
    let next = record t { rows = t.rows + 1 } in
    let one = IsDecided-Balances d d.outcome refl h next in
    let more = tally_from-balances (count_outcome d.outcome next) ds hs in omega arith

-- The money of a report accounts for the whole difference between the two books: what was charged
-- for the compared rows, with the upward corrections, is what the gateway billed, with the downward
-- ones.
pub tally_balances :
    (ds : List ReconcileDecision)
    → All IsDecided ds
    → total (λ d. charged_of d.outcome) ds + (tally ds).spend_micro_usd
      ≡ gateway_total ds + (tally ds).credit_micro_usd
unfolding tally
tally_balances ds h = omega (arith, tally_from-balances empty_totals ds h)
