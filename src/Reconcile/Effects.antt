-- ===== src/Reconcile/Effects.antt =====
-- What a run of src/reconcile-run.ts writes and reports.
use prism_control_plane.Prelude.{
  ℕ, ◌+◌, ◌≤◌, ◌<◌, ◌≡◌, refl, ◌∙◌, true, false, String, Option, some, List, [], ◌∷◌, arith, inl,
  inr, Bool-cases, Option-cases, total, length, length-append, total-concat, All, All-append,
  if◌then◌else◌, any,
}
use prism_control_plane.Store.Schema.{Db, UsageAdjustmentRow}
use prism_control_plane.Store.Adjustments.{
  adjustment_conflicts, move_money, apply_usage_adjustment, get_reconcile_state,
}
use prism_control_plane.Store.Audit.TrueUps.{
  apply_usage_adjustment_of_old, apply_usage_adjustment_of_new,
}
use prism_control_plane.Reconcile.{
  GatewayLogRow, Adjust, ReconcileDecision, ReconcileOutcome, adjust, skipped, SkipReason,
  no_request_id, unknown_cost, no_ledger_row, account_mismatch, decide_adjustment, ReconcileTotals,
  count_outcome, tally_from,
}
use prism_control_plane.Reconcile.Run.{
  GatewayLogPage, ReconcileRunArgs, row_cap, Progress, PagesResult, done, upstream, out_of_fuel,
  start, event_for, note_row, write_adjustment, process_row, process_pages, adjustment_row,
}
use prism_control_plane.Reconcile.Report.{
  ReconcileReport, ok, watermark_of, floor_of, report_of, stamp_run, finish, run_reconcile,
}
use prism_control_plane.Reconcile.Totals.{IsDecided}
use prism_control_plane.Reconcile.Sweep.{Reached, process_pages-keeps}

abbrev pub adjusts : ReconcileOutcome → ℕ
adjusts (adjust a) = 1
adjusts _ = 0

count_outcome-adjusted :
    (o : ReconcileOutcome) (t : ReconcileTotals)
    → (count_outcome o t).adjusted_spend + (count_outcome o t).adjusted_credit
      ≡ t.adjusted_spend + t.adjusted_credit + adjusts o
count_outcome-adjusted (ReconcileOutcome.in_agreement n e) t = omega arith
count_outcome-adjusted (adjust a) t = ground arith
count_outcome-adjusted (skipped no_request_id) t = omega arith
count_outcome-adjusted (skipped SkipReason.cached) t = omega arith
count_outcome-adjusted (skipped unknown_cost) t = omega arith
count_outcome-adjusted (skipped no_ledger_row) t = omega arith
count_outcome-adjusted (skipped account_mismatch) t = omega arith

pub tally_from-adjusted :
    (t : ReconcileTotals) (ds : List ReconcileDecision)
    → (tally_from t ds).adjusted_spend + (tally_from t ds).adjusted_credit
      ≡ t.adjusted_spend + t.adjusted_credit + total (λ d. adjusts d.outcome) ds
unfolding tally_from
tally_from-adjusted t [] = omega arith
tally_from-adjusted t (d ∷ ds) =
    let next = record t { rows = t.rows + 1 } in
    omega (
      arith,
      count_outcome-adjusted d.outcome next,
      tally_from-adjusted (count_outcome d.outcome next) ds,
    )

-- The invariant of a run that began on `db`.
pub record IsSound (args : ReconcileRunArgs) (db : Db) (s : Progress) : Type 0 where
  pub decided : All IsDecided s.decisions
  pub capped : length s.decisions ≤ row_cap args
  pub written :
      s.applied + s.already_applied
      ≡ (if args.dry_run then 0 else total (λ d. adjusts d.outcome) s.decisions)
  pub dry : args.dry_run ≡ true → s.db ≡ db
  pub watermarks : s.db.reconcile_state ≡ db.reconcile_state

apply_usage_adjustment-watermarks :
    (x : UsageAdjustmentRow) (db : Db)
    → (apply_usage_adjustment x db).0.reconcile_state ≡ db.reconcile_state
unfolding move_money
apply_usage_adjustment-watermarks x db =
    elim (Bool-cases (any (adjustment_conflicts x) db.usage_adjustments)) [
      | inl old ↦ rw (apply_usage_adjustment_of_old x db old) refl
      | inr new ↦ rw (apply_usage_adjustment_of_new x db new) (ground arith)
    ]

module _ (new_id : ℕ → String) (args : ReconcileRunArgs) (db : Db) where
  noted-IsDecided :
      (log : GatewayLogRow) (s : Progress) (o : ReconcileOutcome)
      → decide_adjustment log (event_for log s.db) ≡ o
      → All IsDecided s.decisions
      → All IsDecided (note_row log o s).decisions
  noted-IsDecided log s o e h = All-append IsDecided s.decisions _ h ((event_for log s.db, e), tt)

  noted-IsSound :
      (log : GatewayLogRow) (s : Progress) (o : ReconcileOutcome)
      → decide_adjustment log (event_for log s.db) ≡ o
      → length s.decisions < row_cap args
      → (if args.dry_run then 0 else adjusts o) ≡ 0
      → IsSound args db s
      → IsSound args db (note_row log o s)
  noted-IsSound log s o e room nothing v = record {
    decided = noted-IsDecided log s o e v.decided;
    capped = omega (arith, length-append s.decisions ((record { log = log; outcome = o }) ∷ []));
    written = ground (
      arith,
      v.written,
      total-concat (λ d. adjusts d.outcome) s.decisions (record { log = log; outcome = o }),
    );
    dry = v.dry;
    watermarks = v.watermarks;
  }

  written-IsSound :
      (log : GatewayLogRow) (s : Progress) (a : Adjust)
      → decide_adjustment log (event_for log s.db) ≡ adjust a
      → length s.decisions < row_cap args
      → args.dry_run ≡ false
      → IsSound args db s
      → IsSound args db (write_adjustment new_id log a (note_row log (adjust a) s))
  unfolding write_adjustment
  written-IsSound log s a e room live v = record {
    decided = noted-IsDecided log s (adjust a) e v.decided;
    capped =
        omega (arith, length-append s.decisions ((record { log = log; outcome = adjust a }) ∷ []));
    written = ground (
      arith,
      v.written,
      total-concat (λ d. adjusts d.outcome) s.decisions (record { log = log; outcome = adjust a }),
    );
    dry = λ d. absurd (ground arith);
    watermarks =
        apply_usage_adjustment-watermarks (adjustment_row (new_id s.minted) log a) s.db
        ∙ v.watermarks;
  }

  pub process_row_dry :
      (log : GatewayLogRow) (s : Progress) (a : Adjust)
      → decide_adjustment log (event_for log s.db) ≡ adjust a
      → args.dry_run ≡ true
      → process_row new_id args log s ≡ note_row log (adjust a) s
  unfolding process_row
  process_row_dry log s a e d = rw (e, process_row) (ground arith)

  pub process_row_live :
      (log : GatewayLogRow) (s : Progress) (a : Adjust)
      → decide_adjustment log (event_for log s.db) ≡ adjust a
      → args.dry_run ≡ false
      → process_row new_id args log s ≡ write_adjustment new_id log a (note_row log (adjust a) s)
  unfolding process_row
  process_row_live log s a e d = rw (e, process_row) (ground arith)

  pub process_row_idle :
      (log : GatewayLogRow) (s : Progress) (o : ReconcileOutcome)
      → decide_adjustment log (event_for log s.db) ≡ o
      → adjusts o ≡ 0
      → process_row new_id args log s ≡ note_row log o s
  unfolding process_row
  process_row_idle log s (ReconcileOutcome.in_agreement n x) e z =
      rw (e, process_row) (ground arith)
  process_row_idle log s (skipped r) e z = rw (e, process_row) (ground arith)
  process_row_idle log s (adjust a) e z = absurd (omega arith)

  decided-IsSound :
      (log : GatewayLogRow) (s : Progress) (o : ReconcileOutcome)
      → decide_adjustment log (event_for log s.db) ≡ o
      → length s.decisions < row_cap args
      → IsSound args db s
      → IsSound args db (process_row new_id args log s)
  decided-IsSound log s (ReconcileOutcome.in_agreement n x) e room v =
      rw (process_row_idle log s (ReconcileOutcome.in_agreement n x) e refl)
        (noted-IsSound log s (ReconcileOutcome.in_agreement n x) e room (ground arith) v)
  decided-IsSound log s (skipped r) e room v =
      rw (process_row_idle log s (skipped r) e refl)
        (noted-IsSound log s (skipped r) e room (ground arith) v)
  decided-IsSound log s (adjust a) e room v = elim (Bool-cases args.dry_run) [
    | inl d ↦
        rw (process_row_dry log s a e d) (noted-IsSound log s (adjust a) e room (ground arith) v)
    | inr d ↦ rw (process_row_live log s a e d) (written-IsSound log s a e room d v)
  ]

  pub pages-IsSound :
      (list_since : ℕ → ℕ → ℕ → Option GatewayLogPage) (fuel floor : ℕ)
      → Reached (IsSound args db) (process_pages new_id list_since fuel args floor 1 (start db))
  pages-IsSound list_since fuel floor =
      process_pages-keeps new_id args (IsSound args db)
        (λ log s room v. decided-IsSound log s _ refl room v)
        (λ s v. record {
          decided = v.decided;
          capped = v.capped;
          written = v.written;
          dry = v.dry;
          watermarks = v.watermarks;
        })
        (λ b s v. record {
          decided = v.decided;
          capped = v.capped;
          written = v.written;
          dry = v.dry;
          watermarks = v.watermarks;
        })
        list_since fuel floor 1 (start db)
        (record {
          decided = tt;
          capped = omega arith;
          written = ground arith;
          dry = λ d. refl;
          watermarks = refl;
        })

  -- How a run that came to a report ended.
  abbrev pub Ending : Db → ReconcileReport → Type 0
  Ending db' r =
      (s : Progress) × (floor : ℕ) × IsSound args db s
      × (db' ≡ stamp_run args floor s)
      × (r ≡ report_of args (watermark_of (get_reconcile_state args.gateway_id db)) floor s)
      × (floor_of (watermark_of (get_reconcile_state args.gateway_id db)) args.since ≡ some floor)

  finish-Ending :
      (list_since : ℕ → ℕ → ℕ → Option GatewayLogPage) (floor : ℕ) (p : PagesResult) (db' : Db)
      (r : ReconcileReport)
      → floor_of (watermark_of (get_reconcile_state args.gateway_id db)) args.since ≡ some floor
      → finish new_id list_since args
          (watermark_of (get_reconcile_state args.gateway_id db))
          floor
          p
        ≡ (db', ok r)
      → Reached (IsSound args db) p
      → Ending db' r
  finish-Ending list_since floor (done s) db' r e h v = (s, floor, v, ground arith, ground arith, e)
  finish-Ending list_since floor (upstream s) db' r e h v = absurd (ground arith)
  finish-Ending list_since floor (out_of_fuel s) db' r e h v = absurd (ground arith)

  pub run-Ending :
      (list_since : ℕ → ℕ → ℕ → Option GatewayLogPage) (fuel : ℕ) (db' : Db) (r : ReconcileReport)
      → run_reconcile new_id list_since fuel args db ≡ (db', ok r)
      → Ending db' r
  unfolding run_reconcile
  run-Ending list_since fuel db' r h =
      elim (Option-cases
        (floor_of (watermark_of (get_reconcile_state args.gateway_id db)) args.since)) [
          | inl e ↦ absurd (ground arith)
          | inr (floor, e) ↦
              finish-Ending list_since floor
                (process_pages new_id list_since fuel args floor 1 (start db)) db' r e
                (rw (e, run_reconcile) at h) (pages-IsSound list_since fuel floor)
        ]
