-- ===== src/Reconcile/Outcomes.antt =====
-- What a whole run of `runReconcile` in src/reconcile-run.ts comes to.
use prism_control_plane.Prelude.{
  ℕ, ◌+◌, ◌≤◌, ◌≡◌, refl, ap, ◌∙◌, true, String, Option, some, arith, inl, inr, Bool-cases,
  Option-cases, if◌then◌else◌, eq_refl,
}
use prism_control_plane.Store.Schema.{Db}
use prism_control_plane.Store.Sql.{first_where, first_where-upsert}
use prism_control_plane.Store.Adjustments.{
  get_reconcile_state, RunStamp, advance_reconcile_state, coalesce, is_state_of, add_run, first_run,
}
use prism_control_plane.Reconcile.{tally, empty_totals, next_watermark}
use prism_control_plane.Reconcile.Run.{
  GatewayLogPage, ReconcileRunArgs, row_cap, Progress, PagesResult, done, upstream, out_of_fuel,
}
use prism_control_plane.Reconcile.Report.{
  ReconcileReport, ok, watermark_of, floor_of, report_of, stamp_run, finish, run_reconcile,
}
use prism_control_plane.Reconcile.Totals.{counted, tally_partitions}
use prism_control_plane.Reconcile.Watermark.{next_watermark_forward}
use prism_control_plane.Reconcile.Sweep.{Reached}
use prism_control_plane.Reconcile.Effects.{tally_from-adjusted, IsSound, pages-IsSound, run-Ending}

finish_dry :
    (new_id : ℕ → String) (list_since : ℕ → ℕ → ℕ → Option GatewayLogPage) (args : ReconcileRunArgs)
    (db : Db) (before : Option ℕ) (floor : ℕ) (p : PagesResult)
    → args.dry_run ≡ true
    → Reached (IsSound args db) p
    → (finish new_id list_since args before floor p).0 ≡ db
unfolding stamp_run
finish_dry new_id list_since args db before floor (done s) d v = rw (d, stamp_run) (v.dry d)
finish_dry new_id list_since args db before floor (upstream s) d v = v.dry d
finish_dry new_id list_since args db before floor (out_of_fuel s) d v = v.dry d

-- A dry run writes nothing at all, the watermark and the counts of runs included, however it ends.
pub run_reconcile_dry :
    (new_id : ℕ → String) (list_since : ℕ → ℕ → ℕ → Option GatewayLogPage) (fuel : ℕ)
    (args : ReconcileRunArgs) (db : Db)
    → args.dry_run ≡ true
    → (run_reconcile new_id list_since fuel args db).0 ≡ db
unfolding run_reconcile
run_reconcile_dry new_id list_since fuel args db d =
    elim (Option-cases
      (floor_of (watermark_of (get_reconcile_state args.gateway_id db)) args.since)) [
        | inl e ↦ rw (e, run_reconcile) refl
        | inr (floor, e) ↦
            rw (e, run_reconcile)
              (finish_dry new_id list_since args db _ floor _ d
                (pages-IsSound new_id args db list_since fuel floor))
      ]

-- The report of a run adds up: no more rows than the cap, each in one counter, and on a live run
-- every adjustment decided on was either written now or found already written; on a dry run none
-- was tried.
pub run_reconcile_adds_up :
    (new_id : ℕ → String) (list_since : ℕ → ℕ → ℕ → Option GatewayLogPage) (fuel : ℕ)
    (args : ReconcileRunArgs) (db db' : Db) (r : ReconcileReport)
    → run_reconcile new_id list_since fuel args db ≡ (db', ok r)
    → (r.totals.rows ≤ row_cap args)
      × (counted r.totals ≡ r.totals.rows)
      × (r.applied + r.already_applied
          ≡ (if args.dry_run then 0 else r.totals.adjusted_spend + r.totals.adjusted_credit))
unfolding report_of tally
run_reconcile_adds_up new_id list_since fuel args db db' r h =
    let (s, floor, v, _, report, _) = run-Ending new_id args db list_since fuel db' r h in
    let (rows, each) = tally_partitions s.decisions in
    let adjusted = tally_from-adjusted empty_totals s.decisions in
    rw report (ground (arith, v.capped, v.written))

coalesce_forward :
    (w now : ℕ) (newest : Option ℕ)
    → (w' : ℕ) × (coalesce (next_watermark w newest now) (some w) ≡ some w') × (w ≤ w')
coalesce_forward w now newest = elim (Option-cases (next_watermark w newest now)) [
  | inl e ↦ (w, rw e refl, omega arith)
  | inr (c, e) ↦ (c, rw e refl, omega (arith, next_watermark_forward w now c newest e))
]

get_reconcile_state-advance :
    (x : RunStamp) (db : Db)
    → watermark_of (get_reconcile_state x.gateway_id (advance_reconcile_state x db))
      ≡ coalesce x.watermark (watermark_of (get_reconcile_state x.gateway_id db))
unfolding get_reconcile_state advance_reconcile_state
get_reconcile_state-advance x db =
    rw
      (first_where-upsert (is_state_of x.gateway_id) (is_state_of x.gateway_id) (add_run x)
        (first_run x) db.reconcile_state true (λ r h. (h, h)) (λ r h t. h) (eq_refl x.gateway_id))
      (elim (Option-cases (first_where (is_state_of x.gateway_id) db.reconcile_state)) [
        | inl e ↦ rw e (ground arith)
        | inr (r, e) ↦ rw e (ground arith)
      ])

abbrev stamp_of : ReconcileRunArgs → ℕ → Progress → RunStamp
stamp_of args floor s = record {
  gateway_id = args.gateway_id;
  watermark = next_watermark floor s.newest_processed args.now;
  last_log_id = s.last_log_id;
  rows_seen = (tally s.decisions).rows;
  rows_adjusted = s.applied;
  at = args.now;
}

stamp_run_forward :
    (args : ReconcileRunArgs) (db : Db) (w : ℕ) (s : Progress)
    → s.db.reconcile_state ≡ db.reconcile_state
    → watermark_of (get_reconcile_state args.gateway_id db) ≡ some w
    → (w' : ℕ) × (watermark_of (get_reconcile_state args.gateway_id (stamp_run args w s)) ≡ some w')
      × (w ≤ w')
unfolding stamp_run get_reconcile_state
stamp_run_forward args db w s same h =
    let stored : watermark_of (get_reconcile_state args.gateway_id s.db) ≡ some w =
      ap (λ t. watermark_of (first_where (is_state_of args.gateway_id) t)) same ∙ h in
    let (w', e, le) = coalesce_forward w args.now s.newest_processed in
    elim (Bool-cases args.dry_run) [
      | inl d ↦ (w, rw (d, stamp_run) stored, omega arith)
      | inr d ↦ (
        w',
        rw (d, stamp_run)
            (get_reconcile_state-advance (stamp_of args w s) s.db ∙ ap (coalesce _) stored ∙ e),
        le,
      )
    ]

finish_forward :
    (new_id : ℕ → String) (list_since : ℕ → ℕ → ℕ → Option GatewayLogPage) (args : ReconcileRunArgs)
    (db : Db) (before : Option ℕ) (w : ℕ) (p : PagesResult)
    → watermark_of (get_reconcile_state args.gateway_id db) ≡ some w
    → Reached (IsSound args db) p
    → (w' : ℕ) × (watermark_of
          (get_reconcile_state args.gateway_id (finish new_id list_since args before w p).0)
        ≡ some w')
      × (w ≤ w')
unfolding get_reconcile_state
finish_forward new_id list_since args db before w (done s) h v =
    stamp_run_forward args db w s v.watermarks h
finish_forward new_id list_since args db before w (upstream s) h v = (
  w,
  ap (λ t. watermark_of (first_where (is_state_of args.gateway_id) t)) v.watermarks ∙ h,
  omega arith,
)
finish_forward new_id list_since args db before w (out_of_fuel s) h v = (
  w,
  ap (λ t. watermark_of (first_where (is_state_of args.gateway_id) t)) v.watermarks ∙ h,
  omega arith,
)

-- The stored watermark of a gateway never goes back and is never lost, whatever a run does and
-- however it ends.
pub run_reconcile_forward :
    (new_id : ℕ → String) (list_since : ℕ → ℕ → ℕ → Option GatewayLogPage) (fuel : ℕ)
    (args : ReconcileRunArgs) (db : Db) (w : ℕ)
    → watermark_of (get_reconcile_state args.gateway_id db) ≡ some w
    → (w' : ℕ) × (watermark_of
          (get_reconcile_state args.gateway_id (run_reconcile new_id list_since fuel args db).0)
        ≡ some w')
      × (w ≤ w')
unfolding run_reconcile
run_reconcile_forward new_id list_since fuel args db w h =
    rw (h, run_reconcile)
      (finish_forward new_id list_since args db
        (watermark_of (get_reconcile_state args.gateway_id db)) w _ h
        (pages-IsSound new_id args db list_since fuel w))
