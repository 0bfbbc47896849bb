-- ===== src/Reconcile/Paging.antt =====
-- The loop over the pages of src/reconcile-run.ts ends.
use prism_control_plane.Prelude.{
  ℕ, suc, zero, ◌+◌, ◌-◌, ◌≤◌, ◌<◌, ◌≡◌, ◌≢◌, refl, true, ◌||◌, String, Option, some, List, [], ◌∷◌,
  arith, ◌⊎◌, inl, inr, Bool-cases, Option-cases, length, length-append, ltb, leb,
}
use prism_control_plane.Store.Schema.{Db}
use prism_control_plane.Reconcile.{
  GatewayLogRow, ReconcileOutcome, adjust, in_agreement, skipped, decide_adjustment, settle_ms,
}
use prism_control_plane.Reconcile.Run.{
  GatewayLogPage, ReconcileRunArgs, row_cap, page_size, Progress, PagesResult, done, upstream,
  out_of_fuel, start, event_for, note_row, write_adjustment, process_row, process_rows, take_page,
  process_pages,
}
use prism_control_plane.Reconcile.Report.{
  still_paging, finish, run_reconcile, floor_of, watermark_of,
}
use prism_control_plane.Store.Adjustments.{get_reconcile_state}
use prism_control_plane.Reconcile.Sweep.{with_page, process_rows-keeps}
use prism_control_plane.Reconcile.Effects.{process_row_idle, process_row_dry, process_row_live}

-- A feed all of whose rows can be read.
abbrev pub IsReadable : (ℕ → ℕ → ℕ → Option GatewayLogPage) → Type 0
IsReadable list_since =
    (since page size : ℕ) (b : GatewayLogPage)
    → list_since since page size ≡ some b
    → b.malformed ≡ 0

module _ (new_id : ℕ → String) (args : ReconcileRunArgs) where
  noted-length :
      (log : GatewayLogRow) (o : ReconcileOutcome) (s : Progress)
      → length (note_row log o s).decisions ≡ length s.decisions + 1
  noted-length log o s = length-append s.decisions ((record { log = log; outcome = o }) ∷ [])

  decided-length :
      (log : GatewayLogRow) (s : Progress) (o : ReconcileOutcome)
      → decide_adjustment log (event_for log s.db) ≡ o
      → length (process_row new_id args log s).decisions ≡ length s.decisions + 1
  unfolding write_adjustment
  decided-length log s (in_agreement n x) e =
      rw (process_row_idle new_id args s.db log s (in_agreement n x) e refl)
        (noted-length log (in_agreement n x) s)
  decided-length log s (skipped r) e =
      rw (process_row_idle new_id args s.db log s (skipped r) e refl)
        (noted-length log (skipped r) s)
  decided-length log s (adjust a) e = elim (Bool-cases args.dry_run) [
    | inl d ↦ rw (process_row_dry new_id args s.db log s a e d) (noted-length log (adjust a) s)
    | inr d ↦ rw (process_row_live new_id args s.db log s a e d) (noted-length log (adjust a) s)
  ]

  process_row-length :
      (log : GatewayLogRow) (s : Progress)
      → length (process_row new_id args log s).decisions ≡ length s.decisions + 1
  process_row-length log s = decided-length log s _ refl

  -- The rows of a page are all taken, or the run is stopped.
  process_rows-length :
      (rows : List GatewayLogRow) (s : Progress)
      → ((process_rows new_id args rows s).truncated ≡ true)
        ⊎ (length (process_rows new_id args rows s).decisions ≡ length s.decisions + length rows)
  unfolding process_rows
  process_rows-length [] s = inr (omega arith)
  process_rows-length (log ∷ rows) s =
      elim (Bool-cases
        (ltb (args.now - settle_ms) log.created_at || leb (row_cap args) (length s.decisions))) [
          | inl e ↦ rw e (inl refl)
          | inr e ↦ rw e (elim (process_rows-length rows (process_row new_id args log s)) [
            | inl t ↦ inl t
            | inr l ↦ inr (omega (arith, process_row-length log s))
          ])
        ]

  process_rows_capped :
      (rows : List GatewayLogRow) (s : Progress)
      → length s.decisions ≤ row_cap args
      → length (process_rows new_id args rows s).decisions ≤ row_cap args
  process_rows_capped =
      process_rows-keeps new_id args (λ s. length s.decisions ≤ row_cap args)
        (λ log s room h. omega (arith, process_row-length log s)) (λ s h. h)

  abbrev NotOut : PagesResult → Type 0
  NotOut (done s) = Unit
  NotOut (upstream s) = Unit
  NotOut (out_of_fuel s) = ⊥

  module _ (list_since : ℕ → ℕ → ℕ → Option GatewayLogPage) (readable : IsReadable list_since) where
    -- Each page that does not end the loop takes at least one row under the cap.
    process_pages_enough :
        (fuel floor page : ℕ) (s : Progress)
        → length s.decisions ≤ row_cap args
        → row_cap args < fuel + length s.decisions
        → NotOut (process_pages new_id list_since fuel args floor page s)
    unfolding process_pages
    process_pages_enough zero floor page s h k = absurd (omega arith)
    process_pages_enough (suc fuel) floor page s h k =
        elim (Option-cases (list_since floor page (page_size args))) [
          | inl e ↦ rw (e, process_pages, NotOut) tt
          | inr (b, e) ↦
              let s' = take_page new_id args b s in
              elim (Bool-cases
                (s'.truncated || ltb (length b.rows + b.malformed) (page_size args))) [
                  | inl last ↦ rw (e, last, process_pages, NotOut) tt
                  | inr more ↦
                      let taken = process_rows-length b.rows (with_page b s) in
                      let room = process_rows_capped b.rows (with_page b s) h in
                      let clean = readable floor page (page_size args) b e in
                      rw (e, more, process_pages, NotOut)
                        (process_pages_enough fuel floor (page + 1) s' room (ground arith))
                ]
        ]

not_paging :
    (new_id : ℕ → String) (list_since : ℕ → ℕ → ℕ → Option GatewayLogPage) (args : ReconcileRunArgs)
    (before : Option ℕ) (floor : ℕ) (p : PagesResult)
    → NotOut new_id args p
    → (finish new_id list_since args before floor p).1 ≢ still_paging
not_paging new_id list_since args before floor (done s) h e = ground arith
not_paging new_id list_since args before floor (upstream s) h e = ground arith
not_paging new_id list_since args before floor (out_of_fuel s) h e = elim h [ ]

-- A run ends: on a feed whose rows can all be read, one page more than the cap on rows is always
-- enough, however long the feed is and whatever its page size.
pub run_reconcile_ends :
    (new_id : ℕ → String) (list_since : ℕ → ℕ → ℕ → Option GatewayLogPage) (args : ReconcileRunArgs)
    (db : Db)
    → IsReadable list_since
    → (run_reconcile new_id list_since (row_cap args + 1) args db).1 ≢ still_paging
unfolding run_reconcile
run_reconcile_ends new_id list_since args db readable =
    elim (Option-cases
      (floor_of (watermark_of (get_reconcile_state args.gateway_id db)) args.since)) [
        | inl e ↦ rw (e, run_reconcile) (λ h. ground arith)
        | inr (floor, e) ↦
            rw (e, run_reconcile)
              (not_paging new_id list_since args _ floor _ (
                process_pages_enough new_id args list_since readable (row_cap args + 1) floor 1
                  (start db) (omega arith) (omega arith)))
      ]
