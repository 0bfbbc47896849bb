-- ===== src/Reconcile/Sweep.antt =====
-- What holds all through the loops of `runReconcile` in src/reconcile-run.ts, and that they end.
use prism_control_plane.Prelude.{
  ℕ, suc, zero, ◌+◌, ◌-◌, ◌<◌, true, ◌||◌, String, Option, List, [], ◌∷◌, arith, inl, inr,
  Bool-cases, Option-cases, length, ltb, leb,
}
use prism_control_plane.Reconcile.{GatewayLogRow, settle_ms}
use prism_control_plane.Reconcile.Run.{
  GatewayLogPage, ReconcileRunArgs, row_cap, page_size, Progress, PagesResult, done, upstream,
  out_of_fuel, process_row, process_rows, take_page, process_pages,
}

abbrev pub Reached : (Progress → Type 0) → PagesResult → Type 0
Reached P (done s) = P s
Reached P (upstream s) = P s
Reached P (out_of_fuel s) = P s

abbrev pub with_page : GatewayLogPage → Progress → Progress
with_page b s = record s { pages = s.pages + 1; malformed = s.malformed + b.malformed }

module _ (new_id : ℕ → String) (args : ReconcileRunArgs) (P : Progress → Type 0) where
  -- A row is taken only while there is room under the cap.
  abbrev pub KeepsRow : Type 0
  KeepsRow =
      (log : GatewayLogRow) (s : Progress)
      → length s.decisions < row_cap args
      → P s
      → P (process_row new_id args log s)

  abbrev pub KeepsStop : Type 0
  KeepsStop = (s : Progress) → P s → P (record s { truncated = true })

  abbrev pub KeepsPage : Type 0
  KeepsPage = (b : GatewayLogPage) (s : Progress) → P s → P (with_page b s)

  pub process_rows-keeps :
      KeepsRow
      → KeepsStop
      → (rows : List GatewayLogRow) (s : Progress) → P s
      → P (process_rows new_id args rows s)
  unfolding process_rows
  process_rows-keeps row stop [] s p = p
  process_rows-keeps row stop (log ∷ rows) s p =
      elim (Bool-cases
        (ltb (args.now - settle_ms) log.created_at || leb (row_cap args) (length s.decisions))) [
          | inl e ↦ rw e (stop s p)
          | inr e ↦ rw e (
              process_rows-keeps row stop rows (process_row new_id args log s)
                (row log s (ground arith) p))
        ]

  pub process_pages-keeps :
      KeepsRow
      → KeepsStop
      → KeepsPage
      → (list_since : ℕ → ℕ → ℕ → Option GatewayLogPage) (fuel floor page : ℕ) (s : Progress) → P s
      → Reached P (process_pages new_id list_since fuel args floor page s)
  unfolding process_pages
  process_pages-keeps row stop turn list_since zero floor page s p = p
  process_pages-keeps row stop turn list_since (suc fuel) floor page s p =
      elim (Option-cases (list_since floor page (page_size args))) [
        | inl e ↦ rw (e, Reached) p
        | inr (b, e) ↦
            let s' = take_page new_id args b s in
            let p' = process_rows-keeps row stop b.rows (with_page b s) (turn b s p) in
            elim (Bool-cases (s'.truncated || ltb (length b.rows + b.malformed) (page_size args))) [
              | inl last ↦ rw (e, last, Reached) p'
              | inr more ↦
                  rw (e, more, Reached)
                    (process_pages-keeps row stop turn list_since fuel floor (page + 1) s' p')
            ]
      ]
