-- ===== src/Store/Audit/Retries.antt =====
-- A retried write of src/store-d1.ts moves no money a second time.
use prism_control_plane.Prelude.{
  ℕ, ◌≡◌, true, false, List, [], ◌∷◌, arith, any, str_eq, eq_refl, Bool-cases, inl, inr, any-append,
}
use prism_control_plane.Store.Schema.{Db, UsageEvent, LedgerRow, UsageAdjustmentRow, CreditGrantRow}
use prism_control_plane.Store.Accounts.{grant_conflicts, grant_credit}
use prism_control_plane.Store.Usage.{event_conflicts, ledger_event, advance_spent, record_usage}
use prism_control_plane.Store.Audit.Spending.{record_usage_of_old, record_usage_of_new}
use prism_control_plane.Store.Audit.Grants.{grant_credit_of_old, grant_credit_of_new}
use prism_control_plane.Store.Audit.TrueUps.{
  append_adjustment, apply_usage_adjustment_of_old, apply_usage_adjustment_of_new,
}
use prism_control_plane.Store.Adjustments.{adjustment_conflicts, move_money, apply_usage_adjustment}

-- Of one client and request: what the unique index of `usage_events` looks at.
abbrev SameRequest : UsageEvent → UsageEvent → Type 0
SameRequest e' e = (e'.client_id ≡ e.client_id) × (e'.request_id ≡ e.request_id)

-- No ledger row has the event's own random id.
abbrev pub HasFreshId : UsageEvent → Db → Type 0
HasFreshId e db = any (λ r. str_eq r.event.id e.id) db.usage_events ≡ false

any-event_conflicts :
    (e e' : UsageEvent) (t : List LedgerRow)
    → SameRequest e' e
    → any (λ r. str_eq r.event.id e.id) t ≡ false
    → any (event_conflicts e) t ≡ true
    → any (event_conflicts e') t ≡ true
any-event_conflicts e e' [] s f h = cc
any-event_conflicts e e' (r ∷ t) s f h = ground (arith, any-event_conflicts e e' t s)

event_conflicts_of_same :
    (e e' : UsageEvent) (now : ℕ)
    → SameRequest e' e
    → event_conflicts e' (record { event = ledger_event e; created_at = now }) ≡ true
event_conflicts_of_same e e' now s = ground (arith, eq_refl e.client_id, eq_refl e.request_id)

-- A second record of a request that has been recorded changes nothing at all, whatever id,
-- amounts and time it carries, if the first one's own random id was fresh.
pub record_usage_repeated :
    (now later : ℕ) (e e' : UsageEvent) (db : Db)
    → HasFreshId e db
    → e'.client_id ≡ e.client_id
    → e'.request_id ≡ e.request_id
    → record_usage later e' (record_usage now e db) ≡ record_usage now e db
record_usage_repeated now later e e' db f c r =
    elim (Bool-cases (any (event_conflicts e) db.usage_events)) [
      | inl old ↦
          rw (record_usage_of_old now e db old) (
            record_usage_of_old later e' db (any-event_conflicts e e' db.usage_events (c, r) f old))
      | inr new ↦ rw (record_usage_of_new now e db new) (
          record_usage_of_old later e' _ (
            unfold advance_spent in
            rw (any-append (event_conflicts e') db.usage_events _)
              (ground (arith, event_conflicts_of_same e e' now (c, r)))))
    ]

any_id_taken :
    (e : UsageEvent) (t : List LedgerRow)
    → any (λ r. str_eq r.event.id e.id) t ≡ true
    → any (event_conflicts e) t ≡ true
any_id_taken e [] h = cc
any_id_taken e (r ∷ t) h = ground (arith, any_id_taken e t)

-- A request whose random id is taken by another one is dropped whole: no ledger row, no charge.
pub record_usage_id_taken :
    (now : ℕ) (e : UsageEvent) (db : Db)
    → any (λ r. str_eq r.event.id e.id) db.usage_events ≡ true
    → record_usage now e db ≡ db
record_usage_id_taken now e db h = record_usage_of_old now e db (any_id_taken e db.usage_events h)

any-grant_conflicts :
    (g g' : CreditGrantRow) (t : List CreditGrantRow)
    → g'.idempotency_key ≡ g.idempotency_key
    → any (λ r. str_eq r.id g.id) t ≡ false
    → any (grant_conflicts g) t ≡ true
    → any (grant_conflicts g') t ≡ true
any-grant_conflicts g g' [] k f h = cc
any-grant_conflicts g g' (r ∷ t) k f h = ground (arith, any-grant_conflicts g g' t k)

any-adjustment_conflicts :
    (x x' : UsageAdjustmentRow) (t : List UsageAdjustmentRow)
    → x'.idempotency_key ≡ x.idempotency_key
    → any (λ r. str_eq r.id x.id) t ≡ false
    → any (adjustment_conflicts x) t ≡ true
    → any (adjustment_conflicts x') t ≡ true
any-adjustment_conflicts x x' [] k f h = cc
any-adjustment_conflicts x x' (r ∷ t) k f h = ground (arith, any-adjustment_conflicts x x' t k)

move_money-adjustments :
    (x : UsageAdjustmentRow) (db : Db) → (move_money x db).usage_adjustments ≡ db.usage_adjustments
unfolding move_money
move_money-adjustments x db = ground arith

-- A second top-up under a key that has been granted changes nothing, if the first one's own
-- random id was fresh.
pub grant_credit_repeated :
    (g g' : CreditGrantRow) (db : Db)
    → any (λ r. str_eq r.id g.id) db.credit_grants ≡ false
    → g'.idempotency_key ≡ g.idempotency_key
    → (grant_credit g' (grant_credit g db).0).0 ≡ (grant_credit g db).0
grant_credit_repeated g g' db f k = elim (Bool-cases (any (grant_conflicts g) db.credit_grants)) [
  | inl old ↦
      rw (grant_credit_of_old g db old)
        (grant_credit_of_old g' db (any-grant_conflicts g g' db.credit_grants k f old))
  | inr new ↦ rw (grant_credit_of_new g db new) (
      grant_credit_of_old g' _ (
        rw (any-append (grant_conflicts g') db.credit_grants (g ∷ []))
          (ground (arith, eq_refl g.idempotency_key))))
]

-- A second true-up under the key of one that went through changes nothing and answers that it
-- was not applied, if the first one's own random id was fresh.
pub apply_usage_adjustment_repeated :
    (x x' : UsageAdjustmentRow) (db : Db)
    → any (λ r. str_eq r.id x.id) db.usage_adjustments ≡ false
    → x'.idempotency_key ≡ x.idempotency_key
    → let db' = (apply_usage_adjustment x db).0 in apply_usage_adjustment x' db' ≡ (db', false)
apply_usage_adjustment_repeated x x' db f k =
    elim (Bool-cases (any (adjustment_conflicts x) db.usage_adjustments)) [
      | inl old ↦ rw (apply_usage_adjustment_of_old x db old) (
          apply_usage_adjustment_of_old x' db
            (any-adjustment_conflicts x x' db.usage_adjustments k f old))
      | inr new ↦ rw (apply_usage_adjustment_of_new x db new) (
          apply_usage_adjustment_of_old x' _ (
            rw (move_money-adjustments x (append_adjustment x db)) (
              rw (any-append (adjustment_conflicts x') db.usage_adjustments (x ∷ []))
                (ground (arith, eq_refl x.idempotency_key)))))
    ]
