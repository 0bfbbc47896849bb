-- ===== src/Chat/Settled.antt =====
-- The ends of a request of src/routes/chat.ts: a stream's one ledger row, what a refusal costs, and
-- what the answer says of the account.
use prism_control_plane.Prelude.{
  ℕ, suc, zero, ◌+◌, ◌≡◌, ◌≢◌, refl, ap, sym, ◌∙◌, Bool, true, false, ◌&&◌, String, Option, none,
  some, List, ◌∷◌, ◌++◌, any, str_eq, ltb, arith, Bool-cases, inl, inr, if◌then◌else◌,
}
use prism_control_plane.Prelude.Json.{Json}
use prism_control_plane.Http.{ErrorCode, internal}
use prism_control_plane.Store.Schema.{Db, UsageEvent, AccountRow}
use prism_control_plane.Store.Sql.{first_where-update_where, first_where-holds}
use prism_control_plane.Store.Accounts.{get_account, add_spent}
use prism_control_plane.Store.Usage.{
  event_conflicts, record_usage, record_usage_upto, insert_event, advance_spent,
}
use prism_control_plane.Store.Audit.{period_at}
use prism_control_plane.Store.Audit.Periods.{period_at-advance_period}
use prism_control_plane.Store.Audit.Spending.{recorded, record_usage_of_new}
use prism_control_plane.Meter.{MeterOutcome, meter_response}
use prism_control_plane.Inference.{
  Found, text, unreadable, thrown, extract_text, extract_finish_reason,
}
use prism_control_plane.Stream.{Event, start_relay, settlement_of, relay_run}
use prism_control_plane.Stream.Scanner.{Platform}
use prism_control_plane.Stream.Chunks.{scan}
use prism_control_plane.Stream.Relay.{IsEnd, ends_as, chunks_of, relay_run-chunks}
use prism_control_plane.Chat.Context.{Ctx, Completion, refused, completion}
use prism_control_plane.Chat.Gates.{Admitted}
use prism_control_plane.Chat.Charges.{build_event_splits}
use prism_control_plane.Chat.Spend.{
  InferenceResult, ok, stream, upstream_error, timeout, respond, respond_body, answer_text,
  answer_of, record_quietly, build_event, settle_stream, settle_all, settlement_charge, charge_of,
  timeout_charge, Charge,
}

-- The row of a stream whose chunks were `cs` and which ended with `e`.
abbrev pub row_of :
    Ctx → Admitted → Platform → List (List ℕ) → Event → Option String → String → Db → UsageEvent
row_of ctx a p cs e l id db =
    build_event ctx a id (settlement_charge ctx a (settlement_of p (scan p cs) (ends_as e)) l) db

-- Every stream that ends is recorded, and once: whatever its chunks were, however it ended and
-- whatever happens after that, one row is written, which charges what a scan of those chunks gives,
-- if its write goes through and no row has its id or its request.
pub stream-recorded :
    (ctx : Ctx) (a : Admitted) (p : Platform) (cs : List (List ℕ)) (e : Event) (rest : List Event)
    (l : Option String) (id : String) (db : Db)
    → IsEnd e
    → any (event_conflicts (row_of ctx a p cs e l id db)) db.usage_events ≡ false
    → settle_all ctx a
        (relay_run p (chunks_of cs ++ e ∷ rest) (start_relay p)).settlements
        l
        id
        none
        db
      ≡ recorded ctx.now (row_of ctx a p cs e l id db) db
unfolding settle_stream record_quietly
stream-recorded ctx a p cs e rest l id db i fresh =
    rw (relay_run-chunks p cs e rest i).0
      (record_usage_of_new ctx.now (row_of ctx a p cs e l id db) db fresh)

pub unmetered-accounts :
    (n now : ℕ) (e : UsageEvent) (db : Db)
    → e.metered ≡ false
    → (record_usage_upto n now e db).accounts ≡ db.accounts
unfolding record_usage_upto insert_event advance_spent
unmetered-accounts zero now e db h = refl
unmetered-accounts (suc zero) now e db h = ground arith
unmetered-accounts (suc (suc zero)) now e db h = ground arith
unmetered-accounts (suc (suc (suc n))) now e db h = ground arith

unmetered-periods :
    (n now : ℕ) (e : UsageEvent) (db : Db) (a k : String)
    → e.metered ≡ false
    → let before = period_at a k db.usage_periods in
      let after = period_at a k (record_usage_upto n now e db).usage_periods in
      (after.micro_usd ≡ before.micro_usd)
      × (after.allowance_spent_micro_usd ≡ before.allowance_spent_micro_usd)
unfolding record_usage_upto insert_event advance_spent
unmetered-periods zero now e db a k h = (refl, refl)
unmetered-periods (suc zero) now e db a k h = ground arith
unmetered-periods (suc (suc zero)) now e db a k h =
    ground (arith, period_at-advance_period e a k db.usage_periods)
unmetered-periods (suc (suc (suc n))) now e db a k h =
    ground (arith, period_at-advance_period e a k db.usage_periods)

-- No account is charged, and neither is the monthly allowance of one: in every rollup row the money is
-- as it was.
abbrev pub IsFree : Db → Db → Type 0
IsFree db db' =
    (db'.accounts ≡ db.accounts)
    × ((account_id key : String)
        → let before = period_at account_id key db.usage_periods in
          let after = period_at account_id key db'.usage_periods in
          (after.micro_usd ≡ before.micro_usd)
          × (after.allowance_spent_micro_usd ≡ before.allowance_spent_micro_usd))

pub unchanged-IsFree : (db : Db) → IsFree db db
unchanged-IsFree db = (refl, λ account_id key. (refl, refl))

pub unmetered-IsFree :
    (n now : ℕ) (e : UsageEvent) (db : Db)
    → e.metered ≡ false
    → IsFree db (record_usage_upto n now e db)
unmetered-IsFree n now e db h =
    (unmetered-accounts n now e db h, λ a k. unmetered-periods n now e db a k h)

module _ (ctx : Ctx) (a : Admitted) where
  quietly-IsFree :
      (e : UsageEvent) (fault : Option ℕ) (db : Db)
      → e.metered ≡ false
      → IsFree db (record_quietly ctx a e fault db).0
  unfolding record_quietly record_usage
  quietly-IsFree e none db h = unmetered-IsFree 3 ctx.now e db h
  quietly-IsFree e (some n) db h = unmetered-IsFree n ctx.now e db h

  -- The row of a buffered answer.
  abbrev pub event_of : Json → Option String → String → Db → UsageEvent
  event_of body l id db = build_event ctx a id (charge_of ctx a (meter_response body a.price) l) db

  answer_of-refused :
      (content : String) (body : Json) (event : UsageEvent) (b : Bool) (f : Found)
      (code : ErrorCode)
      → answer_of ctx a content (meter_response body a.price) event b f ≡ refused code
      → code ≡ internal
  answer_of-refused content body event b thrown code h = ground arith
  answer_of-refused content body event b unreadable code h = absurd (cc)
  answer_of-refused content body event b (text s) code h = absurd (cc)

  body_refused :
      (body : Json) (l : Option String) (id : String) (fault : Option ℕ) (db : Db) (f : Found)
      (code : ErrorCode)
      → (respond_body ctx a body l id fault db f).1 ≡ refused code
      → code ≢ internal
      → IsFree db (respond_body ctx a body l id fault db f).0
  unfolding respond_body answer_text
  body_refused body l id fault db unreadable code h n = unchanged-IsFree db
  body_refused body l id fault db thrown code h n = unchanged-IsFree db
  body_refused body l id fault db (text content) code h n = absurd (
      n (
        answer_of-refused content body (event_of body l id db)
          (record_quietly ctx a (event_of body l id db) fault db).1 (extract_finish_reason body)
          code h))

-- A request that the model was called for and that is refused with any code but `internal`, by a
-- timeout, a failure upstream or an answer with no text, costs nobody anything, also where its ledger
-- write is cut off: every account is as it was, and so are the money and the spent allowance of every
-- account in every period.
pub respond_refused :
    (ctx : Ctx) (a : Admitted) (r : InferenceResult) (id : String) (fault : Option ℕ) (db : Db)
    (code : ErrorCode)
    → (respond ctx a r id fault db).1 ≡ refused code
    → code ≢ internal
    → IsFree db (respond ctx a r id fault db).0
unfolding respond
respond_refused ctx a (ok body l) id fault db code h n =
    body_refused ctx a body l id fault db (extract_text ctx.to_text body) code h n
respond_refused ctx a (stream l) id fault db code h n = unchanged-IsFree db
respond_refused ctx a (upstream_error s) id fault db code h n = unchanged-IsFree db
respond_refused ctx a (timeout w) id fault db code h n =
    quietly-IsFree ctx a (build_event ctx a id (timeout_charge ctx a w) db) fault db
      (unfold build_event in refl)

-- What the account of the caller has spent, in a database.
abbrev pub spent_of : Option AccountRow → Option ℕ
spent_of none = none
spent_of (some r) = some r.spent_micro_usd

pub recorded-spent_of :
    (now : ℕ) (e : UsageEvent) (db : Db) (r : AccountRow)
    → get_account e.account_id db ≡ some r
    → spent_of (get_account e.account_id (recorded now e db))
      ≡ some (r.spent_micro_usd + (if e.metered then e.from_credit_micro_usd else 0))
unfolding get_account advance_spent add_spent
recorded-spent_of now e db r h =
    let found =
      first_where-update_where (λ (x : AccountRow). str_eq x.id e.account_id)
        (λ x. str_eq x.id e.account_id)
        (λ x. record x { spent_micro_usd = x.spent_micro_usd + e.from_credit_micro_usd })
        db.accounts (λ x. refl) in
    let self = first_where-holds (λ (x : AccountRow). str_eq x.id e.account_id) db.accounts r h in
    elim (Bool-cases (e.metered && ltb 0 e.from_credit_micro_usd)) [
      | inl c ↦ rw c (rw found (rw h (rw self (ground arith))))
      | inr c ↦ rw c (rw h (ground arith))
    ]

recorded-spent_at :
    (now : ℕ) (e : UsageEvent) (id : String) (db : Db) (r : AccountRow)
    → e.account_id ≡ id
    → get_account id db ≡ some r
    → spent_of (get_account id (recorded now e db))
      ≡ some (r.spent_micro_usd + (if e.metered then e.from_credit_micro_usd else 0))
recorded-spent_at now e id db r mine h = rw (← mine) (recorded-spent_of now e db r (rw mine h))

event-account_id :
    (ctx : Ctx) (a : Admitted) (id : String) (c : Charge) (db : Db)
    → (build_event ctx a id c db).account_id ≡ a.account.id
unfolding build_event
event-account_id ctx a id c db = ground arith

answer_of-spent :
    (ctx : Ctx) (a : Admitted) (content : String) (o : MeterOutcome) (e : UsageEvent) (f : Found)
    (c : Completion)
    → answer_of ctx a content o e true f ≡ completion c
    → c.money.spent ≡ a.account.spent_micro_usd + e.from_credit_micro_usd
answer_of-spent ctx a content o e thrown c h = absurd (cc)
answer_of-spent ctx a content o e unreadable c h = ground arith
answer_of-spent ctx a content o e (text s) c h = ground arith

-- A metered row takes from credit what it says, and one that is not metered takes nothing.
event-from_credit :
    (ctx : Ctx) (a : Admitted) (id : String) (c : Charge) (db : Db)
    → let e = build_event ctx a id c db in
      (if e.metered then e.from_credit_micro_usd else 0) ≡ e.from_credit_micro_usd
event-from_credit ctx a id c db =
    let (_, same, sum, _, _) = build_event_splits ctx a id c db in
    elim (Bool-cases c.metered) [ inl m ↦ ground arith | inr m ↦ ground arith ]

module _ (ctx : Ctx) (a : Admitted) (body : Json) (l : Option String) (id : String) (db : Db)
    (c : Completion) (here : get_account a.account.id db ≡ some a.account)
    (fresh : any (event_conflicts (event_of ctx a body l id db)) db.usage_events ≡ false) where
  text_spent :
      (content : String) (f : Found)
      → answer_of ctx a content (meter_response body a.price) (event_of ctx a body l id db) true f
        ≡ completion c
      → spent_of (get_account a.account.id (recorded ctx.now (event_of ctx a body l id db) db))
        ≡ some c.money.spent
  text_spent content f h =
      let e = event_of ctx a body l id db in
      let mine : e.account_id ≡ a.account.id = event-account_id ctx a id _ db in
      let said = answer_of-spent ctx a content (meter_response body a.price) e f c h in
      recorded-spent_at ctx.now e a.account.id db a.account mine here
      ∙ ap some
          (ap (λ n. a.account.spent_micro_usd + n) (event-from_credit ctx a id _ db) ∙ sym said)

  body_spent :
      (f : Found)
      → (respond_body ctx a body l id none db f).1 ≡ completion c
      → spent_of (get_account a.account.id (respond_body ctx a body l id none db f).0)
        ≡ some c.money.spent
  unfolding respond_body answer_text record_quietly
  body_spent unreadable h = absurd (cc)
  body_spent thrown h = absurd (cc)
  body_spent (text content) h =
      rw (record_usage_of_new ctx.now (event_of ctx a body l id db) db fresh)
        (text_spent content (extract_finish_reason body) h)

-- What a buffered answer tells the client of its spend is what the account has spent in the database
-- after it, if the account stands there as it was read, the row is new and its ledger write is not
-- cut off.
pub respond-spent :
    (ctx : Ctx) (a : Admitted) (body : Json) (l : Option String) (id : String) (db : Db)
    (c : Completion)
    → get_account a.account.id db ≡ some a.account
    → any (event_conflicts (event_of ctx a body l id db)) db.usage_events ≡ false
    → (respond ctx a (ok body l) id none db).1 ≡ completion c
    → spent_of (get_account a.account.id (respond ctx a (ok body l) id none db).0)
      ≡ some c.money.spent
unfolding respond
respond-spent ctx a body l id db c here fresh h =
    body_spent ctx a body l id db c here fresh (extract_text ctx.to_text body) h
