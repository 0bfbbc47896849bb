-- ===== src/Chat/Books.antt =====
-- What src/routes/chat.ts does to the books: the audit of Store over a whole request.
use prism_control_plane.Prelude.{ℕ, ◌+◌, ◌≡◌, ◌≤◌, ap, String, Option, none, some, List, [], ◌∷◌}
use prism_control_plane.Prelude.Json.{Json}
use prism_control_plane.Http.{ReadBodyResult}
use prism_control_plane.Store.Schema.{Db, UsageEvent}
use prism_control_plane.Store.Audit.{Audit}
use prism_control_plane.Store.Audit.Crashes.{NeverAbove, record_usage_upto-NeverAbove}
use prism_control_plane.Store.Audit.Spending.{record_usage-Audit}
use prism_control_plane.Meter.{meter_response}
use prism_control_plane.ChatRequest.Turns.{ChatTurnInput}
use prism_control_plane.Inference.{InferenceRequest, Found, text, unreadable, thrown, extract_text}
use prism_control_plane.Stream.{StreamSettlement, Event, start_relay, relay_run}
use prism_control_plane.Stream.Scanner.{Platform}
use prism_control_plane.Chat.{relayed, answer, handle_chat_completions}
use prism_control_plane.Chat.Context.{Ctx, Response}
use prism_control_plane.Chat.Gates.{Admitted, Gate, pass, stop, admit}
use prism_control_plane.Chat.Touches.{OnlyTouches, admit-OnlyTouches}
use prism_control_plane.Chat.Spend.{
  InferenceResult, ok, stream, upstream_error, timeout, request_of, respond, respond_body,
  answer_text, charge_of, timeout_charge, record_quietly, build_event, settle_stream, settle_all,
  settlement_charge,
}

-- The audit looks at no client and no bucket.
pub Audit-OnlyTouches :
    (R : ℕ → ℕ → Type 0) (db db' : Db) → OnlyTouches db db' → Audit R db → Audit R db'
Audit-OnlyTouches R db db' h v = rw h (record {
  credit = v.credit;
  spent = v.spent;
  micro = v.micro;
  requests = v.requests;
  unmetered = v.unmetered;
  allowance = v.allowance;
  adjusted_spend = v.adjusted_spend;
  adjusted_credit = v.adjusted_credit;
})

-- A property of the database that every write of a ledger row keeps is kept by the whole answer.
module _ (ctx : Ctx) (a : Admitted) (fault : Option ℕ) (Q : Db → Type 0)
    (keep : (e : UsageEvent) (db : Db) → Q db → Q (record_quietly ctx a e fault db).0) where
  respond_body-keeps :
      (body : Json) (l : Option String) (id : String) (db : Db) (f : Found)
      → Q db
      → Q (respond_body ctx a body l id fault db f).0
  unfolding respond_body answer_text
  respond_body-keeps body l id db (text content) v =
      keep (build_event ctx a id (charge_of ctx a (meter_response body a.price) l) db) db v
  respond_body-keeps body l id db unreadable v = v
  respond_body-keeps body l id db thrown v = v

  respond-keeps :
      (r : InferenceResult) (id : String) (db : Db) → Q db → Q (respond ctx a r id fault db).0
  unfolding respond
  respond-keeps (ok body l) id db v =
      respond_body-keeps body l id db (extract_text ctx.to_text body) v
  respond-keeps (stream l) id db v = v
  respond-keeps (upstream_error s) id db v = v
  respond-keeps (timeout w) id db v = keep (build_event ctx a id (timeout_charge ctx a w) db) db v

  settle_all-keeps :
      (ss : List StreamSettlement) (l : Option String) (id : String) (db : Db)
      → Q db
      → Q (settle_all ctx a ss l id fault db)
  unfolding settle_stream
  settle_all-keeps [] l id db v = v
  settle_all-keeps (s ∷ rest) l id db v =
      settle_all-keeps rest l id _
        (keep (build_event ctx a id (settlement_charge ctx a s l) db) db v)

  relayed-keeps :
      (p : Platform) (events : List Event) (run : InferenceRequest ChatTurnInput → InferenceResult)
      (r : InferenceResult) (id : String) (x : Db × Response)
      → Q x.0
      → Q (relayed ctx run p events id fault a r x).0
  relayed-keeps p events run (stream l) id (db, response) v =
      settle_all-keeps (relay_run p events (start_relay p)).settlements l id db v
  relayed-keeps p events run (ok body l) id x v = v
  relayed-keeps p events run (upstream_error s) id x v = v
  relayed-keeps p events run (timeout w) id x v = v

module _ (ctx : Ctx) (run : InferenceRequest ChatTurnInput → InferenceResult) (p : Platform)
    (events : List Event) (header : Option (List ℕ)) (body : ReadBodyResult Json) (id : String)
    (fault : Option ℕ) (R : ℕ → ℕ → Type 0)
    (keep : (a : Admitted) (e : UsageEvent) (db : Db)
      → Audit R db
      → Audit R (record_quietly ctx a e fault db).0) where
  answer-Audit :
      (d : Gate Admitted) (db : Db) → Audit R db → Audit R (answer ctx run p events id fault d db).0
  unfolding answer
  answer-Audit (stop code) db v = v
  answer-Audit (pass a) db v =
      let r = run (request_of ctx a) in
      relayed-keeps ctx a fault (Audit R) (keep a) p events run r id (respond ctx a r id fault db)
        (respond-keeps ctx a fault (Audit R) (keep a) r id db v)

  handle-Audit :
      (db : Db)
      → Audit R db
      → Audit R (handle_chat_completions ctx run p events id fault header body db).0
  unfolding handle_chat_completions
  handle-Audit db v =
      answer-Audit (admit ctx header body db).1 (admit ctx header body db).0 (
        Audit-OnlyTouches R db (admit ctx header body db).0 (admit-OnlyTouches ctx header body db)
          v)

-- A whole request, whatever the runner answers and whichever branch is taken, and up to the end of
-- its stream where it is answered with one, whatever then happens to that stream, keeps every counter
-- of the database equal to its audit trail, if the ledger write goes through.
pub handle_chat_completions-Audit :
    (ctx : Ctx) (run : InferenceRequest ChatTurnInput → InferenceResult) (p : Platform)
    (events : List Event) (header : Option (List ℕ)) (body : ReadBodyResult Json) (id : String)
    (db : Db)
    → Audit ◌≡◌ db
    → Audit ◌≡◌ (handle_chat_completions ctx run p events id none header body db).0
unfolding record_quietly
handle_chat_completions-Audit ctx run p events header body id db v =
    handle-Audit ctx run p events header body id none ◌≡◌
      (λ a e db w. record_usage-Audit ◌≡◌ (λ x y c h. ap (λ n. n + c) h) ctx.now e db w) db v

-- Where the ledger write of a request is cut off after any of its statements, no counter of the
-- database is above its audit trail, if none was before.
pub handle_chat_completions-NeverAbove :
    (ctx : Ctx) (run : InferenceRequest ChatTurnInput → InferenceResult) (p : Platform)
    (events : List Event) (header : Option (List ℕ)) (body : ReadBodyResult Json) (id : String)
    (n : ℕ) (db : Db)
    → NeverAbove db
    → NeverAbove (handle_chat_completions ctx run p events id (some n) header body db).0
unfolding record_quietly
handle_chat_completions-NeverAbove ctx run p events header body id n db v =
    handle-Audit ctx run p events header body id (some n) ◌≤◌
      (λ a e db w. record_usage_upto-NeverAbove n ctx.now e db w) db v
