-- ===== src/Chat/Spend.antt =====
-- What `handleChatCompletions` of src/routes/chat.ts does once the model has been called: the
-- ledger row on each outcome, and the answer. `fault` is the statement of the ledger write after
-- which it fails, if it does.
use Prim.Native.String
use prism_control_plane.Prelude.{
  ℕ, ◌+◌, ◌-◌, Bool, true, false, ◌||◌, not, String, Option, none, some, pos, if◌then◌else◌, leb,
  List, [], ◌∷◌,
}
use prism_control_plane.Prelude.Decimal.{decimal}
use prism_control_plane.Prelude.Number.{Number, integer}
use prism_control_plane.Prelude.Json.{Json}
use prism_control_plane.Http.{ErrorCode, upstream_timeout, internal}
use prism_control_plane.Http as Http
use prism_control_plane.Catalog.{Api, responses}
use prism_control_plane.Store.Schema.{
  Db, UsageEvent, PriceBasis, measured, estimated_output, unpriced,
}
use prism_control_plane.Store.Usage.{get_period, record_usage, record_usage_upto}
use prism_control_plane.Meter.{
  TokenUsage, Reason, no_usage, input_rate, output_rate, MeterOutcome, metered, EstimateOutcome,
  estimated, meter_response, meter_usage_object, estimate_stream_usage, price_estimated_usage,
}
use prism_control_plane.Balance.{allocate_charge, remaining_micro_usd}
use prism_control_plane.ChatRequest.{prompt_text_bytes}
use prism_control_plane.ChatRequest.Turns.{ChatTurnInput}
use prism_control_plane.Inference.{
  InferenceRequest, Found, text, unreadable, thrown, extract_text, extract_finish_reason,
}
use prism_control_plane.Stream.{StreamSettlement, Termination, complete, cancelled, error}
use prism_control_plane.Chat.Context.{Ctx, MoneyHeaders, Response, refused, completion, streaming}
use prism_control_plane.Chat.Gates.{Admitted, allowance_spent}

-- `InferenceResult`; the stream's bytes are relayed by `Stream`.
pub data InferenceResult : Type 0 where
  ok : Json → Option String → InferenceResult
  stream : Option String → InferenceResult
  upstream_error : Option ℕ → InferenceResult
  timeout : ℕ → InferenceResult

-- `model.api === "responses"`
abbrev is_responses : Option Api → Bool
is_responses (some responses) = true
is_responses _ = false

-- The call of the runner.
abbrev pub request_of : Ctx → Admitted → InferenceRequest ChatTurnInput
request_of ctx a = record {
  upstream_model = a.model.upstream;
  binding_model = if a.model.binding then some a.model.id else none;
  api = if is_responses a.model.api then some responses else none;
  billing = a.model.billing;
  messages = a.request.messages;
  max_tokens = a.max_tokens;
  temperature = a.request.temperature;
  top_p = a.request.top_p;
  stream = a.request.stream;
  image_bytes = a.request.image_bytes;
  token_id = a.auth.token_id;
  token_value = a.auth.value;
  metadata = record {
    account_id = a.account.id;
    client_id = a.client.id;
    plan_id = a.plan.id;
    request_id = ctx.request_id;
    cf_token_id = a.auth.token_id;
  };
}

-- The part of a ledger row that depends on the outcome.
pub record Charge : Type 0 where
  pub input_tokens : Option ℕ
  pub output_tokens : Option ℕ
  pub micro_usd : ℕ
  pub metered : Bool
  pub price_basis : PriceBasis
  pub unmetered_reason : Option String
  pub upstream_status : Option ℕ
  pub gateway_log_id : Option String

abbrev pub charged : PriceBasis → ℕ → TokenUsage → Option String → Charge
charged basis micro_usd usage log_id = record {
  input_tokens = some usage.input_tokens;
  output_tokens = some usage.output_tokens;
  micro_usd = micro_usd;
  metered = true;
  price_basis = basis;
  unmetered_reason = none;
  upstream_status = some 200;
  gateway_log_id = log_id;
}

abbrev pub not_charged : String → Option ℕ → Option String → Charge
not_charged reason status log_id = record {
  input_tokens = none;
  output_tokens = none;
  micro_usd = 0;
  metered = false;
  price_basis = unpriced;
  unmetered_reason = some reason;
  upstream_status = status;
  gateway_log_id = log_id;
}

-- The texts of src/meter.ts.
pub reason_text : (Number → String) → Reason → String
reason_text print no_usage =
    "the upstream response carried no usable token counts (no integer prompt_tokens / completion_tokens), so this request cannot be priced. Recorded as unmetered rather than as a zero-cost request"
reason_text print (input_rate x) =
    String.◌++◌ "input rate "
      (String.◌++◌ (print x) " is not a non-negative integer micro-USD per Mtok")
reason_text print (output_rate x) =
    String.◌++◌ "output rate "
      (String.◌++◌ (print x) " is not a non-negative integer micro-USD per Mtok")

-- `streamUnmeteredReason`
unfoldable pub stream_unmetered_reason : StreamSettlement → Option String → String
stream_unmetered_reason settlement (some reason) =
    String.◌++◌ "streamed usage arrived but could not be priced: " reason
stream_unmetered_reason settlement none = elim settlement.termination [
  | error ↦
      "the stream failed (upstream or transport error) before a usage frame arrived; tokens generated up to that point are billed to us and cannot be priced here"
  | cancelled ↦
      "the client cancelled the stream before a usage frame arrived, and the received bytes could not be priced either; see the rate for this model"
  | complete ↦
      if settlement.saw_frames
      then "the streamed response ended without a usage frame despite stream_options.include_usage being requested"
      else "the streamed response carried no recognizable SSE data frames, so no usage could be read"
]

module _ (ctx : Ctx) (a : Admitted) where
  -- `buildEvent`, with the period as it stands when it is called.
  unfoldable pub build_event : String → Charge → Db → UsageEvent
  unfolding get_period allocate_charge
  build_event id c db =
      let base : UsageEvent = record {
        id = id;
        request_id = ctx.request_id;
        account_id = a.account.id;
        client_id = a.client.id;
        model_id = a.model.id;
        period_key = ctx.period_key;
        input_tokens = c.input_tokens;
        output_tokens = c.output_tokens;
        micro_usd = c.micro_usd;
        from_allowance_micro_usd = 0;
        from_credit_micro_usd = 0;
        metered = c.metered;
        price_basis = c.price_basis;
        unmetered_reason = c.unmetered_reason;
        upstream_status = c.upstream_status;
        gateway_log_id = c.gateway_log_id;
      } in
      if not c.metered || leb c.micro_usd 0
      then base
      else let split =
          allocate_charge (integer (pos c.micro_usd))
            (integer (pos a.plan.monthly_included_micro_usd))
            (integer (pos (allowance_spent (get_period a.account.id ctx.period_key db)))) in
        record base {
          from_allowance_micro_usd = split.from_allowance_micro_usd;
          from_credit_micro_usd = split.from_credit_micro_usd;
        }

  -- `recordQuietly`: whether the write went through.
  unfoldable pub record_quietly : UsageEvent → Option ℕ → Db → Db × Bool
  unfolding record_usage
  record_quietly e none db = (record_usage ctx.now e db, true)
  record_quietly e (some n) db = (record_usage_upto n ctx.now e db, false)

  abbrev pub money_headers : ℕ → ℕ → MoneyHeaders
  money_headers spent_after allowance_remaining = record {
    period = ctx.period_key;
    credit = a.account.credit_micro_usd;
    spent = spent_after;
    credit_remaining =
        remaining_micro_usd
          (record { credit_micro_usd = a.account.credit_micro_usd; spent_micro_usd = spent_after });
    monthly_included = a.plan.monthly_included_micro_usd;
    allowance_remaining = allowance_remaining;
  }

  -- The charge of a buffered answer.
  abbrev pub charge_of : MeterOutcome → Option String → Charge
  charge_of (metered micro_usd usage) log_id = charged measured micro_usd usage log_id
  charge_of (MeterOutcome.unmetered reason) log_id =
      not_charged (reason_text ctx.print_number reason) (some 200) log_id

  -- A stream with a usage object, priced.
  abbrev pub usage_charge : StreamSettlement → Option String → MeterOutcome → Charge
  usage_charge settlement log_id (metered micro_usd usage) = charged measured micro_usd usage log_id
  usage_charge settlement log_id (MeterOutcome.unmetered reason) =
      not_charged (stream_unmetered_reason settlement (some (reason_text ctx.print_number reason)))
        (some 200) log_id

  -- A stream that the client hung up on before a usage object came, priced from the bytes.
  abbrev pub estimate_charge : StreamSettlement → Option String → EstimateOutcome → Charge
  estimate_charge settlement log_id (estimated micro_usd usage) =
      charged estimated_output micro_usd usage log_id
  estimate_charge settlement log_id (EstimateOutcome.unmetered reason) =
      not_charged (stream_unmetered_reason settlement (some (reason_text ctx.print_number reason)))
        (some 200) log_id

  -- The estimate of a stream from the bytes of its prompt and of what was received.
  abbrev pub estimate_of : StreamSettlement → EstimateOutcome
  estimate_of settlement =
      price_estimated_usage
        (estimate_stream_usage (integer (pos (prompt_text_bytes a.request.messages)))
          (integer (pos settlement.output_text_bytes)))
        a.price

  -- The charge of a settled stream, by its usage object and by how it ended.
  abbrev pub charge_by : StreamSettlement → Option String → Option Json → Termination → Charge
  charge_by settlement log_id (some usage) t =
      usage_charge settlement log_id (meter_usage_object usage a.price)
  charge_by settlement log_id none cancelled =
      estimate_charge settlement log_id (estimate_of settlement)
  charge_by settlement log_id none complete =
      not_charged (stream_unmetered_reason settlement none) (some 200) log_id
  charge_by settlement log_id none error =
      not_charged (stream_unmetered_reason settlement none) (some 200) log_id

  unfoldable pub settlement_charge : StreamSettlement → Option String → Charge
  unfolding meter_usage_object meter_response price_estimated_usage estimate_stream_usage
      prompt_text_bytes stream_unmetered_reason reason_text
  settlement_charge settlement log_id =
      charge_by settlement log_id settlement.usage settlement.termination

  -- The callback of `meteredRelay`.
  unfoldable pub settle_stream : StreamSettlement → Option String → String → Option ℕ → Db → Db
  unfolding settlement_charge build_event record_quietly
  settle_stream settlement log_id id fault db =
      (record_quietly (build_event id (settlement_charge settlement log_id) db) fault db).0

  -- The calls of the callback, in their order.
  abbrev pub settle_all : List StreamSettlement → Option String → String → Option ℕ → Db → Db
  settle_all [] log_id id fault db = db
  settle_all (s ∷ rest) log_id id fault db =
      settle_all rest log_id id fault (settle_stream s log_id id fault db)

  -- The answer to a buffered response whose text could be read.
  abbrev pub answer_of : String → MeterOutcome → UsageEvent → Bool → Found → Response
  answer_of content outcome event recorded thrown = refused internal
  answer_of content outcome event recorded reason = completion (record {
    model = a.model.id;
    max_tokens_applied = a.max_tokens;
    usage_micro_usd = elim outcome [
      | metered micro_usd u ↦ micro_usd
      | MeterOutcome.unmetered r ↦ 0
    ];
    metered = elim outcome [ metered micro_usd u ↦ true | MeterOutcome.unmetered r ↦ false ];
    recorded = recorded;
    money =
        money_headers
          (a.account.spent_micro_usd + (if recorded then event.from_credit_micro_usd else 0))
          (a.allowance_before - (if recorded then event.from_allowance_micro_usd else 0));
    content = content;
    finish_reason = elim reason [ text s ↦ some s | _ ↦ none ];
    usage = elim outcome [ metered micro_usd u ↦ some u | MeterOutcome.unmetered r ↦ none ];
  })

  -- A buffered response whose text could be read: meter, record, then answer.
  unfoldable pub answer_text :
      Json → String → Option String → String → Option ℕ → Db → Db × Response
  unfolding meter_response build_event record_quietly extract_finish_reason reason_text
  answer_text body content log_id id fault db =
      let outcome = meter_response body a.price in
      let event = build_event id (charge_of outcome log_id) db in
      let (db', recorded) = record_quietly event fault db in
      (db', answer_of content outcome event recorded (extract_finish_reason body))

  -- The charge of a call that was given up.
  abbrev pub timeout_charge : ℕ → Charge
  timeout_charge waited_ms =
      not_charged
        (String.◌++◌ "upstream did not answer within " (
          String.◌++◌ (decimal waited_ms)
            "ms; tokens may have been generated and billed to us before the abort landed"))
        none none

  -- A buffered response, by what its text reads as.
  unfoldable pub respond_body :
      Json → Option String → String → Option ℕ → Db → Found → Db × Response
  unfolding answer_text
  respond_body body log_id id fault db unreadable = (db, refused Http.upstream_error)
  respond_body body log_id id fault db thrown = (db, refused internal)
  respond_body body log_id id fault db (text content) = answer_text body content log_id id fault db

  -- Everything after the call of the runner, on each outcome.
  unfoldable pub respond : InferenceResult → String → Option ℕ → Db → Db × Response
  unfolding build_event record_quietly respond_body extract_text decimal
  respond (timeout waited_ms) id fault db = (
    (record_quietly (build_event id (timeout_charge waited_ms) db) fault db).0,
    refused upstream_timeout,
  )
  respond (upstream_error status) id fault db = (db, refused Http.upstream_error)
  respond (stream log_id) id fault db =
      (db, streaming a.max_tokens (money_headers a.account.spent_micro_usd a.allowance_before))
  respond (ok body log_id) id fault db =
      respond_body body log_id id fault db (extract_text ctx.to_text body)
