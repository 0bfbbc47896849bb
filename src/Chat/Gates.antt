-- ===== src/Chat/Gates.antt =====
-- The gates of `handleChatCompletions` in src/routes/chat.ts, from the body to the upstream
-- credential, in their order.
use prism_control_plane.Prelude.{
  ℕ, Bool, true, false, ◌||◌, not, Option, none, some, List, pos, if◌then◌else◌, ltb, length,
}
use prism_control_plane.Prelude.Number.{integer}
use prism_control_plane.Prelude.Json.{Json}
use prism_control_plane.Http.{
  ErrorCode, ReadBodyResult, invalid_request, unavailable, rate_limited, model_not_found,
  model_unsupported, model_not_entitled, model_unpriced, quota_exhausted,
}
use prism_control_plane.Http as Http
use prism_control_plane.Store.Schema.{Db, ClientRow, AccountRow, PeriodRow}
use prism_control_plane.Store.Usage.{get_period}
use prism_control_plane.Store.Clients.{touch_client}
use prism_control_plane.Store.Settings.{get_model_price}
use prism_control_plane.Catalog.{CatalogEntry, TokenPrice, Modality, chat, find_model}
use prism_control_plane.Meter.{resolve_price}
use prism_control_plane.Plans.{Plan, PlanResult, plan_from_row, entitles_tier, effective_max_tokens}
use prism_control_plane.Plans as Plans
use prism_control_plane.Balance.{
  BalanceDecision, allow, exhausted, indeterminate, SpendPools, decide_balance,
  remaining_allowance_micro_usd,
}
use prism_control_plane.RateLimit.{check_rate_limit, rate_window_seconds, inference_bucket}
use prism_control_plane.Auth.{Caller, ResolveResult, resolve_client}
use prism_control_plane.Auth as Auth
use prism_control_plane.ChatRequest.{ValidChatRequest, parse_chat_request}
use prism_control_plane.ChatRequest.Turns as Turns
use prism_control_plane.Chat.Context.{Ctx, UpstreamAuth, auth_failure_code}

-- A request that passed every gate, with what the gates read.
pub record Admitted : Type 0 where
  pub request : ValidChatRequest
  pub client : ClientRow
  pub account : AccountRow
  pub plan : Plan
  pub model : CatalogEntry
  pub price : TokenPrice
  pub auth : UpstreamAuth
  pub max_tokens : ℕ
  pub allowance_before : ℕ

-- What a step of the gates gives: a value, or the code of the refusal.
pub data Gate {ℓ} (A : Type ℓ) : Type ℓ where
  pass : A → Gate A
  stop : ErrorCode → Gate A

infixl 5 ◌>>=◌ ◌>>◌
abbrev pub ◌>>=◌ {κ ℓ} : {X : Type κ} {Y : Type ℓ} → Gate X → (X → Gate Y) → Gate Y
stop code >>= next = stop code
pass found >>= next = next found

abbrev pub ◌>>◌ {κ} : {Y : Type κ} → Gate (Unit {0}) → Gate Y → Gate Y
gate >> next = gate >>= λ passed. next

-- Gate 5: the rate limit of the account, before the gates that only read.
unfoldable pub behind_rate : {A : Type 0} → Ctx → Caller → Plan → (Db → Gate A) → Db → Db × Gate A
unfolding check_rate_limit inference_bucket
behind_rate ctx caller plan next db =
    let (db', rate) =
      check_rate_limit (inference_bucket caller.account.id) plan.requests_per_minute
        rate_window_seconds ctx.now db in
    if rate.allowed then (db', next db') else (db', stop rate_limited)

abbrev pub require : Bool → ErrorCode → Gate (Unit {0})
require true code = pass tt
require false code = stop code

abbrev pub expect : {A : Type 0} → Option A → ErrorCode → Gate A
expect (some a) code = pass a
expect none code = stop code

abbrev pub is_chat : Modality → Bool
is_chat chat = true
is_chat _ = false

-- `req.imageBytes?.byteLength`
abbrev pub has_image : Option (List ℕ) → Bool
has_image none = false
has_image (some b) = ltb 0 (length b)

-- `period?.allowance_spent_micro_usd ?? 0`
abbrev pub allowance_spent : Option PeriodRow → ℕ
allowance_spent none = 0
allowance_spent (some r) = r.allowance_spent_micro_usd

abbrev pub pools : AccountRow → Plan → Option PeriodRow → SpendPools
pools account plan period = record {
  credit_micro_usd = integer (pos account.credit_micro_usd);
  spent_micro_usd = integer (pos account.spent_micro_usd);
  monthly_included_micro_usd = integer (pos plan.monthly_included_micro_usd);
  allowance_spent_micro_usd = integer (pos (allowance_spent period));
}

-- The answer to a balance.
abbrev pub open_balance : BalanceDecision → Gate (Unit {0})
open_balance (allow total allowance credit) = pass tt
open_balance (exhausted credit spent allowance) = stop quota_exhausted
open_balance (indeterminate column found) = stop unavailable

abbrev pub max_tokens_of : ValidChatRequest → Plan → CatalogEntry → ℕ
max_tokens_of req plan model =
    effective_max_tokens (elim req.max_tokens [ none ↦ none | some n ↦ some (integer (pos n)) ])
      plan.max_output_tokens model.max_output_tokens

module _ (ctx : Ctx) where
  -- Gates 6 to 10: model and tier, price, wiring, balance, credential. They read only.
  unfoldable pub admit_model : ValidChatRequest → Caller → Plan → Db → Gate Admitted
  unfolding get_period get_model_price find_model resolve_price entitles_tier decide_balance
  admit_model req caller plan db = do
    model ← expect (find_model ctx.catalog req.model) model_not_found
    require (is_chat model.modality) model_unsupported
    require (entitles_tier plan model.tier) model_not_entitled
    require (not req.stream || model.streaming) invalid_request
    require (not (has_image req.image_bytes)) invalid_request
    price ← expect (resolve_price model (get_model_price model.id db)) model_unpriced
    require ctx.has_runner unavailable
    for_account ← expect ctx.credentials unavailable
    open_balance (
        decide_balance (pools caller.account plan (get_period caller.account.id ctx.period_key db)))
    auth ← expect (for_account caller.account.id) unavailable
    pass (record {
      request = req;
      client = caller.client;
      account = caller.account;
      plan = plan;
      model = model;
      price = price;
      auth = auth;
      max_tokens = max_tokens_of req plan model;
      allowance_before =
          remaining_allowance_micro_usd (integer (pos plan.monthly_included_micro_usd))
            (integer (pos (allowance_spent (get_period caller.account.id ctx.period_key db))));
    })

  unfoldable pub admit_rate : ValidChatRequest → Caller → Plan → Db → Db × Gate Admitted
  unfolding admit_model behind_rate
  admit_rate req caller plan db = behind_rate ctx caller plan (admit_model req caller plan) db

  -- Gate 4: the plan.
  unfoldable pub admit_plan : ValidChatRequest → Caller → PlanResult → Db → Db × Gate Admitted
  unfolding admit_rate
  admit_plan req caller (Plans.refused problem) db = (db, stop unavailable)
  admit_plan req caller (Plans.ok plan) db = admit_rate req caller plan db

  -- Gate 3: the caller, whose last-seen stamp is written on the side.
  unfoldable pub admit_caller : ValidChatRequest → ResolveResult → Db → Db × Gate Admitted
  unfolding admit_plan touch_client plan_from_row
  admit_caller req (Auth.failed failure) db = (db, stop (auth_failure_code failure))
  admit_caller req (Auth.ok caller) db =
      admit_plan req caller (plan_from_row caller.plan) (touch_client ctx.now caller.client.id db)

  -- Gate 2: the shape of the body.
  unfoldable pub admit_request :
      Option (List ℕ) → Turns.Checked ValidChatRequest → Db → Db × Gate Admitted
  unfolding admit_caller resolve_client
  admit_request header (Turns.bad problem) db = (db, stop invalid_request)
  admit_request header (Turns.ok req) db =
      admit_caller req (resolve_client ctx.sha256_hex header db) db

  -- All the gates, from the body.
  unfoldable pub admit : Option (List ℕ) → ReadBodyResult Json → Db → Db × Gate Admitted
  unfolding admit_request parse_chat_request
  admit header (Http.refused code) db = (db, stop code)
  admit header (Http.ok value) db = admit_request header (parse_chat_request ctx.atob value) db
