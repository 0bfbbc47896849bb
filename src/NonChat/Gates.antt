-- ===== src/NonChat/Gates.antt =====
-- `gateNonChat` of src/routes/nonchat.ts: the gates of the image, speech, transcription, video and
-- music doors, from the body to the upstream credential, in their order.
use prism_control_plane.Prelude.{
  ℕ, ◌+◌, Bool, true, false, ◌||◌, String, Option, none, some, List, pos, if◌then◌else◌, leb,
}
use prism_control_plane.Prelude.Number.{integer}
use prism_control_plane.Prelude.Strings.{trim_text, is_empty}
use prism_control_plane.Prelude.Json.{Json, str, member}
use prism_control_plane.Http.{
  ReadBodyResult, invalid_request, unavailable, rate_limited, model_not_found, model_unsupported,
  model_not_entitled, model_unpriced, quota_exhausted,
}
use prism_control_plane.Http as Http
use prism_control_plane.Store.Schema.{Db, ClientRow, AccountRow, PeriodRow, PlanRow}
use prism_control_plane.Store.Usage.{get_period}
use prism_control_plane.Store.Accounts.{get_plan}
use prism_control_plane.Store.Clients.{touch_client}
use prism_control_plane.Store.Settings.{get_model_price}
use prism_control_plane.Catalog.{
  CatalogEntry, UnitPrice, Modality, chat, image, tts, stt, voice, music, video, find_model,
  has_door,
}
use prism_control_plane.Meter.{resolve_unit_price}
use prism_control_plane.Plans.{Plan, PlanResult, plan_from_row, entitles_tier}
use prism_control_plane.Plans as Plans
use prism_control_plane.Balance.{decide_balance, remaining_allowance_micro_usd, remaining_micro_usd}
use prism_control_plane.Auth.{Caller, ResolveResult, resolve_client}
use prism_control_plane.Auth as Auth
use prism_control_plane.Chat.Context.{Ctx, UpstreamAuth, auth_failure_code}
use prism_control_plane.Chat.Gates.{
  Gate, pass, stop, behind_rate, ◌>>=◌, ◌>>◌, require, expect, allowance_spent, pools, open_balance,
}

-- `NonChatGateOk`, with the body that the doors read again.
pub record Passed : Type 0 where
  pub client : ClientRow
  pub account : AccountRow
  pub plan : Plan
  pub model : CatalogEntry
  pub unit_price : UnitPrice
  pub auth : UpstreamAuth
  pub body : Json

-- `requireString`
abbrev pub trimmed_text : Option Json → Option String
trimmed_text (some (str s)) = let t = trim_text s in if is_empty t then none else some t
trimmed_text _ = none

unfoldable pub require_string : String → Json → Option String
unfolding trim_text
require_string key raw = trimmed_text (member key raw)

-- `model.modality === modality`
abbrev pub modality_eq : Modality → Modality → Bool
modality_eq chat chat = true
modality_eq image image = true
modality_eq tts tts = true
modality_eq stt stt = true
modality_eq voice voice = true
modality_eq music music = true
modality_eq video video = true
modality_eq _ _ = false

-- What is left of the two pools, and whether one unit fits into it.
abbrev pub left_in_pools : AccountRow → Plan → Option PeriodRow → ℕ
left_in_pools account plan period =
    remaining_allowance_micro_usd (integer (pos plan.monthly_included_micro_usd))
      (integer (pos (allowance_spent period)))
    + remaining_micro_usd (record {
      credit_micro_usd = account.credit_micro_usd;
      spent_micro_usd = account.spent_micro_usd;
    })

abbrev pub affords : UnitPrice → ℕ → Bool
affords price remaining = leb price.micro_usd_per_unit 0 || leb price.micro_usd_per_unit remaining

-- `has_runner` is whether `ctx.nonChatRunner` is there.
module _ (ctx : Ctx) (has_runner : Bool) (modality : Modality) where
  -- The gates behind the rate limit. They read only.
  unfoldable pub gate_model : Json → Caller → Plan → Db → Gate Passed
  unfolding require_string get_period get_model_price find_model resolve_unit_price entitles_tier
      decide_balance
  gate_model body caller plan db = do
    model_id ← expect (require_string "model" body) invalid_request
    model ← expect (find_model ctx.catalog model_id) model_not_found
    require (modality_eq model.modality modality) invalid_request
    require (has_door model.modality) model_unsupported
    require (entitles_tier plan model.tier) model_not_entitled
    price ← expect (resolve_unit_price model (get_model_price model.id db)) model_unpriced
    require has_runner unavailable
    for_account ← expect ctx.credentials unavailable
    open_balance (
        decide_balance (pools caller.account plan (get_period caller.account.id ctx.period_key db)))
    require
        (affords price
          (left_in_pools caller.account plan (get_period caller.account.id ctx.period_key db)))
        quota_exhausted
    auth ← expect (for_account caller.account.id) unavailable
    pass (record {
      client = caller.client;
      account = caller.account;
      plan = plan;
      model = model;
      unit_price = price;
      auth = auth;
      body = body;
    })

  unfoldable pub gate_rate : Json → Caller → Plan → Db → Db × Gate Passed
  unfolding gate_model behind_rate
  gate_rate body caller plan db = behind_rate ctx caller plan (gate_model body caller plan) db

  abbrev pub gate_usable : Json → Caller → PlanResult → Db → Db × Gate Passed
  gate_usable body caller (Plans.refused problem) db = (db, stop unavailable)
  gate_usable body caller (Plans.ok plan) db = gate_rate body caller plan db

  abbrev pub gate_row : Json → Caller → Option PlanRow → Db → Db × Gate Passed
  gate_row body caller none db = (db, stop unavailable)
  gate_row body caller (some row) db = gate_usable body caller (plan_from_row row) db

  -- The plan is read again, behind the caller's stamp.
  unfoldable pub gate_plan : Json → Caller → Db → Db × Gate Passed
  unfolding gate_rate plan_from_row get_plan
  gate_plan body caller db = gate_row body caller (get_plan caller.account.plan_id db) db

  unfoldable pub gate_caller : Json → ResolveResult → Db → Db × Gate Passed
  unfolding gate_plan touch_client
  gate_caller body (Auth.failed failure) db = (db, stop (auth_failure_code failure))
  gate_caller body (Auth.ok caller) db =
      gate_plan body caller (touch_client ctx.now caller.client.id db)

  -- `gateNonChat`
  unfoldable pub gate_non_chat : Option (List ℕ) → ReadBodyResult Json → Db → Db × Gate Passed
  unfolding gate_caller resolve_client
  gate_non_chat header (Http.refused code) db = (db, stop code)
  gate_non_chat header (Http.ok body) db =
      gate_caller body (resolve_client ctx.sha256_hex header db) db
