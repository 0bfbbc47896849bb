-- ===== src/Chat/Touches.antt =====
-- What the gates of src/routes/chat.ts write.
use prism_control_plane.Prelude.{ℕ, ◌≡◌, refl, String, Option, List, arith, Bool-cases, inl, inr}
use prism_control_plane.Prelude.Json.{Json}
use prism_control_plane.Http.{ErrorCode, ReadBodyResult}
use prism_control_plane.Http as Http
use prism_control_plane.Store.Schema.{Db}
use prism_control_plane.Store.Clients.{touch_client}
use prism_control_plane.Plans.{Plan, PlanResult, plan_from_row, entitles_tier}
use prism_control_plane.Plans as Plans
use prism_control_plane.RateLimit.{check_rate_limit, rate_window_seconds, inference_bucket}
use prism_control_plane.Store.Buckets.{claim_rate_bucket}
use prism_control_plane.Auth.{Caller, ResolveResult, resolve_client}
use prism_control_plane.Auth as Auth
use prism_control_plane.ChatRequest.{ValidChatRequest, parse_chat_request}
use prism_control_plane.ChatRequest.Turns as Turns
use prism_control_plane.Chat.Context.{Ctx}
use prism_control_plane.Chat.Gates.{
  behind_rate, Gate, admit_model, admit_rate, admit_plan, admit_caller, admit_request, admit,
}

-- What the gates write: nothing but clients and rate buckets.
abbrev pub OnlyTouches : Db → Db → Type 0
OnlyTouches db db' = db' ≡ record db { clients = db'.clients; rate_buckets = db'.rate_buckets }

pub touch_client-OnlyTouches :
    (now : ℕ) (id : String) (db : Db) → OnlyTouches db (touch_client now id db)
unfolding touch_client
touch_client-OnlyTouches now id db = refl

check_rate_limit-OnlyTouches :
    (key : String) (limit window now : ℕ) (db db' : Db)
    → OnlyTouches db db'
    → OnlyTouches db (check_rate_limit key limit window now db').0
unfolding check_rate_limit claim_rate_bucket
check_rate_limit-OnlyTouches key limit window now db db' h = ground arith

pub behind_rate-OnlyTouches :
    {A : Type 0} (ctx : Ctx) (caller : Caller) (plan : Plan) (next : Db → Gate A) (db db' : Db)
    → OnlyTouches db db'
    → OnlyTouches db (behind_rate ctx caller plan next db').0
unfolding behind_rate
behind_rate-OnlyTouches ctx caller plan next db db' h =
    let bucket = inference_bucket caller.account.id in
    let limit = check_rate_limit bucket plan.requests_per_minute rate_window_seconds ctx.now db' in
    let kept =
      check_rate_limit-OnlyTouches bucket plan.requests_per_minute rate_window_seconds ctx.now db
        db' h in
    elim (Bool-cases limit.1.allowed) [ inl e ↦ rw e kept | inr e ↦ rw e kept ]

admit_plan-OnlyTouches :
    (ctx : Ctx) (req : ValidChatRequest) (caller : Caller) (r : PlanResult) (db db' : Db)
    → OnlyTouches db db'
    → OnlyTouches db (admit_plan ctx req caller r db').0
unfolding admit_plan admit_rate
admit_plan-OnlyTouches ctx req caller (Plans.refused f) db db' h = h
admit_plan-OnlyTouches ctx req caller (Plans.ok plan) db db' h =
    behind_rate-OnlyTouches ctx caller plan (admit_model ctx req caller plan) db db' h

caller-OnlyTouches :
    (ctx : Ctx) (req : ValidChatRequest) (r : ResolveResult) (db : Db)
    → OnlyTouches db (admit_caller ctx req r db).0
unfolding admit_caller
caller-OnlyTouches ctx req (Auth.failed f) db = refl
caller-OnlyTouches ctx req (Auth.ok caller) db =
    admit_plan-OnlyTouches ctx req caller (plan_from_row caller.plan) db
      (touch_client ctx.now caller.client.id db)
      (touch_client-OnlyTouches ctx.now caller.client.id db)

parsed-OnlyTouches :
    (ctx : Ctx) (header : Option (List ℕ)) (r : Turns.Checked ValidChatRequest) (db : Db)
    → OnlyTouches db (admit_request ctx header r db).0
unfolding admit_request
parsed-OnlyTouches ctx header (Turns.bad f) db = refl
parsed-OnlyTouches ctx header (Turns.ok req) db =
    caller-OnlyTouches ctx req (resolve_client ctx.sha256_hex header db) db

-- Whatever the gates answer, they move no money: every table but those of clients and rate buckets
-- is as it was.
pub admit-OnlyTouches :
    (ctx : Ctx) (header : Option (List ℕ)) (body : ReadBodyResult Json) (db : Db)
    → OnlyTouches db (admit ctx header body db).0
unfolding admit
admit-OnlyTouches ctx header (Http.refused code) db = refl
admit-OnlyTouches ctx header (Http.ok value) db =
    parsed-OnlyTouches ctx header (parse_chat_request ctx.atob value) db
