-- ===== src/Chat/Entry.antt =====
-- Which requests pass the gates of src/routes/chat.ts.
use prism_control_plane.Prelude.{
  ℕ, ◌≡◌, refl, Bool, true, false, ◌||◌, not, String, Option, some, List,
}
use prism_control_plane.Prelude.Json.{Json}
use prism_control_plane.Http.{ErrorCode, ReadBodyResult}
use prism_control_plane.Http as Http
use prism_control_plane.Store.Schema.{Db}
use prism_control_plane.Store.Usage.{get_period}
use prism_control_plane.Store.Clients.{touch_client}
use prism_control_plane.Store.Settings.{get_model_price}
use prism_control_plane.Catalog.{find_model}
use prism_control_plane.Meter.{resolve_price}
use prism_control_plane.Plans.{Plan, PlanResult, plan_from_row, entitles_tier}
use prism_control_plane.Plans as Plans
use prism_control_plane.Balance.{decide_balance}
use prism_control_plane.Auth.{Caller, ResolveResult, resolve_client}
use prism_control_plane.Auth as Auth
use prism_control_plane.ChatRequest.{ValidChatRequest, parse_chat_request}
use prism_control_plane.ChatRequest.Turns as Turns
use prism_control_plane.Chat.Context.{Ctx, UpstreamAuth}
use prism_control_plane.Chat.Gates.{
  Admitted, pass, is_chat, has_image, pools, max_tokens_of, admit_model, admit_rate, admit_plan,
  admit_caller, admit_request, admit,
}
use prism_control_plane.Chat.Lets.{
  Lets, Lets-require, Lets-expect, IsOpen, Lets-open_balance, Lets-map, Lets-pass, claim,
  behind_rate-Lets,
}

-- What gates 6 to 10 have established of a request that they let through.
pub record IsServed (ctx : Ctx) (req : ValidChatRequest) (caller : Caller) (plan : Plan) (db : Db)
    (a : Admitted) : Type 0 where
  pub request : a.request ≡ req
  pub client : a.client ≡ caller.client
  pub account : a.account ≡ caller.account
  pub same_plan : a.plan ≡ plan
  pub model : find_model ctx.catalog req.model ≡ some a.model
  pub chats : is_chat a.model.modality ≡ true
  pub entitled : entitles_tier plan a.model.tier ≡ true
  pub streams : (not req.stream || a.model.streaming) ≡ true
  pub no_image : has_image req.image_bytes ≡ false
  pub priced : resolve_price a.model (get_model_price a.model.id db) ≡ some a.price
  pub wired : ctx.has_runner ≡ true
  pub solvent :
      IsOpen (
        decide_balance (pools caller.account plan (get_period caller.account.id ctx.period_key db)))
  pub source : String → Option UpstreamAuth
  pub configured : ctx.credentials ≡ some source
  pub credential : source caller.account.id ≡ some a.auth
  pub capped : a.max_tokens ≡ max_tokens_of req plan a.model

not-eq-true : (b : Bool) → not b ≡ true → b ≡ false
not-eq-true false h = refl
not-eq-true true h = cc

admit_model-IsServed :
    (ctx : Ctx) (req : ValidChatRequest) (caller : Caller) (plan : Plan) (db : Db)
    → Lets (IsServed ctx req caller plan db) (admit_model ctx req caller plan db)
unfolding admit_model Lets
admit_model-IsServed ctx req caller plan db =
    let P = IsServed ctx req caller plan db in
    Lets-expect P (find_model ctx.catalog req.model) _ _ λ model found.
      Lets-require P (is_chat model.modality) _ _ λ chats.
        Lets-require P (entitles_tier plan model.tier) _ _ λ entitled.
          Lets-require P (not req.stream || model.streaming) _ _ λ streams.
            Lets-require P (not (has_image req.image_bytes)) _ _ λ image.
              Lets-expect P (resolve_price model (get_model_price model.id db)) _ _ λ price priced.
                Lets-require P ctx.has_runner _ _ λ wired.
                  Lets-expect P ctx.credentials _ _ λ source configured.
                    Lets-open_balance P
                      (decide_balance (
                        pools caller.account plan (get_period caller.account.id ctx.period_key db)))
                      _
                      λ solvent. Lets-expect P (source caller.account.id) _ _ λ auth credential.
                        record {
                          request = refl;
                          client = refl;
                          account = refl;
                          same_plan = refl;
                          model = found;
                          chats = chats;
                          entitled = entitled;
                          streams = streams;
                          no_image = not-eq-true _ image;
                          priced = priced;
                          wired = wired;
                          solvent = solvent;
                          source = source;
                          configured = configured;
                          credential = credential;
                          capped = refl;
                        }

-- What the gates behind the body have established of a request that they let through. Those behind
-- the rate limit read the database as its claim left it.
pub record IsKnown (ctx : Ctx) (header : Option (List ℕ)) (req : ValidChatRequest) (db : Db)
    (a : Admitted) : Type 0 where
  pub caller : Caller
  pub known : resolve_client ctx.sha256_hex header db ≡ Auth.ok caller
  pub plan : Plan
  pub usable : plan_from_row caller.plan ≡ Plans.ok plan
  pub within_rate : (claim ctx caller plan db).1.allowed ≡ true
  pub served : IsServed ctx req caller plan (claim ctx caller plan db).0 a

pub record IsAdmissible (ctx : Ctx) (header : Option (List ℕ)) (body : ReadBodyResult Json)
    (db : Db) (a : Admitted) : Type 0 where
  pub value : Json
  pub whole : body ≡ Http.ok value
  pub request : ValidChatRequest
  pub well_formed : parse_chat_request ctx.atob value ≡ Turns.ok request
  pub identified : IsKnown ctx header request db a

admit_plan-Lets :
    (ctx : Ctx) (header : Option (List ℕ)) (req : ValidChatRequest) (db : Db) (caller : Caller)
    (r : PlanResult)
    → resolve_client ctx.sha256_hex header db ≡ Auth.ok caller
    → plan_from_row caller.plan ≡ r
    → Lets
        (IsKnown ctx header req db)
        (admit_plan ctx req caller r (touch_client ctx.now caller.client.id db)).1
unfolding admit_plan admit_rate Lets
admit_plan-Lets ctx header req db caller (Plans.refused f) known usable = tt
admit_plan-Lets ctx header req db caller (Plans.ok plan) known usable =
    Lets-map _ (IsKnown ctx header req db) _
      (λ a s. record {
        caller = caller;
        known = known;
        plan = plan;
        usable = usable;
        within_rate = s.0;
        served = s.1;
      })
      (behind_rate-Lets ctx caller plan db (admit_model ctx req caller plan)
        (IsServed ctx req caller plan) (admit_model-IsServed ctx req caller plan))

admit_caller-Lets :
    (ctx : Ctx) (header : Option (List ℕ)) (req : ValidChatRequest) (db : Db) (r : ResolveResult)
    → resolve_client ctx.sha256_hex header db ≡ r
    → Lets (IsKnown ctx header req db) (admit_caller ctx req r db).1
unfolding admit_caller Lets
admit_caller-Lets ctx header req db (Auth.failed f) known = tt
admit_caller-Lets ctx header req db (Auth.ok caller) known =
    admit_plan-Lets ctx header req db caller (plan_from_row caller.plan) known refl

admit_request-Lets :
    (ctx : Ctx) (header : Option (List ℕ)) (value : Json) (db : Db)
    (r : Turns.Checked ValidChatRequest)
    → parse_chat_request ctx.atob value ≡ r
    → Lets (IsAdmissible ctx header (Http.ok value) db) (admit_request ctx header r db).1
unfolding admit_request Lets
admit_request-Lets ctx header value db (Turns.bad f) e = tt
admit_request-Lets ctx header value db (Turns.ok req) e =
    Lets-map _ (IsAdmissible ctx header (Http.ok value) db) _
      (λ a k. record {
        value = value;
        whole = refl;
        request = req;
        well_formed = e;
        identified = k;
      })
      (admit_caller-Lets ctx header req db (resolve_client ctx.sha256_hex header db) refl)

admit-Lets :
    (ctx : Ctx) (header : Option (List ℕ)) (body : ReadBodyResult Json) (db : Db)
    → Lets (IsAdmissible ctx header body db) (admit ctx header body db).1
unfolding admit Lets
admit-Lets ctx header (Http.refused code) db = tt
admit-Lets ctx header (Http.ok value) db =
    admit_request-Lets ctx header value db (parse_chat_request ctx.atob value) refl

-- The model is called only for a request that every gate has let through: the body was read whole and
-- is a chat request; the bearer is a live client's of an account that is not suspended; its plan is
-- usable; the account was within its rate; the model is in the catalog, is a chat model, of a tier of
-- the plan, streams if asked to, and is given no image; it has a price; a runner and a credential
-- source are configured; the balance was read in full and is open; a credential was given; and the
-- output cap is that of the request, the plan and the model.
pub admit_sound :
    (ctx : Ctx) (header : Option (List ℕ)) (body : ReadBodyResult Json) (db : Db) (a : Admitted)
    → (admit ctx header body db).1 ≡ pass a
    → IsAdmissible ctx header body db a
admit_sound ctx header body db a h =
    Lets-pass (IsAdmissible ctx header body db) (admit ctx header body db).1 a
      (admit-Lets ctx header body db) h
