-- ===== src/NonChat/Entry.antt =====
-- Which requests pass the gates of src/routes/nonchat.ts.
use prism_control_plane.Prelude.{
  ℕ, ◌≡◌, ◌≤◌, refl, Bool, true, String, Option, none, some, List, arith,
}
use prism_control_plane.Prelude.Json.{Json}
use prism_control_plane.Http.{ErrorCode, ReadBodyResult}
use prism_control_plane.Http as Http
use prism_control_plane.Store.Schema.{Db, PlanRow}
use prism_control_plane.Store.Usage.{get_period}
use prism_control_plane.Store.Accounts.{get_plan}
use prism_control_plane.Store.Clients.{touch_client}
use prism_control_plane.Store.Settings.{get_model_price}
use prism_control_plane.Catalog.{find_model, Modality, has_door}
use prism_control_plane.Meter.{resolve_unit_price}
use prism_control_plane.Plans.{Plan, PlanResult, plan_from_row, entitles_tier}
use prism_control_plane.Plans as Plans
use prism_control_plane.Balance.{decide_balance}
use prism_control_plane.Auth.{Caller, ResolveResult, resolve_client}
use prism_control_plane.Auth as Auth
use prism_control_plane.Chat.Context.{Ctx, UpstreamAuth}
use prism_control_plane.Chat.Gates.{Gate, pass, pools}
use prism_control_plane.Chat.Lets.{
  Lets-map, Lets-pass, behind_rate-Lets, Lets, Lets-require, Lets-expect, Lets-open_balance, IsOpen,
  claim,
}
use prism_control_plane.NonChat.Gates.{
  Passed, require_string, modality_eq, left_in_pools, affords, gate_model, gate_rate, gate_usable,
  gate_row, gate_plan, gate_caller, gate_non_chat,
}

module _ (ctx : Ctx) (has_runner : Bool) (modality : Modality) where
  -- What the gates behind the rate limit have established of a request that they let through.
  pub record IsServed (body : Json) (caller : Caller) (plan : Plan) (db : Db) (p : Passed)
      : Type 0 where
    pub client : p.client ≡ caller.client
    pub account : p.account ≡ caller.account
    pub same_plan : p.plan ≡ plan
    pub same_body : p.body ≡ body
    pub model_id : String
    pub named : require_string "model" body ≡ some model_id
    pub model : find_model ctx.catalog model_id ≡ some p.model
    pub of_door : modality_eq p.model.modality modality ≡ true
    pub entitled : entitles_tier plan p.model.tier ≡ true
    pub priced : resolve_unit_price p.model (get_model_price p.model.id db) ≡ some p.unit_price
    pub wired : has_runner ≡ true
    pub solvent : IsOpen (
        decide_balance (pools caller.account plan (get_period caller.account.id ctx.period_key db)))
    pub a_unit_fits :
        p.unit_price.micro_usd_per_unit
        ≤ left_in_pools caller.account plan (get_period caller.account.id ctx.period_key db)
    pub source : String → Option UpstreamAuth
    pub configured : ctx.credentials ≡ some source
    pub credential : source caller.account.id ≡ some p.auth

  gate_model-IsServed :
      (body : Json) (caller : Caller) (plan : Plan) (db : Db)
      → Lets (IsServed body caller plan db) (gate_model ctx has_runner modality body caller plan db)
  unfolding gate_model Lets
  gate_model-IsServed body caller plan db =
      let P = IsServed body caller plan db in
      let period = get_period caller.account.id ctx.period_key db in
      Lets-expect P (require_string "model" body) _ _ λ model_id named.
        Lets-expect P (find_model ctx.catalog model_id) _ _ λ model found.
          Lets-require P (modality_eq model.modality modality) _ _ λ of_door.
            Lets-require P (has_door model.modality) _ _ λ door.
              Lets-require P (entitles_tier plan model.tier) _ _ λ entitled.
                Lets-expect P (resolve_unit_price model (get_model_price model.id db)) _ _
                  λ price priced. Lets-require P has_runner _ _ λ wired.
                    Lets-expect P ctx.credentials _ _ λ source configured.
                      Lets-open_balance P (decide_balance (pools caller.account plan period)) _
                        λ solvent.
                          Lets-require P (affords price (left_in_pools caller.account plan period))
                            _ _
                            λ fits. Lets-expect P (source caller.account.id) _ _ λ auth credential.
                              record {
                                client = refl;
                                account = refl;
                                same_plan = refl;
                                same_body = refl;
                                model_id = model_id;
                                named = named;
                                model = found;
                                of_door = of_door;
                                entitled = entitled;
                                priced = priced;
                                wired = wired;
                                solvent = solvent;
                                a_unit_fits = ground (arith, fits);
                                source = source;
                                configured = configured;
                                credential = credential;
                              }

  -- What all the gates behind the body have established: those behind the rate limit read the
  -- database as its claim left it.
  pub record IsPassed (header : Option (List ℕ)) (read : ReadBodyResult Json) (db : Db) (p : Passed)
      : Type 0 where
    pub body : Json
    pub whole : read ≡ Http.ok body
    pub caller : Caller
    pub known : resolve_client ctx.sha256_hex header db ≡ Auth.ok caller
    pub row : PlanRow
    pub stored : get_plan caller.account.plan_id db ≡ some row
    pub plan : Plan
    pub usable : plan_from_row row ≡ Plans.ok plan
    pub within_rate : (claim ctx caller plan db).1.allowed ≡ true
    pub served : IsServed body caller plan (claim ctx caller plan db).0 p

  module _ (header : Option (List ℕ)) (body : Json) (db : Db) (caller : Caller)
      (known : resolve_client ctx.sha256_hex header db ≡ Auth.ok caller) where
    abbrev Fits : Gate Passed → Type 0
    Fits = Lets (IsPassed header (Http.ok body) db)

    usable-Lets :
        (row : PlanRow) (r : PlanResult)
        → get_plan caller.account.plan_id db ≡ some row
        → plan_from_row row ≡ r
        → Fits
            (gate_usable ctx has_runner modality body caller r
              (touch_client ctx.now caller.client.id db)).1
    unfolding gate_rate Lets
    usable-Lets row (Plans.refused f) stored usable = tt
    usable-Lets row (Plans.ok plan) stored usable =
        Lets-map _ (IsPassed header (Http.ok body) db) _
          (λ p served. record {
            body = body;
            whole = refl;
            caller = caller;
            known = known;
            row = row;
            stored = stored;
            plan = plan;
            usable = usable;
            within_rate = served.0;
            served = served.1;
          })
          (behind_rate-Lets ctx caller plan db (gate_model ctx has_runner modality body caller plan)
            (IsServed body caller plan) (gate_model-IsServed body caller plan))

    row-Lets :
        (o : Option PlanRow)
        → get_plan caller.account.plan_id db ≡ o
        → Fits
            (gate_row ctx has_runner modality body caller o
              (touch_client ctx.now caller.client.id db)).1
    unfolding Lets
    row-Lets none stored = tt
    row-Lets (some row) stored = usable-Lets row (plan_from_row row) stored refl

    plan-Lets :
        Fits
          (gate_plan ctx has_runner modality body caller
            (touch_client ctx.now caller.client.id db)).1
    unfolding gate_plan touch_client get_plan
    plan-Lets = row-Lets (get_plan caller.account.plan_id db) refl

  caller-Lets :
      (header : Option (List ℕ)) (body : Json) (db : Db) (r : ResolveResult)
      → resolve_client ctx.sha256_hex header db ≡ r
      → Lets (IsPassed header (Http.ok body) db) (gate_caller ctx has_runner modality body r db).1
  unfolding gate_caller Lets
  caller-Lets header body db (Auth.failed f) known = tt
  caller-Lets header body db (Auth.ok caller) known = plan-Lets header body db caller known

  gate-Lets :
      (header : Option (List ℕ)) (read : ReadBodyResult Json) (db : Db)
      → Lets (IsPassed header read db) (gate_non_chat ctx has_runner modality header read db).1
  unfolding gate_non_chat Lets
  gate-Lets header (Http.refused code) db = tt
  gate-Lets header (Http.ok body) db =
      caller-Lets header body db (resolve_client ctx.sha256_hex header db) refl

-- A provider is called by a door only for a request that every gate has let through: the body was
-- read whole; the bearer is a live client's of an account that is not suspended; its plan is stored
-- and usable; the account was within its rate; the model that the body names is in the catalog, of
-- the door's modality, of a tier of the plan, and has a unit price; a runner and a credential source
-- are configured; the balance was read in full and is open, and what is left of allowance and credit
-- covers one unit; and a credential was given.
pub gate_non_chat_sound :
    (ctx : Ctx) (has_runner : Bool) (modality : Modality) (header : Option (List ℕ))
    (read : ReadBodyResult Json) (db : Db) (p : Passed)
    → (gate_non_chat ctx has_runner modality header read db).1 ≡ pass p
    → IsPassed ctx has_runner modality header read db p
gate_non_chat_sound ctx has_runner modality header read db p h =
    Lets-pass (IsPassed ctx has_runner modality header read db)
      (gate_non_chat ctx has_runner modality header read db).1 p
      (gate-Lets ctx has_runner modality header read db) h
