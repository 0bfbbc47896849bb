-- ===== src/NonChat/Touches.antt =====
-- What the gates of src/routes/nonchat.ts write.
use prism_control_plane.Prelude.{ℕ, refl, Bool, Option, none, some, List}
use prism_control_plane.Prelude.Json.{Json}
use prism_control_plane.Http.{ErrorCode, ReadBodyResult}
use prism_control_plane.Http as Http
use prism_control_plane.Store.Schema.{Db, PlanRow}
use prism_control_plane.Store.Accounts.{get_plan}
use prism_control_plane.Store.Clients.{touch_client}
use prism_control_plane.Catalog.{Modality}
use prism_control_plane.Plans.{Plan, PlanResult, plan_from_row, entitles_tier}
use prism_control_plane.Plans as Plans
use prism_control_plane.Auth.{Caller, ResolveResult, resolve_client}
use prism_control_plane.Auth as Auth
use prism_control_plane.Chat.Context.{Ctx}
use prism_control_plane.Chat.Touches.{
  OnlyTouches, touch_client-OnlyTouches, behind_rate-OnlyTouches,
}
use prism_control_plane.NonChat.Gates.{
  gate_model, gate_rate, gate_usable, gate_row, gate_plan, gate_caller, gate_non_chat,
}

module _ (ctx : Ctx) (has_runner : Bool) (modality : Modality) (body : Json) (caller : Caller) where
  usable-OnlyTouches :
      (r : PlanResult) (db db' : Db)
      → OnlyTouches db db'
      → OnlyTouches db (gate_usable ctx has_runner modality body caller r db').0
  unfolding gate_rate
  usable-OnlyTouches (Plans.refused f) db db' h = h
  usable-OnlyTouches (Plans.ok plan) db db' h =
      behind_rate-OnlyTouches ctx caller plan (gate_model ctx has_runner modality body caller plan)
        db db' h

  row-OnlyTouches :
      (o : Option PlanRow) (db db' : Db)
      → OnlyTouches db db'
      → OnlyTouches db (gate_row ctx has_runner modality body caller o db').0
  row-OnlyTouches none db db' h = h
  row-OnlyTouches (some row) db db' h = usable-OnlyTouches (plan_from_row row) db db' h

  plan-OnlyTouches :
      (db db' : Db)
      → OnlyTouches db db'
      → OnlyTouches db (gate_plan ctx has_runner modality body caller db').0
  unfolding gate_plan
  plan-OnlyTouches db db' h = row-OnlyTouches (get_plan caller.account.plan_id db') db db' h

-- Whatever the gates of a door answer, they write nothing but clients and rate buckets.
pub gate_non_chat-OnlyTouches :
    (ctx : Ctx) (has_runner : Bool) (modality : Modality) (header : Option (List ℕ))
    (read : ReadBodyResult Json) (db : Db)
    → OnlyTouches db (gate_non_chat ctx has_runner modality header read db).0
unfolding gate_non_chat gate_caller
gate_non_chat-OnlyTouches ctx has_runner modality header (Http.refused code) db = refl
gate_non_chat-OnlyTouches ctx has_runner modality header (Http.ok body) db =
    caller-OnlyTouches (resolve_client ctx.sha256_hex header db)
  where
    caller-OnlyTouches :
        (r : ResolveResult) → OnlyTouches db (gate_caller ctx has_runner modality body r db).0
    caller-OnlyTouches (Auth.failed f) = refl
    caller-OnlyTouches (Auth.ok caller) =
        plan-OnlyTouches ctx has_runner modality body caller db
          (touch_client ctx.now caller.client.id db)
          (touch_client-OnlyTouches ctx.now caller.client.id db)
