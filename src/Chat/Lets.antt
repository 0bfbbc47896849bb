-- ===== src/Chat/Lets.antt =====
-- What the gates of src/routes/chat.ts let through.
use prism_control_plane.Prelude.{
  ◌≡◌, refl, Bool, true, false, Option, none, some, arith, Bool-cases, inl, inr,
}
use prism_control_plane.Http.{ErrorCode}
use prism_control_plane.Store.Schema.{Db}
use prism_control_plane.Store.Clients.{touch_client}
use prism_control_plane.Plans.{Plan}
use prism_control_plane.Balance.{BalanceDecision, allow}
use prism_control_plane.RateLimit.{
  RateLimitDecision, check_rate_limit, rate_window_seconds, inference_bucket,
}
use prism_control_plane.Auth.{Caller}
use prism_control_plane.Chat.Context.{Ctx}
use prism_control_plane.Chat.Gates.{
  behind_rate, Gate, pass, stop, ◌>>=◌, ◌>>◌, require, expect, open_balance,
}

-- What a gate lets through has a property.
unfoldable pub Lets : {A : Type 0} → (A → Type 0) → Gate A → Type 0
Lets P (pass a) = P a
Lets P (stop code) = Unit

pub Lets-require :
    {B : Type 0} (P : B → Type 0) (b : Bool) (code : ErrorCode) (next : Gate B)
    → (b ≡ true → Lets P next)
    → Lets P (require b code >> next)
unfolding Lets
Lets-require P true code next h = h refl
Lets-require P false code next h = tt

pub Lets-expect :
    {A B : Type 0} (P : B → Type 0) (o : Option A) (code : ErrorCode) (next : A → Gate B)
    → ((x : A) → o ≡ some x → Lets P (next x))
    → Lets P (expect o code >>= next)
unfolding Lets
Lets-expect P (some x) code next h = h x refl
Lets-expect P none code next h = tt

-- The balance of the account was read in full, and something is left in one of the two pools.
abbrev pub IsOpen : BalanceDecision → Type 0
IsOpen (allow total allowance credit) = Unit
IsOpen _ = ⊥

pub Lets-open_balance :
    {B : Type 0} (P : B → Type 0) (d : BalanceDecision) (next : Gate B)
    → (IsOpen d → Lets P next)
    → Lets P (open_balance d >> next)
unfolding Lets
Lets-open_balance P (allow t a c) next h = h tt
Lets-open_balance P (BalanceDecision.exhausted c s a) next h = tt
Lets-open_balance P (BalanceDecision.indeterminate c f) next h = tt

pub Lets-map :
    {A : Type 0} (P Q : A → Type 0) (g : Gate A) → ((a : A) → P a → Q a) → Lets P g → Lets Q g
unfolding Lets
Lets-map P Q (pass a) f h = f a h
Lets-map P Q (stop code) f h = tt

pub Lets-pass : {A : Type 0} (P : A → Type 0) (g : Gate A) (a : A) → Lets P g → g ≡ pass a → P a
unfolding Lets
Lets-pass P (pass b) a h e = let same : b ≡ a = ground arith in rw (← same) h
Lets-pass P (stop code) a h e = absurd (cc)

-- The claim of the rate limit, after the stamp on the client.
abbrev pub claim : Ctx → Caller → Plan → Db → Db × RateLimitDecision
claim ctx caller plan db =
    check_rate_limit (inference_bucket caller.account.id) plan.requests_per_minute
      rate_window_seconds ctx.now (touch_client ctx.now caller.client.id db)

-- What is let through behind the rate limit was within it, and is what the gates behind it, which
-- read the database as the claim left it, have let through.
pub behind_rate-Lets :
    {A : Type 0} (ctx : Ctx) (caller : Caller) (plan : Plan) (db : Db) (next : Db → Gate A)
    (P : Db → A → Type 0)
    → ((d : Db) → Lets (P d) (next d))
    → let (limited, rate) = claim ctx caller plan db in
      Lets
        (λ a. (rate.allowed ≡ true) × P limited a)
        (behind_rate ctx caller plan next (touch_client ctx.now caller.client.id db)).1
unfolding behind_rate Lets
behind_rate-Lets ctx caller plan db next P h =
    let (limited, rate) = claim ctx caller plan db in
    elim (Bool-cases rate.allowed) [
      | inr e ↦ rw e tt
      | inl e ↦ rw e (
          Lets-map (P limited) (λ a. (true ≡ true) × P limited a) (next limited) (λ a p. (refl, p))
            (h limited))
    ]
