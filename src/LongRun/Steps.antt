-- ===== src/LongRun/Steps.antt =====
-- The retries of a step of src/routes/longrun-workflow.ts, and how often they call the provider.
use prism_control_plane.Prelude.{
  ℕ, suc, zero, ◌+◌, ◌≡◌, ◌≤◌, refl, String, Option, none, some, arith, if◌then◌else◌, Bool-cases,
  Option-cases, inl, inr,
}
use prism_control_plane.Prelude.Json.{Json}
use prism_control_plane.Store.Schema.{AsyncJobKind}
use prism_control_plane.NonChat.Meter.{RunResult, ok, upstream_error, timeout, unavailable}
use prism_control_plane.Store.Schema as Schema
use prism_control_plane.NonChat.Assets.{
  provider_state_failed, ImageAsset, inline, link, extract_image_asset, extract_audio_base64,
  extract_asset, filled,
}
use prism_control_plane.LongRun.{
  LongRunParams, Attempt, returned, threw, threw_for_good, step_do, after_attempt, Invocation,
  Calls, asset_of, with_log, or_for_good, stored_asset, stored_image, read_answer, is_result,
  invoke_model,
}

-- What holds after an attempt, by how it ended, and after all of them.
abbrev pub AfterAttempt :
    {S A : Type 0} → (S → Type 0) → (S → Type 0) → (S → A → Type 0) → S × Attempt A → Type 0
AfterAttempt Go End Done (s, returned a) = Done s a
AfterAttempt Go End Done (s, threw) = Go s
AfterAttempt Go End Done (s, threw_for_good) = End s

abbrev pub AfterStep : {S A : Type 0} → (S → Type 0) → (S → A → Type 0) → S × Option A → Type 0
AfterStep End Done (s, some a) = Done s a
AfterStep End Done (s, none) = End s

module _ {E S A : Type 0} (body : E → S → S × Attempt A) (Go : ℕ → S → Type 0) (End : S → Type 0)
    (Done : S → A → Type 0) (Meets : E → Type 0)
    (attempt : (k : ℕ) (e : E) (s : S)
      → Meets e
      → Go (suc k) s
      → AfterAttempt (Go k) End Done (body e s))
    (give_up : (s : S) → Go 0 s → End s) where
  after_attempt-AfterStep :
      (k : ℕ) (again : S → S × Option A) (r : S × Attempt A)
      → ((s : S) → Go k s → AfterStep End Done (again s))
      → AfterAttempt (Go k) End Done r
      → AfterStep End Done (after_attempt body again r)
  after_attempt-AfterStep k again (t, returned a) more h = h
  after_attempt-AfterStep k again (t, threw) more h = more t h
  after_attempt-AfterStep k again (t, threw_for_good) more h = h

  -- An invariant by the number of attempts that are left.
  pub step_do-AfterStep :
      (n : ℕ) (env : ℕ → E) (s : S)
      → ((i : ℕ) → Meets (env i))
      → Go n s
      → AfterStep End Done (step_do body n env s)
  unfolding step_do
  step_do-AfterStep zero env s m h = give_up s h
  step_do-AfterStep (suc n) env s m h =
      after_attempt-AfterStep n (step_do body n (λ i. env (suc i))) (body (env 0) s)
        (λ t. step_do-AfterStep n (λ i. env (suc i)) t (λ i. m (suc i)))
        (attempt n (env 0) s (m 0) h)

-- At most two calls, and at most one that came back with a result.
abbrev pub IsCalledOnce : Calls → Type 0
IsCalledOnce c = (c.made ≤ 2) × (c.results ≤ 1)

-- With so many attempts left, no call has come back with a result.
abbrev IsUnanswered : ℕ → Calls → Type 0
IsUnanswered k c = (c.made + k ≤ 2) × (c.results ≡ 0)

abbrev Ends : {A : Type 0} → Attempt A → Type 0
Ends threw = ⊥
Ends _ = Unit

abbrev Ended : {A : Type 0} → ℕ → Calls × Attempt A → Type 0
Ended k = AfterAttempt (IsUnanswered k) IsCalledOnce (λ c a. IsCalledOnce c)

-- A link that was read, or that could not be, ends the step.
with_log-Ended :
    (k : ℕ) (c : Calls) (log : Option String) (a : Attempt String)
    → IsCalledOnce c
    → Ends a
    → Ended k (c, with_log log a)
with_log-Ended k c log (returned url) h n = h
with_log-Ended k c log threw h n = absurd n
with_log-Ended k c log threw_for_good h n = h

or_for_good-Ends : (o : Option String) → Ends (or_for_good o)
or_for_good-Ends none = tt
or_for_good-Ends (some url) = tt

asset_of-Ends : (kind : AsyncJobKind) (i : Invocation) (body : Json) → Ends (asset_of kind i body)
asset_of-Ends Schema.speech i body = by_payload (filled (extract_audio_base64 body))
  where
    by_payload : (o : Option String) → Ends (stored_asset o i.stored)
    by_payload none = tt
    by_payload (some payload) = or_for_good-Ends i.stored
asset_of-Ends Schema.image i body = by_image (extract_image_asset body)
  where
    by_image : (o : Option ImageAsset) → Ends (stored_image o i.stored)
    by_image none = tt
    by_image (some (inline payload)) = or_for_good-Ends i.stored
    by_image (some (link url)) = tt
asset_of-Ends Schema.music i body = or_for_good-Ends (extract_asset "audio" body)
asset_of-Ends Schema.video i body = elim (Option-cases i.arrived) [
  | inl e ↦ rw e (or_for_good-Ends (extract_asset "video" body))
  | inr (url, e) ↦ rw e tt
]

module _ (p : LongRunParams) where
  read_answer-Ended :
      (k : ℕ) (i : Invocation) (r : RunResult) (c : Calls)
      → IsUnanswered (suc k) c
      → Ended k (
        record { made = c.made + 1; results = c.results + (if is_result r then 1 else 0) },
        read_answer p.kind i r,
      )
  read_answer-Ended k i (ok body log) c (m, b) = elim (Bool-cases (provider_state_failed body)) [
    | inl e ↦ rw e (omega arith, omega arith)
    | inr e ↦ rw e (
        with_log-Ended k _ log (asset_of p.kind i body) (omega arith, omega arith)
          (asset_of-Ends p.kind i body))
  ]
  read_answer-Ended k i (upstream_error status) c (m, b) = (omega arith, omega arith)
  read_answer-Ended k i (timeout waited) c (m, b) = (omega arith, omega arith)
  read_answer-Ended k i unavailable c (m, b) = (omega arith, omega arith)

  invoke_model-Ended :
      (k : ℕ) (i : Invocation) (c : Calls) → IsUnanswered (suc k) c → Ended k (invoke_model p i c)
  unfolding invoke_model
  invoke_model-Ended k i c h = elim (Bool-cases i.is_ready) [
    | inl e ↦ simp e (read_answer-Ended k i i.answer c h)
    | inr e ↦ rw e (omega (arith, h.0), h.1)
  ]

-- However the attempts at a job's call go, the provider is called at most twice, and at most one call
-- comes back with a result: once one has, nothing calls again, also where its asset is missing or
-- cannot be stored. Nothing is said of what the provider bills for a call that timed out or failed.
pub invoke_model-IsCalledOnce :
    (p : LongRunParams) (env : ℕ → Invocation)
    → IsCalledOnce (step_do (invoke_model p) 2 env (record { made = 0; results = 0 })).0
invoke_model-IsCalledOnce p env = either_way _ (
    step_do-AfterStep (invoke_model p) IsUnanswered IsCalledOnce (λ c a. IsCalledOnce c) (λ i. Unit)
      (λ k i c m. invoke_model-Ended p k i c) (λ c h. (omega (arith, h.0), omega (arith, h.1))) 2
      env _ (λ i. tt) (omega arith, refl))
  where
    either_way :
        (r : Calls × Option (String × Option String))
        → AfterStep IsCalledOnce (λ c a. IsCalledOnce c) r
        → IsCalledOnce r.0
    either_way (c, some a) h = h
    either_way (c, none) h = h
