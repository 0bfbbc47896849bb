-- ===== src/RateLimit.antt =====
-- src/rate-limit.ts: the fixed-window limiter. Times and windows are whole seconds.
pub mod Window
mod Tests
use Prim.Native.String
use prism_control_plane.Prelude.{
  ℕ, ◌+◌, ◌-◌, Bool, true, false, String, Option, none, some, List, [], ◌∷◌, leb, max,
  if◌then◌else◌,
}
use prism_control_plane.Store.Schema.{Db}
use prism_control_plane.Store.Buckets.{claim_rate_bucket}

pub record RateLimitDecision : Type 0 where
  pub allowed : Bool
  pub next_count : ℕ
  pub next_window_start : ℕ
  pub retry_after_seconds : ℕ

-- `rateLimitDecision`. The comparison and the difference are of signed numbers, so a clock that
-- stands before the window's start has not rolled it.
unfoldable pub rate_limit_decision : ℕ → Option ℕ → ℕ → ℕ → ℕ → RateLimitDecision
rate_limit_decision now_sec none count limit window_seconds = record {
  allowed = true;
  next_count = 1;
  next_window_start = now_sec;
  retry_after_seconds = window_seconds;
}
rate_limit_decision now_sec (some start) count limit window_seconds =
    if leb (start + window_seconds) now_sec
    then record {
      allowed = true;
      next_count = 1;
      next_window_start = now_sec;
      retry_after_seconds = window_seconds;
    }
    else record {
      allowed = leb (count + 1) limit;
      next_count = count + 1;
      next_window_start = start;
      retry_after_seconds = max 1 (start + window_seconds - now_sec);
    }

abbrev pub rate_window_seconds : ℕ
rate_window_seconds = 60

-- `checkRateLimit`, at the time that the store's clock answers.
unfoldable pub check_rate_limit : String → ℕ → ℕ → ℕ → Db → Db × RateLimitDecision
check_rate_limit key limit window_seconds now db =
    let (db', row) = claim_rate_bucket key now window_seconds db in
    (
      db',
      record {
        allowed = leb row.count limit;
        next_count = row.count;
        next_window_start = row.window_start;
        retry_after_seconds = max 1 (row.window_start + window_seconds - now);
      },
    )

-- `inferenceBucket`, `enrollBucket`, `ENROLL_LIMIT`
unfoldable pub inference_bucket : String → String
inference_bucket account_id = String.◌++◌ "infer:" account_id

unfoldable pub enroll_bucket : String → String
enroll_bucket ip = String.◌++◌ "enroll:" ip

abbrev pub enroll_limit : ℕ
enroll_limit = 5
