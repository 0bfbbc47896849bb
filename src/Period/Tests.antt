-- ===== src/Period/Tests.antt =====
-- Tests of src/period.ts, with months of a fixed length.
use prism_control_plane.Prelude.{ℕ, ◌+◌, ◌*◌, ◌<◌, ◌≡◌, refl, arith}
use prism_control_plane.Period.{Month, Calendar, period_key}

abbrev december : Month
december = record { year = 2026; month = 11 }

thirty-carry : (y : ℕ) → (y * 12 + 12) * 30 ≡ ((y + 1) * 12 + 0) * 30
thirty-carry y = omega arith

thirty-forward : (y m : ℕ) → m < 12 → (y * 12 + m) * 30 < (y * 12 + (m + 1)) * 30
thirty-forward y m h = omega arith

abbrev thirty : Calendar
thirty = record { utc = λ y m. (y * 12 + m) * 30; carry = thirty-carry; forward = thirty-forward }

december_key : period_key december ≡ "2026-12"
unfolding period_key
december_key = refl

august_key : period_key (record { year = 2026; month = 7 }) ≡ "2026-08"
unfolding period_key
august_key = refl
