-- ===== src/Period.antt =====
-- src/period.ts: the billing period, a UTC calendar month. `Date` is the platform's: a moment gives
-- its UTC year and month, and `Date.UTC` the moment at which a month starts.
mod Tests
use Prim.Native.String
use prism_control_plane.Prelude.{
  ℕ, suc, ◌+◌, ◌<◌, ◌≤◌, ◌≡◌, ◌≢◌, String, ltb, if◌then◌else◌, refl, ap, ◌∙◌, arith, Bool-cases,
  inl, inr,
}
use prism_control_plane.Prelude.Decimal.{decimal}

-- The UTC fields of a moment that the code reads: the month from 0 to 11.
pub record Month : Type 0 where
  pub year : ℕ
  pub month : ℕ

-- `padStart(2, "0")` of a number
abbrev pub pad_two : ℕ → String
pad_two n = if ltb n 10 then String.◌++◌ "0" (decimal n) else decimal n

-- `periodKey`
unfoldable pub period_key : Month → String
unfolding decimal
period_key m = String.◌++◌ (decimal m.year) (String.◌++◌ "-" (pad_two (m.month + 1)))

pub record PeriodBounds : Type 0 where
  pub key : String
  pub start : ℕ
  pub period_end : ℕ

-- The month after a month.
abbrev pub next_month : Month → Month
next_month m =
    if ltb m.month 11
    then record { year = m.year; month = m.month + 1 }
    else record { year = m.year + 1; month = 0 }

-- What is documented of `Date.UTC`, on the first of a month: month 12 is January of the next year,
-- and a month starts before the next one does.
pub record Calendar : Type 0 where
  pub utc : ℕ → ℕ → ℕ
  pub carry : (y : ℕ) → utc y 12 ≡ utc (y + 1) 0
  pub forward : (y m : ℕ) → m < 12 → utc y m < utc y (m + 1)

module _ (c : Calendar) where
  -- `periodBounds`, in milliseconds
  unfoldable pub period_bounds : Month → PeriodBounds
  unfolding period_key
  period_bounds m = record {
    key = period_key m;
    start = c.utc m.year m.month;
    period_end = c.utc m.year (m.month + 1);
  }

-- Consecutive billing periods tile: a period ends at the instant at which the next one starts, also
-- from December to January, and no period is empty.
pub period_bounds_tile :
    (c : Calendar) (m : Month)
    → m.month < 12
    → ((period_bounds c m).period_end ≡ (period_bounds c (next_month m)).start)
      × ((period_bounds c m).start < (period_bounds c m).period_end)
unfolding period_bounds
period_bounds_tile c m h = elim (Bool-cases (ltb m.month 11)) [
  | inl e ↦ rw e (refl, c.forward m.year m.month h)
  | inr e ↦
      let last : m.month + 1 ≡ 12 = ground arith in
      rw e (ap (c.utc m.year) last ∙ c.carry m.year, c.forward m.year m.month h)
]
