-- ===== src/Reconcile/Watermark.antt =====
-- Where `nextWatermark` of src/reconcile.ts puts the watermark.
use prism_control_plane.Prelude.{ℕ, ◌-◌, ◌≤◌, ◌<◌, ◌≡◌, Option, none, some, arith}
use prism_control_plane.Reconcile.{settle_ms, next_watermark}

-- A watermark that moves goes forward, and not past the settling line.
pub next_watermark_forward :
    (current now w : ℕ) (newest : Option ℕ)
    → next_watermark current newest now ≡ some w
    → (current < w) × (w ≤ now - settle_ms)
unfolding next_watermark
next_watermark_forward current now w none h = ground arith
next_watermark_forward current now w (some n) h = ground arith

-- It does not go past the newest row that was processed, if that row is before the settling line.
pub next_watermark-le-newest :
    (current now w newest : ℕ)
    → newest < now - settle_ms
    → next_watermark current (some newest) now ≡ some w
    → w ≡ newest
unfolding next_watermark
next_watermark-le-newest current now w newest s h = ground arith
