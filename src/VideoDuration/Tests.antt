-- ===== src/VideoDuration/Tests.antt =====
-- Tests of src/video-duration.ts.
use prism_control_plane.Prelude.{◌≡◌, refl, some, pos, ℤ}
use prism_control_plane.Prelude.Number.{Number}
use prism_control_plane.Prelude.Text.{trim, to_lower, is_space}
use prism_control_plane.Prelude.Strings.{starts_with}
use prism_control_plane.Prelude.Json.{str}
use prism_control_plane.VideoDuration.{
  whole, text, video_duration_spec, distance, double, clamp_video_duration_sec,
  resolve_video_duration,
}
use prism_control_plane.Prelude.Decimal.{decimal}

abbrev round : Number → ℤ
round x = pos 0

veo : resolve_video_duration round "google/veo-3" (some (str " 5 S")) ≡ (4, text "4s")
unfolding resolve_video_duration video_duration_spec starts_with trim to_lower is_space decimal
veo = refl

-- 10^17 seconds are as far from four as from eight, for a number of 53 binary digits.
far : clamp_video_duration_sec "google/veo-3" (some (whole (pos 100_000_000_000_000_000))) ≡ 4
unfolding clamp_video_duration_sec video_duration_spec starts_with distance double
far = refl

-- 2^53 + 1 lies halfway, and 2^53 + 3 is rounded to the even multiple above.
halfway :
    (double 9_007_199_254_740_993 ≡ 9_007_199_254_740_992)
    × (double 9_007_199_254_740_995 ≡ 9_007_199_254_740_996)
unfolding double
halfway = (refl, refl)
