-- ===== src/GatewayLog/Tests.antt =====
-- Tests of src/aig-logs.ts: costs.
use prism_control_plane.Prelude.{
  ℕ, ◌≡◌, refl, none, some, List, ◌++◌, ltb, length, if◌then◌else◌, pos,
}
use prism_control_plane.Prelude.Number.{Number, fraction}
use prism_control_plane.Prelude.Json.{num}
use prism_control_plane.Prelude.Text.{codes}
use prism_control_plane.GatewayLog.{
  max_safe, digits_value, decimal_parts, micro_usd_of_text, micro_usd_from_usd,
}
use prism_control_plane.GatewayLog.Cost.{RoundsUp, micro_usd_from_usd-RoundsUp}

-- A number that prints as 0.0000043.
abbrev printed : Number → List ℕ
printed x = codes "0.0000043"

micro_usd_from_usd-RoundsUp_example :
    (m : ℕ) × RoundsUp
      (digits_value 0 (codes "0" ++ codes "0000043"))
      6
      (length (codes "0000043"))
      m
    × (micro_usd_from_usd printed (some (num (fraction (pos 0))))
        ≡ (if ltb max_safe m then none else some m))
micro_usd_from_usd-RoundsUp_example =
    micro_usd_from_usd-RoundsUp printed (fraction (pos 0)) (codes "0") (codes "0000043") refl refl
      (λ e. cc) (refl, tt) (refl, (refl, (refl, (refl, (refl, (refl, (refl, tt)))))))

four_and_a_bit : micro_usd_from_usd printed (some (num (fraction (pos 0)))) ≡ some 5
unfolding micro_usd_from_usd micro_usd_of_text decimal_parts
four_and_a_bit = refl

scientific : micro_usd_of_text (codes "4.3e-6") ≡ some 5
unfolding micro_usd_of_text decimal_parts
scientific = refl

negative_refused : micro_usd_of_text (codes "-1.5") ≡ none
unfolding micro_usd_of_text decimal_parts
negative_refused = refl

exact : micro_usd_of_text (codes "+0.01719325") ≡ some 17194
unfolding micro_usd_of_text decimal_parts
exact = refl
