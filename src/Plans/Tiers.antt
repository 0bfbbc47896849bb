-- ===== src/Plans/Tiers.antt =====
-- Reading `allowed_tiers` in src/plans.ts.
use prism_control_plane.Prelude.{
  ℕ, ◌≡◌, ◌≢◌, refl, none, some, List, [], ◌∷◌, ◌++◌, map, arith, All,
}
use prism_control_plane.Prelude.Text.{codes, split, trim, to_lower}
use prism_control_plane.Catalog.{ModelTier, standard, premium}
use prism_control_plane.Plans.{tier_of, known_tiers, parse_tiers}

-- The tiers that one part of the text stands for: one or none.
abbrev pub tiers_of_part : List ℕ → List ModelTier
tiers_of_part part = elim (tier_of (map to_lower (trim part))) [ none ↦ [] | some t ↦ t ∷ [] ]

split_join :
    (sep : ℕ) (part rest : List ℕ)
    → All (λ c. c ≢ sep) part
    → split sep (part ++ sep ∷ rest) ≡ part ∷ split sep rest
unfolding split
split_join sep [] rest h = ground arith
split_join sep (c ∷ s) rest (h, hs) = rw (split_join sep s rest hs) (ground arith)

known_tiers-cons :
    (x : List ℕ) (xs : List (List ℕ))
    → known_tiers (x ∷ xs) ≡ (elim (tier_of x) [ none ↦ [] | some t ↦ t ∷ [] ]) ++ known_tiers xs
unfolding known_tiers
known_tiers-cons x xs = ground arith

-- A comma list is read part by part: a part without a comma stands for the tier that it spells,
-- in any case and with any white space around it, and for nothing if it spells none.
pub parse_tiers_part :
    (part rest : List ℕ)
    → All (λ c. c ≢ b',') part
    → parse_tiers (part ++ b',' ∷ rest) ≡ tiers_of_part part ++ parse_tiers rest
unfolding parse_tiers
parse_tiers_part part rest h = rw (split_join b',' part rest h) (
    known_tiers-cons (map to_lower (trim part))
      (map (λ x. map to_lower (trim x)) (split b',' rest)))

abbrev pub tier_name : ModelTier → List ℕ
tier_name standard = codes "standard"
tier_name premium = codes "premium"

abbrev pub join_tiers : List ModelTier → List ℕ
join_tiers [] = []
join_tiers (t ∷ []) = tier_name t
join_tiers (t ∷ u ∷ ts) = tier_name t ++ b',' ∷ join_tiers (u ∷ ts)

tiers_of_part-standard : tiers_of_part (codes "standard") ≡ standard ∷ []
unfolding parse_tiers
tiers_of_part-standard = refl

tiers_of_part-premium : tiers_of_part (codes "premium") ≡ premium ∷ []
unfolding parse_tiers
tiers_of_part-premium = refl

-- Every list of tiers is read back from its comma list, in its order.
pub parse_tiers-join_tiers : (ts : List ModelTier) → parse_tiers (join_tiers ts) ≡ ts
parse_tiers-join_tiers [] = unfold parse_tiers in refl
parse_tiers-join_tiers (standard ∷ []) = unfold parse_tiers in refl
parse_tiers-join_tiers (premium ∷ []) = unfold parse_tiers in refl
parse_tiers-join_tiers (standard ∷ u ∷ ts) = rw (
  parse_tiers_part (codes "standard") (join_tiers (u ∷ ts)) (omega arith),
  tiers_of_part-standard,
  parse_tiers-join_tiers (u ∷ ts),
)
parse_tiers-join_tiers (premium ∷ u ∷ ts) = rw (
  parse_tiers_part (codes "premium") (join_tiers (u ∷ ts)) (omega arith),
  tiers_of_part-premium,
  parse_tiers-join_tiers (u ∷ ts),
)
