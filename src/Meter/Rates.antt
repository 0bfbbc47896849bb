-- ===== src/Meter/Rates.antt =====
-- Which rate card src/meter.ts prices a request at.
use prism_control_plane.Prelude.{
  ℕ, ◌≡◌, ◌≢◌, ◌↔◌, ◌+◌, ◌*◌, refl, inl, inr, ◌/◌, none, some, arith, Option-cases, pos,
}
use prism_control_plane.Prelude.Number.{integer, count?}
use prism_control_plane.Catalog.{CatalogEntry, TokenPrice, UnitPrice}
use prism_control_plane.Meter.{
  ModelPriceRow, TokenUsage, base_unit, metered, resolve_price, resolve_unit_price, price_usage,
  price_units, exact_micro_usd,
}

-- An operator's token rates that can price.
abbrev pub IsUsable : ModelPriceRow → Type 0
IsUsable o =
    (count? o.input_micro_usd_per_mtok ≢ none) × (count? o.output_micro_usd_per_mtok ≢ none)

price_usage-eq-metered :
    (u : TokenUsage) (p : TokenPrice) {i o : ℕ}
    → count? p.input_micro_usd_per_mtok ≡ some i
    → count? p.output_micro_usd_per_mtok ≡ some o
    → price_usage u p ≡ metered ((exact_micro_usd u p + 999_999) / 1_000_000) u
unfolding price_usage
price_usage-eq-metered u p e f = ground arith

-- An override with two whole non-negative rates decides alone, whatever the catalog says: it
-- gives a card with just those rates and its own date, on which every usage is metered.
pub resolve_price_usable :
    (entry : CatalogEntry) (o : ModelPriceRow)
    → IsUsable o
    → (p : TokenPrice) × (resolve_price entry (some o) ≡ some p)
      × (p.input_micro_usd_per_mtok ≡ o.input_micro_usd_per_mtok)
      × (p.output_micro_usd_per_mtok ≡ o.output_micro_usd_per_mtok)
      × (p.priced_at ≡ o.priced_at)
      × ((u : TokenUsage) → (m : ℕ) × (price_usage u p ≡ metered m u))
unfolding resolve_price
resolve_price_usable entry o h = elim (Option-cases (count? o.input_micro_usd_per_mtok)) [
  | inl e ↦ absurd (h.0 e)
  | inr (i, e) ↦ elim (Option-cases (count? o.output_micro_usd_per_mtok)) [
    | inl f ↦ absurd (h.1 f)
    | inr (x, f) ↦ (
      record {
        input_micro_usd_per_mtok = o.input_micro_usd_per_mtok;
        output_micro_usd_per_mtok = o.output_micro_usd_per_mtok;
        cached_input_micro_usd_per_mtok = none;
        priced_at = o.priced_at;
      },
      ground arith,
      refl,
      refl,
      refl,
      λ u. (_, price_usage-eq-metered u _ e f),
    )
  ]
]

-- An override leaves a model without a card exactly when one of its two rates is malformed: the
-- catalog's card is never used in its place.
pub resolve_price-eq-none_iff :
    (entry : CatalogEntry) (o : ModelPriceRow)
    → (resolve_price entry (some o) ≡ none) ↔ (¬ IsUsable o)
unfolding resolve_price
resolve_price-eq-none_iff entry o = (
  λ e h. ground arith,
  λ h. elim (Option-cases (count? o.input_micro_usd_per_mtok)) [
    | inl e ↦ ground arith
    | inr (i, e) ↦ elim (Option-cases (count? o.output_micro_usd_per_mtok)) [
      | inl f ↦ ground arith
      | inr (x, f) ↦ absurd (h (ground arith))
    ]
  ],
)

-- An override that names a whole unit rate decides alone, and every whole number of units is
-- then charged at that rate.
pub resolve_unit_price_usable :
    (entry : CatalogEntry) (o : ModelPriceRow) (m : ℕ)
    → o.unit_micro_usd ≡ some (integer (pos m))
    → (p : UnitPrice) × (resolve_unit_price entry (some o) ≡ some p)
      × ((n : ℕ) → price_units (integer (pos n)) p ≡ (n * m, n))
unfolding resolve_unit_price price_units
resolve_unit_price_usable entry o m e = (
  record { micro_usd_per_unit = m; unit = base_unit entry.unit_price; priced_at = o.priced_at },
  ground arith,
  λ n. ground arith,
)
