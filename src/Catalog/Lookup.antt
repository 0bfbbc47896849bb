-- ===== src/Catalog/Lookup.antt =====
-- The catalog of src/catalog.ts as an allowlist.
use prism_control_plane.Prelude.{
  ◌≡◌, String, some, List, [], ◌∷◌, arith, str_eq, eq_iff, Bool-cases, Option-cases, inl, inr,
}
use mathlib.Core.List.{Memᴰ}
use prism_control_plane.Catalog.{CatalogEntry, find_model}

-- A model that is found stands in the catalog under the id that was asked for.
pub find_model_sound :
    (es : List CatalogEntry) (id : String) {e : CatalogEntry}
    → find_model es id ≡ some e
    → Memᴰ e es × (e.id ≡ id)
unfolding find_model
find_model_sound [] id h = cc
find_model_sound (x ∷ es) id {e} h = elim (Option-cases (find_model es id)) [
  | inl missed ↦ elim (Bool-cases (str_eq x.id id)) [
    | inl same ↦ (Memᴰ.head (ground arith), ground (arith, eq_iff x.id id))
    | inr other ↦ absurd (ground arith)
  ]
  | inr (found, f) ↦ let (m, same) = find_model_sound es id (ground arith) in (Memᴰ.tail m, same)
]
