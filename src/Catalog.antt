-- ===== src/Catalog.antt =====
-- src/catalog.ts: the shape of a catalog entry, the lookup by public id, and what can be spent
-- against. The published table itself is an argument, a list of entries.
pub mod Lookup
use prism_control_plane.Prelude.{
  ℕ, Bool, true, false, String, Option, none, some, is_some, List, [], ◌∷◌, str_eq, if◌then◌else◌,
  any, ◌||◌,
}
use prism_control_plane.Prelude.Number.{Number}

pub data Modality : Type 0 where
  chat image tts stt voice music video : Modality

pub data Billing : Type 0 where
  workers_ai unified_billing : Billing

pub data Api : Type 0 where
  chat_api responses : Api

pub data ModelTier : Type 0 where
  standard premium : ModelTier

pub record TokenPrice : Type 0 where
  pub input_micro_usd_per_mtok : Number
  pub output_micro_usd_per_mtok : Number
  pub cached_input_micro_usd_per_mtok : Option Number
  pub priced_at : String

pub data MeterUnit : Type 0 where
  request audio_minute k_characters : MeterUnit

pub record UnitPrice : Type 0 where
  pub micro_usd_per_unit : ℕ
  pub unit : MeterUnit
  pub priced_at : String

-- The fields that the routes read; the display name and the disclosed rates are left out.
pub record CatalogEntry : Type 0 where
  pub id : String
  pub upstream : String
  pub binding : Bool
  pub api : Option Api
  pub modality : Modality
  pub billing : Billing
  pub tier : ModelTier
  pub streaming : Bool
  pub max_output_tokens : Option ℕ
  pub price : Option TokenPrice
  pub unit_price : Option UnitPrice

-- `DOOR_MODALITIES.has(m)`
abbrev pub has_door : Modality → Bool
has_door chat = true
has_door image = true
has_door tts = true
has_door stt = true
has_door music = true
has_door video = true
has_door voice = true

abbrev pub tier_eq : ModelTier → ModelTier → Bool
tier_eq standard standard = true
tier_eq premium premium = true
tier_eq _ _ = false

-- `findModel`: of two entries with one id, the later is in the map.
unfoldable pub find_model : List CatalogEntry → String → Option CatalogEntry
find_model [] id = none
find_model (e ∷ es) id = elim (find_model es id) [
  | some found ↦ some found
  | none ↦ if str_eq e.id id then some e else none
]

-- `modelsForTiers`
unfoldable pub models_for_tiers : List CatalogEntry → List ModelTier → List CatalogEntry
models_for_tiers [] tiers = []
models_for_tiers (e ∷ es) tiers =
    let rest = models_for_tiers es tiers in if any (tier_eq e.tier) tiers then e ∷ rest else rest

-- `spendable`
unfoldable pub spendable : CatalogEntry → Option TokenPrice → Option UnitPrice → Bool
spendable entry token_override unit_override =
    if has_door entry.modality
    then elim entry.modality [
      | chat ↦ is_some token_override || is_some entry.price
      | _ ↦ is_some unit_override || is_some entry.unit_price
    ]
    else false
