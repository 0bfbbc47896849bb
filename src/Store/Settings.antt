-- ===== src/Store/Settings.antt =====
-- Operator settings: `getModelPrice`, `listModelPrices`, `putModelPrice` and `putPlan` of
-- src/store-d1.ts. The order of model ids is an argument, the database's collation.
use prism_control_plane.Prelude.{Bool, String, Option, List, [], ◌∷◌, str_eq, if◌then◌else◌}
use prism_control_plane.Store.Schema.{Db, PlanRow}
use prism_control_plane.Store.Sql.{first_where, upsert}
use prism_control_plane.Meter.{ModelPriceRow}

abbrev pub is_price_of : String → ModelPriceRow → Bool
is_price_of model_id r = str_eq r.model_id model_id

-- `getModelPrice`
unfoldable pub get_model_price : String → Db → Option ModelPriceRow
get_model_price model_id db = first_where (is_price_of model_id) db.model_prices

-- `ORDER BY model_id`
abbrev pub insert_by_id :
    (String → String → Bool) → ModelPriceRow → List ModelPriceRow → List ModelPriceRow
insert_by_id before r [] = r ∷ []
insert_by_id before r (x ∷ xs) =
    let rest = insert_by_id before r xs in
    if before r.model_id x.model_id then r ∷ x ∷ xs else x ∷ rest

abbrev pub order_by_id : (String → String → Bool) → List ModelPriceRow → List ModelPriceRow
order_by_id before [] = []
order_by_id before (r ∷ t) = insert_by_id before r (order_by_id before t)

-- `listModelPrices`
unfoldable pub list_model_prices : (String → String → Bool) → Db → List ModelPriceRow
list_model_prices before db = order_by_id before db.model_prices

-- `putModelPrice`: every column of a row that is there is set.
unfoldable pub put_model_price : ModelPriceRow → Db → Db
put_model_price row db = record db {
  model_prices = upsert (is_price_of row.model_id) (λ _. row) row db.model_prices;
}

-- `putPlan`
unfoldable pub put_plan : PlanRow → Db → Db
put_plan row db = record db { plans = upsert (λ r. str_eq r.id row.id) (λ _. row) row db.plans }
