-- ===== src/RateLimit/Tests.antt =====
-- The results of RateLimit on one bucket.
use prism_control_plane.Prelude.{◌+◌, ◌≤◌, ◌≡◌, refl, some, [], ◌∷◌, arith}
use prism_control_plane.Store.Sql.{first_where}
use prism_control_plane.Store.Schema.{Db, RateBucket, empty_db}
use prism_control_plane.Store.Buckets.{find_bucket}
use prism_control_plane.RateLimit.{rate_limit_decision, check_rate_limit}
use prism_control_plane.RateLimit.Window.{
  start_of, count_of, attempts, check_rate_limit-eq-decision, attempts-le_twice,
}

abbrev bucket : RateBucket
bucket = record { bucket_key = "infer:a"; count = 2; window_start = 100 }

abbrev db : Db
db = record empty_db { rate_buckets = bucket ∷ [] }

found : find_bucket "infer:a" db ≡ some bucket
unfolding first_where
found = refl

check_rate_limit-eq-decision_example :
    (check_rate_limit "infer:a" 3 60 130 db).1
    ≡ rate_limit_decision 130
        (start_of (find_bucket "infer:a" db))
        (count_of (find_bucket "infer:a" db))
        3
        60
check_rate_limit-eq-decision_example =
    check_rate_limit-eq-decision "infer:a" 3 60 130 db (omega arith) (omega arith)

attempts-le_twice_example : attempts "infer:a" 3 60 (130 ∷ 150 ∷ 165 ∷ []) db ≤ 3 + 3
attempts-le_twice_example =
    attempts-le_twice "infer:a" 3 60 120 (130 ∷ 150 ∷ 165 ∷ []) db (omega arith)
