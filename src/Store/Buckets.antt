-- ===== src/Store/Buckets.antt =====
-- Rate-limit buckets: `claimRateBucket` of src/store-d1.ts.
use prism_control_plane.Prelude.{
  ℕ, ◌+◌, ◌≡◌, refl, Bool, String, Option, none, some, arith, leb, str_eq, eq_iff, if◌then◌else◌,
}
use prism_control_plane.Store.Schema.{Db, RateBucket}
use prism_control_plane.Store.Sql.{first_where, upsert, first_where-upsert}

abbrev pub is_bucket : String → RateBucket → Bool
is_bucket key r = str_eq r.bucket_key key

-- `(now - window_start) >= window`
abbrev pub has_rolled : ℕ → ℕ → RateBucket → Bool
has_rolled now_sec window_seconds r = leb (r.window_start + window_seconds) now_sec

abbrev pub new_bucket : String → ℕ → RateBucket
new_bucket key now_sec = record { bucket_key = key; count = 1; window_start = now_sec }

-- The SET clause of the claim.
abbrev pub bump : ℕ → ℕ → RateBucket → RateBucket
bump now_sec window_seconds r = record r {
  count = if has_rolled now_sec window_seconds r then 1 else r.count + 1;
  window_start = if has_rolled now_sec window_seconds r then now_sec else r.window_start;
}

abbrev pub find_bucket : String → Db → Option RateBucket
find_bucket key db = first_where (is_bucket key) db.rate_buckets

-- What RETURNING gives: the row after the claim.
abbrev pub claimed : String → ℕ → ℕ → Option RateBucket → RateBucket
claimed key now_sec window_seconds none = new_bucket key now_sec
claimed key now_sec window_seconds (some r) = bump now_sec window_seconds r

-- `claimRateBucket`
unfoldable pub claim_rate_bucket : String → ℕ → ℕ → Db → Db × RateBucket
claim_rate_bucket key now_sec window_seconds db = (
  record db {
    rate_buckets =
        upsert (is_bucket key) (bump now_sec window_seconds) (new_bucket key now_sec)
          db.rate_buckets;
  },
  claimed key now_sec window_seconds (find_bucket key db),
)

-- The bucket of a key after a claim on a key: its own is the row that was returned, any other is
-- what it was.
pub find_bucket-claim_rate_bucket :
    (key other : String) (now_sec window_seconds : ℕ) (db : Db)
    → find_bucket other (claim_rate_bucket key now_sec window_seconds db).0 ≡ (
        if str_eq key other
        then some (claim_rate_bucket key now_sec window_seconds db).1
        else find_bucket other db)
unfolding claim_rate_bucket
find_bucket-claim_rate_bucket key other now_sec window_seconds db = ground (
  arith,
  eq_iff key other,
  first_where-upsert (is_bucket key) (is_bucket other) (bump now_sec window_seconds)
      (new_bucket key now_sec) db.rate_buckets (str_eq key other)
      (λ r h. (ground (arith, eq_iff r.bucket_key key), ground (arith, eq_iff r.bucket_key key)))
      (λ r h e. ground (arith, eq_iff key other)) refl,
)
