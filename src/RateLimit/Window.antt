-- ===== src/RateLimit/Window.antt =====
-- What the limiter of src/rate-limit.ts bounds.
use prism_control_plane.Prelude.{
  ℕ, ◌+◌, ◌-◌, ◌≤◌, ◌<◌, ◌≡◌, ◌≢◌, refl, String, Option, none, some, List, [], ◌∷◌, arith, leb,
  eq_iff, eq_refl, if◌then◌else◌, Option-cases, Bool-cases, inl, inr, All,
}
use prism_control_plane.Store.Schema.{Db, RateBucket}
use prism_control_plane.Store.Buckets.{
  find_bucket, claimed, has_rolled, new_bucket, claim_rate_bucket, find_bucket-claim_rate_bucket,
}
use prism_control_plane.RateLimit.{rate_limit_decision, check_rate_limit}

abbrev pub start_of : Option RateBucket → Option ℕ
start_of none = none
start_of (some r) = some r.window_start

abbrev pub count_of : Option RateBucket → ℕ
count_of none = 0
count_of (some r) = r.count

-- The claim in the database and the pure decision agree on every bucket: a positive limit and a
-- positive window give one answer, whether the bucket is new, open or rolled over.
pub check_rate_limit-eq-decision :
    (key : String) (limit window now : ℕ) (db : Db)
    → 0 < limit
    → 0 < window
    → (check_rate_limit key limit window now db).1
      ≡ rate_limit_decision now
          (start_of (find_bucket key db))
          (count_of (find_bucket key db))
          limit
          window
unfolding check_rate_limit claim_rate_bucket rate_limit_decision
check_rate_limit-eq-decision key limit window now db hl hw =
    elim (Option-cases (find_bucket key db)) [
      | inl e ↦ rw e (ground arith)
      | inr (r, e) ↦ rw e (ground arith)
    ]

-- Attempts against one bucket at the listed times, and how many of them are let through.
pub attempts : String → ℕ → ℕ → List ℕ → Db → ℕ
attempts key limit window [] db = 0
attempts key limit window (t ∷ ts) db =
    let (db', d) = check_rate_limit key limit window t db in
    (if d.allowed then 1 else 0) + attempts key limit window ts db'

-- The same, over the bucket alone.
bucket_attempts : ℕ → ℕ → String → List ℕ → Option RateBucket → ℕ
bucket_attempts limit window key [] b = 0
bucket_attempts limit window key (t ∷ ts) b =
    let r = claimed key t window b in
    (if leb r.count limit then 1 else 0) + bucket_attempts limit window key ts (some r)

claim-row :
    (key : String) (t window : ℕ) (db : Db)
    → (claim_rate_bucket key t window db).1 ≡ claimed key t window (find_bucket key db)
unfolding claim_rate_bucket
claim-row key t window db = refl

claim-find :
    (key : String) (t window : ℕ) (db : Db)
    → find_bucket key (claim_rate_bucket key t window db).0
      ≡ some (claim_rate_bucket key t window db).1
claim-find key t window db =
    ground (arith, find_bucket-claim_rate_bucket key key t window db, eq_refl key)

attempts-eq-bucket_attempts :
    (key : String) (limit window : ℕ) (ts : List ℕ) (db : Db)
    → attempts key limit window ts db ≡ bucket_attempts limit window key ts (find_bucket key db)
unfolding attempts bucket_attempts check_rate_limit
attempts-eq-bucket_attempts key limit window [] db = refl
attempts-eq-bucket_attempts key limit window (t ∷ ts) db = rw (
  attempts-eq-bucket_attempts key limit window ts (claim_rate_bucket key t window db).0,
  claim-find key t window db,
  claim-row key t window db,
)

-- Before the window rolls, what is left of the limit bounds what is let through.
open_window :
    (key : String) (limit window : ℕ) (ts : List ℕ) (r : RateBucket)
    → All (λ t. t < r.window_start + window) ts
    → bucket_attempts limit window key ts (some r) ≤ limit - r.count
unfolding bucket_attempts
open_window key limit window [] r h = omega arith
open_window key limit window (t ∷ ts) r (h, hs) =
    ground (arith, open_window key limit window ts (record r { count = r.count + 1 }) hs)

-- Within one window's length from `a`, whatever the bucket was.
abbrev pub Within : ℕ → ℕ → List ℕ → Type 0
Within a window = All (λ t. (a ≤ t) × (t < a + window))

before_roll :
    (a window t : ℕ) (ts : List ℕ) → a ≤ t → Within a window ts → All (λ u. u < t + window) ts
before_roll a window t [] h k = tt
before_roll a window t (u ∷ ts) h ((k, l), ks) = (omega arith, before_roll a window t ts h ks)

-- A new window lets through at most the limit.
new_window :
    (key : String) (limit window a t : ℕ) (ts : List ℕ) (r : RateBucket)
    → a ≤ t
    → Within a window ts
    → (if leb 1 limit then 1 else 0)
        + bucket_attempts limit window key ts (some (record r { count = 1; window_start = t }))
      ≤ limit
new_window key limit window a t ts r h k = ground (
  arith,
  open_window key limit window ts (record r { count = 1; window_start = t })
      (before_roll a window t ts h k),
)

-- The window that is open lets through what is left of it, and one new window the limit.
one_roll :
    (key : String) (limit window a : ℕ) (ts : List ℕ) (r : RateBucket)
    → Within a window ts
    → bucket_attempts limit window key ts (some r) ≤ limit - r.count + limit
unfolding bucket_attempts
one_roll key limit window a [] r h = omega arith
one_roll key limit window a (t ∷ ts) r ((h, k), hs) = elim (Bool-cases (has_rolled t window r)) [
  | inl rolled ↦ rw rolled (omega (arith, new_window key limit window a t ts r h hs))
  | inr held ↦
      rw held (ground (arith, one_roll key limit window a ts (record r { count = r.count + 1 }) hs))
]

-- In any stretch of time no longer than the window, at most twice the limit is let through,
-- whatever state the bucket was in and in whatever order the attempts come.
pub attempts-le_twice :
    (key : String) (limit window a : ℕ) (ts : List ℕ) (db : Db)
    → Within a window ts
    → attempts key limit window ts db ≤ limit + limit
unfolding bucket_attempts
attempts-le_twice key limit window a [] db h =
    rw (attempts-eq-bucket_attempts key limit window [] db) (omega arith)
attempts-le_twice key limit window a (t ∷ ts) db ((h, k), hs) =
    rw (attempts-eq-bucket_attempts key limit window (t ∷ ts) db)
      (elim (Option-cases (find_bucket key db)) [
        | inl e ↦ rw e (omega (arith, new_window key limit window a t ts (new_bucket key t) h hs))
        | inr (r, e) ↦ rw e (omega (arith, one_roll key limit window a (t ∷ ts) r ((h, k), hs)))
      ])

-- Refused attempts count too: once the limit has been reached, every further attempt before the
-- window rolls is refused, however many there are.
pub attempts_shut :
    (key : String) (limit window : ℕ) (ts : List ℕ) (db : Db) (r : RateBucket)
    → find_bucket key db ≡ some r
    → limit ≤ r.count
    → All (λ t. t < r.window_start + window) ts
    → attempts key limit window ts db ≡ 0
attempts_shut key limit window ts db r e h k =
    rw (attempts-eq-bucket_attempts key limit window ts db, e)
      (omega (arith, open_window key limit window ts r k))

-- An attempt against one bucket leaves every other bucket as it was.
pub check_rate_limit_other :
    (key other : String) (limit window now : ℕ) (db : Db)
    → key ≢ other
    → find_bucket other (check_rate_limit key limit window now db).0 ≡ find_bucket other db
unfolding check_rate_limit
check_rate_limit_other key other limit window now db h =
    ground (arith, find_bucket-claim_rate_bucket key other now window db, eq_iff key other)
