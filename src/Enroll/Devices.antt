-- ===== src/Enroll/Devices.antt =====
-- How many devices POST /v1/clients of src/routes/clients.ts gives to one enrollment token.
use prism_control_plane.Prelude.{
  ℕ, ◌+◌, ◌≡◌, ◌≤◌, refl, Bool, true, false, ◌&&◌, is_some, String, Option, none, some, List, [],
  ◌∷◌, arith, str_eq, eq_iff, All, any, Bool-cases, inl, inr, if◌then◌else◌,
}
use native.Mathlib.Nat.{le_trans}
use prism_control_plane.Prelude.Json.{Json}
use prism_control_plane.Http.{ReadBodyResult}
use prism_control_plane.Store.Schema.{Db, EnrollmentRow, AccountRow}
use prism_control_plane.Store.Sql.{update_where}
use prism_control_plane.Store.Buckets.{claim_rate_bucket}
use prism_control_plane.Store.Accounts.{get_account}
use prism_control_plane.Store.Clients.{
  NewClient, client_conflicts, create_client, is_redeemable, consume_enrollment, create_enrollment,
}
use prism_control_plane.Store.Redemption.{
  count_where, is_unspent, redeem_step, created, one_unspent,
}
use prism_control_plane.RateLimit.{
  check_rate_limit, enroll_bucket, enroll_limit, rate_window_seconds,
}
use prism_control_plane.Enroll.{
  Platform, Others, Attempt, Answer, enrolled, EnrollBody, ParseResult, parsed, problem,
  parse_enroll_body, body_of, client_ip, new_client, answer_created, enroll_account,
  enroll_redeemed, enroll_parsed, enroll_body, handle_enroll,
}

-- The rows of a token that nothing has redeemed.
abbrev pub unspent : String → Db → ℕ
unspent h db = count_where (is_unspent h) db.enrollments

-- What the other requests write never makes a redeemed token fresh, nor issues it again.
abbrev pub KeepsSpent : String → Others → Type 0
KeepsSpent h o =
    ((db : Db) → unspent h (o.before_redeem db) ≤ unspent h db)
    × ((db : Db) → unspent h (o.before_account db) ≤ unspent h db)
    × ((db : Db) → unspent h (o.before_create db) ≤ unspent h db)

abbrev pub is_enrolled : Answer → Bool
is_enrolled (enrolled e) = true
is_enrolled _ = false

-- Whether the body that is accepted holds the token of this hash.
abbrev pub parsed_presents : (String → String) → String → ParseResult → Bool
parsed_presents sha256_hex h (parsed b) = str_eq (sha256_hex b.token) h
parsed_presents sha256_hex h (problem p) = false

abbrev pub body_presents : (String → String) → String → ReadBodyResult Json → Bool
body_presents sha256_hex h (ReadBodyResult.ok v) =
    parsed_presents sha256_hex h (parse_enroll_body v)
body_presents sha256_hex h (ReadBodyResult.refused code) = false

abbrev gained : Bool → Answer → ℕ
gained presents answer = if presents && is_enrolled answer then 1 else 0

-- How many of the requests, one after another, are answered with a client for the token.
unfoldable pub devices : Platform → String → List (Others × Attempt) → Db → ℕ
devices p h [] db = 0
devices p h ((o, a) ∷ rest) db =
    gained (body_presents p.sha256_hex h (body_of p a)) (handle_enroll p o a db).1
    + devices p h rest (handle_enroll p o a db).0

update_never_revives :
    (live valid : EnrollmentRow → Bool) (spend : EnrollmentRow → EnrollmentRow)
    (t : List EnrollmentRow)
    → ((r : EnrollmentRow) → live (spend r) ≡ false)
    → count_where live (update_where valid spend t) ≤ count_where live t
unfolding update_where
update_never_revives live valid spend [] s = omega arith
update_never_revives live valid spend (r ∷ t) s =
    ground (arith, s r, update_never_revives live valid spend t s)

redeem_other :
    (h other : String) (now : ℕ) (c : String) (db : Db)
    → unspent h (consume_enrollment now other c db).0 ≤ unspent h db
unfolding consume_enrollment
redeem_other h other now c db =
    let spent =
      update_never_revives (is_unspent h) (is_redeemable now other)
        (λ r. record r { consumed_at = some now; consumed_by_client = some c }) db.enrollments
        (λ r. ground arith) in
    elim (Bool-cases (any (is_redeemable now other) db.enrollments)) [
      | inl e ↦ rw e spent
      | inr e ↦ rw e (omega arith)
    ]

-- A redemption by the token of any hash, counted where it is the hash in question.
redeem_counted :
    (h other : String) (now : ℕ) (c : String) (db : Db)
    → (if str_eq other h && is_some (consume_enrollment now other c db).1 then 1 else 0)
        + unspent h (consume_enrollment now other c db).0
      ≤ unspent h db
redeem_counted h other now c db = elim (Bool-cases (str_eq other h)) [
  | inl e ↦ rw ((eq_iff other h).0 e) (ground (arith, redeem_step h now c db))
  | inr e ↦ rw e (omega (arith, redeem_other h other now c db))
]

module _ (h : String) (o : Others) (a : Attempt) (k : KeepsSpent h o) where
  create_keeps :
      (account : AccountRow) (c : NewClient) (db : Db)
      → (answer_created o a account db (create_client c db)).0.enrollments ≡ db.enrollments
  unfolding create_client
  create_keeps account c db = elim (Bool-cases (any (client_conflicts c) db.clients)) [
    | inl e ↦ rw e refl
    | inr e ↦ rw e (ground arith)
  ]

  account_keeps :
      (body : EnrollBody) (found : Option AccountRow) (db : Db)
      → unspent h (enroll_account o a body found db).0 ≤ unspent h db
  account_keeps body none db = omega arith
  account_keeps body (some account) db = elim (Bool-cases (is_some account.suspended_at)) [
    | inl e ↦ rw e (omega arith)
    | inr e ↦
        let c = new_client o a body account in
        let db' = o.before_create db in rw e (rw (create_keeps account c db') (k.2 db))
  ]

  redeemed_keeps :
      (presents : Bool) (body : EnrollBody) (found : Option String) (db : Db)
      → gained presents (enroll_redeemed o a body found db).1
          + unspent h (enroll_redeemed o a body found db).0
        ≤ (if presents && is_some found then 1 else 0) + unspent h db
  redeemed_keeps presents body none db = ground arith
  redeemed_keeps presents body (some id) db =
      let db' = o.before_account db in
      ground (arith, account_keeps body (get_account id db') db', k.1 db)

  parsed_keeps :
      (sha256_hex : String → String) (r : ParseResult) (db : Db)
      → gained (parsed_presents sha256_hex h r) (enroll_parsed o a sha256_hex r db).1
          + unspent h (enroll_parsed o a sha256_hex r db).0
        ≤ unspent h db
  parsed_keeps sha256_hex (problem q) db = omega arith
  parsed_keeps sha256_hex (parsed body) db =
      let db' = o.before_redeem db in
      let token = sha256_hex body.token in
      let (after, found) = consume_enrollment a.redeemed_at token a.minted.client_id db' in
      let one = redeem_counted h token a.redeemed_at a.minted.client_id db' in
      let rest = redeemed_keeps (str_eq token h) body found after in
      le_trans rest (le_trans one (k.0 db))

  body_keeps :
      (sha256_hex : String → String) (r : ReadBodyResult Json) (db : Db)
      → gained (body_presents sha256_hex h r) (enroll_body o a sha256_hex r db).1
          + unspent h (enroll_body o a sha256_hex r db).0
        ≤ unspent h db
  body_keeps sha256_hex (ReadBodyResult.refused code) db = omega arith
  body_keeps sha256_hex (ReadBodyResult.ok v) db = parsed_keeps sha256_hex (parse_enroll_body v) db

  enroll_keeps :
      (p : Platform) (db : Db)
      → gained (body_presents p.sha256_hex h (body_of p a)) (handle_enroll p o a db).1
          + unspent h (handle_enroll p o a db).0
        ≤ unspent h db
  unfolding handle_enroll check_rate_limit claim_rate_bucket
  enroll_keeps p db =
      let key = enroll_bucket (client_ip a.ip) in
      let (db', rate) = check_rate_limit key enroll_limit rate_window_seconds a.limited_at db in
      elim (Bool-cases rate.allowed) [
        | inl e ↦ rw e (body_keeps p.sha256_hex (body_of p a) db')
        | inr e ↦ rw e (ground arith)
      ]

devices_le :
    (p : Platform) (h : String) (attempts : List (Others × Attempt)) (db : Db)
    → All (λ x. KeepsSpent h x.0) attempts
    → devices p h attempts db ≤ unspent h db
unfolding devices
devices_le p h [] db k = omega arith
devices_le p h ((o, a) ∷ rest) db (k, ks) =
    omega (arith, enroll_keeps h o a k p db, devices_le p h rest (handle_enroll p o a db).0 ks)

-- Of any requests that present an enrollment token that was just created, whatever they hold, at
-- whatever times and from whatever devices, at most one is answered with a client, provided that
-- what others write in between neither makes a redeemed token fresh nor issues it again.
pub devices_le_one :
    (p : Platform) (h account : String) (expires : ℕ) (memo : Option String) (db db' : Db)
    (attempts : List (Others × Attempt))
    → create_enrollment h account expires memo db ≡ some db'
    → All (λ x. KeepsSpent h x.0) attempts
    → devices p h attempts db' ≤ 1
devices_le_one p h account expires memo db db' attempts e k =
    let (fresh, rows) = created h account expires memo db db' e in
    le_trans (devices_le p h attempts db' k)
      (rw rows (one_unspent h account expires memo db.enrollments fresh))
