-- ===== src/Enroll/Granted.antt =====
-- Who POST /v1/clients of src/routes/clients.ts gives a client to.
use prism_control_plane.Prelude.{
  ◌≡◌, refl, sym, Bool, true, false, is_some, String, none, some, List, [], ◌∷◌, ◌++◌, arith,
  str_eq, eq_iff, eq_refl, any, Bool-cases, Option-cases, inl, inr,
}
use mathlib.Core.Path.{subst}
use prism_control_plane.Prelude.Json.{Json}
use prism_control_plane.Http.{ReadBodyResult}
use prism_control_plane.Store.Schema.{Db, ClientRow, AccountRow}
use prism_control_plane.Store.Sql.{first_where, first_where-holds}
use prism_control_plane.Store.Buckets.{claim_rate_bucket}
use prism_control_plane.Store.Accounts.{get_account}
use prism_control_plane.Store.Clients.{
  NewClient, client_row, client_conflicts, is_client, create_client, get_client, consume_enrollment,
}
use prism_control_plane.RateLimit.{
  check_rate_limit, enroll_bucket, enroll_limit, rate_window_seconds,
}
use prism_control_plane.Enroll.{
  Platform, Others, Attempt, Enrolled, enrolled, EnrollBody, ParseResult, parsed, problem,
  parse_enroll_body, body_of, client_ip, new_client, enroll_account, enroll_parsed, enroll_body,
  handle_enroll,
}

first_where-append_last :
    {R : Type 0} (p : R → Bool) (t : List R) (x : R)
    → any p t ≡ false
    → p x ≡ true
    → first_where p (t ++ x ∷ []) ≡ some x
unfolding first_where
first_where-append_last p [] x h e = rw e refl
first_where-append_last p (r ∷ t) x h e = ground (arith, first_where-append_last p t x)

fresh_id :
    (c : NewClient) (t : List ClientRow)
    → any (client_conflicts c) t ≡ false
    → any (is_client c.id) t ≡ false
fresh_id c [] h = refl
fresh_id c (r ∷ t) h = ground (arith, fresh_id c t)

-- A client that is created is the row that was asked for, under an id that was free.
create_client_stores :
    (c : NewClient) (db : Db)
    → any (client_conflicts c) db.clients ≡ false
    → (create_client c db
        ≡ some (record db { clients = db.clients ++ client_row c ∷ [] }, client_row c))
      × (get_client c.id (record db { clients = db.clients ++ client_row c ∷ [] })
          ≡ some (client_row c))
unfolding create_client get_client
create_client_stores c db free =
    let found =
      first_where-append_last (is_client c.id) db.clients (client_row c)
        (fresh_id c db.clients free) (eq_refl c.id) in
    (rw free (rw found refl), found)

create_client_taken :
    (c : NewClient) (db : Db)
    → any (client_conflicts c) db.clients ≡ true
    → create_client c db ≡ none
unfolding create_client
create_client_taken c db taken = rw taken refl

module _ (o : Others) (a : Attempt) where
  abbrev answered : AccountRow → Enrolled
  answered account = record {
    client_id = a.minted.client_id;
    key = a.minted.key;
    account_id = account.id;
    plan_id = account.plan_id;
    is_suspended = false;
  }

  -- The answer to a request, and the row that the database then holds.
  pub record IsClientOf (body : EnrollBody) (account : AccountRow) (db : Db) (r : Enrolled)
      : Type 0 where
    pub not_suspended : account.suspended_at ≡ none
    pub stored : get_client a.minted.client_id db ≡ some (client_row (new_client o a body account))
    pub answer : r ≡ answered account

  enroll_account_sound :
      (body : EnrollBody) (account : AccountRow) (db : Db) (r : Enrolled)
      → (enroll_account o a body (some account) db).1 ≡ enrolled r
      → IsClientOf body account (enroll_account o a body (some account) db).0 r
  enroll_account_sound body account db r h =
      let c = new_client o a body account in
      let db' = o.before_create db in
      elim (Option-cases account.suspended_at) [
        | inr (t, e) ↦ absurd (ground arith)
        | inl e ↦ elim (Bool-cases (any (client_conflicts c) db'.clients)) [
          | inl taken ↦ absurd (ground (arith, create_client_taken c db' taken))
          | inr free ↦
              let (made, found) = create_client_stores c db' free in
              let same : answered account ≡ r = ground arith in
              let live : is_some account.suspended_at ≡ false = ground arith in
              rw live (rw made (record { not_suspended = e; stored = found; answer = sym same }))
        ]
      ]

  -- The token of a request, redeemed: its account is found then, and the client is one of it.
  pub record IsRedeemed (sha256_hex : String → String) (r : ParseResult) (db db' : Db)
      (e : Enrolled) : Type 0 where
    pub body : EnrollBody
    pub accepted : r ≡ parsed body
    pub account : AccountRow
    pub redeemed :
        (consume_enrollment a.redeemed_at
          (sha256_hex body.token)
          a.minted.client_id
          (o.before_redeem db)).1
        ≡ some account.id
    pub exists :
        get_account account.id (
          o.before_account
            (consume_enrollment a.redeemed_at
              (sha256_hex body.token)
              a.minted.client_id
              (o.before_redeem db)).0)
        ≡ some account
    pub client : IsClientOf body account db' e

  enroll_parsed_sound :
      (sha256_hex : String → String) (r : ParseResult) (db : Db) (e : Enrolled)
      → (enroll_parsed o a sha256_hex r db).1 ≡ enrolled e
      → IsRedeemed sha256_hex r db (enroll_parsed o a sha256_hex r db).0 e
  unfolding get_account
  enroll_parsed_sound sha256_hex (problem q) db e h = absurd (cc)
  enroll_parsed_sound sha256_hex (parsed body) db e h =
      let redemption =
        consume_enrollment a.redeemed_at (sha256_hex body.token) a.minted.client_id
          (o.before_redeem db) in
      let db' = o.before_account redemption.0 in
      elim (Option-cases redemption.1) [
        | inl missing ↦ absurd (ground arith)
        | inr (id, spent) ↦ elim (Option-cases (get_account id db')) [
          | inl missing ↦ absurd (ground arith)
          | inr (account, found) ↦
              let same : account.id ≡ id =
                (eq_iff account.id id).0
                  (first_where-holds (λ r. str_eq r.id id) db'.accounts account found) in
              let stands : get_account account.id db' ≡ some account =
                subst (λ i. get_account i db' ≡ some account) (sym same) found in
              record {
                body = body;
                accepted = refl;
                account = account;
                redeemed = rw same spent;
                exists = stands;
                client = rw spent (
                    rw found
                      (enroll_account_sound body account db' e (rw found at (rw spent at h))));
              }
        ]
      ]

  enroll_body_sound :
      (sha256_hex : String → String) (r : ReadBodyResult Json) (db : Db) (e : Enrolled)
      → (enroll_body o a sha256_hex r db).1 ≡ enrolled e
      → (value : Json) × (r ≡ ReadBodyResult.ok value)
        × IsRedeemed sha256_hex (parse_enroll_body value) db (enroll_body o a sha256_hex r db).0 e
  enroll_body_sound sha256_hex (ReadBodyResult.refused code) db e h = absurd (cc)
  enroll_body_sound sha256_hex (ReadBodyResult.ok value) db e h =
      (value, refl, enroll_parsed_sound sha256_hex (parse_enroll_body value) db e h)

-- A request is answered with a client only within its network's limit, for a body that is accepted,
-- whose token this request redeems, for the account of that token, which is found in the database and
-- is not suspended there; the client's row is then stored for that account, with the secret's digest, the label
-- and the platform of the request, and the answer names it.
pub handle_enroll_sound :
    (p : Platform) (o : Others) (a : Attempt) (db : Db) (e : Enrolled)
    → (handle_enroll p o a db).1 ≡ enrolled e
    → let (db', rate) =
        check_rate_limit
          (enroll_bucket (client_ip a.ip))
          enroll_limit
          rate_window_seconds
          a.limited_at
          db in
      (rate.allowed ≡ true)
      × ((value : Json) × (body_of p a ≡ ReadBodyResult.ok value)
          × IsRedeemed o a p.sha256_hex (parse_enroll_body value) db' (handle_enroll p o a db).0 e)
unfolding handle_enroll check_rate_limit claim_rate_bucket get_account
handle_enroll_sound p o a db e h =
    let (db', rate) =
      check_rate_limit (enroll_bucket (client_ip a.ip)) enroll_limit rate_window_seconds
        a.limited_at db in
    elim (Bool-cases rate.allowed) [
      | inr over ↦ absurd (ground arith)
      | inl within ↦
          rw within (refl, enroll_body_sound o a p.sha256_hex (body_of p a) db' e (rw within at h))
    ]
