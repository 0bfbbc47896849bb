-- ===== src/Store/Clients.antt =====
-- Client keys, enrollments and speech tickets: `getClient`, `touchClient`, `createClient`,
-- `revokeClient`, `consumeEnrollment`, `createEnrollment`, `createSttTicket` and
-- `consumeSttTicket` of src/store-d1.ts. `now` is the database's clock. An insert that a UNIQUE or
-- PRIMARY KEY constraint refuses throws, which is `none`.
use prism_control_plane.Prelude.{
  ℕ, Bool, ◌&&◌, ◌||◌, String, Option, none, some, is_some, not, [], ◌∷◌, ◌++◌, any, str_eq, ltb,
  if◌then◌else◌,
}
use prism_control_plane.Store.Schema.{Db, ClientRow, EnrollmentRow, SttTicketRow}
use prism_control_plane.Store.Sql.{first_where, update_where}

abbrev pub is_client : String → ClientRow → Bool
is_client id r = str_eq r.id id

-- `getClient`
unfoldable pub get_client : String → Db → Option ClientRow
get_client id db = first_where (is_client id) db.clients

-- `touchClient`
unfoldable pub touch_client : ℕ → String → Db → Db
touch_client now id db = record db {
  clients = update_where (is_client id) (λ r. record r { last_seen_at = some now }) db.clients;
}

pub record NewClient : Type 0 where
  pub id : String
  pub account_id : String
  pub key_id : String
  pub secret_hash : String
  pub label : Option String
  pub platform : Option String

abbrev pub client_row : NewClient → ClientRow
client_row c = record {
  id = c.id;
  account_id = c.account_id;
  key_id = c.key_id;
  secret_hash = c.secret_hash;
  label = c.label;
  platform = c.platform;
  last_seen_at = none;
  revoked_at = none;
}

abbrev pub client_conflicts : NewClient → ClientRow → Bool
client_conflicts c r = str_eq r.id c.id || str_eq r.key_id c.key_id

-- `createClient`: the insert, and the row read back.
unfoldable pub create_client : NewClient → Db → Option (Db × ClientRow)
unfolding get_client
create_client c db =
    if any (client_conflicts c) db.clients
    then none
    else let db' = record db { clients = db.clients ++ client_row c ∷ [] } in
      elim (get_client c.id db') [ none ↦ none | some r ↦ some (db', r) ]

-- The row that `revokeClient` changes: a live client of that id.
abbrev pub is_live_client : String → ClientRow → Bool
is_live_client id r = str_eq r.id id && not (is_some r.revoked_at)

-- `revokeClient`: whether a live client was revoked.
unfoldable pub revoke_client : ℕ → String → Db → Db × Bool
revoke_client now id db = (
  record db {
    clients = update_where (is_live_client id) (λ r. record r { revoked_at = some now }) db.clients;
  },
  any (is_live_client id) db.clients,
)

-- The WHERE clause of the redemption of an enrollment.
abbrev pub is_redeemable : ℕ → String → EnrollmentRow → Bool
is_redeemable now token_hash r =
    str_eq r.token_hash token_hash && not (is_some r.consumed_at) && ltb now r.expires_at

-- `consumeEnrollment`: the account of the token, where the UPDATE changed a row.
unfoldable pub consume_enrollment : ℕ → String → String → Db → Db × Option String
consume_enrollment now token_hash client_id db =
    if any (is_redeemable now token_hash) db.enrollments
    then (let enrollments =
          update_where (is_redeemable now token_hash)
            (λ r. record r { consumed_at = some now; consumed_by_client = some client_id })
            db.enrollments in
        (
          record db { enrollments = enrollments },
          elim (first_where (λ r. str_eq r.token_hash token_hash) enrollments) [
            | none ↦ none
            | some r ↦ some r.account_id
          ],
        ))
    else (db, none)

abbrev pub new_enrollment : String → String → ℕ → Option String → EnrollmentRow
new_enrollment token_hash account_id expires_at note = record {
  token_hash = token_hash;
  account_id = account_id;
  expires_at = expires_at;
  consumed_at = none;
  consumed_by_client = none;
  note = note;
}

-- `createEnrollment`
unfoldable pub create_enrollment : String → String → ℕ → Option String → Db → Option Db
create_enrollment token_hash account_id expires_at note db =
    if any (λ r. str_eq r.token_hash token_hash) db.enrollments
    then none
    else some (record db {
      enrollments = db.enrollments ++ new_enrollment token_hash account_id expires_at note ∷ [];
    })

abbrev pub new_ticket : String → String → String → ℕ → SttTicketRow
new_ticket token_hash account_id client_id expires_at = record {
  token_hash = token_hash;
  account_id = account_id;
  client_id = client_id;
  expires_at = expires_at;
  consumed_at = none;
}

-- `createSttTicket`
unfoldable pub create_stt_ticket : String → String → String → ℕ → Db → Option Db
create_stt_ticket token_hash account_id client_id expires_at db =
    if any (λ r. str_eq r.token_hash token_hash) db.stt_tickets
    then none
    else some (record db {
      stt_tickets = db.stt_tickets ++ new_ticket token_hash account_id client_id expires_at ∷ [];
    })

-- The WHERE clause of the redemption of a ticket.
abbrev pub is_valid_ticket : ℕ → String → SttTicketRow → Bool
is_valid_ticket now token_hash r =
    str_eq r.token_hash token_hash && not (is_some r.consumed_at) && ltb now r.expires_at

-- `consumeSttTicket`: the account and the client of the ticket.
unfoldable pub consume_stt_ticket : ℕ → String → Db → Db × Option (String × String)
consume_stt_ticket now token_hash db =
    if any (is_valid_ticket now token_hash) db.stt_tickets
    then (let stt_tickets =
          update_where (is_valid_ticket now token_hash) (λ r. record r { consumed_at = some now })
            db.stt_tickets in
        (
          record db { stt_tickets = stt_tickets },
          elim (first_where (λ r. str_eq r.token_hash token_hash) stt_tickets) [
            | none ↦ none
            | some r ↦ some (r.account_id, r.client_id)
          ],
        ))
    else (db, none)
