-- ===== src/Chat/Sample.antt =====
-- A client on a plan of its own, for the tests of the routes.
use prism_control_plane.Prelude.{ℕ, Option, none, some, List, [], ◌∷◌, pos}
use prism_control_plane.Prelude.Number.{integer}
use prism_control_plane.Prelude.Text.{codes}
use prism_control_plane.Catalog.{standard}
use prism_control_plane.Store.Schema.{Db, ClientRow, AccountRow, CreditGrantRow, PlanRow, empty_db}
use prism_control_plane.Plans.{Plan}
use prism_control_plane.Chat.Context.{UpstreamAuth}

abbrev pub client : ClientRow
client = record {
  id = "cli_1";
  account_id = "acct_1";
  key_id = "00112233445566aa";
  secret_hash = "0000000000111111111122222222223333333333abc";
  label = none;
  platform = some "ios";
  last_seen_at = none;
  revoked_at = none;
}

abbrev pub account : AccountRow
account = record {
  id = "acct_1";
  plan_id = "dev";
  label = none;
  suspended_at = none;
  credit_micro_usd = 900;
  spent_micro_usd = 0;
}

abbrev pub opening : CreditGrantRow
opening = record {
  id = "g";
  account_id = "acct_1";
  micro_usd = 900;
  idempotency_key = "k";
  note = none;
}

abbrev pub dev_row : PlanRow
dev_row = record {
  id = "dev";
  name = "Dev";
  signup_credit_micro_usd = integer (pos 900);
  monthly_included_micro_usd = integer (pos 10);
  requests_per_minute = integer (pos 5);
  max_output_tokens = integer (pos 256);
  allowed_tiers = "standard";
}

abbrev pub dev : Plan
dev = record {
  id = "dev";
  name = "Dev";
  signup_credit_micro_usd = 900;
  monthly_included_micro_usd = 10;
  requests_per_minute = 5;
  max_output_tokens = 256;
  allowed_tiers = standard ∷ [];
}

abbrev pub auth : UpstreamAuth
auth = record { token_id = "tok"; value = "secret" }

abbrev pub db : Db
db = record empty_db {
  plans = dev_row ∷ [];
  accounts = account ∷ [];
  credit_grants = opening ∷ [];
  clients = client ∷ [];
}

abbrev pub header : Option (List ℕ)
header = some (codes "Bearer pcp_00112233445566aa_0000000000111111111122222222223333333333abc")
