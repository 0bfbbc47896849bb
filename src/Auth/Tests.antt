-- ===== src/Auth/Tests.antt =====
-- The results of Auth at one client, with a digest that changes nothing.
use prism_control_plane.Prelude.{
  ℕ, ◌≡◌, ◌≢◌, ◌↔◌, refl, true, Option, none, some, String, List, [], ◌∷◌, pos,
}
use prism_control_plane.Prelude.Number.{integer}
use prism_control_plane.Prelude.Text.{codes, break_at, trim, trim_start, to_lower, is_space}
use prism_control_plane.Store.Sql.{first_where, update_where}
use prism_control_plane.Store.Schema.{Db, ClientRow, AccountRow, PlanRow, empty_db}
use prism_control_plane.Store.Accounts.{get_account, get_plan}
use prism_control_plane.Auth.{
  ParsedKey, Caller, ok, bearer_from_request, parse_client_key, format_client_key, is_key_id,
  is_secret, get_client_by_key_id, constant_time_equal, resolve_client,
}
use prism_control_plane.Auth.Keys.{parse_client_key-eq-some_iff}
use prism_control_plane.Auth.Callers.{Holds, IsLive, resolve_client_sound}
use prism_control_plane.Auth.Revocation.{revoke_client_shuts}
use prism_control_plane.Store.Clients.{revoke_client}

abbrev secret : List ℕ
secret = codes "abcdefghijklmnopqrstuvwxyz_ABCDEFGHIJKLMN-9"

abbrev key : ParsedKey
key = record { key_id = codes "0123456789abcdef"; secret = secret }

abbrev client : ClientRow
client = record {
  id = "c";
  account_id = "a";
  key_id = "0123456789abcdef";
  secret_hash = "abcdefghijklmnopqrstuvwxyz_ABCDEFGHIJKLMN-9";
  label = none;
  platform = none;
  last_seen_at = none;
  revoked_at = none;
}

abbrev account : AccountRow
account = record {
  id = "a";
  plan_id = "p";
  label = none;
  suspended_at = none;
  credit_micro_usd = 5;
  spent_micro_usd = 0;
}

abbrev plan : PlanRow
plan = record {
  id = "p";
  name = "Free";
  signup_credit_micro_usd = integer (pos 5);
  monthly_included_micro_usd = integer (pos 0);
  requests_per_minute = integer (pos 10);
  max_output_tokens = integer (pos 100);
  allowed_tiers = "standard";
}

abbrev db : Db
db = record empty_db { plans = plan ∷ []; accounts = account ∷ []; clients = client ∷ [] }

abbrev header : Option (List ℕ)
header = some (codes "Bearer pcp_0123456789abcdef_abcdefghijklmnopqrstuvwxyz_ABCDEFGHIJKLMN-9")

abbrev digest : List ℕ → List ℕ
digest s = s

abbrev caller : Caller
caller = record { client = client; account = account; plan = plan }

key-is_key_id : is_key_id key.key_id ≡ true
unfolding is_key_id
key-is_key_id = refl

key-is_secret : is_secret key.secret ≡ true
unfolding is_secret
key-is_secret = refl

let_through : resolve_client digest header db ≡ ok caller
unfolding resolve_client bearer_from_request parse_client_key is_key_id is_secret
    constant_time_equal get_client_by_key_id get_account get_plan first_where break_at trim
    trim_start to_lower is_space
let_through = refl

parse_client_key-eq-some_iff_example : (parse_client_key (codes "pcp_0_1") ≡ some key) ↔ (
    (codes "pcp_0_1" ≡ format_client_key key.key_id key.secret)
    × (is_key_id key.key_id ≡ true)
    × (is_secret key.secret ≡ true))
parse_client_key-eq-some_iff_example = parse_client_key-eq-some_iff (codes "pcp_0_1") key

resolve_client_sound_example : Holds digest header db client × IsLive digest header db caller
resolve_client_sound_example = resolve_client_sound digest header db caller let_through

-- Another client is revoked, and this one is let through.
still_let_through : resolve_client digest header (revoke_client 9 "d" db).0 ≡ ok caller
unfolding revoke_client resolve_client bearer_from_request parse_client_key is_key_id is_secret
    constant_time_equal get_client_by_key_id get_account get_plan first_where update_where break_at
    trim trim_start to_lower is_space
still_let_through = refl

revoke_client_shuts_example : ◌≢◌ {A = String} "c" "d"
revoke_client_shuts_example = revoke_client_shuts digest 9 "d" header db caller still_let_through
