-- ===== src/Auth.antt =====
-- src/auth.ts and `constantTimeEqual` of src/crypto.ts: client keys, and who a request comes from.
-- A key is walked as its code units. The SHA-256 digest is the platform's, an argument here.
pub mod Keys
pub mod Callers
pub mod Revocation
mod Tests
use Prim.Native.Nat.{bit_or, bit_xor}
use prism_control_plane.Prelude.{
  ℕ, suc, Bool, true, false, ◌&&◌, ◌||◌, String, Option, none, some, List, [], ◌∷◌, ◌++◌, map, ◌==◌,
  leb, str_eq, if◌then◌else◌, length, not,
}
use prism_control_plane.Prelude.Text.{
  codes, codes_eq, break_at, trim, trim_start, to_lower, is_space,
}
use prism_control_plane.Store.Schema.{Db, ClientRow, AccountRow, PlanRow}
use prism_control_plane.Store.Sql.{first_where}
use prism_control_plane.Store.Accounts.{get_account, get_plan}

abbrev pub key_prefix : List ℕ
key_prefix = codes "pcp"

pub record ParsedKey : Type 0 where
  pub key_id : List ℕ
  pub secret : List ℕ

abbrev pub all_of : (ℕ → Bool) → List ℕ → Bool
all_of p [] = true
all_of p (c ∷ s) = p c && all_of p s

-- `[0-9a-f]`
abbrev pub is_hex : ℕ → Bool
is_hex c = (leb b'0' c && leb c b'9') || (leb b'a' c && leb c b'f')

-- `[A-Za-z0-9_-]`
abbrev pub is_url_safe : ℕ → Bool
is_url_safe c =
    (leb b'A' c && leb c b'Z')
    || (leb b'a' c && leb c b'z')
    || (leb b'0' c && leb c b'9')
    || c == b'_'
    || c == b'-'

-- `KEY_ID_RE`
unfoldable pub is_key_id : List ℕ → Bool
is_key_id s = length s == 16 && all_of is_hex s

-- `SECRET_RE`
unfoldable pub is_secret : List ℕ → Bool
is_secret s = length s == 43 && all_of is_url_safe s

-- The second half of `parseClientKey`: what follows the prefix.
abbrev pub parse_rest : List ℕ → Option ParsedKey
parse_rest rest = elim (break_at b'_' rest) [
  | none ↦ none
  | some (key_id, secret) ↦
      if is_key_id key_id && is_secret secret
      then some (record { key_id = key_id; secret = secret })
      else none
]

-- `parseClientKey`
unfoldable pub parse_client_key : List ℕ → Option ParsedKey
parse_client_key raw = elim (break_at b'_' raw) [
  | none ↦ none
  | some (prefix, rest) ↦ if codes_eq prefix key_prefix then parse_rest rest else none
]

-- `formatClientKey`
unfoldable pub format_client_key : List ℕ → List ℕ → List ℕ
format_client_key key_id secret = key_prefix ++ (b'_' ∷ (key_id ++ (b'_' ∷ secret)))

-- The text after `bearer` and white space, in any case; none if there is no such text.
abbrev after_scheme : List ℕ → List ℕ → Option (List ℕ)
after_scheme [] [] = none
after_scheme [] (c ∷ s) = if is_space c then some (trim s) else none
after_scheme (p ∷ ps) [] = none
after_scheme (p ∷ ps) (c ∷ s) =
    let rest = after_scheme ps s in if to_lower c == p then rest else none

-- `bearerFromRequest`, from the Authorization header: it holds no line terminator.
unfoldable pub bearer_from_request : Option (List ℕ) → Option (List ℕ)
bearer_from_request none = none
bearer_from_request (some header) = after_scheme (codes "bearer") (trim header)

-- The loop of `constantTimeEqual`, on texts of one length.
abbrev pub diff_of : List ℕ → List ℕ → ℕ → ℕ
diff_of (a ∷ s) (b ∷ t) diff = diff_of s t (bit_or diff (bit_xor a b))
diff_of _ _ diff = diff

-- `constantTimeEqual`
unfoldable pub constant_time_equal : List ℕ → List ℕ → Bool
constant_time_equal a b = if length a == length b then diff_of a b 0 == 0 else false

pub record Caller : Type 0 where
  pub client : ClientRow
  pub account : AccountRow
  pub plan : PlanRow

pub data ResolveFailure : Type 0 where
  unauthenticated revoked suspended misconfigured : ResolveFailure

pub data ResolveResult : Type 0 where
  ok : Caller → ResolveResult
  failed : ResolveFailure → ResolveResult

-- `getClientByKeyId`
unfoldable pub get_client_by_key_id : List ℕ → Db → Option ClientRow
get_client_by_key_id key_id db = first_where (λ r. codes_eq (codes r.key_id) key_id) db.clients

-- `sha256Hex`, a platform digest
module _ (sha256_hex : List ℕ → List ℕ) where
  -- The account and the plan of a client whose key has been accepted.
  resolve_account : ClientRow → Db → ResolveResult
  resolve_account client db = elim (get_account client.account_id db) [
    | none ↦ failed misconfigured
    | some account ↦ elim account.suspended_at [
      | some _ ↦ failed suspended
      | none ↦ elim (get_plan account.plan_id db) [
        | none ↦ failed misconfigured
        | some plan ↦ ok (record { client = client; account = account; plan = plan })
      ]
    ]
  ]

  -- The secret is compared before the revocation is looked at.
  check_client : List ℕ → ClientRow → Db → ResolveResult
  unfolding resolve_account
  check_client secret client db =
      if constant_time_equal (sha256_hex secret) (codes client.secret_hash)
      then elim client.revoked_at [ some _ ↦ failed revoked | none ↦ resolve_account client db ]
      else failed unauthenticated

  -- `resolveClient`
  unfoldable pub resolve_client : Option (List ℕ) → Db → ResolveResult
  unfolding check_client
  resolve_client header db = elim (bearer_from_request header) [
    | none ↦ failed unauthenticated
    | some bearer ↦ elim (parse_client_key bearer) [
      | none ↦ failed unauthenticated
      | some key ↦ elim (get_client_by_key_id key.key_id db) [
        | none ↦ failed unauthenticated
        | some client ↦ check_client key.secret client db
      ]
    ]
  ]
