-- ===== src/Store/Tokens.antt =====
-- Upstream credentials: `getUserToken`, `putUserToken`, `countLiveUserTokens`,
-- `markUserTokenRevoked` and `touchUserToken` of src/store-d1.ts.
use prism_control_plane.Prelude.{
  ℕ, Bool, ◌&&◌, not, is_some, String, Option, some, List, [], ◌∷◌, ◌++◌, str_eq, total,
  if◌then◌else◌,
}
use prism_control_plane.Store.Schema.{Db, UserTokenRow}
use prism_control_plane.Store.Sql.{first_where, update_where}

abbrev pub is_token_of : String → UserTokenRow → Bool
is_token_of account_id r = str_eq r.account_id account_id

-- `getUserToken`
unfoldable pub get_user_token : String → Db → Option UserTokenRow
get_user_token account_id db = first_where (is_token_of account_id) db.user_tokens

-- INSERT OR REPLACE: the rows in conflict are deleted, and the new row is added.
abbrev pub without_token : String → List UserTokenRow → List UserTokenRow
without_token account_id [] = []
without_token account_id (r ∷ t) =
    let rest = without_token account_id t in if is_token_of account_id r then rest else r ∷ rest

-- `putUserToken`
unfoldable pub put_user_token : UserTokenRow → Db → Db
put_user_token row db = record db {
  user_tokens = without_token row.account_id db.user_tokens ++ row ∷ [];
}

abbrev pub live_token : UserTokenRow → ℕ
live_token r = if is_some r.revoked_at then 0 else 1

-- `countLiveUserTokens`
unfoldable pub count_live_user_tokens : Db → ℕ
count_live_user_tokens db = total live_token db.user_tokens

-- `markUserTokenRevoked`
unfoldable pub mark_user_token_revoked : String → ℕ → Db → Db
mark_user_token_revoked account_id at db = record db {
  user_tokens =
      update_where (λ r. is_token_of account_id r && not (is_some r.revoked_at))
        (λ r. record r { revoked_at = some at }) db.user_tokens;
}

-- `touchUserToken`
unfoldable pub touch_user_token : String → ℕ → Db → Db
touch_user_token account_id at db = record db {
  user_tokens =
      update_where (is_token_of account_id) (λ r. record r { last_used_at = some at })
        db.user_tokens;
}
