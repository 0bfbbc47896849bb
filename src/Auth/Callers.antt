-- ===== src/Auth/Callers.antt =====
-- Who src/auth.ts lets through.
use prism_control_plane.Prelude.{
  ℕ, ◌≡◌, refl, Option, none, some, List, arith, Bool-cases, Option-cases, inl, inr,
}
use prism_control_plane.Prelude.Text.{codes}
use prism_control_plane.Store.Schema.{Db, ClientRow, AccountRow, PlanRow}
use prism_control_plane.Store.Accounts.{get_account, get_plan}
use prism_control_plane.Auth.{
  ParsedKey, Caller, ok, bearer_from_request, parse_client_key, format_client_key,
  get_client_by_key_id, constant_time_equal, resolve_account, resolve_client,
}
use prism_control_plane.Auth.Keys.{parse_client_key-eq-some_iff, constant_time_equal_iff}

abbrev caller_of : ClientRow → AccountRow → PlanRow → Caller
caller_of c a p = record { client = c; account = a; plan = p }

module _ (sha256_hex : List ℕ → List ℕ) (header : Option (List ℕ)) (db : Db) where
  -- The header carries a key that parses, and the key's id and secret are those of the client.
  pub record Holds (client : ClientRow) : Type 0 where
    pub key : ParsedKey
    pub bearer : bearer_from_request header ≡ some (format_client_key key.key_id key.secret)
    pub known : get_client_by_key_id key.key_id db ≡ some client
    pub secret : sha256_hex key.secret ≡ codes client.secret_hash

  -- The three rows of a caller fit together and none of them shuts it out.
  pub record IsLive (c : Caller) : Type 0 where
    pub not_revoked : c.client.revoked_at ≡ none
    pub account : get_account c.client.account_id db ≡ some c.account
    pub not_suspended : c.account.suspended_at ≡ none
    pub plan : get_plan c.account.plan_id db ≡ some c.plan

  resolve_account_sound :
      (client : ClientRow) (c : Caller)
      → client.revoked_at ≡ none
      → resolve_account sha256_hex client db ≡ ok c
      → (c.client ≡ client) × IsLive c
  unfolding resolve_account
  resolve_account_sound client c r h = elim (Option-cases (get_account client.account_id db)) [
    | inl e ↦ absurd (ground arith)
    | inr (a, ea) ↦ elim (Option-cases a.suspended_at) [
      | inr (t, es) ↦ absurd (ground arith)
      | inl es ↦ elim (Option-cases (get_plan a.plan_id db)) [
        | inl e ↦ absurd (ground arith)
        | inr (p, ep) ↦
            let same : caller_of client a p ≡ c = ground arith in
            rw (← same)
              (refl, record { not_revoked = r; account = ea; not_suspended = es; plan = ep })
      ]
    ]
  ]

-- A request is let through only with a bearer that is the client's own key, its secret matching
-- the stored digest, for a client that is not revoked, on an account that exists and is not
-- suspended, under a plan that exists.
pub resolve_client_sound :
    (sha256_hex : List ℕ → List ℕ) (header : Option (List ℕ)) (db : Db) (c : Caller)
    → resolve_client sha256_hex header db ≡ ok c
    → Holds sha256_hex header db c.client × IsLive sha256_hex header db c
unfolding resolve_client
resolve_client_sound sha header db c h = elim (Option-cases (bearer_from_request header)) [
  | inl e ↦ absurd (ground arith)
  | inr (b, eb) ↦ elim (Option-cases (parse_client_key b)) [
    | inl e ↦ absurd (ground arith)
    | inr (k, ek) ↦ elim (Option-cases (get_client_by_key_id k.key_id db)) [
      | inl e ↦ absurd (ground arith)
      | inr (r, er) ↦ elim (Bool-cases (constant_time_equal (sha k.secret) (codes r.secret_hash))) [
        | inr wrong ↦ absurd (ground arith)
        | inl right ↦ elim (Option-cases r.revoked_at) [
          | inr (t, et) ↦ absurd (ground arith)
          | inl nr ↦
              let (same, live) = resolve_account_sound sha header db r c nr (ground arith) in
              (
                rw same (record {
                  key = k;
                  bearer = rw (← ((parse_client_key-eq-some_iff b k).0 ek).0) eb;
                  known = er;
                  secret = (constant_time_equal_iff (sha k.secret) (codes r.secret_hash)).0 right;
                }),
                live,
              )
        ]
      ]
    ]
  ]
]
