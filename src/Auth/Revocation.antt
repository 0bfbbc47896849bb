-- ===== src/Auth/Revocation.antt =====
-- A revoked key of src/auth.ts: `revokeClient` of the store, and the requests after it.
use prism_control_plane.Prelude.{
  ℕ, ◌≡◌, ◌≢◌, refl, false, not, ◌&&◌, String, Option, none, some, is_some, List, [], ◌∷◌, arith,
  str_eq, eq_iff, All, any,
}
use prism_control_plane.Store.Schema.{Db, ClientRow}
use prism_control_plane.Store.Sql.{update_where, first_where-All}
use prism_control_plane.Store.Clients.{is_live_client, revoke_client}
use prism_control_plane.Auth.{Caller, ok, resolve_client, get_client_by_key_id}
use prism_control_plane.Auth.Callers.{resolve_client_sound}
use prism_control_plane.Prelude.Text.{codes, codes_eq}

-- A client of the revoked id has a stamp.
abbrev IsStamped : String → ClientRow → Type 0
IsStamped id r = (str_eq r.id id && not (is_some r.revoked_at)) ≡ false

revoked-IsStamped :
    (now : ℕ) (id : String) (t : List ClientRow)
    → All
        (IsStamped id)
        (update_where (is_live_client id) (λ r. record r { revoked_at = some now }) t)
unfolding update_where
revoked-IsStamped now id [] = tt
revoked-IsStamped now id (r ∷ t) = (ground arith, revoked-IsStamped now id t)

stamped-ne : (id : String) (r : ClientRow) → IsStamped id r → r.revoked_at ≡ none → r.id ≢ id
stamped-ne id r s e = λ same. ground (arith, eq_iff r.id id)

-- Once a client is revoked, no bearer lets a request through as that client.
pub revoke_client_shuts :
    (sha256_hex : List ℕ → List ℕ) (now : ℕ) (id : String) (header : Option (List ℕ)) (db : Db)
    (c : Caller)
    → resolve_client sha256_hex header (revoke_client now id db).0 ≡ ok c
    → c.client.id ≢ id
unfolding revoke_client get_client_by_key_id
revoke_client_shuts sha now id header db c h =
    let (holds, live) = resolve_client_sound sha header (revoke_client now id db).0 c h in
    let stamped =
      first_where-All (IsStamped id) (λ r. codes_eq (codes r.key_id) holds.key.key_id)
        (revoke_client now id db).0.clients c.client (revoked-IsStamped now id db.clients)
        holds.known in
    stamped-ne id c.client stamped live.not_revoked

no_live :
    (id : String) (t : List ClientRow) → All (IsStamped id) t → any (is_live_client id) t ≡ false
no_live id [] h = refl
no_live id (r ∷ t) h = ground (arith, no_live id t)

stamped_unchanged :
    (id : String) (f : ClientRow → ClientRow) (t : List ClientRow)
    → All (IsStamped id) t
    → update_where (is_live_client id) f t ≡ t
unfolding update_where
stamped_unchanged id f [] h = refl
stamped_unchanged id f (r ∷ t) h = ground (arith, stamped_unchanged id f t)

-- Revoking again changes nothing, so the stamp is that of the first time, and the answer says that no
-- live client was revoked.
pub revoke_client_again :
    (now later : ℕ) (id : String) (db : Db)
    → let db' = (revoke_client now id db).0 in revoke_client later id db' ≡ (db', false)
unfolding revoke_client
revoke_client_again now later id db =
    let stamped = revoked-IsStamped now id db.clients in
    let t = update_where (is_live_client id) (λ r. record r { revoked_at = some now }) db.clients in
    rw (
      stamped_unchanged id (λ r. record r { revoked_at = some later }) t stamped,
      no_live id t stamped,
    )
