-- ===== src/Store/Redemption.antt =====
-- Redemption of single-use tokens in src/store-d1.ts: `consumeEnrollment` and `consumeSttTicket`
-- under any sequence of attempts.
use prism_control_plane.Prelude.{
  ℕ, ◌+◌, ◌≡◌, ◌≤◌, ◌<◌, refl, ◌∙◌, Bool, true, false, ◌&&◌, not, is_some, String, Option, some,
  List, [], ◌∷◌, ◌++◌, any, any-append, total, total-concat, str_eq, eq_refl, arith, if◌then◌else◌,
  Bool-cases, inl, inr,
}
use native.Mathlib.Nat.{le_trans}
use prism_control_plane.Store.Schema.{Db, EnrollmentRow, SttTicketRow}
use prism_control_plane.Store.Sql.{first_where, update_where}
use prism_control_plane.Store.Clients.{
  consume_enrollment, create_enrollment, is_redeemable, consume_stt_ticket, create_stt_ticket,
  is_valid_ticket, new_enrollment, new_ticket,
}

-- How often a value stands in a list of answers.
abbrev pub successes {ℓ} : {A : Type ℓ} → List (Option A) → ℕ
successes = total (λ o. if is_some o then 1 else 0)

abbrev pub count_where : {R : Type 0} → (R → Bool) → List R → ℕ
count_where p = total (λ r. if p r then 1 else 0)

-- A table of tokens: which rows are still to be redeemed, and what a redemption does to one.
module _ {R : Type 0} (live : R → Bool) (valid : R → Bool) (spend : R → R) where
  update_spends :
      (t : List R)
      → ((r : R) → valid r ≡ true → live r ≡ true)
      → ((r : R) → live (spend r) ≡ false)
      → any valid t ≡ true
      → count_where live (update_where valid spend t) + 1 ≤ count_where live t
  unfolding update_where
  update_spends [] l s h = cc
  update_spends (r ∷ t) l s h = elim (Bool-cases (any valid t)) [
    | inl more ↦ ground (arith, l r, s r, update_spends t l s more)
    | inr last ↦ ground (arith, l r, s r, update_keeps t last)
  ]
    where
      update_keeps :
          (t : List R)
          → any valid t ≡ false
          → count_where live (update_where valid spend t) ≡ count_where live t
      update_keeps [] h = refl
      update_keeps (r ∷ t) h = ground (arith, update_keeps t)

  none_is_valid :
      (t : List R)
      → ((r : R) → valid r ≡ true → live r ≡ true)
      → count_where live t ≡ 0
      → any valid t ≡ false
  none_is_valid [] l h = refl
  none_is_valid (r ∷ t) l h = ground (arith, l r, none_is_valid t l)

-- Rows that no attempt has redeemed.
abbrev pub is_unspent : String → EnrollmentRow → Bool
is_unspent token_hash r = str_eq r.token_hash token_hash && not (is_some r.consumed_at)

abbrev is_open_ticket : String → SttTicketRow → Bool
is_open_ticket token_hash r = str_eq r.token_hash token_hash && not (is_some r.consumed_at)

-- Attempts on one token, each at a time and by a client, in the order in which the database runs
-- them.
unfoldable pub redeem : String → List (ℕ × String) → Db → List (Option String)
redeem token_hash [] db = []
redeem token_hash ((now, client_id) ∷ rest) db =
    (consume_enrollment now token_hash client_id db).1
    ∷ redeem token_hash rest (consume_enrollment now token_hash client_id db).0

unfoldable pub redeem_tickets : String → List ℕ → Db → List (Option (String × String))
redeem_tickets token_hash [] db = []
redeem_tickets token_hash (now ∷ rest) db =
    (consume_stt_ticket now token_hash db).1
    ∷ redeem_tickets token_hash rest (consume_stt_ticket now token_hash db).0

pub redeem_step :
    (h : String) (now : ℕ) (c : String) (db : Db)
    → (if is_some (consume_enrollment now h c db).1 then 1 else 0)
        + count_where (is_unspent h) (consume_enrollment now h c db).0.enrollments
      ≤ count_where (is_unspent h) db.enrollments
unfolding consume_enrollment
redeem_step h now c db =
    let spent =
      update_spends (is_unspent h) (is_redeemable now h)
        (λ r. record r { consumed_at = some now; consumed_by_client = some c }) db.enrollments
        (λ r e. ground arith) (λ r. ground arith) in
    elim (Bool-cases (any (is_redeemable now h) db.enrollments)) [
      | inl e ↦ rw e (ground (arith, spent e))
      | inr e ↦ rw e (omega arith)
    ]

redeem-le :
    (h : String) (attempts : List (ℕ × String)) (db : Db)
    → successes (redeem h attempts db) ≤ count_where (is_unspent h) db.enrollments
unfolding redeem
redeem-le h [] db = omega arith
redeem-le h ((now, c) ∷ rest) db =
    omega (arith, redeem_step h now c db, redeem-le h rest (consume_enrollment now h c db).0)

ticket_step :
    (h : String) (now : ℕ) (db : Db)
    → (if is_some (consume_stt_ticket now h db).1 then 1 else 0)
        + count_where (is_open_ticket h) (consume_stt_ticket now h db).0.stt_tickets
      ≤ count_where (is_open_ticket h) db.stt_tickets
unfolding consume_stt_ticket
ticket_step h now db =
    let spent =
      update_spends (is_open_ticket h) (is_valid_ticket now h)
        (λ r. record r { consumed_at = some now }) db.stt_tickets (λ r e. ground arith)
        (λ r. ground arith) in
    elim (Bool-cases (any (is_valid_ticket now h) db.stt_tickets)) [
      | inl e ↦ rw e (ground (arith, spent e))
      | inr e ↦ rw e (omega arith)
    ]

redeem_tickets-le :
    (h : String) (times : List ℕ) (db : Db)
    → successes (redeem_tickets h times db) ≤ count_where (is_open_ticket h) db.stt_tickets
unfolding redeem_tickets
redeem_tickets-le h [] db = omega arith
redeem_tickets-le h (now ∷ rest) db =
    omega (arith, ticket_step h now db, redeem_tickets-le h rest (consume_stt_ticket now h db).0)

none_of_hash :
    (h : String) (t : List EnrollmentRow)
    → any (λ r. str_eq r.token_hash h) t ≡ false
    → count_where (is_unspent h) t ≡ 0
none_of_hash h [] e = refl
none_of_hash h (r ∷ t) e = ground (arith, none_of_hash h t)

no_ticket_of_hash :
    (h : String) (t : List SttTicketRow)
    → any (λ r. str_eq r.token_hash h) t ≡ false
    → count_where (is_open_ticket h) t ≡ 0
no_ticket_of_hash h [] e = refl
no_ticket_of_hash h (r ∷ t) e = ground (arith, no_ticket_of_hash h t)

-- A redemption of a row behind rows of other hashes changes that row, and finds it.
first_where-update_last :
    {R : Type 0} (same valid : R → Bool) (spend : R → R) (t : List R) (x : R)
    → ((r : R) → valid r ≡ true → same r ≡ true)
    → any same t ≡ false
    → valid x ≡ true
    → same (spend x) ≡ true
    → first_where same (update_where valid spend (t ++ x ∷ [])) ≡ some (spend x)
unfolding first_where update_where
first_where-update_last same valid spend [] x l h v w = rw v (rw w)
first_where-update_last same valid spend (r ∷ t) x l h v w =
    ground (arith, l r, first_where-update_last same valid spend t x l)

pub created :
    (h a : String) (expires : ℕ) (memo : Option String) (db db' : Db)
    → create_enrollment h a expires memo db ≡ some db'
    → (any (λ r. str_eq r.token_hash h) db.enrollments ≡ false)
      × (db'.enrollments ≡ db.enrollments ++ new_enrollment h a expires memo ∷ [])
unfolding create_enrollment
created h a expires memo db db' e =
    elim (Bool-cases (any (λ r. str_eq r.token_hash h) db.enrollments)) [
      | inl old ↦ absurd (ground arith)
      | inr new ↦ (new, ground arith)
    ]

ticket_created :
    (h a c : String) (expires : ℕ) (db db' : Db)
    → create_stt_ticket h a c expires db ≡ some db'
    → (any (λ r. str_eq r.token_hash h) db.stt_tickets ≡ false)
      × (db'.stt_tickets ≡ db.stt_tickets ++ new_ticket h a c expires ∷ [])
unfolding create_stt_ticket
ticket_created h a c expires db db' e =
    elim (Bool-cases (any (λ r. str_eq r.token_hash h) db.stt_tickets)) [
      | inl old ↦ absurd (ground arith)
      | inr new ↦ (new, ground arith)
    ]

pub one_unspent :
    (h a : String) (expires : ℕ) (memo : Option String) (t : List EnrollmentRow)
    → any (λ r. str_eq r.token_hash h) t ≡ false
    → count_where (is_unspent h) (t ++ new_enrollment h a expires memo ∷ []) ≤ 1
one_unspent h a expires memo t new = ground (
  arith,
  total-concat (λ r. if is_unspent h r then 1 else 0) t (new_enrollment h a expires memo),
  none_of_hash h t new,
)

one_open :
    (h a c : String) (expires : ℕ) (t : List SttTicketRow)
    → any (λ r. str_eq r.token_hash h) t ≡ false
    → count_where (is_open_ticket h) (t ++ new_ticket h a c expires ∷ []) ≤ 1
one_open h a c expires t new = ground (
  arith,
  total-concat (λ r. if is_open_ticket h r then 1 else 0) t (new_ticket h a c expires),
  no_ticket_of_hash h t new,
)

-- A token that was just created is redeemed by the first attempt before it expires, for its own
-- account; and of any attempts on it, by whatever clients and at whatever times, at most one
-- succeeds.
pub create_enrollment-redeem :
    (h a : String) (expires : ℕ) (memo : Option String) (db db' : Db) (now : ℕ) (c : String)
    (attempts : List (ℕ × String))
    → create_enrollment h a expires memo db ≡ some db'
    → now < expires
    → ((consume_enrollment now h c db').1 ≡ some a) × (successes (redeem h attempts db') ≤ 1)
unfolding consume_enrollment
create_enrollment-redeem h a expires memo db db' now c attempts e early =
    let (new, rows) = created h a expires memo db db' e in
    let row = new_enrollment h a expires memo in
    let spend =
      λ (r : EnrollmentRow). record r { consumed_at = some now; consumed_by_client = some c } in
    (
      let valid : is_redeemable now h row ≡ true = ground (arith, eq_refl h) in
          let found =
            first_where-update_last (λ r. str_eq r.token_hash h) (is_redeemable now h) spend
              db.enrollments row (λ r v. ground arith) new valid (eq_refl h) in
          let there : any (is_redeemable now h) (db.enrollments ++ row ∷ []) ≡ true =
            any-append (is_redeemable now h) db.enrollments (row ∷ []) ∙ ground arith in
          rw rows (rw there (rw found)),
      le_trans (redeem-le h attempts db')
          (rw rows (one_unspent h a expires memo db.enrollments new)),
    )

-- A speech ticket that was just created is redeemed by the first attempt before it expires, for its
-- own account and client; and of any attempts on it, at whatever times, at most one succeeds.
pub create_stt_ticket-redeem :
    (h a c : String) (expires : ℕ) (db db' : Db) (now : ℕ) (times : List ℕ)
    → create_stt_ticket h a c expires db ≡ some db'
    → now < expires
    → ((consume_stt_ticket now h db').1 ≡ some (a, c))
      × (successes (redeem_tickets h times db') ≤ 1)
unfolding consume_stt_ticket
create_stt_ticket-redeem h a c expires db db' now times e early =
    let (new, rows) = ticket_created h a c expires db db' e in
    let row = new_ticket h a c expires in
    let spend = λ (r : SttTicketRow). record r { consumed_at = some now } in
    (
      let valid : is_valid_ticket now h row ≡ true = ground (arith, eq_refl h) in
          let found =
            first_where-update_last (λ r. str_eq r.token_hash h) (is_valid_ticket now h) spend
              db.stt_tickets row (λ r v. ground arith) new valid (eq_refl h) in
          let there : any (is_valid_ticket now h) (db.stt_tickets ++ row ∷ []) ≡ true =
            any-append (is_valid_ticket now h) db.stt_tickets (row ∷ []) ∙ ground arith in
          rw rows (rw there (rw found)),
      le_trans (redeem_tickets-le h times db')
          (rw rows (one_open h a c expires db.stt_tickets new)),
    )
