-- ===== src/Store/Tests.antt =====
-- Tests of src/store-d1.ts: tokens.
use prism_control_plane.Prelude.{ℕ, ◌≡◌, refl, List, [], ◌∷◌, none, some, String}
use prism_control_plane.Store.Schema.{Db, empty_db}
use prism_control_plane.Store.Clients.{
  consume_enrollment, create_enrollment, new_enrollment, create_stt_ticket, new_ticket,
}
use prism_control_plane.Store.Sql.{first_where, update_where}
use prism_control_plane.Store.Redemption.{redeem}

abbrev enrolling : Db
enrolling = record empty_db { enrollments = new_enrollment "hash" "acct" 50 none ∷ [] }

abbrev two_devices : List (ℕ × String)
two_devices = (20, "phone") ∷ (21, "tablet") ∷ []

created : create_enrollment "hash" "acct" 50 none empty_db ≡ some enrolling
unfolding create_enrollment
created = refl

first_wins : redeem "hash" two_devices enrolling ≡ some "acct" ∷ none ∷ []
unfolding redeem consume_enrollment first_where update_where
first_wins = refl

abbrev ticketed : Db
ticketed = record empty_db { stt_tickets = new_ticket "hash" "acct" "phone" 50 ∷ [] }

ticket_made : create_stt_ticket "hash" "acct" "phone" 50 empty_db ≡ some ticketed
unfolding create_stt_ticket
ticket_made = refl
