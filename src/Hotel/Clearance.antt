-- ===== src/Hotel/Clearance.antt =====
-- When the airport's answer keeps a guest from a reservation.
use faf_hackathon_challenge.Prelude.{
  String, true, false, ◌≡◌, refl, ◌≢◌, Option, none, some, arith, truthy_option, Bool-cases, inl,
  inr, str_eq, or_else, eq_iff,
}
use faf_hackathon_challenge.Values.{Value, undefined, null, get, as_string, entries}
use faf_hackathon_challenge.Hotel.Clients.{
  FetchOutcome, threw, not_ok, bad_json, answered, is_processed, has_guest_cleared_processing,
}
use faf_hackathon_challenge.Hotel.Reservations.{Config, rejects_guest}

status_is_not :
    (o : Option String)
    → some (str_eq (or_else o "") "processed") ≡ some false
    → o ≢ some "processed"
status_is_not none h e = cc
status_is_not (some s) h e = ground (arith, eq_iff s "processed")

is_processed-false :
    (body : Value)
    → is_processed body ≡ some false
    → as_string (get "status" (entries body)) ≢ some "processed"
is_processed-false null h = cc
is_processed-false undefined h = cc
is_processed-false body h = status_is_not (as_string (get "status" (entries body))) h

answered_of_rejects :
    (o : FetchOutcome)
    → (elim o [
      | threw ↦ none
      | not_ok ↦ none
      | bad_json ↦ none
      | answered body ↦ is_processed body
    ])
      ≡ some false
    → (body : Value) × (o ≡ answered body)
      × (as_string (get "status" (entries body)) ≢ some "processed")
answered_of_rejects (answered body) h = (body, refl, is_processed-false body h)
answered_of_rejects _ h = cc

-- A guest is turned away only on the airport's word: the airport's address is configured, the
-- request was answered with a JSON value, and the status there is not "processed". Where the
-- airport cannot be reached or refuses, the reservation goes on.
rejects_guest-answered :
    (config : Config) (guest_id : String)
    → rejects_guest config guest_id ≡ true
    → (truthy_option config.airport_url ≡ true)
      × ((body : Value) × (config.fetch guest_id ≡ answered body)
          × (as_string (get "status" (entries body)) ≢ some "processed"))
unfolding rejects_guest has_guest_cleared_processing
rejects_guest-answered config guest_id h = elim (Bool-cases (truthy_option config.airport_url)) [
  | inl there ↦ (there, answered_of_rejects (config.fetch guest_id) (ground arith))
  | inr missing ↦ ground arith
]
