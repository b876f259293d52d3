-- ===== src/Mock/Examples.antt =====
-- The mock from its seed: two guests on the sunset cruise, one of whom changes to the yoga.
use faf_hackathon_challenge.Prelude.{Bool, false, ℕ, ◌≡◌, refl, String, some, List, [], ◌∷◌}
use faf_hackathon_challenge.Mock.Store.{
  StoredActivity, booking_of, load_bookings, Storage, start, load_activities, MockRequest,
  get_activity, get_by_guest, post_book, post_cancel, handle, serve_all, book, cancel,
}
use faf_hackathon_challenge.Mock.Places.{remaining_of}
use faf_hackathon_challenge.Mock.Actions.{ActionButton, action_props, activity_action}
use faf_hackathon_challenge.Mock.Balance.{places, serve_all-places}
use faf_hackathon_challenge.Mock.Desk.{
  answers, done_booking, sold_out, none_held, places_left, holding,
}

abbrev cruise : String
cruise = "activity-sunset-cruise"

abbrev requests : List MockRequest
requests =
    post_book "ana" cruise
    ∷ post_book "ion" cruise
    ∷ post_book "eva" cruise
    ∷ post_book "ana" "activity-beach-yoga"
    ∷ post_book "eva" cruise
    ∷ post_cancel "ana" cruise
    ∷ get_by_guest "ana"
    ∷ get_activity cruise
    ∷ []

told :
    answers requests start
    ≡ done_booking
      ∷ done_booking
      ∷ sold_out
      ∷ done_booking
      ∷ done_booking
      ∷ none_held
      ∷ holding (some "activity-beach-yoga")
      ∷ places_left 0
      ∷ []
unfolding answers handle book cancel
told = refl

serve_all-places_example :
    ((m : ℕ) × (remaining_of cruise (load_activities (serve_all requests start)) ≡ some m))
    × (places cruise (serve_all requests start) ≡ places cruise start)
serve_all-places_example = serve_all-places cruise requests start 2 refl refl

-- The cruise, which one guest has booked, as another guest sees it.
abbrev later : Storage
later = serve_all (post_book "ana" cruise ∷ []) start

abbrev listed_cruise : StoredActivity
listed_cruise = record {
  activity_id = cruise;
  activity_name = "Sunset Cruise";
  description = "Sail along the coast and watch the sun dip below the horizon.";
  capacity = 10;
  remaining = 1;
}

abbrev button : ActionButton × Bool
button =
    activity_action
      (action_props (booking_of "ion" (load_bookings later)) false false listed_cruise)

button_test : button ≡ (ActionButton.book_button, false)
unfolding serve_all handle book
button_test = refl
