-- ===== src/Mock/Actions.antt =====
-- frontend/src/features/beach/components/activities-list.tsx and activity-action.tsx: the button of
-- an activity, against the mock that answers it.
use faf_hackathon_challenge.Prelude.{
  map, eq_refl, ◌==◌, ◌≡◌, refl, ap, ◌∙◌, sym, String, Bool, true, false, not, ◌&&◌, ◌||◌, Option,
  none, some, if◌then◌else◌, Bool-cases, inl, inr,
}
use faf_hackathon_challenge.Mock.Store.{
  StoredActivity, Storage, load_activities, load_bookings, booking_of, find_activity, holds,
  Response, booked_ok, cancelled_ok, book_found, book, cancel, MockRequest, post_book, post_cancel,
  handle, load_entries, as_stored, put_booking, Bookings,
}
use faf_hackathon_challenge.Mock.Places.{put_booking-booking, load_entries-saved}

-- What `ActivityAction` is given for an activity.
pub record ActionProps : Type 0 where
  pub is_booked : Bool
  pub is_replacing : Bool
  pub is_full : Bool
  pub is_booking : Bool
  pub is_cancelling : Bool

abbrev is_some : Option String → Bool
is_some none = false
is_some (some id) = true

-- The props of the list, by the guest's booking and the requests under way.
abbrev pub action_props : Option String → Bool → Bool → StoredActivity → ActionProps
action_props booked_activity_id is_booking is_cancelling activity =
    let is_booked = holds booked_activity_id activity.activity_id in
    record {
      is_booked = is_booked;
      is_replacing = is_some booked_activity_id && not is_booked;
      is_full = activity.remaining == 0;
      is_booking = is_booking;
      is_cancelling = is_cancelling;
    }

pub data ActionButton : Type 0 where
  cancel_button book_button switch_button : ActionButton

-- The button that `ActivityAction` shows, without the spinner, and whether it is disabled.
abbrev pub activity_action : ActionProps → ActionButton × Bool
activity_action p =
    let is_mutating = p.is_booking || p.is_cancelling in
    if p.is_booked
    then (cancel_button, is_mutating)
    else (if p.is_replacing then switch_button else book_button, p.is_full || is_mutating)

-- What the button asks for, as the handler of the mock that stands for it would take it. The paths differ:
-- the app asks under /api/beach, where the mock has no handlers.
abbrev pub request_of : ActionButton → String → String → MockRequest
request_of cancel_button guest_id activity_id = post_cancel guest_id activity_id
request_of book_button guest_id activity_id = post_book guest_id activity_id
request_of switch_button guest_id activity_id = post_book guest_id activity_id

abbrev pub is_accepted : Response → Bool
is_accepted booked_ok = true
is_accepted cancelled_ok = true
is_accepted _ = false

-- The guest's booking after a button that is not disabled.
abbrev pub booking_after : ActionButton → String → Option String
booking_after cancel_button activity_id = none
booking_after book_button activity_id = some activity_id
booking_after switch_button activity_id = some activity_id

saved-booking :
    (g : String) (v : Option String) (b : Bookings)
    → booking_of g (load_entries (map (λ e. (e.0, as_stored e.1)) (put_booking g v b))) ≡ v
saved-booking g v b =
    ap (booking_of g) (load_entries-saved (put_booking g v b))
    ∙ put_booking-booking g g v b
    ∙ ap (λ t. if t then v else booking_of g b) (eq_refl g)

-- What a guest finds: a request that is accepted unless the button was disabled, and a booking.
abbrev pub Answers : Bool → Option String → String → Response × Storage → Type 0
Answers disabled booking g (r, s) =
    (is_accepted r ≡ not disabled) × (booking_of g (load_bookings s) ≡ booking)

book_found-Answers :
    (g : String) (a : StoredActivity) (button : ActionButton) (s : Storage)
    → holds (booking_of g (load_bookings s)) a.activity_id ≡ false
    → booking_after button a.activity_id ≡ some a.activity_id
    → Answers
        (a.remaining == 0 || false)
        (if a.remaining == 0 || false
          then booking_of g (load_bookings s)
          else booking_after button a.activity_id)
        g
        (book_found g a.activity_id (booking_of g (load_bookings s)) (some a) s)
book_found-Answers g a button s away books = elim (Bool-cases (a.remaining == 0)) [
  | inl closed ↦ rw away (rw closed (refl, refl))
  | inr open_ ↦
      rw away (rw open_ (refl, saved-booking g (some a.activity_id) (load_bookings s) ∙ sym books))
]

not_booked-Answers :
    (replacing : Bool) (g : String) (a : StoredActivity) (s : Storage)
    → find_activity a.activity_id (load_activities s) ≡ some a
    → holds (booking_of g (load_bookings s)) a.activity_id ≡ false
    → let button = if replacing then switch_button else book_button in
      Answers
        (a.remaining == 0 || false)
        (if a.remaining == 0 || false
          then booking_of g (load_bookings s)
          else booking_after button a.activity_id)
        g
        (handle (request_of button g a.activity_id) s)
unfolding handle book
not_booked-Answers true g a s f away = rw f (book_found-Answers g a switch_button s away refl)
not_booked-Answers false g a s f away = rw f (book_found-Answers g a book_button s away refl)

cancelled-Answers :
    (g : String) (a : StoredActivity) (s : Storage)
    → find_activity a.activity_id (load_activities s) ≡ some a
    → holds (booking_of g (load_bookings s)) a.activity_id ≡ true
    → Answers false none g (handle (post_cancel g a.activity_id) s)
unfolding handle cancel
cancelled-Answers g a s f held_now =
    rw held_now (rw f (refl, saved-booking g none (load_bookings s)))

-- The button that an activity shows a guest is the right one, if its request is handed to the mock's
-- handler: pressed on the state that it was drawn
-- from, with no other request under way, a button that is enabled is accepted, and leaves the guest
-- without a booking if it says to cancel and with this one if it says to book or to switch; and a
-- button that is disabled stands for a request that would be refused and would change no booking. The
-- activity is the one that is listed under its id.
activity_action-Answers :
    (g : String) (a : StoredActivity) (s : Storage)
    → find_activity a.activity_id (load_activities s) ≡ some a
    → let current = booking_of g (load_bookings s) in
      let (button, disabled) = activity_action (action_props current false false a) in
      Answers disabled
        (if disabled then current else booking_after button a.activity_id)
        g
        (handle (request_of button g a.activity_id) s)
activity_action-Answers g a s f =
    elim (Bool-cases (holds (booking_of g (load_bookings s)) a.activity_id)) [
      | inl held_now ↦ rw held_now (cancelled-Answers g a s f held_now)
      | inr away ↦
          rw away
            (not_booked-Answers (is_some (booking_of g (load_bookings s)) && true) g a s f away)
    ]
