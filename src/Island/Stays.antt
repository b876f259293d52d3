-- ===== src/Island/Stays.antt =====
-- The web app's reservation form against the hotel's service.
use faf_hackathon_challenge.Prelude.{
  ℕ, ◌≤◌, ◌<◌, String, Bool, true, false, ◌≡◌, refl, ap, ◌↔◌, Option, none, some, List, [], ◌∷◌,
  if◌then◌else◌, arith, le→leb, lt→ltb,
}
use faf_hackathon_challenge.Prelude.Int.{leb_int}
use faf_hackathon_challenge.Web.ReservationForm.{
  form_to_request, Calendar, ReservationFormValues, PostReservationRequest, submitted,
  date_to_simulation_day, StepperButton, fewer, more, press, press_all,
}
use faf_hackathon_challenge.Hotel.Types.{Room, RoomType, CreateReservationDto}
use faf_hackathon_challenge.Hotel.Prisma.{Prisma}
use faf_hackathon_challenge.Hotel.Reservations.{
  ok, http_error, HttpError, bad_days, Config, choose_room, rejects_guest, exceeds, find_available,
  party_size, max_capacity,
}

-- The request as the hotel's controller takes it: it names no other guests.
abbrev pub as_dto : PostReservationRequest → CreateReservationDto
as_dto r = record {
  guest_id = r.guest_id;
  room_type = r.room_type;
  guest_count = r.guest_count;
  party_guest_ids = none;
  check_in_day = r.check_in_day;
  check_out_day = r.check_out_day;
}

press-positive : (b : StepperButton) (value : ℕ) → 1 ≤ value → 1 ≤ press b value
press-positive fewer value h = ground arith
press-positive more value h = ground arith

press_all-positive :
    (buttons : List StepperButton) (value : ℕ) → 1 ≤ value → 1 ≤ press_all buttons value
unfolding press_all
press_all-positive [] value h = h
press_all-positive (b ∷ buttons) value h =
    press_all-positive buttons (press b value) (press-positive b value h)

-- Of the hotel's answers, only one is that the days are bad.
only_bad_days :
    (bad uncleared crowded : Bool) (found : Option Room)
    → (if bad
        then http_error bad_days
        else if uncleared
        then http_error HttpError.not_cleared
        else if crowded
        then http_error HttpError.too_many_guests
        else elim found [ none ↦ http_error HttpError.no_available_room | some room ↦ ok room ])
      ≡ http_error bad_days
    → bad ≡ true
only_bad_days true uncleared crowded found h = refl
only_bad_days false true crowded found h = cc
only_bad_days false false true found h = cc
only_bad_days false false false none h = cc
only_bad_days false false false (some room) h = cc

-- The form as it is opened, with the buttons for the guests pressed and two dates chosen.
abbrev pub filled : RoomType → List StepperButton → ℕ → ℕ → ReservationFormValues
filled room_type buttons check_in check_out = record {
  room_type = room_type;
  guest_count = press_all buttons 1;
  check_in_date = some check_in;
  check_out_date = some check_out;
}

pub filled-submitted :
    (calendar : Calendar) (anchor : ℕ) (room_type : RoomType) (buttons : List StepperButton)
    (a b : ℕ) (guest_id : String)
    → a < b
    → submitted calendar anchor (filled room_type buttons a b) guest_id
      ≡ some (form_to_request calendar anchor (filled room_type buttons a b) (a, b) guest_id)
filled-submitted calendar anchor room_type buttons a b guest_id h =
    let counted = press_all-positive buttons 1 (omega arith) in
    rw (le→leb 1 (press_all buttons 1) counted) (rw (lt→ltb a b h) refl)

module _ (calendar : Calendar) (anchor : ℕ) where
  same_day-equal :
      (a b : ℕ)
      → calendar.start_of_day a ≡ calendar.start_of_day b
      → leb_int
          (date_to_simulation_day calendar anchor b)
          (date_to_simulation_day calendar anchor a)
        ≡ true
  unfolding date_to_simulation_day
  same_day-equal a b e =
      let same = ap (λ t. calendar.difference_in_days t (calendar.start_of_day anchor)) e in
      ground arith

  equal-same_day :
      (a b : ℕ)
      → a < b
      → leb_int
          (date_to_simulation_day calendar anchor b)
          (date_to_simulation_day calendar anchor a)
        ≡ true
      → calendar.start_of_day a ≡ calendar.start_of_day b
  unfolding date_to_simulation_day
  equal-same_day a b h e =
      let later = calendar.start_of_day_mono a b (omega arith) in
      let further = calendar.difference_in_days_mono a b anchor in ground arith

  -- A form with a check-out after the check-in is always posted, whatever buttons for the guests were
  -- pressed, with the count that they show. The hotel refuses its days exactly where the two times
  -- fall on one day, although the form has accepted them.
  pub submitted-bad_days :
      {Db : Type 0} (prisma : Prisma Db) (config : Config) (room_type : RoomType)
      (buttons : List StepperButton) (a b : ℕ) (guest_id : String) (db : Db)
      → a < b
      → (request : PostReservationRequest) × (submitted calendar anchor
            (filled room_type buttons a b)
            guest_id
          ≡ some request)
        × (request.guest_count ≡ press_all buttons 1)
        × ((choose_room prisma config (as_dto request) db ≡ http_error bad_days)
            ↔ (calendar.start_of_day a ≡ calendar.start_of_day b))
  unfolding choose_room
  submitted-bad_days prisma config room_type buttons a b guest_id db h =
      let request =
        form_to_request calendar anchor (filled room_type buttons a b) (a, b) guest_id in
      let dto = as_dto request in
      (
        request,
        filled-submitted calendar anchor room_type buttons a b guest_id h,
        refl,
        (
          λ refused. equal-same_day a b h (
              only_bad_days (leb_int dto.check_out_day dto.check_in_day)
                (rejects_guest config dto.guest_id)
                (exceeds (party_size dto) (max_capacity (prisma.find_rooms dto.room_type db)))
                (find_available prisma dto db (prisma.find_rooms dto.room_type db)) refused),
          λ same. rw (same_day-equal a b same) refl,
        ),
      )
