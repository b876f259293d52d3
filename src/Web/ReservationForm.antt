-- ===== src/Web/ReservationForm.antt =====
-- frontend/src/features/hotel: the form of a reservation (schemas/reservation-form-schema.ts,
-- components/guest-stepper.tsx) and the days it stands for (lib/simulation-time.ts).
use faf_hackathon_challenge.Prelude.{
  ℕ, ◌+◌, ◌-◌, ◌≤◌, ◌<◌, String, ◌&&◌, Option, none, some, List, [], ◌∷◌, leb, ltb, if◌then◌else◌,
}
use faf_hackathon_challenge.Prelude.Int.{ℤ, ◌<ℤ◌}
use faf_hackathon_challenge.Hotel.Types.{RoomType}

-- date-fns in the time zone of the browser, on times in milliseconds.
pub record Calendar : Type 0 where
  pub start_of_day : ℕ → ℕ
  pub difference_in_days : ℕ → ℕ → ℤ
  -- a later time is on the same day or on a later one
  pub start_of_day_mono : (a b : ℕ) → a ≤ b → start_of_day a ≤ start_of_day b
  -- of two starts of days, the later is more days away from a third
  pub difference_in_days_mono :
      (a b c : ℕ)
      → start_of_day a < start_of_day b
      → difference_in_days (start_of_day a) (start_of_day c)
        <ℤ difference_in_days (start_of_day b) (start_of_day c)

-- The values of the form; a date that is cleared is undefined.
pub record ReservationFormValues : Type 0 where
  pub room_type : RoomType
  pub guest_count : ℕ
  pub check_in_date : Option ℕ
  pub check_out_date : Option ℕ

pub record PostReservationRequest : Type 0 where
  pub guest_id : String
  pub room_type : RoomType
  pub guest_count : ℕ
  pub check_in_day : ℤ
  pub check_out_day : ℤ

-- `ReservationFormSchema`: what it accepts, with the two dates.
abbrev dates_if_valid : ℕ → Option ℕ → Option ℕ → Option (ℕ × ℕ)
dates_if_valid guest_count none check_out = none
dates_if_valid guest_count (some check_in) none = none
dates_if_valid guest_count (some check_in) (some check_out) =
    if leb 1 guest_count && ltb check_in check_out then some (check_in, check_out) else none

abbrev pub reservation_form_schema : ReservationFormValues → Option (ℕ × ℕ)
reservation_form_schema values =
    dates_if_valid values.guest_count values.check_in_date values.check_out_date

unfoldable pub date_to_simulation_day : Calendar → ℕ → ℕ → ℤ
date_to_simulation_day calendar anchor date =
    calendar.difference_in_days (calendar.start_of_day date) (calendar.start_of_day anchor)

abbrev pub form_to_request :
    Calendar → ℕ → ReservationFormValues → ℕ × ℕ → String → PostReservationRequest
form_to_request calendar anchor values (check_in, check_out) guest_id = record {
  guest_id = guest_id;
  room_type = values.room_type;
  guest_count = values.guest_count;
  check_in_day = date_to_simulation_day calendar anchor check_in;
  check_out_day = date_to_simulation_day calendar anchor check_out;
}

abbrev map_dates : (ℕ × ℕ → PostReservationRequest) → Option (ℕ × ℕ) → Option PostReservationRequest
map_dates f none = none
map_dates f (some dates) = some (f dates)

-- What is posted when the form is submitted; nothing where the schema refuses it.
abbrev pub submitted : Calendar → ℕ → ReservationFormValues → String → Option PostReservationRequest
submitted calendar anchor values guest_id =
    map_dates (λ dates. form_to_request calendar anchor values dates guest_id)
      (reservation_form_schema values)

-- The buttons of the guest stepper.
pub data StepperButton : Type 0 where
  fewer more : StepperButton

abbrev pub press : StepperButton → ℕ → ℕ
press fewer value = if leb value 1 then value else value - 1
press more value = value + 1

unfoldable pub press_all : List StepperButton → ℕ → ℕ
press_all [] value = value
press_all (b ∷ buttons) value = press_all buttons (press b value)
