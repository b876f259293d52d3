-- ===== src/Island/FormExamples.antt =====
-- The form on a calendar of UTC days, with both times on one day.
use faf_hackathon_challenge.Prelude.{
  false, ap, ◌∙◌, refl, le→leb, ◌+◌, ℕ, ◌-◌, ◌*◌, ◌/◌, ◌≤◌, ◌<◌, ◌≡◌, ◌↔◌, some, none, [], ◌∷◌, leb,
  if◌then◌else◌, arith,
}
use faf_hackathon_challenge.Prelude.Int.{ℤ, pos, negsuc, ◌<ℤ◌}
use faf_hackathon_challenge.Hotel.Types.{RoomType, Reservation, confirmed}
use faf_hackathon_challenge.Hotel.Clients.{answered}
use faf_hackathon_challenge.Values.{null}
use faf_hackathon_challenge.Hotel.Reservations.{http_error, bad_days, Config, choose_room}
use faf_hackathon_challenge.Hotel.ListDatabase.{Tables, list_prisma}
use faf_hackathon_challenge.Web.ReservationForm.{
  Calendar, PostReservationRequest, submitted, date_to_simulation_day, fewer, more, press_all,
}
use faf_hackathon_challenge.Hotel.Prisma.{occupies_room}
use faf_hackathon_challenge.Hotel.Rooms.{compute_current_day}
use faf_hackathon_challenge.Island.Clocks.{IsUtc, offered, submitted-over}
use faf_hackathon_challenge.Island.Stays.{as_dto, filled, submitted-bad_days}

abbrev day : ℕ
day = 86400000

abbrev minus : ℕ → ℕ → ℤ
minus a b = if leb b a then pos (a - b) else negsuc (b - a - 1)

minus_mono : (a b c : ℕ) → a < b → minus a c <ℤ minus b c
minus_mono a b c h = ground arith

abbrev utc_start : ℕ → ℕ
utc_start t = t / 86400000 * 86400000

utc_mono : (a b : ℕ) → a ≤ b → utc_start a ≤ utc_start b
utc_mono a b h = omega arith

utc_later : (a b : ℕ) → utc_start a < utc_start b → utc_start a / 86400000 < utc_start b / 86400000
utc_later a b h = omega arith

abbrev utc : Calendar
utc = record {
  start_of_day = utc_start;
  difference_in_days = λ a b. minus (a / 86400000) (b / 86400000);
  start_of_day_mono = utc_mono;
  difference_in_days_mono = λ a b c h.
      minus_mono (utc_start a / 86400000) (utc_start b / 86400000) (utc_start c / 86400000)
        (utc_later a b h);
}

utc_same : (t : ℕ) → utc_start t / 86400000 ≡ t / 86400000
utc_same t = omega arith

utc_difference :
    (a c : ℕ)
    → c / 86400000 ≤ a / 86400000
    → minus (utc_start a / 86400000) (utc_start c / 86400000) ≡ pos (a / 86400000 - c / 86400000)
utc_difference a c h =
    ap (λ x. minus x (utc_start c / 86400000)) (utc_same a)
    ∙ ap (minus (a / 86400000)) (utc_same c)
    ∙ ap
        (λ b.
          if b then pos (a / 86400000 - c / 86400000) else negsuc (c / 86400000 - a / 86400000 - 1))
        (le→leb (c / 86400000) (a / 86400000) h)

abbrev config : Config
config = record { airport_url = none; broadcast_url = none; fetch = λ g. answered null }

abbrev tables : Tables
tables = record {
  rooms = record { id = "room-1"; type = RoomType.suite; capacity = 4; price_per_night = 400 } ∷ [];
  ordered = refl;
  reservations = [];
}

-- From 15:00 to midnight's last hour of one day.
submitted-bad_days_example :
    (request : PostReservationRequest) × (submitted utc 0
        (filled RoomType.suite (more ∷ fewer ∷ fewer ∷ []) 54000000 82800000)
        "kiki"
      ≡ some request)
    × (request.guest_count ≡ press_all (more ∷ fewer ∷ fewer ∷ []) 1)
    × ((choose_room list_prisma config (as_dto request) tables ≡ http_error bad_days)
        ↔ (utc.start_of_day 54000000 ≡ utc.start_of_day 82800000))
submitted-bad_days_example =
    submitted-bad_days utc 0 list_prisma config RoomType.suite (more ∷ fewer ∷ fewer ∷ []) 54000000
      82800000 "kiki" tables (omega arith)

utc-IsUtc : IsUtc utc
utc-IsUtc a c h = utc_difference a c (omega arith)

-- Ten days after the start, in a game of the usual speed.
abbrev now : ℕ
now = 864000000

abbrev tonight : Reservation
tonight = record {
  id = "r1";
  guest_id = "kiki";
  room_id = "room-1";
  guest_count = 1;
  check_in_day = pos 10;
  check_out_day = pos 11;
  status = confirmed;
  guests = [];
}

submitted-over_example :
    (submitted utc 0 (filled RoomType.suite [] now (now + 86400000)) "kiki"
      ≡ some (offered utc 0 now RoomType.suite [] "kiki"))
    × (occupies_room (compute_current_day now 0 300) "room-1" tonight ≡ false)
unfolding date_to_simulation_day
submitted-over_example =
    submitted-over utc 0 now 300 RoomType.suite [] "kiki" "room-1" tonight utc-IsUtc (omega arith)
      (omega arith) refl
