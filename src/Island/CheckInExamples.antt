-- ===== src/Island/CheckInExamples.antt =====
-- A guest's page with a cache kept as a function, and the hotel with one room in two lists.
use mathlib.Core.List.{Memᴰ}
use faf_hackathon_challenge.Prelude.{
  String, Bool, true, false, ◌≡◌, refl, Option, none, some, List, [], ◌∷◌, map, select, length,
  arith, if◌then◌else◌, str_eq, eq_refl,
}
use faf_hackathon_challenge.Prelude.Int.{pos}
use faf_hackathon_challenge.Values.{null}
use faf_hackathon_challenge.Hotel.Types.{RoomType, Reservation, confirmed, CreateReservationDto}
use faf_hackathon_challenge.Hotel.Clients.{
  answered, has_guest_cleared_processing, publish_hotel_event,
}
use faf_hackathon_challenge.Hotel.Reservations.{
  Config, create, choose_room, find_available, party_size, max_capacity, rejects_guest, book,
  cancel, Command, create_command, cancel_command, execute, execute_all,
}
use faf_hackathon_challenge.Hotel.Rooms.{find_all}
use faf_hackathon_challenge.Hotel.ListDatabase.{list_prisma}
use faf_hackathon_challenge.Web.Types.{GuestProfile, GuestPassport, GuestPriority}
use faf_hackathon_challenge.Web.Session.{SessionState, guest_session_state}
use faf_hackathon_challenge.Web.Zones.{use_checked_in}
use faf_hackathon_challenge.Web.ReservationForm.{PostReservationRequest}
use faf_hackathon_challenge.Web.Reservations.{ReservationEntity, QueryClient, reservation_of}
use faf_hackathon_challenge.Island.CheckIn.{
  Guest, send_form, Run, start, next, submits, creates_elsewhere,
}
use faf_hackathon_challenge.Web.RoomSummary.{get_rooms, summary, hotel_admin_room_summary}
use faf_hackathon_challenge.Island.RoomSummary.{is_taken, card_of, summary-reservations}
use faf_hackathon_challenge.Island.CheckedIn.{checked_in-confirmed}

abbrev Entries : Type 0
Entries = String → Option ReservationEntity

abbrev is_pending : Option ReservationEntity → Bool
is_pending none = true
is_pending (some r) = false

abbrev put_entry : String → ReservationEntity → Entries → Entries
put_entry k r c = λ id. if str_eq k id then some r else c id

abbrev evict : String → Entries → Entries
evict k c = λ id. if str_eq k id then none else c id

put_lem : (k : String) (r : ReservationEntity) (c : Entries) → put_entry k r c k ≡ some r
put_lem k r c = rw (eq_refl k) refl

evict_lem : (k : String) (c : Entries) → evict k c k ≡ none
evict_lem k c = rw (eq_refl k) refl

pending_lem :
    (k : String) (r : ReservationEntity) (c : Entries) → c k ≡ some r → is_pending (c k) ≡ false
pending_lem k r c h = rw h refl

abbrev entries_client : QueryClient Entries
entries_client = record {
  query_data = λ k c. c k;
  is_loading = λ k c. is_pending (c k);
  set_query_data = put_entry;
  remove_queries = evict;
  resolve = put_entry;
  reject = λ k c. c;
  query_data-set = put_lem;
  query_data-remove = evict_lem;
  query_data-resolve = put_lem;
  query_data-reject = λ k c. refl;
  loading_empty = pending_lem;
}

abbrev momo : GuestProfile
momo = record {
  id = "momo";
  name = "Momo";
  surname = "Reef";
  age = 30;
  passport = GuestPassport.eu;
  priority = GuestPriority.standard;
  disability = false;
  avatar = "momo.png";
  personality = "calm";
}

abbrev config : Config
config = record { airport_url = none; broadcast_url = none; fetch = λ url. answered null }

abbrev opened : Guest list_prisma entries_client
opened = record {
  page = record { guest_id = "momo"; cache = λ id. none; confirmed = none };
  hotel = record {
    db = record {
      rooms =
          (record { id = "room-1"; type = RoomType.suite; capacity = 4; price_per_night = 300 })
          ∷ [];
      ordered = refl;
      reservations = [];
    };
    sent = [];
  };
}

abbrev request : PostReservationRequest
request = record {
  guest_id = "momo";
  room_type = RoomType.suite;
  guest_count = 2;
  check_in_day = pos 1;
  check_out_day = pos 3;
}

abbrev other : CreateReservationDto
other = record {
  guest_id = "kiki";
  room_type = RoomType.suite;
  guest_count = 1;
  party_guest_ids = none;
  check_in_day = pos 5;
  check_out_day = pos 6;
}

abbrev reserved : Guest list_prisma entries_client
reserved = send_form list_prisma entries_client config "r1" request opened

abbrev crowded : Guest list_prisma entries_client
crowded = record reserved { hotel = (create list_prisma config "r2" other reserved.hotel).1 }

abbrev stay : Run list_prisma entries_client opened crowded
stay =
    next reserved _ (next opened _ start (submits opened config "r1" request refl))
      (creates_elsewhere reserved config "r2" other)

abbrev session : SessionState
session = guest_session_state momo

checked_in-confirmed_example :
    (r : Reservation) × Memᴰ r (list_prisma.reservations crowded.hotel.db)
    × (r.guest_id ≡ "momo")
    × (r.status ≡ confirmed)
unfolding create choose_room find_available party_size max_capacity rejects_guest book
    has_guest_cleared_processing publish_hotel_event guest_session_state use_checked_in
checked_in-confirmed_example =
    checked_in-confirmed list_prisma entries_client (λ id. none) opened crowded session momo refl
      stay refl refl refl

abbrev card : ReservationEntity
card = record {
  id = "r1";
  guest_id = "momo";
  room_id = "room-1";
  room_type = RoomType.suite;
  guest_count = 2;
  check_in_day = pos 1;
  check_out_day = pos 3;
  status = confirmed;
}

-- The card shows what was reserved, and its button cancels that.
card_test : reservation_of entries_client reserved.page ≡ some card
unfolding create choose_room find_available party_size max_capacity rejects_guest book
    has_guest_cleared_processing publish_hotel_event
card_test = refl

-- Two stays of the suite, of which the second is cancelled.
abbrev stays : List Command
stays =
    create_command config "r1" other
    ∷ create_command config "r2" (record other { check_in_day = pos 6; check_out_day = pos 9 })
    ∷ cancel_command config "r2"
    ∷ []

summary-reservations_example :
    (let db = (execute_all list_prisma stays opened.hotel).db in
      hotel_admin_room_summary (record {
        rooms = some (get_rooms (find_all list_prisma (pos 5) db));
        is_loading = false;
        error = none;
      })
      ≡ summary
          (length
            (select (is_taken (pos 5) (list_prisma.reservations db)) (list_prisma.all_rooms db)))
          (length (list_prisma.all_rooms db))
          (map (card_of (pos 5) (list_prisma.reservations db)) (list_prisma.all_rooms db)))
summary-reservations_example =
    summary-reservations list_prisma stays opened.hotel (pos 5) none refl
      (omega arith, (omega arith, (tt, tt)))

summary_test :
    hotel_admin_room_summary (record {
      rooms = some (
          get_rooms (find_all list_prisma (pos 5) (execute_all list_prisma stays opened.hotel).db));
      is_loading = false;
      error = none;
    })
    ≡ summary 1 1 (record { id = "room-1"; label = "occupied"; current = 1; capacity = 4 } ∷ [])
unfolding hotel_admin_room_summary find_all execute_all execute create choose_room find_available
    party_size max_capacity rejects_guest has_guest_cleared_processing book publish_hotel_event
    cancel
summary_test = refl
