-- ===== src/Hotel/Examples.antt =====
-- The hotel service on a database of two rooms, and the theorems at inputs that meet their
-- hypotheses.
use faf_hackathon_challenge.Prelude.{
  ◌≤◌, arith, none, ◌+◌, true, false, ◌≡◌, refl, ◌≢◌, ◌↔◌, some, List, [], ◌∷◌, ◌++◌, All, any,
  length,
}
use faf_hackathon_challenge.Prelude.Int.{pos}
use faf_hackathon_challenge.Values.CodeUnits.{code_units}
use faf_hackathon_challenge.Values.{str, obj, member, no_members, get}
use faf_hackathon_challenge.Hotel.Types.{
  RoomType, Room, Reservation, confirmed, CreateReservationDto, ReservationResponse, has_id,
}
use faf_hackathon_challenge.Hotel.Clients.{
  answered, has_guest_cleared_processing, publish_hotel_event,
}
use faf_hackathon_challenge.Hotel.Reservations.{
  ok, http_error, bad_days, Config, Hotel, party_size, max_capacity, rejects_guest, choose_room,
  book, create, cancel, Command, create_command, cancel_command, execute_all,
}
use faf_hackathon_challenge.Hotel.Rooms.{RoomResponse, find_all, compute_current_day}
use faf_hackathon_challenge.Hotel.Calendar.{NoOverlap}
use faf_hackathon_challenge.Hotel.Announcing.{confirmations, execute_all-IsAnnounced}
use faf_hackathon_challenge.Hotel.FirstRoom.{IsFirst, choose_room-IsFirst}
use faf_hackathon_challenge.Hotel.Booking.{execute_all-NoOverlap}
use faf_hackathon_challenge.Hotel.Cancelling.{cancel-frees}
use faf_hackathon_challenge.Hotel.Creating.{create-error_unchanged, book-book_overlap}
use faf_hackathon_challenge.Hotel.Capacity.{execute_all-within}
use faf_hackathon_challenge.Hotel.Seed.{rooms_from, have_ids→HaveIds}
use faf_hackathon_challenge.Hotel.IdOrder.{le_text, is_ordered}
use faf_hackathon_challenge.Hotel.ListDatabase.{Tables, list_prisma}

abbrev first_room : Room
first_room = record { id = "room-1"; type = RoomType.standard; capacity = 2; price_per_night = 100 }

abbrev second_room : Room
second_room = record {
  id = "room-2";
  type = RoomType.standard;
  capacity = 2;
  price_per_night = 100;
}

abbrev config : Config
config = record {
  airport_url = some "http://airport";
  broadcast_url = some "http://hub";
  fetch = λ g. answered (obj (member "status" (str "processed") no_members));
}

abbrev dto : CreateReservationDto
dto = record {
  guest_id = "kiki";
  room_type = RoomType.standard;
  guest_count = 1;
  party_guest_ids = some ("kiki" ∷ "momo" ∷ []);
  check_in_day = pos 3;
  check_out_day = pos 5;
}

abbrev taken : Reservation
taken = record {
  id = "r0";
  guest_id = "ann";
  room_id = "room-1";
  guest_count = 2;
  check_in_day = pos 1;
  check_out_day = pos 3;
  status = confirmed;
  guests = [];
}

in_order : is_ordered (first_room ∷ second_room ∷ []) ≡ true
unfolding le_text code_units
in_order = refl

abbrev hotel : Hotel Tables
hotel = record {
  db = record {
    rooms = first_room ∷ second_room ∷ [];
    ordered = in_order;
    reservations = taken ∷ [];
  };
  sent = [];
}

opened : Unit {0}
unfolding create cancel choose_room party_size max_capacity rejects_guest
    has_guest_cleared_processing publish_hotel_event get find_all execute_all
opened = tt

-- The first room is left on the day on which the stay begins, which counts as an overlap.
chosen : choose_room list_prisma config dto hotel.db ≡ ok second_room
unfolding opened
chosen = refl

abbrev reversed : CreateReservationDto
reversed = record dto { check_out_day = pos 3 }

reversed_refused : create list_prisma config "r1" reversed hotel ≡ (http_error bad_days, hotel)
unfolding opened
reversed_refused = refl

choose_room-IsFirst_example :
    (choose_room list_prisma config dto hotel.db ≡ ok second_room)
    ↔ IsFirst list_prisma dto hotel.db config second_room
choose_room-IsFirst_example = choose_room-IsFirst list_prisma dto hotel.db config second_room

abbrev commands : List Command
commands =
    create_command config "r1" dto
    ∷ cancel_command config "r0"
    ∷ create_command config "r2" dto
    ∷ []

commands_test : length (execute_all list_prisma commands hotel).db.reservations ≡ 3
unfolding opened
commands_test = refl

execute_all-NoOverlap_example : NoOverlap (execute_all list_prisma commands hotel).db.reservations
execute_all-NoOverlap_example = execute_all-NoOverlap list_prisma commands hotel (tt, tt)

cancel-frees_example :
    list_prisma.count_overlapping "room-1"
      (pos 1)
      (pos 3)
      (cancel list_prisma config "r0" hotel).1.db
    ≡ 0
cancel-frees_example = cancel-frees list_prisma config "r0" hotel taken refl refl (tt, tt)

not_created : (x : ReservationResponse) → (create list_prisma config "r1" reversed hotel).0 ≢ ok x
not_created x = rw reversed_refused (cc)

create-error_unchanged_example : (create list_prisma config "r1" reversed hotel).1 ≡ hotel
create-error_unchanged_example =
    create-error_unchanged list_prisma config "r1" reversed hotel not_created

second_fresh :
    any (has_id "r2") (book list_prisma config "r1" dto second_room hotel).1.db.reservations ≡ false
unfolding book publish_hotel_event
second_fresh = refl

book-book_overlap_example : ¬ (
    NoOverlap
      (book list_prisma config "r2" dto second_room
        (book list_prisma config "r1" dto second_room hotel).1).1.db.reservations)
book-book_overlap_example =
    book-book_overlap list_prisma config "r1" "r2" dto second_room hotel chosen refl second_fresh
      refl refl

-- 288 seconds after the start a simulated day has gone by at speed 300 (simulation-clock.spec.ts).
day_tests :
    (compute_current_day 1000 1000 300 ≡ pos 0)
    × (compute_current_day 145000 1000 300 ≡ pos 0)
    × (compute_current_day 289000 1000 300 ≡ pos 1)
    × (compute_current_day 865000 1000 300 ≡ pos 3)
unfolding compute_current_day
day_tests = (refl, refl, refl, refl)

abbrev queued_config : Config
queued_config = record config {
  fetch = λ g. answered (obj (member "status" (str "queued") no_members));
}

queued_rejected : rejects_guest queued_config "kiki" ≡ true
unfolding opened
queued_rejected = refl

execute_all-IsAnnounced_example :
    confirmations (execute_all list_prisma commands hotel).sent
      + length (list_prisma.reservations hotel.db)
    ≡ confirmations hotel.sent
      + length (list_prisma.reservations (execute_all list_prisma commands hotel).db)
execute_all-IsAnnounced_example =
    execute_all-IsAnnounced list_prisma commands hotel (refl, (refl, (refl, tt)))

abbrev seeded_rooms : List Room
seeded_rooms =
    rooms_from "room-deluxe-" RoomType.deluxe 3 200 0 6
    ++ (rooms_from "room-standard-" RoomType.standard 2 100 0 10
        ++ rooms_from "room-suite-" RoomType.suite 4 400 0 4)

seeded_in_order : is_ordered seeded_rooms ≡ true
unfolding le_text code_units
seeded_in_order = refl

-- The seeded hotel, its rooms in the order of their ids, with two guests of whom one cancels.
abbrev seeded : Hotel Tables
seeded = record {
  db = record { rooms = seeded_rooms; ordered = seeded_in_order; reservations = [] };
  sent = [];
}

abbrev stays : List Command
stays =
    create_command config "r1" dto
    ∷ create_command config "r2" (record dto { guest_id = "momo"; party_guest_ids = none })
    ∷ cancel_command config "r1"
    ∷ []

execute_all-within_example :
    All
      (λ (x : RoomResponse). x.current_guests ≤ x.capacity)
      (find_all list_prisma (pos 3) (execute_all list_prisma stays seeded).db)
unfolding party_size
execute_all-within_example =
    execute_all-within list_prisma stays seeded (pos 3) refl (have_ids→HaveIds seeded_rooms refl)
      (omega arith, (omega arith, (tt, tt)))
