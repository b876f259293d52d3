-- ===== src/Hotel/Reservations.antt =====
-- services/hotel/src/reservation/reservation.service.ts. Each method is one function from the
-- state to its outcome; `choose_room` is what `create` does before it writes.
use faf_hackathon_challenge.Prelude.{
  ℕ, String, Bool, true, false, not, Option, none, some, List, [], ◌∷◌, length, if◌then◌else◌, ltb,
  ◌==◌, max, or_else,
}
use faf_hackathon_challenge.Prelude.Int.{leb_int}
use faf_hackathon_challenge.Hotel.Types.{
  RoomType, Room, Reservation, is_confirmed, CreateReservationDto, ReservationResponse,
  CancelReservationResponse, NewReservation,
}
use faf_hackathon_challenge.Hotel.Prisma.{Prisma}
use faf_hackathon_challenge.Hotel.Clients.{
  FetchOutcome, has_guest_cleared_processing, HotelEvent, reservation_confirmed,
  reservation_cancelled, Post, publish_hotel_event,
}

-- How a method ends: with its result, with an HttpException, or with an exception of the database.
pub data HttpError : Type 0 where
  bad_days not_cleared too_many_guests no_available_room not_found : HttpError

pub data Outcome {ℓ} (A : Type ℓ) : Type ℓ where
  ok : A → Outcome A
  http_error : HttpError → Outcome A
  database_error : Outcome A

abbrev pub status_code : HttpError → ℕ
status_code bad_days = 400
status_code not_cleared = 409
status_code too_many_guests = 409
status_code no_available_room = 409
status_code not_found = 404

-- The configuration, and what `fetch` brings from the airport.
pub record Config : Type 0 where
  pub airport_url : Option String
  pub broadcast_url : Option String
  pub fetch : String → FetchOutcome

unfoldable pub party_size : CreateReservationDto → ℕ
party_size dto = elim dto.party_guest_ids [
  | none ↦ dto.guest_count
  | some ids ↦ if ltb 0 (length ids) then length ids else dto.guest_count
]

-- `Math.max(...capacities)`; `none` is the -Infinity of no rooms.
unfoldable pub max_capacity : List Room → Option ℕ
max_capacity [] = none
max_capacity (room ∷ rooms) = some (max room.capacity (or_else (max_capacity rooms) 0))

abbrev pub exceeds : ℕ → Option ℕ → Bool
exceeds size none = true
exceeds size (some capacity) = ltb capacity size

-- `rejectIfGuestHasNotClearedAirport`: true if it throws.
unfoldable pub rejects_guest : Config → String → Bool
rejects_guest config guest_id =
    elim (has_guest_cleared_processing config.airport_url config.fetch guest_id) [
      | none ↦ false
      | some cleared ↦ not cleared
    ]

-- The service's state: the database, and the requests sent to the broadcast service.
pub record Hotel (Db : Type 0) : Type 0 where
  pub db : Db
  pub sent : List Post

abbrev pub response : RoomType → Reservation → ReservationResponse
response room_type r = record {
  id = r.id;
  guest_id = r.guest_id;
  room_id = r.room_id;
  room_type = room_type;
  guest_count = r.guest_count;
  party_guest_ids = r.guests;
  check_in_day = r.check_in_day;
  check_out_day = r.check_out_day;
  status = r.status;
}

abbrev pub hotel_event : String → RoomType → Reservation → HotelEvent
hotel_event message room_type r = record {
  message = message;
  reservation_id = r.id;
  guest_id = r.guest_id;
  room_type = room_type;
  guest_count = r.guest_count;
  check_in_day = r.check_in_day;
  check_out_day = r.check_out_day;
}

abbrev pub new_reservation : CreateReservationDto → Room → NewReservation
new_reservation dto room = record {
  guest_id = dto.guest_id;
  room_id = room.id;
  guest_count = dto.guest_count;
  check_in_day = dto.check_in_day;
  check_out_day = dto.check_out_day;
  guests = or_else dto.party_guest_ids [];
}

-- The requests that change the state, one after another.
pub data Command : Type 0 where
  create_command : Config → String → CreateReservationDto → Command
  cancel_command : Config → String → Command

module _ {Db : Type 0} (prisma : Prisma Db) where
  -- The loop over the rooms of the type.
  unfoldable pub find_available : CreateReservationDto → Db → List Room → Option Room
  find_available dto db [] = none
  find_available dto db (room ∷ rooms) =
      let rest = find_available dto db rooms in
      if ltb room.capacity (party_size dto)
      then rest
      else if prisma.count_overlapping room.id dto.check_in_day dto.check_out_day db == 0
      then some room
      else rest

  -- `create` as far as the search for a room: it only reads.
  unfoldable pub choose_room : Config → CreateReservationDto → Db → Outcome Room
  unfolding find_available
  choose_room config dto db =
      if leb_int dto.check_out_day dto.check_in_day
      then http_error bad_days
      else if rejects_guest config dto.guest_id
      then http_error not_cleared
      else let rooms = prisma.find_rooms dto.room_type db in
        if exceeds (party_size dto) (max_capacity rooms)
        then http_error too_many_guests
        else elim (find_available dto db rooms) [
          | none ↦ http_error no_available_room
          | some room ↦ ok room
        ]

  -- `create` from the write on.
  unfoldable pub book :
      Config
      → String
      → CreateReservationDto
      → Room
      → Hotel Db
      → Outcome ReservationResponse × Hotel Db
  book config uuid dto room s =
      elim (prisma.create_reservation uuid (new_reservation dto room) s.db) [
        | none ↦ (database_error, s)
        | some (r, db') ↦ (
          ok (response room.type r),
          record {
            db = db';
            sent =
                publish_hotel_event config.broadcast_url reservation_confirmed
                  (hotel_event "Hotel reservation confirmed." room.type r) s.sent;
          },
        )
      ]

  abbrev pub book_chosen :
      Config
      → String
      → CreateReservationDto
      → Hotel Db
      → Outcome Room
      → Outcome ReservationResponse × Hotel Db
  book_chosen config uuid dto s (ok room) = book config uuid dto room s
  book_chosen config uuid dto s (http_error e) = (http_error e, s)
  book_chosen config uuid dto s database_error = (database_error, s)

  unfoldable pub create :
      Config → String → CreateReservationDto → Hotel Db → Outcome ReservationResponse × Hotel Db
  unfolding choose_room book
  create config uuid dto s = book_chosen config uuid dto s (choose_room config dto s.db)

  abbrev pub found : Db → Option Reservation → Outcome ReservationResponse
  found db none = http_error not_found
  found db (some r) = ok (response (prisma.include_room r db).type r)

  unfoldable pub find_by_id : String → Hotel Db → Outcome ReservationResponse
  find_by_id id s = found s.db (prisma.find_reservation id s.db)

  unfoldable pub find_active_by_guest_id : String → Hotel Db → Outcome ReservationResponse
  find_active_by_guest_id guest_id s = found s.db (prisma.find_first_active guest_id s.db)

  -- `cancel` behind its first query: it is idempotent, a cancelled reservation is answered as it is.
  abbrev pub cancel_found :
      Config → String → Hotel Db → Option Reservation → Outcome CancelReservationResponse × Hotel Db
  cancel_found config id s none = (http_error not_found, s)
  cancel_found config id s (some existing) =
      if is_confirmed existing.status
      then elim (prisma.cancel_reservation id s.db) [
        | none ↦ (database_error, s)
        | some (r, db') ↦ (
          ok (record { id = r.id; status = r.status }),
          record {
            db = db';
            sent =
                publish_hotel_event config.broadcast_url reservation_cancelled
                  (hotel_event "Hotel reservation cancelled." (prisma.include_room r db').type r)
                  s.sent;
          },
        )
      ]
      else (ok (record { id = existing.id; status = existing.status }), s)

  unfoldable pub cancel : Config → String → Hotel Db → Outcome CancelReservationResponse × Hotel Db
  cancel config id s = cancel_found config id s (prisma.find_reservation id s.db)

  unfoldable pub execute : Command → Hotel Db → Hotel Db
  unfolding create cancel
  execute (create_command config uuid dto) s = (create config uuid dto s).1
  execute (cancel_command config id) s = (cancel config id s).1

  unfoldable pub execute_all : List Command → Hotel Db → Hotel Db
  unfolding execute
  execute_all [] s = s
  execute_all (c ∷ cs) s = execute_all cs (execute c s)
