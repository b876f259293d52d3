-- ===== src/Island/RoomSummary.antt =====
-- The hotel's reservations as an administrator sees them in the web app: rooms.service.ts behind
-- the summary of hotel-admin-room-summary.tsx.
use faf_hackathon_challenge.Prelude.{
  ℕ, suc, ◌+◌, String, str_eq, Bool, true, false, not, ◌&&◌, ◌∙◌, ◌≡◌, refl, ap, sym, subst, Option,
  some, List, [], ◌∷◌, map, any, select, length, arith, if◌then◌else◌, ltb, All,
}
use faf_hackathon_challenge.Prelude.Int.{ℤ, leb_int, ltb_int}
use faf_hackathon_challenge.Hotel.Types.{Room, Reservation, ReservationStatus, confirmed, cancelled}
use faf_hackathon_challenge.Hotel.Prisma.{Prisma, occupies_room, sum_guests}
use faf_hackathon_challenge.Hotel.Reservations.{Hotel, Command, execute_all}
use faf_hackathon_challenge.Hotel.Rooms.{room_response, find_all}
use faf_hackathon_challenge.Hotel.Stated.{
  HasGuests, IsValidated, sum_guests-any, execute_all-HasGuests,
}
use faf_hackathon_challenge.Web.RoomSummary.{
  transform, get_rooms, RoomCard, room_card, occupied_count, summary, hotel_admin_room_summary,
}

abbrev stands : ReservationStatus → Bool
stands confirmed = true
stands cancelled = false

-- Whether a reservation is confirmed, is of the room, and has begun by the day and not ended by it.
abbrev pub is_staying : ℤ → String → Reservation → Bool
is_staying day id r =
    stands r.status
    && (str_eq r.room_id id
        && (not (ltb_int day r.check_in_day) && not (leb_int r.check_out_day day)))

abbrev pub staying_guests : ℤ → String → List Reservation → ℕ
staying_guests day id [] = 0
staying_guests day id (r ∷ rs) =
    if is_staying day id r
    then r.guest_count + staying_guests day id rs
    else staying_guests day id rs

-- Whether somebody stays in the room on the day.
abbrev pub is_taken : ℤ → List Reservation → Room → Bool
is_taken day rs room = any (is_staying day room.id) rs

abbrev pub label_of : Bool → String
label_of taken = if taken then "occupied" else "vacant"

-- What a card should say of a room.
abbrev pub card_of : ℤ → List Reservation → Room → RoomCard
card_of day rs room = record {
  id = room.id;
  label = label_of (is_taken day rs room);
  current = staying_guests day room.id rs;
  capacity = room.capacity;
}

is_staying-occupies :
    (day : ℤ) (id : String) (r : Reservation) → occupies_room day id r ≡ is_staying day id r
is_staying-occupies day id r = ground arith

any_staying :
    (day : ℤ) (id : String) (rs : List Reservation)
    → any (occupies_room day id) rs ≡ any (is_staying day id) rs
any_staying day id [] = refl
any_staying day id (r ∷ rs) = rw (is_staying-occupies day id r, any_staying day id rs) refl

sum_staying :
    (day : ℤ) (id : String) (rs : List Reservation)
    → sum_guests (occupies_room day id) rs ≡ staying_guests day id rs
sum_staying day id [] = refl
sum_staying day id (r ∷ rs) = ground (arith, is_staying-occupies day id r, sum_staying day id rs)

-- The sum that the answer has of a room, and whether it is none.
taken_sum :
    (day : ℤ) (id : String) (rs : List Reservation)
    → All HasGuests rs
    → ltb 0 (staying_guests day id rs) ≡ any (is_staying day id) rs
taken_sum day id rs h =
    ap (ltb 0) (sym (sum_staying day id rs))
    ∙ sum_guests-any (occupies_room day id) rs h
    ∙ any_staying day id rs

drawn :
    (room : Room) (n : ℕ) (taken : Bool)
    → ltb 0 n ≡ taken
    → room_card (
        transform (record {
          id = room.id;
          type = room.type;
          capacity = room.capacity;
          price_per_night = room.price_per_night;
          current_guests = n;
        }))
      ≡ record { id = room.id; label = label_of taken; current = n; capacity = room.capacity }
drawn room n taken h = ground arith

module _ {Db : Type 0} (prisma : Prisma Db) (day : ℤ) (db : Db) where
  -- The answer's rooms, one by one.
  cards :
      (rooms : List Room)
      → All HasGuests (prisma.reservations db)
      → map room_card (get_rooms (map (room_response (prisma.occupied_rooms day db)) rooms))
        ≡ map (card_of day (prisma.reservations db)) rooms
  cards [] h = refl
  cards (room ∷ rooms) h =
      rw
        (
          prisma.occupied_rooms_lem day room.id db,
          sum_staying day room.id (prisma.reservations db),
          cards rooms h,
        )
        (ap (λ card. card ∷ map (card_of day (prisma.reservations db)) rooms)
          (drawn room (staying_guests day room.id (prisma.reservations db))
            (is_taken day (prisma.reservations db) room)
            (taken_sum day room.id (prisma.reservations db) h)))

  counts :
      (rooms : List Room)
      → All HasGuests (prisma.reservations db)
      → occupied_count (get_rooms (map (room_response (prisma.occupied_rooms day db)) rooms))
        ≡ length (select (is_taken day (prisma.reservations db)) rooms)
  counts [] h = refl
  counts (room ∷ rooms) h =
      rw
        (
          prisma.occupied_rooms_lem day room.id db,
          sum_staying day room.id (prisma.reservations db),
          taken_sum day room.id (prisma.reservations db) h,
        )
        (ground (arith, counts rooms h))

  lengths :
      (rooms : List Room)
      → length (get_rooms (map (room_response (prisma.occupied_rooms day db)) rooms)) ≡ length rooms
  lengths [] = refl
  lengths (room ∷ rooms) = ap suc (lengths rooms)

  answered_summary :
      (error : Option String)
      → All HasGuests (prisma.reservations db)
      → hotel_admin_room_summary (record {
        rooms = some (get_rooms (find_all prisma day db));
        is_loading = false;
        error = error;
      })
        ≡ summary
            (length (select (is_taken day (prisma.reservations db)) (prisma.all_rooms db)))
            (length (prisma.all_rooms db))
            (map (card_of day (prisma.reservations db)) (prisma.all_rooms db))
  unfolding hotel_admin_room_summary find_all
  answered_summary error h =
      rw
        (
          counts (prisma.all_rooms db) h,
          lengths (prisma.all_rooms db),
          cards (prisma.all_rooms db) h,
        )
        refl

-- What an administrator is shown is what is booked: after any requests, each for at least one guest
-- as the DTO's validation demands, and cancellations on a hotel that began with no reservations, the
-- summary of the hotel's answer of a day says of each room "occupied" if a confirmed reservation of
-- it covers the day and else "vacant", with the guests of all such reservations, and counts
-- exactly those rooms as occupied.
pub summary-reservations :
    {Db : Type 0} (prisma : Prisma Db) (cs : List Command) (s : Hotel Db) (day : ℤ)
    (error : Option String)
    → prisma.reservations s.db ≡ []
    → All IsValidated cs
    → (let db = (execute_all prisma cs s).db in
        hotel_admin_room_summary (record {
          rooms = some (get_rooms (find_all prisma day db));
          is_loading = false;
          error = error;
        })
        ≡ summary
            (length (select (is_taken day (prisma.reservations db)) (prisma.all_rooms db)))
            (length (prisma.all_rooms db))
            (map (card_of day (prisma.reservations db)) (prisma.all_rooms db)))
summary-reservations prisma cs s day error fresh valid =
    answered_summary prisma day (execute_all prisma cs s).db error
      (execute_all-HasGuests prisma cs s valid (subst (All HasGuests) (sym fresh) tt))
