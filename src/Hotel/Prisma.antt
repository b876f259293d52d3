-- ===== src/Hotel/Prisma.antt =====
-- The database as the hotel service uses it. Prisma and PostgreSQL are parameters: the record names
-- the queries of the source, and what their documentation promises in terms of two views, the
-- rooms by ascending id and the reservations, the newest first.
use mathlib.Core.List.{Memᴰ, Perm}
use faf_hackathon_challenge.Prelude.{
  ℕ, ◌+◌, String, Bool, true, false, ◌&&◌, ◌≡◌, Option, none, some, List, [], ◌∷◌, map, length,
  select, find, any, if◌then◌else◌, str_eq, or_else, not, All, ltb, ◌^◌,
}
use faf_hackathon_challenge.Prelude.Int.{ℤ, pos, negsuc, ◌≤ℤ◌}
use faf_hackathon_challenge.Hotel.Types.{
  RoomType, same_type, Room, Reservation, NewReservation, stored, overlaps, occupies, cancel_row,
  has_id, is_active_of,
}

-- No guest stands twice in a party: the primary key of ReservationGuest.
abbrev pub is_distinct : List String → Bool
is_distinct [] = true
is_distinct (g ∷ gs) = not (any (λ h. str_eq h g) gs) && is_distinct gs

abbrev pub has_room : String → List Room → Bool
has_room id rooms = any (λ room. str_eq room.id id) rooms

-- `new Map(rows).get(id)` with the sum `?? 0`; a later row would win.
abbrev pub row_sum : String → List (String × Option ℕ) → Option ℕ
row_sum id [] = none
row_sum id ((k, s) ∷ rows) = elim (row_sum id rows) [
  | some n ↦ some n
  | none ↦ if str_eq k id then some (or_else s 0) else none
]

abbrev pub sum_guests : (Reservation → Bool) → List Reservation → ℕ
sum_guests p [] = 0
sum_guests p (r ∷ rs) = (if p r then r.guest_count else 0) + sum_guests p rs

abbrev pub occupies_room : ℤ → String → Reservation → Bool
occupies_room day id r = str_eq r.room_id id && occupies day r

-- None of this guest's confirmed reservations begins after this one.
abbrev pub IsLatest : String → List Reservation → Reservation → Type 0
IsLatest guest_id rs r =
    All (λ s. is_active_of guest_id s ≡ true → s.check_in_day ≤ℤ r.check_in_day) rs

-- Each room's id comes before those of the rooms behind it, or is the same.
abbrev pub IsOrdered : (String → String → Bool) → List Room → Type 0
IsOrdered le [] = Unit
IsOrdered le (room ∷ rooms) = All (λ r. le room.id r.id ≡ true) rooms × IsOrdered le rooms

-- The number is one that a column INTEGER of PostgreSQL holds.
abbrev pub fits_integer : ℤ → Bool
fits_integer (pos n) = ltb n (2 ^ 31)
fits_integer (negsuc n) = ltb n (2 ^ 31)

abbrev pub fits_columns : NewReservation → Bool
fits_columns n =
    fits_integer (pos n.guest_count)
    && (fits_integer n.check_in_day && fits_integer n.check_out_day)

module _ (Db : Type 0) where
  pub record Prisma : Type 0 where
    -- the views
    pub rooms : Db → List Room
    pub reservations : Db → List Reservation
    -- the order of ids by the database's collation, in which the rooms are
    pub id_le : String → String → Bool
    pub rooms_ordered : (db : Db) → IsOrdered id_le (rooms db)
    -- room.findMany by type, and of all rooms, ordered by id
    pub find_rooms : RoomType → Db → List Room
    pub all_rooms : Db → List Room
    -- reservation.count with the overlap's `where`
    pub count_overlapping : String → ℤ → ℤ → Db → ℕ
    -- reservation.groupBy room_id with the sum of guest_count
    pub occupied_rooms : ℤ → Db → List (String × Option ℕ)
    -- reservation.create under a generated id; `none` is an exception
    pub create_reservation : String → NewReservation → Db → Option (Reservation × Db)
    -- findUnique and findFirst by id, findFirst by guest, and the included room
    pub find_reservation : String → Db → Option Reservation
    pub find_first_active : String → Db → Option Reservation
    pub include_room : Reservation → Db → Room
    -- reservation.update to CANCELLED; `none` is an exception
    pub cancel_reservation : String → Db → Option (Reservation × Db)
    pub find_rooms_lem :
        (t : RoomType) (db : Db)
        → find_rooms t db ≡ select (λ room. same_type room.type t) (rooms db)
    pub all_rooms_lem : (db : Db) → all_rooms db ≡ rooms db
    pub count_overlapping_lem :
        (room_id : String) (i o : ℤ) (db : Db)
        → count_overlapping room_id i o db
          ≡ length (select (overlaps room_id i o) (reservations db))
    pub occupied_rooms_lem :
        (day : ℤ) (id : String) (db : Db)
        → or_else (row_sum id (occupied_rooms day db)) 0
          ≡ sum_guests (occupies_room day id) (reservations db)
    -- a reservation that is created is stored as it was asked for, its guests in any order
    pub create_stores :
        (uuid : String) (n : NewReservation) (db db' : Db) (r : Reservation)
        → create_reservation uuid n db ≡ some (r, db')
        → (r ≡ record (stored uuid n) { guests = r.guests })
          × Perm r.guests n.guests
          × (reservations db' ≡ r ∷ reservations db)
          × (rooms db' ≡ rooms db)
    -- and it is created if the constraints of the tables hold and its numbers fit their columns
    pub create_succeeds :
        (uuid : String) (n : NewReservation) (db : Db)
        → any (has_id uuid) (reservations db) ≡ false
        → has_room n.room_id (rooms db) ≡ true
        → is_distinct n.guests ≡ true
        → fits_columns n ≡ true
        → (r : Reservation) × (db' : Db) × (create_reservation uuid n db ≡ some (r, db'))
    pub find_reservation_lem :
        (id : String) (db : Db) → find_reservation id db ≡ find (has_id id) (reservations db)
    pub find_first_found :
        (g : String) (db : Db) (r : Reservation)
        → find_first_active g db ≡ some r
        → (is_active_of g r ≡ true) × Memᴰ r (reservations db) × IsLatest g (reservations db) r
    pub find_first_missing :
        (g : String) (db : Db)
        → find_first_active g db ≡ none
        → any (is_active_of g) (reservations db) ≡ false
    pub include_room_lem :
        (r : Reservation) (db : Db)
        → has_room r.room_id (rooms db) ≡ true
        → find (λ room. str_eq room.id r.room_id) (rooms db) ≡ some (include_room r db)
    pub cancel_stores :
        (id : String) (db : Db) (r : Reservation)
        → find (has_id id) (reservations db) ≡ some r
        → (db' : Db) × (cancel_reservation id db ≡ some (cancel_row id r, db'))
          × (reservations db' ≡ map (cancel_row id) (reservations db))
          × (rooms db' ≡ rooms db)
