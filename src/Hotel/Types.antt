-- ===== src/Hotel/Types.antt =====
-- services/hotel/prisma/schema.prisma and the DTOs of services/hotel/src: rooms, reservations, what
-- a request asks and what the service answers.
use faf_hackathon_challenge.Prelude.{
  ℕ, String, Bool, true, false, ◌&&◌, ◌≡◌, Option, List, arith, if◌then◌else◌, str_eq,
}
use faf_hackathon_challenge.Prelude.Int.{ℤ, leb_int, ltb_int}

pub data RoomType : Type 0 where
  standard deluxe suite : RoomType

abbrev pub same_type : RoomType → RoomType → Bool
same_type standard standard = true
same_type deluxe deluxe = true
same_type suite suite = true
same_type _ _ = false

pub same_type→eq : (a b : RoomType) → same_type a b ≡ true → a ≡ b
same_type→eq a b h = ground arith

pub data ReservationStatus : Type 0 where
  confirmed cancelled : ReservationStatus

abbrev pub is_confirmed : ReservationStatus → Bool
is_confirmed confirmed = true
is_confirmed cancelled = false

pub record Room : Type 0 where
  pub id : String
  pub type : RoomType
  pub capacity : ℕ
  pub price_per_night : ℕ

-- A reservation with the guests of its party. Days are integers and may be negative.
pub record Reservation : Type 0 where
  pub id : String
  pub guest_id : String
  pub room_id : String
  pub guest_count : ℕ
  pub check_in_day : ℤ
  pub check_out_day : ℤ
  pub status : ReservationStatus
  pub guests : List String

pub record CreateReservationDto : Type 0 where
  pub guest_id : String
  pub room_type : RoomType
  pub guest_count : ℕ
  pub party_guest_ids : Option (List String)
  pub check_in_day : ℤ
  pub check_out_day : ℤ

pub record ReservationResponse : Type 0 where
  pub id : String
  pub guest_id : String
  pub room_id : String
  pub room_type : RoomType
  pub guest_count : ℕ
  pub party_guest_ids : List String
  pub check_in_day : ℤ
  pub check_out_day : ℤ
  pub status : ReservationStatus

pub record CancelReservationResponse : Type 0 where
  pub id : String
  pub status : ReservationStatus

-- The `data` of `reservation.create`.
pub record NewReservation : Type 0 where
  pub guest_id : String
  pub room_id : String
  pub guest_count : ℕ
  pub check_in_day : ℤ
  pub check_out_day : ℤ
  pub guests : List String

-- The row that is stored for it under an id.
abbrev pub stored : String → NewReservation → Reservation
stored id n = record {
  id = id;
  guest_id = n.guest_id;
  room_id = n.room_id;
  guest_count = n.guest_count;
  check_in_day = n.check_in_day;
  check_out_day = n.check_out_day;
  status = confirmed;
  guests = n.guests;
}

-- The `where` of the overlap count: confirmed, of the room, and with days that meet these.
abbrev pub overlaps : String → ℤ → ℤ → Reservation → Bool
overlaps room_id check_in check_out r =
    str_eq r.room_id room_id
    && is_confirmed r.status
    && leb_int r.check_in_day check_out
    && leb_int check_in r.check_out_day

-- The `where` of the occupancy query: confirmed, and the day from check-in on and before check-out.
abbrev pub occupies : ℤ → Reservation → Bool
occupies day r = is_confirmed r.status && leb_int r.check_in_day day && ltb_int day r.check_out_day

-- `update` to the status CANCELLED where the id is this one.
abbrev pub cancel_row : String → Reservation → Reservation
cancel_row id r = record r { status = if str_eq r.id id then cancelled else r.status }

abbrev pub has_id : String → Reservation → Bool
has_id id r = str_eq r.id id

abbrev pub is_active_of : String → Reservation → Bool
is_active_of guest_id r = str_eq r.guest_id guest_id && is_confirmed r.status
