-- ===== src/Web/RoomSummary.antt =====
-- frontend/src/features/hotel: the rooms as types.ts reads them, and the administrators' summary of
-- components/hotel-admin-room-summary.tsx. The bar of a room, which is only drawn, is left out.
use faf_hackathon_challenge.Prelude.{
  ℕ, String, Bool, Option, none, some, List, map, select, length, or_else, if◌then◌else◌, ◌==◌, ltb,
}
use faf_hackathon_challenge.Hotel.Types.{RoomType}
use faf_hackathon_challenge.Hotel.Rooms.{RoomResponse}

pub record Room : Type 0 where
  pub id : String
  pub type : RoomType
  pub capacity : ℕ
  pub price_per_night : ℕ
  pub occupancy : ℕ

-- The `transform` of `RoomSchema`, on an answer of the hotel.
abbrev pub transform : RoomResponse → Room
transform room = record {
  id = room.id;
  type = room.type;
  capacity = room.capacity;
  price_per_night = room.price_per_night;
  occupancy = room.current_guests;
}

-- `getRooms`, for the hotel's answer.
abbrev pub get_rooms : List RoomResponse → List Room
get_rooms = map transform

-- What the query of the rooms gives.
pub record RoomsQuery : Type 0 where
  pub rooms : Option (List Room)
  pub is_loading : Bool
  pub error : Option String

-- What a card says of its room: "vacant" or "occupied", and the guests over the capacity.
pub record RoomCard : Type 0 where
  pub id : String
  pub label : String
  pub current : ℕ
  pub capacity : ℕ

abbrev pub room_card : Room → RoomCard
room_card room = record {
  id = room.id;
  label = if room.occupancy == 0 then "vacant" else "occupied";
  current = room.occupancy;
  capacity = room.capacity;
}

abbrev pub occupied_count : List Room → ℕ
occupied_count rooms = length (select (λ (r : Room). ltb 0 r.occupancy) rooms)

pub data Summary : Type 0 where
  spinner : Summary
  failed : String → Summary
  -- the rooms that are occupied, of how many, and the cards
  summary : ℕ → ℕ → List RoomCard → Summary

abbrev pub loaded_summary : RoomsQuery → Option (List Room) → Summary
loaded_summary q none = failed (or_else q.error "Room state could not be loaded.")
loaded_summary q (some rooms) = summary (occupied_count rooms) (length rooms) (map room_card rooms)

unfoldable pub hotel_admin_room_summary : RoomsQuery → Summary
hotel_admin_room_summary q = if q.is_loading then spinner else loaded_summary q q.rooms
