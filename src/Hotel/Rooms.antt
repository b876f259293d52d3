-- ===== src/Hotel/Rooms.antt =====
-- services/hotel/src/rooms/rooms.service.ts and simulation/*.ts: the rooms with their current
-- guests, and the simulated day.
use faf_hackathon_challenge.Prelude.{
  ℕ, ◌+◌, ◌-◌, ◌*◌, ◌/◌, String, Option, List, map, or_else, if◌then◌else◌, ltb, ◌==◌,
}
use faf_hackathon_challenge.Prelude.Int.{ℤ, pos, negsuc}
use faf_hackathon_challenge.Hotel.Types.{RoomType, Room}
use faf_hackathon_challenge.Hotel.Prisma.{Prisma, row_sum}

pub record RoomResponse : Type 0 where
  pub id : String
  pub type : RoomType
  pub capacity : ℕ
  pub price_per_night : ℕ
  pub current_guests : ℕ

abbrev pub room_response : List (String × Option ℕ) → Room → RoomResponse
room_response rows room = record {
  id = room.id;
  type = room.type;
  capacity = room.capacity;
  price_per_night = room.price_per_night;
  current_guests = or_else (row_sum room.id rows) 0;
}

-- `findAll` at the simulation's current day.
unfoldable pub find_all : {Db : Type 0} → Prisma Db → ℤ → Db → List RoomResponse
find_all prisma current_day db =
    map (room_response (prisma.occupied_rooms current_day db)) (prisma.all_rooms db)

abbrev pub seconds_per_day : ℕ
seconds_per_day = 86400

-- `Math.floor(n / d)` for an integer over a positive number.
abbrev pub floor_div : ℤ → ℕ → ℤ
floor_div (pos n) d = pos (n / d)
floor_div (negsuc n) d = negsuc (n / d)

-- `nowMs - Date.parse(startTime)` in milliseconds, both since the epoch.
abbrev pub elapsed_ms : ℕ → ℕ → ℤ
elapsed_ms now start = if ltb now start then negsuc (start - now - 1) else pos (now - start)

-- `computeElapsedGameSeconds` times 1000, so that it is a whole number.
abbrev pub scale : ℤ → ℕ → ℤ
scale (pos n) k = pos (n * k)
scale (negsuc n) k = if k == 0 then pos 0 else negsuc ((n + 1) * k - 1)

unfoldable pub compute_elapsed_game_ms : ℕ → ℕ → ℕ → ℤ
compute_elapsed_game_ms now_ms start_ms game_speed = scale (elapsed_ms now_ms start_ms) game_speed

unfoldable pub compute_current_day : ℕ → ℕ → ℕ → ℤ
unfolding compute_elapsed_game_ms
compute_current_day now_ms start_ms game_speed =
    floor_div (compute_elapsed_game_ms now_ms start_ms game_speed) (seconds_per_day * 1000)
