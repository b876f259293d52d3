-- ===== src/Hotel/Seed.antt =====
-- services/hotel/prisma/seed.ts: the rooms that the database is seeded with, by `upsert`.
use Prim.Native.String.{◌++◌ as append}
use faf_hackathon_challenge.Prelude.{
  ℕ, zero, suc, ◌+◌, ◌/◌, ◌%◌, String, true, false, ◌≡◌, refl, List, [], ◌∷◌, ◌++◌, if◌then◌else◌,
  arith, ◌==◌, All, ap, ◌∙◌, ◌≢◌, Bool, false, not, ◌&&◌, any, str_eq, eq_iff,
}
use faf_hackathon_challenge.Hotel.Types.{RoomType, standard, deluxe, suite, Room}
use faf_hackathon_challenge.Hotel.Prisma.{has_room}
use faf_hackathon_challenge.Hotel.Capacity.{HaveIds}

abbrev digit : ℕ → String
digit n =
    if n == 0
    then "0"
    else if n == 1
    then "1"
    else if n == 2
    then "2"
    else if n == 3
    then "3"
    else if n == 4
    then "4"
    else if n == 5
    then "5"
    else if n == 6
    then "6"
    else if n == 7
    then "7"
    else if n == 8
    then "8"
    else "9"

-- `String(n).padStart(2, '0')` below 100
abbrev pub pad2 : ℕ → String
pad2 n = append (digit (n / 10)) (digit (n % 10))

-- `Array.from({ length }, ...)`, of the rooms from the number i on.
abbrev pub rooms_from : String → RoomType → ℕ → ℕ → ℕ → ℕ → List Room
rooms_from prefix type capacity price i zero = []
rooms_from prefix type capacity price i (suc n) =
    record {
      id = append prefix (pad2 (i + 1));
      type = type;
      capacity = capacity;
      price_per_night = price;
    }
    ∷ rooms_from prefix type capacity price (i + 1) n

abbrev pub seed_rooms : List Room
seed_rooms =
    rooms_from "room-standard-" standard 2 100 0 10
    ++ (rooms_from "room-deluxe-" deluxe 3 200 0 6 ++ rooms_from "room-suite-" suite 4 400 0 4)

-- `room.upsert` with an update of nothing, on the table of rooms; what is relied on of it: a row that
-- is there is left alone, one that is not is created, and no row is lost.
pub record RoomTable (Db : Type 0) : Type 0 where
  pub rooms : Db → List Room
  pub upsert : Room → Db → Db
  pub upsert-present :
      (room : Room) (db : Db) → has_room room.id (rooms db) ≡ true → upsert room db ≡ db
  pub upsert-creates : (room : Room) (db : Db) → has_room room.id (rooms (upsert room db)) ≡ true
  pub upsert-keeps :
      (id : String) (room : Room) (db : Db)
      → has_room id (rooms db) ≡ true
      → has_room id (rooms (upsert room db)) ≡ true

module _ {Db : Type 0} (table : RoomTable Db) where
  -- The loop of `main`, over the rooms that are given.
  unfoldable pub upsert_all : List Room → Db → Db
  upsert_all [] db = db
  upsert_all (room ∷ more) db = upsert_all more (table.upsert room db)

  upsert_all-keeps :
      (id : String) (rs : List Room) (db : Db)
      → has_room id (table.rooms db) ≡ true
      → has_room id (table.rooms (upsert_all rs db)) ≡ true
  unfolding upsert_all
  upsert_all-keeps id [] db h = h
  upsert_all-keeps id (r ∷ rs) db h =
      upsert_all-keeps id rs (table.upsert r db) (table.upsert-keeps id r db h)

  upsert_all-creates :
      (rs : List Room) (db : Db)
      → All (λ (r : Room). has_room r.id (table.rooms (upsert_all rs db)) ≡ true) rs
  unfolding upsert_all
  upsert_all-creates [] db = tt
  upsert_all-creates (r ∷ rs) db = (
    upsert_all-keeps r.id rs (table.upsert r db) (table.upsert-creates r db),
    upsert_all-creates rs (table.upsert r db),
  )

  upsert_all-present :
      (rs : List Room) (db : Db)
      → All (λ (r : Room). has_room r.id (table.rooms db) ≡ true) rs
      → upsert_all rs db ≡ db
  unfolding upsert_all
  upsert_all-present [] db h = refl
  upsert_all-present (r ∷ rs) db (p, h) =
      ap (upsert_all rs) (table.upsert-present r db p) ∙ upsert_all-present rs db h

  -- Seeding again changes nothing.
  upsert_all_idempotent :
      (rs : List Room) (db : Db) → upsert_all rs (upsert_all rs db) ≡ upsert_all rs db
  upsert_all_idempotent rs db = upsert_all-present rs (upsert_all rs db) (upsert_all-creates rs db)

-- The ids of the rooms are different.
abbrev pub have_ids : List Room → Bool
have_ids [] = true
have_ids (r ∷ rs) = not (any (λ (s : Room). str_eq r.id s.id) rs) && have_ids rs

absent :
    (id : String) (rs : List Room)
    → any (λ (s : Room). str_eq id s.id) rs ≡ false
    → All (λ s. id ≢ s.id) rs
absent id [] h = tt
absent id (r ∷ rs) h = (λ e. ground (arith, eq_iff id r.id), absent id rs (ground arith))

pub have_ids→HaveIds : (rs : List Room) → have_ids rs ≡ true → HaveIds rs
have_ids→HaveIds [] h = tt
have_ids→HaveIds (r ∷ rs) h = (absent r.id rs (ground arith), have_ids→HaveIds rs (ground arith))

seed_rooms-HaveIds : HaveIds seed_rooms
seed_rooms-HaveIds = have_ids→HaveIds seed_rooms refl
