-- ===== src/Hotel/ListDatabase.antt =====
-- A database kept in two lists, which meets everything that `Prisma` asks of one: the assumptions
-- can hold together, and the service runs on it in examples.
use mathlib.Core.List.{Memᴰ, Perm}
use mathlib.Core.List.Perm
use faf_hackathon_challenge.Prelude.{
  ℕ, String, true, false, ◌&&◌, ◌≡◌, refl, ◌⊎◌, inl, inr, sym, ap, subst, Option, none, some, List,
  [], ◌∷◌, map, arith, All, Bool-cases, Option-cases, find, any, length, select, if◌then◌else◌,
  str_eq, eq_iff, or_else,
}
use faf_hackathon_challenge.Prelude.Int.{ℤ, ◌≤ℤ◌, leb_int}
use faf_hackathon_challenge.Hotel.Types.{
  RoomType, same_type, Room, Reservation, NewReservation, stored, overlaps, cancel_row, has_id,
  is_active_of,
}
use faf_hackathon_challenge.Hotel.IdOrder.{le_text, is_ordered, is_ordered-IsOrdered}
use faf_hackathon_challenge.Hotel.Prisma.{
  Prisma, has_room, is_distinct, row_sum, sum_guests, occupies_room, IsLatest, fits_columns,
}

pub record Tables : Type 0 where
  pub rooms : List Room
  pub ordered : is_ordered rooms ≡ true
  pub reservations : List Reservation

-- A row for each reservation that covers the day, with the sum for its room.
abbrev rows_for : ℤ → List Reservation → List Reservation → List (String × Option ℕ)
rows_for day all_rows [] = []
rows_for day all_rows (r ∷ rs) =
    (r.room_id, some (sum_guests (occupies_room day r.room_id) all_rows)) ∷ rows_for day all_rows rs

row_sum-rows_for :
    (day : ℤ) (id : String) (all_rows rs : List Reservation)
    → ((row_sum id (rows_for day all_rows rs) ≡ none) × All (λ r. str_eq r.room_id id ≡ false) rs)
      ⊎ (row_sum id (rows_for day all_rows rs) ≡ some (sum_guests (occupies_room day id) all_rows))
row_sum-rows_for day id all_rows [] = inl (refl, tt)
row_sum-rows_for day id all_rows (r ∷ rs) = elim (row_sum-rows_for day id all_rows rs) [
  | inr later ↦ inr (rw later refl)
  | inl (missing, absent) ↦ elim (Bool-cases (str_eq r.room_id id)) [
    | inl here ↦ inr (
        rw (missing, here)
          (ap (λ k. some (sum_guests (occupies_room day k) all_rows))
            ((eq_iff r.room_id id).0 here)))
    | inr away ↦ inl (rw (missing, away) refl, (away, absent))
  ]
]

sum_guests-absent :
    (day : ℤ) (id : String) (rs : List Reservation)
    → All (λ r. str_eq r.room_id id ≡ false) rs
    → sum_guests (occupies_room day id) rs ≡ 0
sum_guests-absent day id [] h = refl
sum_guests-absent day id (r ∷ rs) (p, h) = rw p (omega (arith, sum_guests-absent day id rs h))

abbrev occupied : ℤ → Tables → List (String × Option ℕ)
occupied day db = rows_for day db.reservations db.reservations

pub occupied_sums :
    (day : ℤ) (id : String) (db : Tables)
    → or_else (row_sum id (occupied day db)) 0 ≡ sum_guests (occupies_room day id) db.reservations
occupied_sums day id db = elim (row_sum-rows_for day id db.reservations db.reservations) [
  | inr e ↦ rw e refl
  | inl (e, absent) ↦ rw e (sym (sum_guests-absent day id db.reservations absent))
]

-- The active reservation of the guest that begins last.
abbrev later_of : Reservation → Option Reservation → Reservation
later_of r none = r
later_of r (some s) = if leb_int s.check_in_day r.check_in_day then r else s

abbrev latest : String → List Reservation → Option Reservation
latest g [] = none
latest g (r ∷ rs) =
    let rest = latest g rs in if is_active_of g r then some (later_of r rest) else rest

pub latest-none :
    (g : String) (rs : List Reservation) → latest g rs ≡ none → any (is_active_of g) rs ≡ false
latest-none g [] h = refl
latest-none g (r ∷ rs) h = ground (arith, latest-none g rs)

le_int_trans : (a b c : ℤ) → a ≤ℤ b → b ≤ℤ c → a ≤ℤ c
le_int_trans a b c h k = omega arith

IsLatest-le :
    (g : String) (r s : Reservation) (rs : List Reservation)
    → s.check_in_day ≤ℤ r.check_in_day
    → IsLatest g rs s
    → IsLatest g rs r
IsLatest-le g r s [] le h = tt
IsLatest-le g r s (t ∷ rs) le (p, h) = (
  λ active. le_int_trans t.check_in_day s.check_in_day r.check_in_day (p active) le,
  IsLatest-le g r s rs le h,
)

IsLatest-none :
    (g : String) (r : Reservation) (rs : List Reservation) → latest g rs ≡ none → IsLatest g rs r
IsLatest-none g r [] h = tt
IsLatest-none g r (t ∷ rs) h = (λ active. ground arith, IsLatest-none g r rs (ground arith))

-- What `latest` returns: an active reservation of the guest in the list, that begins last.
pub record Latest (g : String) (rs : List Reservation) (r : Reservation) : Type 0 where
  pub active : is_active_of g r ≡ true
  pub listed : Memᴰ r rs
  pub last : IsLatest g rs r

Latest-rest :
    (g : String) (r s : Reservation) (rs : List Reservation)
    → (is_active_of g r ≡ true → r.check_in_day ≤ℤ s.check_in_day)
    → Latest g rs s
    → Latest g (r ∷ rs) s
Latest-rest g r s rs le l = record {
  active = l.active;
  listed = Memᴰ.tail l.listed;
  last = (le, l.last);
}

pub latest-some :
    (g : String) (rs : List Reservation) (r : Reservation) → latest g rs ≡ some r → Latest g rs r
latest-some g [] r h = cc
latest-some g (t ∷ rs) r h = elim (Bool-cases (is_active_of g t)) [
  | inr idle ↦ Latest-rest g t r rs (λ active. cc) (latest-some g rs r (rw idle at h))
  | inl active ↦ elim (Option-cases (latest g rs)) [
    | inl alone ↦
        let e : t ≡ r = ground arith in
        subst (Latest g (t ∷ rs)) e (record {
          active = active;
          listed = Memᴰ.head refl;
          last = (λ _. omega arith, IsLatest-none g t rs alone);
        })
    | inr (s, more) ↦
        let l = latest-some g rs s more in
        elim (Bool-cases (leb_int s.check_in_day t.check_in_day)) [
          | inl before ↦
              let e : t ≡ r = ground arith in
              subst (Latest g (t ∷ rs)) e (record {
                active = active;
                listed = Memᴰ.head refl;
                last = (λ _. omega arith, IsLatest-le g t s rs (ground arith) l.last);
              })
          | inr after ↦
              let e : s ≡ r = ground arith in
              subst (Latest g (t ∷ rs)) e (Latest-rest g t s rs (λ _. ground arith) l)
        ]
  ]
]

abbrev insert : String → NewReservation → Tables → Option (Reservation × Tables)
insert uuid n db =
    if has_room n.room_id db.rooms && is_distinct n.guests
    then some (stored uuid n, record db { reservations = stored uuid n ∷ db.reservations })
    else none

abbrev mark : String → Tables → Option (Reservation × Tables)
mark id db = elim (find (has_id id) db.reservations) [
  | none ↦ none
  | some r ↦
      some (cancel_row id r, record db { reservations = map (cancel_row id) db.reservations })
]

abbrev room_of : Reservation → Tables → Room
room_of r db =
    or_else (find (λ room. str_eq room.id r.room_id) db.rooms)
      (record { id = r.room_id; type = RoomType.standard; capacity = 0; price_per_night = 0 })

pub insert_stores :
    (uuid : String) (n : NewReservation) (db db' : Tables) (r : Reservation)
    → insert uuid n db ≡ some (r, db')
    → (r ≡ record (stored uuid n) { guests = r.guests })
      × Perm r.guests n.guests
      × (db'.reservations ≡ r ∷ db.reservations)
      × (db'.rooms ≡ db.rooms)
insert_stores uuid n db db' r h =
    subst (λ t. Row t.0 t.1) inserted (refl, Perm.refl n.guests, refl, refl)
  where
    Row : Reservation → Tables → Type 0
    Row t s =
        (t ≡ record (stored uuid n) { guests = t.guests })
        × Perm t.guests n.guests
        × (s.reservations ≡ t ∷ db.reservations)
        × (s.rooms ≡ db.rooms)

    inserted :
        ◌≡◌ {A = Reservation × Tables}
          (stored uuid n, record db { reservations = stored uuid n ∷ db.reservations })
          (r, db')
    inserted = ground arith

pub insert_succeeds :
    (uuid : String) (n : NewReservation) (db : Tables)
    → any (has_id uuid) db.reservations ≡ false
    → has_room n.room_id db.rooms ≡ true
    → is_distinct n.guests ≡ true
    → fits_columns n ≡ true
    → (r : Reservation) × (db' : Tables) × (insert uuid n db ≡ some (r, db'))
insert_succeeds uuid n db fresh housed distinct small = (
  stored uuid n,
  record db { reservations = stored uuid n ∷ db.reservations },
  rw (housed, distinct) refl,
)

no_room :
    (id : String) (rooms : List Room)
    → find (λ room. str_eq room.id id) rooms ≡ none
    → has_room id rooms ≡ true
    → ⊥
no_room id [] h k = cc
no_room id (room ∷ rooms) h k = ground (arith, no_room id rooms)

pub room_of_found :
    (r : Reservation) (db : Tables)
    → has_room r.room_id db.rooms ≡ true
    → find (λ room. str_eq room.id r.room_id) db.rooms ≡ some (room_of r db)
room_of_found r db h = elim (Option-cases (find (λ room. str_eq room.id r.room_id) db.rooms)) [
  | inl missing ↦ absurd (no_room r.room_id db.rooms missing h)
  | inr (room, here) ↦ rw here refl
]

pub mark_stores :
    (id : String) (db : Tables) (r : Reservation)
    → find (has_id id) db.reservations ≡ some r
    → (db' : Tables) × (mark id db ≡ some (cancel_row id r, db'))
      × (db'.reservations ≡ map (cancel_row id) db.reservations)
      × (db'.rooms ≡ db.rooms)
mark_stores id db r h = (
  record db { reservations = map (cancel_row id) db.reservations },
  rw (h, mark) refl,
  refl,
  refl,
)

abbrev pub list_prisma : Prisma Tables
list_prisma = record {
  rooms = λ db. db.rooms;
  reservations = λ db. db.reservations;
  id_le = le_text;
  rooms_ordered = λ db. is_ordered-IsOrdered db.rooms db.ordered;
  find_rooms = λ t db. select (λ room. same_type room.type t) db.rooms;
  all_rooms = λ db. db.rooms;
  count_overlapping = λ room_id i o db. length (select (overlaps room_id i o) db.reservations);
  occupied_rooms = occupied;
  create_reservation = insert;
  find_reservation = λ id db. find (has_id id) db.reservations;
  find_first_active = λ g db. latest g db.reservations;
  include_room = room_of;
  cancel_reservation = mark;
  find_rooms_lem = λ t db. refl;
  all_rooms_lem = λ db. refl;
  count_overlapping_lem = λ room_id i o db. refl;
  occupied_rooms_lem = occupied_sums;
  create_stores = insert_stores;
  create_succeeds = insert_succeeds;
  find_reservation_lem = λ id db. refl;
  find_first_found =
      λ g db r h. let l = latest-some g db.reservations r h in (l.active, l.listed, l.last);
  find_first_missing = λ g db h. latest-none g db.reservations h;
  include_room_lem = room_of_found;
  cancel_stores = mark_stores;
}
