-- ===== src/Hotel/Occupancy.antt =====
-- The guests that `GET /rooms` reports, and the simulated day that it reports them for.
use mathlib.Core.List.{Memᴰ}
use faf_hackathon_challenge.Prelude.{
  ℕ, ◌+◌, ◌*◌, String, true, false, ◌≡◌, refl, ◌⊎◌, inl, inr, List, [], ◌∷◌, map, arith, All,
  Bool-cases, eq_iff, ◌≤◌,
}
use faf_hackathon_challenge.Prelude.Int.{ℤ, pos, negsuc, ◌≤ℤ◌}
use faf_hackathon_challenge.Hotel.Types.{Room, Reservation}
use faf_hackathon_challenge.Hotel.Prisma.{Prisma, occupies_room, sum_guests}
use faf_hackathon_challenge.Hotel.Rooms.{
  room_response, find_all, elapsed_ms, scale, floor_div, compute_current_day,
}
use faf_hackathon_challenge.Hotel.Calendar.{IsDisjoint, NoOverlap}

-- The room is empty on the day, or one confirmed reservation of it covers the day and its number
-- of guests is the number given.
abbrev pub IsOccupancy : ℤ → List Reservation → String → ℕ → Type 0
IsOccupancy day rs id n =
    (All (λ r. occupies_room day id r ≡ false) rs × (n ≡ 0))
    ⊎ ((r : Reservation) × Memᴰ r rs × (occupies_room day id r ≡ true) × (n ≡ r.guest_count))

occupies_once :
    (day : ℤ) (id : String) (r t : Reservation)
    → occupies_room day id r ≡ true
    → IsDisjoint r t
    → occupies_room day id t ≡ false
occupies_once day id r t h apart = ground (arith, eq_iff r.room_id id, eq_iff t.room_id id, apart)

module _ (day : ℤ) (id : String) where
  rest_empty :
      (r : Reservation) (rs : List Reservation)
      → occupies_room day id r ≡ true
      → All (IsDisjoint r) rs
      → sum_guests (occupies_room day id) rs ≡ 0
  rest_empty r [] h apart = refl
  rest_empty r (t ∷ rs) h (p, apart) =
      rw (occupies_once day id r t h p) (omega (arith, rest_empty r rs h apart))

  sum_guests-IsOccupancy :
      (rs : List Reservation)
      → NoOverlap rs
      → IsOccupancy day rs id (sum_guests (occupies_room day id) rs)
  sum_guests-IsOccupancy [] h = inl (tt, refl)
  sum_guests-IsOccupancy (r ∷ rs) (p, h) = elim (Bool-cases (occupies_room day id r)) [
    | inl here ↦ inr (r, Memᴰ.head refl, here, rw here (omega (arith, rest_empty r rs here p)))
    | inr away ↦ elim (sum_guests-IsOccupancy rs h) [
      | inl (none_here, e) ↦ inl ((away, none_here), rw away (omega (arith, e)))
      | inr (t, listed, there, e) ↦ inr (t, Memᴰ.tail listed, there, rw away (omega (arith, e)))
    ]
  ]

module _ {Db : Type 0} (prisma : Prisma Db) (day : ℤ) (db : Db) where
  pub rooms-IsOccupancy :
      (rooms : List Room)
      → NoOverlap (prisma.reservations db)
      → All
          (λ x. IsOccupancy day (prisma.reservations db) x.id x.current_guests)
          (map (room_response (prisma.occupied_rooms day db)) rooms)
  rooms-IsOccupancy [] h = tt
  rooms-IsOccupancy (room ∷ rooms) h = (
    rw (prisma.occupied_rooms_lem day room.id db)
        (sum_guests-IsOccupancy day room.id (prisma.reservations db) h),
    rooms-IsOccupancy rooms h,
  )

  -- Where no room is booked twice, the current guests of every room in the answer are 0 if no
  -- confirmed reservation of the room covers the day, from arrival on and before departure, and
  -- else the number of guests of such a reservation.
  find_all-IsOccupancy :
      NoOverlap (prisma.reservations db)
      → All
          (λ x. IsOccupancy day (prisma.reservations db) x.id x.current_guests)
          (find_all prisma day db)
  unfolding find_all
  find_all-IsOccupancy h = rooms-IsOccupancy (prisma.all_rooms db) h

elapsed_ms_mono :
    (now later start : ℕ) → now ≤ later → elapsed_ms now start ≤ℤ elapsed_ms later start
elapsed_ms_mono now later start h = ground arith

mul_mono : (a b k : ℕ) → a ≤ b → a * k ≤ b * k
mul_mono a b k h = grind arith

scale_mono : (a b : ℤ) (k : ℕ) → a ≤ℤ b → scale a k ≤ℤ scale b k
scale_mono (pos a) (pos b) k h = grind arith
scale_mono (pos a) (negsuc b) k h = ground arith
scale_mono (negsuc a) (pos b) k h = ground arith
scale_mono (negsuc a) (negsuc b) k h = ground (arith, mul_mono (b + 1) (a + 1) k)

floor_div_mono : (a b : ℤ) → a ≤ℤ b → floor_div a 86400000 ≤ℤ floor_div b 86400000
floor_div_mono (pos a) (pos b) h = omega arith
floor_div_mono (pos a) (negsuc b) h = omega arith
floor_div_mono (negsuc a) (pos b) h = omega arith
floor_div_mono (negsuc a) (negsuc b) h = omega arith

-- The simulated day never goes back as time goes on, also across the start of the simulation.
compute_current_day_mono :
    (now later start speed : ℕ)
    → now ≤ later
    → compute_current_day now start speed ≤ℤ compute_current_day later start speed
unfolding compute_current_day
compute_current_day_mono now later start speed h =
    floor_div_mono (scale (elapsed_ms now start) speed) (scale (elapsed_ms later start) speed) (
      scale_mono (elapsed_ms now start) (elapsed_ms later start) speed
        (elapsed_ms_mono now later start h))
