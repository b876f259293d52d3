-- ===== src/Hotel/Capacity.antt =====
-- How many guests a room has at once, against its capacity.
use mathlib.Core.List.{Memᴰ}
use faf_hackathon_challenge.Prelude.{
  ℕ, ◌≤◌, String, ◌≡◌, refl, ◌≢◌, inl, inr, ◌∙◌, sym, ap, subst, Option, none, some, List, [], ◌∷◌,
  map, arith, All, All-listed, Bool-cases, find, eq_iff,
}
use faf_hackathon_challenge.Prelude.Int.{ℤ}
use faf_hackathon_challenge.Hotel.Types.{
  Room, Reservation, is_confirmed, cancel_row, has_id, CreateReservationDto,
}
use faf_hackathon_challenge.Hotel.Prisma.{Prisma}
use faf_hackathon_challenge.Hotel.Reservations.{
  Outcome, ok, http_error, database_error, Config, Hotel, party_size, choose_room, book_chosen,
  create, cancel_found, cancel, Command, create_command, cancel_command, execute, execute_all,
}
use faf_hackathon_challenge.Hotel.Rooms.{RoomResponse, room_response, find_all}
use faf_hackathon_challenge.Hotel.Calendar.{NoOverlap}
use faf_hackathon_challenge.Hotel.Selection.{IsChosen, choose_room_iff}
use faf_hackathon_challenge.Hotel.Booking.{
  Booked, unchanged, added, book-Booked, cancel-rows, execute_all-NoOverlap,
}
use faf_hackathon_challenge.Hotel.Occupancy.{IsOccupancy, rooms-IsOccupancy}

-- The ids are the rooms' primary key.
abbrev pub HaveIds : List Room → Type 0
HaveIds [] = Unit
HaveIds (r ∷ rs) = All (λ s. r.id ≢ s.id) rs × HaveIds rs

same_room :
    (rooms : List Room) (a b : Room)
    → HaveIds rooms
    → Memᴰ a rooms
    → Memᴰ b rooms
    → a.id ≡ b.id
    → a ≡ b
same_room [] a b h m n e = elim m [ ]
same_room (r ∷ rooms) a b (p, h) (Memᴰ.head x) (Memᴰ.head y) e = x ∙ sym y
same_room (r ∷ rooms) a b (p, h) (Memᴰ.head x) (Memᴰ.tail n) e =
    absurd (All-listed (λ s. r.id ≢ s.id) rooms p n (ap (λ (t : Room). t.id) (sym x) ∙ e))
same_room (r ∷ rooms) a b (p, h) (Memᴰ.tail m) (Memᴰ.head y) e =
    absurd (All-listed (λ s. r.id ≢ s.id) rooms p m (ap (λ (t : Room). t.id) (sym y) ∙ sym e))
same_room (r ∷ rooms) a b (p, h) (Memᴰ.tail m) (Memᴰ.tail n) e = same_room rooms a b h m n e

-- The guests of a reservation have room where they are.
abbrev pub HasRoom : List Room → Reservation → Type 0
HasRoom rooms r =
    (room : Room) → Memᴰ room rooms → room.id ≡ r.room_id → r.guest_count ≤ room.capacity

HasRoom-cancel :
    (id : String) (rooms : List Room) (rs : List Reservation)
    → All (HasRoom rooms) rs
    → All (HasRoom rooms) (map (cancel_row id) rs)
HasRoom-cancel id rooms [] h = tt
HasRoom-cancel id rooms (r ∷ rs) (p, h) = (λ room m e. p room m e, HasRoom-cancel id rooms rs h)

-- A request asks for no more guests than it is measured by, as without a party.
abbrev pub IsCounted : Command → Type 0
IsCounted (create_command config uuid dto) = dto.guest_count ≤ party_size dto
IsCounted (cancel_command config id) = Unit

module _ {Db : Type 0} (prisma : Prisma Db) where
  pub record Houses (rooms : List Room) (s : Hotel Db) : Type 0 where
    pub same : prisma.rooms s.db ≡ rooms
    pub fit : All (HasRoom rooms) (prisma.reservations s.db)

  Booked-Houses :
      (rooms : List Room) (config : Config) (dto : CreateReservationDto) (room : Room)
      (s s' : Hotel Db)
      → HaveIds rooms
      → dto.guest_count ≤ party_size dto
      → IsChosen prisma dto s.db config room
      → Booked prisma dto room s s'
      → Houses rooms s
      → Houses rooms s'
  Booked-Houses rooms config dto room s s' ids counted c (unchanged e) h =
      subst (Houses rooms) (sym e) h
  Booked-Houses rooms config dto room s s' ids counted c
        (added r at_room from until asked grown kept) h =
      record { same = kept ∙ h.same; fit = subst (All (HasRoom rooms)) (sym grown) (fits, h.fit) }
    where
      fits : HasRoom rooms r
      fits other m e =
          let chosen : Memᴰ room rooms = subst (λ l. Memᴰ room l) h.same c.listed in
          let one : other ≡ room = same_room rooms other room ids m chosen (e ∙ at_room) in
          let large = ap (λ (t : Room). t.capacity) one in
          let fit = c.fits in omega (arith, large, fit, asked)

  create-Houses :
      (rooms : List Room) (config : Config) (uuid : String) (dto : CreateReservationDto)
      (s : Hotel Db)
      → HaveIds rooms
      → dto.guest_count ≤ party_size dto
      → Houses rooms s
      → Houses rooms (create prisma config uuid dto s).1
  unfolding create
  create-Houses rooms config uuid dto s ids counted h = go (choose_room prisma config dto s.db) refl
    where
      go :
          (o : Outcome Room)
          → choose_room prisma config dto s.db ≡ o
          → Houses rooms (book_chosen prisma config uuid dto s o).1
      go (ok room) e =
          Booked-Houses rooms config dto room s _ ids counted
            ((choose_room_iff prisma dto s.db config room).0 e)
            (book-Booked prisma config uuid dto room s) h
      go (http_error x) e = h
      go database_error e = h

  cancel_found-rooms :
      (config : Config) (id : String) (s : Hotel Db) (o : Option Reservation)
      → find (has_id id) (prisma.reservations s.db) ≡ o
      → prisma.rooms (cancel_found prisma config id s o).1.db ≡ prisma.rooms s.db
  cancel_found-rooms config id s none e = refl
  cancel_found-rooms config id s (some r) e = elim (Bool-cases (is_confirmed r.status)) [
    | inl active ↦
        let (db', done, marked, kept) = prisma.cancel_stores id s.db r e in rw (active, done) kept
    | inr inactive ↦ rw inactive refl
  ]

  cancel-rooms :
      (config : Config) (id : String) (s : Hotel Db)
      → prisma.rooms (cancel prisma config id s).1.db ≡ prisma.rooms s.db
  unfolding cancel
  cancel-rooms config id s =
      cancel_found-rooms config id s (prisma.find_reservation id s.db)
        (sym (prisma.find_reservation_lem id s.db))

  execute-Houses :
      (rooms : List Room) (c : Command) (s : Hotel Db)
      → HaveIds rooms
      → IsCounted c
      → Houses rooms s
      → Houses rooms (execute prisma c s)
  unfolding execute
  execute-Houses rooms (create_command config uuid dto) s ids counted h =
      create-Houses rooms config uuid dto s ids counted h
  execute-Houses rooms (cancel_command config id) s ids counted h = record {
    same = cancel-rooms config id s ∙ h.same;
    fit = elim (cancel-rows prisma config id s) [
      | inl same ↦ subst (All (HasRoom rooms)) (sym same) h.fit
      | inr marked ↦
          subst (All (HasRoom rooms)) (sym marked)
            (HasRoom-cancel id rooms (prisma.reservations s.db) h.fit)
    ];
  }

  execute_all-Houses :
      (rooms : List Room) (cs : List Command) (s : Hotel Db)
      → HaveIds rooms
      → All IsCounted cs
      → Houses rooms s
      → Houses rooms (execute_all prisma cs s)
  unfolding execute_all
  execute_all-Houses rooms [] s ids counted h = h
  execute_all-Houses rooms (c ∷ cs) s ids (p, counted) h =
      execute_all-Houses rooms cs (execute prisma c s) ids counted
        (execute-Houses rooms c s ids p h)

  within :
      (day : ℤ) (rs : List Reservation) (room : Room) (rooms : List Room) (n : ℕ)
      → Memᴰ room rooms
      → All (HasRoom rooms) rs
      → IsOccupancy day rs room.id n
      → n ≤ room.capacity
  within day rs room rooms n m fit (inl (empty, e)) = omega (arith, e)
  within day rs room rooms n m fit (inr (r, listed, here, e)) =
      let there : room.id ≡ r.room_id = ground (arith, eq_iff r.room_id room.id) in
      let small = All-listed (HasRoom rooms) rs fit listed room m there in omega (arith, e, small)

  rooms-within :
      (day : ℤ) (rows : List (String × Option ℕ)) (rs : List Reservation)
      (all_rooms rooms : List Room)
      → ((room : Room) → Memᴰ room rooms → Memᴰ room all_rooms)
      → All (HasRoom all_rooms) rs
      → All (λ x. IsOccupancy day rs x.id x.current_guests) (map (room_response rows) rooms)
      → All (λ (x : RoomResponse). x.current_guests ≤ x.capacity) (map (room_response rows) rooms)
  rooms-within day rows rs all_rooms [] listed fit h = tt
  rooms-within day rows rs all_rooms (room ∷ rooms) listed fit (p, h) = (
    within day rs room all_rooms _ (listed room (Memᴰ.head refl)) fit p,
    rooms-within day rows rs all_rooms rooms (λ r m. listed r (Memᴰ.tail m)) fit h,
  )

  -- No room is ever over its capacity: after any requests and cancellations on a hotel that began with
  -- no reservations, on any day the current guests that are reported of a room are at most as many as
  -- it holds, as long as no request states more guests than the party that it names.
  pub execute_all-within :
      (cs : List Command) (s : Hotel Db) (day : ℤ)
      → prisma.reservations s.db ≡ []
      → HaveIds (prisma.rooms s.db)
      → All IsCounted cs
      → All
          (λ (x : RoomResponse). x.current_guests ≤ x.capacity)
          (find_all prisma day (execute_all prisma cs s).db)
  unfolding find_all
  execute_all-within cs s day fresh ids counted =
      let after = execute_all prisma cs s in
      let houses =
        execute_all-Houses (prisma.rooms s.db) cs s ids counted (record {
          same = refl;
          fit = subst (All (HasRoom (prisma.rooms s.db))) (sym fresh) tt;
        }) in
      let listed = prisma.all_rooms_lem after.db ∙ houses.same in
      rooms-within day (prisma.occupied_rooms day after.db) (prisma.reservations after.db)
        (prisma.rooms s.db) (prisma.all_rooms after.db)
        (λ room m. subst (λ l. Memᴰ room l) listed m) houses.fit
        (rooms-IsOccupancy prisma day after.db (prisma.all_rooms after.db)
          (execute_all-NoOverlap prisma cs s (subst NoOverlap (sym fresh) tt)))
