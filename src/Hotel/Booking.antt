-- ===== src/Hotel/Booking.antt =====
-- What `create` and `cancel` do to the reservations: no room is booked twice, errors change nothing.
use faf_hackathon_challenge.Prelude.{
  String, false, ◌≡◌, refl, ◌⊎◌, inl, inr, ◌∙◌, sym, ap, Option, none, some, List, [], ◌∷◌, map,
  All, All-map, Bool-cases, Option-cases, find, select-empty,
}
use faf_hackathon_challenge.Hotel.Types.{
  Room, Reservation, is_confirmed, overlaps, cancel_row, has_id, CreateReservationDto,
}
use faf_hackathon_challenge.Hotel.Prisma.{Prisma}
use faf_hackathon_challenge.Hotel.Reservations.{
  Outcome, ok, http_error, database_error, Config, Hotel, choose_room, book, book_chosen,
  new_reservation, create, cancel_found, cancel, Command, create_command, cancel_command, execute,
  execute_all,
}
use faf_hackathon_challenge.Hotel.Calendar.{
  IsDisjoint, NoOverlap, overlaps-IsDisjoint, map-cancel_row-NoOverlap,
}
use faf_hackathon_challenge.Hotel.Selection.{IsChosen, choose_room_iff}

module _ {Db : Type 0} (prisma : Prisma Db) where
  abbrev rows : Hotel Db → List Reservation
  rows s = prisma.reservations s.db

  -- Booking adds one confirmed row with the room and the days that were asked for, or changes
  -- nothing.
  pub data Booked (dto : CreateReservationDto) (room : Room) (s s' : Hotel Db) : Type 0 where
    unchanged : s' ≡ s → Booked dto room s s'
    added :
        (r : Reservation)
        → r.room_id ≡ room.id
        → r.check_in_day ≡ dto.check_in_day
        → r.check_out_day ≡ dto.check_out_day
        → r.guest_count ≡ dto.guest_count
        → rows s' ≡ r ∷ rows s
        → prisma.rooms s'.db ≡ prisma.rooms s.db
        → Booked dto room s s'

  pub book-Booked :
      (config : Config) (uuid : String) (dto : CreateReservationDto) (room : Room) (s : Hotel Db)
      → Booked dto room s (book prisma config uuid dto room s).1
  unfolding book
  book-Booked config uuid dto room s =
      elim (Option-cases (prisma.create_reservation uuid (new_reservation dto room) s.db)) [
        | inl failed ↦ rw (failed, book) (unchanged refl)
        | inr ((r, db'), done) ↦
            let (row, guests, grown, kept) =
              prisma.create_stores uuid (new_reservation dto room) s.db db' r done in
            rw (done, book)
              (added r (ap (λ (t : Reservation). t.room_id) row)
                (ap (λ (t : Reservation). t.check_in_day) row)
                (ap (λ (t : Reservation). t.check_out_day) row)
                (ap (λ (t : Reservation). t.guest_count) row) grown kept)
      ]

  Booked-NoOverlap :
      (config : Config) (dto : CreateReservationDto) (room : Room) (s s' : Hotel Db)
      → IsChosen prisma dto s.db config room
      → Booked dto room s s'
      → NoOverlap (rows s)
      → NoOverlap (rows s')
  Booked-NoOverlap config dto room s s' c (unchanged e) h = rw e h
  Booked-NoOverlap config dto room s s' c (added r at_room from until counted grown kept) h =
      rw grown (All-map _ (IsDisjoint r) (rows s) disjoint free, h)
    where
      free : All (λ t. overlaps room.id dto.check_in_day dto.check_out_day t ≡ false) (rows s)
      free = select-empty (overlaps room.id dto.check_in_day dto.check_out_day) (rows s) (
          sym (prisma.count_overlapping_lem room.id dto.check_in_day dto.check_out_day s.db)
          ∙ c.free)

      disjoint :
          (t : Reservation)
          → overlaps room.id dto.check_in_day dto.check_out_day t ≡ false
          → IsDisjoint r t
      disjoint t e = overlaps-IsDisjoint r t (rw (at_room, from, until) e)

  create-NoOverlap :
      (config : Config) (uuid : String) (dto : CreateReservationDto) (s : Hotel Db)
      → NoOverlap (rows s)
      → NoOverlap (rows (create prisma config uuid dto s).1)
  unfolding create
  create-NoOverlap config uuid dto s h = go (choose_room prisma config dto s.db) refl
    where
      go :
          (o : Outcome Room)
          → choose_room prisma config dto s.db ≡ o
          → NoOverlap (rows (book_chosen prisma config uuid dto s o).1)
      go (ok room) e =
          Booked-NoOverlap config dto room s _ ((choose_room_iff prisma dto s.db config room).0 e)
            (book-Booked config uuid dto room s) h
      go (http_error x) e = h
      go database_error e = h

  -- Cancelling marks the rows with the id, or changes nothing.
  cancel_found-rows :
      (config : Config) (id : String) (s : Hotel Db) (o : Option Reservation)
      → find (has_id id) (rows s) ≡ o
      → (rows (cancel_found prisma config id s o).1 ≡ rows s)
        ⊎ (rows (cancel_found prisma config id s o).1 ≡ map (cancel_row id) (rows s))
  cancel_found-rows config id s none e = inl refl
  cancel_found-rows config id s (some r) e = elim (Bool-cases (is_confirmed r.status)) [
    | inl active ↦
        let (db', done, marked, kept) = prisma.cancel_stores id s.db r e in
        inr (rw (active, done) marked)
    | inr inactive ↦ inl (rw inactive refl)
  ]

  pub cancel-rows :
      (config : Config) (id : String) (s : Hotel Db)
      → (rows (cancel prisma config id s).1 ≡ rows s)
        ⊎ (rows (cancel prisma config id s).1 ≡ map (cancel_row id) (rows s))
  unfolding cancel
  cancel-rows config id s =
      cancel_found-rows config id s (prisma.find_reservation id s.db)
        (sym (prisma.find_reservation_lem id s.db))

  execute-NoOverlap :
      (c : Command) (s : Hotel Db) → NoOverlap (rows s) → NoOverlap (rows (execute prisma c s))
  unfolding execute
  execute-NoOverlap (create_command config uuid dto) s h = create-NoOverlap config uuid dto s h
  execute-NoOverlap (cancel_command config id) s h = elim (cancel-rows config id s) [
    | inl same ↦ rw same h
    | inr marked ↦ rw marked (map-cancel_row-NoOverlap id (rows s) h)
  ]

  -- No double booking: requests that create and cancel reservations one after another never leave
  -- two confirmed reservations of one room with a day in common, where there were none before.
  pub execute_all-NoOverlap :
      (cs : List Command) (s : Hotel Db)
      → NoOverlap (prisma.reservations s.db)
      → NoOverlap (prisma.reservations (execute_all prisma cs s).db)
  unfolding execute_all
  execute_all-NoOverlap [] s h = h
  execute_all-NoOverlap (c ∷ cs) s h =
      execute_all-NoOverlap cs (execute prisma c s) (execute-NoOverlap c s h)
