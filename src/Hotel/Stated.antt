-- ===== src/Hotel/Stated.antt =====
-- The number of guests that a stored reservation states.
use faf_hackathon_challenge.Prelude.{
  ◌≤◌, Bool, ◌≡◌, refl, inl, inr, sym, subst, List, [], ◌∷◌, map, arith, All, any, String, ltb,
}
use faf_hackathon_challenge.Hotel.Types.{Room, Reservation, cancel_row, CreateReservationDto}
use faf_hackathon_challenge.Hotel.Prisma.{Prisma, sum_guests}
use faf_hackathon_challenge.Hotel.Reservations.{
  Outcome, ok, http_error, database_error, Config, Hotel, choose_room, book_chosen, create, Command,
  create_command, cancel_command, execute, execute_all,
}
use faf_hackathon_challenge.Hotel.Booking.{Booked, unchanged, added, book-Booked, cancel-rows}

abbrev pub HasGuests : Reservation → Type 0
HasGuests r = 1 ≤ r.guest_count

-- What the DTO's validation lets through, of the number of guests.
abbrev pub IsValidated : Command → Type 0
IsValidated (create_command config uuid dto) = 1 ≤ dto.guest_count
IsValidated (cancel_command config id) = Unit

HasGuests-cancel :
    (id : String) (rs : List Reservation)
    → All HasGuests rs
    → All HasGuests (map (cancel_row id) rs)
HasGuests-cancel id [] h = tt
HasGuests-cancel id (r ∷ rs) (p, h) = (p, HasGuests-cancel id rs h)

-- With a guest in every reservation, the sum of the guests is none exactly if there is no
-- reservation that counts.
pub sum_guests-any :
    (p : Reservation → Bool) (rs : List Reservation)
    → All HasGuests rs
    → ltb 0 (sum_guests p rs) ≡ any p rs
sum_guests-any p [] h = refl
sum_guests-any p (r ∷ rs) (one, h) = ground (arith, sum_guests-any p rs h)

module _ {Db : Type 0} (prisma : Prisma Db) where
  abbrev AllHaveGuests : Hotel Db → Type 0
  AllHaveGuests s = All HasGuests (prisma.reservations s.db)

  Booked-HasGuests :
      (dto : CreateReservationDto) (room : Room) (s s' : Hotel Db)
      → 1 ≤ dto.guest_count
      → Booked prisma dto room s s'
      → AllHaveGuests s
      → AllHaveGuests s'
  Booked-HasGuests dto room s s' one (unchanged e) h = subst AllHaveGuests (sym e) h
  Booked-HasGuests dto room s s' one (added r at_room from until asked grown kept) h =
      subst (All HasGuests) (sym grown) (omega (arith, asked), h)

  create-HasGuests :
      (config : Config) (uuid : String) (dto : CreateReservationDto) (s : Hotel Db)
      → 1 ≤ dto.guest_count
      → AllHaveGuests s
      → AllHaveGuests (create prisma config uuid dto s).1
  unfolding create
  create-HasGuests config uuid dto s one h = go (choose_room prisma config dto s.db)
    where
      go : (o : Outcome Room) → AllHaveGuests (book_chosen prisma config uuid dto s o).1
      go (ok room) = Booked-HasGuests dto room s _ one (book-Booked prisma config uuid dto room s) h
      go (http_error x) = h
      go database_error = h

  execute-HasGuests :
      (c : Command) (s : Hotel Db)
      → IsValidated c
      → AllHaveGuests s
      → AllHaveGuests (execute prisma c s)
  unfolding execute
  execute-HasGuests (create_command config uuid dto) s one h =
      create-HasGuests config uuid dto s one h
  execute-HasGuests (cancel_command config id) s one h = elim (cancel-rows prisma config id s) [
    | inl same ↦ subst (All HasGuests) (sym same) h
    | inr marked ↦
        subst (All HasGuests) (sym marked) (HasGuests-cancel id (prisma.reservations s.db) h)
  ]

  pub execute_all-HasGuests :
      (cs : List Command) (s : Hotel Db)
      → All IsValidated cs
      → AllHaveGuests s
      → AllHaveGuests (execute_all prisma cs s)
  unfolding execute_all
  execute_all-HasGuests [] s valid h = h
  execute_all-HasGuests (c ∷ cs) s (p, valid) h =
      execute_all-HasGuests cs (execute prisma c s) valid (execute-HasGuests c s p h)
