-- ===== src/Hotel/Creating.antt =====
-- The outcomes of `create`: what an error leaves behind, when a request succeeds, what the count
-- of guests has to do with it, and what two requests do that overlap in time.
use mathlib.Core.List.{Memᴰ}
use faf_hackathon_challenge.Prelude.{
  ℕ, String, true, false, ◌≡◌, refl, ◌≢◌, inl, inr, ◌∙◌, sym, ap, some, List, [], ◌∷◌, arith,
  Option-cases, find, any, or_else, eq_refl, leb, ◌==◌, ◌&&◌, select,
}
use faf_hackathon_challenge.Prelude.Int.{pos, ◌<ℤ◌}
use faf_hackathon_challenge.Hotel.Types.{
  Room, Reservation, confirmed, stored, has_id, same_type, CreateReservationDto,
  ReservationResponse,
}
use faf_hackathon_challenge.Hotel.Prisma.{Prisma, is_distinct, has_room, fits_integer}
use faf_hackathon_challenge.Hotel.Reservations.{
  Outcome, ok, http_error, database_error, Config, Hotel, party_size, choose_room, book,
  book_chosen, new_reservation, response, create,
}
use faf_hackathon_challenge.Hotel.Calendar.{NoOverlap}
use faf_hackathon_challenge.Hotel.Selection.{IsChosen, choose_room_iff}

-- The numbers of a request fit the columns that they are stored in.
abbrev pub IsStorable : CreateReservationDto → Type 0
IsStorable dto =
    (fits_integer (pos dto.guest_count)
      && (fits_integer dto.check_in_day && fits_integer dto.check_out_day))
    ≡ true

has_room_of_mem :
    (room : Room) (rooms : List Room) → Memᴰ room rooms → has_room room.id rooms ≡ true
has_room_of_mem room [] m = elim m [ ]
has_room_of_mem room (r ∷ rooms) (Memᴰ.head e) = rw (← e) (rw (eq_refl room.id) refl)
has_room_of_mem room (r ∷ rooms) (Memᴰ.tail m) = ground (arith, has_room_of_mem room rooms m)

-- Two confirmed reservations of one room for the same days are not disjoint.
same_stay :
    (dto : CreateReservationDto) (t r : Reservation) (rs all_rows : List Reservation)
    → all_rows ≡ t ∷ r ∷ rs
    → t.status ≡ confirmed
    → r.status ≡ confirmed
    → t.room_id ≡ r.room_id
    → dto.check_in_day <ℤ dto.check_out_day
    → r.check_in_day ≡ dto.check_in_day
    → t.check_in_day ≡ dto.check_in_day
    → r.check_out_day ≡ dto.check_out_day
    → t.check_out_day ≡ dto.check_out_day
    → NoOverlap all_rows
    → ⊥
same_stay dto t r rs all_rows e on' on at days from from' until until' apart =
    let both : NoOverlap (t ∷ r ∷ rs) = rw e at apart in
    let met = both.0.0 on' on at in ground arith

module _ {Db : Type 0} (prisma : Prisma Db) where
  book-error_unchanged :
      (config : Config) (uuid : String) (dto : CreateReservationDto) (room : Room) (s : Hotel Db)
      → ((x : ReservationResponse) → (book prisma config uuid dto room s).0 ≢ ok x)
      → (book prisma config uuid dto room s).1 ≡ s
  unfolding book
  book-error_unchanged config uuid dto room s h =
      elim (Option-cases (prisma.create_reservation uuid (new_reservation dto room) s.db)) [
        | inl failed ↦ rw (failed, book) refl
        | inr ((r, db'), done) ↦ absurd (h (response room.type r) (rw (done, book) refl))
      ]

  -- A request to create a reservation that is not answered by one, whether by an HttpException or
  -- by an exception of the database, leaves the database as it was and publishes nothing.
  pub create-error_unchanged :
      (config : Config) (uuid : String) (dto : CreateReservationDto) (s : Hotel Db)
      → ((x : ReservationResponse) → (create prisma config uuid dto s).0 ≢ ok x)
      → (create prisma config uuid dto s).1 ≡ s
  unfolding create
  create-error_unchanged config uuid dto s = go (choose_room prisma config dto s.db)
    where
      go :
          (o : Outcome Room)
          → ((x : ReservationResponse) → (book_chosen prisma config uuid dto s o).0 ≢ ok x)
          → (book_chosen prisma config uuid dto s o).1 ≡ s
      go (ok room) h = book-error_unchanged config uuid dto room s h
      go (http_error e) h = refl
      go database_error h = refl

  book_succeeds :
      (config : Config) (uuid : String) (dto : CreateReservationDto) (room : Room) (s : Hotel Db)
      → any (has_id uuid) (prisma.reservations s.db) ≡ false
      → Memᴰ room (prisma.rooms s.db)
      → is_distinct (or_else dto.party_guest_ids []) ≡ true
      → IsStorable dto
      → (x : ReservationResponse) × ((book prisma config uuid dto room s).0 ≡ ok x)
        × (x.id ≡ uuid)
        × (x.room_id ≡ room.id)
        × (x.check_in_day ≡ dto.check_in_day)
        × (x.check_out_day ≡ dto.check_out_day)
        × (x.guest_count ≡ dto.guest_count)
        × (x.status ≡ confirmed)
  unfolding book
  book_succeeds config uuid dto room s fresh listed distinct small =
      let n = new_reservation dto room in
      let (r, db', done) =
        prisma.create_succeeds uuid n s.db fresh (has_room_of_mem room _ listed) distinct small in
      let row : r ≡ record (stored uuid n) { guests = r.guests } =
        (prisma.create_stores uuid n s.db db' r done).0 in
      (
        response room.type r,
        rw (done, book) refl,
        ap (λ (t : Reservation). t.id) row,
        ap (λ (t : Reservation). t.room_id) row,
        ap (λ (t : Reservation). t.check_in_day) row,
        ap (λ (t : Reservation). t.check_out_day) row,
        ap (λ (t : Reservation). t.guest_count) row,
        ap (λ (t : Reservation). t.status) row,
      )

  create-book :
      (config : Config) (uuid : String) (dto : CreateReservationDto) (s : Hotel Db) (room : Room)
      → choose_room prisma config dto s.db ≡ ok room
      → create prisma config uuid dto s ≡ book prisma config uuid dto room s
  unfolding create
  create-book config uuid dto s room h = rw h refl

  pub create_succeeds :
      (config : Config) (uuid : String) (dto : CreateReservationDto) (s : Hotel Db) (room : Room)
      → IsChosen prisma dto s.db config room
      → any (has_id uuid) (prisma.reservations s.db) ≡ false
      → is_distinct (or_else dto.party_guest_ids []) ≡ true
      → IsStorable dto
      → (x : ReservationResponse) × ((create prisma config uuid dto s).0 ≡ ok x)
        × (x.id ≡ uuid)
        × (x.room_id ≡ room.id)
        × (x.check_in_day ≡ dto.check_in_day)
        × (x.check_out_day ≡ dto.check_out_day)
        × (x.guest_count ≡ dto.guest_count)
        × (x.status ≡ confirmed)
  create_succeeds config uuid dto s room c fresh distinct small =
      rw (create-book config uuid dto s room ((choose_room_iff prisma dto s.db config room).1 c))
        (book_succeeds config uuid dto room s fresh c.listed distinct small)

  party_size_of_party :
      (dto : CreateReservationDto) (g : String) (gs : List String) (n : ℕ)
      → dto.party_guest_ids ≡ some (g ∷ gs)
      → party_size (record dto { guest_count = n }) ≡ party_size dto
  unfolding party_size
  party_size_of_party dto g gs n h = ground arith

  -- With a party in the request the room is chosen by the party's size alone.
  IsChosen-any_count :
      (config : Config) (dto : CreateReservationDto) (db : Db) (room : Room) (g : String)
      (gs : List String) (n : ℕ)
      → dto.party_guest_ids ≡ some (g ∷ gs)
      → IsChosen prisma dto db config room
      → IsChosen prisma (record dto { guest_count = n }) db config room
  IsChosen-any_count config dto db room g gs n h c =
      let size = party_size_of_party dto g gs n h in
      record {
        days = c.days;
        cleared = c.cleared;
        listed = c.listed;
        type = c.type;
        fits = rw size c.fits;
        free = c.free;
        first =
            ap
              (λ (k : ℕ).
                find
                  (λ r.
                    leb k r.capacity
                    && prisma.count_overlapping r.id dto.check_in_day dto.check_out_day db == 0)
                  (select (λ r. same_type r.type dto.room_type) (prisma.rooms db)))
              size
            ∙ c.first;
      }

  -- A request that names a party may state any number of guests: where it would be given a room
  -- for its party, it is given that room with the stated number in its place, however large that
  -- is, and the reservation and its event carry the stated number.
  create_unchecked_count :
      (config : Config) (uuid : String) (dto : CreateReservationDto) (s : Hotel Db) (room : Room)
      (g : String) (gs : List String) (n : ℕ)
      → dto.party_guest_ids ≡ some (g ∷ gs)
      → IsChosen prisma dto s.db config room
      → any (has_id uuid) (prisma.reservations s.db) ≡ false
      → is_distinct (g ∷ gs) ≡ true
      → IsStorable (record dto { guest_count = n })
      → (x : ReservationResponse) × ((create prisma config uuid
            (record dto { guest_count = n })
            s).0
          ≡ ok x)
        × (x.room_id ≡ room.id)
        × (x.guest_count ≡ n)
  create_unchecked_count config uuid dto s room g gs n h c fresh distinct small =
      let (x, done, id, at_room, from, until, count, status) =
        create_succeeds config uuid (record dto { guest_count = n }) s room
          (IsChosen-any_count config dto s.db room g gs n h c) fresh (rw h distinct) small in
      (x, done, at_room, count)

  -- The row that a booking adds.
  book_row :
      (config : Config) (uuid : String) (dto : CreateReservationDto) (room : Room) (s : Hotel Db)
      → any (has_id uuid) (prisma.reservations s.db) ≡ false
      → Memᴰ room (prisma.rooms s.db)
      → is_distinct (or_else dto.party_guest_ids []) ≡ true
      → IsStorable dto
      → (r : Reservation) × (prisma.reservations (book prisma config uuid dto room s).1.db
          ≡ r ∷ prisma.reservations s.db)
        × (prisma.rooms (book prisma config uuid dto room s).1.db ≡ prisma.rooms s.db)
        × (r.status ≡ confirmed)
        × (r.room_id ≡ room.id)
        × (r.check_in_day ≡ dto.check_in_day)
        × (r.check_out_day ≡ dto.check_out_day)
  unfolding book
  book_row config uuid dto room s fresh listed distinct small =
      let n = new_reservation dto room in
      let (r, db', done) =
        prisma.create_succeeds uuid n s.db fresh (has_room_of_mem room _ listed) distinct small in
      let (row, guests, grown, kept) = prisma.create_stores uuid n s.db db' r done in
      (
        r,
        rw (done, book) grown,
        rw (done, book) kept,
        ap (λ (t : Reservation). t.status) row,
        ap (λ (t : Reservation). t.room_id) row,
        ap (λ (t : Reservation). t.check_in_day) row,
        ap (λ (t : Reservation). t.check_out_day) row,
      )

  -- `create` awaits between its search for a room and its write. If two requests for the same stay,
  -- with no guest twice in the party and with numbers that a column of 32 bits holds, under fresh ids,
  -- both search before either writes, both are given the same room for the same days: the
  -- reservations are no longer without overlap, whatever they were before.
  pub book-book_overlap :
      (config : Config) (uuid uuid' : String) (dto : CreateReservationDto) (room : Room)
      (s : Hotel Db)
      → choose_room prisma config dto s.db ≡ ok room
      → any (has_id uuid) (prisma.reservations s.db) ≡ false
      → any (has_id uuid') (prisma.reservations (book prisma config uuid dto room s).1.db) ≡ false
      → is_distinct (or_else dto.party_guest_ids []) ≡ true
      → IsStorable dto
      → ¬ (
          NoOverlap (
            prisma.reservations
              (book prisma config uuid' dto room (book prisma config uuid dto room s).1).1.db))
  book-book_overlap config uuid uuid' dto room s chosen fresh fresh' distinct small apart =
      let c = (choose_room_iff prisma dto s.db config room).0 chosen in
      let s' = (book prisma config uuid dto room s).1 in
      let (r, rows, kept, on, at, from, until) =
        book_row config uuid dto room s fresh c.listed distinct small in
      let (t, rows', kept', on', at', from', until') =
        book_row config uuid' dto room s' fresh' (rw kept c.listed) distinct small in
      same_stay dto t r _ _ (rows' ∙ ap (λ rs. t ∷ rs) rows) on' on (at' ∙ sym at) c.days from from'
        until until' apart
