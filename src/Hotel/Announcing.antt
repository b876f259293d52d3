-- ===== src/Hotel/Announcing.antt =====
-- What the hotel publishes of its reservations.
use faf_hackathon_challenge.Prelude.{
  ℕ, suc, ◌+◌, String, Bool, true, ◌≡◌, refl, ap, ◌∙◌, sym, inl, inr, Option, none, some, List, [],
  ◌∷◌, map, arith, All, Bool-cases, Option-cases, select, select-append, length, length-append,
  str_eq, truthy_option, find,
}
use faf_hackathon_challenge.Hotel.Types.{
  Room, Reservation, is_confirmed, cancel_row, has_id, CreateReservationDto,
}
use faf_hackathon_challenge.Hotel.Prisma.{Prisma}
use faf_hackathon_challenge.Hotel.Clients.{
  reservation_confirmed, reservation_cancelled, HotelEvent, Post, publish_hotel_event,
}
use faf_hackathon_challenge.Hotel.Reservations.{
  Outcome, ok, http_error, database_error, Config, Hotel, new_reservation, hotel_event, choose_room,
  book, book_chosen, create, cancel_found, cancel, Command, create_command, cancel_command, execute,
  execute_all,
}

-- A post to the hub's route for confirmed reservations.
abbrev pub is_confirmation : Post → Bool
is_confirmation p = str_eq p.0 "/hotel/confirm"

abbrev pub confirmations : List Post → ℕ
confirmations sent = length (select is_confirmation sent)

-- Whether the service that runs the command has a hub to publish to.
abbrev pub has_hub : Command → Bool
has_hub (create_command config uuid dto) = truthy_option config.broadcast_url
has_hub (cancel_command config id) = truthy_option config.broadcast_url

length-map_cancel :
    (id : String) (rs : List Reservation) → length (map (cancel_row id) rs) ≡ length rs
length-map_cancel id [] = refl
length-map_cancel id (r ∷ rs) = ap suc (length-map_cancel id rs)

confirmations-confirmed :
    (url : Option String) (event : HotelEvent) (sent : List Post)
    → truthy_option url ≡ true
    → confirmations (publish_hotel_event url reservation_confirmed event sent)
      ≡ confirmations sent + 1
unfolding publish_hotel_event
confirmations-confirmed url event sent h = rw h (
    ap length (select-append is_confirmation sent _)
    ∙ length-append (select is_confirmation sent) _)

confirmations-cancelled :
    (url : Option String) (event : HotelEvent) (sent : List Post)
    → truthy_option url ≡ true
    → confirmations (publish_hotel_event url reservation_cancelled event sent) ≡ confirmations sent
unfolding publish_hotel_event
confirmations-cancelled url event sent h = rw h (
    ap length (select-append is_confirmation sent _)
    ∙ length-append (select is_confirmation sent) _
    ∙ omega arith)

module _ {Db : Type 0} (prisma : Prisma Db) where
  -- As many confirmations are published between two states as reservations are added.
  abbrev pub IsAnnounced : Hotel Db → Hotel Db → Type 0
  IsAnnounced s s' =
      confirmations s'.sent + length (prisma.reservations s.db)
      ≡ confirmations s.sent + length (prisma.reservations s'.db)

  book-IsAnnounced :
      (config : Config) (uuid : String) (dto : CreateReservationDto) (room : Room) (s : Hotel Db)
      → truthy_option config.broadcast_url ≡ true
      → IsAnnounced s (book prisma config uuid dto room s).1
  unfolding book
  book-IsAnnounced config uuid dto room s hub =
      elim (Option-cases (prisma.create_reservation uuid (new_reservation dto room) s.db)) [
        | inl failed ↦ rw (failed, book) refl
        | inr ((r, db'), done) ↦
            let (row, guests, grown, kept) =
              prisma.create_stores uuid (new_reservation dto room) s.db db' r done in
            let posted =
              confirmations-confirmed config.broadcast_url
                (hotel_event "Hotel reservation confirmed." room.type r) s.sent hub in
            rw (done, book) (rw (posted, grown) (omega arith))
      ]

  create-IsAnnounced :
      (config : Config) (uuid : String) (dto : CreateReservationDto) (s : Hotel Db)
      → truthy_option config.broadcast_url ≡ true
      → IsAnnounced s (create prisma config uuid dto s).1
  unfolding create
  create-IsAnnounced config uuid dto s hub = go (choose_room prisma config dto s.db)
    where
      go : (o : Outcome Room) → IsAnnounced s (book_chosen prisma config uuid dto s o).1
      go (ok room) = book-IsAnnounced config uuid dto room s hub
      go (http_error e) = refl
      go database_error = refl

  cancel_found-IsAnnounced :
      (config : Config) (id : String) (s : Hotel Db) (o : Option Reservation)
      → find (has_id id) (prisma.reservations s.db) ≡ o
      → truthy_option config.broadcast_url ≡ true
      → IsAnnounced s (cancel_found prisma config id s o).1
  cancel_found-IsAnnounced config id s none e hub = refl
  cancel_found-IsAnnounced config id s (some r) e hub = elim (Bool-cases (is_confirmed r.status)) [
    | inl active ↦
        let (db', done, marked, kept) = prisma.cancel_stores id s.db r e in
        let posted =
          confirmations-cancelled config.broadcast_url
            (hotel_event "Hotel reservation cancelled."
              (prisma.include_room (cancel_row id r) db').type (cancel_row id r))
            s.sent hub in
        let same : length (prisma.reservations db') ≡ length (prisma.reservations s.db) =
          ap length marked ∙ length-map_cancel id (prisma.reservations s.db) in
        rw (active, done) (rw (posted, same) refl)
    | inr inactive ↦ rw inactive refl
  ]

  execute-IsAnnounced :
      (c : Command) (s : Hotel Db) → has_hub c ≡ true → IsAnnounced s (execute prisma c s)
  unfolding execute cancel
  execute-IsAnnounced (create_command config uuid dto) s hub =
      create-IsAnnounced config uuid dto s hub
  execute-IsAnnounced (cancel_command config id) s hub =
      cancel_found-IsAnnounced config id s (prisma.find_reservation id s.db)
        (sym (prisma.find_reservation_lem id s.db)) hub

  -- Where a hub is configured, any sequence of requests and cancellations publishes exactly as many
  -- confirmations as it adds reservations: none is stored silently, and none is announced that is
  -- not stored, whatever fails between.
  pub execute_all-IsAnnounced :
      (cs : List Command) (s : Hotel Db)
      → All (λ c. has_hub c ≡ true) cs
      → confirmations (execute_all prisma cs s).sent + length (prisma.reservations s.db)
        ≡ confirmations s.sent + length (prisma.reservations (execute_all prisma cs s).db)
  unfolding execute_all
  execute_all-IsAnnounced [] s h = refl
  execute_all-IsAnnounced (c ∷ cs) s (hub, h) =
      let step = execute-IsAnnounced c s hub in
      let rest = execute_all-IsAnnounced cs (execute prisma c s) h in omega (arith, step, rest)
