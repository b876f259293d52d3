-- ===== src/Island/Backing.antt =====
-- What requests to the hotel do to the row behind a guest's reservation.
use mathlib.Core.List.{Memᴰ}
use faf_hackathon_challenge.Prelude.{
  String, false, ◌≡◌, refl, inl, inr, ◌∙◌, ap, subst, Option, none, some, List, [], ◌∷◌, map, arith,
  Bool-cases, Option-cases, str_eq,
}
use faf_hackathon_challenge.Hotel.Types.{
  RoomType, Room, Reservation, confirmed, is_confirmed, cancel_row, CreateReservationDto,
  ReservationResponse, CancelReservationResponse,
}
use faf_hackathon_challenge.Hotel.Prisma.{Prisma}
use faf_hackathon_challenge.Hotel.Reservations.{
  Outcome, ok, http_error, database_error, Config, Hotel, choose_room, book, book_chosen, response,
  new_reservation, create, cancel, cancel_found,
}
use faf_hackathon_challenge.Web.Reservations.{ReservationEntity, as_entity}
use faf_hackathon_challenge.Island.CheckIn.{Backed}

Memᴰ-cancel_row :
    (id : String) (r : Reservation) (rows : List Reservation)
    → str_eq r.id id ≡ false
    → Memᴰ r rows
    → Memᴰ r (map (cancel_row id) rows)
Memᴰ-cancel_row id r [] h m = elim m [ ]
Memᴰ-cancel_row id r (t ∷ rows) h (Memᴰ.head e) =
    Memᴰ.head (subst (λ u. r ≡ cancel_row id u) e (kept r h))
  where
    kept : (u : Reservation) → str_eq u.id id ≡ false → u ≡ cancel_row id u
    kept u k = ground arith
Memᴰ-cancel_row id r (t ∷ rows) h (Memᴰ.tail m) = Memᴰ.tail (Memᴰ-cancel_row id r rows h m)

Backed-moved :
    (guest_id : String) (r : ReservationEntity) (rows rows' : List Reservation)
    → (b : Backed guest_id r rows) → Memᴰ b.row rows'
    → Backed guest_id r rows'
Backed-moved guest_id r rows rows' b m = record {
  row = b.row;
  listed = m;
  id = b.id;
  guest = b.guest;
  on = b.on;
  room = b.room;
  from = b.from;
  until = b.until;
}

pub Backed-more :
    (guest_id : String) (r : ReservationEntity) (t : Reservation) (rows : List Reservation)
    → Backed guest_id r rows
    → Backed guest_id r (t ∷ rows)
Backed-more guest_id r t rows b = Backed-moved guest_id r rows (t ∷ rows) b (Memᴰ.tail b.listed)

pub Backed-cancel_row :
    (guest_id id : String) (r : ReservationEntity) (rows : List Reservation)
    → str_eq r.id id ≡ false
    → Backed guest_id r rows
    → Backed guest_id r (map (cancel_row id) rows)
Backed-cancel_row guest_id id r rows h b =
    Backed-moved guest_id r rows (map (cancel_row id) rows) b
      (Memᴰ-cancel_row id b.row rows (ap (λ k. str_eq k id) b.id ∙ h) b.listed)

pub Backed-row :
    (guest_id : String) (room_type : RoomType) (r : Reservation) (rows : List Reservation)
    → Memᴰ r rows
    → r.guest_id ≡ guest_id
    → r.status ≡ confirmed
    → Backed guest_id (as_entity (response room_type r)) rows
Backed-row guest_id room_type r rows m g on = record {
  row = r;
  listed = m;
  id = refl;
  guest = g;
  on = on;
  room = refl;
  from = refl;
  until = refl;
}

module _ {Db : Type 0} (prisma : Prisma Db) where
  abbrev pub rows : Hotel Db → List Reservation
  rows s = prisma.reservations s.db

  -- What a request to reserve comes to: it is refused and nothing changes, or it is answered by the
  -- confirmed row of the guest that is added.
  pub data Entered (guest_id : String) (s : Hotel Db)
      : Outcome ReservationResponse × Hotel Db → Type 0 where
    refused :
        (o : Outcome ReservationResponse)
        → ((x : ReservationResponse) → o ≡ ok x → ⊥)
        → Entered guest_id s (o, s)
    entered :
        (room_type : RoomType) (r : Reservation) (s' : Hotel Db)
        → r.guest_id ≡ guest_id
        → r.status ≡ confirmed
        → rows s' ≡ r ∷ rows s
        → Entered guest_id s (ok (response room_type r), s')

  book-Entered :
      (config : Config) (uuid : String) (dto : CreateReservationDto) (room : Room) (s : Hotel Db)
      → Entered dto.guest_id s (book prisma config uuid dto room s)
  unfolding book
  book-Entered config uuid dto room s =
      elim (Option-cases (prisma.create_reservation uuid (new_reservation dto room) s.db)) [
        | inl failed ↦ rw (failed, book) (refused database_error (λ x e. cc))
        | inr ((r, db'), done) ↦
            let (row, guests, grown, kept) =
              prisma.create_stores uuid (new_reservation dto room) s.db db' r done in
            rw (done, book)
              (entered room.type r _ (ap (λ (t : Reservation). t.guest_id) row)
                (ap (λ (t : Reservation). t.status) row) grown)
      ]

  pub create-Entered :
      (config : Config) (uuid : String) (dto : CreateReservationDto) (s : Hotel Db)
      → Entered dto.guest_id s (create prisma config uuid dto s)
  unfolding create
  create-Entered config uuid dto s = go (choose_room prisma config dto s.db)
    where
      go : (o : Outcome Room) → Entered dto.guest_id s (book_chosen prisma config uuid dto s o)
      go (ok room) = book-Entered config uuid dto room s
      go (http_error e) = refused (http_error e) (λ x h. cc)
      go database_error = refused database_error (λ x h. cc)

  -- A cancellation that is not answered changes nothing.
  pub cancel-error_unchanged :
      (config : Config) (id : String) (s : Hotel Db)
      → ((x : CancelReservationResponse) → (cancel prisma config id s).0 ≡ ok x → ⊥)
      → (cancel prisma config id s).1 ≡ s
  unfolding cancel
  cancel-error_unchanged config id s = go (prisma.find_reservation id s.db)
    where
      go :
          (o : Option Reservation)
          → ((x : CancelReservationResponse) → (cancel_found prisma config id s o).0 ≡ ok x → ⊥)
          → (cancel_found prisma config id s o).1 ≡ s
      go none h = refl
      go (some r) h = elim (Bool-cases (is_confirmed r.status)) [
        | inr inactive ↦ rw inactive refl
        | inl active ↦ elim (Option-cases (prisma.cancel_reservation id s.db)) [
          | inl failed ↦ rw (active, failed) refl
          | inr ((t, db'), done) ↦
              absurd (h (record { id = t.id; status = t.status }) (rw (active, done) refl))
        ]
      ]
