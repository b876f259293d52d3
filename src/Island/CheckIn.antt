-- ===== src/Island/CheckIn.antt =====
-- A guest's page and the hotel: the page's requests, those of others, and what the page knows.
use mathlib.Core.List.{Memᴰ}
use faf_hackathon_challenge.Prelude.{String, false, ◌≡◌, some, List, str_eq}
use faf_hackathon_challenge.Hotel.Types.{
  Reservation, confirmed, CreateReservationDto, ReservationResponse, CancelReservationResponse,
}
use faf_hackathon_challenge.Hotel.Prisma.{Prisma}
use faf_hackathon_challenge.Hotel.Reservations.{
  Outcome, ok, http_error, database_error, Config, Hotel, create, find_active_by_guest_id, cancel,
}
use faf_hackathon_challenge.Web.ReservationForm.{PostReservationRequest}
use faf_hackathon_challenge.Web.Reservations.{
  ReservationEntity, as_entity, QueryClient, ReservationPage, on_reserved, on_cancel, on_cancelled,
  on_loaded, on_load_failed, reservation_of,
}
use faf_hackathon_challenge.Island.Stays.{as_dto}

-- The hotel has a confirmed reservation of the guest that is the page's.
pub record Backed (guest_id : String) (r : ReservationEntity) (rows : List Reservation)
    : Type 0 where
  pub row : Reservation
  pub listed : Memᴰ row rows
  pub id : row.id ≡ r.id
  pub guest : row.guest_id ≡ guest_id
  pub on : row.status ≡ confirmed
  pub room : row.room_id ≡ r.room_id
  pub from : row.check_in_day ≡ r.check_in_day
  pub until : row.check_out_day ≡ r.check_out_day

module _ {Db Cache : Type 0} (prisma : Prisma Db) (client : QueryClient Cache) where
  pub record Guest : Type 0 where
    pub page : ReservationPage Cache
    pub hotel : Hotel Db

  -- The form's request, and what the page does with the answer; an error shows a message only.
  abbrev pub submitted_with : Outcome ReservationResponse × Hotel Db → Guest → Guest
  submitted_with (ok x, h) s = record { page = on_reserved client (as_entity x) s.page; hotel = h }
  submitted_with (http_error e, h) s = record s { hotel = h }
  submitted_with (database_error, h) s = record s { hotel = h }

  abbrev pub send_form : Config → String → PostReservationRequest → Guest → Guest
  send_form config uuid request s =
      submitted_with (create prisma config uuid (as_dto request) s.hotel) s

  abbrev pub cancelled_with : Outcome CancelReservationResponse × Hotel Db → Guest → Guest
  cancelled_with (ok x, h) s = record { page = on_cancelled client s.page; hotel = h }
  cancelled_with (http_error e, h) s = record s { hotel = h }
  cancelled_with (database_error, h) s = record s { hotel = h }

  -- The button of the card that shows the reservation.
  abbrev pub press_cancel : Config → ReservationEntity → Guest → Guest
  press_cancel config r s =
      cancelled_with (cancel prisma config r.id s.hotel)
        (record s { page = on_cancel client s.page })

  abbrev pub loaded_with : Outcome ReservationResponse → Guest → Guest
  loaded_with (ok x) s = record s { page = on_loaded client (as_entity x) s.page }
  loaded_with (http_error e) s = record s { page = on_load_failed client s.page }
  loaded_with database_error s = record s { page = on_load_failed client s.page }

  abbrev pub load : Guest → Guest
  load s = loaded_with (find_active_by_guest_id prisma s.page.guest_id s.hotel) s

  -- What can happen: the page's own requests, its loads, and requests of others, as long as these do
  -- not cancel the reservation that the page has.
  pub data Step : Guest → Guest → Type 0 where
    submits :
        (s : Guest) (config : Config) (uuid : String) (request : PostReservationRequest)
        → request.guest_id ≡ s.page.guest_id
        → Step s (send_form config uuid request s)
    cancels :
        (s : Guest) (config : Config) (r : ReservationEntity)
        → reservation_of client s.page ≡ some r
        → Step s (press_cancel config r s)
    loads : (s : Guest) → Step s (load s)
    creates_elsewhere :
        (s : Guest) (config : Config) (uuid : String) (dto : CreateReservationDto)
        → Step s (record s { hotel = (create prisma config uuid dto s.hotel).1 })
    cancels_elsewhere :
        (s : Guest) (config : Config) (id : String)
        → ((r : ReservationEntity) → reservation_of client s.page ≡ some r → str_eq r.id id ≡ false)
        → Step s (record s { hotel = (cancel prisma config id s.hotel).1 })

  pub data Run (s : Guest) : Guest → Type 0 where
    start : Run s s
    next : (t u : Guest) → Run s t → Step t u → Run s u

  abbrev pub IsTruthful : Guest → Type 0
  IsTruthful s =
      (r : ReservationEntity)
      → reservation_of client s.page ≡ some r
      → Backed s.page.guest_id r (prisma.reservations s.hotel.db)
