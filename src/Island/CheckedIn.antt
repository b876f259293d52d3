-- ===== src/Island/CheckedIn.antt =====
-- The web app's gates for guests with a room, against the rows of the hotel.
use mathlib.Core.List.{Memᴰ}
use faf_hackathon_challenge.Prelude.{
  String, Bool, true, false, ◌≡◌, refl, inl, inr, ◌∙◌, ap, sym, Option, none, some, arith,
  Option-cases, if◌then◌else◌, not, ◌&&◌, ◌||◌, Bool-cases,
}
use faf_hackathon_challenge.Hotel.Types.{
  Reservation, confirmed, ReservationResponse, CancelReservationResponse,
}
use faf_hackathon_challenge.Hotel.Prisma.{Prisma}
use faf_hackathon_challenge.Hotel.Reservations.{
  Outcome, ok, http_error, database_error, Config, Hotel, create, cancel,
}
use faf_hackathon_challenge.Web.Types.{GuestProfile}
use faf_hackathon_challenge.Web.Session.{SessionState}
use faf_hackathon_challenge.Web.Zones.{use_checked_in, is_present, active_reservation, is_loading}
use faf_hackathon_challenge.Web.ReservationForm.{PostReservationRequest}
use faf_hackathon_challenge.Web.Reservations.{
  ReservationEntity, as_entity, QueryClient, ReservationPage, reservation_of, loaded_of, id_of,
  on_reserved, on_cancel, on_cancelled,
}
use faf_hackathon_challenge.Island.Stays.{as_dto}
use faf_hackathon_challenge.Island.CheckIn.{
  Guest, send_form, submitted_with, press_cancel, cancelled_with, Run,
}
use faf_hackathon_challenge.Island.Truthful.{run-IsTruthful, run-guest_id}

module _ {Cache : Type 0} (client : QueryClient Cache)
    (arrival_status : String → Option String) where
  checked_in-of_guest :
      (page : ReservationPage Cache) (guest : Option GuestProfile) (g : GuestProfile)
      → guest ≡ some g
      → g.id ≡ page.guest_id
      → (if is_loading (loaded_of client arrival_status page) guest
          then false
          else is_present (active_reservation (loaded_of client arrival_status page) guest))
        ≡ (if client.is_loading page.guest_id page.cache
            then false
            else is_present (id_of (reservation_of client page)))
  checked_in-of_guest page none g at own = cc
  checked_in-of_guest page (some x) g at own =
      let same : x.id ≡ page.guest_id = ground arith in
      ap
        (λ (id : String).
          if client.is_loading id page.cache
          then false
          else is_present (id_of (client.query_data id page.cache)))
        same

  module _ (page : ReservationPage Cache) (session : SessionState) (g : GuestProfile)
      (at : session.guest ≡ some g) (own : g.id ≡ page.guest_id) where
    checked_in-known :
        use_checked_in (loaded_of client arrival_status page) session ≡ true
        → (r : ReservationEntity) × (reservation_of client page ≡ some r)
    unfolding use_checked_in
    checked_in-known h = elim (Option-cases (reservation_of client page)) [
      | inr known ↦ known
      | inl unknown ↦
          let open_gate = sym (checked_in-of_guest page session.guest g at own) ∙ h in
          absurd (ground arith)
    ]

    known-checked_in :
        (r : ReservationEntity)
        → reservation_of client page ≡ some r
        → use_checked_in (loaded_of client arrival_status page) session ≡ true
    unfolding use_checked_in
    known-checked_in r h =
        let loaded = client.loading_empty page.guest_id r page.cache h in
        checked_in-of_guest page session.guest g at own ∙ ground arith

abbrev pub is_answered {ℓ} : {A : Type ℓ} → Outcome A → Bool
is_answered (ok x) = true
is_answered (http_error e) = false
is_answered database_error = false

module _ {Db Cache : Type 0} (prisma : Prisma Db) (client : QueryClient Cache)
    (arrival_status : String → Option String) where
  -- Where the app lets a guest in as checked in, the hotel has a confirmed reservation of theirs:
  -- after any number of the page's requests and loads, each answered and its answer in the cache before
  -- the next request, and of other requests that create reservations or cancel ones that the page does
  -- not show, from a page that knew of no reservation. A cancellation in another tab of the reservation
  -- that the page shows is not among them: until its next load the page would go on showing it.
  pub checked_in-confirmed :
      (s u : Guest prisma client) (session : SessionState) (g : GuestProfile)
      → reservation_of client s.page ≡ none
      → Run prisma client s u
      → session.guest ≡ some g
      → g.id ≡ s.page.guest_id
      → use_checked_in (loaded_of client arrival_status u.page) session ≡ true
      → (r : Reservation) × Memᴰ r (prisma.reservations u.hotel.db)
        × (r.guest_id ≡ g.id)
        × (r.status ≡ confirmed)
  checked_in-confirmed s u session g fresh run at own h =
      let same = run-guest_id prisma client s u run in
      let (q, known) =
        checked_in-known client arrival_status u.page session g at (own ∙ sym same) h in
      let b = run-IsTruthful prisma client s u run (λ x e. cc) q known in
      (b.row, b.listed, b.guest ∙ same ∙ sym own, b.on)

  submitted-checked_in :
      (s : Guest prisma client) (session : SessionState) (g : GuestProfile)
      (o : Outcome ReservationResponse × Hotel Db)
      → session.guest ≡ some g
      → g.id ≡ s.page.guest_id
      → use_checked_in
          (loaded_of client arrival_status (submitted_with prisma client o s).page)
          session
        ≡ (is_answered o.0 || use_checked_in (loaded_of client arrival_status s.page) session)
  submitted-checked_in s session g (ok x, h) at own =
      known-checked_in client arrival_status (on_reserved client (as_entity x) s.page) session g at
        own (as_entity x) (client.query_data-set s.page.guest_id (as_entity x) s.page.cache)
  submitted-checked_in s session g (http_error e, h) at own = refl
  submitted-checked_in s session g (database_error, h) at own = refl

  cancelled-checked_in :
      (s : Guest prisma client) (session : SessionState) (g : GuestProfile)
      (o : Outcome CancelReservationResponse × Hotel Db)
      → session.guest ≡ some g
      → g.id ≡ s.page.guest_id
      → use_checked_in
          (loaded_of client arrival_status (cancelled_with prisma client o s).page)
          session
        ≡ (not (is_answered o.0) && use_checked_in (loaded_of client arrival_status s.page) session)
  cancelled-checked_in s session g (ok x, h) at own =
      elim (Bool-cases
        (use_checked_in (loaded_of client arrival_status (on_cancelled client s.page)) session)) [
          | inr closed ↦ closed
          | inl still ↦
              let (q, known) =
                checked_in-known client arrival_status (on_cancelled client s.page) session g at own
                  still in
              absurd (ground (arith, client.query_data-remove s.page.guest_id s.page.cache))
        ]
  cancelled-checked_in s session g (http_error e, h) at own = refl
  cancelled-checked_in s session g (database_error, h) at own = refl

  -- A form that is sent lets its guest in at once if the hotel answers with a reservation, and a
  -- cancellation that the hotel answers closes the gate at once; an error of either leaves the gate as
  -- it was.
  send_cancel-checked_in :
      (s : Guest prisma client) (session : SessionState) (g : GuestProfile) (config : Config)
      (uuid : String) (request : PostReservationRequest) (r : ReservationEntity)
      → session.guest ≡ some g
      → g.id ≡ s.page.guest_id
      → (use_checked_in
            (loaded_of client arrival_status (send_form prisma client config uuid request s).page)
            session
          ≡ (is_answered (create prisma config uuid (as_dto request) s.hotel).0
              || use_checked_in (loaded_of client arrival_status s.page) session))
        × (use_checked_in
              (loaded_of client arrival_status (press_cancel prisma client config r s).page)
              session
            ≡ (not (is_answered (cancel prisma config r.id s.hotel).0)
                && use_checked_in (loaded_of client arrival_status s.page) session))
  send_cancel-checked_in s session g config uuid request r at own = (
    submitted-checked_in s session g (create prisma config uuid (as_dto request) s.hotel) at own,
    cancelled-checked_in (record s { page = on_cancel client s.page }) session g
        (cancel prisma config r.id s.hotel) at own,
  )
