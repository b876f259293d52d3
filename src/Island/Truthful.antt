-- ===== src/Island/Truthful.antt =====
-- What a guest's page knows of their reservation against the hotel's rows.
use mathlib.Core.List.{Memᴰ}
use faf_hackathon_challenge.Prelude.{
  String, false, ◌≡◌, refl, inl, inr, ◌∙◌, sym, subst, Option, none, some, ◌∷◌, arith, str_eq,
  eq_iff,
}
use faf_hackathon_challenge.Hotel.Types.{
  Reservation, ReservationResponse, CancelReservationResponse,
}
use faf_hackathon_challenge.Hotel.Prisma.{Prisma}
use faf_hackathon_challenge.Hotel.Reservations.{
  Outcome, ok, http_error, database_error, Config, Hotel, response, create, find_active_by_guest_id,
  found, cancel,
}
use faf_hackathon_challenge.Hotel.Booking.{cancel-rows}
use faf_hackathon_challenge.Web.Reservations.{
  ReservationEntity, as_entity, QueryClient, reservation_of,
}
use faf_hackathon_challenge.Island.Stays.{as_dto}
use faf_hackathon_challenge.Island.CheckIn.{
  Guest, submitted_with, cancelled_with, loaded_with, Step, submits, cancels, loads,
  creates_elsewhere, cancels_elsewhere, Run, start, next, Backed, IsTruthful,
}
use faf_hackathon_challenge.Island.Backing.{
  Backed-more, Backed-row, Backed-cancel_row, rows, Entered, refused, entered, create-Entered,
  cancel-error_unchanged,
}

module _ {Db Cache : Type 0} (prisma : Prisma Db) (client : QueryClient Cache) where
  submitted-IsTruthful :
      (s : Guest prisma client) (o : Outcome ReservationResponse × Hotel Db)
      → Entered prisma s.page.guest_id s.hotel o
      → IsTruthful prisma client s
      → IsTruthful prisma client (submitted_with prisma client o s)
  submitted-IsTruthful s (ok x, s') (refused o h) t = absurd (h x refl)
  submitted-IsTruthful s (http_error e, s') (refused o h) t = t
  submitted-IsTruthful s (database_error, s') (refused o h) t = t
  submitted-IsTruthful s o (entered room_type r s' g on grown) t = λ q e.
      let same : as_entity (response room_type r) ≡ q = ground (
        arith,
        client.query_data-set s.page.guest_id (as_entity (response room_type r)) s.page.cache,
      ) in
      subst (λ u. Backed s.page.guest_id u (rows prisma s')) same
        (subst (Backed s.page.guest_id (as_entity (response room_type r))) (sym grown)
          (Backed-row s.page.guest_id room_type r (r ∷ rows prisma s.hotel) (Memᴰ.head refl) g on))

  elsewhere-IsTruthful :
      (guest_id : String) (s : Guest prisma client) (o : Outcome ReservationResponse × Hotel Db)
      → Entered prisma guest_id s.hotel o
      → IsTruthful prisma client s
      → IsTruthful prisma client (record s { hotel = o.1 })
  elsewhere-IsTruthful guest_id s o (refused x h) t = t
  elsewhere-IsTruthful guest_id s o (entered room_type r s' g on grown) t = λ q e.
      subst (Backed s.page.guest_id q) (sym grown)
        (Backed-more s.page.guest_id q r (rows prisma s.hotel) (t q e))

  -- The rows with one reservation cancelled, which is not the page's.
  cancelled-IsTruthful :
      (config : Config) (id : String) (s : Guest prisma client)
      → ((r : ReservationEntity) → reservation_of client s.page ≡ some r → str_eq r.id id ≡ false)
      → IsTruthful prisma client s
      → IsTruthful prisma client (record s { hotel = (cancel prisma config id s.hotel).1 })
  cancelled-IsTruthful config id s other t = λ q e. elim (cancel-rows prisma config id s.hotel) [
    | inl same ↦ subst (Backed s.page.guest_id q) (sym same) (t q e)
    | inr marked ↦
        subst (Backed s.page.guest_id q) (sym marked)
          (Backed-cancel_row s.page.guest_id id q (rows prisma s.hotel) (other q e) (t q e))
  ]

  pressed-IsTruthful :
      (s : Guest prisma client) (o : Outcome CancelReservationResponse × Hotel Db)
      → (((x : CancelReservationResponse) → o.0 ≡ ok x → ⊥) → o.1 ≡ s.hotel)
      → IsTruthful prisma client s
      → IsTruthful prisma client (cancelled_with prisma client o s)
  pressed-IsTruthful s (ok x, h) kept t =
      λ q e. absurd (ground (arith, client.query_data-remove s.page.guest_id s.page.cache))
  pressed-IsTruthful s (http_error x, h) kept t =
      λ q e. subst (λ u. Backed s.page.guest_id q (rows prisma u)) (sym (kept (λ y k. cc))) (t q e)
  pressed-IsTruthful s (database_error, h) kept t =
      λ q e. subst (λ u. Backed s.page.guest_id q (rows prisma u)) (sym (kept (λ y k. cc))) (t q e)

  rejected-IsTruthful :
      (s : Guest prisma client)
      → IsTruthful prisma client s
      → IsTruthful prisma client (loaded_with prisma client database_error s)
  rejected-IsTruthful s t =
      λ q e. t q (sym (client.query_data-reject s.page.guest_id s.page.cache) ∙ e)

  found-IsTruthful :
      (s : Guest prisma client) (o : Option Reservation)
      → prisma.find_first_active s.page.guest_id s.hotel.db ≡ o
      → IsTruthful prisma client s
      → IsTruthful prisma client (loaded_with prisma client (found prisma s.hotel.db o) s)
  found-IsTruthful s none e t = rejected-IsTruthful s t
  found-IsTruthful s (some r) e t = λ q k.
      let (active, listed, latest) = prisma.find_first_found s.page.guest_id s.hotel.db r e in
      let room_type = (prisma.include_room r s.hotel.db).type in
      let same : as_entity (response room_type r) ≡ q = ground (
        arith,
        client.query_data-resolve s.page.guest_id (as_entity (response room_type r)) s.page.cache,
      ) in
      subst (λ u. Backed s.page.guest_id u (rows prisma s.hotel)) same
        (Backed-row s.page.guest_id room_type r (rows prisma s.hotel) listed
          (ground (arith, eq_iff r.guest_id s.page.guest_id)) (ground arith))

  moved-IsTruthful :
      (s u : Guest prisma client)
      → Step prisma client s u
      → IsTruthful prisma client s
      → IsTruthful prisma client u
  unfolding find_active_by_guest_id
  moved-IsTruthful s u (submits _ config uuid request own) t =
      submitted-IsTruthful s _
        (subst (λ g. Entered prisma g s.hotel (create prisma config uuid (as_dto request) s.hotel))
          own (create-Entered prisma config uuid (as_dto request) s.hotel))
        t
  moved-IsTruthful s u (cancels _ config r h) t =
      pressed-IsTruthful _ _ (cancel-error_unchanged prisma config r.id s.hotel) t
  moved-IsTruthful s u (loads _) t = found-IsTruthful s _ refl t
  moved-IsTruthful s u (creates_elsewhere _ config uuid dto) t =
      elsewhere-IsTruthful dto.guest_id s _ (create-Entered prisma config uuid dto s.hotel) t
  moved-IsTruthful s u (cancels_elsewhere _ config id other) t =
      cancelled-IsTruthful config id s other t

  pub run-IsTruthful :
      (s u : Guest prisma client)
      → Run prisma client s u
      → IsTruthful prisma client s
      → IsTruthful prisma client u
  run-IsTruthful s u start t = t
  run-IsTruthful s u (next v _ earlier step) t =
      moved-IsTruthful v u step (run-IsTruthful s v earlier t)

  -- The page stays the same guest's.
  submitted-guest_id :
      (s : Guest prisma client) (o : Outcome ReservationResponse × Hotel Db)
      → (submitted_with prisma client o s).page.guest_id ≡ s.page.guest_id
  submitted-guest_id s (ok x, h) = refl
  submitted-guest_id s (http_error e, h) = refl
  submitted-guest_id s (database_error, h) = refl

  cancelled-guest_id :
      (s : Guest prisma client) (o : Outcome CancelReservationResponse × Hotel Db)
      → (cancelled_with prisma client o s).page.guest_id ≡ s.page.guest_id
  cancelled-guest_id s (ok x, h) = refl
  cancelled-guest_id s (http_error e, h) = refl
  cancelled-guest_id s (database_error, h) = refl

  loaded-guest_id :
      (s : Guest prisma client) (o : Outcome ReservationResponse)
      → (loaded_with prisma client o s).page.guest_id ≡ s.page.guest_id
  loaded-guest_id s (ok x) = refl
  loaded-guest_id s (http_error e) = refl
  loaded-guest_id s database_error = refl

  moved-guest_id :
      (s u : Guest prisma client) → Step prisma client s u → u.page.guest_id ≡ s.page.guest_id
  moved-guest_id s u (submits _ config uuid request own) = submitted-guest_id s _
  moved-guest_id s u (cancels _ config r h) = cancelled-guest_id _ _
  moved-guest_id s u (loads _) = loaded-guest_id s _
  moved-guest_id s u (creates_elsewhere _ config uuid dto) = refl
  moved-guest_id s u (cancels_elsewhere _ config id other) = refl

  pub run-guest_id :
      (s u : Guest prisma client) → Run prisma client s u → u.page.guest_id ≡ s.page.guest_id
  run-guest_id s u start = refl
  run-guest_id s u (next v _ earlier step) = moved-guest_id v u step ∙ run-guest_id s v earlier
