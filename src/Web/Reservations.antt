-- ===== src/Web/Reservations.antt =====
-- frontend/src/features/hotel/hooks: what use-reservation-form.ts and use-active-reservation.ts do
-- with the hotel's answers, on the query cache of react-query.
use faf_hackathon_challenge.Prelude.{ℕ, String, Bool, false, ◌≡◌, Option, none, some}
use faf_hackathon_challenge.Prelude.Int.{ℤ}
use faf_hackathon_challenge.Hotel.Types.{RoomType, ReservationStatus, ReservationResponse}
use faf_hackathon_challenge.Web.Zones.{Loaded}

-- `ReservationSchema` of features/hotel/types.ts, which strips the other members of an answer.
pub record ReservationEntity : Type 0 where
  pub id : String
  pub guest_id : String
  pub room_id : String
  pub room_type : RoomType
  pub guest_count : ℕ
  pub check_in_day : ℤ
  pub check_out_day : ℤ
  pub status : ReservationStatus

abbrev pub as_entity : ReservationResponse → ReservationEntity
as_entity x = record {
  id = x.id;
  guest_id = x.guest_id;
  room_id = x.room_id;
  room_type = x.room_type;
  guest_count = x.guest_count;
  check_in_day = x.check_in_day;
  check_out_day = x.check_out_day;
  status = x.status;
}

-- react-query's client as the hooks use it, for the queries of a guest's reservation, by the guest's
-- id: what a query has, and whether it loads with nothing yet. The laws are its documented behaviour:
-- a query that fails keeps what it had, one that is removed has nothing, and one that has something
-- is not loading.
pub record QueryClient (Cache : Type 0) : Type 0 where
  pub query_data : String → Cache → Option ReservationEntity
  pub is_loading : String → Cache → Bool
  pub set_query_data : String → ReservationEntity → Cache → Cache
  pub remove_queries : String → Cache → Cache
  pub resolve : String → ReservationEntity → Cache → Cache
  pub reject : String → Cache → Cache
  pub query_data-set :
      (k : String) (r : ReservationEntity) (c : Cache)
      → query_data k (set_query_data k r c) ≡ some r
  pub query_data-remove : (k : String) (c : Cache) → query_data k (remove_queries k c) ≡ none
  pub query_data-resolve :
      (k : String) (r : ReservationEntity) (c : Cache) → query_data k (resolve k r c) ≡ some r
  pub query_data-reject : (k : String) (c : Cache) → query_data k (reject k c) ≡ query_data k c
  pub loading_empty :
      (k : String) (r : ReservationEntity) (c : Cache)
      → query_data k c ≡ some r
      → is_loading k c ≡ false

-- The page of a guest: the cache, and `confirmed` of the form's hook.
pub record ReservationPage (Cache : Type 0) : Type 0 where
  pub guest_id : String
  pub cache : Cache
  pub confirmed : Option ReservationEntity

abbrev pub id_of : Option ReservationEntity → Option String
id_of none = none
id_of (some r) = some r.id

module _ {Cache : Type 0} (client : QueryClient Cache) where
  -- `onSuccess` of the form's mutation
  abbrev pub on_reserved : ReservationEntity → ReservationPage Cache → ReservationPage Cache
  on_reserved r p = record p {
    confirmed = some r;
    cache = client.set_query_data p.guest_id r p.cache;
  }

  -- `onCancel` of the card, as far as it does not wait: `resetConfirmed`
  abbrev pub on_cancel : ReservationPage Cache → ReservationPage Cache
  on_cancel p = record p { confirmed = none }

  -- `onSuccess` of the cancellation
  abbrev pub on_cancelled : ReservationPage Cache → ReservationPage Cache
  on_cancelled p = record p { cache = client.remove_queries p.guest_id p.cache }

  -- The query for the guest's reservation is answered, or fails.
  abbrev pub on_loaded : ReservationEntity → ReservationPage Cache → ReservationPage Cache
  on_loaded r p = record p { cache = client.resolve p.guest_id r p.cache }

  abbrev pub on_load_failed : ReservationPage Cache → ReservationPage Cache
  on_load_failed p = record p { cache = client.reject p.guest_id p.cache }

  abbrev pub reservation_of : ReservationPage Cache → Option ReservationEntity
  reservation_of p = client.query_data p.guest_id p.cache

  -- The page's cache, as the zones' panels read it.
  abbrev pub loaded_of : (String → Option String) → ReservationPage Cache → Loaded
  loaded_of arrival_status p = record {
    arrival_status = arrival_status;
    reservation = λ guest_id. id_of (client.query_data guest_id p.cache);
    reservation_loading = λ guest_id. client.is_loading guest_id p.cache;
  }
