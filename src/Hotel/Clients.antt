-- ===== src/Hotel/Clients.antt =====
-- services/hotel/src/airport/airport.service.ts and broadcast/broadcast.service.ts: the calls of
-- the other services. What `fetch` brings is an argument; requests sent are recorded.
use faf_hackathon_challenge.Prelude.{
  ℕ, String, Bool, Option, none, some, List, [], ◌∷◌, ◌++◌, if◌then◌else◌, str_eq, truthy_option,
  or_else,
}
use faf_hackathon_challenge.Prelude.Int.{ℤ}
use faf_hackathon_challenge.Values.{Value, undefined, null, entries, get, as_string}
use faf_hackathon_challenge.Hotel.Types.{RoomType}

-- What the request to the airport came to: it threw, it was answered with a status that is not
-- 2xx, its body was no JSON, or it was answered with a JSON value.
pub data FetchOutcome : Type 0 where
  threw not_ok bad_json : FetchOutcome
  answered : Value → FetchOutcome

-- `body.status === 'processed'`; reading a property of `null` throws.
abbrev pub is_processed : Value → Option Bool
is_processed null = none
is_processed undefined = none
is_processed body = some (str_eq (or_else (as_string (get "status" (entries body))) "") "processed")

-- `url` is AIRPORT_SERVICE_URL.
unfoldable pub has_guest_cleared_processing :
    Option String → (String → FetchOutcome) → String → Option Bool
has_guest_cleared_processing url fetch guest_id =
    if truthy_option url
    then elim (fetch guest_id) [
      | threw ↦ none
      | not_ok ↦ none
      | bad_json ↦ none
      | answered body ↦ is_processed body
    ]
    else none

pub data HotelEventType : Type 0 where
  reservation_confirmed reservation_cancelled : HotelEventType

abbrev pub endpoint_for_event : HotelEventType → String
endpoint_for_event reservation_confirmed = "/hotel/confirm"
endpoint_for_event reservation_cancelled = "/hotel/cancel"

pub record HotelEvent : Type 0 where
  pub message : String
  pub reservation_id : String
  pub guest_id : String
  pub room_type : RoomType
  pub guest_count : ℕ
  pub check_in_day : ℤ
  pub check_out_day : ℤ

-- The request that `publishHotelEvent` sends, if BROADCAST_SERVICE_URL is set. Its failure is
-- logged and has no other effect.
abbrev pub Post : Type 0
Post = String × HotelEvent

unfoldable pub publish_hotel_event :
    Option String → HotelEventType → HotelEvent → List Post → List Post
publish_hotel_event url event_type event sent =
    if truthy_option url then sent ++ (endpoint_for_event event_type, event) ∷ [] else sent
