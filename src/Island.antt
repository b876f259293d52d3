-- ===== src/Island.antt =====
-- Where the services meet: the events that the hotel posts, as the hub takes them.
use faf_hackathon_challenge.Prelude.{String, true, ◌≡◌, refl, ◌≢◌, ◌∙◌, inl, none, some, ap, ◌⊎◌}
use faf_hackathon_challenge.Prelude.Int.{pos}
use faf_hackathon_challenge.Values.{
  Value, Number, int, num, str, obj, undefined, member, no_members, get, entries, as_string,
}
use faf_hackathon_challenge.Values.Schema.{Zod, accepts}
use faf_hackathon_challenge.Hotel.Types.{RoomType, standard, deluxe, suite}
use faf_hackathon_challenge.Hotel.Clients.{
  HotelEventType, reservation_confirmed, reservation_cancelled, HotelEvent, endpoint_for_event,
}
use faf_hackathon_challenge.Hub.Types.{ChannelId, IslandEvent, hotel}
use faf_hackathon_challenge.Hub.Schemas.{hotel_event_schema}
use faf_hackathon_challenge.Hub.ServiceAuth.{Env, Request}
use faf_hackathon_challenge.Hub.EventBus.{Bus, broadcast}
use faf_hackathon_challenge.Hub.Routes.{
  Route, route_at, hotel_confirm, hotel_cancel, published, post, admin_announcement,
}
use faf_hackathon_challenge.Hub.Publishing.{post-Publishes}
pub mod Stays
pub mod Clocks
pub mod Announcements
pub mod Seen
pub mod RoomSummary
pub mod CheckIn
pub mod Backing
pub mod Truthful
pub mod CheckedIn
mod CheckInExamples
mod PageExamples
mod SeenExamples
mod FormExamples

abbrev pub room_type_text : RoomType → String
room_type_text standard = "STANDARD"
room_type_text deluxe = "DELUXE"
room_type_text suite = "SUITE"

-- `JSON.stringify(event)`, as the hub's JSON parser reads it.
abbrev pub hotel_event_body : HotelEvent → Value
hotel_event_body e = obj (
    member "message" (str e.message) (
      member "reservation_id" (str e.reservation_id) (
        member "guest_id" (str e.guest_id) (
          member "room_type" (str (room_type_text e.room_type)) (
            member "guest_count" (num (int (pos e.guest_count))) (
              member "check_in_day" (num (int e.check_in_day))
                (member "check_out_day" (num (int e.check_out_day)) no_members)))))))

-- The request that the hotel sends: it carries no token.
abbrev pub hotel_request : HotelEvent → Request
hotel_request e = record {
  header = λ name. none;
  query_token = undefined;
  body = hotel_event_body e;
}

hotel_event_body-accepts : (e : HotelEvent) → accepts hotel_event_schema (hotel_event_body e) ≡ true
unfolding accepts get
hotel_event_body-accepts e = refl

message_of_body :
    (e : HotelEvent) → as_string (get "message" (entries (hotel_event_body e))) ≡ some e.message
unfolding get
message_of_body e = refl

-- Every event that the hotel posts to the hub is accepted there, at the path that it is posted to, and
-- broadcast once, on the hotel's channel and with the hotel's message.
pub post-hotel_request :
    (zod : Zod) (env : Env) (uuid : String) (type : HotelEventType) (event : HotelEvent) (bus : Bus)
    → (route : Route) × (route_at (endpoint_for_event type) ≡ some route)
      × (e : IslandEvent) × (post zod env uuid route (hotel_request event) bus
          ≡ (published, broadcast e bus))
      × (e.id ≡ uuid)
      × (e.channel ≡ ChannelId.hotel)
      × (e.message ≡ event.message)
post-hotel_request zod env uuid reservation_confirmed event bus =
    let (e, done, p) =
      post-Publishes zod env uuid hotel_confirm (hotel_request event) bus
        (hotel_event_body-accepts event) (inl (λ same. cc)) in
    (hotel_confirm, refl, e, done, p.id, p.channel, p.text event.message (message_of_body event))
post-hotel_request zod env uuid reservation_cancelled event bus =
    let (e, done, p) =
      post-Publishes zod env uuid hotel_cancel (hotel_request event) bus
        (hotel_event_body-accepts event) (inl (λ same. cc)) in
    (hotel_cancel, refl, e, done, p.id, p.channel, p.text event.message (message_of_body event))
