-- ===== src/Hub/Routes.antt =====
-- services/broadcast/src/app.ts, routes/*.ts and validate.ts: the endpoints of the hub. Express
-- matches the path, which is the `Call` here, and `uuid()` is an argument.
use faf_hackathon_challenge.Prelude.{
  ℕ, String, Bool, true, false, Option, none, some, List, [], ◌∷◌, find, if◌then◌else◌, or_else,
  str_eq,
}
use faf_hackathon_challenge.Values.{Value, get, get_string, entries, without}
use faf_hackathon_challenge.Values.Schema.{Schema, Issue, success, failure, Zod}
use faf_hackathon_challenge.Hub.Types.{ChannelId, EventType, IslandEvent}
use faf_hackathon_challenge.Hub.Schemas.{
  airport_arrival_schema, hotel_event_schema, beach_event_schema, crab_order_schema,
  crab_sold_out_schema, cursed_event_schema, public_announcement_schema, admin_announcement_schema,
}
use faf_hackathon_challenge.Hub.ServiceAuth.{Request, Env, identify_service, require_admin}
use faf_hackathon_challenge.Hub.EventBus.{Bus, add_client, remove_client, broadcast}

abbrev pub Body : Type 0
Body = List (String × Value)

-- `const { message, guest_id, guest_name, ...data } = body`
abbrev pub rest_of : Body → Body
rest_of body = without "guest_name" (without "guest_id" (without "message" body))

-- The event that the routes of the services with `BaseFields` publish.
abbrev pub service_event : ChannelId → EventType → String → String → String → Body → IslandEvent
service_event channel event_type default_message sender uuid body = record {
  id = uuid;
  channel = channel;
  event_type = event_type;
  message = or_else (get_string "message" body) default_message;
  sender = sender;
  guest_id = get_string "guest_id" body;
  guest_name = get_string "guest_name" body;
  data_fields = some (rest_of body);
}

abbrev pub arrival_event : String → Body → IslandEvent
arrival_event =
    service_event ChannelId.airport EventType.airport_arrival "A guest arrived at the airport."
      "airport"

abbrev pub confirm_event : String → Body → IslandEvent
confirm_event =
    service_event ChannelId.hotel EventType.hotel_confirm "A reservation was confirmed." "hotel"

abbrev pub cancel_event : String → Body → IslandEvent
cancel_event =
    service_event ChannelId.hotel EventType.hotel_cancel "A reservation was cancelled." "hotel"

abbrev pub full_event : String → Body → IslandEvent
full_event =
    service_event ChannelId.beach EventType.beach_full "A beach activity reached capacity." "beach"

abbrev pub available_event : String → Body → IslandEvent
available_event =
    service_event ChannelId.beach EventType.beach_available "A beach activity has availability."
      "beach"

abbrev pub order_event : String → Body → IslandEvent
order_event =
    service_event ChannelId.crab EventType.crab_order_placed "A guest ordered at the Crusty Crab."
      "crab"

abbrev pub sold_out_event : String → Body → IslandEvent
sold_out_event =
    service_event ChannelId.crab EventType.crab_sold_out "An item sold out at the Crusty Crab."
      "crab"

abbrev pub cursed_event : String → Body → IslandEvent
cursed_event uuid body = record {
  id = uuid;
  channel = ChannelId.parrot;
  event_type = EventType.parrot_cursed;
  message = or_else (get_string "message" body) "";
  sender = "parrot";
  guest_id = get_string "guest_id" body;
  guest_name = none;
  data_fields = some (("triggered_word", get "triggered_word" body) ∷ []);
}

abbrev pub public_event : String → Body → IslandEvent
public_event uuid body = record {
  id = uuid;
  channel = ChannelId.broadcast;
  event_type = EventType.public_announcement;
  message = or_else (get_string "message" body) "";
  sender = or_else (get_string "guestName" body) "";
  guest_id = none;
  guest_name = none;
  data_fields = none;
}

abbrev pub admin_event : String → Body → IslandEvent
admin_event uuid body = record {
  id = uuid;
  channel = ChannelId.resort_wide;
  event_type = EventType.admin_announcement;
  message = or_else (get_string "message" body) "";
  sender = or_else (get_string "sender" body) "Admin";
  guest_id = none;
  guest_name = none;
  data_fields = none;
}

pub data Reply : Type 0 where
  healthy published stream closed : Reply
  invalid_payload : List Issue → Reply
  unauthorized : String → Reply

-- The result of `parseBody`: the parsed data, or the response 400 that it has sent.
pub data ParsedBody : Type 0 where
  parsed : Body → ParsedBody
  replied : Reply → ParsedBody

unfoldable pub parse_body : Zod → Schema → Request → ParsedBody
parse_body zod schema req = elim (zod.safe_parse schema req.body) [
  | success data_value ↦ parsed (entries data_value)
  | failure issues ↦ replied (invalid_payload issues)
]

-- The POST routes.
pub data Route : Type 0 where
  airport_arrival hotel_confirm hotel_cancel beach_full beach_available : Route
  crab_order crab_sold_out cursed public_post admin_announcement : Route

-- The paths under which app.ts and the routers mount them.
abbrev pub path_of : Route → String
path_of airport_arrival = "/airport/arrival"
path_of hotel_confirm = "/hotel/confirm"
path_of hotel_cancel = "/hotel/cancel"
path_of beach_full = "/beach/full"
path_of beach_available = "/beach/available"
path_of crab_order = "/crab/order"
path_of crab_sold_out = "/crab/sold-out"
path_of cursed = "/cursed"
path_of public_post = "/public"
path_of admin_announcement = "/admin/announcement"

abbrev pub all_routes : List Route
all_routes =
    airport_arrival ∷ hotel_confirm ∷ hotel_cancel ∷ beach_full ∷ beach_available ∷ crab_order
    ∷ crab_sold_out ∷ cursed ∷ public_post ∷ admin_announcement ∷ []

-- The route that takes a POST at a path.
abbrev pub route_at : String → Option Route
route_at path = find (λ route. str_eq (path_of route) path) all_routes

abbrev pub schema_of : Route → Schema
schema_of airport_arrival = airport_arrival_schema
schema_of hotel_confirm = hotel_event_schema
schema_of hotel_cancel = hotel_event_schema
schema_of beach_full = beach_event_schema
schema_of beach_available = beach_event_schema
schema_of crab_order = crab_order_schema
schema_of crab_sold_out = crab_sold_out_schema
schema_of cursed = cursed_event_schema
schema_of public_post = public_announcement_schema
schema_of admin_announcement = admin_announcement_schema

abbrev pub event_of : Route → String → Body → IslandEvent
event_of airport_arrival = arrival_event
event_of hotel_confirm = confirm_event
event_of hotel_cancel = cancel_event
event_of beach_full = full_event
event_of beach_available = available_event
event_of crab_order = order_event
event_of crab_sold_out = sold_out_event
event_of cursed = cursed_event
event_of public_post = public_event
event_of admin_announcement = admin_event

-- A route's handler behind `parseBody`: the early return, or `broadcast` and the reply.
abbrev pub after_parse : String → Route → Bus → ParsedBody → Reply × Bus
after_parse uuid route bus (parsed body) = (published, broadcast (event_of route uuid body) bus)
after_parse uuid route bus (replied reply) = (reply, bus)

unfoldable pub publish : Zod → String → Route → Request → Bus → Reply × Bus
unfolding parse_body
publish zod uuid route req bus = after_parse uuid route bus (parse_body zod (schema_of route) req)

-- `requireAdmin` stands before the admin handler only.
abbrev pub is_guarded : Route → Bool
is_guarded admin_announcement = true
is_guarded _ = false

unfoldable pub post : Zod → Env → String → Route → Request → Bus → Reply × Bus
unfolding publish
post zod env uuid route req bus =
    if (if is_guarded route then require_admin env req else true)
    then publish zod uuid route req bus
    else (unauthorized "Admin authentication required", bus)

-- GET /events; `res` is the response that stays open.
unfoldable pub listen : Env → ℕ → Request → Bus → Reply × Bus
listen env res req bus = elim (identify_service env req) [
  | none ↦ (unauthorized "Service authentication required", bus)
  | some identity ↦ (stream, add_client res identity.allowed_channels bus)
]

-- What reaches the hub: a request, or the close of a listener's connection.
pub data Call : Type 0 where
  get_health : Call
  get_events : ℕ → Request → Call
  post_route : Route → String → Request → Call
  on_close : ℕ → Call

unfoldable pub serve : Zod → Env → Call → Bus → Reply × Bus
unfolding post listen
serve zod env get_health bus = (healthy, bus)
serve zod env (get_events res req) bus = listen env res req bus
serve zod env (post_route route uuid req) bus = post zod env uuid route req bus
serve zod env (on_close res) bus = (closed, remove_client res bus)

unfoldable pub run : Zod → Env → List Call → Bus → Bus
unfolding serve
run zod env [] bus = bus
run zod env (c ∷ cs) bus = run zod env cs (serve zod env c bus).1
