-- ===== src/Web/IslandEvents.antt =====
-- frontend/src/features/broadcast/lib/island-event.ts and the message handler of
-- hooks/use-broadcast.ts: what the web app makes of a message of the hub.
use Prim.Native.String
use faf_hackathon_challenge.Prelude.{
  ℕ, ◌+◌, String, Bool, true, not, ◌||◌, Option, none, some, List, [], ◌∷◌, map, any, or_else,
  if◌then◌else◌, str_eq,
}
use faf_hackathon_challenge.Values.{
  Value, Number, is_finite, num, str, obj, arr, get, get_string, entries, as_string,
}
use faf_hackathon_challenge.Values.Schema.{Zod, success, failure}
use faf_hackathon_challenge.Web.Types.{
  ChannelId, beach, same_channel, BroadcastEvent, broadcast_event_schema, channel_of,
}
use faf_hackathon_challenge.Web.EventsStore.{EventsState, ingest_event}

-- features/beach/types.ts
pub record Activity : Type 0 where
  pub activity_id : String
  pub activity_name : String
  pub description : Option String
  pub capacity : Number
  pub remaining : Number

pub record BeachAvailabilityPayload : Type 0 where
  pub activity_id : String
  pub activity_name : Option String
  pub capacity : Option Number
  pub remaining : Number

abbrev pub beach_activity_event_types : List String
beach_activity_event_types = "beach.activity_full" ∷ "beach.activity_available" ∷ []

abbrev pub is_beach_type : String → Bool
is_beach_type t = any (λ s. str_eq s t) beach_activity_event_types

-- `typeof v === "number" ? v : undefined`
abbrev pub as_number : Value → Option Number
as_number (num n) = some n
as_number _ = none

-- The number, if it is one and finite.
abbrev pub finite_number : Value → Option Number
finite_number (num n) = if is_finite n then some n else none
finite_number _ = none

-- The message of a beach event.
abbrev pub beach_message : String → String → String
beach_message type name =
    if str_eq type "beach.activity_full"
    then String.◌++◌ name " is now full."
    else String.◌++◌ "A space opened up for " (String.◌++◌ name ".")

-- `getPayloadObject`: the members of an object, `none` for a value that is no object. An array is
-- an object with none of the members that are read.
abbrev pub payload_object : Value → Option (List (String × Value))
payload_object (obj o) = some (entries (obj o))
payload_object (arr xs) = some []
payload_object _ = none

-- `normalizeBeachEvent` from the point at which the id and the number are at hand.
abbrev pub beach_event :
    Value → String → List (String × Value) → Option String → Option Number → Option BroadcastEvent
beach_event id type payload none remaining = none
beach_event id type payload (some activity_id) none = none
beach_event id type payload (some activity_id) (some remaining) =
    let name = or_else (get_string "activityName" payload) activity_id in
    some (record {
      id = id;
      channel = beach;
      event_type = type;
      message = beach_message type name;
      sender = "beach-service";
      guest_id = none;
      guest_name = none;
      data_fields = some (
          ("activityId", str activity_id)
          ∷ ("activityName", str name)
          ∷ ("capacity", get "capacity" payload)
          ∷ ("remaining", num remaining)
          ∷ []);
    })

abbrev with_payload : Value → String → Option (List (String × Value)) → Option BroadcastEvent
with_payload id type none = none
with_payload id type (some payload) =
    beach_event id type payload (get_string "activityId" payload)
      (finite_number (get "remaining" payload))

-- The arguments are the members of the event.
unfoldable pub normalize_beach_event : List (String × Value) → Option BroadcastEvent
normalize_beach_event event = elim (get_string "type" event) [
  | none ↦ none
  | some type ↦
      if is_beach_type type
      then with_payload (get "id" event) type (payload_object (get "payload" event))
      else none
]

-- On `null` the read of `source` throws, and `parseIslandEventMessage` answers null as well.
unfoldable pub normalize_island_event : Value → Option BroadcastEvent
unfolding normalize_beach_event
normalize_island_event v =
    if str_eq (or_else (get_string "source" (entries v)) "") "beach"
    then normalize_beach_event (entries v)
    else none

abbrev pub read_payload : Option (List (String × Value)) → Option BeachAvailabilityPayload
read_payload none = none
read_payload (some o) = elim (get_string "activityId" o) [
  | none ↦ none
  | some activity_id ↦ elim (finite_number (get "remaining" o)) [
    | none ↦ none
    | some remaining ↦ some (record {
      activity_id = activity_id;
      activity_name = get_string "activityName" o;
      capacity = as_number (get "capacity" o);
      remaining = remaining;
    })
  ]
]

unfoldable pub get_beach_availability_payload : BroadcastEvent → Option BeachAvailabilityPayload
get_beach_availability_payload event =
    if not (same_channel event.channel beach) || not (is_beach_type event.event_type)
    then none
    else read_payload event.data_fields

abbrev pub update_activity : String → Number → Activity → Activity
update_activity id remaining a =
    if str_eq a.activity_id id then record a { remaining = remaining } else a

unfoldable pub update_activities : String → Number → List Activity → List Activity
update_activities id remaining activities = map (update_activity id remaining) activities

-- What the handler touches: the store, the cached list of activities, and the number of times that
-- it was declared stale.
pub record AppState : Type 0 where
  pub store : EventsState
  pub activities : Option (List Activity)
  pub invalidations : ℕ

abbrev pub refresh_activities : Option BeachAvailabilityPayload → AppState → AppState
refresh_activities none s = s
refresh_activities (some p) s = elim s.activities [
  | none ↦ record s { invalidations = s.invalidations + 1 }
  | some current ↦ record s {
    activities = some (update_activities p.activity_id p.remaining current);
  }
]

unfoldable pub ingest_broadcast_event : (ChannelId → String) → BroadcastEvent → AppState → AppState
unfolding update_activities
ingest_broadcast_event uuid event s =
    refresh_activities (get_beach_availability_payload event)
      (record s { store = ingest_event uuid event true s.store })

-- The event with these members; `none` stands for a channel that the schema does not let through.
abbrev pub event_from :
    (id channel event_type message sender guest_id guest_name data_value : Value)
    → Option BroadcastEvent
event_from id channel event_type message sender guest_id guest_name data_value =
    elim (channel_of (or_else (as_string channel) "")) [
      | none ↦ none
      | some c ↦ some (record {
        id = id;
        channel = c;
        event_type = or_else (as_string event_type) "";
        message = or_else (as_string message) "";
        sender = or_else (as_string sender) "";
        guest_id = as_string guest_id;
        guest_name = as_string guest_name;
        data_fields = elim data_value [ obj d ↦ some (entries (obj d)) | _ ↦ none ];
      })
    ]

-- The parsed object as an event.
unfoldable pub read_event : Value → Option BroadcastEvent
unfolding channel_of
read_event v =
    let o = entries v in
    event_from (get "id" o) (get "channel" o) (get "event_type" o) (get "message" o)
      (get "sender" o) (get "guest_id" o) (get "guest_name" o) (get "data" o)

abbrev ingest_option : (ChannelId → String) → Option BroadcastEvent → AppState → AppState
ingest_option uuid none s = s
ingest_option uuid (some event) s = ingest_broadcast_event uuid event s

-- `handleMessage` behind `JSON.parse`; `none` is a text that is no JSON.
unfoldable pub handle_message : Zod → (ChannelId → String) → Option Value → AppState → AppState
unfolding normalize_island_event ingest_broadcast_event read_event
handle_message zod uuid none s = s
handle_message zod uuid (some v) s = elim (normalize_island_event v) [
  | some event ↦ ingest_broadcast_event uuid event s
  | none ↦ elim (zod.safe_parse broadcast_event_schema v) [
    | failure issues ↦ s
    | success d ↦ ingest_option uuid (read_event d) s
  ]
]
