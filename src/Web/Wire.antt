-- ===== src/Web/Wire.antt =====
-- The wire between the hub and the web app: an event as JSON.stringify writes it and JSON.parse
-- reads it again, and what the web app makes of the hub's events.
use faf_hackathon_challenge.Prelude.{
  String, Bool, true, false, ◌≡◌, refl, ◌⊎◌, inl, inr, Option, none, some, List, [], ◌∷◌, arith, ap,
  ◌∙◌, str_eq, all, ◌&&◌, Bool-cases, eq_iff, subst,
}
use faf_hackathon_challenge.Values.{
  Value, str, obj, undefined, Members, no_members, member, members, entries, get,
}
use faf_hackathon_challenge.Values.Without.{get-without}
use faf_hackathon_challenge.Values.Schema.{Zod, accepts, Keeps, is_key}
use faf_hackathon_challenge.Hub.Types as HubTypes
use faf_hackathon_challenge.Hub.Types.{event_type_text}
use faf_hackathon_challenge.Hub.Schemas.{beach_event_schema}
use faf_hackathon_challenge.Hub.Routes.{Route, event_of, rest_of}
use faf_hackathon_challenge.Web.Types.{
  ChannelId, BroadcastEvent, broadcast_event_schema, channel_of,
}
use faf_hackathon_challenge.Web.IslandEvents.{
  AppState, normalize_island_event, get_beach_availability_payload, read_payload, event_from,
  read_event, ingest_broadcast_event, handle_message,
}

abbrev of_list : List (String × Value) → Members
of_list [] = no_members
of_list ((k, v) ∷ o) = member k v (of_list o)

abbrev optional_text : String → Option String → Members → Members
optional_text k none o = o
optional_text k (some s) o = member k (str s) o

abbrev optional_data : Option (List (String × Value)) → Members
optional_data none = no_members
optional_data (some o) = member "data" (obj (of_list o)) no_members

-- `JSON.parse(JSON.stringify(event))`; an optional property that is `undefined` is left out.
abbrev pub to_wire : HubTypes.IslandEvent → Value
to_wire e = obj (
    member "id" (str e.id) (
      member "channel" (str (HubTypes.channel_text e.channel)) (
        member "event_type" (str (event_type_text e.event_type)) (
          member "message" (str e.message) (
            member "sender" (str e.sender) (
              optional_text "guest_id" e.guest_id
                (optional_text "guest_name" e.guest_name (optional_data e.data_fields))))))))

-- The web app's channel of the same name.
abbrev pub same_name : HubTypes.ChannelId → ChannelId
same_name HubTypes.airport = ChannelId.airport
same_name HubTypes.hotel = ChannelId.hotel
same_name HubTypes.beach = ChannelId.beach
same_name HubTypes.crab = ChannelId.crab
same_name HubTypes.parrot = ChannelId.parrot
same_name HubTypes.broadcast = ChannelId.broadcast
same_name HubTypes.resort_wide = ChannelId.resort_wide

-- The web app's event for an event of the hub.
abbrev pub received_as : HubTypes.IslandEvent → BroadcastEvent
received_as e = record {
  id = str e.id;
  channel = same_name e.channel;
  event_type = event_type_text e.event_type;
  message = e.message;
  sender = e.sender;
  guest_id = e.guest_id;
  guest_name = e.guest_name;
  data_fields = e.data_fields;
}

channel_of-channel_text :
    (c : HubTypes.ChannelId) → channel_of (HubTypes.channel_text c) ≡ some (same_name c)
unfolding channel_of
channel_of-channel_text HubTypes.airport = refl
channel_of-channel_text _ = refl

members-of_list : (o : List (String × Value)) → members (of_list o) ≡ o
members-of_list [] = refl
members-of_list ((k, v) ∷ o) = ap (λ rest. (k, v) ∷ rest) (members-of_list o)

-- The two facts about an event's wire form, part by part.
abbrev Fits : HubTypes.IslandEvent → Type 0
Fits e =
    (accepts broadcast_event_schema (to_wire e) ≡ true)
    × (read_event (to_wire e) ≡ some (received_as e))
    × (normalize_island_event (to_wire e) ≡ none)

fits :
    (id : String) (c : HubTypes.ChannelId) (type : HubTypes.EventType) (message sender : String)
    (guest_id guest_name : Option String) (d : Option (List (String × Value)))
    → Fits (record {
      id = id;
      channel = c;
      event_type = type;
      message = message;
      sender = sender;
      guest_id = guest_id;
      guest_name = guest_name;
      data_fields = d;
    })
unfolding accepts get read_event normalize_island_event
fits id HubTypes.airport type message sender none none none = (refl, refl, refl)
fits id c type message sender none none none = (refl, refl, refl)
fits id HubTypes.airport type message sender none (some n) none = (refl, refl, refl)
fits id c type message sender none (some n) none = (refl, refl, refl)
fits id HubTypes.airport type message sender (some g) none none = (refl, refl, refl)
fits id c type message sender (some g) none none = (refl, refl, refl)
fits id HubTypes.airport type message sender (some g) (some n) none = (refl, refl, refl)
fits id c type message sender (some g) (some n) none = (refl, refl, refl)
fits id HubTypes.airport type message sender none none (some o) =
    (refl, rw (members-of_list o) refl, refl)
fits id c type message sender none none (some o) = (refl, rw (members-of_list o) refl, refl)
fits id HubTypes.airport type message sender none (some n) (some o) =
    (refl, rw (members-of_list o) refl, refl)
fits id c type message sender none (some n) (some o) = (refl, rw (members-of_list o) refl, refl)
fits id HubTypes.airport type message sender (some g) none (some o) =
    (refl, rw (members-of_list o) refl, refl)
fits id c type message sender (some g) none (some o) = (refl, rw (members-of_list o) refl, refl)
fits id HubTypes.airport type message sender (some g) (some n) (some o) =
    (refl, rw (members-of_list o) refl, refl)
fits id c type message sender (some g) (some n) (some o) = (refl, rw (members-of_list o) refl, refl)

-- Reading the parsed data of an accepted event gives the same event as reading the event: all of
-- its members are plain.
read_event-Keeps : (v d : Value) → Keeps broadcast_event_schema v d → read_event d ≡ read_event v
unfolding read_event
read_event-Keeps v d kept = λ i.
    event_from (kept.plain "id" refl i) (kept.plain "channel" refl i)
      (kept.plain "event_type" refl i) (kept.plain "message" refl i) (kept.plain "sender" refl i)
      (kept.plain "guest_id" refl i) (kept.plain "guest_name" refl i) (kept.plain "data" refl i)

-- Every event that the hub writes is accepted by the web app's schema and ingested as it is: with
-- the same id, channel, type, texts and data.
pub handle_message-to_wire :
    (zod : Zod) (uuid : ChannelId → String) (e : HubTypes.IslandEvent) (s : AppState)
    → handle_message zod uuid (some (to_wire e)) s ≡ ingest_broadcast_event uuid (received_as e) s
unfolding handle_message
handle_message-to_wire zod uuid e s =
    let facts : Fits e =
      fits e.id e.channel e.event_type e.message e.sender e.guest_id e.guest_name e.data_fields in
    let (d, parse, kept) = zod.parses broadcast_event_schema (to_wire e) facts.0 in
    let plain_event : normalize_island_event (to_wire e) ≡ none = facts.2 in
    let read : read_event d ≡ some (received_as e) =
      read_event-Keeps (to_wire e) d kept ∙ facts.1 in
    rw (plain_event, handle_message, parse, read) refl

-- Whether an object of a strict schema has a member of this name that the schema does not declare.
strict-unknown :
    (ks : List String) (k : String) (o : List (String × Value))
    → all (λ e. is_key ks e.0) o ≡ true
    → is_key ks k ≡ false
    → get k o ≡ undefined
unfolding get
strict-unknown ks k [] h absent = refl
strict-unknown ks k ((j, v) ∷ o) h absent = elim (Bool-cases (str_eq j k)) [
  | inl same ↦ absurd (contradict ((eq_iff j k).0 same))
  | inr other ↦ rw other (strict-unknown ks k o (ground arith) absent)
]
  where
    contradict : j ≡ k → ⊥
    contradict e =
        let known : is_key ks j ≡ true = ground arith in
        let known' : is_key ks k ≡ true = subst (λ t. is_key ks t ≡ true) e known in cc

and-left : (a b : Bool) → (a && b) ≡ true → a ≡ true
and-left a b h = ground arith

beach_body-absent :
    (d : Value) → accepts beach_event_schema d ≡ true → get "activityId" (entries d) ≡ undefined
unfolding accepts get
beach_body-absent (obj o) h =
    strict-unknown ("message" ∷ "guest_id" ∷ "guest_name" ∷ "activity" ∷ []) "activityId"
      (members o) (and-left _ _ h) refl
beach_body-absent _ h = refl

rest_of-absent :
    (body : List (String × Value))
    → get "activityId" body ≡ undefined
    → get "activityId" (rest_of body) ≡ undefined
rest_of-absent body h =
    get-without "guest_name" "activityId" _
    ∙ get-without "guest_id" "activityId" _
    ∙ get-without "message" "activityId" body
    ∙ h

read_payload-absent :
    (o : List (String × Value)) → get "activityId" o ≡ undefined → read_payload (some o) ≡ none
read_payload-absent o h = rw (h, read_payload) refl

no_payload :
    (route : Route) (event_id : String) (body : List (String × Value))
    → (route ≡ Route.beach_full) ⊎ (route ≡ Route.beach_available)
    → get "activityId" body ≡ undefined
    → get_beach_availability_payload (received_as (event_of route event_id body)) ≡ none
unfolding get_beach_availability_payload
no_payload route event_id body (inl full) h =
    rw full (read_payload-absent (rest_of body) (rest_of-absent body h))
no_payload route event_id body (inr available) h =
    rw available (read_payload-absent (rest_of body) (rest_of-absent body h))

-- The beach's events never reach the list of activities: whatever body the hub accepts on the two
-- beach routes, the web app that receives the event neither updates its cached activities nor
-- declares them stale, because the hub's schema has no `activityId` and the web app reads it.
beach_event-no_payload :
    (zod : Zod) (uuid : ChannelId → String) (route : Route) (event_id : String) (d : Value)
    (s : AppState)
    → (route ≡ Route.beach_full) ⊎ (route ≡ Route.beach_available)
    → accepts beach_event_schema d ≡ true
    → ((handle_message zod uuid (some (to_wire (event_of route event_id (entries d)))) s).activities
        ≡ s.activities)
      × ((handle_message zod uuid
            (some (to_wire (event_of route event_id (entries d))))
            s).invalidations
          ≡ s.invalidations)
unfolding ingest_broadcast_event
beach_event-no_payload zod uuid route event_id d s at_beach ok =
    rw (handle_message-to_wire zod uuid (event_of route event_id (entries d)) s)
      (untouched _ (no_payload route event_id (entries d) at_beach (beach_body-absent d ok)))
  where
    untouched :
        (event : BroadcastEvent)
        → get_beach_availability_payload event ≡ none
        → ((ingest_broadcast_event uuid event s).activities ≡ s.activities)
          × ((ingest_broadcast_event uuid event s).invalidations ≡ s.invalidations)
    untouched event none_there = (rw (none_there) refl, rw (none_there) refl)
