-- ===== src/Island/Seen.antt =====
-- A reservation's way from the hotel over the hub to the map of a guest.
use faf_hackathon_challenge.Prelude.{
  ℕ, String, Bool, true, false, ◌≡◌, refl, ◌∙◌, ap, sym, inl, inr, Option, none, some, List, [],
  ◌∷◌, ◌++◌, if◌then◌else◌, not, ◌||◌, ◌&&◌, str_eq, Option-cases,
}
use faf_hackathon_challenge.Values.{Value, str}
use faf_hackathon_challenge.Values.Schema.{Zod}
use faf_hackathon_challenge.Hotel.Clients.{HotelEventType, HotelEvent, endpoint_for_event}
use faf_hackathon_challenge.Hub.Types as HubTypes
use faf_hackathon_challenge.Hub.ServiceAuth.{Env}
use faf_hackathon_challenge.Hub.EventBus.{Bus, broadcast}
use faf_hackathon_challenge.Hub.Routes.{Route, route_at, published, post}
use faf_hackathon_challenge.Hub.Delivery.{received, IsDistinct, subscribes, received-broadcast}
use faf_hackathon_challenge.Web.Types.{ChannelId, same_channel, BroadcastEvent}
use faf_hackathon_challenge.Web.EventsStore.{
  admin_announcement_event_type, EventsState, ingest_event,
}
use faf_hackathon_challenge.Web.Feeds.{newest, shows_in, shown_as, ingest_event-feeds}
use faf_hackathon_challenge.Web.IslandEvents.{
  AppState, BeachAvailabilityPayload, get_beach_availability_payload, refresh_activities,
  ingest_broadcast_event, handle_message,
}
use faf_hackathon_challenge.Web.Wire.{to_wire, same_name, received_as, handle_message-to_wire}
use faf_hackathon_challenge.Web.Zones.{ZoneId}
use faf_hackathon_challenge.Web.Markers.{MapEvent, receives, map_step}
use faf_hackathon_challenge.Web.Pulses.{map_after, map_step-store, shown-pulses}
use faf_hackathon_challenge.Island.{hotel_request, post-hotel_request}

refresh-store :
    (o : Option BeachAvailabilityPayload) (s : AppState) → (refresh_activities o s).store ≡ s.store
refresh-store none s = refl
refresh-store (some p) s = elim (Option-cases s.activities) [
  | inl unloaded ↦ rw unloaded refl
  | inr (current, loaded) ↦ rw loaded refl
]

handled-store :
    (zod : Zod) (uuid : ChannelId → String) (e : HubTypes.IslandEvent) (s : AppState)
    → (handle_message zod uuid (some (to_wire e)) s).store
      ≡ ingest_event uuid (received_as e) true s.store
unfolding ingest_broadcast_event
handled-store zod uuid e s =
    ap (λ (t : AppState). t.store) (handle_message-to_wire zod uuid e s)
    ∙ refresh-store (get_beach_availability_payload (received_as e))
        (record s { store = ingest_event uuid (received_as e) true s.store })

either : (b : Bool) → (b || true || false) ≡ true
either true = refl
either false = refl

copied :
    (b : Bool) (id : Value) (c : ChannelId) (event : BroadcastEvent)
    → (if b then record event { id = id; channel = c } else event).message ≡ event.message
copied true id c event = refl
copied false id c event = refl

own_shown :
    (event : BroadcastEvent)
    → event.channel ≡ ChannelId.hotel
    → shows_in event true ChannelId.hotel ≡ true
own_shown event h =
    ap
      (λ (c : ChannelId).
        str_eq event.event_type admin_announcement_event_type
        || same_channel c ChannelId.hotel
        || (true && same_channel ChannelId.resort_wide ChannelId.hotel))
      h
    ∙ either (str_eq event.event_type admin_announcement_event_type)

shown_message :
    (uuid : ChannelId → String) (event : BroadcastEvent) (c : ChannelId)
    → (shown_as uuid event c).message ≡ event.message
shown_message uuid event c =
    copied
      (str_eq event.event_type admin_announcement_event_type || not (same_channel event.channel c))
      (str (uuid c)) c event

written_once :
    (r : ℕ) (e : HubTypes.IslandEvent) (bus : Bus)
    → e.channel ≡ HubTypes.hotel
    → IsDistinct bus.clients
    → subscribes r HubTypes.hotel bus.clients ≡ true
    → received r (broadcast e bus).written ≡ received r bus.written ++ (e ∷ [])
written_once r e bus at distinct listens =
    received-broadcast r e bus distinct
    ∙ ap
        (λ (c : HubTypes.ChannelId).
          received r bus.written ++ (if subscribes r c bus.clients then e ∷ [] else []))
        at
    ∙ ap (λ (b : Bool). received r bus.written ++ (if b then e ∷ [] else [])) listens

-- A reservation or a cancellation that the hotel publishes is seen by every guest who is connected: at
-- the path that it is posted to, with no two clients on one response, the hub writes one event to each listener of the hotel's channel, and a web app that reads it, whatever
-- it had received since its map was mounted, puts the hotel's message on top of the hotel's feed, cut to
-- the newest 100, and its marker of the hotel pulses.
pub hotel_event-seen :
    (zod : Zod) (env : Env) (event_id : String) (type : HotelEventType) (event : HotelEvent)
    (bus : Bus) (r : ℕ) (uuid : ChannelId → String) (app : AppState) (es : List MapEvent)
    (store : EventsState)
    → IsDistinct bus.clients
    → subscribes r HubTypes.hotel bus.clients ≡ true
    → app.store ≡ (map_after ZoneId.hotel es store).store
    → (route : Route) × (route_at (endpoint_for_event type) ≡ some route)
      × (e : HubTypes.IslandEvent) × (post zod env event_id route (hotel_request event) bus
          ≡ (published, broadcast e bus))
      × (received r (broadcast e bus).written ≡ received r bus.written ++ (e ∷ []))
      × (top : BroadcastEvent) × (top.message ≡ event.message)
      × ((handle_message zod uuid (some (to_wire e)) app).store.events ChannelId.hotel
          ≡ newest top (app.store.events ChannelId.hotel))
      × ((map_step ZoneId.hotel
            (receives uuid (received_as e))
            (map_after ZoneId.hotel es store)).store
          ≡ (handle_message zod uuid (some (to_wire e)) app).store)
      × ((map_step ZoneId.hotel
            (receives uuid (received_as e))
            (map_after ZoneId.hotel es store)).marker.is_active
          ≡ true)
hotel_event-seen zod env event_id type event bus r uuid app es store distinct listens same =
    let (route, routed, e, done, id, channel, message) =
      post-hotel_request zod env event_id type event bus in
    let shown = own_shown (received_as e) (ap same_name channel) in
    let feed = (ingest_event-feeds uuid (received_as e) true app.store ChannelId.hotel).0 in
    (
      route,
      routed,
      e,
      done,
      written_once r e bus channel distinct listens,
      shown_as uuid (received_as e) ChannelId.hotel,
      shown_message uuid (received_as e) ChannelId.hotel ∙ message,
      ap (λ (s : EventsState). s.events ChannelId.hotel) (handled-store zod uuid e app)
          ∙ feed
          ∙ ap
              (λ (b : Bool).
                if b
                then newest (shown_as uuid (received_as e) ChannelId.hotel)
                    (app.store.events ChannelId.hotel)
                else app.store.events ChannelId.hotel)
              shown,
      map_step-store ZoneId.hotel uuid (received_as e) (map_after ZoneId.hotel es store)
          ∙ ap (ingest_event uuid (received_as e) true) (sym same)
          ∙ sym (handled-store zod uuid e app),
      shown-pulses ZoneId.hotel es store uuid (received_as e) shown,
    )
