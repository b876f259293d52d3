-- ===== src/Island/SeenExamples.antt =====
-- A reservation with one guest connected, who had received another event before.
use faf_hackathon_challenge.Prelude.{true, ◌≡◌, refl, none, some, List, [], ◌∷◌, ◌++◌}
use faf_hackathon_challenge.Prelude.Int.{pos}
use faf_hackathon_challenge.Values.{str}
use faf_hackathon_challenge.Values.Schema.{plain_zod}
use faf_hackathon_challenge.Hotel.Types.{RoomType}
use faf_hackathon_challenge.Hotel.Clients.{HotelEventType, HotelEvent}
use faf_hackathon_challenge.Hub.Types as HubTypes
use faf_hackathon_challenge.Hub.EventBus.{Bus, broadcast}
use faf_hackathon_challenge.Hub.Routes.{Route, route_at, published, post}
use faf_hackathon_challenge.Hub.Delivery.{received}
use faf_hackathon_challenge.Web.Types.{ChannelId, channel_text, BroadcastEvent}
use faf_hackathon_challenge.Web.EventsStore.{initial}
use faf_hackathon_challenge.Web.Feeds.{newest}
use faf_hackathon_challenge.Web.IslandEvents.{AppState, handle_message}
use faf_hackathon_challenge.Web.Wire.{to_wire, received_as}
use faf_hackathon_challenge.Web.Zones.{ZoneId}
use faf_hackathon_challenge.Web.Markers.{MapEvent, receives, passes_time, map_step}
use faf_hackathon_challenge.Web.Pulses.{map_after}
use faf_hackathon_challenge.Island.{hotel_request}
use faf_hackathon_challenge.Island.Seen.{hotel_event-seen}

abbrev event : HotelEvent
event = record {
  message = "Hotel reservation confirmed.";
  reservation_id = "r1";
  guest_id = "momo";
  room_type = RoomType.suite;
  guest_count = 2;
  check_in_day = pos 1;
  check_out_day = pos 3;
}

abbrev bus : Bus
bus = record {
  clients = record { res = 7; allowed_channels = HubTypes.hotel ∷ [] } ∷ [];
  written = [];
}

abbrev before : BroadcastEvent
before = record {
  id = str "e0";
  channel = ChannelId.crab;
  event_type = "crab.order_placed";
  message = "Ordered.";
  sender = "crab";
  guest_id = none;
  guest_name = none;
  data_fields = none;
}

abbrev earlier : List MapEvent
earlier = receives channel_text before ∷ passes_time 2000 ∷ []

abbrev app : AppState
app = record {
  store = (map_after ZoneId.hotel earlier initial).store;
  activities = none;
  invalidations = 0;
}

hotel_event-seen_example :
    (route : Route) × (route_at "/hotel/confirm" ≡ some route)
    × (e : HubTypes.IslandEvent) × (post plain_zod
          (λ name. none)
          "e1"
          route
          (hotel_request event)
          bus
        ≡ (published, broadcast e bus))
    × (received 7 (broadcast e bus).written ≡ received 7 bus.written ++ (e ∷ []))
    × (top : BroadcastEvent) × (top.message ≡ "Hotel reservation confirmed.")
    × ((handle_message plain_zod channel_text (some (to_wire e)) app).store.events ChannelId.hotel
        ≡ newest top (app.store.events ChannelId.hotel))
    × ((map_step ZoneId.hotel
          (receives channel_text (received_as e))
          (map_after ZoneId.hotel earlier initial)).store
        ≡ (handle_message plain_zod channel_text (some (to_wire e)) app).store)
    × ((map_step ZoneId.hotel
          (receives channel_text (received_as e))
          (map_after ZoneId.hotel earlier initial)).marker.is_active
        ≡ true)
hotel_event-seen_example =
    hotel_event-seen plain_zod (λ name. none) "e1" HotelEventType.reservation_confirmed event bus 7
      channel_text app earlier initial (tt, tt) refl refl
