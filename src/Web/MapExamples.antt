-- ===== src/Web/MapExamples.antt =====
-- The hotel's marker and the beach's, when a booking and a full beach are announced.
use faf_hackathon_challenge.Prelude.{◌≡◌, refl, true, false, none, List, [], ◌∷◌}
use faf_hackathon_challenge.Values.{str}
use faf_hackathon_challenge.Web.Types.{ChannelId, channel_text, BroadcastEvent}
use faf_hackathon_challenge.Web.EventsStore.{initial, ingest_event, prepend_event}
use faf_hackathon_challenge.Web.Zones.{ZoneId}
use faf_hackathon_challenge.Web.Markers.{
  mount_marker, marker_effect, MapEvent, passes_time, receives, map_step, map_run,
}
use faf_hackathon_challenge.Web.Pulses.{is_recent, since_shown, map_run-pulses}

abbrev booking : BroadcastEvent
booking = record {
  id = str "e1";
  channel = ChannelId.hotel;
  event_type = "hotel.reservation_confirmed";
  message = "Booked.";
  sender = "hotel";
  guest_id = none;
  guest_name = none;
  data_fields = none;
}

abbrev beach_full : BroadcastEvent
beach_full = record booking { channel = ChannelId.beach; event_type = "beach.activity_full" }

abbrev busy : List MapEvent
busy =
    receives channel_text booking
    ∷ passes_time 500
    ∷ receives channel_text booking
    ∷ passes_time 500
    ∷ []

map_run-pulses_example :
    (map_run ZoneId.hotel busy
      (record { store = initial; marker = mount_marker ZoneId.hotel initial })).marker.is_active
    ≡ is_recent (since_shown ChannelId.hotel busy none)
map_run-pulses_example = map_run-pulses ZoneId.hotel busy initial

-- A full beach does not show at the beach, whose marker listens to the hotel's channel.
beach_test :
    (map_run ZoneId.beach
      (receives channel_text beach_full ∷ [])
      (record { store = initial; marker = mount_marker ZoneId.beach initial })).marker.is_active
    ≡ false
unfolding map_run map_step marker_effect ingest_event prepend_event
beach_test = refl

hotel_test :
    (map_run ZoneId.hotel busy
      (record { store = initial; marker = mount_marker ZoneId.hotel initial })).marker.is_active
    ≡ true
unfolding map_run map_step marker_effect ingest_event prepend_event
hotel_test = refl
