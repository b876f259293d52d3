-- ===== src/Web/Markers.antt =====
-- frontend/src/features/map: a zone's marker, which pulses for a while when an event comes in
-- (components/zone-indicator.tsx, zone-registry.ts, hooks/use-zone-activity-tick.ts).
use faf_hackathon_challenge.Prelude.{
  ℕ, ◌-◌, String, Bool, true, false, ◌||◌, Option, none, some, List, [], ◌∷◌, if◌then◌else◌, ◌==◌,
  leb,
}
use faf_hackathon_challenge.Web.Types.{ChannelId, BroadcastEvent}
use faf_hackathon_challenge.Web.EventsStore.{EventsState, ingest_event}
use faf_hackathon_challenge.Web.Zones.{ZoneId}
use faf_hackathon_challenge.Web.ZoneRegistry.{get_zone}

abbrev pub use_zone_activity_tick : ZoneId → EventsState → ℕ
use_zone_activity_tick id state = state.activity_tick (get_zone id).channel

abbrev pub marker_activity_ms : ℕ
marker_activity_ms = 820

-- The marker, and the time that its timeout has left.
pub record Marker : Type 0 where
  pub previous_tick : ℕ
  pub is_active : Bool
  pub timer : Option ℕ

abbrev pub mount_marker : ZoneId → EventsState → Marker
mount_marker id state = record {
  previous_tick = use_zone_activity_tick id state;
  is_active = false;
  timer = none;
}

-- The body of the effect, with the timeout of the run before cleared.
unfoldable pub marker_effect : ℕ → Marker → Marker
marker_effect tick m =
    if tick == 0 || tick == m.previous_tick
    then record m { previous_tick = tick; timer = none }
    else record m { previous_tick = tick; is_active = true; timer = some marker_activity_ms }

-- The effect runs where the tick is not the one that was rendered last.
abbrev pub marker_rendered : ℕ → ℕ → Marker → Marker
marker_rendered before tick m = if before == tick then m else marker_effect tick m

-- Time passes, and the timeout fires if it is due.
abbrev pub time_out : ℕ → Option ℕ → Marker → Marker
time_out d none m = m
time_out d (some left) m =
    if leb left d
    then record m { is_active = false; timer = none }
    else record m { timer = some (left - d) }

pub data MapEvent : Type 0 where
  passes_time : ℕ → MapEvent
  -- an event of the hub's, with the ids for its copies
  receives : (ChannelId → String) → BroadcastEvent → MapEvent

pub record MapState : Type 0 where
  pub store : EventsState
  pub marker : Marker

unfoldable pub map_step : ZoneId → MapEvent → MapState → MapState
unfolding marker_effect
map_step id (passes_time d) s = record s { marker = time_out d s.marker.timer s.marker }
map_step id (receives uuid event) s =
    let store = ingest_event uuid event true s.store in
    record {
      store = store;
      marker =
          marker_rendered (use_zone_activity_tick id s.store) (use_zone_activity_tick id store)
            s.marker;
    }

unfoldable pub map_run : ZoneId → List MapEvent → MapState → MapState
unfolding map_step
map_run id [] s = s
map_run id (e ∷ es) s = map_run id es (map_step id e s)
