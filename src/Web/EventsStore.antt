-- ===== src/Web/EventsStore.antt =====
-- frontend/src/stores/events-store.ts: the feeds of the channels and their activity counters. The
-- store's two records by channel are functions; `crypto.randomUUID()` is an argument.
use faf_hackathon_challenge.Prelude.{
  ℕ, ◌+◌, String, Bool, not, ◌&&◌, List, [], ◌∷◌, length, take, if◌then◌else◌, ltb, str_eq,
}
use faf_hackathon_challenge.Values.{str}
use faf_hackathon_challenge.Web.Types.{
  ChannelId, resort_wide, same_channel, all_channels, BroadcastEvent,
}

abbrev pub max_events : ℕ
max_events = 100

abbrev pub admin_announcement_event_type : String
admin_announcement_event_type = "admin.announcement"

pub record EventsState : Type 0 where
  pub events : ChannelId → List BroadcastEvent
  pub activity_tick : ChannelId → ℕ

abbrev pub initial : EventsState
initial = record { events = λ c. []; activity_tick = λ c. 0 }

-- `{ ...r, [k]: v }`
abbrev pub put {ℓ} : {A : Type ℓ} → ChannelId → A → (ChannelId → A) → ChannelId → A
put k v r c = if same_channel k c then v else r c

-- Setting the length of an array cuts it off.
unfoldable pub prepend_event : List BroadcastEvent → BroadcastEvent → List BroadcastEvent
prepend_event events event =
    let next = event ∷ events in if ltb max_events (length next) then take max_events next else next

-- The loop over all channels; `state` is the state before, `next` the copies that it fills.
unfoldable pub fan_out :
    (ChannelId → String) → BroadcastEvent → EventsState → List ChannelId → EventsState → EventsState
fan_out uuid event state [] next = next
fan_out uuid event state (c ∷ cs) next = fan_out uuid event state cs (record {
  events =
      put c (prepend_event (state.events c) (record event { id = str (uuid c); channel = c }))
        next.events;
  activity_tick = put c (state.activity_tick c + 1) next.activity_tick;
})

-- The event in its own channel's feed.
abbrev pub ingest_own : BroadcastEvent → EventsState → EventsState
ingest_own event state = record {
  events = put event.channel (prepend_event (state.events event.channel) event) state.events;
  activity_tick = put event.channel (state.activity_tick event.channel + 1) state.activity_tick;
}

-- The copy in the resort-wide feed.
abbrev pub mirror : (ChannelId → String) → BroadcastEvent → EventsState → EventsState → EventsState
mirror uuid event state next = record {
  events =
      put resort_wide
        (prepend_event (state.events resort_wide)
          (record event { id = str (uuid resort_wide); channel = resort_wide }))
        next.events;
  activity_tick = put resort_wide (state.activity_tick resort_wide + 1) next.activity_tick;
}

unfoldable pub ingest_event :
    (ChannelId → String) → BroadcastEvent → Bool → EventsState → EventsState
unfolding fan_out
ingest_event uuid event mirror_to_resort_wide state =
    if str_eq event.event_type admin_announcement_event_type
    then fan_out uuid event state all_channels state
    else if mirror_to_resort_wide && not (same_channel event.channel resort_wide)
    then mirror uuid event state (ingest_own event state)
    else ingest_own event state

unfoldable pub clear_events : ChannelId → EventsState → EventsState
clear_events channel state = record state { events = put channel [] state.events }
