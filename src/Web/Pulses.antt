-- ===== src/Web/Pulses.antt =====
-- When a marker of Web/Markers.antt pulses.
use faf_hackathon_challenge.Prelude.{
  String, ap, ℕ, ◌+◌, ◌-◌, Bool, true, false, ◌≡◌, refl, ◌∙◌, inl, inr, Option, none, some, List,
  [], ◌∷◌, if◌then◌else◌, ◌==◌, leb, ltb, ◌||◌, arith, Bool-cases,
}
use faf_hackathon_challenge.Web.Types.{ChannelId, BroadcastEvent}
use faf_hackathon_challenge.Web.EventsStore.{EventsState, ingest_event}
use faf_hackathon_challenge.Web.Feeds.{shows_in, ingest_event-prepended}
use faf_hackathon_challenge.Web.Zones.{ZoneId}
use faf_hackathon_challenge.Web.ZoneRegistry.{get_zone}
use faf_hackathon_challenge.Web.Markers.{
  use_zone_activity_tick, Marker, mount_marker, marker_effect, marker_rendered, time_out, MapEvent,
  passes_time, receives, MapState, map_step, map_run,
}

-- The time since an event was last shown in a feed, from the events alone.
abbrev pub waited : ℕ → Option ℕ → Option ℕ
waited d none = none
waited d (some t) = some (t + d)

abbrev pub since_next : ChannelId → MapEvent → Option ℕ → Option ℕ
since_next c (passes_time d) since = waited d since
since_next c (receives uuid event) since = if shows_in event true c then some 0 else since

abbrev pub since_shown : ChannelId → List MapEvent → Option ℕ → Option ℕ
since_shown c [] since = since
since_shown c (e ∷ es) since = since_shown c es (since_next c e since)

abbrev pub is_recent : Option ℕ → Bool
is_recent none = false
is_recent (some t) = ltb t 820

abbrev time_left : Option ℕ → Option ℕ
time_left none = none
time_left (some t) = if ltb t 820 then some (820 - t) else none

record IsPulsing (id : ZoneId) (since : Option ℕ) (s : MapState) : Type 0 where
  pub seen : s.marker.previous_tick ≡ use_zone_activity_tick id s.store
  pub active : s.marker.is_active ≡ is_recent since
  pub timer : s.marker.timer ≡ time_left since

timed :
    (d previous : ℕ) (since : Option ℕ) (active : Bool) (timer : Option ℕ)
    → active ≡ is_recent since
    → timer ≡ time_left since
    → let m =
        time_out d timer (record { previous_tick = previous; is_active = active; timer = timer }) in
      (m.previous_tick ≡ previous)
      × (m.is_active ≡ is_recent (waited d since))
      × (m.timer ≡ time_left (waited d since))
timed d previous none active timer a t = rw (a, t) (refl, refl, refl)
timed d previous (some k) active timer a t = elim (Bool-cases (ltb k 820)) [
  | inr old ↦ rw (a, t, old) (refl, ground arith, ground arith)
  | inl recent ↦ elim (Bool-cases (leb (820 - k) d)) [
    | inl due ↦ rw (a, t, recent, due) (refl, ground arith, ground arith)
    | inr later ↦ rw (a, t, recent, later) (refl, ground arith, ground arith)
  ]
]

-- A tick that goes up by one is seen by the effect, one that stays is not.
ticked :
    (before tick : ℕ) (shown : Bool) (since : Option ℕ) (m : Marker)
    → tick ≡ before + (if shown then 1 else 0)
    → m.previous_tick ≡ before
    → m.is_active ≡ is_recent since
    → m.timer ≡ time_left since
    → let next = marker_rendered before tick m in
      let now = if shown then some 0 else since in
      (next.previous_tick ≡ tick) × (next.is_active ≡ is_recent now) × (next.timer ≡ time_left now)
unfolding marker_effect
ticked before tick true since m up seen active timer =
    let changed : (before == tick) ≡ false = ground arith in
    let fresh : (tick == 0 || tick == m.previous_tick) ≡ false = ground arith in
    rw changed (rw fresh (refl, refl, refl))
ticked before tick false since m up seen active timer =
    let same : (before == tick) ≡ true = ground arith in
    rw same (omega (arith, seen), active, timer)

map_step-IsPulsing :
    (id : ZoneId) (e : MapEvent) (since : Option ℕ) (s : MapState)
    → IsPulsing id since s
    → IsPulsing id (since_next (get_zone id).channel e since) (map_step id e s)
unfolding map_step
map_step-IsPulsing id (passes_time d) since s h =
    let (previous, active, timer) =
      timed d s.marker.previous_tick since s.marker.is_active s.marker.timer h.active h.timer in
    record { seen = previous ∙ h.seen; active = active; timer = timer }
map_step-IsPulsing id (receives uuid event) since s h =
    let c = (get_zone id).channel in
    let store = ingest_event uuid event true s.store in
    let (previous, active, timer) =
      ticked (use_zone_activity_tick id s.store) (use_zone_activity_tick id store)
        (shows_in event true c) since s.marker (ingest_event-prepended uuid event true s.store c).1
        h.seen h.active h.timer in
    record { seen = previous; active = active; timer = timer }

map_run-IsPulsing :
    (id : ZoneId) (es : List MapEvent) (since : Option ℕ) (s : MapState)
    → IsPulsing id since s
    → IsPulsing id (since_shown (get_zone id).channel es since) (map_run id es s)
unfolding map_run
map_run-IsPulsing id [] since s h = h
map_run-IsPulsing id (e ∷ es) since s h =
    map_run-IsPulsing id es (since_next (get_zone id).channel e since) (map_step id e s)
      (map_step-IsPulsing id e since s h)

-- The state of the map after some events, from a store at its mount.
abbrev pub map_after : ZoneId → List MapEvent → EventsState → MapState
map_after id es store = map_run id es (record { store = store; marker = mount_marker id store })

pub map_step-store :
    (id : ZoneId) (uuid : ChannelId → String) (event : BroadcastEvent) (s : MapState)
    → (map_step id (receives uuid event) s).store ≡ ingest_event uuid event true s.store
unfolding map_step
map_step-store id uuid event s = refl

pub shown-pulses :
    (id : ZoneId) (es : List MapEvent) (store : EventsState) (uuid : ChannelId → String)
    (event : BroadcastEvent)
    → shows_in event true (get_zone id).channel ≡ true
    → (map_step id (receives uuid event) (map_after id es store)).marker.is_active ≡ true
shown-pulses id es store uuid event shown =
    let since = since_shown (get_zone id).channel es none in
    let before =
      map_run-IsPulsing id es none (record { store = store; marker = mount_marker id store })
        (record { seen = refl; active = refl; timer = refl }) in
    (map_step-IsPulsing id (receives uuid event) since (map_after id es store) before).active
    ∙ ap (λ (b : Bool). is_recent (if b then some 0 else since)) shown

-- A marker pulses exactly if an event was shown in the feed of its zone's channel less than 820 ms ago,
-- since the map was mounted: whatever events come in, and however soon after one another, if each
-- is rendered before the next.
pub map_run-pulses :
    (id : ZoneId) (es : List MapEvent) (store : EventsState)
    → (map_run id es (record { store = store; marker = mount_marker id store })).marker.is_active
      ≡ is_recent (since_shown (get_zone id).channel es none)
map_run-pulses id es store =
    (map_run-IsPulsing id es none (record { store = store; marker = mount_marker id store })
      (record { seen = refl; active = refl; timer = refl })).active
