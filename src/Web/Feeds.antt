-- ===== src/Web/Feeds.antt =====
-- What the feeds of the events store hold.
use faf_hackathon_challenge.Prelude.{
  ◌+◌, ◌≡◌, refl, String, Bool, true, false, not, ◌&&◌, ◌||◌, if◌then◌else◌, str_eq, arith,
  Bool-cases, inl, inr, ap, sym, ◌∙◌, ◌≤◌, ℕ, zero, suc, List, [], ◌∷◌, length, take, ltb,
}
use faf_hackathon_challenge.Values.{str}
use faf_hackathon_challenge.Web.Types.{
  ChannelId, airport, resort_wide, same_channel, same_channel→eq, all_channels, BroadcastEvent,
}
use faf_hackathon_challenge.Web.EventsStore.{
  max_events, admin_announcement_event_type, EventsState, prepend_event, fan_out, ingest_own,
  mirror, ingest_event,
}

-- Whether an event shows in the feed of a channel: an administrator's in every feed, any other in
-- its own and, if it is mirrored, in the resort-wide one.
abbrev pub shows_in : BroadcastEvent → Bool → ChannelId → Bool
shows_in event mirrored c =
    str_eq event.event_type admin_announcement_event_type
    || same_channel event.channel c
    || (mirrored && same_channel resort_wide c)

-- What is put at the head of that feed: the event itself in its own channel, a copy elsewhere.
abbrev pub shown_as : (ChannelId → String) → BroadcastEvent → ChannelId → BroadcastEvent
shown_as uuid event c =
    if str_eq event.event_type admin_announcement_event_type || not (same_channel event.channel c)
    then record event { id = str (uuid c); channel = c }
    else event

fan_out-feeds :
    (uuid : ChannelId → String) (event : BroadcastEvent) (state : EventsState) (c : ChannelId)
    → ((fan_out uuid event state all_channels state).events c
        ≡ prepend_event (state.events c) (record event { id = str (uuid c); channel = c }))
      × ((fan_out uuid event state all_channels state).activity_tick c ≡ state.activity_tick c + 1)
unfolding fan_out
fan_out-feeds uuid event state airport = (refl, refl)
fan_out-feeds uuid event state _ = (refl, refl)

own-feeds :
    (event : BroadcastEvent) (state : EventsState) (c : ChannelId)
    → ((ingest_own event state).events c ≡ (
        if same_channel event.channel c
        then prepend_event (state.events c) event
        else state.events c))
      × ((ingest_own event state).activity_tick c
          ≡ state.activity_tick c + (if same_channel event.channel c then 1 else 0))
own-feeds event state c = elim (Bool-cases (same_channel event.channel c)) [
  | inl here ↦
      let e = same_channel→eq event.channel c here in
      (
        rw here (ap (λ k. prepend_event (state.events k) event) e),
        rw here (ap (λ k. state.activity_tick k + 1) e),
      )
  | inr away ↦ (rw away refl, rw away (omega arith))
]

-- The plain event's head of a feed, of which `shown_as` is the case that is no announcement.
abbrev plain_head : (ChannelId → String) → BroadcastEvent → ChannelId → BroadcastEvent
plain_head uuid event c =
    if not (same_channel event.channel c)
    then record event { id = str (uuid c); channel = c }
    else event

module _ (uuid : ChannelId → String) (event : BroadcastEvent) (mirrored : Bool)
    (state : EventsState) where
  abbrev PlainFeeds : EventsState → ChannelId → Type 0
  PlainFeeds next c =
      (next.events c ≡ (
        if same_channel event.channel c || (mirrored && same_channel resort_wide c)
        then prepend_event (state.events c) (plain_head uuid event c)
        else state.events c))
      × (next.activity_tick c
          ≡ state.activity_tick c
            + (if same_channel event.channel c || (mirrored && same_channel resort_wide c)
                then 1
                else 0))

  mirror-feeds :
      (mirrored && not (same_channel event.channel resort_wide)) ≡ true
      → (c : ChannelId) → PlainFeeds (mirror uuid event state (ingest_own event state)) c
  mirror-feeds h resort_wide = (ground arith, ground arith)
  mirror-feeds h c =
      (ground (arith, (own-feeds event state c).0), ground (arith, (own-feeds event state c).1))

  alone-feeds :
      (mirrored && not (same_channel event.channel resort_wide)) ≡ false
      → (c : ChannelId) → PlainFeeds (ingest_own event state) c
  alone-feeds h resort_wide = (
    ground (arith, (own-feeds event state resort_wide).0),
    ground (arith, (own-feeds event state resort_wide).1),
  )
  alone-feeds h c =
      (ground (arith, (own-feeds event state c).0), ground (arith, (own-feeds event state c).1))

pub ingest_event-prepended :
    (uuid : ChannelId → String) (event : BroadcastEvent) (mirrored : Bool) (state : EventsState)
    (c : ChannelId)
    → ((ingest_event uuid event mirrored state).events c ≡ (
        if shows_in event mirrored c
        then prepend_event (state.events c) (shown_as uuid event c)
        else state.events c))
      × ((ingest_event uuid event mirrored state).activity_tick c
          ≡ state.activity_tick c + (if shows_in event mirrored c then 1 else 0))
unfolding ingest_event
ingest_event-prepended uuid event mirrored state c =
    elim (Bool-cases (str_eq event.event_type admin_announcement_event_type)) [
      | inl admin ↦ rw admin (fan_out-feeds uuid event state c)
      | inr plain ↦ elim (Bool-cases (mirrored && not (same_channel event.channel resort_wide))) [
        | inl copied ↦ rw (plain, copied) (mirror-feeds uuid event mirrored state copied c)
        | inr alone ↦ rw (plain, alone) (alone-feeds uuid event mirrored state alone c)
      ]
    ]

-- An event before what a feed held, cut to the newest 100.
abbrev pub newest : BroadcastEvent → List BroadcastEvent → List BroadcastEvent
newest event events = take 100 (event ∷ events)

take-short : (n : ℕ) (events : List BroadcastEvent) → length events ≤ n → take n events ≡ events
take-short zero [] h = refl
take-short zero (e ∷ events) h = absurd (omega (arith, h))
take-short (suc n) [] h = refl
take-short (suc n) (e ∷ events) h = ap (λ es. e ∷ es) (take-short n events (omega arith))

pub prepend_event-newest :
    (events : List BroadcastEvent) (event : BroadcastEvent)
    → prepend_event events event ≡ newest event events
unfolding prepend_event
prepend_event-newest events event = elim (Bool-cases (ltb max_events (length (event ∷ events)))) [
  | inl long ↦ rw long refl
  | inr short ↦ rw short (sym (take-short 100 (event ∷ events) (ground arith)))
]

-- Every feed of a channel that the event shows in becomes the event, or its copy, before what the
-- feed held, cut to the newest 100, and its counter goes up by one; every other feed and counter
-- stays as it is.
pub ingest_event-feeds :
    (uuid : ChannelId → String) (event : BroadcastEvent) (mirrored : Bool) (state : EventsState)
    (c : ChannelId)
    → ((ingest_event uuid event mirrored state).events c ≡ (
        if shows_in event mirrored c
        then newest (shown_as uuid event c) (state.events c)
        else state.events c))
      × ((ingest_event uuid event mirrored state).activity_tick c
          ≡ state.activity_tick c + (if shows_in event mirrored c then 1 else 0))
ingest_event-feeds uuid event mirrored state c =
    let (feed, tick) = ingest_event-prepended uuid event mirrored state c in
    (
      feed
          ∙ ap (λ es. if shows_in event mirrored c then es else state.events c)
              (prepend_event-newest (state.events c) (shown_as uuid event c)),
      tick,
    )
