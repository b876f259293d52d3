-- ===== src/Web/FeedInvariants.antt =====
-- What holds of the feeds whatever events arrive.
use faf_hackathon_challenge.Prelude.{
  ℕ, suc, ◌≤◌, ◌≡◌, String, Bool, false, List, [], ◌∷◌, length, length-take, min, if◌then◌else◌,
  ltb, arith, All, All-take, Bool-cases, inl, inr,
}
use faf_hackathon_challenge.Web.Types.{ChannelId, same_channel, same_channel→eq, BroadcastEvent}
use faf_hackathon_challenge.Web.EventsStore.{
  max_events, EventsState, initial, prepend_event, ingest_event, clear_events,
}
use faf_hackathon_challenge.Web.Feeds.{shows_in, shown_as, ingest_event-prepended}

abbrev IsHome : ChannelId → List BroadcastEvent → Type 0
IsHome c events = All (λ e. e.channel ≡ c) events

short_enough : (n : ℕ) → ltb max_events (suc n) ≡ false → suc n ≡ min max_events (suc n)
short_enough n h = ground arith

length-prepend_event :
    (events : List BroadcastEvent) (event : BroadcastEvent)
    → length (prepend_event events event) ≡ min max_events (suc (length events))
unfolding prepend_event
length-prepend_event events event = elim (Bool-cases (ltb max_events (length (event ∷ events)))) [
  | inl long ↦ rw long (length-take max_events (event ∷ events))
  | inr short ↦ rw short (short_enough (length events) short)
]

prepend_event-IsHome :
    (c : ChannelId) (events : List BroadcastEvent) (event : BroadcastEvent)
    → event.channel ≡ c
    → IsHome c events
    → IsHome c (prepend_event events event)
unfolding prepend_event
prepend_event-IsHome c events event e h =
    elim (Bool-cases (ltb max_events (length (event ∷ events)))) [
      | inl long ↦
          rw long
            (All-take (λ (t : BroadcastEvent). t.channel ≡ c) max_events (event ∷ events) (e, h))
      | inr short ↦ rw short (e, h)
    ]

shown_as-home :
    (uuid : ChannelId → String) (event : BroadcastEvent) (c : ChannelId)
    → (shown_as uuid event c).channel ≡ c
shown_as-home uuid event c = ground (arith, same_channel→eq event.channel c)

-- Each feed holds at most 100 events, all of its own channel.
pub record IsFeed (state : EventsState) : Type 0 where
  pub bounded : (c : ChannelId) → length (state.events c) ≤ max_events
  pub home : (c : ChannelId) → All (λ e. e.channel ≡ c) (state.events c)

module _ (uuid : ChannelId → String) (event : BroadcastEvent) (mirrored : Bool)
    (state : EventsState) where
  ingest_event-IsFeed : IsFeed state → IsFeed (ingest_event uuid event mirrored state)
  ingest_event-IsFeed h = record {
    bounded = λ c. rw ((ingest_event-prepended uuid event mirrored state c).0) (size c);
    home = λ c. rw ((ingest_event-prepended uuid event mirrored state c).0) (homes c);
  }
    where
      size :
          (c : ChannelId)
          → length (
              if shows_in event mirrored c
              then prepend_event (state.events c) (shown_as uuid event c)
              else state.events c)
            ≤ max_events
      size c =
          ground (arith, length-prepend_event (state.events c) (shown_as uuid event c), h.bounded c)

      homes :
          (c : ChannelId)
          → IsHome c (
              if shows_in event mirrored c
              then prepend_event (state.events c) (shown_as uuid event c)
              else state.events c)
      homes c = elim (Bool-cases (shows_in event mirrored c)) [
        | inl shown ↦ rw shown (
            prepend_event-IsHome c (state.events c) (shown_as uuid event c)
              (shown_as-home uuid event c) (h.home c))
        | inr hidden ↦ rw hidden (h.home c)
      ]

  ingest_event-counted :
      ((c : ChannelId) → length (state.events c) ≡ min max_events (state.activity_tick c))
      → (c : ChannelId)
      → length ((ingest_event uuid event mirrored state).events c)
        ≡ min max_events ((ingest_event uuid event mirrored state).activity_tick c)
  ingest_event-counted h c =
      let feeds = ingest_event-prepended uuid event mirrored state c in
      rw (feeds.0, feeds.1)
        (ground (arith, length-prepend_event (state.events c) (shown_as uuid event c), h c))

clear_events-IsFeed :
    (c : ChannelId) (state : EventsState) → IsFeed state → IsFeed (clear_events c state)
unfolding clear_events
clear_events-IsFeed c state h = record {
  bounded = λ k. ground (arith, h.bounded k);
  home = λ k. elim (Bool-cases (same_channel c k)) [
    | inl here ↦ rw here tt
    | inr away ↦ rw away (h.home k)
  ];
}

pub data Action : Type 0 where
  ingest : (ChannelId → String) → BroadcastEvent → Bool → Action
  clear : ChannelId → Action

abbrev pub act : Action → EventsState → EventsState
act (ingest uuid event mirrored) state = ingest_event uuid event mirrored state
act (clear c) state = clear_events c state

unfoldable pub act_all : List Action → EventsState → EventsState
act_all [] state = state
act_all (a ∷ as_) state = act_all as_ (act a state)

act_all-IsFeed_from :
    (as_ : List Action) (state : EventsState) → IsFeed state → IsFeed (act_all as_ state)
unfolding act_all
act_all-IsFeed_from [] state h = h
act_all-IsFeed_from (ingest uuid event mirrored ∷ as_) state h =
    act_all-IsFeed_from as_ _ (ingest_event-IsFeed uuid event mirrored state h)
act_all-IsFeed_from (clear c ∷ as_) state h =
    act_all-IsFeed_from as_ _ (clear_events-IsFeed c state h)

-- Whatever events arrive and whichever feeds are cleared, each feed holds at most 100 events, and
-- every event in it is labelled with its channel.
pub act_all-IsFeed : (as_ : List Action) → IsFeed (act_all as_ initial)
act_all-IsFeed as_ =
    act_all-IsFeed_from as_ initial (record { bounded = λ c. omega arith; home = λ c. tt })

-- The events that a list of arrivals leaves.
abbrev pub Arrival : Type 0
Arrival = (ChannelId → String) × BroadcastEvent × Bool

unfoldable pub ingest_all : List Arrival → EventsState → EventsState
ingest_all [] state = state
ingest_all ((uuid, event, mirrored) ∷ es) state =
    ingest_all es (ingest_event uuid event mirrored state)

ingest_all-counted_from :
    (es : List Arrival) (state : EventsState)
    → ((c : ChannelId) → length (state.events c) ≡ min max_events (state.activity_tick c))
    → (c : ChannelId)
    → length ((ingest_all es state).events c)
      ≡ min max_events ((ingest_all es state).activity_tick c)
unfolding ingest_all
ingest_all-counted_from [] state h = h
ingest_all-counted_from ((uuid, event, mirrored) ∷ es) state h =
    ingest_all-counted_from es _ (ingest_event-counted uuid event mirrored state h)

-- While no feed is cleared, a feed's length is what its activity counter says, up to 100: no event
-- that was counted is lost before the bound is met, and none is shown that was not counted.
ingest_all-counted :
    (es : List Arrival) (c : ChannelId)
    → length ((ingest_all es initial).events c)
      ≡ min max_events ((ingest_all es initial).activity_tick c)
ingest_all-counted es c = ingest_all-counted_from es initial (λ k. omega arith) c
