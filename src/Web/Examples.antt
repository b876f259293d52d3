-- ===== src/Web/Examples.antt =====
-- The web app's stores and its connection on concrete inputs, and the theorems at inputs that meet
-- their hypotheses.
use faf_hackathon_challenge.Prelude.{◌≡◌, refl, true, false, none, some, [], ◌∷◌}
use faf_hackathon_challenge.Values.{Value, str, obj, member, no_members, entries}
use faf_hackathon_challenge.Values.Schema.{plain_zod}
use faf_hackathon_challenge.Hub.Types as HubTypes
use faf_hackathon_challenge.Hub.Routes.{Route, event_of}
use faf_hackathon_challenge.Web.Types.{
  ChannelId, channel_text, BroadcastEvent, GuestPassport, GuestPriority, GuestProfile,
}
use faf_hackathon_challenge.Web.EventsStore.{initial, ingest_event, prepend_event}
use faf_hackathon_challenge.Web.Feeds.{newest, ingest_event-feeds}
use faf_hackathon_challenge.Web.FeedInvariants.{ingest, clear, act_all, IsFeed, act_all-IsFeed}
use faf_hackathon_challenge.Web.IslandEvents.{AppState, handle_message, ingest_broadcast_event}
use faf_hackathon_challenge.Web.Wire.{to_wire, received_as, handle_message-to_wire}
use faf_hackathon_challenge.Web.Connection as Connection
use faf_hackathon_challenge.Web.Session as Session
use faf_hackathon_challenge.Web.Chat as Chat
use faf_hackathon_challenge.Web.ChatTurns as ChatTurns

abbrev event : BroadcastEvent
event = record {
  id = str "e1";
  channel = ChannelId.beach;
  event_type = "beach.full";
  message = "Full.";
  sender = "beach-service";
  guest_id = none;
  guest_name = none;
  data_fields = none;
}

abbrev announcement : BroadcastEvent
announcement = record event { id = str "e2"; event_type = "admin.announcement" }

mirrored_test :
    (ingest_event channel_text event true initial).events ChannelId.resort_wide
    ≡ record event { id = str "resort-wide"; channel = ChannelId.resort_wide } ∷ []
unfolding ingest_event prepend_event
mirrored_test = refl

announced_test :
    (ingest_event channel_text announcement false initial).activity_tick ChannelId.crab ≡ 1
unfolding ingest_event
announced_test = refl

ingest_event-feeds_example :
    ((ingest_event channel_text event true initial).events ChannelId.resort_wide
      ≡ newest (record event { id = str "resort-wide"; channel = ChannelId.resort_wide }) [])
    × ((ingest_event channel_text event true initial).activity_tick ChannelId.resort_wide ≡ 1)
ingest_event-feeds_example =
    ingest_event-feeds channel_text event true initial ChannelId.resort_wide

act_all-IsFeed_example :
    IsFeed (act_all (ingest channel_text event true ∷ clear ChannelId.beach ∷ []) initial)
act_all-IsFeed_example =
    act_all-IsFeed (ingest channel_text event true ∷ clear ChannelId.beach ∷ [])

abbrev app : AppState
app = record { store = initial; activities = none; invalidations = 0 }

abbrev booking_body : Value
booking_body = obj (member "message" (str "Full.") (member "activity" (str "yoga") no_members))

abbrev hub_event : HubTypes.IslandEvent
hub_event = event_of Route.beach_full "e1" (entries booking_body)

handle_message-to_wire_example :
    handle_message plain_zod channel_text (some (to_wire hub_event)) app
    ≡ ingest_broadcast_event channel_text (received_as hub_event) app
handle_message-to_wire_example = handle_message-to_wire plain_zod channel_text hub_event app

abbrev opened : Connection.Connection
opened = record {
  status = Connection.connected;
  is_open = true;
  backoff = 1000;
  timer = none;
  is_active = true;
  opened = 1;
}

capped_test : (Connection.retries 6 opened).backoff ≡ 30000
unfolding Connection.retries
capped_test = refl

abbrev kiki : GuestProfile
kiki = record {
  id = "kiki";
  name = "Kiki";
  surname = "Cat";
  age = 3;
  passport = GuestPassport.eu;
  priority = GuestPriority.fast;
  disability = false;
  avatar = "kiki.png";
  personality = "curious";
}

abbrev old_session : Session.PersistedSessionState
old_session = record { session = none; guest = some kiki }

abbrev logged_in : Session.SessionState
logged_in = record {
  session = some (Session.guest_session kiki);
  guest = some kiki;
  is_admin = false;
}

abbrev kiki_chats : Chat.Chat
kiki_chats = record Chat.no_chat { participant_id = some "kiki" }

kiki_chats-MaySend : ChatTurns.MaySend "kiki" kiki_chats
kiki_chats-MaySend = record { participant = refl; named = refl; idle = refl; unasked = refl }

react_all-IsInStep_example : ChatTurns.IsInStep (
    Chat.react_all
      (Chat.logs_in (some "kiki") ∷ Chat.sends "Hi" "1" ∷ Chat.fails 0 "Down" ∷ [])
      Chat.no_chat)
react_all-IsInStep_example =
    ChatTurns.react_all-IsInStep
      (Chat.logs_in (some "kiki") ∷ Chat.sends "Hi" "1" ∷ Chat.fails 0 "Down" ∷ [])

abbrev kiki_says : Chat.ChatHistoryMessage
kiki_says = record { content = some "Hi"; role = Chat.user }

abbrev parrot_says : Chat.ChatHistoryMessage
parrot_says = record { content = some "Squawk"; role = Chat.assistant }
