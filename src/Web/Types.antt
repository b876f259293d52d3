-- ===== src/Web/Types.antt =====
-- frontend/src/types/broadcast.ts and guest.ts: the events and the guests, as the web app has them.
use faf_hackathon_challenge.Prelude.{
  ℕ, String, Bool, true, false, ◌≡◌, Option, none, some, List, [], ◌∷◌, arith, if◌then◌else◌,
  str_eq,
}
use faf_hackathon_challenge.Values.{Value}
use faf_hackathon_challenge.Values.Schema.{
  Schema, string, one_of, record_of_unknown, object, done, required, optional,
}

pub data ChannelId : Type 0 where
  airport hotel beach crab parrot broadcast resort_wide : ChannelId

abbrev pub channel_text : ChannelId → String
channel_text airport = "airport"
channel_text hotel = "hotel"
channel_text beach = "beach"
channel_text crab = "crab"
channel_text parrot = "parrot"
channel_text broadcast = "broadcast"
channel_text resort_wide = "resort-wide"

-- `===` on channels
abbrev pub same_channel : ChannelId → ChannelId → Bool
same_channel airport airport = true
same_channel hotel hotel = true
same_channel beach beach = true
same_channel crab crab = true
same_channel parrot parrot = true
same_channel broadcast broadcast = true
same_channel resort_wide resort_wide = true
same_channel _ _ = false

pub same_channel→eq : (a b : ChannelId) → same_channel a b ≡ true → a ≡ b
same_channel→eq a b h = ground arith

pub same_channel_refl : (a : ChannelId) → same_channel a a ≡ true
same_channel_refl a = ground arith

-- `Object.values(ChannelId)`
abbrev pub all_channels : List ChannelId
all_channels = airport ∷ hotel ∷ beach ∷ crab ∷ parrot ∷ broadcast ∷ resort_wide ∷ []

-- The id is a text by its type, but `normalizeIslandEvent` copies it unchecked: any value.
pub record BroadcastEvent : Type 0 where
  pub id : Value
  pub channel : ChannelId
  pub event_type : String
  pub message : String
  pub sender : String
  pub guest_id : Option String
  pub guest_name : Option String
  pub data_fields : Option (List (String × Value))

abbrev pub broadcast_event_schema : Schema
broadcast_event_schema = object (
    required "id" string (
      required "channel"
        (one_of
          ("airport" ∷ "hotel" ∷ "beach" ∷ "crab" ∷ "parrot" ∷ "broadcast" ∷ "resort-wide" ∷ []))
        (required "event_type" string (
          required "message" string (
            required "sender" string (
              optional "guest_id" string
                (optional "guest_name" string (optional "data" record_of_unknown done))))))))

-- The channel of a text that `z.enum(ChannelId)` accepts.
unfoldable pub channel_of : String → Option ChannelId
channel_of s =
    if str_eq s "airport"
    then some airport
    else if str_eq s "hotel"
    then some hotel
    else if str_eq s "beach"
    then some beach
    else if str_eq s "crab"
    then some crab
    else if str_eq s "parrot"
    then some parrot
    else if str_eq s "broadcast"
    then some broadcast
    else if str_eq s "resort-wide"
    then some resort_wide
    else none

pub data GuestPassport : Type 0 where
  eu non_eu : GuestPassport

pub data GuestPriority : Type 0 where
  standard fast : GuestPriority

pub record GuestProfile : Type 0 where
  pub id : String
  pub name : String
  pub surname : String
  pub age : ℕ
  pub passport : GuestPassport
  pub priority : GuestPriority
  pub disability : Bool
  pub avatar : String
  pub personality : String
