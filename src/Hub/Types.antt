-- ===== src/Hub/Types.antt =====
-- services/broadcast/src/types.ts: event types, channels and the wire shape of an event.
use faf_hackathon_challenge.Prelude.{
  String, Bool, true, false, Option, List, [], ◌∷◌, ◌≡◌, arith, any,
}
use faf_hackathon_challenge.Values.{Value}

pub data EventType : Type 0 where
  airport_arrival hotel_confirm hotel_cancel beach_full beach_available : EventType
  crab_order_placed crab_sold_out parrot_cursed : EventType
  public_announcement admin_announcement : EventType

abbrev pub event_type_text : EventType → String
event_type_text airport_arrival = "airport.arrival"
event_type_text hotel_confirm = "hotel.reservation_confirmed"
event_type_text hotel_cancel = "hotel.reservation_cancelled"
event_type_text beach_full = "beach.activity_full"
event_type_text beach_available = "beach.activity_available"
event_type_text crab_order_placed = "crab.order_placed"
event_type_text crab_sold_out = "crab.sold_out"
event_type_text parrot_cursed = "parrot.cursed"
event_type_text public_announcement = "public.announcement"
event_type_text admin_announcement = "admin.announcement"

pub data ChannelId : Type 0 where
  airport hotel beach crab parrot broadcast resort_wide : ChannelId

abbrev pub channel_text : ChannelId → String
channel_text airport = "airport"
channel_text hotel = "hotel"
channel_text beach = "beach"
channel_text crab = "crab"
channel_text parrot = "parrot"
channel_text broadcast = "broadcast"
channel_text resort_wide = "resort-wide"

-- `Object.values(ChannelId)`
abbrev pub all_channels : List ChannelId
all_channels = airport ∷ hotel ∷ beach ∷ crab ∷ parrot ∷ broadcast ∷ resort_wide ∷ []

-- `===` on channels
abbrev pub same_channel : ChannelId → ChannelId → Bool
same_channel airport airport = true
same_channel hotel hotel = true
same_channel beach beach = true
same_channel crab crab = true
same_channel parrot parrot = true
same_channel broadcast broadcast = true
same_channel resort_wide resort_wide = true
same_channel _ _ = false

pub same_channel→eq : (a b : ChannelId) → same_channel a b ≡ true → a ≡ b
same_channel→eq a b h = ground arith

pub same_channel_refl : (a : ChannelId) → same_channel a a ≡ true
same_channel_refl a = ground arith

-- `Set.prototype.has`
abbrev pub has : List ChannelId → ChannelId → Bool
has set c = any (λ d. same_channel d c) set

pub record IslandEvent : Type 0 where
  pub id : String
  pub channel : ChannelId
  pub event_type : EventType
  pub message : String
  pub sender : String
  pub guest_id : Option String
  pub guest_name : Option String
  pub data_fields : Option (List (String × Value))
