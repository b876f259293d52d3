-- ===== src/Web/ZoneRegistry.antt =====
-- frontend/src/features/map/zone-registry.ts: the zones of the map.
use faf_hackathon_challenge.Prelude.{ℕ, String}
use faf_hackathon_challenge.Web.Types.{ChannelId}
use faf_hackathon_challenge.Web.Zones.{ZoneId}

-- A zone's definition, with the scale of its marker in percent and without its pictures.
pub record ZoneDefinition : Type 0 where
  pub id : ZoneId
  pub label : String
  pub description : String
  pub admin_description : String
  pub channel : ChannelId
  pub x : ℕ
  pub y : ℕ
  pub accent : String
  pub marker_scale : ℕ

abbrev airport_zone : ZoneDefinition
airport_zone = record {
  id = ZoneId.airport;
  label = "Airport";
  description =
      "Join the departure queue and clear passport control. You can't check in anywhere until you've landed.";
  admin_description = "Observe airport arrivals, queue movement, and passport-control events.";
  channel = ChannelId.airport;
  x = 1600;
  y = 320;
  accent = "#38bdf8";
  marker_scale = 200;
}

abbrev hotel_zone : ZoneDefinition
hotel_zone = record {
  id = ZoneId.hotel;
  label = "Hotel";
  description = "Reserve a room for your stay. The hotel checks you've cleared the airport first.";
  admin_description = "Observe hotel room, reservation, and cancellation events.";
  channel = ChannelId.hotel;
  x = 1720;
  y = 900;
  accent = "#34d399";
  marker_scale = 165;
}

abbrev beach_zone : ZoneDefinition
beach_zone = record {
  id = ZoneId.beach;
  label = "Beach";
  description =
      "Browse activities and grab a spot. Each has limited capacity and guests can only join one at a time.";
  admin_description = "Observe beach activity capacity, booking, and cancellation events.";
  channel = ChannelId.hotel;
  x = 580;
  y = 1400;
  accent = "#fbbf24";
  marker_scale = 100;
}

abbrev crab_zone : ZoneDefinition
crab_zone = record {
  id = ZoneId.crab;
  label = "The Crusty Crab";
  description =
      "Order a Krabby Patty and other island eats from Mr. Crab. Some items are limited and sell out for the day!";
  admin_description = "Observe Crusty Crab orders and sold-out events.";
  channel = ChannelId.crab;
  x = 1080;
  y = 1240;
  accent = "#ef4444";
  marker_scale = 180;
}

abbrev parrot_zone : ZoneDefinition
parrot_zone = record {
  id = ZoneId.parrot;
  label = "Parrot";
  description =
      "Chat with the resort's AI parrot for island guidance, recommendations, and quick answers.";
  admin_description =
      "Observe the AI parrot's activity: chat volume, tool usage, and conversation transcripts.";
  channel = ChannelId.parrot;
  x = 2380;
  y = 1560;
  accent = "#a78bfa";
  marker_scale = 100;
}

abbrev broadcast_zone : ZoneDefinition
broadcast_zone = record {
  id = ZoneId.broadcast;
  label = "Lighhouse";
  description = "Resort-wide announcements broadcast to every guest on the island.";
  admin_description = "Observe the full island-wide event stream from every service.";
  channel = ChannelId.resort_wide;
  x = 375;
  y = 890;
  accent = "#22d3ee";
  marker_scale = 200;
}

abbrev pub get_zone : ZoneId → ZoneDefinition
get_zone ZoneId.airport = airport_zone
get_zone ZoneId.hotel = hotel_zone
get_zone ZoneId.beach = beach_zone
get_zone ZoneId.crab = crab_zone
get_zone ZoneId.parrot = parrot_zone
get_zone ZoneId.broadcast = broadcast_zone
