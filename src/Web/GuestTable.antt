-- ===== src/Web/GuestTable.antt =====
-- frontend/src/data/guests.json: the guests that a visitor can choose from.
use faf_hackathon_challenge.Prelude.{true, false, List, [], ◌∷◌}
use faf_hackathon_challenge.Web.Types.{GuestProfile, GuestPassport, GuestPriority}

abbrev mango_miles : GuestProfile
mango_miles = record {
  id = "mango-miles";
  name = "Miles";
  surname = "Mango";
  age = 34;
  passport = GuestPassport.eu;
  priority = GuestPriority.standard;
  disability = false;
  avatar = "mango-miles.png";
  personality = "Always books the earliest beach yoga slot.";
}

abbrev luna_lagoon : GuestProfile
luna_lagoon = record {
  id = "luna-lagoon";
  name = "Luna";
  surname = "Lagoon";
  age = 29;
  passport = GuestPassport.non_eu;
  priority = GuestPriority.fast;
  disability = false;
  avatar = "luna-lagoon.png";
  personality = "Collects seashells and airport lounge snacks.";
}

abbrev coral_reef : GuestProfile
coral_reef = record {
  id = "coral-reef";
  name = "Coral";
  surname = "Reef";
  age = 42;
  passport = GuestPassport.non_eu;
  priority = GuestPriority.standard;
  disability = true;
  avatar = "coral-reef.png";
  personality = "Knows every accessible path through the resort.";
}

abbrev solana_breeze : GuestProfile
solana_breeze = record {
  id = "solana-breeze";
  name = "Solana";
  surname = "Breeze";
  age = 25;
  passport = GuestPassport.eu;
  priority = GuestPriority.standard;
  disability = false;
  avatar = "solana-breeze.png";
  personality = "Plans every activity around the sunset.";
}

abbrev palm_pierce : GuestProfile
palm_pierce = record {
  id = "palm-pierce";
  name = "Pierce";
  surname = "Palm";
  age = 51;
  passport = GuestPassport.eu;
  priority = GuestPriority.fast;
  disability = false;
  avatar = "palm-pierce.png";
  personality = "Asks every parrot for investment advice.";
}

abbrev marina_shells : GuestProfile
marina_shells = record {
  id = "marina-shells";
  name = "Marina";
  surname = "Shells";
  age = 37;
  passport = GuestPassport.eu;
  priority = GuestPriority.standard;
  disability = false;
  avatar = "marina-shells.png";
  personality = "Rates hotels by pillow softness and juice quality.";
}

abbrev captain_coconut : GuestProfile
captain_coconut = record {
  id = "captain-coconut";
  name = "Cody";
  surname = "Coconut";
  age = 46;
  passport = GuestPassport.eu;
  priority = GuestPriority.standard;
  disability = false;
  avatar = "captain-coconut.png";
  personality = "Insists he can navigate by palm tree shadows.";
}

abbrev talia_tide : GuestProfile
talia_tide = record {
  id = "talia-tide";
  name = "Talia";
  surname = "Tide";
  age = 31;
  passport = GuestPassport.eu;
  priority = GuestPriority.standard;
  disability = false;
  avatar = "talia-tide.png";
  personality = "Cancels beach plans only for better beach plans.";
}

abbrev reef_rivers : GuestProfile
reef_rivers = record {
  id = "reef-rivers";
  name = "Reef";
  surname = "Rivers";
  age = 68;
  passport = GuestPassport.eu;
  priority = GuestPriority.standard;
  disability = true;
  avatar = "reef-rivers.png";
  personality = "Keeps a handwritten map of every quiet corner.";
}

abbrev pub guests : List GuestProfile
guests =
    mango_miles ∷ luna_lagoon ∷ coral_reef ∷ solana_breeze ∷ palm_pierce ∷ marina_shells
    ∷ captain_coconut ∷ talia_tide ∷ reef_rivers ∷ []
