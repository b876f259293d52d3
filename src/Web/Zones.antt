-- ===== src/Web/Zones.antt =====
-- frontend/src/features/map: the zones' markers and panels, and what each panel shows
-- (features/*/components/*-panel.tsx) by the session, the guest's arrival and their reservation.
use faf_hackathon_challenge.Prelude.{
  String, Bool, true, false, not, ◌&&◌, ◌||◌, Option, none, some, List, select, if◌then◌else◌,
  str_eq,
}
use faf_hackathon_challenge.Values.Text.{strip_prefix}
use faf_hackathon_challenge.Web.Types.{GuestProfile, BroadcastEvent}
use faf_hackathon_challenge.Web.Session.{AppSession, SessionState, session_is_admin}

pub data ZoneId : Type 0 where
  airport hotel beach crab parrot broadcast : ZoneId

-- What the queries have loaded, by the guest's id: the arrival's status, the guest's reservation, and
-- whether the reservation is still being loaded.
pub record Loaded : Type 0 where
  pub arrival_status : String → Option String
  pub reservation : String → Option String
  pub reservation_loading : String → Bool

-- A query for a guest is disabled without one, and then has no data and does not load.
abbrev pub use_arrival_status : Loaded → Option GuestProfile → Option String
use_arrival_status q none = none
use_arrival_status q (some guest) = q.arrival_status guest.id

abbrev is_processed : Option String → Bool
is_processed none = false
is_processed (some status) = str_eq status "processed"

unfoldable pub use_landed : Loaded → SessionState → Bool
use_landed q s = is_processed (use_arrival_status q s.guest)

abbrev pub active_reservation : Loaded → Option GuestProfile → Option String
active_reservation q none = none
active_reservation q (some guest) = q.reservation guest.id

abbrev pub is_loading : Loaded → Option GuestProfile → Bool
is_loading q none = false
is_loading q (some guest) = q.reservation_loading guest.id

abbrev pub is_present : Option String → Bool
is_present none = false
is_present (some r) = true

unfoldable pub use_checked_in : Loaded → SessionState → Bool
use_checked_in q s =
    if is_loading q s.guest then false else is_present (active_reservation q s.guest)

-- `useIsAdmin`
abbrev pub use_is_admin : SessionState → Bool
use_is_admin s = session_is_admin s.session

abbrev pub is_airport : ZoneId → Bool
is_airport airport = true
is_airport _ = false

abbrev pub is_beach : ZoneId → Bool
is_beach beach = true
is_beach _ = false

abbrev pub is_broadcast : ZoneId → Bool
is_broadcast broadcast = true
is_broadcast _ = false

-- The marker's lock.
unfoldable pub is_locked : Loaded → SessionState → ZoneId → Bool
is_locked q s id =
    let needs_landing = not (is_airport id) in
    let needs_checkin = is_beach id in
    let is_locked_for_guest =
      (needs_landing && not (use_landed q s)) || (needs_checkin && not (use_checked_in q s)) in
    not (use_is_admin s) && is_locked_for_guest

-- What a panel shows.
pub data PanelContent : Type 0 where
  admin_summary blank not_landed_gate not_checked_in_gate spinner : PanelContent
  arrival_card boarding_form reservation_card reservation_form activities menu chat : PanelContent
  -- with the composer or without
  announcements : Bool → List BroadcastEvent → PanelContent

abbrev pub airport_panel : Loaded → SessionState → PanelContent
airport_panel q s =
    if use_is_admin s
    then admin_summary
    else if is_present (use_arrival_status q s.guest)
    then arrival_card
    else boarding_form

abbrev hotel_for : Bool → Bool → Option String → Option GuestProfile → PanelContent
hotel_for landed loading reservation none = blank
hotel_for landed loading reservation (some guest) =
    if not landed
    then not_landed_gate
    else if loading
    then spinner
    else if is_present reservation
    then reservation_card
    else reservation_form

abbrev pub hotel_panel : Loaded → SessionState → PanelContent
hotel_panel q s =
    if use_is_admin s
    then admin_summary
    else hotel_for (use_landed q s) (is_loading q s.guest) (active_reservation q s.guest) s.guest

abbrev pub beach_panel : Loaded → SessionState → PanelContent
beach_panel q s =
    if use_is_admin s
    then admin_summary
    else if not (use_landed q s)
    then not_landed_gate
    else if not (use_checked_in q s)
    then not_checked_in_gate
    else activities

abbrev has_guest : Option GuestProfile → Bool
has_guest none = false
has_guest (some guest) = true

abbrev pub crab_panel : Loaded → SessionState → PanelContent
crab_panel q s =
    if use_is_admin s
    then admin_summary
    else if not (use_landed q s) || not (has_guest s.guest)
    then not_landed_gate
    else menu

abbrev pub parrot_panel : Loaded → SessionState → PanelContent
parrot_panel q s =
    if use_is_admin s
    then admin_summary
    else if has_guest s.guest && not (use_landed q s)
    then not_landed_gate
    else chat

abbrev is_stripped : Option String → Bool
is_stripped none = false
is_stripped (some rest) = true

abbrev pub is_visible_to_guests : BroadcastEvent → Bool
is_visible_to_guests event =
    is_stripped (strip_prefix "public." event.event_type)
    || str_eq event.event_type "admin.announcement"

abbrev pub broadcast_panel : List BroadcastEvent → SessionState → PanelContent
broadcast_panel events s =
    announcements (use_is_admin s)
      (if use_is_admin s then events else select is_visible_to_guests events)

-- `ZonePanelContent`, with the feed of the broadcast zone.
unfoldable pub zone_panel_content :
    List BroadcastEvent → Loaded → SessionState → ZoneId → PanelContent
zone_panel_content events q s airport = airport_panel q s
zone_panel_content events q s hotel = hotel_panel q s
zone_panel_content events q s beach = beach_panel q s
zone_panel_content events q s crab = crab_panel q s
zone_panel_content events q s parrot = parrot_panel q s
zone_panel_content events q s broadcast = broadcast_panel events s

abbrev pub is_gate : PanelContent → Bool
is_gate not_landed_gate = true
is_gate not_checked_in_gate = true
is_gate _ = false

-- `RequireSession`: whether the page is shown, instead of the way back to the start.
abbrev pub require_session : Option AppSession → Bool
require_session none = false
require_session (some session) = true
