-- ===== src/Web/PanelExamples.antt =====
-- A guest who has landed and has no room, and an error of a service that validates its input.
use faf_hackathon_challenge.Prelude.{
  ◌≡◌, refl, String, false, not, ◌&&◌, none, some, [], ◌∷◌, str_eq, if◌then◌else◌,
}
use faf_hackathon_challenge.Values.{
  Value, str, obj, arr, member, no_members, element, no_elements, get,
}
use faf_hackathon_challenge.Web.Types.{GuestProfile, GuestPassport, GuestPriority}
use faf_hackathon_challenge.Web.Session.{
  SessionState, select_guest, reload, act, act_all, migrate_session_state, guest_session_state,
  merge, partialize,
}
use faf_hackathon_challenge.Web.Zones.{
  ZoneId, Loaded, is_locked, is_broadcast, zone_panel_content, is_gate,
}
use faf_hackathon_challenge.Web.Gates.{gate-locked}
use faf_hackathon_challenge.Web.ApiErrors.{get_error_message, extract_field}

abbrev kiki : GuestProfile
kiki = record {
  id = "kiki";
  name = "Kiki";
  surname = "Cat";
  age = 3;
  passport = GuestPassport.eu;
  priority = GuestPriority.standard;
  disability = false;
  avatar = "kiki.png";
  personality = "curious";
}

abbrev loaded : Loaded
loaded = record {
  arrival_status = λ id. if str_eq id "kiki" then some "processed" else none;
  reservation = λ id. none;
  reservation_loading = λ id. false;
}

abbrev logged_in : SessionState
logged_in = act_all (select_guest kiki ∷ reload ∷ []) (migrate_session_state none)

gate-locked_example :
    is_gate (zone_panel_content [] loaded logged_in ZoneId.beach)
    ≡ (is_locked loaded logged_in ZoneId.beach && not (is_broadcast ZoneId.beach))
unfolding act_all act migrate_session_state guest_session_state merge partialize
gate-locked_example = gate-locked [] loaded none (select_guest kiki ∷ reload ∷ []) ZoneId.beach refl

abbrev to_text : Value → String
to_text (str s) = s
to_text _ = "value"

abbrev body : Value
body = obj (
    member "detail"
      (arr (
        element (obj (member "msg" (str "field required") no_members))
          (element (str "x") no_elements)))
      no_members)

message_test : get_error_message to_text body "" ≡ "field required; x"
unfolding get_error_message extract_field get
message_test = refl
