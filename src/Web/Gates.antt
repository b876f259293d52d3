-- ===== src/Web/Gates.antt =====
-- The markers on the map against the panels behind them.
use mathlib.Core.Path.{ap₂}
use faf_hackathon_challenge.Prelude.{
  true, not, ◌&&◌, ◌≡◌, refl, sym, subst, Option, none, some, List, arith,
}
use faf_hackathon_challenge.Web.Types.{BroadcastEvent}
use faf_hackathon_challenge.Web.Session.{
  AppSession, guest_session, admin_session, SessionState, IsCoherent, session_is_admin,
  derive_guest, act_all, SessionAction, migrate_session_state, PersistedSessionState,
  act_all-IsCoherent,
}
use faf_hackathon_challenge.Web.Zones.{
  ZoneId, airport, hotel, beach, crab, parrot, broadcast, Loaded, is_locked, is_broadcast,
  zone_panel_content, is_gate, require_session,
}

-- A coherent state, rebuilt from its session.
abbrev state_of : Option AppSession → SessionState
state_of session = record {
  session = session;
  guest = derive_guest session;
  is_admin = session_is_admin session;
}

coherent-state_of : (s : SessionState) → IsCoherent s → s ≡ state_of s.session
coherent-state_of s h =
    ap₂ (λ g a. record { session = s.session; guest = g; is_admin = a }) h.guest h.admin

gate-locked_of :
    (events : List BroadcastEvent) (q : Loaded) (session : Option AppSession) (z : ZoneId)
    → require_session session ≡ true
    → is_gate (zone_panel_content events q (state_of session) z)
      ≡ (is_locked q (state_of session) z && not (is_broadcast z))
unfolding is_locked zone_panel_content
gate-locked_of events q none z h = cc
gate-locked_of events q (some (admin_session name passcode)) airport h = refl
gate-locked_of events q (some (admin_session name passcode)) hotel h = refl
gate-locked_of events q (some (admin_session name passcode)) beach h = refl
gate-locked_of events q (some (admin_session name passcode)) crab h = refl
gate-locked_of events q (some (admin_session name passcode)) parrot h = refl
gate-locked_of events q (some (admin_session name passcode)) broadcast h = refl
gate-locked_of events q (some (guest_session g)) airport h = ground arith
gate-locked_of events q (some (guest_session g)) hotel h = ground arith
gate-locked_of events q (some (guest_session g)) beach h = ground arith
gate-locked_of events q (some (guest_session g)) crab h = ground arith
gate-locked_of events q (some (guest_session g)) parrot h = ground arith
gate-locked_of events q (some (guest_session g)) broadcast h = ground arith

-- Whatever was persisted and done to the session, on a page that is shown, a zone's panel is a gate,
-- for the landing or for the check-in, exactly where the zone's marker has its lock; except for the
-- broadcast zone, whose panel is no gate although its marker is locked for a guest not landed.
pub gate-locked :
    (events : List BroadcastEvent) (q : Loaded) (persisted : Option PersistedSessionState)
    (acts : List SessionAction) (z : ZoneId)
    → require_session (act_all acts (migrate_session_state persisted)).session ≡ true
    → let s = act_all acts (migrate_session_state persisted) in
      is_gate (zone_panel_content events q s z) ≡ (is_locked q s z && not (is_broadcast z))
gate-locked events q persisted acts z h =
    let s = act_all acts (migrate_session_state persisted) in
    subst
      (λ t. is_gate (zone_panel_content events q t z) ≡ (is_locked q t z && not (is_broadcast z)))
      (sym (coherent-state_of s (act_all-IsCoherent persisted acts)))
      (gate-locked_of events q s.session z h)
