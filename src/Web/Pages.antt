-- ===== src/Web/Pages.antt =====
-- frontend/src/app/router.tsx and the pages behind it: who may log in, and where a session leads
-- (features/guest-selection, features/map/pages, features/map/components/guest-hud.tsx).
use faf_hackathon_challenge.Prelude.{
  String, not, Option, none, some, List, [], ◌∷◌, if◌then◌else◌, str_eq, truthy,
}
use faf_hackathon_challenge.Values.Text.{trim}
use faf_hackathon_challenge.Web.Types.{GuestProfile}
use faf_hackathon_challenge.Web.Session.{
  SessionState, PersistedSessionState, act, select_guest, login_admin, clear_session, clear_guest,
  reload, migrate_session_state,
}
use faf_hackathon_challenge.Web.Zones.{require_session}

-- What the admin's form comes to: a message under its field, or `onLogin` with a passcode.
pub data LoginOutcome : Type 0 where
  enter_passcode not_configured wrong_passcode : LoginOutcome
  logged_in : String → LoginOutcome

-- `handleSubmit` of the card, with `ADMIN_PASSCODE`
unfoldable pub handle_submit : String → String → LoginOutcome
handle_submit admin_passcode passcode =
    if not (truthy admin_passcode)
    then not_configured
    else if not (str_eq passcode admin_passcode)
    then wrong_passcode
    else logged_in passcode

-- The form with its resolver, `z.string().trim().min(1)`
unfoldable pub submit_login : String → String → LoginOutcome
unfolding handle_submit
submit_login admin_passcode input =
    if truthy (trim input) then handle_submit admin_passcode (trim input) else enter_passcode

-- The paths of the router.
pub data RoutePath : Type 0 where
  start map quit : RoutePath

pub record App : Type 0 where
  pub path : RoutePath
  pub session : SessionState
  pub login_error : Option LoginOutcome

-- What is mounted at a path: `RequireSession` sends back to the start, the quit page clears the guest.
abbrev pub mount_at : RoutePath → App → App
mount_at start app = record app { path = start; login_error = none }
mount_at map app = record app {
  path = if require_session app.session.session then map else start;
  login_error = none;
}
mount_at quit app = record app {
  path = quit;
  session = act clear_guest app.session;
  login_error = none;
}

abbrev pub handle_select_guest : GuestProfile → App → App
handle_select_guest guest app =
    mount_at map (record app { session = act (select_guest guest) app.session })

abbrev pub handle_admin_login : String → App → App
handle_admin_login passcode app =
    mount_at map
      (record app { session = act (login_admin passcode (some "Admin Observer")) app.session })

abbrev pub after_login : LoginOutcome → App → App
after_login (logged_in passcode) app = handle_admin_login passcode app
after_login enter_passcode app = record app { login_error = some enter_passcode }
after_login not_configured app = record app { login_error = some not_configured }
after_login wrong_passcode app = record app { login_error = some wrong_passcode }

abbrev pub handle_switch_session : App → App
handle_switch_session app = mount_at start (record app { session = act clear_session app.session })

abbrev pub handle_quit : App → App
handle_quit app = mount_at quit app

-- What a visitor does: at the start, on the map, and anywhere by the history, and by the address
-- bar, which loads a new page.
pub data Visit : Type 0 where
  chooses : GuestProfile → Visit
  logs_in : String → Visit
  switches quits : Visit
  goes opens : RoutePath → Visit

-- A control acts where it is shown.
abbrev pub visit_at : String → Visit → RoutePath → App → App
visit_at admin_passcode (chooses guest) start app = handle_select_guest guest app
visit_at admin_passcode (chooses guest) _ app = app
visit_at admin_passcode (logs_in input) start app =
    after_login (submit_login admin_passcode input) app
visit_at admin_passcode (logs_in input) _ app = app
visit_at admin_passcode switches map app = handle_switch_session app
visit_at admin_passcode switches _ app = app
visit_at admin_passcode quits map app = handle_quit app
visit_at admin_passcode quits _ app = app
visit_at admin_passcode (goes path) _ app = mount_at path app
visit_at admin_passcode (opens path) _ app =
    mount_at path (record app { session = act reload app.session })

unfoldable pub visit : String → Visit → App → App
visit admin_passcode v app = visit_at admin_passcode v app.path app

unfoldable pub visit_all : String → List Visit → App → App
unfolding visit
visit_all admin_passcode [] app = app
visit_all admin_passcode (v ∷ vs) app = visit_all admin_passcode vs (visit admin_passcode v app)

-- A new tab, at a path, with what the storage holds.
abbrev pub open_tab : Option PersistedSessionState → RoutePath → App
open_tab persisted path =
    mount_at path
      (record { path = path; session = migrate_session_state persisted; login_error = none })
