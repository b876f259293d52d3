-- ===== src/Web/Admission.antt =====
-- Which sessions the pages of Web/Pages.antt can lead to.
use faf_hackathon_challenge.Prelude.{
  String, true, ◌≡◌, refl, ◌↔◌, ◌∙◌, sym, subst, Option, none, some, List, [], ◌∷◌, arith, eq_iff,
  eq_refl, truthy,
}
use faf_hackathon_challenge.Values.Text.{trim}
use faf_hackathon_challenge.Values.Trim.{trim_idempotent}
use faf_hackathon_challenge.Web.Types.{GuestProfile}
use faf_hackathon_challenge.Web.Session.{
  AppSession, admin_session, SessionState, act, reload, IsCoherent, migrate_session_state,
  guest_session_state, admin_session_state, migrate_session_state-IsCoherent, act-IsCoherent,
  act-reload, select_guest, login_admin, clear_session, clear_guest,
}
use faf_hackathon_challenge.Web.Zones.{require_session}
use faf_hackathon_challenge.Web.Pages.{
  LoginOutcome, enter_passcode, not_configured, wrong_passcode, logged_in, handle_submit,
  submit_login, RoutePath, start, map, quit, App, mount_at, handle_select_guest,
  handle_switch_session, after_login, Visit, chooses, logs_in, switches, quits, goes, opens,
  visit_at, visit, visit_all, open_tab,
}

-- A passcode that opens the admin's session: the configured one, as it is once trimmed.
pub record IsPasscode (admin_passcode passcode : String) : Type 0 where
  pub configured : passcode ≡ admin_passcode
  pub nonempty : truthy admin_passcode ≡ true
  pub trimmed : trim admin_passcode ≡ admin_passcode

submit_login-IsPasscode :
    (admin_passcode input passcode : String)
    → submit_login admin_passcode input ≡ logged_in passcode
    → IsPasscode admin_passcode passcode
unfolding submit_login handle_submit
submit_login-IsPasscode admin_passcode input passcode h =
    let typed : trim input ≡ passcode = ground arith in
    let equal : trim input ≡ admin_passcode = ground (arith, eq_iff (trim input) admin_passcode) in
    record {
      configured = sym typed ∙ equal;
      nonempty = ground arith;
      trimmed = subst (λ s. trim s ≡ s) equal (trim_idempotent input);
    }

-- Some input logs an administrator in exactly if a passcode is configured that has no white space at
-- its ends.
submit_login_iff :
    (admin_passcode : String)
    → ((input : String) × (submit_login admin_passcode input ≡ logged_in admin_passcode))
      ↔ ((truthy admin_passcode ≡ true) × (trim admin_passcode ≡ admin_passcode))
unfolding submit_login handle_submit
submit_login_iff admin_passcode = (
  λ (input, h).
      let p = submit_login-IsPasscode admin_passcode input admin_passcode h in
      (p.nonempty, p.trimmed),
  λ (nonempty, trimmed). (admin_passcode, rw (trimmed, nonempty, eq_refl admin_passcode) refl),
)

-- An administrator's session holds the passcode.
abbrev pub IsEarned : String → Option AppSession → Type 0
IsEarned admin_passcode session =
    (name passcode : String)
    → session ≡ some (admin_session name passcode)
    → IsPasscode admin_passcode passcode

pub record IsAdmitted (admin_passcode : String) (app : App) : Type 0 where
  pub coherent : IsCoherent app.session
  pub earned : IsEarned admin_passcode app.session.session
  pub on_map : app.path ≡ map → require_session app.session.session ≡ true
  pub on_quit : app.path ≡ quit → app.session.session ≡ none

cleared_session : (s : SessionState) → (act clear_guest s).session ≡ none
unfolding act
cleared_session s = refl

cleared-IsEarned :
    (admin_passcode : String) (s : SessionState)
    → IsEarned admin_passcode (act clear_guest s).session
unfolding act
cleared-IsEarned admin_passcode s = λ name passcode e. cc

mount_at-IsAdmitted :
    (admin_passcode : String) (path : RoutePath) (app : App)
    → IsCoherent app.session
    → IsEarned admin_passcode app.session.session
    → IsAdmitted admin_passcode (mount_at path app)
mount_at-IsAdmitted admin_passcode start app c e = record {
  coherent = c;
  earned = e;
  on_map = λ h. cc;
  on_quit = λ h. cc;
}
mount_at-IsAdmitted admin_passcode map app c e = record {
  coherent = c;
  earned = e;
  on_map = λ h. ground arith;
  on_quit = λ h. ground arith;
}
mount_at-IsAdmitted admin_passcode quit app c e = record {
  coherent = act-IsCoherent clear_guest app.session c;
  earned = cleared-IsEarned admin_passcode app.session;
  on_map = λ h. cc;
  on_quit = λ h. cleared_session app.session;
}

module _ (admin_passcode : String) where
  selected-IsAdmitted :
      (guest : GuestProfile) (app : App)
      → IsAdmitted admin_passcode app
      → IsAdmitted admin_passcode (handle_select_guest guest app)
  unfolding act guest_session_state
  selected-IsAdmitted guest app h =
      mount_at-IsAdmitted admin_passcode map
        (record app { session = act (select_guest guest) app.session })
        (act-IsCoherent (select_guest guest) app.session h.coherent) (λ name passcode e. cc)

  after_login-IsAdmitted :
      (o : LoginOutcome) (app : App)
      → ((passcode : String) → o ≡ logged_in passcode → IsPasscode admin_passcode passcode)
      → IsAdmitted admin_passcode app
      → IsAdmitted admin_passcode (after_login o app)
  unfolding act admin_session_state
  after_login-IsAdmitted (logged_in passcode) app p h =
      mount_at-IsAdmitted admin_passcode map
        (record app { session = act (login_admin passcode (some "Admin Observer")) app.session })
        (act-IsCoherent (login_admin passcode (some "Admin Observer")) app.session h.coherent)
        (λ name held e. p held (ground arith))
  after_login-IsAdmitted enter_passcode app p h = record {
    coherent = h.coherent;
    earned = h.earned;
    on_map = h.on_map;
    on_quit = h.on_quit;
  }
  after_login-IsAdmitted not_configured app p h = record {
    coherent = h.coherent;
    earned = h.earned;
    on_map = h.on_map;
    on_quit = h.on_quit;
  }
  after_login-IsAdmitted wrong_passcode app p h = record {
    coherent = h.coherent;
    earned = h.earned;
    on_map = h.on_map;
    on_quit = h.on_quit;
  }

  switched-IsAdmitted :
      (app : App)
      → IsAdmitted admin_passcode app
      → IsAdmitted admin_passcode (handle_switch_session app)
  unfolding act
  switched-IsAdmitted app h =
      mount_at-IsAdmitted admin_passcode start
        (record app { session = act clear_session app.session })
        (act-IsCoherent clear_session app.session h.coherent) (λ name passcode e. cc)

  visit_at-IsAdmitted :
      (v : Visit) (path : RoutePath) (app : App)
      → IsAdmitted admin_passcode app
      → IsAdmitted admin_passcode (visit_at admin_passcode v path app)
  visit_at-IsAdmitted (chooses guest) start app h = selected-IsAdmitted guest app h
  visit_at-IsAdmitted (chooses guest) map app h = h
  visit_at-IsAdmitted (chooses guest) quit app h = h
  visit_at-IsAdmitted (logs_in input) start app h =
      after_login-IsAdmitted (submit_login admin_passcode input) app
        (submit_login-IsPasscode admin_passcode input) h
  visit_at-IsAdmitted (logs_in input) map app h = h
  visit_at-IsAdmitted (logs_in input) quit app h = h
  visit_at-IsAdmitted switches start app h = h
  visit_at-IsAdmitted switches map app h = switched-IsAdmitted app h
  visit_at-IsAdmitted switches quit app h = h
  visit_at-IsAdmitted quits start app h = h
  visit_at-IsAdmitted quits map app h =
      mount_at-IsAdmitted admin_passcode quit app h.coherent h.earned
  visit_at-IsAdmitted quits quit app h = h
  visit_at-IsAdmitted (goes path) at app h =
      mount_at-IsAdmitted admin_passcode path app h.coherent h.earned
  visit_at-IsAdmitted (opens path) at app h =
      mount_at-IsAdmitted admin_passcode path (record app { session = act reload app.session })
        (act-IsCoherent reload app.session h.coherent)
        (subst (λ (s : SessionState). IsEarned admin_passcode s.session)
          (sym (act-reload app.session h.coherent)) h.earned)

  visit_all-IsAdmitted :
      (vs : List Visit) (app : App)
      → IsAdmitted admin_passcode app
      → IsAdmitted admin_passcode (visit_all admin_passcode vs app)
  unfolding visit_all visit
  visit_all-IsAdmitted [] app h = h
  visit_all-IsAdmitted (v ∷ vs) app h =
      visit_all-IsAdmitted vs (visit admin_passcode v app) (visit_at-IsAdmitted v app.path app h)

  -- Whatever a visitor does from a new tab whose storage is empty, the map is shown to sessions only,
  -- nobody is logged in on the page for those who quit, and an administrator's session holds the
  -- configured passcode, which is not empty and has no white space at its ends.
  pub visits-IsAdmitted :
      (vs : List Visit) (path : RoutePath)
      → IsAdmitted admin_passcode (visit_all admin_passcode vs (open_tab none path))
  unfolding migrate_session_state
  visits-IsAdmitted vs path = visit_all-IsAdmitted vs (open_tab none path) (
      mount_at-IsAdmitted admin_passcode path
        (record { path = path; session = migrate_session_state none; login_error = none })
        (migrate_session_state-IsCoherent none) (λ name passcode e. cc))
