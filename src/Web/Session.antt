-- ===== src/Web/Session.antt =====
-- frontend/src/stores/session-store.ts and session-selectors.ts: who is logged in, and how the
-- session survives a reload.
use faf_hackathon_challenge.Prelude.{
  String, Bool, true, false, ◌≡◌, refl, Option, none, some, List, [], ◌∷◌, or_else, ap, sym, ◌∙◌,
}
use faf_hackathon_challenge.Web.Types.{GuestProfile}

pub data AppSession : Type 0 where
  guest_session : GuestProfile → AppSession
  -- the display name and the passcode
  admin_session : String → String → AppSession

-- The session that a store of this or of an older version has persisted.
pub record PersistedSessionState : Type 0 where
  pub session : Option AppSession
  pub guest : Option GuestProfile

pub record SessionState : Type 0 where
  pub session : Option AppSession
  pub guest : Option GuestProfile
  pub is_admin : Bool

abbrev pub empty_session_state : SessionState
empty_session_state = record { session = none; guest = none; is_admin = false }

unfoldable pub guest_session_state : GuestProfile → SessionState
guest_session_state guest = record {
  session = some (guest_session guest);
  guest = some guest;
  is_admin = false;
}

unfoldable pub admin_session_state : String → String → SessionState
admin_session_state display_name passcode = record {
  session = some (admin_session display_name passcode);
  guest = none;
  is_admin = true;
}

abbrev pub derive_guest : Option AppSession → Option GuestProfile
derive_guest none = none
derive_guest (some (guest_session guest)) = some guest
derive_guest (some (admin_session name passcode)) = none

abbrev pub is_admin_role : AppSession → Bool
is_admin_role (guest_session guest) = false
is_admin_role (admin_session name passcode) = true

abbrev migrate_guest : Option GuestProfile → SessionState
migrate_guest none = empty_session_state
migrate_guest (some guest) = guest_session_state guest

abbrev migrate_parts : Option AppSession → Option GuestProfile → SessionState
migrate_parts none guest = migrate_guest guest
migrate_parts (some session) guest = record {
  session = some session;
  guest = derive_guest (some session);
  is_admin = is_admin_role session;
}

-- `none` is a persisted value that is null or absent.
unfoldable pub migrate_session_state : Option PersistedSessionState → SessionState
unfolding guest_session_state
migrate_session_state none = empty_session_state
migrate_session_state (some state) = migrate_parts state.session state.guest

-- `partialize`: the persisted part of the state.
unfoldable pub partialize : SessionState → PersistedSessionState
partialize state = record { session = state.session; guest = none }

-- `merge`: the migrated fields replace the current ones.
unfoldable pub merge : Option PersistedSessionState → SessionState → SessionState
unfolding migrate_session_state
merge persisted current = migrate_session_state persisted

pub data SessionAction : Type 0 where
  select_guest : GuestProfile → SessionAction
  -- the passcode, and the display name if one is given
  login_admin : String → Option String → SessionAction
  clear_session clear_guest reload : SessionAction

-- `reload` stands for a new page that takes the state from the session storage.
unfoldable pub act : SessionAction → SessionState → SessionState
unfolding guest_session_state admin_session_state merge partialize
act (select_guest guest) state = guest_session_state guest
act (login_admin passcode display_name) state =
    admin_session_state (or_else display_name "Admin") passcode
act clear_session state = empty_session_state
act clear_guest state = empty_session_state
act reload state = merge (some (partialize state)) empty_session_state

unfoldable pub act_all : List SessionAction → SessionState → SessionState
act_all [] state = state
act_all (a ∷ more) state = act_all more (act a state)

abbrev pub session_is_admin : Option AppSession → Bool
session_is_admin none = false
session_is_admin (some session) = is_admin_role session

-- The guest and the administrator's flag are those of the session.
pub record IsCoherent (state : SessionState) : Type 0 where
  pub guest : state.guest ≡ derive_guest state.session
  pub admin : state.is_admin ≡ session_is_admin state.session

pub migrate_session_state-IsCoherent :
    (persisted : Option PersistedSessionState) → IsCoherent (migrate_session_state persisted)
unfolding migrate_session_state
migrate_session_state-IsCoherent none = record { guest = refl; admin = refl }
migrate_session_state-IsCoherent (some state) = parts state.session state.guest
  where
    parts : (s : Option AppSession) (g : Option GuestProfile) → IsCoherent (migrate_parts s g)
    parts none none = record { guest = refl; admin = refl }
    parts none (some g) = record { guest = refl; admin = refl }
    parts (some s) g = record { guest = refl; admin = refl }

pub act-IsCoherent :
    (a : SessionAction) (state : SessionState) → IsCoherent state → IsCoherent (act a state)
unfolding act
act-IsCoherent (select_guest guest) state h = record { guest = refl; admin = refl }
act-IsCoherent (login_admin passcode name) state h = record { guest = refl; admin = refl }
act-IsCoherent clear_session state h = record { guest = refl; admin = refl }
act-IsCoherent clear_guest state h = record { guest = refl; admin = refl }
act-IsCoherent reload state h = migrate_session_state-IsCoherent (some (partialize state))

act_all-IsCoherent_from :
    (acts : List SessionAction) (state : SessionState)
    → IsCoherent state
    → IsCoherent (act_all acts state)
unfolding act_all
act_all-IsCoherent_from [] state h = h
act_all-IsCoherent_from (a ∷ acts) state h =
    act_all-IsCoherent_from acts (act a state) (act-IsCoherent a state h)

-- Whatever was persisted before, and whatever is done afterwards, logins, logouts and reloads, the
-- store's guest is the session's guest, and its administrator's flag is set exactly in an
-- administrator's session.
pub act_all-IsCoherent :
    (persisted : Option PersistedSessionState) (acts : List SessionAction)
    → IsCoherent (act_all acts (migrate_session_state persisted))
act_all-IsCoherent persisted acts =
    act_all-IsCoherent_from acts (migrate_session_state persisted)
      (migrate_session_state-IsCoherent persisted)

-- A reload gives a coherent state back as it was: what is persisted of the session is enough.
pub act-reload : (state : SessionState) → IsCoherent state → act reload state ≡ state
unfolding act
act-reload state h = restored state.session refl
  where
    restored : (s : Option AppSession) → s ≡ state.session → migrate_parts s none ≡ state
    restored none e = λ i. record {
      session = e i;
      guest = (ap derive_guest e ∙ sym h.guest) i;
      is_admin = (ap session_is_admin e ∙ sym h.admin) i;
    }
    restored (some s) e = λ i. record {
      session = e i;
      guest = (ap derive_guest e ∙ sym h.guest) i;
      is_admin = (ap session_is_admin e ∙ sym h.admin) i;
    }
