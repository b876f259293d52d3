-- ===== src/Island/PageExamples.antt =====
-- An administrator who mistypes the passcode once, and announces something.
use faf_hackathon_challenge.Prelude.{
  ◌≡◌, refl, Bool, false, ltb, length, String, none, some, List, [], ◌∷◌, if◌then◌else◌, str_eq,
}
use faf_hackathon_challenge.Values.{Value, str, obj, member, no_members}
use faf_hackathon_challenge.Values.CodeUnits.{code_units}
use faf_hackathon_challenge.Values.Text.{trim, trim_start, trim_end, is_space}
use faf_hackathon_challenge.Values.Schema.{plain_zod}
use faf_hackathon_challenge.Hub.Types.{ChannelId, IslandEvent}
use faf_hackathon_challenge.Hub.ServiceAuth.{Env}
use faf_hackathon_challenge.Hub.EventBus.{start, broadcast}
use faf_hackathon_challenge.Hub.Routes.{admin_announcement, published}
use faf_hackathon_challenge.Web.Session.{
  act, migrate_session_state, guest_session_state, admin_session_state, merge, partialize,
}
use faf_hackathon_challenge.Web.Pages.{
  RoutePath, Visit, logs_in, opens, submit_login, handle_submit, visit, visit_all, open_tab,
}
use faf_hackathon_challenge.Web.Admission.{IsAdmitted, visits-IsAdmitted}
use faf_hackathon_challenge.Web.Announcements.{submit_announcement, posted}
use faf_hackathon_challenge.Island.Announcements.{
  announcement_request, taken_post, announcement-broadcast,
}

abbrev visits : List Visit
visits = logs_in "letmein" ∷ logs_in " secret " ∷ opens RoutePath.map ∷ []

abbrev env : Env
env = λ name. if str_eq name "ADMIN_PASSCODE" then some "secret" else none

-- A parser that goes by the length of the one text in a body.
abbrev small_message : Value → Bool
small_message (obj (member key (str text) no_members)) = ltb (length (code_units text)) 100000
small_message _ = false

visits-IsAdmitted_example :
    IsAdmitted "secret" (visit_all "secret" visits (open_tab none RoutePath.map))
visits-IsAdmitted_example = visits-IsAdmitted "secret" visits RoutePath.map

announcement-broadcast_example :
    (passcode : String) × (submit_announcement
        (visit_all "secret" visits (open_tab none RoutePath.map)).session.session
        " hello "
      ≡ posted (trim " hello ") passcode)
    × (e : IslandEvent) × (taken_post small_message plain_zod env "e7" admin_announcement
          (announcement_request (trim " hello ") passcode)
          start
        ≡ some (published, broadcast e start))
    × (e.id ≡ "e7")
    × (e.channel ≡ ChannelId.resort_wide)
    × (e.message ≡ trim " hello ")
unfolding visit_all visit submit_login handle_submit act migrate_session_state guest_session_state
    admin_session_state merge partialize trim trim_start trim_end is_space code_units
announcement-broadcast_example =
    announcement-broadcast small_message plain_zod env "e7" start "secret" visits RoutePath.map
      " hello " refl refl refl refl
