-- ===== src/Web/Announcements.antt =====
-- The composer of the broadcast panel: announcement-composer.tsx and use-post-announcement.ts of
-- frontend/src/features/broadcast.
use faf_hackathon_challenge.Prelude.{String, Option, none, some, if◌then◌else◌, truthy}
use faf_hackathon_challenge.Values.Text.{trim}
use faf_hackathon_challenge.Web.Session.{AppSession, guest_session, admin_session}

-- What a submission comes to: nothing, the error of a session that is no administrator's, or a call of
-- `postAnnouncement` with the message and the passcode.
pub data Submission : Type 0 where
  ignored admin_required : Submission
  posted : String → String → Submission

-- `useAdminSession`, of which the passcode is used.
abbrev pub admin_passcode_of : Option AppSession → Option String
admin_passcode_of none = none
admin_passcode_of (some (guest_session guest)) = none
admin_passcode_of (some (admin_session name passcode)) = some passcode

-- The hook's `mutationFn`
abbrev pub publish_announcement : Option AppSession → String → Submission
publish_announcement session message = elim (admin_passcode_of session) [
  | none ↦ admin_required
  | some passcode ↦ posted message passcode
]

-- The composer's `handleSubmit`
unfoldable pub submit_announcement : Option AppSession → String → Submission
submit_announcement session message =
    if truthy (trim message) then publish_announcement session (trim message) else ignored
