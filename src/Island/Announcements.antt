-- ===== src/Island/Announcements.antt =====
-- An administrator's announcement from the web app's login to the hub's broadcast.
use faf_hackathon_challenge.Prelude.{
  String, Bool, true, ◌≡◌, refl, ◌≢◌, ap, Option, none, some, List, inr, if◌then◌else◌, str_eq,
  truthy, arith, eq_iff,
}
use faf_hackathon_challenge.Values.{
  Value, str, obj, undefined, member, no_members, get, entries, as_string,
}
use faf_hackathon_challenge.Values.Text.{trim}
use faf_hackathon_challenge.Values.Schema.{Zod, accepts}
use faf_hackathon_challenge.Hub.Types.{ChannelId, IslandEvent}
use faf_hackathon_challenge.Hub.Schemas.{admin_announcement_schema}
use faf_hackathon_challenge.Hub.ServiceAuth.{Env, Request, require_admin}
use faf_hackathon_challenge.Hub.EventBus.{Bus, broadcast}
use faf_hackathon_challenge.Hub.Routes.{Reply, Route, admin_announcement, published, post}
use faf_hackathon_challenge.Hub.Publishing.{post-Publishes}
use faf_hackathon_challenge.Hub.Access.{require_admin_iff}
use faf_hackathon_challenge.Web.Session.{AppSession, guest_session, admin_session, session_is_admin}
use faf_hackathon_challenge.Web.Pages.{RoutePath, Visit, visit_all, open_tab}
use faf_hackathon_challenge.Web.Admission.{IsPasscode, IsEarned, visits-IsAdmitted}
use faf_hackathon_challenge.Web.Announcements.{submit_announcement, posted}

-- `postAnnouncement`, as the hub's express takes the request from the gateway: its header and its body
-- are the ones that were sent, where `express.json` takes the body.
abbrev pub announcement_request : String → String → Request
announcement_request message passcode = record {
  header = λ name. if str_eq name "X-Admin-Passcode" then some passcode else none;
  query_token = undefined;
  body = obj (member "message" (str message) no_members);
}

-- `express.json` in front of the routes: `takes` is whether it reads a body, which it refuses above its
-- limit of 100 kB; `none` is its own answer.
unfoldable pub taken_post :
    (Value → Bool) → Zod → Env → String → Route → Request → Bus → Option (Reply × Bus)
taken_post takes zod env uuid route req bus =
    if takes req.body then some (post zod env uuid route req bus) else none

announcement-accepts :
    (message passcode : String)
    → truthy message ≡ true
    → accepts admin_announcement_schema (announcement_request message passcode).body ≡ true
unfolding accepts get
announcement-accepts message passcode h = ground arith

truthy_nonempty : (s : String) → truthy s ≡ true → s ≢ ""
truthy_nonempty s h = λ e. ground (arith, eq_iff s "")

announcement-require_admin :
    (env : Env) (message passcode admin_passcode : String)
    → env "ADMIN_PASSCODE" ≡ some admin_passcode
    → IsPasscode admin_passcode passcode
    → require_admin env (announcement_request message passcode) ≡ true
announcement-require_admin env message passcode admin_passcode at p =
    (require_admin_iff env (announcement_request message passcode)).1
      (admin_passcode, at, ap some p.configured, λ e. truthy_nonempty admin_passcode p.nonempty e)

message_of_announcement :
    (message passcode : String)
    → as_string (get "message" (entries (announcement_request message passcode).body))
      ≡ some message
unfolding get
message_of_announcement message passcode = refl

announced_by :
    (takes : Value → Bool) (zod : Zod) (env : Env) (uuid : String) (bus : Bus)
    (admin_passcode message : String) (session : Option AppSession)
    → session_is_admin session ≡ true
    → IsEarned admin_passcode session
    → env "ADMIN_PASSCODE" ≡ some admin_passcode
    → truthy (trim message) ≡ true
    → takes (obj (member "message" (str (trim message)) no_members)) ≡ true
    → (passcode : String) × (submit_announcement session message ≡ posted (trim message) passcode)
      × (e : IslandEvent) × (taken_post takes zod env uuid admin_announcement
            (announcement_request (trim message) passcode)
            bus
          ≡ some (published, broadcast e bus))
      × (e.id ≡ uuid)
      × (e.channel ≡ ChannelId.resort_wide)
      × (e.message ≡ trim message)
unfolding submit_announcement taken_post
announced_by takes zod env uuid bus admin_passcode message none h earned at text small = cc
announced_by takes zod env uuid bus admin_passcode message (some (guest_session g)) h earned at text
      small =
    cc
announced_by takes zod env uuid bus admin_passcode message (some (admin_session name passcode)) h
      earned at text small =
    let request = announcement_request (trim message) passcode in
    let (e, done, p) =
      post-Publishes zod env uuid admin_announcement request bus
        (announcement-accepts (trim message) passcode text)
        (inr (
          announcement-require_admin env (trim message) passcode admin_passcode at
            (earned name passcode refl))) in
    (
      passcode,
      rw text refl,
      e,
      rw small (ap some done),
      p.id,
      p.channel,
      p.text (trim message) (message_of_announcement (trim message) passcode),
    )

-- An announcement reaches the resort: whatever was done on the pages since a new tab was opened with
-- nothing stored, if the session is then an administrator's, a text that is not blank is posted with
-- a passcode that the hub, configured with the same passcode as the web app, accepts; if its parser
-- takes the body, which is at most 100 kB, the hub broadcasts the trimmed text once, on the
-- resort-wide channel.
pub announcement-broadcast :
    (takes : Value → Bool) (zod : Zod) (env : Env) (uuid : String) (bus : Bus)
    (admin_passcode : String) (vs : List Visit) (path : RoutePath) (message : String)
    → session_is_admin (visit_all admin_passcode vs (open_tab none path)).session.session ≡ true
    → env "ADMIN_PASSCODE" ≡ some admin_passcode
    → truthy (trim message) ≡ true
    → takes (obj (member "message" (str (trim message)) no_members)) ≡ true
    → (passcode : String) × (submit_announcement
          (visit_all admin_passcode vs (open_tab none path)).session.session
          message
        ≡ posted (trim message) passcode)
      × (e : IslandEvent) × (taken_post takes zod env uuid admin_announcement
            (announcement_request (trim message) passcode)
            bus
          ≡ some (published, broadcast e bus))
      × (e.id ≡ uuid)
      × (e.channel ≡ ChannelId.resort_wide)
      × (e.message ≡ trim message)
announcement-broadcast takes zod env uuid bus admin_passcode vs path message h at text small =
    announced_by takes zod env uuid bus admin_passcode message
      (visit_all admin_passcode vs (open_tab none path)).session.session h
      (visits-IsAdmitted admin_passcode vs path).earned at text small
