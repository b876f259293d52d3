-- ===== src/Hub/Publishing.antt =====
-- What a POST route does with an accepted and with a refused body, and with its event.
use faf_hackathon_challenge.Prelude.{
  String, true, false, ◌≡◌, refl, ◌≢◌, some, List, arith, inl, inr, ◌⊎◌, ◌∙◌, ap,
}
use faf_hackathon_challenge.Values.{get, entries, as_string}
use faf_hackathon_challenge.Values.Schema.{Issue, Zod, accepts, declared, is_key}
use faf_hackathon_challenge.Hub.Types.{ChannelId, IslandEvent}
use faf_hackathon_challenge.Hub.ServiceAuth.{Request, Env, require_admin}
use faf_hackathon_challenge.Hub.EventBus.{Bus, broadcast}
use faf_hackathon_challenge.Hub.Routes.{
  Route, airport_arrival, hotel_confirm, hotel_cancel, beach_full, beach_available, crab_order,
  crab_sold_out, cursed, public_post, admin_announcement, Reply, published, invalid_payload,
  unauthorized, Body, parse_body, schema_of, event_of, publish, post,
}

-- The channel of the service that a route belongs to.
abbrev pub home_channel : Route → ChannelId
home_channel airport_arrival = ChannelId.airport
home_channel hotel_confirm = ChannelId.hotel
home_channel hotel_cancel = ChannelId.hotel
home_channel beach_full = ChannelId.beach
home_channel beach_available = ChannelId.beach
home_channel crab_order = ChannelId.crab
home_channel crab_sold_out = ChannelId.crab
home_channel cursed = ChannelId.parrot
home_channel public_post = ChannelId.broadcast
home_channel admin_announcement = ChannelId.resort_wide

event_of-channel :
    (route : Route) (uuid : String) (body : Body)
    → (event_of route uuid body).channel ≡ home_channel route
event_of-channel airport_arrival uuid body = refl
event_of-channel _ uuid body = refl

-- What one POST published: an event on the route's channel, under the given id, with the text of
-- the request where it has one.
pub record Publishes (route : Route) (uuid : String) (req : Request) (e : IslandEvent)
    : Type 0 where
  pub id : e.id ≡ uuid
  pub channel : e.channel ≡ home_channel route
  pub text :
      (message : String)
      → as_string (get "message" (entries req.body)) ≡ some message
      → e.message ≡ message

event_of-message :
    (route : Route) (uuid : String) (body : Body) (message : String)
    → as_string (get "message" body) ≡ some message
    → (event_of route uuid body).message ≡ message
event_of-message airport_arrival uuid body message e = rw e
event_of-message _ uuid body message e = rw e

event_of-id : (route : Route) (uuid : String) (body : Body) → (event_of route uuid body).id ≡ uuid
event_of-id airport_arrival uuid body = refl
event_of-id _ uuid body = refl

message_declared : (route : Route) → is_key (declared (schema_of route)) "message" ≡ true
message_declared airport_arrival = refl
message_declared _ = refl

module _ (zod : Zod) (env : Env) (uuid : String) (route : Route) (req : Request) (bus : Bus) where
  abbrev pub IsAdmitted : Type 0
  IsAdmitted = (route ≢ admin_announcement) ⊎ (require_admin env req ≡ true)

  post-admitted : IsAdmitted → post zod env uuid route req bus ≡ publish zod uuid route req bus
  unfolding post
  post-admitted h = ground arith

  -- A request with a body that meets the route's schema, from an administrator if the route is the
  -- administrators', is answered by success, and what it changes is one broadcast: of an event
  -- with the given id, on the route's channel, with the text of the request's message if it has one.
  pub post-Publishes :
      accepts (schema_of route) req.body ≡ true
      → IsAdmitted
      → (e : IslandEvent) × (post zod env uuid route req bus ≡ (published, broadcast e bus))
        × Publishes route uuid req e
  unfolding publish
  post-Publishes ok h =
      let (d, parse, kept) = zod.parses (schema_of route) req.body ok in
      (
        event_of route uuid (entries d),
        rw (post-admitted h, parse, parse_body),
        record {
          id = event_of-id route uuid (entries d);
          channel = event_of-channel route uuid (entries d);
          text = λ message e.
              event_of-message route uuid (entries d) message
                (ap as_string (kept.plain "message" (message_declared route)) ∙ e);
        },
      )

  -- A request that is admitted with a body that does not meet the schema is answered by 400 with
  -- the issues that zod found, one that is not admitted by 401, and neither changes anything.
  post-rejects :
      (accepts (schema_of route) req.body ≡ false)
        ⊎ ((route ≡ admin_announcement) × (require_admin env req ≡ false))
      → (r : Reply) × (post zod env uuid route req bus ≡ (r, bus))
        × (((issues : List Issue) × (r ≡ invalid_payload issues))
            ⊎ (r ≡ unauthorized "Admin authentication required"))
  unfolding publish post
  post-rejects (inr (is_admin, refused)) =
      (unauthorized "Admin authentication required", rw (is_admin, refused, post) refl, inr refl)
  post-rejects (inl bad) =
      let (issues, failed) = zod.refuses (schema_of route) req.body bad in
      elim (admission route) [
        | inl h ↦ (
          invalid_payload issues,
          rw (post-admitted h, publish, parse_body, failed) refl,
          inl (issues, refl),
        )
        | inr (is_admin, refused) ↦ (
          unauthorized "Admin authentication required",
          rw (is_admin, refused, post) refl,
          inr refl,
        )
      ]
    where
      admission :
          (r : Route)
          → ((r ≢ admin_announcement) ⊎ (require_admin env req ≡ true))
            ⊎ ((r ≡ admin_announcement) × (require_admin env req ≡ false))
      admission r = ground arith
