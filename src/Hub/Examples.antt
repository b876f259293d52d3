-- ===== src/Hub/Examples.antt =====
-- Runs of the hub on concrete requests, and the theorems at inputs that meet their hypotheses.
use faf_hackathon_challenge.Prelude.{
  String, true, false, ◌≡◌, refl, ◌⊎◌, none, some, List, [], ◌∷◌, ◌++◌, arith, if◌then◌else◌,
  str_eq, All, select, inl, inr,
}
use faf_hackathon_challenge.Values.{Value, undefined, str, obj, no_members, member, get, without}
use faf_hackathon_challenge.Values.Schema.{accepts, plain_zod}
use faf_hackathon_challenge.Values.Text.{strip_prefix, trim}
use faf_hackathon_challenge.Hub.Types.{ChannelId, IslandEvent}
use faf_hackathon_challenge.Hub.ServiceAuth.{
  Request, Env, service_registry, extract_token, identify_service,
}
use faf_hackathon_challenge.Hub.EventBus.{Bus, start, add_client, remove_client, broadcast}
use faf_hackathon_challenge.Hub.Routes.{
  hotel_confirm, published, Call, get_events, post_route, on_close, post, run, schema_of,
  confirm_event,
}
use faf_hackathon_challenge.Hub.Access.{Granted, identify_service-Granted, identify_service_closed}
use faf_hackathon_challenge.Hub.Delivery.{received}
use faf_hackathon_challenge.Hub.Privilege.{IsEntitled, allows, run-IsEntitled}
use faf_hackathon_challenge.Hub.Streams.{accepted_all, run-received}
use faf_hackathon_challenge.Hub.Publishing.{Publishes, post-Publishes}

abbrev env : Env
env k =
    if str_eq k "BEACH_TOKEN" then some "sand" else if str_eq k "FE_TOKEN" then some "web" else none

-- A request with one header, and one with a body.
abbrev with_header : String → String → Request
with_header name value = record {
  header = λ k. if str_eq k name then some value else none;
  query_token = undefined;
  body = undefined;
}

abbrev with_body : Value → Request
with_body body = record { header = λ k. none; query_token = undefined; body = body }

abbrev beach_listener : Request
beach_listener = with_header "authorization" "Bearer  sand "

abbrev booking : Value
booking = obj (member "message" (str "Booked.") (member "room_type" (str "SUITE") no_members))

abbrev bad_booking : Value
bad_booking = obj (member "password" (str "x") no_members)

abbrev calls : List Call
calls =
    get_events 1 beach_listener
    ∷ get_events 2 (with_header "x-service-token" "nobody")
    ∷ post_route hotel_confirm "e1" (with_body booking)
    ∷ on_close 1
    ∷ []

opened : Unit {0}
unfolding remove_client broadcast add_client run identify_service extract_token strip_prefix trim
    accepts get without received
opened = tt

calls_test :
    received 1 (run plain_zod env calls start).written
    ≡ confirm_event "e1" (("message", str "Booked.") ∷ ("room_type", str "SUITE") ∷ []) ∷ []
unfolding opened
calls_test = refl

identify_test :
    identify_service env beach_listener
    ≡ some (record { name = "beach"; allowed_channels = ChannelId.hotel ∷ [] })
unfolding opened
identify_test = refl

identify_service-Granted_example :
    (token : String) × (extract_token beach_listener ≡ some token)
    × Granted env token service_registry
        (record { name = "beach"; allowed_channels = ChannelId.hotel ∷ [] })
identify_service-Granted_example = identify_service-Granted env beach_listener _ identify_test

stranger_test : identify_service env (with_header "x-service-token" "nobody") ≡ none
unfolding opened
stranger_test = refl

stranger_token : extract_token (with_header "x-service-token" "nobody") ≡ some "nobody"
unfolding opened
stranger_token = refl

blank_token :
    (extract_token (with_header "authorization" "Bearer   ") ≡ none)
    ⊎ (extract_token (with_header "authorization" "Bearer   ") ≡ some "")
unfolding opened
blank_token = inr refl

identify_service_closed_example :
    identify_service env (with_header "authorization" "Bearer   ") ≡ none
identify_service_closed_example =
    identify_service_closed env (with_header "authorization" "Bearer   ") blank_token

abbrev two_listeners : Bus
two_listeners = add_client 2 (ChannelId.airport ∷ []) (add_client 1 (ChannelId.hotel ∷ []) start)

abbrev an_event : IslandEvent
an_event = confirm_event "e1" []

run-received_example :
    received 1
      (run plain_zod env
        (get_events 2 (with_header "x-service-token" "nobody") ∷ []
          ++ get_events 1 beach_listener ∷ post_route hotel_confirm "e1" (with_body booking) ∷ []
          ++ on_close 1 ∷ post_route hotel_confirm "e2" (with_body booking) ∷ [])
        start).written
    ≡ select
        (λ e. allows (identify_service env beach_listener) e.channel)
        (accepted_all plain_zod env (post_route hotel_confirm "e1" (with_body booking) ∷ []))
run-received_example =
    run-received plain_zod env 1 (get_events 2 (with_header "x-service-token" "nobody") ∷ [])
      (post_route hotel_confirm "e1" (with_body booking) ∷ [])
      (post_route hotel_confirm "e2" (with_body booking) ∷ []) beach_listener (ground arith)
      (ground arith) (ground arith)

run-IsEntitled_example : All (IsEntitled env calls) (run plain_zod env calls start).written
run-IsEntitled_example = run-IsEntitled plain_zod env calls

booking_accepted : accepts (schema_of hotel_confirm) booking ≡ true
unfolding accepts get
booking_accepted = refl

post-Publishes_example :
    (e : IslandEvent) × (post plain_zod env "e1" hotel_confirm (with_body booking) two_listeners
      ≡ (published, broadcast e two_listeners))
    × Publishes hotel_confirm "e1" (with_body booking) e
post-Publishes_example =
    post-Publishes plain_zod env "e1" hotel_confirm (with_body booking) two_listeners
      booking_accepted (inl (ground arith))

bad_booking_refused : accepts (schema_of hotel_confirm) bad_booking ≡ false
unfolding accepts get
bad_booking_refused = refl
