-- ===== src/Hub/Streams.antt =====
-- The stream of one response over a whole run of the hub.
use faf_hackathon_challenge.Prelude.{
  ℕ, String, Bool, true, false, ◌≡◌, refl, ◌∙◌, ap, sym, subst, Option, none, List, [], ◌∷◌, ◌++◌,
  append-nil, if◌then◌else◌, ◌==◌, All, select, select-append, Bool-cases, Option-cases, inl, inr,
  ==_refl,
}
use faf_hackathon_challenge.Values.Schema.{Zod}
use faf_hackathon_challenge.Hub.Types.{IslandEvent}
use faf_hackathon_challenge.Hub.ServiceAuth.{
  Request, Env, ServiceIdentity, identify_service, require_admin,
}
use faf_hackathon_challenge.Hub.EventBus.{Bus, start, add_client, remove_client}
use faf_hackathon_challenge.Hub.Routes.{
  ParsedBody, after_parse, Route, Call, get_health, get_events, post_route, on_close, parse_body,
  parsed, replied, schema_of, event_of, is_guarded, publish, post, listen, serve, run,
}
use faf_hackathon_challenge.Hub.Delivery.{received, received-append}
use faf_hackathon_challenge.Hub.Privilege.{allows}
use faf_hackathon_challenge.Hub.Hearing.{
  behind, Hears, Hears-nil, Hears-append, Hears-broadcast, Hears-listen, listeners,
  behind-drop_other, behind-drop_own, heard-nobody, heard-listeners,
}

-- The event of a body that was parsed.
abbrev pub parsed_event : String → Route → ParsedBody → List IslandEvent
parsed_event uuid route (parsed body) = event_of route uuid body ∷ []
parsed_event uuid route (replied reply) = []

-- The events that the hub accepts from a call: the call alone decides.
abbrev pub accepted : Zod → Env → Call → List IslandEvent
accepted zod env (post_route route uuid req) =
    if (if is_guarded route then require_admin env req else true)
    then parsed_event uuid route (parse_body zod (schema_of route) req)
    else []
accepted zod env _ = []

abbrev pub accepted_all : Zod → Env → List Call → List IslandEvent
accepted_all zod env [] = []
accepted_all zod env (c ∷ cs) = accepted zod env c ++ accepted_all zod env cs

-- Whether a call opens or closes this response.
abbrev pub concerns : ℕ → Call → Bool
concerns r (get_events q req) = q == r
concerns r (on_close q) = q == r
concerns r _ = false

Hears-publish :
    (r : ℕ) (uuid : String) (route : Route) (bus : Bus) (p : ParsedBody)
    → Hears r (parsed_event uuid route p) bus (after_parse uuid route bus p).1
Hears-publish r uuid route bus (parsed body) = Hears-broadcast r (event_of route uuid body) bus
Hears-publish r uuid route bus (replied reply) = Hears-nil r bus

module _ (zod : Zod) (env : Env) (r : ℕ) where
  serve-Hears :
      (c : Call) (bus : Bus)
      → concerns r c ≡ false
      → Hears r (accepted zod env c) bus (serve zod env c bus).1
  unfolding serve post publish listen remove_client
  serve-Hears get_health bus h = Hears-nil r bus
  serve-Hears (get_events q req) bus h = elim (Option-cases (identify_service env req)) [
    | inl refused ↦ rw (refused, listen) (Hears-nil r bus)
    | inr (i, found) ↦ rw (found, listen) (Hears-listen r q i.allowed_channels bus h)
  ]
  serve-Hears (post_route route uuid req) bus h =
      elim (Bool-cases (if is_guarded route then require_admin env req else true)) [
        | inl admitted ↦ rw admitted (Hears-publish r uuid route bus _)
        | inr refused ↦ rw refused (Hears-nil r bus)
      ]
  serve-Hears (on_close q) bus h = record {
    same_clients = behind-drop_other r q bus.clients h;
    more_written = sym (append-nil _);
  }

  run-Hears :
      (calls : List Call) (bus : Bus)
      → All (λ c. concerns r c ≡ false) calls
      → Hears r (accepted_all zod env calls) bus (run zod env calls bus)
  unfolding run
  run-Hears [] bus h = Hears-nil r bus
  run-Hears (c ∷ cs) bus (p, h) =
      Hears-append r _ _ bus _ _ (serve-Hears c bus p) (run-Hears cs (serve zod env c bus).1 h)

  run-append :
      (xs ys : List Call) (bus : Bus)
      → run zod env (xs ++ ys) bus ≡ run zod env ys (run zod env xs bus)
  unfolding run
  run-append [] ys bus = refl
  run-append (c ∷ xs) ys bus = run-append xs ys (serve zod env c bus).1

  -- Calls that neither open nor close the response.
  abbrev pub IsElsewhere : List Call → Type 0
  IsElsewhere calls = All (λ c. concerns r c ≡ false) calls

  -- Who listens on the response, if anybody, and the events that it has received.
  record Stream (o : Option ServiceIdentity) (es : List IslandEvent) (bus : Bus) : Type 0 where
    clients_behind : behind r bus.clients ≡ listeners r o
    events : received r bus.written ≡ es

  listen-Stream :
      (req : Request) (es : List IslandEvent) (bus : Bus)
      → Stream none es bus
      → Stream (identify_service env req) es (listen env r req bus).1
  unfolding listen add_client received
  listen-Stream req es bus h = elim (Option-cases (identify_service env req)) [
    | inl refused ↦ rw (refused, listen) h
    | inr (i, found) ↦
        rw (found, listen)
          (record {
            clients_behind = select-append _ bus.clients _ ∙ rw (h.clients_behind, ==_refl r) refl;
            events = received-append r bus.written _ ∙ rw (==_refl r) (append-nil _ ∙ h.events);
          })
  ]

  remove_client-Stream :
      (o : Option ServiceIdentity) (es : List IslandEvent) (bus : Bus)
      → Stream o es bus
      → Stream none es (remove_client r bus)
  unfolding remove_client
  remove_client-Stream o es bus h = record {
    clients_behind = behind-drop_own r o bus.clients h.clients_behind;
    events = h.events;
  }

  run-Stream :
      (o : Option ServiceIdentity) (es : List IslandEvent) (calls : List Call) (bus : Bus)
      → IsElsewhere calls
      → Stream o es bus
      → Stream o
          (es ++ select (λ e. allows o e.channel) (accepted_all zod env calls))
          (run zod env calls bus)
  run-Stream o es calls bus elsewhere h = record {
    clients_behind = go.same_clients ∙ h.clients_behind;
    events =
        go.more_written
        ∙ rw (h.clients_behind, h.events) (ap (λ fs. es ++ fs) (heard-listeners r o _));
  }
    where
      go : Hears r (accepted_all zod env calls) bus (run zod env calls bus)
      go = run-Hears calls bus elsewhere

  -- Nobody behind the response: calls elsewhere write nothing to it.
  run_closed-Stream :
      (es : List IslandEvent) (calls : List Call) (bus : Bus)
      → IsElsewhere calls
      → Stream none es bus
      → Stream none es (run zod env calls bus)
  run_closed-Stream es calls bus elsewhere h =
      subst (λ fs. Stream none fs (run zod env calls bus))
        (ap (λ fs. es ++ fs)
            (sym (heard-listeners r none accepted_here) ∙ heard-nobody r accepted_here)
          ∙ append-nil es)
        (run-Stream none es calls bus elsewhere h)
    where
      accepted_here : List IslandEvent
      accepted_here = accepted_all zod env calls

  -- A whole connection, among any calls that open or close no connection on its response: the
  -- response has received exactly the events that the hub accepted between the request to listen
  -- and the close, in that order and each once, less those on channels that the service behind the
  -- request is not granted; a request that identifies no service receives none.
  pub run-received :
      (before during after : List Call) (req : Request)
      → IsElsewhere before
      → IsElsewhere during
      → IsElsewhere after
      → received r
          (run zod env (before ++ get_events r req ∷ during ++ on_close r ∷ after) start).written
        ≡ select (λ e. allows (identify_service env req) e.channel) (accepted_all zod env during)
  unfolding run serve received
  run-received before during after req b d a =
      ap (λ (bus : Bus). received r bus.written)
        (run-append (before ++ get_events r req ∷ during) (on_close r ∷ after) start
          ∙ ap (run zod env (on_close r ∷ after))
              (run-append before (get_events r req ∷ during) start))
      ∙ (run_closed-Stream _ after _ a (
          remove_client-Stream _ _ _ (
            run-Stream (identify_service env req) [] during opened d (
              listen-Stream req [] _ (
                run_closed-Stream [] before start b
                  (record { clients_behind = refl; events = refl })))))).events
    where
      opened : Bus
      opened = (listen env r req (run zod env before start)).1
