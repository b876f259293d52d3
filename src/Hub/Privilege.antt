-- ===== src/Hub/Privilege.antt =====
-- Least privilege over whole runs of the hub: who can have been sent which event.
use faf_hackathon_challenge.Prelude.{
  ℕ, String, Bool, true, false, ◌&&◌, ◌≡◌, Option, none, some, List, [], ◌∷◌, ◌++◌, arith, ◌==◌,
  any, All, All-append, All-map, Bool-cases, inl, inr, ==_refl, Option-cases, append_assoc,
}
use faf_hackathon_challenge.Values.Schema.{Zod}
use faf_hackathon_challenge.Hub.Types.{ChannelId, IslandEvent, has}
use faf_hackathon_challenge.Hub.ServiceAuth.{Request, Env, ServiceIdentity, identify_service}
use faf_hackathon_challenge.Hub.EventBus.{
  Client, Chunk, connected, event_data, Bus, start, add_client, drop_first, remove_client, deliver,
  broadcast,
}
use faf_hackathon_challenge.Hub.Routes.{
  ParsedBody, after_parse, Route, Call, get_health, get_events, post_route, on_close, parse_body,
  parsed, replied, schema_of, event_of, publish, post, listen, serve, run,
}

-- `G r ch` stands for a reason why response `r` may receive the channel `ch`.
module _ (G : ℕ → ChannelId → Type 0) where
  abbrev ClientOk : Client → Type 0
  ClientOk c = (ch : ChannelId) → has c.allowed_channels ch ≡ true → G c.res ch

  abbrev ChunkOk : ℕ × Chunk → Type 0
  ChunkOk (r, connected) = Unit
  ChunkOk (r, event_data e) = G r e.channel

  record BusOk (bus : Bus) : Type 0 where
    clients_ok : All ClientOk bus.clients
    written_ok : All ChunkOk bus.written

  deliver-ChunkOk :
      (e : IslandEvent) (cs : List Client) → All ClientOk cs → All ChunkOk (deliver e cs)
  unfolding deliver
  deliver-ChunkOk e [] h = tt
  deliver-ChunkOk e (c ∷ cs) (p, h) = elim (Bool-cases (has c.allowed_channels e.channel)) [
    | inl granted ↦ rw granted (p e.channel granted, deliver-ChunkOk e cs h)
    | inr not_granted ↦ rw not_granted (deliver-ChunkOk e cs h)
  ]

  broadcast-BusOk : (e : IslandEvent) (bus : Bus) → BusOk bus → BusOk (broadcast e bus)
  unfolding broadcast
  broadcast-BusOk e bus h = record {
    clients_ok = h.clients_ok;
    written_ok =
        All-append ChunkOk bus.written _ h.written_ok (deliver-ChunkOk e bus.clients h.clients_ok);
  }

  drop_first-All : (res : ℕ) (cs : List Client) → All ClientOk cs → All ClientOk (drop_first res cs)
  unfolding drop_first
  drop_first-All res [] h = tt
  drop_first-All res (c ∷ cs) (p, h) = elim (Bool-cases (c.res == res)) [
    | inl e ↦ rw e h
    | inr e ↦ rw e (p, drop_first-All res cs h)
  ]

  module _ (zod : Zod) (env : Env) where
    -- A request to listen is a reason for the channels of the service that it identifies.
    abbrev CallOk : Call → Type 0
    CallOk (get_events r req) =
        (i : ServiceIdentity)
        → identify_service env req ≡ some i
        → (ch : ChannelId) → has i.allowed_channels ch ≡ true
        → G r ch
    CallOk _ = Unit

    publish-BusOk :
        (uuid : String) (route : Route) (req : Request) (bus : Bus)
        → BusOk bus
        → BusOk (publish zod uuid route req bus).1
    unfolding publish
    publish-BusOk uuid route req bus h = go (parse_body zod (schema_of route) req)
      where
        go : (p : ParsedBody) → BusOk (after_parse uuid route bus p).1
        go (parsed body) = broadcast-BusOk (event_of route uuid body) bus h
        go (replied reply) = h

    post-BusOk :
        (uuid : String) (route : Route) (req : Request) (bus : Bus)
        → BusOk bus
        → BusOk (post zod env uuid route req bus).1
    unfolding post
    post-BusOk uuid route req bus h = ground (arith, publish-BusOk uuid route req bus h)

    listen-BusOk :
        (r : ℕ) (req : Request) (bus : Bus)
        → CallOk (get_events r req)
        → BusOk bus
        → BusOk (listen env r req bus).1
    unfolding listen add_client
    listen-BusOk r req bus ok h = elim (Option-cases (identify_service env req)) [
      | inl refused ↦ rw (refused, listen) h
      | inr (i, found) ↦
          rw (found, listen)
            (record {
              clients_ok = All-append ClientOk bus.clients _ h.clients_ok (ok i found, tt);
              written_ok = All-append ChunkOk bus.written _ h.written_ok (tt, tt);
            })
    ]

    serve-BusOk : (c : Call) (bus : Bus) → CallOk c → BusOk bus → BusOk (serve zod env c bus).1
    unfolding serve remove_client
    serve-BusOk get_health bus ok h = h
    serve-BusOk (get_events r req) bus ok h = listen-BusOk r req bus ok h
    serve-BusOk (post_route route uuid req) bus ok h = post-BusOk uuid route req bus h
    serve-BusOk (on_close r) bus ok h = record {
      clients_ok = drop_first-All r bus.clients h.clients_ok;
      written_ok = h.written_ok;
    }

    run-BusOk :
        (cs : List Call) (bus : Bus) → All CallOk cs → BusOk bus → BusOk (run zod env cs bus)
    unfolding run
    run-BusOk [] bus ok h = h
    run-BusOk (c ∷ cs) bus (p, ok) h =
        run-BusOk cs (serve zod env c bus).1 ok (serve-BusOk c bus p h)

-- Whether a service that was identified was granted the channel.
abbrev pub allows : Option ServiceIdentity → ChannelId → Bool
allows none ch = false
allows (some i) ch = has i.allowed_channels ch

-- Whether a call is a request to listen on this response, of a service with this channel.
abbrev pub grants : Env → ℕ → ChannelId → Call → Bool
grants env r ch (get_events q req) = q == r && allows (identify_service env req) ch
grants env r ch _ = false

-- An event may have been written to `r` if a call granted its channel.
abbrev pub IsEntitled : Env → List Call → ℕ × Chunk → Type 0
IsEntitled env calls (r, connected) = Unit
IsEntitled env calls (r, event_data e) = any (grants env r e.channel) calls ≡ true

any-append_right : (p : Call → Bool) (xs ys : List Call) → any p ys ≡ true → any p (xs ++ ys) ≡ true
any-append_right p [] ys h = h
any-append_right p (x ∷ xs) ys h = ground (arith, any-append_right p xs ys h)

module _ (zod : Zod) (env : Env) where
  calls-CallOk :
      (before after : List Call)
      → All (CallOk (λ r ch. any (grants env r ch) (before ++ after) ≡ true) zod env) after
  calls-CallOk before [] = tt
  calls-CallOk before (c ∷ after) =
      (here c, rw (append_assoc before (c ∷ []) after) at (calls-CallOk (before ++ c ∷ []) after))
    where
      here :
          (c : Call) → CallOk (λ r ch. any (grants env r ch) (before ++ c ∷ after) ≡ true) zod env c
      here (get_events r req) = λ i found ch granted.
          any-append_right _ before _ (rw (found, granted) (ground (arith, ==_refl r)))
      here _ = tt

  -- Least privilege: whatever calls the hub has served since its start, every event in a
  -- response's stream is on a channel that a request to listen on that response was granted: the
  -- token of that request identified a service whose registry entry names the channel.
  pub run-IsEntitled :
      (calls : List Call) → All (IsEntitled env calls) (run zod env calls start).written
  run-IsEntitled calls =
      All-map (ChunkOk G) (IsEntitled env calls) _ entitled
        (run-BusOk G zod env calls start (calls-CallOk [] calls)
          (record { clients_ok = tt; written_ok = tt })).written_ok
    where
      G : ℕ → ChannelId → Type 0
      G r ch = any (grants env r ch) calls ≡ true

      entitled : (w : ℕ × Chunk) → ChunkOk G w → IsEntitled env calls w
      entitled (r, connected) h = tt
      entitled (r, event_data e) h = h
