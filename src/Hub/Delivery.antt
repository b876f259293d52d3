-- ===== src/Hub/Delivery.antt =====
-- What the event bus writes to each listener, and the registration of listeners.
use faf_hackathon_challenge.Prelude.{
  ℕ, Bool, false, ◌&&◌, ◌≡◌, refl, ◌≢◌, List, [], ◌∷◌, ◌++◌, ap, append_assoc, append-nil, subst,
  arith, if◌then◌else◌, ◌==◌, any, All, Bool-cases, inl, inr,
}
use faf_hackathon_challenge.Hub.Types.{ChannelId, IslandEvent, has}
use faf_hackathon_challenge.Hub.EventBus.{
  Client, Chunk, connected, event_data, Bus, add_client, drop_first, remove_client, deliver,
  broadcast,
}

-- The events written to a response, in order.
abbrev pub chunk_events : Chunk → List IslandEvent
chunk_events connected = []
chunk_events (event_data e) = e ∷ []

unfoldable pub received : ℕ → List (ℕ × Chunk) → List IslandEvent
received r [] = []
received r ((q, c) ∷ ws) = (if q == r then chunk_events c else []) ++ received r ws

pub received-append :
    (r : ℕ) (xs ys : List (ℕ × Chunk)) → received r (xs ++ ys) ≡ received r xs ++ received r ys
unfolding received
received-append r [] ys = refl
received-append r ((q, c) ∷ xs) ys = rw (received-append r xs ys, append_assoc)

-- No two clients share a response.
abbrev pub IsDistinct : List Client → Type 0
IsDistinct [] = Unit
IsDistinct (c ∷ cs) = All (λ d. d.res ≢ c.res) cs × IsDistinct cs

-- Some client with this response was granted the channel.
abbrev pub subscribes : ℕ → ChannelId → List Client → Bool
subscribes r ch clients = any (λ c. c.res == r && has c.allowed_channels ch) clients

received-deliver_absent :
    (r : ℕ) (e : IslandEvent) (cs : List Client)
    → All (λ d. d.res ≢ r) cs
    → (received r (deliver e cs) ≡ []) × (subscribes r e.channel cs ≡ false)
unfolding received deliver
received-deliver_absent r e [] h = (refl, refl)
received-deliver_absent r e (c ∷ cs) (p, h) = ground (arith, received-deliver_absent r e cs h)

received-deliver :
    (r : ℕ) (e : IslandEvent) (cs : List Client)
    → IsDistinct cs
    → received r (deliver e cs) ≡ (if subscribes r e.channel cs then e ∷ [] else [])
unfolding received deliver
received-deliver r e [] h = refl
received-deliver r e (c ∷ cs) (p, h) =
    ground (arith, received-deliver r e cs h, received-deliver_absent c.res e cs p)

-- Where no two clients share a response, a broadcast writes the event once to each listener that
-- was granted its channel, behind what that listener had received, and nothing to any other.
pub received-broadcast :
    (r : ℕ) (e : IslandEvent) (bus : Bus)
    → IsDistinct bus.clients
    → received r (broadcast e bus).written
      ≡ received r bus.written ++ (if subscribes r e.channel bus.clients then e ∷ [] else [])
unfolding broadcast
received-broadcast r e bus h =
    rw received-append
      (ap (λ es. received r bus.written ++ es) (received-deliver r e bus.clients h))

drop_first_append :
    (res : ℕ) (c : Client) (cs : List Client)
    → c.res ≡ res
    → All (λ d. d.res ≢ res) cs
    → drop_first res (cs ++ c ∷ []) ≡ cs
unfolding drop_first
drop_first_append res c [] e h = ground arith
drop_first_append res c (d ∷ cs) e (p, h) = ground (arith, drop_first_append res c cs e h)

-- A listener that connects with a response of its own and closes leaves the clients as they were.
remove_client-add_client :
    (res : ℕ) (allowed : List ChannelId) (bus : Bus)
    → All (λ d. d.res ≢ res) bus.clients
    → (remove_client res (add_client res allowed bus)).clients ≡ bus.clients
unfolding remove_client add_client
remove_client-add_client res allowed bus h = drop_first_append res _ bus.clients refl h

drop_first-absent :
    (res : ℕ) (cs : List Client) → IsDistinct cs → All (λ d. d.res ≢ res) (drop_first res cs)
unfolding drop_first
drop_first-absent res [] h = tt
drop_first-absent res (c ∷ cs) (p, h) = elim (Bool-cases (c.res == res)) [
  | inl e ↦ rw e (let q : c.res ≡ res = ground arith in subst (λ r. All (λ d. d.res ≢ r) cs) q p)
  | inr e ↦ rw e ((ground arith), drop_first-absent res cs h)
]

-- After its connection has closed, a listener that shared its response with nobody receives no
-- event any more.
received-broadcast_removed :
    (res : ℕ) (e : IslandEvent) (bus : Bus)
    → IsDistinct bus.clients
    → received res (broadcast e (remove_client res bus)).written ≡ received res bus.written
unfolding broadcast remove_client
received-broadcast_removed res e bus h =
    rw
      (
        received-append,
        (received-deliver_absent res e (drop_first res bus.clients)
            (drop_first-absent res bus.clients h)).0,
      )
      (append-nil _)
