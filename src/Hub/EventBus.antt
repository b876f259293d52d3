-- ===== src/Hub/EventBus.antt =====
-- services/broadcast/src/eventBus.ts: the connected listeners, and what has been written to them.
use faf_hackathon_challenge.Prelude.{ℕ, List, [], ◌∷◌, ◌++◌, if◌then◌else◌, ◌==◌}
use faf_hackathon_challenge.Hub.Types.{ChannelId, IslandEvent, has}

-- `res` is the identity of the listener's response object.
pub record Client : Type 0 where
  pub res : ℕ
  pub allowed_channels : List ChannelId

-- What `res.write` sends: the comment `: connected`, or an event as a data line.
pub data Chunk : Type 0 where
  connected : Chunk
  event_data : IslandEvent → Chunk

-- The module's list of clients, and the writes of all responses, the oldest first.
pub record Bus : Type 0 where
  pub clients : List Client
  pub written : List (ℕ × Chunk)

abbrev pub start : Bus
start = record { clients = []; written = [] }

unfoldable pub add_client : ℕ → List ChannelId → Bus → Bus
add_client res allowed bus = record {
  clients = bus.clients ++ record { res = res; allowed_channels = allowed } ∷ [];
  written = bus.written ++ (res, connected) ∷ [];
}

-- `findIndex` and `splice`: the first client with this response goes.
unfoldable pub drop_first : ℕ → List Client → List Client
drop_first res [] = []
drop_first res (c ∷ cs) = let rest = drop_first res cs in if c.res == res then cs else c ∷ rest

unfoldable pub remove_client : ℕ → Bus → Bus
unfolding drop_first
remove_client res bus = record bus { clients = drop_first res bus.clients }

-- The writes of the loop of `broadcast`.
unfoldable pub deliver : IslandEvent → List Client → List (ℕ × Chunk)
deliver event [] = []
deliver event (c ∷ cs) =
    let rest = deliver event cs in
    if has c.allowed_channels event.channel then (c.res, event_data event) ∷ rest else rest

unfoldable pub broadcast : IslandEvent → Bus → Bus
unfolding deliver
broadcast event bus = record bus { written = bus.written ++ deliver event bus.clients }
