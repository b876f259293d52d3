-- ===== src/Hub/Hearing.antt =====
-- What the clients behind one response write to it, from one bus to the next.
use faf_hackathon_challenge.Prelude.{
  ℕ, false, ◌≡◌, refl, ◌∙◌, ap, sym, Option, none, some, List, [], ◌∷◌, ◌++◌, append_assoc,
  append-nil, arith, ◌==◌, select, select-append, ==_refl,
}
use faf_hackathon_challenge.Hub.Types.{ChannelId, IslandEvent}
use faf_hackathon_challenge.Hub.ServiceAuth.{ServiceIdentity}
use faf_hackathon_challenge.Hub.EventBus.{Client, Bus, add_client, drop_first, deliver, broadcast}
use faf_hackathon_challenge.Hub.Delivery.{received, received-append}
use faf_hackathon_challenge.Hub.Privilege.{allows}

-- The clients behind a response.
abbrev pub behind : ℕ → List Client → List Client
behind r cs = select (λ c. c.res == r) cs

-- What clients write for a series of events.
abbrev pub heard : ℕ → List Client → List IslandEvent → List IslandEvent
heard r m [] = []
heard r m (e ∷ es) = received r (deliver e m) ++ heard r m es

heard-append :
    (r : ℕ) (m : List Client) (xs ys : List IslandEvent)
    → heard r m (xs ++ ys) ≡ heard r m xs ++ heard r m ys
heard-append r m [] ys = refl
heard-append r m (x ∷ xs) ys = rw (heard-append r m xs ys, append_assoc)

received-behind :
    (r : ℕ) (e : IslandEvent) (cs : List Client)
    → received r (deliver e cs) ≡ received r (deliver e (behind r cs))
unfolding received deliver
received-behind r e [] = refl
received-behind r e (c ∷ cs) = ground (arith, received-behind r e cs)

pub behind-drop_other :
    (r q : ℕ) (cs : List Client) → (q == r) ≡ false → behind r (drop_first q cs) ≡ behind r cs
unfolding drop_first
behind-drop_other r q [] h = refl
behind-drop_other r q (c ∷ cs) h = ground (arith, behind-drop_other r q cs h)

-- From one bus to the next the clients behind a response stay, and they write these events.
pub record Hears (r : ℕ) (es : List IslandEvent) (old new : Bus) : Type 0 where
  pub same_clients : behind r new.clients ≡ behind r old.clients
  pub more_written :
      received r new.written ≡ received r old.written ++ heard r (behind r old.clients) es

pub Hears-nil : (r : ℕ) (bus : Bus) → Hears r [] bus bus
Hears-nil r bus = record { same_clients = refl; more_written = sym (append-nil _) }

pub Hears-append :
    (r : ℕ) (es fs : List IslandEvent) (a b c : Bus)
    → Hears r es a b
    → Hears r fs b c
    → Hears r (es ++ fs) a c
Hears-append r es fs a b c h k = record {
  same_clients = k.same_clients ∙ h.same_clients;
  more_written =
      k.more_written
      ∙ rw (h.same_clients, h.more_written, heard-append r (behind r a.clients) es fs, append_assoc)
          refl;
}

pub Hears-broadcast : (r : ℕ) (e : IslandEvent) (bus : Bus) → Hears r (e ∷ []) bus (broadcast e bus)
unfolding broadcast
Hears-broadcast r e bus = record {
  same_clients = refl;
  more_written =
      received-append r bus.written _
      ∙ ap (λ es. received r bus.written ++ es)
          (received-behind r e bus.clients ∙ sym (append-nil _));
}

pub Hears-listen :
    (r q : ℕ) (allowed : List ChannelId) (bus : Bus)
    → (q == r) ≡ false
    → Hears r [] bus (add_client q allowed bus)
unfolding add_client received
Hears-listen r q allowed bus h = record {
  same_clients = select-append _ bus.clients _ ∙ rw h (append-nil _);
  more_written = received-append r bus.written _ ∙ rw h refl;
}

-- The client of a request to listen on a response.
abbrev pub listeners : ℕ → Option ServiceIdentity → List Client
listeners r none = []
listeners r (some i) = record { res = r; allowed_channels = i.allowed_channels } ∷ []

pub heard-nobody : (r : ℕ) (es : List IslandEvent) → heard r [] es ≡ []
unfolding received deliver
heard-nobody r [] = refl
heard-nobody r (e ∷ es) = heard-nobody r es

pub heard-listeners :
    (r : ℕ) (o : Option ServiceIdentity) (es : List IslandEvent)
    → heard r (listeners r o) es ≡ select (λ e. allows o e.channel) es
unfolding received deliver
heard-listeners r o [] = refl
heard-listeners r none (e ∷ es) = heard-listeners r none es
heard-listeners r (some i) (e ∷ es) = ground (arith, ==_refl r, heard-listeners r (some i) es)

pub behind-drop_own :
    (r : ℕ) (o : Option ServiceIdentity) (cs : List Client)
    → behind r cs ≡ listeners r o
    → behind r (drop_first r cs) ≡ []
unfolding drop_first
behind-drop_own r o [] h = refl
behind-drop_own r none (c ∷ cs) h = ground (arith, behind-drop_own r none cs)
behind-drop_own r (some i) (c ∷ cs) h = ground (arith, behind-drop_own r (some i) cs)
