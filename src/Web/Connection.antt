-- ===== src/Web/Connection.antt =====
-- The connection of frontend/src/features/broadcast/hooks/use-broadcast.ts: an EventSource that is
-- opened again after an error, with a growing delay. The browser's events are steps.
use faf_hackathon_challenge.Prelude.{
  ℕ, zero, suc, ◌+◌, ◌*◌, ◌^◌, ◌≤◌, ◌≡◌, refl, String, Bool, true, false, Option, none, some, List,
  [], ◌∷◌, arith, min, if◌then◌else◌, truthy, ap, ◌∙◌,
}
use native.Mathlib.Nat.{pow-suc}

pub data ConnectionStatus : Type 0 where
  connected dropped reconnecting : ConnectionStatus

abbrev pub backoff_initial_ms : ℕ
backoff_initial_ms = 1000

abbrev pub backoff_max_ms : ℕ
backoff_max_ms = 30000

-- `is_open` stands for an EventSource in `connectionRef`, `timer` for the delay of a timeout that
-- is set, and `opened` counts the EventSources opened.
pub record Connection : Type 0 where
  pub status : ConnectionStatus
  pub is_open : Bool
  pub backoff : ℕ
  pub timer : Option ℕ
  pub is_active : Bool
  pub opened : ℕ

-- The state before the effect runs.
unfoldable pub initial : String → Connection
initial gateway_url = record {
  status = if truthy gateway_url then reconnecting else dropped;
  is_open = false;
  backoff = backoff_initial_ms;
  timer = none;
  is_active = true;
  opened = 0;
}

unfoldable pub connect : Connection → Connection
connect c = if c.is_active then record c { is_open = true; opened = c.opened + 1 } else c

-- The effect: nothing without a gateway.
unfoldable pub mount : String → Connection → Connection
unfolding connect
mount gateway_url c = if truthy gateway_url then connect (record c { is_active = true }) else c

unfoldable pub on_open : Connection → Connection
on_open c = record c { backoff = backoff_initial_ms; status = connected }

unfoldable pub on_error : Connection → Connection
on_error c =
    let closed = record c { is_open = false; status = reconnecting } in
    if c.is_active
    then record closed { backoff = min (c.backoff * 2) backoff_max_ms; timer = some c.backoff }
    else closed

-- The timeout's callback.
unfoldable pub on_timer : Connection → Connection
unfolding connect
on_timer c = let fired = record c { timer = none } in if c.is_active then connect fired else fired

-- The cleanup of the effect.
unfoldable pub unmount : Connection → Connection
unmount c = record c { is_active = false; timer = none; is_open = false }

pub data Signal : Type 0 where
  opened_signal error_signal timer_signal : Signal

unfoldable pub signal : Signal → Connection → Connection
unfolding on_open on_error on_timer
signal opened_signal c = on_open c
signal error_signal c = on_error c
signal timer_signal c = on_timer c

unfoldable pub signals : List Signal → Connection → Connection
signals [] c = c
signals (s ∷ ss) c = signals ss (signal s c)

-- The delay before the next attempt is between one second and thirty, and so is that of a timeout
-- that is set.
pub record IsPaced (c : Connection) : Type 0 where
  pub least : backoff_initial_ms ≤ c.backoff
  pub most : c.backoff ≤ backoff_max_ms
  timer_paced : (ms : ℕ) → c.timer ≡ some ms → (backoff_initial_ms ≤ ms) × (ms ≤ backoff_max_ms)

signal-IsPaced : (s : Signal) (c : Connection) → IsPaced c → IsPaced (signal s c)
unfolding signal
signal-IsPaced opened_signal c h = record {
  least = omega arith;
  most = omega arith;
  timer_paced = h.timer_paced;
}
signal-IsPaced error_signal c h = record {
  least = ground (arith, h);
  most = ground (arith, h);
  timer_paced = λ ms e. ground (arith, h, h.timer_paced ms);
}
signal-IsPaced timer_signal c h = record {
  least = ground (arith, h);
  most = ground (arith, h);
  timer_paced = λ ms e. ground (arith, h);
}

signals-IsPaced_from : (ss : List Signal) (c : Connection) → IsPaced c → IsPaced (signals ss c)
unfolding signals
signals-IsPaced_from [] c h = h
signals-IsPaced_from (s ∷ ss) c h = signals-IsPaced_from ss (signal s c) (signal-IsPaced s c h)

mount-IsPaced : (url : String) → IsPaced (mount url (initial url))
unfolding mount initial
mount-IsPaced url = record {
  least = ground arith;
  most = ground arith;
  timer_paced = λ ms e. ground arith;
}

-- Whatever the browser signals, every delay before an attempt to connect again lies between one
-- second and thirty.
signals-IsPaced : (url : String) (ss : List Signal) → IsPaced (signals ss (mount url (initial url)))
signals-IsPaced url ss = signals-IsPaced_from ss (mount url (initial url)) (mount-IsPaced url)

-- An error and the attempt after its delay, a number of times in a row.
unfoldable pub retries : ℕ → Connection → Connection
unfolding on_error on_timer
retries zero c = c
retries (suc n) c = on_timer (on_error (retries n c))

doubled : (n : ℕ) → min (min (1000 * 2 ^ n) 30000 * 2) 30000 ≡ min (1000 * 2 ^ suc n) 30000
doubled n = let e = pow-suc 2 n in omega (arith, e)

retry :
    (c : Connection)
    → c.is_active ≡ true
    → ((on_timer (on_error c)).backoff ≡ min (c.backoff * 2) 30000)
      × ((on_timer (on_error c)).is_active ≡ true)
      × ((on_timer (on_error c)).opened ≡ c.opened + 1)
unfolding on_timer on_error connect
retry c h = (rw h refl, rw h refl, rw h refl)

-- After `n` failed attempts in a row, from a connection that was open, the delay is one second
-- doubled `n` times, at most thirty seconds, the hook is still active and `n` more attempts were
-- made.
retries-backoff :
    (n : ℕ) (c : Connection)
    → c.is_active ≡ true
    → c.backoff ≡ backoff_initial_ms
    → ((retries n c).backoff ≡ min (1000 * 2 ^ n) 30000)
      × ((retries n c).is_active ≡ true)
      × ((retries n c).opened ≡ c.opened + n)
unfolding retries
retries-backoff zero c h e = (omega (arith, e), h, omega arith)
retries-backoff (suc n) c h e =
    let ih = retries-backoff n c h e in
    let step = retry (retries n c) ih.1 in
    (
      step.0 ∙ ap (λ b. min (b * 2) 30000) ih.0 ∙ doubled n,
      step.1,
      step.2 ∙ ap (λ k. k + 1) ih.2 ∙ omega arith,
    )

-- A connection whose effect was cleaned up and that has neither an EventSource nor a timeout.
abbrev IsClosed : Connection → Type 0
IsClosed c = (c.is_active ≡ false) × (c.is_open ≡ false) × (c.timer ≡ none)

signal-IsClosed :
    (s : Signal) (c : Connection)
    → IsClosed c
    → IsClosed (signal s c) × ((signal s c).opened ≡ c.opened)
unfolding signal
signal-IsClosed opened_signal c h = (h, refl)
signal-IsClosed error_signal c h = rw (h.0) ((refl, refl, h.2), refl)
signal-IsClosed timer_signal c h = rw (h.0) ((refl, h.1, refl), refl)

signals-IsClosed :
    (ss : List Signal) (c : Connection)
    → IsClosed c
    → IsClosed (signals ss c) × ((signals ss c).opened ≡ c.opened)
unfolding signals
signals-IsClosed [] c h = (h, refl)
signals-IsClosed (s ∷ ss) c h =
    let step = signal-IsClosed s c h in
    let rest = signals-IsClosed ss (signal s c) step.0 in (rest.0, rest.1 ∙ step.1)

-- Once the effect is cleaned up, no signal that was still under way opens a connection or sets a
-- timeout.
unmount-signals :
    (ss : List Signal) (c : Connection)
    → ((signals ss (unmount c)).is_open ≡ false)
      × ((signals ss (unmount c)).timer ≡ none)
      × ((signals ss (unmount c)).opened ≡ c.opened)
unfolding unmount
unmount-signals ss c =
    let closed = signals-IsClosed ss (unmount c) (refl, refl, refl) in
    (closed.0.1, closed.0.2, closed.1)
