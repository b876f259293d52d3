-- ===== src/Web/GoatUnanswered.antt =====
-- When the popup of Web/GoatFarm.antt asks the farm again, and when it never does.
use faf_hackathon_challenge.Prelude.{
  ℕ, ◌+◌, ◌≤◌, Bool, true, false, ◌≡◌, refl, ◌∙◌, ap, Option, none, some, String, List, [], ◌∷◌,
  if◌then◌else◌, ltb, ◌&&◌, arith, All,
}
use faf_hackathon_challenge.Web.GoatFarm.{
  GoatStock, Farm, seconds_passed, minus_or_zero, seconds_of, seconds_until_restock, same_seconds,
  same_bool, is_zero, rendered, can_buy, FarmEvent, passes, toggles, closes, ticks, loads,
  load_fails, refetches, buys, purchase_ends, after_event, farm_step, farm_run, mount_farm,
}
use faf_hackathon_challenge.Web.GoatClock.{farm_run-IsSound}
use faf_hackathon_challenge.Web.GoatCountdown.{zero_later, is_some→eq}

-- What happens on a popup that stays open and gets no answer of the farm's.
abbrev is_quiet : FarmEvent → Bool
is_quiet (passes d) = true
is_quiet toggles = false
is_quiet closes = false
is_quiet ticks = true
is_quiet (loads items seconds) = false
is_quiet load_fails = true
is_quiet refetches = true
is_quiet (buys guest id) = true
is_quiet purchase_ends = true

-- Nothing waits, the popup is open and at zero, and its time is not ahead.
record IsStopped (count : ℕ) (f : Farm) : Type 0 where
  pub opened : f.opened ≡ true
  pub zero : seconds_until_restock f ≡ some 0
  pub idle : f.refetch_pending ≡ false
  pub asked : f.refetched ≡ count
  pub past : f.now_ms ≤ f.clock

stays_idle :
    (was_open open_now pending : Bool) (before seconds : Option ℕ)
    → was_open ≡ true
    → open_now ≡ true
    → before ≡ some 0
    → seconds ≡ some 0
    → pending ≡ false
    → (if same_bool was_open open_now && same_seconds before seconds
        then pending
        else open_now && is_zero seconds)
      ≡ false
stays_idle wo o p b s wo_e o_e b_e s_e p_e = rw (wo_e, o_e, b_e, s_e) p_e

some_zero :
    (c : Bool) (x y : ℕ)
    → (x ≡ 0 → y ≡ 0)
    → (if c then some x else none) ≡ some 0
    → (if c then some y else none) ≡ some 0
some_zero true x y f z = ap some (f (is_some→eq z))
some_zero false x y f z = z

seconds_of_later :
    (a b : ℕ) (o : Option GoatStock) → a ≤ b → seconds_of a o ≡ some 0 → seconds_of b o ≡ some 0
seconds_of_later a b none h z = z
seconds_of_later a b (some s) h z =
    some_zero (ltb 0 s.data_updated_at)
      (minus_or_zero s.seconds_until_restock (seconds_passed a s.data_updated_at))
      (minus_or_zero s.seconds_until_restock (seconds_passed b s.data_updated_at))
      (zero_later a b s.data_updated_at s.seconds_until_restock h) z

-- An event that keeps the popup open and its time moving on leaves it stopped.
kept-IsStopped :
    (count : ℕ) (f g : Farm)
    → IsStopped count f
    → g.opened ≡ true
    → g.stock_data ≡ f.stock_data
    → f.now_ms ≤ g.now_ms
    → g.refetch_pending ≡ false
    → g.refetched ≡ count
    → g.now_ms ≤ g.clock
    → IsStopped count (rendered f g)
unfolding seconds_until_restock
kept-IsStopped count f g h opened same later idle asked past =
    let zero_now : seconds_of g.now_ms g.stock_data ≡ some 0 =
      ap (seconds_of g.now_ms) same
      ∙ seconds_of_later f.now_ms g.now_ms f.stock_data later h.zero in
    record {
      opened = opened;
      zero = zero_now;
      idle =
          stays_idle f.opened g.opened g.refetch_pending (seconds_of f.now_ms f.stock_data)
            (seconds_of g.now_ms g.stock_data) h.opened opened h.zero zero_now idle;
      asked = asked;
      past = past;
    }

bought-IsStopped :
    (able : Bool) (id : String) (count : ℕ) (f : Farm)
    → IsStopped count f
    → IsStopped count
        (rendered f (if able then record f { purchasing = true; sent = id ∷ f.sent } else f))
bought-IsStopped true id count f h =
    kept-IsStopped count f (record f { purchasing = true; sent = id ∷ f.sent }) h h.opened refl
      (omega arith) h.idle h.asked h.past
bought-IsStopped false id count f h =
    kept-IsStopped count f f h h.opened refl (omega arith) h.idle h.asked h.past

quiet-IsStopped :
    (e : FarmEvent) (count : ℕ) (f : Farm)
    → is_quiet e ≡ true
    → IsStopped count f
    → IsStopped count (farm_step e f)
unfolding farm_step
quiet-IsStopped (passes d) count f q h =
    kept-IsStopped count f (after_event (passes d) f) h h.opened refl (omega arith) h.idle h.asked
      (let past = h.past in omega arith)
quiet-IsStopped toggles count f q h = cc
quiet-IsStopped closes count f q h = cc
quiet-IsStopped ticks count f q h =
    kept-IsStopped count f (after_event ticks f) h h.opened refl (let past = h.past in ground arith)
      h.idle h.asked (let past = h.past in ground arith)
quiet-IsStopped (loads items seconds) count f q h = cc
quiet-IsStopped load_fails count f q h =
    kept-IsStopped count f f h h.opened refl (omega arith) h.idle h.asked h.past
quiet-IsStopped refetches count f q h =
    kept-IsStopped count f (after_event refetches f) h h.opened refl (omega arith) refl
      (ap (λ (b : Bool). if b then f.refetched + 1 else f.refetched) h.idle ∙ h.asked) h.past
quiet-IsStopped (buys guest id) count f q h = bought-IsStopped (can_buy guest id f) id count f h
quiet-IsStopped purchase_ends count f q h =
    kept-IsStopped count f (after_event purchase_ends f) h h.opened refl (omega arith) h.idle
      h.asked h.past

quiet_run-IsStopped :
    (es : List FarmEvent) (count : ℕ) (f : Farm)
    → All (λ e. is_quiet e ≡ true) es
    → IsStopped count f
    → IsStopped count (farm_run es f)
unfolding farm_run
quiet_run-IsStopped [] count f q h = h
quiet_run-IsStopped (e ∷ es) count f (q, qs) h =
    quiet_run-IsStopped es count (farm_step e f) qs (quiet-IsStopped e count f q h)

-- Once the popup has asked again at zero and the farm does not answer, it never asks again while it
-- stays open: whatever was done before, from an open popup at zero with no refetch waiting,
-- time, ticks, failed loads and purchases leave it at zero and call `refetch` no more.
unanswered-stays :
    (before es : List FarmEvent) (now : ℕ)
    → (farm_run before (mount_farm now)).opened ≡ true
    → seconds_until_restock (farm_run before (mount_farm now)) ≡ some 0
    → (farm_run before (mount_farm now)).refetch_pending ≡ false
    → All (λ e. is_quiet e ≡ true) es
    → let f = farm_run before (mount_farm now) in
      (seconds_until_restock (farm_run es f) ≡ some 0) × ((farm_run es f).refetched ≡ f.refetched)
unanswered-stays before es now open_now zero_now idle quiet =
    let f = farm_run before (mount_farm now) in
    let h = quiet_run-IsStopped es f.refetched f quiet (record {
      opened = open_now;
      zero = zero_now;
      idle = idle;
      asked = refl;
      past = (farm_run-IsSound before now).past.0;
    }) in
    (h.zero, h.asked)
