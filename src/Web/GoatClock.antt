-- ===== src/Web/GoatClock.antt =====
-- The countdown and the requests of Web/GoatFarm.antt, over any sequence of events.
use faf_hackathon_challenge.Prelude.{
  ℕ, ◌+◌, ◌≤◌, Bool, true, false, ◌≡◌, refl, ◌∙◌, ap, sym, subst, inl, inr, Option, none, some,
  List, [], ◌∷◌, length, if◌then◌else◌, ◌&&◌, arith, Bool-cases,
}
use faf_hackathon_challenge.Web.GoatFarm.{
  GoatStock, Farm, seconds_of, seconds_until_restock, same_seconds, same_bool, is_zero, can_buy,
  FarmEvent, passes, toggles, closes, ticks, loads, load_fails, refetches, buys, purchase_ends,
  after_event, farm_step, farm_run, mount_farm,
}

-- What was loaded before the clock.
abbrev pub LoadedBefore : ℕ → Option GoatStock → Type 0
LoadedBefore clock none = Unit
LoadedBefore clock (some s) = s.data_updated_at ≤ clock

-- A refetch waits only on an open popup at zero, each purchase sent is answered but the one under way,
-- and nothing is from the future.
pub record IsSound (f : Farm) : Type 0 where
  pub waits : f.refetch_pending ≡ true → (f.opened ≡ true) × (seconds_until_restock f ≡ some 0)
  pub purchases : length f.sent ≡ (if f.purchasing then f.answered + 1 else f.answered)
  pub past : (f.now_ms ≤ f.clock) × LoadedBefore f.clock f.stock_data

same_seconds→eq : (a b : Option ℕ) → same_seconds a b ≡ true → a ≡ b
same_seconds→eq none none h = refl
same_seconds→eq none (some n) h = cc
same_seconds→eq (some m) none h = cc
same_seconds→eq (some m) (some n) h = ap some (ground arith)

same_bool→eq : (a b : Bool) → same_bool a b ≡ true → a ≡ b
same_bool→eq true b h = sym h
same_bool→eq false b h = ground arith

is_zero→eq : (o : Option ℕ) → is_zero o ≡ true → o ≡ some 0
is_zero→eq none h = cc
is_zero→eq (some n) h = ap some (ground arith)

kept_waits :
    (before_open open_now before_pending pending : Bool) (before_seconds seconds : Option ℕ)
    → (before_pending ≡ true → (before_open ≡ true) × (before_seconds ≡ some 0))
    → (pending ≡ true → before_pending ≡ true)
    → (if same_bool before_open open_now && same_seconds before_seconds seconds
        then pending
        else open_now && is_zero seconds)
      ≡ true
    → (open_now ≡ true) × (seconds ≡ some 0)
kept_waits bo o bp p bs s waits still h = elim (Bool-cases (same_bool bo o && same_seconds bs s)) [
  | inl same ↦
      let pending : p ≡ true =
        subst (λ (b : Bool). (if b then p else o && is_zero s) ≡ true) same h in
      let (was_open, was_zero) = waits (still pending) in
      (
        sym (same_bool→eq bo o (ground arith)) ∙ was_open,
        sym (same_seconds→eq bs s (ground arith)) ∙ was_zero,
      )
  | inr other ↦
      let zero_now : (o && is_zero s) ≡ true =
        subst (λ (b : Bool). (if b then p else o && is_zero s) ≡ true) other h in
      (ground arith, is_zero→eq s (ground arith))
]

after_event-pending :
    (e : FarmEvent) (f : Farm) → (after_event e f).refetch_pending ≡ true → f.refetch_pending ≡ true
after_event-pending (passes d) f h = h
after_event-pending toggles f h = h
after_event-pending closes f h = h
after_event-pending ticks f h = h
after_event-pending (loads items seconds) f h = h
after_event-pending load_fails f h = h
after_event-pending refetches f h = cc
after_event-pending (buys guest id) f h = elim (Bool-cases (can_buy guest id f)) [
  | inl able ↦ rw able at h
  | inr unable ↦ rw unable at h
]
after_event-pending purchase_ends f h = h

after_event-purchases :
    (e : FarmEvent) (f : Farm)
    → length f.sent ≡ (if f.purchasing then f.answered + 1 else f.answered)
    → length (after_event e f).sent ≡ (
        if (after_event e f).purchasing
        then (after_event e f).answered + 1
        else (after_event e f).answered)
after_event-purchases (passes d) f h = h
after_event-purchases toggles f h = h
after_event-purchases closes f h = h
after_event-purchases ticks f h = h
after_event-purchases (loads items seconds) f h = h
after_event-purchases load_fails f h = h
after_event-purchases refetches f h = h
after_event-purchases (buys guest id) f h = elim (Bool-cases (can_buy guest id f)) [
  | inl able ↦ rw able (ground arith)
  | inr unable ↦ rw unable h
]
after_event-purchases purchase_ends f h = ground arith

LoadedBefore-later : (a b : ℕ) (o : Option GoatStock) → a ≤ b → LoadedBefore a o → LoadedBefore b o
LoadedBefore-later a b none h l = tt
LoadedBefore-later a b (some s) h l = omega arith

after_event-past :
    (e : FarmEvent) (f : Farm)
    → (f.now_ms ≤ f.clock) × LoadedBefore f.clock f.stock_data
    → ((after_event e f).now_ms ≤ (after_event e f).clock)
      × LoadedBefore (after_event e f).clock (after_event e f).stock_data
after_event-past (passes d) f (p, l) =
    (omega arith, LoadedBefore-later f.clock (f.clock + d) f.stock_data (omega arith) l)
after_event-past toggles f h = h
after_event-past closes f h = h
after_event-past ticks f (p, l) = (ground arith, l)
after_event-past (loads items seconds) f (p, l) = (p, omega arith)
after_event-past load_fails f h = h
after_event-past refetches f h = h
after_event-past (buys guest id) f h = elim (Bool-cases (can_buy guest id f)) [
  | inl able ↦ rw able h
  | inr unable ↦ rw unable h
]
after_event-past purchase_ends f h = h

farm_step-IsSound : (e : FarmEvent) (f : Farm) → IsSound f → IsSound (farm_step e f)
unfolding farm_step seconds_until_restock
farm_step-IsSound e f h = record {
  waits =
      kept_waits f.opened (after_event e f).opened f.refetch_pending
        (after_event e f).refetch_pending (seconds_of f.now_ms f.stock_data)
        (seconds_of (after_event e f).now_ms (after_event e f).stock_data) h.waits
        (after_event-pending e f);
  purchases = after_event-purchases e f h.purchases;
  past = after_event-past e f h.past;
}

farm_run-IsSound_from : (es : List FarmEvent) (f : Farm) → IsSound f → IsSound (farm_run es f)
unfolding farm_run
farm_run-IsSound_from [] f h = h
farm_run-IsSound_from (e ∷ es) f h =
    farm_run-IsSound_from es (farm_step e f) (farm_step-IsSound e f h)

-- Whatever happens on the map from the time that the farm's marker is mounted: a refetch waits only
-- while the popup is open and its countdown is at zero; of the purchases that were sent all
-- are answered but the one under way, if there is one; and the popup's time and that of its stock are
-- not ahead of the clock.
pub farm_run-IsSound : (es : List FarmEvent) (now : ℕ) → IsSound (farm_run es (mount_farm now))
farm_run-IsSound es now =
    farm_run-IsSound_from es (mount_farm now)
      (record { waits = λ h. cc; purchases = refl; past = (omega arith, tt) })
