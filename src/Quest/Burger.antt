-- ===== src/Quest/Burger.antt =====
-- frontend/src/features/kiki-burger-quest: lib/kiki-burger-quest.ts and the state of
-- components/kiki-burger-quest.tsx. Timeouts are steps.
use faf_hackathon_challenge.Prelude.{
  ℕ, ◌+◌, ◌-◌, Bool, true, false, Option, none, some, List, [], ◌∷◌, if◌then◌else◌, leb,
}
use faf_hackathon_challenge.Quest.Oracle.{Panel, PanelButton, Click, reset_to_choice, click}

abbrev pub burger_price_meows : ℕ
burger_price_meows = 100

abbrev pub oracle_reward_meows : ℕ
oracle_reward_meows = 100

abbrev pub reward_for_oracle_result : Bool → ℕ
reward_for_oracle_result passed = if passed then oracle_reward_meows else 0

abbrev pub can_buy_burger : ℕ → Bool
can_buy_burger meows = leb burger_price_meows meows

abbrev pub spend_burger_meows : ℕ → ℕ
spend_burger_meows meows = if can_buy_burger meows then meows - burger_price_meows else meows

pub data QuestPhase : Type 0 where
  idle_at_crab needs_meows walking_to_octopus at_octopus failed_task : QuestPhase
  earned_meows walking_to_crab ready_to_buy burger_received : QuestPhase

-- CRAB_POSITION and OCTOPUS_POSITION
pub data Place : Type 0 where
  crab octopus : Place

pub data Direction : Type 0 where
  left right : Direction

-- `panel` is the state that the oracle's panel keeps while it is closed, too.
pub record Quest : Type 0 where
  pub phase : QuestPhase
  pub position : Place
  pub direction : Direction
  pub meows : ℕ
  pub oracle_open : Bool
  pub last_trial_passed : Option Bool
  pub show_confetti : Bool
  pub panel : Panel

abbrev pub start : Quest
start = record {
  phase = idle_at_crab;
  position = crab;
  direction = right;
  meows = 0;
  oracle_open = false;
  last_trial_passed = none;
  show_confetti = false;
  panel = reset_to_choice;
}

abbrev pub can_request_burger : QuestPhase → Bool
can_request_burger idle_at_crab = true
can_request_burger burger_received = true
can_request_burger _ = false

abbrev pub can_retry_task : QuestPhase → Bool
can_retry_task failed_task = true
can_retry_task _ = false

abbrev pub can_pay_for_burger : QuestPhase → ℕ → Bool
can_pay_for_burger ready_to_buy meows = can_buy_burger meows
can_pay_for_burger _ meows = false

abbrev pub request_burger : Quest → Quest
request_burger q = record q { meows = 0; last_trial_passed = none; phase = needs_meows }

abbrev pub retry_task : Quest → Quest
retry_task q = record q { last_trial_passed = none; phase = at_octopus; oracle_open = true }

abbrev pub buy_burger : Quest → Quest
buy_burger q = record q {
  meows = spend_burger_meows q.meows;
  phase = burger_received;
  show_confetti = true;
}

-- The timeout of the effect that depends on the phase.
abbrev pub phase_timeout : QuestPhase → Quest → Quest
phase_timeout needs_meows q = record q {
  direction = right;
  phase = walking_to_octopus;
  position = octopus;
}
phase_timeout walking_to_octopus q = record q { phase = at_octopus; oracle_open = true }
phase_timeout earned_meows q = record q {
  direction = left;
  phase = walking_to_crab;
  position = crab;
}
phase_timeout walking_to_crab q = record q { phase = ready_to_buy }
phase_timeout _ q = q

-- The phase that `handleOracleClose` leaves.
abbrev pub phase_on_close : Option Bool → QuestPhase → QuestPhase
phase_on_close (some true) phase = earned_meows
phase_on_close (some false) phase = failed_task
phase_on_close none phase = phase

abbrev pub handle_oracle_close : Quest → Quest
handle_oracle_close q = record q {
  oracle_open = false;
  phase = phase_on_close q.last_trial_passed q.phase;
}

abbrev pub handle_trial_result : Bool → Quest → Quest
handle_trial_result passed q = record q {
  last_trial_passed = some passed;
  meows = if passed then q.meows + reward_for_oracle_result true else q.meows;
}

abbrev pub reported : Option Bool → Quest → Quest
reported none q = q
reported (some passed) q = handle_trial_result passed q

abbrev pub after_click : Click → Quest → Quest
after_click c q =
    let next = reported c.trial_result (record q { panel = c.panel }) in
    if c.closed then handle_oracle_close next else next

abbrev pub if_open : Bool → Click → Quest → Quest
if_open true c q = after_click c q
if_open false c q = q

pub data QuestEvent : Type 0 where
  requests retries pays phase_elapses confetti_elapses : QuestEvent
  clicks : PanelButton → QuestEvent

-- A button works while it is shown, and the panel's while the panel is open.
unfoldable pub step : QuestEvent → Quest → Quest
unfolding click
step requests q = if can_request_burger q.phase then request_burger q else q
step retries q = if can_retry_task q.phase then retry_task q else q
step pays q = if can_pay_for_burger q.phase q.meows then buy_burger q else q
step phase_elapses q = phase_timeout q.phase q
step confetti_elapses q = record q { show_confetti = false }
step (clicks b) q = if_open q.oracle_open (click b q.panel) q

unfoldable pub run : List QuestEvent → Quest → Quest
run [] q = q
run (e ∷ es) q = run es (step e q)
