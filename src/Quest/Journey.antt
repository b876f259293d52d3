-- ===== src/Quest/Journey.antt =====
-- What Kiki's quest can come to: the meows in each phase, and an oracle that is closed early.
use faf_hackathon_challenge.Prelude.{
  ℕ, ◌+◌, ◌≤◌, ◌≡◌, refl, ◌∙◌, ap, sym, subst, Bool, true, false, Option, none, some, List, [], ◌∷◌,
  arith, le→leb,
}
use faf_hackathon_challenge.Quest.Oracle.{Click, click, close_panel, reset_to_choice}
use faf_hackathon_challenge.Quest.Trials.{click-close_panel}
use faf_hackathon_challenge.Quest.Burger.{
  QuestPhase, idle_at_crab, needs_meows, walking_to_octopus, at_octopus, failed_task, earned_meows,
  walking_to_crab, ready_to_buy, burger_received, Quest, start, can_request_burger, can_retry_task,
  can_pay_for_burger, phase_on_close, after_click, if_open, QuestEvent, requests, retries, pays,
  phase_elapses, confetti_elapses, clicks, step, run,
}

-- What is known in each phase of the meows, of the panel being open and of the last trial.
abbrev pub Fits : QuestPhase → ℕ → Bool → Option Bool → Type 0
Fits idle_at_crab meows open_now last = open_now ≡ false
Fits needs_meows meows open_now last = (open_now ≡ false) × (last ≡ none)
Fits walking_to_octopus meows open_now last = (open_now ≡ false) × (last ≡ none)
Fits at_octopus meows open_now last =
    (last ≡ some true → 100 ≤ meows) × (open_now ≡ false → last ≡ none)
Fits failed_task meows open_now last = open_now ≡ false
Fits earned_meows meows open_now last = (open_now ≡ false) × (100 ≤ meows)
Fits walking_to_crab meows open_now last = (open_now ≡ false) × (100 ≤ meows)
Fits ready_to_buy meows open_now last = (open_now ≡ false) × (100 ≤ meows)
Fits burger_received meows open_now last = open_now ≡ false

abbrev pub IsFunded : Quest → Type 0
IsFunded q = Fits q.phase q.meows q.oracle_open q.last_trial_passed

after_click-IsFunded :
    (c : Click) (q : Quest) → q.oracle_open ≡ true → IsFunded q → IsFunded (after_click c q)
after_click-IsFunded c q h k = ground arith

if_open-IsFunded :
    (shown : Bool) (c : Click) (q : Quest)
    → q.oracle_open ≡ shown
    → IsFunded q
    → IsFunded (if_open shown c q)
if_open-IsFunded true c q e h = after_click-IsFunded c q e h
if_open-IsFunded false c q e h = h

step-IsFunded : (e : QuestEvent) (q : Quest) → IsFunded q → IsFunded (step e q)
unfolding step
step-IsFunded requests q h = ground arith
step-IsFunded retries q h = ground arith
step-IsFunded pays q h = ground arith
step-IsFunded phase_elapses q h = ground arith
step-IsFunded confetti_elapses q h = h
step-IsFunded (clicks b) q h = if_open-IsFunded q.oracle_open (click b q.panel) q refl h

pub run-IsFunded : (es : List QuestEvent) (q : Quest) → IsFunded q → IsFunded (run es q)
unfolding run
run-IsFunded [] q h = h
run-IsFunded (e ∷ es) q h = run-IsFunded es (step e q) (step-IsFunded e q h)

ready-enough :
    (phase : QuestPhase) (meows : ℕ) (shown : Bool) (last : Option Bool)
    → phase ≡ ready_to_buy
    → Fits phase meows shown last
    → 100 ≤ meows
ready-enough phase meows shown last e h = (subst (λ p. Fits p meows shown last) e h).1

-- Whatever happens in the quest, when Kiki is back and ready to buy, the burger can be paid for, and
-- the payment takes its price from the meows.
pub run-CanPay :
    (es : List QuestEvent)
    → (run es start).phase ≡ ready_to_buy
    → (can_pay_for_burger (run es start).phase (run es start).meows ≡ true)
      × ((step pays (run es start)).phase ≡ burger_received)
      × ((step pays (run es start)).meows + 100 ≡ (run es start).meows)
unfolding step
run-CanPay es h =
    let q = run es start in
    let enough =
      ready-enough q.phase q.meows q.oracle_open q.last_trial_passed h
        (run-IsFunded es start refl) in
    let can : can_pay_for_burger q.phase q.meows ≡ true = rw h (le→leb 100 q.meows enough) in
    (can, ground arith, ground arith)

-- The oracle was closed before a trial was finished.
abbrev pub IsStranded : Quest → Type 0
IsStranded q = (q.phase ≡ at_octopus) × (q.oracle_open ≡ false)

step-IsStranded : (e : QuestEvent) (q : Quest) → IsStranded q → IsStranded (step e q)
unfolding step
step-IsStranded requests q h = ground arith
step-IsStranded retries q h = ground arith
step-IsStranded pays q h = ground arith
step-IsStranded phase_elapses q h = ground arith
step-IsStranded confetti_elapses q h = h
step-IsStranded (clicks b) q h = ground arith

run-IsStranded : (es : List QuestEvent) (q : Quest) → IsStranded q → IsStranded (run es q)
unfolding run
run-IsStranded [] q h = h
run-IsStranded (e ∷ es) q h = run-IsStranded es (step e q) (step-IsStranded e q h)

close-IsStranded :
    (q : Quest)
    → q.phase ≡ at_octopus
    → q.oracle_open ≡ true
    → q.last_trial_passed ≡ none
    → IsStranded (step (clicks close_panel) q)
unfolding step
close-IsStranded q there shown untried =
    let closed : Click = record { panel = reset_to_choice; trial_result = none; closed = true } in
    let same : if_open q.oracle_open (click close_panel q.panel) q ≡ after_click closed q =
      ap (λ c. if_open q.oracle_open c q) (click-close_panel q.panel)
      ∙ ap (λ shown_now. if_open shown_now closed q) shown in
    subst IsStranded (sym same) (ap (λ last. phase_on_close last q.phase) untried ∙ there, refl)

-- If the oracle is closed before any trial is finished, the quest is lost: whatever happens
-- afterwards, Kiki stays at the octopus, the panel stays closed, and no button is shown, neither to
-- request the burger, nor to try again, nor to pay.
pub closed_early-IsStranded :
    (q : Quest) (es : List QuestEvent)
    → q.phase ≡ at_octopus
    → q.oracle_open ≡ true
    → q.last_trial_passed ≡ none
    → let r = run es (step (clicks close_panel) q) in
      (r.phase ≡ at_octopus)
      × (r.oracle_open ≡ false)
      × (can_request_burger r.phase ≡ false)
      × (can_retry_task r.phase ≡ false)
      × (can_pay_for_burger r.phase r.meows ≡ false)
unfolding step
closed_early-IsStranded q es there shown untried =
    let h =
      run-IsStranded es (step (clicks close_panel) q) (close-IsStranded q there shown untried) in
    (h.0, h.1, ground arith, ground arith, ground arith)
