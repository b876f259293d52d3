-- ===== src/Quest/Examples.antt =====
-- Kiki's quest on a concrete run, and its theorems at inputs that meet their hypotheses.
use faf_hackathon_challenge.Prelude.{◌+◌, ◌≡◌, refl, true, false, none, List, [], ◌∷◌, ◌++◌}
use faf_hackathon_challenge.Quest.Oracle.{OracleColor, Panel, PanelButton, red_trial, click}
use faf_hackathon_challenge.Quest.Burger.{
  QuestPhase, QuestEvent, Quest, start, can_pay_for_burger, can_request_burger, can_retry_task,
  step, run,
}
use faf_hackathon_challenge.Quest.Journey.{run-CanPay, closed_early-IsStranded}
use faf_hackathon_challenge.Quest.Progress.{run-CanFinish_unless}

-- From the request to the oracle's panel.
abbrev arrival : List QuestEvent
arrival = QuestEvent.requests ∷ QuestEvent.phase_elapses ∷ QuestEvent.phase_elapses ∷ []

abbrev trial : List QuestEvent
trial =
    QuestEvent.clicks PanelButton.red_pill
    ∷ QuestEvent.clicks (PanelButton.color OracleColor.blue)
    ∷ QuestEvent.clicks (PanelButton.color OracleColor.red)
    ∷ QuestEvent.clicks (PanelButton.color OracleColor.violet)
    ∷ QuestEvent.clicks (PanelButton.color OracleColor.amber)
    ∷ QuestEvent.clicks PanelButton.close_panel
    ∷ QuestEvent.phase_elapses
    ∷ QuestEvent.phase_elapses
    ∷ []

abbrev there_and_back : List QuestEvent
there_and_back = arrival ++ trial

meows_test : (run there_and_back start).meows ≡ 100
unfolding run step click
meows_test = refl

abbrev at_oracle : Panel
at_oracle = record {
  mode = red_trial;
  answers = [];
  sequence_input = OracleColor.blue ∷ OracleColor.red ∷ OracleColor.violet ∷ [];
  result = none;
}

run-CanPay_example :
    (can_pay_for_burger (run there_and_back start).phase (run there_and_back start).meows ≡ true)
    × ((step QuestEvent.pays (run there_and_back start)).phase ≡ QuestPhase.burger_received)
    × ((step QuestEvent.pays (run there_and_back start)).meows + 100
        ≡ (run there_and_back start).meows)
unfolding run step click
run-CanPay_example = run-CanPay there_and_back refl

abbrev visiting : Quest
visiting = record start { phase = QuestPhase.at_octopus; oracle_open = true }

closed_early-IsStranded_example :
    let r = run arrival (step (QuestEvent.clicks PanelButton.close_panel) visiting) in
    (r.phase ≡ QuestPhase.at_octopus)
    × (r.oracle_open ≡ false)
    × (can_request_burger r.phase ≡ false)
    × (can_retry_task r.phase ≡ false)
    × (can_pay_for_burger r.phase r.meows ≡ false)
closed_early-IsStranded_example = closed_early-IsStranded visiting arrival refl refl refl

run-CanFinish_unless_example :
    (fs : List QuestEvent) × ((run fs (run arrival start)).phase ≡ QuestPhase.burger_received)
unfolding run step click
run-CanFinish_unless_example = run-CanFinish_unless arrival λ lost. cc
