-- ===== src/Quest/Progress.antt =====
-- What it takes to reach the burger from where the quest stands.
use faf_hackathon_challenge.Prelude.{
  ◌+◌, ◌≤◌, ◌≡◌, refl, ◌∙◌, ap, sym, subst, true, false, List, [], ◌∷◌, ◌++◌, arith, Bool-cases,
  inl, inr, le→leb,
}
use faf_hackathon_challenge.Quest.Oracle.{
  OracleColor, OracleMode, choice, click, red_pill, back, reset_sequence, color, close_panel,
}
use faf_hackathon_challenge.Quest.Burger.{
  QuestPhase, idle_at_crab, needs_meows, walking_to_octopus, at_octopus, failed_task, earned_meows,
  walking_to_crab, ready_to_buy, burger_received, Quest, start, can_pay_for_burger, QuestEvent,
  requests, retries, pays, phase_elapses, clicks, step, run,
}
use faf_hackathon_challenge.Quest.Journey.{Fits, IsStranded, run-IsFunded}

abbrev pub CanFinish : Quest → Type 0
CanFinish q = (es : List QuestEvent) × ((run es q).phase ≡ burger_received)

run-append : (es fs : List QuestEvent) (q : Quest) → run (es ++ fs) q ≡ run fs (run es q)
unfolding run
run-append [] fs q = refl
run-append (e ∷ es) fs q = run-append es fs (step e q)

run-CanFinish : (es : List QuestEvent) (q : Quest) → CanFinish (run es q) → CanFinish q
run-CanFinish es q (fs, h) = (es ++ fs, ap (λ (r : Quest). r.phase) (run-append es fs q) ∙ h)

step-CanFinish : (e : QuestEvent) (q : Quest) → CanFinish (step e q) → CanFinish q
unfolding run
step-CanFinish e q (es, h) = (e ∷ es, h)

ready-CanFinish : (q : Quest) → q.phase ≡ ready_to_buy → 100 ≤ q.meows → CanFinish q
unfolding run step
ready-CanFinish q e enough =
    let can : can_pay_for_burger q.phase q.meows ≡ true = rw e (le→leb 100 q.meows enough) in
    (pays ∷ [], ground arith)

to_crab-CanFinish : (q : Quest) → q.phase ≡ walking_to_crab → 100 ≤ q.meows → CanFinish q
unfolding step
to_crab-CanFinish q e enough =
    step-CanFinish phase_elapses q
      (ready-CanFinish (step phase_elapses q) (ground arith) (ground arith))

earned-CanFinish : (q : Quest) → q.phase ≡ earned_meows → 100 ≤ q.meows → CanFinish q
unfolding step
earned-CanFinish q e enough =
    step-CanFinish phase_elapses q
      (to_crab-CanFinish (step phase_elapses q) (ground arith) (ground arith))

-- Whatever the open panel shows, these clicks pass the red trial and leave.
abbrev winning : List QuestEvent
winning =
    clicks back
    ∷ clicks red_pill
    ∷ clicks reset_sequence
    ∷ clicks (color OracleColor.blue)
    ∷ clicks (color OracleColor.red)
    ∷ clicks (color OracleColor.violet)
    ∷ clicks (color OracleColor.amber)
    ∷ clicks close_panel
    ∷ []

abbrev at_oracle : OracleMode → Quest → Quest
at_oracle m q = record q {
  phase = at_octopus;
  oracle_open = true;
  panel = record q.panel { mode = m };
}

winning-earns :
    (m : OracleMode) (q : Quest)
    → ((run winning (at_oracle m q)).phase ≡ earned_meows)
      × ((run winning (at_oracle m q)).meows ≡ q.meows + 100)
unfolding run step click
winning-earns choice q = (refl, refl)
winning-earns _ q = (refl, refl)

open-CanFinish : (q : Quest) → q.phase ≡ at_octopus → q.oracle_open ≡ true → CanFinish q
open-CanFinish q there shown =
    let same : at_oracle q.panel.mode q ≡ q =
      λ i. record q { phase = sym there i; oracle_open = sym shown i } in
    let won = winning-earns q.panel.mode q in
    subst CanFinish same (
      run-CanFinish winning (at_oracle q.panel.mode q)
        (earned-CanFinish (run winning (at_oracle q.panel.mode q)) won.0 (rw won.1 (omega arith))))

to_octopus-CanFinish : (q : Quest) → q.phase ≡ walking_to_octopus → CanFinish q
unfolding step
to_octopus-CanFinish q e =
    step-CanFinish phase_elapses q
      (open-CanFinish (step phase_elapses q) (ground arith) (ground arith))

needs-CanFinish : (q : Quest) → q.phase ≡ needs_meows → CanFinish q
unfolding step
needs-CanFinish q e =
    step-CanFinish phase_elapses q (to_octopus-CanFinish (step phase_elapses q) (ground arith))

at_phase-CanFinish :
    (phase : QuestPhase) (q : Quest)
    → q.phase ≡ phase
    → Fits phase q.meows q.oracle_open q.last_trial_passed
    → ¬ (IsStranded q)
    → CanFinish q
unfolding step run
at_phase-CanFinish idle_at_crab q e h lost =
    step-CanFinish requests q (needs-CanFinish (step requests q) (ground arith))
at_phase-CanFinish needs_meows q e h lost = needs-CanFinish q e
at_phase-CanFinish walking_to_octopus q e h lost = to_octopus-CanFinish q e
at_phase-CanFinish at_octopus q e h lost = elim (Bool-cases q.oracle_open) [
  | inl shown ↦ open-CanFinish q e shown
  | inr hidden ↦ absurd (lost (e, hidden))
]
at_phase-CanFinish failed_task q e h lost =
    step-CanFinish retries q (open-CanFinish (step retries q) (ground arith) (ground arith))
at_phase-CanFinish earned_meows q e h lost = earned-CanFinish q e h.1
at_phase-CanFinish walking_to_crab q e h lost = to_crab-CanFinish q e h.1
at_phase-CanFinish ready_to_buy q e h lost = ready-CanFinish q e h.1
at_phase-CanFinish burger_received q e h lost = ([], e)

-- Wherever the quest has come to, unless the oracle was closed before a trial was finished, Kiki can
-- still get the burger.
pub run-CanFinish_unless :
    (es : List QuestEvent)
    → ¬ (((run es start).phase ≡ at_octopus) × ((run es start).oracle_open ≡ false))
    → (fs : List QuestEvent) × ((run fs (run es start)).phase ≡ burger_received)
run-CanFinish_unless es lost =
    at_phase-CanFinish (run es start).phase (run es start) refl (run-IsFunded es start refl) lost
