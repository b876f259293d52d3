-- ===== src/Quest/Oracle.antt =====
-- frontend/src/features/octopus-oracle: lib/octopus-oracle.ts and the state of
-- components/octopus-oracle-panel.tsx.
use faf_hackathon_challenge.Prelude.{
  ℕ, suc, ◌==◌, ◌&&◌, String, Bool, true, false, Option, none, some, List, [], ◌∷◌, ◌++◌, map,
  length, select, get_elem?, if◌then◌else◌, str_eq, ltb, leb, not,
}

pub data OracleColor : Type 0 where
  blue red violet amber : OracleColor

-- `===` on colors
abbrev pub same_color : OracleColor → OracleColor → Bool
same_color blue blue = true
same_color red red = true
same_color violet violet = true
same_color amber amber = true
same_color _ _ = false

pub record OracleQuestion : Type 0 where
  pub id : String
  pub question : String
  pub options : List String
  pub correct_index : ℕ

abbrev pub blue_trial_questions : List OracleQuestion
blue_trial_questions =
    record {
      id = "pineapple-home";
      question = "Who lives in a pineapple under the sea?";
      options = "Sandy Cheeks" ∷ "SpongeBob SquarePants" ∷ "Patrick Star" ∷ [];
      correct_index = 1;
    }
    ∷ record {
      id = "moon-landing";
      question = "In what year did humans first land on the Moon?";
      options = "1969" ∷ "1977" ∷ "1984" ∷ [];
      correct_index = 0;
    }
    ∷ record {
      id = "octopus-arms";
      question = "How many arms does an octopus have?";
      options = "Six" ∷ "Eight" ∷ "Ten" ∷ [];
      correct_index = 1;
    }
    ∷ []

abbrev pub red_trial_sequence : List OracleColor
red_trial_sequence = blue ∷ red ∷ violet ∷ amber ∷ []

pub record QuizResult : Type 0 where
  pub passed : Bool
  pub correct : ℕ

unfoldable pub evaluate_quiz : List Bool → QuizResult
evaluate_quiz results =
    let correct = length (select (λ b. b) results) in
    record { passed = leb 2 correct; correct = correct }

-- `color === actual[index]`, where an index past the end gives `undefined`.
abbrev pub color_at : List OracleColor → ℕ → OracleColor → Bool
color_at actual i color = elim (get_elem? actual i) [ none ↦ false | some c ↦ same_color color c ]

-- `expected.every(...)`, from the index `i` on.
abbrev pub every_from : List OracleColor → ℕ → List OracleColor → Bool
every_from actual i [] = true
every_from actual i (color ∷ expected) =
    color_at actual i color && every_from actual (suc i) expected

unfoldable pub evaluate_sequence : List OracleColor → List OracleColor → Bool
evaluate_sequence expected actual = length expected == length actual && every_from actual 0 expected

pub data OracleMode : Type 0 where
  choice blue_trial red_trial result_shown : OracleMode

-- The message under the title is a text for display only, and left out.
pub record ResultState : Type 0 where
  pub passed : Bool
  pub title : String

-- `answers` has an entry for each question that was answered.
pub record Panel : Type 0 where
  pub mode : OracleMode
  pub answers : List (String × ℕ)
  pub sequence_input : List OracleColor
  pub result : Option ResultState

abbrev pub reset_to_choice : Panel
reset_to_choice = record { mode = choice; answers = []; sequence_input = []; result = none }

-- `answers[id]`
abbrev pub answer_to : String → List (String × ℕ) → Option ℕ
answer_to id [] = none
answer_to id ((k, n) ∷ answers) = if str_eq k id then some n else answer_to id answers

-- `{ ...answers, [id]: n }`
abbrev pub put_answer : String → ℕ → List (String × ℕ) → List (String × ℕ)
put_answer id n [] = (id, n) ∷ []
put_answer id n ((k, m) ∷ answers) =
    if str_eq k id then (id, n) ∷ answers else (k, m) ∷ put_answer id n answers

abbrev pub is_right : List (String × ℕ) → OracleQuestion → Bool
is_right answers q = elim (answer_to q.id answers) [ none ↦ false | some n ↦ n == q.correct_index ]

-- What a click comes to: the panel, the argument of `onTrialResult` if it is called, and whether
-- `onClose` is called.
pub record Click : Type 0 where
  pub panel : Panel
  pub trial_result : Option Bool
  pub closed : Bool

abbrev pub only : Panel → Click
only p = record { panel = p; trial_result = none; closed = false }

abbrev pub show_result : Bool → String → String → Panel → Click
show_result passed success failure p = record {
  panel = record p {
    result = some (record { passed = passed; title = if passed then success else failure });
    mode = result_shown;
  };
  trial_result = some passed;
  closed = false;
}

unfoldable pub finish_blue_trial : Panel → Click
unfolding evaluate_quiz
finish_blue_trial p =
    show_result (evaluate_quiz (map (is_right p.answers) blue_trial_questions)).passed
      "Kiki keeps a clear mind" "The oracle clouds Kiki's thoughts" p

unfoldable pub choose_color : OracleColor → Panel → Click
unfolding evaluate_sequence
choose_color color p =
    let next_input = p.sequence_input ++ color ∷ [] in
    let next = record p { sequence_input = next_input } in
    if not (length next_input == length red_trial_sequence)
    then only next
    else show_result (evaluate_sequence red_trial_sequence next_input) "Kiki reads the current"
        "Ink everywhere" next

pub data PanelButton : Type 0 where
  blue_pill red_pill ask_oracle reset_sequence back close_panel : PanelButton
  option : String → ℕ → PanelButton
  color : OracleColor → PanelButton

-- A click on a button, where the mode shows it; `back` is also "Try another pill", and
-- `close_panel` also "Return to island".
abbrev pub click_in : OracleMode → PanelButton → Panel → Click
unfolding finish_blue_trial choose_color
click_in choice blue_pill p = only (record p { mode = blue_trial })
click_in choice red_pill p = only (record p { mode = red_trial })
click_in blue_trial (option id n) p = only (record p { answers = put_answer id n p.answers })
click_in blue_trial ask_oracle p =
    if ltb (length p.answers) (length blue_trial_questions) then only p else finish_blue_trial p
click_in blue_trial back p = only reset_to_choice
click_in red_trial (color c) p = choose_color c p
click_in red_trial reset_sequence p = only (record p { sequence_input = [] })
click_in red_trial back p = only reset_to_choice
click_in result_shown back p = only reset_to_choice
click_in _ close_panel p = record { panel = reset_to_choice; trial_result = none; closed = true }
click_in _ b p = only p

unfoldable pub click : PanelButton → Panel → Click
unfolding click_in
click b p = click_in p.mode b p
