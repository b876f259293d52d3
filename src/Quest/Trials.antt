-- ===== src/Quest/Trials.antt =====
-- The trials of the octopus oracle: what passes them, and what the panel reports of them.
use faf_hackathon_challenge.Prelude.{
  ℕ, suc, ◌≡◌, refl, ◌↔◌, ◌∙◌, ap, sym, subst, true, ◌&&◌, none, some, List, [], ◌∷◌, ◌++◌, arith,
  length, ◌==◌, Bool-cases, inl, inr,
}
use faf_hackathon_challenge.Quest.Oracle.{
  OracleColor, same_color, red_trial_sequence, color_at, every_from, evaluate_sequence, OracleMode,
  choice, Panel, reset_to_choice, click_in, click, close_panel, choose_color,
}

same_color→eq : (a b : OracleColor) → same_color a b ≡ true → a ≡ b
same_color→eq a b h = ground arith

same_color_refl : (a : OracleColor) → same_color a a ≡ true
same_color_refl a = ground arith

close_in :
    (m : OracleMode) (p : Panel)
    → click_in m close_panel p
      ≡ record { panel = reset_to_choice; trial_result = none; closed = true }
unfolding click
close_in choice p = refl
close_in _ p = refl

-- Closing the panel resets it and reports nothing.
pub click-close_panel :
    (p : Panel)
    → click close_panel p ≡ record { panel = reset_to_choice; trial_result = none; closed = true }
unfolding click
click-close_panel p = close_in p.mode p

-- The comparison by index is the comparison of the rest of the list.
every_from-suc :
    (c : OracleColor) (actual expected : List OracleColor) (i : ℕ)
    → every_from (c ∷ actual) (suc i) expected ≡ every_from actual i expected
every_from-suc c actual [] i = refl
every_from-suc c actual (x ∷ expected) i =
    ap (λ b. color_at actual i x && b) (every_from-suc c actual expected (suc i))

evaluate_sequence-cons :
    (x y : OracleColor) (xs ys : List OracleColor)
    → evaluate_sequence (x ∷ xs) (y ∷ ys) ≡ (same_color x y && evaluate_sequence xs ys)
unfolding evaluate_sequence
evaluate_sequence-cons x y xs ys = ground (arith, every_from-suc y ys xs 0)

evaluate_sequence-eq : (xs ys : List OracleColor) → evaluate_sequence xs ys ≡ true → xs ≡ ys
unfolding evaluate_sequence
evaluate_sequence-eq [] [] h = refl
evaluate_sequence-eq [] (y ∷ ys) h = ground arith
evaluate_sequence-eq (x ∷ xs) [] h = ground arith
evaluate_sequence-eq (x ∷ xs) (y ∷ ys) h =
    let both : (same_color x y && evaluate_sequence xs ys) ≡ true =
      sym (evaluate_sequence-cons x y xs ys) ∙ h in
    let rest = evaluate_sequence-eq xs ys in ground (arith, same_color→eq x y, rest)

evaluate_sequence_self : (xs : List OracleColor) → evaluate_sequence xs xs ≡ true
evaluate_sequence_self [] = unfold evaluate_sequence in refl
evaluate_sequence_self (x ∷ xs) =
    evaluate_sequence-cons x x xs xs ∙ rw (same_color_refl x) (evaluate_sequence_self xs)

-- The oracle's comparison of lengths and of colors by index accepts exactly the expected sequence.
evaluate_sequence_iff :
    (expected actual : List OracleColor)
    → (evaluate_sequence expected actual ≡ true) ↔ (expected ≡ actual)
evaluate_sequence_iff expected actual = (
  evaluate_sequence-eq expected actual,
  λ e. subst (λ xs. evaluate_sequence expected xs ≡ true) e (evaluate_sequence_self expected),
)

-- A choice of a color reports the red trial as passed exactly if it completes the oracle's sequence:
-- a shorter input reports nothing, and one of the same length with another color is reported as
-- failed.
choose_color_iff :
    (c : OracleColor) (p : Panel)
    → ((choose_color c p).trial_result ≡ some true)
      ↔ (p.sequence_input ++ c ∷ [] ≡ red_trial_sequence)
unfolding choose_color
choose_color_iff c p =
    let input = p.sequence_input ++ c ∷ [] in
    let accepts = evaluate_sequence_iff red_trial_sequence input in
    elim (Bool-cases (length input == length red_trial_sequence)) [
      | inl full ↦ rw full (λ h. sym (accepts.0 (cc)), λ e. ap some (accepts.1 (sym e)))
      | inr short ↦ rw short (
        λ h. absurd (cc),
        λ e. absurd (ground (arith, ap (λ xs. length xs == length red_trial_sequence) e)),
      )
    ]
