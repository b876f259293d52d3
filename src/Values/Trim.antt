-- ===== src/Values/Trim.antt =====
-- `trim` of Values/Text.antt: what it has taken off is not there again.
use Prim.Native.Char.{Char, code}
use Prim.Native.String.{[], ◌∷◌}
use faf_hackathon_challenge.Prelude.{
  String, Bool, true, false, ◌≡◌, refl, inl, inr, ap, ◌∙◌, ◌&&◌, if◌then◌else◌, Bool-cases, str_eq,
}
use faf_hackathon_challenge.Values.Text.{is_space, trim_start, trim_end, trim}

trim_start_idempotent : (s : String) → trim_start (trim_start s) ≡ trim_start s
unfolding trim_start
trim_start_idempotent [] = refl
trim_start_idempotent (c ∷ s) = elim (Bool-cases (is_space (code c))) [
  | inl space ↦ rw space (trim_start_idempotent s)
  | inr other ↦ rw other (rw other refl)
]

trim_end_idempotent : (s : String) → trim_end (trim_end s) ≡ trim_end s
unfolding trim_end
trim_end_idempotent [] = refl
trim_end_idempotent (c ∷ s) = elim (Bool-cases (is_space (code c) && str_eq (trim_end s) "")) [
  | inl gone ↦ rw gone refl
  | inr kept ↦ rw kept (rw (trim_end_idempotent s) (rw kept refl))
]

abbrev tail : String → String
tail [] = ""
tail (c ∷ s) = s

tail_kept : (b : Bool) (c : Char) (t s : String) → (if b then "" else c ∷ t) ≡ c ∷ s → t ≡ s
tail_kept true c t s h = cc
tail_kept false c t s h = ap tail h

trim_end-tail : (c : Char) (s : String) → trim_end (c ∷ s) ≡ c ∷ s → trim_end s ≡ s
unfolding trim_end
trim_end-tail c s h = tail_kept (is_space (code c) && str_eq (trim_end s) "") c (trim_end s) s h

trim_end-trim_start : (s : String) → trim_end s ≡ s → trim_end (trim_start s) ≡ trim_start s
unfolding trim_start
trim_end-trim_start [] h = h
trim_end-trim_start (c ∷ s) h = elim (Bool-cases (is_space (code c))) [
  | inl space ↦ rw space (trim_end-trim_start s (trim_end-tail c s h))
  | inr other ↦ rw other h
]

pub trim_idempotent : (s : String) → trim (trim s) ≡ trim s
unfolding trim
trim_idempotent s =
    ap trim_start (trim_end-trim_start (trim_end s) (trim_end_idempotent s))
    ∙ trim_start_idempotent (trim_end s)
