-- ===== src/Values/CodeUnits.antt =====
-- The code units of JavaScript's strings (UTF-16), as `charCodeAt` gives them.
use Prim.Native.Char.{Char, char, code}
use Prim.Native.String.{[], ◌∷◌ as ◌◃◌}
use faf_hackathon_challenge.Prelude.{
  ℕ, ◌+◌, ◌-◌, ◌/◌, ◌%◌, ◌<◌, String, List, ◌∷◌, ltb, if◌then◌else◌, arith, All, Bool-cases, inl,
  inr,
}

abbrev pub units_of : ℕ → List ℕ → List ℕ
units_of c rest =
    if ltb c 0x10000
    then c ∷ rest
    else (0xd800 + (c - 0x10000) / 0x400) ∷ (0xdc00 + (c - 0x10000) % 0x400) ∷ rest

unfoldable pub code_units : String → List ℕ
code_units [] = List.[]
code_units (c ◃ s) = units_of (code c) (code_units s)

code_lt : (c : Char) → code c < 0x110000
code_lt (char n p) = ground arith

units_of-lt :
    (c : ℕ) (rest : List ℕ)
    → c < 0x110000
    → All (λ u. u < 0x10000) rest
    → All (λ u. u < 0x10000) (units_of c rest)
units_of-lt c rest h r = elim (Bool-cases (ltb c 0x10000)) [
  | inl narrow ↦ rw narrow (ground arith, r)
  | inr wide ↦ rw wide (omega arith, (omega arith, r))
]

pub code_units-lt : (s : String) → All (λ u. u < 0x10000) (code_units s)
unfolding code_units
code_units-lt [] = tt
code_units-lt (c ◃ s) = units_of-lt (code c) (code_units s) (code_lt c) (code_units-lt s)
