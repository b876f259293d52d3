-- ===== src/Values/Text.antt =====
-- The methods of JavaScript strings that the source calls, by code point.
use Prim.Native.Char.{code}
use Prim.Native.String.{[], ◌∷◌}
use faf_hackathon_challenge.Prelude.{
  ℕ, String, Bool, ◌&&◌, ◌||◌, Option, none, some, if◌then◌else◌, ◌==◌, leb, str_eq,
}

-- White space and line ends, as `trim` takes them off.
unfoldable pub is_space : ℕ → Bool
is_space c =
    (leb 9 c && leb c 13)
    || c == 32
    || c == 160
    || c == 0x1680
    || (leb 0x2000 c && leb c 0x200a)
    || c == 0x2028
    || c == 0x2029
    || c == 0x202f
    || c == 0x205f
    || c == 0x3000
    || c == 0xfeff

unfoldable pub trim_start : String → String
unfolding is_space
trim_start [] = ""
trim_start (c ∷ s) = let rest = trim_start s in if is_space (code c) then rest else c ∷ s

unfoldable pub trim_end : String → String
unfolding is_space
trim_end [] = ""
trim_end (c ∷ s) =
    let rest = trim_end s in if is_space (code c) && str_eq rest "" then "" else c ∷ rest

unfoldable pub trim : String → String
unfolding trim_start trim_end
trim s = trim_start (trim_end s)

-- `s.startsWith(p) ? s.slice(p.length) : none`
unfoldable pub strip_prefix : String → String → Option String
strip_prefix [] s = some s
strip_prefix (c ∷ p) [] = none
strip_prefix (c ∷ p) (d ∷ s) =
    let rest = strip_prefix p s in if code c == code d then rest else none
