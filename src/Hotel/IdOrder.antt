-- ===== src/Hotel/IdOrder.antt =====
-- Rooms in the order of their ids, a text's order being that of its code units.
use faf_hackathon_challenge.Prelude.{
  ℕ, String, Bool, true, false, ◌&&◌, ◌≡◌, List, [], ◌∷◌, arith, All, all, if◌then◌else◌, ltb, ◌==◌,
}
use faf_hackathon_challenge.Values.CodeUnits.{code_units}
use faf_hackathon_challenge.Hotel.Types.{Room}
use faf_hackathon_challenge.Hotel.Prisma.{IsOrdered}

-- Texts in the order of their code units.
abbrev pub le_units : List ℕ → List ℕ → Bool
le_units [] ds = true
le_units (c ∷ cs) [] = false
le_units (c ∷ cs) (d ∷ ds) = if c == d then le_units cs ds else ltb c d

unfoldable pub le_text : String → String → Bool
le_text s t = le_units (code_units s) (code_units t)

abbrev pub is_ordered : List Room → Bool
is_ordered [] = true
is_ordered (room ∷ rooms) = all (λ (r : Room). le_text room.id r.id) rooms && is_ordered rooms

all-All :
    (id : String) (rooms : List Room)
    → all (λ (r : Room). le_text id r.id) rooms ≡ true
    → All (λ r. le_text id r.id ≡ true) rooms
all-All id [] h = tt
all-All id (r ∷ rooms) h = (ground arith, all-All id rooms (ground arith))

pub is_ordered-IsOrdered : (rooms : List Room) → is_ordered rooms ≡ true → IsOrdered le_text rooms
is_ordered-IsOrdered [] h = tt
is_ordered-IsOrdered (r ∷ rooms) h =
    (all-All r.id rooms (ground arith), is_ordered-IsOrdered rooms (ground arith))
