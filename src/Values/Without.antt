-- ===== src/Values/Without.antt =====
-- Reading a property of an object after a destructuring has taken keys away.
use faf_hackathon_challenge.Prelude.{
  String, ◌≡◌, List, [], ◌∷◌, if◌then◌else◌, str_eq, eq_iff, arith,
}
use faf_hackathon_challenge.Values.{Value, undefined, get, without}

pub get-without :
    (k j : String) (o : List (String × Value))
    → get j (without k o) ≡ (if str_eq k j then undefined else get j o)
unfolding get without
get-without k j [] = ground arith
get-without k j ((i, v) ∷ o) = ground (arith, get-without k j o, eq_iff i k, eq_iff i j, eq_iff k j)
