-- ===== src/Hotel/Calendar.antt =====
-- When stays collide: the calendar of a room, stated without the queries, and how a cancellation
-- and a new reservation change it.
use faf_hackathon_challenge.Prelude.{
  String, false, ◌≡◌, ◌⊎◌, List, [], ◌∷◌, map, arith, All, eq_iff,
}
use faf_hackathon_challenge.Prelude.Int.{◌<ℤ◌}
use faf_hackathon_challenge.Hotel.Types.{Reservation, confirmed, overlaps, cancel_row}

-- Two confirmed stays in one room have no day in common, the days of arrival and departure
-- included.
abbrev pub IsDisjoint : Reservation → Reservation → Type 0
IsDisjoint r s =
    r.status ≡ confirmed
    → s.status ≡ confirmed
    → r.room_id ≡ s.room_id
    → (r.check_out_day <ℤ s.check_in_day) ⊎ (s.check_out_day <ℤ r.check_in_day)

-- No room is booked twice for a day.
abbrev pub NoOverlap : List Reservation → Type 0
NoOverlap [] = Unit
NoOverlap (r ∷ rs) = All (IsDisjoint r) rs × NoOverlap rs

pub overlaps-IsDisjoint :
    (r s : Reservation)
    → overlaps r.room_id r.check_in_day r.check_out_day s ≡ false
    → IsDisjoint r s
overlaps-IsDisjoint r s h c d e = ground (arith, eq_iff s.room_id r.room_id)

pub cancel_row-confirmed :
    (id : String) (r : Reservation) → (cancel_row id r).status ≡ confirmed → r.status ≡ confirmed
cancel_row-confirmed id r h = ground arith

cancel_row-IsDisjoint :
    (id : String) (r s : Reservation)
    → IsDisjoint r s
    → IsDisjoint (cancel_row id r) (cancel_row id s)
cancel_row-IsDisjoint id r s h c d e =
    h (cancel_row-confirmed id r c) (cancel_row-confirmed id s d) e

map-cancel_row-All :
    (id : String) (r : Reservation) (rs : List Reservation)
    → All (IsDisjoint r) rs
    → All (IsDisjoint (cancel_row id r)) (map (cancel_row id) rs)
map-cancel_row-All id r [] h = tt
map-cancel_row-All id r (s ∷ rs) (p, h) =
    (cancel_row-IsDisjoint id r s p, map-cancel_row-All id r rs h)

pub map-cancel_row-NoOverlap :
    (id : String) (rs : List Reservation) → NoOverlap rs → NoOverlap (map (cancel_row id) rs)
map-cancel_row-NoOverlap id [] h = tt
map-cancel_row-NoOverlap id (r ∷ rs) (p, h) =
    (map-cancel_row-All id r rs p, map-cancel_row-NoOverlap id rs h)
