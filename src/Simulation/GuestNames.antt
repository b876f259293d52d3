-- ===== src/Simulation/GuestNames.antt =====
-- frontend/src/lib/guest.ts: guests by their ids, and what they are called.
use Prim.Native.String.{[], ◌∷◌ as ◌◃◌, ◌++◌ as append}
use faf_hackathon_challenge.Prelude.{
  String, Bool, true, false, not, ◌&&◌, ◌≡◌, refl, ◌∙◌, ap, sym, subst, Option, none, some, List,
  ◌∷◌, ◌++◌, if◌then◌else◌, str_eq, truthy, or_else, any, eq_refl, arith,
}
use mathlib.Core.List.{Memᴰ}
use faf_hackathon_challenge.Web.Types.{GuestProfile}
use faf_hackathon_challenge.Web.GuestTable.{guests}
use faf_hackathon_challenge.Simulation.SyntheticGuests.{synthetic_guests}

-- `guestsById.get(id)`: of two guests with one id the later counts.
unfoldable pub guest_by_id : String → List GuestProfile → Option GuestProfile
guest_by_id id List.[] = none
guest_by_id id (g ∷ gs) = elim (guest_by_id id gs) [
  | some later ↦ some later
  | none ↦ if str_eq g.id id then some g else none
]

abbrev pub all_guests : List GuestProfile
all_guests = guests ++ synthetic_guests

-- `s[0] ?? ""`
abbrev pub first_char : String → String
first_char [] = ""
first_char (c ◃ s) = c ◃ []

abbrev pub get_initials : Option GuestProfile → String
get_initials none = ""
get_initials (some guest) = append (first_char guest.name) (first_char guest.surname)

abbrev pub full_name : GuestProfile → String
full_name guest = append guest.name (append " " guest.surname)

abbrev pub map_name : Option GuestProfile → Option String
map_name none = none
map_name (some guest) = some (full_name guest)

abbrev pub name_of_id : String → Option String
name_of_id guest_id = if truthy guest_id then map_name (guest_by_id guest_id all_guests) else none

unfoldable pub find_guest_name : Option String → Option String
find_guest_name none = none
find_guest_name (some guest_id) = name_of_id guest_id

unfoldable pub resolve_guest_name : String → String
unfolding find_guest_name
resolve_guest_name guest_id = or_else (find_guest_name (some guest_id)) guest_id

-- No guest of the list has an id of the list again, or none.
abbrev have_ids : List GuestProfile → Bool
have_ids List.[] = true
have_ids (g ∷ gs) =
    truthy g.id && not (any (λ (h : GuestProfile). str_eq h.id g.id) gs) && have_ids gs

absent-guest_by_id :
    (id : String) (gs : List GuestProfile)
    → any (λ (h : GuestProfile). str_eq h.id id) gs ≡ false
    → guest_by_id id gs ≡ none
unfolding guest_by_id
absent-guest_by_id id List.[] h = refl
absent-guest_by_id id (g ∷ gs) h =
    let missing = absent-guest_by_id id gs (ground arith) in
    let other : str_eq g.id id ≡ false = ground arith in rw missing (rw other refl)

listed-guest_by_id :
    (gs : List GuestProfile) (g : GuestProfile)
    → have_ids gs ≡ true
    → Memᴰ g gs
    → (guest_by_id g.id gs ≡ some g) × (truthy g.id ≡ true)
unfolding guest_by_id
listed-guest_by_id List.[] g h m = elim m [ ]
listed-guest_by_id (x ∷ gs) g h (Memᴰ.head e) =
    let missing = absent-guest_by_id x.id gs (ground arith) in
    subst (λ (t : GuestProfile). (guest_by_id t.id (x ∷ gs) ≡ some t) × (truthy t.id ≡ true))
      (sym e) (rw missing (rw (eq_refl x.id) refl), ground arith)
listed-guest_by_id (x ∷ gs) g h (Memᴰ.tail m) =
    let (found, named) = listed-guest_by_id gs g (ground arith) m in (rw found refl, named)

all_guests-have_ids : have_ids all_guests ≡ true
all_guests-have_ids = refl

-- Each guest of the two tables, those that can be chosen and those of the simulation, is called by
-- their own name and surname where their id is shown.
resolve_guest_name-listed :
    (g : GuestProfile) → Memᴰ g all_guests → resolve_guest_name g.id ≡ full_name g
unfolding resolve_guest_name find_guest_name
resolve_guest_name-listed g m =
    let (found, named) = listed-guest_by_id all_guests g all_guests-have_ids m in
    ap (λ o. or_else (if truthy g.id then map_name o else none) g.id) found
    ∙ ap (λ (b : Bool). or_else (if b then some (full_name g) else none) g.id) named

unnamed : (b : Bool) (id : String) → or_else (if b then map_name none else none) id ≡ id
unnamed true id = refl
unnamed false id = refl

-- An id of no guest is shown as it is.
resolve_guest_name-unlisted :
    (guest_id : String)
    → guest_by_id guest_id all_guests ≡ none
    → resolve_guest_name guest_id ≡ guest_id
unfolding resolve_guest_name find_guest_name
resolve_guest_name-unlisted guest_id missing =
    ap (λ o. or_else (if truthy guest_id then map_name o else none) guest_id) missing
    ∙ unnamed (truthy guest_id) guest_id
