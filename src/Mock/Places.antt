-- ===== src/Mock/Places.antt =====
-- What the mock's storage says of an activity and of a guest, and how the changes read.
use faf_hackathon_challenge.Prelude.{
  ℕ, ◌≡◌, refl, ap, String, Option, none, some, List, [], ◌∷◌, map, arith, Bool-cases, inl, inr,
  if◌then◌else◌, str_eq, eq_iff,
}
use faf_hackathon_challenge.Mock.Store.{
  StoredActivity, load_entries, Bookings, as_stored, booking_of, put_booking, is_activity,
  find_activity, change_remaining,
}

-- The places left in the activity that `find` gives.
abbrev pub remaining_of : String → List StoredActivity → Option ℕ
remaining_of id [] = none
remaining_of id (a ∷ rest) = if is_activity id a then some a.remaining else remaining_of id rest

abbrev pub map_option : (ℕ → ℕ) → Option ℕ → Option ℕ
map_option f none = none
map_option f (some n) = some (f n)

pub find_activity-remaining :
    (id : String) (activities : List StoredActivity) (a : StoredActivity)
    → find_activity id activities ≡ some a
    → remaining_of id activities ≡ some a.remaining
find_activity-remaining id [] a h = cc
find_activity-remaining id (x ∷ rest) a h = elim (Bool-cases (is_activity id x)) [
  | inl here ↦ rw here (ap (λ o. elim o [ none ↦ none | some y ↦ some y.remaining ]) (rw here at h))
  | inr there ↦ rw there (find_activity-remaining id rest a (rw there at h))
]

pub find_activity-missing :
    (id : String) (activities : List StoredActivity)
    → find_activity id activities ≡ none
    → remaining_of id activities ≡ none
find_activity-missing id [] h = refl
find_activity-missing id (x ∷ rest) h = ground (arith, find_activity-missing id rest)

pub change_remaining-remaining :
    (j k : String) (f : ℕ → ℕ) (activities : List StoredActivity)
    → remaining_of k (change_remaining j f activities)
      ≡ (if str_eq j k then map_option f (remaining_of k activities) else remaining_of k activities)
change_remaining-remaining j k f [] = ground arith
change_remaining-remaining j k f (a ∷ rest) = ground (
  arith,
  eq_iff j k,
  eq_iff a.activity_id j,
  eq_iff a.activity_id k,
  change_remaining-remaining j k f rest,
)

pub put_booking-booking :
    (g k : String) (v : Option String) (b : Bookings)
    → booking_of k (put_booking g v b) ≡ (if str_eq g k then v else booking_of k b)
put_booking-booking g k v [] = refl
put_booking-booking g k v ((j, w) ∷ rest) =
    ground (arith, eq_iff g k, eq_iff j g, eq_iff j k, put_booking-booking g k v rest)

-- What is saved of the bookings is what is loaded again.
pub load_entries-saved : (b : Bookings) → load_entries (map (λ e. (e.0, as_stored e.1)) b) ≡ b
load_entries-saved [] = refl
load_entries-saved ((k, none) ∷ rest) = ap (λ t. (k, none) ∷ t) (load_entries-saved rest)
load_entries-saved ((k, some id) ∷ rest) = ap (λ t. (k, some id) ∷ t) (load_entries-saved rest)
