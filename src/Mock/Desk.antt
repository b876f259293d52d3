-- ===== src/Mock/Desk.antt =====
-- What the mock promises, with no storage: a desk that has the activities on a board, and knows how many
-- places are left of an activity and which activity a guest holds.
use faf_hackathon_challenge.Prelude.{
  ℕ, ◌==◌, String, Option, none, some, List, [], ◌∷◌, if◌then◌else◌, str_eq, truthy,
}
use faf_hackathon_challenge.Mock.Store.{
  StoredActivity, Storage, load_activities, load_bookings, Bookings, booking_of, take_place,
  free_place, holds, Response, all_activities, one_activity, not_found, full, not_booked, booked_ok,
  cancelled_ok, held, MockRequest, get_activities, get_activity, get_by_guest, post_book,
  post_cancel, handle,
}
use faf_hackathon_challenge.Mock.Places.{remaining_of, map_option}

pub record Desk : Type 0 where
  pub left : String → Option ℕ
  pub activity_of : String → Option String

-- An activity as it is announced: all of it but the places left.
pub record Announced : Type 0 where
  pub activity_id : String
  pub activity_name : String
  pub description : String
  pub capacity : ℕ

abbrev pub announce : StoredActivity → Announced
announce a = record {
  activity_id = a.activity_id;
  activity_name = a.activity_name;
  description = a.description;
  capacity = a.capacity;
}

abbrev pub announced : List StoredActivity → List Announced
announced [] = []
announced (a ∷ activities) = announce a ∷ announced activities

-- What a guest is told.
pub data Answer : Type 0 where
  unknown sold_out none_held done_booking done_cancelling : Answer
  -- the activities in their order, and the places left by their ids
  listing : List Announced → (String → Option ℕ) → Answer
  places_left : ℕ → Answer
  holding : Option String → Answer

abbrev pub desk : (String → Option ℕ) → (String → Option String) → Desk
desk l a = record { left = l; activity_of = a }

abbrev pub change_at : String → (ℕ → ℕ) → (String → Option ℕ) → String → Option ℕ
change_at j f left k = if str_eq j k then map_option f (left k) else left k

abbrev pub put_at : String → Option String → (String → Option String) → String → Option String
put_at g v activity_of k = if str_eq g k then v else activity_of k

abbrev pub give_back : Option String → (String → Option ℕ) → String → Option ℕ
give_back none left = left
give_back (some c) left = if truthy c then change_at c free_place left else left

abbrev pub desk_book_left : String → String → Option ℕ → Desk → Answer × Desk
desk_book_left g a none d = (unknown, d)
desk_book_left g a (some n) d =
    if holds (d.activity_of g) a then (done_booking, d) else if n == 0 then (sold_out, d) else (
      done_booking,
      desk (change_at a take_place (give_back (d.activity_of g) d.left))
          (put_at g (some a) d.activity_of),
    )

abbrev pub told_left : Option ℕ → Answer
told_left none = unknown
told_left (some n) = places_left n

-- A request at the desk, which has the activities on a board.
abbrev pub desk_handle : List Announced → MockRequest → Desk → Answer × Desk
desk_handle board get_activities d = (listing board d.left, d)
desk_handle board (get_activity a) d = (told_left (d.left a), d)
desk_handle board (get_by_guest g) d = (holding (d.activity_of g), d)
desk_handle board (post_book g a) d = desk_book_left g a (d.left a) d
desk_handle board (post_cancel g a) d =
    if holds (d.activity_of g) a
    then (done_cancelling, desk (change_at a free_place d.left) (put_at g none d.activity_of))
    else (none_held, d)

abbrev pub desk_answers : List Announced → List MockRequest → Desk → List Answer
desk_answers board [] d = []
desk_answers board (r ∷ rs) d =
    (desk_handle board r d).0 ∷ desk_answers board rs (desk_handle board r d).1

abbrev pub desk_serve : List Announced → List MockRequest → Desk → Desk
desk_serve board [] d = d
desk_serve board (r ∷ rs) d = desk_serve board rs (desk_handle board r d).1

abbrev pub left_in : List StoredActivity → String → Option ℕ
left_in activities id = remaining_of id activities

-- What the mock says, in the desk's words.
abbrev pub answer : Response → Answer
answer (all_activities activities) = listing (announced activities) (left_in activities)
answer (one_activity a) = places_left a.remaining
answer not_found = unknown
answer full = sold_out
answer not_booked = none_held
answer booked_ok = done_booking
answer cancelled_ok = done_cancelling
answer (held o) = holding o

unfoldable pub answers : List MockRequest → Storage → List Answer
answers [] s = []
answers (r ∷ rs) s = answer (handle r s).0 ∷ answers rs (handle r s).1

abbrev pub held_in : Bookings → String → Option String
held_in b g = booking_of g b

-- The storage, seen as a desk.
abbrev pub view : Storage → Desk
view s = desk (left_in (load_activities s)) (held_in (load_bookings s))
