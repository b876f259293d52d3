-- ===== src/Mock/Store.antt =====
-- frontend/src/mocks/handlers/beach.ts: activities and bookings in the session's storage, by the
-- requests that reach a handler.
use faf_hackathon_challenge.Prelude.{
  ℕ, ◌+◌, ◌-◌, ◌==◌, String, Bool, true, false, Option, none, some, List, [], ◌∷◌, map, find,
  or_else, if◌then◌else◌, str_eq, truthy,
}

-- The numbers are those that the handlers store: never negative.
pub record StoredActivity : Type 0 where
  pub activity_id : String
  pub activity_name : String
  pub description : String
  pub capacity : ℕ
  pub remaining : ℕ

abbrev seed : List StoredActivity
seed =
    record {
      activity_id = "activity-sunset-cruise";
      activity_name = "Sunset Cruise";
      description = "Sail along the coast and watch the sun dip below the horizon.";
      capacity = 10;
      remaining = 2;
    }
    ∷ record {
      activity_id = "activity-snorkeling";
      activity_name = "Snorkeling";
      description = "Explore the coral reef with our guided snorkeling tour.";
      capacity = 8;
      remaining = 0;
    }
    ∷ record {
      activity_id = "activity-glass-bottom-boat";
      activity_name = "Glass-Bottom Boat";
      description = "See the underwater world without getting wet.";
      capacity = 12;
      remaining = 3;
    }
    ∷ record {
      activity_id = "activity-beach-volleyball";
      activity_name = "Beach Volleyball";
      description = "Join a casual game on the main beach court.";
      capacity = 20;
      remaining = 14;
    }
    ∷ record {
      activity_id = "activity-kayaking";
      activity_name = "Kayaking";
      description = "Paddle through the lagoon at your own pace.";
      capacity = 6;
      remaining = 4;
    }
    ∷ record {
      activity_id = "activity-beach-yoga";
      activity_name = "Beach Yoga";
      description = "Morning yoga session on the shoreline.";
      capacity = 15;
      remaining = 11;
    }
    ∷ []

-- A booking as it may be stored: `null`, an id, or the list of an older version.
pub data StoredBooking : Type 0 where
  nothing : StoredBooking
  one : String → StoredBooking
  several : List String → StoredBooking

-- What the storage holds under the two keys, `none` for nothing that parses, and the array SEED of
-- the module, which is handed out itself, and so changed in place, where nothing is stored.
pub record Storage : Type 0 where
  pub seed_activities : List StoredActivity
  pub activities : Option (List StoredActivity)
  pub bookings : Option (List (String × StoredBooking))

abbrev pub start : Storage
start = record { seed_activities = seed; activities = none; bookings = none }

-- `loadActivities`: the activities, and the storage after it.
abbrev pub load_activities : Storage → List StoredActivity
load_activities s = or_else s.activities s.seed_activities

abbrev pub loaded : Storage → Storage
loaded s = record s { activities = some (load_activities s) }

-- Whether `loadActivities` hands out SEED itself.
abbrev pub is_aliased : Storage → Bool
is_aliased s = elim s.activities [ none ↦ true | some stored ↦ false ]

-- `saveActivities` of the array that was loaded from `s`, changed in place.
abbrev pub save_activities : List StoredActivity → Storage → Storage
save_activities changed s = record s {
  seed_activities = if is_aliased s then changed else s.seed_activities;
  activities = some changed;
}

-- `value.at(-1) ?? null`
abbrev pub last_of : List String → Option String
last_of [] = none
last_of (id ∷ []) = some id
last_of (id ∷ next ∷ ids) = last_of (next ∷ ids)

abbrev pub current_booking : StoredBooking → Option String
current_booking nothing = none
current_booking (one id) = some id
current_booking (several ids) = last_of ids

abbrev pub Bookings : Type 0
Bookings = List (String × Option String)

abbrev pub load_entries : List (String × StoredBooking) → Bookings
load_entries entries = map (λ e. (e.0, current_booking e.1)) entries

abbrev pub load_bookings : Storage → Bookings
load_bookings s = load_entries (or_else s.bookings [])

abbrev pub as_stored : Option String → StoredBooking
as_stored none = nothing
as_stored (some id) = one id

abbrev pub save_bookings : Bookings → Storage → Storage
save_bookings bookings s = record s { bookings = some (map (λ e. (e.0, as_stored e.1)) bookings) }

-- `bookings[guestId] ?? null`, for a guest whose id is no name of an object's own, as `__proto__` is
abbrev pub booking_of : String → Bookings → Option String
booking_of guest_id [] = none
booking_of guest_id ((k, v) ∷ rest) = if str_eq k guest_id then v else booking_of guest_id rest

-- `bookings[guestId] = value`
abbrev pub put_booking : String → Option String → Bookings → Bookings
put_booking guest_id value [] = (guest_id, value) ∷ []
put_booking guest_id value ((k, v) ∷ rest) =
    if str_eq k guest_id then (k, value) ∷ rest else (k, v) ∷ put_booking guest_id value rest

abbrev pub is_activity : String → StoredActivity → Bool
is_activity id a = str_eq a.activity_id id

abbrev pub find_activity : String → List StoredActivity → Option StoredActivity
find_activity id activities = find (is_activity id) activities

-- A change of `remaining` in the activity that `find` gives, in place; nothing without one.
abbrev pub change_remaining : String → (ℕ → ℕ) → List StoredActivity → List StoredActivity
change_remaining id f [] = []
change_remaining id f (a ∷ rest) =
    if is_activity id a
    then record a { remaining = f a.remaining } ∷ rest
    else a ∷ change_remaining id f rest

abbrev pub take_place : ℕ → ℕ
take_place n = n - 1

abbrev pub free_place : ℕ → ℕ
free_place n = n + 1

pub data Response : Type 0 where
  all_activities : List StoredActivity → Response
  one_activity : StoredActivity → Response
  not_found full not_booked booked_ok cancelled_ok : Response
  held : Option String → Response

-- `currentActivityId === activityId`
abbrev pub holds : Option String → String → Bool
holds none id = false
holds (some current) id = str_eq current id

-- The place that a guest gives up for another; an empty id counts as none.
abbrev pub give_up : Option String → List StoredActivity → List StoredActivity
give_up none activities = activities
give_up (some id) activities =
    if truthy id then change_remaining id free_place activities else activities

abbrev pub switch_to : String → String → Option String → Storage → Storage
switch_to guest_id activity_id current s =
    save_bookings (put_booking guest_id (some activity_id) (load_bookings s)) (
      save_activities
        (change_remaining activity_id take_place (give_up current (load_activities s))) s)

abbrev pub book_found :
    String → String → Option String → Option StoredActivity → Storage → Response × Storage
book_found guest_id activity_id current none s = (not_found, loaded s)
book_found guest_id activity_id current (some activity) s =
    if holds current activity_id
    then (booked_ok, loaded s)
    else if activity.remaining == 0
    then (full, loaded s)
    else (booked_ok, switch_to guest_id activity_id current s)

-- POST /activity/book/:activityId
unfoldable pub book : String → String → Storage → Response × Storage
book guest_id activity_id s =
    book_found guest_id activity_id (booking_of guest_id (load_bookings s))
      (find_activity activity_id (load_activities s)) s

abbrev pub free_found : String → Option StoredActivity → Storage → Storage
free_found activity_id none s = loaded s
free_found activity_id (some activity) s =
    save_activities (change_remaining activity_id free_place (load_activities s)) s

-- POST /activity/cancel/:activityId
unfoldable pub cancel : String → String → Storage → Response × Storage
cancel guest_id activity_id s =
    if holds (booking_of guest_id (load_bookings s)) activity_id
    then (
      cancelled_ok,
      free_found activity_id (find_activity activity_id (load_activities s))
          (save_bookings (put_booking guest_id none (load_bookings s)) s),
    )
    else (not_booked, s)

abbrev pub found_response : Option StoredActivity → Response
found_response none = not_found
found_response (some activity) = one_activity activity

pub data MockRequest : Type 0 where
  get_activities : MockRequest
  get_activity get_by_guest : String → MockRequest
  -- the guest, then the activity
  post_book post_cancel : String → String → MockRequest

unfoldable pub handle : MockRequest → Storage → Response × Storage
unfolding book cancel
handle get_activities s = (all_activities (load_activities s), loaded s)
handle (get_activity id) s = (found_response (find_activity id (load_activities s)), loaded s)
handle (get_by_guest guest_id) s = (held (booking_of guest_id (load_bookings s)), s)
handle (post_book guest_id activity_id) s = book guest_id activity_id s
handle (post_cancel guest_id activity_id) s = cancel guest_id activity_id s

unfoldable pub serve_all : List MockRequest → Storage → Storage
serve_all [] s = s
serve_all (r ∷ rs) s = serve_all rs (handle r s).1
