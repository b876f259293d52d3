-- ===== src/Simulation/Requests.antt =====
-- What the simulation asks of the hotel and of the beach.
use mathlib.Core.List.{Memᴰ}
use faf_hackathon_challenge.Prelude.{
  get_elem?, ℕ, zero, suc, ◌+◌, ◌-◌, ◌≤◌, String, Bool, true, false, ◌≡◌, refl, ap, subst, ◌∙◌,
  Option, none, some, List, [], ◌∷◌, arith, inl, inr, select, select-listed, find, find-none,
  Option-cases, All-listed,
}
use faf_hackathon_challenge.Prelude.Int.{ℤ, pos, negsuc, pos_part, ◌≤ℤ◌, ◌<ℤ◌}
use faf_hackathon_challenge.Hotel.Types.{RoomType, Room, CreateReservationDto}
use faf_hackathon_challenge.Hotel.Prisma.{Prisma}
use faf_hackathon_challenge.Hotel.Reservations.{
  Config, ok, rejects_guest, choose_room, party_size, find_available,
}
use faf_hackathon_challenge.Hotel.Selection.{suits, find_available-find, searched, choose_room_iff}
use faf_hackathon_challenge.Web.Types.{GuestProfile}
use faf_hackathon_challenge.Web.IslandEvents.{Activity}
use faf_hackathon_challenge.Simulation.Actions.{
  Draw, Services, sample, room_type_at, room_max_guests, random_reservation_body, is_available,
  book_random_activity, booked_if, book_sampled, book_one_of,
}

at_least_two : (t : RoomType) → 2 ≤ room_max_guests t
at_least_two t = ground arith

count_fits : (d : Draw) (n : ℕ) → 2 ≤ n → d.index (n - 1 + 1) + 1 ≤ n
count_fits d n h = let i = d.index_lt (n - 1 + 1) (omega arith) in omega (arith, i)

starts_late_enough : (day : ℤ) (n : ℕ) → day ≤ℤ pos (pos_part day + n)
starts_late_enough (pos m) n = omega arith
starts_late_enough (negsuc m) n = omega arith

-- What the simulation keeps to when it asks for a reservation on a day.
pub record IsBookable (day : ℤ) (body : CreateReservationDto) : Type 0 where
  pub not_negative : pos 0 ≤ℤ body.check_in_day
  pub not_past : day ≤ℤ body.check_in_day
  pub soon : body.check_in_day ≤ℤ pos (pos_part day + 2)
  pub nights : body.check_in_day <ℤ body.check_out_day
  pub few_nights : pos_part body.check_out_day ≤ pos_part body.check_in_day + 3
  pub some_guest : 1 ≤ body.guest_count
  pub few_guests : body.guest_count ≤ room_max_guests body.room_type
  pub alone : body.party_guest_ids ≡ none

-- Every reservation that the simulation asks for is for a stay of one to three nights that starts
-- today or within the next two days, never before day 0, and for at least one guest and at most as
-- many as the table of the room types allows.
random_reservation_body-IsBookable :
    (draws : ℕ → Draw) (day : ℤ) (guest : GuestProfile)
    → IsBookable day (random_reservation_body draws day guest)
unfolding random_reservation_body
random_reservation_body-IsBookable draws day guest =
    let first = (draws 0).index_lt 3 (omega arith) in
    let stay = (draws 3).index_lt 3 (omega arith) in
    let type = room_type_at ((draws 1).index 3) in
    record {
      not_negative = omega arith;
      not_past = starts_late_enough day _;
      soon = omega (arith, first);
      nights = omega arith;
      few_nights = omega (arith, stay);
      some_guest = omega arith;
      few_guests = count_fits (draws 2) (room_max_guests type) (at_least_two type);
      alone = refl;
    }

module _ {Db : Type 0} (prisma : Prisma Db) where
  -- The hotel gives a room to every such request of a guest that it does not turn away, if one of
  -- the rooms of the type holds as many guests as the table says and is free on those days.
  IsBookable-chosen :
      (config : Config) (db : Db) (day : ℤ) (body : CreateReservationDto) (room : Room)
      → IsBookable day body
      → rejects_guest config body.guest_id ≡ false
      → Memᴰ room (prisma.find_rooms body.room_type db)
      → room_max_guests body.room_type ≤ room.capacity
      → prisma.count_overlapping room.id body.check_in_day body.check_out_day db ≡ 0
      → (chosen : Room) × (choose_room prisma config body db ≡ ok chosen)
  unfolding party_size
  IsBookable-chosen config db day body room h cleared listed holds free =
      let rooms = prisma.find_rooms body.room_type db in
      let size : party_size body ≡ body.guest_count = rw (h.alone) refl in
      let suited : suits prisma body db room ≡ true =
        ground (arith, h.few_guests, holds, size, free) in
      elim (Option-cases (find (suits prisma body db) rooms)) [
        | inl missing ↦ absurd (
            contradiction suited (
              All-listed (λ r. suits prisma body db r ≡ false) rooms
                (find-none (suits prisma body db) rooms missing) listed))
        | inr (chosen, first) ↦
            let found : find_available prisma body db rooms ≡ some chosen =
              find_available-find prisma body db rooms ∙ first in
            let ordered = h.nights in
            (
              chosen,
              (choose_room_iff prisma body db config chosen).1
                  (searched prisma body db config chosen (ground arith) cleared found),
            )
      ]
    where
      contradiction : {b : Bool} → b ≡ true → b ≡ false → ⊥
      contradiction t f = cc

get_elem?-listed {ℓ} :
    {A : Type ℓ} (xs : List A) (n : ℕ) {x : A} → get_elem? xs n ≡ some x → Memᴰ x xs
get_elem?-listed [] n h = absurd cc
get_elem?-listed (y ∷ xs) zero h = Memᴰ.head cc
get_elem?-listed (y ∷ xs) (suc n) h = Memᴰ.tail (get_elem?-listed xs n h)

module _ {W : Type 0} (services : Services W) (d : Draw) (guest : GuestProfile) (id : String) where
  -- A booking of an activity that a listing of the service had, with places left.
  pub record IsTaken (listing : Option (List Activity) × W) : Type 0 where
    pub activity : Activity
    pub activities : List Activity
    listed_then : listing.0 ≡ some activities
    pub listed : Memᴰ activity activities
    pub available : is_available activity ≡ true
    pub named : activity.activity_id ≡ id
    pub taken : (services.book_activity id guest.id listing.1).0 ≡ true

  book_one_of-IsTaken :
      (listing : Option (List Activity) × W)
      → (book_one_of services d guest listing).0 ≡ some id
      → IsTaken listing
  book_one_of-IsTaken (none, w) h = absurd cc
  book_one_of-IsTaken (some activities, w) h =
      sampled (sample d (select is_available activities)) refl h
    where
      answered :
          (a : Activity) (answer : Bool × W)
          → Memᴰ a (select is_available activities)
          → services.book_activity a.activity_id guest.id w ≡ answer
          → (booked_if services a.activity_id answer).0 ≡ some id
          → IsTaken (some activities, w)
      answered a (false, w') m e h = absurd cc
      answered a (true, w') m e h =
          let (listed, available) = select-listed is_available activities m in
          let named : a.activity_id ≡ id = cc in
          record {
            activity = a;
            activities = activities;
            listed_then = refl;
            listed = listed;
            available = available;
            named = named;
            taken =
                subst (λ k. (services.book_activity k guest.id w).0 ≡ true) named (ap (λ p. p.0) e);
          }

      sampled :
          (o : Option Activity)
          → sample d (select is_available activities) ≡ o
          → (book_sampled services guest o w).0 ≡ some id
          → IsTaken (some activities, w)
      sampled none e h = absurd cc
      sampled (some a) e h =
          answered a (services.book_activity a.activity_id guest.id w)
            (get_elem?-listed (select is_available activities) (d.index _) e) refl h

  -- An activity that the simulation takes as booked is one that the service had just listed with
  -- places left, and the service has accepted the booking.
  book_random_activity-IsTaken :
      (w : W)
      → (book_random_activity services d guest w).0 ≡ some id
      → IsTaken (services.get_activities w)
  unfolding book_random_activity
  book_random_activity-IsTaken w h = book_one_of-IsTaken (services.get_activities w) h
