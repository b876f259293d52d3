-- ===== src/Simulation/Actions.antt =====
-- frontend/src/features/simulation/actions.ts: what a synthetic guest asks of the services. The
-- clients of the services and `Math.random` are parameters.
use faf_hackathon_challenge.Prelude.{
  get_elem?, ℕ, zero, suc, ◌+◌, ◌-◌, ◌<◌, String, Bool, true, false, Option, none, some, List, [],
  ◌∷◌, length, select, if◌then◌else◌, ltb,
}
use faf_hackathon_challenge.Prelude.Int.{ℤ, pos, pos_part, ltb_int}
use faf_hackathon_challenge.Values.{Number, int, infinity, nan}
use faf_hackathon_challenge.Hotel.Types.{RoomType, standard, deluxe, suite, CreateReservationDto}
use faf_hackathon_challenge.Web.Types.{GuestPassport, GuestPriority, GuestProfile}
use faf_hackathon_challenge.Web.IslandEvents.{Activity}

-- A value of `Math.random()`: whether it is less than a number of hundredths, and
-- `Math.floor(Math.random() * n)`, which is less than `n`.
pub record Draw : Type 0 where
  pub below : ℕ → Bool
  pub index : ℕ → ℕ
  pub index_lt : (n : ℕ) → 0 < n → index n < n

pub record ArrivalBody : Type 0 where
  pub guest_id : String
  pub name : String
  pub surname : String
  pub age : ℕ
  pub passport_type : GuestPassport
  pub priority : GuestPriority
  pub disability : Bool

-- The clients. A `none` or `false` is an exception.
pub record Services (W : Type 0) : Type 0 where
  pub post_arrival : ArrivalBody → W → Option String × W
  pub post_reservation : CreateReservationDto → W → Option String × W
  pub get_reservation_by_guest : String → W → Option String × W
  pub get_activities : W → Option (List Activity) × W
  pub book_activity : String → String → W → Bool × W
  pub cancel_activity : String → String → W → Bool × W
  pub cancel_reservation : String → W → Bool × W
  pub post_chat : String → String → W → Bool × W

abbrev pub parrot_questions : List String
parrot_questions =
    "What should I do first on the island?" ∷ "Can you suggest a beach activity?"
    ∷ "What should I know before checking in?" ∷ "What is the resort like this afternoon?" ∷ []

abbrev pub random_int : Draw → ℕ → ℕ → ℕ
random_int d least most = d.index (most - least + 1) + least

abbrev pub sample {ℓ} : {A : Type ℓ} → Draw → List A → Option A
sample d items = get_elem? items (d.index (length items))

-- `sample(ROOM_TYPES)`, of three types.
abbrev pub room_type_at : ℕ → RoomType
room_type_at zero = standard
room_type_at (suc zero) = deluxe
room_type_at _ = suite

-- features/hotel/types.ts
abbrev pub room_max_guests : RoomType → ℕ
room_max_guests standard = 2
room_max_guests deluxe = 3
room_max_guests suite = 4

abbrev pub guest_to_arrival_body : GuestProfile → ArrivalBody
guest_to_arrival_body guest = record {
  guest_id = guest.id;
  name = guest.name;
  surname = guest.surname;
  age = guest.age;
  passport_type = guest.passport;
  priority = guest.priority;
  disability = guest.disability;
}

-- At a simulated day; the draws are those of the check-in, the type, the count and the stay.
unfoldable pub random_reservation_body : (ℕ → Draw) → ℤ → GuestProfile → CreateReservationDto
random_reservation_body draws day guest =
    let today = pos_part day in
    let check_in = today + random_int (draws 0) 0 2 in
    let room_type = room_type_at ((draws 1).index 3) in
    record {
      guest_id = guest.id;
      room_type = room_type;
      guest_count = random_int (draws 2) 1 (room_max_guests room_type);
      party_guest_ids = none;
      check_in_day = pos check_in;
      check_out_day = pos (check_in + random_int (draws 3) 1 3);
    }

-- `n > 0`
abbrev pub is_positive : Number → Bool
is_positive (int n) = ltb_int (pos 0) n
is_positive infinity = true
is_positive nan = false

abbrev pub is_available : Activity → Bool
is_available a = is_positive a.remaining

module _ {W : Type 0} (services : Services W) where
  abbrev pub arrive : GuestProfile → W → Option String × W
  arrive guest w = services.post_arrival (guest_to_arrival_body guest) w

  -- What is left of `askParrot` is in the module's variable `lastParrotChatAt`, the first component.
  unfoldable pub ask_parrot : Draw → ℕ → ℕ → GuestProfile → ℕ × W → ℕ × W
  ask_parrot d now cooldown guest (last, w) =
      if ltb now (last + cooldown) then (last, w) else elim (sample d parrot_questions) [
        | none ↦ (now, w)
        | some question ↦ (now, (services.post_chat guest.id question w).1)
      ]

  -- A reservation that is refused may be an older one's: its id is looked up.
  abbrev pub recover_reservation : GuestProfile → Option String × W → Option String × W
  recover_reservation guest (some id, w) = (some id, w)
  recover_reservation guest (none, w) = services.get_reservation_by_guest guest.id w

  unfoldable pub book_hotel : (ℕ → Draw) → ℤ → GuestProfile → W → Option String × W
  unfolding random_reservation_body
  book_hotel draws day guest w =
      recover_reservation guest
        (services.post_reservation (random_reservation_body draws day guest) w)

  abbrev pub booked_if : String → Bool × W → Option String × W
  booked_if activity_id (true, w) = (some activity_id, w)
  booked_if activity_id (false, w) = (none, w)

  abbrev pub book_sampled : GuestProfile → Option Activity → W → Option String × W
  book_sampled guest none w = (none, w)
  book_sampled guest (some activity) w =
      booked_if activity.activity_id (services.book_activity activity.activity_id guest.id w)

  abbrev pub book_one_of : Draw → GuestProfile → Option (List Activity) × W → Option String × W
  book_one_of d guest (none, w) = (none, w)
  book_one_of d guest (some activities, w) =
      book_sampled guest (sample d (select is_available activities)) w

  unfoldable pub book_random_activity : Draw → GuestProfile → W → Option String × W
  book_random_activity d guest w = book_one_of d guest (services.get_activities w)

  abbrev pub cancel_beach_activity : String → GuestProfile → W → W
  cancel_beach_activity activity_id guest w = (services.cancel_activity activity_id guest.id w).1

  abbrev pub cancel_hotel_reservation : String → W → W
  cancel_hotel_reservation reservation_id w = (services.cancel_reservation reservation_id w).1
