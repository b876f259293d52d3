-- ===== src/Simulation/Examples.antt =====
-- The simulation with services that answer at once, and the theorems at inputs that meet their
-- hypotheses.
use mathlib.Core.List.{Memᴰ}
use faf_hackathon_challenge.Prelude.{
  ℕ, suc, ◌+◌, ◌≤◌, List, length, true, false, ◌≡◌, refl, none, some, [], ◌∷◌, arith, ltb,
}
use faf_hackathon_challenge.Prelude.Int.{pos}
use faf_hackathon_challenge.Values.{int}
use faf_hackathon_challenge.Hotel.Types.{RoomType, Room, CreateReservationDto}
use faf_hackathon_challenge.Hotel.Reservations.{Config}
use faf_hackathon_challenge.Hotel.Clients.{threw}
use faf_hackathon_challenge.Hotel.ListDatabase.{Tables}
use faf_hackathon_challenge.Web.Types.{GuestPassport, GuestPriority, GuestProfile}
use faf_hackathon_challenge.Web.IslandEvents.{Activity}
use faf_hackathon_challenge.Simulation.Actions.{sample, Draw, Services}
use faf_hackathon_challenge.Simulation.Machine.{
  SimGuestState, fresh, Simulation, Tick, create_initial_state, seeded, run_guest_step,
  run_guest_steps,
}
use faf_hackathon_challenge.Simulation.Journeys.{
  Moved, run_guest_step-Moved, run_guest_steps-defined,
}
use faf_hackathon_challenge.Simulation.Generator.{
  Flight, flight_of, Generator, GeneratorEvent, idle, mounts, unmounts, fires, settles,
  generator_run,
}
use faf_hackathon_challenge.Simulation.Interleaving.{generator_run-begins}
use faf_hackathon_challenge.Simulation.Loops.{generator_run-loops}
use faf_hackathon_challenge.Simulation.Requests.{IsBookable}

-- A draw of 0.
abbrev lowest : Draw
lowest = record { below = λ n. ltb 0 n; index = λ n. 0; index_lt = λ n h. h }

abbrev guest : GuestProfile
guest = record {
  id = "kiki";
  name = "Kiki";
  surname = "Cat";
  age = 3;
  passport = GuestPassport.eu;
  priority = GuestPriority.standard;
  disability = false;
  avatar = "kiki.png";
  personality = "curious";
}

abbrev yoga : Activity
yoga = record {
  activity_id = "yoga";
  activity_name = "Beach Yoga";
  description = none;
  capacity = int (pos 15);
  remaining = int (pos 2);
}

abbrev services : Services ℕ
services = record {
  post_arrival = λ body n. (some "A1", suc n);
  post_reservation = λ body n. (some "r1", suc n);
  get_reservation_by_guest = λ g n. (none, suc n);
  get_activities = λ n. (some (yoga ∷ []), n);
  book_activity = λ a g n. (true, suc n);
  cancel_activity = λ a g n. (true, suc n);
  cancel_reservation = λ r n. (true, suc n);
  post_chat = λ g m n. (true, suc n);
}

abbrev tick : Tick
tick = record {
  now = 1000;
  day = pos 4;
  cooldown = 30;
  guest_draw = lowest;
  action = lowest;
  draws = λ n. lowest;
}

abbrev start : Simulation ℕ
start = record { states = create_initial_state (guest ∷ []); last_parrot_chat_at = 0; world = 0 }

run_guest_step-Moved_example :
    (s : Simulation ℕ) × (run_guest_step services (guest ∷ []) tick start ≡ some s)
    × Moved guest fresh start s
unfolding seeded
run_guest_step-Moved_example =
    run_guest_step-Moved services (guest ∷ []) tick start guest fresh refl refl

run_guest_steps-defined_example :
    (s : Simulation ℕ) × (run_guest_steps services
        (guest ∷ [])
        (tick ∷ tick ∷ tick ∷ tick ∷ [])
        start
      ≡ some s)
    × ((g : GuestProfile) → Memᴰ g (guest ∷ []) → (x : SimGuestState) × (s.states g.id ≡ some x))
run_guest_steps-defined_example =
    run_guest_steps-defined services (guest ∷ []) (tick ∷ tick ∷ tick ∷ tick ∷ []) 0 0 (omega arith)

abbrev room : Room
room = record { id = "room-1"; type = RoomType.standard; capacity = 2; price_per_night = 100 }

abbrev tables : Tables
tables = record { rooms = room ∷ []; ordered = refl; reservations = [] }

abbrev config : Config
config = record { airport_url = none; broadcast_url = none; fetch = λ g. threw }

abbrev asked : CreateReservationDto
asked = record {
  guest_id = "kiki";
  room_type = RoomType.standard;
  guest_count = 1;
  party_guest_ids = none;
  check_in_day = pos 4;
  check_out_day = pos 5;
}

asked-IsBookable : IsBookable (pos 4) asked
asked-IsBookable = record {
  not_negative = omega arith;
  not_past = omega arith;
  soon = omega arith;
  nights = omega arith;
  few_nights = omega arith;
  some_guest = omega arith;
  few_guests = omega arith;
  alone = refl;
}

-- Two steps under way at the unmount, one of which settles afterwards.
abbrev visit : List GeneratorEvent
visit = fires tick ∷ fires tick ∷ settles 1 tick ∷ fires tick ∷ []

abbrev visited : Generator ℕ
visited = generator_run services (guest ∷ []) (mounts ∷ visit) (idle start)

abbrev gone : Generator ℕ
gone = generator_run services (guest ∷ []) (unmounts ∷ settles 0 tick ∷ fires tick ∷ []) visited

generator_run-loops_example :
    (visited.timers + length visited.flights ≡ 3)
    × (gone.running ≡ false)
    × (gone.timers ≡ 0)
    × (length gone.flights ≤ length visited.flights)
generator_run-loops_example =
    generator_run-loops services (guest ∷ []) visit (settles 0 tick ∷ fires tick ∷ []) start
      (tt, (tt, (tt, (tt, tt)))) (tt, (tt, tt))

generator_run-begins_example :
    (f : Flight) × (flight_of
        (sample tick.guest_draw (guest ∷ []))
        (generator_run services (guest ∷ []) (mounts ∷ visit) (idle start)).simulation.states
      ≡ some f)
    × Memᴰ f.guest (guest ∷ [])
generator_run-begins_example =
    generator_run-begins services (guest ∷ []) (mounts ∷ visit) 0 0 tick (omega arith)
