-- ===== src/Simulation/Machine.antt =====
-- frontend/src/features/simulation/machine.ts: the state of each synthetic guest, and a step of one
-- of them.
use faf_hackathon_challenge.Prelude.{
  ℕ, zero, suc, ◌%◌, String, Option, none, some, List, [], ◌∷◌, if◌then◌else◌, str_eq, truthy,
}
use faf_hackathon_challenge.Prelude.Int.{ℤ}
use faf_hackathon_challenge.Web.Types.{GuestProfile}
use faf_hackathon_challenge.Simulation.Actions.{
  Draw, Services, sample, arrive, ask_parrot, book_hotel, book_random_activity,
  cancel_beach_activity, cancel_hotel_reservation,
}

-- Each with the gate, then the reservation, then the activity that it holds.
pub data SimGuestState : Type 0 where
  fresh : SimGuestState
  arrived : String → SimGuestState
  hotel_booked : String → String → SimGuestState
  beach_booked : String → String → String → SimGuestState

abbrev pub GuestStates : Type 0
GuestStates = String → Option SimGuestState

-- The states, the time of the last chat, and what the services know.
pub record Simulation (W : Type 0) : Type 0 where
  pub states : GuestStates
  pub last_parrot_chat_at : ℕ
  pub world : W

-- The clock as a step finds it, and the draws that it makes: one for the guest, one for what the
-- guest does, and those of the actions.
pub record Tick : Type 0 where
  pub now : ℕ
  pub day : ℤ
  pub cooldown : ℕ
  pub guest_draw : Draw
  pub action : Draw
  pub draws : ℕ → Draw

abbrev pub seed_state : ℕ → SimGuestState
seed_state zero = fresh
seed_state (suc zero) = arrived ""
seed_state _ = hotel_booked "" ""

-- The entries of the guests from the `i`th on; of two entries of one key the later one counts.
unfoldable pub seeded : List GuestProfile → ℕ → GuestStates
seeded [] i k = none
seeded (guest ∷ guests) i k = elim (seeded guests (suc i) k) [
  | some state ↦ some state
  | none ↦ if str_eq k guest.id then some (seed_state (i % 4)) else none
]

abbrev pub create_initial_state : List GuestProfile → GuestStates
create_initial_state guests = seeded guests 0

module _ {W : Type 0} (services : Services W) where
  abbrev pub set_state : GuestProfile → SimGuestState → Simulation W → Simulation W
  set_state guest next s = record s {
    states = λ k. if str_eq k guest.id then some next else s.states k;
  }

  -- What an action answers decides: a state is set for a text that is not empty.
  abbrev pub set_if :
      GuestProfile → (String → SimGuestState) → Simulation W → Option String × W → Simulation W
  set_if guest f s (none, w) = record s { world = w }
  set_if guest f s (some v, w) =
      if truthy v then set_state guest (f v) (record s { world = w }) else record s { world = w }

  abbrev pub chat : Tick → GuestProfile → Simulation W → Simulation W
  chat t guest s =
      let asked =
        ask_parrot services (t.draws 0) t.now t.cooldown guest (s.last_parrot_chat_at, s.world) in
      record s { last_parrot_chat_at = asked.0; world = asked.1 }

  abbrev pub handle_new : Tick → GuestProfile → Simulation W → Simulation W
  handle_new t guest s = set_if guest arrived s (arrive services guest s.world)

  abbrev pub handle_arrived : Tick → GuestProfile → String → Simulation W → Simulation W
  handle_arrived t guest gate s =
      if t.action.below 80
      then set_if guest (hotel_booked gate) s (book_hotel services t.draws t.day guest s.world)
      else chat t guest s

  abbrev pub handle_hotel_booked :
      Tick → GuestProfile → String → String → Simulation W → Simulation W
  handle_hotel_booked t guest gate reservation_id s =
      if t.action.below 25
      then set_if guest (beach_booked gate reservation_id) s
          (book_random_activity services (t.draws 0) guest s.world)
      else if t.action.below 65
      then chat t guest s
      else s

  abbrev pub handle_beach_booked :
      Tick → GuestProfile → String → String → String → Simulation W → Simulation W
  handle_beach_booked t guest gate reservation_id activity_id s =
      let off_beach = cancel_beach_activity services activity_id guest s.world in
      if t.action.below 10
      then set_state guest fresh
          (record s { world = cancel_hotel_reservation services reservation_id off_beach })
      else if t.action.below 25
      then set_state guest (hotel_booked gate reservation_id) (record s { world = off_beach })
      else if t.action.below 45
      then chat t guest s
      else s

  -- `STAGE_HANDLERS`
  abbrev pub handle : Tick → GuestProfile → SimGuestState → Simulation W → Simulation W
  handle t guest fresh s = handle_new t guest s
  handle t guest (arrived gate) s = handle_arrived t guest gate s
  handle t guest (hotel_booked gate reservation_id) s =
      handle_hotel_booked t guest gate reservation_id s
  handle t guest (beach_booked gate reservation_id activity_id) s =
      handle_beach_booked t guest gate reservation_id activity_id s

  -- `none` is the TypeError of a guest that is undefined or has no state.
  abbrev pub step_in :
      Tick → GuestProfile → Simulation W → Option SimGuestState → Option (Simulation W)
  step_in t guest s none = none
  step_in t guest s (some state) = some (handle t guest state s)

  abbrev pub step_of : Tick → Simulation W → Option GuestProfile → Option (Simulation W)
  step_of t s none = none
  step_of t s (some guest) = step_in t guest s (s.states guest.id)

  unfoldable pub run_guest_step : List GuestProfile → Tick → Simulation W → Option (Simulation W)
  unfolding ask_parrot book_hotel book_random_activity
  run_guest_step guests t s = step_of t s (sample t.guest_draw guests)

  abbrev pub and_then :
      (Simulation W → Option (Simulation W)) → Option (Simulation W) → Option (Simulation W)
  and_then f none = none
  and_then f (some s) = f s

  unfoldable pub run_guest_steps :
      List GuestProfile → List Tick → Simulation W → Option (Simulation W)
  run_guest_steps guests [] s = some s
  run_guest_steps guests (t ∷ ts) s =
      and_then (run_guest_steps guests ts) (run_guest_step guests t s)
