-- ===== src/Simulation/Generator.antt =====
-- frontend/src/features/simulation/hooks/use-traffic-generator.ts: the loops of the traffic generator.
-- A step that is under way has read its guest's state, and answers later: what it asks of the services
-- and what it writes is done at once when it settles.
use faf_hackathon_challenge.Prelude.{
  ℕ, zero, suc, ◌+◌, Bool, true, false, Option, none, some, List, [], ◌∷◌, if◌then◌else◌,
}
use faf_hackathon_challenge.Web.Types.{GuestProfile}
use faf_hackathon_challenge.Simulation.Actions.{Services, sample}
use faf_hackathon_challenge.Simulation.Machine.{
  SimGuestState, Simulation, Tick, handle, GuestStates,
}

abbrev pub concurrent_guests : ℕ
concurrent_guests = 3

-- A step that waits for an answer: its guest, and the guest's state as it was read.
pub record Flight : Type 0 where
  pub guest : GuestProfile
  pub state : SimGuestState

-- `runningRef`, the timers that are set, the steps under way, and what the steps share.
pub record Generator (W : Type 0) : Type 0 where
  pub running : Bool
  pub timers : ℕ
  pub flights : List Flight
  pub simulation : Simulation W

abbrev pub idle : {W : Type 0} → Simulation W → Generator W
idle s = record { running = false; timers = 0; flights = []; simulation = s }

pub data GeneratorEvent : Type 0 where
  mounts unmounts : GeneratorEvent
  -- a timer fires, with the draw of its step
  fires : Tick → GeneratorEvent
  -- the step at a position of those under way settles
  settles : ℕ → Tick → GeneratorEvent

-- The state that is read for a guest; `none` is the TypeError of `state.stage` or `guest.id`.
abbrev pub flight_in : GuestProfile → Option SimGuestState → Option Flight
flight_in guest none = none
flight_in guest (some state) = some (record { guest = guest; state = state })

abbrev pub flight_of : Option GuestProfile → GuestStates → Option Flight
flight_of none states = none
flight_of (some guest) states = flight_in guest (states guest.id)

abbrev pub keep_head : Flight → Option (Flight × List Flight) → Option (Flight × List Flight)
keep_head f none = none
keep_head f (some (found, fs)) = some (found, f ∷ fs)

abbrev pub drop_at : ℕ → List Flight → Option (Flight × List Flight)
drop_at i [] = none
drop_at zero (f ∷ fs) = some (f, fs)
drop_at (suc i) (f ∷ fs) = keep_head f (drop_at i fs)

module _ {W : Type 0} (services : Services W) where
  abbrev pub schedule_next : Generator W → Generator W
  schedule_next g = record g { timers = if g.running then suc g.timers else g.timers }

  abbrev pub begin : Option Flight → Generator W → Generator W
  begin none g = schedule_next g
  begin (some f) g = record g { flights = f ∷ g.flights }

  abbrev pub fire : List GuestProfile → Tick → ℕ → Generator W → Generator W
  fire guests t zero g = g
  fire guests t (suc timers) g =
      begin (flight_of (sample t.guest_draw guests) g.simulation.states)
        (record g { timers = timers })

  abbrev pub settle : Tick → Option (Flight × List Flight) → Generator W → Generator W
  settle t none g = g
  settle t (some (f, flights)) g =
      schedule_next (record g {
        flights = flights;
        simulation = handle services t f.guest f.state g.simulation;
      })

  -- An event that cannot happen, for want of a timer or of a step, changes nothing.
  unfoldable pub generator_step : List GuestProfile → GeneratorEvent → Generator W → Generator W
  generator_step guests mounts g = record g {
    running = true;
    timers = concurrent_guests + g.timers;
  }
  generator_step guests unmounts g = record g { running = false; timers = 0 }
  generator_step guests (fires t) g = fire guests t g.timers g
  generator_step guests (settles i t) g = settle t (drop_at i g.flights) g

  unfoldable pub generator_run : List GuestProfile → List GeneratorEvent → Generator W → Generator W
  generator_run guests [] g = g
  generator_run guests (e ∷ es) g = generator_run guests es (generator_step guests e g)
