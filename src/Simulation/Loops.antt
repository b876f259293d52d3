-- ===== src/Simulation/Loops.antt =====
-- How many loops the generator runs.
use faf_hackathon_challenge.Prelude.{
  ℕ, zero, suc, ◌+◌, ◌≤◌, ◌≡◌, refl, ap, Bool, true, false, Option, none, some, List, [], ◌∷◌,
  if◌then◌else◌, length, arith, All,
}
use faf_hackathon_challenge.Web.Types.{GuestProfile}
use faf_hackathon_challenge.Simulation.Actions.{Services, sample}
use faf_hackathon_challenge.Simulation.Machine.{Simulation, Tick, handle}
use faf_hackathon_challenge.Simulation.Generator.{
  concurrent_guests, Flight, Generator, idle, GeneratorEvent, mounts, unmounts, fires, settles,
  flight_of, drop_at, keep_head, schedule_next, begin, fire, settle, generator_step, generator_run,
}

-- The events between a mount and the next unmount.
abbrev pub IsStep : GeneratorEvent → Type 0
IsStep mounts = ⊥
IsStep unmounts = ⊥
IsStep e = Unit

-- One flight less than before.
abbrev IsShorter : ℕ → Option (Flight × List Flight) → Type 0
IsShorter n none = Unit
IsShorter n (some (f, rest)) = n ≡ suc (length rest)

keep_head-IsShorter :
    (f : Flight) (n : ℕ) (o : Option (Flight × List Flight))
    → IsShorter n o
    → IsShorter (suc n) (keep_head f o)
keep_head-IsShorter f n none h = tt
keep_head-IsShorter f n (some (found, rest)) h = ap suc h

drop_at-IsShorter : (i : ℕ) (fs : List Flight) → IsShorter (length fs) (drop_at i fs)
drop_at-IsShorter i [] = tt
drop_at-IsShorter zero (g ∷ fs) = refl
drop_at-IsShorter (suc i) (g ∷ fs) =
    keep_head-IsShorter g (length fs) (drop_at i fs) (drop_at-IsShorter i fs)

timed :
    (running : Bool) (timers flying n : ℕ)
    → running ≡ true
    → timers + flying ≡ n
    → (if running then suc timers else timers) + flying ≡ suc n
timed running timers flying n on sum = ground arith

untimed :
    (running : Bool) (timers : ℕ)
    → running ≡ false
    → timers ≡ 0
    → (if running then suc timers else timers) ≡ 0
untimed running timers off none_set = ground arith

module _ {W : Type 0} (services : Services W) where
  -- The generator runs, and so many loops: each has a timer set or a step under way.
  abbrev pub Runs : ℕ → Generator W → Type 0
  Runs n g = (g.running ≡ true) × (g.timers + length g.flights ≡ n)

  schedule_next-Runs :
      (n : ℕ) (g : Generator W) → Runs n g → Runs (suc n) (schedule_next services g)
  schedule_next-Runs n g (on, sum) = (on, timed g.running g.timers (length g.flights) n on sum)

  begin-Runs :
      (n : ℕ) (f : Option Flight) (g : Generator W) → Runs n g → Runs (suc n) (begin services f g)
  begin-Runs n none g h = schedule_next-Runs n g h
  begin-Runs n (some f) g (on, sum) = (on, omega arith)

  fire-Runs :
      (guests : List GuestProfile) (t : Tick) (n timers : ℕ) (g : Generator W)
      → g.timers ≡ timers
      → Runs n g
      → Runs n (fire services guests t timers g)
  fire-Runs guests t n zero g e h = h
  fire-Runs guests t zero (suc timers) g e (on, sum) = absurd (omega arith)
  fire-Runs guests t (suc n) (suc timers) g e (on, sum) =
      begin-Runs n (flight_of (sample t.guest_draw guests) g.simulation.states)
        (record g { timers = timers }) (on, omega arith)

  settle-Runs :
      (t : Tick) (n : ℕ) (o : Option (Flight × List Flight)) (g : Generator W)
      → IsShorter (length g.flights) o
      → Runs n g
      → Runs n (settle services t o g)
  settle-Runs t n none g short h = h
  settle-Runs t zero (some (f, flights)) g short (on, sum) = absurd (omega arith)
  settle-Runs t (suc n) (some (f, flights)) g short (on, sum) =
      schedule_next-Runs n
        (record g {
          flights = flights;
          simulation = handle services t f.guest f.state g.simulation;
        })
        (on, omega arith)

  step-Runs :
      (guests : List GuestProfile) (e : GeneratorEvent) (n : ℕ) (g : Generator W)
      → IsStep e
      → Runs n g
      → Runs n (generator_step services guests e g)
  unfolding generator_step
  step-Runs guests mounts n g s h = elim s [ ]
  step-Runs guests unmounts n g s h = elim s [ ]
  step-Runs guests (fires t) n g s h = fire-Runs guests t n g.timers g refl h
  step-Runs guests (settles i t) n g s h =
      settle-Runs t n (drop_at i g.flights) g (drop_at-IsShorter i g.flights) h

  run-Runs :
      (guests : List GuestProfile) (es : List GeneratorEvent) (n : ℕ) (g : Generator W)
      → All IsStep es
      → Runs n g
      → Runs n (generator_run services guests es g)
  unfolding generator_run
  run-Runs guests [] n g s h = h
  run-Runs guests (e ∷ es) n g (s, ss) h =
      run-Runs guests es n (generator_step services guests e g) ss (step-Runs guests e n g s h)

  -- The generator is stopped, with no timer set and at most so many steps under way.
  abbrev pub IsStopped : ℕ → Generator W → Type 0
  IsStopped n g = (g.running ≡ false) × (g.timers ≡ 0) × (length g.flights ≤ n)

  fire-IsStopped :
      (guests : List GuestProfile) (t : Tick) (n timers : ℕ) (g : Generator W)
      → g.timers ≡ timers
      → IsStopped n g
      → IsStopped n (fire services guests t timers g)
  fire-IsStopped guests t n zero g e h = h
  fire-IsStopped guests t n (suc timers) g e (off, none_set, few) = absurd (omega arith)

  settle-IsStopped :
      (t : Tick) (n : ℕ) (o : Option (Flight × List Flight)) (g : Generator W)
      → IsShorter (length g.flights) o
      → IsStopped n g
      → IsStopped n (settle services t o g)
  settle-IsStopped t n none g short h = h
  settle-IsStopped t n (some (f, flights)) g short (off, none_set, few) =
      (off, untimed g.running g.timers off none_set, omega arith)

  step-IsStopped :
      (guests : List GuestProfile) (e : GeneratorEvent) (n : ℕ) (g : Generator W)
      → IsStep e
      → IsStopped n g
      → IsStopped n (generator_step services guests e g)
  unfolding generator_step
  step-IsStopped guests mounts n g s h = elim s [ ]
  step-IsStopped guests unmounts n g s h = elim s [ ]
  step-IsStopped guests (fires t) n g s h = fire-IsStopped guests t n g.timers g refl h
  step-IsStopped guests (settles i t) n g s h =
      settle-IsStopped t n (drop_at i g.flights) g (drop_at-IsShorter i g.flights) h

  run-IsStopped :
      (guests : List GuestProfile) (es : List GeneratorEvent) (n : ℕ) (g : Generator W)
      → All IsStep es
      → IsStopped n g
      → IsStopped n (generator_run services guests es g)
  unfolding generator_run
  run-IsStopped guests [] n g s h = h
  run-IsStopped guests (e ∷ es) n g (s, ss) h =
      run-IsStopped guests es n (generator_step services guests e g) ss
        (step-IsStopped guests e n g s h)

  -- From the mount, whatever fires and settles, in whatever order, there are always exactly as many
  -- loops, timers and steps under way together, as the generator means to have: none dies, also where
  -- a step fails, and none is added. From the unmount on no timer is set any more, so no step begins,
  -- and those under way are never more than at the unmount.
  pub generator_run-loops :
      (guests : List GuestProfile) (es after : List GeneratorEvent) (s : Simulation W)
      → All IsStep es
      → All IsStep after
      → let g = generator_run services guests (mounts ∷ es) (idle s) in
        let h = generator_run services guests (unmounts ∷ after) g in
        (g.timers + length g.flights ≡ concurrent_guests)
        × (h.running ≡ false)
        × (h.timers ≡ 0)
        × (length h.flights ≤ length g.flights)
  unfolding generator_run generator_step
  generator_run-loops guests es after s steps later =
      let start = generator_step services guests mounts (idle s) in
      let g = generator_run services guests es start in
      let (on, sum) = run-Runs guests es concurrent_guests start steps (refl, refl) in
      let (off, none_set, few) =
        run-IsStopped guests after (length g.flights) (generator_step services guests unmounts g)
          later (refl, refl, omega arith) in
      (sum, off, none_set, few)
