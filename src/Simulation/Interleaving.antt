-- ===== src/Simulation/Interleaving.antt =====
-- Steps of the generator that overlap: what a step writes may rest on a state that has changed since
-- it was read.
use mathlib.Core.List.{Memᴰ}
use faf_hackathon_challenge.Prelude.{
  ℕ, zero, suc, ◌<◌, String, ◌≡◌, refl, ap, ◌∙◌, Option, none, some, List, [], ◌∷◌, length,
  Bool-cases, inl, inr, str_eq, truthy,
}
use faf_hackathon_challenge.Web.Types.{GuestProfile}
use faf_hackathon_challenge.Simulation.Actions.{
  Services, sample, arrive, book_hotel, book_random_activity,
}
use faf_hackathon_challenge.Simulation.Machine.{
  SimGuestState, fresh, arrived, hotel_booked, beach_booked, GuestStates, Simulation, Tick,
  set_state, set_if, handle, create_initial_state,
}
use faf_hackathon_challenge.Simulation.Journeys.{seeded-AllSeeded, get_elem?-found}
use faf_hackathon_challenge.Simulation.Generator.{
  Flight, Generator, idle, GeneratorEvent, mounts, unmounts, fires, settles, flight_of, flight_in,
  drop_at, begin, fire, settle, generator_step, generator_run,
}

abbrev HasState : String → GuestStates → Type 0
HasState k states = (x : SimGuestState) × (states k ≡ some x)

module _ {W : Type 0} (services : Services W) where
  set_state-HasState :
      (k : String) (guest : GuestProfile) (next : SimGuestState) (s : Simulation W)
      → HasState k s.states
      → HasState k (set_state services guest next s).states
  set_state-HasState k guest next s h = elim (Bool-cases (str_eq k guest.id)) [
    | inl same ↦ (next, rw same refl)
    | inr other ↦ (h.0, rw other h.1)
  ]

  set_if-HasState :
      (k : String) (guest : GuestProfile) (f : String → SimGuestState) (s : Simulation W)
      (answer : Option String × W)
      → HasState k s.states
      → HasState k (set_if services guest f s answer).states
  set_if-HasState k guest f s (none, w) h = h
  set_if-HasState k guest f s (some v, w) h = elim (Bool-cases (truthy v)) [
    | inl given ↦ rw given (set_state-HasState k guest (f v) (record s { world = w }) h)
    | inr empty ↦ rw empty h
  ]

  -- Whatever state a step has read, it takes no guest's state away.
  handle-HasState :
      (k : String) (t : Tick) (guest : GuestProfile) (read : SimGuestState) (s : Simulation W)
      → HasState k s.states
      → HasState k (handle services t guest read s).states
  handle-HasState k t guest fresh s h =
      set_if-HasState k guest arrived s (arrive services guest s.world) h
  handle-HasState k t guest (arrived gate) s h = elim (Bool-cases (t.action.below 80)) [
    | inl books ↦ rw books (
        set_if-HasState k guest (hotel_booked gate) s
          (book_hotel services t.draws t.day guest s.world) h)
    | inr asks ↦ rw asks h
  ]
  handle-HasState k t guest (hotel_booked gate r) s h = elim (Bool-cases (t.action.below 25)) [
    | inl books ↦ rw books (
        set_if-HasState k guest (beach_booked gate r) s
          (book_random_activity services (t.draws 0) guest s.world) h)
    | inr other ↦ elim (Bool-cases (t.action.below 65)) [
      | inl asks ↦ rw (other, asks) h
      | inr idles ↦ rw (other, idles) h
    ]
  ]
  handle-HasState k t guest (beach_booked gate r a) s h = elim (Bool-cases (t.action.below 10)) [
    | inl goes ↦ rw goes (set_state-HasState k guest fresh s h)
    | inr other ↦ elim (Bool-cases (t.action.below 25)) [
      | inl off ↦ rw (other, off) (set_state-HasState k guest (hotel_booked gate r) s h)
      | inr on ↦ elim (Bool-cases (t.action.below 45)) [
        | inl asks ↦ rw (other, on, asks) h
        | inr idles ↦ rw (other, on, idles) h
      ]
    ]
  ]

  begin-states :
      (f : Option Flight) (g : Generator W)
      → (begin services f g).simulation.states ≡ g.simulation.states
  begin-states none g = refl
  begin-states (some f) g = refl

  fire-states :
      (guests : List GuestProfile) (t : Tick) (timers : ℕ) (g : Generator W)
      → (fire services guests t timers g).simulation.states ≡ g.simulation.states
  fire-states guests t zero g = refl
  fire-states guests t (suc timers) g =
      begin-states (flight_of (sample t.guest_draw guests) g.simulation.states)
        (record g { timers = timers })

  settle-HasState :
      (k : String) (t : Tick) (o : Option (Flight × List Flight)) (g : Generator W)
      → HasState k g.simulation.states
      → HasState k (settle services t o g).simulation.states
  settle-HasState k t none g h = h
  settle-HasState k t (some (f, flights)) g h = handle-HasState k t f.guest f.state g.simulation h

  generator_step-HasState :
      (k : String) (guests : List GuestProfile) (e : GeneratorEvent) (g : Generator W)
      → HasState k g.simulation.states
      → HasState k (generator_step services guests e g).simulation.states
  unfolding generator_step
  generator_step-HasState k guests mounts g h = h
  generator_step-HasState k guests unmounts g h = h
  generator_step-HasState k guests (fires t) g h =
      (h.0, ap (λ (states : GuestStates). states k) (fire-states guests t g.timers g) ∙ h.1)
  generator_step-HasState k guests (settles i t) g h = settle-HasState k t (drop_at i g.flights) g h

  generator_run-HasState :
      (k : String) (guests : List GuestProfile) (es : List GeneratorEvent) (g : Generator W)
      → HasState k g.simulation.states
      → HasState k (generator_run services guests es g).simulation.states
  unfolding generator_run
  generator_run-HasState k guests [] g h = h
  generator_run-HasState k guests (e ∷ es) g h =
      generator_run-HasState k guests es (generator_step services guests e g)
        (generator_step-HasState k guests e g h)

  -- However the steps overlap, none ends in a TypeError: from the initial state of a list of guests
  -- that is not empty, after any mounts, unmounts, timers and answers in any order, a timer that fires
  -- finds its guest and the guest's state, and begins a step.
  pub generator_run-begins :
      (guests : List GuestProfile) (es : List GeneratorEvent) (last : ℕ) (w : W) (t : Tick)
      → 0 < length guests
      → let start : Simulation W = record {
        states = create_initial_state guests;
        last_parrot_chat_at = last;
        world = w;
      } in
        (f : Flight) × (flight_of
            (sample t.guest_draw guests)
            (generator_run services guests es (idle start)).simulation.states
          ≡ some f)
        × Memᴰ f.guest guests
  generator_run-begins guests es last w t some_guest =
      let (guest, drawn, listed) =
        get_elem?-found guests (t.guest_draw.index (length guests))
          (t.guest_draw.index_lt (length guests) some_guest) in
      let start : Simulation W = record {
        states = create_initial_state guests;
        last_parrot_chat_at = last;
        world = w;
      } in
      let after = (generator_run services guests es (idle start)).simulation.states in
      let (x, at) =
        generator_run-HasState guest.id guests es (idle start)
          (seeded-AllSeeded guests 0 guest listed) in
      (
        record { guest = guest; state = x },
        ap (λ o. flight_of o after) drawn ∙ ap (flight_in guest) at,
        listed,
      )
