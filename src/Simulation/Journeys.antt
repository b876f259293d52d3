-- ===== src/Simulation/Journeys.antt =====
-- How the guests of the simulation move between their stages.
use mathlib.Core.List.{Memᴰ}
use faf_hackathon_challenge.Prelude.{
  get_elem?, ℕ, zero, suc, ◌<◌, ◌%◌, String, false, ◌≡◌, refl, ap, ◌∙◌, Option, none, some, List,
  [], ◌∷◌, length, arith, Bool-cases, Option-cases, inl, inr, str_eq, eq_refl, truthy, eq_iff,
}
use faf_hackathon_challenge.Web.Types.{GuestProfile}
use faf_hackathon_challenge.Simulation.Actions.{
  Services, sample, arrive, book_hotel, book_random_activity,
}
use faf_hackathon_challenge.Simulation.Machine.{
  SimGuestState, fresh, arrived, hotel_booked, beach_booked, GuestStates, Simulation, Tick,
  seed_state, seeded, create_initial_state, set_state, set_if, handle, run_guest_step,
  run_guest_steps, step_in, step_of, and_then,
}

-- The moves between stages. Each keeps the gate and the reservation that the guest holds.
pub data Moves : SimGuestState → SimGuestState → Type 0 where
  stays : (x : SimGuestState) → Moves x x
  arrives : (gate : String) → Moves fresh (arrived gate)
  books_hotel : (gate r : String) → Moves (arrived gate) (hotel_booked gate r)
  books_beach : (gate r a : String) → Moves (hotel_booked gate r) (beach_booked gate r a)
  leaves_beach : (gate r a : String) → Moves (beach_booked gate r a) (hotel_booked gate r)
  leaves : (gate r a : String) → Moves (beach_booked gate r a) fresh

-- That the guest moves from this state, and that no other's state is touched.
pub record Moved {W : Type 0} (guest : GuestProfile) (x : SimGuestState) (s t : Simulation W)
    : Type 0 where
  pub next : SimGuestState
  pub own : t.states guest.id ≡ some next
  pub move : Moves x next
  pub others : (k : String) → str_eq k guest.id ≡ false → t.states k ≡ s.states k

module _ {W : Type 0} (services : Services W) where
  set-Moved :
      (guest : GuestProfile) (x next : SimGuestState) (s t : Simulation W)
      → Moves x next
      → t.states ≡ s.states
      → Moved guest x s (set_state services guest next t)
  set-Moved guest x next s t m same = record {
    next = next;
    own = rw (eq_refl guest.id) refl;
    move = m;
    others = λ k other. rw other (ap (λ (f : GuestStates). f k) same);
  }

  stays-Moved :
      (guest : GuestProfile) (x : SimGuestState) (s t : Simulation W)
      → s.states guest.id ≡ some x
      → t.states ≡ s.states
      → Moved guest x s t
  stays-Moved guest x s t at same = record {
    next = x;
    own = ap (λ (f : GuestStates). f guest.id) same ∙ at;
    move = stays x;
    others = λ k other. ap (λ (f : GuestStates). f k) same;
  }

  set_if-Moved :
      (guest : GuestProfile) (x : SimGuestState) (f : String → SimGuestState) (s : Simulation W)
      (answer : Option String × W)
      → s.states guest.id ≡ some x
      → ((v : String) → Moves x (f v))
      → Moved guest x s (set_if services guest f s answer)
  set_if-Moved guest x f s (none, w) at m = stays-Moved guest x s (record s { world = w }) at refl
  set_if-Moved guest x f s (some v, w) at m = elim (Bool-cases (truthy v)) [
    | inl given ↦ rw given (set-Moved guest x (f v) s (record s { world = w }) (m v) refl)
    | inr empty ↦ rw empty (stays-Moved guest x s (record s { world = w }) at refl)
  ]

  handle-Moved :
      (t : Tick) (guest : GuestProfile) (x : SimGuestState) (s : Simulation W)
      → s.states guest.id ≡ some x
      → Moved guest x s (handle services t guest x s)
  handle-Moved t guest fresh s at =
      set_if-Moved guest fresh arrived s (arrive services guest s.world) at arrives
  handle-Moved t guest (arrived gate) s at = elim (Bool-cases (t.action.below 80)) [
    | inl books ↦ rw books (
        set_if-Moved guest (arrived gate) (hotel_booked gate) s
          (book_hotel services t.draws t.day guest s.world) at (books_hotel gate))
    | inr asks ↦ rw asks (stays-Moved guest (arrived gate) s _ at refl)
  ]
  handle-Moved t guest (hotel_booked gate r) s at = elim (Bool-cases (t.action.below 25)) [
    | inl books ↦ rw books (
        set_if-Moved guest (hotel_booked gate r) (beach_booked gate r) s
          (book_random_activity services (t.draws 0) guest s.world) at (books_beach gate r))
    | inr other ↦ elim (Bool-cases (t.action.below 65)) [
      | inl asks ↦ rw (other, asks) (stays-Moved guest (hotel_booked gate r) s _ at refl)
      | inr idle ↦ rw (other, idle) (stays-Moved guest (hotel_booked gate r) s s at refl)
    ]
  ]
  handle-Moved t guest (beach_booked gate r a) s at = elim (Bool-cases (t.action.below 10)) [
    | inl goes ↦ rw goes (set-Moved guest (beach_booked gate r a) fresh s _ (leaves gate r a) refl)
    | inr other ↦ elim (Bool-cases (t.action.below 25)) [
      | inl off ↦
          rw (other, off)
            (set-Moved guest (beach_booked gate r a) (hotel_booked gate r) s _
              (leaves_beach gate r a) refl)
      | inr on ↦ elim (Bool-cases (t.action.below 45)) [
        | inl asks ↦ rw (other, on, asks) (stays-Moved guest (beach_booked gate r a) s _ at refl)
        | inr idle ↦ rw (other, on, idle) (stays-Moved guest (beach_booked gate r a) s s at refl)
      ]
    ]
  ]

  -- A step of the simulation moves the sampled guest along one of the moves between the stages,
  -- with the gate and the reservation that the guest holds, and touches no other guest's state:
  -- whatever the services answer and whatever is drawn.
  pub run_guest_step-Moved :
      (guests : List GuestProfile) (t : Tick) (s : Simulation W) (guest : GuestProfile)
      (x : SimGuestState)
      → sample t.guest_draw guests ≡ some guest
      → s.states guest.id ≡ some x
      → (s' : Simulation W) × (run_guest_step services guests t s ≡ some s') × Moved guest x s s'
  unfolding run_guest_step
  run_guest_step-Moved guests t s guest x drawn at = (
    handle services t guest x s,
    ap (step_of services t s) drawn ∙ ap (step_in services t guest s) at,
    handle-Moved t guest x s at,
  )

pub get_elem?-found :
    (guests : List GuestProfile) (n : ℕ)
    → n < length guests
    → (guest : GuestProfile) × (get_elem? guests n ≡ some guest) × Memᴰ guest guests
get_elem?-found [] n short = absurd (omega arith)
get_elem?-found (guest ∷ guests) zero h = (guest, refl, Memᴰ.head refl)
get_elem?-found (guest ∷ guests) (suc n) h =
    let (found, at, listed) = get_elem?-found guests n (omega arith) in
    (found, at, Memᴰ.tail listed)

-- Every listed guest has a state.
abbrev pub AllSeeded : List GuestProfile → GuestStates → Type 0
AllSeeded guests states =
    (guest : GuestProfile) → Memᴰ guest guests → (x : SimGuestState) × (states guest.id ≡ some x)

seeded_later :
    (guest : GuestProfile) (guests : List GuestProfile) (i : ℕ) (k : String)
    → (x : SimGuestState) × (seeded guests (suc i) k ≡ some x)
    → (x : SimGuestState) × (seeded (guest ∷ guests) i k ≡ some x)
unfolding seeded
seeded_later guest guests i k (x, at) = (x, rw at refl)

pub seeded-AllSeeded : (guests : List GuestProfile) (i : ℕ) → AllSeeded guests (seeded guests i)
unfolding seeded
seeded-AllSeeded [] i guest m = elim m [ ]
seeded-AllSeeded (g ∷ guests) i guest (Memᴰ.tail m) =
    seeded_later g guests i guest.id (seeded-AllSeeded guests (suc i) guest m)
seeded-AllSeeded (g ∷ guests) i guest (Memᴰ.head e) =
    elim (Option-cases (seeded guests (suc i) guest.id)) [
      | inl missing ↦ (
        seed_state (i % 4),
        rw missing (rw (ap (λ (p : GuestProfile). p.id) e) (rw (eq_refl g.id) refl)),
      )
      | inr (x, there) ↦ (x, rw there refl)
    ]

module _ {W : Type 0} (services : Services W) where
  Moved-AllSeeded :
      (guests : List GuestProfile) (guest : GuestProfile) (x : SimGuestState) (s t : Simulation W)
      → Moved guest x s t
      → AllSeeded guests s.states
      → AllSeeded guests t.states
  Moved-AllSeeded guests guest x s t moved h g m = elim (Bool-cases (str_eq g.id guest.id)) [
    | inl same ↦ (moved.next, ap t.states ((eq_iff g.id guest.id).0 same) ∙ moved.own)
    | inr other ↦ let (y, at) = h g m in (y, moved.others g.id other ∙ at)
  ]

  run_guest_steps-AllSeeded :
      (guests : List GuestProfile) (ts : List Tick) (s : Simulation W)
      → 0 < length guests
      → AllSeeded guests s.states
      → (s' : Simulation W) × (run_guest_steps services guests ts s ≡ some s')
        × AllSeeded guests s'.states
  unfolding run_guest_steps
  run_guest_steps-AllSeeded guests [] s some_guest h = (s, refl, h)
  run_guest_steps-AllSeeded guests (t ∷ ts) s some_guest h =
      let (guest, drawn, listed) =
        get_elem?-found guests (t.guest_draw.index (length guests))
          (t.guest_draw.index_lt (length guests) some_guest) in
      let (x, at) = h guest listed in
      let (s', step, moved) = run_guest_step-Moved services guests t s guest x drawn at in
      let (s'', rest, seeded_still) =
        run_guest_steps-AllSeeded guests ts s' some_guest
          (Moved-AllSeeded guests guest x s s' moved h) in
      (s'', ap (and_then services (run_guest_steps services guests ts)) step ∙ rest, seeded_still)

  -- From the initial state of a list of guests that is not empty, any number of steps runs through
  -- without a TypeError, and every guest has a state afterwards.
  pub run_guest_steps-defined :
      (guests : List GuestProfile) (ts : List Tick) (last : ℕ) (w : W)
      → 0 < length guests
      → (s : Simulation W) × (run_guest_steps services guests ts
            (record { states = create_initial_state guests; last_parrot_chat_at = last; world = w })
          ≡ some s)
        × ((guest : GuestProfile)
            → Memᴰ guest guests
            → (x : SimGuestState) × (s.states guest.id ≡ some x))
  run_guest_steps-defined guests ts last w some_guest =
      run_guest_steps-AllSeeded guests ts _ some_guest (seeded-AllSeeded guests 0)
