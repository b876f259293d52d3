-- ===== src/Hotel/Cancelling.antt =====
-- Cancelling a reservation: it is idempotent, and it frees the room.
use faf_hackathon_challenge.Prelude.{
  String, true, false, ◌≡◌, refl, inl, inr, ◌∙◌, sym, ap, some, List, [], ◌∷◌, map, arith, All,
  All-listed, Bool-cases, find, find-some, empty-select, subst, if◌then◌else◌, eq_iff,
}
use faf_hackathon_challenge.Hotel.Types.{
  Reservation, confirmed, cancelled, is_confirmed, overlaps, cancel_row, has_id,
  CancelReservationResponse,
}
use faf_hackathon_challenge.Hotel.Prisma.{Prisma}
use faf_hackathon_challenge.Hotel.Reservations.{Outcome, ok, Config, Hotel, cancel_found, cancel}
use faf_hackathon_challenge.Hotel.Calendar.{IsDisjoint, NoOverlap}

find-map_cancel :
    (id : String) (rs : List Reservation) (r : Reservation)
    → find (has_id id) rs ≡ some r
    → find (has_id id) (map (cancel_row id) rs) ≡ some (cancel_row id r)
find-map_cancel id [] r h = cc
find-map_cancel id (s ∷ rs) r h = elim (Bool-cases (has_id id s)) [
  | inl here ↦ taken here (ground arith)
  | inr there ↦ rw there (find-map_cancel id rs r (ground arith))
]
  where
    test :
        has_id id s ≡ true
        → find (has_id id) (map (cancel_row id) (s ∷ rs)) ≡ some (cancel_row id s)
    test here =
        subst
          (λ b.
            (if b then some (cancel_row id s) else find (has_id id) (map (cancel_row id) rs))
            ≡ some (cancel_row id s))
          (sym here) refl

    taken :
        has_id id s ≡ true
        → s ≡ r
        → find (has_id id) (map (cancel_row id) (s ∷ rs)) ≡ some (cancel_row id r)
    taken here e =
        subst (λ t. find (has_id id) (map (cancel_row id) (s ∷ rs)) ≡ some (cancel_row id t)) e
          (test here)

cancel_row_inactive :
    (id : String) (r : Reservation) → is_confirmed r.status ≡ false → cancel_row id r ≡ r
cancel_row_inactive id r h = ground arith

not_confirmed→cancelled : (r : Reservation) → is_confirmed r.status ≡ false → r.status ≡ cancelled
not_confirmed→cancelled r h = ground arith

cancel_row_cancelled :
    (id : String) (r : Reservation) → has_id id r ≡ true → (cancel_row id r).status ≡ cancelled
cancel_row_cancelled id r h = rw h refl

-- A stay that is disjoint from a confirmed one does not meet its days, cancelled or not.
cancel_row-apart :
    (id : String) (r u : Reservation)
    → r.status ≡ confirmed
    → IsDisjoint r u
    → overlaps r.room_id r.check_in_day r.check_out_day (cancel_row id u) ≡ false
cancel_row-apart id r u active apart = ground (arith, eq_iff u.room_id r.room_id, apart active)

IsDisjoint-sym : (r u : Reservation) → IsDisjoint r u → IsDisjoint u r
IsDisjoint-sym r u apart a b e = ground (arith, apart b a (sym e))

module _ (id : String) (r : Reservation) (active : r.status ≡ confirmed) where
  marked-apart :
      (rs : List Reservation)
      → All (IsDisjoint r) rs
      → All
          (λ t. overlaps r.room_id r.check_in_day r.check_out_day t ≡ false)
          (map (cancel_row id) rs)
  marked-apart [] h = tt
  marked-apart (u ∷ rs) (p, h) = (cancel_row-apart id r u active p, marked-apart rs h)

  marked-frees :
      (rs : List Reservation)
      → find (has_id id) rs ≡ some r
      → NoOverlap rs
      → All
          (λ t. overlaps r.room_id r.check_in_day r.check_out_day t ≡ false)
          (map (cancel_row id) rs)
  marked-frees [] h apart = tt
  marked-frees (t ∷ rs) h (p, apart) = elim (Bool-cases (has_id id t)) [
    | inl here ↦
        let e : t ≡ r = ground arith in
        (ground arith, marked-apart rs (subst (λ u. All (IsDisjoint u) rs) e p))
    | inr there ↦
        let later : find (has_id id) rs ≡ some r = ground arith in
        (
          cancel_row-apart id r t active (
              IsDisjoint-sym t r
                (All-listed (IsDisjoint t) rs p (find-some (has_id id) rs later).0)),
          marked-frees rs later apart,
        )
  ]

module _ {Db : Type 0} (prisma : Prisma Db) (config : Config) (id : String) (s : Hotel Db) where
  -- What cancelling an existing reservation comes to: the answer, and the rows marked as
  -- cancelled where they were not so already.
  pub record Cancelled (r : Reservation) : Type 0 where
    pub state : Hotel Db
    pub outcome : cancel prisma config id s ≡ (ok (record { id = r.id; status = cancelled }), state)
    pub found : find (has_id id) (prisma.reservations state.db) ≡ some (cancel_row id r)
    pub marked :
        is_confirmed r.status ≡ true
        → prisma.reservations state.db ≡ map (cancel_row id) (prisma.reservations s.db)

  cancel-Cancelled :
      (r : Reservation) → find (has_id id) (prisma.reservations s.db) ≡ some r → Cancelled r
  unfolding cancel
  cancel-Cancelled r h =
      let looked : prisma.find_reservation id s.db ≡ some r =
        prisma.find_reservation_lem id s.db ∙ h in
      elim (Bool-cases (is_confirmed r.status)) [
        | inl active ↦
            let (db', done, marked, kept) = prisma.cancel_stores id s.db r h in
            record {
              state = (cancel_found prisma config id s (some r)).1;
              outcome =
                  rw (looked, active, done, (find-some (has_id id) (prisma.reservations s.db) h).1)
                    refl;
              found = rw (active, done, marked) (find-map_cancel id (prisma.reservations s.db) r h);
              marked = λ _. rw (active, done) marked;
            }
        | inr inactive ↦ record {
          state = s;
          outcome = rw (looked, inactive, not_confirmed→cancelled r inactive) refl;
          found = rw (cancel_row_inactive id r inactive) h;
          marked = λ active. cc;
        }
      ]

  -- Cancelling an existing reservation answers with the status CANCELLED, and cancelling it again
  -- gives the same answer, writes nothing and sends no second event.
  cancel_idempotent :
      (r : Reservation)
      → find (has_id id) (prisma.reservations s.db) ≡ some r
      → (s' : Hotel Db) × (cancel prisma config id s
          ≡ (ok (record { id = r.id; status = cancelled }), s'))
        × (cancel prisma config id s' ≡ (ok (record { id = r.id; status = cancelled }), s'))
  unfolding cancel
  cancel_idempotent r h =
      let c = cancel-Cancelled r h in
      let again : prisma.find_reservation id c.state.db ≡ some (cancel_row id r) =
        prisma.find_reservation_lem id c.state.db ∙ c.found in
      let inactive : (cancel_row id r).status ≡ cancelled =
        cancel_row_cancelled id r (find-some (has_id id) (prisma.reservations s.db) h).1 in
      (c.state, c.outcome, rw (again, inactive) refl)

  -- Cancelling a confirmed reservation frees its room for its days: where no room was booked twice,
  -- the query of `create` finds no overlapping reservation there any more.
  pub cancel-frees :
      (r : Reservation)
      → find (has_id id) (prisma.reservations s.db) ≡ some r
      → r.status ≡ confirmed
      → NoOverlap (prisma.reservations s.db)
      → prisma.count_overlapping r.room_id r.check_in_day r.check_out_day
          (cancel prisma config id s).1.db
        ≡ 0
  cancel-frees r h active apart =
      let c = cancel-Cancelled r h in
      let after = (cancel prisma config id s).1 in
      let marked : prisma.reservations after.db ≡ map (cancel_row id) (prisma.reservations s.db) =
        ap (λ (o : Outcome CancelReservationResponse × Hotel Db). prisma.reservations o.1.db)
          c.outcome
        ∙ c.marked (rw active refl) in
      prisma.count_overlapping_lem r.room_id r.check_in_day r.check_out_day after.db
      ∙ rw marked (empty-select _ _ (marked-frees id r active (prisma.reservations s.db) h apart))
