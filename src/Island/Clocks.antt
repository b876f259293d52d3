-- ===== src/Island/Clocks.antt =====
-- The day of a date in the web app's form against the day of the hotel's clock.
use faf_hackathon_challenge.Prelude.{
  ℕ, zero, suc, ◌+◌, ◌-◌, ◌*◌, ◌/◌, ◌≤◌, String, false, ◌≡◌, ap, ◌∙◌, some, List, arith,
  le→ltb_false, if◌then◌else◌,
}
use faf_hackathon_challenge.Prelude.Int.{pos, negsuc, ltb_int}
use faf_hackathon_challenge.Web.ReservationForm.{
  Calendar, PostReservationRequest, StepperButton, submitted, date_to_simulation_day,
  form_to_request,
}
use faf_hackathon_challenge.Hotel.Types.{RoomType, Reservation}
use faf_hackathon_challenge.Hotel.Prisma.{occupies_room}
use faf_hackathon_challenge.Hotel.Rooms.{
  compute_current_day, scale, floor_div, compute_elapsed_game_ms,
}
use faf_hackathon_challenge.Island.Stays.{filled, filled-submitted}

-- The calendar of a browser in UTC: date-fns counts days of 24 hours.
abbrev pub IsUtc : Calendar → Type 0
IsUtc calendar =
    (a c : ℕ)
    → c ≤ a
    → calendar.difference_in_days (calendar.start_of_day a) (calendar.start_of_day c)
      ≡ pos (a / 86400000 - c / 86400000)

triple_le : (n s : ℕ) → 3 ≤ s → n + n + n ≤ n * s
triple_le n zero h = absurd (omega arith)
triple_le n (suc zero) h = absurd (omega arith)
triple_le n (suc (suc zero)) h = absurd (omega arith)
triple_le n (suc (suc (suc s))) h = ground arith

-- The day after now, counted from the anchor's, is not after the day of the game.
next_day_le :
    (now anchor game_ms : ℕ)
    → anchor + 86400000 ≤ now
    → (now - anchor) + (now - anchor) + (now - anchor) ≤ game_ms
    → (now + 86400000) / 86400000 - anchor / 86400000 ≤ game_ms / 86400000
next_day_le now anchor game_ms h k = omega arith

current_day :
    (now anchor speed : ℕ)
    → anchor ≤ now
    → compute_current_day now anchor speed ≡ pos ((now - anchor) * speed / 86400000)
unfolding compute_current_day compute_elapsed_game_ms
current_day now anchor speed h =
    ap
      (λ b.
        floor_div (scale (if b then negsuc (anchor - now - 1) else pos (now - anchor)) speed)
          86400000)
      (le→ltb_false now anchor h)

over :
    (x y : ℕ) (id : String) (r : Reservation)
    → r.check_out_day ≡ pos x
    → x ≤ y
    → occupies_room (pos y) id r ≡ false
over x y id r e h =
    let late : ltb_int (pos y) r.check_out_day ≡ false =
      ap (ltb_int (pos y)) e ∙ le→ltb_false (y + 0) (x + 0) (omega arith) in
    ground arith

-- The request for the stay that the form offers when it is opened: from now to this time tomorrow.
abbrev pub offered :
    Calendar → ℕ → ℕ → RoomType → List StepperButton → String → PostReservationRequest
offered calendar anchor now room_type buttons guest_id =
    form_to_request calendar anchor (filled room_type buttons now (now + 86400000))
      (now, now + 86400000) guest_id

-- The stay that the form offers when it is opened, from now to the same time tomorrow, is posted, but
-- it is over by the hotel's clock: in a browser in UTC, one day or more after the start of the game
-- and with a game that is at least three times as fast as the real time, no reservation with the
-- request's day of check-out counts for a room on the hotel's current day. The form counts days of
-- the calendar from the start, the hotel days of the game.
pub submitted-over :
    (calendar : Calendar) (anchor now speed : ℕ) (room_type : RoomType)
    (buttons : List StepperButton) (guest_id room_id : String) (r : Reservation)
    → IsUtc calendar
    → anchor + 86400000 ≤ now
    → 3 ≤ speed
    → r.check_out_day ≡ (offered calendar anchor now room_type buttons guest_id).check_out_day
    → (submitted calendar anchor (filled room_type buttons now (now + 86400000)) guest_id
        ≡ some (offered calendar anchor now room_type buttons guest_id))
      × (occupies_room (compute_current_day now anchor speed) room_id r ≡ false)
unfolding date_to_simulation_day
submitted-over calendar anchor now speed room_type buttons guest_id room_id r utc later fast e =
    let tomorrow = now + 86400000 in
    let sent =
      filled-submitted calendar anchor room_type buttons now tomorrow guest_id (omega arith) in
    let day = utc tomorrow anchor (omega arith) in
    let passed =
      next_day_le now anchor ((now - anchor) * speed) later (triple_le (now - anchor) speed fast) in
    (
      sent,
      ap (λ d. occupies_room d room_id r) (current_day now anchor speed (omega arith))
          ∙ over (tomorrow / 86400000 - anchor / 86400000) ((now - anchor) * speed / 86400000)
              room_id r (e ∙ day) passed,
    )
