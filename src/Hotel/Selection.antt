-- ===== src/Hotel/Selection.antt =====
-- Which room `create` chooses, and exactly when it finds one.
use mathlib.Core.List.{Memᴰ}
use faf_hackathon_challenge.Prelude.{
  ℕ, Bool, false, ◌&&◌, ◌≡◌, refl, ◌↔◌, ◌≤◌, ◌∙◌, sym, some, List, [], ◌∷◌, arith, find, find-some,
  select, select-listed, leb, or_else, ◌==◌,
}
use faf_hackathon_challenge.Prelude.Int.{leb_int, ◌<ℤ◌}
use faf_hackathon_challenge.Hotel.Types.{Room, same_type, same_type→eq, CreateReservationDto}
use faf_hackathon_challenge.Hotel.Prisma.{Prisma}
use faf_hackathon_challenge.Hotel.Reservations.{
  ok, Config, party_size, max_capacity, exceeds, rejects_guest, find_available, choose_room,
}

max_capacity-le :
    (rooms : List Room) (room : Room)
    → Memᴰ room rooms
    → room.capacity ≤ or_else (max_capacity rooms) 0
unfolding max_capacity
max_capacity-le [] room m = elim m [ ]
max_capacity-le (r ∷ rooms) room (Memᴰ.head e) = rw e (omega arith)
max_capacity-le (r ∷ rooms) room (Memᴰ.tail m) = omega (arith, max_capacity-le rooms room m)

exceeds-false :
    (size : ℕ) (rooms : List Room) (room : Room)
    → Memᴰ room rooms
    → size ≤ room.capacity
    → exceeds size (max_capacity rooms) ≡ false
unfolding max_capacity
exceeds-false size [] room m h = elim m [ ]
exceeds-false size (r ∷ rooms) room m h = ground (arith, max_capacity-le (r ∷ rooms) room m)

module _ {Db : Type 0} (prisma : Prisma Db) (dto : CreateReservationDto) (db : Db) where
  -- A room that holds the party and has no overlapping reservation.
  abbrev pub suits : Room → Bool
  suits room =
      leb (party_size dto) room.capacity
      && prisma.count_overlapping room.id dto.check_in_day dto.check_out_day db == 0

  pub find_available-find :
      (rooms : List Room) → find_available prisma dto db rooms ≡ find suits rooms
  unfolding find_available
  find_available-find [] = refl
  find_available-find (room ∷ rooms) = ground (arith, find_available-find rooms)

  -- What the room that `create` chooses satisfies.
  pub record IsChosen (config : Config) (room : Room) : Type 0 where
    pub days : dto.check_in_day <ℤ dto.check_out_day
    pub cleared : rejects_guest config dto.guest_id ≡ false
    pub listed : Memᴰ room (prisma.rooms db)
    pub type : room.type ≡ dto.room_type
    pub fits : party_size dto ≤ room.capacity
    pub free : prisma.count_overlapping room.id dto.check_in_day dto.check_out_day db ≡ 0
    pub first :
        find suits (select (λ r. same_type r.type dto.room_type) (prisma.rooms db)) ≡ some room

  pub searched :
      (config : Config) (room : Room)
      → leb_int dto.check_out_day dto.check_in_day ≡ false
      → rejects_guest config dto.guest_id ≡ false
      → find_available prisma dto db (prisma.find_rooms dto.room_type db) ≡ some room
      → IsChosen config room
  searched config room days cleared found =
      let of_type = select (λ r. same_type r.type dto.room_type) (prisma.rooms db) in
      let here : find suits of_type ≡ some room =
        sym (find_available-find of_type) ∙ rw (prisma.find_rooms_lem dto.room_type db) at found in
      let (m, s) = find-some suits of_type here in
      let (listed, same) =
        select-listed (λ r. same_type r.type dto.room_type) (prisma.rooms db) m in
      record {
        days = ground arith;
        cleared = cleared;
        listed = listed;
        type = same_type→eq room.type dto.room_type same;
        fits = ground arith;
        free = ground arith;
        first = here;
      }

  -- `create` goes on to book a room exactly if the days are in order, the airport does not report
  -- the guest as not yet processed, and the room is the first among those of the type that
  -- hold the party and of which the query counts no overlap.
  pub choose_room_iff :
      (config : Config) (room : Room)
      → (choose_room prisma config dto db ≡ ok room) ↔ IsChosen config room
  unfolding choose_room
  choose_room_iff config room = (choose, chosen)
    where
      choose : choose_room prisma config dto db ≡ ok room → IsChosen config room
      choose h = searched config room (ground arith) (ground arith) (ground arith)

      chosen : IsChosen config room → choose_room prisma config dto db ≡ ok room
      chosen c =
          let of_type = select (λ r. same_type r.type dto.room_type) (prisma.rooms db) in
          let (m, s) = find-some suits of_type c.first in
          let few : exceeds (party_size dto) (max_capacity (prisma.find_rooms dto.room_type db))
              ≡ false =
            rw (prisma.find_rooms_lem dto.room_type db)
              (exceeds-false (party_size dto) of_type room m c.fits) in
          let found : find_available prisma dto db (prisma.find_rooms dto.room_type db)
              ≡ some room =
            rw (prisma.find_rooms_lem dto.room_type db) (find_available-find of_type ∙ c.first) in
          let ordered : leb_int dto.check_out_day dto.check_in_day ≡ false = ground arith in
          rw (ordered, c.cleared, few, found) refl
