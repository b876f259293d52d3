-- ===== src/Hotel/FirstRoom.antt =====
-- The room that `create` chooses, stated by the rows of the tables alone.
use mathlib.Core.List.{Memᴰ}
use faf_hackathon_challenge.Prelude.{
  String, Bool, true, false, ◌&&◌, ◌≡◌, refl, ◌↔◌, ◌⊎◌, ◌≤◌, ◌∙◌, ap, sym, subst, inl, inr, some,
  List, [], ◌∷◌, ◌++◌, arith, find, select, select-empty, length, All, All-map, Bool-cases, eq_iff,
}
use faf_hackathon_challenge.Prelude.Int.{ℤ, ◌<ℤ◌}
use faf_hackathon_challenge.Hotel.Types.{
  Room, Reservation, confirmed, overlaps, same_type, same_type→eq, CreateReservationDto,
}
use faf_hackathon_challenge.Hotel.Prisma.{Prisma, IsOrdered}
use faf_hackathon_challenge.Hotel.Reservations.{ok, Config, party_size, rejects_guest, choose_room}
use faf_hackathon_challenge.Hotel.Selection.{suits, IsChosen, choose_room_iff}

-- A confirmed reservation of the room is over before the first day, or begins after the last one.
abbrev pub IsClear : String → ℤ → ℤ → Reservation → Type 0
IsClear room_id from until r =
    r.status ≡ confirmed
    → r.room_id ≡ room_id
    → (r.check_out_day <ℤ from) ⊎ (until <ℤ r.check_in_day)

overlaps-IsClear :
    (id : String) (i o : ℤ) (r : Reservation) → overlaps id i o r ≡ false → IsClear id i o r
overlaps-IsClear id i o r h on at = ground (arith, eq_iff r.room_id id)

met : (id : String) (i o : ℤ) (r : Reservation) → overlaps id i o r ≡ true → IsClear id i o r → ⊥
met id i o r h clear =
    let on : r.status ≡ confirmed = ground arith in
    let at : r.room_id ≡ id = ground (arith, eq_iff r.room_id id) in
    let apart = clear on at in ground arith

IsClear-overlaps :
    (id : String) (i o : ℤ) (r : Reservation) → IsClear id i o r → overlaps id i o r ≡ false
IsClear-overlaps id i o r h = elim (Bool-cases (overlaps id i o r)) [
  | inl hit ↦ absurd (met id i o r hit h)
  | inr miss ↦ miss
]

select-IsClear :
    (id : String) (i o : ℤ) (rs : List Reservation)
    → All (IsClear id i o) rs
    → length (select (overlaps id i o) rs) ≡ 0
select-IsClear id i o [] h = refl
select-IsClear id i o (r ∷ rs) (p, h) =
    rw (IsClear-overlaps id i o r p) (select-IsClear id i o rs h)

-- Where `find` stops in a list.
record Found {A : Type 0} (p : A → Bool) (xs : List A) (x : A) : Type 0 where
  before : List A
  after : List A
  split : xs ≡ before ++ x ∷ after
  hit : p x ≡ true
  missed : All (λ y. p y ≡ false) before

find-Found : {A : Type 0} (p : A → Bool) (xs : List A) (x : A) → find p xs ≡ some x → Found p xs x
find-Found p [] x h = cc
find-Found p (y ∷ xs) x h = elim (Bool-cases (p y)) [
  | inl here ↦
      let e : y ≡ x = ground arith in
      record {
        before = [];
        after = xs;
        split = ap (λ z. z ∷ xs) e;
        hit = subst (λ z. p z ≡ true) e here;
        missed = tt;
      }
  | inr away ↦
      let f = find-Found p xs x (ground arith) in
      record {
        before = y ∷ f.before;
        after = f.after;
        split = ap (λ zs. y ∷ zs) f.split;
        hit = f.hit;
        missed = (away, f.missed);
      }
]

find-split :
    {A : Type 0} (p : A → Bool) (before after : List A) (x : A)
    → p x ≡ true
    → All (λ y. p y ≡ false) before
    → find p (before ++ x ∷ after) ≡ some x
find-split p [] after x h m = rw h refl
find-split p (y ∷ before) after x h (n, m) = rw n (find-split p before after x h m)

find-select :
    {A : Type 0} (p q : A → Bool) (xs : List A) → find p (select q xs) ≡ find (λ x. q x && p x) xs
find-select p q [] = refl
find-select p q (x ∷ xs) = ground (arith, find-select p q xs)

Memᴰ-middle : {A : Type 0} (before after : List A) (x : A) → Memᴰ x (before ++ x ∷ after)
Memᴰ-middle [] after x = Memᴰ.head refl
Memᴰ-middle (y ∷ before) after x = Memᴰ.tail (Memᴰ-middle before after x)

behind-IsOrdered :
    (le : String → String → Bool) (before after : List Room) (room : Room)
    → IsOrdered le (before ++ room ∷ after)
    → All (λ r. le room.id r.id ≡ true) after
behind-IsOrdered le [] after room (p, h) = p
behind-IsOrdered le (r ∷ before) after room (p, h) = behind-IsOrdered le before after room h

module _ {Db : Type 0} (prisma : Prisma Db) (dto : CreateReservationDto) (db : Db) where
  -- A room of the type that holds the party and is clear for the days.
  pub record Suits (room : Room) : Type 0 where
    pub type : room.type ≡ dto.room_type
    pub fits : party_size dto ≤ room.capacity
    pub clear : All (IsClear room.id dto.check_in_day dto.check_out_day) (prisma.reservations db)

  abbrev test : Room → Bool
  test room = same_type room.type dto.room_type && suits prisma dto db room

  free_room :
      (id : String)
      → prisma.count_overlapping id dto.check_in_day dto.check_out_day db ≡ 0
      → All (IsClear id dto.check_in_day dto.check_out_day) (prisma.reservations db)
  free_room id h =
      All-map (λ r. overlaps id dto.check_in_day dto.check_out_day r ≡ false)
        (IsClear id dto.check_in_day dto.check_out_day) (prisma.reservations db)
        (overlaps-IsClear id dto.check_in_day dto.check_out_day)
        (select-empty (overlaps id dto.check_in_day dto.check_out_day) (prisma.reservations db)
          (sym (prisma.count_overlapping_lem id dto.check_in_day dto.check_out_day db) ∙ h))

  uncounted :
      (id : String)
      → All (IsClear id dto.check_in_day dto.check_out_day) (prisma.reservations db)
      → prisma.count_overlapping id dto.check_in_day dto.check_out_day db ≡ 0
  uncounted id h =
      prisma.count_overlapping_lem id dto.check_in_day dto.check_out_day db
      ∙ select-IsClear id dto.check_in_day dto.check_out_day (prisma.reservations db) h

  test-Suits : (room : Room) → test room ≡ true → Suits room
  test-Suits room h = record {
    type = same_type→eq room.type dto.room_type (ground arith);
    fits = ground arith;
    clear = free_room room.id (ground arith);
  }

  same_type_of :
      (room : Room) → room.type ≡ dto.room_type → same_type room.type dto.room_type ≡ true
  same_type_of room h = ground arith

  Suits-test : (room : Room) → Suits room → test room ≡ true
  Suits-test room s =
      let of_type = same_type_of room s.type in
      let free = uncounted room.id s.clear in let fits = s.fits in ground arith

  unsuited : (room : Room) → test room ≡ false → Suits room → ⊥
  unsuited room h s = let hit = Suits-test room s in cc

  untested : (room : Room) → (Suits room → ⊥) → test room ≡ false
  untested room h = elim (Bool-cases (test room)) [
    | inl hit ↦ absurd (h (test-Suits room hit))
    | inr miss ↦ miss
  ]

  -- The days are in order, the airport does not report the guest as not yet processed, and the room
  -- suits, while none before it does; the rooms behind it come later by their ids.
  pub record IsFirst (config : Config) (room : Room) : Type 0 where
    pub days : dto.check_in_day <ℤ dto.check_out_day
    pub cleared : rejects_guest config dto.guest_id ≡ false
    pub before : List Room
    pub after : List Room
    pub split : prisma.rooms db ≡ before ++ room ∷ after
    pub suited : Suits room
    pub none_before : All (λ r. ¬ Suits r) before
    pub by_id : All (λ r. prisma.id_le room.id r.id ≡ true) after

  IsChosen-IsFirst :
      (config : Config) (room : Room) → IsChosen prisma dto db config room → IsFirst config room
  IsChosen-IsFirst config room c =
      let f = find-Found test (prisma.rooms db) room (
        sym (
          find-select (suits prisma dto db) (λ r. same_type r.type dto.room_type) (prisma.rooms db))
        ∙ c.first) in
      record {
        days = c.days;
        cleared = c.cleared;
        before = f.before;
        after = f.after;
        split = f.split;
        suited = test-Suits room f.hit;
        none_before = All-map (λ r. test r ≡ false) (λ r. ¬ Suits r) f.before unsuited f.missed;
        by_id =
            behind-IsOrdered prisma.id_le f.before f.after room
              (subst (IsOrdered prisma.id_le) f.split (prisma.rooms_ordered db));
      }

  IsFirst-IsChosen :
      (config : Config) (room : Room) → IsFirst config room → IsChosen prisma dto db config room
  IsFirst-IsChosen config room f = record {
    days = f.days;
    cleared = f.cleared;
    listed = subst (λ rooms. Memᴰ room rooms) (sym f.split) (Memᴰ-middle f.before f.after room);
    type = f.suited.type;
    fits = f.suited.fits;
    free = uncounted room.id f.suited.clear;
    first =
        find-select (suits prisma dto db) (λ r. same_type r.type dto.room_type) (prisma.rooms db)
        ∙ ap (find test) f.split
        ∙ find-split test f.before f.after room (Suits-test room f.suited)
            (All-map (λ r. ¬ Suits r) (λ r. test r ≡ false) f.before untested f.none_before);
  }

  -- `create` goes on to book a room exactly if the days are in order, the airport does not report
  -- the guest as not yet processed, and the room is the first by id, in the order of the database's
  -- collation, that is of the type, holds the party and has no confirmed reservation that meets the
  -- days, those of arrival and departure included.
  pub choose_room-IsFirst :
      (config : Config) (room : Room)
      → (choose_room prisma config dto db ≡ ok room) ↔ IsFirst config room
  choose_room-IsFirst config room =
      let (forth, back) = choose_room_iff prisma dto db config room in
      (λ h. IsChosen-IsFirst config room (forth h), λ f. back (IsFirst-IsChosen config room f))
