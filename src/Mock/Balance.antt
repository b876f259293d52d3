-- ===== src/Mock/Balance.antt =====
-- The places of an activity in the mock: those left, and those that guests hold.
use faf_hackathon_challenge.Prelude.{
  ℕ, ◌+◌, ◌-◌, ◌==◌, ◌≡◌, refl, ◌∙◌, ap, sym, subst, String, Bool, true, false, Option, none, some,
  List, [], ◌∷◌, map, arith, Bool-cases, inl, inr, or_else, if◌then◌else◌, str_eq, eq_iff, truthy,
}
use faf_hackathon_challenge.Mock.Store.{
  StoredActivity, Storage, load_activities, load_bookings, load_entries, as_stored, Bookings,
  booking_of, put_booking, find_activity, change_remaining, take_place, free_place, holds, give_up,
  book_found, book, free_found, cancel, MockRequest, get_activities, get_activity, get_by_guest,
  post_book, post_cancel, handle, serve_all, save_bookings,
}
use faf_hackathon_challenge.Mock.Places.{
  remaining_of, find_activity-remaining, find_activity-missing, change_remaining-remaining,
  load_entries-saved,
}

-- The guests whose current booking is the activity.
abbrev pub count_bookings : String → Bookings → ℕ
count_bookings id [] = 0
count_bookings id ((k, v) ∷ rest) = (if holds v id then 1 else 0) + count_bookings id rest

abbrev one_if : Bool → ℕ
one_if b = if b then 1 else 0

count-put_booking :
    (id g : String) (v : Option String) (b : Bookings)
    → count_bookings id (put_booking g v b) + one_if (holds (booking_of g b) id)
      ≡ count_bookings id b + one_if (holds v id)
count-put_booking id g v [] = omega arith
count-put_booking id g v ((k, w) ∷ rest) = ground (arith, count-put_booking id g v rest)

-- The places of an activity: those left, and those that guests hold.
abbrev pub places : String → Storage → ℕ
places id s = or_else (remaining_of id (load_activities s)) 0 + count_bookings id (load_bookings s)

given_up : (c id : String) → truthy id ≡ true → str_eq c id ≡ true → truthy c ≡ true
given_up c id h same = subst (λ k. truthy k ≡ true) (sym ((eq_iff c id).0 same)) h

give_up-remaining :
    (id : String) (current : Option String) (activities : List StoredActivity) (n : ℕ)
    → truthy id ≡ true
    → remaining_of id activities ≡ some n
    → remaining_of id (give_up current activities) ≡ some (n + one_if (holds current id))
give_up-remaining id none activities n h e = e ∙ ap some (omega arith)
give_up-remaining id (some c) activities n h e =
    ground
      (arith, given_up c id h, change_remaining-remaining c id free_place activities, eq_iff c id)

-- The activity is listed, and its places come to the total.
abbrev pub HasPlaces : String → ℕ → List StoredActivity → Bookings → Type 0
HasPlaces id total activities b =
    (m : ℕ) × (remaining_of id activities ≡ some m) × (m + count_bookings id b ≡ total)

switched-HasPlaces :
    (id g a : String) (activities : List StoredActivity) (b : Bookings) (n total : ℕ)
    → truthy id ≡ true
    → holds (booking_of g b) a ≡ false
    → (str_eq a id ≡ true → (n == 0) ≡ false)
    → remaining_of id activities ≡ some n
    → n + count_bookings id b ≡ total
    → HasPlaces id total
        (change_remaining a take_place (give_up (booking_of g b) activities))
        (put_booking g (some a) b)
switched-HasPlaces id g a activities b n total t away open_ e sum =
    let left = give_up-remaining id (booking_of g b) activities n t e in
    let changed =
      change_remaining-remaining a id take_place (give_up (booking_of g b) activities) in
    let counted = count-put_booking id g (some a) b in
    elim (Bool-cases (str_eq a id)) [
      | inl same ↦
          let away_too : holds (booking_of g b) id ≡ false =
            subst (λ k. holds (booking_of g b) k ≡ false) ((eq_iff a id).0 same) away in
          (n - 1, ground arith, ground (arith, open_ same))
      | inr other ↦ (n + one_if (holds (booking_of g b) id), ground arith, ground arith)
    ]

some_of_holds : (o : Option String) (a : String) → holds o a ≡ true → o ≡ some a
some_of_holds none a h = cc
some_of_holds (some c) a h = ap some ((eq_iff c a).0 h)

cancelled-HasPlaces :
    (id g a : String) (activities : List StoredActivity) (b : Bookings) (n total : ℕ)
    → holds (booking_of g b) a ≡ true
    → remaining_of id activities ≡ some n
    → n + count_bookings id b ≡ total
    → HasPlaces id total (change_remaining a free_place activities) (put_booking g none b)
cancelled-HasPlaces id g a activities b n total held_now e sum =
    let changed = change_remaining-remaining a id free_place activities in
    let counted = count-put_booking id g none b in
    elim (Bool-cases (str_eq a id)) [
      | inl same ↦
          let held_too : holds (booking_of g b) id ≡ true =
            subst (λ k. holds (booking_of g b) k ≡ true) ((eq_iff a id).0 same) held_now in
          (n + 1, ground arith, ground arith)
      | inr other ↦
          let not_held : holds (booking_of g b) id ≡ false =
            ap (λ o. holds o id) (some_of_holds (booking_of g b) a held_now) ∙ other in
          (n, ground arith, ground arith)
    ]

-- What the storage says of an activity's places.
abbrev pub Keeps : String → ℕ → Storage → Type 0
Keeps id total s = HasPlaces id total (load_activities s) (load_bookings s)

saved-Keeps :
    (id : String) (total : ℕ) (activities : List StoredActivity) (b : Bookings)
    → HasPlaces id total activities b
    → HasPlaces id total activities (load_entries (map (λ e. (e.0, as_stored e.1)) b))
saved-Keeps id total activities b h =
    subst (HasPlaces id total activities) (sym (load_entries-saved b)) h

still_open :
    (id a : String) (activities : List StoredActivity) (n r : ℕ)
    → remaining_of id activities ≡ some n
    → remaining_of a activities ≡ some r
    → (r == 0) ≡ false
    → str_eq a id ≡ true
    → (n == 0) ≡ false
still_open id a activities n r e listed open_ same =
    let eqn : some r ≡ some n =
      sym listed ∙ ap (λ k. remaining_of k activities) ((eq_iff a id).0 same) ∙ e in
    ground arith

book_found-Keeps :
    (id g a : String) (found : Option StoredActivity) (s : Storage) (total : ℕ)
    → truthy id ≡ true
    → find_activity a (load_activities s) ≡ found
    → Keeps id total s
    → Keeps id total (book_found g a (booking_of g (load_bookings s)) found s).1
book_found-Keeps id g a none s total t f h = h
book_found-Keeps id g a (some x) s total t f (n, e, sum) =
    let listed = find_activity-remaining a (load_activities s) x f in
    elim (Bool-cases (holds (booking_of g (load_bookings s)) a)) [
      | inl held_now ↦ rw held_now (n, e, sum)
      | inr away ↦ elim (Bool-cases (x.remaining == 0)) [
        | inl closed ↦ rw away (rw closed (n, e, sum))
        | inr open_ ↦ rw away (
            rw open_ (
              saved-Keeps id total
                (change_remaining a take_place
                  (give_up (booking_of g (load_bookings s)) (load_activities s)))
                (put_booking g (some a) (load_bookings s))
                (switched-HasPlaces id g a (load_activities s) (load_bookings s) n total t away
                  (λ same. still_open id a (load_activities s) n x.remaining e listed open_ same) e
                  sum)))
      ]
    ]

missing_other :
    (a id : String) (activities : List StoredActivity) (n : ℕ)
    → remaining_of a activities ≡ none
    → remaining_of id activities ≡ some n
    → str_eq a id ≡ false
missing_other a id activities n missing e = elim (Bool-cases (str_eq a id)) [
  | inl same ↦
      let clash : none ≡ some n =
        sym missing ∙ ap (λ k. remaining_of k activities) ((eq_iff a id).0 same) ∙ e in
      cc
  | inr other ↦ other
]

unlisted-HasPlaces :
    (id g a : String) (activities : List StoredActivity) (b : Bookings) (n total : ℕ)
    → remaining_of a activities ≡ none
    → holds (booking_of g b) a ≡ true
    → remaining_of id activities ≡ some n
    → n + count_bookings id b ≡ total
    → HasPlaces id total activities (put_booking g none b)
unlisted-HasPlaces id g a activities b n total missing held_now e sum =
    let counted = count-put_booking id g none b in
    let not_held : holds (booking_of g b) id ≡ false =
      ap (λ o. holds o id) (some_of_holds (booking_of g b) a held_now)
      ∙ missing_other a id activities n missing e in
    (n, e, ground arith)

free_found-Keeps :
    (id g a : String) (found : Option StoredActivity) (s : Storage) (total : ℕ)
    → find_activity a (load_activities s) ≡ found
    → holds (booking_of g (load_bookings s)) a ≡ true
    → Keeps id total s
    → Keeps id total (free_found a found (save_bookings (put_booking g none (load_bookings s)) s))
free_found-Keeps id g a none s total f held_now (n, e, sum) =
    saved-Keeps id total (load_activities s) (put_booking g none (load_bookings s)) (
      unlisted-HasPlaces id g a (load_activities s) (load_bookings s) n total
        (find_activity-missing a (load_activities s) f) held_now e sum)
free_found-Keeps id g a (some x) s total f held_now (n, e, sum) =
    saved-Keeps id total (change_remaining a free_place (load_activities s))
      (put_booking g none (load_bookings s))
      (cancelled-HasPlaces id g a (load_activities s) (load_bookings s) n total held_now e sum)

handle-Keeps :
    (id : String) (total : ℕ) (r : MockRequest) (s : Storage)
    → truthy id ≡ true
    → Keeps id total s
    → Keeps id total (handle r s).1
unfolding handle book cancel
handle-Keeps id total get_activities s t h = h
handle-Keeps id total (get_activity a) s t h = h
handle-Keeps id total (get_by_guest g) s t h = h
handle-Keeps id total (post_book g a) s t h =
    book_found-Keeps id g a (find_activity a (load_activities s)) s total t refl h
handle-Keeps id total (post_cancel g a) s t h =
    elim (Bool-cases (holds (booking_of g (load_bookings s)) a)) [
      | inl held_now ↦
          rw held_now
            (free_found-Keeps id g a (find_activity a (load_activities s)) s total refl held_now h)
      | inr away ↦ rw away h
    ]

serve_all-Keeps :
    (id : String) (total : ℕ) (rs : List MockRequest) (s : Storage)
    → truthy id ≡ true
    → Keeps id total s
    → Keeps id total (serve_all rs s)
unfolding serve_all
serve_all-Keeps id total [] s t h = h
serve_all-Keeps id total (r ∷ rs) s t h =
    serve_all-Keeps id total rs (handle r s).1 t (handle-Keeps id total r s t h)

-- No request loses a place or makes one up: for an activity that is listed, under an id that is not
-- empty, the places left and the guests that hold one come to the same number after any requests as
-- before them, whatever they are, refused ones, repeated ones and changes of activity included.
pub serve_all-places :
    (id : String) (rs : List MockRequest) (s : Storage) (n : ℕ)
    → truthy id ≡ true
    → remaining_of id (load_activities s) ≡ some n
    → ((m : ℕ) × (remaining_of id (load_activities (serve_all rs s)) ≡ some m))
      × (places id (serve_all rs s) ≡ places id s)
serve_all-places id rs s n t e =
    let (m, listed, sum) = serve_all-Keeps id (places id s) rs s t (n, e, ground arith) in
    ((m, listed), ground arith)
