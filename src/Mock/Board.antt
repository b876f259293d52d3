-- ===== src/Mock/Board.antt =====
-- What the mock never changes of its activities.
use faf_hackathon_challenge.Prelude.{
  ℕ, ◌==◌, ◌≡◌, refl, ◌∙◌, ap, String, Option, none, some, List, [], ◌∷◌, Bool-cases, inl, inr,
  truthy,
}
use faf_hackathon_challenge.Mock.Store.{
  StoredActivity, Storage, load_activities, load_bookings, booking_of, find_activity, is_activity,
  change_remaining, take_place, free_place, holds, give_up, book_found, book, free_found, cancel,
  save_bookings, put_booking, MockRequest, get_activities, get_activity, get_by_guest, post_book,
  post_cancel, handle,
}
use faf_hackathon_challenge.Mock.Desk.{Announced, announce, announced}

announced-change_remaining :
    (id : String) (f : ℕ → ℕ) (activities : List StoredActivity)
    → announced (change_remaining id f activities) ≡ announced activities
announced-change_remaining id f [] = refl
announced-change_remaining id f (a ∷ rest) = elim (Bool-cases (is_activity id a)) [
  | inl here ↦ rw here refl
  | inr away ↦ rw away (ap (λ es. announce a ∷ es) (announced-change_remaining id f rest))
]

announced-give_up :
    (o : Option String) (activities : List StoredActivity)
    → announced (give_up o activities) ≡ announced activities
announced-give_up none activities = refl
announced-give_up (some id) activities = elim (Bool-cases (truthy id)) [
  | inl t ↦ rw t (announced-change_remaining id free_place activities)
  | inr f ↦ rw f refl
]

abbrev board_of : Storage → List Announced
board_of s = announced (load_activities s)

booked-board :
    (g a : String) (current : Option String) (found : Option StoredActivity) (s : Storage)
    → board_of (book_found g a current found s).1 ≡ board_of s
booked-board g a current none s = refl
booked-board g a current (some x) s = elim (Bool-cases (holds current a)) [
  | inl held_now ↦ rw held_now refl
  | inr away ↦ elim (Bool-cases (x.remaining == 0)) [
    | inl closed ↦ rw away (rw closed refl)
    | inr open_ ↦ rw away (
        rw open_ (
          announced-change_remaining a take_place (give_up current (load_activities s))
          ∙ announced-give_up current (load_activities s)))
  ]
]

freed-board :
    (g a : String) (found : Option StoredActivity) (s : Storage)
    → board_of (free_found a found (save_bookings (put_booking g none (load_bookings s)) s))
      ≡ board_of s
freed-board g a none s = refl
freed-board g a (some x) s = announced-change_remaining a free_place (load_activities s)

-- The activities stay as they are announced, and in their order.
pub announced-handle :
    (r : MockRequest) (s : Storage)
    → announced (load_activities (handle r s).1) ≡ announced (load_activities s)
unfolding handle book cancel
announced-handle get_activities s = refl
announced-handle (get_activity a) s = refl
announced-handle (get_by_guest g) s = refl
announced-handle (post_book g a) s =
    booked-board g a (booking_of g (load_bookings s)) (find_activity a (load_activities s)) s
announced-handle (post_cancel g a) s =
    elim (Bool-cases (holds (booking_of g (load_bookings s)) a)) [
      | inl held_now ↦ rw held_now (freed-board g a (find_activity a (load_activities s)) s)
      | inr away ↦ rw away refl
    ]
