-- ===== src/Prelude/Lists.antt =====
-- Lists over the native numbers, with the predicates and sums that several components use.
use Prim.Native.Nat.{ℕ, zero, suc, ◌+◌, min}
use mathlib.Core.Path.{◌≡◌, refl, sym, subst}
use mathlib.Core.Logic.{inl, inr, ◌⊎◌}
use mathlib.Core.Bool.{Bool, true, false, ◌&&◌, ◌||◌}
use mathlib.Core.Option.{Option, none, some}
use mathlib.Core.List.{List, [], ◌∷◌, ◌++◌, Memᴰ}
use native.Mathlib.Omega.{arith}
use faf_hackathon_challenge.Prelude.Tests.{if◌then◌else◌, Bool-cases}

module _ {ℓ} {A : Type ℓ} where
  abbrev pub length : List A → ℕ
  length [] = 0
  length (x ∷ xs) = suc (length xs)

  abbrev pub take : ℕ → List A → List A
  take zero xs = []
  take (suc n) [] = []
  take (suc n) (x ∷ xs) = x ∷ take n xs

  abbrev pub get_elem? : List A → ℕ → Option A
  get_elem? [] n = none
  get_elem? (x ∷ xs) zero = some x
  get_elem? (x ∷ xs) (suc n) = get_elem? xs n

  abbrev pub any : (A → Bool) → List A → Bool
  any p [] = false
  any p (x ∷ xs) = p x || any p xs

  abbrev pub all : (A → Bool) → List A → Bool
  all p [] = true
  all p (x ∷ xs) = p x && all p xs

  -- `Array.prototype.filter` for a Boolean test
  abbrev pub select : (A → Bool) → List A → List A
  select p [] = []
  select p (x ∷ xs) = let rest = select p xs in if p x then x ∷ rest else rest

  -- `Array.prototype.find` for a Boolean test
  abbrev pub find : (A → Bool) → List A → Option A
  find p [] = none
  find p (x ∷ xs) = let rest = find p xs in if p x then some x else rest

  pub length-take : (n : ℕ) (xs : List A) → length (take n xs) ≡ min n (length xs)
  length-take zero xs = omega arith
  length-take (suc n) [] = omega arith
  length-take (suc n) (x ∷ xs) = omega (arith, length-take n xs)

  pub length-append : (xs ys : List A) → length (xs ++ ys) ≡ length xs + length ys
  length-append [] ys = omega arith
  length-append (x ∷ xs) ys = omega (arith, length-append xs ys)

  pub select-append :
      (p : A → Bool) (xs ys : List A) → select p (xs ++ ys) ≡ select p xs ++ select p ys
  select-append p [] ys = refl
  select-append p (x ∷ xs) ys = ground (arith, select-append p xs ys)

module _ {ℓ κ} {A : Type ℓ} (P : A → Type κ) where
  abbrev pub All : List A → Type κ
  All [] = Unit
  All (x ∷ xs) = P x × All xs

  pub All-append : (xs ys : List A) → All xs → All ys → All (xs ++ ys)
  All-append [] ys h k = k
  All-append (x ∷ xs) ys (p, h) k = (p, All-append xs ys h k)

  pub All-take : (n : ℕ) (xs : List A) → All xs → All (take n xs)
  All-take zero xs h = tt
  All-take (suc n) [] h = tt
  All-take (suc n) (x ∷ xs) (p, h) = (p, All-take n xs h)

pub All-map {ℓ κ μ} :
    {A : Type ℓ} (P : A → Type κ) (Q : A → Type μ) (xs : List A)
    → ((x : A) → P x → Q x)
    → All P xs
    → All Q xs
All-map P Q [] f h = tt
All-map P Q (x ∷ xs) f (p, h) = (f x p, All-map P Q xs f h)

module _ {ℓ} {A : Type ℓ} (p : A → Bool) where
  -- An element that `find` returns is listed and passes the test.
  pub find-some : (xs : List A) {x : A} → find p xs ≡ some x → Memᴰ x xs × (p x ≡ true)
  find-some [] h = cc
  find-some (y ∷ xs) {x} h = elim (Bool-cases (p y)) [
    | inl here ↦ let e : y ≡ x = ground arith in (Memᴰ.head (sym e), rw (← e) here)
    | inr there ↦ let (m, q) = find-some xs {x = x} (ground arith) in (Memᴰ.tail m, q)
  ]

  pub find-none : (xs : List A) → find p xs ≡ none → All (λ x. p x ≡ false) xs
  find-none [] h = tt
  find-none (y ∷ xs) h = elim (Bool-cases (p y)) [
    | inl here ↦ ground arith
    | inr there ↦ (there, find-none xs (ground arith))
  ]

  pub select-empty : (xs : List A) → length (select p xs) ≡ 0 → All (λ x. p x ≡ false) xs
  select-empty [] h = tt
  select-empty (y ∷ xs) h = elim (Bool-cases (p y)) [
    | inl here ↦ ground arith
    | inr there ↦ (there, select-empty xs (ground arith))
  ]

  pub empty-select : (xs : List A) → All (λ x. p x ≡ false) xs → length (select p xs) ≡ 0
  empty-select [] h = refl
  empty-select (y ∷ xs) (q, h) = ground (arith, empty-select xs h)

  unfold_cons : {y x : A} {ys : List A} → Memᴰ x (y ∷ ys) → (x ≡ y) ⊎ Memᴰ x ys
  unfold_cons (Memᴰ.head e) = inl e
  unfold_cons (Memᴰ.tail n) = inr n

  pub select-listed : (xs : List A) {x : A} → Memᴰ x (select p xs) → Memᴰ x xs × (p x ≡ true)
  select-listed [] m = elim m [ ]
  select-listed (y ∷ xs) {x} m =
      let rest = λ (n : Memᴰ x (select p xs)). select-listed xs n in
      elim (Bool-cases (p y)) [
        | inl here ↦ elim (unfold_cons (rw here at m)) [
          | inl e ↦ (Memᴰ.head e, rw e here)
          | inr n ↦ (Memᴰ.tail (rest n).0, (rest n).1)
        ]
        | inr there ↦
            let n : Memᴰ x (select p xs) = rw there at m in (Memᴰ.tail (rest n).0, (rest n).1)
      ]

pub All-listed {ℓ κ} :
    {A : Type ℓ} (P : A → Type κ) (xs : List A) {x : A} → All P xs → Memᴰ x xs → P x
All-listed P [] h m = elim m [ ]
All-listed P (y ∷ xs) (p, h) (Memᴰ.head e) = subst P (sym e) p
All-listed P (y ∷ xs) (p, h) (Memᴰ.tail m) = All-listed P xs h m
