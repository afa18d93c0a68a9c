-- ===== src/Base/Lists.antt =====
-- Lists measured by native numbers, under the library's names, and texts as lists of code points.
use Prim.Native.Nat.{ℕ, zero, suc, ◌+◌, ◌-◌, min}
use mathlib.Core.Path.{◌≡◌, refl, ap}
use mathlib.Core.List.{List, [], ◌∷◌, ◌++◌, map}
use native.Mathlib.Omega.{arith}

-- A text that the program walks character by character, as its code points.
abbrev pub Text : Type 0
Text = List ℕ

module _ {ℓ} {A : Type ℓ} where
  abbrev pub length : List A → ℕ
  length [] = 0
  length (x ∷ xs) = suc (length xs)

  abbrev pub take : ℕ → List A → List A
  take zero xs = []
  take (suc n) [] = []
  take (suc n) (x ∷ xs) = x ∷ take n xs

  abbrev pub drop : ℕ → List A → List A
  drop zero xs = xs
  drop (suc n) [] = []
  drop (suc n) (x ∷ xs) = drop n xs

  abbrev pub replicate : ℕ → A → List A
  replicate zero a = []
  replicate (suc n) a = a ∷ replicate n a

  pub length-append : (xs ys : List A) → length (xs ++ ys) ≡ length xs + length ys
  length-append [] ys = omega arith
  length-append (x ∷ xs) ys = omega (arith, length-append xs ys)

  pub length-take : (n : ℕ) (xs : List A) → length (take n xs) ≡ min n (length xs)
  length-take zero xs = omega arith
  length-take (suc n) [] = omega arith
  length-take (suc n) (x ∷ xs) = omega (arith, length-take n xs)

  pub length-drop : (n : ℕ) (xs : List A) → length (drop n xs) ≡ length xs - n
  length-drop zero xs = omega arith
  length-drop (suc n) [] = omega arith
  length-drop (suc n) (x ∷ xs) = omega (arith, length-drop n xs)

  pub take-append-drop : (n : ℕ) (xs : List A) → take n xs ++ drop n xs ≡ xs
  take-append-drop zero xs = refl
  take-append-drop (suc n) [] = refl
  take-append-drop (suc n) (x ∷ xs) = rw (take-append-drop n xs)

module _ {ℓ} {A : Type ℓ} where
  pub length-replicate : (n : ℕ) (a : A) → length (replicate n a) ≡ n
  length-replicate zero a = refl
  length-replicate (suc n) a = ap suc (length-replicate n a)

  pub length-map {κ} : {B : Type κ} (xs : List A) (f : A → B) → length (map f xs) ≡ length xs
  length-map [] f = refl
  length-map (x ∷ xs) f = ap suc (length-map xs f)

  -- A predicate on each item.
  abbrev pub All {κ} : (A → Type κ) → List A → Type κ
  All P [] = Unit
  All P (x ∷ xs) = P x × All P xs

-- A predicate on each item, for lists in parts.
module _ {ℓ κ} {A : Type ℓ} (P : A → Type κ) where
  pub All-both : (front back : List A) → All P front → All P back → All P (front ++ back)
  All-both [] back f b = b
  All-both (x ∷ front) back f b = (f.0, All-both front back f.1 b)

  pub All-at : (front back : List A) (a : A) → All P (front ++ a ∷ back) → P a
  All-at [] back a h = h.0
  All-at (x ∷ front) back a h = All-at front back a h.1

  pub All-without :
      (front back : List A) (a : A) → All P (front ++ a ∷ back) → All P (front ++ back)
  All-without [] back a h = h.1
  All-without (x ∷ front) back a h = (h.0, All-without front back a h.1)

pub All-weaken {ℓ κ ι} :
    {A : Type ℓ} {P : A → Type κ} {Q : A → Type ι} (xs : List A)
    → ((a : A) → P a → Q a)
    → All P xs
    → All Q xs
All-weaken [] f h = tt
All-weaken (x ∷ xs) f h = (f x h.0, All-weaken xs f h.1)
