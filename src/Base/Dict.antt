-- ===== src/Base/Dict.antt =====
-- Python's `dict` with text keys, in insertion order: a key that is set again keeps its place.
use brewblox_devcon_spark.Base.Tests.{str_eq, if◌then◌else◌}
use brewblox_devcon_spark.Base.Lists.{length}
use Prim.Native.Nat.{suc, ◌≤◌}
use Prim.Native.String.{String}
use mathlib.Core.Path.{◌≡◌, refl}
use mathlib.Core.Bool.{Bool, true, false, ◌||◌}
use mathlib.Core.List.{List, [], ◌∷◌, ◌++◌}
use mathlib.Core.Option.{Option, none, some}
use native.Mathlib.Omega.{arith}
use text.Mathlib.TextEquality.{eq_iff}
use text.Mathlib.TextPositions.{eq_refl}

abbrev pub Dict {ℓ} : Type ℓ → Type ℓ
Dict V = List (String × V)

module _ {ℓ} {V : Type ℓ} where
  -- `d.get(k)`
  unfoldable pub lookup : String → Dict V → Option V
  lookup k [] = none
  lookup k ((j, v) ∷ d) = if str_eq j k then some v else lookup k d

  -- `d[k] = v`
  unfoldable pub insert : String → V → Dict V → Dict V
  insert k v [] = (k, v) ∷ []
  insert k v ((j, w) ∷ d) = if str_eq j k then (j, v) ∷ d else (j, w) ∷ insert k v d

  -- `del d[k]`, where a missing key is no error
  unfoldable pub erase : String → Dict V → Dict V
  erase k [] = []
  erase k ((j, w) ∷ d) = let rest = erase k d in if str_eq j k then rest else (j, w) ∷ rest

  -- `d.values()`
  unfoldable pub values : Dict V → List V
  values [] = []
  values ((j, v) ∷ d) = v ∷ values d

  unfoldable pub keys : Dict V → List String
  keys [] = []
  keys ((j, v) ∷ d) = j ∷ keys d

  pub lookup-insert :
      (k j : String) (v : V) (d : Dict V)
      → lookup j (insert k v d) ≡ (if str_eq k j then some v else lookup j d)
  unfolding lookup insert
  lookup-insert k j v [] = refl
  lookup-insert k j v ((i, w) ∷ d) =
      ground (arith, eq_iff k j, eq_iff i k, eq_iff i j, lookup-insert k j v d)

  pub lookup-erase :
      (k j : String) (d : Dict V) → lookup j (erase k d) ≡ (if str_eq k j then none else lookup j d)
  unfolding lookup erase
  lookup-erase k j [] = ground arith
  lookup-erase k j ((i, w) ∷ d) =
      ground (arith, eq_iff k j, eq_iff i k, eq_iff i j, lookup-erase k j d)

-- `x in xs`
unfoldable pub elem : String → List String → Bool
elem x [] = false
elem x (y ∷ ys) = str_eq y x || elem x ys

pub elem-append : (x : String) (xs ys : List String) → elem x (xs ++ ys) ≡ (elem x xs || elem x ys)
unfolding elem
elem-append x [] ys = refl
elem-append x (z ∷ xs) ys = ground (arith, elem-append x xs ys)

pub elem-keys {ℓ} :
    {V : Type ℓ} (k : String) (v : V) (d : Dict V) → lookup k d ≡ some v → elem k (keys d) ≡ true
unfolding lookup elem keys
elem-keys k v [] h = cc
elem-keys k v ((j, w) ∷ d) h = ground (arith, elem-keys k v d)

pub length-keys {ℓ} : {V : Type ℓ} (d : Dict V) → length (keys d) ≡ length d
unfolding keys
length-keys [] = refl
length-keys ((j, v) ∷ d) = omega (arith, length-keys d)

-- Every name of the first list stands in the second.
abbrev pub Within : List String → List String → Type 0
Within xs ys = (x : String) → elem x xs ≡ true → elem x ys ≡ true

-- No name stands in the list twice.
abbrev pub Distinct : List String → Type 0
Distinct [] = Unit
Distinct (x ∷ xs) = (elem x xs ≡ false) × Distinct xs

without : String → List String → List String
without x [] = []
without x (y ∷ ys) = if str_eq y x then ys else y ∷ without x ys

elem-without :
    (x z : String) (ys : List String)
    → elem z ys ≡ true
    → (str_eq x z) ≡ false
    → elem z (without x ys) ≡ true
unfolding elem without
elem-without x z [] h ne = cc
elem-without x z (y ∷ ys) h ne =
    ground (arith, eq_iff y x, eq_iff y z, eq_iff x z, elem-without x z ys)

length-without :
    (x : String) (ys : List String) → elem x ys ≡ true → length ys ≡ suc (length (without x ys))
unfolding elem without
length-without x [] h = cc
length-without x (y ∷ ys) h = ground (arith, length-without x ys)

str_eq_of_elem :
    (x z : String) (xs : List String) → elem x xs ≡ false → elem z xs ≡ true → str_eq x z ≡ false
unfolding elem
str_eq_of_elem x z [] h k = cc
str_eq_of_elem x z (y ∷ xs) h k =
    ground (arith, eq_iff y x, eq_iff y z, eq_iff x z, str_eq_of_elem x z xs)

-- Distinct names that all stand in a list are no more than its items.
pub length-Distinct : (xs ys : List String) → Distinct xs → Within xs ys → length xs ≤ length ys
length-Distinct [] ys d w = omega arith
length-Distinct (x ∷ xs) ys (fresh, d) w =
    let here : elem x ys ≡ true = w x (unfold elem in ground (arith, eq_refl x)) in
    let less = length-Distinct xs (without x ys) d λ z h.
      elem-without x z ys (w z (unfold elem in ground (arith, h)))
        (str_eq_of_elem x z xs fresh h) in
    omega (arith, less, length-without x ys here)

pub Distinct-concat :
    (xs : List String) (x : String) → Distinct xs → elem x xs ≡ false → Distinct (xs ++ x ∷ [])
unfolding elem
Distinct-concat [] x d h = (refl, tt)
Distinct-concat (y ∷ xs) x (fresh, d) h = (
  rw (elem-append y xs (x ∷ [])) (ground (arith, fresh, eq_iff y x, eq_iff x y)),
  Distinct-concat xs x d (ground arith),
)
