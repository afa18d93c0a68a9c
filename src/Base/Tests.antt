-- ===== src/Base/Tests.antt =====
-- Boolean tests on numbers and texts, and the conditional.
use Prim.Native.Nat.{ℕ, ◌≤◌, ◌<◌, compare, Ordering}
use Prim.Native.Char.{code}
use Prim.Native.String.{String}
use mathlib.Core.Path.{◌≡◌, refl}
use mathlib.Core.Logic.{◌↔◌, ◌⊎◌, inl, inr}
use mathlib.Core.Bool.{Bool, true, false, ◌&&◌}
use mathlib.Core.List.{List, [], ◌∷◌}
use mathlib.Core.Option.{Option, none, some}
use native.Mathlib.Omega.{arith}
use text.Mathlib.Text.{◌==◌ as string_eq}

abbrev pub ltb : ℕ → ℕ → Bool
ltb a b = elim (compare a b) [ Ordering.lt ↦ true | _ ↦ false ]

abbrev pub leb : ℕ → ℕ → Bool
leb a b = elim (compare a b) [ Ordering.gt ↦ false | _ ↦ true ]

infix 50 ◌==◌
abbrev pub ◌==◌ : ℕ → ℕ → Bool
a == b = elim (compare a b) [ Ordering.eq ↦ true | _ ↦ false ]

-- Equality of whole texts.
abbrev pub str_eq : String → String → Bool
str_eq = string_eq

infix 1 if◌then◌else◌
abbrev pub if◌then◌else◌ {ℓ} : {A : Type ℓ} → Bool → A → A → A
if true then x else y = x
if false then x else y = y

pub ltb→lt : (a b : ℕ) → ltb a b ≡ true → a < b
ltb→lt a b h = ground arith

pub lt→ltb : (a b : ℕ) → a < b → ltb a b ≡ true
lt→ltb a b h = ground arith

pub ==_iff : (a b : ℕ) → ((a == b) ≡ true) ↔ (a ≡ b)
==_iff a b = ground arith

-- To split on a computed value and keep the equation.
pub Bool-cases : (b : Bool) → (b ≡ true) ⊎ (b ≡ false)
Bool-cases true = inl refl
Bool-cases false = inr refl

pub Option-cases {ℓ} : {A : Type ℓ} (o : Option A) → (o ≡ none) ⊎ ((a : A) × (o ≡ some a))
Option-cases none = inl refl
Option-cases (some a) = inr (a, refl)

-- The code points of a text.
abbrev pub codes : String → List ℕ
codes String.[] = []
codes (String.◌∷◌ c s) = code c ∷ codes s

-- Equality of texts given by their code points.
abbrev pub text_eq : List ℕ → List ℕ → Bool
text_eq [] [] = true
text_eq (a ∷ s) (b ∷ t) = a == b && text_eq s t
text_eq _ _ = false

pub text_eq_iff : (s t : List ℕ) → (text_eq s t ≡ true) ↔ (s ≡ t)
text_eq_iff [] [] = ground arith
text_eq_iff (a ∷ s) (b ∷ t) = ground (arith, text_eq_iff s t)
text_eq_iff _ _ = ground arith

pub text_eq_refl : (s : List ℕ) → text_eq s s ≡ true
text_eq_refl s = (text_eq_iff s s).1 refl

pub leb→le : (a b : ℕ) → leb a b ≡ true → a ≤ b
leb→le a b h = ground arith

pub leb→gt : (a b : ℕ) → leb a b ≡ false → b < a
leb→gt a b h = ground arith

-- Which branch was taken.
pub if-cases {ℓ} :
    {A : Type ℓ} (b : Bool) (x y z : A)
    → (if b then x else y) ≡ z
    → (b ≡ true) × (x ≡ z) ⊎ (b ≡ false) × (y ≡ z)
if-cases true x y z h = inl (refl, h)
if-cases false x y z h = inr (refl, h)
