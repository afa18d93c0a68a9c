-- ===== src/Base/Steps.antt =====
-- Code that changes a state of type `S`, also where it raises.
use brewblox_devcon_spark.Base.Exn.{Exn, Result, ok, err}
use mathlib.Core.Path.{◌≡◌, refl, ap}

abbrev pub Stateful : Type 0 → Type 0 → Type 0
Stateful S A = S → Result A × S

module _ {S : Type 0} where
  infixl 5 ◌then◌
  abbrev pub ◌then◌ : {A B : Type 0} → Stateful S A → (A → Stateful S B) → Stateful S B
  (f then g) c = let (r, d) = f c in elim r [ err e ↦ (err e, d) | ok a ↦ g a d ]

  abbrev pub done : {A : Type 0} → A → Stateful S A
  done a c = (ok a, c)

  abbrev pub lift : {A : Type 0} → Result A → Stateful S A
  lift r c = (r, c)

module _ {S A B : Type 0} where
  split-ok :
      (r : Result A) (g : A → Stateful S B) (d : S) (b : B)
      → (elim r as (λ x. Result B × S) [ err e ↦ (err e, d) | ok a ↦ g a d ]).0 ≡ ok b
      → (a : A) × (r ≡ ok a)
        × ((elim r as (λ x. Result B × S) [ err e ↦ (err e, d) | ok a ↦ g a d ]) ≡ g a d)
  split-ok (err e) g d b h = cc
  split-ok (ok a) g d b h = (a, refl, refl)

  -- Code that returns has gone through both parts.
  pub then-ok :
      (f : Stateful S A) (g : A → Stateful S B) (c : S) (b : B)
      → ((f then g) c).0 ≡ ok b
      → (a : A) × ((f c).0 ≡ ok a) × ((f then g) c ≡ g a (f c).1)
  then-ok f g c b h = split-ok (f c).0 g (f c).1 b h

  split-err :
      (r : Result A) (g : A → Stateful S B) (d : S) (e : Exn)
      → r ≡ err e
      → (elim r as (λ x. Result B × S) [ err e ↦ (err e, d) | ok a ↦ g a d ]) ≡ (err e, d)
  split-err (err x) g d e h = let same : x ≡ e = cc in ap (λ y. (err y, d)) same
  split-err (ok a) g d e h = cc

  -- An exception of the first part is that of the whole.
  pub then-err :
      (f : Stateful S A) (g : A → Stateful S B) (c : S) (e : Exn)
      → (f c).0 ≡ err e
      → (f then g) c ≡ (err e, (f c).1)
  then-err f g c e h = split-err (f c).0 g (f c).1 e h

  split-at :
      (r : Result A) (g : A → Stateful S B) (d : S) (a : A)
      → r ≡ ok a
      → (elim r as (λ x. Result B × S) [ err e ↦ (err e, d) | ok a ↦ g a d ]) ≡ g a d
  split-at (err e) g d a h = cc
  split-at (ok b) g d a h = let same : b ≡ a = cc in ap (λ x. g x d) same

  -- Behind a first part that returned.
  pub then-at :
      (f : Stateful S A) (g : A → Stateful S B) (c : S) (a : A)
      → (f c).0 ≡ ok a
      → (f then g) c ≡ g a (f c).1
  then-at f g c a h = split-at (f c).0 g (f c).1 a h
