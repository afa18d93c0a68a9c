-- ===== src/Base/Table.antt =====
-- Python's `dict` with number keys, in insertion order: a key that is set again keeps its place.
use brewblox_devcon_spark.Base.Tests.{◌==◌, if◌then◌else◌}
use Prim.Native.Nat.{ℕ}
use mathlib.Core.Path.{◌≡◌, refl}
use mathlib.Core.Bool.{Bool, true, false}
use mathlib.Core.List.{List, [], ◌∷◌, ◌++◌}
use mathlib.Core.Option.{Option, none, some}
use native.Mathlib.Omega.{arith}

abbrev pub Table {ℓ} : Type ℓ → Type ℓ
Table V = List (ℕ × V)

-- No entry of the table has the key.
abbrev pub IsFree {ℓ} : {V : Type ℓ} → ℕ → Table V → Type 0
IsFree k [] = Unit
IsFree k ((j, v) ∷ t) = ((j == k) ≡ false) × IsFree k t

module _ {ℓ} {V : Type ℓ} where
  -- `t.get(k)`
  unfoldable pub find : ℕ → Table V → Option V
  find k [] = none
  find k ((j, v) ∷ t) = if j == k then some v else find k t

  -- `t[k] = v`
  unfoldable pub put : ℕ → V → Table V → Table V
  put k v [] = (k, v) ∷ []
  put k v ((j, w) ∷ t) = let rest = put k v t in if j == k then (j, v) ∷ t else (j, w) ∷ rest

  -- `del t[k]`, where the key is there
  unfoldable pub remove : ℕ → Table V → Table V
  remove k [] = []
  remove k ((j, w) ∷ t) = let rest = remove k t in if j == k then t else (j, w) ∷ rest

  unfoldable pub is_empty : Table V → Bool
  is_empty [] = true
  is_empty (e ∷ t) = false

  pub find-put :
      (k j : ℕ) (v : V) (t : Table V) → find j (put k v t) ≡ (if k == j then some v else find j t)
  unfolding find put
  find-put k j v [] = refl
  find-put k j v ((i, w) ∷ t) = ground (arith, find-put k j v t)

  pub put-free : (k : ℕ) (v : V) (t : Table V) → IsFree k t → put k v t ≡ t ++ (k, v) ∷ []
  unfolding put
  put-free k v [] h = refl
  put-free k v ((j, w) ∷ t) h = rw (h.0, put-free k v t h.1) refl

  pub remove-append :
      (k : ℕ) (v : V) (front back : Table V)
      → IsFree k front
      → remove k (front ++ (k, v) ∷ back) ≡ front ++ back
  unfolding remove
  remove-append k v [] back h = ground arith
  remove-append k v ((j, w) ∷ front) back h = rw (h.0, remove-append k v front back h.1) refl

  pub find-append :
      (k : ℕ) (v : V) (front back : Table V)
      → IsFree k front
      → find k (front ++ (k, v) ∷ back) ≡ some v
  unfolding find
  find-append k v [] back h = ground arith
  find-append k v ((j, w) ∷ front) back h = rw (h.0) (find-append k v front back h.1)

  pub find-free : (k : ℕ) (t : Table V) → IsFree k t → find k t ≡ none
  unfolding find
  find-free k [] h = refl
  find-free k ((j, w) ∷ t) h = rw (h.0) (find-free k t h.1)
