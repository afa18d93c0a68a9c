-- ===== src/Base/Small.antt =====
-- Facts about numbers of a small range, by evaluation at each of them.
use Prim.Native.Nat.{ℕ, zero, suc, ◌<◌, ◌≤◌}
use mathlib.Core.Path.{◌≡◌, subst}
use mathlib.Core.Bool.{Bool, true, false, ◌&&◌}
use brewblox_devcon_spark.Base.Tests.{ltb, ltb→lt, Bool-cases}
use mathlib.Core.Logic.{inl, inr}
use native.Mathlib.Omega.{arith}

unfoldable pub each_below : (ℕ → Bool) → ℕ → Bool
each_below test zero = true
each_below test (suc bound) = each_below test bound && test bound

ltb-false : (a b : ℕ) → ltb a b ≡ false → b ≤ a
ltb-false a b h = ground arith

pub each_below-at :
    (test : ℕ → Bool) (bound : ℕ) (holds : each_below test bound ≡ true) (n : ℕ) (lt : n < bound)
    → test n ≡ true
unfolding each_below
each_below-at test (suc bound) holds n lt =
    let front : each_below test bound ≡ true = ground (arith, holds) in
    let last : test bound ≡ true = ground (arith, holds) in
    elim (Bool-cases (ltb n bound)) [
      | inl e ↦ each_below-at test bound front n (ltb→lt n bound e)
      | inr e ↦
          let same : bound ≡ n = omega (arith, lt, ltb-false n bound e) in
          subst (λ m. test m ≡ true) same last
    ]
each_below-at test zero holds n lt = absurd (omega arith)
