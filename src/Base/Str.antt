-- ===== src/Base/Str.antt =====
-- Python's `str` methods on texts given by their code points.
use brewblox_devcon_spark.Base.Lists.{Text}
use brewblox_devcon_spark.Base.Tests.{leb, ◌==◌, if◌then◌else◌}
use Prim.Native.Nat.{ℕ, zero, suc, ◌+◌, ◌-◌, ◌*◌}
use mathlib.Core.Path.{◌≡◌}
use mathlib.Core.Bool.{Bool, true, false, ◌&&◌, ◌||◌}
use mathlib.Core.List.{List, [], ◌∷◌, ◌++◌}
use mathlib.Core.Option.{Option, none, some}
use native.Mathlib.Omega.{arith}

-- `str.isspace` for one character.
unfoldable pub is_space : ℕ → Bool
is_space c =
    (leb 9 c && leb c 13)
    || (leb 28 c && leb c 32)
    || c == 133
    || c == 160
    || c == 5760
    || (leb 8192 c && leb c 8202)
    || c == 8232
    || c == 8233
    || c == 8239
    || c == 8287
    || c == 12288

-- `str.rstrip()`
unfoldable pub rstrip : Text → Text
unfolding is_space
rstrip [] = []
rstrip (c ∷ s) = elim (rstrip s) [ [] ↦ if is_space c then [] else c ∷ [] | d ∷ r ↦ c ∷ d ∷ r ]

-- `end in buffer`
unfoldable pub contains : ℕ → Text → Bool
contains e [] = false
contains e (c ∷ s) = c == e || contains e s

lstrip : Text → Text
lstrip [] = []
lstrip (c ∷ s) = let rest = lstrip s in if is_space c then rest else c ∷ s

-- `str.strip()`
unfoldable pub strip : Text → Text
unfolding lstrip rstrip is_space
strip s = rstrip (lstrip s)

on_head : ℕ → List Text → List Text
on_head c [] = (c ∷ []) ∷ []
on_head c (w ∷ ws) = (c ∷ w) ∷ ws

-- `s.split(sep)` at one character
unfoldable pub split : ℕ → Text → List Text
unfolding on_head
split sep [] = [] ∷ []
split sep (c ∷ s) = let rest = split sep s in if c == sep then [] ∷ rest else on_head c rest

-- `''.join(parts)`
unfoldable pub concat : List Text → Text
concat [] = []
concat (s ∷ ss) = s ++ concat ss

-- An integer: `negsuc n` is -(n + 1).
pub data ℤ : Type 0 where
  pos negsuc : ℕ → ℤ

abbrev negate : ℕ → ℤ
negate zero = pos 0
negate (suc n) = negsuc n

-- The digits of `int(s)`, with single underscores between them.
digits : Text → Bool → ℕ → Option ℕ
digits [] true n = some n
digits [] false n = none
digits (c ∷ s) after_digit n =
    let more = digits s true (n * 10 + (c - b'0')) in
    let gap = digits s false n in
    if leb b'0' c && leb c b'9' then more else if c == b'_' && after_digit then gap else none

map_int : (ℕ → ℤ) → Option ℕ → Option ℤ
map_int f none = none
map_int f (some n) = some (f n)

signed : Text → Option ℤ
unfolding digits map_int
signed [] = none
signed (c ∷ s) =
    if c == b'-'
    then map_int negate (digits s false 0)
    else if c == b'+'
    then map_int pos (digits s false 0)
    else map_int pos (digits (c ∷ s) false 0)

-- `int(s)` for ASCII digits; `none` is a ValueError.
unfoldable pub parse_int : Text → Option ℤ
unfolding signed strip
parse_int s = signed (strip s)

unfoldable pub int_eq : ℤ → ℤ → Bool
int_eq (pos a) (pos b) = a == b
int_eq (negsuc a) (negsuc b) = a == b
int_eq _ _ = false

pub int_eq_refl : (a : ℤ) → int_eq a a ≡ true
unfolding int_eq
int_eq_refl (pos a) = ground arith
int_eq_refl (negsuc a) = ground arith

pub int_eq→eq : (a b : ℤ) → int_eq a b ≡ true → a ≡ b
unfolding int_eq
int_eq→eq a b h = ground arith
