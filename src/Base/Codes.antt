-- ===== src/Base/Codes.antt =====
-- The code points of a string literal.
use Prim.Native.String.{String, [] as empty, ◌∷◌ as ◌then_char◌}
use Prim.Native.Char.{code}
use mathlib.Core.List.{[], ◌∷◌}
use brewblox_devcon_spark.Base.Lists.{Text}

abbrev pub codes : String → Text
codes empty = []
codes (c then_char s) = code c ∷ codes s
