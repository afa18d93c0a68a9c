-- ===== src/CboxParser/Rounds.antt =====
-- One round of `_coerce_message_from_buffer`, for any pattern.
use brewblox_devcon_spark.Base.{
  ℕ, zero, suc, ◌≡◌, refl, List, [], ◌∷◌, ◌++◌, Option, none, some, true, Text, arith,
}
use brewblox_devcon_spark.Base.Str.{contains, rstrip}
use brewblox_devcon_spark.CboxParser.{Match, coerce_loop}

module _ (find : Text → Option Match) (end : ℕ) where
  pub coerce_loop-none :
      (fuel : ℕ) (messages : List Text) (buffer : Text)
      → find buffer ≡ none
      → coerce_loop find end fuel messages buffer ≡ record { messages = messages; buffer = buffer }
  unfolding coerce_loop
  coerce_loop-none zero messages buffer e = refl
  coerce_loop-none (suc fuel) messages buffer e = ground arith

  pub coerce_loop-some :
      (fuel : ℕ) (messages : List Text) (buffer : Text) (m : Match)
      → contains end buffer ≡ true
      → find buffer ≡ some m
      → coerce_loop find end (suc fuel) messages buffer
        ≡ coerce_loop find end fuel (messages ++ rstrip m.message ∷ []) m.rest
  unfolding coerce_loop
  coerce_loop-some fuel messages buffer m h e = ground arith
