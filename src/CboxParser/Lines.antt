-- ===== src/CboxParser/Lines.antt =====
-- The repeated search for data messages, against one pass that splits the buffer at newlines.
use brewblox_devcon_spark.Base.{
  ℕ, zero, suc, ◌<◌, ◌≡◌, ◌∙◌, inl, inr, List, [], ◌∷◌, ◌++◌, none, some, true, Text, length, arith,
  ◌==◌, if◌then◌else◌, Option-cases, append-nil, append_assoc,
}
use brewblox_devcon_spark.Base.Str.{contains, rstrip}
use brewblox_devcon_spark.CboxParser.{
  Match, Found, find_data, coerce_loop, coerce_message_from_buffer, extend,
}
use brewblox_devcon_spark.CboxParser.Rounds.{coerce_loop-none, coerce_loop-some}

abbrev pub before : List Text → Found → Found
before ts f = record f { messages = ts ++ f.messages }

-- Behind `line`: a newline ends the line, and a `^` ends the search for good.
unfoldable pub lines : Text → Text → Found
lines line [] = record { messages = []; buffer = line }
lines line (c ∷ s) =
    let more = lines [] s in
    let longer = lines (line ++ c ∷ []) s in
    if c == b'\n'
    then before (rstrip line ∷ []) more
    else if c == b'^'
    then record { messages = []; buffer = line ++ c ∷ s }
    else longer

lines-find_data :
    (s line : Text) (m : Match)
    → find_data s ≡ some m
    → lines line s ≡ before (rstrip (line ++ m.message) ∷ []) (lines [] m.rest)
unfolding lines find_data extend
lines-find_data [] line m h = cc
lines-find_data (c ∷ s) line m h = elim (Option-cases (find_data s)) [
  | inl e ↦ ground (arith, append-nil line)
  | inr (k, e) ↦ ground (
    arith,
    append-nil line,
    append_assoc line (c ∷ []) k.message,
    lines-find_data s (line ++ c ∷ []) k e,
  )
]

lines-find_data-none :
    (s line : Text)
    → find_data s ≡ none
    → lines line s ≡ record { messages = []; buffer = line ++ s }
unfolding lines find_data extend
lines-find_data-none [] line h = rw append-nil
lines-find_data-none (c ∷ s) line h =
    ground (arith, append_assoc line (c ∷ []) s, lines-find_data-none s (line ++ c ∷ []))

find_data-shorter : (s : Text) (m : Match) → find_data s ≡ some m → length m.rest < length s
unfolding find_data extend
find_data-shorter [] m h = cc
find_data-shorter (c ∷ s) m h = elim (Option-cases (find_data s)) [
  | inl e ↦ ground arith
  | inr (k, e) ↦ ground (arith, find_data-shorter s k e)
]

contains_of_find_data : (s : Text) (m : Match) → find_data s ≡ some m → contains b'\n' s ≡ true
unfolding find_data extend contains
contains_of_find_data [] m h = cc
contains_of_find_data (c ∷ s) m h = elim (Option-cases (find_data s)) [
  | inl e ↦ ground arith
  | inr (k, e) ↦ ground (arith, contains_of_find_data s k e)
]

coerce_loop-lines :
    (fuel : ℕ) (messages : List Text) (buffer : Text)
    → length buffer < fuel
    → coerce_loop find_data b'\n' fuel messages buffer ≡ before messages (lines [] buffer)
coerce_loop-lines zero messages buffer h = absurd (omega arith)
coerce_loop-lines (suc fuel) messages buffer h = elim (Option-cases (find_data buffer)) [
  | inl e ↦
      coerce_loop-none find_data b'\n' (suc fuel) messages buffer e
      ∙ rw (lines-find_data-none buffer [] e, append-nil)
  | inr (m, e) ↦
      let shorter = find_data-shorter buffer m e in
      coerce_loop-some find_data b'\n' fuel messages buffer m (contains_of_find_data buffer m e) e
      ∙ coerce_loop-lines fuel (messages ++ rstrip m.message ∷ []) m.rest (omega arith)
      ∙ rw (lines-find_data buffer [] m e, append_assoc messages (rstrip m.message ∷ []))
]

-- The repeated search for a data message at the start of the buffer finds the complete lines before
-- the first `^`, stripped on the right and in order; the buffer keeps the rest. The loop always ends.
pub coerce_message_from_buffer-lines :
    (buffer : Text) → coerce_message_from_buffer find_data b'\n' buffer ≡ lines [] buffer
unfolding coerce_message_from_buffer
coerce_message_from_buffer-lines buffer =
    coerce_loop-lines (suc (length buffer)) [] buffer (omega arith)
