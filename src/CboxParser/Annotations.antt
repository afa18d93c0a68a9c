-- ===== src/CboxParser/Annotations.antt =====
-- The repeated search for annotations, against one pass over the buffer with a stack.
use brewblox_devcon_spark.Base.{
  ℕ, zero, suc, ◌<◌, ◌≡◌, refl, List, [], ◌∷◌, ◌++◌, none, some, true, false, Text, length, arith,
  ◌==◌, if◌then◌else◌, Bool-cases, Option-cases, append_assoc, append-nil, inl, inr, sym, ◌∙◌,
}
use brewblox_devcon_spark.CboxParser.Rounds.{coerce_loop-none, coerce_loop-some}
use brewblox_devcon_spark.Base.Str.{contains, rstrip}
use brewblox_devcon_spark.CboxParser.{
  Match, close_event, find_event, coerce_loop, coerce_message_from_buffer, keep, extend, or_later,
}

-- The text outside every annotation, or inside one that is still open, with what encloses it.
pub data Nest : Type 0 where
  outside : Text → Nest
  inside : Text → Nest → Nest

unfoldable pub add : ℕ → Nest → Nest
add c (outside t) = outside (t ++ c ∷ [])
add c (inside t n) = inside (t ++ c ∷ []) n

-- The messages that are complete so far, and the open part.
pub record Pass : Type 0 where
  pub done : List Text
  pub open_part : Nest

abbrev pub prepend : List Text → Pass → Pass
prepend ts p = record p { done = ts ++ p.done }

-- `<` opens an annotation, `>` closes the innermost one, and all else is text of the innermost. With
-- none open, `>` is text too.
unfoldable pub next : ℕ → Nest → Nest
unfolding add
next c (outside t) = if c == b'<' then inside [] (outside t) else add c (outside t)
next c (inside t n) =
    if c == b'<' then inside [] (inside t n) else if c == b'>' then n else add c (inside t n)

-- A message is emitted where its annotation is closed.
unfoldable pub closed : ℕ → Nest → List Text
closed c (outside t) = []
closed c (inside t n) = if c == b'>' then rstrip t ∷ [] else []

-- The whole buffer in one pass.
unfoldable pub scan : Text → Nest → Pass
unfolding next closed
scan [] n = record { done = []; open_part = n }
scan (c ∷ s) n = let p = scan s (next c n) in prepend (closed c n) p

-- What stays in the buffer.
unfoldable pub flatten : Nest → Text
flatten (outside t) = t
flatten (inside t n) = flatten n ++ b'<' ∷ t

-- No annotation of `n` is closed in `s` before another one opens.
abbrev Quiet : Nest → Text → Type 0
Quiet (outside t) s = Unit
Quiet (inside t n) s = close_event s ≡ none

scan-close_event :
    (s t : Text) (n : Nest) (m : Match)
    → close_event s ≡ some m
    → scan s (inside t n) ≡ prepend (rstrip (t ++ m.message) ∷ []) (scan m.rest n)
unfolding scan close_event extend
scan-close_event [] t n m h = cc
scan-close_event (c ∷ s) t n m h = elim (Option-cases (close_event s)) [
  | inl e ↦ ground (arith, append-nil t)
  | inr (m', e) ↦ ground (
    arith,
    append-nil t,
    append_assoc t (c ∷ []) m'.message,
    scan-close_event s (t ++ c ∷ []) n m' e,
  )
]

-- Behind a `<`: the match starts here, or the annotation stays open and the search goes on.
scan-find_event_open :
    (s : Text) (n : Nest) (m : Match)
    → ((k : Match)
        → close_event s ≡ none
        → find_event s ≡ some k
        → scan s (inside [] n) ≡ prepend (rstrip k.message ∷ []) (scan k.rest (inside [] n)))
    → find_event (b'<' ∷ s) ≡ some m
    → scan s (inside [] n) ≡ prepend (rstrip m.message ∷ []) (scan m.rest n)
unfolding find_event scan or_later keep
scan-find_event_open s n m ih h = elim (Option-cases (close_event s)) [
  | inr (k, e) ↦ ground (arith, scan-close_event s [] n k e)
  | inl e ↦ elim (Option-cases (find_event s)) [
    | inl f ↦ ground arith
    | inr (k, f) ↦ ground (arith, ih k e f)
  ]
]

pub scan-lt : (s : Text) (n : Nest) → scan (b'<' ∷ s) n ≡ scan s (inside [] n)
unfolding scan
scan-lt s (outside t) = refl
scan-lt s (inside t n) = refl

Quiet-next :
    (c : ℕ) (s : Text) (n : Nest) → (c == b'<') ≡ false → Quiet n (c ∷ s) → Quiet (next c n) s
unfolding next close_event extend
Quiet-next c s (outside t) e q = rw e tt
Quiet-next c s (inside t n) e q = elim (Bool-cases (c == b'>')) [
  | inl f ↦ absurd (ground (arith, q))
  | inr f ↦ rw (e, f) (ground (arith, q))
]

-- Any other character is kept, on both sides.
scan-find_event_other :
    (c : ℕ) (s : Text) (n : Nest) (m k : Match)
    → (c == b'<') ≡ false
    → find_event s ≡ some k
    → Quiet n (c ∷ s)
    → scan s (next c n) ≡ prepend (rstrip k.message ∷ []) (scan k.rest (next c n))
    → find_event (c ∷ s) ≡ some m
    → scan (c ∷ s) n ≡ prepend (rstrip m.message ∷ []) (scan m.rest n)
unfolding scan find_event close_event
scan-find_event_other c s (outside t) m k e f q ih h = ground arith
scan-find_event_other c s (inside t n) m k e f q ih h = ground arith

-- The leftmost match is the annotation that is closed first.
scan-find_event :
    (s : Text) (n : Nest) (m : Match)
    → Quiet n s
    → find_event s ≡ some m
    → scan s n ≡ prepend (rstrip m.message ∷ []) (scan m.rest n)
scan-find_event [] n m q h = unfold find_event in cc
scan-find_event (c ∷ s) n m q h = elim (Bool-cases (c == b'<')) [
  | inl e ↦
      let c_lt : c ≡ b'<' = ground arith in
      rw (c_lt, scan-lt s n)
        (scan-find_event_open s n m (λ k o f. scan-find_event s (inside [] n) k o f) (rw c_lt at h))
  | inr e ↦ elim (Option-cases (find_event s)) [
    | inl f ↦ unfold find_event or_later keep in ground arith
    | inr (k, f) ↦
        let ih = scan-find_event s (next c n) k (Quiet-next c s n e q) f in
        scan-find_event_other c s n m k e f q ih h
  ]
]

-- A character that closes nothing is kept.
next-Quiet :
    (c : ℕ) (s : Text) (n : Nest)
    → Quiet n (c ∷ s)
    → (closed c n ≡ []) × (flatten (next c n) ≡ flatten n ++ c ∷ [])
unfolding next closed flatten close_event
next-Quiet c s (outside t) q = ground arith
next-Quiet c s (inside t n) q = ground (arith, append_assoc (flatten n) (b'<' ∷ t) (c ∷ []))

find_event-none :
    (c : ℕ) (s : Text)
    → find_event (c ∷ s) ≡ none
    → (find_event s ≡ none) × ((c == b'<') ≡ true → close_event s ≡ none)
unfolding find_event or_later keep
find_event-none c s h = ground arith

Quiet-next-none :
    (c : ℕ) (s : Text) (n : Nest) → find_event (c ∷ s) ≡ none → Quiet n (c ∷ s) → Quiet (next c n) s
Quiet-next-none c s n h q = elim (Bool-cases (c == b'<')) [
  | inr e ↦ Quiet-next c s n e q
  | inl e ↦
      let c_lt : c ≡ b'<' = ground arith in
      let shut = (find_event-none c s h).1 e in rw c_lt (opens n shut)
]
  where
    opens : (k : Nest) → close_event s ≡ none → Quiet (next b'<' k) s
    opens (outside t) e = unfold next in e
    opens (inside t k) e = unfold next in e

-- Where the pattern finds nothing, the pass emits nothing and keeps every character.
scan-find_event-none :
    (s : Text) (n : Nest)
    → Quiet n s
    → find_event s ≡ none
    → ((scan s n).done ≡ []) × (flatten (scan s n).open_part ≡ flatten n ++ s)
unfolding scan
scan-find_event-none [] n q h = (refl, sym (append-nil (flatten n)))
scan-find_event-none (c ∷ s) n q h =
    let (kept, same) = next-Quiet c s n q in
    let (d, b) =
      scan-find_event-none s (next c n) (Quiet-next-none c s n h q) (find_event-none c s h).0 in
    (rw (kept, d), b ∙ rw same (append_assoc (flatten n) (c ∷ []) s))

close_event-shorter : (s : Text) (m : Match) → close_event s ≡ some m → length m.rest < length s
unfolding close_event extend
close_event-shorter [] m h = cc
close_event-shorter (c ∷ s) m h = elim (Option-cases (close_event s)) [
  | inl e ↦ ground arith
  | inr (k, e) ↦ ground (arith, close_event-shorter s k e)
]

-- Each match shortens the buffer.
find_event-shorter : (s : Text) (m : Match) → find_event s ≡ some m → length m.rest < length s
unfolding find_event or_later keep
find_event-shorter [] m h = cc
find_event-shorter (c ∷ s) m h = elim (Option-cases (find_event s)) [
  | inl f ↦ elim (Option-cases (close_event s)) [
    | inl e ↦ ground arith
    | inr (k, e) ↦ ground (arith, close_event-shorter s k e)
  ]
  | inr (j, f) ↦ elim (Option-cases (close_event s)) [
    | inl e ↦ ground (arith, find_event-shorter s j f)
    | inr (k, e) ↦ ground (arith, close_event-shorter s k e, find_event-shorter s j f)
  ]
]

contains-close_event : (s : Text) → contains b'>' s ≡ false → close_event s ≡ none
unfolding contains close_event extend
contains-close_event [] h = refl
contains-close_event (c ∷ s) h = ground (arith, contains-close_event s)

-- No `>`, no match.
contains-find_event : (s : Text) → contains b'>' s ≡ false → find_event s ≡ none
unfolding contains find_event or_later keep
contains-find_event [] h = refl
contains-find_event (c ∷ s) h = ground (arith, contains-close_event s, contains-find_event s)

contains_of_find_event : (s : Text) (m : Match) → find_event s ≡ some m → contains b'>' s ≡ true
contains_of_find_event s m h = elim (Bool-cases (contains b'>' s)) [
  | inl e ↦ e
  | inr e ↦ absurd (cc (contains-find_event s e, h))
]

coerce_loop-scan :
    (fuel : ℕ) (messages : List Text) (buffer : Text)
    → length buffer < fuel
    → let p = scan buffer (outside []) in
      coerce_loop find_event b'>' fuel messages buffer
      ≡ record { messages = messages ++ p.done; buffer = flatten p.open_part }
coerce_loop-scan zero messages buffer h = absurd (omega arith)
coerce_loop-scan (suc fuel) messages buffer h = elim (Option-cases (find_event buffer)) [
  | inl e ↦
      let (d, b) = scan-find_event-none buffer (outside []) tt e in
      coerce_loop-none find_event b'>' (suc fuel) messages buffer e
      ∙ rw (d, b, append-nil) (unfold flatten in refl)
  | inr (m, e) ↦
      let shorter = find_event-shorter buffer m e in
      coerce_loop-some find_event b'>' fuel messages buffer m (contains_of_find_event buffer m e) e
      ∙ coerce_loop-scan fuel (messages ++ rstrip m.message ∷ []) m.rest (omega arith)
      ∙ rw (
        scan-find_event buffer (outside []) m tt e,
        append_assoc messages (rstrip m.message ∷ []),
      )
]

-- The repeated leftmost search and replacement finds the messages of one pass over the buffer: each
-- annotation, without the annotations inside it, in the order of their end characters, stripped on
-- the right; the buffer keeps the text outside and the annotations still open. The loop always ends.
pub coerce_message_from_buffer-scan :
    (buffer : Text)
    → let p = scan buffer (outside []) in
      coerce_message_from_buffer find_event b'>' buffer
      ≡ record { messages = p.done; buffer = flatten p.open_part }
unfolding coerce_message_from_buffer
coerce_message_from_buffer-scan buffer =
    coerce_loop-scan (suc (length buffer)) [] buffer (omega arith)
