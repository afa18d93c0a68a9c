-- ===== src/CboxParser/Nests.antt =====
-- The scan of text in parts: annotations that are open at its end, and text in front of it.
use brewblox_devcon_spark.Base.{
  ℕ, ◌≡◌, refl, ◌∙◌, inl, inr, [], ◌∷◌, ◌++◌, false, Text, arith, ◌==◌, Bool-cases, append-nil,
  append_assoc,
}
use brewblox_devcon_spark.Base.Str.{contains}
use brewblox_devcon_spark.CboxParser.Annotations.{
  Nest, outside, inside, add, next, closed, scan, scan-lt, flatten, prepend,
}

pub scan-append :
    (a b : Text) (n : Nest)
    → scan (a ++ b) n ≡ prepend (scan a n).done (scan b (scan a n).open_part)
unfolding scan
scan-append [] b n = refl
scan-append (c ∷ a) b n = rw (scan-append a b (next c n)) (rw (append_assoc (closed c n)))

-- Text that the innermost annotation, or the text outside, can hold.
abbrev pub IsClean : Nest → Type 0
IsClean (outside t) = contains b'<' t ≡ false
IsClean (inside t n) = (contains b'<' t ≡ false) × (contains b'>' t ≡ false) × IsClean n

pub contains-concat :
    (e c : ℕ) (t : Text)
    → contains e t ≡ false
    → (c == e) ≡ false
    → contains e (t ++ c ∷ []) ≡ false
unfolding contains
contains-concat e c [] h k = ground arith
contains-concat e c (d ∷ t) h k = ground (arith, contains-concat e c t)

pub next-IsClean : (c : ℕ) (n : Nest) → IsClean n → IsClean (next c n)
unfolding next add contains
next-IsClean c (outside t) h = elim (Bool-cases (c == b'<')) [
  | inl e ↦ rw e (refl, refl, h)
  | inr e ↦ rw e (contains-concat b'<' c t h e)
]
next-IsClean c (inside t n) h = elim (Bool-cases (c == b'<')) [
  | inl e ↦ rw e (refl, refl, h)
  | inr e ↦ elim (Bool-cases (c == b'>')) [
    | inl f ↦ rw (e, f) h.2
    | inr f ↦ rw (e, f) (contains-concat b'<' c t h.0 e, contains-concat b'>' c t h.1 f, h.2)
  ]
]

pub scan-IsClean : (s : Text) (n : Nest) → IsClean n → IsClean (scan s n).open_part
unfolding scan
scan-IsClean [] n h = h
scan-IsClean (c ∷ s) n h = scan-IsClean s (next c n) (next-IsClean c n h)

-- One more text at the end of the innermost part.
unfoldable pub add_all : Text → Nest → Nest
add_all s (outside t) = outside (t ++ s)
add_all s (inside t n) = inside (t ++ s) n

pub scan-inside :
    (s t : Text) (n : Nest)
    → contains b'<' s ≡ false
    → contains b'>' s ≡ false
    → scan s (inside t n) ≡ record { done = []; open_part = inside (t ++ s) n }
unfolding scan next closed contains add
scan-inside [] t n h k = rw append-nil
scan-inside (c ∷ s) t n h k =
    ground (arith, append_assoc t (c ∷ []) s, scan-inside s (t ++ c ∷ []) n)

pub scan-outside :
    (s t : Text)
    → contains b'<' s ≡ false
    → scan s (outside t) ≡ record { done = []; open_part = outside (t ++ s) }
unfolding scan next closed contains add
scan-outside [] t h = rw append-nil
scan-outside (c ∷ s) t h = ground (arith, append_assoc t (c ∷ []) s, scan-outside s (t ++ c ∷ []))

-- The buffer that was kept is read back as it was.
pub scan-flatten :
    (n : Nest) → IsClean n → scan (flatten n) (outside []) ≡ record { done = []; open_part = n }
unfolding flatten
scan-flatten (outside t) h = scan-outside t [] h
scan-flatten (inside t n) h =
    scan-append (flatten n) (b'<' ∷ t) (outside [])
    ∙ rw (scan-flatten n h.2) (rw (scan-lt t n, scan-inside t [] n h.0 h.1))

-- Text in front of all that is outside.
unfoldable pub prefix : Text → Nest → Nest
prefix u (outside t) = outside (u ++ t)
prefix u (inside t n) = inside t (prefix u n)

pub next-prefix : (u : Text) (c : ℕ) (n : Nest) → next c (prefix u n) ≡ prefix u (next c n)
unfolding next prefix add
next-prefix u c (outside t) = ground (arith, append_assoc u t (c ∷ []))
next-prefix u c (inside t n) = ground arith

pub closed-prefix : (u : Text) (c : ℕ) (n : Nest) → closed c (prefix u n) ≡ closed c n
unfolding closed prefix
closed-prefix u c (outside t) = refl
closed-prefix u c (inside t n) = refl

pub scan-prefix :
    (u s : Text) (n : Nest)
    → scan s (prefix u n)
      ≡ record { done = (scan s n).done; open_part = prefix u (scan s n).open_part }
unfolding scan
scan-prefix u [] n = refl
scan-prefix u (c ∷ s) n = rw (next-prefix u c n, closed-prefix u c n, scan-prefix u s (next c n))

pub flatten-prefix : (u : Text) (n : Nest) → flatten (prefix u n) ≡ u ++ flatten n
unfolding flatten prefix
flatten-prefix u (outside t) = refl
flatten-prefix u (inside t n) = rw (flatten-prefix u n, append_assoc u)
