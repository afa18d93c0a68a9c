-- ===== src/CboxParser/Chunks.antt =====
-- What is received may be cut anywhere that is not a line end inside an open annotation.
use brewblox_devcon_spark.Base.{
  ℕ, ◌≡◌, refl, ◌∙◌, sym, ap, inl, inr, List, [], ◌∷◌, ◌++◌, true, false, Text, arith, ◌==◌,
  Bool-cases, append-nil, append_assoc,
}
use brewblox_devcon_spark.Base.Str.{contains, rstrip}
use brewblox_devcon_spark.CboxParser.{CboxParser, push}
use brewblox_devcon_spark.CboxParser.Annotations.{
  Nest, outside, inside, Pass, scan, flatten, prepend, coerce_message_from_buffer-scan,
}
use brewblox_devcon_spark.CboxParser.Lines.{lines, before, coerce_message_from_buffer-lines}
use brewblox_devcon_spark.CboxParser.Nests.{
  scan-append, scan-IsClean, scan-flatten, prefix, scan-prefix, flatten-prefix, IsClean,
}

-- The annotations that are open, with no line end in them.
abbrev pub OpenOnOneLine : Nest → Type 0
OpenOnOneLine (outside t) = Unit
OpenOnOneLine (inside t n) = (contains b'\n' t ≡ false) × OpenOnOneLine n

-- The text outside, and the open annotations behind it.
base : Nest → Text
base (outside t) = t
base (inside t n) = base n

opened : Nest → Text
opened (outside t) = []
opened (inside t n) = opened n ++ b'<' ∷ t

flatten-eq-append : (n : Nest) → flatten n ≡ base n ++ opened n
unfolding flatten base opened
flatten-eq-append (outside t) = sym (append-nil t)
flatten-eq-append (inside t n) = rw (flatten-eq-append n, append_assoc (base n))

contains-append :
    (e : ℕ) (s t : Text) → contains e s ≡ false → contains e t ≡ false → contains e (s ++ t) ≡ false
unfolding contains
contains-append e [] t h k = k
contains-append e (c ∷ s) t h k = ground (arith, contains-append e s t)

opened_on_one_line : (n : Nest) → OpenOnOneLine n → contains b'\n' (opened n) ≡ false
unfolding opened
opened_on_one_line (outside t) h = unfold contains in refl
opened_on_one_line (inside t n) h =
    contains-append b'\n' (opened n) (b'<' ∷ t) (opened_on_one_line n h.1) (unfold contains in h.0)

lines-none :
    (w line : Text)
    → contains b'\n' w ≡ false
    → lines line w ≡ record { messages = []; buffer = line ++ w }
unfolding lines contains
lines-none [] line h = rw append-nil
lines-none (c ∷ w) line h =
    ground (arith, append_assoc line (c ∷ []) w, lines-none w (line ++ c ∷ []))

-- Where the lines of `line ++ base ++ w` end, in front of `w`.
record Cut (line start w : Text) : Type 0 where
  gone : Text
  left : Text
  whole : line ++ start ≡ gone ++ left
  kept : (lines line (start ++ w)).buffer ≡ left ++ w
  again : (y : Text) → lines [] (gone ++ y) ≡ before (lines line (start ++ w)).messages (lines [] y)

module _ (c : ℕ) (line s : Text) where
  lines-newline : (c == b'\n') ≡ true → lines line (c ∷ s) ≡ before (rstrip line ∷ []) (lines [] s)
  unfolding lines
  lines-newline e = rw e

  lines-caret :
      (c == b'\n') ≡ false
      → (c == b'^') ≡ true
      → lines line (c ∷ s) ≡ record { messages = []; buffer = line ++ c ∷ s }
  unfolding lines
  lines-caret e f = rw (e, f)

  lines-other :
      (c == b'\n') ≡ false → (c == b'^') ≡ false → lines line (c ∷ s) ≡ lines (line ++ c ∷ []) s
  unfolding lines
  lines-other e f = rw (e, f)

cut :
    (line start w : Text)
    → contains b'\n' w ≡ false
    → ((x : Text) → lines [] (line ++ x) ≡ lines line x)
    → Cut line start w
cut line [] w h clean = record {
  gone = [];
  left = line;
  whole = append-nil line;
  kept = rw (lines-none w line h);
  again = λ y. rw (lines-none w line h);
}
cut line (c ∷ start) w h clean = elim (Bool-cases (c == b'\n')) [
  | inl e ↦
      let rest : Cut [] start w = cut [] start w h (λ x. refl) in
      record {
        gone = line ++ c ∷ rest.gone;
        left = rest.left;
        whole =
            rw (append_assoc line (c ∷ rest.gone)) (ap (λ (t : Text). line ++ c ∷ t) rest.whole);
        kept = rw (lines-newline c line (start ++ w) e) rest.kept;
        again = λ y.
            rw (append_assoc line (c ∷ rest.gone), clean (c ∷ (rest.gone ++ y)))
              (rw (
                lines-newline c line (rest.gone ++ y) e,
                lines-newline c line (start ++ w) e,
                rest.again y,
              ));
      }
  | inr e ↦ elim (Bool-cases (c == b'^')) [
    | inl f ↦ record {
      gone = [];
      left = line ++ c ∷ start;
      whole = refl;
      kept = rw (lines-caret c line (start ++ w) e f, append_assoc line (c ∷ start));
      again = λ y. rw (lines-caret c line (start ++ w) e f);
    }
    | inr f ↦
        let rest : Cut (line ++ c ∷ []) start w =
          cut (line ++ c ∷ []) start w h
            (λ x. rw (append_assoc line (c ∷ [])) (clean (c ∷ x) ∙ lines-other c line x e f)) in
        record {
          gone = rest.gone;
          left = rest.left;
          whole = sym (append_assoc line (c ∷ []) start) ∙ rest.whole;
          kept = rw (lines-other c line (start ++ w) e f) rest.kept;
          again = λ y. rw (lines-other c line (start ++ w) e f) (rest.again y);
        }
  ]
]

-- With the front of the outside text gone, the rest of the buffer stands for the same annotations.
behind :
    (n : Nest) (u t : Text)
    → base n ≡ u ++ t
    → (k : Nest) × (n ≡ prefix u k) × (flatten k ≡ t ++ opened n)
unfolding base prefix flatten opened
behind (outside x) u t e = (outside t, rw e, sym (append-nil t))
behind (inside x n) u t e =
    let (k, same, flat) = behind n u t e in
    (inside x k, rw same, rw (flat, append_assoc t (opened n)))

contains_right : (e : ℕ) (s t : Text) → contains e (s ++ t) ≡ false → contains e t ≡ false
contains_right e [] t h = h
contains_right e (c ∷ s) t h = contains_right e s t (unfold contains in ground (arith, h))

IsClean-prefix : (u : Text) (n : Nest) → IsClean (prefix u n) → IsClean n
unfolding prefix
IsClean-prefix u (outside t) h = contains_right b'<' u t h
IsClean-prefix u (inside t n) h = (h.0, h.1, IsClean-prefix u n h.2)

-- What a push makes of the pass over the whole buffer.
abbrev received : CboxParser → Pass → CboxParser
received p f = record {
  buffer = (lines [] (flatten f.open_part)).buffer;
  events = p.events ++ f.done;
  queued = p.queued ++ (lines [] (flatten f.open_part)).messages;
}

push-received :
    (p : CboxParser) (a : Text) → push p a ≡ received p (scan (p.buffer ++ a) (outside []))
unfolding push
push-received p a =
    rw (coerce_message_from_buffer-scan (p.buffer ++ a)) (
      rw (coerce_message_from_buffer-lines (flatten (scan (p.buffer ++ a) (outside [])).open_part)))

-- The second push, with the front `u` of the outside text taken away by the first.
received-prefix :
    (p : CboxParser) (d : List Text) (n k : Nest) (u b : Text)
    → n ≡ prefix u k
    → IsClean k
    → (lines [] (flatten n)).buffer ≡ flatten k
    → ((y : Text) → lines [] (u ++ y) ≡ before (lines [] (flatten n)).messages (lines [] y))
    → push (received p (record { done = d; open_part = n })) b ≡ received p (prepend d (scan b n))
received-prefix p d n k u b same clean kept again =
    let all : scan b n
        ≡ record { done = (scan b k).done; open_part = prefix u (scan b k).open_part } =
      rw same (scan-prefix u b k) in
    push-received _ b
    ∙ rw (kept, scan-append (flatten k) b (outside []), scan-flatten k clean)
        (rw (all, flatten-prefix, again (flatten (scan b k).open_part))
          (rw (append_assoc p.events d, append_assoc p.queued (lines [] (flatten n)).messages)))

-- Two pushes find the events and the data messages that one push of all the text finds, in the
-- same order, and leave the same buffer, if no annotation is open over a line end between them.
pub push-append :
    (p : CboxParser) (a b : Text)
    → OpenOnOneLine (scan (p.buffer ++ a) (outside [])).open_part
    → push (push p a) b ≡ push p (a ++ b)
push-append p a b h =
    let f = scan (p.buffer ++ a) (outside []) in
    let n = f.open_part in
    let c : Cut [] (base n) (opened n) =
      cut [] (base n) (opened n) (opened_on_one_line n h) (λ x. refl) in
    let (k, same, flat) = behind n c.gone c.left c.whole in
    rw
      (
        push-received p a,
        push-received p (a ++ b),
        ← append_assoc p.buffer a b,
        scan-append (p.buffer ++ a) b (outside []),
      )
      (received-prefix p f.done n k c.gone b same
        (IsClean-prefix c.gone k
          (rw same at (scan-IsClean (p.buffer ++ a) (outside []) (unfold contains in refl))))
        (rw (flatten-eq-append n, flat) c.kept) (rw (flatten-eq-append n) c.again))
