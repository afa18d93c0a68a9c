-- ===== src/Codec/Keys.antt =====
-- codec/processor.py: `_postfix_pattern`, which takes a key apart, and the keys of an object.
use brewblox_devcon_spark.Base.{
  Bool, true, false, not, ◌&&◌, ◌||◌, String, ◌≡◌, refl, ap, ◌==◌, if◌then◌else◌, arith, sym, ◌∙◌,
  subst, str_eq, eq_refl, Bool-cases, inl, inr,
}
use brewblox_devcon_spark.Base.Exn.{Result, ok, err, index_error}
use brewblox_devcon_spark.Base.Json.{Json, Fields, end, field, set_field}
use Prim.Native.String.{[] as empty, ◌∷◌ as ◌then_char◌, ◌++◌}
use Prim.Native.String.append
use Prim.Native.Char.{Char, code}

-- The characters `[]<>`.
abbrev pub is_symbol : Char → Bool
is_symbol c = code c == b'[' || code c == b']' || code c == b'<' || code c == b'>'

abbrev pub ends_postfix : Char → Bool
ends_postfix c = is_symbol c || code c == b','

-- The longest front without such a character, and what stands behind it.
unfoldable pub front_until : (Char → Bool) → String → String
front_until stop empty = ""
front_until stop (c then_char s) =
    let rest = front_until stop s in if stop c then "" else c then_char rest

unfoldable pub behind : (Char → Bool) → String → String
behind stop empty = ""
behind stop (c then_char s) = let rest = behind stop s in if stop c then c then_char s else rest

unfoldable pub skip : (Char → Bool) → String → String
skip stop empty = ""
skip stop (c then_char s) = let rest = skip stop s in if stop c then rest else c then_char s

-- `[...]?`: one symbol, if there is one.
unfoldable pub skip_one : String → String
skip_one empty = ""
skip_one (c then_char s) = if is_symbol c then s else c then_char s

-- The groups of the match that starts here.
unfoldable pub groups : String → Result (String × String)
unfolding front_until behind skip_one
groups empty = err index_error
groups (c then_char s) = ok (
  front_until is_symbol (c then_char s),
  front_until ends_postfix (skip_one (behind is_symbol (c then_char s))),
)

-- `findall(key)[0]`: a match starts at the first character that is no symbol.
unfoldable pub split_key : String → Result (String × String)
unfolding groups skip
split_key key = groups (skip is_symbol key)

-- `del obj[key]`, where the keys of an object differ
unfoldable pub del_field : String → Fields → Fields
del_field k end = end
del_field k (field j w fs) =
    let rest = del_field k fs in if str_eq j k then rest else field j w rest

-- No character of the text is such a one.
abbrev pub is_free_of : (Char → Bool) → String → Bool
is_free_of stop empty = true
is_free_of stop (c then_char s) = not (stop c) && is_free_of stop s

not_and : (a b : Bool) → (not a && b) ≡ true → (a ≡ false) × (b ≡ true)
not_and a b h = ground arith

front_until-append :
    (stop : Char → Bool) (s : String) (c : Char) (t : String)
    → is_free_of stop s ≡ true
    → stop c ≡ true
    → front_until stop (s ++ (c then_char t)) ≡ s
unfolding front_until
front_until-append stop empty c t free stops = rw (append.nil (c then_char t), stops) refl
front_until-append stop (d then_char s) c t free stops =
    let (here, rest) = not_and (stop d) (is_free_of stop s) free in
    rw (append.cons d s (c then_char t), here, front_until-append stop s c t rest stops) refl

behind-append :
    (stop : Char → Bool) (s : String) (c : Char) (t : String)
    → is_free_of stop s ≡ true
    → stop c ≡ true
    → behind stop (s ++ (c then_char t)) ≡ (c then_char t)
unfolding behind
behind-append stop empty c t free stops = rw (append.nil (c then_char t), stops) refl
behind-append stop (d then_char s) c t free stops =
    let (here, rest) = not_and (stop d) (is_free_of stop s) free in
    rw (append.cons d s (c then_char t), here, behind-append stop s c t rest stops) refl

skip-head :
    (stop : Char → Bool) (c : Char) (s : String)
    → stop c ≡ false
    → skip stop (c then_char s) ≡ (c then_char s)
unfolding skip
skip-head stop c s plain = rw plain refl

-- The key, where it starts with a character that is no symbol.
split_key-head :
    (c : Char) (s : String)
    → is_symbol c ≡ false
    → split_key (c then_char s)
      ≡ ok (
        front_until is_symbol (c then_char s),
        front_until ends_postfix (skip_one (behind is_symbol (c then_char s))),
      )
unfolding split_key groups
split_key-head c s plain = ap groups (skip-head is_symbol c s plain)

skip_one-symbol : (l : Char) (s : String) → is_symbol l ≡ true → skip_one (l then_char s) ≡ s
unfolding skip_one
skip_one-symbol l s opens = rw opens refl

ends_postfix-symbol : (r : Char) → is_symbol r ≡ true → ends_postfix r ≡ true
ends_postfix-symbol r closes = rw closes refl

-- A key that carries a unit or a type between two symbols is taken apart again.
pub split_key-append :
    (c : Char) (s postfix : String) (l r : Char)
    → is_free_of is_symbol (c then_char s) ≡ true
    → is_free_of ends_postfix postfix ≡ true
    → is_symbol l ≡ true
    → is_symbol r ≡ true
    → split_key ((c then_char s) ++ (l then_char (postfix ++ (r then_char ""))))
      ≡ ok (c then_char s, postfix)
split_key-append c s postfix l r free plain opens closes =
    let tail = postfix ++ (r then_char "") in
    let joined = append.cons c s (l then_char tail) in
    let key = (c then_char s) ++ (l then_char tail) in
    let (here, rest) = not_and (is_symbol c) (is_free_of is_symbol s) free in
    ap split_key joined
    ∙ split_key-head c (s ++ (l then_char tail)) here
    ∙ ap
        (λ k.
          ok (front_until is_symbol k, front_until ends_postfix (skip_one (behind is_symbol k))))
        (sym joined)
    ∙ rw
        (
          front_until-append is_symbol (c then_char s) l tail free opens,
          behind-append is_symbol (c then_char s) l tail free opens,
          skip_one-symbol l tail opens,
          front_until-append ends_postfix postfix r "" plain (ends_postfix-symbol r closes),
        )
        refl

front_until-free :
    (stop : Char → Bool) (s : String) → is_free_of stop s ≡ true → front_until stop s ≡ s
unfolding front_until
front_until-free stop empty free = refl
front_until-free stop (c then_char s) free =
    let (here, rest) = not_and (stop c) (is_free_of stop s) free in
    rw (here, front_until-free stop s rest) refl

behind-free : (stop : Char → Bool) (s : String) → is_free_of stop s ≡ true → behind stop s ≡ ""
unfolding behind
behind-free stop empty free = refl
behind-free stop (c then_char s) free =
    let (here, rest) = not_and (stop c) (is_free_of stop s) free in
    rw (here, behind-free stop s rest) refl

no_postfix : front_until ends_postfix (skip_one "") ≡ ""
unfolding front_until skip_one
no_postfix = refl

-- A key without such characters has no postfix.
pub split_key-free :
    (c : Char) (s : String)
    → is_free_of is_symbol (c then_char s) ≡ true
    → split_key (c then_char s) ≡ ok (c then_char s, "")
split_key-free c s free =
    let (here, rest) = not_and (is_symbol c) (is_free_of is_symbol s) free in
    split_key-head c s here
    ∙ ap (λ f. ok (f, front_until ends_postfix (skip_one (behind is_symbol (c then_char s)))))
        (front_until-free is_symbol (c then_char s) free)
    ∙ ap (λ b. ok (c then_char s, front_until ends_postfix (skip_one b)))
        (behind-free is_symbol (c then_char s) free)
    ∙ ap (λ p. ok (c then_char s, p)) no_postfix

front_until-is_free_of :
    (stop : Char → Bool) (s : String) → is_free_of stop (front_until stop s) ≡ true
unfolding front_until
front_until-is_free_of stop empty = refl
front_until-is_free_of stop (c then_char s) = elim (Bool-cases (stop c)) [
  | inl e ↦ rw e refl
  | inr e ↦ rw (e, front_until-is_free_of stop s, e) refl
]

front_until-head :
    (c : Char) (s : String)
    → is_symbol c ≡ false
    → front_until is_symbol (c then_char s) ≡ (c then_char front_until is_symbol s)
unfolding front_until
front_until-head c s plain = rw plain refl

split_key-skip :
    (c : Char) (s : String) → is_symbol c ≡ true → split_key (c then_char s) ≡ split_key s
unfolding split_key skip
split_key-skip c s symbol = rw symbol refl

split_key-empty : split_key empty ≡ err index_error
unfolding split_key skip groups
split_key-empty = refl

-- The base of a key is a key without postfix.
pub split_key-base :
    (key base_key postfix : String)
    → split_key key ≡ ok (base_key, postfix)
    → split_key base_key ≡ ok (base_key, "")
split_key-base empty base_key postfix h = cc (split_key-empty)
split_key-base (c then_char s) base_key postfix h = elim (Bool-cases (is_symbol c)) [
  | inl e ↦ split_key-base s base_key postfix (sym (split_key-skip c s e) ∙ h)
  | inr e ↦
      let both = sym (split_key-head c s e) ∙ h in
      let is : front_until is_symbol (c then_char s) ≡ base_key = cc in
      let base : (c then_char front_until is_symbol s) ≡ base_key =
        sym (front_until-head c s e) ∙ is in
      subst (λ b. split_key b ≡ ok (b, "")) base
        (split_key-free c (front_until is_symbol s)
          (rw (e, front_until-is_free_of is_symbol s) refl))
]

-- A predicate on each key.
abbrev pub Keys {ℓ} : (String → Type ℓ) → Fields → Type ℓ
Keys Q end = Unit
Keys Q (field k v fs) = Q k × Keys Q fs

unfoldable pub has_key : String → Fields → Bool
has_key k end = false
has_key k (field j v fs) = str_eq j k || has_key k fs

module _ {ℓ κ} (Q : String → Type ℓ) (R : String → Type κ) where
  pub Keys-weaken : (fs : Fields) → ((k : String) → Q k → R k) → Keys Q fs → Keys R fs
  Keys-weaken end f h = tt
  Keys-weaken (field k v fs) f (here, rest) = (f k here, Keys-weaken fs f rest)

  -- What holds of the other keys holds of all that are left.
  pub Keys-del_field :
      (key : String) (fs : Fields)
      → ((k : String) → str_eq k key ≡ false → Q k → R k)
      → Keys Q fs
      → Keys R (del_field key fs)
  unfolding del_field
  Keys-del_field key end f h = tt
  Keys-del_field key (field k v fs) f (here, rest) = elim (Bool-cases (str_eq k key)) [
    | inl e ↦ rw e (Keys-del_field key fs f rest)
    | inr e ↦ rw e (f k e here, Keys-del_field key fs f rest)
  ]

pub Keys-set_field {ℓ} :
    (Q : String → Type ℓ) (key : String) (v : Json) (fs : Fields)
    → Q key
    → Keys Q fs
    → Keys Q (set_field key v fs)
unfolding set_field
Keys-set_field Q key v end new h = (new, tt)
Keys-set_field Q key v (field k w fs) new (here, rest) = elim (Bool-cases (str_eq k key)) [
  | inl e ↦ rw e (here, rest)
  | inr e ↦ rw e (here, Keys-set_field Q key v fs new rest)
]

-- Every key of an object is one of its keys.
pub Keys-has_key : (fs : Fields) → Keys (λ k. has_key k fs ≡ true) fs
unfolding has_key
Keys-has_key end = tt
Keys-has_key (field j v fs) =
    (ground (arith, eq_refl j), Keys-weaken _ _ fs (λ k h. ground (arith, h)) (Keys-has_key fs))
