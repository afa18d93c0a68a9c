-- ===== src/Codec/Flags.antt =====
-- codec/processor.py: `pack_bit_flags` and `unpack_bit_flags`.
use brewblox_devcon_spark.Base.{
  ℕ, zero, suc, ◌+◌, ◌^◌, ◌≤◌, ◌<◌, Bool, true, false, not, ◌&&◌, ◌||◌, List, [], ◌∷◌, ◌≡◌, refl,
  sym, leb, ltb, ◌==◌, if◌then◌else◌, arith, All, Bool-cases, ltb→lt, ap, map, ◌∙◌, inl, inr,
}
use brewblox_devcon_spark.Base.Small.{each_below, each_below-at}
use brewblox_devcon_spark.Base.Exn.{Result, ok, err, value_error}
use brewblox_devcon_spark.Base.Str.{ℤ, pos, negsuc}
use Prim.Native.Nat.{bit_and, bit_or}

any_above : List ℤ → Bool
any_above [] = false
any_above (pos i ∷ flags) = leb 8 i || any_above flags
any_above (negsuc i ∷ flags) = any_above flags

-- The fold of `pack_bit_flags`; a shift by a negative number is a ValueError.
set_flags : List ℤ → ℕ → Result ℕ
set_flags [] result = ok result
set_flags (pos idx ∷ flags) result = set_flags flags (bit_or result (2 ^ idx))
set_flags (negsuc idx ∷ flags) result = err value_error

unfoldable pub pack_bit_flags : List ℤ → Result ℕ
unfolding any_above set_flags
pack_bit_flags flags = if any_above flags then err value_error else set_flags flags 0

-- Whether `1 << i & flags` is true; a negative number is the complement of its digits.
unfoldable pub has_flag : ℕ → ℤ → Bool
has_flag i (pos flags) = not (bit_and (2 ^ i) flags == 0)
has_flag i (negsuc flags) = bit_and (2 ^ i) flags == 0

flags_from : ℕ → ℕ → ℤ → List ℤ
unfolding has_flag
flags_from zero i flags = []
flags_from (suc count) i flags =
    let rest = flags_from count (suc i) flags in if has_flag i flags then pos i ∷ rest else rest

unfoldable pub unpack_bit_flags : ℤ → List ℤ
unfolding flags_from
unpack_bit_flags flags = flags_from 8 0 flags

unfoldable pub elem_int : ℕ → List ℤ → Bool
elem_int i [] = false
elem_int i (pos j ∷ flags) = j == i || elem_int i flags
elem_int i (negsuc j ∷ flags) = elem_int i flags

-- Conjunction and disjunction.
and_left : (a b : Bool) → (a && b) ≡ true → a ≡ true
and_left a b h = ground arith

and_right : (a b : Bool) → (a && b) ≡ true → b ≡ true
and_right a b h = ground arith

or_false : (a : Bool) → (a || false) ≡ a
or_false a = ground arith

or_assoc : (a b c : Bool) → ((a || b) || c) ≡ (a || (b || c))
or_assoc a b c = ground arith

is_false : (a : Bool) → not a ≡ true → a ≡ false
is_false a h = ground arith

same : Bool → Bool → Bool
same true b = b
same false b = not b

same_sound : (a b : Bool) → same a b ≡ true → a ≡ b
unfolding same
same_sound true b h = sym h
same_sound false true h = cc
same_sound false false h = refl

abbrev add_test : ℕ → ℕ → ℕ → Bool
add_test r j i = same (has_flag i (pos (bit_or r (2 ^ j)))) (has_flag i (pos r) || j == i)

add_table :
    each_below
      (λ r. each_below (λ j. ltb (bit_or r (2 ^ j)) 256 && each_below (λ i. add_test r j i) 8) 8)
      256
    ≡ true
unfolding each_below same has_flag
add_table = refl

add_at :
    (r j : ℕ)
    → r < 256
    → j < 8
    → (bit_or r (2 ^ j) < 256)
      × ((i : ℕ) → i < 8 → has_flag i (pos (bit_or r (2 ^ j))) ≡ (has_flag i (pos r) || j == i))
add_at r j small flag =
    let both = each_below-at _ 8 (each_below-at _ 256 add_table r small) j flag in
    (
      ltb→lt _ 256 (and_left _ _ both),
      λ i lt. same_sound _ _ (each_below-at _ 8 (and_right _ _ both) i lt),
    )

set_flags-has_flag :
    (is : List ℕ) (r : ℕ) (flags : All (λ i. i < 8) is)
    → r < 256
    → (p : ℕ) × (set_flags (map pos is) r ≡ ok p)
      × ((i : ℕ) → i < 8 → has_flag i (pos p) ≡ (has_flag i (pos r) || elem_int i (map pos is)))
unfolding set_flags elem_int
set_flags-has_flag [] r flags small = (r, refl, λ i lt. sym (or_false (has_flag i (pos r))))
set_flags-has_flag (j ∷ is) r (flag, flags) small =
    let (below, added) = add_at r j small flag in
    let (p, packed, has) = set_flags-has_flag is (bit_or r (2 ^ j)) flags below in
    (
      p,
      packed,
      λ i lt.
          has i lt
          ∙ ap (λ b. b || elem_int i (map pos is)) (added i lt)
          ∙ or_assoc (has_flag i (pos r)) (j == i) (elem_int i (map pos is)),
    )

elem-flags_from :
    (count s : ℕ) (f : ℤ) (i : ℕ)
    → elem_int i (flags_from count s f) ≡ ((leb s i && ltb i (s + count)) && has_flag i f)
unfolding elem_int flags_from
elem-flags_from zero s f i = ground arith
elem-flags_from (suc count) s f i = elim (Bool-cases (has_flag s f)) [
  | inl e ↦ rw e (ground (arith, elem-flags_from count (suc s) f i, e))
  | inr e ↦ rw e (ground (arith, elem-flags_from count (suc s) f i, e))
]

elem-large : (is : List ℕ) (i : ℕ) → All (λ j. j < 8) is → 8 ≤ i → elem_int i (map pos is) ≡ false
unfolding elem_int
elem-large [] i flags large = refl
elem-large (j ∷ is) i (flag, flags) large = ground (arith, elem-large is i flags large)

any_above-small : (is : List ℕ) → All (λ j. j < 8) is → any_above (map pos is) ≡ false
unfolding any_above
any_above-small [] flags = refl
any_above-small (j ∷ is) (flag, flags) = ground (arith, any_above-small is flags)

has_flag-zero : (i : ℕ) → i < 8 → has_flag i (pos 0) ≡ false
unfolding has_flag each_below
has_flag-zero i lt = is_false _ (each_below-at (λ i. not (has_flag i (pos 0))) 8 refl i lt)

-- The flags of a byte are unpacked to those that were packed.
pub unpack-pack_bit_flags :
    (is : List ℕ)
    → All (λ j. j < 8) is
    → (p : ℕ) × (pack_bit_flags (map pos is) ≡ ok p)
      × ((i : ℕ) → elem_int i (unpack_bit_flags (pos p)) ≡ elem_int i (map pos is))
unfolding pack_bit_flags unpack_bit_flags
unpack-pack_bit_flags is flags =
    let (p, packed, has) = set_flags-has_flag is 0 flags (omega arith) in
    (
      p,
      rw (any_above-small is flags) packed,
      λ i. elem-flags_from 8 0 (pos p) i ∙ (elim (Bool-cases (ltb i 8)) [
        | inl e ↦ ground (arith, e, has i (ltb→lt i 8 e), has_flag-zero i (ltb→lt i 8 e))
        | inr e ↦ ground (arith, e, elem-large is i flags)
      ]),
    )
