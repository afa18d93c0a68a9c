-- ===== src/Codec/Bytes.antt =====
-- codec/processor.py: `hex_to_int`, `int_to_hex`, `hex_to_b64` and `b64_to_hex`. A byte string is
-- the list of its bytes. Base64 is a parameter.
use brewblox_devcon_spark.Base.{
  Text, ℕ, zero, suc, ◌+◌, ◌-◌, ◌*◌, ◌/◌, ◌%◌, ◌^◌, ◌<◌, Bool, true, false, ◌&&◌, List, [], ◌∷◌,
  Option, none, some, String, ◌≡◌, refl, sym, ap, leb, ltb, lt→ltb, ◌==◌, if◌then◌else◌, arith, All,
}
use brewblox_devcon_spark.Base.Small.{each_below, each_below-at}
use brewblox_devcon_spark.Base.Exn.{Result, ok, err, ◌>>=◌, value_error, overflow_error}
use brewblox_devcon_spark.Base.Str.{ℤ, pos, negsuc}
use Prim.Native.String.{[] as empty, ◌∷◌ as ◌then_char◌, char_at}
use Prim.Native.Char.{Char, code}

abbrev pub Bytes : Type 0
Bytes = List ℕ

-- `int.from_bytes(bs, 'little')`
unfoldable pub from_bytes : Bytes → ℕ
from_bytes [] = 0
from_bytes (b ∷ bs) = b + 256 * from_bytes bs

-- The bytes of `n % 256 ** len`, the lowest first.
unfoldable pub low_bytes : ℕ → ℕ → Bytes
low_bytes zero n = []
low_bytes (suc len) n = n % 256 ∷ low_bytes len (n / 256)

-- `i.to_bytes(8, 'little')`
unfoldable pub to_bytes8 : ℤ → Result Bytes
unfolding low_bytes
to_bytes8 (negsuc n) = err overflow_error
to_bytes8 (pos n) = if ltb n (2 ^ 64) then ok (low_bytes 8 n) else err overflow_error

abbrev hex_digit : ℕ → Char
hex_digit n = char_at "0123456789abcdef" n

-- `hexlify(bs).decode()`
unfoldable pub hexlify : Bytes → String
hexlify [] = ""
hexlify (b ∷ bs) = hex_digit (b / 16) then_char hex_digit (b % 16) then_char hexlify bs

abbrev digit_value : ℕ → Option ℕ
digit_value c =
    if leb b'0' c && leb c b'9'
    then some (c - b'0')
    else if leb b'a' c && leb c b'f'
    then some (c - b'a' + 10)
    else if leb b'A' c && leb c b'F'
    then some (c - b'A' + 10)
    else none

push_byte : Option ℕ → Option ℕ → Result Bytes → Result Bytes
push_byte (some hi) (some lo) (ok bs) = ok ((16 * hi + lo) ∷ bs)
push_byte _ _ _ = err value_error

-- `unhexlify(s)`: an odd length or another character is a `binascii.Error`, a ValueError.
unfoldable pub unhexlify : String → Result Bytes
unfolding push_byte
unhexlify empty = ok []
unhexlify (c then_char empty) = err value_error
unhexlify (c then_char d then_char s) =
    push_byte (digit_value (code c)) (digit_value (code d)) (unhexlify s)

unfoldable pub hex_to_int : String → Result ℤ
unfolding unhexlify from_bytes
hex_to_int s = unhexlify s >>= λ bs. ok (pos (from_bytes bs))

unfoldable pub int_to_hex : ℤ → Result String
unfolding to_bytes8 hexlify
int_to_hex i = to_bytes8 i >>= λ bs. ok (hexlify bs)

-- Base64 of the library `base64`; the second decoder takes a text by its code points.
pub record Base64 : Type 0 where
  pub b64encode : Bytes → String
  pub b64decode : String → Result Bytes
  pub b64decode_text : Text → Result Bytes

unfoldable pub hex_to_b64 : Base64 → String → Result String
unfolding unhexlify
hex_to_b64 base64 s = unhexlify s >>= λ bs. ok (base64.b64encode bs)

unfoldable pub b64_to_hex : Base64 → String → Result String
unfolding hexlify
b64_to_hex base64 s = base64.b64decode s >>= λ bs. ok (hexlify bs)

-- Every digit that is written is read.
some_is : ℕ → Option ℕ → Bool
some_is n none = false
some_is n (some m) = m == n

some_is_sound : (n : ℕ) (o : Option ℕ) → some_is n o ≡ true → o ≡ some n
unfolding some_is
some_is_sound n none h = cc
some_is_sound n (some m) h = ground arith

digit_table : each_below (λ n. some_is n (digit_value (code (hex_digit n)))) 16 ≡ true
unfolding each_below some_is
digit_table = refl

digit_value-hex_digit : (n : ℕ) → n < 16 → digit_value (code (hex_digit n)) ≡ some n
digit_value-hex_digit n lt = some_is_sound n _ (each_below-at _ 16 digit_table n lt)

pub AreBytes : Bytes → Type 0
AreBytes = All (λ b. b < 256)

pub unhexlify-hexlify : (bs : Bytes) → AreBytes bs → unhexlify (hexlify bs) ≡ ok bs
unfolding unhexlify hexlify push_byte AreBytes
unhexlify-hexlify [] h = refl
unhexlify-hexlify (b ∷ bs) (small, rest) =
    rw
      (
        digit_value-hex_digit (b / 16) (omega arith),
        digit_value-hex_digit (b % 16) (omega arith),
        unhexlify-hexlify bs rest,
      )
      (ap (λ v. ok (v ∷ bs)) (omega arith))

low_bytes-AreBytes : (len n : ℕ) → AreBytes (low_bytes len n)
unfolding AreBytes low_bytes
low_bytes-AreBytes zero n = tt
low_bytes-AreBytes (suc len) n = (omega arith, low_bytes-AreBytes len (n / 256))

-- The number has no more bytes than that.
Fits : ℕ → ℕ → Type 0
Fits zero n = n ≡ 0
Fits (suc len) n = Fits len (n / 256)

from_bytes-low_bytes : (len n : ℕ) → Fits len n → from_bytes (low_bytes len n) ≡ n
unfolding Fits from_bytes low_bytes
from_bytes-low_bytes zero n fits = sym fits
from_bytes-low_bytes (suc len) n fits = omega (arith, from_bytes-low_bytes len (n / 256) fits)

Fits8 : (n : ℕ) → n < 2 ^ 64 → Fits 8 n
unfolding Fits
Fits8 n lt = omega arith

pub to_bytes8_small : (n : ℕ) → n < 2 ^ 64 → to_bytes8 (pos n) ≡ ok (low_bytes 8 n)
unfolding to_bytes8
to_bytes8_small n lt = rw (lt→ltb n (2 ^ 64) lt) refl

pub hex_to_int-int_to_hex : (n : ℕ) → n < 2 ^ 64 → (int_to_hex (pos n) >>= hex_to_int) ≡ ok (pos n)
unfolding int_to_hex hex_to_int
hex_to_int-int_to_hex n lt =
    rw
      (
        to_bytes8_small n lt,
        unhexlify-hexlify (low_bytes 8 n) (low_bytes-AreBytes 8 n),
        from_bytes-low_bytes 8 n (Fits8 n lt),
      )
      refl
