-- ===== src/Sum/Hex.antt =====
-- `AsHex` and `FromHex` of internal/sum/sum.go, over the codes of the text's characters.
use jotfs.Prelude.{ℕ, ◌+◌, ◌-◌, ◌*◌, ◌/◌, ◌%◌, ◌<◌, ◌≡◌, refl, arith, ◌&&◌, Option, none, some}
use jotfs.Prelude.{[], ◌∷◌, All, ltb, leb, if◌then◌else◌}
use jotfs.Errors.{Result, ok, err, message, ◌>>=◌}
use jotfs.Bytes.{Bytes, IsByte}
use jotfs.Sum.{Sum, IsSum, from_bytes, from_bytes-ok}

-- The table `0123456789abcdef`
hex_digit : ℕ → ℕ
hex_digit n = if ltb n 10 then 48 + n else 87 + n

-- `hex.EncodeToString`
unfoldable pub as_hex : Sum → Bytes
unfolding hex_digit
as_hex [] = []
as_hex (b ∷ s) = hex_digit (b / 16) ∷ hex_digit (b % 16) ∷ as_hex s

-- Both cases of the letters are read.
from_hex_char : ℕ → Option ℕ
from_hex_char c =
    if leb b'0' c && leb c b'9'
    then some (c - 48)
    else if leb b'a' c && leb c b'f'
    then some (c - 87)
    else if leb b'A' c && leb c b'F'
    then some (c - 55)
    else none

-- The error that a lone last character gives
decode_last : Option ℕ → Result Bytes
decode_last none = err (message "encoding/hex: invalid byte")
decode_last (some n) = err (message "encoding/hex: odd length hex string")

decode_pair : Option ℕ → Option ℕ → Result Bytes → Result Bytes
decode_pair (some hi) (some lo) rest = rest >>= λ bs. ok ((hi * 16 + lo) ∷ bs)
decode_pair _ _ rest = err (message "encoding/hex: invalid byte")

-- `hex.DecodeString`
decode_string : Bytes → Result Bytes
unfolding decode_last decode_pair
decode_string [] = ok []
decode_string (c ∷ []) = decode_last (from_hex_char c)
decode_string (c ∷ d ∷ s) = decode_pair (from_hex_char c) (from_hex_char d) (decode_string s)

unfoldable pub from_hex : Bytes → Result Sum
unfolding decode_string from_hex_char
from_hex s = do b ← decode_string s; from_bytes b

hex_char_digit : (n : ℕ) → n < 16 → from_hex_char (hex_digit n) ≡ some n
unfolding from_hex_char hex_digit
hex_char_digit n h = ground arith

-- The two digits of a byte stand for it.
nibbles : (b : ℕ) → b / 16 * 16 + b % 16 ≡ b
nibbles b = omega arith

decode_string-as_hex : (s : Sum) → All IsByte s → decode_string (as_hex s) ≡ ok s
unfolding as_hex decode_string
decode_string-as_hex [] h = refl
decode_string-as_hex (b ∷ s) (hb, h) = rw (
  hex_char_digit (b / 16) (omega arith),
  hex_char_digit (b % 16) (omega arith),
  decode_string-as_hex s h,
  nibbles b,
)

from_hex_lem : (s : Bytes) → from_hex s ≡ (decode_string s >>= from_bytes)
unfolding from_hex
from_hex_lem s = refl

-- A checksum of 32 bytes is read back from its hexadecimal text.
pub from_hex-as_hex : (s : Sum) → IsSum s → All IsByte s → from_hex (as_hex s) ≡ ok s
from_hex-as_hex s h hb = rw (from_hex_lem, decode_string-as_hex s hb) (from_bytes-ok s h)
