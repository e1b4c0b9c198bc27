-- ===== src/Sum/Base64.antt =====
-- `FromBase64` of internal/sum/sum.go, with `StdEncoding` of encoding/base64: the standard alphabet,
-- padded, with line breaks skipped. The place that an error of the decoding names is left out.
use jotfs.Prelude.{
  ℕ, ◌+◌, ◌-◌, ◌*◌, ◌/◌, ◌%◌, ◌<◌, ◌≡◌, refl, ap, arith, Bool, true, false, ◌&&◌, ◌||◌, Option,
  none, some, [], ◌∷◌, ◌++◌, All, ltb, leb, ◌==◌, if◌then◌else◌,
}
use jotfs.Errors.{Result, ok, err, message, ◌>>=◌}
use jotfs.Bytes.{Bytes, IsByte}
use jotfs.Sum.{Sum, IsSum, from_bytes, from_bytes-ok}

-- The alphabet, and the digit that a character stands for
base64_char : ℕ → ℕ
base64_char n =
    if ltb n 26
    then b'A' + n
    else if ltb n 52
    then b'a' + (n - 26)
    else if ltb n 62
    then b'0' + (n - 52)
    else if n == 62
    then b'+'
    else b'/'

base64_digit : ℕ → Option ℕ
base64_digit c =
    if leb b'A' c && leb c b'Z'
    then some (c - b'A')
    else if leb b'a' c && leb c b'z'
    then some (c - b'a' + 26)
    else if leb b'0' c && leb c b'9'
    then some (c - b'0' + 52)
    else if c == b'+'
    then some 62
    else if c == b'/'
    then some 63
    else none

corrupt : {A : Type 0} → Result A
corrupt = err (message "illegal base64 data")

digit : ℕ → Result ℕ
digit c = elim (base64_digit c) [ none ↦ corrupt | some n ↦ ok n ]

-- What four characters hold: three bytes, or at the end of the text, with `=` for the last, two or one.
-- The bits that the last digit has too many are not looked at.
decode_quantum : ℕ → ℕ → ℕ → ℕ → Bool → Result Bytes
decode_quantum a b c d last = do
  x ← digit a
  y ← digit b
  if c == b'=' && d == b'=' && last then ok ((x * 4 + y / 16) ∷ []) else do
    z ← digit c
    if d == b'=' && last
        then ok ((x * 4 + y / 16) ∷ (y % 16 * 16 + z / 4) ∷ [])
        else do w ← digit d; ok ((x * 4 + y / 16) ∷ (y % 16 * 16 + z / 4) ∷ (z % 4 * 64 + w) ∷ [])

is_empty : Bytes → Bool
is_empty [] = true
is_empty (c ∷ cs) = false

decode_quanta : Bytes → Result Bytes
decode_quanta [] = ok []
decode_quanta (a ∷ b ∷ c ∷ d ∷ rest) = do
  bs ← decode_quantum a b c d (is_empty rest)
  more ← decode_quanta rest
  ok (bs ++ more)
decode_quanta _ = corrupt

skip_breaks : Bytes → Bytes
skip_breaks [] = []
skip_breaks (c ∷ cs) = let rest = skip_breaks cs in if c == 10 || c == 13 then rest else c ∷ rest

-- `FromBase64`
unfoldable pub from_base64 : Bytes → Result Sum
unfolding decode_quanta skip_breaks decode_quantum digit base64_digit corrupt is_empty
from_base64 s = do b ← decode_quanta (skip_breaks s); from_bytes b

-- `EncodeToString`, by which clients write the header
unfoldable pub encode : Bytes → Bytes
unfolding base64_char
encode [] = []
encode (x ∷ []) = base64_char (x / 4) ∷ base64_char (x % 4 * 16) ∷ b'=' ∷ b'=' ∷ []
encode (x ∷ y ∷ []) =
    base64_char (x / 4) ∷ base64_char (x % 4 * 16 + y / 16) ∷ base64_char (y % 16 * 4) ∷ b'=' ∷ []
encode (x ∷ y ∷ z ∷ rest) =
    base64_char (x / 4)
    ∷ base64_char (x % 4 * 16 + y / 16)
    ∷ base64_char (y % 16 * 4 + z / 64)
    ∷ base64_char (z % 64)
    ∷ encode rest

digit-base64_char : (n : ℕ) → n < 64 → digit (base64_char n) ≡ ok n
unfolding digit base64_digit base64_char
digit-base64_char n h = ground arith

base64_char-ne-pad : (n : ℕ) → n < 64 → (base64_char n == b'=') ≡ false
unfolding base64_char
base64_char-ne-pad n h = ground arith

skip_char :
    (n : ℕ) (cs ds : Bytes)
    → n < 64
    → skip_breaks cs ≡ ds
    → skip_breaks (base64_char n ∷ cs) ≡ base64_char n ∷ ds
unfolding skip_breaks base64_char
skip_char n cs ds h e = ground arith

skip_pad : (cs ds : Bytes) → skip_breaks cs ≡ ds → skip_breaks (b'=' ∷ cs) ≡ b'=' ∷ ds
unfolding skip_breaks
skip_pad cs ds e = ap (λ t. b'=' ∷ t) e

-- A text that was encoded has no line breaks.
skip_breaks-encode : (s : Bytes) → All IsByte s → skip_breaks (encode s) ≡ encode s
unfolding encode
skip_breaks-encode [] h = unfold skip_breaks in refl
skip_breaks-encode (x ∷ []) (hx, h) = skip_char (x / 4) _ _ (omega arith) (
    skip_char (x % 4 * 16) _ _ (omega arith)
      (skip_pad _ _ (skip_pad [] [] (unfold skip_breaks in refl))))
skip_breaks-encode (x ∷ y ∷ []) (hx, (hy, h)) = skip_char (x / 4) _ _ (omega arith) (
    skip_char (x % 4 * 16 + y / 16) _ _ (omega arith)
      (skip_char (y % 16 * 4) _ _ (omega arith) (skip_pad [] [] (unfold skip_breaks in refl))))
skip_breaks-encode (x ∷ y ∷ z ∷ rest) (hx, (hy, (hz, h))) = skip_char (x / 4) _ _ (omega arith) (
    skip_char (x % 4 * 16 + y / 16) _ _ (omega arith) (
      skip_char (y % 16 * 4 + z / 64) _ _ (omega arith)
        (skip_char (z % 64) _ _ (omega arith) (skip_breaks-encode rest h))))

-- The bits of three bytes, in four digits
first_byte : (x y : ℕ) → y < 16 → x / 4 * 4 + (x % 4 * 16 + y) / 16 ≡ x
first_byte x y h = omega arith

second_byte :
    (x y z : ℕ) → IsByte y → z < 4 → (x % 4 * 16 + y / 16) % 16 * 16 + (y % 16 * 4 + z) / 4 ≡ y
second_byte x y z hy h = omega arith

third_byte : (y z : ℕ) → IsByte z → (y % 16 * 4 + z / 64) % 4 * 64 + z % 64 ≡ z
third_byte y z h = omega arith

decode_one :
    (x : ℕ)
    → IsByte x
    → decode_quantum (base64_char (x / 4)) (base64_char (x % 4 * 16)) b'=' b'=' true ≡ ok (x ∷ [])
unfolding decode_quantum
decode_one x hx =
    let e : x / 4 * 4 + x % 4 * 16 / 16 ≡ x = omega arith in
    rw (digit-base64_char (x / 4) (omega arith), digit-base64_char (x % 4 * 16) (omega arith), e)
      refl

decode_two :
    (x y : ℕ)
    → IsByte x
    → IsByte y
    → decode_quantum
        (base64_char (x / 4))
        (base64_char (x % 4 * 16 + y / 16))
        (base64_char (y % 16 * 4))
        b'='
        true
      ≡ ok (x ∷ y ∷ [])
unfolding decode_quantum
decode_two x y hx hy =
    let e : (x % 4 * 16 + y / 16) % 16 * 16 + y % 16 * 4 / 4 ≡ y = omega arith in
    rw
      (
        digit-base64_char (x / 4) (omega arith),
        digit-base64_char (x % 4 * 16 + y / 16) (omega arith),
        base64_char-ne-pad (y % 16 * 4) (omega arith),
        digit-base64_char (y % 16 * 4) (omega arith),
        first_byte x (y / 16) (omega arith),
        e,
      )
      refl

decode_three :
    (x y z : ℕ) (last : Bool)
    → IsByte x
    → IsByte y
    → IsByte z
    → decode_quantum
        (base64_char (x / 4))
        (base64_char (x % 4 * 16 + y / 16))
        (base64_char (y % 16 * 4 + z / 64))
        (base64_char (z % 64))
        last
      ≡ ok (x ∷ y ∷ z ∷ [])
unfolding decode_quantum
decode_three x y z last hx hy hz =
    rw
      (
        digit-base64_char (x / 4) (omega arith),
        digit-base64_char (x % 4 * 16 + y / 16) (omega arith),
        base64_char-ne-pad (y % 16 * 4 + z / 64) (omega arith),
        digit-base64_char (y % 16 * 4 + z / 64) (omega arith),
        base64_char-ne-pad (z % 64) (omega arith),
        digit-base64_char (z % 64) (omega arith),
        first_byte x (y / 16) (omega arith),
        second_byte x y (z / 64) hy (omega arith),
        third_byte y z hz,
      )
      refl

decode_quanta-encode : (s : Bytes) → All IsByte s → decode_quanta (encode s) ≡ ok s
unfolding decode_quanta encode is_empty
decode_quanta-encode [] h = refl
decode_quanta-encode (x ∷ []) (hx, h) = rw (decode_one x hx) refl
decode_quanta-encode (x ∷ y ∷ []) (hx, (hy, h)) = rw (decode_two x y hx hy) refl
decode_quanta-encode (x ∷ y ∷ z ∷ rest) (hx, (hy, (hz, h))) =
    rw (decode_three x y z (is_empty (encode rest)) hx hy hz, decode_quanta-encode rest h) refl

-- A checksum of 32 bytes is read back from its base64 text.
pub from_base64-encode : (s : Sum) → IsSum s → All IsByte s → from_base64 (encode s) ≡ ok s
unfolding from_base64
from_base64-encode s n h = rw (skip_breaks-encode s h, decode_quanta-encode s h) (from_bytes-ok s n)
