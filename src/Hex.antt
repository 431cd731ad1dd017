-- ===== src/Hex.antt =====
-- encoding/hex as the buffer and the processor use it: EncodeToString of a trace ID, DecodeString of
-- the text in a decision.
pub mod RoundTrip
use otel_tail_sampler.Base.{
  ℕ, zero, suc, ◌+◌, ◌-◌, ◌*◌, ◌/◌, ◌%◌, Bool, ◌&&◌, Option, none, some, List, [], ◌∷◌, ltb, leb,
  if◌then◌else◌,
}
use otel_tail_sampler.Base.Text.{GoString}

-- The digit of a nibble, "0123456789abcdef".
abbrev pub hex_digit : ℕ → ℕ
hex_digit d = if ltb d 10 then 48 + d else 87 + d

unfoldable pub encode_to_string : List ℕ → GoString
encode_to_string [] = []
encode_to_string (b ∷ bs) = hex_digit (b / 16) ∷ hex_digit (b % 16) ∷ encode_to_string bs

abbrev pub between : ℕ → ℕ → ℕ → Bool
between lo c hi = leb lo c && leb c hi

-- Both cases are read.
abbrev pub from_hex_digit : ℕ → Option ℕ
from_hex_digit c =
    if between 48 c 57
    then some (c - 48)
    else if between 97 c 102
    then some (c - 87)
    else if between 65 c 70
    then some (c - 55)
    else none

abbrev pub byte_of : Option ℕ → Option ℕ → Option (List ℕ) → Option (List ℕ)
byte_of (some hi) (some lo) (some rest) = some ((hi * 16 + lo) ∷ rest)
byte_of _ _ _ = none

-- `none` is an error: a byte that is no digit, or an odd length.
unfoldable pub decode_string : GoString → Option (List ℕ)
decode_string [] = some []
decode_string (c ∷ []) = none
decode_string (c ∷ d ∷ s) = byte_of (from_hex_digit c) (from_hex_digit d) (decode_string s)
