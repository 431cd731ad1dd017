-- ===== src/Hex/RoundTrip.antt =====
-- What DecodeString reads back of EncodeToString.
use otel_tail_sampler.Base.{
  ℕ, ◌+◌, ◌*◌, ◌/◌, ◌%◌, ◌<◌, ◌≡◌, refl, ap₂, some, List, [], ◌∷◌, All, arith, length,
}
use otel_tail_sampler.Base.Text.{codes}
use otel_tail_sampler.Hex.{hex_digit, from_hex_digit, encode_to_string, decode_string}

abbrev pub IsByte : ℕ → Type 0
IsByte b = b < 256

pub from_hex_digit-hex_digit : (d : ℕ) → d < 16 → from_hex_digit (hex_digit d) ≡ some d
from_hex_digit-hex_digit d h = ground arith

-- Decoding the hex text of bytes gives the bytes back.
pub decode_string-encode_to_string :
    (bs : List ℕ) → All IsByte bs → decode_string (encode_to_string bs) ≡ some bs
unfolding decode_string encode_to_string
decode_string-encode_to_string [] h = refl
decode_string-encode_to_string (b ∷ bs) (hb, hs) =
    rw
      (
        from_hex_digit-hex_digit (b / 16) (omega arith),
        from_hex_digit-hex_digit (b % 16) (omega arith),
        decode_string-encode_to_string bs hs,
      )
      (rw (nibbles b) refl)
  where
    nibbles : (x : ℕ) → x / 16 * 16 + x % 16 ≡ x
    nibbles x = omega arith

-- Different trace IDs have different texts.
pub encode_to_string-injective :
    (as' bs : List ℕ) → encode_to_string as' ≡ encode_to_string bs → as' ≡ bs
unfolding encode_to_string
encode_to_string-injective [] [] h = refl
encode_to_string-injective [] (b ∷ bs) h = cc
encode_to_string-injective (a ∷ as') [] h = cc
encode_to_string-injective (a ∷ as') (b ∷ bs) h =
    let high : hex_digit (a / 16) ≡ hex_digit (b / 16) = cc in
    let low : hex_digit (a % 16) ≡ hex_digit (b % 16) = cc in
    let rest : encode_to_string as' ≡ encode_to_string bs = cc in
    ap₂ ◌∷◌ (same_byte a b high low) (encode_to_string-injective as' bs rest)
  where
    same_byte :
        (x y : ℕ)
        → hex_digit (x / 16) ≡ hex_digit (y / 16)
        → hex_digit (x % 16) ≡ hex_digit (y % 16)
        → x ≡ y
    same_byte x y e f = ground arith

pub length-encode_to_string : (bs : List ℕ) → length (encode_to_string bs) ≡ 2 * length bs
unfolding encode_to_string
length-encode_to_string [] = refl
length-encode_to_string (b ∷ bs) = omega (arith, length-encode_to_string bs)

encode_test : encode_to_string (1 ∷ 171 ∷ []) ≡ codes "01ab"
unfolding encode_to_string
encode_test = refl
