-- ===== src/Settlement/Redeeming/Laws.antt =====
-- The bytes of a redemption id that is written in hexadecimal digits.
use creation_of_energy_token.Prelude.{
  ℕ, ◌+◌, ◌*◌, ◌/◌, ◌%◌, ◌<◌, ◌-◌, Bool, true, false, List, [], ◌∷◌, ◌++◌, Text, codes, ltb, ◌==◌,
  ◌≡◌, refl, All, if◌then◌else◌, arith,
}
use creation_of_energy_token.Prelude.Strings.{starts_with, is_hex, all_hex}
use creation_of_energy_token.Settlement.Redeeming.{
  hex_value, hex_bytes, has_even_length, redemption_id_bytes,
}

-- The digit of a number below 16, with its letters in upper or in lower case.
abbrev pub digit : Bool → ℕ → ℕ
digit upper d = if ltb d 10 then b'0' + d else (if upper then b'A' else b'a') + (d - 10)

-- A byte, and for each of its two digits whether a letter is written in upper case.
pub record Written : Type 0 where
  pub byte : ℕ
  pub upper_high : Bool
  pub upper_low : Bool

-- The text of bytes, two digits each, in any mixture of cases.
abbrev pub hex_text : List Written → Text
hex_text [] = []
hex_text (w ∷ ws) = digit w.upper_high (w.byte / 16) ∷ digit w.upper_low (w.byte % 16) ∷ hex_text ws

abbrev pub bytes_of : List Written → List ℕ
bytes_of [] = []
bytes_of (w ∷ ws) = w.byte ∷ bytes_of ws

abbrev pub IsByte : Written → Type 0
IsByte w = w.byte < 256

digit-is_hex : (upper : Bool) (d : ℕ) → d < 16 → is_hex (digit upper d) ≡ true
digit-is_hex upper d h = ground arith

hex_value-digit : (upper : Bool) (d : ℕ) → d < 16 → hex_value (digit upper d) ≡ d
unfolding hex_value
hex_value-digit upper d h = ground arith

digit_not_x : (upper : Bool) (d : ℕ) → d < 16 → (120 == digit upper d) ≡ false
digit_not_x upper d h = ground arith

byte_value :
    (w : Written)
    → IsByte w
    → hex_value (digit w.upper_high (w.byte / 16)) * 16
        + hex_value (digit w.upper_low (w.byte % 16))
      ≡ w.byte
byte_value w h =
    let b = w.byte in
    omega (
      arith,
      hex_value-digit w.upper_high (b / 16) (omega arith),
      hex_value-digit w.upper_low (b % 16) (omega arith),
    )

hex_bytes-hex_text : (ws : List Written) → All IsByte ws → hex_bytes (hex_text ws) ≡ bytes_of ws
unfolding hex_bytes
hex_bytes-hex_text [] h = refl
hex_bytes-hex_text (w ∷ ws) (small, rest) = rw (byte_value w small, hex_bytes-hex_text ws rest) refl

all_hex-hex_text : (ws : List Written) → All IsByte ws → all_hex (hex_text ws) ≡ true
all_hex-hex_text [] h = refl
all_hex-hex_text (w ∷ ws) (small, rest) =
    rw
      (
        digit-is_hex w.upper_high (w.byte / 16) (omega arith),
        digit-is_hex w.upper_low (w.byte % 16) (omega arith),
        all_hex-hex_text ws rest,
      )
      refl

even-hex_text : (ws : List Written) → has_even_length (hex_text ws) ≡ true
even-hex_text [] = refl
even-hex_text (w ∷ ws) = even-hex_text ws

no_prefix :
    (w : Written) (ws : List Written)
    → IsByte w
    → starts_with (codes "0x") (hex_text (w ∷ ws)) ≡ false
unfolding starts_with
no_prefix w ws h = ground (arith, digit_not_x w.upper_low (w.byte % 16) (omega arith))

-- An id that writes one byte or more in hexadecimal digits, each letter in upper or in lower case,
-- with or without the prefix 0x, is read as those bytes, whatever the text encoder does.
pub redemption_id_bytes-hex_text :
    (utf8 : Text → List ℕ) (w : Written) (ws : List Written)
    → All IsByte (w ∷ ws)
    → (redemption_id_bytes utf8 (codes "0x" ++ hex_text (w ∷ ws)) ≡ bytes_of (w ∷ ws))
      × (redemption_id_bytes utf8 (hex_text (w ∷ ws)) ≡ bytes_of (w ∷ ws))
unfolding redemption_id_bytes starts_with
redemption_id_bytes-hex_text utf8 w ws h =
    let hex = all_hex-hex_text (w ∷ ws) h in
    let even = even-hex_text (w ∷ ws) in
    let decoded = hex_bytes-hex_text (w ∷ ws) h in
    (rw (hex, even) decoded, rw (no_prefix w ws h.0, hex, even) decoded)
