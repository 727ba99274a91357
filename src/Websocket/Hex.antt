-- ===== src/Websocket/Hex.antt =====
-- `hex_2_bytes` of src/websocket_handler.cpp, which the older library has as well.
use simple_server.Prelude.{
  ℕ, ◌+◌, ◌-◌, ◌*◌, ◌/◌, ◌%◌, ◌≡◌, refl, Bool, ◌&&◌, ◌||◌, Option, none, some, [], ◌∷◌, Bytes,
  IsByte, All, leb, ltb, ◌==◌, if◌then◌else◌, all_below, agree_below,
}

-- The value of a hexadecimal digit.
unfoldable pub hex_digit : ℕ → Option ℕ
hex_digit c =
    if leb b'0' c && leb c b'9'
    then some (c - b'0')
    else if leb b'a' c && leb c b'f'
    then some (c - 87)
    else if leb b'A' c && leb c b'F'
    then some (c - 55)
    else none

-- The number that the digits at the front stand for, behind that of k. Behind the prefix `0x` there
-- is no room for a digit in a text of two characters, so that the prefix is a zero as well.
unfoldable pub hex_number : ℕ → Bytes → ℕ
unfolding hex_digit
hex_number k [] = k
hex_number k (c ∷ cs) = elim (hex_digit c) [ none ↦ k | some d ↦ hex_number (k * 16 + d) cs ]

-- `isspace`
abbrev is_space : ℕ → Bool
is_space c = c == b' ' || (leb 9 c && leb c 13)

-- `(uint8_t)strtol(text, nullptr, 16)` for a text of at most two characters.
unfoldable pub strtol_byte : Bytes → ℕ
unfolding hex_number
strtol_byte [] = 0
strtol_byte (c ∷ cs) =
    let behind = strtol_byte cs in
    if is_space c
    then behind
    else if c == b'-'
    then (256 - hex_number 0 cs) % 256
    else if c == b'+'
    then hex_number 0 cs
    else hex_number 0 (c ∷ cs)

unfoldable pub hex_2_bytes : Bytes → Bytes
unfolding strtol_byte
hex_2_bytes [] = []
hex_2_bytes (c ∷ []) = strtol_byte (c ∷ []) ∷ []
hex_2_bytes (c ∷ d ∷ hex) = strtol_byte (c ∷ d ∷ []) ∷ hex_2_bytes hex

-- The digit of a number below 16.
abbrev pub hex_char : ℕ → ℕ
hex_char n = if ltb n 10 then b'0' + n else 87 + n

-- Two digits for every byte.
abbrev pub print_hex : Bytes → Bytes
print_hex [] = []
print_hex (b ∷ bytes) = hex_char (b / 16) ∷ hex_char (b % 16) ∷ print_hex bytes

strtol_byte-hex_char :
    (b : ℕ) → IsByte b → strtol_byte (hex_char (b / 16) ∷ hex_char (b % 16) ∷ []) ≡ b
unfolding strtol_byte hex_number hex_digit all_below
strtol_byte-hex_char =
    agree_below 256 (λ b. strtol_byte (hex_char (b / 16) ∷ hex_char (b % 16) ∷ [])) (λ b. b) refl

-- The bytes are read back from their digits.
pub hex_2_bytes-print_hex :
    (bytes : Bytes) → All IsByte bytes → hex_2_bytes (print_hex bytes) ≡ bytes
unfolding hex_2_bytes
hex_2_bytes-print_hex [] h = refl
hex_2_bytes-print_hex (b ∷ bytes) (h, hs) =
    rw (strtol_byte-hex_char b h, hex_2_bytes-print_hex bytes hs)
