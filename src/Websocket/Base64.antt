-- ===== src/Websocket/Base64.antt =====
-- The two Base64 encoders of src/websocket_handler.cpp: `base64_encode`, which walks the data three
-- bytes at a time by index, and `b64`, which fills a buffer of three bytes.
mod Bits
pub mod Agree
pub mod Decode
pub mod Loop
pub mod Size
use mathlib.Core.List.{foldl}
use simple_server.Prelude.{
  ℕ, zero, suc, ◌+◌, ◌-◌, ◌*◌, ◌/◌, ◌%◌, ◌^◌, Option, none, some, List, [], ◌∷◌, ◌++◌, bit_and,
  bit_or, codes, Bytes, get_or, length, take, ltb, ◌==◌, if◌then◌else◌,
}

abbrev pub base64_chars : Bytes
base64_chars = codes "ABCDEFGHIJKLMNOPQRSTUVWXYZabcdefghijklmnopqrstuvwxyz0123456789+/"

-- `base64_chars[k]`
unfoldable pub base64_char : ℕ → ℕ
base64_char k = get_or base64_chars k 0

-- One round of the loop of `base64_encode`: `left` is `bytesLeft`, and the bytes past the end are 0.
unfoldable pub encode_group : ℕ → ℕ → ℕ → ℕ → Bytes
encode_group b0 b1 b2 left =
    base64_char (b0 / 4)
    ∷ base64_char (bit_or (bit_and b0 0x03 * 16) (bit_and b1 0xf0 / 16))
    ∷ (if ltb 1 left
        then base64_char (bit_or (bit_and b1 0x0f * 4) (bit_and b2 0xc0 / 64))
        else b'=')
    ∷ (if ltb 2 left then base64_char (bit_and b2 0x3f) else b'=')
    ∷ []

-- The round of the loop at the index `i`, an `unsigned int`.
unfoldable pub base64_group : Bytes → ℕ → Bytes
base64_group input i =
    let bytes_left = length input - i in
    encode_group (get_or input i 0)
      (if ltb 1 bytes_left then get_or input ((i + 1) % 2 ^ 32) 0 else 0)
      (if ltb 2 bytes_left then get_or input ((i + 2) % 2 ^ 32) 0 else 0) bytes_left

-- The loop of `base64_encode`, with fuel for the rounds; the index wraps around.
unfoldable pub base64_loop : ℕ → Bytes → ℕ → Option Bytes
unfolding base64_group
base64_loop zero input i = none
base64_loop (suc fuel) input i =
    let more = base64_loop fuel input ((i + 3) % 2 ^ 32) in
    if ltb i (length input) then with_group (base64_group input i) more else some []
  where
    with_group : Bytes → Option Bytes → Option Bytes
    with_group group none = none
    with_group group (some output) = some (group ++ output)

-- What `base64_encode` returns for fewer than 2^32 bytes; for more its loop does not end.
unfoldable pub base64_encode : Bytes → Bytes
base64_encode [] = []
base64_encode (b0 ∷ []) = encode_group b0 0 0 1
base64_encode (b0 ∷ b1 ∷ []) = encode_group b0 b1 0 2
base64_encode (b0 ∷ b1 ∷ b2 ∷ rest) = encode_group b0 b1 b2 (3 + length rest) ++ base64_encode rest

-- The locals of `b64`: `byte_array_3`, the index `i` and `result`.
pub record Buffer : Type 0 where
  pub byte0 : ℕ
  pub byte1 : ℕ
  pub byte2 : ℕ
  pub i : ℕ
  pub result : Bytes

-- `byte_array_4` looked up in the table.
unfoldable pub quad : ℕ → ℕ → ℕ → Bytes
quad b0 b1 b2 =
    base64_char (bit_and b0 0xfc / 4)
    ∷ base64_char (bit_and b0 0x03 * 16 + bit_and b1 0xf0 / 16)
    ∷ base64_char (bit_and b1 0x0f * 4 + bit_and b2 0xc0 / 64)
    ∷ base64_char (bit_and b2 0x3f)
    ∷ []

-- `byte_array_3[i++] = data[idx]`
unfoldable pub store : Buffer → ℕ → Buffer
store s b =
    if s.i == 0
    then record s { byte0 = b; i = 1 }
    else if s.i == 1
    then record s { byte1 = b; i = 2 }
    else record s { byte2 = b; i = s.i + 1 }

-- One round of the loop of `b64`.
unfoldable pub b64_step : Buffer → ℕ → Buffer
unfolding store
b64_step s b =
    let t = store s b in
    if t.i == 3 then record t { i = 0; result = t.result ++ quad t.byte0 t.byte1 t.byte2 } else t

-- `while (result.size() % 4) result += '='`, with fuel for the rounds.
unfoldable pub pad : ℕ → Bytes → Bytes
pad zero r = r
pad (suc fuel) r = let more = pad fuel (r ++ b'=' ∷ []) in if length r % 4 == 0 then r else more

-- The end of `b64`: the cells from `i` on are cleared, `i + 1` characters are kept, and three
-- rounds of padding reach a multiple of four.
unfoldable pub b64_finish : Buffer → Bytes
b64_finish s =
    if s.i == 0
    then s.result
    else pad 4 (
        s.result
        ++ take (s.i + 1)
            (quad s.byte0 (if ltb 1 s.i then s.byte1 else 0) (if ltb 2 s.i then s.byte2 else 0)))

unfoldable pub b64 : Bytes → Bytes
unfolding b64_finish b64_step
b64 input =
    b64_finish
      (foldl b64_step (record { byte0 = 0; byte1 = 0; byte2 = 0; i = 0; result = [] }) input)
