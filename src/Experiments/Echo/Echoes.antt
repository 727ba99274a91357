-- ===== src/Experiments/Echo/Echoes.antt =====
-- What a client of experiments/cppws/cppws.cpp gets: its request is read to the empty line, the
-- handshake is sent, and then each of its messages.
use simple_server.Prelude.{
  ℕ, suc, ◌-◌, ◌<◌, ◌^◌, ◌≡◌, ◌≢◌, refl, sym, ap, ◌∙◌, true, false, none, some, List, [], ◌∷◌, ◌++◌,
  append_assoc, append-nil, arith, Bytes, length, take, codes, All, All-append, map, bit_and,
  length-append, take-length, ==_ne,
}
use simple_server.Socket.{Script}
use simple_server.Text.Search.{find, contains, starts_with, contains-append}
use simple_server.Text.StringMap.{Map}
use simple_server.Text.Words.{is_empty}
use simple_server.Websocket.Frame.{read_frame, encode_frame}
use simple_server.Websocket.Frame.Payload.{IsChunk, join, masked_by}
use simple_server.Websocket.Frame.RoundTrip.{arriving, read_frame-masked}
use simple_server.Experiments.Echo.{read_line, add_line, extract_request, echo_server}

-- A text message of a client: the first byte, the key and the chunks of its frame, and the text.
pub record Message : Type 0 where
  pub first : ℕ
  pub k0 : ℕ
  pub k1 : ℕ
  pub k2 : ℕ
  pub k3 : ℕ
  pub chunks : List Bytes
  pub text : Bytes

-- The chunks are not empty and hold the text, which is not empty, under the mask.
abbrev pub IsMessage : Message → Type 0
IsMessage m =
    (length (join m.chunks) < 2 ^ 64)
    × All IsChunk m.chunks
    × (bit_and m.first 0x0f ≡ 1)
    × (join m.chunks ≡ masked_by m.k0 m.k1 m.k2 m.k3 m.text)
    × (is_empty m.text ≡ false)

abbrev pub arriving_all : List Message → Script → Script
arriving_all [] s = s
arriving_all (m ∷ ms) s =
    arriving m.first true (m.k0 ∷ m.k1 ∷ m.k2 ∷ m.k3 ∷ []) m.chunks (arriving_all ms s)

abbrev pub echo_of : Message → Bytes
echo_of m = encode_frame m.text

echo_server_end : (n : ℕ) (s : Script) → (read_frame s).0 ≡ [] → echo_server (suc n) s ≡ some []
unfolding echo_server
echo_server_end n s h = rw h

echo_server-text :
    (n : ℕ) (s rest : Script) (text : Bytes) (echoes : List Bytes)
    → read_frame s ≡ (text, rest)
    → is_empty text ≡ false
    → echo_server n rest ≡ some echoes
    → echo_server (suc n) s ≡ some (encode_frame text ∷ echoes)
unfolding echo_server
echo_server-text n s rest text echoes e h more = rw (e, h, more)

-- Messages that arrive one after the other are sent back in their order, each in a frame without a
-- mask, up to the first thing for which read_frame gives the empty string.
pub echo_server-echoes :
    (ms : List Message) (s : Script)
    → All IsMessage ms
    → (read_frame s).0 ≡ []
    → echo_server (suc (length ms)) (arriving_all ms s) ≡ some (map echo_of ms)
echo_server-echoes [] s h stop = echo_server_end 0 s stop
echo_server-echoes (m ∷ ms) s ((small, full, op, e, filled), h) stop =
    echo_server-text (suc (length ms)) _ (arriving_all ms s) m.text _
      (read_frame-masked m.first m.k0 m.k1 m.k2 m.k3 m.chunks _ m.text small full op e) filled
      (echo_server-echoes ms s h stop)

-- `read_line` receives one character at a time.
abbrev pub feed : Bytes → Script → Script
feed [] s = s
feed (c ∷ cs) s = some (c ∷ []) ∷ feed cs s

abbrev pub IsText : Bytes → Type 0
IsText line = All (λ c. c ≢ b'\r') line

find-no_break : (line : Bytes) → IsText line → find (codes "\r\n") line ≡ none
unfolding find starts_with
find-no_break [] h = refl
find-no_break (c ∷ line) (p, h) = rw (==_ne b'\r' c (λ e. p (sym e)), find-no_break line h)

find-half_break : (line : Bytes) → IsText line → find (codes "\r\n") (line ++ b'\r' ∷ []) ≡ none
unfolding find starts_with
find-half_break [] h = refl
find-half_break (c ∷ line) (p, h) = rw (==_ne b'\r' c (λ e. p (sym e)), find-half_break line h)

read_line_more :
    (line : Bytes) (c : ℕ) (s : Script)
    → find (codes "\r\n") (line ++ c ∷ []) ≡ none
    → read_line line (some (c ∷ []) ∷ s) ≡ read_line (line ++ c ∷ []) s
unfolding read_line contains
read_line_more line c s h = rw h

read_line_end :
    (line : Bytes) (s : Script) → read_line (line ++ b'\r' ∷ []) (some (b'\n' ∷ []) ∷ s) ≡ (line, s)
unfolding read_line
read_line_end line s =
    let together = append_assoc line (b'\r' ∷ []) (b'\n' ∷ []) in
    let found = contains-append (codes "\r\n") line [] in rw (together, found, ends line)
  where
    ends :
        (line : Bytes)
        → take (length (line ++ b'\r' ∷ b'\n' ∷ []) - 2) (line ++ b'\r' ∷ b'\n' ∷ []) ≡ line
    ends line =
        ap (λ n. take n (line ++ b'\r' ∷ b'\n' ∷ []))
          (omega (arith, length-append line (b'\r' ∷ b'\n' ∷ [])))
        ∙ take-length line _

-- A line without a carriage return is read to the line end behind it, and no further.
read_line-feed :
    (line todo : Bytes) (s : Script)
    → IsText line
    → IsText todo
    → read_line line (feed (todo ++ codes "\r\n") s) ≡ (line ++ todo, s)
read_line-feed line [] s h t =
    read_line_more line b'\r' _ (find-half_break line h)
    ∙ read_line_end line s
    ∙ ap (λ l. (l, s)) (sym (append-nil line))
read_line-feed line (c ∷ todo) s h (p, t) =
    let h' = All-append (λ c. c ≢ b'\r') line (c ∷ []) h (p, tt) in
    read_line_more line c _ (find-no_break (line ++ c ∷ []) h')
    ∙ read_line-feed (line ++ c ∷ []) todo s h' t
    ∙ ap (λ l. (l, s)) (append_assoc line (c ∷ []) todo)

-- A line of a request, and the lines as they arrive, with the empty line behind them.
abbrev pub IsRequestLine : Bytes → Type 0
IsRequestLine line = IsText line × (is_empty line ≡ false)

abbrev pub request : List Bytes → Script → Script
request [] s = feed (codes "\r\n") s
request (line ∷ lines) s = feed (line ++ codes "\r\n") (request lines s)

abbrev pub add_lines : List Bytes → Map Bytes → Map Bytes
add_lines [] ret = ret
add_lines (line ∷ lines) ret = add_lines lines (add_line line ret)

extract_request_line :
    (n : ℕ) (ret : Map Bytes) (s rest : Script) (line : Bytes)
    → read_line [] s ≡ (line, rest)
    → is_empty line ≡ false
    → extract_request (suc n) ret s ≡ extract_request n (add_line line ret) rest
unfolding extract_request
extract_request_line n ret s rest line e h = rw (e, h)

extract_request_end :
    (n : ℕ) (ret : Map Bytes) (s rest : Script)
    → read_line [] s ≡ ([], rest)
    → extract_request (suc n) ret s ≡ some (ret, rest)
unfolding extract_request
extract_request_end n ret s rest e = rw e

-- Every line is added in its turn, and nothing behind the empty line is read.
pub extract_request-request :
    (lines : List Bytes) (ret : Map Bytes) (s : Script)
    → All IsRequestLine lines
    → extract_request (suc (length lines)) ret (request lines s) ≡ some (add_lines lines ret, s)
extract_request-request [] ret s h = extract_request_end 0 ret _ s (read_line-feed [] [] s tt tt)
extract_request-request (line ∷ lines) ret s ((t, filled), h) =
    extract_request_line _ ret _ _ line (read_line-feed [] line _ tt t) filled
    ∙ extract_request-request lines (add_line line ret) s h
