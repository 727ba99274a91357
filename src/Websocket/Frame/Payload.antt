-- ===== src/Websocket/Frame/Payload.antt =====
-- The loop that reads the payload, and the mask.
use mathlib.Core.List.{}
use simple_server.Prelude.{
  ℕ, suc, ◌+◌, ◌≤◌, ◌%◌, ◌≡◌, refl, ap, ◌∙◌, false, none, some, List, [], ◌∷◌, ◌++◌, append_assoc,
  append-nil, arith, Bytes, length, length-append, ltb, get_or, All, bit_xor, sym, bit_xor_twice,
  lt→ltb,
}
use simple_server.Socket.{Script}
use simple_server.Websocket.Frame.{read_payload, unmask}

-- What one successful `recv` brings: at least one byte.
abbrev pub IsChunk : Bytes → Type 0
IsChunk [] = ⊥
IsChunk (b ∷ bs) = Unit

-- The chunks arrive one by one, and then what the script goes on with.
abbrev pub deliver : List Bytes → Script → Script
deliver [] s = s
deliver (c ∷ cs) s = some c ∷ deliver cs s

abbrev pub join : List Bytes → Bytes
join [] = []
join (c ∷ cs) = c ++ join cs

read_payload_full :
    (n : ℕ) (filled : Bytes) (s : Script)
    → ltb (length filled) n ≡ false
    → read_payload n filled s ≡ (some filled, s)
unfolding read_payload
read_payload_full n filled [] h = rw h
read_payload_full n filled (none ∷ s) h = rw h
read_payload_full n filled (some [] ∷ s) h = rw h
read_payload_full n filled (some (b ∷ bs) ∷ s) h = rw h

-- However the payload is cut into chunks, the loop puts it together and stops at its end.
pub read_payload-deliver :
    (n : ℕ) (filled : Bytes) (chunks : List Bytes) (s : Script)
    → All IsChunk chunks
    → length filled + length (join chunks) ≡ n
    → read_payload n filled (deliver chunks s) ≡ (some (filled ++ join chunks), s)
unfolding read_payload
read_payload-deliver n filled [] s h e =
    read_payload_full n filled s (ground arith) ∙ rw (append-nil filled)
read_payload-deliver n filled ([] ∷ chunks) s (h, hs) e = absurd h
read_payload-deliver n filled ((b ∷ bs) ∷ chunks) s (h, hs) e =
    rw (lt→ltb (length filled) n (omega arith)) (
      read_payload-deliver n (filled ++ b ∷ bs) chunks s hs
        (omega (arith, length-append filled (b ∷ bs), length-append bs (join chunks)))
      ∙ rw (append_assoc filled (b ∷ bs) (join chunks)))

-- What the loop accepts has at least the announced length, and it was all received.
pub read_payload-le :
    (n : ℕ) (filled : Bytes) (s : Script) (payload : Bytes) (rest : Script)
    → read_payload n filled s ≡ (some payload, rest)
    → n ≤ length payload
unfolding read_payload
read_payload-le n filled [] payload rest e = ground arith
read_payload-le n filled (none ∷ s) payload rest e = ground arith
read_payload-le n filled (some [] ∷ s) payload rest e = ground arith
read_payload-le n filled (some (b ∷ bs) ∷ s) payload rest e =
    ground (arith, read_payload-le n (filled ++ b ∷ bs) s payload rest)

-- The mask is its own inverse.
pub unmask_twice : (key : Bytes) (i : ℕ) (text : Bytes) → unmask key i (unmask key i text) ≡ text
unfolding unmask
unmask_twice key i [] = refl
unmask_twice key i (b ∷ bs) =
    rw (bit_xor_twice b (get_or key (i % 4) 0), unmask_twice key (i + 1) bs)

pub length-unmask : (key : Bytes) (i : ℕ) (text : Bytes) → length (unmask key i text) ≡ length text
unfolding unmask
length-unmask key i [] = refl
length-unmask key i (b ∷ bs) = ap suc (length-unmask key (i + 1) bs)

-- The mask of RFC 6455: the bytes of the key are taken in turn.
abbrev pub masked_by : ℕ → ℕ → ℕ → ℕ → Bytes → Bytes
masked_by k0 k1 k2 k3 [] = []
masked_by k0 k1 k2 k3 (b ∷ bs) = bit_xor b k0 ∷ masked_by k1 k2 k3 k0 bs

abbrev key_byte : Bytes → ℕ → ℕ
key_byte key i = get_or key (i % 4) 0

unmask-masked_by :
    (key : Bytes) (i : ℕ) (text : Bytes)
    → unmask key i text
      ≡ masked_by
          (key_byte key i)
          (key_byte key (i + 1))
          (key_byte key (i + 2))
          (key_byte key (i + 3))
          text
unfolding unmask
unmask-masked_by key i [] = refl
unmask-masked_by key i (b ∷ bs) =
    ap (λ t. bit_xor b (key_byte key i) ∷ t)
      (unmask-masked_by key (i + 1) bs ∙ rw (two i, three i, four i))
  where
    two : (i : ℕ) → i + 1 + 1 ≡ i + 2
    two i = omega arith

    three : (i : ℕ) → i + 1 + 2 ≡ i + 3
    three i = omega arith

    four : (i : ℕ) → (i + 1 + 3) % 4 ≡ i % 4
    four i = omega arith

-- Taking the mask off gives the text that it was put on.
pub unmask-mask :
    (k0 k1 k2 k3 : ℕ) (text : Bytes)
    → unmask (k0 ∷ k1 ∷ k2 ∷ k3 ∷ []) 0 (masked_by k0 k1 k2 k3 text) ≡ text
unmask-mask k0 k1 k2 k3 text =
    let key = k0 ∷ k1 ∷ k2 ∷ k3 ∷ [] in
    ap (unmask key 0) (sym (unmask-masked_by key 0 text)) ∙ unmask_twice key 0 text
