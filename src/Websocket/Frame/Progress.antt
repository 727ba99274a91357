-- ===== src/Websocket/Frame/Progress.antt =====
-- `read_frame` on a connection: it reads something as long as something arrives.
use simple_server.Prelude.{
  ℕ, ◌≤◌, ◌≡◌, Bool, true, false, Option, none, some, [], ◌∷◌, ◌++◌, Bytes, length, arith, ◌/◌, ◌^◌,
  refl, ◌==◌, Bool-cases, inl, inr, bit_and, get_or,
}
use simple_server.Socket.{Received, Script, Reader, continue, ◌>>=◌, recv_exactly, checked}
use simple_server.Websocket.Frame.{
  read_length, read_masking_key, read_payload, finish, read_frame_steps, read_frame, or_empty,
}

-- Code that reads never leaves more to arrive than there was.
abbrev Shrinks : {A : Type 0} → Reader A → Type 0
Shrinks m = (s : Script) → length (m s).1 ≤ length s

bind-Shrinks :
    {A B : Type 0} (m : Reader A) (f : A → Reader B)
    → Shrinks m
    → ((a : A) → Shrinks (f a))
    → Shrinks (m >>= f)
bind-Shrinks {A = A} m f first then_ s = behind (m s) (first s)
  where
    behind : (r : Option A × Script) → length r.1 ≤ length s → length (continue r f).1 ≤ length s
    behind (none, t) h = h
    behind (some a, t) h = omega (arith, then_ a t)

recv_exactly-Shrinks : (n : ℕ) → Shrinks (recv_exactly n)
recv_exactly-Shrinks n [] = omega arith
recv_exactly-Shrinks n (r ∷ s) = omega arith

read_length-Shrinks : (short : ℕ) → Shrinks (read_length short)
unfolding read_length
read_length-Shrinks short s = elim (Bool-cases (short == 126)) [
  | inl e ↦ rw e (bind-Shrinks (recv_exactly 2) _ (recv_exactly-Shrinks 2) (λ b t. omega arith) s)
  | inr e ↦ elim (Bool-cases (short == 127)) [
    | inl f ↦
        rw (e, f) (bind-Shrinks (recv_exactly 8) _ (recv_exactly-Shrinks 8) (λ b t. omega arith) s)
    | inr f ↦ rw (e, f) (omega arith)
  ]
]

read_masking_key-Shrinks : (masked : Bool) → Shrinks (read_masking_key masked)
unfolding read_masking_key
read_masking_key-Shrinks true s = recv_exactly-Shrinks 4 s
read_masking_key-Shrinks false s = omega arith

read_payload-Shrinks : (n : ℕ) (filled : Bytes) → Shrinks (read_payload n filled)
unfolding read_payload
read_payload-Shrinks n filled [] = ground arith
read_payload-Shrinks n filled (none ∷ s) = ground arith
read_payload-Shrinks n filled (some [] ∷ s) = ground arith
read_payload-Shrinks n filled (some (b ∷ bs) ∷ s) =
    ground (arith, read_payload-Shrinks n (filled ++ b ∷ bs) s)

finish-Shrinks :
    (opcode : ℕ) (masked : Bool) (key payload : Bytes) → Shrinks (finish opcode masked key payload)
unfolding finish
finish-Shrinks opcode masked key payload s = ground arith

continue-Shrinks :
    {A B : Type 0} (f : A → Reader B)
    → ((a : A) → Shrinks (f a))
    → (o : Option A) (s : Script) → length (continue (o, s) f).1 ≤ length s
continue-Shrinks f then_ none s = omega arith
continue-Shrinks f then_ (some a) s = then_ a s

read_frame_steps-shorter :
    (received : Received) (s : Script) → length (read_frame_steps (received ∷ s)).1 ≤ length s
unfolding read_frame_steps
read_frame_steps-shorter received s =
    continue-Shrinks _
      (λ header.
        let opcode = bit_and (get_or header 0 0) 0x0f in
        let masked = bit_and (get_or header 1 0 / 2 ^ 7) 0x01 == 1 in
        let short = bit_and (get_or header 1 0) 0x7f in
        bind-Shrinks (read_length short) _ (read_length-Shrinks short) (λ n.
          bind-Shrinks (read_masking_key masked) _ (read_masking_key-Shrinks masked) (λ key.
            bind-Shrinks (read_payload n []) _ (read_payload-Shrinks n [])
              (λ payload. finish-Shrinks opcode masked key payload))))
      (checked 2 received) s

-- Each call takes at least one result of `recv`.
pub read_frame-shorter :
    (received : Received) (s : Script) → length (read_frame (received ∷ s)).1 ≤ length s
unfolding read_frame
read_frame-shorter received s =
    same (read_frame_steps (received ∷ s)) (read_frame_steps-shorter received s)
  where
    same : (r : Option Bytes × Script) → length r.1 ≤ length s → length (or_empty r).1 ≤ length s
    same (none, t) h = h
    same (some text, t) h = h

-- Where nothing arrives any more, it gives the empty string.
pub read_frame-nil : read_frame [] ≡ ([], [])
unfolding read_frame read_frame_steps
read_frame-nil = refl
