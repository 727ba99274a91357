-- ===== src/Socket.antt =====
-- The operating system's stream sockets, as the program sees them. What arrives is an argument of
-- the model: the list of the results of the successive `recv` calls on a connection.
use simple_server.Prelude.{
  ℕ, Option, none, some, List, [], ◌∷◌, Bytes, length, ◌≡◌, refl, ap, ◌==◌, if◌then◌else◌,
}

-- The result of one `recv`: `none` is -1, and no bytes is 0, the end of the stream.
abbrev pub Received : Type 0
Received = Option Bytes

abbrev pub Script : Type 0
Script = List Received

-- The next result; past the end of the list the peer has closed the connection.
abbrev pub recv : Script → Received × Script
recv [] = (some [], [])
recv (r ∷ rest) = (r, rest)

-- Code that reads from a connection and may give up.
abbrev pub Reader : Type 0 → Type 0
Reader A = Script → Option A × Script

abbrev pub continue : {A B : Type 0} → Option A × Script → (A → Reader B) → Option B × Script
continue (none, s) f = (none, s)
continue (some a, s) f = f a s

infixl 5 ◌>>=◌
abbrev pub ◌>>=◌ : {A B : Type 0} → Reader A → (A → Reader B) → Reader B
◌>>=◌ m f s = continue (m s) f

abbrev pub pure : {A : Type 0} → A → Reader A
pure a s = (some a, s)

abbrev pub give_up : {A : Type 0} → Reader A
give_up s = (none, s)

abbrev pub checked : ℕ → Received → Option Bytes
checked n none = none
checked n (some bytes) = if length bytes == n then some bytes else none

-- `if (recv(fd, buffer, n, 0) != n) return "";` for a positive n.
abbrev pub recv_exactly : ℕ → Reader Bytes
recv_exactly n s = let (r, s') = recv s in (checked n r, s')

pub bind_some :
    {A B : Type 0} (m : Reader A) (f : A → Reader B) (s : Script) {a : A} {rest : Script}
    → m s ≡ (some a, rest)
    → (m >>= f) s ≡ f a rest
bind_some m f s e = ap (λ r. continue r f) e

pub bind_none :
    {A B : Type 0} (m : Reader A) (f : A → Reader B) (s : Script) {rest : Script}
    → m s ≡ (none, rest)
    → (m >>= f) s ≡ (none, rest)
bind_none m f s e = ap (λ r. continue r f) e

-- What code that has a result read in its first part.
pub bind_result :
    {A B : Type 0} (m : Reader A) (f : A → Reader B) (s : Script) {b : B} {rest : Script}
    → (m >>= f) s ≡ (some b, rest)
    → (a : A) × (between : Script) × (m s ≡ (some a, between)) × (f a between ≡ (some b, rest))
bind_result {A = A} {B = B} m f s {b = b} {rest = rest} h = parts (m s) h
  where
    parts :
        (r : Option A × Script)
        → continue r f ≡ (some b, rest)
        → (a : A) × (between : Script) × (r ≡ (some a, between)) × (f a between ≡ (some b, rest))
    parts (none, s) h = absurd (cc h)
    parts (some a, s) h = (a, s, refl, h)
