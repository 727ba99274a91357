-- ===== src/Older/System/Pipes.antt =====
-- `execute_cat_cmd` and `get_port_by_tulnp_cmd`: what the loop over `fgets` makes of the output of a
-- command. The command itself is a parameter: what `popen` gives for it.
use mathlib.Core.Option
use mathlib.Core.Path.{subst}
use simple_server.Prelude.{
  ℕ, zero, suc, ◌≤◌, ◌≡◌, ◌≢◌, refl, sym, ap, ◌∙◌, Option, none, some, [], ◌∷◌, ◌++◌, Bytes, codes,
  length, length-append, All, All-left, All-right, ◌==◌, if◌then◌else◌, arith, Bool-cases, inl, inr,
}
use simple_server.Text.Words.{is_empty}

-- The command's output; none is a null pointer.
abbrev pub Popen : Type 0
Popen = Bytes → Option Bytes

-- What `fgets` reads with room for n characters: up to a newline, and what is left behind it.
unfoldable pub fgets : ℕ → Bytes → Bytes × Bytes
fgets zero output = ([], output)
fgets (suc n) [] = ([], [])
fgets (suc n) (c ∷ output) =
    let (line, rest) = fgets n output in if c == b'\n' then (c ∷ [], output) else (c ∷ line, rest)

-- `result += buffer.data()`: the characters before the first zero.
unfoldable pub c_string : Bytes → Bytes
c_string [] = []
c_string (c ∷ cs) = if c == 0 then [] else c ∷ c_string cs

abbrev joined : Bytes → Option Bytes → Option Bytes
joined line none = none
joined line (some later) = some (c_string line ++ later)

-- The loop, on fuel, for a buffer of n + 1 characters: it ends when nothing is read.
unfoldable pub read_pipe : ℕ → ℕ → Bytes → Option Bytes
read_pipe fuel n [] = some []
read_pipe zero n (c ∷ cs) = none
read_pipe (suc fuel) n (c ∷ cs) =
    let (line, rest) = fgets n (c ∷ cs) in joined line (read_pipe fuel n rest)

-- `command` is what the memory holds to which the pointer leads: the string that owns it is gone
-- before `popen` is called.
unfoldable pub execute_cat_cmd : Popen → Bytes → Bytes → Option Bytes
execute_cat_cmd popen command desc = elim (popen command) [
  | none ↦ some (codes "Failed to run the sequence LS")
  | some output ↦ Option.map (described desc) (read_pipe (length output) 1023 output)
]
  where
    described : Bytes → Bytes → Bytes
    described desc result =
        desc
        ++ (if is_empty result
            then codes "Information seems to be not available...\r\n"
            else result)

unfoldable pub get_port_by_tulnp_cmd : Popen → Option Bytes
get_port_by_tulnp_cmd popen = elim (popen (codes "ss -tulnp")) [
  | none ↦ some (codes "Failed to run the sequence LS")
  | some output ↦
      Option.map (λ result. codes "Open Ports and Associated Processes:\n" ++ result)
        (read_pipe (length output) 511 output)
]

fgets-append : (n : ℕ) (output : Bytes) → (fgets n output).0 ++ (fgets n output).1 ≡ output
unfolding fgets
fgets-append zero output = refl
fgets-append (suc n) [] = refl
fgets-append (suc n) (c ∷ output) = elim (Bool-cases (c == b'\n')) [
  | inl e ↦ rw e refl
  | inr e ↦ rw e (ap (λ r. c ∷ r) (fgets-append n output))
]

fgets-shorter : (n c : ℕ) (output : Bytes) → length (fgets (suc n) (c ∷ output)).1 ≤ length output
unfolding fgets
fgets-shorter n c output = elim (Bool-cases (c == b'\n')) [
  | inl e ↦ rw e (omega arith)
  | inr e ↦ rw e (
      omega (
        arith,
        length-append (fgets n output).0 (fgets n output).1,
        ap length (fgets-append n output),
      ))
]

c_string-All : (s : Bytes) → All (λ c. c ≢ 0) s → c_string s ≡ s
unfolding c_string
c_string-All [] h = refl
c_string-All (c ∷ cs) (h, hs) = ground (arith, c_string-All cs hs)

-- Output without a zero byte is read whole, whatever the size of the buffer, once there is room for
-- a character, and with as much fuel as the output is long.
pub read_pipe_whole :
    (fuel n : ℕ) (output : Bytes)
    → All (λ c. c ≢ 0) output
    → length output ≤ fuel
    → read_pipe fuel (suc n) output ≡ some output
unfolding read_pipe
read_pipe_whole fuel n [] h l = refl
read_pipe_whole zero n (c ∷ cs) h l = absurd (omega arith)
read_pipe_whole (suc fuel) n (c ∷ cs) h l =
    let output = c ∷ cs in
    let line = (fgets (suc n) output).0 in
    let rest = (fgets (suc n) output).1 in
    let whole = fgets-append (suc n) output in
    let all = subst (All (λ c. c ≢ 0)) (sym whole) h in
    ap (joined line) (
      read_pipe_whole fuel n rest (All-right (λ c. c ≢ 0) line rest all)
        (omega (arith, fgets-shorter n c cs)))
    ∙ ap (λ l. some (l ++ rest)) (c_string-All line (All-left (λ c. c ≢ 0) line rest all))
    ∙ ap some whole

-- The description, and the whole output of the command behind it.
pub execute_cat_cmd_lem :
    (popen : Popen) (command desc : Bytes) (c : ℕ) (cs : Bytes)
    → popen command ≡ some (c ∷ cs)
    → All (λ c. c ≢ 0) (c ∷ cs)
    → execute_cat_cmd popen command desc ≡ some (desc ++ (c ∷ cs))
unfolding execute_cat_cmd
execute_cat_cmd_lem popen command desc c cs e h =
    rw (e, execute_cat_cmd) (rw (read_pipe_whole (length (c ∷ cs)) 1022 (c ∷ cs) h (omega arith)))
