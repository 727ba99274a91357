-- ===== src/Older/Objects.antt =====
-- `websocket_connection` of src/websocket/simple_server_websocket_connection.cpp: its constructors
-- and assignments, and the calls that read messages.
use simple_server.Prelude.{
  ℕ, zero, suc, ◌≡◌, refl, sym, ap, ◌∙◌, Bool, true, false, Option, none, some, [], ◌∷◌, ◌++◌,
  Bytes, if◌then◌else◌, arith, inl, inr, Option-cases,
}
use simple_server.Socket.{Script}
use simple_server.Older.Frames.{read_frame_bytes, send_frame}
use simple_server.Older.Message.{message_to_string}
use simple_server.Websocket.Manager.{Sent}
use simple_server.Websocket.Wrapper.{read_frame_bytes_empty}

-- `websocket_message`; no code sets `type_of_message`, so that it is left out.
pub record Message : Type 0 where
  pub payload : Bytes
  pub connection : ℕ

-- What a callback sends; none is a `std::function` without a target.
abbrev pub Callback : Type 0
Callback = Option (Message → Sent)

pub record Connection : Type 0 where
  pub fd : ℕ
  pub id : ℕ
  pub counter : ℕ
  pub valid : Bool
  pub on_message_received : Callback

-- `websocket_connection(fd)`, with the value of `general_counter` before and behind the call.
unfoldable pub new_connection : ℕ → ℕ → Connection × ℕ
new_connection general_counter fd =
    let counter = suc general_counter in
    (
      record { fd = fd; id = counter; counter = counter; valid = true; on_message_received = none },
      counter,
    )

-- `operator=` of another object: `id` is not assigned.
unfoldable pub copy_assign : Connection → Connection → Connection
copy_assign self other = record self {
  fd = other.fd;
  counter = other.counter;
  valid = other.valid;
  on_message_received = other.on_message_received;
}

-- `operator=` of a temporary object, with what is left of it.
unfoldable pub move_assign : Connection → Connection → Connection × Connection
move_assign self other = (
  record self {
    fd = other.fd;
    counter = other.counter;
    valid = other.valid;
    on_message_received = other.on_message_received;
  },
  record other { fd = 0; counter = 0; valid = false; on_message_received = none },
)

-- What is done with a message: the callback gets it, or it is sent back as text.
abbrev pub deliver : Connection → Message → Sent
deliver c message = elim c.on_message_received [
  | some callback ↦ callback message
  | none ↦ (c.fd, send_frame (message_to_string message.payload)) ∷ []
]

abbrev read_result : Connection → Option Bytes → Option Sent
read_result c none = none
read_result c (some []) = some []
read_result c (some (b ∷ msg)) = some (deliver c (record { payload = b ∷ msg; connection = c.fd }))

-- `operator()()`; none is undefined, as in the wrapper of `read_frame`.
unfoldable pub call : Connection → Script → Option Sent × Script
call c script = let (msg, rest) = read_frame_bytes script in (read_result c msg, rest)

-- `operator()(message)`, on fuel: what is delivered is the argument, not what was read. The
-- callback gets a constant object, so that `valid` does not change.
unfoldable pub call_with : ℕ → Connection → Message → Script → Option Sent
call_with zero c message script = none
call_with (suc fuel) c message script =
    let (msg, rest) = read_frame_bytes script in
    let later = call_with fuel c message rest in if c.valid then read_on later msg else some []
  where
    after : Option Sent → Option Sent
    after none = none
    after (some sent) = some (deliver c message ++ sent)

    read_on : Option Sent → Option Bytes → Option Sent
    read_on later none = none
    read_on later (some []) = some []
    read_on later (some (b ∷ bytes)) = after later

-- `on_message`; the object that is returned is a copy.
unfoldable pub on_message : Callback → Callback → Callback
on_message onmessage_cb onmessage = onmessage

-- Assignment leaves the number of the assigned object alone and takes over the rest.
pub copy_assign-id :
    (self other : Connection)
    → ((copy_assign self other).id ≡ self.id)
      × ((copy_assign self other).counter ≡ other.counter)
      × ((move_assign self other).0 ≡ copy_assign self other)
unfolding copy_assign move_assign
copy_assign-id self other = (refl, refl, refl)

-- Where a call is defined, it delivers nothing: the wrapper of `read_frame` gives no bytes.
pub call-silent :
    (c : Connection) (script : Script) (sent : Sent) → (call c script).0 ≡ some sent → sent ≡ []
unfolding call
call-silent c script sent h = elim (Option-cases (read_frame_bytes script).0) [
  | inl e ↦ absurd (ground (arith, sym (ap (read_result c) e) ∙ h))
  | inr (bytes, e) ↦
      some-injective
        (sym h ∙ ap (read_result c) (e ∙ ap some (read_frame_bytes_empty script bytes e)))
]
  where
    some-injective : {x y : Sent} → some x ≡ some y → x ≡ y
    some-injective h = ground arith
