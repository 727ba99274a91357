-- ===== src/Tcp/Epoll.antt =====
-- `tcp_epoll_handler` of src/tcp_epoll_handler.cpp: the set-up of the listening socket with its error
-- paths, the loop over the events that `epoll_wait` returned, and the loop of its rounds. What the
-- system calls return is an argument; the calls that the code makes of the system are the result.
pub mod Rounds
use simple_server.Prelude.{
  ℕ, suc, ◌-◌, ◌^◌, ltb, Bool, true, false, Option, none, some, List, [], ◌∷◌, ◌++◌, Bytes, codes,
  length, ◌==◌, if◌then◌else◌,
}
use simple_server.Socket.{Received}
use simple_server.Text.Decimal.{to_decimal}

pub data TcpHandlerStatus : Type 0 where
  ok error : TcpHandlerStatus

pub data Call : Type 0 where
  close : ℕ → Call
  set_non_blocking : ℕ → Call
  enable_keep_alive : ℕ → Call
  epoll_ctl_add : ℕ → Call
  epoll_ctl_del : ℕ → Call
  send : ℕ → Bytes → Call

-- Whether each call of `create_server` succeeds, and the descriptors that it gives.
pub record Setup : Type 0 where
  pub socket : Option ℕ
  pub bind : Bool
  pub listen : Bool
  pub epoll_create : Option ℕ
  pub epoll_ctl : Bool

unfoldable pub register_server : Bool → ℕ → ℕ → TcpHandlerStatus × List Call
register_server true server_fd epoll_fd = (ok, epoll_ctl_add server_fd ∷ [])
register_server false server_fd epoll_fd =
    (error, epoll_ctl_add server_fd ∷ close server_fd ∷ close epoll_fd ∷ [])

unfoldable pub start_epoll : Setup → ℕ → TcpHandlerStatus × List Call
unfolding register_server
start_epoll setup server_fd = elim setup.epoll_create [
  | none ↦ (error, close server_fd ∷ [])
  | some epoll_fd ↦ register_server setup.epoll_ctl server_fd epoll_fd
]

abbrev pub behind_calls : List Call → TcpHandlerStatus × List Call → TcpHandlerStatus × List Call
behind_calls calls (status, more) = (status, calls ++ more)

unfoldable pub create_server : Setup → TcpHandlerStatus × List Call
unfolding start_epoll
create_server setup = elim setup.socket [
  | none ↦ (error, [])
  | some server_fd ↦ behind_calls (set_non_blocking server_fd ∷ enable_keep_alive server_fd ∷ []) (
      if setup.bind
      then (if setup.listen then start_epoll setup server_fd else (error, close server_fd ∷ []))
      else (error, close server_fd ∷ []))
]

-- An event, with what the calls that it leads to return: `accept` and `epoll_ctl` if it is one of
-- the listening socket, `recv` and `errno` otherwise.
pub record Event : Type 0 where
  pub fd : ℕ
  pub accepted : Option ℕ
  pub added : Bool
  pub received : Received
  pub would_block : Bool

unfoldable pub response : ℕ → Bytes
response count =
    let body = codes "Hola eres el numero==>" ++ to_decimal count in
    codes "HTTP/1.1 200 OK\r\n"
    ++ (codes "Content-Type: text/plain\r\n"
        ++ (codes "Content-Length: "
            ++ (to_decimal (length body)
                ++ (codes "\r\n" ++ (codes "Connection: close\r\n\r\n" ++ body)))))

-- The counter `count` and the calls that were made.
abbrev pub State : Type 0
State = ℕ × List Call

unfoldable pub accept_client : Event → List Call
accept_client e = elim e.accepted [
  | none ↦ []
  | some client_fd ↦
      set_non_blocking client_fd
      ∷ enable_keep_alive client_fd
      ∷ epoll_ctl_add client_fd
      ∷ (if e.added then [] else close client_fd ∷ [])
]

-- `close(fd); epoll_ctl(epoll_fd, EPOLL_CTL_DEL, fd, nullptr);`
abbrev pub drop_client : ℕ → List Call
drop_client fd = close fd ∷ epoll_ctl_del fd ∷ []

-- The greatest `int`: `++count` has no result behind it.
abbrev pub max_int : ℕ
max_int = 2 ^ 31 - 1

unfoldable pub read_client : ℕ → Bool → Received → ℕ → Option State
read_client fd would_block none count = some (count, if would_block then [] else drop_client fd)
read_client fd would_block (some []) count = some (count, drop_client fd)
read_client fd would_block (some (b ∷ bs)) count =
    if ltb count max_int
    then some (suc count, send fd (response (suc count)) ∷ drop_client fd)
    else none

unfoldable pub handle_event : ℕ → Event → ℕ → Option State
unfolding accept_client read_client
handle_event server_fd e count =
    if e.fd == server_fd
    then some (count, accept_client e)
    else read_client e.fd e.would_block e.received count

abbrev pub behind : List Call → Option State → Option State
behind calls none = none
behind calls (some (count, more)) = some (count, calls ++ more)

-- The code behind a state, which starts with its counter.
abbrev pub go_on : Option State → (ℕ → Option State) → Option State
go_on none later = none
go_on (some (count, calls)) later = behind calls (later count)

-- The loop over the events; `none` where the language defines no behaviour.
unfoldable pub handle_events : ℕ → List Event → ℕ → Option State
unfolding handle_event
handle_events server_fd [] count = some (count, [])
handle_events server_fd (e ∷ es) count =
    go_on (handle_event server_fd e count) (λ next. handle_events server_fd es next)

-- The outer loop, for the events of each of its rounds: where `epoll_wait` fails, the loop ends.
unfoldable pub accept_and_process_message : ℕ → List (Option (List Event)) → ℕ → Option State
unfolding handle_events
accept_and_process_message server_fd [] count = some (count, [])
accept_and_process_message server_fd (none ∷ rounds) count = some (count, [])
accept_and_process_message server_fd (some events ∷ rounds) count =
    go_on (handle_events server_fd events count)
      (λ next. accept_and_process_message server_fd rounds next)

-- The callback that `set_incomming_connection_handler` sets is called by this function only, and
-- nothing calls it.
unfoldable pub handle_incomming_connection : {A : Type 0} → Option (ℕ → List A) → ℕ → List A
handle_incomming_connection none fd = []
handle_incomming_connection (some callback) fd = callback fd
