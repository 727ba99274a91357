-- ===== src/Older/Listening.antt =====
-- `create_socket` of the older http_server, in src/http/simple_server_http.cpp.
use simple_server.Prelude.{◌≡◌, ◌↔◌, Bool, true, false, arith, if◌then◌else◌}

-- `server_status` of includes/simple_server/base/simple_server_definitions.h
pub data ServerStatus : Type 0 where
  no_started_yet starting running creating_socket binding_socket setting_options listening accepting
        error_or_exception :
      ServerStatus

-- Which system calls succeed.
pub record Calls : Type 0 where
  pub socket : Bool
  pub bind : Bool
  pub listen : Bool

unfoldable pub create_socket_fd : Calls → ServerStatus
create_socket_fd calls = if calls.socket then starting else creating_socket

abbrev pub is_starting : ServerStatus → Bool
is_starting starting = true
is_starting _ = false

-- The status of the server socket behind the call.
unfoldable pub create_socket : Calls → ServerStatus
unfolding create_socket_fd
create_socket calls =
    if is_starting (create_socket_fd calls)
    then (if calls.bind then (if calls.listen then running else listening) else binding_socket)
    else error_or_exception

-- The server runs exactly if all of its system calls succeed.
pub create_socket_running :
    (calls : Calls)
    → (create_socket calls ≡ running)
      ↔ ((calls.socket ≡ true) × (calls.bind ≡ true) × (calls.listen ≡ true))
unfolding create_socket create_socket_fd
create_socket_running calls = ground arith
