-- ===== src/Older/System.antt =====
-- The functions of src/base/simple_server_utils.cpp that call the operating system: files, the
-- interfaces of the network, and the output of commands. What the system answers is a parameter.
pub mod Pipes
pub mod Interfaces
use simple_server.Prelude.{ℕ, Bool, Option, none, some, ◌++◌, Bytes, codes, length}
use simple_server.Text.Decimal.{to_decimal}
use simple_server.Text.Lines.{lines, unlines}
use simple_server.Older.Listening.{
  ServerStatus, creating_socket, binding_socket, setting_options, listening, accepting,
}

-- The file system: what a file holds, whether `stat` succeeds, and the directory of `getcwd`, which
-- is none where the name does not fit the buffer.
pub record Disk : Type 0 where
  pub open_file : Bytes → Option Bytes
  pub stat : Bytes → Bool
  pub getcwd : Option Bytes

module _ (disk : Disk) where
  unfoldable pub read_whole_file : Bytes → Bytes
  read_whole_file src = elim (disk.open_file src) [
    | none ↦ codes "THIS FILE COULD NOT BE OPENED ." ++ src
    | some content ↦ unlines (lines content)
  ]

  unfoldable pub read_assets_from : Bytes → Bytes → Bytes
  unfolding read_whole_file
  read_assets_from path assets_name = read_whole_file (path ++ (codes "/" ++ assets_name))

  unfoldable pub check_if_path_exist : Bytes → Bool
  check_if_path_exist path = disk.stat path

  unfoldable pub get_working_directory : Bytes
  get_working_directory = elim disk.getcwd [
    | none ↦ codes "get_working_directory: error"
    | some cwd ↦ cwd
  ]

-- `int`
pub data ℤ : Type 0 where
  pos negsuc : ℕ → ℤ

-- Nothing is sent, and the result is always -999.
unfoldable pub send_data_set : ℕ → Bytes → ℕ → ℕ → ℤ
send_data_set fd buffer len opt = negsuc 998

unfoldable pub send_buffer : ℕ → Bytes → ℤ
unfolding send_data_set
send_buffer fd buffer = send_data_set fd buffer (length buffer) 0

-- What is printed for the status of a descriptor, with the number of a line.
unfoldable pub print_error_of_descriptor : ServerStatus → ℕ → Bytes
print_error_of_descriptor status line =
    message_of status ++ (codes " " ++ (to_decimal line ++ codes "\r\n"))
  where
    message_of : ServerStatus → Bytes
    message_of creating_socket = codes "Error creating the socket"
    message_of binding_socket = codes "Error binding the socket"
    message_of setting_options = codes "Error setting options the socket"
    message_of listening = codes "Error listening call the socket"
    message_of accepting = codes "Error Accepting the client socket"
    message_of _ = codes "Error in the socket"
