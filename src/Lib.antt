-- ===== src/Lib.antt =====
-- A model of simple_server, a small HTTP and WebSocket server, with the theorems that hold of it.
--
-- The program's parts and the files that model them:
--   Text         the string functions of includes/string_utils.h (replace_all in Text/Replace,
--                to_lower_case and split_words in Text/Words), and what the program uses of
--                std::string, std::getline, std::to_string and std::unordered_map
--   Files        read_text_file, list_dir and str_to_byte_array of includes/io_utils.h
--   Socket       the results of `recv`, and code that reads a connection and may give up
--   Watching     what a loop over polled descriptors promises: a bag of watched descriptors, which
--                Tcp/Poll/Refine and Older/Connections/Refine implement
--   Http         src/http_handler.cpp and includes/http_handler.h: the enumerations and their texts
--                (Http/Codes), http_response (Http/Response), parse_headers (Http/Headers), the
--                parts of a request (Http/Request), the choice of an endpoint (Http/Route), and
--                handle_connection_request with received_str (Http/Server)
--   Websocket    src/websocket_handler.cpp and includes/websocket_handler.h: the two Base64 encoders
--                (Websocket/Base64), read_frame and send_frame (Websocket/Frame and
--                Websocket/Wrapper), and websocket_manager (Websocket/Manager)
--   Tcp          src/tcp_poll_handler.cpp: the loop over the polled descriptors (Tcp/Poll) and the
--                loop of its rounds (Tcp/Poll/Runs), src/tcp_epoll_handler.cpp: the set-up and the
--                loop over the events (Tcp/Epoll), and src/tcp_default_handler.cpp: the set-up, the
--                accept loop and the work of a thread (Tcp/Default)
--   Variant      the tagged union of includes/variant.h, with the lifetimes of its objects
--   Service      the poll loop, the HTTP handler and the WebSocket manager put together
--   Older        the older version of the library, in the namespace simple_server:
--                src/base/simple_server_utils.cpp (Older/Texts for the functions on texts, and
--                Older/System for those that call the system), src/http/simple_server_http.cpp
--                (Older/Listening and Older/Server),
--                src/http/simple_server_http_connection.cpp (Older/Response and Older/Constants),
--                and src/websocket/simple_server_websocket_connection.cpp (Older/Frames,
--                Older/Message, Older/Objects, Older/Connections, Older/Threads for the threads
--                that add connections, and Older/Polling for these with the thread that polls).
--                Older/Service is the server as a whole. Where its code is that of the current
--                version, the definition is that of the current version under its own name
--   Programs     the routes of sample/main.cpp (Programs/Assets) and of src/main.cpp
--                (Programs/Hello)
--   Experiments  the Base64 encoder of experiments/cppws/base64.cpp (Experiments/Encoder), the
--                echo server of experiments/cppws/cppws.cpp (Experiments/Echo), the forwarding
--                server of experiments/epoll_select.cpp (Experiments/Forward), and the programs
--                of experiments/pass_client.cpp and pass_master_server.cpp, which hand
--                descriptors on (Experiments/Passing)
--   Tests        runs of the model on concrete inputs
--
-- How they interact: the poll handler of Tcp accepts a connection and passes it to
-- handle_connection_request of Http/Server, which either registers it with websocket_manager or
-- answers it. A later message on a connection goes to notify_message_request of Websocket/Manager,
-- which reads a frame and sends it on to every registered connection; Service carries the calls of
-- the loop out. The epoll handler answers every connection by itself, with a numbered text. In the
-- older version every connection has a thread, which answers it or adds it to the vectors that
-- another thread polls.
--
-- How the code is modelled: a byte string is a list of numbers below 256. A function that changes
-- an object takes its state and returns the new one. What the program does to the outside is part of
-- its result: the bytes sent with their connection, the descriptors closed, the calls made. What
-- comes from the outside is an argument: the list of the results of `recv`, the file system
-- (FileSystem), the answers of the system to the calls in a round of the loop (System), the
-- callbacks of the routes. Code that is not in the repository, or that is a copy of a third party's, is a parameter
-- as well: std::regex_match (Regex) and the digest of the SHA1 class (Sha1). An exception, and an
-- operation for which the language defines no behaviour, is the result `none`. The order of an
-- std::unordered_map is that of its list of entries.
--
-- Bounds and fuel: replace_all runs on fuel, and any fuel above the length of the text is enough
-- for a pattern that is not empty. A round of the loop over the polled descriptors has as fuel the
-- number of entries and of entries with input, which is enough for every vector; a round of the
-- older library has the number of entries. The loop over the output of a command has the length of
-- the output. to_decimal has as fuel its argument and one, which bounds the number of its digits.
-- The call of a websocket_connection with a message loops on fuel that its caller chooses. The echo
-- server of the experiments has one round for each line and each message, and one more; any fuel
-- above the number of results of recv is enough. All other functions recurse on their data. A
-- payload length is read into 64 bits. The counter of the epoll handler is an `int`: increasing it
-- behind 2^31 - 1 is `none`. The loop of base64_encode counts in 32 bits (base64_loop); for 2^32
-- bytes or more it does not end, and for fewer it gives, with any fuel above their number, what
-- base64_encode of the model returns. The endless loops of the handlers run over the list of what
-- happens in their rounds.
--
-- Not modelled: what the older version's polling thread, which takes no mutex, does to a vector
-- that another thread writes at the same time, for which the language defines no behaviour (its
-- steps are taken whole); get<T> of the variant, which no types can instantiate but equal ones; the
-- container of includes/simple_server/base/simple_server_thread_container.h, which is disabled; the
-- exception of an allocation that fails, such as that of a payload of the length that a frame
-- announces; that send may take only a part of its bytes, or end the program by a signal where the
-- peer has gone; what std::tolower gives for a negative char, taken to be that char (Text/Words);
-- the polling thread in Older/Threads, which models the threads that add connections only (it is in
-- Older/Polling); logging, the copies of SHA1, the drafts in experiments/exwebsocket, the tests and
-- third-party code.
pub mod Prelude
pub mod Text
pub mod Files
pub mod Socket
pub mod Watching
pub mod Http
pub mod Websocket
pub mod Tcp
pub mod Variant
pub mod Older
pub mod Service
pub mod Programs
pub mod Experiments
pub mod Tests
