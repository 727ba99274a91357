-- ===== src/Tcp.antt =====
-- The connection handlers: src/tcp_poll_handler.cpp, src/tcp_epoll_handler.cpp and
-- src/tcp_default_handler.cpp.
pub mod Poll
pub mod Epoll
pub mod Default
