-- ===== src/Tests.antt =====
-- Runs of the model on concrete inputs.
mod Text
mod Websocket
mod Manager
mod Route
mod Http
mod Server
mod Tcp
mod Epoll
mod Variant
mod Older
mod Service
mod Threads
mod Programs
mod OlderServer
mod OlderService
mod Experiments
mod Forward
mod Polling
mod Crashes
