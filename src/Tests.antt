-- ===== src/Tests.antt =====
-- Concrete inputs on which the development's theorems apply.
mod Protocol
mod Session
mod Token
mod Server
mod Agreement
mod Handshake
mod World
mod Client
mod Ffi
mod Link
mod Remote
mod Serving
mod Starting
mod Tasks
