-- ===== src/Runs.antt =====
-- The theorems at concrete inputs, a module for each part.
mod Wire
mod Mux
mod Delta
mod Filter
mod Engine
mod Signatures
mod Tokens
mod Streaming
mod Delete
mod Codec
mod Handshake
