-- ===== src/Tests.antt =====
-- Concrete inputs, and the theorems of the library applied to them.
mod Values
mod Wire
mod Config
mod Files
mod Guard
mod Queues
mod Links
mod Transfers
mod Relay
mod Pairing
mod Kept
mod SendFile
mod Finish
mod Known
mod Mcp
mod Ipc
mod Command
