-- ===== src/Tests.antt =====
-- The theorems about the gateway at concrete inputs.
mod Streams
mod Frames
mod Counters
mod Queues
mod Clients
mod Sessions
mod Settings
mod Advice
mod Requests
mod Parsing
mod Model
mod Whole
mod Lifecycle
