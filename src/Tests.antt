-- ===== src/Tests.antt =====
-- The theorems at concrete inputs, and tests of the definitions.
mod World
mod Opening
mod Specs
mod Certs
mod Sharing
mod Watching
mod Peeking
mod Inputs
mod Layers
mod Registering
mod Forwarding
mod Serving
mod Managing
mod Running
mod Aggregating
mod Timing
