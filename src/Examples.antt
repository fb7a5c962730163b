-- ===== src/Examples.antt =====
-- The theorems at concrete inputs: a configuration with two upstreams, and hosts for the relay.
mod Data
mod Saving
mod Wire
mod Relay
mod Console
mod Start
mod Running
mod Shell
mod Streaming
mod Maps
mod Server
mod Edges
