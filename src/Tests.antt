-- ===== src/Tests.antt =====
-- Runs of the code on concrete values, one module per part.
pub mod States
mod Checksum
mod Receiving
mod Logic
mod Pools
mod Sending
mod Timing
mod Configuring
mod Accepting
mod Threading
mod Polling
mod Logging
mod Listening
mod Cycling
mod Working
mod Locking
mod Processes
mod Serving
mod Creating
mod Stopping
