-- ===== src/Tests.antt =====
-- The theorems at concrete inputs.
mod Buffers
mod Commands
mod Runs
mod Lines
mod Requests
mod Caches
mod Names
mod Server
mod Rounds
mod Answers
mod Pool
mod Workers
mod Points
mod Processes
mod Sockets
mod Texts
mod Keys
