-- ===== src/Tests.antt =====
-- The theorems at concrete inputs, and runs of the code on a scripted operating system.
mod Sample
mod Connections
mod Handshakes
mod Servers
mod Names
mod Forwarders
mod Macros
mod Rounds
mod Starts
mod Responses
mod Handover
