-- ===== src/Examples.antt =====
-- Runs at concrete inputs: two ends with ciphers that are easy to compute, streams of packets, log
-- lines, and the messages of SOCKS5.
pub mod Ends
pub mod Streams
pub mod Messages
pub mod Sessions
pub mod Arrivals
pub mod Branches
pub mod Tunnels
pub mod Queues
pub mod Stores
pub mod Handshakes
pub mod Ciphers
pub mod Codecs
pub mod Configs
pub mod Programs
pub mod Outputs
pub mod Carries
pub mod Servers
pub mod Connects
