-- ===== src/Examples.antt =====
-- Tests and the theorems at concrete values.
mod Data
mod Lists
mod Streams
mod Sessions
mod Packets
mod Transfers
mod Clients
mod Reaching
mod Crossing
mod Joining
mod Proxies
mod Starting
mod Linking
mod Tunnels
