-- ===== src/Tests.antt =====
-- The theorems at concrete inputs, by the file of the program that they are about.
mod Queue
mod Devices
mod Passwords
mod Dedup
mod Rotations
mod Ledgers
mod Channels
mod Proxies
mod World
mod Logins
mod Cycles
mod Snapshots
mod Posts
mod Plans
