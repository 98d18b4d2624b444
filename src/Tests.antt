-- ===== src/Tests.antt =====
-- Runs on a cluster in memory, and each theorem at a concrete input.
mod Memory
mod Overcommits
mod Apps
mod Environments
mod Stacks
mod Catalogs
mod Backings
mod Hubs
mod Twins
mod Https
mod Streams
mod Entries
mod Waiting
mod Lagging
