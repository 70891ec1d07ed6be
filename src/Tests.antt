-- ===== src/Tests.antt =====
-- Sample states and runs of the peer service at concrete inputs.
mod Samples
mod Clocks
mod Roles
mod Media
mod Playlists
mod Joining
mod Service
mod Starting
mod Scenarios
