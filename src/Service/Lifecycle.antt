-- ===== src/Service/Lifecycle.antt =====
-- How calls and polls move the state of the server: src/service/layers.rs and src/service.rs.
pub mod Gate
pub mod Races
pub mod Moves
