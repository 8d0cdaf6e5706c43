-- ===== src/Server.antt =====
-- crates/naatre-server: the server's pure parts.
pub mod TreeDerive
pub mod Merge
pub mod Authz
pub mod LandJoin
pub mod Land
mod Examples
mod TreeExamples
mod LandJoinExamples
mod LandExamples
