-- ===== src/Cli.antt =====
-- crates/naatre-cli: the command line client's pure parts.
pub mod Index
mod Examples
