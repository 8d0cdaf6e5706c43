-- ===== src/Server/Authz.antt =====
-- crates/naatre-server/src/authz.rs: the matcher of a token's path scope.
pub mod Segments
use naatre.Prelude.{
  Bool, true, false, ◌||◌, Option, none, some, [], ◌∷◌, Bytes, bytes_eq, ◌==◌, if◌then◌else◌,
}
use naatre.Core.Path.{starts_with, slash}
use naatre.Core.Text.{strip_prefix}

-- `is_some_and(|rest| rest.starts_with('/'))`
unfoldable pub goes_on : Option Bytes → Bool
goes_on none = false
goes_on (some rest) = starts_with rest slash

unfoldable pub scope_allows : Option Bytes → Bytes → Bool
scope_allows none path = true
scope_allows (some prefix) path = bytes_eq path prefix || goes_on (strip_prefix path prefix)
