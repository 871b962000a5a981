-- ===== src/Modifier.antt =====
-- The modifier: src/torrent_modifier.cpp and include/torrent_modifier.hpp. Logging and printing are left
-- out.
pub mod Bencode
pub mod Trackers
pub mod Apply
pub mod Urls
pub mod Removal
pub mod Frame
pub mod Laws
pub mod Kept
pub mod Untouched
pub mod Saved
pub mod Association
mod Examples
use torrent_builder.Common.{Bytes, List, Bool, Option}

pub record ModifyConfig : Type 0 where
  pub input : Bytes
  -- empty for a modification in place
  pub output : Bytes
  pub trackers : Option (List Bytes)
  pub add_trackers : List Bytes
  pub remove_trackers : List Bytes
  pub is_private : Option Bool
  pub source : Option Bytes
  pub comment : Option Bytes
  pub name : Option Bytes
  pub entropy : Bool
  pub dry_run : Bool
