-- ===== src/Batch.antt =====
-- Batches: src/batch.cpp and include/batch.hpp. Logging and the time a job takes are left out.
pub mod Pool
pub mod Parse
pub mod Valid
pub mod Config
pub mod Execute
pub mod Laws
pub mod Built
pub mod Run
mod Examples
pub mod Kept
use torrent_builder.Common.{
  ℕ, ◌+◌, ◌-◌, ◌*◌, Bytes, List, [], ◌∷◌, ◌++◌, Bool, true, false, not, ◌&&◌, ◌||◌, ltb, leb, ◌==◌,
  if◌then◌else◌, Option, none, some, Result, ok, err, codes, to_string,
}
use torrent_builder.Yaml.{ℤ, pos, negsuc}
use torrent_builder.PieceSize.{allowed_piece_sizes, contains}
use torrent_builder.Preset.{ConfigValues}
use torrent_builder.Filter.{Item}

pub record BatchJob : Type 0 where
  pub path : Bytes
  pub output : Option Bytes
  pub preset : Option Bytes
  pub fail_on_season_warning : Bool
  pub values : ConfigValues

pub record BatchConfig : Type 0 where
  pub workers : ℤ
  pub preset_file : Option Bytes
  pub rules_file : Option Bytes
  pub output_dir : Option Bytes
  pub jobs : List BatchJob

pub record BatchResult : Type 0 where
  pub job_index : ℕ
  pub job_name : Bytes
  pub success : Bool
  pub error_message : Bytes

-- The bytes that a terminal shows: no control bytes.
unfoldable pub sanitize_for_terminal : Bytes → Bytes
sanitize_for_terminal [] = []
sanitize_for_terminal (c ∷ s) =
    let rest = sanitize_for_terminal s in if leb 0x20 c && not (c == 0x7f) then c ∷ rest else rest

-- `std::to_string` of an `int`.
unfoldable pub int_text : ℤ → Bytes
int_text (pos n) = to_string n
int_text (negsuc n) = codes "-" ++ to_string (n + 1)

-- The size in bytes; none stands for an automatic one.
unfoldable pub validate_piece_size : ℤ → Result Bytes (Option ℕ)
unfolding int_text
validate_piece_size (pos kb) =
    if kb == 0
    then ok none
    else if contains allowed_piece_sizes kb
    then ok (some (kb * 1024))
    else err (codes "Invalid piece size: " ++ int_text (pos kb) ++ codes " KB")
validate_piece_size (negsuc n) =
    err (codes "Invalid piece size: " ++ int_text (negsuc n) ++ codes " KB")

pub data TorrentVersion : Type 0 where
  v1 v2 hybrid : TorrentVersion

unfoldable pub resolve_version : ℤ → TorrentVersion
resolve_version (pos n) = if n == 1 then v1 else if n == 2 then v2 else hybrid
resolve_version (negsuc n) = hybrid

-- `TorrentConfig` of include/torrent_creator.hpp.
pub record TorrentConfig : Type 0 where
  pub path : Bytes
  pub output : Bytes
  pub trackers : List Bytes
  pub version : TorrentVersion
  pub comment : Option Bytes
  pub is_private : Bool
  pub web_seeds : List Bytes
  pub piece_size : Option ℕ
  pub target_piece_count : Option ℤ
  pub creator : Option Bytes
  pub name : Option Bytes
  pub include_creation_date : Bool
  pub source : Option Bytes
  pub entropy : Bool
  pub exclude_regex : List (List Item)
  pub include_regex : List (List Item)
  pub silent : Bool
