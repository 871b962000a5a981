-- ===== src/Updater/Release.antt =====
-- What src/updater.cpp reads of a release: the assets and the checksums.
use torrent_builder.Common.{
  ℕ, suc, ◌+◌, ◌*◌, Bytes, List, [], ◌∷◌, ◌++◌, Bool, true, false, not, ◌&&◌, ◌||◌, ltb, ◌==◌,
  if◌then◌else◌, Option, none, some, Result, ok, err, ◌>>=◌, is_empty, codes, bytes_eq, take, drop,
}
use torrent_builder.Text.{to_lower, ends_with, starts_with, find_byte}
use torrent_builder.Version.{Sign, compare_versions}

-- What the updater uses of nlohmann::json. An error is the text of an exception.
pub record Json : Type 1 where
  pub Value : Type 0
  pub parse : Bytes → Option Value
  pub contains : Value → Bytes → Bool
  -- The elements of a field that is an array; none where it is not there or is no array.
  pub array : Value → Bytes → Option (List Value)
  -- `j.value(key, "")` and `j.value(key, 0)`.
  pub text_value : Value → Bytes → Result Bytes Bytes
  pub size_value : Value → Bytes → Result Bytes ℕ

pub record PlatformInfo : Type 0 where
  pub os : Bytes
  pub arch : Bytes

-- The end of the name of the platform's asset.
unfoldable pub asset_suffix : PlatformInfo → Bytes
asset_suffix platform =
    let suffix = codes "_" ++ (platform.os ++ (codes "_" ++ platform.arch)) in
    if bytes_eq platform.os (codes "windows")
    then suffix ++ codes ".exe"
    else if bytes_eq platform.os (codes "macos")
    then suffix ++ codes ".zip"
    else suffix

module _ (json : Json) where
  -- The loop over the assets.
  unfoldable pub matching_url : Bytes → List json.Value → Result Bytes (Option Bytes)
  matching_url suffix [] = ok none
  matching_url suffix (asset ∷ assets) = do
    name ← json.text_value asset (codes "name")
    elim (ends_with name suffix) [
      | false ↦ matching_url suffix assets
      | true ↦ json.text_value asset (codes "browser_download_url") >>= (λ url.
          elim (is_empty url) [ true ↦ matching_url suffix assets | false ↦ ok (some url) ])
    ]

  unfoldable pub find_matching_asset_from_json :
      json.Value → PlatformInfo → Result Bytes (Option Bytes)
  unfolding matching_url asset_suffix
  find_matching_asset_from_json j platform = elim (json.array j (codes "assets")) [
    | none ↦ ok none
    | some assets ↦ matching_url (asset_suffix platform) assets
  ]

  unfoldable pub find_matching_asset : Bytes → PlatformInfo → Result Bytes (Option Bytes)
  unfolding find_matching_asset_from_json
  find_matching_asset release_json platform = elim (json.parse release_json) [
    | none ↦ ok none
    | some j ↦ find_matching_asset_from_json j platform
  ]

  unfoldable pub size_of : Bytes → List json.Value → Result Bytes ℕ
  size_of asset_url [] = ok 0
  size_of asset_url (asset ∷ assets) = do
    url ← json.text_value asset (codes "browser_download_url")
    elim (bytes_eq url asset_url) [
      | true ↦ json.size_value asset (codes "size")
      | false ↦ size_of asset_url assets
    ]

  unfoldable pub get_asset_size : json.Value → Bytes → Result Bytes ℕ
  unfolding size_of
  get_asset_size release_json asset_url = elim (json.array release_json (codes "assets")) [
    | none ↦ ok 0
    | some assets ↦ size_of asset_url assets
  ]

  -- The loop of `fetch_checksums`, where `execute` stands for `execute_curl`.
  unfoldable pub checksums_of :
      (Bytes → Result Bytes Bytes) → List json.Value → Result Bytes (Option Bytes)
  checksums_of execute [] = ok none
  checksums_of execute (asset ∷ assets) = do
    name ← json.text_value asset (codes "name")
    elim (bytes_eq name (codes "checksums.txt")) [
      | false ↦ checksums_of execute assets
      | true ↦ json.text_value asset (codes "browser_download_url") >>= (λ url.
          if is_empty url
          then ok none
          else (elim (execute url) [ ok text ↦ ok (some text) | err e ↦ ok none ]))
    ]

  unfoldable pub fetch_checksums :
      (Bytes → Result Bytes Bytes) → json.Value → Result Bytes (Option Bytes)
  unfolding checksums_of
  fetch_checksums execute release_json = elim (json.array release_json (codes "assets")) [
    | none ↦ ok none
    | some assets ↦ checksums_of execute assets
  ]

-- The lines of a text, as `std::getline` reads them: no line behind a last line break.
unfoldable pub lines_from : Bytes → Bytes → List Bytes
lines_from line [] = if is_empty line then [] else line ∷ []
lines_from line (c ∷ s) =
    let further = lines_from [] s in
    let longer = lines_from (line ++ c ∷ []) s in if c == b'\n' then line ∷ further else longer

-- `s.erase(0, s.find_first_not_of(" \t"))`
unfoldable pub skip_blanks : Bytes → Bytes
skip_blanks [] = []
skip_blanks (c ∷ s) =
    let rest = skip_blanks s in if (c == b' ') || (c == b'\t') then rest else c ∷ s

-- `s.erase(s.find_last_not_of(" \t\r\n") + 1)`
unfoldable pub cut_blanks : Bytes → Bytes
cut_blanks [] = []
cut_blanks (c ∷ s) =
    let rest = cut_blanks s in
    if is_empty rest && ((c == b' ') || ((c == b'\t') || ((c == b'\r') || (c == b'\n'))))
    then []
    else c ∷ rest

-- The star that marks a binary file is dropped.
unfoldable pub skip_star : Bytes → Bytes
skip_star [] = []
skip_star (c ∷ s) = if c == b'*' then s else c ∷ s

-- The hash and the name of a line, none where it has no blank.
unfoldable pub checksum_line : Bytes → Option (Bytes × Bytes)
unfolding skip_blanks cut_blanks skip_star
checksum_line line = elim (find_byte b' ' line) [
  | none ↦ none
  | some space_pos ↦
      some (take space_pos line, cut_blanks (skip_blanks (skip_star (drop (suc space_pos) line))))
]

-- The loop of `lookup_checksum`.
unfoldable pub checksum_in : List Bytes → Bytes → Option Bytes
checksum_in [] asset_name = none
checksum_in (line ∷ lines) asset_name = elim (checksum_line line) [
  | none ↦ checksum_in lines asset_name
  | some (hash, name) ↦ elim (bytes_eq name asset_name) [
    | true ↦ some (to_lower hash)
    | false ↦ checksum_in lines asset_name
  ]
]

unfoldable pub lookup_checksum : Bytes → Bytes → Option Bytes
unfolding lines_from checksum_line checksum_in
lookup_checksum checksums_content asset_name =
    checksum_in (lines_from [] checksums_content) asset_name

-- `size` is none where the file cannot be read.
unfoldable pub verify_downloaded_file : Option ℕ → ℕ → Bool
verify_downloaded_file none expected_size = false
verify_downloaded_file (some size) expected_size =
    not (size == 0) && not (ltb 0 expected_size && not (size == expected_size))

-- `sha256` is the result of `compute_sha256`, which is empty where it fails.
unfoldable pub verify_checksum : Bytes → Bytes → Bool
verify_checksum sha256 expected_hash =
    not (is_empty sha256) && bytes_eq sha256 (to_lower expected_hash)

-- The magic numbers of ELF, of Windows and of Mach-O; `contents` is none where the file cannot be
-- opened.
unfoldable pub is_binary : Bytes → Bool
is_binary (a ∷ b ∷ c ∷ d ∷ rest) =
    let m = a + b * 256 + c * 65536 + d * 16777216 in
    ((a == 0x7f) && ((b == b'E') && ((c == b'L') && (d == b'F'))))
    || (((a == b'M') && (b == b'Z'))
        || ((m == 0xfeedface) || ((m == 0xcefaedfe) || ((m == 0xfeedfacf) || (m == 0xcffaedfe)))))
is_binary contents = false

unfoldable pub is_valid_binary : Option Bytes → Bool
unfolding is_binary
is_valid_binary none = false
is_valid_binary (some contents) = is_binary contents

-- `info.version`: the tag without its first letter v.
unfoldable pub tag_version : Bytes → Bytes
tag_version [] = []
tag_version (c ∷ tag) = if (c == b'v') || (c == b'V') then tag else c ∷ tag

unfoldable pub is_dev : Bytes → Bool
is_dev current = bytes_eq current (codes "dev") || starts_with current (codes "dev (")

pub record UpdateCheckResult : Type 0 where
  pub fetch_succeeded : Bool
  pub info : Option Bytes

-- `check_for_update`, for the tag that the request gave or the exception that it threw; of the
-- information on the release, the version is kept.
unfoldable pub check_for_update : Result Bytes Bytes → Bytes → UpdateCheckResult
unfolding tag_version is_dev
check_for_update (err e) current = record { fetch_succeeded = false; info = none }
check_for_update (ok tag) current =
    let version = tag_version tag in
    let is_older : Bool = elim (compare_versions current version) [
      | Sign.negative ↦ true
      | _ ↦ false
    ] in
    if is_empty version
    then record { fetch_succeeded = true; info = none }
    else if is_dev current || is_older
    then record { fetch_succeeded = true; info = some version }
    else record { fetch_succeeded = true; info = none }
