-- ===== src/Updater/Shell.antt =====
-- The commands that src/updater.cpp gives to the shell: `escape_shell_arg`, `is_safe_url`,
-- `find_curl_executable`, and the commands of `execute_curl` and `download_asset`.
use torrent_builder.Common.{
  ℕ, ◌+◌, ◌*◌, Bytes, List, [], ◌∷◌, ◌++◌, map, Bool, true, false, not, ◌&&◌, ◌||◌, ltb, leb, ◌==◌,
  if◌then◌else◌, Option, none, some, value_or, Result, ok, err, codes, length, take, bytes_eq, all,
  any, isdigit, to_string,
}

-- The rounds of the loop of `escape_shell_arg`.
unfoldable pub quoted : Bytes → Bytes
quoted [] = []
quoted (c ∷ arg) = (if c == b'\'' then codes "'\\''" else c ∷ []) ++ quoted arg

unfoldable pub escape_shell_arg : Bytes → Bytes
unfolding quoted
escape_shell_arg arg = codes "'" ++ (quoted arg ++ codes "'")

-- `escape_batch_path`, for the scripts on Windows.
unfoldable pub escape_batch_path : Bytes → Bytes
escape_batch_path [] = []
escape_batch_path (c ∷ path) =
    (if c == b'"' then codes "\"\"" else if c == b'%' then codes "%%" else c ∷ [])
    ++ escape_batch_path path

abbrev pub safe_chars : Bytes
safe_chars = codes "abcdefghijklmnopqrstuvwxyzABCDEFGHIJKLMNOPQRSTUVWXYZ0123456789:/.-_~?=%+@&"

-- `std::isxdigit`
abbrev pub isxdigit : ℕ → Bool
isxdigit c = isdigit c || ((leb b'a' c && leb c b'f') || (leb b'A' c && leb c b'F'))

-- The loop over the percent signs.
unfoldable pub percent_ok : Bytes → Bool
percent_ok [] = true
percent_ok (c ∷ []) = not (c == b'%')
percent_ok (c ∷ a ∷ []) = not (c == b'%') && percent_ok (a ∷ [])
percent_ok (c ∷ a ∷ b ∷ url) = elim (c == b'%') [
  | true ↦ (isxdigit a && isxdigit b) && percent_ok url
  | false ↦ percent_ok (a ∷ b ∷ url)
]

unfoldable pub is_safe_url : Bytes → Bool
unfolding percent_ok
is_safe_url url =
    not (ltb (length url) 9 || not (bytes_eq (take 8 url) (codes "https://")))
    && (all (λ c. any (λ d. d == c) safe_chars) url && percent_ok url)

-- The candidates in the source's order, with the directories of PATH behind them.
unfoldable pub curl_candidates : Option (List Bytes) → List Bytes
curl_candidates dirs =
    codes "/usr/bin/curl"
    ∷ codes "/usr/local/bin/curl"
    ∷ codes "/opt/homebrew/bin/curl"
    ∷ map (λ dir. dir ++ codes "/curl") (value_or dirs [])

unfoldable pub first_existing : (Bytes → Bool) → List Bytes → Bytes
first_existing exists [] = codes "curl"
first_existing exists (c ∷ cs) = let rest = first_existing exists cs in if exists c then c else rest

-- The path, and the cache behind the call, which holds what was found by an earlier one. The
-- directories are the parts of PATH between colons, where it is set.
unfoldable pub find_curl_executable :
    (Bytes → Bool) → Option (List Bytes) → Option Bytes → Bytes × Option Bytes
unfolding curl_candidates first_existing
find_curl_executable exists dirs (some cached) = (cached, some cached)
find_curl_executable exists dirs none =
    let path = first_existing exists (curl_candidates dirs) in (path, some path)

-- `" " + escape_shell_arg(arg)` for each argument.
unfoldable pub append_args : List Bytes → Bytes
append_args [] = []
append_args (arg ∷ args) = (b' ' ∷ escape_shell_arg arg) ++ append_args args

unfoldable pub curl_command : Bytes → Bytes → List Bytes → Bytes
unfolding append_args
curl_command curl_path url extra_args =
    escape_shell_arg curl_path
    ++ (codes " -s -S -L --connect-timeout 30 --max-time 300 --proto =https"
        ++ (append_args extra_args ++ (b' ' ∷ escape_shell_arg url)))

-- `run` stands for popen and pclose: the output, or the status that is not 0.
unfoldable pub execute_curl :
    (Bytes → Result ℕ Bytes) → Bytes → Bytes → List Bytes → Result Bytes Bytes
execute_curl run curl_path url extra_args =
    if not (is_safe_url url)
    then err (codes "Unsafe URL rejected: " ++ url)
    else (elim (run (curl_command curl_path url extra_args)) [
      | ok output ↦ ok output
      | err status ↦ err (
          codes "curl request failed with status "
          ++ (to_string status ++ (codes " for URL: " ++ url)))
    ])

-- The option with the limit on the size.
unfoldable pub max_filesize : ℕ → Bytes
max_filesize expected_size =
    if ltb 0 expected_size
    then codes " --max-filesize " ++ to_string (expected_size + 1024 * 1024)
    else []

unfoldable pub download_command : Bytes → Bytes → Bytes → ℕ → Bytes
unfolding max_filesize
download_command curl_path url dest_path expected_size =
    escape_shell_arg curl_path
    ++ (codes " -s -S -L --fail --connect-timeout 30 --max-time 300 --proto =https -o "
        ++ (escape_shell_arg dest_path
            ++ (max_filesize expected_size ++ (b' ' ∷ escape_shell_arg url))))
