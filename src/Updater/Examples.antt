-- ===== src/Updater/Examples.antt =====
-- An update of one binary, and the theorems about the updater at it.
use torrent_builder.Common.{
  ◌≡◌, ◌≢◌, refl, Bytes, [], ◌∷◌, ◌++◌, true, false, none, some, ok, codes, bytes_eq, if◌then◌else◌,
}
use torrent_builder.Updater.Disk.{Disk, broken}
use torrent_builder.Updater.Swap.{
  get_old_binary_path, other_device, UpdateFate, RollbackFate, perform_update, perform_rollback,
}
use torrent_builder.Updater.Safe.{IsOver, started, perform_update-IsOver}
use torrent_builder.Updater.Success.{all_granted, perform_update-IsSwapped, perform_update-succeeds}
use torrent_builder.Updater.Rollback.{IsRolled, perform_rollback-IsRolled}
use torrent_builder.Updater.Shell.{curl_command}
use torrent_builder.Updater.Words.{between, sh_words, curl_options, curl_command-sh_words}
use torrent_builder.Updater.Release.{lookup_checksum}
use torrent_builder.Updater.Checksums.{checksum_file, first_hash, lookup_checksum-checksum_file}

abbrev current : Bytes
current = codes "/b/tb"

abbrev fresh : Bytes
fresh = codes "/b/new"

abbrev disk : Disk
disk path =
    if bytes_eq path current
    then some (codes "v1")
    else if bytes_eq path fresh
    then some (codes "v2")
    else none

-- The copy breaks off, and the backup is moved back.
abbrev broken_copy : UpdateFate
broken_copy = record all_granted { install = other_device; copy = broken (some (codes "v")) }

perform_update-IsOver_example :
    IsOver current
      (get_old_binary_path current)
      (codes "v1")
      (perform_update broken_copy fresh current (started disk))
perform_update-IsOver_example =
    perform_update-IsOver broken_copy fresh current disk (codes "v1") refl

other_path : fresh ≢ current
other_path e = cc

other_backup : fresh ≢ get_old_binary_path current
unfolding get_old_binary_path
other_backup e = cc

perform_update-succeeds_example :
    (perform_update all_granted fresh current (started disk)).1 ≡ ok tt
perform_update-succeeds_example =
    perform_update-succeeds fresh current disk (codes "v1") (codes "v2") other_path other_backup
      refl refl

perform_update-IsSwapped_example :
    let after = (perform_update all_granted fresh current (started disk)).0 in
    (after.disk current ≡ some (codes "v2"))
    × (after.disk (get_old_binary_path current) ≡ some (codes "v1"))
perform_update-IsSwapped_example =
    perform_update-IsSwapped all_granted fresh current disk (codes "v1") (codes "v2") other_path
      other_backup refl refl perform_update-succeeds_example

-- The backup cannot be moved, nor can the binary be moved back.
abbrev stuck : RollbackFate
stuck = record { set_aside = true; bring_back = false; restore = false; remove_temp = true }

abbrev with_backup : Disk
with_backup path = if bytes_eq path (codes "/b/tb.old") then some (codes "v0") else disk path

perform_rollback-IsRolled_example :
    IsRolled current
      (codes "v1")
      (codes "v0")
      (perform_rollback stuck current (started with_backup))
unfolding get_old_binary_path
perform_rollback-IsRolled_example =
    perform_rollback-IsRolled stuck current with_backup (codes "v1") (codes "v0") refl refl

abbrev only_backup : Disk
only_backup path = if bytes_eq path (codes "/b/tb.old") then some (codes "v0") else none

curl_command-sh_words_example :
    sh_words between []
      (curl_command (codes "/usr/bin/curl") (codes "https://x.y") (codes "it's" ∷ []))
    ≡ some (
        codes "/usr/bin/curl"
        ∷ (curl_options ++ (codes "=https" ∷ codes "it's" ∷ codes "https://x.y" ∷ [])))
curl_command-sh_words_example =
    curl_command-sh_words (codes "/usr/bin/curl") (codes "https://x.y") (codes "it's" ∷ [])

lookup_checksum-checksum_file_example :
    lookup_checksum
      (checksum_file ((codes "AB", codes "x") ∷ (codes "CD", codes "y") ∷ []))
      (codes "y")
    ≡ first_hash ((codes "AB", codes "x") ∷ (codes "CD", codes "y") ∷ []) (codes "y")
lookup_checksum-checksum_file_example =
    lookup_checksum-checksum_file ((codes "AB", codes "x") ∷ (codes "CD", codes "y") ∷ [])
      (codes "y") (((refl, (refl, tt)), (refl, tt)), (((refl, (refl, tt)), (refl, tt)), tt))
