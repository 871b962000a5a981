-- ===== src/Updater/Swap.antt =====
-- `perform_update` and `perform_rollback` of src/updater.cpp.
use torrent_builder.Common.{
  Bytes, ◌++◌, Bool, true, false, not, ◌&&◌, none, some, if◌then◌else◌, codes, Result, ok, err,
}
use torrent_builder.Updater.Disk.{Files, exists, rename, remove, Copy, copy_file}

unfoldable pub get_old_binary_path : Bytes → Bytes
get_old_binary_path current_path = current_path ++ codes ".old"

-- `temp_path` of `perform_rollback`.
unfoldable pub temp_path : Bytes → Bytes
temp_path current_path = current_path ++ codes ".rbtmp"

-- Where an exception is thrown.
pub data SwapError : Type 0 where
  new_not_found : SwapError  -- New binary not found
  not_executable : SwapError  -- Failed to set executable permissions on new binary
  backup_failed : SwapError  -- Failed to backup current binary
  rolled_back : SwapError  -- Failed to replace binary (rolled back)
  inconsistent : SwapError  -- Failed to replace binary and rollback also failed
  no_previous_version : SwapError  -- No previous version found to rollback to
  rollback_failed : SwapError  -- Rollback failed

-- What the rename of the new binary comes to where the system does not let it succeed.
pub data Install : Type 0 where
  renamed : Install
  other_device : Install  -- std::errc::cross_device_link
  refused : Install

-- What the system makes of each call of `perform_update`.
pub record UpdateFate : Type 0 where
  pub remove_old : Bool
  pub new_executable : Bool
  pub backup : Bool
  pub install : Install
  pub copy : Copy
  pub current_executable : Bool
  pub remove_new : Bool
  pub restore : Bool

-- The new binary in the place of the current one: the files, and whether no exception was thrown.
unfoldable pub install_new : UpdateFate → Bytes → Bytes → Files → Files × Bool
install_new fate new_path current_path files = elim fate.install [
  | renamed ↦ elim (rename true new_path current_path files) [
    | none ↦ (files, false)
    | some moved ↦ (moved, true)
  ]
  | refused ↦ (files, false)
  | other_device ↦
      let (copied, success) = copy_file fate.copy new_path current_path files in
      if success && fate.current_executable
      then (remove fate.remove_new new_path copied, true)
      else (copied, false)
]

-- Behind an exception, the backup is moved back.
unfoldable pub restore_backup :
    UpdateFate → Bytes → Bytes → Files → Files × Result SwapError (Unit {0})
restore_backup fate old_path current_path files =
    elim (rename fate.restore old_path current_path files) [
      | none ↦ (files, err inconsistent)
      | some restored ↦ (restored, err rolled_back)
    ]

-- From the backup on.
unfoldable pub replace_binary :
    UpdateFate → Bytes → Bytes → Bytes → Files → Files × Result SwapError (Unit {0})
unfolding install_new restore_backup
replace_binary fate new_path old_path current_path files =
    elim (rename fate.backup current_path old_path files) [
      | none ↦ (files, err backup_failed)
      | some saved ↦
          let (installed, success) = install_new fate new_path current_path saved in
          if success
          then (installed, ok tt)
          else restore_backup fate old_path current_path installed
    ]

-- A file that is not there cannot be made executable.
unfoldable pub perform_update :
    UpdateFate → Bytes → Bytes → Files → Files × Result SwapError (Unit {0})
unfolding replace_binary
perform_update fate new_path current_path files =
    let old_path = get_old_binary_path current_path in
    let cleared = remove fate.remove_old old_path files in
    if not (exists files new_path)
    then (files, err new_not_found)
    else if not (fate.new_executable && exists cleared new_path)
    then (cleared, err not_executable)
    else replace_binary fate new_path old_path current_path cleared

-- What the system makes of each call of `perform_rollback`.
pub record RollbackFate : Type 0 where
  pub set_aside : Bool
  pub bring_back : Bool
  pub restore : Bool
  pub remove_temp : Bool

-- The previous binary in the place of the current one, which has been set aside.
unfoldable pub bring_back : RollbackFate → Bytes → Files → Files × Result SwapError (Unit {0})
bring_back fate current_path files =
    let old_path = get_old_binary_path current_path in
    let temp = temp_path current_path in
    elim (rename fate.bring_back old_path current_path files) [
      | some swapped ↦ (remove fate.remove_temp temp swapped, ok tt)
      | none ↦ elim (rename fate.restore temp current_path files) [
        | some restored ↦ (restored, err rollback_failed)
        | none ↦ (files, err rollback_failed)
      ]
    ]

unfoldable pub perform_rollback : RollbackFate → Bytes → Files → Files × Result SwapError (Unit {0})
unfolding bring_back
perform_rollback fate current_path files =
    if not (exists files (get_old_binary_path current_path))
    then (files, err no_previous_version)
    else (elim (rename fate.set_aside current_path (temp_path current_path) files) [
      | none ↦ (files, err rollback_failed)
      | some aside ↦ bring_back fate current_path aside
    ])
