-- ===== src/Updater/Success.antt =====
-- What `perform_update` of src/updater.cpp leaves behind when it succeeds.
use torrent_builder.Common.{
  ◌≡◌, ◌≢◌, ◌⊎◌, inl, inr, refl, sym, ◌∙◌, Bytes, Bool, true, false, not, ◌&&◌, Option, none, some,
  if◌then◌else◌, Result, ok, err,
}
use torrent_builder.Updater.Disk.{
  Disk, put, Files, change, exists, rename, remove, whole, copy_file,
}
use torrent_builder.Updater.Swap.{
  get_old_binary_path, SwapError, new_not_found, not_executable, Install, renamed, other_device,
  refused, UpdateFate, install_new, restore_backup, replace_binary, perform_update,
}
use torrent_builder.Updater.Moves.{put_here, put_apart, rename_cases, copy_file_cases}
use torrent_builder.Updater.Safe.{started, old_apart}

remove_apart :
    (allowed : Bool) (path p : Bytes) (files : Files)
    → p ≢ path
    → (remove allowed path files).disk p ≡ files.disk p
unfolding remove
remove_apart true path p files other = put_apart path p none files.disk other
remove_apart false path p files other = refl

module _ (cur old new c n : Bytes) (cur_old : cur ≢ old) (new_cur : new ≢ cur)
    (new_old : new ≢ old) where
  -- The new binary is at its place, and the one before is the backup.
  abbrev pub IsSwapped : Files → Type 0
  IsSwapped files = (files.disk cur ≡ some n) × (files.disk old ≡ some c)

  placed :
      (x : Bytes) (disk : Disk)
      → disk new ≡ some n
      → disk old ≡ some c
      → disk new ≡ some x
      → (put cur (some x) (put new none disk) cur ≡ some n)
        × (put cur (some x) (put new none disk) old ≡ some c)
  placed x disk fresh saved found = (
    put_here cur (some x) (put new none disk) ∙ sym found ∙ fresh,
    put_apart cur old (some x) (put new none disk) (λ e. cur_old (sym e))
        ∙ put_apart new old none disk (λ e. new_old (sym e))
        ∙ saved,
  )

  copied :
      (allowed : Bool) (x : Bytes) (files : Files)
      → files.disk new ≡ some n
      → files.disk old ≡ some c
      → files.disk new ≡ some x
      → IsSwapped (remove allowed new (change (put cur (some x) files.disk) files))
  copied allowed x files fresh saved found = (
    remove_apart allowed new cur (change (put cur (some x) files.disk) files) (λ e. new_cur (sym e))
        ∙ put_here cur (some x) files.disk
        ∙ sym found
        ∙ fresh,
    remove_apart allowed new old (change (put cur (some x) files.disk) files) (λ e. new_old (sym e))
        ∙ put_apart cur old (some x) files.disk (λ e. cur_old (sym e))
        ∙ saved,
  )

  install_new-IsSwapped :
      (fate : UpdateFate) (files : Files)
      → files.disk new ≡ some n
      → files.disk old ≡ some c
      → (install_new fate new cur files).1 ≡ true
      → IsSwapped (install_new fate new cur files).0
  unfolding install_new
  install_new-IsSwapped fate files fresh saved = by_install fate.install
    where
      by_copy :
          (result : Files × Bool) (executable : Bool)
          → (result ≡ (files, false))
            ⊎ ((x : Bytes) × (files.disk new ≡ some x)
                × (result ≡ (change (put cur (some x) files.disk) files, true)))
            ⊎ ((left : Option Bytes) × (result ≡ (change (put cur left files.disk) files, false)))
          → let r : Files × Bool =
              if result.1 && executable
              then (remove fate.remove_new new result.0, true)
              else (result.0, false) in
            r.1 ≡ true → IsSwapped r.0
      by_copy result executable (inl e) = rw e (λ f. cc)
      by_copy result true (inr (inl (x, found, e))) =
          rw e (λ f. copied fate.remove_new x files fresh saved found)
      by_copy result false (inr (inl (x, found, e))) = rw e (λ f. cc)
      by_copy result executable (inr (inr (left, e))) = rw e (λ f. cc)

      by_install :
          (install : Install)
          → let r : Files × Bool = elim install [
            | renamed ↦ elim (rename true new cur files) [
              | none ↦ (files, false)
              | some moved ↦ (moved, true)
            ]
            | refused ↦ (files, false)
            | other_device ↦
                let (copied, success) = copy_file fate.copy new cur files in
                if success && fate.current_executable
                then (remove fate.remove_new new copied, true)
                else (copied, false)
          ] in
            r.1 ≡ true → IsSwapped r.0
      by_install renamed = elim (rename_cases true new cur files) [
        | inl e ↦ rw e (λ f. cc)
        | inr (x, found, e) ↦ rw e (λ f. placed x files.disk fresh saved found)
      ]
      by_install refused = λ f. cc
      by_install other_device =
          by_copy (copy_file fate.copy new cur files) fate.current_executable
            (copy_file_cases fate.copy new cur files)

  installed-IsSwapped :
      (fate : UpdateFate) (result : Files × Bool)
      → (result.1 ≡ true → IsSwapped result.0)
      → let r = if result.1 then (result.0, ok tt) else restore_backup fate old cur result.0 in
        r.1 ≡ ok tt → IsSwapped r.0
  unfolding restore_backup
  installed-IsSwapped fate (files, true) h = λ f. h refl
  installed-IsSwapped fate (files, false) h = elim (rename_cases fate.restore old cur files) [
    | inl e ↦ rw (e, restore_backup) (λ f. cc)
    | inr (x, found, e) ↦ rw (e, restore_backup) (λ f. cc)
  ]

  replace_binary-IsSwapped :
      (fate : UpdateFate) (files : Files)
      → files.disk new ≡ some n
      → files.disk cur ≡ some c
      → (replace_binary fate new old cur files).1 ≡ ok tt
      → IsSwapped (replace_binary fate new old cur files).0
  unfolding replace_binary
  replace_binary-IsSwapped fate files fresh there = elim (rename_cases fate.backup cur old files) [
    | inl e ↦ rw (e, replace_binary) (λ f. cc)
    | inr (x, found, e) ↦
        let backup : Files = change (put old (some x) (put cur none files.disk)) files in
        let still : backup.disk new ≡ some n =
          put_apart old new (some x) (put cur none files.disk) new_old
          ∙ put_apart cur new none files.disk new_cur
          ∙ fresh in
        let saved : backup.disk old ≡ some c =
          put_here old (some x) (put cur none files.disk) ∙ sym found ∙ there in
        rw (e, replace_binary)
          (installed-IsSwapped fate (install_new fate new cur backup)
            (install_new-IsSwapped fate backup still saved))
  ]

-- An update that returns without an exception has put the new binary in the place of the current one
-- and kept the current one as the backup, if the new binary was at neither of these paths.
pub perform_update-IsSwapped :
    (fate : UpdateFate) (new_path current_path : Bytes) (disk : Disk) (binary new_binary : Bytes)
    → new_path ≢ current_path
    → new_path ≢ get_old_binary_path current_path
    → disk current_path ≡ some binary
    → disk new_path ≡ some new_binary
    → (perform_update fate new_path current_path (started disk)).1 ≡ ok tt
    → let after = (perform_update fate new_path current_path (started disk)).0 in
      (after.disk current_path ≡ some new_binary)
      × (after.disk (get_old_binary_path current_path) ≡ some binary)
unfolding perform_update
perform_update-IsSwapped fate new_path current_path disk binary new_binary new_cur new_old there
      fresh =
    by_tests (not (exists files new_path)) _
  where
    files : Files
    files = started disk

    old : Bytes
    old = get_old_binary_path current_path

    cleared : Files
    cleared = remove fate.remove_old old files

    by_tests :
        (missing denied : Bool)
        → let r : Files × Result SwapError (Unit {0}) =
            if missing
            then (files, err new_not_found)
            else if denied
            then (cleared, err not_executable)
            else replace_binary fate new_path old current_path cleared in
          r.1 ≡ ok tt → (r.0.disk current_path ≡ some new_binary) × (r.0.disk old ≡ some binary)
    by_tests true denied = λ f. cc
    by_tests false true = λ f. cc
    by_tests false false =
        replace_binary-IsSwapped current_path old new_path binary new_binary
          (old_apart current_path) new_cur new_old fate cleared
          (remove_apart fate.remove_old old new_path files new_old ∙ fresh)
          (remove_apart fate.remove_old old current_path files (old_apart current_path) ∙ there)

-- Every call succeeds.
abbrev pub all_granted : UpdateFate
all_granted = record {
  remove_old = true;
  new_executable = true;
  backup = true;
  install = renamed;
  copy = whole;
  current_executable = true;
  remove_new = true;
  restore = true;
}

rename_granted :
    (from to : Bytes) (files : Files) (x : Bytes)
    → files.disk from ≡ some x
    → rename true from to files ≡ some (change (put to (some x) (put from none files.disk)) files)
unfolding rename
rename_granted from to files x found = rw (found, rename) refl

replaced_granted :
    (cur old new c n : Bytes) (files : Files)
    → new ≢ cur
    → new ≢ old
    → files.disk new ≡ some n
    → files.disk cur ≡ some c
    → (replace_binary all_granted new old cur files).1 ≡ ok tt
unfolding replace_binary
replaced_granted cur old new c n files new_cur new_old fresh there =
    let backup : Files = change (put old (some c) (put cur none files.disk)) files in
    let still : backup.disk new ≡ some n =
      put_apart old new (some c) (put cur none files.disk) new_old
      ∙ put_apart cur new none files.disk new_cur
      ∙ fresh in
    rw (rename_granted cur old files c there, replace_binary)
      (rw (rename_granted new cur backup n still, install_new) refl)

-- An update in which every call succeeds returns without an exception, if there is a binary at the
-- current path, and another one at a path that is neither the current one nor that of the backup.
pub perform_update-succeeds :
    (new_path current_path : Bytes) (disk : Disk) (binary new_binary : Bytes)
    → new_path ≢ current_path
    → new_path ≢ get_old_binary_path current_path
    → disk current_path ≡ some binary
    → disk new_path ≡ some new_binary
    → (perform_update all_granted new_path current_path (started disk)).1 ≡ ok tt
unfolding perform_update
perform_update-succeeds new_path current_path disk binary new_binary new_cur new_old there fresh =
    rw (fresh_cleared, fresh)
      (replaced_granted current_path old new_path binary new_binary cleared new_cur new_old
        fresh_cleared (remove_apart true old current_path files (old_apart current_path) ∙ there))
  where
    files : Files
    files = started disk

    old : Bytes
    old = get_old_binary_path current_path

    cleared : Files
    cleared = remove true old files

    fresh_cleared : cleared.disk new_path ≡ some new_binary
    fresh_cleared = remove_apart true old new_path files new_old ∙ fresh
