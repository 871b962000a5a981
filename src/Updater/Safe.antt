-- ===== src/Updater/Safe.antt =====
-- `perform_update` of src/updater.cpp never loses the current binary.
use torrent_builder.Common.{
  ◌≡◌, ◌≢◌, ◌⊎◌, inl, inr, refl, sym, ap, ◌∙◌, Bytes, [], Bool, true, false, not, ◌&&◌, Bool-cases,
  Option, none, some, if◌then◌else◌, All, Result, ok, err, bytes_eq, bytes_eq_sound, codes,
}
use torrent_builder.Updater.Disk.{Disk, put, Files, change, exists, rename, remove, copy_file}
use torrent_builder.Updater.Swap.{
  get_old_binary_path, SwapError, new_not_found, not_executable, inconsistent, Install, renamed,
  other_device, refused, UpdateFate, install_new, restore_backup, replace_binary, perform_update,
}
use torrent_builder.Updater.Moves.{
  put_here, put_apart, append_apart, apart_bytes_eq, rename_cases, copy_file_cases,
}

module _ (cur old : Bytes) (c : Bytes) where
  -- The binary `c` is at its place, or it is the backup.
  abbrev pub IsKept : Disk → Type 0
  IsKept disk = (disk cur ≡ some c) ⊎ (disk old ≡ some c)

  -- Now and at every moment before.
  pub record IsSafe (files : Files) : Type 0 where
    pub now : IsKept files.disk
    pub before : All IsKept files.history

  -- Where the binary is, by the exception that ended the update.
  abbrev pub Ended : Files → Result SwapError (Unit {0}) → Type 0
  Ended files (ok done) = Unit
  Ended files (err inconsistent) = files.disk old ≡ some c
  Ended files (err e) = files.disk cur ≡ some c

  -- What is there behind the attempt to install.
  record IsTried (result : Files × Bool) : Type 0 where
    safe : IsSafe result.0
    saved : result.1 ≡ false → result.0.disk old ≡ some c

  -- What is there behind the whole update.
  pub record IsOver (result : Files × Result SwapError (Unit {0})) : Type 0 where
    pub safe : IsSafe result.0
    pub ended : Ended result.0 result.1

  change-IsSafe :
      (disk : Disk) (files : Files) → IsSafe files → IsKept disk → IsSafe (change disk files)
  change-IsSafe disk files safe kept = record { now = kept; before = (safe.now, safe.before) }

  module _ (apart : cur ≢ old) where
    -- The backup stays while the place of the binary changes.
    kept_old : (x : Option Bytes) (disk : Disk) → disk old ≡ some c → put cur x disk old ≡ some c
    kept_old x disk saved = put_apart cur old x disk (λ e. apart (sym e)) ∙ saved

    -- Removing a file, the binary at its place being the other one.
    remove-IsSafe :
        (allowed : Bool) (path : Bytes) (files : Files)
        → IsSafe files
        → IsKept (put path none files.disk)
        → IsSafe (remove allowed path files)
    unfolding remove
    remove-IsSafe true path files safe kept =
        change-IsSafe (put path none files.disk) files safe kept
    remove-IsSafe false path files safe kept = safe

    remove_other :
        (allowed : Bool) (path p : Bytes) (files : Files)
        → p ≢ path
        → (remove allowed path files).disk p ≡ files.disk p
    unfolding remove
    remove_other true path p files other = put_apart path p none files.disk other
    remove_other false path p files other = refl

    -- The new binary has been moved over the place of the current one.
    moved-IsKept :
        (new x : Bytes) (disk : Disk)
        → disk old ≡ some c
        → disk new ≡ some x
        → IsKept (put cur (some x) (put new none disk))
    moved-IsKept new x disk saved found = elim (Bool-cases (bytes_eq old new)) [
      | inl same ↦ inl (
          put_here cur (some x) _ ∙ sym found ∙ ap disk (sym (bytes_eq_sound old new same)) ∙ saved)
      | inr other ↦ inr (
          kept_old (some x) (put new none disk)
            (put_apart new old none disk (apart_bytes_eq old new other) ∙ saved))
    ]

    copied_removed-IsKept :
        (new x : Bytes) (allowed : Bool) (files : Files)
        → files.disk old ≡ some c
        → files.disk new ≡ some x
        → IsSafe files
        → IsSafe (remove allowed new (change (put cur (some x) files.disk) files))
    copied_removed-IsKept new x allowed files saved found safe =
        remove-IsSafe allowed new (change (put cur (some x) files.disk) files)
          (change-IsSafe (put cur (some x) files.disk) files safe
            (inr (kept_old (some x) files.disk saved)))
          (elim (Bool-cases (bytes_eq old new)) [
            | inl same ↦
                let e : old ≡ new = bytes_eq_sound old new same in
                inl (
                  put_apart new cur none _ (λ f. apart (f ∙ sym e))
                  ∙ put_here cur (some x) files.disk
                  ∙ sym found
                  ∙ ap files.disk (sym e)
                  ∙ saved)
            | inr other ↦ inr (
                put_apart new old none _ (apart_bytes_eq old new other)
                ∙ kept_old (some x) files.disk saved)
          ])

    install_new-IsTried :
        (fate : UpdateFate) (new : Bytes) (files : Files)
        → IsSafe files
        → files.disk old ≡ some c
        → IsTried (install_new fate new cur files)
    unfolding install_new
    install_new-IsTried fate new files safe saved = by_install fate.install
      where
        failed : IsTried (files, false)
        failed = record { safe = safe; saved = λ e. saved }

        by_copy :
            (result : Files × Bool) (executable : Bool)
            → (result ≡ (files, false))
              ⊎ ((x : Bytes) × (files.disk new ≡ some x)
                  × (result ≡ (change (put cur (some x) files.disk) files, true)))
              ⊎ ((left : Option Bytes) × (result ≡ (change (put cur left files.disk) files, false)))
            → IsTried (
                if result.1 && executable
                then (remove fate.remove_new new result.0, true)
                else (result.0, false))
        by_copy result executable (inl e) = rw e failed
        by_copy result true (inr (inl (x, found, e))) = rw e (record {
          safe = copied_removed-IsKept new x fate.remove_new files saved found safe;
          saved = λ f. cc;
        })
        by_copy result false (inr (inl (x, found, e))) = rw e (record {
          safe =
              change-IsSafe (put cur (some x) files.disk) files safe
                (inr (kept_old (some x) files.disk saved));
          saved = λ f. kept_old (some x) files.disk saved;
        })
        by_copy result executable (inr (inr (left, e))) = rw e (record {
          safe =
              change-IsSafe (put cur left files.disk) files safe
                (inr (kept_old left files.disk saved));
          saved = λ f. kept_old left files.disk saved;
        })

        by_install :
            (install : Install)
            → IsTried (elim install [
              | renamed ↦ elim (rename true new cur files) [
                | none ↦ (files, false)
                | some moved ↦ (moved, true)
              ]
              | refused ↦ (files, false)
              | other_device ↦
                  let (copied, success) = copy_file fate.copy new cur files in
                  if success && fate.current_executable
                  then (remove fate.remove_new new copied, true)
                  else (copied, false)
            ])
        by_install renamed = elim (rename_cases true new cur files) [
          | inl e ↦ rw e failed
          | inr (x, found, e) ↦ rw e (record {
            safe =
                change-IsSafe (put cur (some x) (put new none files.disk)) files safe
                  (moved-IsKept new x files.disk saved found);
            saved = λ f. cc;
          })
        ]
        by_install refused = failed
        by_install other_device =
            by_copy (copy_file fate.copy new cur files) fate.current_executable
              (copy_file_cases fate.copy new cur files)

    restore_backup-IsOver :
        (fate : UpdateFate) (files : Files)
        → IsSafe files
        → files.disk old ≡ some c
        → IsOver (restore_backup fate old cur files)
    unfolding restore_backup
    restore_backup-IsOver fate files safe saved = elim (rename_cases fate.restore old cur files) [
      | inl e ↦ rw (e, restore_backup) (record { safe = safe; ended = saved })
      | inr (x, found, e) ↦
          let back : put cur (some x) (put old none files.disk) cur ≡ some c =
            put_here cur (some x) _ ∙ sym found ∙ saved in
          rw (e, restore_backup)
            (record {
              safe =
                  change-IsSafe (put cur (some x) (put old none files.disk)) files safe (inl back);
              ended = back;
            })
    ]

    installed-IsOver :
        (fate : UpdateFate) (result : Files × Bool)
        → IsTried result
        → IsOver (if result.1 then (result.0, ok tt) else restore_backup fate old cur result.0)
    installed-IsOver fate (files, true) tried = record { safe = tried.safe; ended = tt }
    installed-IsOver fate (files, false) tried =
        restore_backup-IsOver fate files tried.safe (tried.saved refl)

    replace_binary-IsOver :
        (fate : UpdateFate) (new : Bytes) (files : Files)
        → IsSafe files
        → files.disk cur ≡ some c
        → IsOver (replace_binary fate new old cur files)
    unfolding replace_binary
    replace_binary-IsOver fate new files safe there =
        elim (rename_cases fate.backup cur old files) [
          | inl e ↦ rw (e, replace_binary) (record { safe = safe; ended = there })
          | inr (x, found, e) ↦
              let saved : put old (some x) (put cur none files.disk) old ≡ some c =
                put_here old (some x) _ ∙ sym found ∙ there in
              let backup : Files = change (put old (some x) (put cur none files.disk)) files in
              rw (e, replace_binary)
                (installed-IsOver fate (install_new fate new cur backup) (
                  install_new-IsTried fate new backup
                    (change-IsSafe (put old (some x) (put cur none files.disk)) files safe
                      (inr saved))
                    saved))
        ]

-- The files at the start, with no history.
abbrev pub started : Disk → Files
started disk = record { disk = disk; history = [] }

pub old_apart : (cur : Bytes) → cur ≢ get_old_binary_path cur
unfolding get_old_binary_path
old_apart cur e = append_apart cur (codes ".old") (λ f. cc) (sym e)

-- Whatever calls of the system fail, and wherever the new binary is, at every moment of an update the
-- current binary is at its place or it is the backup; and when an exception ends the update, it is
-- at its place, or, if the error says that the rollback failed too, it is the backup.
pub perform_update-IsOver :
    (fate : UpdateFate) (new_path current_path : Bytes) (disk : Disk) (binary : Bytes)
    → disk current_path ≡ some binary
    → IsOver current_path
        (get_old_binary_path current_path)
        binary
        (perform_update fate new_path current_path (started disk))
unfolding perform_update
perform_update-IsOver fate new_path current_path disk binary there =
    by_tests (not (exists files new_path)) _
  where
    files : Files
    files = started disk

    old : Bytes
    old = get_old_binary_path current_path

    cleared : Files
    cleared = remove fate.remove_old old files

    still : cleared.disk current_path ≡ some binary
    still =
        remove_other current_path old binary (old_apart current_path) fate.remove_old old
          current_path files (old_apart current_path)
        ∙ there

    safe : IsSafe current_path old binary files
    safe = record { now = inl there; before = tt }

    cleared-IsSafe : IsSafe current_path old binary cleared
    cleared-IsSafe =
        remove-IsSafe current_path old binary (old_apart current_path) fate.remove_old old files
          safe (inl (put_apart old current_path none files.disk (old_apart current_path) ∙ there))

    by_tests :
        (missing denied : Bool)
        → IsOver current_path old binary (
            if missing
            then (files, err new_not_found)
            else if denied
            then (cleared, err not_executable)
            else replace_binary fate new_path old current_path cleared)
    by_tests true denied = record { safe = safe; ended = there }
    by_tests false true = record { safe = cleared-IsSafe; ended = still }
    by_tests false false =
        replace_binary-IsOver current_path old binary (old_apart current_path) fate new_path cleared
          cleared-IsSafe still
