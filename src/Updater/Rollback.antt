-- ===== src/Updater/Rollback.antt =====
-- What `perform_rollback` of src/updater.cpp leaves behind.
use torrent_builder.Common.{
  ◌≡◌, ◌≢◌, ◌⊎◌, inl, inr, refl, sym, ap, ◌∙◌, arith, Bytes, Bool, true, false, none, some, Result,
  ok, err, codes, length, length-append, All,
}
use torrent_builder.Updater.Disk.{Disk, put, Files, change, rename, remove}
use torrent_builder.Updater.Swap.{
  get_old_binary_path, temp_path, SwapError, rollback_failed, RollbackFate, bring_back,
  perform_rollback,
}
use torrent_builder.Updater.Moves.{put_here, put_apart, append_apart, rename_cases}
use torrent_builder.Updater.Safe.{started, old_apart}

temp_apart : (cur : Bytes) → cur ≢ temp_path cur
unfolding temp_path
temp_apart cur e = append_apart cur (codes ".rbtmp") (λ f. cc) (sym e)

old_temp_apart : (cur : Bytes) → get_old_binary_path cur ≢ temp_path cur
unfolding get_old_binary_path temp_path
old_temp_apart cur e =
    omega (arith, ap length e, length-append cur (codes ".old"), length-append cur (codes ".rbtmp"))

rename_missing :
    (allowed : Bool) (from to : Bytes) (files : Files)
    → files.disk from ≡ none
    → rename allowed from to files ≡ none
unfolding rename
rename_missing allowed from to files missing = rw (missing, rename) refl

module _ (cur : Bytes) (c p : Bytes) where
  abbrev old : Bytes
  old = get_old_binary_path cur

  abbrev temp : Bytes
  temp = temp_path cur

  -- The previous binary `p` is the backup, or it is in the place of the current one.
  abbrev pub HasPrevious : Disk → Type 0
  HasPrevious disk = (disk (get_old_binary_path cur) ≡ some p) ⊎ (disk cur ≡ some p)

  -- How a rollback ends: with the previous binary in place and no backup, or with an exception, the
  -- backup, and the current binary `c` at its place or set aside.
  abbrev pub Outcome : Files → Result SwapError (Unit {0}) → Type 0
  Outcome files (ok done) =
      (files.disk cur ≡ some p) × (files.disk (get_old_binary_path cur) ≡ none)
  Outcome files (err e) =
      (files.disk (get_old_binary_path cur) ≡ some p)
      × ((files.disk cur ≡ some c) ⊎ (files.disk (temp_path cur) ≡ some c))

  pub record IsRolled (result : Files × Result SwapError (Unit {0})) : Type 0 where
    pub outcome : Outcome result.0 result.1
    pub now : HasPrevious result.0.disk
    pub before : All HasPrevious result.0.history

  bring_back-IsRolled :
      (fate : RollbackFate) (files : Files)
      → files.disk old ≡ some p
      → files.disk temp ≡ some c
      → All HasPrevious files.history
      → IsRolled (bring_back fate cur files)
  unfolding bring_back remove
  bring_back-IsRolled fate files previous aside before =
      elim (rename_cases fate.bring_back old cur files) [
        | inr (x, found, e) ↦ rw (e, bring_back) (removed fate.remove_temp x found)
        | inl e ↦ elim (rename_cases fate.restore temp cur files) [
          | inl f ↦
              rw (e, f, bring_back)
                (record { outcome = (previous, inr aside); now = inl previous; before = before })
          | inr (x, found, f) ↦
              let still : put cur (some x) (put temp none files.disk) old ≡ some p =
                put_apart cur old (some x) (put temp none files.disk) (λ g. old_apart cur (sym g))
                ∙ put_apart temp old none files.disk (old_temp_apart cur)
                ∙ previous in
              rw (e, f, bring_back)
                (record {
                  outcome = (
                    still,
                    inl (put_here cur (some x) (put temp none files.disk) ∙ sym found ∙ aside),
                  );
                  now = inl still;
                  before = (inl previous, before);
                })
        ]
      ]
    where
      removed :
          (allowed : Bool) (x : Bytes)
          → files.disk old ≡ some x
          → IsRolled (
            remove allowed temp (change (put cur (some x) (put old none files.disk)) files),
            ok tt,
          )
      removed allowed x found =
          by_removal allowed
            (put_here cur (some x) (put old none files.disk) ∙ sym found ∙ previous)
            (put_apart cur old (some x) (put old none files.disk) (λ g. old_apart cur (sym g))
              ∙ put_here old none files.disk)
        where
          swapped : Files
          swapped = change (put cur (some x) (put old none files.disk)) files

          by_removal :
              (allowed : Bool)
              → swapped.disk cur ≡ some p
              → swapped.disk old ≡ none
              → IsRolled (remove allowed temp swapped, ok tt)
          by_removal false placed gone = record {
            outcome = (placed, gone);
            now = inr placed;
            before = (inl previous, before);
          }
          by_removal true placed gone =
              let still : put temp none swapped.disk cur ≡ some p =
                put_apart temp cur none swapped.disk (temp_apart cur) ∙ placed in
              record {
                outcome = (still, put_apart temp old none swapped.disk (old_temp_apart cur) ∙ gone);
                now = inr still;
                before = (inr placed, (inl previous, before));
              }

-- Whatever calls of the system fail, a rollback ends with the previous binary in place and no backup,
-- or with an exception, the backup, and the current binary at its place or at the temporary path; and
-- at every moment the previous binary is at one of the two places.
pub perform_rollback-IsRolled :
    (fate : RollbackFate) (current_path : Bytes) (disk : Disk) (binary previous : Bytes)
    → disk current_path ≡ some binary
    → disk (get_old_binary_path current_path) ≡ some previous
    → IsRolled current_path binary previous (perform_rollback fate current_path (started disk))
unfolding perform_rollback
perform_rollback-IsRolled fate current_path disk binary previous there backup =
    rw backup
      (elim (rename_cases fate.set_aside current_path (temp_path current_path) (started disk)) [
        | inl e ↦
            rw (e, perform_rollback)
              (record { outcome = (backup, inl there); now = inl backup; before = tt })
        | inr (x, found, e) ↦
            rw (e, perform_rollback)
              (bring_back-IsRolled current_path binary previous fate
                (change (put (temp_path current_path) (some x) (put current_path none disk))
                  (started disk))
                (put_apart (temp_path current_path) (get_old_binary_path current_path) (some x) _
                    (old_temp_apart current_path)
                  ∙ put_apart current_path (get_old_binary_path current_path) none disk
                      (λ g. old_apart current_path (sym g))
                  ∙ backup)
                (put_here (temp_path current_path) (some x) _ ∙ sym found ∙ there) (inl backup, tt))
      ])

-- Where no file is at the current path, as behind an update whose rollback failed too, a rollback is
-- refused and changes nothing, although the backup is there.
pub perform_rollback-missing_current :
    (fate : RollbackFate) (current_path : Bytes) (disk : Disk) (previous : Bytes)
    → disk current_path ≡ none
    → disk (get_old_binary_path current_path) ≡ some previous
    → perform_rollback fate current_path (started disk) ≡ (started disk, err rollback_failed)
unfolding perform_rollback
perform_rollback-missing_current fate current_path disk previous missing backup =
    rw
      (
        rename_missing fate.set_aside current_path (temp_path current_path) (started disk) missing,
        perform_rollback,
        backup,
      )
      refl
