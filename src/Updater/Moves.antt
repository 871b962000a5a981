-- ===== src/Updater/Moves.antt =====
-- What the calls of the updater of src/updater.cpp do to the files.
use torrent_builder.Common.{
  ◌≡◌, ◌≢◌, ◌⊎◌, inl, inr, refl, ap, subst, arith, Bytes, ◌++◌, Bool, true, false, Bool-cases,
  Option, Option-cases, none, some, length, length-append, bytes_eq, bytes_eq_refl, bytes_eq_sound,
}
use torrent_builder.Updater.Disk.{Disk, put, Files, change, rename, Copy, whole, broken, copy_file}

bytes_eq_apart : (s t : Bytes) → s ≢ t → bytes_eq s t ≡ false
bytes_eq_apart s t apart = elim (Bool-cases (bytes_eq s t)) [
  | inl same ↦ absurd (apart (bytes_eq_sound s t same))
  | inr other ↦ other
]

not_both : {b : Bool} → b ≡ true → b ≢ false
not_both e f = cc

pub apart_bytes_eq : (s t : Bytes) → bytes_eq s t ≡ false → s ≢ t
apart_bytes_eq s t other e = not_both (subst (λ u. bytes_eq s u ≡ true) e (bytes_eq_refl s)) other

pub put_here : (path : Bytes) (x : Option Bytes) (disk : Disk) → put path x disk path ≡ x
unfolding put
put_here path x disk = rw (bytes_eq_refl path)

pub put_apart :
    (path p : Bytes) (x : Option Bytes) (disk : Disk) → p ≢ path → put path x disk p ≡ disk p
unfolding put
put_apart path p x disk apart = rw (bytes_eq_apart p path apart)

-- A name with a suffix is another name.
pub append_apart : (s t : Bytes) → 0 ≢ length t → s ++ t ≢ s
append_apart s t long e = long (omega (arith, length-append s t, ap length e))

pub rename_cases :
    (allowed : Bool) (from to : Bytes) (files : Files)
    → (rename allowed from to files ≡ none)
      ⊎ ((x : Bytes) × (files.disk from ≡ some x)
          × (rename allowed from to files
              ≡ some (change (put to (some x) (put from none files.disk)) files)))
unfolding rename
rename_cases allowed from to files = elim (Option-cases (files.disk from)) [
  | inl missing ↦ inl (rw (missing, rename) refl)
  | inr (x, found) ↦ elim (Bool-cases allowed) [
    | inl granted ↦ inr (x, found, rw (found, rename) (rw granted refl))
    | inr denied ↦ inl (rw (found, rename) (rw denied refl))
  ]
]

pub copy_file_cases :
    (outcome : Copy) (from to : Bytes) (files : Files)
    → (copy_file outcome from to files ≡ (files, false))
      ⊎ ((x : Bytes) × (files.disk from ≡ some x)
          × (copy_file outcome from to files ≡ (change (put to (some x) files.disk) files, true)))
      ⊎ ((left : Option Bytes) × (copy_file outcome from to files
            ≡ (change (put to left files.disk) files, false)))
unfolding copy_file
copy_file_cases outcome from to files = elim (Option-cases (files.disk from)) [
  | inl missing ↦ inl (rw (missing, copy_file) refl)
  | inr (x, found) ↦ by_outcome outcome x found
]
  where
    by_outcome :
        (o : Copy) (x : Bytes)
        → files.disk from ≡ some x
        → (copy_file o from to files ≡ (files, false))
          ⊎ ((x : Bytes) × (files.disk from ≡ some x)
              × (copy_file o from to files ≡ (change (put to (some x) files.disk) files, true)))
          ⊎ ((left : Option Bytes) × (copy_file o from to files
                ≡ (change (put to left files.disk) files, false)))
    by_outcome whole x found = inr (inl (x, found, rw (found, copy_file) refl))
    by_outcome (broken left) x found = inr (inr (left, rw (found, copy_file) refl))
