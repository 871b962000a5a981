-- ===== src/Checker/Verify/Files.antt =====
-- When a check passes, and which files it reports.
use torrent_builder.Common.{
  ℕ, ◌+◌, ◌*◌, ◌<◌, ◌≡◌, ◌↔◌, ◌⊎◌, inl, inr, refl, sym, ◌∙◌, subst, arith, Bytes, List, [], ◌∷◌,
  ◌++◌, Bool, true, false, and_both, Bool-cases, is_empty, has_value, Option-cases, All, none, some,
  Result, ok, err, codes, any, bytes_eq,
}
use torrent_builder.Text.{to_lower}
use torrent_builder.Checker.{Disk, StoredFile}
use torrent_builder.Checker.Verify.{
  CorruptedPiece, ExtraFile, DirEntry, CheckResult, TorrentInfo, Hashers, piece_ok,
  verify_all_pieces, file_result, check_missing_files, extra_loop, find_extra_files, check,
}
use torrent_builder.Checker.Verify.Pieces.{IsReported, verify_all_pieces-IsReported}

-- The file is padding, or the disk has it.
abbrev pub IsPresent : Disk → StoredFile → Type 0
IsPresent disk f = (f.pad ≡ true) ⊎ (has_value (disk f.path) ≡ true)

clash : {b : Bool} → b ≡ true → b ≡ false → ⊥
clash h e = cc

file_result-exists :
    (disk : Disk) (f : StoredFile) → (file_result disk f).exists ≡ has_value (disk f.path)
unfolding file_result
file_result-exists disk f = elim (Option-cases (disk f.path)) [
  | inl e ↦ rw (e, file_result) refl
  | inr (c, e) ↦ rw (e, file_result) refl
]

missing_empty :
    (disk : Disk) (fs : List StoredFile)
    → is_empty (check_missing_files disk fs).0 ≡ true
    → All (IsPresent disk) fs
unfolding check_missing_files
missing_empty disk [] h = tt
missing_empty disk (f ∷ fs) h = elim (Bool-cases f.pad) [
  | inl pad ↦ (inl pad, missing_empty disk fs (rw (pad, check_missing_files) at h))
  | inr no_pad ↦ elim (Bool-cases (file_result disk f).exists) [
    | inl here ↦ (
      inr (sym (file_result-exists disk f) ∙ here),
      missing_empty disk fs (rw (no_pad, here, check_missing_files) at h),
    )
    | inr gone ↦ absurd (cc (rw (no_pad, gone, check_missing_files) at h))
  ]
]

no_missing :
    (disk : Disk) (fs : List StoredFile)
    → All (IsPresent disk) fs
    → is_empty (check_missing_files disk fs).0 ≡ true
unfolding check_missing_files
no_missing disk [] h = refl
no_missing disk (f ∷ fs) (here, rest) = elim (Bool-cases f.pad) [
  | inl pad ↦ rw (pad, check_missing_files) (no_missing disk fs rest)
  | inr no_pad ↦
      let e : (file_result disk f).exists ≡ true =
        file_result-exists disk f ∙ present here no_pad in
      rw (no_pad, e, check_missing_files) (no_missing disk fs rest)
]
  where
    present : IsPresent disk f → f.pad ≡ false → has_value (disk f.path) ≡ true
    present (inl pad) no_pad = absurd (clash pad no_pad)
    present (inr h) no_pad = h

not_reported :
    (cps : List CorruptedPiece) → is_empty cps ≡ true → (i offset : ℕ) → IsReported i offset cps → ⊥
not_reported [] h i offset r = r
not_reported (cp ∷ cps) h i offset r = cc h

all_verified :
    (cps : List CorruptedPiece)
    → ((i offset : ℕ) → IsReported i offset cps → ⊥)
    → is_empty cps ≡ true
all_verified [] h = refl
all_verified (cp ∷ cps) h = absurd (h cp.index cp.offset (inl (refl, refl)))

module _ (hashers : Hashers) (info : TorrentInfo) (disk : Disk) where
  -- Every piece of the torrent has the hashes that the torrent gives.
  abbrev pub AllVerified : Type 0
  AllVerified = (i : ℕ) → i < info.num_pieces → piece_ok hashers info disk i ≡ true

  corrupted_empty : is_empty (verify_all_pieces hashers info disk) ≡ true → AllVerified
  corrupted_empty h i lt = elim (Bool-cases (piece_ok hashers info disk i)) [
    | inl good ↦ good
    | inr bad ↦ absurd (
        not_reported _ h i _ (
          ((verify_all_pieces-IsReported hashers info disk).0 i (i * info.piece_length)).1
            (lt, refl, bad)))
  ]

  no_corrupted : AllVerified → is_empty (verify_all_pieces hashers info disk) ≡ true
  no_corrupted good = all_verified _ (λ i offset r.
      let (lt, _, bad) = ((verify_all_pieces-IsReported hashers info disk).0 i offset).0 r in
      clash (good i lt) bad)

  -- For a content path that exists and whose walk throws no exception, the check passes exactly if every
  -- file that is no padding is on the disk and every piece is verified, and its verified and corrupted
  -- pieces add up to all pieces. An exception of the walk is that of the check. Without the path it fails.
  pub check_lem :
      (exists : Bool) (content_path : Bytes) (walk : Result Bytes (List DirEntry))
      → ((exists ≡ true)
          × (entries : List DirEntry) × (walk ≡ ok entries)
          × (result : CheckResult) × (check hashers info exists content_path disk walk ≡ ok result)
          × ((result.passed ≡ true) ↔ (All (IsPresent disk) info.files × AllVerified))
          × (result.pieces_verified + result.pieces_corrupted ≡ result.pieces_total))
        ⊎ ((exists ≡ true)
            × (e : Bytes) × (walk ≡ err e)
            × (check hashers info exists content_path disk walk ≡ err e))
        ⊎ ((exists ≡ false)
            × (check hashers info exists content_path disk walk
                ≡ err (codes "Content path does not exist: " ++ content_path)))
  unfolding check find_extra_files
  check_lem false content_path walk = inr (inr (refl, refl))
  check_lem true content_path (err e) = inr (inl (refl, e, refl, refl))
  check_lem true content_path (ok entries) = inl (
    refl,
    entries,
    refl,
    _,
    refl,
    (
      λ h. let (a, b) = and_both _ _ h in (missing_empty disk info.files a, corrupted_empty b),
      λ (present, good). rw (no_missing disk info.files present, no_corrupted good) refl,
    ),
    omega (arith, (verify_all_pieces-IsReported hashers info disk).1),
  )

-- The walk has a regular file with this path and size that is no link, and no path of the torrent is
-- the same without regard to case.
abbrev pub IsExtra : List Bytes → DirEntry → Type 0
IsExtra paths entry =
    (entry.is_symlink ≡ false)
    × (entry.is_regular_file ≡ true)
    × (any (bytes_eq (to_lower entry.path)) paths ≡ false)

-- The reports of the extra entries of a walk, in the order of the walk, up to the first one whose size
-- cannot be read.
abbrev pub AreExtras : List Bytes → List DirEntry → List ExtraFile → Type 0
AreExtras paths [] extras = extras ≡ []
AreExtras paths (entry ∷ entries) extras =
    (IsExtra paths entry
      × (((entry.size ≡ none) × (extras ≡ record { path = entry.path; size = 0 } ∷ []))
          ⊎ ((size : ℕ) × (entry.size ≡ some size)
              × (rest : List ExtraFile) × (extras
                  ≡ record { path = entry.path; size = size } ∷ rest)
              × AreExtras paths entries rest)))
    ⊎ ((IsExtra paths entry → ⊥) × AreExtras paths entries extras)

extra-skipped :
    (paths : List Bytes) (entry : DirEntry) (entries : List DirEntry)
    → extra_loop paths (entry ∷ entries) ≡ extra_loop paths entries
    → (IsExtra paths entry → ⊥)
    → AreExtras paths entries (extra_loop paths entries)
    → AreExtras paths (entry ∷ entries) (extra_loop paths (entry ∷ entries))
extra-skipped paths entry entries e no_extra rest =
    inr (no_extra, subst (AreExtras paths entries) (sym e) rest)

-- The extra files are the regular files of the walk, links excepted, whose path is not one of the
-- torrent's without regard to case, each once, in the order of the walk, up to the first one whose
-- size cannot be read.
pub extra_loop-AreExtras :
    (paths : List Bytes) (walk : List DirEntry) → AreExtras paths walk (extra_loop paths walk)
unfolding extra_loop
extra_loop-AreExtras paths [] = refl
extra_loop-AreExtras paths (entry ∷ entries) =
    let rest = extra_loop-AreExtras paths entries in
    elim (Bool-cases entry.is_symlink) [
      | inl link ↦
          extra-skipped paths entry entries (rw (link, extra_loop) refl) (λ x. clash link x.0) rest
      | inr no_link ↦ elim (Bool-cases entry.is_regular_file) [
        | inr special ↦
            extra-skipped paths entry entries (rw (no_link, special, extra_loop) refl)
              (λ x. clash x.1 special) rest
        | inl regular ↦ elim (Bool-cases (any (bytes_eq (to_lower entry.path)) paths)) [
          | inl known ↦
              extra-skipped paths entry entries (rw (no_link, regular, known, extra_loop) refl)
                (λ x. clash known x.2) rest
          | inr extra ↦ elim (Option-cases entry.size) [
            | inl unread ↦ inl (
              (no_link, regular, extra),
              inl (unread, rw (no_link, regular, extra, unread, extra_loop) refl),
            )
            | inr (size, read) ↦ inl (
              (no_link, regular, extra),
              inr (
                size,
                read,
                extra_loop paths entries,
                rw (no_link, regular, extra, read, extra_loop) refl,
                rest,
              ),
            )
          ]
        ]
      ]
    ]
