-- ===== src/Checker/Verify/Intact.antt =====
-- Content that is on the disk as it was hashed passes the check.
use torrent_builder.Common.{
  ℕ, ◌+◌, ◌-◌, ◌*◌, ◌<◌, ◌≡◌, inl, inr, refl, sym, ap, ◌∙◌, Bytes, List, [], ◌∷◌, Bool, true, false,
  ◌&&◌, length, take, drop, has_value, All, ok, bytes_eq, bytes_eq_refl, bytes_eq_sound, ◌↔◌,
}
use Prim.Native.Nat.{min}
use torrent_builder.Checker.{Disk, StoredFile, read_piece_data}
use torrent_builder.Checker.Search.{IsLaidOut}
use torrent_builder.Checker.Read.{stream, IsComplete}
use torrent_builder.Checker.Piece.{read_piece_data-stream}
use torrent_builder.Checker.Verify.{
  DirEntry, CheckResult, TorrentInfo, Hashers, verify_piece_v1, piece_ok, check,
}
use torrent_builder.Checker.Verify.Files.{IsPresent, check_lem}

and_true : (b : Bool) → (b && true) ≡ b
and_true true = refl
and_true false = refl

complete-IsPresent :
    (disk : Disk) (fs : List StoredFile) → IsComplete disk fs → All (IsPresent disk) fs
complete-IsPresent disk [] h = tt
complete-IsPresent disk (f ∷ fs) (inl pad, rest) = (inl pad, complete-IsPresent disk fs rest)
complete-IsPresent disk (f ∷ fs) (inr (c, _, e, _), rest) =
    (inr (ap has_value e), complete-IsPresent disk fs rest)

-- The bytes of the piece in a stream of `total` bytes.
abbrev pub piece_of : Bytes → ℕ → ℕ → ℕ → Bytes
piece_of bytes len total i = take (min (i * len + len) total - i * len) (drop (i * len) bytes)

module _ (hashers : Hashers) (info : TorrentInfo) (disk : Disk) where
  -- A v1 torrent of the size of the contents of the disk: the files lie one after another and are on
  -- the disk with their sizes, and every piece starts inside.
  pub record IsStored : Type 0 where
    pub laid : IsLaidOut 0 info.files
    pub complete : IsComplete disk info.files
    pub total : length (stream disk info.files) ≡ info.total_size
    pub some_byte : 0 < info.piece_length
    pub inside : (i : ℕ) → i < info.num_pieces → i * info.piece_length < info.total_size
    pub is_v1 : info.has_v1 ≡ true
    pub only_v1 : info.has_v2 ≡ false

  -- The hash that the torrent gives for the piece is that of its bytes on the disk.
  abbrev pub IsHashed : ℕ → Type 0
  IsHashed i =
      hashers.sha1 (piece_of (stream disk info.files) info.piece_length info.total_size i)
      ≡ info.hash_for_piece i

  piece_ok-bytes_eq :
      (i : ℕ)
      → IsStored
      → i < info.num_pieces
      → piece_ok hashers info disk i
        ≡ bytes_eq
            (hashers.sha1 (piece_of (stream disk info.files) info.piece_length info.total_size i))
            (info.hash_for_piece i)
  unfolding piece_ok verify_piece_v1
  piece_ok-bytes_eq i h lt =
      let e : read_piece_data i info.piece_length info.total_size disk info.files
          ≡ piece_of (stream disk info.files) info.piece_length info.total_size i =
        read_piece_data-stream i info.piece_length info.total_size disk info.files h.laid h.complete
          h.total h.some_byte (h.inside i lt) in
      rw (h.is_v1, h.only_v1, e) (and_true _)

  -- For a torrent with v1 hashes only, whose files lie one after another, are on the disk with their
  -- sizes and add up to its total size, with pieces of a positive length that start below this size, the
  -- check of an existing path whose walk throws no exception passes exactly if the hash that the torrent gives for each piece is the
  -- hash of the bytes of the piece on the disk.
  pub check-IsHashed :
      (content_path : Bytes) (walk : List DirEntry)
      → IsStored
      → (result : CheckResult) × (check hashers info true content_path disk (ok walk) ≡ ok result)
        × ((result.passed ≡ true) ↔ ((i : ℕ) → i < info.num_pieces → IsHashed i))
  check-IsHashed content_path walk h =
      elim (check_lem hashers info disk true content_path (ok walk)) [
        | inl (_, _, _, result, e, passes, _) ↦ (
          result,
          e,
          (
            λ passed i lt.
                bytes_eq_sound _ _ (sym (piece_ok-bytes_eq i h lt) ∙ (passes.0 passed).1 i lt),
            λ hashed. passes.1 (
              complete-IsPresent disk info.files h.complete,
              λ i lt.
                  piece_ok-bytes_eq i h lt
                  ∙ (rw (hashed i lt) (bytes_eq_refl (info.hash_for_piece i))),
            ),
          ),
        )
        | inr (inl (_, _, e, _)) ↦ absurd (cc e)
        | inr (inr (e, _)) ↦ absurd (cc e)
      ]
