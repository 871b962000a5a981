-- ===== src/Checker/Piece.antt =====
-- `read_piece_data` as a whole.
use torrent_builder.Common.{
  ℕ, zero, suc, ◌+◌, ◌-◌, ◌*◌, ◌≤◌, ◌<◌, ◌≡◌, refl, sym, ap, ◌∙◌, Bytes, List, [], ◌∷◌, inl, Option,
  none, some, length, take, drop, arith,
}
use Prim.Native.Nat.{min}
use torrent_builder.Checker.{
  StoredFile, Disk, zeros, read_loop, read_piece_data, find_file_for_piece,
}
use torrent_builder.Checker.Search.{IsLaidOut, Finds, end_at, find_file_for_piece-Finds}
use torrent_builder.Checker.Read.{stream, IsComplete, read_loop_skip, read_loop-Finishes}

drop-length {ℓ} : {A : Type ℓ} (xs : List A) → drop (length xs) xs ≡ []
drop-length [] = refl
drop-length (x ∷ xs) = drop-length xs

module _ (ps pe : ℕ) (inside : ps < pe) (disk : Disk) where
  -- The loop passes over the files that end before the piece.
  read_loop-drop :
      (i : ℕ) (files : List StoredFile) (buffer : Bytes)
      → ((j : ℕ) → j < i → j < length files → end_at files j ≤ ps)
      → read_loop ps pe disk files buffer ≡ read_loop ps pe disk (drop i files) buffer
  read_loop-drop zero files buffer h = refl
  read_loop-drop (suc i) [] buffer h = refl
  read_loop-drop (suc i) (f ∷ fs) buffer h =
      let early : f.offset + f.size ≤ ps = h 0 (omega arith) (omega arith) in
      read_loop_skip ps pe (omega arith) disk f fs buffer (omega (arith, early)) (inl early)
      ∙ read_loop-drop i fs buffer (λ j lt in_range. h (suc j) (omega arith) (omega arith))

  -- The loop from the file that the search finds on is the loop over all files.
  from_found :
      (files : List StoredFile) (buffer : Bytes) (found : Option ℕ)
      → Finds files ps found
      → (elim found [ none ↦ buffer | some i ↦ read_loop ps pe disk (drop i files) buffer ])
        ≡ read_loop ps pe disk files buffer
  from_found files buffer none h = sym (
      read_loop-drop (length files) files buffer (λ j _ lt. h j lt)
      ∙ ap (λ fs. read_loop ps pe disk fs buffer) (drop-length files)
      ∙ (unfold read_loop in refl))
  from_found files buffer (some i) h = sym (read_loop-drop i files buffer (λ j lt _. h.2 j lt))

-- If the files lie one after another, their contents add up to the total size, every file that is no
-- padding is on the disk with its size, the piece length is positive and the piece starts below the
-- total size, then the piece that is read is the piece of the contents of the files, padding included,
-- one after another: the bytes from `piece_index * piece_length` on, as many as the piece length, fewer
-- for the last piece.
pub read_piece_data-stream :
    (piece_index piece_length total_size : ℕ) (disk : Disk) (files : List StoredFile)
    → IsLaidOut 0 files
    → IsComplete disk files
    → length (stream disk files) ≡ total_size
    → 0 < piece_length
    → piece_index * piece_length < total_size
    → read_piece_data piece_index piece_length total_size disk files
      ≡ take
          (min (piece_index * piece_length + piece_length) total_size - piece_index * piece_length)
          (drop (piece_index * piece_length) (stream disk files))
unfolding read_piece_data
read_piece_data-stream index len total disk files laid full size some_byte inside =
    from_found ps pe within disk files (zeros (pe - ps)) (find_file_for_piece files ps)
      (find_file_for_piece-Finds files 0 ps laid)
    ∙ read_loop-Finishes ps pe (omega (arith, within)) disk 0 files [] (pe - ps) laid full
        (record { here = omega (arith, within); all = omega (arith, within) }) (omega (arith, size))
    ∙ ap (λ j. take (pe - ps) (drop j (stream disk files))) (omega arith)
  where
    ps : ℕ
    ps = index * len

    pe : ℕ
    pe = min (ps + len) total

    within : ps < pe
    within = omega arith
