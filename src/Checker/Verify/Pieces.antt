-- ===== src/Checker/Verify/Pieces.antt =====
-- Which pieces `verify_all_pieces` reports.
use torrent_builder.Common.{
  ℕ, zero, suc, ◌+◌, ◌*◌, ◌≤◌, ◌<◌, ◌≡◌, ◌↔◌, ◌⊎◌, inl, inr, refl, ◌==◌, ==_iff, sym, ap, ◌∙◌,
  subst, arith, List, [], ◌∷◌, true, false, Bool-cases, length,
}
use torrent_builder.Checker.{Disk}
use torrent_builder.Checker.Verify.{
  CorruptedPiece, TorrentInfo, Hashers, piece_ok, verify_loop, verify_all_pieces,
}

-- The list has a report with this index and its offset.
abbrev pub IsReported : ℕ → ℕ → List CorruptedPiece → Type 0
IsReported i offset [] = ⊥
IsReported i offset (cp ∷ cps) = ((cp.index ≡ i) × (cp.offset ≡ offset)) ⊎ IsReported i offset cps

module _ (hashers : Hashers) (info : TorrentInfo) (disk : Disk) where
  verify_loop_ok :
      (count i : ℕ)
      → piece_ok hashers info disk i ≡ true
      → verify_loop hashers info disk (suc count) i ≡ verify_loop hashers info disk count (i + 1)
  unfolding verify_loop
  verify_loop_ok count i h = rw h refl

  verify_loop_bad :
      (count i : ℕ)
      → piece_ok hashers info disk i ≡ false
      → verify_loop hashers info disk (suc count) i
        ≡ record { index = i; offset = i * info.piece_length }
          ∷ verify_loop hashers info disk count (i + 1)
  unfolding verify_loop
  verify_loop_bad count i h = rw h refl

  loop_reports :
      (count i j : ℕ)
      → i ≤ j
      → j < i + count
      → piece_ok hashers info disk j ≡ false
      → IsReported j (j * info.piece_length) (verify_loop hashers info disk count i)
  loop_reports zero i j ge lt bad = absurd (omega (arith, ge, lt))
  loop_reports (suc count) i j ge lt bad = elim (Bool-cases (i == j)) [
    | inl e ↦
        let here : i ≡ j = (==_iff i j).0 e in
        subst (IsReported j (j * info.piece_length))
          (sym (
            verify_loop_bad count i
              (subst (λ k. piece_ok hashers info disk k ≡ false) (sym here) bad)))
          (inl (here, ap (λ k. k * info.piece_length) here))
    | inr e ↦
        let later : i + 1 ≤ j = ground (arith, ge) in
        let rest : IsReported j (j * info.piece_length)
            (verify_loop hashers info disk count (i + 1)) =
          loop_reports count (i + 1) j later (omega (arith, lt)) bad in
        (elim (Bool-cases (piece_ok hashers info disk i)) [
          | inl ok ↦ subst (IsReported j _) (sym (verify_loop_ok count i ok)) rest
          | inr wrong ↦ subst (IsReported j _) (sym (verify_loop_bad count i wrong)) (inr rest)
        ])
  ]

  loop_bad :
      (count i j offset : ℕ)
      → IsReported j offset (verify_loop hashers info disk count i)
      → (i ≤ j)
        × (j < i + count)
        × (offset ≡ j * info.piece_length)
        × (piece_ok hashers info disk j ≡ false)
  loop_bad zero i j offset h = absurd (unfold verify_loop in h)
  loop_bad (suc count) i j offset h = elim (Bool-cases (piece_ok hashers info disk i)) [
    | inl ok ↦
        let (ge, lt, at, bad) =
          loop_bad count (i + 1) j offset
            (subst (IsReported j offset) (verify_loop_ok count i ok) h) in
        (omega (arith, ge), omega (arith, lt), at, bad)
    | inr wrong ↦ elim (subst (IsReported j offset) (verify_loop_bad count i wrong) h) [
      | inl (same, at) ↦ (
        omega (arith, same),
        omega (arith, same),
        sym at ∙ ap (λ k. k * info.piece_length) same,
        subst (λ k. piece_ok hashers info disk k ≡ false) same wrong,
      )
      | inr more ↦
          let (ge, lt, at, bad) = loop_bad count (i + 1) j offset more in
          (omega (arith, ge), omega (arith, lt), at, bad)
    ]
  ]

  pub length-verify_loop : (count i : ℕ) → length (verify_loop hashers info disk count i) ≤ count
  unfolding verify_loop
  length-verify_loop zero i = omega arith
  length-verify_loop (suc count) i = ground (arith, length-verify_loop count (i + 1))

  -- A piece is reported exactly if it is one of the torrent and its verification fails, at its index
  -- times the piece length; there are no more reports than pieces.
  pub verify_all_pieces-IsReported :
      ((j offset : ℕ)
        → IsReported j offset (verify_all_pieces hashers info disk) ↔ (
            (j < info.num_pieces)
            × (offset ≡ j * info.piece_length)
            × (piece_ok hashers info disk j ≡ false)))
      × (length (verify_all_pieces hashers info disk) ≤ info.num_pieces)
  unfolding verify_all_pieces
  verify_all_pieces-IsReported = (
    λ j offset. (sound j offset, λ (lt, at, bad). complete j offset lt at bad),
    length-verify_loop info.num_pieces 0,
  )
    where
      sound :
          (j offset : ℕ)
          → IsReported j offset (verify_all_pieces hashers info disk)
          → (j < info.num_pieces)
            × (offset ≡ j * info.piece_length)
            × (piece_ok hashers info disk j ≡ false)
      sound j offset h =
          let (ge, lt, at, bad) = loop_bad info.num_pieces 0 j offset h in
          (omega (arith, lt), at, bad)

      complete :
          (j offset : ℕ)
          → j < info.num_pieces
          → offset ≡ j * info.piece_length
          → piece_ok hashers info disk j ≡ false
          → IsReported j offset (verify_all_pieces hashers info disk)
      complete j offset lt at bad =
          subst (λ o. IsReported j o (verify_all_pieces hashers info disk)) (sym at)
            (loop_reports info.num_pieces 0 j (omega arith) (omega (arith, lt)) bad)
