-- ===== src/Checker/Search.antt =====
-- `find_file_for_piece` returns the first file that ends behind the offset.
use torrent_builder.Common.{
  ℕ, zero, suc, ◌+◌, ◌-◌, ◌/◌, ◌≤◌, ◌<◌, ◌≡◌, refl, sym, subst, ◌⊎◌, inl, inr, List, [], ◌∷◌,
  Bool-cases, Option, none, some, ltb, leb, length, get_elem?, arith, ltb→lt, ltb→le, leb→le,
  leb→lt,
}
use torrent_builder.Checker.{StoredFile, file_end, find_loop, find_file_for_piece}

-- The files follow one another without gaps, from `base` on, as libtorrent lays them out.
abbrev pub IsLaidOut : ℕ → List StoredFile → Type 0
IsLaidOut base [] = Unit
IsLaidOut base (f ∷ fs) = (f.offset ≡ base) × IsLaidOut (base + f.size) fs

-- The end of the file with the index `i`.
abbrev pub end_at : List StoredFile → ℕ → ℕ
end_at [] i = 0
end_at (f ∷ fs) zero = file_end f
end_at (f ∷ fs) (suc i) = end_at fs i

-- The first file that ends behind the offset, or no file does.
abbrev pub Finds : List StoredFile → ℕ → Option ℕ → Type 0
Finds files off none = (j : ℕ) → j < length files → end_at files j ≤ off
Finds files off (some i) =
    (i < length files) × (off < end_at files i) × ((j : ℕ) → j < i → end_at files j ≤ off)

end_at-ge :
    (base : ℕ) (files : List StoredFile) (j : ℕ)
    → IsLaidOut base files
    → j < length files
    → base ≤ end_at files j
end_at-ge base [] j h lt = absurd (omega arith)
end_at-ge base (f ∷ fs) zero h lt = omega arith
end_at-ge base (f ∷ fs) (suc j) h lt = omega (arith, end_at-ge (base + f.size) fs j h.1)

end_at_mono :
    (base : ℕ) (files : List StoredFile) (i j : ℕ)
    → IsLaidOut base files
    → i ≤ j
    → j < length files
    → end_at files i ≤ end_at files j
end_at_mono base [] i j h le lt = absurd (omega arith)
end_at_mono base (f ∷ fs) zero zero h le lt = omega arith
end_at_mono base (f ∷ fs) zero (suc j) h le lt = omega (arith, end_at-ge (base + f.size) fs j h.1)
end_at_mono base (f ∷ fs) (suc i) zero h le lt = absurd (omega arith)
end_at_mono base (f ∷ fs) (suc i) (suc j) h le lt =
    end_at_mono (base + f.size) fs i j h.1 (omega arith) (omega arith)

get_elem?-end_at :
    (files : List StoredFile) (i : ℕ)
    → i < length files
    → (f : StoredFile) × (get_elem? files i ≡ some f) × (file_end f ≡ end_at files i)
get_elem?-end_at [] i lt = absurd (omega arith)
get_elem?-end_at (f ∷ fs) zero lt = (f, refl, refl)
get_elem?-end_at (f ∷ fs) (suc i) lt = get_elem?-end_at fs i (omega arith)

-- The loop's result so far is the upper end of its range.
abbrev IsResult : List StoredFile → ℕ → Option ℕ → Type 0
IsResult files past result =
    ((past ≡ length files) × (result ≡ none)) ⊎ ((past < length files) × (result ≡ some past))

Finds-result :
    (files : List StoredFile) (off past : ℕ) (result : Option ℕ)
    → IsResult files past result
    → ((j : ℕ) → j < past → end_at files j ≤ off)
    → ((j : ℕ) → past ≤ j → j < length files → off < end_at files j)
    → Finds files off result
Finds-result files off past result (inl (all, e)) below above =
    subst (Finds files off) (sym e) (λ j lt. below j (omega arith))
Finds-result files off past result (inr (inside, e)) below above =
    subst (Finds files off) (sym e) (inside, above past (omega arith) inside, below)

module _ (base : ℕ) (files : List StoredFile) (laid : IsLaidOut base files) (off : ℕ) where
  find_loop-Finds :
      (fuel lo past : ℕ) (result : Option ℕ)
      → past - lo ≤ fuel
      → lo ≤ past
      → past ≤ length files
      → IsResult files past result
      → ((j : ℕ) → j < lo → end_at files j ≤ off)
      → ((j : ℕ) → past ≤ j → j < length files → off < end_at files j)
      → Finds files off (find_loop files off fuel lo past result)
  unfolding find_loop
  find_loop-Finds zero lo past result small le fits r below above =
      Finds-result files off past result r (λ j lt. below j (omega arith)) above
  find_loop-Finds (suc fuel) lo past result small le fits r below above =
      elim (Bool-cases (ltb lo past)) [
        | inr e ↦ rw e (
            Finds-result files off past result r (λ j lt. below j (omega (arith, ltb→le lo past e)))
              above)
        | inl e ↦
            let mid : ℕ = lo + (past - 1 - lo) / 2 in
            let inside : mid < past = omega (arith, ltb→lt lo past e) in
            let (f, found, at_mid) = get_elem?-end_at files mid (omega arith) in
            elim (Bool-cases (leb (file_end f) off)) [
              | inl q ↦
                  rw (e, found, q)
                    (find_loop-Finds fuel (mid + 1) past result (omega arith) (omega arith) fits r
                      (λ j lt. omega (
                        arith,
                        end_at_mono base files j mid laid (omega arith) (omega arith),
                        at_mid,
                        leb→le _ _ q,
                      ))
                      above)
              | inr q ↦
                  rw (e, found, q)
                    (find_loop-Finds fuel lo mid (some mid) (omega arith) (omega arith)
                      (omega arith) (inr (omega arith, refl)) below
                      (λ j ge lt.
                        omega
                          (arith, end_at_mono base files mid j laid ge lt, at_mid, leb→lt _ _ q)))
            ]
      ]

-- For files that are laid out one after another, the binary search returns the first file that ends
-- behind the offset, and nothing exactly when no file does.
pub find_file_for_piece-Finds :
    (files : List StoredFile) (base off : ℕ)
    → IsLaidOut base files
    → Finds files off (find_file_for_piece files off)
unfolding find_file_for_piece
find_file_for_piece-Finds files base off laid =
    find_loop-Finds base files laid off (length files) 0 (length files) none (omega arith)
      (omega arith) (omega arith) (inl (refl, refl)) (λ j lt. absurd (omega arith))
      (λ j ge lt. absurd (omega arith))
