-- ===== src/SeasonPack/Gaps.antt =====
-- The episodes that `analyze` of src/season_pack.cpp finds and those that it misses.
use torrent_builder.Common.{
  ℕ, zero, suc, ◌+◌, ◌≤◌, ◌<◌, ◌≡◌, ◌≢◌, inl, inr, refl, arith, List, [], ◌∷◌, Bool, true, false,
  not, ◌&&◌, ltb, leb, ◌==◌, Bool-cases, length, any, All,
}
use torrent_builder.SeasonPack.Analyze.{missing_from}

-- Each number is below every later one.
abbrev pub IsIncreasing : List ℕ → Type 0
IsIncreasing [] = Unit
IsIncreasing (x ∷ xs) = All (λ y. x < y) xs × IsIncreasing xs

abbrev pub is_in : ℕ → List ℕ → Bool
is_in x = any (λ e. e == x)

missing_from-below :
    (e : ℕ) (es : List ℕ) (i n : ℕ) → e < i → missing_from (e ∷ es) i n ≡ missing_from es i n
unfolding missing_from
missing_from-below e es i zero h = refl
missing_from-below e es i (suc n) h = ground (arith, missing_from-below e es (i + 1) n)

raised :
    (i n : ℕ) (es : List ℕ)
    → All (λ y. i < y) es
    → All (λ y. y < i + suc n) es
    → All (λ y. (i + 1 ≤ y) × (y < i + 1 + n)) es
raised i n [] a b = tt
raised i n (e ∷ es) (h, a) (k, b) = ((omega (arith, h), omega (arith, k)), raised i n es a b)

outside : (i : ℕ) (es : List ℕ) → All (λ y. i < y) es → is_in i es ≡ false
outside i [] a = refl
outside i (e ∷ es) (h, a) = ground (arith, outside i es a)

below : (i n : ℕ) (es : List ℕ) → All (λ y. (i ≤ y) × (y < i + n)) es → All (λ y. y < i + n) es
below i n [] a = tt
below i n (e ∷ es) (h, a) = (h.1, below i n es a)

pub above_from : (i e : ℕ) (es : List ℕ) → i ≤ e → All (λ y. e < y) es → All (λ y. i < y) es
above_from i e [] h a = tt
above_from i e (x ∷ es) h (k, a) = (omega (arith, h, k), above_from i e es h a)

same_number : (i x : ℕ) → i == x ≡ true → i ≡ x
same_number i x h = ground arith

differs : (e i : ℕ) → e == i ≡ false → e ≢ i
differs e i h = ground arith

-- Of a range of numbers, those in an increasing list and those missing from it make up all.
pub length-missing_from :
    (es : List ℕ) (i n : ℕ)
    → IsIncreasing es
    → All (λ y. (i ≤ y) × (y < i + n)) es
    → length es + length (missing_from es i n) ≡ n
unfolding missing_from
length-missing_from [] i zero s a = omega arith
length-missing_from [] i (suc n) s a = omega (arith, length-missing_from [] (i + 1) n tt tt)
length-missing_from (e ∷ es) i zero s (h, a) = absurd (omega (arith, h))
length-missing_from (e ∷ es) i (suc n) (l, s) (h, a) = elim (Bool-cases (e == i)) [
  | inl same ↦
      rw (same, missing_from-below e es (i + 1) n (ground arith))
        (ground (
          arith,
          length-missing_from es (i + 1) n s
              (raised i n es (above_from i e es (ground arith) l) (below i (suc n) es a)),
        ))
  | inr other ↦
      let l' : All (λ y. i < y) es = above_from i e es h.0 l in
      rw (other, outside i es l')
        (ground (
          arith,
          length-missing_from (e ∷ es) (i + 1) n (l, s)
              (
                (omega (arith, differs e i other, h), omega (arith, h)),
                raised i n es l' (below i (suc n) es a),
              ),
        ))
]

-- A number is missing exactly if it lies in the range and the list lacks it.
pub is_in-missing_from :
    (x : ℕ) (es : List ℕ) (i n : ℕ)
    → is_in x (missing_from es i n) ≡ (leb i x && (ltb x (i + n) && not (is_in x es)))
unfolding missing_from
is_in-missing_from x es i zero = ground arith
is_in-missing_from x es i (suc n) = elim (Bool-cases (is_in i es)) [
  | inl found ↦
      rw (found, is_in-missing_from x es (i + 1) n)
        (elim (Bool-cases (i == x)) [
          | inl same ↦ rw (← same_number i x same, found) (ground arith)
          | inr other ↦ ground arith
        ])
  | inr missed ↦
      rw (missed, is_in-missing_from x es (i + 1) n)
        (elim (Bool-cases (i == x)) [
          | inl same ↦ rw (← same_number i x same, missed) (ground arith)
          | inr other ↦ ground arith
        ])
]
