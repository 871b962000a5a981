-- ===== src/Checker/Read/Write.antt =====
-- Writing over a part of a buffer of zeros.
use torrent_builder.Common.{
  ℕ, zero, suc, ◌+◌, ◌-◌, ◌≤◌, ◌≡◌, refl, sym, ap, ◌∙◌, Bytes, List, [], ◌∷◌, ◌++◌, length, take,
  drop, arith, length-replicate, replicate-add, take-length-append, drop-length-append,
}
use torrent_builder.Checker.{write_at, zeros}

pub take-append {ℓ} :
    {A : Type ℓ} (n : ℕ) (xs ys : List A) → n ≤ length xs → take n (xs ++ ys) ≡ take n xs
take-append zero xs ys h = refl
take-append (suc n) [] ys h = absurd (omega arith)
take-append (suc n) (x ∷ xs) ys h = rw (take-append n xs ys (omega arith))

pub drop-append {ℓ} :
    {A : Type ℓ} (n : ℕ) (xs ys : List A) → n ≤ length xs → drop n (xs ++ ys) ≡ drop n xs ++ ys
drop-append zero xs ys h = refl
drop-append (suc n) [] ys h = absurd (omega arith)
drop-append (suc n) (x ∷ xs) ys h = drop-append n xs ys (omega arith)

-- Behind `xs`, a drop goes on in `ys`.
pub drop-append_more {ℓ} :
    {A : Type ℓ} (n : ℕ) (xs ys : List A)
    → length xs ≤ n
    → drop n (xs ++ ys) ≡ drop (n - length xs) ys
drop-append_more n [] ys h = let e : n - 0 ≡ n = omega arith in rw e
drop-append_more zero (x ∷ xs) ys h = absurd (omega arith)
drop-append_more (suc n) (x ∷ xs) ys h =
    let e : suc n - suc (length xs) ≡ n - length xs = omega arith in
    rw e (drop-append_more n xs ys (omega arith))

pub take-append_more {ℓ} :
    {A : Type ℓ} (n : ℕ) (xs ys : List A)
    → length xs ≤ n
    → take n (xs ++ ys) ≡ xs ++ take (n - length xs) ys
take-append_more n [] ys h = let e : n - 0 ≡ n = omega arith in rw e
take-append_more zero (x ∷ xs) ys h = absurd (omega arith)
take-append_more (suc n) (x ∷ xs) ys h =
    let e : suc n - suc (length xs) ≡ n - length xs = omega arith in
    rw e (rw (take-append_more n xs ys (omega arith)))

pub zeros-add : (m n k : ℕ) → m + n ≡ k → zeros k ≡ zeros m ++ zeros n
zeros-add m n k h = ap zeros (sym h) ∙ sym (replicate-add m n 0)

pub drop-zeros : (m n k : ℕ) → m + n ≡ k → drop m (zeros k) ≡ zeros n
drop-zeros m n k h =
    let size : m ≡ length (zeros m) = sym (length-replicate m 0) in
    ap (drop m) (zeros-add m n k h)
    ∙ ap (λ j. drop j (zeros m ++ zeros n)) size
    ∙ drop-length-append (zeros m) (zeros n)

-- Text written where the zeros begin takes the place of as many zeros.
pub write_at-zeros :
    (front source : Bytes) (m n : ℕ)
    → length source + n ≡ m
    → write_at (front ++ zeros m) (length front) source ≡ front ++ (source ++ zeros n)
unfolding write_at
write_at-zeros front source m n h = rw (take-length-append front (zeros m), tail)
  where
    tail : drop (length front + length source) (front ++ zeros m) ≡ zeros n
    tail =
        drop-append_more (length front + length source) front (zeros m) (omega arith)
        ∙ ap (λ j. drop j (zeros m)) (cancel (length front) (length source))
        ∙ drop-zeros (length source) n m h
      where
        cancel : (a b : ℕ) → a + b - a ≡ b
        cancel a b = omega arith

pub take-zeros : (m n k : ℕ) → m + n ≡ k → take m (zeros k) ≡ zeros m
take-zeros m n k h =
    let size : m ≡ length (zeros m) = sym (length-replicate m 0) in
    ap (take m) (zeros-add m n k h)
    ∙ ap (λ j. take j (zeros m ++ zeros n)) size
    ∙ take-length-append (zeros m) (zeros n)
