-- ===== src/Batch/Pool/Family.antt =====
-- What one thread of src/batch.cpp changes among what belongs to all threads or to all jobs.
use torrent_builder.Common.{
  ℕ, zero, suc, ◌+◌, ◌*◌, ◌≤◌, ◌<◌, ◌≡◌, ◌≢◌, refl, ap, ◌∙◌, arith, ◌==◌, if◌then◌else◌, Bool-cases,
  inl, inr, ==_refl, true, false,
}

-- The family with another value at the key.
abbrev pub update : {A : Type 0} → (ℕ → A) → ℕ → A → ℕ → A
update family key value k = if k == key then value else family k

update_here :
    {A : Type 0} (family : ℕ → A) (key : ℕ) (value : A) → update family key value key ≡ value
update_here family key value = rw (==_refl key)

update_elsewhere :
    {A : Type 0} (family : ℕ → A) (key : ℕ) (value : A) (k : ℕ)
    → k ≢ key
    → update family key value k ≡ family k
update_elsewhere family key value k apart = ground arith

module _ {A : Type 0} (cost : A → ℕ) where
  -- The cost of the first members together.
  pub total : ℕ → (ℕ → A) → ℕ
  total zero family = 0
  total (suc n) family = cost (family n) + total n family

  total_cong :
      (n : ℕ) (old new : ℕ → A)
      → ((k : ℕ) → k < n → cost (new k) ≡ cost (old k))
      → total n new ≡ total n old
  unfolding total
  total_cong zero old new same = refl
  total_cong (suc n) old new same =
      omega (arith, same n (omega arith), total_cong n old new (λ k lt. same k (omega (arith, lt))))

  -- Two families that differ in one member differ by what this member costs.
  total_replace :
      (n key : ℕ) (old new : ℕ → A)
      → key < n
      → ((k : ℕ) → k ≢ key → cost (new k) ≡ cost (old k))
      → total n new + cost (old key) ≡ total n old + cost (new key)
  unfolding total
  total_replace zero key old new inside same = absurd (omega (arith, inside))
  total_replace (suc n) key old new inside same = elim (Bool-cases (n == key)) [
    | inl last ↦
        rw (the_key n key last)
          (omega (arith, total_cong key old new (λ k lt. same k (omega (arith, lt)))))
    | inr before ↦ omega (
      arith,
      same n (not_key n key before),
      total_replace n key old new (below n key inside before) same,
    )
  ]
    where
      the_key : (n key : ℕ) → n == key ≡ true → n ≡ key
      the_key n key e = ground arith

      not_key : (n key : ℕ) → n == key ≡ false → n ≢ key
      not_key n key e = ground arith

      below : (n key : ℕ) → key < suc n → n == key ≡ false → key < n
      below n key h e = ground arith

  pub total-update :
      (n : ℕ) (family : ℕ → A) (key : ℕ) (value : A)
      → key < n
      → total n (update family key value) + cost (family key) ≡ total n family + cost value
  total-update n family key value inside =
      total_replace n key family (update family key value) inside
        (λ k apart. ap cost (update_elsewhere family key value k apart))
      ∙ ap (λ a. total n family + cost a) (update_here family key value)

  pub total_bound : (c n : ℕ) (family : ℕ → A) → ((a : A) → cost a ≤ c) → total n family ≤ n * c
  unfolding total
  total_bound c zero family small = omega arith
  total_bound c (suc n) family small = omega (arith, small (family n), total_bound c n family small)

  pub total_even :
      (c n : ℕ) (family : ℕ → A) → ((k : ℕ) → cost (family k) ≡ c) → total n family ≡ n * c
  unfolding total
  total_even c zero family each = omega arith
  total_even c (suc n) family each = omega (arith, each n, total_even c n family each)
