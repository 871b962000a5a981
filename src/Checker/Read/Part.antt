-- ===== src/Checker/Read/Part.antt =====
-- The part of one file that lies in the piece, and how it comes into the buffer.
use torrent_builder.Common.{
  ℕ, ◌+◌, ◌-◌, ◌≤◌, ◌<◌, ◌≡◌, sym, ap, ap₂, ◌∙◌, Bytes, ◌++◌, append-nil, Bool-cases, some, leb,
  length, take, drop, arith, leb→le, leb→lt, le→ltb, length-take, length-drop, take_all, ◌⊎◌, inl,
  inr,
}
use Prim.Native.Nat.{min, max}
use torrent_builder.Checker.{StoredFile, file_end, Disk, read_file}
use torrent_builder.Checker.{zeros}
use torrent_builder.Checker.Read.Write.{
  take-append, drop-append, take-append_more, write_at-zeros, zeros-add, drop-zeros, take-zeros,
}

-- A file whose bytes are read in full, or in part up to the end of the piece.
take-split :
    (m k n : ℕ) (d s : Bytes)
    → k + n ≡ m
    → (k ≡ length d) ⊎ ((k ≤ length d) × (n ≡ 0))
    → take m (d ++ s) ≡ take k d ++ take n s
take-split m k n d s e (inl whole) =
    rw (take-append_more m d s (omega arith))
      (ap₂ ◌++◌ (sym (ap (λ j. take j d) whole ∙ take_all d)) (ap (λ j. take j s) (omega arith)))
take-split m k n d s e (inr (part, nothing)) =
    let same : m ≡ k = omega arith in
    rw (same, nothing) (take-append k d s part ∙ sym (append-nil (take k d)))

module _ (ps pe : ℕ) (disk : Disk) where
  -- How many bytes of a file at `base` with the size `size` lie in the piece.
  abbrev pub overlap : ℕ → ℕ → ℕ
  overlap base size = min (base + size) pe - max base ps

  -- The bytes of the file that lie in the piece.
  abbrev pub part : ℕ → ℕ → Bytes → Bytes
  part base size c = take (overlap base size) (drop (ps - base) c)

  pub length-part :
      (base size : ℕ) (c : Bytes)
      → base < pe
      → ps < base + size
      → length c ≡ size
      → length (part base size c) ≡ overlap base size
  length-part base size c a b e = omega (
    arith,
    length-take (min (base + size) pe - max base ps) (drop (ps - base) c),
    length-drop (ps - base) c,
  )

  pub read_file-part :
      (base : ℕ) (f : StoredFile) (c front : Bytes) (m n : ℕ)
      → f.offset ≡ base
      → base < pe
      → ps < base + f.size
      → disk f.path ≡ some c
      → length c ≡ f.size
      → length front ≡ min base pe - ps
      → overlap base f.size + n ≡ m
      → read_file ps pe disk f (front ++ zeros m) ≡ front ++ (part base f.size c ++ zeros n)
  unfolding read_file
  read_file-part base f c front m n o a b found size at rest =
      let pos : max f.offset ps - ps ≡ length front = omega arith in
      let start : max f.offset ps - f.offset ≡ ps - base = omega arith in
      let count : min (file_end f) pe - f.offset - (ps - base) ≡ overlap base f.size =
        omega arith in
      let whole : length (part base f.size c) + n ≡ m =
        omega (arith, length-part base f.size c a b size) in
      rw
        (
          found,
          read_file,
          le→ltb f.size (min (file_end f) pe - f.offset) (omega arith),
          pos,
          start,
          count,
        )
        (write_at-zeros front (part base f.size c) m n whole)

  -- The bytes of the stream from the piece's position on, when the file lies in the piece.
  pub take-part :
      (base size : ℕ) (c s : Bytes) (m n : ℕ)
      → base < pe
      → ps < base + size
      → length c ≡ size
      → overlap base size + n ≡ m
      → m ≡ pe - max base ps
      → take m (drop (ps - base) (c ++ s))
        ≡ part base size c ++ take n (drop (ps - (base + size)) s)
  take-part base size c s m n a b e rest all =
      let past : ps - (base + size) ≡ 0 = omega arith in
      rw (drop-append (ps - base) c s (omega arith), past)
        (take-split m (overlap base size) n (drop (ps - base) c) s rest sides)
    where
      sides :
          (overlap base size ≡ length (drop (ps - base) c))
          ⊎ ((overlap base size ≤ length (drop (ps - base) c)) × (n ≡ 0))
      sides = elim (Bool-cases (leb (base + size) pe)) [
        | inl q ↦ inl (omega (arith, leb→le (base + size) pe q, length-drop (ps - base) c))
        | inr q ↦ inr (
          omega (arith, leb→lt (base + size) pe q, length-drop (ps - base) c),
          omega (arith, leb→lt (base + size) pe q),
        )
      ]

  pub part-zeros :
      (base size m : ℕ)
      → base < pe
      → ps < base + size
      → overlap base size ≤ m
      → zeros m ≡ part base size (zeros size) ++ zeros (m - overlap base size)
  part-zeros base size m a b h =
      let j : ℕ = size - (ps - base) in
      zeros-add (overlap base size) (m - overlap base size) m (omega arith)
      ∙ ap (λ t. t ++ zeros (m - overlap base size))
          (sym (
            ap (take (overlap base size))
              (drop-zeros (ps - base) (size - (ps - base)) size (omega arith))
            ∙ take-zeros (overlap base size) (j - overlap base size) (size - (ps - base))
                (omega arith)))
