-- ===== src/Filename/Truncate.antt =====
-- What `truncate_filename` keeps.
pub mod Walk
pub mod Chars
pub mod Utf8
use torrent_builder.Common.{
  ℕ, zero, suc, ◌+◌, ◌-◌, ◌≤◌, ◌<◌, ◌≡◌, ◌≢◌, refl, sym, ap, ◌∙◌, subst, ◌⊎◌, inl, inr, Bytes, List,
  [], ◌∷◌, ◌++◌, Bool, true, false, not, ◌&&◌, if◌then◌else◌, Bool-cases, Option, none, some,
  Option-cases, ltb, leb, ◌==◌, arith, length, take, drop, length-append, length-take, length-drop,
  ltb→lt, ltb→le, leb→le, leb→lt, lt→leb, le→leb, get_or,
}
use torrent_builder.Filename.{
  extension, is_continuation, is_lead, expected_continuations, walk_back, settle, cut_length,
  truncate_filename,
}

walk_back-le : (s : Bytes) (n : ℕ) → walk_back s n ≤ n
unfolding walk_back
walk_back-le s zero = omega arith
walk_back-le s (suc n) = ground (arith, walk_back-le s n)

settle-le : (s : Bytes) (m n : ℕ) → n ≤ m → settle s m n ≤ m
unfolding settle
settle-le s m zero h = omega arith
settle-le s m (suc n) h = ground arith

pub cut_length-le : (s : Bytes) (n : ℕ) → cut_length s n ≤ n
unfolding cut_length
cut_length-le s n = settle-le s n (walk_back s n) (walk_back-le s n)

-- A name that is too long becomes a beginning of it with its extension, within the limit, if the
-- extension alone is within it; in every other case the name stays as it is.
pub truncate_filename_lem :
    (filename : Bytes) (max_bytes : ℕ)
    → ((max_bytes < length filename) × (length (extension filename) < max_bytes)
        → (n : ℕ) × (truncate_filename filename max_bytes ≡ take n filename ++ extension filename)
          × (0 < n)
          × (length (truncate_filename filename max_bytes) ≤ max_bytes))
      × ((length filename ≤ max_bytes) ⊎ (max_bytes ≤ length (extension filename))
          → truncate_filename filename max_bytes ≡ filename)
unfolding truncate_filename
truncate_filename_lem filename max_bytes = (cut, keep)
  where
    n : ℕ
    n = cut_length filename (max_bytes - length (extension filename))

    kept : ℕ
    kept = if n == 0 then 1 else n

    kept_bounds :
        length (extension filename) < max_bytes
        → (0 < kept) × (kept ≤ max_bytes - length (extension filename))
    kept_bounds h = ground (arith, cut_length-le filename (max_bytes - length (extension filename)))

    cut :
        (max_bytes < length filename) × (length (extension filename) < max_bytes)
        → (k : ℕ) × (truncate_filename filename max_bytes ≡ take k filename ++ extension filename)
          × (0 < k)
          × (length (truncate_filename filename max_bytes) ≤ max_bytes)
    cut (long, room) =
        let (some_byte, bound) = kept_bounds room in
        let e : truncate_filename filename max_bytes ≡ take kept filename ++ extension filename =
          rw (lt→leb _ _ long, lt→leb _ _ room) in
        (
          kept,
          e,
          some_byte,
          rw e (
              omega (
                arith,
                bound,
                room,
                length-append (take kept filename) (extension filename),
                length-take kept filename,
              )),
        )

    keep :
        (length filename ≤ max_bytes) ⊎ (max_bytes ≤ length (extension filename))
        → truncate_filename filename max_bytes ≡ filename
    keep (inl fits) = rw (le→leb _ _ fits)
    keep (inr big) = elim (Bool-cases (leb (length filename) max_bytes)) [
      | inl fits ↦ rw fits
      | inr long ↦ rw (long, le→leb _ _ big)
    ]
